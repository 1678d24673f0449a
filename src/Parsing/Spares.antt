-- ===== src/Parsing/Spares.antt =====
-- src/lib/pipeline.ts: a parse deletes no source that the provider may be reading, and loses no cost.
use monidhackson.Base.{
  ◌≡◌, ◌⊎◌, String, true, false, [], none, some, is_some, lookup, get_or, or_else, if◌then◌else◌,
  ◌∷◌,
}
use monidhackson.Errors.{AppError, ok}
use monidhackson.Contracts.{CostEvent}
use monidhackson.Runs.Types.{RunRecord, Instant, SourceCleanupWatchdog, captured, cleanup_confirmed}
use monidhackson.Runs.Store.{InMemoryRunStore}
use monidhackson.Watchdog.{watchdog_by_id}
use monidhackson.Watchdog.Calls.{Capture}
use monidhackson.Cleanup.{execute_cleanup}
use monidhackson.Parsing.{
  ParseInput, ParseAttempt, ParseOutcome, lost, first_failure, before_paid_dispatch,
}

-- The result of the paid call is recorded on its watchdog.
abbrev pub IsCapturedIn : String → String → InMemoryRunStore → Type 0
IsCapturedIn run_id id s =
    (r : RunRecord) × (w : SourceCleanupWatchdog) × (lookup run_id s.records ≡ some r)
    × (watchdog_by_id r id ≡ some w)
    × (is_some w.provider_result_captured_at ≡ true)

-- The watchdog once its result is captured.
abbrev captured_watchdog : Capture → Instant → SourceCleanupWatchdog → SourceCleanupWatchdog
captured_watchdog c now w = record w {
  status = if is_some w.cleanup_confirmed_at then cleanup_confirmed else captured;
  provider_result_captured_at = some (get_or w.provider_result_captured_at now);
  provider_result_id_sha256 = or_else w.provider_result_id_sha256 c.provider_result_id_sha256;
}

module _ (meanwhile : InMemoryRunStore → InMemoryRunStore) (p : ParseInput) where
  -- The paid request is made: nothing forbids it, and the call is recorded in the store.
  abbrev pub IsDispatched : InMemoryRunStore → InMemoryRunStore → Type 0
  IsDispatched s t =
      (first_failure (p.window ∷ p.signing ∷ p.heartbeat ∷ p.unsent ∷ []) ≡ none)
      × ((u : RunRecord) × (before_paid_dispatch meanwhile p (meanwhile s) ≡ ok (t, u)))

  -- What holds of an attempt. The call starts only once it is recorded; a captured result is on
  -- its watchdog; a document is parsed only with a captured result; the cost of a call that was
  -- started carries the id of its attempt, and there is none without a call. Where the request is
  -- made, the call counts as started, and its result as captured only if there was an answer.
  pub record IsSound (s : InMemoryRunStore) (a : ParseAttempt) : Type 0 where
    pub recorded :
        a.is_started ≡ true
        → (t : InMemoryRunStore) × (u : RunRecord) × (before_paid_dispatch meanwhile p (meanwhile s)
            ≡ ok (t, u))
    pub captured_in : a.is_captured ≡ true → IsCapturedIn p.run_id p.registration_id a.store
    pub parsed_captured : is_some a.parsed ≡ true → a.is_captured ≡ true
    pub cost_named :
        a.is_started ≡ true
        → (c : CostEvent) × (a.cost ≡ some c) × (c.attempt_id ≡ some p.registration_id)
    pub no_cost : a.is_started ≡ false → a.cost ≡ none
    pub started : (t : InMemoryRunStore) × IsDispatched s t → a.is_started ≡ true
    pub unanswered :
        (t : InMemoryRunStore) × (e : AppError) × IsDispatched s t × (p.answer ≡ lost e)
        → a.is_captured ≡ false

  -- The parse of a document, with what its attempt has left.
  pub record Spares (s : InMemoryRunStore) (a : ParseAttempt) (o : ParseOutcome) : Type 0 where
    pub sound : IsSound s a
    pub cost : o.cost ≡ a.cost
    pub parsed : o.parsed ≡ a.parsed
    pub spared : (a.is_started ≡ true) × (a.is_captured ≡ false) → o.source_cleanup_receipts ≡ []
    pub deleted :
        (a.is_started ≡ false) ⊎ (a.is_captured ≡ true)
        → o.source_cleanup_receipts ≡ execute_cleanup p.targets p.now
    pub kept_unanswered :
        (t : InMemoryRunStore) × (e : AppError) × IsDispatched s t × (p.answer ≡ lost e)
        → (o.source_cleanup_receipts ≡ []) × (is_some o.cost ≡ true)
