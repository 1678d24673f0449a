-- ===== src/Parsing/Batches.antt =====
-- src/lib/pipeline.ts: the loop over the batches of documents in processRun. The parses of a batch
-- run at the same time; here they follow one another, and what the others do meanwhile is the
-- argument `meanwhile`. The random ids and the answer of the workflow service are arguments too.
use monidhackson.Base.{
  ℕ, zero, suc, String, Bool, true, false, not, ◌&&◌, ◌||◌, List, [], ◌∷◌, ◌++◌, Option, none, some,
  is_none, is_some, map, any, take, if◌then◌else◌,
}
use monidhackson.Errors.{AppError, Result, ok, err, ◌>>=◌, source_cleanup_pending}
use monidhackson.Runs.Types.{Instant, CleanupReceipt}
use monidhackson.Runs.Store.{InMemoryRunStore, Claim}
use monidhackson.PageIndex.{drop}
use monidhackson.Cleanup.{CleanupTarget, execute_cleanup, is_application, is_deleted}
use monidhackson.Watchdog.{arm_source_cleanup_watchdog, record_source_cleanup_watchdog_scheduled}
use monidhackson.Parsing.{ParseInput, ParseOutcome, parse_document}

abbrev pub monid_parse_concurrency : ℕ
monid_parse_concurrency = 4

-- `input` is the parse of the document under its registration.
pub record IndexedSource : Type 0 where
  pub document_index : ℕ
  pub document_id : String
  pub watched_resource_ids : List String
  pub targets : List CleanupTarget
  pub heartbeat : Option AppError
  pub input : String → ParseInput

abbrev pub watchdog_not_acknowledged : AppError
watchdog_not_acknowledged = record {
  code = source_cleanup_pending;
  message =
      "The paid provider calls were blocked because their independent cleanup watchdog was not acknowledged.";
  http_status = 400;
  retryable = true;
}

unfoldable pub is_undeleted : CleanupReceipt → Bool
is_undeleted r = is_application r.control_scope && not (is_deleted r.status)

unfoldable pub has_failed : ParseOutcome → Bool
has_failed o =
    is_some o.parse_error || is_some o.worker_error || any is_undeleted o.source_cleanup_receipts

-- A source that was staged and never sent is deleted all the same.
abbrev pub not_sent : Instant → IndexedSource → ParseOutcome
not_sent now d = record {
  document_index = d.document_index;
  parsed = none;
  parse_error = none;
  worker_error = none;
  cost = none;
  source_cleanup_receipts = execute_cleanup d.targets now;
}

abbrev pub labelled : ℕ → ParseOutcome → ParseOutcome
labelled index o = record o { document_index = index }

abbrev pub Step : Type 0 → Type 0
Step A = InMemoryRunStore × Result A

module _ (meanwhile : InMemoryRunStore → InMemoryRunStore) where
  unfoldable pub parse_all :
      List IndexedSource → List String → InMemoryRunStore → InMemoryRunStore × List ParseOutcome
  parse_all (d ∷ ds) (id ∷ ids) s =
      let (t, o) = parse_document meanwhile (d.input id) s in
      let (u, os) = parse_all ds ids t in (u, labelled d.document_index o ∷ os)
  parse_all _ _ s = (s, [])

module _ (meanwhile : InMemoryRunStore → InMemoryRunStore) (run_id : String) (claim : Claim)
    (now : Instant) where
  -- One watchdog for each source, one after the other.
  unfoldable pub arm_all : (ℕ → String) → List IndexedSource → InMemoryRunStore → Step (List String)
  arm_all uuid_of [] s = (s, ok [])
  arm_all uuid_of (d ∷ ds) s = elim d.heartbeat [
    | some e ↦ (s, err e)
    | none ↦
        elim (arm_source_cleanup_watchdog (uuid_of d.document_index) run_id d.document_index
          d.document_id d.watched_resource_ids claim now (meanwhile s)) [
            | err e ↦ (meanwhile s, err e)
            | ok (t, w) ↦
                let (u, ids) = arm_all uuid_of ds t in
                (u, ids >>= λ rest. ok (w.registration_id ∷ rest))
          ]
  ]

  unfoldable pub record_all :
      List String → List String → Option String → InMemoryRunStore → Step (List String)
  record_all all [] workflow s = (s, ok all)
  record_all all (id ∷ ids) workflow s =
      elim (record_source_cleanup_watchdog_scheduled run_id id workflow claim now (meanwhile s)) [
        | err e ↦ (meanwhile s, err e)
        | ok (t, u) ↦ record_all all ids workflow t
      ]

module _ (meanwhile : InMemoryRunStore → InMemoryRunStore) (is_production : Bool)
    (uuid_of : ℕ → String) (schedule_watchdog : List String → Result (Option String))
    (run_id : String) (claim : Claim) (now : Instant) where
  -- The watchdogs of a batch are armed, their workflow is started, and that is recorded on each.
  unfoldable pub register_batch : List IndexedSource → InMemoryRunStore → Step (List String)
  register_batch batch s =
      let (t, armed) = arm_all meanwhile run_id claim now uuid_of batch s in
      elim armed [
        | err e ↦ (t, err e)
        | ok ids ↦ elim (schedule_watchdog ids) [
          | err e ↦ (t, err e)
          | ok workflow ↦
              if is_production && is_none workflow
              then (t, err watchdog_not_acknowledged)
              else record_all meanwhile run_id claim now ids ids workflow t
        ]
      ]

  -- The outcomes of a batch and, unless it failed, of those that follow.
  unfoldable pub parse_batches :
      ℕ → List IndexedSource → InMemoryRunStore → Step (List ParseOutcome)
  parse_batches zero ds s = (s, ok [])
  parse_batches (suc fuel) [] s = (s, ok [])
  parse_batches (suc fuel) (d ∷ ds) s =
      let batch = take monid_parse_concurrency (d ∷ ds) in
      let later = drop monid_parse_concurrency (d ∷ ds) in
      let (t, registered) = register_batch batch s in
      elim registered [
        | err e ↦ (t, err e)
        | ok ids ↦
            let (u, outcomes) = parse_all meanwhile batch ids t in
            elim (any has_failed outcomes) [
              | true ↦ (u, ok (outcomes ++ map (not_sent now) later))
              | false ↦
                  let (v, more) = parse_batches fuel later u in
                  (v, more >>= λ rest. ok (outcomes ++ rest))
            ]
      ]
