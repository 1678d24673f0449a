-- ===== src/Publication/Withdrawal.antt =====
-- src/lib/pipeline.ts: what a run that throws leaves behind. The targets known so far, the costs
-- incurred and the exception are arguments; `serialize` is JSON.stringify of a cost event.
use monidhackson.Base.{
  ℕ, String, Bool, true, false, not, ◌&&◌, ◌||◌, List, [], ◌∷◌, ◌++◌, Option, none, some, is_some,
  is_none, filter, any, includes, map, lookup, insert, max, text_eq, if◌then◌else◌,
}
use monidhackson.Errors.{AppError, Result, ok, err}
use monidhackson.Contracts.{
  RunStatus, ready, partial, expired, failed, cleanup_pending, status_eq, has_status, CostEvent,
}
use monidhackson.Runs.Types.{
  RunRecord, RunFailure, Instant, CleanupReceipt, to_failed, SourceCleanupWatchdog,
}
use monidhackson.Runs.Transition.{transition_run}
use monidhackson.Runs.Store.Record.{leb_opt}
use monidhackson.Runs.Store.{InMemoryRunStore, Claim, update, get, truthy}
use monidhackson.Cleanup.{
  CleanupTarget, execute_cleanup, cleanup_gate_of, is_application, is_deleted,
}
use monidhackson.Ledger.{committed}
use monidhackson.Watchdog.Runner.{merge_cleanup_receipts, source_cleanup_authorized}
use monidhackson.Budget.{BudgetConfig, settle}
use monidhackson.Publication.{Ledgers}

-- The last update for an attempt wins.
abbrev pub replacements : List CostEvent → List (String × CostEvent) → List (String × CostEvent)
replacements [] m = m
replacements (e ∷ es) m = elim (truthy e.attempt_id) [
  | none ↦ replacements es m
  | some id ↦ replacements es (insert id e m)
]

abbrev pub replacement_of : List (String × CostEvent) → CostEvent → Option CostEvent
replacement_of m e = elim (truthy e.attempt_id) [ none ↦ none | some id ↦ lookup id m ]

abbrev pub replaced : List (String × CostEvent) → CostEvent → CostEvent
replaced m e = elim (replacement_of m e) [ none ↦ e | some new ↦ new ]

-- The attempts of the existing events that were replaced.
abbrev pub seen_attempts : List (String × CostEvent) → List CostEvent → List String
seen_attempts m [] = []
seen_attempts m (e ∷ es) =
    let rest = seen_attempts m es in
    if is_none (replacement_of m e)
    then rest
    else elim (truthy e.attempt_id) [ none ↦ rest | some id ↦ id ∷ rest ]

module _ (serialize : CostEvent → String) where
  abbrev pub append_new : List String → List CostEvent → List CostEvent → List CostEvent
  append_new seen [] merged = merged
  append_new seen (e ∷ es) merged = elim (truthy e.attempt_id) [
    | some id ↦ append_new seen es (if includes id seen then merged else merged ++ e ∷ [])
    | none ↦
        append_new seen es (
          if any (λ x. text_eq (serialize x) (serialize e)) merged
          then merged
          else merged ++ e ∷ [])
  ]

  unfoldable pub merge_attempt_costs : List CostEvent → List CostEvent → List CostEvent
  merge_attempt_costs existing updates =
      let m = replacements updates [] in
      append_new (seen_attempts m existing) updates (map (replaced m) existing)

-- The reduction of the costs to what was observed, or else estimated.
abbrev pub incurred : List CostEvent → ℕ
incurred costs = committed costs

abbrev pub has_deleted : List CleanupReceipt → String → Bool
has_deleted [] id = false
has_deleted (c ∷ cs) id = (is_deleted c.status && text_eq c.resource_id id) || has_deleted cs id

abbrev pub receipts_of : Option RunRecord → List CleanupReceipt
receipts_of none = []
receipts_of (some r) = r.cleanup_receipts

abbrev pub is_authorized : Option RunRecord → String → Instant → Bool
is_authorized none id now = true
is_authorized (some r) id now = source_cleanup_authorized r id now

-- The targets that are still to be deleted, and may be.
unfoldable pub pending_targets :
    Option RunRecord → List CleanupTarget → Instant → List CleanupTarget
pending_targets r targets now =
    filter
      (λ t.
        (not (is_application t.control_scope) || not (has_deleted (receipts_of r) t.resource_id))
        && is_authorized r t.resource_id now)
      targets

abbrev pub may_be_read : Instant → SourceCleanupWatchdog → Bool
may_be_read now w =
    is_some w.provider_call_started_at
    && is_none w.provider_result_captured_at
    && is_some w.source_access_expires_at
    && not (leb_opt w.source_access_expires_at now)

abbrev pub forced : RunStatus → RunRecord → RunRecord
forced desired r = record r {
  status = desired;
  stage = desired;
  progress = if status_eq desired failed then 100 else 96;
}

-- A transition that the state machine refuses is forced.
unfoldable pub moved : RunStatus → Instant → RunRecord → RunRecord
moved desired now r =
    if status_eq r.status desired || has_status (ready ∷ partial ∷ expired ∷ []) r.status
    then r
    else elim (transition_run r desired now) [ err e ↦ forced desired r | ok t ↦ t ]

module _ (serialize : CostEvent → String) (costs : List CostEvent) (f : RunFailure)
    (now : Instant) where
  unfoldable pub withdrawn : List CleanupReceipt → RunRecord → Result RunRecord
  withdrawn fresh r =
      let known = merge_cleanup_receipts r.cleanup_receipts fresh in
      let confirmed = cleanup_gate_of r.cleanup_expected_resource_ids known in
      let all_costs = merge_attempt_costs serialize r.costs costs in
      ok (record (moved (if confirmed then failed else cleanup_pending) now r) {
        cleanup_receipts = known;
        is_cleanup_confirmed = confirmed;
        result = none;
        citation_receipts = [];
        terminal_after_cleanup = if confirmed then none else some to_failed;
        processing_lease_id = none;
        processing_lease_expires_at =
            if any (may_be_read now) r.source_cleanup_watchdogs
            then r.processing_lease_expires_at
            else none;
        costs = all_costs;
        cost_micro_usd = incurred all_costs;
        error = some f;
        updated_at = now;
      })

-- What is charged for a run that failed; a live run keeps its whole reservation.
unfoldable pub failure_settlement : Bool → ℕ → ℕ → ℕ → ℕ
failure_settlement is_live cost spent reserved =
    if is_live then max (max cost spent) reserved else max cost spent

module _ (c : BudgetConfig) (serialize : CostEvent → String) (is_live : Bool) (reserved : ℕ)
    (costs : List CostEvent) (f : RunFailure) (meanwhile : InMemoryRunStore → InMemoryRunStore)
    (run_id : String) (claim : Claim) (now : Instant) where
  unfoldable pub settle_failure : RunRecord → Ledgers → Ledgers × Result RunRecord
  settle_failure v (s, m) =
      elim (settle c run_id
        (some (failure_settlement is_live v.cost_micro_usd (incurred costs) reserved)) m) [
          | err e ↦ ((s, m), err e)
          | ok m' ↦ ((s, m'), ok v)
        ]

  -- From the last deletions on. A worker that was fenced off leaves the run as it finds it.
  unfoldable pub store_failure : AppError → Ledgers → Ledgers × Result RunRecord
  store_failure refusal (s, m) = elim (get run_id s) [
    | none ↦ ((s, m), err refusal)
    | some current ↦ settle_failure current (s, m)
  ]

  unfoldable pub withdraw : List CleanupTarget → Ledgers → Ledgers × Result RunRecord
  withdraw targets (s, m) =
      let pending = pending_targets (get run_id s) targets now in
      let fresh = execute_cleanup pending now in
      elim (update run_id (withdrawn serialize costs f now fresh) (some claim) (meanwhile s)) [
        | err refusal ↦ store_failure refusal (meanwhile s, m)
        | ok (s', v) ↦ settle_failure v (s', m)
      ]
