-- ===== src/Publication.antt =====
-- src/lib/pipeline.ts: the end of a run that was analysed, from its last deletions to the stored
-- result. The result, its citation receipts, its cost and its audits are arguments, and so are the
-- tests of the deadline, which `is_late` answers for each point, and the failure of the heartbeat.
pub mod Releases
pub mod Withdrawal
pub mod Charges
use monidhackson.Base.{
  ℕ, ◌≡◌, refl, sym, ap, subst, ◌∙◌, inl, inr, String, Bool, true, false, not, ◌&&◌, List, ◌++◌,
  Option, none, some, is_some, lookup, if◌then◌else◌, Bool-cases, Option-cases, arith,
}
use monidhackson.Errors.{
  AppError, Result, ok, err, ◌>>=◌, >>=-eq-ok, ok-injective, Result-cases, analysis_incomplete,
  source_cleanup_pending,
}
use monidhackson.Contracts.{RunStatus, ready, partial, cleanup_pending, CostEvent}
use monidhackson.Runs.Types.{RunRecord, Instant, Snapshot, CleanupReceipt, to_failed}
use monidhackson.Runs.Transition.{transition_run}
use monidhackson.Runs.Store.{InMemoryRunStore, Claim, processing_claim, is_stale, update}
use monidhackson.Runs.Store.Opening.{update-eq-ok}
use monidhackson.Cleanup.{CleanupTarget, execute_cleanup, cleanup_gate_of, cleanup_gate}
use monidhackson.Expiry.Closing.{entered_status}
use monidhackson.Watchdog.Runner.{
  merge_cleanup_receipts, all_captured_source_watchdogs_clean, application_cleanup_is_releasable,
}
use monidhackson.Budget.{BudgetConfig, Reservations, settle}

-- What the analysis has made.
pub record Materialized : Type 0 where
  pub result : Snapshot
  pub receipts : List Snapshot
  pub costs : List CostEvent
  pub total_micro_usd : ℕ
  pub is_incomplete : Bool
  pub record_authority_audit : Snapshot
  pub submission_adjudication_audit : Snapshot

pub data Deadline : Type 0 where
  before_settlement after_settlement : Deadline

unfoldable pub terminal_status_for_analysis : Bool → RunStatus
terminal_status_for_analysis true = partial
terminal_status_for_analysis false = ready

abbrev pub deletion_unconfirmed : AppError
deletion_unconfirmed = record {
  code = source_cleanup_pending;
  message = "Raw-resource deletion could not be confirmed; the run is not ready.";
  http_status = 400;
  retryable = true;
}

abbrev pub result_deadline_passed : AppError
result_deadline_passed = record {
  code = analysis_incomplete;
  message =
      "The final-ready-transition time budget was exhausted before a result could be released.";
  http_status = 400;
  retryable = true;
}

-- `mergeReceipts` of the source repeats the code of `mergeCleanupReceipts`.
abbrev pub is_releasable_with : RunRecord → List CleanupReceipt → Bool
is_releasable_with r known =
    cleanup_gate_of r.cleanup_expected_resource_ids known && all_captured_source_watchdogs_clean r

-- The first update: the last receipts and the costs. The result stays dark.
unfoldable pub with_last_receipts :
    Materialized → List CleanupReceipt → Instant → RunRecord → Result RunRecord
with_last_receipts a fresh now r =
    let known = merge_cleanup_receipts r.cleanup_receipts fresh in
    ok (record r {
      cleanup_receipts = known;
      citation_receipts =
          if is_releasable_with r known
          then r.citation_receipts ++ a.receipts
          else r.citation_receipts;
      costs = a.costs;
      cost_micro_usd = a.total_micro_usd;
      result = none;
      is_cleanup_confirmed = is_releasable_with r known;
      updated_at = now;
    })

unfoldable pub withheld : Instant → RunRecord → Result RunRecord
withheld now r = transition_run r cleanup_pending now >>= λ t.
    ok (record t { result = none; terminal_after_cleanup = some to_failed })

unfoldable pub published : Materialized → Instant → RunRecord → Result RunRecord
published a now r = transition_run r (terminal_status_for_analysis a.is_incomplete) now >>= λ t.
    ok (record t {
      result = some a.result;
      record_authority_audit = some a.record_authority_audit;
      submission_adjudication_audit = some a.submission_adjudication_audit;
      processing_lease_id = none;
      processing_lease_expires_at = none;
    })

abbrev pub Ledgers : Type 0
Ledgers = InMemoryRunStore × Reservations

module _ (c : BudgetConfig) (is_late : Deadline → Bool) (heartbeat_failure : Option AppError)
    (meanwhile : InMemoryRunStore → InMemoryRunStore) (run_id : String) (claim : Claim)
    (now : Instant) where
  -- The last update stores the result.
  unfoldable pub publish : Materialized → Ledgers → Ledgers × Result RunRecord
  publish a (s, m) = elim (update run_id (published a now) (some claim) (meanwhile s)) [
    | err e ↦ ((meanwhile s, m), err e)
    | ok (s', v) ↦ ((s', m), ok v)
  ]

  -- From the settlement on.
  unfoldable pub settle_and_publish :
      Materialized → RunRecord → Ledgers → Ledgers × Result RunRecord
  settle_and_publish a u (s, m) = elim (settle c run_id (some u.cost_micro_usd) m) [
    | err e ↦ ((s, m), err e)
    | ok m' ↦
        if is_late after_settlement
        then ((s, m'), err result_deadline_passed)
        else publish a (s, m')
  ]

  unfoldable pub withhold : Ledgers → Ledgers × Result RunRecord
  withhold (s, m) = elim (update run_id (withheld now) (some claim) (meanwhile s)) [
    | err e ↦ ((meanwhile s, m), err e)
    | ok (s', v) ↦ ((s', m), err deletion_unconfirmed)
  ]

  -- From the confirmed deletions on: the heartbeat, the deadline, the settlement.
  unfoldable pub finalize : Materialized → RunRecord → Ledgers → Ledgers × Result RunRecord
  finalize a u (s, m) = elim heartbeat_failure [
    | some e ↦ ((s, m), err e)
    | none ↦
        if is_late before_settlement
        then ((s, m), err result_deadline_passed)
        else settle_and_publish a u (s, m)
  ]

  -- After the first update: a run with a copy that is not confirmed gone is withheld.
  unfoldable pub decide_release : Materialized → RunRecord → Ledgers → Ledgers × Result RunRecord
  decide_release a u w = if not u.is_cleanup_confirmed then withhold w else finalize a u w

  -- The targets are those that no source has claimed.
  unfoldable pub commit_result :
      List CleanupTarget → Materialized → Ledgers → Ledgers × Result RunRecord
  commit_result targets a (s, m) =
      elim (update run_id (with_last_receipts a (execute_cleanup targets now) now) (some claim) s) [
        | err e ↦ ((s, m), err e)
        | ok (s', u) ↦ decide_release a u (s', m)
      ]
