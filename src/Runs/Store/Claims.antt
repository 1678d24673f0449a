-- ===== src/Runs/Store/Claims.antt =====
-- src/lib/runs/store.ts: the compare-and-set claims of a run. Each takes the current record and
-- answers the new one, or `none` where the source returns null and writes nothing. The random id
-- of a claim is an argument; the fence that `claimProcessing` also returns is the record's.
use monidhackson.Base.{
  ℕ, ◌+◌, String, Bool, true, false, not, ◌&&◌, ◌||◌, List, [], ◌∷◌, Option, none, some, is_none,
  is_some, if◌then◌else◌, ◌==◌,
}
use monidhackson.Contracts.{validating, ready, partial, failed, expired, has_status}
use monidhackson.Runs.Types.{
  RunRecord, Instant, DispatchStatus, dispatching, scheduled, not_dispatched, dispatch_uncertain,
}
use monidhackson.Runs.Store.Record.{is_queued, is_leased, is_cleanup_pending, text_is, leb_opt}

unfoldable pub claim_admission : String → Instant → ℕ → RunRecord → Option RunRecord
claim_admission lease_id now lease_ms r =
    let lease_available =
      is_none r.admission_lease_id || leb_opt r.admission_lease_expires_at now in
    let scheduling_allowed = is_none r.workflow_run_id && is_none r.analysis_dispatch_claim_id in
    if not (is_queued r.status) || not lease_available || not scheduling_allowed
    then none
    else some (record r {
      admission_lease_id = some lease_id;
      admission_lease_expires_at = some (now + lease_ms);
      updated_at = now;
      version = r.version + 1;
    })

abbrev pub has_watchdogs {ℓ} : {A : Type ℓ} → List A → Bool
has_watchdogs [] = false
has_watchdogs (x ∷ xs) = true

unfoldable pub is_reclaimable : RunRecord → Instant → Bool
is_reclaimable r now = is_leased r.status && leb_opt r.processing_lease_expires_at now

unfoldable pub is_terminal : RunRecord → Bool
unfolding has_status
is_terminal r = has_status (ready ∷ partial ∷ failed ∷ expired ∷ []) r.status

unfoldable pub claim_processing : String → Instant → ℕ → RunRecord → Option RunRecord
unfolding is_reclaimable
claim_processing lease_id now lease_ms r =
    if has_watchdogs r.source_cleanup_watchdogs || is_some r.paid_provider_attempt_started_at
    then none
    else if not (is_queued r.status) && not (is_reclaimable r now)
    then none
    else if is_terminal r
    then none
    else some (record r {
      status = validating;
      stage = validating;
      progress = 5;
      processing_lease_id = some lease_id;
      processing_lease_expires_at = some (now + lease_ms);
      processing_fence = r.processing_fence + 1;
      updated_at = now;
      version = r.version + 1;
    })

unfoldable pub heartbeat_processing : String → ℕ → Instant → ℕ → RunRecord → Option RunRecord
heartbeat_processing lease_id fence now lease_ms r =
    if not (text_is r.processing_lease_id lease_id)
      || not (r.processing_fence == fence)
      || not (is_leased r.status)
    then none
    else some (record r {
      processing_lease_expires_at = some (now + lease_ms);
      updated_at = now;
      version = r.version + 1;
    })

unfoldable pub claim_analysis_dispatch : String → String → Instant → RunRecord → Option RunRecord
claim_analysis_dispatch claim_id lease_id now r =
    if not (is_queued r.status)
      || not (text_is r.admission_lease_id lease_id)
      || is_some r.analysis_dispatch_claim_id
      || is_some r.workflow_run_id
    then none
    else some (record r {
      analysis_dispatch_claim_id = some claim_id;
      analysis_dispatch_claimed_at = some now;
      analysis_dispatch_status = some dispatching;
      updated_at = now;
      version = r.version + 1;
    })

-- The outcomes other than `dispatching`.
pub data Settlement : Type 0 where
  was_scheduled was_not_dispatched was_uncertain : Settlement

unfoldable pub settled_status : Settlement → DispatchStatus
settled_status was_scheduled = scheduled
settled_status was_not_dispatched = not_dispatched
settled_status was_uncertain = dispatch_uncertain

pub record DispatchOutcome : Type 0 where
  pub status : Settlement
  pub workflow_run_id : Option String
  pub uncertain_at : Option Instant

abbrev pub is_dispatching : Option DispatchStatus → Bool
is_dispatching (some dispatching) = true
is_dispatching _ = false

unfoldable pub settle_analysis_dispatch :
    String → DispatchOutcome → Instant → RunRecord → Option RunRecord
settle_analysis_dispatch claim_id outcome now r =
    if not (text_is r.analysis_dispatch_claim_id claim_id)
      || not (is_dispatching r.analysis_dispatch_status)
    then none
    else some (record r {
      workflow_run_id = outcome.workflow_run_id;
      analysis_dispatch_status = some (settled_status outcome.status);
      analysis_dispatch_uncertain_at = outcome.uncertain_at;
      admission_lease_id = none;
      admission_lease_expires_at = none;
      updated_at = now;
      version = r.version + 1;
    })

unfoldable pub claim_cleanup_retry : String → Instant → RunRecord → Option RunRecord
claim_cleanup_retry claim_id now r =
    if not (is_cleanup_pending r.status) || is_some r.cleanup_retry_claim_id
    then none
    else some (record r {
      cleanup_retry_claim_id = some claim_id;
      cleanup_retry_claimed_at = some now;
      cleanup_retry_dispatch_status = some dispatching;
      updated_at = now;
      version = r.version + 1;
    })

unfoldable pub settle_cleanup_retry_dispatch :
    String → DispatchOutcome → Instant → RunRecord → Option RunRecord
settle_cleanup_retry_dispatch claim_id outcome now r =
    if not (text_is r.cleanup_retry_claim_id claim_id)
    then none
    else some (record r {
      cleanup_retry_workflow_run_id = outcome.workflow_run_id;
      cleanup_retry_dispatch_status = some (settled_status outcome.status);
      cleanup_retry_dispatch_uncertain_at = outcome.uncertain_at;
      updated_at = now;
      version = r.version + 1;
    })
