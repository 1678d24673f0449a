-- ===== src/Tests/Publications.antt =====
-- The publication of a result at a concrete run.
use monidhackson.Base.{refl, true, false, [], ◌∷◌, none, some, lookup, insert, values}
use monidhackson.Contracts.{verifying, ready, has_status}
use monidhackson.Runs.Types.{RunRecord, staged_source, application}
use monidhackson.Runs.Transition.{transition_run, transitions, enter}
use monidhackson.Runs.Store.{processing_claim, is_stale, update}
use monidhackson.Runs.Store.Record.{new_run_record}
use monidhackson.Cleanup.{CleanupTarget, removes, execute_cleanup}
use monidhackson.Watchdog.Runner.{merge_cleanup_receipts, all_captured_source_watchdogs_clean}
use monidhackson.Budget.{BudgetConfig, MemoryReservation, settle}
use monidhackson.Publication.{
  Materialized, terminal_status_for_analysis, with_last_receipts, published, publish,
  settle_and_publish, finalize, decide_release, commit_result,
}
use monidhackson.Publication.Releases.{Released, commit_result-Released}
use monidhackson.Runs.Types.{RunFailure}
use monidhackson.Contracts.{RunStatus}
use monidhackson.Errors.{analysis_incomplete}
use monidhackson.Tests.Samples.{worker_run, store_of}

abbrev verified_run : RunRecord
verified_run = record worker_run {
  status = verifying;
  stage = verifying;
  cleanup_expected_resource_ids = "staged:run-1:0" ∷ [];
}

abbrev last_target : CleanupTarget
last_target = record {
  resource_id = "staged:run-1:0";
  resource_kind = staged_source;
  control_scope = application;
  remove = some removes;
  unknown_detail = none;
  success_detail = none;
  receipt_id = "receipt";
}

abbrev analysis : Materialized
analysis = record {
  result = "result";
  receipts = [];
  costs = [];
  total_micro_usd = 120;
  is_incomplete = false;
  record_authority_audit = "authority";
  submission_adjudication_audit = "submission";
}

abbrev limits : BudgetConfig
limits = record {
  max_run_cost_micro_usd = 500;
  api_runs_per_day = 3;
  guest_runs_per_day = 3;
  daily_cost_cap_micro_usd = 1000;
}

abbrev held : MemoryReservation
held = record { quota_key = "quota"; day = 0; reserved = 500; settled = none; created_at = 1000 }

abbrev paid : MemoryReservation
paid = record held { settled = some 120 }

abbrev cleaned_run : RunRecord
cleaned_run = record verified_run {
  cleanup_receipts = execute_cleanup (last_target ∷ []) 9000;
  costs = [];
  cost_micro_usd = 120;
  is_cleanup_confirmed = true;
  updated_at = 9000;
}

abbrev ready_run : RunRecord
ready_run = record (enter cleaned_run ready 9000) {
  result = some "result";
  record_authority_audit = some "authority";
  submission_adjudication_audit = some "submission";
  processing_lease_id = none;
  processing_lease_expires_at = none;
}

commit_result-Released_example :
    Released limits
      (λ point. false)
      none
      (λ s. s)
      "run-1"
      (processing_claim "w1" 1)
      9000
      (last_target ∷ [])
      analysis
      (store_of verified_run, ("run-1", held) ∷ [])
      (store_of ready_run, ("run-1", paid) ∷ [])
      ready_run
unfolding commit_result decide_release finalize settle_and_publish publish published
    with_last_receipts terminal_status_for_analysis update is_stale lookup insert values settle
    transition_run transitions has_status merge_cleanup_receipts all_captured_source_watchdogs_clean
    execute_cleanup new_run_record enter
commit_result-Released_example =
    commit_result-Released limits (λ point. false) none (λ s. s) "run-1" (processing_claim "w1" 1)
      9000 (last_target ∷ []) analysis (store_of verified_run) (store_of ready_run)
      (("run-1", held) ∷ []) (("run-1", paid) ∷ []) ready_run refl

abbrev failure : RunFailure
failure = record {
  code = analysis_incomplete;
  message = "The model did not answer.";
  retryable = true;
  request_id = "request";
}

abbrev charged : MemoryReservation
charged = record held { settled = some 500 }

abbrev failed_run : RunRecord
failed_run = record (enter verified_run RunStatus.failed 9000) {
  cleanup_receipts = execute_cleanup (last_target ∷ []) 9000;
  is_cleanup_confirmed = true;
  processing_lease_id = none;
  processing_lease_expires_at = none;
  error = some failure;
  updated_at = 9000;
}
