-- ===== src/Tests/Watchdogs.antt =====
-- Watchdogs at concrete runs.
use monidhackson.Base.{◌≡◌, ◌⊎◌, refl, true, false, [], ◌∷◌, none, some, insert, values}
use monidhackson.Runs.Types.{
  RunRecord, SourceCleanupWatchdog, CleanupReceipt, armed, staged_source, application, deleted,
}
use monidhackson.Runs.Store.Record.{new_run_record}
use monidhackson.Runs.Store.{get}
use monidhackson.Cleanup.{removes}
use monidhackson.Ledger.{committed, event_commitment, assert_durable_commitment_fits}
use monidhackson.Ledger.Laws.{IsBalanced}
use monidhackson.Expiry.{Storage}
use monidhackson.Watchdog.{watchdog_by_id, update_watchdog, unique}
use monidhackson.Watchdog.Calls.{
  Plan, start_call, started_watchdog, charged, started_monid_attempts, monid_attempt_ids, is_hex_of,
}
use monidhackson.Watchdog.Runner.{
  merge_cleanup_receipts, record_attempt, attempted_watchdog, with_receipts,
  run_source_cleanup_watchdog,
}
use monidhackson.Watchdog.Laws.{
  IsCommitted, start_call-IsCommitted, Confirms, record_attempt-Confirms,
}
use monidhackson.Watchdog.Guard.{IsUnlocked, run_source_cleanup_watchdog-IsUnlocked}
use monidhackson.Watchdog.{arm}
use monidhackson.Watchdog.Registry.{OneEach, arm-OneEach}
use monidhackson.Tests.Samples.{worker_run, store_of}

abbrev watchdog : SourceCleanupWatchdog
watchdog = record {
  registration_id = "w1";
  document_index = 0;
  document_id = "doc-0";
  resource_ids = "staged:run-1:0" ∷ [];
  status = armed;
  registered_at = 2500;
  watchdog_scheduled_at = some 2600;
  watchdog_workflow_run_id = some "wf";
  provider_call_started_at = none;
  source_access_expires_at = none;
  provider_result_captured_at = none;
  provider_result_id_sha256 = none;
  cleanup_last_attempt_at = none;
  cleanup_confirmed_at = none;
  cleanup_attempts = 0;
  cancelled_at = none;
}

abbrev with_watchdog : SourceCleanupWatchdog → RunRecord
with_watchdog w = record worker_run { source_cleanup_watchdogs = w ∷ [] }

abbrev plan : Plan
plan = record {
  reserved_micro_usd = some 100;
  total_planned_monid_attempts = 2;
  remaining_openai_commitment_micro_usd = 200;
  maximum_run_cost_micro_usd = 500;
}

abbrev started_run : RunRecord
started_run =
    charged "w1" 100 3000 (with_watchdog watchdog)
      (with_watchdog (started_watchdog 90000 3000 watchdog))

scheduled_IsBalanced : IsBalanced (with_watchdog watchdog)
unfolding new_run_record committed
scheduled_IsBalanced = record { total = refl; once = tt }

start_call-IsCommitted_example : IsCommitted "w1" 100 plan (with_watchdog watchdog) started_run
unfolding start_call update_watchdog assert_durable_commitment_fits committed event_commitment
    new_run_record started_monid_attempts monid_attempt_ids unique
start_call-IsCommitted_example =
    start_call-IsCommitted "w1" 100 plan 90000 3000 (with_watchdog watchdog) started_run
      scheduled_IsBalanced refl

abbrev receipt : CleanupReceipt
receipt = record {
  receipt_id = "receipt";
  resource_id = "staged:run-1:0";
  resource_kind = staged_source;
  control_scope = application;
  status = deleted;
  attempted_at = 9000;
  confirmed_at = some 9000;
  detail = "";
}

abbrev attempted_run : RunRecord
attempted_run =
    with_receipts (receipt ∷ []) 9000 (with_watchdog (attempted_watchdog false true 9000 watchdog))

record_attempt-Confirms_example :
    Confirms "w1" (with_watchdog watchdog).cleanup_receipts (receipt ∷ []) watchdog attempted_run
unfolding record_attempt update_watchdog merge_cleanup_receipts new_run_record insert values
record_attempt-Confirms_example =
    record_attempt-Confirms "w1" (receipt ∷ []) false 9000 (with_watchdog watchdog) attempted_run
      watchdog refl refl

abbrev storage : Storage
storage = record { removal = λ id. removes; receipt_id = λ id. id }

run_source_cleanup_watchdog-IsUnlocked_example :
    ((run_source_cleanup_watchdog storage
        (λ t. t)
        (λ s. s)
        (λ s. s)
        "run-1"
        "w1"
        5000
        (store_of started_run)).0
      ≡ store_of started_run)
    ⊎ ((r : RunRecord) × (w : SourceCleanupWatchdog) × (get "run-1" (store_of started_run) ≡ some r)
        × (watchdog_by_id r "w1" ≡ some w)
        × IsUnlocked w 5000)
run_source_cleanup_watchdog-IsUnlocked_example =
    run_source_cleanup_watchdog-IsUnlocked storage (λ t. t) (λ s. s) (λ s. s) "run-1" "w1" 5000
      (store_of started_run)

digest_length : is_hex_of 4 "0aF9" ≡ true
unfolding is_hex_of
digest_length = refl

abbrev armed_again : SourceCleanupWatchdog
armed_again = record watchdog { document_id = "doc-1" }

abbrev armed_run : RunRecord
armed_run = record (with_watchdog armed_again) { updated_at = 2700 }

arm-OneEach_example : OneEach armed_run.source_cleanup_watchdogs
unfolding arm new_run_record
arm-OneEach_example =
    arm-OneEach "w2" 0 "doc-1" ("staged:run-1:0" ∷ []) 2700 (with_watchdog watchdog) armed_run
      armed_again refl (refl, refl, tt) refl
