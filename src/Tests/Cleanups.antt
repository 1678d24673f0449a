-- ===== src/Tests/Cleanups.antt =====
-- Cleanups at concrete runs.
use monidhackson.Base.{◌≡◌, ◌≢◌, ◌↔◌, refl, inl, true, [], ◌∷◌, none, some, All, Any, here}
use monidhackson.Errors.{ok}
use monidhackson.Contracts.{cleanup_pending, status_eq, has_status}
use monidhackson.Runs.Types.{
  RunRecord, CleanupReceipt, to_failed, to_expired, staged_source, application, deleted,
}
use monidhackson.Runs.Transition.{transition_run, transitions, enter}
use monidhackson.Runs.Store.Record.{new_run_record}
use monidhackson.Cleanup.{CleanupTarget, removes, throws, cleanup_gate}
use monidhackson.Cleanup.Laws.{cleanup_gate_iff, Deletes}
use monidhackson.Expiry.{Storage, terminal_winner, quiescence_reached}
use monidhackson.Expiry.Runner.{revoke, revoked_record, pending_record, receipts_after, finish}
use monidhackson.Expiry.Revocation.{IsRevoked, revoke-IsRevoked}
use monidhackson.Expiry.Evidence.{AllGone}
use monidhackson.Expiry.Closing.{Closed, finish_complete}
use monidhackson.Tests.Samples.{fresh_run, with_status, worker_run}

cleanup_gate_iff_example : (cleanup_gate fresh_run ≡ true) ↔ (
    (fresh_run.cleanup_expected_resource_ids ≢ [])
    × All
        (λ id. Any (Deletes id) fresh_run.cleanup_receipts)
        fresh_run.cleanup_expected_resource_ids)
cleanup_gate_iff_example = cleanup_gate_iff fresh_run

abbrev target : CleanupTarget
target = record {
  resource_id = "staged:run-1:0";
  resource_kind = staged_source;
  control_scope = application;
  remove = some throws;
  unknown_detail = none;
  success_detail = none;
  receipt_id = "receipt";
}

abbrev storage : Storage
storage = record { removal = λ id. removes; receipt_id = λ id. id }

revoke-IsRevoked_example :
    IsRevoked to_expired 9000 worker_run
      (revoked_record to_expired 9000 worker_run (enter worker_run cleanup_pending 9000))
unfolding revoke pending_record transition_run transitions status_eq has_status new_run_record
revoke-IsRevoked_example =
    revoke-IsRevoked to_expired 9000 worker_run
      (revoked_record to_expired 9000 worker_run (enter worker_run cleanup_pending 9000)) refl refl

abbrev staged_run : RunRecord
staged_run = record (with_status cleanup_pending) {
  cleanup_expected_resource_ids = "staged:run-1:0" ∷ [];
}

abbrev receipt : CleanupReceipt
receipt = record {
  receipt_id = "receipt";
  resource_id = "staged:run-1:0";
  resource_kind = staged_source;
  control_scope = application;
  status = deleted;
  attempted_at = 9000;
  confirmed_at = some 9000;
  detail = "";
}

all_gone :
    AllGone 9000 staged_run (receipt ∷ []) (receipts_after storage 9000 staged_run (receipt ∷ []))
unfolding receipts_after quiescence_reached new_run_record
all_gone = record {
  quiet = inl refl;
  durable = λ e. cc;
  gone = (here (refl, refl, refl), tt);
  restaged = (λ h. here (refl, refl, refl), tt);
}

finish_complete_example :
    (u : RunRecord) × (finish storage (λ s. s) to_failed 9000 (receipt ∷ []) staged_run ≡ ok u)
    × Closed (terminal_winner staged_run.terminal_after_cleanup to_failed) u
finish_complete_example =
    finish_complete storage (λ s. s) to_failed 9000 (receipt ∷ []) staged_run refl all_gone

abbrev closed_run : RunRecord
closed_run = finish_complete_example.0
