-- ===== src/Tests/Stores.antt =====
-- The store at concrete runs.
use monidhackson.Base.{◌+◌, ◌≡◌, refl, true, false, none, some, lookup, values, insert, arith}
use monidhackson.Errors.{ok, err}
use monidhackson.Contracts.{cleanup_pending}
use monidhackson.Runs.Types.{RunRecord, dispatching}
use monidhackson.Runs.Store.Record.{new_run_record, is_queued}
use monidhackson.Runs.Store.{create, update, try_claim, processing_claim, lease_not_current}
use monidhackson.Runs.Store.Claims.{claim_processing, heartbeat_processing, is_terminal}
use monidhackson.Runs.Store.Creation.{create_replays}
use monidhackson.Runs.Store.Fencing.{stale_worker_fenced, Evolves}
use monidhackson.Runs.Store.Fencing
use monidhackson.Tests.Samples.{
  env, input, fresh_run, with_status, empty_store, store_of, worker_run, leased_run,
}

created : create env "unused" input 1000 empty_store ≡ ok (store_of fresh_run, fresh_run, true)
unfolding create new_run_record lookup values insert
created = refl

create_replays_example :
    create env "other" input 5000 (store_of fresh_run) ≡ ok (store_of fresh_run, fresh_run, false)
create_replays_example =
    create_replays env "unused" "other" input input 1000 5000 empty_store (store_of fresh_run)
      fresh_run "key" created refl refl refl

claimed : claim_processing "w1" 2000 45000 fresh_run ≡ some worker_run
unfolding claim_processing is_queued is_terminal new_run_record
claimed = refl

abbrev beating_run : RunRecord
beating_run = record worker_run {
  processing_lease_expires_at = some (12000 + 45000);
  updated_at = 12000;
  version = 0 + 1 + 1;
}

stale_worker_fenced_example :
    (update "run-1" ok (some (processing_claim "w1" 0)) (store_of worker_run)
      ≡ err lease_not_current)
    × (try_claim "run-1" (heartbeat_processing "w1" 0 3000 45000) (store_of worker_run)
        ≡ ok (store_of worker_run, none))
unfolding lookup new_run_record
stale_worker_fenced_example =
    stale_worker_fenced fresh_run worker_run worker_run "w1" 2000 45000 (store_of worker_run)
      "run-1" "w1" 0 3000 45000 ok claimed Fencing.Evolves.same refl (omega arith)

abbrev dispatched_run : RunRecord
dispatched_run = record leased_run {
  analysis_dispatch_claim_id = some "d1";
  analysis_dispatch_claimed_at = some 2500;
  analysis_dispatch_status = some dispatching;
  updated_at = 2500;
  version = 0 + 1 + 1;
}

abbrev pending_run : RunRecord
pending_run = with_status cleanup_pending
