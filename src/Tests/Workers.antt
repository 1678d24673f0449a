-- ===== src/Tests/Workers.antt =====
-- The heartbeat of a worker and of the maintenance at concrete states.
use monidhackson.Base.{◌≡◌, ◌↔◌, refl, true, false, List, [], ◌∷◌, some, lookup}
use monidhackson.Errors.{Result, ok}
use monidhackson.Runs.Types.{Instant}
use monidhackson.Runs.Store.{try_claim}
use monidhackson.Runs.Store.Claims.{heartbeat_processing}
use monidhackson.Runs.Store.Record.{new_run_record, is_leased}
use monidhackson.Scheduling.Heartbeat.{
  Heartbeat, start_processing_heartbeat, schedule, fire, land, stop, begin, fires, lands, stops,
  heartbeat_silenced, lease_revoked,
}
use monidhackson.Maintenance.{
  MaintenanceHeartbeatRow, assert_recent_maintenance_heartbeat, IsRecent,
  assert_recent_maintenance_heartbeat-ok_iff,
}
use monidhackson.Tests.Samples.{worker_run, store_of}

-- A beat under a fence that is no longer the run's: the lease was revoked.
abbrev revoked : Heartbeat
revoked =
    (land "run-1" "w1" 7 45000 lease_revoked 5000 false (fire start_processing_heartbeat)
      (store_of worker_run)).0

heartbeat_silenced_example :
    ((stop revoked).is_timer_set ≡ false) × ((stop revoked).is_in_flight ≡ false)
unfolding land schedule start_processing_heartbeat try_claim heartbeat_processing lookup
    new_run_record is_leased
heartbeat_silenced_example =
    heartbeat_silenced "run-1" "w1" 7 45000 lease_revoked (store_of worker_run) revoked
      (store_of worker_run) (stop revoked) (store_of worker_run)
      (lands 5000 false (fires begin refl) refl) refl refl (stops begin)

abbrev swept_row : MaintenanceHeartbeatRow
swept_row = record {
  completed_at = some 1000000;
  duration_ms = some 1200;
  work_budget_ms = some 45000;
}

assert_recent_maintenance_heartbeat-ok_iff_example :
    (assert_recent_maintenance_heartbeat true true (ok (swept_row ∷ [])) 1300000 ≡ ok tt) ↔ (
      (row : MaintenanceHeartbeatRow) × (t : Instant) × (true ≡ true)
      × (◌≡◌ {A = Result (List MaintenanceHeartbeatRow)} (ok (swept_row ∷ [])) (ok (row ∷ [])))
      × IsRecent 1300000 t row)
assert_recent_maintenance_heartbeat-ok_iff_example =
    assert_recent_maintenance_heartbeat-ok_iff true (ok (swept_row ∷ [])) 1300000
