-- ===== src/Tests/Transitions.antt =====
-- The state machine at concrete runs.
use monidhackson.Base.{some, List, ◌+◌, ◌≡◌, ◌≢◌, ◌⊎◌, refl, inl, true, [], ◌∷◌}
use monidhackson.Errors.{err}
use monidhackson.Contracts.{
  RunStatus, queued, validating, staging, page_indexing, parsing, purging_source, extracting,
  reconciling, verifying, ready, failed, cleanup_pending, expired, status_eq, has_status,
}
use monidhackson.Runs.Types.{RunRecord}
use monidhackson.Runs.Transition.{transitions, enter, transition_run, resources_not_deleted}
use monidhackson.Runs.Transition.Histories.{History, begin, more, IsClosing-stays, IsClosing}
use monidhackson.Runs.Transition.Lives.{Life, born, moves, stays, claimed, ready_passes_pipeline}
use monidhackson.Runs.Store.Claims.{claim_processing, is_reclaimable, is_terminal}
use monidhackson.Runs.Store.Record.{new_run_record, is_queued, is_leased}
use monidhackson.Tests.Samples.{fresh_run, with_status}

unconfirmed_refused : transition_run (with_status verifying) ready 7 ≡ err resources_not_deleted
unfolding transition_run transitions status_eq has_status new_run_record
unconfirmed_refused = refl

abbrev at : RunStatus → RunRecord → RunRecord
at s r = enter r s 7

-- A run that one worker has started and another has started again.
abbrev first_claimed : RunRecord
first_claimed = record fresh_run {
  status = validating;
  stage = validating;
  progress = 5;
  processing_lease_id = some "w1";
  processing_lease_expires_at = some 1007;
  processing_fence = fresh_run.processing_fence + 1;
  updated_at = 7;
  version = fresh_run.version + 1;
}

abbrev second_claimed : RunRecord
second_claimed = record (at staging first_claimed) {
  status = validating;
  stage = validating;
  progress = 5;
  processing_lease_id = some "w2";
  processing_lease_expires_at = some 3000;
  processing_fence = first_claimed.processing_fence + 1;
  updated_at = 2000;
  version = (at staging first_claimed).version + 1;
}

abbrev almost : RunRecord
almost = at verifying (
    at reconciling (
      at extracting
        (at purging_source (at parsing (at page_indexing (at staging second_claimed))))))

abbrev clean : RunRecord
clean = record almost { is_cleanup_confirmed = true }

started_twice : Life fresh_run (staging ∷ validating ∷ queued ∷ []) second_claimed
unfolding transition_run transitions status_eq has_status enter new_run_record claim_processing
    is_reclaimable is_queued is_terminal is_leased
started_twice = claimed "w2" 2000 1000 (moves staging 7 (claimed "w1" 7 1000 born refl) refl) refl

clean-Life :
    Life fresh_run
      (reconciling ∷ extracting ∷ purging_source ∷ parsing ∷ page_indexing ∷ staging ∷ validating
        ∷ staging ∷ validating ∷ queued ∷ [])
      clean
unfolding transition_run transitions status_eq has_status enter new_run_record
clean-Life =
    stays
      (moves verifying 7
        (moves reconciling 7
          (moves extracting 7
            (moves purging_source 7
              (moves parsing 7 (moves page_indexing 7 (moves staging 7 started_twice refl) refl)
                refl)
              refl)
            refl)
          refl)
        refl)
      refl

ready_passes_pipeline_example :
    (clean.status ≡ verifying)
    × (clean.is_cleanup_confirmed ≡ true)
    × ((rest : List RunStatus) × ((reconciling ∷ extracting ∷ purging_source ∷ parsing
            ∷ page_indexing ∷ staging ∷ validating ∷ staging ∷ validating ∷ queued ∷ [])
          ≡ reconciling ∷ extracting ∷ purging_source ∷ parsing ∷ page_indexing ∷ staging
            ∷ validating ∷ rest))
unfolding transition_run transitions status_eq has_status enter new_run_record
ready_passes_pipeline_example =
    ready_passes_pipeline fresh_run clean (at ready clean)
      (reconciling ∷ extracting ∷ purging_source ∷ parsing ∷ page_indexing ∷ staging ∷ validating
        ∷ staging ∷ validating ∷ queued ∷ [])
      7 refl clean-Life (λ e. cc) refl

failing-History :
    History
      (with_status failed)
      (cleanup_pending ∷ failed ∷ [])
      (at expired (at cleanup_pending (with_status failed)))
unfolding transition_run transitions status_eq has_status enter new_run_record
failing-History = more expired 7 (more cleanup_pending 7 begin refl) refl

IsClosing-stays_example :
    IsClosing (at expired (at cleanup_pending (with_status failed))).status
    × (((with_status failed).status ≢ expired)
        ⊎ (at expired (at cleanup_pending (with_status failed)) ≡ with_status failed))
IsClosing-stays_example =
    IsClosing-stays (with_status failed) (cleanup_pending ∷ failed ∷ [])
      (at expired (at cleanup_pending (with_status failed))) (inl refl) failing-History
