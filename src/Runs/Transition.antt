-- ===== src/Runs/Transition.antt =====
-- src/lib/runs/state-machine.ts: the statuses of a run and the steps between them.
pub mod Graph
pub mod Laws
pub mod Histories
pub mod Lives
use monidhackson.Contracts.{status_text}
use monidhackson.Base.{
  concat, ℕ, suc, ◌+◌, String, Bool, not, ◌&&◌, ◌||◌, true, false, List, [], ◌∷◌, if◌then◌else◌,
}
use monidhackson.Errors.{AppError, Result, ok, err, analysis_incomplete, source_cleanup_pending}
use monidhackson.Contracts.{
  RunStatus, queued, validating, staging, page_indexing, parsing, purging_source, extracting,
  reconciling, verifying, ready, partial, failed, cleanup_pending, expired, status_eq, has_status,
}
use monidhackson.Runs.Types.{RunRecord, Instant, status_progress}

unfoldable pub transitions : RunStatus → List RunStatus
transitions queued = validating ∷ failed ∷ cleanup_pending ∷ expired ∷ []
transitions validating = staging ∷ failed ∷ cleanup_pending ∷ expired ∷ []
transitions staging = page_indexing ∷ failed ∷ cleanup_pending ∷ expired ∷ []
transitions page_indexing = parsing ∷ failed ∷ cleanup_pending ∷ expired ∷ []
transitions parsing = purging_source ∷ failed ∷ cleanup_pending ∷ expired ∷ []
transitions purging_source = extracting ∷ cleanup_pending ∷ failed ∷ expired ∷ []
transitions extracting = reconciling ∷ partial ∷ failed ∷ cleanup_pending ∷ expired ∷ []
transitions reconciling = verifying ∷ partial ∷ failed ∷ cleanup_pending ∷ expired ∷ []
transitions verifying = ready ∷ partial ∷ failed ∷ cleanup_pending ∷ expired ∷ []
transitions ready = cleanup_pending ∷ expired ∷ []
transitions partial = cleanup_pending ∷ expired ∷ []
transitions failed = cleanup_pending ∷ expired ∷ []
transitions cleanup_pending = failed ∷ expired ∷ []
transitions expired = []

abbrev pub invalid_transition : RunStatus → RunStatus → AppError
invalid_transition status next = record {
  code = analysis_incomplete;
  message =
      concat "Invalid run transition: "
        (concat (status_text status) (concat " -> " (concat (status_text next) ".")));
  http_status = 409;
  retryable = false;
}

abbrev pub resources_not_deleted : AppError
resources_not_deleted = record {
  code = source_cleanup_pending;
  message = "The run cannot complete until every application-controlled raw resource is deleted.";
  http_status = 409;
  retryable = true;
}

unfoldable pub enter : RunRecord → RunStatus → Instant → RunRecord
enter r next now = record r {
  status = next;
  stage = next;
  progress = status_progress next;
  updated_at = now;
  version = r.version + 1;
}

unfoldable pub transition_run : RunRecord → RunStatus → Instant → Result RunRecord
transition_run r next now =
    if status_eq r.status next
    then ok r
    else if not (has_status (transitions r.status) next)
    then err (invalid_transition r.status next)
    else if (status_eq next ready || status_eq next partial) && not r.is_cleanup_confirmed
    then err resources_not_deleted
    else ok (enter r next now)
