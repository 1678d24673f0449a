-- ===== src/Admission/Creating.antt =====
-- src/lib/runs/create.ts: `createRun`, from the call of the store on.
use monidhackson.Base.{String, Bool, true, false, ◌&&◌, ◌||◌, Option, some, is_none, if◌then◌else◌}
use monidhackson.Errors.{AppError, Result, ok, err, ◌>>=◌}
use monidhackson.Contracts.{cleanup_pending, status_eq, CreateRunRequest}
use monidhackson.Runs.Types.{RunRecord, Instant}
use monidhackson.Runs.Store.Record.{is_queued, Environment, CreateRunRecordInput}
use monidhackson.Runs.Store.{create}
use monidhackson.Scheduling.Calls.{Service, with_store}
use monidhackson.Admission.{
  Outside, Attempt, admitted, refused, attempt_failed, preflight, dispatch_claim_uncertain,
  schedule_uncertain, not_accepted, current_or,
}
use monidhackson.Admission.Attempts.{admit_queued_run}
use monidhackson.Admission.Failure.{fail_admission}

-- The caller, as far as a run keeps it.
pub record Principal : Type 0 where
  pub id : String
  pub quota_key : String

-- The record of the run, and whether it is new.
abbrev pub Creation : Type 0
Creation = Result (RunRecord × Bool)

unfoldable pub needs_admission : RunRecord → Bool → Bool
needs_admission r is_new =
    is_new
    || (is_queued r.status && is_none r.workflow_run_id && is_none r.analysis_dispatch_claim_id)

-- What the caller is told of an admission that was undone.
abbrev pub undone : AppError → Bool → RunRecord × Bool → Creation
undone e is_new (r, false) = ok (r, is_new)
undone e is_new (r, true) = if status_eq r.status cleanup_pending then err not_accepted else err e

module _ (o : Outside) where
  unfoldable pub respond : Bool → Instant → Service × Attempt → Service × Creation
  respond is_new now (w, admitted r) = (w, ok (r, is_new))
  respond is_new now (w, refused e) = (w, err e)
  respond is_new now (w, attempt_failed e r lease preflight) =
      let (w', answer) = fail_admission o r e true lease now w in (w', answer >>= undone e is_new)
  respond is_new now (w, attempt_failed e r lease dispatch_claim_uncertain) =
      (w, ok (current_or r r.id w, is_new))
  respond is_new now (w, attempt_failed e r lease schedule_uncertain) =
      (w, ok (current_or r r.id w, is_new))

  abbrev pub input_of : String → CreateRunRequest → Principal → Option String → CreateRunRecordInput
  input_of run_id request principal idempotency_key = record {
    id = some run_id;
    owner_id = principal.id;
    quota_key = principal.quota_key;
    input = request;
    idempotency_key = idempotency_key;
    reserved_micro_usd = o.config.max_run_cost_micro_usd;
  }

  unfoldable pub create_run :
      Environment
      → String
      → CreateRunRequest
      → Principal
      → Option String
      → Instant
      → Service
      → Service × Creation
  create_run env run_id request principal idempotency_key now w =
      elim (create env run_id (input_of run_id request principal idempotency_key) now w.store) [
        | err e ↦ (w, err e)
        | ok (s, r, is_new) ↦
            if needs_admission r is_new
            then respond is_new now (admit_queued_run o r now (with_store w s))
            else (with_store w s, ok (r, is_new))
      ]
