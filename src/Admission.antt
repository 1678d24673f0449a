-- ===== src/Admission.antt =====
-- src/lib/runs/create.ts: how a run is created and admitted, and how maintenance takes up the runs
-- whose admission was cut short. `Outside` holds what the workflow service, the storage, the
-- database and the random generator answer about a run, and what other tasks do meanwhile. The
-- clock is read once for each call.
pub mod Attempts
pub mod Failure
pub mod Recovery
pub mod Creating
pub mod Once
pub mod Admits
pub mod Fails
pub mod Undoes
pub mod Sweeps
pub mod Histories
use monidhackson.Base.{
  ℕ, ◌+◌, ◌-◌, String, Bool, true, false, not, ◌&&◌, ◌||◌, List, [], ◌∷◌, ◌++◌, Option, none, some,
  is_none, is_some, get_or, text_eq, starts_with, values, ltb, leb, if◌then◌else◌,
}
use monidhackson.Errors.{
  AppError, Result, ok, err, ◌>>=◌, analysis_incomplete, source_cleanup_pending,
}
use monidhackson.Contracts.{
  failed, cleanup_pending, status_eq, RunDocumentInput, DocumentSource, url, upload,
  CreateRunRequest,
}
use monidhackson.Runs.Types.{RunRecord, RunFailure, Instant, to_failed}
use monidhackson.Runs.Transition.{transition_run}
use monidhackson.Runs.Store.Record.{is_queued, text_is, Environment, CreateRunRecordInput}
use monidhackson.Runs.Store.Claims.{
  DispatchOutcome, was_scheduled, was_not_dispatched, claim_admission, claim_analysis_dispatch,
  settle_analysis_dispatch,
}
use monidhackson.Runs.Store.Listing.{bounded_limit, list_unscheduled_queued}
use monidhackson.Runs.Store.{
  InMemoryRunStore, create, get, update, try_claim, remove, Claim, admission_claim,
}
use monidhackson.Budget.{
  BudgetConfig, BudgetReservationInput, PrincipalKind, guest, api, reserve, settle,
}
use monidhackson.Expiry.{Storage}
use monidhackson.Expiry.Runner.{cleanup_run}
use monidhackson.Scheduling.Calls.{Service, Call, start_analysis, with_store, called}
use monidhackson.Scheduling.{Started, outcome_of, uncertain, kept, schedule_cleanup_retry}

abbrev pub admission_recovery_delay_ms : ℕ
admission_recovery_delay_ms = 60000

abbrev pub admission_recovery_batch_size : ℕ
admission_recovery_batch_size = 20

abbrev pub admission_lease_ms : ℕ
admission_lease_ms = 120000

abbrev pub analysis_dispatch_recovery_grace_ms : ℕ
analysis_dispatch_recovery_grace_ms = 60000

-- The awaited calls during which other tasks go on.
pub data Pause : Type 0 where
  claiming_uploads starting_analysis deleting_copies starting_cleanup : Pause

pub record Outside : Type 0 where
  pub config : BudgetConfig
  pub storage : Storage
  pub sha256_hex : String → String
  pub lease_id : String → String
  pub dispatch_claim_id : String → String
  pub retry_claim_id : String → String
  pub request_id : String → String
  pub claim_incoming : RunRecord → DocumentSource → Option AppError
  pub schedule : String → Started
  pub schedule_cleanup : String → Started
  pub is_dispatch_ack_lost : String → Bool
  pub is_retry_ack_lost : String → Bool
  pub meanwhile : Pause → String → Service → Service

pub data Phase : Type 0 where
  preflight dispatch_claim_uncertain schedule_uncertain : Phase

-- `attempt_failed` is the AdmissionAttemptError; `refused` is any other exception.
pub data Attempt : Type 0 where
  admitted : RunRecord → Attempt
  refused : AppError → Attempt
  attempt_failed : AppError → RunRecord → String → Phase → Attempt

abbrev pub no_manifest : AppError
no_manifest = record {
  code = analysis_incomplete;
  message = "The queued run no longer contains its source manifest.";
  http_status = 409;
  retryable = false;
}

-- What `asAppError` makes of an exception that is none of the application's.
abbrev pub unexpected : AppError
unexpected = record {
  code = analysis_incomplete;
  message = "The request could not be completed.";
  http_status = 500;
  retryable = true;
}

abbrev pub not_accepted : AppError
not_accepted = record {
  code = source_cleanup_pending;
  message = "The run was not accepted and input cleanup is still being retried.";
  http_status = 503;
  retryable = true;
}

abbrev pub delivery_unconfirmed : AppError
delivery_unconfirmed = record {
  code = analysis_incomplete;
  message =
      "Analysis workflow delivery could not be confirmed. The run was not redispatched and was handed to maintenance for application-controlled source cleanup.";
  http_status = 503;
  retryable = false;
}

abbrev pub principal_kind_for : RunRecord → PrincipalKind
principal_kind_for r = if starts_with r.owner_id "api:" then api else guest

abbrev pub current_or : RunRecord → String → Service → RunRecord
current_or r id w = get_or (get id w.store) r
