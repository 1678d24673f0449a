-- ===== src/Runs/Types.antt =====
-- src/lib/runs/types.ts. An instant is its number of milliseconds since 1970, which is what the
-- ISO text stands for; a payload that the lifecycle only stores and clears is a `Snapshot`.
use monidhackson.Base.{ℕ, String, Bool, true, false, List, Option, is_none, any, if◌then◌else◌}
use monidhackson.Errors.{ErrorCode}
use monidhackson.Contracts.{
  RunStatus, queued, validating, staging, page_indexing, parsing, purging_source, extracting,
  reconciling, verifying, ready, partial, expired, CreateRunRequest, CostEvent, CostStatus, pending,
}

abbrev pub Instant : Type 0
Instant = ℕ

abbrev pub Snapshot : Type 0
Snapshot = String

pub data ResourceKind : Type 0 where
  source_blob staged_source page_text parsed_markdown provider_artifact : ResourceKind

pub data ControlScope : Type 0 where
  application provider : ControlScope

pub data ReceiptStatus : Type 0 where
  deleted failed unknown : ReceiptStatus

pub record CleanupReceipt : Type 0 where
  pub receipt_id : String
  pub resource_id : String
  pub resource_kind : ResourceKind
  pub control_scope : ControlScope
  pub status : ReceiptStatus
  pub attempted_at : Instant
  pub confirmed_at : Option Instant
  pub detail : String

pub data WatchdogStatus : Type 0 where
  armed provider_call_started captured cleanup_pending cleanup_confirmed cancelled : WatchdogStatus

pub data DispatchStatus : Type 0 where
  dispatching scheduled not_dispatched dispatch_uncertain : DispatchStatus

pub record SourceCleanupWatchdog : Type 0 where
  pub registration_id : String
  pub document_index : ℕ
  pub document_id : String
  pub resource_ids : List String
  pub status : WatchdogStatus
  pub registered_at : Instant
  pub watchdog_scheduled_at : Option Instant
  pub watchdog_workflow_run_id : Option String
  pub provider_call_started_at : Option Instant
  pub source_access_expires_at : Option Instant
  pub provider_result_captured_at : Option Instant
  pub provider_result_id_sha256 : Option String
  pub cleanup_last_attempt_at : Option Instant
  pub cleanup_confirmed_at : Option Instant
  pub cleanup_attempts : ℕ
  pub cancelled_at : Option Instant

pub record RunFailure : Type 0 where
  pub code : ErrorCode
  pub message : String
  pub retryable : Bool
  pub request_id : String

pub data Terminal : Type 0 where
  to_failed to_expired : Terminal

pub record RunRecord : Type 0 where
  pub id : String
  pub owner_id : String
  pub quota_key : String
  pub input : Option CreateRunRequest
  pub request_hash : Option String
  pub idempotency_key : Option String
  pub status : RunStatus
  pub stage : RunStatus
  pub progress : ℕ
  pub created_at : Instant
  pub updated_at : Instant
  pub expires_at : Instant
  pub is_cleanup_confirmed : Bool
  pub cleanup_expected_resource_ids : List String
  pub cleanup_receipts : List CleanupReceipt
  pub source_cleanup_watchdogs : List SourceCleanupWatchdog
  pub paid_provider_attempt_started_at : Option Instant
  pub citation_receipts : List Snapshot
  pub manifests : List Snapshot
  pub costs : List CostEvent
  pub cost_micro_usd : ℕ
  pub reserved_micro_usd : ℕ
  pub result : Option Snapshot
  pub record_authority_audit : Option Snapshot
  pub submission_adjudication_audit : Option Snapshot
  pub error : Option RunFailure
  pub workflow_run_id : Option String
  pub analysis_dispatch_claim_id : Option String
  pub analysis_dispatch_claimed_at : Option Instant
  pub analysis_dispatch_status : Option DispatchStatus
  pub analysis_dispatch_uncertain_at : Option Instant
  pub cleanup_retry_claim_id : Option String
  pub cleanup_retry_claimed_at : Option Instant
  pub cleanup_retry_workflow_run_id : Option String
  pub cleanup_retry_dispatch_status : Option DispatchStatus
  pub cleanup_retry_dispatch_uncertain_at : Option Instant
  pub admission_lease_id : Option String
  pub admission_lease_expires_at : Option Instant
  pub processing_lease_id : Option String
  pub processing_lease_expires_at : Option Instant
  pub processing_fence : ℕ
  pub terminal_after_cleanup : Option Terminal
  pub audit_expires_at : Option Instant
  pub version : ℕ
  pub deleted_at : Option Instant

abbrev pub status_progress : RunStatus → ℕ
status_progress queued = 0
status_progress validating = 5
status_progress staging = 12
status_progress page_indexing = 24
status_progress parsing = 38
status_progress purging_source = 50
status_progress extracting = 62
status_progress reconciling = 76
status_progress verifying = 88
status_progress ready = 100
status_progress partial = 100
status_progress RunStatus.failed = 100
status_progress RunStatus.cleanup_pending = 96
status_progress expired = 100

pub data CostAccountingStatus : Type 0 where
  no_paid_attempt estimated_pending estimated_complete actual_complete : CostAccountingStatus

abbrev pub is_pending : CostStatus → Bool
is_pending pending = true
is_pending _ = false

-- The derived field of `toRunStatusResponse`; the other fields are copied.
unfoldable pub cost_accounting_status : RunRecord → CostAccountingStatus
cost_accounting_status r =
    if is_none r.paid_provider_attempt_started_at
    then no_paid_attempt
    else if any (λ event. is_pending event.status) r.costs
    then estimated_pending
    else if any (λ event. is_none event.actual_micro_usd) r.costs
    then estimated_complete
    else actual_complete

pub record RunStatusResponse : Type 0 where
  pub run_id : String
  pub status : RunStatus
  pub stage : RunStatus
  pub progress : ℕ
  pub created_at : Instant
  pub updated_at : Instant
  pub expires_at : Instant
  pub is_cleanup_confirmed : Bool
  pub cost_micro_usd : ℕ
  pub cost_accounting : CostAccountingStatus
  pub error : Option RunFailure

unfoldable pub to_run_status_response : RunRecord → RunStatusResponse
to_run_status_response r = record {
  run_id = r.id;
  status = r.status;
  stage = r.stage;
  progress = r.progress;
  created_at = r.created_at;
  updated_at = r.updated_at;
  expires_at = r.expires_at;
  is_cleanup_confirmed = r.is_cleanup_confirmed;
  cost_micro_usd = r.cost_micro_usd;
  cost_accounting = cost_accounting_status r;
  error = r.error;
}
