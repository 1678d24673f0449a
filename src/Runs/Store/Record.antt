-- ===== src/Runs/Store/Record.antt =====
-- src/lib/runs/store.ts: the constants of the store and the record of a new run.
use monidhackson.Base.{
  ℕ, suc, ◌+◌, ◌*◌, String, Bool, true, false, ◌++◌, List, [], ◌∷◌, Option, none, some, get_or,
  concat, decimal, text_eq, eq_iff, leb, ◌≡◌, ap,
}
use monidhackson.Contracts.{
  RunStatus, queued, validating, staging, page_indexing, parsing, purging_source, extracting,
  reconciling, verifying, cleanup_pending, status_eq, has_status, CreateRunRequest,
  RunDocumentInput, DocumentSource, url, upload,
}
use monidhackson.Runs.Types.{RunRecord, Instant}

abbrev pub active_run_statuses : List RunStatus
active_run_statuses =
    queued ∷ validating ∷ staging ∷ page_indexing ∷ parsing ∷ purging_source ∷ extracting
    ∷ reconciling ∷ verifying ∷ cleanup_pending ∷ []

abbrev pub leased_run_statuses : List RunStatus
leased_run_statuses =
    validating ∷ staging ∷ page_indexing ∷ parsing ∷ purging_source ∷ extracting ∷ reconciling
    ∷ verifying ∷ []

abbrev pub processing_lease_ms : ℕ
processing_lease_ms = 45000

abbrev pub processing_heartbeat_interval_ms : ℕ
processing_heartbeat_interval_ms = 10000

abbrev pub cleanup_retry_dispatch_grace_ms : ℕ
cleanup_retry_dispatch_grace_ms = 60000

abbrev pub cleanup_pending_maintenance_cadence_ms : ℕ
cleanup_pending_maintenance_cadence_ms = 300000

unfoldable pub is_active : RunStatus → Bool
unfolding has_status
is_active s = has_status active_run_statuses s

unfoldable pub is_leased : RunStatus → Bool
unfolding has_status
is_leased s = has_status leased_run_statuses s

unfoldable pub is_queued : RunStatus → Bool
unfolding status_eq
is_queued s = status_eq s queued

unfoldable pub is_cleanup_pending : RunStatus → Bool
unfolding status_eq
is_cleanup_pending s = status_eq s cleanup_pending

-- `field === id`, false for a field that is null.
abbrev pub text_is : Option String → String → Bool
text_is none id = false
text_is (some s) id = text_eq s id

-- `field !== null && new Date(field) <= now`.
abbrev pub leb_opt : Option Instant → Instant → Bool
leb_opt none now = false
leb_opt (some t) now = leb t now

-- What the store takes from the rest of the program: the lifetime of a run in hours, from the
-- configuration, and the SHA-256 digest of the canonical JSON of a request.
pub record Environment : Type 0 where
  pub run_ttl_hours : ℕ
  pub request_hash : CreateRunRequest → String

pub record CreateRunRecordInput : Type 0 where
  pub id : Option String
  pub owner_id : String
  pub quota_key : String
  pub input : CreateRunRequest
  pub idempotency_key : Option String
  pub reserved_micro_usd : ℕ

unfoldable pub candidate_stage_id : String → ℕ → String
candidate_stage_id run_id document_index = concat run_id (concat ":" (decimal document_index))

unfoldable pub staged_resource : String → ℕ → String
unfolding candidate_stage_id
staged_resource run_id document_index = concat "staged:" (candidate_stage_id run_id document_index)

unfoldable pub blob_resource : String → String
blob_resource blob_path = concat "blob:" blob_path

unfoldable pub document_resources : String → ℕ → DocumentSource → List String
document_resources run_id index (url _) = staged_resource run_id index ∷ []
document_resources run_id index (upload blob_path _ _ _) =
    blob_resource blob_path ∷ staged_resource run_id index ∷ []

-- The `flatMap` of `newRunRecord`, from a document index on.
unfoldable pub expected_resources : String → ℕ → List RunDocumentInput → List String
expected_resources run_id index [] = []
expected_resources run_id index (d ∷ ds) =
    document_resources run_id index d.source ++ expected_resources run_id (suc index) ds

unfoldable pub new_run_record : Environment → String → CreateRunRecordInput → Instant → RunRecord
new_run_record env uuid input now =
    let id = get_or input.id uuid in
    record {
      id = id;
      owner_id = input.owner_id;
      quota_key = input.quota_key;
      input = some input.input;
      request_hash = some (env.request_hash input.input);
      idempotency_key = input.idempotency_key;
      status = queued;
      stage = queued;
      progress = 0;
      created_at = now;
      updated_at = now;
      expires_at = now + env.run_ttl_hours * 3600000;
      is_cleanup_confirmed = false;
      cleanup_expected_resource_ids = expected_resources id 0 input.input.documents;
      cleanup_receipts = [];
      source_cleanup_watchdogs = [];
      paid_provider_attempt_started_at = none;
      citation_receipts = [];
      manifests = [];
      costs = [];
      cost_micro_usd = 0;
      reserved_micro_usd = input.reserved_micro_usd;
      result = none;
      record_authority_audit = none;
      submission_adjudication_audit = none;
      error = none;
      workflow_run_id = none;
      analysis_dispatch_claim_id = none;
      analysis_dispatch_claimed_at = none;
      analysis_dispatch_status = none;
      analysis_dispatch_uncertain_at = none;
      cleanup_retry_claim_id = none;
      cleanup_retry_claimed_at = none;
      cleanup_retry_workflow_run_id = none;
      cleanup_retry_dispatch_status = none;
      cleanup_retry_dispatch_uncertain_at = none;
      admission_lease_id = none;
      admission_lease_expires_at = none;
      processing_lease_id = none;
      processing_lease_expires_at = none;
      processing_fence = 0;
      terminal_after_cleanup = none;
      audit_expires_at = none;
      version = 0;
      deleted_at = none;
    }

pub text_is_eq : (o : Option String) (id : String) → text_is o id ≡ true → o ≡ some id
text_is_eq none id h = cc
text_is_eq (some s) id h = ap some ((eq_iff s id).0 h)
