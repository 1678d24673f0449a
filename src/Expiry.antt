-- ===== src/Expiry.antt =====
-- src/lib/runs/expiry.ts: the cleanup of a run, which revokes its worker, deletes the
-- application's copies of the sources and closes the run once every copy is confirmed gone.
-- Whether a deletion in the storage succeeds, and the random id of its receipt, are given for each
-- resource; the SHA-256 digest is an argument.
pub mod Runner
pub mod Evidence
pub mod Closing
pub mod Revocation
use monidhackson.Base.{
  ℕ, suc, ◌+◌, String, Bool, true, false, not, ◌&&◌, ◌||◌, List, [], ◌∷◌, ◌++◌, Option, none, some,
  is_none, is_some, map, filter, all, any, find, includes, get_or, text_eq, starts_with, concat,
  leb, min, if◌then◌else◌,
}
use monidhackson.Errors.{Result, ok, err, ◌>>=◌}
use monidhackson.Contracts.{
  RunStatus, failed, cleanup_pending, expired, status_eq, RunDocumentInput, DocumentSource, url,
  upload, CreateRunRequest,
}
use monidhackson.Runs.Types.{
  RunRecord, Instant, Terminal, to_failed, to_expired, CleanupReceipt, ResourceKind, source_blob,
  staged_source, page_text, parsed_markdown, ControlScope, application, provider, deleted,
  SourceCleanupWatchdog,
}
use monidhackson.Runs.Transition.{transition_run}
use monidhackson.Runs.Store.Record.{
  processing_lease_ms, leb_opt, staged_resource, blob_resource, is_cleanup_pending,
}
use monidhackson.Runs.Store.{InMemoryRunStore, update, update_if_processing_lease_expired}
use monidhackson.Cleanup.{
  CleanupTarget, Removal, execute_cleanup, deleted_ids, cleanup_gate_of, is_app_deleted,
}

-- 30 days.
abbrev pub audit_retention_ms : ℕ
audit_retention_ms = 2592000000

-- What the storage and the runtime answer for a resource.
pub record Storage : Type 0 where
  pub removal : String → Removal
  pub receipt_id : String → String

unfoldable pub terminal_winner : Option Terminal → Terminal → Terminal
terminal_winner (some to_expired) requested = to_expired
terminal_winner _ requested = requested

abbrev pub terminal_status : Terminal → RunStatus
terminal_status to_failed = failed
terminal_status to_expired = expired

unfoldable pub quiescence_reached : RunRecord → Instant → Bool
quiescence_reached r now =
    is_none r.processing_lease_expires_at || leb_opt r.processing_lease_expires_at now

-- The kind of a resource that only the worker's memory holds.
abbrev pub memory_kind : String → Option ResourceKind
memory_kind id =
    if starts_with id "page-text:"
    then some page_text
    else if starts_with id "parsed:"
    then some parsed_markdown
    else none

released_receipt : Storage → Instant → String → ResourceKind → CleanupReceipt
released_receipt storage now id kind = record {
  receipt_id = storage.receipt_id id;
  resource_id = id;
  resource_kind = kind;
  control_scope = application;
  status = deleted;
  attempted_at = now;
  confirmed_at = some now;
  detail =
      "The revoked worker passed its quiescence deadline; application-only process memory is no longer retained.";
}

unfoldable pub released_from :
    Storage → Instant → List CleanupReceipt → List String → List CleanupReceipt
unfolding released_receipt
released_from storage now receipts [] = []
released_from storage now receipts (id ∷ ids) =
    let rest = released_from storage now receipts ids in
    if includes id (deleted_ids receipts) then rest else elim (memory_kind id) [
      | none ↦ rest
      | some kind ↦ released_receipt storage now id kind ∷ rest
    ]

unfoldable pub stage_target : Storage → String → ℕ → CleanupTarget
stage_target storage run_id index = record {
  resource_id = staged_resource run_id index;
  resource_kind = staged_source;
  control_scope = application;
  remove = some (storage.removal (staged_resource run_id index));
  unknown_detail = none;
  success_detail = none;
  receipt_id = storage.receipt_id (staged_resource run_id index);
}

unfoldable pub blob_target : Storage → String → CleanupTarget
blob_target storage blob_path = record {
  resource_id = blob_resource blob_path;
  resource_kind = source_blob;
  control_scope = application;
  remove = some (storage.removal (blob_resource blob_path));
  unknown_detail = none;
  success_detail =
      some
        "Incoming source content was purged and a verified replay-blocking fence remains until grant expiry.";
  receipt_id = storage.receipt_id (blob_resource blob_path);
}

unfoldable pub document_targets : Storage → String → ℕ → DocumentSource → List CleanupTarget
unfolding stage_target blob_target
document_targets storage run_id index (url _) = stage_target storage run_id index ∷ []
document_targets storage run_id index (upload blob_path _ _ _) =
    blob_target storage blob_path ∷ stage_target storage run_id index ∷ []

unfoldable pub targets_from : Storage → String → ℕ → List RunDocumentInput → List CleanupTarget
targets_from storage run_id index [] = []
targets_from storage run_id index (d ∷ ds) =
    document_targets storage run_id index d.source ++ targets_from storage run_id (suc index) ds

unfoldable pub retryable_targets : Storage → RunRecord → List CleanupTarget
retryable_targets storage r = elim r.input [
  | none ↦ []
  | some input ↦ targets_from storage r.id 0 input.documents
]

abbrev pub owns_resource : String → SourceCleanupWatchdog → Bool
owns_resource id w = includes id w.resource_ids

-- Whether the source may be deleted: not while a provider's call may still be fetching it.
unfoldable pub provider_source_cleanup_authorized : RunRecord → String → Instant → Bool
provider_source_cleanup_authorized r id now =
    elim (find (owns_resource id) r.source_cleanup_watchdogs) [
      | none ↦ true
      | some w ↦
          is_none w.provider_call_started_at
          || is_some w.provider_result_captured_at
          || leb_opt w.source_access_expires_at now
    ]

abbrev pub is_staged_source : ResourceKind → Bool
is_staged_source staged_source = true
is_staged_source _ = false

unfoldable pub cleanup_targets : Storage → RunRecord → Instant → List CleanupTarget
cleanup_targets storage r now =
    filter
      (λ t.
        not (includes t.resource_id (deleted_ids r.cleanup_receipts))
        || (quiescence_reached r now && is_staged_source t.resource_kind))
      (filter (λ t. provider_source_cleanup_authorized r t.resource_id now)
        (retryable_targets storage r))

scrub_watchdog : (String → String) → SourceCleanupWatchdog → SourceCleanupWatchdog
scrub_watchdog sha256_hex w = record w {
  document_id = concat "sha256:" (sha256_hex w.document_id);
  resource_ids = map (λ id. concat "sha256:" (sha256_hex id)) w.resource_ids;
  watchdog_workflow_run_id = none;
}

scrubbed_detail : ControlScope → ResourceKind → String
scrubbed_detail provider kind =
    "No provider early-delete endpoint was found or verified; the release contract spike observed a seven-day upstream artifact expiry with ZDR disabled."
scrubbed_detail application source_blob =
    "Application-controlled source-content purge and replay fence were confirmed; the identifier was scrubbed."
scrubbed_detail application page_text =
    "Application-only process memory was released after worker quiescence; the identifier was scrubbed."
scrubbed_detail application parsed_markdown =
    "Application-only process memory was released after worker quiescence; the identifier was scrubbed."
scrubbed_detail application _ =
    "Application-controlled deletion was confirmed; the resource identifier was scrubbed."

scrub_receipt : (String → String) → CleanupReceipt → CleanupReceipt
scrub_receipt sha256_hex c = record c {
  resource_id = concat "sha256:" (sha256_hex c.resource_id);
  detail = scrubbed_detail c.control_scope c.resource_kind;
}

unfoldable pub scrub_for_audit : (String → String) → RunRecord → Instant → RunRecord
unfolding scrub_watchdog scrub_receipt scrubbed_detail
scrub_for_audit sha256_hex r now = record r {
  input = none;
  request_hash = none;
  idempotency_key = none;
  result = none;
  citation_receipts = [];
  manifests = [];
  workflow_run_id = none;
  analysis_dispatch_claim_id = none;
  analysis_dispatch_claimed_at = none;
  analysis_dispatch_status = none;
  analysis_dispatch_uncertain_at = none;
  cleanup_retry_claim_id = none;
  cleanup_retry_claimed_at = none;
  cleanup_retry_workflow_run_id = none;
  cleanup_retry_dispatch_status = none;
  cleanup_retry_dispatch_uncertain_at = none;
  admission_lease_id = none;
  admission_lease_expires_at = none;
  cleanup_expected_resource_ids = [];
  source_cleanup_watchdogs = map (scrub_watchdog sha256_hex) r.source_cleanup_watchdogs;
  cleanup_receipts = map (scrub_receipt sha256_hex) r.cleanup_receipts;
  terminal_after_cleanup = none;
  processing_lease_id = none;
  processing_lease_expires_at = none;
  audit_expires_at = some (now + audit_retention_ms);
  deleted_at = some now;
}
