-- ===== src/Cleanup.antt =====
-- src/lib/cleanup.ts: the deletion of the application's copies of a source, its receipts, and the
-- gate that a run passes only when every expected copy is gone. Whether a deletion succeeds, and
-- the random id of a receipt, come with the target.
pub mod Laws
use monidhackson.Base.{
  String, Bool, true, false, not, ◌&&◌, ◌||◌, List, [], ◌∷◌, Option, none, some, map, filter, all,
  any, includes, text_eq, get_or, if◌then◌else◌,
}
use monidhackson.Runs.Types.{
  Instant, CleanupReceipt, ResourceKind, ControlScope, application, provider, ReceiptStatus,
  deleted, failed, unknown, RunRecord,
}

-- What the awaited `remove` does: it returns, or it throws.
pub data Removal : Type 0 where
  removes throws : Removal

pub record CleanupTarget : Type 0 where
  pub resource_id : String
  pub resource_kind : ResourceKind
  pub control_scope : ControlScope
  pub remove : Option Removal
  pub unknown_detail : Option String
  pub success_detail : Option String
  pub receipt_id : String

abbrev pub is_application : ControlScope → Bool
is_application application = true
is_application provider = false

abbrev pub is_deleted : ReceiptStatus → Bool
is_deleted deleted = true
is_deleted _ = false

abbrev pub is_unknown : ReceiptStatus → Bool
is_unknown unknown = true
is_unknown _ = false

unknown_receipt : CleanupTarget → Instant → CleanupReceipt
unknown_receipt t now = record {
  receipt_id = t.receipt_id;
  resource_id = t.resource_id;
  resource_kind = t.resource_kind;
  control_scope = provider;
  status = unknown;
  attempted_at = now;
  confirmed_at = none;
  detail = get_or t.unknown_detail "Provider retention and early-deletion capability are unknown.";
}

deleted_receipt : CleanupTarget → Instant → CleanupReceipt
deleted_receipt t now = record {
  receipt_id = t.receipt_id;
  resource_id = t.resource_id;
  resource_kind = t.resource_kind;
  control_scope = t.control_scope;
  status = deleted;
  attempted_at = now;
  confirmed_at = some now;
  detail = get_or t.success_detail "Deletion confirmed by the controlling adapter.";
}

failed_receipt : CleanupTarget → Instant → CleanupReceipt
failed_receipt t now = record {
  receipt_id = t.receipt_id;
  resource_id = t.resource_id;
  resource_kind = t.resource_kind;
  control_scope = t.control_scope;
  status = failed;
  attempted_at = now;
  confirmed_at = none;
  detail = "Deletion could not be confirmed; sensitive details were suppressed.";
}

cleanup_one : ControlScope → Option Removal → CleanupTarget → Instant → CleanupReceipt
unfolding unknown_receipt deleted_receipt failed_receipt
cleanup_one provider none t now = unknown_receipt t now
cleanup_one application none t now = deleted_receipt t now
cleanup_one _ (some removes) t now = deleted_receipt t now
cleanup_one _ (some throws) t now = failed_receipt t now

-- `Promise.all` keeps the order of the targets; the clock stands still during one call, as in
-- every call of the source.
unfoldable pub execute_cleanup : List CleanupTarget → Instant → List CleanupReceipt
unfolding cleanup_one
execute_cleanup [] now = []
execute_cleanup (t ∷ ts) now = cleanup_one t.control_scope t.remove t now ∷ execute_cleanup ts now

abbrev pub is_app_deleted : CleanupReceipt → Bool
is_app_deleted r = is_application r.control_scope && is_deleted r.status

abbrev pub deleted_ids : List CleanupReceipt → List String
deleted_ids receipts = map (λ r. r.resource_id) (filter is_app_deleted receipts)

-- The set of expected ids is empty just where their list is, and `every` asks the same of both.
abbrev pub cleanup_gate_of : List String → List CleanupReceipt → Bool
cleanup_gate_of [] receipts = false
cleanup_gate_of (e ∷ es) receipts = all (λ id. includes id (deleted_ids receipts)) (e ∷ es)

unfoldable pub cleanup_gate : RunRecord → Bool
cleanup_gate r = cleanup_gate_of r.cleanup_expected_resource_ids r.cleanup_receipts

pub data ProviderRetention : Type 0 where
  retention_unknown not_applicable : ProviderRetention

pub record Disclosure : Type 0 where
  pub is_application_controlled_deleted : Bool
  pub provider_retention : ProviderRetention

abbrev pub deletes : String → CleanupReceipt → Bool
deletes id r = text_eq r.resource_id id && is_deleted r.status

unfoldable pub cleanup_disclosure : List CleanupReceipt → Disclosure
cleanup_disclosure receipts = record {
  is_application_controlled_deleted =
      all (λ id. any (deletes id) receipts)
        (map (λ r. r.resource_id) (filter (λ r. is_application r.control_scope) receipts));
  provider_retention =
      if any (λ r. not (is_application r.control_scope) && is_unknown r.status) receipts
      then retention_unknown
      else not_applicable;
}
