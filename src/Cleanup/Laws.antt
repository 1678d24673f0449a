-- ===== src/Cleanup/Laws.antt =====
-- What a receipt, the gate and the disclosure mean.
use monidhackson.Base.{
  ◌≡◌, refl, sym, ◌↔◌, ◌≢◌, ◌⊎◌, inl, inr, String, true, List, [], ◌∷◌, Option, none, some, all,
  includes, text_eq, eq_iff, All, Any, here, there, Bool-cases, arith,
}
use monidhackson.Runs.Types.{
  Instant, CleanupReceipt, ControlScope, application, provider, deleted, RunRecord,
}
use monidhackson.Cleanup.{
  CleanupTarget, Removal, removes, throws, cleanup_one, execute_cleanup, is_app_deleted,
  deleted_ids, cleanup_gate_of, cleanup_gate,
}

-- A receipt that the application deleted a resource.
abbrev pub Deletes : String → CleanupReceipt → Type 0
Deletes id r = (r.resource_id ≡ id) × (r.control_scope ≡ application) × (r.status ≡ deleted)

deleted-Any :
    (id : String) (rs : List CleanupReceipt)
    → includes id (deleted_ids rs) ≡ true
    → Any (Deletes id) rs
deleted-Any id [] h = cc
deleted-Any id (r ∷ rs) h = elim (Bool-cases (is_app_deleted r)) [
  | inr e ↦ there (deleted-Any id rs (ground arith))
  | inl e ↦ elim (Bool-cases (text_eq id r.resource_id)) [
    | inl same ↦ here (sym ((eq_iff id r.resource_id).0 same), ground arith, ground arith)
    | inr other ↦ there (deleted-Any id rs (ground arith))
  ]
]

Any-deleted :
    (id : String) (rs : List CleanupReceipt)
    → Any (Deletes id) rs
    → includes id (deleted_ids rs) ≡ true
Any-deleted id [] m = elim m [ ]
Any-deleted id (r ∷ rs) (here (a, b, c)) = ground (arith, eq_iff id r.resource_id)
Any-deleted id (r ∷ rs) (there m) = ground (arith, Any-deleted id rs m)

pub all-All :
    (ids : List String) (rs : List CleanupReceipt)
    → (all (λ id. includes id (deleted_ids rs)) ids ≡ true) ↔ All (λ id. Any (Deletes id) rs) ids
all-All [] rs = (λ h. tt, λ h. refl)
all-All (id ∷ ids) rs = (
  λ h. (deleted-Any id rs (ground arith), (all-All ids rs).0 (ground arith)),
  λ h. ground (arith, Any-deleted id rs h.0, (all-All ids rs).1 h.1),
)

pub gate_iff :
    (ids : List String) (rs : List CleanupReceipt)
    → (cleanup_gate_of ids rs ≡ true) ↔ ((ids ≢ []) × All (λ id. Any (Deletes id) rs) ids)
gate_iff [] rs = (λ h. cc, λ h. absurd (h.0 refl))
gate_iff (id ∷ ids) rs =
    (λ h. (λ e. cc, (all-All (id ∷ ids) rs).0 h), λ h. (all-All (id ∷ ids) rs).1 h.1)

-- The gate opens exactly when some resource is expected and every expected resource has a receipt
-- that the application deleted it; a failed, an unknown and a provider's receipt never count.
pub cleanup_gate_iff :
    (r : RunRecord)
    → (cleanup_gate r ≡ true) ↔ (
        (r.cleanup_expected_resource_ids ≢ [])
        × All (λ id. Any (Deletes id) r.cleanup_receipts) r.cleanup_expected_resource_ids)
unfolding cleanup_gate
cleanup_gate_iff r = gate_iff r.cleanup_expected_resource_ids r.cleanup_receipts

-- What a receipt says of its target.
pub record Reports (t : CleanupTarget) (now : Instant) (r : CleanupReceipt) : Type 0 where
  pub resource : r.resource_id ≡ t.resource_id
  pub kind : r.resource_kind ≡ t.resource_kind
  pub scope : r.control_scope ≡ t.control_scope
  pub claimed :
      (r.status ≡ deleted)
      ↔ ((t.remove ≡ some removes) ⊎ ((t.remove ≡ none) × (t.control_scope ≡ application)))
  pub confirmed : (r.status ≡ deleted) ↔ (r.confirmed_at ≡ some now)

abbrev pub AllReport : Instant → List CleanupTarget → List CleanupReceipt → Type 0
AllReport now [] [] = Unit
AllReport now (t ∷ ts) (r ∷ rs) = Reports t now r × AllReport now ts rs
AllReport now _ _ = ⊥

cleanup_one-Reports :
    (scope : ControlScope) (remove : Option Removal) (t : CleanupTarget) (now : Instant)
    → t.control_scope ≡ scope
    → t.remove ≡ remove
    → Reports t now (cleanup_one scope remove t now)
unfolding cleanup_one
cleanup_one-Reports provider none t now s e = ground arith
cleanup_one-Reports application none t now s e = ground arith
cleanup_one-Reports _ (some removes) t now s e = ground arith
cleanup_one-Reports _ (some throws) t now s e = ground arith

-- There is one receipt for each target, in order and about the target's resource, kind and scope.
-- It claims the deletion exactly where the removal returned, or where an application's target has
-- nothing to remove; and exactly then it carries the time of the confirmation.
pub execute_cleanup-AllReport :
    (ts : List CleanupTarget) (now : Instant) → AllReport now ts (execute_cleanup ts now)
unfolding execute_cleanup
execute_cleanup-AllReport [] now = tt
execute_cleanup-AllReport (t ∷ ts) now =
    (cleanup_one-Reports t.control_scope t.remove t now refl refl, execute_cleanup-AllReport ts now)
