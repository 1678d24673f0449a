-- ===== src/Watchdog/Guard.antt =====
-- What a run of the watchdog may touch.
use monidhackson.Base.{
  ℕ, ◌≤◌, ◌≡◌, ◌⊎◌, inl, inr, refl, sym, subst, String, true, false, ◌&&◌, List, [], ◌∷◌, Option,
  none, some, is_none, is_some, text_eq, eq_iff, get_elem?, Bool-cases, Option-cases, arith,
}
use monidhackson.Errors.{ok, >>=-eq-ok, ok-injective}
use monidhackson.Contracts.{DocumentSource, url, upload}
use monidhackson.Runs.Types.{RunRecord, Instant, SourceCleanupWatchdog, application}
use monidhackson.Runs.Store.Record.{leb_opt, staged_resource, blob_resource}
use monidhackson.Runs.Store.Claims.{is_terminal}
use monidhackson.Runs.Store.{InMemoryRunStore, get}
use monidhackson.Cleanup.{CleanupTarget}
use monidhackson.Expiry.{Storage, stage_target, blob_target}
use monidhackson.Watchdog.{watchdog_by_id}
use monidhackson.Watchdog.Runner.{
  target_for, targets_for, cleanup_targets_for_watchdog, watch, run_source_cleanup_watchdog,
}

-- The provider cannot be reading the source any more: its result was captured, or the access that
-- it was given has run out, or the copies were already confirmed gone.
abbrev pub IsUnlocked : SourceCleanupWatchdog → Instant → Type 0
IsUnlocked w now =
    (is_some w.provider_result_captured_at ≡ true)
    ⊎ ((e : Instant) × (w.source_access_expires_at ≡ some e) × (e ≤ now))
    ⊎ (is_some w.cleanup_confirmed_at ≡ true)

access_over :
    (o : Option Instant) (now : Instant)
    → leb_opt o now ≡ true
    → (e : Instant) × (o ≡ some e) × (e ≤ now)
access_over none now h = cc
access_over (some e) now h = (e, refl, ground arith)

module _ (storage : Storage) (sha256_hex : String → String)
    (while_deleting while_closing : InMemoryRunStore → InMemoryRunStore) where
  watch-IsUnlocked :
      (r : RunRecord) (w : SourceCleanupWatchdog) (run_id id : String) (now : Instant)
      (s : InMemoryRunStore)
      → ((watch storage sha256_hex while_deleting while_closing r w run_id id now s).0 ≡ s)
        ⊎ IsUnlocked w now
  unfolding watch
  watch-IsUnlocked r w run_id id now s = elim (Bool-cases (is_some w.cleanup_confirmed_at)) [
    | inl e ↦ inr (inr (inr e))
    | inr unconfirmed ↦ elim (Option-cases w.provider_result_captured_at) [
      | inr (c, e) ↦ inr (inl (rw e refl))
      | inl uncaptured ↦ elim (Bool-cases (leb_opt w.source_access_expires_at now)) [
        | inl e ↦ inr (inr (inl (access_over w.source_access_expires_at now e)))
        | inr reading ↦ elim (Bool-cases (is_none w.provider_call_started_at && is_terminal r)) [
          | inl e ↦ inl (rw (unconfirmed, e) refl)
          | inr e ↦ inl (rw (unconfirmed, e, uncaptured, reading) refl)
        ]
      ]
    ]
  ]

  -- A run of the watchdog leaves the store as it is, unless the provider cannot be reading the
  -- source any more.
  pub run_source_cleanup_watchdog-IsUnlocked :
      (run_id id : String) (now : Instant) (s : InMemoryRunStore)
      → ((run_source_cleanup_watchdog storage sha256_hex while_deleting while_closing run_id id now
            s).0
          ≡ s)
        ⊎ ((r : RunRecord) × (w : SourceCleanupWatchdog) × (get run_id s ≡ some r)
            × (watchdog_by_id r id ≡ some w)
            × IsUnlocked w now)
  unfolding run_source_cleanup_watchdog
  run_source_cleanup_watchdog-IsUnlocked run_id id now s = elim (Option-cases (get run_id s)) [
    | inl e ↦ inl (rw (e, run_source_cleanup_watchdog) refl)
    | inr (r, e) ↦ elim (Option-cases (watchdog_by_id r id)) [
      | inl f ↦ inl (rw (e, run_source_cleanup_watchdog, f) refl)
      | inr (w, f) ↦ elim (watch-IsUnlocked r w run_id id now s) [
        | inl same ↦ inl (rw (e, run_source_cleanup_watchdog, f) same)
        | inr unlocked ↦ inr (r, w, e, f, unlocked)
      ]
    ]
  ]

-- A target is the application's, and deletes just the resource that it was asked for.
abbrev pub IsFor : String → CleanupTarget → Type 0
IsFor id t = (t.resource_id ≡ id) × (t.control_scope ≡ application)

blob-IsFor :
    (storage : Storage) (run_id : String) (index : ℕ) (source : DocumentSource) (id : String)
    (t : CleanupTarget)
    → text_eq id (staged_resource run_id index) ≡ false
    → target_for storage run_id index source id ≡ ok t
    → IsFor id t
unfolding target_for stage_target blob_target
blob-IsFor storage run_id index (url _) id t other h = cc (rw (other, target_for) at h)
blob-IsFor storage run_id index (upload path _ _ _) id t other h =
    elim (Bool-cases (text_eq id (blob_resource path))) [
      | inl e ↦
          subst (IsFor id) (ok-injective (rw (other, e, target_for) at h))
            (sym ((eq_iff id (blob_resource path)).0 e), refl)
      | inr none_of ↦ cc (rw (other, none_of, target_for) at h)
    ]

target_for-IsFor :
    (storage : Storage) (run_id : String) (index : ℕ) (source : DocumentSource) (id : String)
    (t : CleanupTarget)
    → target_for storage run_id index source id ≡ ok t
    → IsFor id t
unfolding target_for stage_target blob_target
target_for-IsFor storage run_id index source id t h =
    elim (Bool-cases (text_eq id (staged_resource run_id index))) [
      | inl e ↦
          subst (IsFor id) (ok-injective (rw (e, target_for) at h))
            (sym ((eq_iff id (staged_resource run_id index)).0 e), refl)
      | inr other ↦ blob-IsFor storage run_id index source id t other h
    ]

abbrev pub AllFor : List String → List CleanupTarget → Type 0
AllFor [] [] = Unit {0}
AllFor (id ∷ ids) (t ∷ ts) = IsFor id t × AllFor ids ts
AllFor _ _ = ⊥

targets_for-AllFor :
    (storage : Storage) (run_id : String) (index : ℕ) (source : DocumentSource) (ids : List String)
    (ts : List CleanupTarget)
    → targets_for storage run_id index source ids ≡ ok ts
    → AllFor ids ts
unfolding targets_for
targets_for-AllFor storage run_id index source [] ts h = subst (AllFor []) (ok-injective h) tt
targets_for-AllFor storage run_id index source (id ∷ ids) ts h =
    let (t, own, rest) = >>=-eq-ok _ (target_for storage run_id index source id) h in
    let (us, others, made) =
      >>=-eq-ok (λ us. ok (t ∷ us)) (targets_for storage run_id index source ids) rest in
    subst (AllFor (id ∷ ids)) (ok-injective made) (
      target_for-IsFor storage run_id index source id t own,
      targets_for-AllFor storage run_id index source ids us others,
    )

-- The targets of a watchdog are the application's, one for each resource of its list, in order; a
-- resource that is neither the staged copy nor the upload of the document yields no target at all.
pub cleanup_targets_for_watchdog-AllFor :
    (storage : Storage) (r : RunRecord) (w : SourceCleanupWatchdog) (ts : List CleanupTarget)
    → cleanup_targets_for_watchdog storage r w ≡ ok ts
    → AllFor w.resource_ids ts
unfolding cleanup_targets_for_watchdog
cleanup_targets_for_watchdog-AllFor storage r w ts h = elim (Option-cases r.input) [
  | inl e ↦ cc (rw (e, cleanup_targets_for_watchdog) at h)
  | inr (input, e) ↦ elim (Option-cases (get_elem? input.documents w.document_index)) [
    | inl f ↦ cc (rw (e, f, cleanup_targets_for_watchdog) at h)
    | inr (document, f) ↦
        targets_for-AllFor storage r.id w.document_index document.source w.resource_ids ts
          (rw (e, f, cleanup_targets_for_watchdog) at h)
  ]
]
