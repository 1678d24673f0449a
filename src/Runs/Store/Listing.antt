-- ===== src/Runs/Store/Listing.antt =====
-- src/lib/runs/store.ts: the three listings of the store. The collation of `localeCompare`, which
-- the language supplies, is an argument.
use monidhackson.Base.{
  ℕ, ◌+◌, String, Bool, true, false, ◌&&◌, ◌||◌, List, [], ◌∷◌, Option, none, some, is_some,
  if◌then◌else◌, leb, ltb, ◌==◌, min, max, take, filter,
}
use monidhackson.Contracts.{expired, status_eq}
use monidhackson.Runs.Types.{RunRecord, Instant}
use monidhackson.Runs.Store.Record.{
  is_queued, is_leased, is_cleanup_pending, leb_opt, cleanup_pending_maintenance_cadence_ms,
  cleanup_retry_dispatch_grace_ms,
}
use monidhackson.Runs.Store.Claims.{is_dispatching}

module _ {ℓ} {A : Type ℓ} (before : A → A → Bool) where
  -- `sort` is stable: a later element goes behind the earlier ones that it ties with.
  unfoldable pub insert_sorted : A → List A → List A
  insert_sorted x [] = x ∷ []
  insert_sorted x (y ∷ ys) = if before y x then y ∷ insert_sorted x ys else x ∷ y ∷ ys

-- Math.min(Math.max(Math.trunc(limit), 1), most)
unfoldable pub bounded_limit : ℕ → ℕ → ℕ
bounded_limit limit most = min (max limit 1) most

unfoldable pub list_expired : Instant → List RunRecord → List RunRecord
list_expired now rs = filter (λ r. leb r.expires_at now) rs

-- An instant, or `none` for positive infinity.
abbrev pub Due : Type 0
Due = Option Instant

abbrev pub earlier : Instant → Due → Instant
earlier a none = a
earlier a (some b) = min a b

abbrev pub after : Option Instant → ℕ → Due
after none ms = none
after (some t) ms = some (t + ms)

unfoldable pub due_at : RunRecord → Due
due_at r =
    if status_eq r.status expired
    then r.audit_expires_at
    else let cadence : Instant = r.updated_at + cleanup_pending_maintenance_cadence_ms in
      if is_cleanup_pending r.status && is_some r.cleanup_retry_dispatch_uncertain_at
      then some (earlier (min r.expires_at cadence) r.cleanup_retry_dispatch_uncertain_at)
      else if is_cleanup_pending r.status
          && is_dispatching r.cleanup_retry_dispatch_status
          && is_some r.cleanup_retry_claimed_at
      then some (
          earlier (min r.expires_at cadence)
            (after r.cleanup_retry_claimed_at cleanup_retry_dispatch_grace_ms))
      else if is_cleanup_pending r.status
      then some (min r.expires_at cadence)
      else if is_leased r.status
      then some (earlier r.expires_at r.processing_lease_expires_at)
      else some r.expires_at

module _ (id_before : String → String → Bool) where
  -- The comparator is negative: the first stands before the second.
  unfoldable pub created_before : RunRecord → RunRecord → Bool
  created_before a b =
      ltb a.created_at b.created_at || (a.created_at == b.created_at && id_before a.id b.id)

  unfoldable pub due_before : RunRecord → RunRecord → Bool
  due_before a b = elim (due_at a) [
    | none ↦ false
    | some s ↦ elim (due_at b) [ none ↦ true | some t ↦ ltb s t || (s == t && id_before a.id b.id) ]
  ]

  unfoldable pub sort_by : (RunRecord → RunRecord → Bool) → List RunRecord → List RunRecord
  sort_by before [] = []
  sort_by before (r ∷ rs) = insert_sorted before r (sort_by before rs)

  unfoldable pub list_unscheduled_queued : Instant → ℕ → List RunRecord → List RunRecord
  list_unscheduled_queued before limit rs =
      take (bounded_limit limit 100)
        (sort_by created_before (filter (λ r. is_queued r.status && leb r.updated_at before) rs))

  unfoldable pub list_cleanup_candidates : Instant → ℕ → List RunRecord → List RunRecord
  list_cleanup_candidates now limit rs =
      take (bounded_limit limit 1000) (sort_by due_before (filter (λ r. leb_opt (due_at r) now) rs))
