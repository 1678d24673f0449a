-- ===== src/Expiry/Revocation.antt =====
-- What the first update of a cleanup takes away, and what the deletions spare.
use monidhackson.Base.{
  ℕ, ◌+◌, ◌≤◌, ◌<◌, ◌≡◌, ◌↔◌, refl, subst, sym, ◌⊎◌, inl, inr, String, Bool, true, false, List, [],
  ◌∷◌, Option, none, some, is_some, find, filter, All, Bool-cases, Option-cases, arith,
}
use monidhackson.Errors.{ok, >>=-eq-ok, ok-injective}
use monidhackson.Contracts.{cleanup_pending, expired, status_eq}
use monidhackson.Runs.Types.{
  RunRecord, Instant, Terminal, to_failed, to_expired, SourceCleanupWatchdog,
}
use monidhackson.Runs.Transition.{enter}
use monidhackson.Runs.Transition.Graph.{status_eq_eq}
use monidhackson.Runs.Transition.Laws.{transition_run-ok_iff}
use monidhackson.Runs.Store.{processing_claim, admission_claim, is_stale}
use monidhackson.Cleanup.{CleanupTarget}
use monidhackson.Expiry.{
  Storage, terminal_winner, provider_source_cleanup_authorized, owns_resource, cleanup_targets,
  retryable_targets,
}
use monidhackson.Expiry.Runner.{
  pending_record, revoked_record, revoke, quiescence_deadline, earlier_iso,
}

-- The record that waits for its cleanup, by a transition or because it does so already.
abbrev pub Pending : RunRecord → Instant → RunRecord → Type 0
Pending r now p = (p.status ≡ cleanup_pending) × ((p ≡ r) ⊎ (p ≡ enter r cleanup_pending now))

pub pending_record-Pending :
    (r : RunRecord) (now : Instant) (p : RunRecord) → pending_record r now ≡ ok p → Pending r now p
unfolding pending_record enter
pending_record-Pending r now p h = elim (Bool-cases (status_eq r.status cleanup_pending)) [
  | inl same ↦
      let kept : r ≡ p = ok-injective (rw (same, pending_record) at h) in
      (
        subst (λ (q : RunRecord). q.status ≡ cleanup_pending) kept
            (status_eq_eq r.status cleanup_pending same),
        inl (sym kept),
      )
  | inr other ↦
      elim ((transition_run-ok_iff r cleanup_pending now p).0 (rw (other, pending_record) at h)) [
        | inl (same, kept) ↦ (rw kept same, inl kept)
        | inr (_, entered) ↦ (rw entered refl, inr entered)
      ]
]

revoke-value :
    (terminal : Terminal) (now : Instant) (r u : RunRecord)
    → status_eq r.status expired ≡ false
    → revoke terminal now r ≡ ok u
    → (p : RunRecord) × Pending r now p × (revoked_record terminal now r p ≡ u)
unfolding revoke
revoke-value terminal now r u live h =
    let (p, e, made) = >>=-eq-ok _ (pending_record r now) (rw (live, revoke) at h) in
    (p, pending_record-Pending r now p e, ok-injective made)

-- What `revoke` leaves of a run.
pub record IsRevoked (terminal : Terminal) (now : Instant) (r u : RunRecord) : Type 0 where
  pub waits : u.status ≡ cleanup_pending
  pub hidden : u.result ≡ none
  pub unconfirmed : u.is_cleanup_confirmed ≡ false
  pub worker :
      (lease : String) (fence : ℕ) → is_stale u (some (processing_claim lease fence)) ≡ true
  pub admission : (lease : String) → is_stale u (some (admission_claim lease)) ≡ true
  pub fence : is_some r.processing_lease_id ≡ true → u.processing_fence ≡ r.processing_fence + 1
  pub winner :
      (u.terminal_after_cleanup ≡ some to_expired)
      ↔ ((r.terminal_after_cleanup ≡ some to_expired) ⊎ (terminal ≡ to_expired))
  pub due : u.expires_at ≤ r.expires_at
  pub deadline : (t : Instant) → u.processing_lease_expires_at ≡ some t → u.expires_at ≤ t

earlier-le : (a : Instant) (o : Option Instant) → earlier_iso a o ≤ a
earlier-le a none = omega arith
earlier-le a (some b) = omega arith

earlier-deadline :
    (a : Instant) (o : Option Instant) (t : Instant) → o ≡ some t → earlier_iso a o ≤ t
earlier-deadline a none t h = cc
earlier-deadline a (some b) t h = ground arith

winner_iff :
    (o : Option Terminal) (terminal : Terminal)
    → (some (terminal_winner o terminal) ≡ some to_expired)
      ↔ ((o ≡ some to_expired) ⊎ (terminal ≡ to_expired))
unfolding terminal_winner
winner_iff none terminal = (λ h. inr cc, λ h. ground arith)
winner_iff (some to_failed) terminal = (λ h. inr cc, λ h. ground arith)
winner_iff (some to_expired) terminal = (λ h. inl refl, λ h. refl)

revoked_record-IsRevoked :
    (terminal : Terminal) (now : Instant) (r p : RunRecord)
    → Pending r now p
    → IsRevoked terminal now r (revoked_record terminal now r p)
unfolding revoked_record is_stale
revoked_record-IsRevoked terminal now r p (waits, _) = record {
  waits = waits;
  hidden = refl;
  unconfirmed = refl;
  worker = λ lease fence. refl;
  admission = λ lease. refl;
  fence = λ h. ground arith;
  winner = winner_iff r.terminal_after_cleanup terminal;
  due = earlier-le r.expires_at (quiescence_deadline r now);
  deadline = λ t h. earlier-deadline r.expires_at (quiescence_deadline r now) t h;
}

-- Revoking a run that has not expired makes it wait for its cleanup, hides its result, and refuses
-- every later update under a processing claim or an admission claim, whatever the claim; the fence
-- of a run with a worker is raised; the run expires no later than before, and no later than the
-- moment from which its worker's memory counts as gone; and expiry, once requested, wins over
-- failure.
pub revoke-IsRevoked :
    (terminal : Terminal) (now : Instant) (r u : RunRecord)
    → status_eq r.status expired ≡ false
    → revoke terminal now r ≡ ok u
    → IsRevoked terminal now r u
revoke-IsRevoked terminal now r u live h =
    let (p, pending, same) = revoke-value terminal now r u live h in
    subst (IsRevoked terminal now r) same (revoked_record-IsRevoked terminal now r p pending)

-- The provider's call for a resource may still be reading it.
abbrev pub MayBeReading : RunRecord → String → Instant → Type 0
MayBeReading r id now =
    (w : SourceCleanupWatchdog) × (find (owns_resource id) r.source_cleanup_watchdogs ≡ some w)
    × (is_some w.provider_call_started_at ≡ true)
    × (w.provider_result_captured_at ≡ none)
    × ((e : Instant) → w.source_access_expires_at ≡ some e → now < e)

authorized-not_reading :
    (r : RunRecord) (id : String) (now : Instant)
    → provider_source_cleanup_authorized r id now ≡ true
    → ¬ MayBeReading r id now
unfolding provider_source_cleanup_authorized
authorized-not_reading r id now h (w, found, started, uncaptured, open_until) =
    let h' = rw (found, provider_source_cleanup_authorized) at h in
    elim (Option-cases w.source_access_expires_at) [
      | inl never ↦ ground arith
      | inr (e, ends) ↦ ground (arith, open_until e ends)
    ]

filter-All {ℓ κ} :
    {A : Type ℓ} (P : A → Type κ) (p q : A → Bool) (xs : List A)
    → ((x : A) → p x ≡ true → P x)
    → All P (filter q (filter p xs))
filter-All P p q [] h = tt
filter-All P p q (x ∷ xs) h = elim (Bool-cases (p x)) [
  | inr e ↦ rw e (filter-All P p q xs h)
  | inl e ↦ elim (Bool-cases (q x)) [
    | inr f ↦ rw (e, f) (filter-All P p q xs h)
    | inl f ↦ rw (e, f) (h x e, filter-All P p q xs h)
  ]
]

-- No cleanup deletes a copy that a provider's call may still be reading: one whose call has
-- started, whose result has not been captured and whose access has not run out.
pub targets_not_reading :
    (storage : Storage) (r : RunRecord) (now : Instant)
    → All
        (λ (t : CleanupTarget). ¬ MayBeReading r t.resource_id now)
        (cleanup_targets storage r now)
unfolding cleanup_targets
targets_not_reading storage r now =
    filter-All (λ (t : CleanupTarget). ¬ MayBeReading r t.resource_id now)
      (λ t. provider_source_cleanup_authorized r t.resource_id now) _ (retryable_targets storage r)
      (λ t. authorized-not_reading r t.resource_id now)
