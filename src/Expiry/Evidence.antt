-- ===== src/Expiry/Evidence.antt =====
-- The evidence on which a cleanup closes a run.
use monidhackson.Base.{
  ◌≤◌, ◌≡◌, ◌↔◌, ◌≢◌, refl, ◌⊎◌, inl, inr, String, Bool, true, List, [], ◌∷◌, none, some, filter,
  all, any, starts_with, eq_iff, All, Any, here, there, Bool-cases, Option-cases, arith,
}
use mathlib.Core.Bool.{and-eq-true_iff}
use monidhackson.Runs.Types.{RunRecord, Instant, CleanupReceipt}
use monidhackson.Cleanup.Laws.{Deletes, gate_iff}
use monidhackson.Expiry.{quiescence_reached}
use monidhackson.Expiry.Runner.{is_durable, deletes_app, is_reconfirmed, some_and_all, is_confirmed}

-- The worker's memory counts as gone.
abbrev pub IsQuiet : RunRecord → Instant → Type 0
IsQuiet r now =
    (r.processing_lease_expires_at ≡ none)
    ⊎ ((e : Instant) × (r.processing_lease_expires_at ≡ some e) × (e ≤ now))

-- What the receipts must show: the worker is quiet; some stored copy is expected; every
-- expected resource was deleted by the application, a staged copy by this very cleanup.
pub record AllGone (now : Instant) (r : RunRecord) (fresh known : List CleanupReceipt)
    : Type 0 where
  pub quiet : IsQuiet r now
  pub durable : filter is_durable r.cleanup_expected_resource_ids ≢ []
  pub gone : All (λ id. Any (Deletes id) known) r.cleanup_expected_resource_ids
  pub restaged :
      All
        (λ id. starts_with id "staged:" ≡ true → Any (Deletes id) fresh)
        (filter is_durable r.cleanup_expected_resource_ids)

quiescence-IsQuiet :
    (r : RunRecord) (now : Instant) → quiescence_reached r now ≡ true → IsQuiet r now
unfolding quiescence_reached
quiescence-IsQuiet r now h = elim (Option-cases r.processing_lease_expires_at) [
  | inl e ↦ inl e
  | inr (t, e) ↦ inr (t, e, ground arith)
]

any-Deletes :
    (id : String) (cs : List CleanupReceipt) → any (deletes_app id) cs ≡ true → Any (Deletes id) cs
any-Deletes id [] h = cc
any-Deletes id (c ∷ cs) h = elim (Bool-cases (deletes_app id c)) [
  | inl e ↦ here (deletes_app-Deletes id c e)
  | inr e ↦ there (any-Deletes id cs (ground arith))
]
  where
    deletes_app-Deletes : (j : String) (d : CleanupReceipt) → deletes_app j d ≡ true → Deletes j d
    deletes_app-Deletes j d e = (ground (arith, eq_iff d.resource_id j), ground arith, ground arith)

restaged-All :
    (fresh known : List CleanupReceipt) (ids : List String)
    → all (is_reconfirmed fresh known) ids ≡ true
    → All (λ id. starts_with id "staged:" ≡ true → Any (Deletes id) fresh) ids
restaged-All fresh known [] h = tt
restaged-All fresh known (id ∷ ids) h =
    let (one, rest) = (and-eq-true_iff (is_reconfirmed fresh known id) _).0 h in
    (λ staged. any-Deletes id fresh (rw staged at one), restaged-All fresh known ids rest)

Deletes-any :
    (id : String) (cs : List CleanupReceipt) → Any (Deletes id) cs → any (deletes_app id) cs ≡ true
Deletes-any id [] m = elim m [ ]
Deletes-any id (c ∷ cs) (here (a, b, d)) = ground (arith, eq_iff c.resource_id id)
Deletes-any id (c ∷ cs) (there m) = ground (arith, Deletes-any id cs m)

All-restaged :
    (fresh known : List CleanupReceipt) (ids : List String)
    → All (λ id. starts_with id "staged:" ≡ true → Any (Deletes id) fresh) ids
    → All (λ id. Any (Deletes id) known) ids
    → all (is_reconfirmed fresh known) ids ≡ true
All-restaged fresh known [] h g = refl
All-restaged fresh known (id ∷ ids) (h, hs) (g, gs) = elim (Bool-cases (starts_with id "staged:")) [
  | inl e ↦ rw (e, Deletes-any id fresh (h e)) (All-restaged fresh known ids hs gs)
  | inr e ↦ rw (e, Deletes-any id known g) (All-restaged fresh known ids hs gs)
]

All-filter_of {ℓ} :
    (P : String → Type ℓ) (p : String → Bool) (ids : List String) → All P ids → All P (filter p ids)
All-filter_of P p [] h = tt
All-filter_of P p (id ∷ ids) (h, hs) = elim (Bool-cases (p id)) [
  | inl e ↦ rw e (h, All-filter_of P p ids hs)
  | inr e ↦ rw e (All-filter_of P p ids hs)
]

some_and_all-all :
    (p : String → Bool) (ids : List String)
    → (some_and_all p ids ≡ true) ↔ ((ids ≢ []) × (all p ids ≡ true))
some_and_all-all p [] = (λ h. cc, λ h. absurd (h.0 refl))
some_and_all-all p (id ∷ ids) = (λ h. (λ e. cc, h), λ h. h.1)

pub is_confirmed-AllGone :
    (now : Instant) (r : RunRecord) (fresh known : List CleanupReceipt)
    → is_confirmed now r fresh known ≡ true
    → AllGone now r fresh known
unfolding is_confirmed
is_confirmed-AllGone now r fresh known h =
    let (a, gate) = (and-eq-true_iff _ _).0 h in
    let (quiet, stored) = (and-eq-true_iff _ _).0 a in
    let (there_is, again) = (some_and_all-all _ _).0 stored in
    record {
      quiet = quiescence-IsQuiet r now quiet;
      durable = there_is;
      gone = ((gate_iff r.cleanup_expected_resource_ids known).0 gate).1;
      restaged = restaged-All fresh known _ again;
    }

IsQuiet-quiescence :
    (r : RunRecord) (now : Instant) → IsQuiet r now → quiescence_reached r now ≡ true
unfolding quiescence_reached
IsQuiet-quiescence r now (inl e) = ground arith
IsQuiet-quiescence r now (inr (t, e, le)) = ground arith

pub AllGone-is_confirmed :
    (now : Instant) (r : RunRecord) (fresh known : List CleanupReceipt)
    → AllGone now r fresh known
    → is_confirmed now r fresh known ≡ true
unfolding is_confirmed
AllGone-is_confirmed now r fresh known g =
    let ids = r.cleanup_expected_resource_ids in
    let stored = (some_and_all-all (is_reconfirmed fresh known) (filter is_durable ids)).1 (
      g.durable,
      All-restaged fresh known (filter is_durable ids) g.restaged
          (All-filter_of (λ id. Any (Deletes id) known) is_durable ids g.gone),
    ) in
    let gate = (gate_iff ids known).1 ((λ e. g.durable (rw e refl)), g.gone) in
    rw (IsQuiet-quiescence r now g.quiet, stored, gate)
