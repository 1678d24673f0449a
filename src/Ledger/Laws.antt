-- ===== src/Ledger/Laws.antt =====
-- The ledger's invariant, its bound and its replay guard.
use monidhackson.Base.{
  ℕ, ◌+◌, ◌≤◌, ◌≡◌, refl, sym, ap, subst, ◌∙◌, inl, inr, String, Bool, true, false, ◌||◌, List, [],
  ◌∷◌, ◌++◌, some, map, any, find, eq_refl, Bool-cases, Option-cases, arith,
}
use monidhackson.Errors.{ok, >>=-eq-ok, ok-injective}
use monidhackson.Contracts.{CostEvent}
use monidhackson.Runs.Types.{RunRecord, Instant, is_pending}
use monidhackson.Runs.Store.Record.{text_is, text_is_eq}
use monidhackson.Ledger.{
  committed, assert_durable_commitment_fits, mark_started, settle_attempt, is_attempt,
  replace_attempt,
}

-- What is recorded and still planned fits into the reservation, and that into the ceiling.
pub assert_fits :
    (cost remaining reserved maximum : ℕ) {u : Unit {0}}
    → assert_durable_commitment_fits cost remaining reserved maximum ≡ ok u
    → (cost + remaining ≤ reserved) × (reserved ≤ maximum)
unfolding assert_durable_commitment_fits
assert_fits cost remaining reserved maximum h = ground arith

-- Attempts are recorded once each, and the cost of the run is the sum of its commitments.
abbrev pub Once : List CostEvent → Type 0
Once [] = Unit {0}
Once (e ∷ es) = ((id : String) → is_attempt id e ≡ true → any (is_attempt id) es ≡ false) × Once es

pub record IsBalanced (r : RunRecord) : Type 0 where
  pub total : r.cost_micro_usd ≡ committed r.costs
  pub once : Once r.costs

any-append :
    (p : CostEvent → Bool) (es : List CostEvent) (e : CostEvent)
    → any p (es ++ e ∷ []) ≡ (any p es || p e)
any-append p [] e = ground arith
any-append p (x ∷ es) e = ground (arith, any-append p es e)

pub Once-append :
    (es : List CostEvent) (e : CostEvent)
    → ((id : String) → is_attempt id e ≡ true → any (is_attempt id) es ≡ false)
    → Once es
    → Once (es ++ e ∷ [])
Once-append [] e new h = (λ id a. refl, tt)
Once-append (x ∷ es) e new (fresh, h) = (
  λ id a. ground (arith, any-append (is_attempt id) es e, new id, fresh id),
  Once-append es e (λ id a. ground (arith, new id)) h,
)

any-replace :
    (p : CostEvent → Bool) (id : String) (settled : CostEvent) (es : List CostEvent)
    → ((e : CostEvent) → is_attempt id e ≡ true → p settled ≡ p e)
    → any p (map (replace_attempt id settled) es) ≡ any p es
any-replace p id settled [] h = refl
any-replace p id settled (e ∷ es) h = ground (arith, any-replace p id settled es h, h e)

same_attempt :
    (id j : String) (d e : CostEvent)
    → is_attempt id d ≡ true
    → is_attempt id e ≡ true
    → is_attempt j d ≡ is_attempt j e
same_attempt id j d e h k =
    ap (λ o. text_is o j) (text_is_eq d.attempt_id id h ∙ sym (text_is_eq e.attempt_id id k))

Once-replace :
    (id : String) (settled : CostEvent) (es : List CostEvent)
    → is_attempt id settled ≡ true
    → Once es
    → Once (map (replace_attempt id settled) es)
Once-replace id settled [] s h = tt
Once-replace id settled (e ∷ es) s (fresh, h) = (
  λ j a.
      any-replace (is_attempt j) id settled es (λ d k. same_attempt id j settled d s k)
      ∙ fresh j (ground (arith, same_attempt id j settled e s)),
  Once-replace id settled es s h,
)

own_id : (id j : String) (e : CostEvent) → e.attempt_id ≡ some id → is_attempt j e ≡ true → id ≡ j
own_id id j e own h = ground (arith, text_is_eq e.attempt_id j h)

pub fresh_id :
    (id : String) (e : CostEvent) (es : List CostEvent)
    → e.attempt_id ≡ some id
    → any (is_attempt id) es ≡ false
    → (j : String) → is_attempt j e ≡ true
    → any (is_attempt j) es ≡ false
fresh_id id e es own new j a = subst (λ k. any (is_attempt k) es ≡ false) (own_id id j e own a) new

abbrev pub Marked : String → CostEvent → ℕ → ℕ → RunRecord → RunRecord → Type 0
Marked id event remaining maximum r u =
    IsBalanced u
    × (any (is_attempt id) r.costs ≡ false)
    × (u.costs ≡ r.costs ++ event ∷ [])
    × (u.cost_micro_usd + remaining ≤ u.reserved_micro_usd)
    × (u.reserved_micro_usd ≤ maximum)

-- Recording the start of a paid attempt keeps the ledger balanced. It succeeds only for an attempt
-- that is not recorded yet; the attempt is then the last of the ledger, and all that the run has
-- committed, together with what is still planned, fits into its reservation and that into the
-- ceiling of a run.
pub mark_started-IsBalanced :
    (id : String) (event : CostEvent) (remaining maximum : ℕ) (now : Instant) (r u : RunRecord)
    → event.attempt_id ≡ some id
    → IsBalanced r
    → mark_started id event remaining maximum now r ≡ ok u
    → Marked id event remaining maximum r u
unfolding mark_started
mark_started-IsBalanced id event remaining maximum now r u own b h =
    elim (Bool-cases (any (is_attempt id) r.costs)) [
      | inl old ↦ cc (rw (old, mark_started) at h)
      | inr new ↦
          let (_, checked, made) = >>=-eq-ok _ _ (rw (new, mark_started) at h) in
          let fits = assert_fits _ _ _ _ checked in
          subst (Marked id event remaining maximum r) (ok-injective made) (
            record {
              total = refl;
              once = Once-append r.costs event (fresh_id id event r.costs own new) b.once;
            },
            new,
            refl,
            fits.0,
            fits.1,
          )
    ]

owns : (id : String) (e : CostEvent) → e.attempt_id ≡ some id → is_attempt id e ≡ true
owns id e own = ground (arith, eq_refl id)

settle_done :
    (id : String) (event : CostEvent) (now : Instant) (r u : RunRecord) (found : CostEvent)
    → find (is_attempt id) r.costs ≡ some found
    → is_pending found.status ≡ false
    → ¬ (settle_attempt id event now r ≡ ok u)
unfolding settle_attempt
settle_done id event now r u found e done h = ground (arith, (rw (e, settle_attempt) at h))

settled_value :
    (id : String) (event : CostEvent) (now : Instant) (r u : RunRecord) (found : CostEvent)
    → find (is_attempt id) r.costs ≡ some found
    → is_pending found.status ≡ true
    → settle_attempt id event now r ≡ ok u
    → record r {
      costs = map (replace_attempt id event) r.costs;
      cost_micro_usd = committed (map (replace_attempt id event) r.costs);
      updated_at = now;
    }
      ≡ u
unfolding settle_attempt
settled_value id event now r u found e waits h =
    ok-injective (rw waits at (rw (e, settle_attempt) at h))

abbrev pub Settled : String → CostEvent → RunRecord → RunRecord → Type 0
Settled id event r u =
    IsBalanced u
    × ((found : CostEvent) × (find (is_attempt id) r.costs ≡ some found)
        × (is_pending found.status ≡ true))
    × (u.costs ≡ map (replace_attempt id event) r.costs)
    × (u.reserved_micro_usd ≡ r.reserved_micro_usd)

-- Settling an attempt keeps the ledger balanced. Only an attempt that is recorded and pending is
-- settled; its event is replaced, every other event stays, and so does the reservation.
pub settle_attempt-IsBalanced :
    (id : String) (event : CostEvent) (now : Instant) (r u : RunRecord)
    → event.attempt_id ≡ some id
    → IsBalanced r
    → settle_attempt id event now r ≡ ok u
    → Settled id event r u
unfolding settle_attempt
settle_attempt-IsBalanced id event now r u own b h =
    elim (Option-cases (find (is_attempt id) r.costs)) [
      | inl absent ↦ cc (rw (absent, settle_attempt) at h)
      | inr (found, e) ↦ elim (Bool-cases (is_pending found.status)) [
        | inr done ↦ absurd (settle_done id event now r u found e done h)
        | inl waits ↦ subst (Settled id event r) (settled_value id event now r u found e waits h) (
          record { total = refl; once = Once-replace id event r.costs (owns id event own) b.once },
          (found, e, waits),
          refl,
          refl,
        )
      ]
    ]
