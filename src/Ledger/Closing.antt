-- ===== src/Ledger/Closing.antt =====
-- The refusal that follows a settlement which exceeds the plan.
use monidhackson.Base.{ℕ, ◌+◌, ◌<◌, ◌≡◌, refl, inl, inr, String, some, arith}
use monidhackson.Errors.{AppError, ok, err, Result-cases}
use monidhackson.Contracts.{CostEvent}
use monidhackson.Runs.Types.{RunRecord, Instant}
use monidhackson.Runs.Store.{InMemoryRunStore, Claim, update}
use monidhackson.Ledger.{assert_durable_commitment_fits, settle_attempt, settle_paid_cost_attempt}
use monidhackson.Ledger.Laws.{assert_fits}

assert_over :
    (cost remaining reserved maximum : ℕ)
    → reserved < cost + remaining
    → (e : AppError) × (assert_durable_commitment_fits cost remaining reserved maximum ≡ err e)
assert_over cost remaining reserved maximum over =
    elim (Result-cases (assert_durable_commitment_fits cost remaining reserved maximum)) [
      | inl (u, fine) ↦
          absurd (omega (arith, (assert_fits cost remaining reserved maximum {u = u} fine).0))
      | inr (e, refused) ↦ (e, refused)
    ]

-- A settlement that uses up what was planned is stored all the same, and the caller is refused, so
-- that no further provider request starts.
pub settle_fails_closed :
    (run_id id : String) (event : CostEvent) (remaining maximum : ℕ) (claim : Claim) (now : Instant)
    (s s' : InMemoryRunStore) (u : RunRecord)
    → update run_id (settle_attempt id event now) (some claim) s ≡ ok (s', u)
    → u.reserved_micro_usd < u.cost_micro_usd + remaining
    → let (stored, answer) =
        settle_paid_cost_attempt run_id id event remaining maximum claim now s in
      (stored ≡ s') × ((e : AppError) × (answer ≡ err e))
unfolding settle_paid_cost_attempt
settle_fails_closed run_id id event remaining maximum claim now s s' u h over =
    let (e, refused) = assert_over u.cost_micro_usd remaining u.reserved_micro_usd maximum over in
    rw (h, settle_paid_cost_attempt) (refl, (e, rw refused refl))
