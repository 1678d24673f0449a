-- ===== src/Ledger.antt =====
-- src/lib/runs/paid-cost-ledger.ts: the record of paid attempts. Amounts are whole micro-dollars;
-- a missing estimate, which the source replaces by -1, is refused as a negative one is. The sums
-- of the source are exact in this range: `Number.isSafeInteger` is tested before they are compared.
pub mod Laws
pub mod Closing
use monidhackson.Base.{
  ℕ, ◌+◌, String, Bool, true, false, not, ◌&&◌, ◌||◌, List, [], ◌∷◌, ◌++◌, Option, none, some, map,
  any, find, get_or, or_else, sum_by, concat, leb, ltb, if◌then◌else◌,
}
use monidhackson.Errors.{
  AppError, Result, ok, err, ◌>>=◌, ◌>>◌, budget_exceeded, analysis_incomplete,
}
use monidhackson.Contracts.{CostEvent, CostStatus, pending}
use monidhackson.Runs.Types.{RunRecord, Instant, is_pending}
use monidhackson.Runs.Store.Record.{text_is}
use monidhackson.Runs.Store.{InMemoryRunStore, Claim, update}

abbrev pub max_safe_integer : ℕ
max_safe_integer = 9007199254740991

abbrev pub invalid_amount : String → AppError
invalid_amount label = record {
  code = budget_exceeded;
  message = concat label " is invalid.";
  http_status = 503;
  retryable = false;
}

abbrev pub plan_exceeds_reservation : AppError
plan_exceeds_reservation = record {
  code = budget_exceeded;
  message = "The paid provider plan exceeds the durable run reservation.";
  http_status = 503;
  retryable = false;
}

abbrev pub attempt_replayed : AppError
attempt_replayed = record {
  code = analysis_incomplete;
  message = "The paid provider attempt was already recorded; replay was blocked.";
  http_status = 409;
  retryable = false;
}

abbrev pub nothing_to_settle : AppError
nothing_to_settle = record {
  code = analysis_incomplete;
  message = "The paid provider outcome cannot settle an absent or completed attempt.";
  http_status = 409;
  retryable = false;
}

unfoldable pub event_commitment : CostEvent → ℕ
event_commitment e = get_or (or_else e.actual_micro_usd e.estimated_micro_usd) 0

unfoldable pub committed : List CostEvent → ℕ
committed costs = sum_by event_commitment costs

unfoldable pub validate_micro_usd : String → Option ℕ → Result (Unit {0})
validate_micro_usd label none = err (invalid_amount label)
validate_micro_usd label (some v) =
    if leb v max_safe_integer then ok tt else err (invalid_amount label)

unfoldable pub assert_durable_commitment_fits : ℕ → ℕ → ℕ → ℕ → Result (Unit {0})
unfolding validate_micro_usd
assert_durable_commitment_fits cost remaining reserved maximum = do
  validate_micro_usd "The recorded provider cost" (some cost)
  validate_micro_usd "The remaining provider commitment" (some remaining)
  validate_micro_usd "The run reservation" (some reserved)
  validate_micro_usd "The maximum run cost" (some maximum)
  (if ltb maximum reserved || ltb reserved (cost + remaining)
      then err plan_exceeds_reservation
      else ok tt)

-- A cost event with its attempt id, which a paid attempt always carries.
abbrev pub is_attempt : String → CostEvent → Bool
is_attempt id e = text_is e.attempt_id id

-- The mutation of `markPaidCostAttemptStarted`.
unfoldable pub mark_started : String → CostEvent → ℕ → ℕ → Instant → RunRecord → Result RunRecord
mark_started attempt_id event remaining maximum now r =
    if any (is_attempt attempt_id) r.costs
    then err attempt_replayed
    else let costs = r.costs ++ event ∷ [] in
      assert_durable_commitment_fits (committed costs) remaining r.reserved_micro_usd maximum
      >> ok (record r {
        paid_provider_attempt_started_at = some (get_or r.paid_provider_attempt_started_at now);
        costs = costs;
        cost_micro_usd = committed costs;
        updated_at = now;
      })

unfoldable pub mark_paid_cost_attempt_started :
    String
    → String
    → CostEvent
    → ℕ
    → ℕ
    → Claim
    → Instant
    → InMemoryRunStore
    → Result (InMemoryRunStore × RunRecord)
mark_paid_cost_attempt_started run_id attempt_id event remaining maximum claim now s = do
  validate_micro_usd "The paid attempt reserve" event.estimated_micro_usd
  validate_micro_usd "The remaining provider commitment" (some remaining)
  update run_id (mark_started attempt_id event remaining maximum now) (some claim) s

abbrev pub replace_attempt : String → CostEvent → CostEvent → CostEvent
replace_attempt id settled e = if is_attempt id e then settled else e

-- The mutation of `settlePaidCostAttempt`.
unfoldable pub settle_attempt : String → CostEvent → Instant → RunRecord → Result RunRecord
settle_attempt attempt_id event now r = elim (find (is_attempt attempt_id) r.costs) [
  | none ↦ err nothing_to_settle
  | some found ↦
      if not (is_pending found.status)
      then err nothing_to_settle
      else let costs = map (replace_attempt attempt_id event) r.costs in
        ok (record r { costs = costs; cost_micro_usd = committed costs; updated_at = now })
]

-- The store is written before the remaining plan is checked, so a refusal of the plan leaves the
-- settlement in the store: the new store and the answer are given apart.
unfoldable pub settle_paid_cost_attempt :
    String
    → String
    → CostEvent
    → ℕ
    → ℕ
    → Claim
    → Instant
    → InMemoryRunStore
    → InMemoryRunStore × Result RunRecord
settle_paid_cost_attempt run_id attempt_id event remaining maximum claim now s =
    elim (update run_id (settle_attempt attempt_id event now) (some claim) s) [
      | err e ↦ (s, err e)
      | ok (s', updated) ↦ (
        s',
        assert_durable_commitment_fits updated.cost_micro_usd remaining updated.reserved_micro_usd
              maximum
            >> ok updated,
      )
    ]
