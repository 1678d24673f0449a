-- ===== src/Budget.antt =====
-- src/lib/security/budget.ts: the in-memory budget guard. A UTC day is the number of days since
-- 1970, which is what the first ten characters of the ISO text name. A settlement that is not a
-- finite number at least 0 is `none`; the amounts are whole, so rounding changes nothing.
pub mod Laws
use monidhackson.Base.{
  ℕ, ◌+◌, ◌/◌, String, Bool, true, false, ◌&&◌, ◌||◌, List, [], ◌∷◌, Option, none, some, is_some,
  get_or, total, lookup, insert, text_eq, leb, ltb, ◌==◌, max, if◌then◌else◌,
}
use monidhackson.Errors.{AppError, Result, ok, err, budget_exceeded, rate_limited}
use monidhackson.Runs.Types.{Instant}

pub data PrincipalKind : Type 0 where
  guest api : PrincipalKind

pub record BudgetConfig : Type 0 where
  pub max_run_cost_micro_usd : ℕ
  pub api_runs_per_day : ℕ
  pub guest_runs_per_day : ℕ
  pub daily_cost_cap_micro_usd : ℕ

pub record BudgetReservationInput : Type 0 where
  pub run_id : String
  pub quota_key : String
  pub principal_kind : PrincipalKind
  pub amount_micro_usd : ℕ

pub record MemoryReservation : Type 0 where
  pub quota_key : String
  pub day : ℕ
  pub reserved : ℕ
  pub settled : Option ℕ
  pub created_at : Instant

abbrev pub Reservations : Type 0
Reservations = List (String × MemoryReservation)

abbrev pub run_over_cap : AppError
run_over_cap = record {
  code = budget_exceeded;
  message = "The run estimate exceeds the per-run budget cap.";
  http_status = 402;
  retryable = false;
}

abbrev pub quota_reached : AppError
quota_reached = record {
  code = rate_limited;
  message = "The daily run quota has been reached.";
  http_status = 429;
  retryable = true;
}

abbrev pub budget_exhausted : AppError
budget_exhausted = record {
  code = budget_exceeded;
  message = "The daily provider budget is exhausted.";
  http_status = 402;
  retryable = true;
}

abbrev pub invalid_cost : AppError
invalid_cost = record {
  code = budget_exceeded;
  message = "Observed provider cost is invalid.";
  http_status = 503;
  retryable = false;
}

abbrev pub cost_over_ceiling : AppError
cost_over_ceiling = record {
  code = budget_exceeded;
  message = "Observed provider cost exceeded the reserved per-run safety ceiling.";
  http_status = 503;
  retryable = false;
}

abbrev pub utc_day : Instant → ℕ
utc_day now = now / 86400000

abbrev pub daily_limit : BudgetConfig → PrincipalKind → ℕ
daily_limit c api = c.api_runs_per_day
daily_limit c guest = c.guest_runs_per_day

-- What a reservation takes from the budget of its day.
abbrev pub charge : MemoryReservation → ℕ
charge r = get_or r.settled r.reserved

abbrev pub charge_on : ℕ → MemoryReservation → ℕ
charge_on day r = if r.day == day then charge r else 0

unfoldable pub daily_committed : ℕ → Reservations → ℕ
daily_committed day m = total (charge_on day) m

abbrev pub counts_for : String → ℕ → MemoryReservation → ℕ
counts_for quota_key day r = if text_eq r.quota_key quota_key && r.day == day then 1 else 0

-- The length of the filtered list.
unfoldable pub recent_runs : String → ℕ → Reservations → ℕ
recent_runs quota_key day m = total (counts_for quota_key day) m

unfoldable pub reserve :
    BudgetConfig → BudgetReservationInput → Instant → Reservations → Result Reservations
reserve c input now m =
    if is_some (lookup input.run_id m)
    then ok m
    else if ltb c.max_run_cost_micro_usd input.amount_micro_usd
    then err run_over_cap
    else if leb (daily_limit c input.principal_kind) (recent_runs input.quota_key (utc_day now) m)
    then err quota_reached
    else if ltb c.daily_cost_cap_micro_usd
        (daily_committed (utc_day now) m + input.amount_micro_usd)
    then err budget_exhausted
    else ok (
        insert input.run_id
          (record {
            quota_key = input.quota_key;
            day = utc_day now;
            reserved = input.amount_micro_usd;
            settled = none;
            created_at = now;
          })
          m)

unfoldable pub settle : BudgetConfig → String → Option ℕ → Reservations → Result Reservations
settle c run_id none m = err invalid_cost
settle c run_id (some settled) m = elim (lookup run_id m) [
  | none ↦ ok m
  | some r ↦
      if ltb c.max_run_cost_micro_usd settled || ltb r.reserved settled
      then err cost_over_ceiling
      else ok (insert run_id (record r { settled = some (max (get_or r.settled 0) settled) }) m)
]
