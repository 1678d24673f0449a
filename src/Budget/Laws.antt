-- ===== src/Budget/Laws.antt =====
-- The daily cap, the quota, the ceiling of a run, and the replay of a reservation.
use monidhackson.Base.{
  ℕ, ◌+◌, ◌≤◌, ◌≡◌, refl, sym, ap, subst, ◌⊎◌, inl, inr, String, true, [], Option, none, some,
  is_some, get_or, lookup, insert, lookup-insert_self, total, total-insert_new, total-insert_old,
  AllValues, AllValues-insert, AllValues-lookup, Bool-cases, Option-cases, ◌==◌, max, arith,
}
use monidhackson.Errors.{ok}
use monidhackson.Runs.Types.{Instant}
use monidhackson.Budget.{
  BudgetConfig, BudgetReservationInput, MemoryReservation, Reservations, utc_day, daily_limit,
  charge_on, daily_committed, counts_for, recent_runs, reserve, settle,
}

-- The reservation that `reserve` adds.
abbrev reservation : BudgetReservationInput → Instant → MemoryReservation
reservation input now = record {
  quota_key = input.quota_key;
  day = utc_day now;
  reserved = input.amount_micro_usd;
  settled = none;
  created_at = now;
}

-- What a `reserve` that succeeds has done: nothing, for a run that has a reservation; otherwise it
-- has passed the three tests and added the reservation.
reserve_cases :
    (c : BudgetConfig) (input : BudgetReservationInput) (now : Instant) (m m' : Reservations)
    → reserve c input now m ≡ ok m'
    → (is_some (lookup input.run_id m) ≡ true) × (m' ≡ m)
      ⊎ (lookup input.run_id m ≡ none)
        × (input.amount_micro_usd ≤ c.max_run_cost_micro_usd)
        × (recent_runs input.quota_key (utc_day now) m + 1 ≤ daily_limit c input.principal_kind)
        × (daily_committed (utc_day now) m + input.amount_micro_usd ≤ c.daily_cost_cap_micro_usd)
        × (m' ≡ insert input.run_id (reservation input now) m)
unfolding reserve
reserve_cases c input now m m' h = ground arith

-- On every day what is charged stays within the daily cap.
abbrev pub WithinCap : BudgetConfig → Reservations → Type 0
WithinCap c m = (day : ℕ) → daily_committed day m ≤ c.daily_cost_cap_micro_usd

charge_today :
    (c : BudgetConfig) (input : BudgetReservationInput) (now : Instant) (m : Reservations)
    → lookup input.run_id m ≡ none
    → daily_committed (utc_day now) m + input.amount_micro_usd ≤ c.daily_cost_cap_micro_usd
    → WithinCap c m
    → WithinCap c (insert input.run_id (reservation input now) m)
unfolding daily_committed
charge_today c input now m new fits w day = elim (Bool-cases (utc_day now == day)) [
  | inl today ↦
      let same : utc_day now ≡ day = ground arith in
      ground (
        arith,
        total-insert_new (charge_on day) input.run_id (reservation input now) m new,
        subst (λ d. total (charge_on d) m + input.amount_micro_usd ≤ c.daily_cost_cap_micro_usd)
            same fits,
      )
  | inr other ↦
      ground
        (arith, total-insert_new (charge_on day) input.run_id (reservation input now) m new, w day)
]

-- A reservation that is granted keeps the charges of every day within the daily cap.
pub reserve-WithinCap :
    (c : BudgetConfig) (input : BudgetReservationInput) (now : Instant) (m m' : Reservations)
    → WithinCap c m
    → reserve c input now m ≡ ok m'
    → WithinCap c m'
reserve-WithinCap c input now m m' w h = elim (reserve_cases c input now m m' h) [
  | inl (_, kept) ↦ rw kept w
  | inr (new, _, _, fits, added) ↦ rw added (charge_today c input now m new fits w)
]

-- A reservation that is granted to a new run leaves the owner's runs of the day within the quota.
pub reserve_quota :
    (c : BudgetConfig) (input : BudgetReservationInput) (now : Instant) (m m' : Reservations)
    → lookup input.run_id m ≡ none
    → reserve c input now m ≡ ok m'
    → recent_runs input.quota_key (utc_day now) m' ≤ daily_limit c input.principal_kind
unfolding recent_runs
reserve_quota c input now m m' new h = elim (reserve_cases c input now m m' h) [
  | inl (old, _) ↦ cc (rw new at old)
  | inr (_, _, few, _, added) ↦ rw added (
      ground (
        arith,
        total-insert_new (counts_for input.quota_key (utc_day now)) input.run_id
            (reservation input now) m new,
      ))
]

-- A run's reservation never exceeds the ceiling of a run, and its settlement never the reservation.
abbrev pub IsCovered : BudgetConfig → MemoryReservation → Type 0
IsCovered c r = (r.reserved ≤ c.max_run_cost_micro_usd) × (get_or r.settled 0 ≤ r.reserved)

-- The reservations after some calls that succeed.
pub data Calls (c : BudgetConfig) : Reservations → Type 0 where
  empty : Calls c []
  reserved :
      {m m' : Reservations} (input : BudgetReservationInput) (now : Instant)
      → Calls c m
      → reserve c input now m ≡ ok m'
      → Calls c m'
  settled :
      {m m' : Reservations} (run_id : String) (actual : Option ℕ)
      → Calls c m
      → settle c run_id actual m ≡ ok m'
      → Calls c m'

settle_cases :
    (c : BudgetConfig) (run_id : String) (actual : Option ℕ) (m m' : Reservations)
    → settle c run_id actual m ≡ ok m'
    → ((lookup run_id m ≡ none) × (m' ≡ m))
      ⊎ ((amount : ℕ) × (r : MemoryReservation) × (actual ≡ some amount)
          × (lookup run_id m ≡ some r)
          × (amount ≤ r.reserved)
          × (m' ≡ insert run_id (record r { settled = some (max (get_or r.settled 0) amount) }) m))
unfolding settle
settle_cases c run_id none m m' h = cc
settle_cases c run_id (some amount) m m' h = elim (Option-cases (lookup run_id m)) [
  | inl e ↦ inl (e, ground arith)
  | inr (r, e) ↦ inr (amount, r, refl, e, ground arith, ground arith)
]

-- After any sequence of calls, no reservation exceeds the ceiling of a run and no settlement its
-- reservation.
pub Calls-IsCovered : (c : BudgetConfig) (m : Reservations) → Calls c m → AllValues (IsCovered c) m
Calls-IsCovered c _ empty = tt
Calls-IsCovered c m' (reserved {m} input now before h) = elim (reserve_cases c input now m m' h) [
  | inl (_, kept) ↦ rw kept (Calls-IsCovered c m before)
  | inr (_, small, _, _, added) ↦ rw added (
      AllValues-insert (IsCovered c) input.run_id (reservation input now) m (small, omega arith)
        (Calls-IsCovered c m before))
]
Calls-IsCovered c m' (settled {m} run_id actual before h) =
    elim (settle_cases c run_id actual m m' h) [
      | inl (_, kept) ↦ rw kept (Calls-IsCovered c m before)
      | inr (amount, r, _, e, small, added) ↦
          let old = AllValues-lookup (IsCovered c) run_id r m e (Calls-IsCovered c m before) in
          rw added (
            AllValues-insert (IsCovered c) run_id _ m (old.0, omega arith)
              (Calls-IsCovered c m before))
    ]

-- The first settlement of a run never raises what is charged on a day, so the daily cap still holds.
pub settle-WithinCap :
    (c : BudgetConfig) (run_id : String) (actual : Option ℕ) (m m' : Reservations)
    (r : MemoryReservation)
    → WithinCap c m
    → lookup run_id m ≡ some r
    → r.settled ≡ none
    → settle c run_id actual m ≡ ok m'
    → WithinCap c m'
unfolding daily_committed
settle-WithinCap c run_id actual m m' r w found unsettled h day =
    elim (settle_cases c run_id actual m m' h) [
      | inl (missing, _) ↦ cc (missing, found)
      | inr (amount, r', _, e, small, added) ↦
          let same : r' ≡ r = cc in
          let paid = subst (λ (x : MemoryReservation). x.settled ≡ none) (sym same) unsettled in
          rw added (
            ground (
              arith,
              w day,
              total-insert_old (charge_on day) run_id
                  (record r' { settled = some (max (get_or r'.settled 0) amount) }) r' m e,
            ))
    ]

reserve_holds :
    (c : BudgetConfig) (input : BudgetReservationInput) (now : Instant) (m m' : Reservations)
    → reserve c input now m ≡ ok m'
    → is_some (lookup input.run_id m') ≡ true
reserve_holds c input now m m' h = elim (reserve_cases c input now m m' h) [
  | inl (held, kept) ↦ rw kept held
  | inr (_, _, _, _, added) ↦
      rw added (ap is_some (lookup-insert_self input.run_id (reservation input now) m))
]

-- Reserving again for the same run, with whatever amount and at whatever time, changes nothing.
pub reserve_again :
    (c : BudgetConfig) (input again : BudgetReservationInput) (now later : Instant)
    (m m' : Reservations)
    → again.run_id ≡ input.run_id
    → reserve c input now m ≡ ok m'
    → reserve c again later m' ≡ ok m'
unfolding reserve
reserve_again c input again now later m m' same h =
    let held : is_some (lookup again.run_id m') ≡ true =
      rw same (reserve_holds c input now m m' h) in
    rw held refl
