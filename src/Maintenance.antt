-- ===== src/Maintenance.antt =====
-- src/lib/health/maintenance.ts: the durable proof that the recurring maintenance has run. A number
-- of the database that is no natural number, and a date that is none, are `none`. What the database
-- answers, or that it did not answer in time, is an argument.
use monidhackson.Base.{
  ℕ, ◌+◌, ◌-◌, ◌≤◌, ◌≡◌, ◌↔◌, refl, subst, Bool, true, false, not, ◌&&◌, ◌||◌, List, [], ◌∷◌,
  Option, none, some, leb, ltb, if◌then◌else◌, Bool-cases, inl, inr, arith,
}
use monidhackson.Errors.{AppError, Result, ok, err, analysis_incomplete}
use monidhackson.Runs.Types.{Instant}

abbrev pub maintenance_heartbeat_interval_ms : ℕ
maintenance_heartbeat_interval_ms = 300000

abbrev pub maintenance_heartbeat_max_age_ms : ℕ
maintenance_heartbeat_max_age_ms = 900000

abbrev pub maintenance_heartbeat_max_future_skew_ms : ℕ
maintenance_heartbeat_max_future_skew_ms = 60000

abbrev pub maintenance_invocation_budget_ms : ℕ
maintenance_invocation_budget_ms = 45000

abbrev pub maintenance_max_recorded_duration_ms : ℕ
maintenance_max_recorded_duration_ms = 50000

pub record MaintenanceHeartbeatRow : Type 0 where
  pub completed_at : Option Instant
  pub duration_ms : Option ℕ
  pub work_budget_ms : Option ℕ

pub data MaintenanceHeartbeatHealth : Type 0 where
  fresh : Instant → ℕ → MaintenanceHeartbeatHealth
  missing stale unreachable : MaintenanceHeartbeatHealth

abbrev pub are_bounded : Option ℕ → Option ℕ → Bool
are_bounded none budget = false
are_bounded (some d) none = false
are_bounded (some d) (some b) =
    leb d maintenance_max_recorded_duration_ms
    && ltb 0 b
    && leb b maintenance_invocation_budget_ms
    && leb d b

unfoldable pub is_bounded_successful_heartbeat : MaintenanceHeartbeatRow → Bool
is_bounded_successful_heartbeat row = are_bounded row.duration_ms row.work_budget_ms

-- By the age of the row, which is negative where the row is from the future.
unfoldable pub health_at : Instant → Option Instant → MaintenanceHeartbeatHealth
health_at now none = stale
health_at now (some t) =
    if ltb (now + maintenance_heartbeat_max_future_skew_ms) t
      || ltb (t + maintenance_heartbeat_max_age_ms) now
    then stale
    else fresh t (now - t)

unfoldable pub health_of : Instant → List MaintenanceHeartbeatRow → MaintenanceHeartbeatHealth
health_of now [] = missing
health_of now (row ∷ []) =
    if not (is_bounded_successful_heartbeat row) then stale else health_at now row.completed_at
health_of now (row ∷ other ∷ rows) = stale

-- `err` is an error of the database, or its silence for too long.
unfoldable pub probe_maintenance_heartbeat :
    Bool → Result (List MaintenanceHeartbeatRow) → Instant → MaintenanceHeartbeatHealth
probe_maintenance_heartbeat false answer now = missing
probe_maintenance_heartbeat true (err e) now = unreachable
probe_maintenance_heartbeat true (ok rows) now = health_of now rows

abbrev pub is_fresh : MaintenanceHeartbeatHealth → Bool
is_fresh (fresh t age) = true
is_fresh _ = false

abbrev pub maintenance_not_recent : AppError
maintenance_not_recent = record {
  code = analysis_incomplete;
  message = "The recurring maintenance path has not completed recently.";
  http_status = 503;
  retryable = true;
}

-- `assertRecentMaintenanceHeartbeat` of src/lib/runs/create.ts.
unfoldable pub assert_recent_maintenance_heartbeat :
    Bool → Bool → Result (List MaintenanceHeartbeatRow) → Instant → Result (Unit {0})
assert_recent_maintenance_heartbeat is_production has_database answer now =
    if not is_production
    then ok tt
    else if not (is_fresh (probe_maintenance_heartbeat has_database answer now))
    then err maintenance_not_recent
    else ok tt

abbrev pub not_bounded : AppError
not_bounded = record {
  code = analysis_incomplete;
  message = "maintenance heartbeat is not bounded";
  http_status = 500;
  retryable = true;
}

-- `execute` is the statement that writes the row.
unfoldable pub record_maintenance_heartbeat :
    (MaintenanceHeartbeatRow → Result (Unit {0})) → MaintenanceHeartbeatRow → Result (Unit {0})
record_maintenance_heartbeat execute summary =
    if not (is_bounded_successful_heartbeat summary) then err not_bounded else execute summary

-- A run of the maintenance that ended at `t`, within its budget.
abbrev pub IsRecent : Instant → Instant → MaintenanceHeartbeatRow → Type 0
IsRecent now t row =
    (row.completed_at ≡ some t)
    × (t ≤ now + 60000)
    × (now ≤ t + 900000)
    × ((d : ℕ) × (b : ℕ) × (row.duration_ms ≡ some d)
        × (row.work_budget_ms ≡ some b)
        × (1 ≤ b)
        × (b ≤ 45000)
        × (d ≤ b))

are_bounded_iff :
    (duration budget : Option ℕ)
    → (are_bounded duration budget ≡ true) ↔ (
        (d : ℕ) × (b : ℕ) × (duration ≡ some d)
        × (budget ≡ some b)
        × (1 ≤ b)
        × (b ≤ 45000)
        × (d ≤ b))
are_bounded_iff none budget = (λ h. cc, λ (d, b, e, _, _, _, _). cc)
are_bounded_iff (some d) none = (λ h. cc, λ (d', b, _, e, _, _, _). cc)
are_bounded_iff (some d) (some b) = (
  (λ h. (d, b, refl, refl, ground arith, ground arith, ground arith)),
  (λ (d', b', e, e', positive, small, fits). ground arith),
)

health_at_iff :
    (now : Instant) (completed : Option Instant)
    → (is_fresh (health_at now completed) ≡ true)
      ↔ ((t : Instant) × (completed ≡ some t) × (t ≤ now + 60000) × (now ≤ t + 900000))
unfolding health_at
health_at_iff now none = (λ h. cc, λ (t, e, _, _). cc)
health_at_iff now (some t) =
    ((λ h. (t, refl, ground arith, ground arith)), (λ (t', e, early, late). ground arith))

row-fresh_iff :
    (now : Instant) (row : MaintenanceHeartbeatRow)
    → (is_fresh (health_of now (row ∷ [])) ≡ true) ↔ ((t : Instant) × IsRecent now t row)
unfolding health_of is_bounded_successful_heartbeat
row-fresh_iff now row = (
  (λ h. elim (Bool-cases (are_bounded row.duration_ms row.work_budget_ms)) [
    | inr loose ↦ cc (rw loose at h)
    | inl tight ↦
        let (t, e, early, late) = (health_at_iff now row.completed_at).0 (rw tight at h) in
        (t, (e, early, late, (are_bounded_iff row.duration_ms row.work_budget_ms).0 tight))
  ]),
  (λ (t, (e, early, late, bounds)).
      rw ((are_bounded_iff row.duration_ms row.work_budget_ms).1 bounds)
        ((health_at_iff now row.completed_at).1 (t, e, early, late))),
)

probe-fresh_iff :
    (has_database : Bool) (answer : Result (List MaintenanceHeartbeatRow)) (now : Instant)
    → (is_fresh (probe_maintenance_heartbeat has_database answer now) ≡ true) ↔ (
        (row : MaintenanceHeartbeatRow) × (t : Instant) × (has_database ≡ true)
        × (answer ≡ ok (row ∷ []))
        × IsRecent now t row)
unfolding probe_maintenance_heartbeat health_of
probe-fresh_iff false answer now = (λ h. cc, λ (row, t, e, _, _). cc)
probe-fresh_iff true (err e) now = (λ h. cc, λ (row, t, _, e', _). cc)
probe-fresh_iff true (ok []) now = (λ h. cc, λ (row, t, _, e', _). cc)
probe-fresh_iff true (ok (row ∷ [])) now = (
  (λ h. let (t, recent) = (row-fresh_iff now row).0 h in (row, t, refl, refl, recent)),
  (λ (row', t, _, e, recent).
      let same : row' ≡ row = cc in
      (row-fresh_iff now row).1 (t, subst (λ x. IsRecent now t x) same recent)),
)
probe-fresh_iff true (ok (row ∷ other ∷ rows)) now = (λ h. cc, λ (row', t, _, e, _). cc)

-- In production the check passes exactly on the proof that the recurring maintenance works:
-- there is a database, and the one row that it holds is of a maintenance run that kept its
-- budget, at most 45 seconds, and ended at most 15 minutes ago, and no more than a minute ahead
-- of the clock. No row, a second row, an unreadable one, or no answer in time all refuse.
pub assert_recent_maintenance_heartbeat-ok_iff :
    (has_database : Bool) (answer : Result (List MaintenanceHeartbeatRow)) (now : Instant)
    → (assert_recent_maintenance_heartbeat true has_database answer now ≡ ok tt) ↔ (
        (row : MaintenanceHeartbeatRow) × (t : Instant) × (has_database ≡ true)
        × (answer ≡ ok (row ∷ []))
        × IsRecent now t row)
unfolding assert_recent_maintenance_heartbeat
assert_recent_maintenance_heartbeat-ok_iff has_database answer now =
    let (to, from) = probe-fresh_iff has_database answer now in
    (
      (λ h. elim (Bool-cases (is_fresh (probe_maintenance_heartbeat has_database answer now))) [
        | inl recent ↦ to recent
        | inr old ↦ cc (rw (old, assert_recent_maintenance_heartbeat) at h)
      ]),
      (λ x. rw (from x, assert_recent_maintenance_heartbeat) refl),
    )
