-- ===== src/Scheduling/Heartbeat.antt =====
-- src/lib/runs/processing-heartbeat.ts: the timer that keeps a worker's lease alive. The callback of
-- the timer starts a call of the store, which lands later; `is_lost` says that its answer did not
-- arrive, although it may have been written.
use monidhackson.Base.{
  ℕ, ◌≡◌, refl, inl, inr, String, Bool, true, false, ◌||◌, Option, none, some, is_some,
  if◌then◌else◌, Bool-cases, arith,
}
use monidhackson.Errors.{AppError, Result, ok, err, analysis_incomplete, Result-cases}
use monidhackson.Runs.Types.{RunRecord, Instant}
use monidhackson.Runs.Store.Claims.{heartbeat_processing}
use monidhackson.Runs.Store.{InMemoryRunStore, try_claim}

pub record Heartbeat : Type 0 where
  pub stopped : Bool
  pub is_timer_set : Bool
  pub is_in_flight : Bool
  pub failure : Option AppError

abbrev pub lease_revoked : AppError
lease_revoked = record {
  code = analysis_incomplete;
  message = "The processing lease was revoked while the worker was active.";
  http_status = 400;
  retryable = false;
}

unfoldable pub schedule : Heartbeat → Heartbeat
schedule h = if h.stopped || is_some h.failure then h else record h { is_timer_set = true }

unfoldable pub start_processing_heartbeat : Heartbeat
unfolding schedule
start_processing_heartbeat =
    schedule
      (record { stopped = false; is_timer_set = false; is_in_flight = false; failure = none })

-- The timer goes off.
abbrev pub fire : Heartbeat → Heartbeat
fire h = record h { is_timer_set = false; is_in_flight = true }

-- The call of the store is over: the failure is kept, and the next one is scheduled.
abbrev pub settled : Option AppError → Heartbeat → Heartbeat
settled none h = schedule (record h { is_in_flight = false })
settled (some e) h = schedule (record h { is_in_flight = false; failure = some e })

abbrev pub beat_failure : AppError → Bool → Option RunRecord → Option AppError
beat_failure lost true answer = some lost
beat_failure lost false none = some lease_revoked
beat_failure lost false (some r) = none

unfoldable pub assert_healthy : Heartbeat → Result (Unit {0})
assert_healthy h = elim h.failure [ none ↦ ok tt | some e ↦ err e ]

-- What `stop` does at once; it then awaits the call in flight.
unfoldable pub stop : Heartbeat → Heartbeat
stop h = if h.stopped then h else record h { stopped = true; is_timer_set = false }

-- What it answers after that.
unfoldable pub stop_answer : Bool → Heartbeat → Result (Unit {0})
stop_answer suppress_failure h = elim h.failure [
  | none ↦ ok tt
  | some e ↦ if suppress_failure then ok tt else err e
]

-- A timer is set only while the heartbeat is neither stopped nor failed, and no call is in flight.
abbrev pub IsOrderly : Heartbeat → Type 0
IsOrderly h =
    h.is_timer_set ≡ true → (h.stopped ≡ false) × (h.failure ≡ none) × (h.is_in_flight ≡ false)

settled-IsOrderly :
    (e : Option AppError) (h : Heartbeat)
    → IsOrderly h
    → h.is_in_flight ≡ true
    → IsOrderly (settled e h)
unfolding schedule
settled-IsOrderly none h o f = λ q. (ground arith, ground arith, ground arith)
settled-IsOrderly (some e) h o f = λ q. (ground arith, ground arith, ground arith)

-- No timer, no call in flight, and none to come.
abbrev pub IsSilent : Heartbeat → Type 0
IsSilent h =
    (h.is_timer_set ≡ false) × (h.is_in_flight ≡ false) × (h.stopped || is_some h.failure) ≡ true

start-IsOrderly : IsOrderly start_processing_heartbeat
unfolding start_processing_heartbeat schedule
start-IsOrderly = λ q. (refl, refl, refl)

ended-IsSilent :
    (h : Heartbeat)
    → IsOrderly h
    → h.is_in_flight ≡ false
    → (h.stopped || is_some h.failure) ≡ true
    → IsSilent h
ended-IsSilent h orderly landed ended = elim (Bool-cases h.is_timer_set) [
  | inr no_timer ↦ (no_timer, landed, ended)
  | inl set ↦ let (going, healthy, _) = orderly set in absurd (ground arith)
]

module _ (run_id lease_id : String) (fence : ℕ) (lease_ms : ℕ) (lost : AppError) where
  unfoldable pub land : Instant → Bool → Heartbeat → InMemoryRunStore → Heartbeat × InMemoryRunStore
  land now is_lost h s =
      elim (try_claim run_id (heartbeat_processing lease_id fence now lease_ms) s) [
        | err e ↦ (settled (some e) h, s)
        | ok (s', answer) ↦ (settled (beat_failure lost is_lost answer) h, s')
      ]

  -- The heartbeat and the store, from one state on; what others do to the store is arbitrary.
  pub data Life (h : Heartbeat) (s : InMemoryRunStore) : Heartbeat → InMemoryRunStore → Type 0 where
    begin : Life h s h s
    fires :
        {g : Heartbeat} {t : InMemoryRunStore}
        → Life h s g t
        → g.is_timer_set ≡ true
        → Life h s (fire g) t
    lands :
        {g : Heartbeat} {t : InMemoryRunStore} (now : Instant) (is_lost : Bool)
        → Life h s g t
        → g.is_in_flight ≡ true
        → Life h s (land now is_lost g t).0 (land now is_lost g t).1
    stops : {g : Heartbeat} {t : InMemoryRunStore} → Life h s g t → Life h s (stop g) t
    others : {g : Heartbeat} {t u : InMemoryRunStore} → Life h s g t → Life h s g u

  land-IsOrderly :
      (now : Instant) (is_lost : Bool) (h : Heartbeat) (s : InMemoryRunStore)
      → IsOrderly h
      → h.is_in_flight ≡ true
      → IsOrderly (land now is_lost h s).0
  unfolding land
  land-IsOrderly now is_lost h s o f =
      elim (Result-cases (try_claim run_id (heartbeat_processing lease_id fence now lease_ms) s)) [
        | inr (e, thrown) ↦ rw (thrown, land) (settled-IsOrderly (some e) h o f)
        | inl ((s', answer), done) ↦
            rw (done, land) (settled-IsOrderly (beat_failure lost is_lost answer) h o f)
      ]

  Life-IsOrderly :
      (h : Heartbeat) (s : InMemoryRunStore) (g : Heartbeat) (t : InMemoryRunStore)
      → IsOrderly h
      → Life h s g t
      → IsOrderly g
  unfolding stop
  Life-IsOrderly h s _ _ o begin = o
  Life-IsOrderly h s _ _ o (fires {g} {t} e set) = λ q. cc
  Life-IsOrderly h s _ _ o (lands {g} {t} now is_lost e flying) =
      land-IsOrderly now is_lost g t (Life-IsOrderly h s g t o e) flying
  Life-IsOrderly h s _ _ o (stops {g} {t} e) =
      let k = Life-IsOrderly h s g t o e in λ q. (ground arith, ground arith, ground arith)
  Life-IsOrderly h s _ _ o (others {g} {t} {u} e) = Life-IsOrderly h s g t o e

  Life-IsSilent :
      (h : Heartbeat) (s : InMemoryRunStore) (g : Heartbeat) (t : InMemoryRunStore)
      → IsSilent h
      → Life h s g t
      → IsSilent g
  unfolding stop
  Life-IsSilent h s _ _ o begin = o
  Life-IsSilent h s _ _ o (fires {g} {t} e set) =
      let (no_timer, _, _) = Life-IsSilent h s g t o e in cc
  Life-IsSilent h s _ _ o (lands {g} {t} now is_lost e flying) =
      let (_, landed, _) = Life-IsSilent h s g t o e in cc
  Life-IsSilent h s _ _ o (stops {g} {t} e) =
      let (no_timer, landed, ended) = Life-IsSilent h s g t o e in
      (ground arith, ground arith, ground arith)
  Life-IsSilent h s _ _ o (others {g} {t} {u} e) = Life-IsSilent h s g t o e

  -- A heartbeat that has been stopped and awaited, or that has failed, is silent for good: no timer
  -- is set and no call is in flight in any later state, so that the lease is not extended again,
  -- whatever others do to the store.
  pub heartbeat_silenced :
      (s : InMemoryRunStore) (g : Heartbeat) (t : InMemoryRunStore) (g' : Heartbeat)
      (t' : InMemoryRunStore)
      → Life start_processing_heartbeat s g t
      → g.is_in_flight ≡ false
      → (g.stopped || is_some g.failure) ≡ true
      → Life g t g' t'
      → (g'.is_timer_set ≡ false) × (g'.is_in_flight ≡ false)
  heartbeat_silenced s g t g' t' before landed ended after =
      let orderly = Life-IsOrderly start_processing_heartbeat s g t start-IsOrderly before in
      let (no_timer, none_flies, _) =
        Life-IsSilent g t g' t' (ended-IsSilent g orderly landed ended) after in
      (no_timer, none_flies)
