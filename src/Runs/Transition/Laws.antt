-- ===== src/Runs/Transition/Laws.antt =====
-- What holds of one transition of a record, and of every sequence of them.
use monidhackson.Base.{
  ◌≡◌, refl, sym, ap, ◌↔◌, ◌⊎◌, inl, inr, Bool, true, false, ◌||◌, Bool-cases, arith,
}
use monidhackson.Errors.{ok}
use monidhackson.Contracts.{RunStatus, queued, ready, partial, status_eq, has_status}
use monidhackson.Runs.Types.{RunRecord, Instant}
use monidhackson.Runs.Transition.{transitions, enter, transition_run}
use monidhackson.Runs.Transition.Graph.{◌⟶◌, status_eq_eq, transitions-⟶, ⟶-transitions}

abbrev pub completes : RunStatus → Bool
completes ready = true
completes partial = true
completes _ = false

pub status_eq_refl : (s : RunStatus) → status_eq s s ≡ true
unfolding status_eq
status_eq_refl queued = refl
status_eq_refl _ = refl

no_loop : (s : RunStatus) → has_status (transitions s) s ≡ false
unfolding transitions has_status
no_loop queued = refl
no_loop _ = refl

pub ⟶-distinct : {s t : RunStatus} → s ⟶ t → status_eq s t ≡ false
⟶-distinct {s} {t} e = elim (Bool-cases (status_eq s t)) [
  | inl same ↦ let eq : s ≡ t = status_eq_eq s t same in cc (⟶-transitions e, no_loop s)
  | inr other ↦ other
]

completes_or : (s : RunStatus) → (status_eq s ready || status_eq s partial) ≡ completes s
unfolding status_eq
completes_or queued = refl
completes_or _ = refl

-- Where the code lets a run go: the edge, and the cleanup that a completed run waits for.
abbrev pub Allowed : RunRecord → RunStatus → Type 0
Allowed r next = (r.status ⟶ next) × (completes next ≡ true → r.is_cleanup_confirmed ≡ true)

abbrev pub Outcome : RunRecord → RunStatus → Instant → RunRecord → Type 0
Outcome r next now u = ((r.status ≡ next) × (u ≡ r)) ⊎ (Allowed r next × (u ≡ enter r next now))

transition_run-Outcome :
    (r : RunRecord) (next : RunStatus) (now : Instant) (u : RunRecord)
    → transition_run r next now ≡ ok u
    → Outcome r next now u
unfolding transition_run
transition_run-Outcome r next now u h =
    ground (arith, status_eq_eq r.status next, transitions-⟶ r.status next, completes_or next)

Outcome-transition_run :
    (r : RunRecord) (next : RunStatus) (now : Instant) (u : RunRecord)
    → Outcome r next now u
    → transition_run r next now ≡ ok u
unfolding transition_run
Outcome-transition_run r next now u (inl (same, kept)) =
    rw (← same, status_eq_refl r.status) (ap ok (sym kept))
Outcome-transition_run r next now u (inr ((e, released), entered)) =
    rw (⟶-distinct e, ⟶-transitions e, completes_or next) (ground (arith, released))

pub transition_run-ok_iff :
    (r : RunRecord) (next : RunStatus) (now : Instant) (u : RunRecord)
    → (transition_run r next now ≡ ok u) ↔ Outcome r next now u
transition_run-ok_iff r next now u =
    (transition_run-Outcome r next now u, Outcome-transition_run r next now u)
