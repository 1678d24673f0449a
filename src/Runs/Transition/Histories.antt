-- ===== src/Runs/Transition/Histories.antt =====
-- Sequences of successful transitions of one record.
use monidhackson.Base.{◌≡◌, ◌≢◌, refl, ap, ◌∙◌, ◌⊎◌, inl, inr, List, [], ◌∷◌, if◌then◌else◌, arith}
use monidhackson.Errors.{ok}
use monidhackson.Contracts.{RunStatus, failed, cleanup_pending, expired, status_eq}
use monidhackson.Runs.Types.{RunRecord, Instant}
use monidhackson.Runs.Transition.{enter, transition_run}
use monidhackson.Runs.Transition.Graph.{
  ◌⟶◌, advance, stop, fail, abandon, retire, expire_working, expire_done, cleaned_failed,
  cleaned_expired, n_validating, w_queued, d_ready, s_extracting,
}
use monidhackson.Runs.Transition.Laws.{Outcome, transition_run-ok_iff}

-- The record after some successful transitions, with the statuses that it left, last first.
pub data History (r : RunRecord) : List RunStatus → RunRecord → Type 0 where
  begin : History r [] r
  more :
      {left : List RunStatus} {t u : RunRecord} (next : RunStatus) (now : Instant)
      → History r left t
      → transition_run t next now ≡ ok u
      → History r (if status_eq t.status next then left else t.status ∷ left) u

-- Statuses from which a run is only taken down.
abbrev pub IsClosing : RunStatus → Type 0
IsClosing s = (s ≡ failed) ⊎ (s ≡ cleanup_pending) ⊎ (s ≡ expired)

IsClosing-⟶ : {s t : RunStatus} → s ⟶ t → IsClosing s → IsClosing t
IsClosing-⟶ (advance n_validating) h = ground arith
IsClosing-⟶ (advance _) h = ground arith
IsClosing-⟶ (stop s_extracting) h = ground arith
IsClosing-⟶ (stop _) h = ground arith
IsClosing-⟶ (fail w) h = inl refl
IsClosing-⟶ (abandon w) h = inr (inl refl)
IsClosing-⟶ (retire d) h = inr (inl refl)
IsClosing-⟶ (expire_working w) h = inr (inr refl)
IsClosing-⟶ (expire_done d) h = inr (inr refl)
IsClosing-⟶ cleaned_failed h = inl refl
IsClosing-⟶ cleaned_expired h = inr (inr refl)

expired_stays : {s t : RunStatus} → s ⟶ t → s ≢ expired
expired_stays (advance n_validating) h = cc
expired_stays (advance _) h = cc
expired_stays (stop s_extracting) h = cc
expired_stays (stop _) h = cc
expired_stays (fail w_queued) h = cc
expired_stays (fail _) h = cc
expired_stays (abandon w_queued) h = cc
expired_stays (abandon _) h = cc
expired_stays (retire d_ready) h = cc
expired_stays (retire _) h = cc
expired_stays (expire_working w_queued) h = cc
expired_stays (expire_working _) h = cc
expired_stays (expire_done d_ready) h = cc
expired_stays (expire_done _) h = cc
expired_stays cleaned_failed h = cc
expired_stays cleaned_expired h = cc

Closed : RunRecord → RunRecord → Type 0
Closed r u = IsClosing u.status × (r.status ≡ expired → u ≡ r)

step-Closed :
    (r t u : RunRecord) (next : RunStatus) (now : Instant)
    → Outcome t next now u
    → Closed r t
    → Closed r u
unfolding Closed enter
step-Closed r t u next now (inl (same, kept)) c = rw kept c
step-Closed r t u next now (inr ((e, _), entered)) (c, k) =
    rw entered
      (IsClosing-⟶ e c, λ x. absurd (expired_stays e (ap (λ (v : RunRecord). v.status) (k x) ∙ x)))

stays-Closed :
    (r : RunRecord) (left : List RunStatus) (u : RunRecord)
    → IsClosing r.status
    → History r left u
    → Closed r u
unfolding Closed
stays-Closed r _ _ c begin = (c, λ _. refl)
stays-Closed r _ u c (more {left} {t} next now h e) =
    step-Closed r t u next now ((transition_run-ok_iff t next now u).0 e)
      (stays-Closed r left t c h)

-- A run that has failed, waits for its cleanup or has expired is never resumed or completed by any
-- sequence of transitions, and a run that has expired does not change at all.
pub IsClosing-stays :
    (r : RunRecord) (left : List RunStatus) (u : RunRecord)
    → IsClosing r.status
    → History r left u
    → IsClosing u.status × ((r.status ≢ expired) ⊎ (u ≡ r))
unfolding Closed
IsClosing-stays r left u c h =
    let (closing, kept) = stays-Closed r left u c h in
    elim c [
      | inl e ↦ (closing, inl (rw e (λ x. cc)))
      | inr (inl e) ↦ (closing, inl (rw e (λ x. cc)))
      | inr (inr e) ↦ (closing, inr (kept e))
    ]
