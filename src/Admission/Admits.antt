-- ===== src/Admission/Admits.antt =====
-- An attempt to admit a run asks for its workflow at most once.
use monidhackson.Base.{
  ℕ, ◌≡◌, refl, ap, subst, ◌∙◌, inl, inr, String, true, Option, none, some, is_none, ltb,
  Bool-cases, Option-cases, arith,
}
use monidhackson.Errors.{Result, ok, err, Result-cases, ok-injective, AppError}
use monidhackson.Runs.Types.{RunRecord, Instant}
use monidhackson.Runs.Store.Record.{is_queued}
use monidhackson.Runs.Store.Claims.{
  DispatchOutcome, claim_admission, claim_analysis_dispatch, settle_analysis_dispatch,
}
use monidhackson.Runs.Store.{InMemoryRunStore, try_claim, admission_claim}
use monidhackson.Runs.Store.Opening.{
  Closes, Closes-refl, update-Closes, try_claim-Closes, try_claim-Written, is_open,
  claim_admission-Keeps, settle_analysis_dispatch-Keeps, claim_analysis_dispatch-closing,
}
use monidhackson.Budget.{reserve}
use monidhackson.Scheduling.Calls.{Service, start_analysis, with_store, called}
use monidhackson.Scheduling.{outcome_of, uncertain, kept}
use monidhackson.Admission.{Outside, Pause, claiming_uploads, starting_analysis, admission_lease_ms}
use monidhackson.Admission.Attempts.{
  raised, reservation_for, raise_reservation, claim_uploads, reserve_budget, settle_dispatch,
  give_up, start_workflow, dispatch_run, proceed, attempt_admission, admit_queued_run,
}
use monidhackson.Admission.Once.{AtMostOnce, committed-Closes, committed-start}

pub kept-Closes {ℓ} :
    {A : Type ℓ} (s : InMemoryRunStore) (m : Result (InMemoryRunStore × A))
    → ((s' : InMemoryRunStore) (a : A) → m ≡ ok (s', a) → Closes s s')
    → Closes s (kept s m)
kept-Closes s (err e) h = Closes-refl s
kept-Closes s (ok (s', a)) h = h s' a refl

raised-open :
    (amount : ℕ) (now : Instant) (r t : RunRecord)
    → ok (raised amount now r) ≡ ok t
    → is_open t ≡ true
    → is_open r ≡ true
unfolding raised is_open
raised-open amount now r t h opens = ground (arith, ok-injective h)

module _ (o : Outside)
    (others : (p : Pause) (id : String) (w : Service)
      → AtMostOnce w
      → AtMostOnce (o.meanwhile p id w)) where
  raise_reservation-Closes :
      (r : RunRecord) (lease : String) (now : Instant) (s s' : InMemoryRunStore) (u : RunRecord)
      → raise_reservation o r lease now s ≡ ok (s', u)
      → Closes s s'
  unfolding raise_reservation
  raise_reservation-Closes r lease now s s' u h =
      elim (Bool-cases (ltb r.reserved_micro_usd o.config.max_run_cost_micro_usd)) [
        | inl low ↦
            update-Closes r.id _ (some (admission_claim lease)) s s' u
              (raised-open o.config.max_run_cost_micro_usd now) (rw (low, raise_reservation) at h)
        | inr enough ↦
            let same : s ≡ s' = cc (rw (enough, raise_reservation) at h) in
            subst (Closes s) same (Closes-refl s)
      ]

  reserve_budget-AtMostOnce :
      (r : RunRecord) (now : Instant) (w : Service)
      → AtMostOnce w
      → AtMostOnce (reserve_budget o r now w).0
  unfolding reserve_budget
  reserve_budget-AtMostOnce r now w m = elim (Option-cases (claim_uploads o r)) [
    | inr (e, refused) ↦ rw (refused, reserve_budget) m
    | inl granted ↦
        let w' = o.meanwhile claiming_uploads r.id w in
        let m' = others claiming_uploads r.id w m in
        elim (Result-cases (reserve o.config (reservation_for r) now w'.reservations)) [
          | inr (e, refused) ↦ rw (granted, reserve_budget) (rw (refused, reserve_budget) m')
          | inl (reservations, reserved) ↦
              rw (granted, reserve_budget)
                (rw (reserved, reserve_budget)
                  (committed-Closes w' (record w' { reservations = reservations }) refl
                    (Closes-refl w'.store) m'))
        ]
  ]

  settle_dispatch-Closes :
      (id : String) (outcome : DispatchOutcome) (now : Instant) (w : Service) (s : InMemoryRunStore)
      (a : Option RunRecord)
      → settle_dispatch o id outcome now w ≡ ok (s, a)
      → Closes w.store s
  settle_dispatch-Closes id outcome now w s a h =
      try_claim-Closes id (settle_analysis_dispatch (o.dispatch_claim_id id) outcome now) w.store s
        a (settle_analysis_dispatch-Keeps (o.dispatch_claim_id id) outcome now) h

  give_up-AtMostOnce :
      (r : RunRecord) (lease : String) (now : Instant) (e : AppError) (w : Service)
      → AtMostOnce w
      → AtMostOnce (give_up o r lease now e w).0
  give_up-AtMostOnce r lease now e w m =
      committed-Closes w (give_up o r lease now e w).0 refl
        (kept-Closes w.store _ (settle_dispatch-Closes r.id (uncertain now) now w)) m

  start_workflow-AtMostOnce :
      (r : RunRecord) (lease : String) (now : Instant) (w : Service)
      → AtMostOnce (called (start_analysis r.id) w)
      → AtMostOnce (start_workflow o r lease now w).0
  unfolding start_workflow
  start_workflow-AtMostOnce r lease now w m =
      let asked = o.meanwhile starting_analysis r.id (called (start_analysis r.id) w) in
      let m' : AtMostOnce asked = others starting_analysis r.id _ m in
      elim (Result-cases (o.schedule r.id)) [
        | inr (e, thrown) ↦ rw (thrown, start_workflow) (give_up-AtMostOnce r lease now e asked m')
        | inl (answer, started) ↦
            elim (Result-cases (settle_dispatch o r.id (outcome_of answer now) now asked)) [
              | inr (e, thrown) ↦
                  rw (started, start_workflow)
                    (rw (thrown, start_workflow) (give_up-AtMostOnce r lease now e asked m'))
              | inl ((s, some u), done) ↦
                  rw (started, start_workflow)
                    (rw (done, start_workflow)
                      (committed-Closes asked (with_store asked s) refl
                        (settle_dispatch-Closes r.id (outcome_of answer now) now asked s (some u)
                          done)
                        m'))
              | inl ((s, none), done) ↦
                  rw (started, start_workflow)
                    (rw (done, start_workflow)
                      (committed-Closes asked (with_store asked s) refl
                        (settle_dispatch-Closes r.id (outcome_of answer now) now asked s none done)
                        m'))
            ]
      ]

  dispatch_run-AtMostOnce :
      (r : RunRecord) (lease : String) (now : Instant) (w : Service)
      → AtMostOnce w
      → AtMostOnce (dispatch_run o r lease now w).0
  unfolding dispatch_run
  dispatch_run-AtMostOnce r lease now w m =
      let claim = claim_analysis_dispatch (o.dispatch_claim_id r.id) lease now in
      let closing = claim_analysis_dispatch-closing (o.dispatch_claim_id r.id) lease now in
      elim (Result-cases (try_claim r.id claim w.store)) [
        | inr (e, thrown) ↦ rw (thrown, dispatch_run) m
        | inl ((s, claimed), done) ↦
            let m' : AtMostOnce (with_store w s) =
              committed-Closes w (with_store w s) refl
                (try_claim-Closes r.id claim w.store s claimed
                  (λ x y h. let (same, was_open, is_closed) = closing x y h in (same, λ q. cc))
                  done)
                m in
            elim (Bool-cases (o.is_dispatch_ack_lost r.id)) [
              | inl lost ↦ rw (done, dispatch_run) (rw (lost, dispatch_run) m')
              | inr heard ↦ elim (Option-cases claimed) [
                | inl refused ↦
                    rw (done, dispatch_run)
                      (rw (heard, dispatch_run) (rw (refused, dispatch_run) m'))
                | inr (u, granted) ↦
                    let (x, made, written) =
                      try_claim-Written r.id claim w.store s u (λ x y h. (closing x y h).0)
                        (done ∙ ap (λ a. ok (s, a)) granted) in
                    let (same, was_open, is_closed) = closing x u made in
                    rw (done, dispatch_run)
                      (rw (heard, dispatch_run)
                        (rw (granted, dispatch_run)
                          (start_workflow-AtMostOnce u lease now (with_store w s)
                            (committed-start r.id w s x u written was_open is_closed m))))
              ]
            ]
      ]

  proceed-AtMostOnce :
      (r : RunRecord) (lease : String) (now : Instant) (p : Service × Option AppError)
      → AtMostOnce p.0
      → AtMostOnce (proceed o r lease now p).0
  unfolding proceed
  proceed-AtMostOnce r lease now (w, some e) m = m
  proceed-AtMostOnce r lease now (w, none) m = dispatch_run-AtMostOnce r lease now w m

  attempt_admission-AtMostOnce :
      (r : RunRecord) (lease : String) (now : Instant) (w : Service)
      → AtMostOnce w
      → AtMostOnce (attempt_admission o r lease now w).0
  unfolding attempt_admission
  attempt_admission-AtMostOnce r lease now w m =
      elim (Result-cases (raise_reservation o r lease now w.store)) [
        | inr (e, thrown) ↦ rw (thrown, attempt_admission) m
        | inl ((s, u), done) ↦
            let m' =
              committed-Closes w (with_store w s) refl
                (raise_reservation-Closes r lease now w.store s u done) m in
            rw (done, attempt_admission)
              (proceed-AtMostOnce u lease now (reserve_budget o u now (with_store w s))
                (reserve_budget-AtMostOnce u now (with_store w s) m'))
      ]

  pub admit_queued_run-AtMostOnce :
      (r : RunRecord) (now : Instant) (w : Service)
      → AtMostOnce w
      → AtMostOnce (admit_queued_run o r now w).0
  unfolding admit_queued_run
  admit_queued_run-AtMostOnce r now w m =
      let claim = claim_admission (o.lease_id r.id) now admission_lease_ms in
      let closes =
        λ (s : InMemoryRunStore) (a : Option RunRecord)
            (h : try_claim r.id claim w.store ≡ ok (s, a)).
          committed-Closes w (with_store w s) refl
            (try_claim-Closes r.id claim w.store s a
              (claim_admission-Keeps (o.lease_id r.id) now admission_lease_ms) h)
            m in
      elim (Bool-cases (is_queued r.status)) [
        | inr other ↦ rw (other, admit_queued_run) m
        | inl waiting ↦ elim (Bool-cases (is_none r.input)) [
          | inl empty ↦ rw (waiting, admit_queued_run) (rw (empty, admit_queued_run) m)
          | inr full ↦
              rw (waiting, admit_queued_run)
                (rw (full, admit_queued_run)
                  (elim (Result-cases (try_claim r.id claim w.store)) [
                    | inr (e, thrown) ↦ rw (thrown, admit_queued_run) m
                    | inl ((s, none), done) ↦ rw (done, admit_queued_run) (closes s none done)
                    | inl ((s, some u), done) ↦
                        rw (done, admit_queued_run)
                          (attempt_admission-AtMostOnce u (o.lease_id r.id) now (with_store w s)
                            (closes s (some u) done))
                  ]))
        ]
      ]
