-- ===== src/Admission/Sweeps.antt =====
-- A creation and a recovery ask for the workflow of a run at most once.
use monidhackson.Base.{
  ◌+◌, ◌≤◌, ◌≡◌, ap, subst, ◌∙◌, inl, inr, String, Bool, true, false, List, [], ◌∷◌, Option, leb,
  Bool-cases, arith, if◌then◌else◌,
}
use monidhackson.Errors.{ok, Result-cases}
use monidhackson.Contracts.{CreateRunRequest}
use monidhackson.Runs.Types.{RunRecord, Instant}
use monidhackson.Runs.Store.Record.{Environment, CreateRunRecordInput, new_run_record}
use monidhackson.Runs.Store.{InMemoryRunStore, create}
use monidhackson.Runs.Store.Creation.{create-lookup}
use monidhackson.Runs.Store.Opening.{open_at, open_at_iff}
use monidhackson.Scheduling.Calls.{Service, with_store}
use monidhackson.Admission.{
  Outside, Pause, Attempt, admitted, refused, attempt_failed, preflight, dispatch_claim_uncertain,
  schedule_uncertain,
}
use monidhackson.Admission.Attempts.{admit_queued_run}
use monidhackson.Admission.Recovery.{
  Recovery, has_permanent_analysis_dispatch_fence, is_within_grace, noted, recover_fenced,
  after_attempt, recover_candidate, recover_all,
}
use monidhackson.Admission.Creating.{Principal, needs_admission, respond, input_of, create_run}
use monidhackson.Admission.Once.{AtMostOnce, starts, committed}
use monidhackson.Admission.Admits.{admit_queued_run-AtMostOnce}
use monidhackson.Admission.Undoes.{fail_admission-AtMostOnce, fail_stranded_dispatch-AtMostOnce}

module _ (o : Outside)
    (others : (p : Pause) (id : String) (w : Service)
      → AtMostOnce w
      → AtMostOnce (o.meanwhile p id w)) where
  recover_fenced-AtMostOnce :
      (r : RunRecord) (now : Instant) (w : Service)
      → AtMostOnce w
      → AtMostOnce (recover_fenced o r now w).0
  unfolding recover_fenced
  recover_fenced-AtMostOnce r now w m = elim (Bool-cases (is_within_grace r now)) [
    | inl early ↦ rw (early, recover_fenced) m
    | inr late ↦ rw (late, recover_fenced) (fail_stranded_dispatch-AtMostOnce o others r now w m)
  ]

  after_attempt-AtMostOnce :
      (now : Instant) (p : Service × Attempt)
      → AtMostOnce p.0
      → AtMostOnce (after_attempt o now p).0
  unfolding after_attempt
  after_attempt-AtMostOnce now (w, admitted r) m = m
  after_attempt-AtMostOnce now (w, refused e) m = m
  after_attempt-AtMostOnce now (w, attempt_failed e r lease preflight) m =
      fail_admission-AtMostOnce o others r e false lease now w m
  after_attempt-AtMostOnce now (w, attempt_failed e r lease dispatch_claim_uncertain) m = m
  after_attempt-AtMostOnce now (w, attempt_failed e r lease schedule_uncertain) m = m

  recover_candidate-AtMostOnce :
      (r : RunRecord) (now : Instant) (w : Service)
      → AtMostOnce w
      → AtMostOnce (recover_candidate o r now w).0
  unfolding recover_candidate
  recover_candidate-AtMostOnce r now w m = elim (Bool-cases (leb r.expires_at now)) [
    | inl over ↦ rw (over, recover_candidate) m
    | inr live ↦
        rw (live, recover_candidate)
          (elim (Bool-cases (has_permanent_analysis_dispatch_fence r)) [
            | inl fenced ↦ rw (fenced, recover_candidate) (recover_fenced-AtMostOnce r now w m)
            | inr free ↦
                rw (free, recover_candidate)
                  (after_attempt-AtMostOnce now (admit_queued_run o r now w)
                    (admit_queued_run-AtMostOnce o others r now w m))
          ])
  ]

  pub recover_all-AtMostOnce :
      (rs : List RunRecord) (now : Instant) (a : Recovery) (w : Service)
      → AtMostOnce w
      → AtMostOnce (recover_all o rs now a w).0
  unfolding recover_all
  recover_all-AtMostOnce [] now a w m = m
  recover_all-AtMostOnce (r ∷ rs) now a w m =
      let m' = recover_candidate-AtMostOnce r now w m in
      elim (Result-cases (recover_candidate o r now w).1) [
        | inr (e, thrown) ↦ rw (thrown, recover_all) m'
        | inl (v, done) ↦
            rw (done, recover_all)
              (recover_all-AtMostOnce rs now (noted r.id v a) (recover_candidate o r now w).0 m')
      ]

  respond-AtMostOnce :
      (is_new : Bool) (now : Instant) (p : Service × Attempt)
      → AtMostOnce p.0
      → AtMostOnce (respond o is_new now p).0
  unfolding respond
  respond-AtMostOnce is_new now (w, admitted r) m = m
  respond-AtMostOnce is_new now (w, refused e) m = m
  respond-AtMostOnce is_new now (w, attempt_failed e r lease preflight) m =
      fail_admission-AtMostOnce o others r e true lease now w m
  respond-AtMostOnce is_new now (w, attempt_failed e r lease dispatch_claim_uncertain) m = m
  respond-AtMostOnce is_new now (w, attempt_failed e r lease schedule_uncertain) m = m

  create-AtMostOnce :
      (env : Environment) (uuid : String) (input : CreateRunRecordInput) (now : Instant)
      (w : Service) (s : InMemoryRunStore) (r : RunRecord) (is_new : Bool)
      → starts (new_run_record env uuid input now).id w.calls ≡ 0
      → create env uuid input now w.store ≡ ok (s, r, is_new)
      → AtMostOnce w
      → AtMostOnce (with_store w s)
  unfolding AtMostOnce committed
  create-AtMostOnce env uuid input now w s r is_new fresh h (keyed, most) =
      let stored = create-lookup env uuid input now w.store s r is_new h in
      (
        (λ j v e. elim (stored j v e) [
          | inl (at, is) ↦ ap (λ x. x.id) is ∙ at
          | inr old ↦ keyed j v old
        ]),
        (λ j.
            let known = most j in
            elim (Bool-cases (open_at j s)) [
              | inr shut ↦ rw shut (omega (arith, known))
              | inl opens ↦
                  let (v, e, open_v) = (open_at_iff j s).0 opens in
                  elim (stored j v e) [
                    | inl (at, is) ↦ rw opens (rw (← at) (omega (arith, fresh)))
                    | inr old ↦ rw opens (
                        subst (λ b. starts j w.calls + (if b then 1 else 0) ≤ 1)
                          ((open_at_iff j w.store).1 (v, old, open_v)) known)
                  ]
            ]),
      )

  pub create_run-AtMostOnce :
      (env : Environment) (run_id : String) (request : CreateRunRequest) (principal : Principal)
      (key : Option String) (now : Instant) (w : Service)
      → starts run_id w.calls ≡ 0
      → AtMostOnce w
      → AtMostOnce (create_run o env run_id request principal key now w).0
  unfolding create_run new_run_record
  create_run-AtMostOnce env run_id request principal key now w fresh m =
      let input = input_of o run_id request principal key in
      elim (Result-cases (create env run_id input now w.store)) [
        | inr (e, thrown) ↦ rw (thrown, create_run) m
        | inl ((s, r, is_new), done) ↦
            let m' = create-AtMostOnce env run_id input now w s r is_new fresh done m in
            rw (done, create_run)
              (elim (Bool-cases (needs_admission r is_new)) [
                | inr idle ↦ rw (idle, create_run) m'
                | inl needed ↦
                    rw (needed, create_run)
                      (respond-AtMostOnce is_new now (admit_queued_run o r now (with_store w s))
                        (admit_queued_run-AtMostOnce o others r now (with_store w s) m'))
              ])
      ]
