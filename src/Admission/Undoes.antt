-- ===== src/Admission/Undoes.antt =====
-- Undoing an admission, and giving up a run whose start is in doubt, ask for no analysis.
use monidhackson.Base.{
  ◌≡◌, refl, subst, inl, inr, String, Bool, none, some, is_none, ◌&&◌, Bool-cases, not,
}
use monidhackson.Errors.{ok, Result-cases, >>=-eq-ok, ok-injective, AppError}
use monidhackson.Contracts.{cleanup_pending, status_eq}
use monidhackson.Runs.Types.{RunRecord, Instant, to_failed}
use monidhackson.Runs.Store.{update, remove, truthy, admission_claim}
use monidhackson.Runs.Store.Opening.{Closes-refl, update-Closes, remove-Closes}
use monidhackson.Budget.{settle}
use monidhackson.Expiry.Runner.{revoke}
use monidhackson.Scheduling.Calls.{Service, with_store}
use monidhackson.Admission.{Outside, Pause, deleting_copies, starting_cleanup, delivery_unconfirmed}
use monidhackson.Admission.Failure.{
  failure_of, fail_queued, fail_stranded, failure_applied, clean, hand_over, removed, release,
  release_and_hand_over, fail_admission, fail_stranded_dispatch,
}
use monidhackson.Admission.Once.{AtMostOnce, committed-Closes}
use monidhackson.Admission.Fails.{
  fail_queued-open, fail_stranded-open, delete_and_close-Closes, revoke-open,
  schedule_cleanup_retry-AtMostOnce,
}

module _ (o : Outside)
    (others : (p : Pause) (id : String) (w : Service)
      → AtMostOnce w
      → AtMostOnce (o.meanwhile p id w)) where
  clean-AtMostOnce :
      (r : RunRecord) (now : Instant) (w : Service) → AtMostOnce w → AtMostOnce (clean o r now w).0
  unfolding clean
  clean-AtMostOnce r now w m =
      elim (Result-cases (update r.id (revoke to_failed now) none w.store)) [
        | inr (e, thrown) ↦ rw (thrown, clean) m
        | inl ((s, revoked), done) ↦
            let w' = o.meanwhile deleting_copies r.id (with_store w s) in
            let taken =
              committed-Closes w (with_store w s) refl
                (update-Closes r.id (revoke to_failed now) none w.store s revoked
                  (revoke-open to_failed now) done)
                m in
            rw (done, clean)
              (committed-Closes w' _ refl
                (delete_and_close-Closes o.storage o.sha256_hex r.id now revoked w'.store)
                (others deleting_copies r.id (with_store w s) taken))
      ]

  hand_over-AtMostOnce :
      (r : RunRecord) (now : Instant) (w : Service)
      → AtMostOnce w
      → AtMostOnce (hand_over o r now w).0
  unfolding hand_over
  hand_over-AtMostOnce r now w m = elim (Bool-cases (status_eq r.status cleanup_pending)) [
    | inr gone ↦ rw (gone, hand_over) m
    | inl waiting ↦
        rw (waiting, hand_over)
          (schedule_cleanup_retry-AtMostOnce (o.retry_claim_id r.id) (o.is_retry_ack_lost r.id)
            o.schedule_cleanup (o.meanwhile starting_cleanup r.id) (others starting_cleanup r.id)
            r.id now w m)
  ]

  removed-AtMostOnce :
      (flag : Bool) (r : RunRecord) (w : Service) → AtMostOnce w → AtMostOnce (removed o flag r w)
  unfolding removed
  removed-AtMostOnce flag r w m =
      elim (Bool-cases
        (flag && is_none (truthy r.idempotency_key) && not (status_eq r.status cleanup_pending))) [
          | inr kept ↦ rw (kept, removed) m
          | inl goes ↦
              rw (goes, removed)
                (committed-Closes w (with_store w (remove r.id w.store)) refl
                  (remove-Closes r.id w.store) m)
        ]

  release-AtMostOnce :
      (r : RunRecord) (w w' : Service) → release o r w ≡ ok w' → AtMostOnce w → AtMostOnce w'
  unfolding release
  release-AtMostOnce r w w' h m =
      let (a, e, made) = >>=-eq-ok _ (settle o.config r.id (some 0) w.reservations) h in
      subst AtMostOnce (ok-injective made)
        (committed-Closes w (record w { reservations = a }) refl (Closes-refl w.store) m)

  release_and_hand_over-AtMostOnce :
      (flag : Bool) (r : RunRecord) (now : Instant) (w : Service)
      → AtMostOnce w
      → AtMostOnce (release_and_hand_over o flag r now w).0
  unfolding release_and_hand_over
  release_and_hand_over-AtMostOnce flag r now w m = elim (Result-cases (release o r w)) [
    | inr (e, thrown) ↦ rw (thrown, release_and_hand_over) m
    | inl (w', done) ↦
        rw (done, release_and_hand_over)
          (let m' = hand_over-AtMostOnce r now w' (release-AtMostOnce r w w' done m) in
            elim (Result-cases (hand_over o r now w').1) [
              | inr (e, thrown) ↦ rw (thrown, release_and_hand_over) m'
              | inl (u, handed) ↦
                  rw (handed, release_and_hand_over)
                    (removed-AtMostOnce flag u (hand_over o r now w').0 m')
            ])
  ]

  pub fail_admission-AtMostOnce :
      (r : RunRecord) (e : AppError) (flag : Bool) (lease : String) (now : Instant) (w : Service)
      → AtMostOnce w
      → AtMostOnce (fail_admission o r e flag lease now w).0
  unfolding fail_admission
  fail_admission-AtMostOnce r e flag lease now w m =
      let f = failure_of e (o.request_id r.id) in
      elim (Result-cases (update r.id (fail_queued f now) (some (admission_claim lease)) w.store)) [
        | inr (x, thrown) ↦ rw (thrown, fail_admission) m
        | inl ((s, u), done) ↦
            let m' : AtMostOnce (with_store w s) =
              committed-Closes w (with_store w s) refl
                (update-Closes r.id (fail_queued f now) (some (admission_claim lease)) w.store s u
                  (fail_queued-open f now) done)
                m in
            rw (done, fail_admission)
              (elim (Bool-cases (failure_applied (o.request_id r.id) u)) [
                | inr other ↦ rw (other, fail_admission) m'
                | inl applied ↦
                    rw (applied, fail_admission)
                      (let m'' = clean-AtMostOnce u now (with_store w s) m' in
                        elim (Result-cases (clean o u now (with_store w s)).1) [
                          | inr (x, thrown) ↦ rw (thrown, fail_admission) m''
                          | inl (v, cleaned) ↦
                              rw (cleaned, fail_admission)
                                (release_and_hand_over-AtMostOnce flag v now _ m'')
                        ])
              ])
      ]

  pub fail_stranded_dispatch-AtMostOnce :
      (r : RunRecord) (now : Instant) (w : Service)
      → AtMostOnce w
      → AtMostOnce (fail_stranded_dispatch o r now w).0
  unfolding fail_stranded_dispatch
  fail_stranded_dispatch-AtMostOnce r now w m =
      let f = failure_of delivery_unconfirmed (o.request_id r.id) in
      elim (Result-cases (update r.id (fail_stranded r f now) none w.store)) [
        | inr (x, thrown) ↦ rw (thrown, fail_stranded_dispatch) m
        | inl ((s, u), done) ↦
            let m' : AtMostOnce (with_store w s) =
              committed-Closes w (with_store w s) refl
                (update-Closes r.id (fail_stranded r f now) none w.store s u
                  (fail_stranded-open r f now) done)
                m in
            rw (done, fail_stranded_dispatch)
              (elim (Bool-cases (failure_applied (o.request_id r.id) u)) [
                | inr other ↦ rw (other, fail_stranded_dispatch) m'
                | inl applied ↦
                    rw (applied, fail_stranded_dispatch)
                      (let m'' = clean-AtMostOnce u now (with_store w s) m' in
                        elim (Result-cases (clean o u now (with_store w s)).1) [
                          | inr (x, thrown) ↦ rw (thrown, fail_stranded_dispatch) m''
                          | inl (v, cleaned) ↦
                              rw (cleaned, fail_stranded_dispatch)
                                (hand_over-AtMostOnce v now _ m'')
                        ])
              ])
      ]
