-- ===== src/Admission/Fails.antt =====
-- A failed admission and a stranded run ask for no analysis, and leave no run open.
use monidhackson.Base.{
  ◌≡◌, refl, sym, ap, ◌∙◌, inl, inr, String, Bool, List, true, false, Option, none, is_some,
  Bool-cases, Option-cases, not, ◌||◌,
}
use monidhackson.Errors.{ok, Result-cases, ok-injective, >>=-eq-ok}
use monidhackson.Contracts.{failed, cleanup_pending, expired, status_eq, RunStatus}
use monidhackson.Runs.Types.{
  RunRecord, RunFailure, Instant, Terminal, to_failed, to_expired, CleanupReceipt,
}
use monidhackson.Runs.Transition.{transition_run}
use monidhackson.Runs.Store.Record.{is_queued}
use monidhackson.Runs.Store.Claims.{
  DispatchOutcome, claim_cleanup_retry, settle_cleanup_retry_dispatch,
}
use monidhackson.Runs.Store.{InMemoryRunStore, try_claim, update}
use monidhackson.Runs.Store.Opening.{
  Closes, Closes-refl, update-Closes, try_claim-Closes, is_open, claim_cleanup_retry-Keeps,
  settle_cleanup_retry_dispatch-Keeps,
}
use monidhackson.Cleanup.{execute_cleanup}
use monidhackson.Expiry.{Storage, cleanup_targets, terminal_status}
use monidhackson.Expiry.Runner.{revoke, finish, delete_and_close}
use monidhackson.Expiry.Closing.{entered_status, finish_sound}
use monidhackson.Expiry.Revocation.{revoke-IsRevoked}
use monidhackson.Scheduling.Calls.{Service, start_cleanup, with_store, called}
use monidhackson.Scheduling.{
  Started, outcome_of, uncertain, settle_retry, give_up_retry, dispatch_cleanup_retry,
  schedule_cleanup_retry,
}
use monidhackson.Admission.Failure.{fails, fail_queued, fail_stranded, is_same_dispatch}
use monidhackson.Admission.Once.{AtMostOnce, committed-Closes, committed-cleanup}
use monidhackson.Admission.Admits.{kept-Closes}

shut {ℓ} :
    {A : Type ℓ} (u : RunRecord) (s : RunStatus)
    → u.status ≡ s
    → is_queued s ≡ false
    → is_open u ≡ true
    → A
unfolding is_open
shut u s at other opens = let o = rw at at opens in cc

shut_terminal : (t : Terminal) → is_queued (terminal_status t) ≡ false
unfolding is_queued
shut_terminal to_failed = refl
shut_terminal to_expired = refl

pub revoke-open :
    (terminal : Terminal) (now : Instant) (r u : RunRecord)
    → revoke terminal now r ≡ ok u
    → is_open u ≡ true
    → is_open r ≡ true
unfolding revoke is_queued
revoke-open terminal now r u h opens = elim (Bool-cases (status_eq r.status expired)) [
  | inl over ↦ let same : r ≡ u = ok-injective (rw (over, revoke) at h) in rw same opens
  | inr live ↦
      let waits = (revoke-IsRevoked terminal now r u live h).waits in
      shut u cleanup_pending waits refl opens
]

finish-open :
    (storage : Storage) (sha256_hex : String → String) (terminal : Terminal) (now : Instant)
    (fresh : List CleanupReceipt) (r u : RunRecord)
    → finish storage sha256_hex terminal now fresh r ≡ ok u
    → is_open u ≡ true
    → is_open r ≡ true
unfolding finish is_queued
finish-open storage sha256_hex terminal now fresh r u h opens =
    elim (Bool-cases (status_eq r.status expired)) [
      | inl over ↦ let same : r ≡ u = ok-injective (rw (over, finish) at h) in rw same opens
      | inr live ↦ elim (finish_sound storage sha256_hex terminal now fresh r u live h) [
        | inl (_, (at, _, _)) ↦ shut u _ at (shut_terminal _) opens
        | inr (at, _, _) ↦ shut u cleanup_pending at refl opens
      ]
    ]

fails-open :
    (f : RunFailure) (now : Instant) (r u : RunRecord)
    → fails f now r ≡ ok u
    → is_open u ≡ true
    → is_open r ≡ true
unfolding is_queued
fails-open f now r u h opens =
    let (t, e, made) = >>=-eq-ok _ (transition_run r failed now) h in
    let at = entered_status r failed now t e in
    shut u failed (ap (λ x. x.status) (sym (ok-injective made)) ∙ at) refl opens

pub fail_queued-open :
    (f : RunFailure) (now : Instant) (r u : RunRecord)
    → fail_queued f now r ≡ ok u
    → is_open u ≡ true
    → is_open r ≡ true
unfolding fail_queued
fail_queued-open f now r u h opens = elim (Bool-cases (is_queued r.status)) [
  | inl waiting ↦ fails-open f now r u (rw (waiting, fail_queued) at h) opens
  | inr other ↦
      shut u r.status (ap (λ x. x.status) (sym (ok-injective (rw (other, fail_queued) at h)))) other
        opens
]

pub fail_stranded-open :
    (r : RunRecord) (f : RunFailure) (now : Instant) (x u : RunRecord)
    → fail_stranded r f now x ≡ ok u
    → is_open u ≡ true
    → is_open x ≡ true
unfolding fail_stranded
fail_stranded-open r f now x u h opens =
    elim (Bool-cases (
      not (is_queued x.status)
      || not (is_same_dispatch r x)
      || is_some x.paid_provider_attempt_started_at)) [
        | inl spared ↦
            let same : x ≡ u = ok-injective (rw (spared, fail_stranded) at h) in rw same opens
        | inr stranded ↦ fails-open f now x u (rw (stranded, fail_stranded) at h) opens
      ]

module _ (storage : Storage) (sha256_hex : String → String) (id : String) (now : Instant) where
  pub delete_and_close-Closes :
      (revoked : RunRecord) (s : InMemoryRunStore)
      → Closes s (delete_and_close storage sha256_hex (λ t. t) id to_failed now revoked s).0
  unfolding delete_and_close
  delete_and_close-Closes revoked s =
      let fresh = execute_cleanup (cleanup_targets storage revoked now) now in
      let close = finish storage sha256_hex to_failed now fresh in
      elim (Bool-cases (status_eq revoked.status expired)) [
        | inl over ↦ rw (over, delete_and_close) (Closes-refl s)
        | inr live ↦
            rw (live, delete_and_close)
              (elim (Result-cases (update id close none s)) [
                | inr (e, thrown) ↦ rw (thrown, delete_and_close) (Closes-refl s)
                | inl ((s', u), done) ↦
                    rw (done, delete_and_close)
                      (update-Closes id close none s s' u
                        (finish-open storage sha256_hex to_failed now fresh) done)
              ])
      ]

module _ (claim_id : String) (is_ack_lost : Bool) (start : String → Started)
    (while_starting : Service → Service)
    (others : (w : Service) → AtMostOnce w → AtMostOnce (while_starting w)) where
  settle_retry-Closes :
      (id : String) (outcome : DispatchOutcome) (now : Instant) (w : Service) (s : InMemoryRunStore)
      (a : Option RunRecord)
      → settle_retry claim_id is_ack_lost start while_starting id outcome now w ≡ ok (s, a)
      → Closes w.store s
  settle_retry-Closes id outcome now w s a h =
      try_claim-Closes id (settle_cleanup_retry_dispatch claim_id outcome now) w.store s a
        (settle_cleanup_retry_dispatch-Keeps claim_id outcome now) h

  give_up_retry-AtMostOnce :
      (id : String) (now : Instant) (w : Service)
      → AtMostOnce w
      → AtMostOnce (give_up_retry claim_id is_ack_lost start while_starting id now w)
  give_up_retry-AtMostOnce id now w m =
      committed-Closes w (give_up_retry claim_id is_ack_lost start while_starting id now w) refl
        (kept-Closes w.store _ (settle_retry-Closes id (uncertain now) now w)) m

  dispatch_cleanup_retry-AtMostOnce :
      (id : String) (now : Instant) (w : Service)
      → AtMostOnce w
      → AtMostOnce (dispatch_cleanup_retry claim_id is_ack_lost start while_starting id now w).0
  unfolding dispatch_cleanup_retry
  dispatch_cleanup_retry-AtMostOnce id now w m =
      let asked = while_starting (called (start_cleanup id) w) in
      let m' : AtMostOnce asked = others _ (committed-cleanup id w m) in
      elim (Result-cases (start id)) [
        | inr (e, thrown) ↦
            rw (thrown, dispatch_cleanup_retry) (give_up_retry-AtMostOnce id now asked m')
        | inl (answer, started) ↦
            rw (started, dispatch_cleanup_retry)
              (elim (Result-cases (
                settle_retry claim_id is_ack_lost start while_starting id (outcome_of answer now)
                  now asked)) [
                    | inr (e, thrown) ↦
                        rw (thrown, dispatch_cleanup_retry)
                          (give_up_retry-AtMostOnce id now asked m')
                    | inl ((s, a), done) ↦
                        rw (done, dispatch_cleanup_retry)
                          (committed-Closes asked (with_store asked s) refl
                            (settle_retry-Closes id (outcome_of answer now) now asked s a done) m')
                  ])
      ]

  pub schedule_cleanup_retry-AtMostOnce :
      (id : String) (now : Instant) (w : Service)
      → AtMostOnce w
      → AtMostOnce (schedule_cleanup_retry claim_id is_ack_lost start while_starting id now w).0
  unfolding schedule_cleanup_retry
  schedule_cleanup_retry-AtMostOnce id now w m =
      let claim = claim_cleanup_retry claim_id now in
      elim (Result-cases (try_claim id claim w.store)) [
        | inr (e, thrown) ↦ rw (thrown, schedule_cleanup_retry) m
        | inl ((s, a), done) ↦
            let m' : AtMostOnce (with_store w s) =
              committed-Closes w (with_store w s) refl
                (try_claim-Closes id claim w.store s a (claim_cleanup_retry-Keeps claim_id now)
                  done)
                m in
            rw (done, schedule_cleanup_retry)
              (elim (Bool-cases is_ack_lost) [
                | inl lost ↦ rw (lost, schedule_cleanup_retry) m'
                | inr heard ↦
                    rw (heard, schedule_cleanup_retry)
                      (elim (Option-cases a) [
                        | inl refused ↦ rw (refused, schedule_cleanup_retry) m'
                        | inr (u, granted) ↦
                            rw (granted, schedule_cleanup_retry)
                              (dispatch_cleanup_retry-AtMostOnce id now (with_store w s) m')
                      ])
              ])
      ]
