-- ===== src/Admission/Failure.antt =====
-- src/lib/runs/create.ts: the end of a run whose admission failed, and of one whose workflow may or
-- may not have been started.
use monidhackson.Base.{
  String, Bool, true, false, not, ◌&&◌, ◌||◌, Option, none, some, is_none, is_some, text_eq,
  if◌then◌else◌,
}
use monidhackson.Errors.{AppError, Result, ok, err, ◌>>=◌}
use monidhackson.Contracts.{failed, cleanup_pending, status_eq}
use monidhackson.Runs.Types.{RunRecord, RunFailure, Instant, to_failed}
use monidhackson.Runs.Transition.{transition_run}
use monidhackson.Runs.Store.Record.{is_queued, text_is}
use monidhackson.Runs.Store.{update, remove, truthy, admission_claim}
use monidhackson.Budget.{settle}
use monidhackson.Expiry.Runner.{revoke, delete_and_close}
use monidhackson.Scheduling.Calls.{Service, with_store}
use monidhackson.Scheduling.{Started, schedule_cleanup_retry}
use monidhackson.Admission.{
  Outside, deleting_copies, starting_cleanup, delivery_unconfirmed, current_or,
}

abbrev pub failure_of : AppError → String → RunFailure
failure_of e request_id = record {
  code = e.code;
  message = e.message;
  retryable = e.retryable;
  request_id = request_id;
}

abbrev pub failed_with : RunFailure → RunRecord → RunRecord
failed_with f r = record r {
  admission_lease_id = none;
  admission_lease_expires_at = none;
  result = none;
  error = some f;
}

abbrev pub fails : RunFailure → Instant → RunRecord → Result RunRecord
fails f now r = transition_run r failed now >>= λ t. ok (failed_with f t)

-- The update of `failAdmission`: a run that is no longer queued only gives the lease back.
unfoldable pub fail_queued : RunFailure → Instant → RunRecord → Result RunRecord
fail_queued f now r =
    if is_queued r.status
    then fails f now r
    else ok (record r { admission_lease_id = none; admission_lease_expires_at = none })

abbrev pub same_text : Option String → Option String → Bool
same_text none known = false
same_text (some a) known = text_is known a

abbrev pub is_same_dispatch : RunRecord → RunRecord → Bool
is_same_dispatch r current =
    if is_some r.analysis_dispatch_claim_id
    then same_text r.analysis_dispatch_claim_id current.analysis_dispatch_claim_id
    else same_text r.workflow_run_id current.workflow_run_id

-- The update of `failStrandedAnalysisDispatch`.
unfoldable pub fail_stranded : RunRecord → RunFailure → Instant → RunRecord → Result RunRecord
fail_stranded r f now current =
    if not (is_queued current.status)
      || not (is_same_dispatch r current)
      || is_some current.paid_provider_attempt_started_at
    then ok current
    else fails f now current

-- Whether the stored failure is the one of this call.
unfoldable pub failure_applied : String → RunRecord → Bool
failure_applied request_id r =
    status_eq r.status failed
    && elim r.error [ none ↦ false | some f ↦ text_eq f.request_id request_id ]

module _ (o : Outside) where
  -- `cleanupRun`, with what other tasks do to the store and the service between its two updates,
  -- while the copies are deleted.
  unfoldable pub clean : RunRecord → Instant → Service → Service × Result RunRecord
  clean r now w = elim (update r.id (revoke to_failed now) none w.store) [
    | err e ↦ (w, err e)
    | ok (s, revoked) ↦
        let w' = o.meanwhile deleting_copies r.id (with_store w s) in
        let (t, answer) =
          delete_and_close o.storage o.sha256_hex (λ t. t) r.id to_failed now revoked w'.store in
        (with_store w' t, answer)
  ]

  abbrev pub retry_cleanup : String → Instant → Service → Service × Started
  retry_cleanup id now w =
      schedule_cleanup_retry (o.retry_claim_id id) (o.is_retry_ack_lost id) o.schedule_cleanup
        (o.meanwhile starting_cleanup id) id now w

  -- A run that still waits for its cleanup is handed to a cleanup workflow.
  unfoldable pub hand_over : RunRecord → Instant → Service → Service × Result RunRecord
  hand_over r now w =
      if status_eq r.status cleanup_pending
      then (let (w', answer) = retry_cleanup r.id now w in (w', answer >>= λ id. ok r))
      else (w, ok r)

  -- A run that no peer can have been told of is removed.
  unfoldable pub removed : Bool → RunRecord → Service → Service
  removed remove_after_cleanup r w =
      if remove_after_cleanup
        && is_none (truthy r.idempotency_key)
        && not (status_eq r.status cleanup_pending)
      then with_store w (remove r.id w.store)
      else w

  -- The reservation is given back whole.
  unfoldable pub release : RunRecord → Service → Result Service
  release r w =
      settle o.config r.id (some 0) w.reservations >>= λ m. ok (record w { reservations = m })

  unfoldable pub release_and_hand_over :
      Bool → RunRecord → Instant → Service → Service × Result (RunRecord × Bool)
  release_and_hand_over remove_after_cleanup r now w = elim (release r w) [
    | err e ↦ (w, err e)
    | ok released ↦
        let (w', answer) = hand_over r now released in
        elim answer [
          | err e ↦ (w', err e)
          | ok u ↦ (removed remove_after_cleanup u w', ok (u, true))
        ]
  ]

  -- `true` in the answer is `failureApplied`.
  unfoldable pub fail_admission :
      RunRecord → AppError → Bool → String → Instant → Service → Service × Result (RunRecord × Bool)
  fail_admission r e remove_after_cleanup lease now w =
      elim (update r.id (fail_queued (failure_of e (o.request_id r.id)) now)
        (some (admission_claim lease)) w.store) [
          | err refusal ↦ (w, ok (current_or r r.id w, false))
          | ok (s, u) ↦
              if not (failure_applied (o.request_id r.id) u)
              then (with_store w s, ok (u, false))
              else let (w', cleaned) = clean u now (with_store w s) in
                elim cleaned [
                  | err refusal ↦ (w', err refusal)
                  | ok v ↦ release_and_hand_over remove_after_cleanup v now w'
                ]
        ]

  -- The reservation stays: the workflow may be running.
  unfoldable pub fail_stranded_dispatch :
      RunRecord → Instant → Service → Service × Result (RunRecord × Bool)
  fail_stranded_dispatch r now w =
      elim (update r.id (fail_stranded r (failure_of delivery_unconfirmed (o.request_id r.id)) now)
        none w.store) [
          | err refusal ↦ (w, err refusal)
          | ok (s, u) ↦
              if not (failure_applied (o.request_id r.id) u)
              then (with_store w s, ok (u, false))
              else let (w', cleaned) = clean u now (with_store w s) in
                elim cleaned [
                  | err refusal ↦ (w', err refusal)
                  | ok v ↦
                      let (w'', answer) = hand_over v now w' in (w'', answer >>= λ x. ok (x, true))
                ]
        ]
