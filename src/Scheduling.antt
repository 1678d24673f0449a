-- ===== src/Scheduling.antt =====
-- src/lib/runs/scheduler.ts: the workflows that the application starts. What the workflow service
-- answers to a start is an argument, and every start that is asked for is kept in a list of calls.
pub mod Calls
pub mod Heartbeat
use monidhackson.Base.{
  ℕ, String, Bool, true, false, not, ◌&&◌, ◌||◌, List, [], ◌∷◌, ◌++◌, Option, none, some, is_none,
  length, decimal, concat, ltb, ◌==◌, if◌then◌else◌,
}
use monidhackson.Errors.{
  AppError, Result, ok, err, ◌>>=◌, analysis_incomplete, source_cleanup_pending,
}
use monidhackson.Runs.Types.{RunRecord, Instant}
use monidhackson.Runs.Store.Claims.{
  DispatchOutcome, was_scheduled, was_not_dispatched, was_uncertain, claim_cleanup_retry,
  settle_cleanup_retry_dispatch,
}
use monidhackson.Runs.Store.{InMemoryRunStore, get, try_claim}
use monidhackson.Watchdog.{unique}
use monidhackson.Scheduling.Calls.{Service, Call, start_cleanup, with_store, called}

-- `DATABASE_URL`, `VERCEL` and `NODE_ENV`, as far as the scheduler reads them.
pub record Deployment : Type 0 where
  pub has_database : Bool
  pub is_vercel : Bool
  pub is_production : Bool

abbrev pub not_configured : String → AppError
not_configured message = record {
  code = analysis_incomplete;
  message = message;
  http_status = 503;
  retryable = true;
}

abbrev pub cleanup_unconfirmed : String → Bool → AppError
cleanup_unconfirmed message retryable = record {
  code = source_cleanup_pending;
  message = message;
  http_status = 503;
  retryable = retryable;
}

-- The workflow's run id, or `none` where no workflow was started.
abbrev pub Started : Type 0
Started = Result (Option String)

-- `remote` is the answer of the workflow service.
abbrev pub dispatched : Deployment → AppError → Result String → Started
dispatched d refusal remote =
    if d.has_database && d.is_vercel
    then (remote >>= λ id. ok (some id))
    else if d.is_production
    then err refusal
    else ok none

unfoldable pub schedule_run : Deployment → Result String → Started
schedule_run d remote = dispatched d (not_configured "Vercel Workflow is not configured.") remote

unfoldable pub schedule_incoming_upload_sweep : Deployment → Result String → Started
schedule_incoming_upload_sweep d remote =
    dispatched d (not_configured "The incoming-upload sweeper is not configured.") remote

unfoldable pub dispatch_cleanup_retry_workflow : Deployment → Result String → Started
dispatch_cleanup_retry_workflow d remote =
    dispatched d (cleanup_unconfirmed "The cleanup retry workflow is not configured." true) remote

abbrev pub registrations_per_batch : ℕ
registrations_per_batch = 4

abbrev pub invalid_batch : AppError
invalid_batch =
    cleanup_unconfirmed
      (concat "A source cleanup watchdog batch must contain one to "
        (concat (decimal registrations_per_batch) " unique registrations."))
      false

unfoldable pub schedule_source_cleanup_watchdog : Deployment → Result String → List String → Started
schedule_source_cleanup_watchdog d remote ids =
    if ltb (length (unique ids)) 1
      || ltb registrations_per_batch (length (unique ids))
      || not (length (unique ids) == length ids)
    then err invalid_batch
    else dispatched d
        (cleanup_unconfirmed "The independent source cleanup watchdog is not configured." true)
        remote

abbrev pub retry_claim_unconfirmed : AppError
retry_claim_unconfirmed =
    cleanup_unconfirmed
      "Cleanup retry admission could not be confirmed. Any committed claim will be recovered by scheduled maintenance without a blind redispatch."
      true

abbrev pub retry_dispatch_unconfirmed : AppError
retry_dispatch_unconfirmed =
    cleanup_unconfirmed
      "Cleanup retry dispatch could not be confirmed. No second standalone retry will be dispatched; scheduled maintenance will continue cleanup."
      true

-- What a start was found to be. A start that was not made, or whose answer is unknown, leaves the
-- run to maintenance at once.
abbrev pub outcome_of : Option String → Instant → DispatchOutcome
outcome_of (some id) now = record {
  status = was_scheduled;
  workflow_run_id = some id;
  uncertain_at = none;
}
outcome_of none now = record {
  status = was_not_dispatched;
  workflow_run_id = none;
  uncertain_at = some now;
}

abbrev pub uncertain : Instant → DispatchOutcome
uncertain now = record { status = was_uncertain; workflow_run_id = none; uncertain_at = some now }

abbrev pub retry_workflow_of : Option RunRecord → Option String
retry_workflow_of none = none
retry_workflow_of (some r) = r.cleanup_retry_workflow_run_id

-- The store after an operation whose failure is ignored.
abbrev pub kept {ℓ} :
    {A : Type ℓ} → InMemoryRunStore → Result (InMemoryRunStore × A) → InMemoryRunStore
kept s (err e) = s
kept s (ok (s', a)) = s'

-- `while_starting` is what other tasks do while the workflow service is awaited.
module _ (claim_id : String) (is_ack_lost : Bool) (start : String → Started)
    (while_starting : Service → Service) where
  abbrev pub settle_retry :
      String → DispatchOutcome → Instant → Service → Result (InMemoryRunStore × Option RunRecord)
  settle_retry run_id o now w =
      try_claim run_id (settle_cleanup_retry_dispatch claim_id o now) w.store

  -- The store after a start that failed or could not be recorded: a failure to say so is ignored.
  abbrev pub give_up_retry : String → Instant → Service → Service
  give_up_retry run_id now w =
      with_store w (kept w.store (settle_retry run_id (uncertain now) now w))

  -- From the claim on. The start is asked for once; whatever comes of it, the claim stays.
  unfoldable pub dispatch_cleanup_retry : String → Instant → Service → Service × Started
  dispatch_cleanup_retry run_id now w =
      let asked = while_starting (called (start_cleanup run_id) w) in
      elim (start run_id) [
        | err e ↦ (give_up_retry run_id now asked, err retry_dispatch_unconfirmed)
        | ok answer ↦ elim (settle_retry run_id (outcome_of answer now) now asked) [
          | err e ↦ (give_up_retry run_id now asked, err retry_dispatch_unconfirmed)
          | ok (s, u) ↦ (with_store asked s, ok answer)
        ]
      ]

  -- `is_ack_lost`: the database committed the claim, and its answer did not arrive.
  unfoldable pub schedule_cleanup_retry : String → Instant → Service → Service × Started
  schedule_cleanup_retry run_id now w =
      elim (try_claim run_id (claim_cleanup_retry claim_id now) w.store) [
        | err e ↦ (w, err retry_claim_unconfirmed)
        | ok (s, claimed) ↦
            if is_ack_lost then (with_store w s, err retry_claim_unconfirmed) else elim claimed [
              | none ↦ (with_store w s, ok (retry_workflow_of (get run_id s)))
              | some r ↦ dispatch_cleanup_retry run_id now (with_store w s)
            ]
      ]
