-- ===== src/Admission/Recovery.antt =====
-- src/lib/runs/create.ts: the sweep of maintenance over the runs that are still queued.
use monidhackson.Base.{
  ℕ, ◌+◌, ◌-◌, String, Bool, false, ◌||◌, List, [], ◌∷◌, ◌++◌, is_some, get_or, values, leb, ltb,
  if◌then◌else◌,
}
use monidhackson.Errors.{Result, ok, err, ◌>>=◌}
use monidhackson.Runs.Types.{RunRecord, Instant}
use monidhackson.Runs.Store.Listing.{bounded_limit, list_unscheduled_queued}
use monidhackson.Scheduling.Calls.{Service}
use monidhackson.Admission.{
  Outside, Attempt, admitted, refused, attempt_failed, preflight, dispatch_claim_uncertain,
  schedule_uncertain, admission_recovery_delay_ms, admission_recovery_batch_size,
  analysis_dispatch_recovery_grace_ms,
}
use monidhackson.Admission.Attempts.{admit_queued_run}
use monidhackson.Admission.Failure.{fail_admission, fail_stranded_dispatch}

-- What becomes of a candidate.
pub data Verdict : Type 0 where
  skipped recovered has_failed deferred : Verdict

pub record Recovery : Type 0 where
  pub recovered_run_ids : List String
  pub failed_run_ids : List String
  pub deferred_run_ids : List String

abbrev pub nothing_recovered : Recovery
nothing_recovered = record { recovered_run_ids = []; failed_run_ids = []; deferred_run_ids = [] }

-- The recovered run's id is that of its candidate: no update changes an id.
abbrev pub noted : String → Verdict → Recovery → Recovery
noted id skipped a = a
noted id recovered a = record a { recovered_run_ids = a.recovered_run_ids ++ id ∷ [] }
noted id has_failed a = record a { failed_run_ids = a.failed_run_ids ++ id ∷ [] }
noted id deferred a = record a { deferred_run_ids = a.deferred_run_ids ++ id ∷ [] }

unfoldable pub has_permanent_analysis_dispatch_fence : RunRecord → Bool
has_permanent_analysis_dispatch_fence r =
    is_some r.analysis_dispatch_claim_id || is_some r.workflow_run_id

unfoldable pub is_within_grace : RunRecord → Instant → Bool
is_within_grace r now =
    ltb now
      (get_or r.analysis_dispatch_claimed_at r.updated_at + analysis_dispatch_recovery_grace_ms)

module _ (o : Outside) where
  -- A fenced run is never admitted again.
  unfoldable pub recover_fenced : RunRecord → Instant → Service → Service × Result Verdict
  recover_fenced r now w =
      if is_within_grace r now
      then (w, ok deferred)
      else let (w', answer) = fail_stranded_dispatch o r now w in
        (w', answer >>= λ x. ok (if x.1 then has_failed else deferred))

  -- What follows an attempt to admit the candidate.
  unfoldable pub after_attempt : Instant → Service × Attempt → Service × Result Verdict
  after_attempt now (w, admitted r) =
      (w, ok (if is_some r.workflow_run_id then recovered else skipped))
  after_attempt now (w, refused e) = (w, ok has_failed)
  after_attempt now (w, attempt_failed e r lease preflight) =
      let (w', answer) = fail_admission o r e false lease now w in
      (w', answer >>= λ x. ok has_failed)
  after_attempt now (w, attempt_failed e r lease dispatch_claim_uncertain) = (w, ok deferred)
  after_attempt now (w, attempt_failed e r lease schedule_uncertain) = (w, ok deferred)

  unfoldable pub recover_candidate : RunRecord → Instant → Service → Service × Result Verdict
  recover_candidate r now w =
      if leb r.expires_at now
      then (w, ok skipped)
      else if has_permanent_analysis_dispatch_fence r
      then recover_fenced r now w
      else after_attempt now (admit_queued_run o r now w)

  unfoldable pub recover_all :
      List RunRecord → Instant → Recovery → Service → Service × Result Recovery
  recover_all [] now a w = (w, ok a)
  recover_all (r ∷ rs) now a w =
      let (w', verdict) = recover_candidate r now w in
      elim verdict [ err e ↦ (w', err e) | ok v ↦ recover_all rs now (noted r.id v a) w' ]

  unfoldable pub recover_unscheduled_runs :
      (String → String → Bool) → Instant → ℕ → Service → Service × Result Recovery
  recover_unscheduled_runs id_before now batch_limit w =
      recover_all
        (list_unscheduled_queued id_before (now - admission_recovery_delay_ms)
          (bounded_limit batch_limit admission_recovery_batch_size) (values w.store.records))
        now nothing_recovered w
