-- ===== src/Runs/Transition/Graph.antt =====
-- The state machine as an inductive relation, without the table of the source.
use monidhackson.Base.{◌≡◌, refl, subst, true, inl, inr, List, [], ◌∷◌, All, Bool-cases, arith}
use monidhackson.Contracts.{
  RunStatus, queued, validating, staging, page_indexing, parsing, purging_source, extracting,
  reconciling, verifying, ready, partial, failed, cleanup_pending, expired, status_eq, has_status,
}
use monidhackson.Runs.Transition.{transitions}

-- The stages in which a worker is busy.
pub data IsWorking : RunStatus → Type 0 where
  w_queued : IsWorking queued
  w_validating : IsWorking validating
  w_staging : IsWorking staging
  w_page_indexing : IsWorking page_indexing
  w_parsing : IsWorking parsing
  w_purging_source : IsWorking purging_source
  w_extracting : IsWorking extracting
  w_reconciling : IsWorking reconciling
  w_verifying : IsWorking verifying

pub data IsDone : RunStatus → Type 0 where
  d_ready : IsDone ready
  d_partial : IsDone partial
  d_failed : IsDone failed

-- The order of the pipeline.
pub data Next : RunStatus → RunStatus → Type 0 where
  n_validating : Next queued validating
  n_staging : Next validating staging
  n_page_indexing : Next staging page_indexing
  n_parsing : Next page_indexing parsing
  n_purging_source : Next parsing purging_source
  n_extracting : Next purging_source extracting
  n_reconciling : Next extracting reconciling
  n_verifying : Next reconciling verifying
  n_ready : Next verifying ready

pub data MayStop : RunStatus → Type 0 where
  s_extracting : MayStop extracting
  s_reconciling : MayStop reconciling
  s_verifying : MayStop verifying

infix 40 ◌⟶◌
pub data ◌⟶◌ : RunStatus → RunStatus → Type 0 where
  advance : {s t : RunStatus} → Next s t → s ⟶ t
  stop : {s : RunStatus} → MayStop s → s ⟶ partial
  fail : {s : RunStatus} → IsWorking s → s ⟶ failed
  abandon : {s : RunStatus} → IsWorking s → s ⟶ cleanup_pending
  retire : {s : RunStatus} → IsDone s → s ⟶ cleanup_pending
  expire_working : {s : RunStatus} → IsWorking s → s ⟶ expired
  expire_done : {s : RunStatus} → IsDone s → s ⟶ expired
  cleaned_failed : cleanup_pending ⟶ failed
  cleaned_expired : cleanup_pending ⟶ expired

ruleset edges = (
  advance, stop, fail, abandon, retire, expire_working, expire_done, cleaned_failed,
  cleaned_expired,
)

ruleset stages = (
  w_queued, w_validating, w_staging, w_page_indexing, w_parsing, w_purging_source, w_extracting,
  w_reconciling, w_verifying, d_ready, d_partial, d_failed, n_validating, n_staging,
  n_page_indexing, n_parsing, n_purging_source, n_extracting, n_reconciling, n_verifying, n_ready,
  s_extracting, s_reconciling, s_verifying,
)

-- The table lists edges only.
table-⟶ : (s : RunStatus) → All (λ t. s ⟶ t) (transitions s)
unfolding transitions
table-⟶ queued = search (edges, stages)
table-⟶ _ = search (edges, stages)

pub status_eq_eq : (s t : RunStatus) → status_eq s t ≡ true → s ≡ t
unfolding status_eq
status_eq_eq queued t h = ground arith
status_eq_eq _ t h = ground arith

listed-⟶ :
    {s : RunStatus} (ts : List RunStatus) (t : RunStatus)
    → All (λ u. s ⟶ u) ts
    → has_status ts t ≡ true
    → s ⟶ t
unfolding has_status
listed-⟶ [] t a h = cc
listed-⟶ {s} (u ∷ us) t (e, a) h = elim (Bool-cases (status_eq u t)) [
  | inl same ↦ subst (λ v. s ⟶ v) (status_eq_eq u t same) e
  | inr other ↦ listed-⟶ us t a (rw other at h)
]

pub transitions-⟶ : (s t : RunStatus) → has_status (transitions s) t ≡ true → s ⟶ t
transitions-⟶ s t h = listed-⟶ (transitions s) t (table-⟶ s) h

working :
    {s : RunStatus}
    → IsWorking s
    → (has_status (transitions s) failed ≡ true)
      × (has_status (transitions s) cleanup_pending ≡ true)
      × (has_status (transitions s) expired ≡ true)
unfolding transitions has_status
working w_queued = (refl, refl, refl)
working _ = (refl, refl, refl)

done :
    {s : RunStatus}
    → IsDone s
    → (has_status (transitions s) cleanup_pending ≡ true)
      × (has_status (transitions s) expired ≡ true)
unfolding transitions has_status
done d_ready = (refl, refl)
done _ = (refl, refl)

-- The table lists every edge, and no edge is a loop.
pub ⟶-transitions : {s t : RunStatus} → s ⟶ t → has_status (transitions s) t ≡ true
unfolding transitions has_status
⟶-transitions (advance n_validating) = refl
⟶-transitions (advance n_staging) = refl
⟶-transitions (advance n_page_indexing) = refl
⟶-transitions (advance n_parsing) = refl
⟶-transitions (advance n_purging_source) = refl
⟶-transitions (advance n_extracting) = refl
⟶-transitions (advance n_reconciling) = refl
⟶-transitions (advance n_verifying) = refl
⟶-transitions (advance n_ready) = refl
⟶-transitions (stop m) = elim m as (λ s n. has_status (transitions s) partial ≡ true) [
  | s_extracting ↦ refl
  | s_reconciling ↦ refl
  | s_verifying ↦ refl
]
⟶-transitions (fail w) = (working w).0
⟶-transitions (abandon w) = (working w).1
⟶-transitions (retire d) = (done d).0
⟶-transitions (expire_working w) = (working w).2
⟶-transitions (expire_done d) = (done d).1
⟶-transitions cleaned_failed = refl
⟶-transitions cleaned_expired = refl
