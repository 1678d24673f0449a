-- ===== src/Runs/Transition/Lives.antt =====
-- The life of a record, with everything that may set its status: the transitions, the claims of
-- workers, which start a run again at `validating`, the ends that are forced on a failed run, and the
-- updates that leave the status alone.
use monidhackson.Base.{
  ℕ, ◌≡◌, ◌≢◌, refl, ap, inl, inr, String, true, List, [], ◌∷◌, some, if◌then◌else◌, arith,
}
use monidhackson.Errors.{ok}
use monidhackson.Contracts.{
  RunStatus, queued, validating, staging, page_indexing, parsing, purging_source, extracting,
  reconciling, verifying, ready, status_eq,
}
use monidhackson.Runs.Types.{RunRecord, Instant}
use monidhackson.Runs.Store.Claims.{claim_processing}
use monidhackson.Runs.Transition.{enter, transition_run}
use monidhackson.Runs.Transition.Graph.{
  ◌⟶◌, advance, stop, fail, abandon, retire, expire_working, expire_done, cleaned_failed,
  cleaned_expired, n_validating, n_staging, n_page_indexing, n_parsing, n_purging_source,
  n_extracting, n_reconciling, n_verifying, n_ready,
}
use monidhackson.Runs.Transition.Laws.{transition_run-ok_iff, ⟶-distinct, status_eq_refl}
use monidhackson.Runs.Transition.Histories.{IsClosing}

-- The record, with the statuses that it left, last first.
pub data Life (r : RunRecord) : List RunStatus → RunRecord → Type 0 where
  born : Life r [] r
  moves :
      {left : List RunStatus} {t u : RunRecord} (next : RunStatus) (now : Instant)
      → Life r left t
      → transition_run t next now ≡ ok u
      → Life r (if status_eq t.status next then left else t.status ∷ left) u
  stays :
      {left : List RunStatus} {t u : RunRecord}
      → Life r left t
      → u.status ≡ t.status
      → Life r left u
  claimed :
      {left : List RunStatus} {t u : RunRecord} (lease : String) (now : Instant) (lease_ms : ℕ)
      → Life r left t
      → claim_processing lease now lease_ms t ≡ some u
      → Life r (t.status ∷ left) u
  forced :
      {left : List RunStatus} {t u : RunRecord}
      → Life r left t
      → IsClosing u.status
      → Life r (t.status ∷ left) u

-- What a run in a stage has left last, back to its last start at `validating`.
abbrev WayTo : RunStatus → List RunStatus → Type 0
WayTo staging l = (rest : List RunStatus) × (l ≡ validating ∷ rest)
WayTo page_indexing l = (rest : List RunStatus) × (l ≡ staging ∷ validating ∷ rest)
WayTo parsing l = (rest : List RunStatus) × (l ≡ page_indexing ∷ staging ∷ validating ∷ rest)
WayTo purging_source l =
    (rest : List RunStatus) × (l ≡ parsing ∷ page_indexing ∷ staging ∷ validating ∷ rest)
WayTo extracting l =
    (rest : List RunStatus) × (l
      ≡ purging_source ∷ parsing ∷ page_indexing ∷ staging ∷ validating ∷ rest)
WayTo reconciling l =
    (rest : List RunStatus) × (l
      ≡ extracting ∷ purging_source ∷ parsing ∷ page_indexing ∷ staging ∷ validating ∷ rest)
WayTo verifying l =
    (rest : List RunStatus) × (l
      ≡ reconciling ∷ extracting ∷ purging_source ∷ parsing ∷ page_indexing ∷ staging ∷ validating
        ∷ rest)
WayTo ready l =
    (rest : List RunStatus) × (l
      ≡ verifying ∷ reconciling ∷ extracting ∷ purging_source ∷ parsing ∷ page_indexing ∷ staging
        ∷ validating ∷ rest)
WayTo _ l = Unit {0}

WayTo-⟶ : {s t : RunStatus} (l : List RunStatus) → s ⟶ t → WayTo s l → WayTo t (s ∷ l)
WayTo-⟶ l (advance n_validating) h = tt
WayTo-⟶ l (advance n_staging) h = (l, refl)
WayTo-⟶ l (advance n_page_indexing) (rest, h) = (rest, ap (λ k. staging ∷ k) h)
WayTo-⟶ l (advance n_parsing) (rest, h) = (rest, ap (λ k. page_indexing ∷ k) h)
WayTo-⟶ l (advance n_purging_source) (rest, h) = (rest, ap (λ k. parsing ∷ k) h)
WayTo-⟶ l (advance n_extracting) (rest, h) = (rest, ap (λ k. purging_source ∷ k) h)
WayTo-⟶ l (advance n_reconciling) (rest, h) = (rest, ap (λ k. extracting ∷ k) h)
WayTo-⟶ l (advance n_verifying) (rest, h) = (rest, ap (λ k. reconciling ∷ k) h)
WayTo-⟶ l (advance n_ready) (rest, h) = (rest, ap (λ k. verifying ∷ k) h)
WayTo-⟶ l (stop m) h = tt
WayTo-⟶ l (fail w) h = tt
WayTo-⟶ l (abandon w) h = tt
WayTo-⟶ l (retire d) h = tt
WayTo-⟶ l (expire_working w) h = tt
WayTo-⟶ l (expire_done d) h = tt
WayTo-⟶ l cleaned_failed h = tt
WayTo-⟶ l cleaned_expired h = tt

claimed_validates :
    (lease : String) (now : Instant) (lease_ms : ℕ) (t u : RunRecord)
    → claim_processing lease now lease_ms t ≡ some u
    → u.status ≡ validating
unfolding claim_processing
claimed_validates lease now lease_ms t u h = ground arith

WayTo-closing : (s : RunStatus) (l : List RunStatus) → IsClosing s → WayTo s l
WayTo-closing s l (inl e) = rw e tt
WayTo-closing s l (inr (inl e)) = rw e tt
WayTo-closing s l (inr (inr e)) = rw e tt

Life-WayTo :
    {r : RunRecord} {left : List RunStatus} {u : RunRecord}
    → r.status ≡ queued
    → Life r left u
    → WayTo u.status left
unfolding enter
Life-WayTo fresh born = rw fresh tt
Life-WayTo fresh (moves {left} {t} {u} next now h e) =
    let way = Life-WayTo fresh h in
    elim ((transition_run-ok_iff t next now u).0 e) [
      | inl (same, kept) ↦ rw (← same, kept, status_eq_refl _) way
      | inr ((edge, _), entered) ↦ rw (⟶-distinct edge, entered) (WayTo-⟶ left edge way)
    ]
Life-WayTo fresh (stays h same) = let way = Life-WayTo fresh h in rw same way
Life-WayTo fresh (claimed {t = t} {u = u} lease now lease_ms h e) =
    rw (claimed_validates lease now lease_ms t u e) tt
Life-WayTo fresh (forced {u = u} h c) = WayTo-closing u.status _ c

ready_after : {s t : RunStatus} → s ⟶ t → t ≡ ready → s ≡ verifying
ready_after (advance n_validating) h = cc
ready_after (advance n_staging) h = cc
ready_after (advance n_page_indexing) h = cc
ready_after (advance n_parsing) h = cc
ready_after (advance n_purging_source) h = cc
ready_after (advance n_extracting) h = cc
ready_after (advance n_reconciling) h = cc
ready_after (advance n_verifying) h = cc
ready_after (advance n_ready) h = refl
ready_after (stop m) h = cc
ready_after (fail w) h = cc
ready_after (abandon w) h = cc
ready_after (retire d) h = cc
ready_after (expire_working w) h = cc
ready_after (expire_done d) h = cc
ready_after cleaned_failed h = cc
ready_after cleaned_expired h = cc

-- A run that began as queued becomes ready only from `verifying`, with its cleanup confirmed, and
-- only after it has passed every stage of the pipeline in order since a worker last started it at
-- `validating`. Before that it may have been claimed again, forced to an end, or changed in any other
-- way that leaves its status alone, any number of times.
pub ready_passes_pipeline :
    (r t u : RunRecord) (left : List RunStatus) (now : Instant)
    → r.status ≡ queued
    → Life r left t
    → t.status ≢ ready
    → transition_run t ready now ≡ ok u
    → (t.status ≡ verifying)
      × (t.is_cleanup_confirmed ≡ true)
      × ((rest : List RunStatus) × (left
            ≡ reconciling ∷ extracting ∷ purging_source ∷ parsing ∷ page_indexing ∷ staging
              ∷ validating ∷ rest))
ready_passes_pipeline r t u left now fresh life other h =
    elim ((transition_run-ok_iff t ready now u).0 h) [
      | inl (same, _) ↦ absurd (other same)
      | inr ((edge, released), _) ↦
          let from = ready_after edge refl in
          let way : WayTo t.status left = Life-WayTo fresh life in
          (from, released refl, rw from at way)
    ]
