-- ===== src/Runs/Store/Fencing.antt =====
-- The processing fence and the two leases: who may write to a run, and for how long.
use monidhackson.Base.{ℕ, ◌+◌, ◌≤◌, ◌<◌, ◌≡◌, String, true, none, some, lookup, arith}
use monidhackson.Errors.{Result, ok, err}
use monidhackson.Runs.Types.{RunRecord}
use monidhackson.Runs.Store.{
  InMemoryRunStore, processing_claim, is_stale, update, lease_not_current, try_claim,
}
use monidhackson.Runs.Store.Claims.{
  claim_admission, claim_processing, heartbeat_processing, claim_analysis_dispatch,
  settle_analysis_dispatch, claim_cleanup_retry, settle_cleanup_retry_dispatch, DispatchOutcome,
}

-- What any method of the store may do to one record. An arbitrary mutation enters by `mutated`,
-- provided that it does not lower the fence.
pub data Evolves (r : RunRecord) : RunRecord → Type 0 where
  same : Evolves r r
  admission :
      {t u : RunRecord} (l : String) (now ms : ℕ)
      → Evolves r t
      → claim_admission l now ms t ≡ some u
      → Evolves r u
  processing :
      {t u : RunRecord} (l : String) (now ms : ℕ)
      → Evolves r t
      → claim_processing l now ms t ≡ some u
      → Evolves r u
  heartbeat :
      {t u : RunRecord} (l : String) (fence now ms : ℕ)
      → Evolves r t
      → heartbeat_processing l fence now ms t ≡ some u
      → Evolves r u
  dispatch :
      {t u : RunRecord} (c l : String) (now : ℕ)
      → Evolves r t
      → claim_analysis_dispatch c l now t ≡ some u
      → Evolves r u
  settle :
      {t u : RunRecord} (c : String) (o : DispatchOutcome) (now : ℕ)
      → Evolves r t
      → settle_analysis_dispatch c o now t ≡ some u
      → Evolves r u
  retry :
      {t u : RunRecord} (c : String) (now : ℕ)
      → Evolves r t
      → claim_cleanup_retry c now t ≡ some u
      → Evolves r u
  settle_retry :
      {t u : RunRecord} (c : String) (o : DispatchOutcome) (now : ℕ)
      → Evolves r t
      → settle_cleanup_retry_dispatch c o now t ≡ some u
      → Evolves r u
  mutated : {t u : RunRecord} → Evolves r t → t.processing_fence ≤ u.processing_fence → Evolves r u

claim_admission-fence :
    (l : String) (now ms : ℕ) (t u : RunRecord)
    → claim_admission l now ms t ≡ some u
    → u.processing_fence ≡ t.processing_fence
unfolding claim_admission
claim_admission-fence l now ms t u h = ground arith

claim_processing-fence :
    (l : String) (now ms : ℕ) (t u : RunRecord)
    → claim_processing l now ms t ≡ some u
    → u.processing_fence ≡ t.processing_fence + 1
unfolding claim_processing
claim_processing-fence l now ms t u h = ground arith

heartbeat_processing-fence :
    (l : String) (fence now ms : ℕ) (t u : RunRecord)
    → heartbeat_processing l fence now ms t ≡ some u
    → u.processing_fence ≡ t.processing_fence
unfolding heartbeat_processing
heartbeat_processing-fence l fence now ms t u h = ground arith

claim_analysis_dispatch-fence :
    (c l : String) (now : ℕ) (t u : RunRecord)
    → claim_analysis_dispatch c l now t ≡ some u
    → u.processing_fence ≡ t.processing_fence
unfolding claim_analysis_dispatch
claim_analysis_dispatch-fence c l now t u h = ground arith

settle_analysis_dispatch-fence :
    (c : String) (o : DispatchOutcome) (now : ℕ) (t u : RunRecord)
    → settle_analysis_dispatch c o now t ≡ some u
    → u.processing_fence ≡ t.processing_fence
unfolding settle_analysis_dispatch
settle_analysis_dispatch-fence c o now t u h = ground arith

claim_cleanup_retry-fence :
    (c : String) (now : ℕ) (t u : RunRecord)
    → claim_cleanup_retry c now t ≡ some u
    → u.processing_fence ≡ t.processing_fence
unfolding claim_cleanup_retry
claim_cleanup_retry-fence c now t u h = ground arith

settle_cleanup_retry_dispatch-fence :
    (c : String) (o : DispatchOutcome) (now : ℕ) (t u : RunRecord)
    → settle_cleanup_retry_dispatch c o now t ≡ some u
    → u.processing_fence ≡ t.processing_fence
unfolding settle_cleanup_retry_dispatch
settle_cleanup_retry_dispatch-fence c o now t u h = ground arith

fence_grows : {r u : RunRecord} → Evolves r u → r.processing_fence ≤ u.processing_fence
fence_grows same = omega arith
fence_grows (admission {t} {u} l now ms e h) =
    omega (arith, fence_grows e, claim_admission-fence l now ms t u h)
fence_grows (processing {t} {u} l now ms e h) =
    omega (arith, fence_grows e, claim_processing-fence l now ms t u h)
fence_grows (heartbeat {t} {u} l fence now ms e h) =
    omega (arith, fence_grows e, heartbeat_processing-fence l fence now ms t u h)
fence_grows (dispatch {t} {u} c l now e h) =
    omega (arith, fence_grows e, claim_analysis_dispatch-fence c l now t u h)
fence_grows (settle {t} {u} c o now e h) =
    omega (arith, fence_grows e, settle_analysis_dispatch-fence c o now t u h)
fence_grows (retry {t} {u} c now e h) =
    omega (arith, fence_grows e, claim_cleanup_retry-fence c now t u h)
fence_grows (settle_retry {t} {u} c o now e h) =
    omega (arith, fence_grows e, settle_cleanup_retry_dispatch-fence c o now t u h)
fence_grows (mutated e h) = omega (arith, fence_grows e)

old_claim_stale :
    (r : RunRecord) (lease : String) (fence : ℕ)
    → fence < r.processing_fence
    → is_stale r (some (processing_claim lease fence)) ≡ true
unfolding is_stale
old_claim_stale r lease fence h = ground arith

old_heartbeat_refused :
    (r : RunRecord) (lease : String) (fence now ms : ℕ)
    → fence < r.processing_fence
    → heartbeat_processing lease fence now ms r ≡ none
unfolding heartbeat_processing
old_heartbeat_refused r lease fence now ms h = ground arith

-- Once a worker has claimed a run, every earlier worker is fenced off for good: whatever the store
-- does to the run afterwards, as long as no update lowers its fence, an update under an earlier
-- claim is refused with the store unchanged, even with the lease id of the new claim, and an
-- earlier heartbeat extends nothing.
pub stale_worker_fenced :
    (r r' u : RunRecord) (l : String) (now ms : ℕ) (s : InMemoryRunStore) (id lease : String)
    (fence later ms' : ℕ) (mutate : RunRecord → Result RunRecord)
    → claim_processing l now ms r ≡ some r'
    → Evolves r' u
    → lookup id s.records ≡ some u
    → fence ≤ r.processing_fence
    → (update id mutate (some (processing_claim lease fence)) s ≡ err lease_not_current)
      × (try_claim id (heartbeat_processing lease fence later ms') s ≡ ok (s, none))
unfolding update try_claim
stale_worker_fenced r r' u l now ms s id lease fence later ms' mutate h e found old =
    let below : fence < u.processing_fence =
      omega (arith, fence_grows e, claim_processing-fence l now ms r r' h) in
    (
      rw (found, update) (rw (old_claim_stale u lease fence below)),
      rw (found, try_claim) (rw (old_heartbeat_refused u lease fence later ms' below)),
    )
