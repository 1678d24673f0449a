-- ===== src/Runs/Store/Leases.antt =====
-- The two leases of a run: when a second claim is granted.
use monidhackson.Base.{
  ℕ, ◌+◌, ◌≡◌, String, true, false, ◌||◌, none, some, is_some, leb, eq_refl, arith,
}
use monidhackson.Runs.Types.{RunRecord}
use monidhackson.Runs.Store.Record.{is_queued, is_leased}
use monidhackson.Runs.Store.{processing_claim, admission_claim, is_stale}
use monidhackson.Runs.Store.Claims.{
  claim_admission, claim_processing, heartbeat_processing, is_terminal, has_watchdogs,
}

-- A granted admission lease excludes every other one exactly until it runs out; meanwhile updates
-- under it are accepted.
pub admission_exclusive :
    (l l' : String) (now ms later ms' : ℕ) (r r' : RunRecord)
    → claim_admission l now ms r ≡ some r'
    → (is_some (claim_admission l' later ms' r') ≡ leb (now + ms) later)
      × (is_stale r' (some (admission_claim l)) ≡ false)
unfolding claim_admission is_stale
admission_exclusive l l' now ms later ms' r r' h = (ground arith, ground (arith, eq_refl l))

-- A granted processing lease excludes every other worker exactly until it runs out; meanwhile the
-- worker's updates are accepted.
pub processing_exclusive :
    (l l' : String) (now ms later ms' : ℕ) (r r' : RunRecord)
    → claim_processing l now ms r ≡ some r'
    → (is_some (claim_processing l' later ms' r') ≡ leb (now + ms) later)
      × (is_stale r' (some (processing_claim l r'.processing_fence)) ≡ false)
unfolding claim_processing is_stale is_queued is_leased is_terminal
processing_exclusive l l' now ms later ms' r r' h = (ground arith, ground (arith, eq_refl l))

-- A heartbeat of the worker that holds the lease moves its end, and with it the moment from which
-- another worker may take the run over.
pub heartbeat_extends :
    (l l' : String) (now ms beat ms' later ms'' : ℕ) (r r' r'' : RunRecord)
    → claim_processing l now ms r ≡ some r'
    → heartbeat_processing l r'.processing_fence beat ms' r' ≡ some r''
    → is_some (claim_processing l' later ms'' r'') ≡ leb (beat + ms') later
unfolding claim_processing heartbeat_processing is_queued is_leased is_terminal
heartbeat_extends l l' now ms beat ms' later ms'' r r' r'' h k = ground arith

-- A run whose source cleanup is armed, or whose paid provider attempt has started, is not handed
-- to a worker again; neither is one that was completed, failed or expired.
pub processing_refused :
    (l : String) (now ms : ℕ) (r : RunRecord)
    → (has_watchdogs r.source_cleanup_watchdogs
        || is_some r.paid_provider_attempt_started_at
        || is_terminal r)
      ≡ true
    → claim_processing l now ms r ≡ none
unfolding claim_processing
processing_refused l now ms r h = ground arith
