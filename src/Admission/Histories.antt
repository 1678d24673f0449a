-- ===== src/Admission/Histories.antt =====
-- Whatever is created, recovered and otherwise done, in any order: how often a run is started.
use monidhackson.Base.{
  ℕ, ◌+◌, ◌≤◌, ◌≡◌, refl, String, Bool, true, false, [], Option, arith, if◌then◌else◌, lookup,
}
use monidhackson.Contracts.{CreateRunRequest}
use monidhackson.Runs.Types.{Instant}
use monidhackson.Runs.Store.Record.{Environment}
use monidhackson.Runs.Store.Opening.{open_at, Closes}
use monidhackson.Scheduling.Calls.{Service}
use monidhackson.Admission.{Outside, Pause}
use monidhackson.Admission.Recovery.{recover_unscheduled_runs}
use monidhackson.Admission.Creating.{Principal, create_run}
use monidhackson.Admission.Once.{AtMostOnce, starts, committed, committed-Closes}
use monidhackson.Admission.Sweeps.{recover_all-AtMostOnce, create_run-AtMostOnce}

-- The states that creations, recoveries and other work lead to, in any order, from an empty
-- service. Other work asks for no analysis and opens no run; a new run has an id of its own, for
-- which nothing was started.
pub data Reachable (o : Outside) : Service → Type 0 where
  empty : (w : Service) → w.store.records ≡ [] → w.calls ≡ [] → Reachable o w
  other_work :
      (w w' : Service)
      → Reachable o w
      → w'.calls ≡ w.calls
      → Closes w.store w'.store
      → Reachable o w'
  creation :
      (env : Environment) (run_id : String) (request : CreateRunRequest) (principal : Principal)
      (key : Option String) (now : Instant) (w : Service)
      → Reachable o w
      → starts run_id w.calls ≡ 0
      → Reachable o (create_run o env run_id request principal key now w).0
  recovery :
      (id_before : String → String → Bool) (now : Instant) (limit : ℕ) (w : Service)
      → Reachable o w
      → Reachable o (recover_unscheduled_runs o id_before now limit w).0

empty-AtMostOnce : (w : Service) → w.store.records ≡ [] → w.calls ≡ [] → AtMostOnce w
unfolding AtMostOnce committed starts open_at lookup
empty-AtMostOnce w no_records no_calls =
    (λ j v e. cc (rw (no_records, lookup) at e), λ j. rw (no_records, no_calls) (omega arith))

Reachable-AtMostOnce :
    (o : Outside)
    → ((p : Pause) (id : String) (w : Service) → AtMostOnce w → AtMostOnce (o.meanwhile p id w))
    → (w : Service) → Reachable o w
    → AtMostOnce w
unfolding recover_unscheduled_runs
Reachable-AtMostOnce o others _ (empty w no_records no_calls) =
    empty-AtMostOnce w no_records no_calls
Reachable-AtMostOnce o others _ (other_work w w' e same closes) =
    committed-Closes w w' same closes (Reachable-AtMostOnce o others w e)
Reachable-AtMostOnce o others _ (creation env id request principal key now w e fresh) =
    create_run-AtMostOnce o others env id request principal key now w fresh
      (Reachable-AtMostOnce o others w e)
Reachable-AtMostOnce o others _ (recovery id_before now limit w e) =
    recover_all-AtMostOnce o others _ now _ w (Reachable-AtMostOnce o others w e)

open_spent : (b : Bool) (n : ℕ) → n ≡ 1 → n + (if b then 1 else 0) ≤ 1 → b ≡ false
open_spent false n h m = refl
open_spent true n h m = ground arith

-- Whatever is created, recovered and otherwise done to the runs, in any order, the analysis of a
-- run is asked for at most once, and once it was asked for, the run is open to no further dispatch
-- claim. Lost answers, thrown starts and failed settlements are included. It is assumed that what
-- other tasks do while a call is awaited keeps this invariant too.
pub analysis_started_once :
    (o : Outside)
    → ((p : Pause) (id : String) (w : Service) → AtMostOnce w → AtMostOnce (o.meanwhile p id w))
    → (w : Service) → Reachable o w
    → (id : String) → (starts id w.calls ≤ 1) × (starts id w.calls ≡ 1 → open_at id w.store ≡ false)
unfolding AtMostOnce committed
analysis_started_once o others w e id =
    let most = (Reachable-AtMostOnce o others w e).1 id in
    (omega (arith, most), λ h. open_spent (open_at id w.store) _ h most)
