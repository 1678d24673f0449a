-- ===== src/Tests/Admissions.antt =====
-- Creations, admissions and recoveries at concrete runs.
use monidhackson.Base.{◌≡◌, ◌≤◌, refl, false, [], none}
use monidhackson.Errors.{ok, err}
use monidhackson.Runs.Store.Opening.{open_at}
use monidhackson.Budget.{BudgetConfig}
use monidhackson.Cleanup.{removes}
use monidhackson.Scheduling.Calls.{Service}
use monidhackson.Scheduling.{not_configured}
use monidhackson.Admission.{Outside}
use monidhackson.Admission.Creating.{Principal, create_run}
use monidhackson.Admission.Recovery.{recover_unscheduled_runs}
use monidhackson.Admission.Once.{starts}
use monidhackson.Admission.Histories.{Reachable, empty, creation, recovery, analysis_started_once}
use monidhackson.Tests.Samples.{env, request, empty_store}

abbrev limits : BudgetConfig
limits = record {
  max_run_cost_micro_usd = 500;
  api_runs_per_day = 3;
  guest_runs_per_day = 3;
  daily_cost_cap_micro_usd = 1000;
}

-- The start of every analysis fails, although the workflow may be running.
abbrev outside : Outside
outside = record {
  config = limits;
  storage = record { removal = λ id. removes; receipt_id = λ id. id };
  sha256_hex = λ text. text;
  lease_id = λ id. "lease";
  dispatch_claim_id = λ id. "claim";
  retry_claim_id = λ id. "retry";
  request_id = λ id. "request";
  claim_incoming = λ r source. none;
  schedule = λ id. err (not_configured "The answer was lost.");
  schedule_cleanup = λ id. ok none;
  is_dispatch_ack_lost = λ id. false;
  is_retry_ack_lost = λ id. false;
  meanwhile = λ p id w. w;
}

abbrev nothing : Service
nothing = record { store = empty_store; reservations = []; calls = [] }

abbrev caller : Principal
caller = record { id = "owner"; quota_key = "quota" }

abbrev created : Service
created = (create_run outside env "run-1" request caller none 1000 nothing).0

abbrev swept : Service
swept = (recover_unscheduled_runs outside (λ a b. false) 70000 20 created).0

swept-Reachable : Reachable outside swept
unfolding starts
swept-Reachable =
    recovery (λ a b. false) 70000 20 created
      (creation env "run-1" request caller none 1000 nothing (empty nothing refl refl) refl)

analysis_started_once_example :
    (starts "run-1" swept.calls ≤ 1)
    × (starts "run-1" swept.calls ≡ 1 → open_at "run-1" swept.store ≡ false)
analysis_started_once_example =
    analysis_started_once outside (λ p id w m. m) swept swept-Reachable "run-1"
