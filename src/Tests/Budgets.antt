-- ===== src/Tests/Budgets.antt =====
-- The ledger and the budget at concrete runs.
use monidhackson.Base.{◌≡◌, refl, [], ◌∷◌, none, some, lookup, insert, arith}
use monidhackson.Errors.{AppError, ok, err}
use monidhackson.Contracts.{CostEvent, monid}
use monidhackson.Contracts
use monidhackson.Runs.Types.{RunRecord}
use monidhackson.Runs.Store.Record.{new_run_record}
use monidhackson.Runs.Store.{update, processing_claim, is_stale}
use monidhackson.Ledger.{
  event_commitment, committed, mark_started, settle_attempt, settle_paid_cost_attempt,
  assert_durable_commitment_fits,
}
use monidhackson.Ledger.Laws.{
  IsBalanced, Marked, Settled, mark_started-IsBalanced, settle_attempt-IsBalanced,
}
use monidhackson.Ledger.Closing.{settle_fails_closed}
use monidhackson.Budget.{
  BudgetConfig, BudgetReservationInput, MemoryReservation, guest, reserve, recent_runs,
  daily_committed,
}
use monidhackson.Budget.Laws.{WithinCap, reserve-WithinCap}
use monidhackson.Tests.Samples.{fresh_run, store_of}

abbrev estimate : CostEvent
estimate = record {
  attempt_id = some "p1";
  provider = monid;
  operation = "parse";
  status = Contracts.pending;
  actual_micro_usd = none;
  estimated_micro_usd = some 100;
  latency_ms = 0;
  retry_of = none;
}

abbrev outcome : CostEvent
outcome = record estimate { status = Contracts.CostStatus.succeeded; actual_micro_usd = some 400 }

abbrev paid_run : RunRecord
paid_run = record fresh_run {
  paid_provider_attempt_started_at = some 7;
  costs = estimate ∷ [];
  cost_micro_usd = 100;
  updated_at = 7;
}

fresh_IsBalanced : IsBalanced fresh_run
unfolding new_run_record committed
fresh_IsBalanced = record { total = refl; once = tt }

mark_started-IsBalanced_example : Marked "p1" estimate 300 500 fresh_run paid_run
unfolding mark_started assert_durable_commitment_fits committed event_commitment new_run_record
mark_started-IsBalanced_example =
    mark_started-IsBalanced "p1" estimate 300 500 7 fresh_run paid_run refl fresh_IsBalanced refl

abbrev settled_run : RunRecord
settled_run = record paid_run { costs = outcome ∷ []; cost_micro_usd = 400; updated_at = 9 }

settle_attempt-IsBalanced_example : Settled "p1" outcome paid_run settled_run
unfolding settle_attempt committed event_commitment new_run_record
settle_attempt-IsBalanced_example =
    settle_attempt-IsBalanced "p1" outcome 9 paid_run settled_run refl
      mark_started-IsBalanced_example.0 refl

abbrev owned_run : RunRecord
owned_run = record paid_run { processing_lease_id = some "w1"; processing_fence = 1 }

abbrev owned_settled : RunRecord
owned_settled = record settled_run { processing_lease_id = some "w1"; processing_fence = 1 }

settle_fails_closed_example :
    let (stored, answer) =
      settle_paid_cost_attempt "run-1" "p1" outcome 300 500
        (processing_claim "w1" 1)
        9
        (store_of owned_run) in
    (stored ≡ store_of owned_settled) × ((e : AppError) × (answer ≡ err e))
unfolding update settle_attempt committed event_commitment new_run_record lookup insert is_stale
settle_fails_closed_example =
    settle_fails_closed "run-1" "p1" outcome 300 500 (processing_claim "w1" 1) 9
      (store_of owned_run) (store_of owned_settled) owned_settled refl (omega arith)

abbrev config : BudgetConfig
config = record {
  max_run_cost_micro_usd = 500;
  api_runs_per_day = 10;
  guest_runs_per_day = 2;
  daily_cost_cap_micro_usd = 900;
}

abbrev order : BudgetReservationInput
order = record { run_id = "r1"; quota_key = "q"; principal_kind = guest; amount_micro_usd = 500 }

abbrev held : MemoryReservation
held = record { quota_key = "q"; day = 0; reserved = 500; settled = none; created_at = 1000 }

reserved_once : reserve config order 1000 [] ≡ ok (("r1", held) ∷ [])
unfolding reserve lookup insert recent_runs daily_committed
reserved_once = refl

nothing_charged : WithinCap config []
unfolding daily_committed
nothing_charged day = omega arith

reserve-WithinCap_example : WithinCap config (("r1", held) ∷ [])
reserve-WithinCap_example =
    reserve-WithinCap config order 1000 [] (("r1", held) ∷ []) nothing_charged reserved_once

abbrev paid : MemoryReservation
paid = record held { settled = some 120 }
