-- ===== src/Tests/Costs.antt =====
-- The cost estimates of src/lib/cost-estimates.ts at a plan of two documents, in whole numbers.
use monidhackson.Base.{ℕ, ◌+◌, ◌*◌, ◌/◌, ◌≡◌, refl, true, false, leb, ltb, []}
use monidhackson.Costs.{
  Float, InfrastructureCostEstimateInput, PaidPlan, on_neon, on_railway_s3, estimate_events,
  has_complete_infrastructure_cost_coverage, estimated_event,
}

-- Arithmetic that rounds every decimal down.
abbrev whole_numbers : Float
whole_numbers = record {
  Number = ℕ;
  decimal = λ m k. 0;
  of_nat = λ n. n;
  add = λ m n. m + n;
  mul = λ m n. m * n;
  div = λ m n. m / n;
  ceil = λ n. n;
  is_finite = λ n. true;
  is_positive = λ n. ltb 0 n;
  is_at_most = λ m n. leb m n;
}

abbrev two_documents : InfrastructureCostEstimateInput whole_numbers
two_documents = record {
  document_count = 2;
  is_railway_s3 = true;
  neon_cost_cu_ceiling = 2;
  run_ttl_hours = 24;
  observed_pipeline_latency_ms = 0;
}

abbrev plan : ℕ → PaidPlan whole_numbers
plan reserved = record {
  input = two_documents;
  monid_parse_reserve_micro_usd = 40000;
  openai_run_reserve_micro_usd = 10000;
  reserved_micro_usd = reserved;
  max_run_cost_micro_usd = 100000;
}

covered_by_a_bucket :
    has_complete_infrastructure_cost_coverage
      (estimate_events whole_numbers two_documents)
      on_railway_s3
    ≡ true
unfolding has_complete_infrastructure_cost_coverage estimate_events estimated_event
covered_by_a_bucket = refl

nothing_covers_nothing : has_complete_infrastructure_cost_coverage [] on_neon ≡ false
unfolding has_complete_infrastructure_cost_coverage
nothing_covers_nothing = refl
