-- ===== src/Costs.antt =====
-- src/lib/cost-estimates.ts: the estimated cost of the infrastructure of a run, and the check of the
-- paid plan in src/lib/pipeline.ts. The floating-point numbers of the language are an argument: a
-- type with its arithmetic, where `decimal m k` is the number nearest to m / 10 ^ k. The texts that
-- explain an estimate are left out.
pub mod Policy
pub mod Plans
use monidhackson.Base.{
  ℕ, ◌+◌, ◌*◌, ◌-◌, String, Bool, true, false, not, ◌&&◌, ◌||◌, List, [], ◌∷◌, ◌++◌, Option, none,
  some, is_some, all, any, includes, get_or, sum_by, max, length, ltb, leb, ◌==◌, text_eq,
  if◌then◌else◌,
}
use monidhackson.Errors.{AppError, Result, ok, err, ◌>>=◌, analysis_incomplete, budget_exceeded}
use monidhackson.Contracts.{
  CostEvent, CostProvider, monid, openai, railway_s3, vercel_blob, vercel, neon, succeeded,
}
use monidhackson.Ledger.{max_safe_integer}
use monidhackson.Costs.Policy.{
  workflow_base_event_envelope, workflow_events_per_document,
  workflow_base_function_attempt_envelope, workflow_function_attempts_per_document,
  workflow_generated_route_max_duration_seconds,
}

pub record Float : Type 1 where
  pub Number : Type 0
  pub decimal : ℕ → ℕ → Number
  pub of_nat : ℕ → Number
  pub add : Number → Number → Number
  pub mul : Number → Number → Number
  pub div : Number → Number → Number
  pub ceil : Number → ℕ
  pub is_finite : Number → Bool
  pub is_positive : Number → Bool
  pub is_at_most : Number → ℕ → Bool

-- The providers of infrastructure, and whether the private storage is Railway's.
pub data Infrastructure : Type 0 where
  on_vercel on_neon on_railway_s3 : Infrastructure

abbrev pub is_of : Infrastructure → CostProvider → Bool
is_of on_vercel vercel = true
is_of on_neon neon = true
is_of on_railway_s3 railway_s3 = true
is_of _ _ = false

abbrev pub required_infrastructure_cost_operations : Infrastructure → List String
required_infrastructure_cost_operations on_vercel =
    "fluid_compute_conservative_usage_allocation" ∷ "workflow_events_conservative_usage_allocation"
    ∷ "workflow_data_written_conservative_usage_allocation"
    ∷ "workflow_data_retained_conservative_usage_allocation"
    ∷ "workflow_queue_conservative_usage_allocation" ∷ []
required_infrastructure_cost_operations on_neon =
    "serverless_postgres_conservative_usage_allocation" ∷ []
required_infrastructure_cost_operations on_railway_s3 =
    "temporary_bucket_conservative_usage_allocation" ∷ []

abbrev pub is_priced : CostEvent → Bool
is_priced e = is_some e.actual_micro_usd || is_some e.estimated_micro_usd

abbrev pub priced_operations : Infrastructure → List CostEvent → List String
priced_operations p [] = []
priced_operations p (e ∷ es) =
    let rest = priced_operations p es in
    if is_of p e.provider && is_priced e then e.operation ∷ rest else rest

unfoldable pub has_complete_infrastructure_cost_coverage : List CostEvent → Infrastructure → Bool
has_complete_infrastructure_cost_coverage costs p =
    all (λ operation. includes operation (priced_operations p costs))
      (required_infrastructure_cost_operations p)

abbrev pub workflow_event_envelope : ℕ → ℕ
workflow_event_envelope n = workflow_base_event_envelope + workflow_events_per_document * n

abbrev pub workflow_function_attempt_envelope : ℕ → ℕ
workflow_function_attempt_envelope n =
    workflow_base_function_attempt_envelope + workflow_function_attempts_per_document * n

-- A plain Error, which the application reports as unexpected.
abbrev pub invalid_estimate : AppError
invalid_estimate = record {
  code = analysis_incomplete;
  message = "The request could not be completed.";
  http_status = 500;
  retryable = true;
}

unfoldable pub estimated_event : CostProvider → String → ℕ → ℕ → CostEvent
estimated_event provider operation estimated latency_ms = record {
  attempt_id = none;
  provider = provider;
  operation = operation;
  status = succeeded;
  actual_micro_usd = none;
  estimated_micro_usd = some estimated;
  latency_ms = latency_ms;
  retry_of = none;
}

module _ (float : Float) where
  open float use {Number, decimal, of_nat, add, mul, div, ceil, is_finite, is_positive, is_at_most}

  pub record InfrastructureCostEstimateInput : Type 0 where
    pub document_count : ℕ
    pub is_railway_s3 : Bool
    pub neon_cost_cu_ceiling : Number
    pub run_ttl_hours : ℕ
    pub observed_pipeline_latency_ms : ℕ

  unfoldable pub micro_usd_ceiling : Number → ℕ
  micro_usd_ceiling usd = max 1 (ceil (mul usd (of_nat 1000000)))

  abbrev pub contingency_multiplier : Number
  contingency_multiplier = decimal 125 2

  abbrev pub vercel_invocation_usd : Number
  vercel_invocation_usd = div (decimal 60 2) (of_nat 1000000)

  unfoldable pub estimate_vercel_compute_micro_usd : ℕ → ℕ
  estimate_vercel_compute_micro_usd n =
      let seconds =
        of_nat
          (workflow_function_attempt_envelope n * workflow_generated_route_max_duration_seconds) in
      let hourly_rate = add (decimal 221 3) (mul (of_nat 4) (decimal 183 4)) in
      let compute_usd = mul (div seconds (of_nat 3600)) hourly_rate in
      let invocation_usd = mul (of_nat (workflow_event_envelope n)) vercel_invocation_usd in
      micro_usd_ceiling (mul (add compute_usd invocation_usd) contingency_multiplier)

  unfoldable pub estimate_workflow_events_micro_usd : ℕ → ℕ
  estimate_workflow_events_micro_usd n = micro_usd_ceiling (
      mul (mul (of_nat (workflow_event_envelope n)) (div (decimal 2 2) (of_nat 1000)))
        contingency_multiplier)

  abbrev pub written_gb : ℕ → Number
  written_gb n = div (of_nat (workflow_event_envelope n * 65536)) (of_nat 1000000000)

  unfoldable pub estimate_workflow_data_written_micro_usd : ℕ → ℕ
  estimate_workflow_data_written_micro_usd n =
      micro_usd_ceiling (mul (mul (written_gb n) (decimal 50 2)) contingency_multiplier)

  abbrev pub workflow_retention_days : ℕ → Number
  workflow_retention_days run_ttl_hours = add (div (of_nat run_ttl_hours) (of_nat 24)) (of_nat 7)

  unfoldable pub estimate_workflow_data_retained_micro_usd : ℕ → ℕ → ℕ
  estimate_workflow_data_retained_micro_usd n run_ttl_hours =
      let gb_months =
        mul (written_gb n) (div (workflow_retention_days run_ttl_hours) (of_nat 30)) in
      micro_usd_ceiling (mul (mul gb_months (decimal 50 2)) contingency_multiplier)

  unfoldable pub estimate_workflow_queue_micro_usd : ℕ → ℕ
  estimate_workflow_queue_micro_usd n = micro_usd_ceiling (
      mul (mul (of_nat (workflow_event_envelope n * 10)) (div (decimal 96 2) (of_nat 1000000)))
        contingency_multiplier)

  unfoldable pub estimate_neon_micro_usd : ℕ → Number → ℕ
  estimate_neon_micro_usd n ceiling =
      let minutes = of_nat (5 + 5 + n) in
      let compute_usd = mul (div (mul ceiling minutes) (of_nat 60)) (decimal 222 3) in
      let storage_usd =
        mul (mul (div (of_nat 5) (of_nat 1024)) (div (of_nat 1) (of_nat 30)))
          (add (decimal 35 2) (decimal 20 2)) in
      micro_usd_ceiling (mul (add compute_usd storage_usd) contingency_multiplier)

  unfoldable pub estimate_railway_bucket_micro_usd : ℕ → ℕ
  estimate_railway_bucket_micro_usd n =
      let gib_months =
        mul (div (of_nat (n * 26214400)) (of_nat 1073741824)) (div (of_nat 30) (of_nat 43200)) in
      micro_usd_ceiling (mul (mul gib_months (decimal 15 3)) contingency_multiplier)

  abbrev pub is_valid_ceiling : Number → Bool
  is_valid_ceiling c = is_finite c && is_positive c && is_at_most c 56

  -- The estimates of the events, in order; that of the bucket only with Railway's storage.
  unfoldable pub estimate_events : InfrastructureCostEstimateInput → List CostEvent
  estimate_events i =
      let n = i.document_count in
      let latency = i.observed_pipeline_latency_ms in
      let bucket =
        estimated_event railway_s3 "temporary_bucket_conservative_usage_allocation"
          (estimate_railway_bucket_micro_usd n) latency in
      estimated_event vercel "fluid_compute_conservative_usage_allocation"
        (estimate_vercel_compute_micro_usd n) latency
      ∷ estimated_event vercel "workflow_events_conservative_usage_allocation"
          (estimate_workflow_events_micro_usd n) latency
      ∷ estimated_event vercel "workflow_data_written_conservative_usage_allocation"
          (estimate_workflow_data_written_micro_usd n) latency
      ∷ estimated_event vercel "workflow_data_retained_conservative_usage_allocation"
          (estimate_workflow_data_retained_micro_usd n i.run_ttl_hours) latency
      ∷ estimated_event vercel "workflow_queue_conservative_usage_allocation"
          (estimate_workflow_queue_micro_usd n) latency
      ∷ estimated_event neon "serverless_postgres_conservative_usage_allocation"
          (estimate_neon_micro_usd n i.neon_cost_cu_ceiling) latency
      ∷ (if i.is_railway_s3 then bucket ∷ [] else [])

  unfoldable pub build_infrastructure_cost_estimate_events :
      InfrastructureCostEstimateInput → Result (List CostEvent)
  build_infrastructure_cost_estimate_events i =
      if ltb i.document_count 1 || ltb 5 i.document_count
      then err invalid_estimate
      else if not (is_valid_ceiling i.neon_cost_cu_ceiling)
      then err invalid_estimate
      else if ltb i.run_ttl_hours 1 || ltb 168 i.run_ttl_hours
      then err invalid_estimate
      else ok (estimate_events i)

  abbrev pub total_estimate : List CostEvent → ℕ
  total_estimate events = sum_by (λ (e : CostEvent). get_or e.estimated_micro_usd 0) events

  unfoldable pub infrastructure_cost_commitment_micro_usd :
      InfrastructureCostEstimateInput → Result ℕ
  infrastructure_cost_commitment_micro_usd i =
      build_infrastructure_cost_estimate_events i >>= λ events. ok (total_estimate events)

  -- What the check of the plan reads of the run and the configuration. The sums of the source are
  -- exact wherever its tests for safe integers pass.
  pub record PaidPlan : Type 0 where
    pub input : InfrastructureCostEstimateInput
    pub monid_parse_reserve_micro_usd : ℕ
    pub openai_run_reserve_micro_usd : ℕ
    pub reserved_micro_usd : ℕ
    pub max_run_cost_micro_usd : ℕ

  abbrev pub plan_exceeds_run_reservation : AppError
  plan_exceeds_run_reservation = record {
    code = budget_exceeded;
    message = "The complete paid-provider plan exceeds the durable run reservation.";
    http_status = 503;
    retryable = false;
  }

  abbrev pub infrastructure_commitment : PaidPlan → Result ℕ
  infrastructure_commitment p =
      if ltb 0 p.input.document_count
      then infrastructure_cost_commitment_micro_usd p.input
      else ok 0

  abbrev pub monid_commitment : PaidPlan → ℕ
  monid_commitment p = p.input.document_count * p.monid_parse_reserve_micro_usd

  unfoldable pub assert_paid_provider_plan : PaidPlan → Result (Unit {0})
  assert_paid_provider_plan p = infrastructure_commitment p >>= λ infrastructure.
      let planned = monid_commitment p + p.openai_run_reserve_micro_usd + infrastructure in
      if ltb p.input.document_count 1
        || ltb max_safe_integer (monid_commitment p)
        || ltb max_safe_integer planned
        || ltb max_safe_integer p.reserved_micro_usd
        || ltb p.max_run_cost_micro_usd p.reserved_micro_usd
        || ltb p.reserved_micro_usd planned
      then err plan_exceeds_run_reservation
      else ok tt
