-- ===== src/Costs/Plans.antt =====
-- src/lib/cost-estimates.ts and assertPaidProviderPlan of src/lib/pipeline.ts: an accepted plan covers
-- the infrastructure, and every paid parse that is planned.
use monidhackson.Base.{ℕ, ◌+◌, ◌-◌, ◌*◌, ◌≤◌, ◌<◌, ◌≡◌, true, List, All, get_or}
use monidhackson.Errors.{ok}
use monidhackson.Contracts.{CostEvent}
use monidhackson.Ledger.{assert_durable_commitment_fits}
use monidhackson.Costs.{
  Float, on_vercel, on_neon, on_railway_s3, InfrastructureCostEstimateInput,
  has_complete_infrastructure_cost_coverage, total_estimate, PaidPlan, monid_commitment,
}

module _ (float : Float) where
  -- What the estimates of a run are.
  pub record IsComplete (i : InfrastructureCostEstimateInput float) (events : List CostEvent)
      : Type 0 where
    pub on_vercel_covered : has_complete_infrastructure_cost_coverage events on_vercel ≡ true
    pub on_neon_covered : has_complete_infrastructure_cost_coverage events on_neon ≡ true
    pub on_railway_covered :
        has_complete_infrastructure_cost_coverage events on_railway_s3 ≡ i.is_railway_s3
    pub some_cost : All (λ (e : CostEvent). 1 ≤ get_or e.estimated_micro_usd 0) events

  -- What an accepted plan guarantees. The commitment to the infrastructure is the sum of estimates
  -- that leave nothing out; all commitments together fit into the reservation, and that into the
  -- ceiling; and when the paid parses are then started one after the other, the check of the ledger
  -- refuses none of them for the plan.
  pub record IsCovered (p : PaidPlan float) : Type 0 where
    pub some_document : 1 ≤ p.input.document_count
    pub few_documents : p.input.document_count ≤ 5
    pub events : List CostEvent
    pub complete : IsComplete p.input events
    pub whole_plan :
        monid_commitment float p + p.openai_run_reserve_micro_usd + total_estimate float events
        ≤ p.reserved_micro_usd
    pub within_ceiling : p.reserved_micro_usd ≤ p.max_run_cost_micro_usd
    pub no_parse_refused :
        (k : ℕ)
        → k < p.input.document_count
        → assert_durable_commitment_fits
            ((k + 1) * p.monid_parse_reserve_micro_usd)
            ((p.input.document_count - (k + 1)) * p.monid_parse_reserve_micro_usd
              + p.openai_run_reserve_micro_usd)
            p.reserved_micro_usd
            p.max_run_cost_micro_usd
          ≡ ok tt
