-- ===== src/Publication/Charges.antt =====
-- What a failed run is left with, and what is charged for it.
use monidhackson.Base.{ℕ, ◌≤◌, ◌≡◌, ◌⊎◌, String, Bool, true, false, List, [], none, some, lookup}
use monidhackson.Errors.{ok}
use monidhackson.Contracts.{CostEvent}
use monidhackson.Runs.Types.{RunRecord, RunFailure, Instant}
use monidhackson.Runs.Store.{InMemoryRunStore, Claim, is_stale}
use monidhackson.Budget.{BudgetConfig, Reservations, settle}
use monidhackson.Publication.Withdrawal.{incurred}

module _ (c : BudgetConfig) (serialize : CostEvent → String) (is_live : Bool) (reserved : ℕ)
    (costs : List CostEvent) (f : RunFailure) (meanwhile : InMemoryRunStore → InMemoryRunStore)
    (run_id : String) (claim : Claim) (now : Instant) where
  -- How a failed run is left: where the worker's claim was still current, without a result; where
  -- it was stale, as others have left it. The run is in the store that is left.
  abbrev pub Withdrawn : InMemoryRunStore → InMemoryRunStore → RunRecord → Type 0
  Withdrawn s s' v =
      (lookup run_id s'.records ≡ some v)
      × (((v.result ≡ none)
            × (v.citation_receipts ≡ [])
            × (v.processing_lease_id ≡ none)
            × (v.error ≡ some f)
            × ((r : RunRecord) × (lookup run_id s.records ≡ some r)
                × (is_stale r (some claim) ≡ false)))
          ⊎ ((s' ≡ s) × (is_stale v (some claim) ≡ true)))

  -- What was charged for it.
  abbrev pub Charged : Reservations → Reservations → RunRecord → Type 0
  Charged m m' v =
      (n : ℕ) × (settle c run_id (some n) m ≡ ok m')
      × (v.cost_micro_usd ≤ n)
      × (incurred costs ≤ n)
      × (is_live ≡ true → reserved ≤ n)
