-- ===== src/Admission/Attempts.antt =====
-- src/lib/runs/create.ts: the attempt to admit a queued run. It takes the admission lease, claims
-- the uploads, reserves the budget, takes the permanent dispatch claim and starts the workflow.
use monidhackson.Base.{
  ℕ, String, not, List, [], ◌∷◌, Option, none, some, is_none, ltb, if◌then◌else◌,
}
use monidhackson.Errors.{AppError, Result, ok, err}
use monidhackson.Contracts.{RunDocumentInput, DocumentSource, url, upload}
use monidhackson.Runs.Types.{RunRecord, Instant}
use monidhackson.Runs.Store.Record.{is_queued}
use monidhackson.Runs.Store.Claims.{
  DispatchOutcome, claim_admission, claim_analysis_dispatch, settle_analysis_dispatch,
}
use monidhackson.Runs.Store.{InMemoryRunStore, update, try_claim, admission_claim}
use monidhackson.Budget.{BudgetReservationInput, reserve}
use monidhackson.Scheduling.Calls.{Service, start_analysis, with_store, called}
use monidhackson.Scheduling.{outcome_of, uncertain, kept}
use monidhackson.Admission.{
  Outside, claiming_uploads, starting_analysis, Attempt, admitted, refused, attempt_failed,
  preflight, dispatch_claim_uncertain, schedule_uncertain, no_manifest, unexpected,
  principal_kind_for, current_or, admission_lease_ms,
}

unfoldable pub raised : ℕ → Instant → RunRecord → RunRecord
raised amount now r = record r { reserved_micro_usd = amount; updated_at = now }

abbrev pub reservation_for : RunRecord → BudgetReservationInput
reservation_for r = record {
  run_id = r.id;
  quota_key = r.quota_key;
  principal_kind = principal_kind_for r;
  amount_micro_usd = r.reserved_micro_usd;
}

module _ (o : Outside) where
  unfoldable pub raise_reservation :
      RunRecord → String → Instant → InMemoryRunStore → Result (InMemoryRunStore × RunRecord)
  raise_reservation r lease now s =
      if ltb r.reserved_micro_usd o.config.max_run_cost_micro_usd
      then update r.id (λ current. ok (raised o.config.max_run_cost_micro_usd now current))
          (some (admission_claim lease)) s
      else ok (s, r)

  unfoldable pub claim_source : RunRecord → DocumentSource → Option AppError
  claim_source r (url _) = none
  claim_source r (upload path sha256 size name) = o.claim_incoming r (upload path sha256 size name)

  -- The first upload that cannot be claimed.
  unfoldable pub claim_documents : RunRecord → List RunDocumentInput → Option AppError
  claim_documents r [] = none
  claim_documents r (d ∷ ds) = elim (claim_source r d.source) [
    | some e ↦ some e
    | none ↦ claim_documents r ds
  ]

  unfoldable pub claim_uploads : RunRecord → Option AppError
  claim_uploads r = elim r.input [
    | none ↦ some unexpected
    | some input ↦ claim_documents r input.documents
  ]

  -- From the uploads to the reservation.
  unfoldable pub reserve_budget : RunRecord → Instant → Service → Service × Option AppError
  reserve_budget r now w = elim (claim_uploads r) [
    | some e ↦ (w, some e)
    | none ↦
        let w' = o.meanwhile claiming_uploads r.id w in
        elim (reserve o.config (reservation_for r) now w'.reservations) [
          | err e ↦ (w', some e)
          | ok m ↦ (record w' { reservations = m }, none)
        ]
  ]

  abbrev pub settle_dispatch :
      String → DispatchOutcome → Instant → Service → Result (InMemoryRunStore × Option RunRecord)
  settle_dispatch id outcome now w =
      try_claim id (settle_analysis_dispatch (o.dispatch_claim_id id) outcome now) w.store

  -- What is left of an attempt whose start, or whose settlement, threw.
  abbrev pub give_up : RunRecord → String → Instant → AppError → Service → Service × Attempt
  give_up r lease now e w = (
    with_store w (kept w.store (settle_dispatch r.id (uncertain now) now w)),
    attempt_failed e r lease schedule_uncertain,
  )

  -- From the committed claim on. The workflow is asked for once.
  unfoldable pub start_workflow : RunRecord → String → Instant → Service → Service × Attempt
  start_workflow r lease now w =
      let asked = o.meanwhile starting_analysis r.id (called (start_analysis r.id) w) in
      elim (o.schedule r.id) [
        | err e ↦ give_up r lease now e asked
        | ok answer ↦ elim (settle_dispatch r.id (outcome_of answer now) now asked) [
          | err e ↦ give_up r lease now e asked
          | ok (s, some settled) ↦ (with_store asked s, admitted settled)
          | ok (s, none) ↦ (with_store asked s, admitted (current_or r r.id (with_store asked s)))
        ]
      ]

  -- The permanent dispatch claim. Where its answer is lost, no workflow is started.
  unfoldable pub dispatch_run : RunRecord → String → Instant → Service → Service × Attempt
  dispatch_run r lease now w =
      elim (try_claim r.id (claim_analysis_dispatch (o.dispatch_claim_id r.id) lease now) w.store) [
        | err e ↦ (w, attempt_failed e r lease dispatch_claim_uncertain)
        | ok (s, claimed) ↦
            if o.is_dispatch_ack_lost r.id
            then (with_store w s, attempt_failed unexpected r lease dispatch_claim_uncertain)
            else elim claimed [
              | none ↦ (with_store w s, admitted (current_or r r.id (with_store w s)))
              | some u ↦ start_workflow u lease now (with_store w s)
            ]
      ]

  -- From the reservation on, with its outcome.
  unfoldable pub proceed :
      RunRecord → String → Instant → Service × Option AppError → Service × Attempt
  proceed r lease now (w, some e) = (w, attempt_failed e r lease preflight)
  proceed r lease now (w, none) = dispatch_run r lease now w

  -- From the granted lease on.
  unfoldable pub attempt_admission : RunRecord → String → Instant → Service → Service × Attempt
  attempt_admission r lease now w = elim (raise_reservation r lease now w.store) [
    | err e ↦ (w, attempt_failed e r lease preflight)
    | ok (s, u) ↦ proceed u lease now (reserve_budget u now (with_store w s))
  ]

  unfoldable pub admit_queued_run : RunRecord → Instant → Service → Service × Attempt
  admit_queued_run r now w =
      if not (is_queued r.status)
      then (w, admitted r)
      else if is_none r.input
      then (w, refused no_manifest)
      else elim (try_claim r.id (claim_admission (o.lease_id r.id) now admission_lease_ms)
          w.store) [
            | err e ↦ (w, refused e)
            | ok (s, none) ↦ (with_store w s, admitted (current_or r r.id (with_store w s)))
            | ok (s, some u) ↦ attempt_admission u (o.lease_id r.id) now (with_store w s)
          ]
