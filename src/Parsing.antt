-- ===== src/Parsing.antt =====
-- src/lib/pipeline.ts: the paid parse of one document in processRun, from the check of the time that
-- is left to the deletion of the source. The provider is an argument: it fails before its paid
-- request, or makes it once and then answers. `meanwhile` is what other tasks, the parses of the
-- other documents among them, do to the store before each of its updates.
pub mod Spares
pub mod Batches
pub mod Stops
use monidhackson.Base.{
  ℕ, ◌+◌, String, Bool, true, false, not, ◌||◌, List, [], ◌∷◌, Option, none, some, or_else,
  if◌then◌else◌,
}
use monidhackson.Errors.{AppError, Result, ok, err}
use monidhackson.Contracts.{CostEvent, CostStatus, monid, succeeded, failed}
use monidhackson.Runs.Types.{RunRecord, Instant, CleanupReceipt}
use monidhackson.Runs.Store.{InMemoryRunStore, Claim}
use monidhackson.Cleanup.{CleanupTarget, execute_cleanup}
use monidhackson.Watchdog.Calls.{
  Plan, Capture, pending_parse, mark_source_provider_call_started,
  mark_source_provider_result_captured,
}
use monidhackson.Watchdog.Runner.{record_source_cleanup_attempt}

-- The error of `MonidTerminalProviderError` comes with the digest of the provider's run and the cost
-- that is proved, if any; every other error after the request leaves open what the provider does.
pub data ProviderAnswer : Type 0 where
  completed : String → Option ℕ → ProviderAnswer
  ended : AppError → String → Option ℕ → ProviderAnswer
  lost : AppError → ProviderAnswer

-- The checks are none where they pass. `unsent` is a failure of the provider's adapter before the
-- paid request.
pub record ParseInput : Type 0 where
  pub run_id : String
  pub registration_id : String
  pub document_index : ℕ
  pub document_id : String
  pub parsed_resource_id : String
  pub targets : List CleanupTarget
  pub plan : Plan
  pub reserve_micro_usd : ℕ
  pub claim : Claim
  pub now : Instant
  pub latency_ms : ℕ
  pub window : Option AppError
  pub signing : Option AppError
  pub heartbeat : Option AppError
  pub unsent : Option AppError
  pub heartbeat_at_dispatch : Option AppError
  pub window_at_dispatch : Option AppError
  pub answer : ProviderAnswer

-- What the `try` block and its handler leave.
pub record ParseAttempt : Type 0 where
  pub store : InMemoryRunStore
  pub is_started : Bool
  pub is_captured : Bool
  pub parsed : Option String
  pub cost : Option CostEvent
  pub parse_error : Option AppError
  pub worker_error : Option AppError

pub record ParseOutcome : Type 0 where
  pub document_index : ℕ
  pub parsed : Option String
  pub parse_error : Option AppError
  pub worker_error : Option AppError
  pub cost : Option CostEvent
  pub source_cleanup_receipts : List CleanupReceipt

abbrev pub source_access_ms : ℕ
source_access_ms = 300000

unfoldable pub first_failure : List (Option AppError) → Option AppError
first_failure [] = none
first_failure (none ∷ checks) = first_failure checks
first_failure (some e ∷ checks) = some e

-- `providerCost` and `terminalProviderCost`: what the provider proves, or else the reserve.
abbrev pub settled_cost : ParseInput → CostStatus → Option ℕ → CostEvent
settled_cost p status actual = record {
  attempt_id = some p.registration_id;
  provider = monid;
  operation = "context_dev_parse";
  status = status;
  actual_micro_usd = actual;
  estimated_micro_usd = elim actual [ none ↦ some p.reserve_micro_usd | some a ↦ none ];
  latency_ms = p.latency_ms;
  retry_of = none;
}

abbrev pub pending_cost : ParseInput → CostEvent
pending_cost p = record (pending_parse p.registration_id p.reserve_micro_usd) {
  latency_ms = p.latency_ms;
}

abbrev pub captured_as : ParseInput → String → Option String → CostEvent → Capture
captured_as p sha resource cost = record {
  provider_result_id_sha256 = some sha;
  parsed_resource_id = resource;
  cost_event = some cost;
  is_attempt_id_given = true;
}

-- No paid call was started.
abbrev pub unstarted : InMemoryRunStore → AppError → ParseAttempt
unstarted s e = record {
  store = s;
  is_started = false;
  is_captured = false;
  parsed = none;
  cost = none;
  parse_error = some e;
  worker_error = none;
}

module _ (meanwhile : InMemoryRunStore → InMemoryRunStore) (p : ParseInput) where
  abbrev pub mark_captured :
      String → Option String → CostEvent → InMemoryRunStore → Result (InMemoryRunStore × RunRecord)
  mark_captured sha resource cost s =
      mark_source_provider_result_captured p.run_id p.registration_id
        (captured_as p sha resource cost) p.claim p.now s

  -- After the paid request was made.
  unfoldable pub after_dispatch : InMemoryRunStore → ProviderAnswer → ParseAttempt
  after_dispatch s (lost e) = record (unstarted s e) {
    is_started = true;
    cost = some (pending_cost p);
  }
  after_dispatch s (ended e sha actual) =
      let cost = settled_cost p failed actual in
      elim (mark_captured sha none cost (meanwhile s)) [
        | err c ↦ record (unstarted (meanwhile s) e) {
          is_started = true;
          cost = some cost;
          worker_error = some c;
        }
        | ok (t, u) ↦ record (unstarted t e) {
          is_started = true;
          is_captured = true;
          cost = some cost;
        }
      ]
  after_dispatch s (completed sha actual) =
      let cost = settled_cost p succeeded actual in
      elim (mark_captured sha (some p.parsed_resource_id) cost (meanwhile s)) [
        | err c ↦ record (unstarted (meanwhile s) c) {
          is_started = true;
          cost = some (pending_cost p);
        }
        | ok (t, u) ↦ record {
          store = t;
          is_started = true;
          is_captured = true;
          parsed = some sha;
          cost = some cost;
          parse_error = none;
          worker_error = none;
        }
      ]

  -- `beforePaidDispatch`, at the last moment before the paid request.
  unfoldable pub before_paid_dispatch : InMemoryRunStore → Result (InMemoryRunStore × RunRecord)
  before_paid_dispatch s =
      elim (first_failure (p.heartbeat_at_dispatch ∷ p.window_at_dispatch ∷ [])) [
        | some e ↦ err e
        | none ↦
            mark_source_provider_call_started p.run_id p.registration_id
              (record p.plan { reserved_micro_usd = some p.reserve_micro_usd })
              (p.now + source_access_ms) p.claim p.now s
      ]

  unfoldable pub parse_live : InMemoryRunStore → ParseAttempt
  parse_live s = elim (first_failure (p.window ∷ p.signing ∷ p.heartbeat ∷ p.unsent ∷ [])) [
    | some e ↦ unstarted s e
    | none ↦ elim (before_paid_dispatch (meanwhile s)) [
      | err e ↦ unstarted (meanwhile s) e
      | ok (t, u) ↦ after_dispatch t p.answer
    ]
  ]

  -- The deletion of the source, where the provider is known not to be reading it.
  unfoldable pub release_source : ParseAttempt → InMemoryRunStore × ParseOutcome
  release_source a =
      let receipts = execute_cleanup p.targets p.now in
      let outcome : ParseOutcome = record {
        document_index = p.document_index;
        parsed = a.parsed;
        parse_error = a.parse_error;
        worker_error = a.worker_error;
        cost = a.cost;
        source_cleanup_receipts = receipts;
      } in
      elim (record_source_cleanup_attempt p.run_id p.registration_id receipts (some p.claim)
        (not a.is_captured) p.now (meanwhile a.store)) [
          | err e ↦
              (meanwhile a.store, record outcome { worker_error = or_else a.worker_error (some e) })
          | ok (t, u) ↦ (t, outcome)
        ]

  unfoldable pub retain_source : ParseAttempt → InMemoryRunStore × ParseOutcome
  retain_source a = (
    a.store,
    record {
      document_index = p.document_index;
      parsed = a.parsed;
      parse_error = a.parse_error;
      worker_error = a.worker_error;
      cost = a.cost;
      source_cleanup_receipts = [];
    },
  )

  unfoldable pub parse_document : InMemoryRunStore → InMemoryRunStore × ParseOutcome
  parse_document s =
      let a = parse_live s in
      if not a.is_started || a.is_captured then release_source a else retain_source a
