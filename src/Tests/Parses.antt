-- ===== src/Tests/Parses.antt =====
-- The parses of documents at concrete runs.
use monidhackson.Base.{true, [], ◌∷◌, none, some, ℕ, String, Option}
use monidhackson.Errors.{AppError, Result, ok, analysis_incomplete}
use monidhackson.Runs.Types.{SourceCleanupWatchdog, staged_source, application}
use monidhackson.Runs.Store.{InMemoryRunStore, Claim, processing_claim}
use monidhackson.Cleanup.{CleanupTarget, removes, execute_cleanup}
use monidhackson.Watchdog.{new_watchdog}
use monidhackson.Watchdog.Calls.{Plan}
use monidhackson.Parsing.{ParseInput, ParseOutcome, completed}
use monidhackson.Parsing.Spares.{Spares}
use monidhackson.Parsing.Batches.{IndexedSource}
use monidhackson.Tests.Samples.{worker_run, store_of}

abbrev too_short : AppError
too_short = record {
  code = analysis_incomplete;
  message = "The remaining live-provider window is too short to start another paid parse safely.";
  http_status = 503;
  retryable = true;
}

abbrev target : CleanupTarget
target = record {
  resource_id = "staged:run-1:0";
  resource_kind = staged_source;
  control_scope = application;
  remove = some removes;
  unknown_detail = none;
  success_detail = none;
  receipt_id = "r1";
}

abbrev plan : Plan
plan = record {
  reserved_micro_usd = some 100;
  total_planned_monid_attempts = 2;
  remaining_openai_commitment_micro_usd = 200;
  maximum_run_cost_micro_usd = 500;
}

abbrev claim : Claim
claim = processing_claim "w1" 1

-- The window is what the parse finds of the time that is left.
abbrev parse_input : Option AppError → String → ParseInput
parse_input window id = record {
  run_id = "run-1";
  registration_id = id;
  document_index = 0;
  document_id = "doc-0";
  parsed_resource_id = "parsed:doc-0";
  targets = target ∷ [];
  plan = plan;
  reserve_micro_usd = 100;
  claim = claim;
  now = 3000;
  latency_ms = 12;
  window = window;
  signing = none;
  heartbeat = none;
  unsent = none;
  heartbeat_at_dispatch = none;
  window_at_dispatch = none;
  answer = completed "00" (some 90);
}

abbrev unchanged : InMemoryRunStore → InMemoryRunStore
unchanged s = s

abbrev watchdog : SourceCleanupWatchdog
watchdog = record (new_watchdog "u0" 0 "doc-0" ("staged:run-1:0" ∷ []) 2500) {
  watchdog_scheduled_at = some 2600;
}

abbrev scheduled : InMemoryRunStore
scheduled = store_of (record worker_run { source_cleanup_watchdogs = watchdog ∷ [] })

abbrev document : IndexedSource
document = record {
  document_index = 0;
  document_id = "doc-0";
  watched_resource_ids = "staged:run-1:0" ∷ [];
  targets = target ∷ [];
  heartbeat = none;
  input = parse_input (some too_short);
}

abbrev outcome : ParseOutcome
outcome = record {
  document_index = 0;
  parsed = none;
  parse_error = some too_short;
  worker_error = none;
  cost = none;
  source_cleanup_receipts = execute_cleanup (target ∷ []) 3000;
}

abbrev uuid_of : ℕ → String
uuid_of n = "u0"

abbrev acknowledged : Result (Option String)
acknowledged = ok (some "wf")
