-- ===== src/Watchdog.antt =====
-- src/lib/runs/source-cleanup-watchdog.ts: the registration of a document's source before a paid
-- parse, and what the worker records on it. The random id of a registration is an argument.
pub mod Calls
pub mod Runner
pub mod Receipts
pub mod Laws
pub mod Guard
pub mod Registry
use Prim.Native.Char.{code}
use Prim.Native.String
use monidhackson.Base.{
  ℕ, zero, suc, ◌+◌, ◌*◌, ◌-◌, String, Bool, true, false, not, ◌&&◌, ◌||◌, List, [], ◌∷◌, ◌++◌,
  Option, none, some, is_none, is_some, map, filter, any, find, length, includes, get_or, or_else,
  text_eq, starts_with, leb, ltb, ◌==◌, if◌then◌else◌,
}
use monidhackson.Errors.{
  AppError, Result, ok, err, ◌>>=◌, ◌>>◌, budget_exceeded, analysis_incomplete,
}
use monidhackson.Contracts.{CostEvent, CostProvider, monid, pending}
use monidhackson.Runs.Types.{
  RunRecord, Instant, SourceCleanupWatchdog, WatchdogStatus, armed, provider_call_started, captured,
  cleanup_confirmed, is_pending,
}
use monidhackson.Runs.Store.Record.{text_is, staged_resource}
use monidhackson.Runs.Store.{InMemoryRunStore, Claim, get, update, truthy}
use monidhackson.Ledger.{
  committed, assert_durable_commitment_fits, is_attempt, replace_attempt, max_safe_integer,
}

abbrev pub refused : String → ℕ → AppError
refused message http_status = record {
  code = analysis_incomplete;
  message = message;
  http_status = http_status;
  retryable = false;
}

abbrev pub invalid_plan : String → AppError
invalid_plan message = record {
  code = budget_exceeded;
  message = message;
  http_status = 400;
  retryable = false;
}

abbrev pub is_registered_as : String → SourceCleanupWatchdog → Bool
is_registered_as id w = text_eq w.registration_id id

abbrev pub watchdog_by_id : RunRecord → String → Option SourceCleanupWatchdog
watchdog_by_id r id = find (is_registered_as id) r.source_cleanup_watchdogs

abbrev pub mutate_at :
    String
    → (SourceCleanupWatchdog → SourceCleanupWatchdog)
    → SourceCleanupWatchdog
    → SourceCleanupWatchdog
mutate_at id mutate w = if is_registered_as id w then mutate w else w

unfoldable pub update_watchdog :
    RunRecord → String → (SourceCleanupWatchdog → SourceCleanupWatchdog) → Result RunRecord
update_watchdog r id mutate =
    if any (is_registered_as id) r.source_cleanup_watchdogs
    then ok (record r {
      source_cleanup_watchdogs = map (mutate_at id mutate) r.source_cleanup_watchdogs;
    })
    else err (refused "The source cleanup watchdog was not found." 409)

-- `[...new Set(texts)]`: the first of equal texts stays.
unfoldable pub unique : List String → List String
unique [] = []
unique (x ∷ xs) = x ∷ filter (λ y. not (text_eq x y)) (unique xs)

abbrev pub is_foreign : String → String → Bool
is_foreign stage id = not (text_eq id stage) && not (starts_with id "blob:incoming/")

unfoldable pub sanitized_resource_ids : String → ℕ → List String → Result (List String)
sanitized_resource_ids run_id index ids =
    let stage = staged_resource run_id index in
    if not (includes stage (unique ids))
    then err (refused "The cleanup watchdog must own the document staging resource." 400)
    else if any (is_foreign stage) (unique ids)
    then err
        (refused "The cleanup watchdog received an invalid application resource identifier." 400)
    else ok (unique ids)

abbrev pub is_for : ℕ → SourceCleanupWatchdog → Bool
is_for index w = w.document_index == index

-- The watchdog of a document that has none yet.
unfoldable pub new_watchdog : String → ℕ → String → List String → Instant → SourceCleanupWatchdog
new_watchdog uuid index document_id ids now = record {
  registration_id = uuid;
  document_index = index;
  document_id = document_id;
  resource_ids = ids;
  status = armed;
  registered_at = now;
  watchdog_scheduled_at = none;
  watchdog_workflow_run_id = none;
  provider_call_started_at = none;
  source_access_expires_at = none;
  provider_result_captured_at = none;
  provider_result_id_sha256 = none;
  cleanup_last_attempt_at = none;
  cleanup_confirmed_at = none;
  cleanup_attempts = 0;
  cancelled_at = none;
}

-- The mutation of `armSourceCleanupWatchdog`, with the watchdog that it hands back.
unfoldable pub arm :
    String
    → ℕ
    → String
    → List String
    → Instant
    → RunRecord
    → Result (RunRecord × SourceCleanupWatchdog)
arm uuid index document_id ids now r = elim (find (is_for index) r.source_cleanup_watchdogs) [
  | none ↦
      let w = new_watchdog uuid index document_id ids now in
      ok (
        record r {
          source_cleanup_watchdogs = r.source_cleanup_watchdogs ++ w ∷ [];
          updated_at = now;
        },
        w,
      )
  | some old ↦
      if is_some old.provider_call_started_at
      then err (refused "A paid provider attempt for this document has already started." 400)
      else let w = record old { document_id = document_id; resource_ids = ids } in
        ok (
          record r {
            source_cleanup_watchdogs =
                map (mutate_at old.registration_id (λ _. w)) r.source_cleanup_watchdogs;
            updated_at = now;
          },
          w,
        )
]

-- The record is read again for the watchdog that the mutation set; it is there once `update` succeeds.
unfoldable pub arm_source_cleanup_watchdog :
    String
    → String
    → ℕ
    → String
    → List String
    → Claim
    → Instant
    → InMemoryRunStore
    → Result (InMemoryRunStore × SourceCleanupWatchdog)
arm_source_cleanup_watchdog uuid run_id index document_id resource_ids claim now s = do
  ids ← sanitized_resource_ids run_id index resource_ids
  let mutate = arm uuid index document_id ids now
  (s', u) ← update run_id (λ r. mutate r >>= λ c. ok c.0) (some claim) s
  elim (get run_id s) [
    | none ↦ err (refused "The run was not found." 404)
    | some r ↦ mutate r >>= λ c. ok (s', c.1)
  ]

-- The mutation of `recordSourceCleanupWatchdogScheduled`.
unfoldable pub schedule : String → Option String → Instant → RunRecord → Result RunRecord
schedule id workflow_run_id now r =
    update_watchdog r id (λ w. record w {
      watchdog_scheduled_at = some (get_or w.watchdog_scheduled_at now);
      watchdog_workflow_run_id = or_else w.watchdog_workflow_run_id workflow_run_id;
    })
    >>= λ u. ok (record u { updated_at = now })

unfoldable pub record_source_cleanup_watchdog_scheduled :
    String
    → String
    → Option String
    → Claim
    → Instant
    → InMemoryRunStore
    → Result (InMemoryRunStore × RunRecord)
record_source_cleanup_watchdog_scheduled run_id id workflow_run_id claim now s =
    update run_id (schedule id workflow_run_id now) (some claim) s
