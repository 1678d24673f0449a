-- ===== src/Watchdog/Runner.antt =====
-- src/lib/runs/source-cleanup-watchdog.ts: one attempt to delete the copies of a registered source,
-- the run of the watchdog, and the gates over all the watchdogs of a run.
use monidhackson.Base.{
  ℕ, ◌+◌, String, Bool, true, false, not, ◌&&◌, List, [], ◌∷◌, Option, none, some, is_none, is_some,
  all, includes, get_or, get_elem?, text_eq, insert, values, if◌then◌else◌,
}
use monidhackson.Errors.{AppError, Result, ok, err, ◌>>=◌, source_cleanup_pending}
use monidhackson.Contracts.{failed, expired, has_status, DocumentSource, url, upload}
use monidhackson.Runs.Types.{
  RunRecord, Instant, SourceCleanupWatchdog, WatchdogStatus, cleanup_pending, cleanup_confirmed,
  cancelled, CleanupReceipt, to_failed,
}
use monidhackson.Runs.Store.Record.{leb_opt, staged_resource, blob_resource}
use monidhackson.Runs.Store.Claims.{is_terminal}
use monidhackson.Runs.Store.{InMemoryRunStore, Claim, get, update, is_lease_expired}
use monidhackson.Cleanup.{CleanupTarget, execute_cleanup, deleted_ids, cleanup_gate}
use monidhackson.Expiry.{Storage, stage_target, blob_target, provider_source_cleanup_authorized}
use monidhackson.Expiry.Runner.{cleanup_run}
use monidhackson.Watchdog.{refused, watchdog_by_id, update_watchdog}

abbrev pub keyed :
    List CleanupReceipt → List (String × CleanupReceipt) → List (String × CleanupReceipt)
keyed [] m = m
keyed (c ∷ cs) m = keyed cs (insert c.receipt_id c m)

-- A receipt whose id is known replaces the known one, in its place.
unfoldable pub merge_cleanup_receipts :
    List CleanupReceipt → List CleanupReceipt → List CleanupReceipt
merge_cleanup_receipts existing additions = values (keyed additions (keyed existing []))

abbrev pub all_deleted : List String → List CleanupReceipt → Bool
all_deleted ids receipts = all (λ id. includes id (deleted_ids receipts)) ids

abbrev pub attempted_status : Bool → Bool → WatchdogStatus
attempted_status _ false = cleanup_pending
attempted_status true true = cancelled
attempted_status false true = cleanup_confirmed

abbrev pub since : Bool → Option Instant → Instant → Option Instant
since true known now = some (get_or known now)
since false known now = known

unfoldable pub attempted_watchdog :
    Bool → Bool → Instant → SourceCleanupWatchdog → SourceCleanupWatchdog
attempted_watchdog is_cancelling is_gone now w = record w {
  status = attempted_status is_cancelling is_gone;
  cleanup_last_attempt_at = some now;
  cleanup_confirmed_at = since is_gone w.cleanup_confirmed_at now;
  cleanup_attempts = w.cleanup_attempts + 1;
  cancelled_at = since (is_cancelling && is_gone) w.cancelled_at now;
}

abbrev pub with_receipts : List CleanupReceipt → Instant → RunRecord → RunRecord
with_receipts known now r = record r { cleanup_receipts = known; updated_at = now }

-- The mutation of `recordSourceCleanupAttempt`.
unfoldable pub record_attempt :
    String → List CleanupReceipt → Bool → Instant → RunRecord → Result RunRecord
record_attempt id receipts is_cancelling now r = elim (watchdog_by_id r id) [
  | none ↦ err (refused "The source cleanup watchdog was not found." 400)
  | some w ↦
      let known = merge_cleanup_receipts r.cleanup_receipts receipts in
      update_watchdog r id (attempted_watchdog is_cancelling (all_deleted w.resource_ids known) now)
      >>= λ u. ok (with_receipts known now u)
]

unfoldable pub record_source_cleanup_attempt :
    String
    → String
    → List CleanupReceipt
    → Option Claim
    → Bool
    → Instant
    → InMemoryRunStore
    → Result (InMemoryRunStore × RunRecord)
record_source_cleanup_attempt run_id id receipts claim is_cancelling now s =
    update run_id (record_attempt id receipts is_cancelling now) claim s

abbrev pub not_authorized : String → Bool → AppError
not_authorized message retryable = record {
  code = source_cleanup_pending;
  message = message;
  http_status = 400;
  retryable = retryable;
}

unfoldable pub target_for : Storage → String → ℕ → DocumentSource → String → Result CleanupTarget
target_for storage run_id index source id =
    let unauthorized = err (
      not_authorized "The cleanup watchdog rejected an unauthorized storage resource identifier."
        false) in
    if text_eq id (staged_resource run_id index)
    then ok (stage_target storage run_id index)
    else elim source [
      | url _ ↦ unauthorized
      | upload blob_path _ _ _ ↦
          if text_eq id (blob_resource blob_path)
          then ok (blob_target storage blob_path)
          else unauthorized
    ]

unfoldable pub targets_for :
    Storage → String → ℕ → DocumentSource → List String → Result (List CleanupTarget)
targets_for storage run_id index source [] = ok []
targets_for storage run_id index source (id ∷ ids) = do
  t ← target_for storage run_id index source id
  ts ← targets_for storage run_id index source ids
  ok (t ∷ ts)

unfoldable pub cleanup_targets_for_watchdog :
    Storage → RunRecord → SourceCleanupWatchdog → Result (List CleanupTarget)
cleanup_targets_for_watchdog storage r w =
    let removed = err (
      not_authorized
        "The cleanup watchdog cannot authorize a storage target after input metadata was removed."
        true) in
    elim r.input [
      | none ↦ removed
      | some input ↦ elim (get_elem? input.documents w.document_index) [
        | none ↦ removed
        | some document ↦ targets_for storage r.id w.document_index document.source w.resource_ids
      ]
    ]

pub data Outcome : Type 0 where
  missing waiting_for_capture waiting_for_worker still_pending complete was_cancelled : Outcome

abbrev pub by_status : Bool → Outcome
by_status true = complete
by_status false = waiting_for_worker

abbrev pub is_confirmed_in : RunRecord → String → Bool
is_confirmed_in r id = elim (watchdog_by_id r id) [
  | none ↦ false
  | some w ↦ is_some w.cleanup_confirmed_at
]

-- `while_deleting` and `while_closing` are what other tasks do to the store while the deletions of
-- the watchdog and those of the final cleanup are awaited.
module _ (storage : Storage) (sha256_hex : String → String)
    (while_deleting while_closing : InMemoryRunStore → InMemoryRunStore) where
  -- The run is failed if its worker's lease has run out; `is_done` tells a finished run.
  unfoldable pub finalize :
      (RunRecord → Bool)
      → RunRecord
      → Instant
      → InMemoryRunStore
      → InMemoryRunStore × Result Outcome
  finalize is_done r now s =
      let (s', answer) = cleanup_run storage sha256_hex while_closing r.id to_failed now true s in
      (s', answer >>= λ u. ok (by_status (is_done u)))

  abbrev pub is_failed_or_expired : RunRecord → Bool
  is_failed_or_expired r = has_status (failed ∷ expired ∷ []) r.status

  unfoldable pub attempt :
      RunRecord
      → SourceCleanupWatchdog
      → String
      → String
      → Instant
      → InMemoryRunStore
      → InMemoryRunStore × Result Outcome
  attempt r w run_id id now s = elim (cleanup_targets_for_watchdog storage r w) [
    | err e ↦ (s, err e)
    | ok targets ↦
        elim (record_source_cleanup_attempt run_id id (execute_cleanup targets now) none
          (is_none w.provider_result_captured_at) now (while_deleting s)) [
            | err e ↦ (while_deleting s, err e)
            | ok (s', u) ↦
                if not (is_confirmed_in u id)
                then (s', ok still_pending)
                else if is_lease_expired u now
                then finalize is_terminal u now s'
                else (s', ok (by_status (is_terminal u)))
          ]
  ]

  unfoldable pub watch :
      RunRecord
      → SourceCleanupWatchdog
      → String
      → String
      → Instant
      → InMemoryRunStore
      → InMemoryRunStore × Result Outcome
  watch r w run_id id now s =
      if is_some w.cleanup_confirmed_at
      then (if is_terminal r
          then (s, ok complete)
          else if is_lease_expired r now
          then finalize is_failed_or_expired r now s
          else (s, ok waiting_for_worker))
      else if is_none w.provider_call_started_at && is_terminal r
      then (s, ok was_cancelled)
      else if is_none w.provider_result_captured_at && not (leb_opt w.source_access_expires_at now)
      then (s, ok waiting_for_capture)
      else attempt r w run_id id now s

  unfoldable pub run_source_cleanup_watchdog :
      String → String → Instant → InMemoryRunStore → InMemoryRunStore × Result Outcome
  run_source_cleanup_watchdog run_id id now s = elim (get run_id s) [
    | none ↦ (s, ok missing)
    | some r ↦ elim (watchdog_by_id r id) [
      | none ↦ (s, ok missing)
      | some w ↦ watch r w run_id id now s
    ]
  ]

abbrev pub is_cleanup_confirmed_status : WatchdogStatus → Bool
is_cleanup_confirmed_status cleanup_confirmed = true
is_cleanup_confirmed_status _ = false

abbrev pub is_captured_clean : SourceCleanupWatchdog → Bool
is_captured_clean w =
    is_some w.provider_result_captured_at
    && is_some w.cleanup_confirmed_at
    && is_cleanup_confirmed_status w.status

unfoldable pub all_captured_source_watchdogs_clean : RunRecord → Bool
all_captured_source_watchdogs_clean r = all is_captured_clean r.source_cleanup_watchdogs

unfoldable pub application_cleanup_is_releasable : RunRecord → Bool
application_cleanup_is_releasable r = cleanup_gate r && all_captured_source_watchdogs_clean r

-- The source repeats the code of `providerSourceCleanupAuthorized` under this name.
unfoldable pub source_cleanup_authorized : RunRecord → String → Instant → Bool
source_cleanup_authorized r id now = provider_source_cleanup_authorized r id now
