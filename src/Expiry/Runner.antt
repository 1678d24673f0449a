-- ===== src/Expiry/Runner.antt =====
-- src/lib/runs/expiry.ts: the two updates of `cleanupRun`, the whole of it, and the sweep over the
-- due runs.
use monidhackson.Runs.Store.Listing.{bounded_limit, list_cleanup_candidates}
use monidhackson.Base.{
  values, ℕ, ◌+◌, String, Bool, true, false, ◌&&◌, ◌||◌, List, [], ◌∷◌, ◌++◌, Option, none, some,
  is_some, filter, all, any, get_or, text_eq, starts_with, min, if◌then◌else◌,
}
use monidhackson.Errors.{Result, ok, err, ◌>>=◌}
use monidhackson.Contracts.{cleanup_pending, expired, status_eq}
use monidhackson.Runs.Types.{RunRecord, Instant, Terminal, to_failed, to_expired, CleanupReceipt}
use monidhackson.Runs.Transition.{transition_run}
use monidhackson.Runs.Store.Record.{processing_lease_ms, leb_opt}
use monidhackson.Runs.Store.{InMemoryRunStore, update, update_if_processing_lease_expired, remove}
use monidhackson.Cleanup.{execute_cleanup, cleanup_gate_of, is_app_deleted}
use monidhackson.Expiry.{
  Storage, terminal_winner, terminal_status, quiescence_reached, released_from, cleanup_targets,
  scrub_for_audit,
}

abbrev pub cleanup_batch_size : ℕ
cleanup_batch_size = 100

-- The moment from which the memory of a revoked worker counts as gone.
unfoldable pub quiescence_deadline : RunRecord → Instant → Option Instant
quiescence_deadline r now =
    if is_some r.processing_lease_id
    then some (get_or r.processing_lease_expires_at (now + processing_lease_ms))
    else r.processing_lease_expires_at

abbrev pub earlier_iso : Instant → Option Instant → Instant
earlier_iso left none = left
earlier_iso left (some right) = min left right

unfoldable pub pending_record : RunRecord → Instant → Result RunRecord
pending_record r now =
    if status_eq r.status cleanup_pending then ok r else transition_run r cleanup_pending now

unfoldable pub revoked_record : Terminal → Instant → RunRecord → RunRecord → RunRecord
unfolding quiescence_deadline
revoked_record terminal now r pending = record pending {
  is_cleanup_confirmed = false;
  result = none;
  citation_receipts = [];
  terminal_after_cleanup = some (terminal_winner r.terminal_after_cleanup terminal);
  admission_lease_id = none;
  admission_lease_expires_at = none;
  processing_lease_id = none;
  processing_lease_expires_at = quiescence_deadline r now;
  processing_fence =
      if is_some r.processing_lease_id then r.processing_fence + 1 else r.processing_fence;
  expires_at = earlier_iso r.expires_at (quiescence_deadline r now);
  updated_at = now;
}

-- The first update: the worker loses its lease and its fence.
unfoldable pub revoke : Terminal → Instant → RunRecord → Result RunRecord
revoke terminal now r =
    if status_eq r.status expired
    then ok r
    else pending_record r now >>= λ pending. ok (revoked_record terminal now r pending)

abbrev pub is_durable : String → Bool
is_durable id = starts_with id "blob:" || starts_with id "staged:"

abbrev pub deletes_app : String → CleanupReceipt → Bool
deletes_app id c = text_eq c.resource_id id && is_app_deleted c

-- A staged copy must have been deleted by this very cleanup, any other by some cleanup.
abbrev pub is_reconfirmed : List CleanupReceipt → List CleanupReceipt → String → Bool
is_reconfirmed fresh known id =
    any (deletes_app id) (if starts_with id "staged:" then fresh else known)

abbrev pub some_and_all : (String → Bool) → List String → Bool
some_and_all p [] = false
some_and_all p (x ∷ xs) = all p (x ∷ xs)

-- The receipts after the cleanup: those known, the fresh ones, and those for the released memory.
unfoldable pub receipts_after :
    Storage → Instant → RunRecord → List CleanupReceipt → List CleanupReceipt
receipts_after storage now r fresh =
    if quiescence_reached r now
    then (r.cleanup_receipts ++ fresh)
      ++ released_from storage now (r.cleanup_receipts ++ fresh) r.cleanup_expected_resource_ids
    else r.cleanup_receipts ++ fresh

unfoldable pub is_confirmed : Instant → RunRecord → List CleanupReceipt → List CleanupReceipt → Bool
is_confirmed now r fresh known =
    quiescence_reached r now
    && some_and_all (is_reconfirmed fresh known) (filter is_durable r.cleanup_expected_resource_ids)
    && cleanup_gate_of r.cleanup_expected_resource_ids known

unfoldable pub unconfirmed_record : Terminal → Instant → List CleanupReceipt → RunRecord → RunRecord
unconfirmed_record winner now known pending = record pending {
  cleanup_receipts = known;
  is_cleanup_confirmed = false;
  result = none;
  citation_receipts = [];
  terminal_after_cleanup = some winner;
  processing_lease_id = none;
  updated_at = now;
}

unfoldable pub cleaned_record : Instant → List CleanupReceipt → RunRecord → RunRecord
cleaned_record now known completed = record completed {
  cleanup_receipts = known;
  is_cleanup_confirmed = true;
  terminal_after_cleanup = none;
  result = none;
  citation_receipts = [];
  processing_lease_id = none;
  processing_lease_expires_at = none;
  updated_at = now;
}

abbrev pub is_to_expired : Terminal → Bool
is_to_expired to_expired = true
is_to_expired to_failed = false

-- The end of the second update, by what the receipts confirm.
unfoldable pub close :
    (String → String)
    → Terminal
    → Instant
    → List CleanupReceipt
    → Bool
    → RunRecord
    → Result RunRecord
close sha256_hex winner now known false r =
    pending_record r now >>= λ pending. ok (unconfirmed_record winner now known pending)
close sha256_hex winner now known true r =
    transition_run r (terminal_status winner) now >>= λ completed. ok (
      if is_to_expired winner
      then scrub_for_audit sha256_hex (cleaned_record now known completed) now
      else cleaned_record now known completed)

-- The second update: the run is closed if every copy is confirmed gone.
unfoldable pub finish :
    Storage
    → (String → String)
    → Terminal
    → Instant
    → List CleanupReceipt
    → RunRecord
    → Result RunRecord
finish storage sha256_hex terminal now fresh r =
    if status_eq r.status expired
    then ok r
    else let known = receipts_after storage now r fresh in
      close sha256_hex (terminal_winner r.terminal_after_cleanup terminal) now known
        (is_confirmed now r fresh known) r

module _ (storage : Storage) (sha256_hex : String → String) where
  -- From the revoked record on. `meanwhile` is what other tasks do to the store while the
  -- deletions are awaited.
  unfoldable pub delete_and_close :
      (InMemoryRunStore → InMemoryRunStore)
      → String
      → Terminal
      → Instant
      → RunRecord
      → InMemoryRunStore
      → InMemoryRunStore × Result RunRecord
  delete_and_close meanwhile id terminal now revoked s =
      if status_eq revoked.status expired
      then (s, ok revoked)
      else let fresh = execute_cleanup (cleanup_targets storage revoked now) now in
        elim (update id (finish storage sha256_hex terminal now fresh) none (meanwhile s)) [
          | err e ↦ (meanwhile s, err e)
          | ok (s', r) ↦ (s', ok r)
        ]

  unfoldable pub cleanup_run :
      (InMemoryRunStore → InMemoryRunStore)
      → String
      → Terminal
      → Instant
      → Bool
      → InMemoryRunStore
      → InMemoryRunStore × Result RunRecord
  cleanup_run meanwhile id terminal now true s =
      elim (update_if_processing_lease_expired id now (revoke terminal now) s) [
        | err e ↦ (s, err e)
        | ok (s', applied, revoked) ↦
            if applied
            then delete_and_close meanwhile id terminal now revoked s'
            else (s', ok revoked)
      ]
  cleanup_run meanwhile id terminal now false s = elim (update id (revoke terminal now) none s) [
    | err e ↦ (s, err e)
    | ok (s', revoked) ↦ delete_and_close meanwhile id terminal now revoked s'
  ]

  abbrev pub requested_terminal : RunRecord → Terminal
  requested_terminal r =
      if status_eq r.status cleanup_pending
      then get_or r.terminal_after_cleanup to_expired
      else to_expired

  -- One round of the loop of `expireDueRuns`. An exception ends the sweep.
  unfoldable pub sweep_one :
      Instant → RunRecord → InMemoryRunStore → InMemoryRunStore × Result (List RunRecord)
  sweep_one now r s =
      if status_eq r.status expired
      then (if leb_opt r.audit_expires_at now then remove r.id s else s, ok [])
      else let (s', answer) = cleanup_run (λ t. t) r.id (requested_terminal r) now false s in
        (s', answer >>= λ u. ok (u ∷ []))

  unfoldable pub sweep :
      Instant → List RunRecord → InMemoryRunStore → InMemoryRunStore × Result (List RunRecord)
  sweep now [] s = (s, ok [])
  sweep now (r ∷ rs) s =
      let (s', answer) = sweep_one now r s in
      let (s'', rest) = sweep now rs s' in
      elim answer [ err e ↦ (s', err e) | ok us ↦ (s'', rest >>= λ more. ok (us ++ more)) ]

  -- The due runs are listed once; the collation of the listing is an argument.
  unfoldable pub expire_due_runs :
      (String → String → Bool)
      → Instant
      → ℕ
      → InMemoryRunStore
      → InMemoryRunStore × Result (List RunRecord)
  expire_due_runs id_before now limit s =
      sweep now
        (list_cleanup_candidates id_before now (bounded_limit limit cleanup_batch_size)
          (values s.records))
        s
