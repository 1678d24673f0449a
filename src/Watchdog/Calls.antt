-- ===== src/Watchdog/Calls.antt =====
-- src/lib/runs/source-cleanup-watchdog.ts: the start of a paid parse and the capture of its result,
-- both recorded on the watchdog and in the ledger at once.
use Prim.Native.Char.{code}
use monidhackson.Base.{
  ℕ, zero, suc, ◌+◌, ◌*◌, ◌-◌, String, Bool, true, false, not, ◌&&◌, ◌||◌, List, [], ◌∷◌, ◌++◌,
  Option, none, some, is_some, map, any, length, get_or, or_else, leb, ltb, if◌then◌else◌,
}
use monidhackson.Errors.{Result, ok, err, ◌>>=◌, ◌>>◌}
use monidhackson.Contracts.{CostEvent, CostProvider, monid, pending}
use monidhackson.Runs.Types.{
  RunRecord, Instant, SourceCleanupWatchdog, WatchdogStatus, armed, provider_call_started, captured,
  cleanup_confirmed, is_pending,
}
use monidhackson.Runs.Store.{InMemoryRunStore, Claim, update, truthy}
use monidhackson.Ledger.{
  committed, assert_durable_commitment_fits, is_attempt, replace_attempt, max_safe_integer,
}
use monidhackson.Watchdog.{refused, invalid_plan, watchdog_by_id, update_watchdog, unique}

-- What the caller plans to spend on a run.
pub record Plan : Type 0 where
  pub reserved_micro_usd : Option ℕ
  pub total_planned_monid_attempts : ℕ
  pub remaining_openai_commitment_micro_usd : ℕ
  pub maximum_run_cost_micro_usd : ℕ

abbrev pub is_monid : CostProvider → Bool
is_monid monid = true
is_monid _ = false

unfoldable pub monid_attempt_ids : List CostEvent → List String
monid_attempt_ids [] = []
monid_attempt_ids (e ∷ es) =
    let rest = monid_attempt_ids es in
    elim (truthy e.attempt_id) [
      | none ↦ rest
      | some id ↦ if is_monid e.provider then id ∷ rest else rest
    ]

unfoldable pub started_monid_attempts : List CostEvent → ℕ
started_monid_attempts costs = length (unique (monid_attempt_ids costs))

abbrev pub pending_parse : String → ℕ → CostEvent
pending_parse id reserved = record {
  attempt_id = some id;
  provider = monid;
  operation = "context_dev_parse";
  status = pending;
  actual_micro_usd = none;
  estimated_micro_usd = some reserved;
  latency_ms = 0;
  retry_of = none;
}

abbrev pub was_scheduled : Option SourceCleanupWatchdog → Bool
was_scheduled none = false
was_scheduled (some w) = is_some w.watchdog_scheduled_at

abbrev pub started_status : WatchdogStatus → WatchdogStatus
started_status armed = provider_call_started
started_status s = s

abbrev pub started_watchdog : Instant → Instant → SourceCleanupWatchdog → SourceCleanupWatchdog
started_watchdog access_expires_at now w = record w {
  status = started_status w.status;
  provider_call_started_at = some (get_or w.provider_call_started_at now);
  source_access_expires_at = some (get_or w.source_access_expires_at access_expires_at);
}

-- The record `u` with the pending attempt added to the costs of `r`.
abbrev pub charged : String → ℕ → Instant → RunRecord → RunRecord → RunRecord
charged id reserved now r u = record u {
  paid_provider_attempt_started_at = some (get_or r.paid_provider_attempt_started_at now);
  costs = r.costs ++ pending_parse id reserved ∷ [];
  cost_micro_usd = committed (r.costs ++ pending_parse id reserved ∷ []);
  updated_at = now;
}

-- The mutation of `markSourceProviderCallStarted`.
unfoldable pub start_call : String → ℕ → Plan → Instant → Instant → RunRecord → Result RunRecord
start_call id reserved plan access_expires_at now r =
    if not (was_scheduled (watchdog_by_id r id))
    then err (
        refused "The paid provider call cannot start before its cleanup watchdog is scheduled." 400)
    else if any (is_attempt id) r.costs
    then err (refused "The paid Monid attempt was already recorded; replay was blocked." 409)
    else let costs = r.costs ++ pending_parse id reserved ∷ [] in
      let started = started_monid_attempts costs in
      if ltb plan.total_planned_monid_attempts started
      then err (invalid_plan "The paid Monid attempt plan was exceeded.")
      else assert_durable_commitment_fits (committed costs)
          ((plan.total_planned_monid_attempts - started) * reserved
            + plan.remaining_openai_commitment_micro_usd)
          r.reserved_micro_usd plan.maximum_run_cost_micro_usd
        >> (update_watchdog r id (started_watchdog access_expires_at now) >>= λ u.
            ok (charged id reserved now r u))

unfoldable pub mark_source_provider_call_started :
    String
    → String
    → Plan
    → Instant
    → Claim
    → Instant
    → InMemoryRunStore
    → Result (InMemoryRunStore × RunRecord)
mark_source_provider_call_started run_id id plan access_expires_at claim now s =
    elim plan.reserved_micro_usd [
      | none ↦ err (invalid_plan "The provider attempt reserve is invalid.")
      | some reserved ↦
          if ltb max_safe_integer reserved
          then err (invalid_plan "The provider attempt reserve is invalid.")
          else if leb access_expires_at now
          then err (
              refused "The parser source-access window must expire after the provider call starts."
                400)
          else if ltb max_safe_integer plan.total_planned_monid_attempts
              || ltb plan.total_planned_monid_attempts 1
          then err (invalid_plan "The planned Monid attempt count is invalid.")
          else update run_id (start_call id reserved plan access_expires_at now) (some claim) s
    ]

-- /^[a-f0-9]{64}$/i
abbrev pub is_hex : ℕ → Bool
is_hex c = (leb 48 c && leb c 57) || (leb 97 c && leb c 102) || (leb 65 c && leb c 70)

unfoldable pub is_hex_of : ℕ → String → Bool
is_hex_of zero String.[] = true
is_hex_of (suc n) (String.◌∷◌ c s) = is_hex (code c) && is_hex_of n s
is_hex_of _ _ = false

-- What is known of a finished call. The source tells a missing attempt id from a `null` one.
pub record Capture : Type 0 where
  pub provider_result_id_sha256 : Option String
  pub parsed_resource_id : Option String
  pub cost_event : Option CostEvent
  pub is_attempt_id_given : Bool

abbrev pub call_started : Option SourceCleanupWatchdog → Bool
call_started none = false
call_started (some w) = is_some w.provider_call_started_at

abbrev pub is_pending_attempt : String → CostEvent → Bool
is_pending_attempt id e = is_attempt id e && is_pending e.status

-- The costs once the outcome, if one is given, has replaced the pending attempt.
unfoldable pub settled_costs : String → Capture → List CostEvent → Result (List CostEvent)
settled_costs id c costs = elim c.cost_event [
  | none ↦ ok costs
  | some event ↦
      if c.is_attempt_id_given && not (is_attempt id event)
      then err (refused "The provider cost event does not match its paid attempt." 400)
      else if not (any (is_pending_attempt id) costs)
      then err (refused "The provider outcome cannot settle an unrecorded paid attempt." 400)
      else ok (map (replace_attempt id event) costs)
]

abbrev pub with_resource : List String → Option String → List String
with_resource ids none = ids
with_resource ids (some id) = unique (ids ++ id ∷ [])

-- The mutation of `markSourceProviderResultCaptured`.
unfoldable pub capture_result : String → Capture → Instant → RunRecord → Result RunRecord
capture_result id c now r =
    if not (call_started (watchdog_by_id r id))
    then err (refused "A provider result cannot be captured before its paid call is recorded." 400)
    else do
      costs ← settled_costs id c r.costs
      u ← update_watchdog r id (λ w. record w {
        status = if is_some w.cleanup_confirmed_at then cleanup_confirmed else captured;
        provider_result_captured_at = some (get_or w.provider_result_captured_at now);
        provider_result_id_sha256 = or_else w.provider_result_id_sha256 c.provider_result_id_sha256;
      })
      ok (record u {
        cleanup_expected_resource_ids =
            with_resource r.cleanup_expected_resource_ids (truthy c.parsed_resource_id);
        costs = costs;
        cost_micro_usd = committed costs;
        updated_at = now;
      })

abbrev pub is_digest : Option String → Bool
is_digest none = true
is_digest (some text) = is_hex_of 64 text

unfoldable pub mark_source_provider_result_captured :
    String
    → String
    → Capture
    → Claim
    → Instant
    → InMemoryRunStore
    → Result (InMemoryRunStore × RunRecord)
mark_source_provider_result_captured run_id id c claim now s =
    if not (is_digest c.provider_result_id_sha256)
    then err (refused "The provider result identifier must be stored only as a SHA-256 digest." 400)
    else update run_id (capture_result id c now) (some claim) s
