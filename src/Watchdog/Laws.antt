-- ===== src/Watchdog/Laws.antt =====
-- What a paid parse commits to, and when an attempt confirms that the copies are gone.
use monidhackson.Base.Members.{IsIn}
use monidhackson.Watchdog.Receipts.{latest, merge_cleanup_receipts_iff}
use monidhackson.Base.{
  ℕ, ◌+◌, ◌*◌, ◌-◌, ◌≤◌, ◌≡◌, ◌≢◌, ◌↔◌, ◌⊎◌, inl, inr, refl, ap, subst, String, Bool, true, false,
  List, [], ◌∷◌, ◌++◌, Option, some, is_some, map, all, any, find, All, Any, Bool-cases, ltb, arith,
}
use mathlib.Core.Bool.{and-eq-true_iff}
use monidhackson.Errors.{ok, ◌>>=◌, >>=-eq-ok, ok-injective}
use monidhackson.Runs.Types.{
  RunRecord, Instant, SourceCleanupWatchdog, CleanupReceipt, cleanup_confirmed,
}
use monidhackson.Cleanup.Laws.{Deletes, all-All, cleanup_gate_iff}
use monidhackson.Ledger.{committed, is_attempt, assert_durable_commitment_fits}
use monidhackson.Ledger.Laws.{IsBalanced, Once-append, fresh_id, assert_fits}
use monidhackson.Watchdog.{is_registered_as, watchdog_by_id, mutate_at, update_watchdog}
use monidhackson.Watchdog.Calls.{
  Plan, started_monid_attempts, pending_parse, was_scheduled, started_watchdog, charged, start_call,
}
use monidhackson.Watchdog.Runner.{
  merge_cleanup_receipts, all_deleted, attempted_watchdog, record_attempt, since, with_receipts,
  is_captured_clean, all_captured_source_watchdogs_clean, application_cleanup_is_releasable,
}

-- What holds of a run whose paid parse has just been recorded.
pub record IsCommitted (id : String) (reserved : ℕ) (plan : Plan) (r u : RunRecord) : Type 0 where
  pub balanced : IsBalanced u
  pub new : any (is_attempt id) r.costs ≡ false
  pub recorded : u.costs ≡ r.costs ++ pending_parse id reserved ∷ []
  pub scheduled : was_scheduled (watchdog_by_id r id) ≡ true
  pub planned : started_monid_attempts u.costs ≤ plan.total_planned_monid_attempts
  pub covered :
      u.cost_micro_usd
        + ((plan.total_planned_monid_attempts - started_monid_attempts u.costs) * reserved
            + plan.remaining_openai_commitment_micro_usd)
      ≤ u.reserved_micro_usd

pub update_watchdog-value :
    (r : RunRecord) (id : String) (mutate : SourceCleanupWatchdog → SourceCleanupWatchdog)
    (u : RunRecord)
    → update_watchdog r id mutate ≡ ok u
    → record r { source_cleanup_watchdogs = map (mutate_at id mutate) r.source_cleanup_watchdogs }
      ≡ u
unfolding update_watchdog
update_watchdog-value r id mutate u h =
    elim (Bool-cases (any (is_registered_as id) r.source_cleanup_watchdogs)) [
      | inl e ↦ ok-injective (rw (e, update_watchdog) at h)
      | inr e ↦ cc (rw (e, update_watchdog) at h)
    ]

charged-IsCommitted :
    (id : String) (reserved : ℕ) (plan : Plan) (access_expires_at now : Instant) (r v : RunRecord)
    → IsBalanced r
    → was_scheduled (watchdog_by_id r id) ≡ true
    → any (is_attempt id) r.costs ≡ false
    → let costs = r.costs ++ pending_parse id reserved ∷ [] in
      started_monid_attempts costs ≤ plan.total_planned_monid_attempts
      → committed costs
          + ((plan.total_planned_monid_attempts - started_monid_attempts costs) * reserved
              + plan.remaining_openai_commitment_micro_usd)
        ≤ r.reserved_micro_usd
      → update_watchdog r id (started_watchdog access_expires_at now) ≡ ok v
      → IsCommitted id reserved plan r (charged id reserved now r v)
charged-IsCommitted id reserved plan access_expires_at now r v b ready new within fits updated =
    subst (λ x. IsCommitted id reserved plan r (charged id reserved now r x))
      (update_watchdog-value r id (started_watchdog access_expires_at now) v updated)
      (record {
        balanced = record {
          total = refl;
          once =
              Once-append r.costs (pending_parse id reserved)
                (fresh_id id (pending_parse id reserved) r.costs refl new) b.once;
        };
        new = new;
        recorded = refl;
        scheduled = ready;
        planned = within;
        covered = fits;
      })

-- A paid parse is recorded only once its watchdog is scheduled, and only as a new attempt. The
-- ledger stays balanced; the attempts that have started are within the plan; and what is recorded,
-- the reserve of every planned parse still to start, and the commitment to the model fit together
-- into the reservation of the run.
pub start_call-IsCommitted :
    (id : String) (reserved : ℕ) (plan : Plan) (access_expires_at now : Instant) (r u : RunRecord)
    → IsBalanced r
    → start_call id reserved plan access_expires_at now r ≡ ok u
    → IsCommitted id reserved plan r u
unfolding start_call
start_call-IsCommitted id reserved plan access_expires_at now r u b h =
    let costs = r.costs ++ pending_parse id reserved ∷ [] in
    elim (Bool-cases (was_scheduled (watchdog_by_id r id))) [
      | inr e ↦ cc (rw (e, start_call) at h)
      | inl ready ↦ elim (Bool-cases (any (is_attempt id) r.costs)) [
        | inl e ↦ cc (rw (ready, e, start_call) at h)
        | inr new ↦
            elim (Bool-cases
              (ltb plan.total_planned_monid_attempts (started_monid_attempts costs))) [
                | inl e ↦ cc (rw (ready, new, e, start_call) at h)
                | inr within ↦
                    let h' = rw (ready, new, within, start_call) at h in
                    let (_, checked, rest) =
                      >>=-eq-ok
                        (λ _. update_watchdog r id (started_watchdog access_expires_at now) >>= λ v.
                          ok (charged id reserved now r v))
                        (assert_durable_commitment_fits (committed costs)
                          ((plan.total_planned_monid_attempts - started_monid_attempts costs)
                              * reserved
                            + plan.remaining_openai_commitment_micro_usd)
                          r.reserved_micro_usd plan.maximum_run_cost_micro_usd)
                        h' in
                    let (v, updated, made) =
                      >>=-eq-ok (λ v. ok (charged id reserved now r v))
                        (update_watchdog r id (started_watchdog access_expires_at now)) rest in
                    subst (IsCommitted id reserved plan r) (ok-injective made) (
                      charged-IsCommitted id reserved plan access_expires_at now r v b ready new
                        (ground arith) (assert_fits _ _ _ _ checked).0 updated)
              ]
      ]
    ]

pub find-mutate :
    (id : String) (mutate : SourceCleanupWatchdog → SourceCleanupWatchdog)
    (ws : List SourceCleanupWatchdog) (w : SourceCleanupWatchdog)
    → ((v : SourceCleanupWatchdog) → (mutate v).registration_id ≡ v.registration_id)
    → find (is_registered_as id) ws ≡ some w
    → find (is_registered_as id) (map (mutate_at id mutate) ws) ≡ some (mutate w)
find-mutate id mutate [] w keeps h = cc
find-mutate id mutate (x ∷ xs) w keeps h = elim (Bool-cases (is_registered_as id x)) [
  | inl e ↦
      let e' : is_registered_as id (mutate x) ≡ true = rw (keeps x) e in
      rw (e, e') (ap (λ v. some (mutate v)) (some-injective (rw e at h)))
  | inr e ↦ rw (e, e) (find-mutate id mutate xs w keeps (rw e at h))
]
  where
    some-injective : {a b : SourceCleanupWatchdog} → some a ≡ some b → a ≡ b
    some-injective q = cc

-- After an attempt: which receipts the run has, old ones and new ones, and when the watchdog's
-- copies count as confirmed gone.
abbrev pub Confirms :
    String → List CleanupReceipt → List CleanupReceipt → SourceCleanupWatchdog → RunRecord → Type 0
Confirms id old fresh w u =
    ((d : CleanupReceipt)
      → IsIn d u.cleanup_receipts ↔ (latest d.receipt_id (old ++ fresh) ≡ some d))
    × (v : SourceCleanupWatchdog) × (watchdog_by_id u id ≡ some v)
    × (v.cleanup_attempts ≡ w.cleanup_attempts + 1)
    × (v.provider_result_captured_at ≡ w.provider_result_captured_at)
    × ((is_some v.cleanup_confirmed_at ≡ true) ↔ (
        (is_some w.cleanup_confirmed_at ≡ true)
        ⊎ All (λ res. Any (Deletes res) u.cleanup_receipts) w.resource_ids))

since_iff :
    (b : Bool) (known : Option Instant) (now : Instant)
    → (is_some (since b known now) ≡ true) ↔ ((is_some known ≡ true) ⊎ (b ≡ true))
since_iff true known now = (λ h. inr refl, λ h. refl)
since_iff false known now = (λ h. inl h, λ h. ground arith)

confirmed_iff :
    {A : Type 0} (b : Bool) (known : Option Instant) (now : Instant)
    → (b ≡ true) ↔ A
    → (is_some (since b known now) ≡ true) ↔ ((is_some known ≡ true) ⊎ A)
confirmed_iff b known now gone = (
  λ h. elim ((since_iff b known now).0 h) [ inl old ↦ inl old | inr new ↦ inr (gone.0 new) ],
  λ h. elim h [
    | inl old ↦ (since_iff b known now).1 (inl old)
    | inr new ↦ (since_iff b known now).1 (inr (gone.1 new))
  ],
)

-- After an attempt the receipts of the run are the old ones followed by the fresh ones, but for those
-- that a later one with the same id replaces. The attempt counts itself on its watchdog, and
-- confirms the deletion exactly when it was confirmed before or every resource of the watchdog has
-- a receipt among these that the application deleted it.
pub record_attempt-Confirms :
    (id : String) (receipts : List CleanupReceipt) (is_cancelling : Bool) (now : Instant)
    (r u : RunRecord) (w : SourceCleanupWatchdog)
    → watchdog_by_id r id ≡ some w
    → record_attempt id receipts is_cancelling now r ≡ ok u
    → Confirms id r.cleanup_receipts receipts w u
unfolding record_attempt attempted_watchdog
record_attempt-Confirms id receipts is_cancelling now r u w found h =
    let known = merge_cleanup_receipts r.cleanup_receipts receipts in
    let mutate = attempted_watchdog is_cancelling (all_deleted w.resource_ids known) now in
    let (v, updated, made) =
      >>=-eq-ok (λ v. ok (with_receipts known now v)) (update_watchdog r id mutate)
        (rw (found, record_attempt) at h) in
    subst (Confirms id r.cleanup_receipts receipts w) (ok-injective made) (
      subst (λ x. Confirms id r.cleanup_receipts receipts w (with_receipts known now x))
        (update_watchdog-value r id mutate v updated)
        (
          (λ d. merge_cleanup_receipts_iff d r.cleanup_receipts receipts),
          mutate w,
          find-mutate id mutate r.source_cleanup_watchdogs w (λ x. refl) found,
          refl,
          refl,
          confirmed_iff (all_deleted w.resource_ids known) w.cleanup_confirmed_at now
              (all-All w.resource_ids known),
        ))

-- A watchdog whose result was captured and whose copies are confirmed gone.
abbrev pub IsCaptured : SourceCleanupWatchdog → Type 0
IsCaptured w =
    (is_some w.provider_result_captured_at ≡ true)
    × (is_some w.cleanup_confirmed_at ≡ true)
    × (w.status ≡ cleanup_confirmed)

clean_iff : (w : SourceCleanupWatchdog) → (is_captured_clean w ≡ true) ↔ IsCaptured w
clean_iff w = (λ h. (ground arith, ground arith, ground arith), λ h. ground arith)

all-All-IsCaptured :
    (ws : List SourceCleanupWatchdog) → (all is_captured_clean ws ≡ true) ↔ All IsCaptured ws
all-All-IsCaptured [] = (λ h. tt, λ h. refl)
all-All-IsCaptured (w ∷ ws) = (
  λ h. ((clean_iff w).0 (ground arith), (all-All-IsCaptured ws).0 (ground arith)),
  λ h. ground (arith, (clean_iff w).1 h.0, (all-All-IsCaptured ws).1 h.1),
)

-- The copies of a run count as released exactly when the gate's condition holds, that every
-- expected resource was deleted by the application, and every watchdog has seen its result captured
-- and its copies confirmed gone; a cancelled one does not do.
pub releasable_iff :
    (r : RunRecord)
    → (application_cleanup_is_releasable r ≡ true) ↔ (
        (r.cleanup_expected_resource_ids ≢ [])
        × All (λ id. Any (Deletes id) r.cleanup_receipts) r.cleanup_expected_resource_ids
        × All IsCaptured r.source_cleanup_watchdogs)
unfolding application_cleanup_is_releasable all_captured_source_watchdogs_clean
releasable_iff r = (
  λ h.
      let (gate, clean) = (and-eq-true_iff _ _).0 h in
      let (some_expected, gone) = (cleanup_gate_iff r).0 gate in
      (some_expected, gone, (all-All-IsCaptured r.source_cleanup_watchdogs).0 clean),
  λ (a, b, c).
      (and-eq-true_iff _ _).1
        ((cleanup_gate_iff r).1 (a, b), (all-All-IsCaptured r.source_cleanup_watchdogs).1 c),
)
