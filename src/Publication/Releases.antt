-- ===== src/Publication/Releases.antt =====
-- What a result that is published rests on.
use monidhackson.Base.{
  ◌≡◌, refl, sym, ap, subst, ◌∙◌, inl, inr, String, Bool, true, false, not, List, Option, none,
  some, lookup, if◌then◌else◌, Bool-cases, Option-cases,
}
use monidhackson.Errors.{AppError, Result, ok, err, >>=-eq-ok, ok-injective, Result-cases}
use monidhackson.Runs.Types.{RunRecord, Instant, CleanupReceipt}
use monidhackson.Runs.Transition.{transition_run}
use monidhackson.Runs.Store.{InMemoryRunStore, Claim, is_stale, update}
use monidhackson.Runs.Store.Opening.{update-eq-ok}
use monidhackson.Cleanup.{CleanupTarget, execute_cleanup, cleanup_gate}
use monidhackson.Expiry.Closing.{entered_status}
use monidhackson.Watchdog.Runner.{
  all_captured_source_watchdogs_clean, application_cleanup_is_releasable,
}
use monidhackson.Budget.{BudgetConfig, Reservations, settle}
use monidhackson.Publication.{
  Ledgers, Materialized, Deadline, before_settlement, after_settlement,
  terminal_status_for_analysis, with_last_receipts, withheld, published, publish,
  settle_and_publish, withhold, finalize, decide_release, commit_result,
}

pub same_answer {ℓ κ μ} :
    {A : Type ℓ} {B : Type κ} {C : Type μ} (a a' : A) (b b' : B) (x y : C)
    → ◌≡◌ {A = (A × B) × Result C} ((a, b), ok x) ((a', b'), ok y)
    → (b ≡ b') × (x ≡ y)
same_answer a a' b b' x y h = (ap (λ z. z.0.1) h, ok-injective (ap (λ z. z.1) h))

pub refused_answer {ℓ κ} :
    {A : Type ℓ} {C : Type κ} (a : A) (e : AppError) (a' : A) (y : C)
    → ¬ (◌≡◌ {A = A × Result C} (a, err e) (a', ok y))
refused_answer a e a' y h = let wrong = ap (λ z. z.1) h in cc

confirmed_branch {ℓ} :
    {A : Type ℓ} (b : Bool) (x y z : A) → b ≡ true → (if not b then x else y) ≡ z → y ≡ z
confirmed_branch b x y z is h = rw is at h

unconfirmed_branch {ℓ} :
    {A : Type ℓ} (b : Bool) (x y z : A) → b ≡ false → (if not b then x else y) ≡ z → x ≡ z
unconfirmed_branch b x y z is h = rw is at h

module _ (c : BudgetConfig) (is_late : Deadline → Bool) (heartbeat_failure : Option AppError)
    (meanwhile : InMemoryRunStore → InMemoryRunStore) (run_id : String) (claim : Claim)
    (now : Instant) where
  -- The claim is the current one of the stored run.
  abbrev pub IsCurrent : InMemoryRunStore → Type 0
  IsCurrent s =
      (r : RunRecord) × (lookup run_id s.records ≡ some r) × (is_stale r (some claim) ≡ false)

  -- What a published result rests on: the claim was current at both writes; the record of the
  -- first write has its copies released and its result dark, the heartbeat was healthy, and the
  -- cost settled in time.
  abbrev pub Released : List CleanupTarget → Materialized → Ledgers → Ledgers → RunRecord → Type 0
  Released targets a (s, m) (s', m') v =
      IsCurrent s
      × ((t : InMemoryRunStore) × (u : RunRecord) × (update run_id
              (with_last_receipts a (execute_cleanup targets now) now) (some claim) s
            ≡ ok (t, u))
          × (application_cleanup_is_releasable u ≡ true)
          × (u.result ≡ none)
          × IsCurrent (meanwhile t)
          × (update run_id (published a now) (some claim) (meanwhile t) ≡ ok (s', v))
          × (heartbeat_failure ≡ none)
          × (is_late after_settlement ≡ false)
          × (settle c run_id (some a.total_micro_usd) m ≡ ok m'))
      × (v.status ≡ terminal_status_for_analysis a.is_incomplete)
      × (v.result ≡ some a.result)
      × (v.processing_lease_id ≡ none)

  published-status :
      (a : Materialized) (r v : RunRecord)
      → published a now r ≡ ok v
      → (v.status ≡ terminal_status_for_analysis a.is_incomplete)
        × (v.result ≡ some a.result)
        × (v.processing_lease_id ≡ none)
  unfolding published
  published-status a r v h =
      let (t, e, made) =
        >>=-eq-ok _ (transition_run r (terminal_status_for_analysis a.is_incomplete) now) h in
      let is = ok-injective made in
      (
        ap (λ x. x.status) (sym is)
            ∙ entered_status r (terminal_status_for_analysis a.is_incomplete) now t e,
        ap (λ x. x.result) (sym is),
        ap (λ x. x.processing_lease_id) (sym is),
      )

  with_last_receipts-value :
      (a : Materialized) (fresh : List CleanupReceipt) (r u : RunRecord)
      → with_last_receipts a fresh now r ≡ ok u
      → (u.is_cleanup_confirmed ≡ application_cleanup_is_releasable u)
        × (u.result ≡ none)
        × (u.cost_micro_usd ≡ a.total_micro_usd)
  unfolding with_last_receipts application_cleanup_is_releasable all_captured_source_watchdogs_clean
      cleanup_gate
  with_last_receipts-value a fresh r u h =
      subst
        (λ x.
          (x.is_cleanup_confirmed ≡ application_cleanup_is_releasable x)
          × (x.result ≡ none)
          × (x.cost_micro_usd ≡ a.total_micro_usd))
        (ok-injective h) (refl, refl, refl)

  publish-ok :
      (a : Materialized) (s s' : InMemoryRunStore) (m m' : Reservations) (v : RunRecord)
      → publish c is_late heartbeat_failure meanwhile run_id claim now a (s, m) ≡ ((s', m'), ok v)
      → IsCurrent (meanwhile s)
        × (m ≡ m')
        × (update run_id (published a now) (some claim) (meanwhile s) ≡ ok (s', v))
        × ((r : RunRecord) × (published a now r ≡ ok v))
  unfolding publish
  publish-ok a s s' m m' v h =
      elim (Result-cases (update run_id (published a now) (some claim) (meanwhile s))) [
        | inr (e, thrown) ↦ absurd (refused_answer _ e _ v (rw (thrown, publish) at h))
        | inl ((t, w), done) ↦
            let answer = rw (done, publish) at h in
            let (same, is) = same_answer t s' m m' w v answer in
            let (r, e, current, made) =
              update-eq-ok run_id (published a now) (some claim) (meanwhile s) t w done in
            let stored = ap (λ z. z.0.0) answer in
            ((r, e, current), same, done ∙ (λ i. ok (stored i, is i)), (r, made ∙ ap ok is))
      ]

  settle_and_publish-ok :
      (a : Materialized) (u : RunRecord) (s s' : InMemoryRunStore) (m m' : Reservations)
      (v : RunRecord)
      → settle_and_publish c is_late heartbeat_failure meanwhile run_id claim now a u (s, m)
        ≡ ((s', m'), ok v)
      → IsCurrent (meanwhile s)
        × (is_late after_settlement ≡ false)
        × (settle c run_id (some u.cost_micro_usd) m ≡ ok m')
        × (update run_id (published a now) (some claim) (meanwhile s) ≡ ok (s', v))
        × ((r : RunRecord) × (published a now r ≡ ok v))
  unfolding settle_and_publish
  settle_and_publish-ok a u s s' m m' v h =
      elim (Result-cases (settle c run_id (some u.cost_micro_usd) m)) [
        | inr (e, thrown) ↦ absurd (refused_answer _ e _ v (rw (thrown, settle_and_publish) at h))
        | inl (x, settled) ↦
            let h' = rw (settled, settle_and_publish) at h in
            elim (Bool-cases (is_late after_settlement)) [
              | inl late ↦ absurd (refused_answer _ _ _ v (rw late at h'))
              | inr timely ↦
                  let (current, same, write, shown) = publish-ok a s s' x m' v (rw timely at h') in
                  (current, timely, settled ∙ ap ok same, write, shown)
            ]
      ]

  finalize-ok :
      (a : Materialized) (u : RunRecord) (s s' : InMemoryRunStore) (m m' : Reservations)
      (v : RunRecord)
      → finalize c is_late heartbeat_failure meanwhile run_id claim now a u (s, m)
        ≡ ((s', m'), ok v)
      → (heartbeat_failure ≡ none)
        × (settle_and_publish c is_late heartbeat_failure meanwhile run_id claim now a u (s, m)
            ≡ ((s', m'), ok v))
  unfolding finalize
  finalize-ok a u s s' m m' v h = elim (Option-cases heartbeat_failure) [
    | inr (e, failed) ↦ cc (rw (failed, finalize) at h)
    | inl healthy ↦ elim (Bool-cases (is_late before_settlement)) [
      | inl late ↦ cc (rw (late, finalize) at (rw (healthy, finalize) at h))
      | inr timely ↦ (healthy, rw (timely, finalize) at (rw (healthy, finalize) at h))
    ]
  ]

  withhold-not_ok {ℓ} :
      {P : Type ℓ} (s s' : InMemoryRunStore) (m m' : Reservations) (v : RunRecord)
      → withhold c is_late heartbeat_failure meanwhile run_id claim now (s, m) ≡ ((s', m'), ok v)
      → P
  unfolding withhold
  withhold-not_ok s s' m m' v h =
      elim (Result-cases (update run_id (withheld now) (some claim) (meanwhile s))) [
        | inr (e, thrown) ↦ cc (rw (thrown, withhold) at h)
        | inl ((t, w), done) ↦ cc (rw (done, withhold) at h)
      ]

  decide_release-ok :
      (a : Materialized) (u : RunRecord) (s s' : InMemoryRunStore) (m m' : Reservations)
      (v : RunRecord)
      → decide_release c is_late heartbeat_failure meanwhile run_id claim now a u (s, m)
        ≡ ((s', m'), ok v)
      → (u.is_cleanup_confirmed ≡ true)
        × (finalize c is_late heartbeat_failure meanwhile run_id claim now a u (s, m)
            ≡ ((s', m'), ok v))
  unfolding decide_release
  decide_release-ok a u s s' m m' v h = elim (Bool-cases u.is_cleanup_confirmed) [
    | inr unclean ↦
        withhold-not_ok s s' m m' v (unconfirmed_branch u.is_cleanup_confirmed _ _ _ unclean h)
    | inl confirmed ↦ (confirmed, confirmed_branch u.is_cleanup_confirmed _ _ _ confirmed h)
  ]

  decided-Released :
      (targets : List CleanupTarget) (a : Materialized) (u : RunRecord) (s t s' : InMemoryRunStore)
      (m m' : Reservations) (v : RunRecord)
      → IsCurrent s
      → update run_id (with_last_receipts a (execute_cleanup targets now) now) (some claim) s
        ≡ ok (t, u)
      → u.is_cleanup_confirmed ≡ application_cleanup_is_releasable u
      → u.result ≡ none
      → u.cost_micro_usd ≡ a.total_micro_usd
      → decide_release c is_late heartbeat_failure meanwhile run_id claim now a u (t, m)
        ≡ ((s', m'), ok v)
      → Released targets a (s, m) (s', m') v
  decided-Released targets a u s t s' m m' v first done flag dark cost h =
      let (confirmed, final) = decide_release-ok a u t s' m m' v h in
      let (healthy, rest) = finalize-ok a u t s' m m' v final in
      let (again, timely, paid, write, (x, shown)) = settle_and_publish-ok a u t s' m m' v rest in
      let (status, result, lease) = published-status a x v shown in
      let paid' = subst (λ n. settle c run_id (some n) m ≡ ok m') cost paid in
      (
        first,
        (t, u, done, sym flag ∙ confirmed, dark, again, write, healthy, timely, paid'),
        status,
        result,
        lease,
      )

  -- A result is published only on this: the worker's claim is current when the last receipts are
  -- stored and again when the result is; the record that the first of these writes stores shows
  -- that the application has deleted every expected copy and that every watchdog is clean, with the
  -- result still dark; the second stores the published record; the heartbeat is healthy, the whole
  -- cost is settled, and the deadline has not passed after that. The run is then ready, or partial
  -- where the analysis is incomplete, and its worker holds no lease any more.
  pub commit_result-Released :
      (targets : List CleanupTarget) (a : Materialized) (s s' : InMemoryRunStore)
      (m m' : Reservations) (v : RunRecord)
      → commit_result c is_late heartbeat_failure meanwhile run_id claim now targets a (s, m)
        ≡ ((s', m'), ok v)
      → Released targets a (s, m) (s', m') v
  unfolding commit_result
  commit_result-Released targets a s s' m m' v h =
      let fresh = execute_cleanup targets now in
      elim (Result-cases (update run_id (with_last_receipts a fresh now) (some claim) s)) [
        | inr (e, thrown) ↦ absurd (refused_answer _ e _ v (rw (thrown, commit_result) at h))
        | inl ((t, u), done) ↦
            let (r, e, current, made) =
              update-eq-ok run_id (with_last_receipts a fresh now) (some claim) s t u done in
            let (flag, dark, cost) = with_last_receipts-value a fresh r u made in
            decided-Released targets a u s t s' m m' v (r, e, current) done flag dark cost
              (rw (done, commit_result) at h)
      ]
