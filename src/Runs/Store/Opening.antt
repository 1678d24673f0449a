-- ===== src/Runs/Store/Opening.antt =====
-- Which runs may still be given a dispatch claim, and that no operation on a stored run makes it one
-- of them again.
use monidhackson.Base.{
  ℕ, ◌≡◌, ◌↔◌, refl, sym, ap, subst, ◌∙◌, inl, inr, String, Bool, true, false, ◌&&◌, Option, none,
  some, is_none, eq_iff, lookup, insert, delete, insert-cases, lookup-insert_self, delete-found,
  Bool-cases, Option-cases, arith,
}
use monidhackson.Errors.{AppError, Result, ok, err, >>=-eq-ok}
use monidhackson.Runs.Types.{RunRecord}
use monidhackson.Runs.Store.Record.{is_queued}
use monidhackson.Runs.Store.Claims.{
  claim_admission, claim_analysis_dispatch, settle_analysis_dispatch, claim_cleanup_retry,
  settle_cleanup_retry_dispatch, DispatchOutcome,
}
use monidhackson.Runs.Store.{
  InMemoryRunStore, Claim, is_stale, update, try_claim, remove, truthy, commit,
}

unfoldable pub is_open : RunRecord → Bool
is_open r = is_queued r.status && is_none r.analysis_dispatch_claim_id

unfoldable pub open_at : String → InMemoryRunStore → Bool
open_at id s = elim (lookup id s.records) [ none ↦ false | some r ↦ is_open r ]

-- Every record stands under its own id.
abbrev pub IsKeyed : InMemoryRunStore → Type 0
IsKeyed s = (id : String) (r : RunRecord) → lookup id s.records ≡ some r → r.id ≡ id

-- No run is open that was not open before.
unfoldable pub Closes : InMemoryRunStore → InMemoryRunStore → Type 0
Closes s s' =
    (IsKeyed s → IsKeyed s') × ((id : String) → open_at id s' ≡ true → open_at id s ≡ true)

abbrev pub Keeps : RunRecord → RunRecord → Type 0
Keeps r u = (u.id ≡ r.id) × (is_open u ≡ true → is_open r ≡ true)

pub Closes-refl : (s : InMemoryRunStore) → Closes s s
unfolding Closes
Closes-refl s = (λ k. k, λ id h. h)

pub Closes-trans : (s t u : InMemoryRunStore) → Closes s t → Closes t u → Closes s u
unfolding Closes
Closes-trans s t u (k, o) (k', o') = (λ x. k' (k x), λ id h. o id (o' id h))

pub open_at_iff :
    (id : String) (s : InMemoryRunStore)
    → (open_at id s ≡ true)
      ↔ ((r : RunRecord) × (lookup id s.records ≡ some r) × (is_open r ≡ true))
unfolding open_at
open_at_iff id s = (
  (λ h. elim (Option-cases (lookup id s.records)) [
    | inl e ↦ cc (rw (e, open_at) at h)
    | inr (r, e) ↦ (r, e, rw (e, open_at) at h)
  ]),
  (λ (r, e, o). rw (e, open_at) o),
)

pub open_at-found :
    (id : String) (s : InMemoryRunStore) (r : RunRecord)
    → lookup id s.records ≡ some r
    → open_at id s ≡ is_open r
unfolding open_at
open_at-found id s r e = rw (e, open_at) refl

pub open_at-insert :
    (id : String) (s s' : InMemoryRunStore) (u : RunRecord)
    → s'.records ≡ insert id u s.records
    → open_at id s' ≡ is_open u
open_at-insert id s s' u written =
    open_at-found id s' u (rw written (lookup-insert_self id u s.records))

pub insert-Closes :
    (id : String) (r u : RunRecord) (s s' : InMemoryRunStore)
    → lookup id s.records ≡ some r
    → Keeps r u
    → s'.records ≡ insert id u s.records
    → Closes s s'
unfolding Closes
insert-Closes id r u s s' h (same, opens) written = (
  (λ keyed j v e. elim (insert-cases id j u v s.records (rw written at e)) [
    | inl (at, is) ↦ ap (λ x. x.id) (sym is) ∙ same ∙ keyed id r h ∙ at
    | inr old ↦ keyed j v old
  ]),
  (λ j o.
      let (v, e, open_v) = (open_at_iff j s').0 o in
      elim (insert-cases id j u v s.records (rw written at e)) [
        | inl (at, is) ↦
            (open_at_iff j s).1
              (r, subst (λ i. lookup i s.records ≡ some r) at h, opens (rw is open_v))
        | inr old ↦ (open_at_iff j s).1 (v, old, open_v)
      ]),
)

pub delete-Closes :
    (id : String) (s s' : InMemoryRunStore) → s'.records ≡ delete id s.records → Closes s s'
unfolding Closes
delete-Closes id s s' written = (
  (λ keyed j v e. keyed j v (delete-found id j v s.records (rw written at e))),
  (λ j o.
      let (v, e, open_v) = (open_at_iff j s').0 o in
      (open_at_iff j s).1 (v, delete-found id j v s.records (rw written at e), open_v)),
)

-- What a successful write of the store has done.
abbrev pub Written : String → InMemoryRunStore → InMemoryRunStore → RunRecord → RunRecord → Type 0
Written id s s' r u =
    (lookup id s.records ≡ some r) × (u.id ≡ r.id) × (s'.records ≡ insert id u s.records)

commit-eq-ok :
    (id : String) (r next : RunRecord) (s s' : InMemoryRunStore) (u : RunRecord)
    → commit id r next s ≡ ok (s', u)
    → (next ≡ u) × (u.id ≡ r.id) × (s'.records ≡ insert id u s.records)
unfolding commit
commit-eq-ok id r next s s' u h = ground (arith, eq_iff next.id r.id)

pub update-Written :
    (id : String) (mutate : RunRecord → Result RunRecord) (claim : Option Claim)
    (s s' : InMemoryRunStore) (u : RunRecord)
    → update id mutate claim s ≡ ok (s', u)
    → (r : RunRecord) × (mutate r ≡ ok u) × Written id s s' r u
unfolding update
update-Written id mutate claim s s' u h = elim (Option-cases (lookup id s.records)) [
  | inl e ↦ cc (rw (e, update) at h)
  | inr (r, e) ↦ elim (Bool-cases (is_stale r claim)) [
    | inl stale ↦ cc (rw (stale, update) at (rw (e, update) at h))
    | inr fresh ↦
        let (next, made, committed) =
          >>=-eq-ok _ (mutate r) (rw (fresh, update) at (rw (e, update) at h)) in
        let (is, same, written) = commit-eq-ok id r next s s' u committed in
        (r, made ∙ ap ok is, (e, same, written))
  ]
]

commit-writes :
    (id : String) (r next : RunRecord) (s : InMemoryRunStore) {e : AppError}
    → next.id ≡ r.id
    → next.owner_id ≡ r.owner_id
    → ¬ (commit id r next s ≡ err e)
unfolding commit
commit-writes id r next s same owner h =
    let kept = (eq_iff next.id r.id).1 same in
    let kept' = (eq_iff next.owner_id r.owner_id).1 owner in
    elim (Option-cases (truthy r.idempotency_key)) [
      | inl e ↦ cc (rw (kept, kept', e, commit) at h)
      | inr (k, e) ↦ elim (Bool-cases (is_none next.idempotency_key)) [
        | inl f ↦ cc (rw (kept, kept', e, f, commit) at h)
        | inr f ↦ cc (rw (kept, kept', e, f, commit) at h)
      ]
    ]

-- An update that keeps the identity of the record is refused only to a stale claim.
pub update-refused :
    (id : String) (mutate : RunRecord → Result RunRecord) (claim : Option Claim)
    (s : InMemoryRunStore) (e : AppError) (r u : RunRecord)
    → lookup id s.records ≡ some r
    → mutate r ≡ ok u
    → u.id ≡ r.id
    → u.owner_id ≡ r.owner_id
    → update id mutate claim s ≡ err e
    → is_stale r claim ≡ true
unfolding update
update-refused id mutate claim s e r u found made same owner h =
    elim (Bool-cases (is_stale r claim)) [
      | inl stale ↦ stale
      | inr fresh ↦
          absurd (commit-writes id r u s same owner (rw (found, fresh, made, update) at h))
    ]

-- A claim that is granted has been written.
claimed :
    (id : String) (claim : RunRecord → Option RunRecord) (s : InMemoryRunStore) (r t : RunRecord)
    → lookup id s.records ≡ some r
    → claim r ≡ some t
    → try_claim id claim s ≡ ok (record s { records = insert id t s.records }, some t)
unfolding try_claim
claimed id claim s r t e made = rw (e, try_claim) (rw (made, try_claim) refl)

not_claimed :
    (id : String) (claim : RunRecord → Option RunRecord) (s : InMemoryRunStore) (r : RunRecord)
    → lookup id s.records ≡ some r
    → claim r ≡ none
    → try_claim id claim s ≡ ok (s, none)
unfolding try_claim
not_claimed id claim s r e made = rw (e, try_claim) (rw (made, try_claim) refl)

same_answer :
    (s s' s'' : InMemoryRunStore) (t u : RunRecord)
    → ◌≡◌ {A = Result (InMemoryRunStore × Option RunRecord)} (ok (s', some t)) (ok (s'', some u))
    → (s' ≡ s'') × (t ≡ u)
same_answer s s' s'' t u h = (cc, cc)

pub try_claim-Written :
    (id : String) (claim : RunRecord → Option RunRecord) (s s' : InMemoryRunStore) (u : RunRecord)
    → ((r t : RunRecord) → claim r ≡ some t → t.id ≡ r.id)
    → try_claim id claim s ≡ ok (s', some u)
    → (r : RunRecord) × (claim r ≡ some u) × Written id s s' r u
unfolding try_claim
try_claim-Written id claim s s' u keeps h = elim (Option-cases (lookup id s.records)) [
  | inl e ↦ cc (rw (e, try_claim) at h)
  | inr (r, e) ↦ elim (Option-cases (claim r)) [
    | inl none_made ↦ cc (not_claimed id claim s r e none_made, h)
    | inr (t, made) ↦
        let (at, is) = same_answer s _ s' t u (sym (claimed id claim s r t e made) ∙ h) in
        let granted = made ∙ ap some is in
        (
          r,
          granted,
          (e, keeps r u granted, ap (λ x. x.records) (sym at) ∙ ap (λ x. insert id x s.records) is),
        )
  ]
]

try_claim-none :
    (id : String) (claim : RunRecord → Option RunRecord) (s s' : InMemoryRunStore)
    → try_claim id claim s ≡ ok (s', none)
    → s' ≡ s
unfolding try_claim
try_claim-none id claim s s' h = ground arith

Written-Closes :
    (id : String) (s s' : InMemoryRunStore) (r u : RunRecord)
    → (is_open u ≡ true → is_open r ≡ true)
    → Written id s s' r u
    → Closes s s'
Written-Closes id s s' r u opens (e, same, written) =
    insert-Closes id r u s s' e (same, opens) written

pub update-Closes :
    (id : String) (mutate : RunRecord → Result RunRecord) (claim : Option Claim)
    (s s' : InMemoryRunStore) (u : RunRecord)
    → ((r t : RunRecord) → mutate r ≡ ok t → is_open t ≡ true → is_open r ≡ true)
    → update id mutate claim s ≡ ok (s', u)
    → Closes s s'
update-Closes id mutate claim s s' u opens h =
    let (r, made, w) = update-Written id mutate claim s s' u h in
    Written-Closes id s s' r u (opens r u made) w

pub try_claim-Closes :
    (id : String) (claim : RunRecord → Option RunRecord) (s s' : InMemoryRunStore)
    (a : Option RunRecord)
    → ((r t : RunRecord) → claim r ≡ some t → Keeps r t)
    → try_claim id claim s ≡ ok (s', a)
    → Closes s s'
try_claim-Closes id claim s s' none keeps h = rw (try_claim-none id claim s s' h) (Closes-refl s)
try_claim-Closes id claim s s' (some u) keeps h =
    let (r, made, w) = try_claim-Written id claim s s' u (λ r t e. (keeps r t e).0) h in
    Written-Closes id s s' r u (keeps r u made).1 w

pub remove-Closes : (id : String) (s : InMemoryRunStore) → Closes s (remove id s)
unfolding remove
remove-Closes id s = elim (Option-cases (lookup id s.records)) [
  | inl e ↦ delete-Closes id s (remove id s) (rw (e, remove) refl)
  | inr (r, e) ↦ elim (Option-cases (truthy r.idempotency_key)) [
    | inl keyless ↦ delete-Closes id s (remove id s) (rw (e, remove) (rw (keyless, remove) refl))
    | inr (k, keyed) ↦ delete-Closes id s (remove id s) (rw (e, remove) (rw (keyed, remove) refl))
  ]
]

-- The claims of an admission and of a cleanup keep a run closed.
pub claim_admission-Keeps :
    (l : String) (now ms : ℕ) (r u : RunRecord) → claim_admission l now ms r ≡ some u → Keeps r u
unfolding claim_admission is_open
claim_admission-Keeps l now ms r u h = (ground arith, ground arith)

pub settle_analysis_dispatch-Keeps :
    (c : String) (o : DispatchOutcome) (now : ℕ) (r u : RunRecord)
    → settle_analysis_dispatch c o now r ≡ some u
    → Keeps r u
unfolding settle_analysis_dispatch is_open
settle_analysis_dispatch-Keeps c o now r u h = (ground arith, ground arith)

pub claim_cleanup_retry-Keeps :
    (c : String) (now : ℕ) (r u : RunRecord) → claim_cleanup_retry c now r ≡ some u → Keeps r u
unfolding claim_cleanup_retry is_open
claim_cleanup_retry-Keeps c now r u h = (ground arith, ground arith)

pub settle_cleanup_retry_dispatch-Keeps :
    (c : String) (o : DispatchOutcome) (now : ℕ) (r u : RunRecord)
    → settle_cleanup_retry_dispatch c o now r ≡ some u
    → Keeps r u
unfolding settle_cleanup_retry_dispatch is_open
settle_cleanup_retry_dispatch-Keeps c o now r u h = (ground arith, ground arith)

-- The dispatch claim closes an open run.
pub claim_analysis_dispatch-closing :
    (c l : String) (now : ℕ) (r u : RunRecord)
    → claim_analysis_dispatch c l now r ≡ some u
    → (u.id ≡ r.id) × (is_open r ≡ true) × (is_open u ≡ false)
unfolding claim_analysis_dispatch is_open
claim_analysis_dispatch-closing c l now r u h = (ground arith, ground arith, ground arith)

-- An update that succeeds was made under the current claim.
pub update-eq-ok :
    (id : String) (mutate : RunRecord → Result RunRecord) (claim : Option Claim)
    (s s' : InMemoryRunStore) (u : RunRecord)
    → update id mutate claim s ≡ ok (s', u)
    → (r : RunRecord) × (lookup id s.records ≡ some r)
      × (is_stale r claim ≡ false)
      × (mutate r ≡ ok u)
unfolding update
update-eq-ok id mutate claim s s' u h =
    let (r, made, (e, _, _)) = update-Written id mutate claim s s' u h in
    elim (Bool-cases (is_stale r claim)) [
      | inl stale ↦ cc (rw (stale, update) at (rw (e, update) at h))
      | inr current ↦ (r, e, current, made)
    ]
