-- ===== src/Runs/Store/Creation.antt =====
-- `create`: the active runs of an owner, and the replay of an idempotency key.
use monidhackson.Base.{
  ◌≡◌, ◌≢◌, ◌⊎◌, refl, sym, subst, ap, ◌∙◌, inl, inr, String, Bool, true, false, List, [], ◌∷◌,
  Option, none, some, find, lookup, insert, values, text_eq, eq_iff, Bool-cases, Option-cases,
  lookup-insert, lookup-insert_self, All, Any, here, there, if◌then◌else◌, arith,
}
use monidhackson.Errors.{Result, ok, err}
use monidhackson.Runs.Types.{RunRecord, Instant}
use monidhackson.Runs.Store.Record.{Environment, CreateRunRecordInput, new_run_record}
use monidhackson.Runs.Store.{
  InMemoryRunStore, key_reused, one_active_run, truthy, scoped_key, is_active_of, replayed, admit,
  create,
}

module _ {ℓ} {A : Type ℓ} (p : A → Bool) where
  find-none : (xs : List A) → find p xs ≡ none → All (λ x. p x ≡ false) xs
  find-none [] h = tt
  find-none (x ∷ xs) h = (ground arith, find-none xs (ground arith))

  find-some : (xs : List A) → Any (λ x. p x ≡ true) xs → (x : A) × (find p xs ≡ some x)
  find-some [] m = elim m [ ]
  find-some (x ∷ xs) (here e) = (x, rw e refl)
  find-some (x ∷ xs) (there m) = elim (Bool-cases (p x)) [
    | inl e ↦ (x, rw e refl)
    | inr e ↦ let (y, f) = find-some xs m in (y, rw e f)
  ]

-- No run of the owner is active.
abbrev pub Idle : String → InMemoryRunStore → Type 0
Idle owner s = All (λ r. is_active_of owner r ≡ false) (values s.records)

-- What a successful admission does: the owner was idle, the candidate is stored under its id, the
-- idempotency key leads to it, and no other record is touched.
abbrev Admitted : RunRecord → Option String → InMemoryRunStore → InMemoryRunStore → Type 0
Admitted candidate key s s' =
    Idle candidate.owner_id s
    × (lookup candidate.id s'.records ≡ some candidate)
    × ((k : String)
        → truthy key ≡ some k
        → lookup (scoped_key candidate.owner_id k) s'.idempotency ≡ some candidate.id)
    × ((j : String) → j ≢ candidate.id → lookup j s'.records ≡ lookup j s.records)

insert-Admitted :
    (candidate : RunRecord) (key : Option String) (s : InMemoryRunStore)
    (index : List (String × String))
    → Idle candidate.owner_id s
    → ((k : String)
        → truthy key ≡ some k
        → lookup (scoped_key candidate.owner_id k) index ≡ some candidate.id)
    → Admitted candidate key s
        (record s { records = insert candidate.id candidate s.records; idempotency = index })
insert-Admitted candidate key s index idle indexed = (
  idle,
  lookup-insert_self candidate.id candidate s.records,
  indexed,
  λ j other.
      ground (arith, lookup-insert candidate.id j candidate s.records, eq_iff candidate.id j),
)

stored :
    (candidate : RunRecord) (key : Option String) (s x s' : InMemoryRunStore) (r : RunRecord)
    (created : Bool)
    → ◌≡◌ {A = Result (InMemoryRunStore × RunRecord × Bool)}
        (ok (x, candidate, true))
        (ok (s', r, created))
    → Admitted candidate key s x
    → Admitted candidate key s s' × (r ≡ candidate) × (created ≡ true)
stored candidate key s x s' r created h a =
    let same : x ≡ s' = ground arith in
    (subst (λ y. Admitted candidate key s y) same a, ground arith, ground arith)

indexed_key :
    (owner id : String) (index : List (String × String)) (k j : String)
    → k ≡ j
    → lookup (scoped_key owner j) (insert (scoped_key owner k) id index) ≡ some id
indexed_key owner id index k j same = rw (← same) (lookup-insert_self (scoped_key owner k) id index)

admit-Admitted :
    (candidate : RunRecord) (key : Option String) (s s' : InMemoryRunStore) (r : RunRecord)
    (created : Bool)
    → admit candidate key s ≡ ok (s', r, created)
    → Admitted candidate key s s' × (r ≡ candidate) × (created ≡ true)
unfolding admit
admit-Admitted candidate key s s' r created h =
    elim (Option-cases (find (is_active_of candidate.owner_id) (values s.records))) [
      | inr (active, e) ↦ cc (rw (e, admit) at h)
      | inl e ↦
          let idle = find-none (is_active_of candidate.owner_id) (values s.records) e in
          elim (Option-cases (truthy key)) [
            | inl keyless ↦
                stored candidate key s _ s' r created (rw (keyless, admit) at (rw (e, admit) at h))
                  (insert-Admitted candidate key s s.idempotency idle (λ k e'. cc))
            | inr (k, keyed) ↦
                stored candidate key s _ s' r created (rw (keyed, admit) at (rw (e, admit) at h)) (
                  insert-Admitted candidate key s
                    (insert (scoped_key candidate.owner_id k) candidate.id s.idempotency) idle
                    (λ j e'.
                      indexed_key candidate.owner_id candidate.id s.idempotency k j (ground arith)))
          ]
    ]

replay_not_new :
    (env : Environment) (uuid : String) (input : CreateRunRecordInput) (now : Instant)
    (s s' : InMemoryRunStore) (r old : RunRecord)
    → replayed s input.owner_id input.idempotency_key ≡ some old
    → ¬ (create env uuid input now s ≡ ok (s', r, true))
unfolding create
replay_not_new env uuid input now s s' r old e h = ground (arith, (rw (e, create) at h))

create-Admitted :
    (env : Environment) (uuid : String) (input : CreateRunRecordInput) (now : Instant)
    (s s' : InMemoryRunStore) (r : RunRecord)
    → create env uuid input now s ≡ ok (s', r, true)
    → Admitted (new_run_record env uuid input now) input.idempotency_key s s'
      × (r ≡ new_run_record env uuid input now)
unfolding create
create-Admitted env uuid input now s s' r h =
    elim (Option-cases (replayed s input.owner_id input.idempotency_key)) [
      | inr (old, e) ↦ absurd (replay_not_new env uuid input now s s' r old e h)
      | inl e ↦
          let (a, same, _) =
            admit-Admitted (new_run_record env uuid input now) input.idempotency_key s s' r true
              (rw (e, create) at h) in
          (a, same)
    ]

replayed_lem :
    (s : InMemoryRunStore) (r : RunRecord) (owner : String) (key : Option String) (k : String)
    → truthy key ≡ some k
    → lookup (scoped_key owner k) s.idempotency ≡ some r.id
    → lookup r.id s.records ≡ some r
    → replayed s owner key ≡ some r
unfolding replayed
replayed_lem s r owner key k e indexed found = ground arith

-- A `create` that reports a new run was called for an owner with no active run; it stores the
-- queued record of that request under its id and changes no other record.
pub create_new :
    (env : Environment) (uuid : String) (input : CreateRunRecordInput) (now : Instant)
    (s s' : InMemoryRunStore) (r : RunRecord)
    → create env uuid input now s ≡ ok (s', r, true)
    → (r ≡ new_run_record env uuid input now)
      × Idle input.owner_id s
      × (lookup r.id s'.records ≡ some r)
      × ((j : String) → j ≢ r.id → lookup j s'.records ≡ lookup j s.records)
unfolding new_run_record
create_new env uuid input now s s' r h =
    let (a, same) = create-Admitted env uuid input now s s' r h in
    (same, a.0, rw same a.1, rw same a.3)

-- Repeating a request with its idempotency key on the store that its creation has left, whatever the
-- clock says by then, gives back the stored run and changes nothing; using the key for a request
-- with another digest is refused.
pub create_replays :
    (env : Environment) (uuid uuid' : String) (input again : CreateRunRecordInput)
    (now later : Instant) (s s' : InMemoryRunStore) (r : RunRecord) (k : String)
    → create env uuid input now s ≡ ok (s', r, true)
    → truthy input.idempotency_key ≡ some k
    → again.owner_id ≡ input.owner_id
    → again.idempotency_key ≡ input.idempotency_key
    → create env uuid' again later s' ≡ (
        if text_eq (env.request_hash input.input) (env.request_hash again.input)
        then ok (s', r, false)
        else err key_reused)
unfolding create new_run_record
create_replays env uuid uuid' input again now later s s' r k h key owner same_key =
    let (a, same) = create-Admitted env uuid input now s s' r h in
    let found =
      replayed_lem s' (new_run_record env uuid input now) again.owner_id again.idempotency_key k
        (ap truthy same_key ∙ key) (rw owner (a.2 k key)) a.1 in
    rw (found, create) (rw same refl)

-- A request that replays no run is refused while its owner has an active one.
pub create_active_refused :
    (env : Environment) (uuid : String) (input : CreateRunRecordInput) (now : Instant)
    (s : InMemoryRunStore)
    → replayed s input.owner_id input.idempotency_key ≡ none
    → Any (λ r. is_active_of input.owner_id r ≡ true) (values s.records)
    → create env uuid input now s ≡ err one_active_run
unfolding create new_run_record
create_active_refused env uuid input now s fresh active =
    let (old, found) = find-some (is_active_of input.owner_id) (values s.records) active in
    rw (fresh, create) (rw (found, admit) refl)

replayed_same :
    (s s' : InMemoryRunStore) (old r : RunRecord) (is_same : Bool)
    → ◌≡◌ {A = Result (InMemoryRunStore × RunRecord × Bool)}
        (if is_same then ok (s, old, false) else err key_reused)
        (ok (s', r, false))
    → s' ≡ s
replayed_same s s' old r false h = cc
replayed_same s s' old r true h = cc

pub create-old :
    (env : Environment) (uuid : String) (input : CreateRunRecordInput) (now : Instant)
    (s s' : InMemoryRunStore) (r : RunRecord)
    → create env uuid input now s ≡ ok (s', r, false)
    → s' ≡ s
unfolding create
create-old env uuid input now s s' r h =
    elim (Option-cases (replayed s input.owner_id input.idempotency_key)) [
      | inr (old, e) ↦ replayed_same s s' old r _ (rw (e, create) at h)
      | inl e ↦
          let (_, _, is_new) =
            admit-Admitted (new_run_record env uuid input now) input.idempotency_key s s' r false
              (rw (e, create) at h) in
          cc
    ]

new_found :
    (m : List (String × RunRecord)) (i j : String) (r v : RunRecord)
    → i ≡ j
    → lookup i m ≡ some r
    → lookup j m ≡ some v
    → v ≡ r
new_found m i j r v at h e = let stored = subst (λ k. lookup k m ≡ some r) at h in cc

-- What is stored after a `create`: the new record under its id, and every other record as it was.
pub create-lookup :
    (env : Environment) (uuid : String) (input : CreateRunRecordInput) (now : Instant)
    (s s' : InMemoryRunStore) (r : RunRecord) (is_new : Bool)
    → create env uuid input now s ≡ ok (s', r, is_new)
    → (j : String) (v : RunRecord) → lookup j s'.records ≡ some v
    → (((new_run_record env uuid input now).id ≡ j) × (v ≡ new_run_record env uuid input now))
      ⊎ (lookup j s.records ≡ some v)
create-lookup env uuid input now s s' r false h j v e =
    inr (rw (← create-old env uuid input now s s' r h) e)
create-lookup env uuid input now s s' r true h j v e =
    let candidate = new_run_record env uuid input now in
    let (a, _) = create-Admitted env uuid input now s s' r h in
    elim (Bool-cases (text_eq candidate.id j)) [
      | inl hit ↦
          let at = (eq_iff candidate.id j).0 hit in
          inl (at, new_found s'.records candidate.id j candidate v at a.1 e)
      | inr miss ↦ inr (sym (a.3 j (λ q. let hit = (eq_iff candidate.id j).1 (sym q) in cc)) ∙ e)
    ]
