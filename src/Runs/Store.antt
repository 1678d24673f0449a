-- ===== src/Runs/Store.antt =====
-- src/lib/runs/store.ts: the in-memory run store. A method takes the store and returns the new one
-- with its result; a method that throws leaves the store as it is. Random identifiers and the time
-- are arguments. Records are values, so the defensive clones of the source are copies already.
pub mod Record
pub mod Claims
pub mod Listing
pub mod Creation
pub mod Fencing
pub mod Leases
pub mod Order
pub mod Opening
use monidhackson.Base.{
  ℕ, suc, ◌+◌, String, Bool, true, false, not, ◌&&◌, ◌||◌, List, [], Option, none, some,
  if◌then◌else◌, is_none, find, lookup, insert, delete, values, text_eq, concat, ◌==◌,
}
use monidhackson.Errors.{AppError, Result, ok, err, ◌>>=◌, analysis_incomplete, rate_limited}
use monidhackson.Contracts.{CreateRunRequest}
use monidhackson.Runs.Types.{RunRecord, Instant}
use Record.{
  is_active, CreateRunRecordInput, Environment, new_run_record, text_is, leb_opt, is_leased,
  is_cleanup_pending,
}

pub record InMemoryRunStore : Type 0 where
  pub records : List (String × RunRecord)
  pub idempotency : List (String × String)

abbrev pub run_not_found : AppError
run_not_found = record {
  code = analysis_incomplete;
  message = "The run was not found.";
  http_status = 404;
  retryable = false;
}

abbrev pub key_reused : AppError
key_reused = record {
  code = analysis_incomplete;
  message = "The idempotency key was already used with a different request.";
  http_status = 409;
  retryable = false;
}

abbrev pub one_active_run : AppError
one_active_run = record {
  code = rate_limited;
  message = "Only one analysis may be active at a time.";
  http_status = 429;
  retryable = true;
}

abbrev pub lease_not_current : AppError
lease_not_current = record {
  code = analysis_incomplete;
  message = "The run lease is no longer current.";
  http_status = 409;
  retryable = false;
}

abbrev pub identity_changed : AppError
identity_changed = record {
  code = analysis_incomplete;
  message = "Immutable run identity fields were changed.";
  http_status = 500;
  retryable = false;
}

-- An absent and an empty idempotency key are both falsy.
abbrev pub truthy : Option String → Option String
truthy none = none
truthy (some k) = if text_eq k "" then none else some k

abbrev pub scoped_key : String → String → String
scoped_key owner key = concat owner (concat "\0" key)

put : InMemoryRunStore → RunRecord → InMemoryRunStore
put s r = record s { records = insert r.id r s.records }

abbrev pub is_active_of : String → RunRecord → Bool
is_active_of owner r = text_eq r.owner_id owner && is_active r.status

-- The record that an idempotency key of the owner leads to.
unfoldable pub replayed : InMemoryRunStore → String → Option String → Option RunRecord
replayed s owner key = elim (truthy key) [
  | none ↦ none
  | some k ↦ elim (lookup (scoped_key owner k) s.idempotency) [
    | none ↦ none
    | some id ↦ lookup id s.records
  ]
]

abbrev same_hash : Option String → Option String → Bool
same_hash none none = true
same_hash (some a) (some b) = text_eq a b
same_hash _ _ = false

-- The last part of `create`: a new run, unless its owner has an active one.
admit : RunRecord → Option String → InMemoryRunStore → Result (InMemoryRunStore × RunRecord × Bool)
unfolding put
admit candidate key s = elim (find (is_active_of candidate.owner_id) (values s.records)) [
  | some active ↦ err one_active_run
  | none ↦ elim (truthy key) [
    | none ↦ ok (put s candidate, candidate, true)
    | some k ↦ ok (
      put
          (record s {
            idempotency = insert (scoped_key candidate.owner_id k) candidate.id s.idempotency;
          })
          candidate,
      candidate,
      true,
    )
  ]
]

unfoldable pub create :
    Environment
    → String
    → CreateRunRecordInput
    → Instant
    → InMemoryRunStore
    → Result (InMemoryRunStore × RunRecord × Bool)
unfolding replayed admit
create env uuid input now s =
    let candidate = new_run_record env uuid input now in
    elim (replayed s input.owner_id input.idempotency_key) [
      | some existing ↦
          if same_hash existing.request_hash candidate.request_hash
          then ok (s, existing, false)
          else err key_reused
      | none ↦ admit candidate input.idempotency_key s
    ]

unfoldable pub get : String → InMemoryRunStore → Option RunRecord
get id s = lookup id s.records

pub data Claim : Type 0 where
  processing_claim : String → ℕ → Claim
  admission_claim : String → Claim

unfoldable pub is_stale : RunRecord → Option Claim → Bool
is_stale r none = false
is_stale r (some (admission_claim lease)) = not (text_is r.admission_lease_id lease)
is_stale r (some (processing_claim lease fence)) =
    not (text_is r.processing_lease_id lease) || not (r.processing_fence == fence)

-- The end of both update methods: the identity is checked and the record written.
commit : String → RunRecord → RunRecord → InMemoryRunStore → Result (InMemoryRunStore × RunRecord)
commit id current next s =
    if not (text_eq next.id current.id) || not (text_eq next.owner_id current.owner_id)
    then err identity_changed
    else elim (truthy current.idempotency_key) [
      | none ↦ ok (record s { records = insert id next s.records }, next)
      | some k ↦
          if is_none next.idempotency_key
          then ok (
            record {
              records = insert id next s.records;
              idempotency = delete (scoped_key current.owner_id k) s.idempotency;
            },
            next,
          )
          else ok (record s { records = insert id next s.records }, next)
    ]

unfoldable pub update :
    String
    → (RunRecord → Result RunRecord)
    → Option Claim
    → InMemoryRunStore
    → Result (InMemoryRunStore × RunRecord)
unfolding commit is_stale
update id mutate claim s = elim (lookup id s.records) [
  | none ↦ err run_not_found
  | some current ↦
      if is_stale current claim
      then err lease_not_current
      else mutate current >>= λ next. commit id current next s
]

-- Whether the processing lease of a leased or cleaning run has run out.
unfoldable pub is_lease_expired : RunRecord → Instant → Bool
is_lease_expired r expired_at =
    (is_leased r.status || is_cleanup_pending r.status)
    && leb_opt r.processing_lease_expires_at expired_at

unfoldable pub update_if_processing_lease_expired :
    String
    → Instant
    → (RunRecord → Result RunRecord)
    → InMemoryRunStore
    → Result (InMemoryRunStore × Bool × RunRecord)
unfolding commit
update_if_processing_lease_expired id expired_at mutate s = elim (lookup id s.records) [
  | none ↦ err run_not_found
  | some current ↦
      if not (is_lease_expired current expired_at)
      then ok (s, false, current)
      else do next ← mutate current; (s', r) ← commit id current next s; ok (s', true, r)
]

-- A claim either changes the record or returns `null` and changes nothing.
unfoldable pub try_claim :
    String
    → (RunRecord → Option RunRecord)
    → InMemoryRunStore
    → Result (InMemoryRunStore × Option RunRecord)
try_claim id claim s = elim (lookup id s.records) [
  | none ↦ err run_not_found
  | some current ↦ elim (claim current) [
    | none ↦ ok (s, none)
    | some r ↦ ok (record s { records = insert id r s.records }, some r)
  ]
]

unfoldable pub remove : String → InMemoryRunStore → InMemoryRunStore
remove id s = elim (lookup id s.records) [
  | none ↦ record s { records = delete id s.records }
  | some r ↦ elim (truthy r.idempotency_key) [
    | none ↦ record s { records = delete id s.records }
    | some k ↦ record {
      records = delete id s.records;
      idempotency = delete (scoped_key r.owner_id k) s.idempotency;
    }
  ]
]

unfoldable pub clear : InMemoryRunStore → InMemoryRunStore
clear s = record { records = []; idempotency = [] }
