-- ===== src/Runs/Store/Order.antt =====
-- The listings: what they hold, in which order, and how much.
use Prim.Native.Nat.{zero, suc}
use monidhackson.Base.{
  ℕ, ◌+◌, ◌≤◌, ◌≡◌, subst, ◌⊎◌, inl, inr, String, Bool, true, false, List, [], ◌∷◌, none, some,
  length, length-take-le, take, filter, All, Any, here, there, Bool-cases, Option-cases, arith,
}
use monidhackson.Runs.Types.{RunRecord, Instant}
use monidhackson.Contracts.{expired, status_eq}
use monidhackson.Runs.Store.Record.{leb_opt, is_leased, is_cleanup_pending}
use monidhackson.Runs.Store.Listing.{
  Due, due_at, due_before, insert_sorted, sort_by, bounded_limit, list_cleanup_candidates,
}

module _ {ℓ κ} {A : Type ℓ} (P : A → Type κ) where
  All-take : (n : ℕ) (xs : List A) → All P xs → All P (take n xs)
  All-take zero xs h = tt
  All-take (suc n) [] h = tt
  All-take (suc n) (x ∷ xs) (p, h) = (p, All-take n xs h)

  All-insert_sorted :
      (before : A → A → Bool) (x : A) (xs : List A)
      → P x
      → All P xs
      → All P (insert_sorted before x xs)
  unfolding insert_sorted
  All-insert_sorted before x [] p h = (p, tt)
  All-insert_sorted before x (y ∷ ys) p (q, h) = elim (Bool-cases (before y x)) [
    | inl e ↦ rw e (q, All-insert_sorted before x ys p h)
    | inr e ↦ rw e (p, (q, h))
  ]

  Any-insert_sorted :
      (before : A → A → Bool) (x : A) (xs : List A)
      → Any P (x ∷ xs)
      → Any P (insert_sorted before x xs)
  unfolding insert_sorted
  Any-insert_sorted before x [] m = m
  Any-insert_sorted before x (y ∷ ys) (here p) = elim (Bool-cases (before y x)) [
    | inl e ↦ rw e (there (Any-insert_sorted before x ys (here p)))
    | inr e ↦ rw e (here p)
  ]
  Any-insert_sorted before x (y ∷ ys) (there (here q)) = elim (Bool-cases (before y x)) [
    | inl e ↦ rw e (here q)
    | inr e ↦ rw e (there (here q))
  ]
  Any-insert_sorted before x (y ∷ ys) (there (there m)) = elim (Bool-cases (before y x)) [
    | inl e ↦ rw e (there (Any-insert_sorted before x ys (there m)))
    | inr e ↦ rw e (there (there m))
  ]

All-filter {ℓ} : {A : Type ℓ} (p : A → Bool) (xs : List A) → All (λ x. p x ≡ true) (filter p xs)
All-filter p [] = tt
All-filter p (x ∷ xs) = elim (Bool-cases (p x)) [
  | inl e ↦ rw e (e, All-filter p xs)
  | inr e ↦ rw e (All-filter p xs)
]

Any-filter {ℓ κ} :
    {A : Type ℓ} (P : A → Type κ) (p : A → Bool) (xs : List A)
    → Any (λ x. P x × (p x ≡ true)) xs
    → Any P (filter p xs)
Any-filter P p [] m = elim m [ ]
Any-filter P p (x ∷ xs) (here (h, e)) = rw e (here h)
Any-filter P p (x ∷ xs) (there m) = elim (Bool-cases (p x)) [
  | inl e ↦ rw e (there (Any-filter P p xs m))
  | inr e ↦ rw e (Any-filter P p xs m)
]

-- The order of due instants, `none` being infinitely late.
abbrev pub NotLater : Due → Due → Type 0
NotLater _ none = Unit {0}
NotLater none (some b) = ⊥
NotLater (some a) (some b) = a ≤ b

NotLater-trans : (a b c : Due) → NotLater a b → NotLater b c → NotLater a c
NotLater-trans a b none h k = tt
NotLater-trans none none (some c) h k = k
NotLater-trans none (some b) (some c) h k = h
NotLater-trans (some a) none (some c) h k = absurd k
NotLater-trans (some a) (some b) (some c) h k = omega arith

abbrev pub IsSorted : List RunRecord → Type 0
IsSorted [] = Unit {0}
IsSorted (r ∷ rs) = All (λ u. NotLater (due_at r) (due_at u)) rs × IsSorted rs

IsSorted-take : (n : ℕ) (rs : List RunRecord) → IsSorted rs → IsSorted (take n rs)
IsSorted-take zero rs h = tt
IsSorted-take (suc n) [] h = tt
IsSorted-take (suc n) (r ∷ rs) (a, h) =
    (All-take (λ u. NotLater (due_at r) (due_at u)) n rs a, IsSorted-take n rs h)

All-later :
    (a b : Due) (rs : List RunRecord)
    → NotLater a b
    → All (λ u. NotLater b (due_at u)) rs
    → All (λ u. NotLater a (due_at u)) rs
All-later a b [] h k = tt
All-later a b (r ∷ rs) h (p, k) = (NotLater-trans a b (due_at r) h p, All-later a b rs h k)

module _ (id_before : String → String → Bool) where
  before-NotLater :
      (a b : RunRecord) → due_before id_before a b ≡ true → NotLater (due_at a) (due_at b)
  unfolding due_before
  before-NotLater a b h = elim (Option-cases (due_at a)) [
    | inl ea ↦ cc (rw (ea, due_before) at h)
    | inr (s, ea) ↦ elim (Option-cases (due_at b)) [
      | inl eb ↦ rw eb tt
      | inr (t, eb) ↦ rw (ea, eb) (ground arith)
    ]
  ]

  not_before-NotLater :
      (a b : RunRecord) → due_before id_before a b ≡ false → NotLater (due_at b) (due_at a)
  unfolding due_before
  not_before-NotLater a b h = elim (Option-cases (due_at a)) [
    | inl ea ↦ rw ea tt
    | inr (s, ea) ↦ elim (Option-cases (due_at b)) [
      | inl eb ↦ ground arith
      | inr (t, eb) ↦ rw (ea, eb) (ground arith)
    ]
  ]

  insert-IsSorted :
      (r : RunRecord) (rs : List RunRecord)
      → IsSorted rs
      → IsSorted (insert_sorted (due_before id_before) r rs)
  unfolding insert_sorted
  insert-IsSorted r [] h = (tt, tt)
  insert-IsSorted r (u ∷ us) (a, h) = elim (Bool-cases (due_before id_before u r)) [
    | inl e ↦ rw e (
      All-insert_sorted (λ v. NotLater (due_at u) (due_at v)) (due_before id_before) r us
          (before-NotLater u r e) a,
      insert-IsSorted r us h,
    )
    | inr e ↦
        let le = not_before-NotLater u r e in
        rw e ((le, All-later (due_at r) (due_at u) us le a), (a, h))
  ]

  sort-IsSorted : (rs : List RunRecord) → IsSorted (sort_by id_before (due_before id_before) rs)
  unfolding sort_by
  sort-IsSorted [] = tt
  sort-IsSorted (r ∷ rs) = insert-IsSorted r _ (sort-IsSorted rs)

  All-sort :
      (P : RunRecord → Type 0) (before : RunRecord → RunRecord → Bool) (rs : List RunRecord)
      → All P rs
      → All P (sort_by id_before before rs)
  unfolding sort_by
  All-sort P before [] h = tt
  All-sort P before (r ∷ rs) (p, h) = All-insert_sorted P before r _ p (All-sort P before rs h)

  Any-sort :
      (P : RunRecord → Type 0) (before : RunRecord → RunRecord → Bool) (rs : List RunRecord)
      → Any P rs
      → Any P (sort_by id_before before rs)
  unfolding sort_by
  Any-sort P before [] m = m
  Any-sort P before (r ∷ rs) (here p) = Any-insert_sorted P before r _ (here p)
  Any-sort P before (r ∷ rs) (there m) =
      Any-insert_sorted P before r _ (there (Any-sort P before rs m))

  -- The candidates for a cleanup are at most the bounded limit, all of them due, the longest due
  -- first.
  pub cleanup_candidates_due :
      (now : Instant) (limit : ℕ) (rs : List RunRecord)
      → let found = list_cleanup_candidates id_before now limit rs in
        (length found ≤ bounded_limit limit 1000)
        × All (λ r. leb_opt (due_at r) now ≡ true) found
        × IsSorted found
  unfolding list_cleanup_candidates
  cleanup_candidates_due now limit rs = (
    length-take-le (bounded_limit limit 1000) _,
    All-take (λ r. leb_opt (due_at r) now ≡ true) (bounded_limit limit 1000) _
        (All-sort (λ r. leb_opt (due_at r) now ≡ true) (due_before id_before) _
          (All-filter (λ r. leb_opt (due_at r) now) rs)),
    IsSorted-take (bounded_limit limit 1000) _ (sort-IsSorted _),
  )

All-head_latest :
    (n : ℕ) (rs : List RunRecord) (u : RunRecord)
    → IsSorted rs
    → Any (λ r. r ≡ u) rs
    → Any (λ r. r ≡ u) (take n rs) ⊎ All (λ r. NotLater (due_at r) (due_at u)) (take n rs)
All-head_latest zero rs u h m = inr tt
All-head_latest (suc n) [] u h m = inr tt
All-head_latest (suc n) (r ∷ rs) u (a, h) (here e) = inl (here e)
All-head_latest (suc n) (r ∷ rs) u (a, h) (there m) = elim (All-head_latest n rs u h m) [
  | inl listed ↦ inl (there listed)
  | inr earlier ↦ inr (pick rs a m, earlier)
]
  where
    pick :
        (us : List RunRecord)
        → All (λ v. NotLater (due_at r) (due_at v)) us
        → Any (λ v. v ≡ u) us
        → NotLater (due_at r) (due_at u)
    pick [] b k = elim k [ ]
    pick (v ∷ us) (p, b) (here e) = subst (λ w. NotLater (due_at r) (due_at w)) e p
    pick (v ∷ us) (p, b) (there k) = pick us b k

-- A due record that the limit leaves out stands behind records that are at least as long due: no
-- record is passed over for a later one.
pub cleanup_candidates_fair :
    (id_before : String → String → Bool) (now : Instant) (limit : ℕ) (rs : List RunRecord)
    (u : RunRecord)
    → Any (λ r. (r ≡ u) × (leb_opt (due_at r) now ≡ true)) rs
    → let found = list_cleanup_candidates id_before now limit rs in
      Any (λ r. r ≡ u) found ⊎ All (λ r. NotLater (due_at r) (due_at u)) found
unfolding list_cleanup_candidates
cleanup_candidates_fair id_before now limit rs u m =
    All-head_latest (bounded_limit limit 1000) _ u (sort-IsSorted id_before _) (
      Any-sort id_before (λ r. r ≡ u) (due_before id_before) _
        (Any-filter (λ r. r ≡ u) (λ r. leb_opt (due_at r) now) rs m))

-- Maintenance reaches a run in time: one that has not expired from its retention date on; one that
-- waits for its cleanup from five minutes after its last update on; one that a worker holds from
-- the moment on at which the worker's lease has run out.
pub maintenance_reaches :
    (r : RunRecord) (now : Instant)
    → status_eq r.status expired ≡ false
    → (r.expires_at ≤ now)
      ⊎ ((is_cleanup_pending r.status ≡ true) × (r.updated_at + 300000 ≤ now))
      ⊎ ((is_leased r.status ≡ true)
          × (is_cleanup_pending r.status ≡ false)
          × (leb_opt r.processing_lease_expires_at now ≡ true))
    → leb_opt (due_at r) now ≡ true
unfolding due_at
maintenance_reaches r now live (inl retained) = ground arith
maintenance_reaches r now live (inr (inl (pending, waited))) = ground arith
maintenance_reaches r now live (inr (inr (leased, working, lapsed))) = ground arith
