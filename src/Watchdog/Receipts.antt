-- ===== src/Watchdog/Receipts.antt =====
-- mergeCleanupReceipts of src/lib/runs/source-cleanup-watchdog.ts, as what it keeps of two lists.
use monidhackson.Base.{
  ◌≡◌, ◌↔◌, refl, sym, ap, ◌∙◌, inl, inr, subst, String, Bool, true, false, List, [], ◌∷◌, ◌++◌,
  Option, none, some, or_else, lookup, lookup-insert, insert, values, text_eq, eq_iff,
  if◌then◌else◌, Bool-cases, arith,
}
use monidhackson.Base.Members.{IsIn}
use monidhackson.Runs.Types.{CleanupReceipt}
use monidhackson.Watchdog.Runner.{keyed, merge_cleanup_receipts}

-- The last receipt that has the id.
unfoldable pub latest : String → List CleanupReceipt → Option CleanupReceipt
latest id [] = none
latest id (c ∷ cs) = or_else (latest id cs) (if text_eq c.receipt_id id then some c else none)

or_else_assoc : {A : Type 0} (a b c : Option A) → or_else a (or_else b c) ≡ or_else (or_else a b) c
or_else_assoc none b c = refl
or_else_assoc (some x) b c = refl

or_else_if :
    (b : Bool) (c : CleanupReceipt) (o : Option CleanupReceipt)
    → (if b then some c else o) ≡ or_else (if b then some c else none) o
or_else_if true c o = refl
or_else_if false c o = refl

or_else-none : (o : Option CleanupReceipt) → or_else o none ≡ o
or_else-none none = refl
or_else-none (some c) = refl

latest-append :
    (id : String) (xs ys : List CleanupReceipt)
    → latest id (xs ++ ys) ≡ or_else (latest id ys) (latest id xs)
unfolding latest
latest-append id [] ys = sym (or_else-none (latest id ys))
latest-append id (x ∷ xs) ys =
    ap (λ o. or_else o (if text_eq x.receipt_id id then some x else none)) (latest-append id xs ys)
    ∙ sym (or_else_assoc (latest id ys) (latest id xs) _)

lookup-keyed :
    (id : String) (cs : List CleanupReceipt) (m : List (String × CleanupReceipt))
    → lookup id (keyed cs m) ≡ or_else (latest id cs) (lookup id m)
unfolding latest
lookup-keyed id [] m = refl
lookup-keyed id (c ∷ cs) m =
    lookup-keyed id cs (insert c.receipt_id c m)
    ∙ ap (λ o. or_else (latest id cs) o)
        (lookup-insert c.receipt_id id c m ∙ or_else_if (text_eq c.receipt_id id) c (lookup id m))
    ∙ or_else_assoc (latest id cs) _ (lookup id m)

-- Every receipt stands once, under its own id.
abbrev WellKeyed : List (String × CleanupReceipt) → Type 0
WellKeyed [] = Unit
WellKeyed ((k, c) ∷ m) = (c.receipt_id ≡ k) × (lookup k m ≡ none) × WellKeyed m

insert-WellKeyed :
    (c : CleanupReceipt) (m : List (String × CleanupReceipt))
    → WellKeyed m
    → WellKeyed (insert c.receipt_id c m)
unfolding insert lookup
insert-WellKeyed c [] h = (refl, refl, tt)
insert-WellKeyed c ((j, w) ∷ m) (own, once, h) = elim (Bool-cases (text_eq j c.receipt_id)) [
  | inl e ↦
      let same = (eq_iff j c.receipt_id).0 e in
      rw e (refl, subst (λ k. lookup k m ≡ none) same once, h)
  | inr e ↦
      let miss : text_eq c.receipt_id j ≡ false =
        ground (arith, eq_iff j c.receipt_id, eq_iff c.receipt_id j) in
      let new : lookup j (insert c.receipt_id c m) ≡ none =
        lookup-insert c.receipt_id j c m ∙ (rw miss once) in
      rw e (own, new, insert-WellKeyed c m h)
]

keyed-WellKeyed :
    (cs : List CleanupReceipt) (m : List (String × CleanupReceipt))
    → WellKeyed m
    → WellKeyed (keyed cs m)
keyed-WellKeyed [] m h = h
keyed-WellKeyed (c ∷ cs) m h = keyed-WellKeyed cs (insert c.receipt_id c m) (insert-WellKeyed c m h)

values-IsIn_iff :
    (d : CleanupReceipt) (m : List (String × CleanupReceipt))
    → WellKeyed m
    → IsIn d (values m) ↔ (lookup d.receipt_id m ≡ some d)
unfolding values lookup
values-IsIn_iff d [] h = (λ i. absurd i, λ e. cc)
values-IsIn_iff d ((j, w) ∷ m) (own, once, h) =
    let (to, from) = values-IsIn_iff d m h in
    elim (Bool-cases (text_eq j d.receipt_id)) [
      | inl e ↦
          let same = (eq_iff j d.receipt_id).0 e in
          let once' = subst (λ k. lookup k m ≡ none) same once in
          rw e (
            (λ i. elim i [ inl is ↦ ap (λ c. some c) is | inr i' ↦ let found = to i' in cc ]),
            (λ f. inl cc),
          )
      | inr e ↦ rw e (
        (λ i. elim i [
          | inl is ↦
              let at =
                (eq_iff j d.receipt_id).1
                  (sym own ∙ ap (λ (c : CleanupReceipt). c.receipt_id) is) in
              cc
          | inr i' ↦ to i'
        ]),
        (λ f. inr (from f)),
      )
    ]

-- A receipt is kept exactly if it is the last of its id among the old ones, followed by the new ones.
pub merge_cleanup_receipts_iff :
    (d : CleanupReceipt) (old fresh : List CleanupReceipt)
    → IsIn d (merge_cleanup_receipts old fresh) ↔ (latest d.receipt_id (old ++ fresh) ≡ some d)
unfolding merge_cleanup_receipts lookup
merge_cleanup_receipts_iff d old fresh =
    let m = keyed fresh (keyed old []) in
    let well = keyed-WellKeyed fresh (keyed old []) (keyed-WellKeyed old [] tt) in
    let at : lookup d.receipt_id m ≡ latest d.receipt_id (old ++ fresh) =
      lookup-keyed d.receipt_id fresh (keyed old [])
      ∙ ap (λ o. or_else (latest d.receipt_id fresh) o)
          (lookup-keyed d.receipt_id old [] ∙ or_else-none (latest d.receipt_id old))
      ∙ sym (latest-append d.receipt_id old fresh) in
    let (to, from) = values-IsIn_iff d m well in (λ i. sym at ∙ to i, λ e. from (at ∙ e))
