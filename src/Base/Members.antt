-- ===== src/Base/Members.antt =====
-- Where an element stands in a list, through the list operations of the source.
use mathlib.Core.Path.{◌≡◌, refl}
use mathlib.Core.Logic.{◌⊎◌, inl, inr}
use mathlib.Core.Bool.{Bool, true}
use mathlib.Core.Option.{some}
use mathlib.Core.List.{List, [], ◌∷◌, ◌++◌}
use native.Mathlib.Omega.{arith}
use monidhackson.Base.Tests.{Bool-cases}
use monidhackson.Base.Lists.{all, filter, find}

module _ {A : Type 0} where
  abbrev pub IsIn : A → List A → Type 0
  IsIn x [] = ⊥
  IsIn x (y ∷ ys) = (y ≡ x) ⊎ IsIn x ys

  pub IsIn-single : (x y : A) → IsIn x (y ∷ []) → x ≡ y
  IsIn-single x y m = ground arith

  pub IsIn-append : (x : A) (xs ys : List A) → IsIn x (xs ++ ys) → IsIn x xs ⊎ IsIn x ys
  IsIn-append x [] ys m = inr m
  IsIn-append x (z ∷ zs) ys (inl e) = inl (inl e)
  IsIn-append x (z ∷ zs) ys (inr m) = elim (IsIn-append x zs ys m) [
    | inl l ↦ inl (inr l)
    | inr r ↦ inr r
  ]

  pub append-IsIn_left : (x : A) (xs ys : List A) → IsIn x xs → IsIn x (xs ++ ys)
  append-IsIn_left x [] ys m = absurd m
  append-IsIn_left x (z ∷ zs) ys (inl e) = inl e
  append-IsIn_left x (z ∷ zs) ys (inr m) = inr (append-IsIn_left x zs ys m)

  pub append-IsIn_right : (x : A) (xs ys : List A) → IsIn x ys → IsIn x (xs ++ ys)
  append-IsIn_right x [] ys m = m
  append-IsIn_right x (z ∷ zs) ys m = inr (append-IsIn_right x zs ys m)

  -- What `filter` keeps stands in the list and passes the test; what passes is kept.
  pub filter-IsIn :
      (p : A → Bool) (x : A) (xs : List A) → IsIn x (filter p xs) → IsIn x xs × (p x ≡ true)
  filter-IsIn p x [] m = absurd m
  filter-IsIn p x (y ∷ ys) m = elim (Bool-cases (p y)) [
    | inr e ↦ let (m', h) = filter-IsIn p x ys (rw e at m) in (inr m', h)
    | inl e ↦ elim (rw e at m) [
      | inl same ↦ (inl same, rw (← same) e)
      | inr m' ↦ let (m'', h) = filter-IsIn p x ys m' in (inr m'', h)
    ]
  ]

  pub IsIn-filter :
      (p : A → Bool) (x : A) (xs : List A) → IsIn x xs → p x ≡ true → IsIn x (filter p xs)
  IsIn-filter p x [] m h = absurd m
  IsIn-filter p x (y ∷ ys) (inl e) h = rw (e, h) (inl refl)
  IsIn-filter p x (y ∷ ys) (inr m) h = elim (Bool-cases (p y)) [
    | inl e ↦ rw e (inr (IsIn-filter p x ys m h))
    | inr e ↦ rw e (IsIn-filter p x ys m h)
  ]

  pub find-IsIn :
      (p : A → Bool) (x : A) (xs : List A) → find p xs ≡ some x → IsIn x xs × (p x ≡ true)
  find-IsIn p x [] h = cc
  find-IsIn p x (y ∷ ys) h = elim (Bool-cases (p y)) [
    | inl e ↦ let same : y ≡ x = ground arith in (inl same, rw (← same) e)
    | inr e ↦ let (m, t) = find-IsIn p x ys (rw e at h) in (inr m, t)
  ]

  pub all-IsIn : (p : A → Bool) (x : A) (xs : List A) → all p xs ≡ true → IsIn x xs → p x ≡ true
  all-IsIn p x [] h m = absurd m
  all-IsIn p x (y ∷ ys) h (inl e) = rw (← e) (ground arith)
  all-IsIn p x (y ∷ ys) h (inr m) = all-IsIn p x ys (ground arith) m
