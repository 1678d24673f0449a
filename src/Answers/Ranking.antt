-- ===== src/Answers/Ranking.antt =====
-- The stable sort by descending score of src/lib/analysis/closed-world.ts.
use monidhackson.Base.{
  subst, ◌≡◌, refl, ◌⊎◌, inl, inr, Bool, true, false, List, [], ◌∷◌, All, if◌then◌else◌, Bool-cases,
}
use monidhackson.Base.Members.{IsIn}

module _ {A : Type 0} (less : A → A → Bool) where
  -- An element comes before the later ones that are not greater.
  abbrev pub insert : A → List A → List A
  insert x [] = x ∷ []
  insert x (y ∷ ys) = let rest = insert x ys in if less x y then y ∷ rest else x ∷ y ∷ ys

  unfoldable pub sort : List A → List A
  sort [] = []
  sort (x ∷ xs) = insert x (sort xs)

  insert-IsIn : (x z : A) (ys : List A) → IsIn z (insert x ys) → (x ≡ z) ⊎ IsIn z ys
  insert-IsIn x z [] m = m
  insert-IsIn x z (y ∷ ys) m = elim (Bool-cases (less x y)) [
    | inr e ↦ rw e at m
    | inl e ↦ elim (rw e at m) [
      | inl same ↦ inr (inl same)
      | inr m' ↦ elim (insert-IsIn x z ys m') [ inl same ↦ inl same | inr m'' ↦ inr (inr m'') ]
    ]
  ]

  IsIn-insert_new : (x : A) (ys : List A) → IsIn x (insert x ys)
  IsIn-insert_new x [] = inl refl
  IsIn-insert_new x (y ∷ ys) = elim (Bool-cases (less x y)) [
    | inl e ↦ rw e (inr (IsIn-insert_new x ys))
    | inr e ↦ rw e (inl refl)
  ]

  IsIn-insert_old : (x z : A) (ys : List A) → IsIn z ys → IsIn z (insert x ys)
  IsIn-insert_old x z [] m = absurd m
  IsIn-insert_old x z (y ∷ ys) m = elim (Bool-cases (less x y)) [
    | inr e ↦ rw e (inr m)
    | inl e ↦ elim m [
      | inl same ↦ rw e (inl same)
      | inr m' ↦ rw e (inr (IsIn-insert_old x z ys m'))
    ]
  ]

  -- Sorting keeps the elements.
  pub sort-IsIn : (z : A) (xs : List A) → IsIn z (sort xs) → IsIn z xs
  unfolding sort
  sort-IsIn z [] m = m
  sort-IsIn z (x ∷ xs) m = elim (insert-IsIn x z (sort xs) m) [
    | inl same ↦ inl same
    | inr m' ↦ inr (sort-IsIn z xs m')
  ]

  pub IsIn-sort : (z : A) (xs : List A) → IsIn z xs → IsIn z (sort xs)
  unfolding sort
  IsIn-sort z [] m = m
  IsIn-sort z (x ∷ xs) (inl same) =
      subst (λ (y : A). IsIn y (insert x (sort xs))) same (IsIn-insert_new x (sort xs))
  IsIn-sort z (x ∷ xs) (inr m) = IsIn-insert_old x z (sort xs) (IsIn-sort z xs m)

  -- A comparison whose negation is a linear preorder.
  pub record IsOrder : Type 0 where
    pub asymmetric : (x y : A) → less x y ≡ true → less y x ≡ false
    pub transitive : (x y z : A) → less x y ≡ false → less y z ≡ false → less x z ≡ false

  -- Nothing is greater than the first element of a sorted list.
  abbrev pub IsTop : List A → Type 0
  IsTop [] = Unit
  IsTop (x ∷ xs) = All (λ (y : A). less x y ≡ false) xs

  below :
      (order : IsOrder) (x y : A) (zs : List A)
      → less x y ≡ false
      → All (λ (z : A). less y z ≡ false) zs
      → All (λ (z : A). less x z ≡ false) zs
  below order x y [] h hs = tt
  below order x y (z ∷ zs) h (h', hs) = (order.transitive x y z h h', below order x y zs h hs)

  All-insert : (P : A → Type 0) (x : A) (ys : List A) → P x → All P ys → All P (insert x ys)
  All-insert P x [] h hs = (h, tt)
  All-insert P x (y ∷ ys) h (h', hs) = elim (Bool-cases (less x y)) [
    | inl e ↦ rw e (h', All-insert P x ys h hs)
    | inr e ↦ rw e (h, (h', hs))
  ]

  insert-IsTop : (order : IsOrder) (x : A) (ys : List A) → IsTop ys → IsTop (insert x ys)
  insert-IsTop order x [] h = tt
  insert-IsTop order x (y ∷ ys) h = elim (Bool-cases (less x y)) [
    | inl e ↦ rw e (All-insert (λ (z : A). less y z ≡ false) x ys (order.asymmetric x y e) h)
    | inr e ↦ rw e (e, below order x y ys e h)
  ]

  pub sort-IsTop : (order : IsOrder) (xs : List A) → IsTop (sort xs)
  unfolding sort
  sort-IsTop order [] = tt
  sort-IsTop order (x ∷ xs) = insert-IsTop order x (sort xs) (sort-IsTop order xs)
