-- ===== src/Base/Maps.antt =====
-- Dictionaries with text keys, as JavaScript's `Map` keeps them: in the order of insertion, a key
-- that is set again staying where it is.
use Prim.Native.Nat.{ℕ, ◌+◌}
use Prim.Native.String.{String}
use mathlib.Core.Logic.{◌≢◌, ◌⊎◌, inl, inr}
use mathlib.Core.Path.{◌≡◌, refl, subst}
use mathlib.Core.Option.{Option, none, some}
use mathlib.Core.List.{List, [], ◌∷◌}
use native.Mathlib.Omega.{arith}
use monidhackson.Base.Tests.{if◌then◌else◌, Bool-cases}
use monidhackson.Base.Texts.{text_eq, eq_iff, eq_refl}

module _ {ℓ} {V : Type ℓ} where
  unfoldable pub lookup : String → List (String × V) → Option V
  lookup k [] = none
  lookup k ((j, v) ∷ m) = if text_eq j k then some v else lookup k m

  unfoldable pub insert : String → V → List (String × V) → List (String × V)
  insert k v [] = (k, v) ∷ []
  insert k v ((j, w) ∷ m) = if text_eq j k then (k, v) ∷ m else (j, w) ∷ insert k v m

  unfoldable pub delete : String → List (String × V) → List (String × V)
  delete k [] = []
  delete k ((j, w) ∷ m) = let rest = delete k m in if text_eq j k then rest else (j, w) ∷ rest

  unfoldable pub values : List (String × V) → List V
  values [] = []
  values ((k, v) ∷ m) = v ∷ values m

  -- What a reader of `key` finds after `set` has been written.
  pub lookup-insert :
      (set key : String) (value : V) (entries : List (String × V))
      → lookup key (insert set value entries)
        ≡ (if text_eq set key then some value else lookup key entries)
  unfolding lookup insert
  lookup-insert set key value [] = refl
  lookup-insert set key value ((first, old) ∷ entries) = ground (
    arith,
    eq_iff set key,
    eq_iff first set,
    eq_iff first key,
    lookup-insert set key value entries,
  )

  pub lookup-delete :
      (k j : String) (m : List (String × V))
      → lookup j (delete k m) ≡ (if text_eq k j then none else lookup j m)
  unfolding lookup delete
  lookup-delete k j [] = ground arith
  lookup-delete k j ((i, w) ∷ m) =
      ground (arith, eq_iff k j, eq_iff i k, eq_iff i j, lookup-delete k j m)

  pub lookup-insert_self :
      (k : String) (v : V) (m : List (String × V)) → lookup k (insert k v m) ≡ some v
  lookup-insert_self k v m = simp (lookup-insert, eq_refl)

  pub lookup-insert_other :
      (k j : String) (v : V) (m : List (String × V)) → k ≢ j → lookup j (insert k v m) ≡ lookup j m
  lookup-insert_other k j v m other = rw lookup-insert (ground (arith, eq_iff k j))

  pub lookup-delete-none :
      (k j : String) (m : List (String × V)) → lookup j m ≡ none → lookup j (delete k m) ≡ none
  lookup-delete-none k j m h = rw lookup-delete (ground arith)

  pub lookup-delete_self : (k : String) (m : List (String × V)) → lookup k (delete k m) ≡ none
  lookup-delete_self k m = simp (lookup-delete, eq_refl)

  -- What is found after an insertion or a deletion.
  pub insert-cases :
      (k j : String) (v w : V) (m : List (String × V))
      → lookup j (insert k v m) ≡ some w
      → ((k ≡ j) × (v ≡ w)) ⊎ (lookup j m ≡ some w)
  insert-cases k j v w m h = let e = rw lookup-insert at h in ground (arith, eq_iff k j)

  pub delete-found :
      (k j : String) (w : V) (m : List (String × V))
      → lookup j (delete k m) ≡ some w
      → lookup j m ≡ some w
  delete-found k j w m h = let e = rw lookup-delete at h in ground arith

-- A sum over the values, when a key is set.
module _ {ℓ} {V : Type ℓ} (f : V → ℕ) where
  abbrev pub total : List (String × V) → ℕ
  total [] = 0
  total ((k, v) ∷ m) = f v + total m

  pub total-insert_new :
      (k : String) (v : V) (m : List (String × V))
      → lookup k m ≡ none
      → total (insert k v m) ≡ total m + f v
  unfolding lookup insert
  total-insert_new k v [] h = omega arith
  total-insert_new k v ((j, w) ∷ m) h = elim (Bool-cases (text_eq j k)) [
    | inl e ↦ cc (rw e at h)
    | inr e ↦ rw e (omega (arith, total-insert_new k v m (rw e at h)))
  ]

  pub total-insert_old :
      (k : String) (v w : V) (m : List (String × V))
      → lookup k m ≡ some w
      → total (insert k v m) + f w ≡ total m + f v
  unfolding lookup insert
  total-insert_old k v w [] h = cc
  total-insert_old k v w ((j, x) ∷ m) h = elim (Bool-cases (text_eq j k)) [
    | inl e ↦ rw e (let same : x ≡ w = ground arith in rw same (omega arith))
    | inr e ↦ rw e (omega (arith, total-insert_old k v w m (rw e at h)))
  ]

-- What holds of every value, when a key is set.
module _ {ℓ κ} {V : Type ℓ} (P : V → Type κ) where
  abbrev pub AllValues : List (String × V) → Type κ
  AllValues [] = Unit
  AllValues ((k, v) ∷ m) = P v × AllValues m

  pub AllValues-insert :
      (k : String) (v : V) (m : List (String × V)) → P v → AllValues m → AllValues (insert k v m)
  unfolding insert
  AllValues-insert k v [] p h = (p, tt)
  AllValues-insert k v ((j, w) ∷ m) p (q, h) = elim (Bool-cases (text_eq j k)) [
    | inl e ↦ rw e (p, h)
    | inr e ↦ rw e (q, AllValues-insert k v m p h)
  ]

  pub AllValues-lookup :
      (k : String) (v : V) (m : List (String × V)) → lookup k m ≡ some v → AllValues m → P v
  unfolding lookup
  AllValues-lookup k v [] h a = cc
  AllValues-lookup k v ((j, w) ∷ m) h (p, a) = elim (Bool-cases (text_eq j k)) [
    | inl e ↦ let same : w ≡ v = ground arith in subst P same p
    | inr e ↦ AllValues-lookup k v m (rw e at h) a
  ]
