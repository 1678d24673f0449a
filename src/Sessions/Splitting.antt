-- ===== src/Sessions/Splitting.antt =====
-- `split`, `join` and `slice` of texts as src/lib/security/auth.ts uses them, with a separator of
-- one code unit.
use monidhackson.Base.{
  ℕ, ◌≡◌, refl, Bool, true, false, List, [], ◌∷◌, ◌++◌, All, ◌==◌, if◌then◌else◌, Bool-cases, inl,
  inr, ap, ◌∙◌, arith,
}
use monidhackson.PageIndex.{Text}

abbrev pub is_empty : Text → Bool
is_empty [] = true
is_empty (c ∷ cs) = false

pub is_empty-append : (xs : Text) (c : ℕ) (ys : Text) → is_empty (xs ++ c ∷ ys) ≡ false
is_empty-append [] c ys = refl
is_empty-append (x ∷ xs) c ys = refl

abbrev pub onto_first : ℕ → List Text → List Text
onto_first c [] = (c ∷ []) ∷ []
onto_first c (t ∷ ts) = (c ∷ t) ∷ ts

unfoldable pub split : ℕ → Text → List Text
split separator [] = [] ∷ []
split separator (c ∷ cs) =
    let rest = split separator cs in if c == separator then [] ∷ rest else onto_first c rest

unfoldable pub join : ℕ → List Text → Text
join separator [] = []
join separator (t ∷ []) = t
join separator (t ∷ u ∷ us) = t ++ separator ∷ join separator (u ∷ us)

-- A text without the separator is one part.
pub split-clean :
    (separator : ℕ) (t : Text)
    → All (λ (c : ℕ). c == separator ≡ false) t
    → split separator t ≡ t ∷ []
unfolding split
split-clean separator [] clean = refl
split-clean separator (c ∷ cs) (h, hs) = rw (h, split-clean separator cs hs) refl

-- The first part of a text ends at its first separator.
pub split-first :
    (separator : ℕ) (t rest : Text)
    → All (λ (c : ℕ). c == separator ≡ false) t
    → split separator (t ++ separator ∷ rest) ≡ t ∷ split separator rest
unfolding split
split-first separator [] rest clean = ground arith
split-first separator (c ∷ cs) rest (h, hs) = rw (h, split-first separator cs rest hs) refl

-- Some part comes first.
split-some :
    (separator : ℕ) (t : Text) → (u : Text) × (us : List Text) × (split separator t ≡ u ∷ us)
unfolding split
split-some separator [] = ([], [], refl)
split-some separator (c ∷ cs) =
    let (u, us, is) = split-some separator cs in
    elim (Bool-cases (c == separator)) [
      | inl e ↦ ([], split separator cs, rw e refl)
      | inr e ↦ (c ∷ u, us, rw (e, is) refl)
    ]

join-onto_first :
    (separator c : ℕ) (t : Text) (ts : List Text)
    → join separator (onto_first c (t ∷ ts)) ≡ c ∷ join separator (t ∷ ts)
unfolding join
join-onto_first separator c t [] = refl
join-onto_first separator c t (u ∷ us) = refl

-- Joining the parts gives the text back.
pub join-split : (separator : ℕ) (t : Text) → join separator (split separator t) ≡ t
unfolding split join
join-split separator [] = refl
join-split separator (c ∷ cs) =
    let (u, us, is) = split-some separator cs in
    let back = join-split separator cs in
    let back' = rw is at back in
    elim (Bool-cases (c == separator)) [
      | inl e ↦ let same : c ≡ separator = ground arith in rw (e, is) cc
      | inr e ↦ rw (e, is) (join-onto_first separator c u us ∙ ap (λ (t : Text). c ∷ t) back')
    ]
