-- ===== src/PageIndex.antt =====
-- src/lib/pdf/page-index.ts: how the text of the pages is cut into chunks. A text is the list of its
-- code units. What the language does is an argument: the split of a page into trimmed paragraphs
-- that are not empty, `trim`, and the digest that makes a chunk's id.
use monidhackson.Base.{
  ℕ, zero, suc, ◌+◌, ◌≤◌, ◌≡◌, refl, sym, ap, inl, inr, String, false, List, [], ◌∷◌, ◌++◌, map,
  length, take, ltb, if◌then◌else◌, Bool-cases, arith,
}

abbrev pub Text : Type 0
Text = List ℕ

pub record EvidenceChunk : Type 0 where
  pub chunk_id : String
  pub document_sha256 : String
  pub text : Text

abbrev pub chunk_step : ℕ
chunk_step = 2800

abbrev pub chunk_length : ℕ
chunk_length = 3000

module _ {ℓ} {A : Type ℓ} where
  abbrev pub drop : ℕ → List A → List A
  drop zero xs = xs
  drop (suc n) [] = []
  drop (suc n) (x ∷ xs) = drop n xs

  abbrev pub joined : List (List A) → List A
  joined [] = []
  joined (xs ∷ xss) = xs ++ joined xss

  drop-all : (n : ℕ) (xs : List A) → length xs ≤ n → drop n xs ≡ []
  drop-all zero [] h = refl
  drop-all zero (x ∷ xs) h = absurd (omega (arith, h))
  drop-all (suc n) [] h = refl
  drop-all (suc n) (x ∷ xs) h = drop-all n xs (omega (arith, h))

  drop-nil : (n : ℕ) → ◌≡◌ {A = List A} (drop n []) []
  drop-nil zero = refl
  drop-nil (suc n) = refl

  drop-drop : (m n : ℕ) (xs : List A) → drop m (drop n xs) ≡ drop (n + m) xs
  drop-drop m zero xs = let e : 0 + m ≡ m = omega arith in rw e refl
  drop-drop m (suc n) [] = let e : suc n + m ≡ suc (n + m) = omega arith in rw e (drop-nil m)
  drop-drop m (suc n) (x ∷ xs) =
      let e : suc n + m ≡ suc (n + m) = omega arith in rw e (drop-drop m n xs)

  pub take-drop : (n : ℕ) (xs : List A) → take n xs ++ drop n xs ≡ xs
  take-drop zero xs = refl
  take-drop (suc n) [] = refl
  take-drop (suc n) (x ∷ xs) = ap (λ ys. x ∷ ys) (take-drop n xs)

  take-take : (m n : ℕ) (xs : List A) → m ≤ n → take m (take n xs) ≡ take m xs
  take-take zero n xs h = refl
  take-take (suc m) zero xs h = absurd (omega (arith, h))
  take-take (suc m) (suc n) [] h = refl
  take-take (suc m) (suc n) (x ∷ xs) h = ap (λ ys. x ∷ ys) (take-take m n xs (omega (arith, h)))

  -- The loop over the offsets, `step` apart, of slices of `size`.
  unfoldable pub slices : ℕ → ℕ → ℕ → ℕ → List A → List (List A)
  slices step size zero offset xs = []
  slices step size (suc fuel) offset xs =
      let rest = slices step size fuel (offset + step) xs in
      if ltb offset (length xs) then take size (drop offset xs) ∷ rest else []

  slices-drop :
      (step size fuel offset : ℕ) (xs : List A)
      → 1 ≤ step
      → step ≤ size
      → length xs ≤ fuel + offset
      → joined (map (take step) (slices step size fuel offset xs)) ≡ drop offset xs
  unfolding slices
  slices-drop step size zero offset xs one fits enough =
      sym (drop-all offset xs (omega (arith, enough)))
  slices-drop step size (suc fuel) offset xs one fits enough =
      elim (Bool-cases (ltb offset (length xs))) [
        | inr over ↦ rw over (sym (drop-all offset xs (ground arith)))
        | inl inside ↦
            let rest =
              slices-drop step size fuel (offset + step) xs one fits (omega (arith, enough)) in
            rw inside (rw (rest, take-take) (rw (← drop-drop) (take-drop step (drop offset xs))))
      ]

  slices-past :
      (step size fuel offset : ℕ) (xs : List A)
      → length xs ≤ offset
      → slices step size fuel offset xs ≡ []
  unfolding slices
  slices-past step size zero offset xs over = refl
  slices-past step size (suc fuel) offset xs over =
      let out : ltb offset (length xs) ≡ false = ground arith in rw out refl

  slices-more :
      (step size fuel more offset : ℕ) (xs : List A)
      → 1 ≤ step
      → length xs ≤ fuel + offset
      → slices step size (fuel + more) offset xs ≡ slices step size fuel offset xs
  unfolding slices
  slices-more step size zero more offset xs one enough =
      slices-past step size (zero + more) offset xs (omega (arith, enough))
  slices-more step size (suc fuel) more offset xs one enough =
      let rest = slices-more step size fuel more (offset + step) xs one (omega (arith, enough)) in
      let e : suc fuel + more ≡ suc (fuel + more) = omega arith in rw e (rw rest refl)

-- One page: its paragraphs, or its whole text where it has none.
abbrev pub or_whole : Text → List Text → List Text
or_whole text [] = text ∷ []
or_whole text (p ∷ ps) = p ∷ ps

-- The slices of a paragraph; the loop ends after at most as many rounds as there are code units.
unfoldable pub paragraph_slices : Text → List Text
paragraph_slices p = slices chunk_step chunk_length (length p) 0 p

module _ (paragraphs_of : Text → List Text) (trim : Text → Text)
    (chunk_id_of : String → ℕ → Text → String) (document_sha256 : String) where
  -- Empty slices are left out, and count for no ordinal.
  unfoldable pub push_slices : List Text → ℕ → List EvidenceChunk → ℕ × List EvidenceChunk
  push_slices [] ordinal chunks = (ordinal, chunks)
  push_slices (t ∷ ts) ordinal chunks = elim (trim t) [
    | [] ↦ push_slices ts ordinal chunks
    | u ∷ us ↦ push_slices ts (suc ordinal) (
        chunks
        ++ record {
          chunk_id = chunk_id_of document_sha256 ordinal (u ∷ us);
          document_sha256 = document_sha256;
          text = u ∷ us;
        }
          ∷ [])
  ]

  unfoldable pub push_paragraphs : List Text → ℕ → List EvidenceChunk → ℕ × List EvidenceChunk
  push_paragraphs [] ordinal chunks = (ordinal, chunks)
  push_paragraphs (p ∷ ps) ordinal chunks =
      let (n, more) = push_slices (paragraph_slices p) ordinal chunks in push_paragraphs ps n more

  unfoldable pub push_pages : List Text → ℕ → List EvidenceChunk → List EvidenceChunk
  push_pages [] ordinal chunks = chunks
  push_pages (t ∷ ts) ordinal chunks =
      let (n, more) = push_paragraphs (or_whole t (paragraphs_of t)) ordinal chunks in
      push_pages ts n more

  unfoldable pub build_chunks : List Text → List EvidenceChunk
  build_chunks pages = push_pages pages 0 []

-- The loop over the slices of a paragraph ends, and nothing is lost: after as many rounds as the
-- paragraph has code units, the first 2800 units of its slices, in order, make up the whole
-- paragraph; further rounds would add nothing.
pub paragraph_slices_lem :
    (p : Text) (more : ℕ)
    → (joined (map (take chunk_step) (paragraph_slices p)) ≡ p)
      × (slices chunk_step chunk_length (length p + more) 0 p ≡ paragraph_slices p)
unfolding paragraph_slices
paragraph_slices_lem p more = (
  slices-drop chunk_step chunk_length (length p) 0 p (omega arith) (omega arith) (omega arith),
  slices-more chunk_step chunk_length (length p) more 0 p (omega arith) (omega arith),
)
