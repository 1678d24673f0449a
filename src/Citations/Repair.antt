-- ===== src/Citations/Repair.antt =====
-- src/lib/evidence/citations.ts: the match of a quote with a page whose words the PDF has split. The
-- place in the page is the list of the lexemes from there on; whether a lexeme is alphabetic, a
-- question of Unicode, is an argument.
use monidhackson.Base.{
  ℕ, zero, suc, ◌≡◌, ◌↔◌, Bool, true, false, not, ◌&&◌, ◌||◌, List, [], ◌∷◌, ◌++◌, Option, none,
  some, length, any, ltb, leb, ◌==◌, if◌then◌else◌, arith,
}
use monidhackson.PageIndex.{Text}

unfoldable pub same_text : Text → Text → Bool
same_text [] [] = true
same_text [] (d ∷ ds) = false
same_text (c ∷ cs) [] = false
same_text (c ∷ cs) (d ∷ ds) = c == d && same_text cs ds

pub same_text_iff : (s t : Text) → (same_text s t ≡ true) ↔ (s ≡ t)
unfolding same_text
same_text_iff [] [] = ground arith
same_text_iff [] (d ∷ ds) = ground arith
same_text_iff (c ∷ cs) [] = ground arith
same_text_iff (c ∷ cs) (d ∷ ds) = ground (arith, same_text_iff cs ds)

-- `text.startsWith(prefix)` and `text.includes(part)`.
unfoldable pub has_prefix : Text → Text → Bool
has_prefix text [] = true
has_prefix [] (c ∷ cs) = false
has_prefix (d ∷ ds) (c ∷ cs) = d == c && has_prefix ds cs

unfoldable pub contains : Text → Text → Bool
contains [] part = has_prefix [] part
contains (d ∷ ds) part = has_prefix (d ∷ ds) part || contains ds part

abbrev pub max_pdf_word_fragments : ℕ
max_pdf_word_fragments = 3

abbrev pub min_repaired_quote_length : ℕ
min_repaired_quote_length = 24

abbrev is_empty : Text → Bool
is_empty [] = true
is_empty (c ∷ cs) = false

unfoldable pub is_head : Text → List Text → Bool
is_head q [] = false
is_head q (p ∷ ps) = same_text p q

unfoldable pub tail : List Text → List Text
tail [] = []
tail (p ∷ ps) = ps

-- The lengths of a real split: a single letter, and a longer part.
abbrev pub looks_split : List ℕ → Bool
looks_split lengths = any (λ n. n == 1) lengths && any (λ n. leb 3 n) lengths

module _ (is_alphabetic : Text → Bool) where
  -- The rounds that are left, the word, what was joined so far with its lengths, and the page. The
  -- answer is the page after the repaired word.
  unfoldable pub repaired_end : ℕ → Text → Text → List ℕ → List Text → Option (List Text)
  repaired_end zero word so_far lengths page = none
  repaired_end (suc n) word so_far lengths [] = none
  repaired_end (suc n) word so_far lengths (f ∷ fs) =
      let longer = so_far ++ f in
      let more = lengths ++ length f ∷ [] in
      let rest = repaired_end n word longer more fs in
      if is_empty f || not (is_alphabetic f)
      then none
      else if not (has_prefix word longer)
      then none
      else if ltb 0 (length lengths) && same_text longer word && looks_split more
      then some fs
      else rest

  unfoldable pub matches_from : List Text → List Text → Bool → Bool
  matches_from [] page used_repair = used_repair
  matches_from (q ∷ qs) page used_repair = elim (is_head q page) [
    | true ↦ matches_from qs (tail page) used_repair
    | false ↦ elim (is_alphabetic q && leb 4 (length q)) [
      | false ↦ false
      | true ↦ elim (repaired_end max_pdf_word_fragments q [] [] page) [
        | none ↦ false
        | some rest ↦ matches_from qs rest true
      ]
    ]
  ]

  unfoldable pub matches_somewhere : List Text → List Text → Bool
  matches_somewhere quote [] = false
  matches_somewhere quote (p ∷ ps) = matches_from quote (p ∷ ps) false || matches_somewhere quote ps

  unfoldable pub contains_with_pdf_word_fragment_repair : (Text → List Text) → Text → Text → Bool
  contains_with_pdf_word_fragment_repair lexemes page_text quote =
      if ltb (length quote) min_repaired_quote_length
      then false
      else if length (lexemes quote) == 0
      then false
      else if ltb (length (lexemes page_text)) (length (lexemes quote))
      then false
      else matches_somewhere (lexemes quote) (lexemes page_text)
