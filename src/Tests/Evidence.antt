-- ===== src/Tests/Evidence.antt =====
-- Citations at concrete pages. In the tests a text is its own normal form, a space separates its
-- lexemes, and every lexeme is alphabetic.
use monidhackson.Base.{
  ◌≡◌, ◌↔◌, ◌≤◌, refl, String, Bool, true, List, [], ◌∷◌, ◌++◌, none, some, ◌==◌, if◌then◌else◌,
}
use monidhackson.PageIndex.{Text}
use monidhackson.Citations.Repair.{
  has_prefix, contains_with_pdf_word_fragment_repair, matches_somewhere, matches_from, repaired_end,
  same_text, is_head, tail, min_repaired_quote_length,
}
use monidhackson.Citations.Splits.{Occurs, contains_with_pdf_word_fragment_repair_iff}
use monidhackson.Citations.Pages.{IndexedPage, CitationCandidate, CitationDocument, Texts}
use monidhackson.Citations.Expected.{ExpectedPageCitationCandidate}

-- The lexemes, with the word that is being read.
words_from : Text → Text → List Text
words_from word [] = word ∷ []
words_from word (c ∷ cs) =
    let more = words_from (word ++ c ∷ []) cs in
    let next = words_from [] cs in if c == 32 then word ∷ next else more

words : Text → List Text
unfolding words_from
words t = words_from [] t

abbrev always : Text → Bool
always t = true

-- "aaaaaaaaaaaaaaaaaaaaa complet" with the last word split in the page.
abbrev long_word : Text
long_word = 1 ∷ 1 ∷ 1 ∷ 1 ∷ 1 ∷ 1 ∷ 1 ∷ 1 ∷ 1 ∷ 1 ∷ 1 ∷ 1 ∷ 1 ∷ 1 ∷ 1 ∷ 1 ∷ 1 ∷ 1 ∷ 1 ∷ []

abbrev quote : Text
quote = long_word ++ 32 ∷ 2 ∷ 3 ∷ 4 ∷ 5 ∷ []

abbrev split_page : Text
split_page = 7 ∷ 32 ∷ (long_word ++ 32 ∷ 2 ∷ 3 ∷ 4 ∷ 32 ∷ 5 ∷ [])

repair_is_found : contains_with_pdf_word_fragment_repair always words split_page quote ≡ true
unfolding contains_with_pdf_word_fragment_repair matches_somewhere matches_from repaired_end
    same_text is_head tail has_prefix words
repair_is_found = refl

contains_with_pdf_word_fragment_repair_iff_example :
    (contains_with_pdf_word_fragment_repair always words split_page quote ≡ true)
    ↔ ((min_repaired_quote_length ≤ 24) × Occurs always (words quote) (words split_page))
contains_with_pdf_word_fragment_repair_iff_example =
    contains_with_pdf_word_fragment_repair_iff always words split_page quote

abbrev texts : Texts
texts = record {
  trim = λ t. t;
  normalize = λ t. t;
  lexemes = words;
  is_alphabetic = always;
  lower = λ s. s;
  digest = λ t. "00";
  missing_document = [];
  no_quote = 0 ∷ [];
}

abbrev page : IndexedPage
page = record {
  pdf_page_1based = 3;
  printed_page_label = none;
  text = 1 ∷ 2 ∷ 3 ∷ 4 ∷ [];
  normalized_text = 1 ∷ 2 ∷ 3 ∷ 4 ∷ [];
}

abbrev document : CitationDocument
document = record {
  name = "tender";
  source_url = none;
  index = record {
    document_sha256 = "ab";
    representation_sha256 = "cd";
    pages = page ∷ record page { pdf_page_1based = 4; text = 1 ∷ [] } ∷ [];
    chunks = [];
  };
}

abbrev candidate : CitationCandidate
candidate = record {
  document_sha256 = "ab";
  evidence_quote = 2 ∷ 3 ∷ [];
  chunk_id = none;
  section = none;
}

abbrev expected : ExpectedPageCitationCandidate
expected = record {
  document_sha256 = "ab";
  evidence_quote = 2 ∷ 3 ∷ [];
  section = none;
  expected_pdf_page_1based = 3;
  evidence_start_utf16 = some 1;
  evidence_end_utf16 = some 3;
}

abbrev receipt_id : ExpectedPageCitationCandidate → String → String
receipt_id c r = "receipt"
