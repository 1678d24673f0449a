-- ===== src/Citations/Expected.antt =====
-- src/lib/evidence/citations.ts: verifyCitationOnExpectedPage. An offset is none where it is no safe
-- integer or negative.
use monidhackson.Base.{
  ℕ, ◌-◌, String, Bool, false, ◌&&◌, List, Option, none, some, find, take, ltb, ◌==◌, if◌then◌else◌,
}
use monidhackson.PageIndex.{Text, drop}
use monidhackson.Citations.Repair.{same_text}
use monidhackson.Citations.Pages.{
  IndexedPage, CitationDocument, CitationVerification, Method, exact, manual_required, Texts,
  document_of, document_name, document_url, representation_of, section_of, quote_or,
}

pub record ExpectedPageCitationCandidate : Type 0 where
  pub document_sha256 : String
  pub evidence_quote : Text
  pub section : Option Text
  pub expected_pdf_page_1based : ℕ
  pub evidence_start_utf16 : Option ℕ
  pub evidence_end_utf16 : Option ℕ

-- `text.slice(start, end)`.
abbrev pub slice : ℕ → ℕ → Text → Text
slice from to text = take (to - from) (drop from text)

abbrev pub expected_page : Option CitationDocument → ℕ → Option IndexedPage
expected_page none n = none
expected_page (some d) n = find (λ (p : IndexedPage). p.pdf_page_1based == n) d.index.pages

unfoldable pub is_exact_slice : Option IndexedPage → Option ℕ → Option ℕ → Text → Bool
is_exact_slice none from to quote = false
is_exact_slice (some page) none to quote = false
is_exact_slice (some page) (some a) none quote = false
is_exact_slice (some page) (some a) (some b) quote =
    ltb a b && same_text (slice a b page.text) quote

abbrev when : Bool → Option ℕ → Option ℕ
when b o = if b then o else none

abbrev number_of : Option IndexedPage → Option ℕ
number_of none = none
number_of (some p) = some p.pdf_page_1based

abbrev label_of : Option IndexedPage → Option String
label_of none = none
label_of (some p) = p.printed_page_label

abbrev method_of : Bool → Method
method_of exactly = if exactly then exact else manual_required

module _ (texts : Texts) (stable_receipt_id : ExpectedPageCitationCandidate → String → String) where
  unfoldable pub verify_citation_on_expected_page :
      ExpectedPageCitationCandidate → List CitationDocument → CitationVerification
  unfolding is_exact_slice
  verify_citation_on_expected_page c documents =
      let document = document_of texts documents c.document_sha256 in
      let page = expected_page document c.expected_pdf_page_1based in
      let exactly =
        is_exact_slice page c.evidence_start_utf16 c.evidence_end_utf16 c.evidence_quote in
      (
        record {
          document_sha256 = texts.lower c.document_sha256;
          document_name = document_name texts document;
          source_url = document_url texts document;
          pdf_page_1based = when exactly (number_of page);
          printed_page_label = if exactly then label_of page else none;
          section = section_of texts c.section;
          evidence_quote = quote_or texts (take 500 c.evidence_quote);
          verified = exactly;
          verification_method = method_of exactly;
        },
        record {
          receipt_id = stable_receipt_id c (representation_of texts document);
          document_sha256 = texts.lower c.document_sha256;
          representation_sha256 = representation_of texts document;
          fragment_sha256 = texts.digest c.evidence_quote;
          pdf_page_1based = when exactly (number_of page);
          method = method_of exactly;
          verified = exactly;
        },
      )
