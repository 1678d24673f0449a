-- ===== src/Citations/Pages.antt =====
-- src/lib/evidence/citations.ts: where a quote stands, and the citation that is made of it. What the
-- platform does to texts is an argument: `trim`, `normalizeEvidenceText` with its Unicode forms, the
-- lexemes and the alphabetic ones, `toLowerCase`, and SHA-256. The pages of an index have distinct
-- numbers, so that a page is compared by its number.
use monidhackson.Base.{
  ℕ, String, Bool, true, false, not, ◌&&◌, List, [], ◌∷◌, ◌++◌, Option, none, some, length, any,
  all, find, filter, take, text_eq, ltb, ◌==◌, is_some, if◌then◌else◌,
}
use monidhackson.PageIndex.{Text, EvidenceChunk}
use monidhackson.Citations.Repair.{contains, contains_with_pdf_word_fragment_repair}

pub record IndexedPage : Type 0 where
  pub pdf_page_1based : ℕ
  pub printed_page_label : Option String
  pub text : Text
  pub normalized_text : Text

pub record PdfPageIndex : Type 0 where
  pub document_sha256 : String
  pub representation_sha256 : String
  pub pages : List IndexedPage
  pub chunks : List EvidenceChunk

-- An empty chunk id is none.
pub record CitationCandidate : Type 0 where
  pub document_sha256 : String
  pub evidence_quote : Text
  pub chunk_id : Option String
  pub section : Option Text

pub record CitationDocument : Type 0 where
  pub name : String
  pub source_url : Option String
  pub index : PdfPageIndex

pub data Method : Type 0 where
  exact normalized manual_required : Method

pub record Citation : Type 0 where
  pub document_sha256 : String
  pub document_name : String
  pub source_url : Option String
  pub pdf_page_1based : Option ℕ
  pub printed_page_label : Option String
  pub section : Option Text
  pub evidence_quote : Text
  pub verified : Bool
  pub verification_method : Method

pub record QuoteVerificationReceipt : Type 0 where
  pub receipt_id : String
  pub document_sha256 : String
  pub representation_sha256 : String
  pub fragment_sha256 : String
  pub pdf_page_1based : Option ℕ
  pub method : Method
  pub verified : Bool

abbrev pub CitationVerification : Type 0
CitationVerification = Citation × QuoteVerificationReceipt

-- What the platform does to texts. `missing_document` and `no_quote` stand for two literals.
pub record Texts : Type 0 where
  pub trim : Text → Text
  pub normalize : Text → Text
  pub lexemes : Text → List Text
  pub is_alphabetic : Text → Bool
  pub lower : String → String
  pub digest : Text → String
  pub missing_document : Text
  pub no_quote : Text

abbrev pub Located : Type 0
Located = Option IndexedPage × Method

abbrev pub not_located : Located
not_located = (none, manual_required)

abbrev pub same_page : IndexedPage → IndexedPage → Bool
same_page p q = p.pdf_page_1based == q.pdf_page_1based

-- The members of `new Set(pages)`, in the order of their first insertion.
unfoldable pub distinct_from : List IndexedPage → List IndexedPage → List IndexedPage
distinct_from seen [] = []
distinct_from seen (p ∷ ps) =
    let rest = distinct_from (p ∷ seen) ps in
    let skipped = distinct_from seen ps in if any (same_page p) seen then skipped else p ∷ rest

abbrev pub only : Method → List IndexedPage → Option Located
only method [] = none
only method (p ∷ []) = some (some p, method)
only method (p ∷ q ∷ qs) = none

-- `exact.length === 1 && repaired.every(page => page === exact[0])`.
unfoldable pub exact_page : List IndexedPage → List IndexedPage → Option Located
exact_page [] repaired = none
exact_page (p ∷ []) repaired = if all (same_page p) repaired then some (some p, exact) else none
exact_page (p ∷ q ∷ qs) repaired = none

abbrev pub is_manual : Method → Bool
is_manual exact = false
is_manual normalized = false
is_manual manual_required = true

abbrev pub or_null : Text → Option Text
or_null [] = none
or_null (c ∷ cs) = some (c ∷ cs)

-- The one page that matches, or all.
unfoldable pub narrowed : List IndexedPage → List IndexedPage → List IndexedPage
narrowed [] pages = pages
narrowed (p ∷ []) pages = p ∷ []
narrowed (p ∷ q ∷ qs) pages = pages

module _ (texts : Texts) where
  abbrev pub is_repaired_on : Text → IndexedPage → Bool
  is_repaired_on quote p =
      contains_with_pdf_word_fragment_repair texts.is_alphabetic texts.lexemes p.normalized_text
        quote

  abbrev pub is_exact_on : Text → IndexedPage → Bool
  is_exact_on quote p = contains p.text quote

  abbrev pub is_normalized_on : Text → IndexedPage → Bool
  is_normalized_on quote p = contains p.normalized_text quote

  -- The pages that are searched: the one page that holds the chunk, if there is just one.
  unfoldable pub candidate_pages : CitationCandidate → PdfPageIndex → Option (List IndexedPage)
  candidate_pages candidate index = elim candidate.chunk_id [
    | none ↦ some index.pages
    | some id ↦ elim (find (λ (c : EvidenceChunk). text_eq c.chunk_id id) index.chunks) [
      | none ↦ none
      | some chunk ↦
          if not (text_eq chunk.document_sha256 candidate.document_sha256)
          then none
          else some (
              narrowed (filter (λ (p : IndexedPage). contains p.text chunk.text) index.pages)
                index.pages)
    ]
  ]

  -- The search in the candidate pages, of the trimmed quote and of the normalized one.
  unfoldable pub find_in : Text → List IndexedPage → Located
  find_in quote pages =
      let normal = texts.normalize quote in
      let repaired = filter (is_repaired_on normal) pages in
      elim (exact_page (filter (is_exact_on quote) pages) repaired) [
        | some located ↦ located
        | none ↦
            if ltb (length normal) 8
            then not_located
            else elim (only normalized
                (distinct_from [] (filter (is_normalized_on normal) pages ++ repaired))) [
                  | some located ↦ located
                  | none ↦ not_located
                ]
      ]

  unfoldable pub find_page : CitationCandidate → PdfPageIndex → Located
  find_page candidate index = elim (texts.trim candidate.evidence_quote) [
    | [] ↦ not_located
    | c ∷ cs ↦ elim (candidate_pages candidate index) [
      | none ↦ not_located
      | some pages ↦ find_in (c ∷ cs) pages
    ]
  ]

  unfoldable pub document_of : List CitationDocument → String → Option CitationDocument
  document_of documents sha =
      find (λ (d : CitationDocument). text_eq d.index.document_sha256 (texts.lower sha)) documents

  abbrev pub bounded_quote : CitationCandidate → Text
  bounded_quote candidate = take 500 (texts.trim candidate.evidence_quote)

  abbrev pub section_of : Option Text → Option Text
  section_of none = none
  section_of (some t) = or_null (texts.trim t)

  abbrev pub quote_or : Text → Text
  quote_or [] = texts.no_quote
  quote_or (c ∷ cs) = c ∷ cs

  abbrev pub document_name : Option CitationDocument → String
  document_name none = "Unknown document"
  document_name (some d) = d.name

  abbrev pub document_url : Option CitationDocument → Option String
  document_url none = none
  document_url (some d) = d.source_url

  abbrev pub representation_of : Option CitationDocument → String
  representation_of none = texts.digest texts.missing_document
  representation_of (some d) = d.index.representation_sha256

  abbrev pub page_number : Option IndexedPage → Option ℕ
  page_number none = none
  page_number (some p) = some p.pdf_page_1based

  abbrev pub page_label : Option IndexedPage → Option String
  page_label none = none
  page_label (some p) = p.printed_page_label

  unfoldable pub located_in : CitationCandidate → Option CitationDocument → Located
  located_in candidate none = not_located
  located_in candidate (some d) =
      find_page (record candidate { evidence_quote = bounded_quote candidate }) d.index

  unfoldable pub verification :
      CitationCandidate → Option CitationDocument → Located → String → CitationVerification
  verification candidate document (page, method) receipt_id =
      let verified = is_some document && is_some page && not (is_manual method) in
      (
        record {
          document_sha256 = texts.lower candidate.document_sha256;
          document_name = document_name document;
          source_url = document_url document;
          pdf_page_1based = page_number page;
          printed_page_label = page_label page;
          section = section_of candidate.section;
          evidence_quote = quote_or (bounded_quote candidate);
          verified = verified;
          verification_method = method;
        },
        record {
          receipt_id = receipt_id;
          document_sha256 = texts.lower candidate.document_sha256;
          representation_sha256 = representation_of document;
          fragment_sha256 = texts.digest (texts.normalize (bounded_quote candidate));
          pdf_page_1based = page_number page;
          method = method;
          verified = verified;
        },
      )

  -- `receipt_id` is the random id of the receipt.
  unfoldable pub verify_citation :
      CitationCandidate → List CitationDocument → String → CitationVerification
  unfolding verification located_in
  verify_citation candidate documents receipt_id =
      let document = document_of documents candidate.document_sha256 in
      verification candidate document (located_in candidate document) receipt_id

-- Whether citations bear a statement: some, all of them verified on a page.
unfoldable pub all_citations_verified : List Citation → Bool
all_citations_verified citations =
    ltb 0 (length citations)
    && all (λ (c : Citation). c.verified && is_some c.pdf_page_1based) citations

-- The digest in lower case.
unfoldable pub citations_match_document : List Citation → String → Bool
citations_match_document citations expected =
    ltb 0 (length citations)
    && all (λ (c : Citation). c.verified && text_eq c.document_sha256 expected) citations
