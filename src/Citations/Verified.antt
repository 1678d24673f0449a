-- ===== src/Citations/Verified.antt =====
-- src/lib/evidence/citations.ts: what a citation that counts as verified stands on.
use monidhackson.Base.{◌≤◌, ◌≡◌, ◌⊎◌, true, List, some, length}
use monidhackson.Base.Members.{IsIn}
use monidhackson.PageIndex.{Text}
use monidhackson.Citations.Repair.{contains, min_repaired_quote_length}
use monidhackson.Citations.Splits.{Occurs}
use monidhackson.Citations.Pages.{
  IndexedPage, PdfPageIndex, CitationCandidate, CitationDocument, Citation, Method, exact,
  normalized, manual_required, Texts, candidate_pages, bounded_quote,
}

module _ (texts : Texts) where
  -- The page has the quote but for words that the PDF has split.
  abbrev pub IsRepaired : Text → IndexedPage → Type 0
  IsRepaired quote p =
      (min_repaired_quote_length ≤ length quote)
      × Occurs texts.is_alphabetic (texts.lexemes quote) (texts.lexemes p.normalized_text)

  -- The page reads the quote word for word, no other page that is searched does, and none reads it
  -- with split words.
  pub record IsExact (quote : Text) (pages : List IndexedPage) (page : IndexedPage) : Type 0 where
    pub reads : contains page.text quote ≡ true
    pub no_other : (q : IndexedPage) → IsIn q pages → contains q.text quote ≡ true → q ≡ page
    pub no_repair :
        (q : IndexedPage)
        → IsIn q pages
        → IsRepaired (texts.normalize quote) q
        → page.pdf_page_1based ≡ q.pdf_page_1based

  abbrev pub ReadsNormalized : Text → IndexedPage → Type 0
  ReadsNormalized quote p = (contains p.normalized_text quote ≡ true) ⊎ IsRepaired quote p

  -- The normalized page reads the normalized quote, if need be with split words, and no other page
  -- that is searched does.
  pub record IsNormalized (quote : Text) (pages : List IndexedPage) (page : IndexedPage)
      : Type 0 where
    pub long : 8 ≤ length (texts.normalize quote)
    pub reads : ReadsNormalized (texts.normalize quote) page
    pub no_other :
        (q : IndexedPage)
        → IsIn q pages
        → ReadsNormalized (texts.normalize quote) q
        → q.pdf_page_1based ≡ page.pdf_page_1based

  abbrev pub IsEvidenceBy : Method → Text → List IndexedPage → IndexedPage → Type 0
  IsEvidenceBy exact quote pages page = IsExact quote pages page
  IsEvidenceBy normalized quote pages page = IsNormalized quote pages page
  IsEvidenceBy manual_required quote pages page = ⊥

  -- What a citation stands on: a document that was given, with the digest of the candidate, and a
  -- page of it that is evidence for the quote by the citation's method.
  pub record IsEvidenced (candidate : CitationCandidate) (documents : List CitationDocument)
      (citation : Citation) : Type 0 where
    pub document : CitationDocument
    pub given : IsIn document documents
    pub same_digest : document.index.document_sha256 ≡ texts.lower candidate.document_sha256
    pub page : IndexedPage
    pub on_page : IsIn page document.index.pages
    pub number : citation.pdf_page_1based ≡ some page.pdf_page_1based
    pub searched : List IndexedPage
    pub evidence :
        IsEvidenceBy citation.verification_method
          (texts.trim (bounded_quote texts candidate))
          searched
          page
    pub all_searched :
        candidate_pages texts
          (record candidate { evidence_quote = bounded_quote texts candidate })
          document.index
        ≡ some searched

  -- What `find_page` found.
  record IsFound (candidate : CitationCandidate) (index : PdfPageIndex) (page : IndexedPage)
      (method : Method) : Type 0 where
    searched : List IndexedPage
    all_searched : candidate_pages texts candidate index ≡ some searched
    inside : IsIn page searched
    evidence : IsEvidenceBy method (texts.trim candidate.evidence_quote) searched page
