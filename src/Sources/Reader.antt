-- ===== src/Sources/Reader.antt =====
-- src/lib/storage/source-reader.ts: the download of a PDF from CanadaBuys, redirect by redirect.
-- Every request that is made is kept, in order; the network answers a request by its number.
use monidhackson.Base.{
  ℕ, zero, suc, ◌+◌, String, Bool, true, false, not, ◌&&◌, ◌||◌, List, [], ◌∷◌, ◌++◌, Option, none,
  some, length, ltb, leb, ◌==◌, if◌then◌else◌,
}
use monidhackson.Errors.{AppError, Result, ok, err, ◌>>=◌, source_unreachable, analysis_incomplete}
use monidhackson.Uploads.{Bytes}
use monidhackson.Sources.{
  Url, Platform, max_document_bytes, too_large, assert_pdf_bytes, validate_canada_buys_url,
}

-- An empty header is none; `content_length` is none where it is no number.
pub record Response : Type 0 where
  pub status : ℕ
  pub location : Option String
  pub content_length : Option ℕ
  pub body : Option (List Bytes)

abbrev pub unreachable : String → Bool → AppError
unreachable message retryable = record {
  code = source_unreachable;
  message = message;
  http_status = 502;
  retryable = retryable;
}

abbrev pub redirect_not_followed : AppError
redirect_not_followed = unreachable "The CanadaBuys PDF redirect could not be followed." true

-- What `new URL` throws, which the application reports as unexpected.
abbrev pub unresolved : AppError
unresolved = record {
  code = analysis_incomplete;
  message = "The request could not be completed.";
  http_status = 500;
  retryable = true;
}

-- The chunks that are left, what was read before, and its length.
unfoldable pub read_body : List Bytes → ℕ → ℕ → Bytes → Result Bytes
read_body [] max_bytes total output = ok output
read_body (c ∷ cs) max_bytes total output = elim (ltb max_bytes (total + length c)) [
  | true ↦ err too_large
  | false ↦ read_body cs max_bytes (total + length c) (output ++ c)
]

abbrev pub declares_more : Option ℕ → ℕ → Bool
declares_more none max_bytes = false
declares_more (some n) max_bytes = ltb max_bytes n

abbrev body_of : Option (List Bytes) → List Bytes
body_of none = []
body_of (some chunks) = chunks

unfoldable pub read_bounded_body : Response → ℕ → Result Bytes
unfolding read_body
read_bounded_body response max_bytes =
    if declares_more response.content_length max_bytes
    then err too_large
    else read_body (body_of response.body) max_bytes 0 []

abbrev pub is_redirect : ℕ → Bool
is_redirect status = leb 300 status && ltb status 400

abbrev pub is_success : ℕ → Bool
is_success status = leb 200 status && ltb status 300

module _ (platform : Platform) where
  unfoldable pub redirect_target : Option String → Url → Result Url
  redirect_target none current = err redirect_not_followed
  redirect_target (some location) current = elim (platform.resolve_url location current) [
    | none ↦ err unresolved
    | some u ↦ validate_canada_buys_url platform (platform.print_url u)
  ]

  -- A response that is no redirect.
  unfoldable pub answered : Response → Url → Result (Bytes × String)
  answered response current =
      if not (is_success response.status)
      then err (
          unreachable "The CanadaBuys PDF could not be downloaded."
            (leb 500 response.status || response.status == 429))
      else read_bounded_body response max_document_bytes >>= λ bytes.
          assert_pdf_bytes bytes none >>= λ _. ok (bytes, platform.print_url current)

module _ (platform : Platform) (network : ℕ → Url → Result Response) where
  -- How many redirects may still follow, the URL that is asked for next, and the requests made.
  unfoldable pub fetch_rounds : ℕ → Url → List Url → List Url × Result (Bytes × String)
  fetch_rounds zero current log = elim (network (length log) current) [
    | err e ↦ (log ++ current ∷ [], err e)
    | ok r ↦ (
      log ++ current ∷ [],
      if is_redirect r.status then err redirect_not_followed else answered platform r current,
    )
  ]
  fetch_rounds (suc left) current log = elim (network (length log) current) [
    | err e ↦ (log ++ current ∷ [], err e)
    | ok r ↦ elim (is_redirect r.status) [
      | false ↦ (log ++ current ∷ [], answered platform r current)
      | true ↦ elim (redirect_target platform r.location current) [
        | err e ↦ (log ++ current ∷ [], err e)
        | ok next ↦ fetch_rounds left next (log ++ current ∷ [])
      ]
    ]
  ]

  unfoldable pub fetch_canada_buys_pdf : String → List Url × Result (Bytes × String)
  fetch_canada_buys_pdf raw = elim (validate_canada_buys_url platform raw) [
    | err e ↦ ([], err e)
    | ok u ↦ fetch_rounds 3 u []
  ]
