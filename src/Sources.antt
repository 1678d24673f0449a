-- ===== src/Sources.antt =====
-- src/lib/source-validation.ts: which sources a request may name, and which bytes are a PDF. The
-- parser and printer of URLs, the lower case of a text, its code units and the clean-up of a file
-- name belong to the platform and are arguments; a request has passed its schema.
pub mod Reader
pub mod Fetches
pub mod Loads
pub mod Staged
use monidhackson.Base.{
  ℕ, ◌+◌, String, Bool, true, false, not, ◌&&◌, ◌||◌, List, [], ◌∷◌, Option, none, some, length,
  take, any, text_eq, ltb, leb, ◌==◌, if◌then◌else◌, sum_by,
}
use monidhackson.Errors.{
  AppError, ErrorCode, Result, ok, err, ◌>>=◌, ◌>>◌, unsafe_url, unsupported_media, file_too_large,
  analysis_incomplete,
}
use monidhackson.Contracts.{RunDocumentInput, DocumentSource, upload, url, CreateRunRequest}
use monidhackson.PageIndex.{Text}
use monidhackson.Uploads.{Bytes}
use monidhackson.Citations.Repair.{same_text, has_prefix, contains}

abbrev pub max_document_bytes : ℕ
max_document_bytes = 26214400

abbrev pub max_package_pages : ℕ
max_package_pages = 300

abbrev pub allowed_url_host : String
allowed_url_host = "canadabuys.canada.ca"

-- `rest` is the path with the query; an absent part is "".
pub record Url : Type 0 where
  pub protocol : String
  pub username : String
  pub password : String
  pub hostname : String
  pub port : String
  pub rest : String
  pub hash : String

-- `resolve_url` is `new URL(location, base)`; `units` are the code units of a text.
pub record Platform : Type 0 where
  pub parse_url : String → Option Url
  pub resolve_url : String → Url → Option Url
  pub print_url : Url → String
  pub lower : String → String
  pub units : String → Text
  pub clean_filename : String → String

abbrev pub refusal : ErrorCode → String → ℕ → AppError
refusal code message status = record {
  code = code;
  message = message;
  http_status = status;
  retryable = false;
}

abbrev pub invalid_url : AppError
invalid_url = refusal unsafe_url "The source URL is not valid." 400

abbrev pub host_not_accepted : AppError
host_not_accepted = refusal unsafe_url "Only HTTPS URLs on canadabuys.canada.ca are accepted." 400

abbrev pub filename_refused : AppError
filename_refused = refusal unsupported_media "A safe PDF filename is required." 400

abbrev pub not_this_session : AppError
not_this_session = refusal unsafe_url "The upload reference is invalid for this session." 403

abbrev pub too_large : AppError
too_large = refusal file_too_large "Each PDF must be 25 MB or smaller." 413

abbrev pub size_out_of_range : AppError
size_out_of_range = refusal file_too_large "Each PDF must be between 1 byte and 25 MB." 413

abbrev pub size_mismatch : AppError
size_mismatch =
    refusal unsupported_media "The uploaded PDF size does not match its declaration." 400

abbrev pub no_pdf : AppError
no_pdf = refusal unsupported_media "The source is not a PDF file." 415

abbrev pub is_set : String → Bool
is_set s = not (text_eq s "")

-- The bytes of "%PDF-".
abbrev pub pdf_signature : Bytes
pdf_signature = 37 ∷ 80 ∷ 68 ∷ 70 ∷ 45 ∷ []

abbrev pub declares_other_size : Option ℕ → ℕ → Bool
declares_other_size none size = false
declares_other_size (some n) size = not (size == n)

unfoldable pub assert_pdf_bytes : Bytes → Option ℕ → Result (Unit {0})
assert_pdf_bytes bytes declared_size =
    if length bytes == 0 || ltb max_document_bytes (length bytes)
    then err size_out_of_range
    else if declares_other_size declared_size (length bytes)
    then err size_mismatch
    else if not (same_text (take 5 bytes) pdf_signature)
    then err no_pdf
    else ok tt

unfoldable pub assert_aggregate_pages : (ℕ → String) → List ℕ → Result (Unit {0})
assert_aggregate_pages message page_counts =
    if ltb max_package_pages (sum_by (λ n. n) page_counts)
    then err (refusal analysis_incomplete (message (sum_by (λ n. n) page_counts)) 422)
    else ok tt

unfoldable pub ends_with : Text → Text → Bool
ends_with [] suffix = same_text [] suffix
ends_with (c ∷ cs) suffix = same_text (c ∷ cs) suffix || ends_with cs suffix

module _ (platform : Platform) where
  abbrev pub is_accepted : Url → Bool
  is_accepted u =
      text_eq u.protocol "https:"
      && text_eq (platform.lower u.hostname) allowed_url_host
      && not (is_set u.username)
      && not (is_set u.password)
      && not (is_set u.port && not (text_eq u.port "443"))

  unfoldable pub checked_url : Option Url → Result Url
  checked_url none = err invalid_url
  checked_url (some u) =
      if not (is_accepted u)
      then err host_not_accepted
      else ok (record u { hash = ""; hostname = allowed_url_host })

  unfoldable pub validate_canada_buys_url : String → Result Url
  unfolding checked_url
  validate_canada_buys_url raw = checked_url (platform.parse_url raw)

  unfoldable pub normalize_filename : String → Result String
  normalize_filename filename =
      let normalized = platform.clean_filename filename in
      let units = platform.units normalized in
      if length units == 0
        || ltb 200 (length units)
        || not (ends_with (platform.units (platform.lower normalized)) (platform.units ".pdf"))
        || contains units (platform.units "/")
        || contains units (platform.units "\\")
        || text_eq normalized ".pdf"
      then err filename_refused
      else ok normalized

  -- `prefix` is `incoming/`, the namespace of the owner and `/`.
  unfoldable pub assert_owned_blob_path : String → String → Result (Unit {0})
  assert_owned_blob_path prefix blob_path =
      if not (has_prefix (platform.units blob_path) (platform.units prefix))
        || contains (platform.units blob_path) (platform.units "..")
        || ltb 512 (length (platform.units blob_path))
      then err not_this_session
      else ok tt

  abbrev pub owned : Option String → String → Result (Unit {0})
  owned none blob_path = ok tt
  owned (some prefix) blob_path = assert_owned_blob_path prefix blob_path

  -- The owner's prefix is none where the caller names no owner or no secret.
  unfoldable pub normalize_source : Option String → DocumentSource → Result DocumentSource
  normalize_source prefix (url raw) =
      validate_canada_buys_url raw >>= λ u. ok (url (platform.print_url u))
  normalize_source prefix (upload blob_path sha256 size filename) =
      if ltb max_document_bytes size
      then err too_large
      else owned prefix blob_path
        >> (normalize_filename filename >>= λ name. ok (upload blob_path sha256 size name))

  unfoldable pub normalize_documents :
      Option String → List RunDocumentInput → Result (List RunDocumentInput)
  normalize_documents prefix [] = ok []
  normalize_documents prefix (d ∷ ds) = normalize_source prefix d.source >>= λ source.
      normalize_documents prefix ds >>= λ rest. ok (record d { source = source } ∷ rest)

  unfoldable pub validate_create_run_request :
      Option String → CreateRunRequest → Result CreateRunRequest
  validate_create_run_request prefix request =
      normalize_documents prefix request.documents >>= λ documents.
      ok (record { documents = documents })
