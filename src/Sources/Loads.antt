-- ===== src/Sources/Loads.antt =====
-- src/lib/storage/source-reader.ts: loadSource for the documents of a run, over the local storage. A
-- method that throws leaves the storage as it was; what was stored before stays. That the bytes in
-- memory are overwritten with zeros is left out.
use monidhackson.Base.{
  ℕ, String, Bool, true, false, not, ◌&&◌, List, [], ◌∷◌, Option, none, some, text_eq, concat,
  decimal, ◌==◌, if◌then◌else◌,
}
use monidhackson.Errors.{
  AppError, ErrorCode, Result, ok, err, ◌>>=◌, source_unreachable, source_cleanup_pending,
  unsupported_media,
}
use monidhackson.Contracts.{DocumentSource, url, upload}
use monidhackson.Runs.Types.{Instant}
use monidhackson.Uploads.{
  Bytes, LocalUploadStorage, UploadClaim, claim_incoming, read, stage, purge_incoming_to_fence,
}
use monidhackson.Sources.{
  Url, Platform, refusal, assert_pdf_bytes, validate_canada_buys_url, normalize_filename,
}
use monidhackson.Sources.Reader.{Response, fetch_canada_buys_pdf}

-- `resource_ids` are those of the cleanup targets, in order.
pub record LoadedSource : Type 0 where
  pub source_name : String
  pub source_url : Option String
  pub blob_path : Option String
  pub bytes : Bytes
  pub sha256 : String
  pub resource_ids : List String

pub record SourceReader : Type 0 where
  pub platform : Platform
  pub network : ℕ → Url → Result Response
  pub digest : Bytes → String
  pub filename_from_url : String → String
  pub owner_id : String
  pub run_id : String
  pub document_index : ℕ
  pub now : Instant

abbrev pub Loading : Type 0 → Type 0
Loading A = LocalUploadStorage × Result A

abbrev pub digest_mismatch : AppError
digest_mismatch =
    refusal unsupported_media "The uploaded PDF SHA-256 does not match its declaration." 422

abbrev pub not_fenced : AppError
not_fenced = record {
  code = source_cleanup_pending;
  message = "The incoming upload could not be replaced by its replay fence.";
  http_status = 400;
  retryable = true;
}

abbrev pub staging_blob_path : String → ℕ → String
staging_blob_path run_id index =
    concat "staging/" (concat run_id (concat "/" (concat (decimal index) "/source.pdf")))

abbrev pub stage_resource_id : String → ℕ → String
stage_resource_id run_id index = concat "staged:" (concat run_id (concat ":" (decimal index)))

abbrev is_unreachable : ErrorCode → Bool
is_unreachable source_unreachable = true
is_unreachable _ = false

-- Nothing is staged yet, or the bytes that are.
unfoldable pub read_existing_stage : String → LocalUploadStorage → Result (Option Bytes)
read_existing_stage path s = elim (read path s) [
  | ok bytes ↦ ok (some bytes)
  | err e ↦ if is_unreachable e.code && e.http_status == 404 then ok none else err e
]

unfoldable pub staged_or : Option Bytes → Result Bytes → Result Bytes
staged_or none bytes = bytes
staged_or (some staged) bytes = ok staged

unfoldable pub stage_new :
    (Bytes → String)
    → Option Bytes
    → String
    → Bytes
    → LocalUploadStorage
    → Result LocalUploadStorage
stage_new digest (some staged) path bytes s = ok s
stage_new digest none path bytes s = stage digest path bytes s

abbrev pub staged_path : SourceReader → String
staged_path reader = staging_blob_path reader.run_id reader.document_index

-- The bytes of an upload, staged already or read from the incoming path, checked against what the
-- request declares.
unfoldable pub upload_bytes :
    SourceReader → String → String → ℕ → LocalUploadStorage → Result (Option Bytes × Bytes)
upload_bytes reader blob_path sha256 size s =
    read_existing_stage (staged_path reader) s >>= λ existing.
    staged_or existing (read blob_path s) >>= λ bytes. assert_pdf_bytes bytes (some size) >>= λ _.
    if not (text_eq (reader.digest bytes) sha256) then err digest_mismatch else ok (existing, bytes)

-- The last part: the incoming object gives way to its fence, and the file name is checked.
unfoldable pub fence_upload :
    SourceReader → String → String → Bytes → LocalUploadStorage → Loading LoadedSource
fence_upload reader blob_path filename bytes s =
    elim (purge_incoming_to_fence blob_path (some reader.run_id) s) [
      | err e ↦ (s, err not_fenced)
      | ok t ↦ (
        t,
        normalize_filename reader.platform filename >>= λ name. ok (record {
          source_name = name;
          source_url = none;
          blob_path = some blob_path;
          bytes = bytes;
          sha256 = reader.digest bytes;
          resource_ids =
              concat "blob:" blob_path ∷ stage_resource_id reader.run_id reader.document_index ∷ [];
        }),
      )
    ]

abbrev pub upload_claim : SourceReader → String → String → ℕ → UploadClaim
upload_claim reader blob_path sha256 size = record {
  owner_id = reader.owner_id;
  run_id = reader.run_id;
  blob_path = blob_path;
  expected_sha256 = sha256;
  expected_size = size;
}

unfoldable pub load_upload :
    SourceReader → String → String → ℕ → String → LocalUploadStorage → Loading LoadedSource
load_upload reader blob_path sha256 size filename s =
    elim (claim_incoming (upload_claim reader blob_path sha256 size) reader.now s) [
      | err e ↦ (s, err e)
      | ok claimed ↦ elim (upload_bytes reader blob_path sha256 size claimed) [
        | err e ↦ (claimed, err e)
        | ok (existing, bytes) ↦
            elim (stage_new reader.digest existing (staged_path reader) bytes claimed) [
              | err e ↦ (claimed, err e)
              | ok staged ↦ fence_upload reader blob_path filename bytes staged
            ]
      ]
    ]

-- A document that is named by its URL: downloaded unless it is staged already.
unfoldable pub fetched_or_staged :
    SourceReader → String → Option Bytes → List Url × Result (Bytes × String)
fetched_or_staged reader raw none = fetch_canada_buys_pdf reader.platform reader.network raw
fetched_or_staged reader raw (some bytes) = (
  [],
  validate_canada_buys_url reader.platform raw >>= λ u. ok (bytes, reader.platform.print_url u),
)

unfoldable pub stage_fetched :
    SourceReader
    → Option Bytes
    → Bytes × String
    → LocalUploadStorage
    → Result (LocalUploadStorage × Bytes × String)
stage_fetched reader existing (bytes, address) s = assert_pdf_bytes bytes none >>= λ _.
    stage_new reader.digest existing (staged_path reader) bytes s >>= λ t. ok (t, bytes, address)

unfoldable pub load_fetched :
    SourceReader
    → Option Bytes
    → Result (Bytes × String)
    → LocalUploadStorage
    → Loading LoadedSource
load_fetched reader existing fetched s = elim (fetched >>= λ f. stage_fetched reader existing f s) [
  | err e ↦ (s, err e)
  | ok (t, bytes, address) ↦ (
    t,
    ok (record {
      source_name = reader.filename_from_url address;
      source_url = some address;
      blob_path = none;
      bytes = bytes;
      sha256 = reader.digest bytes;
      resource_ids = stage_resource_id reader.run_id reader.document_index ∷ [];
    }),
  )
]

unfoldable pub load_url :
    SourceReader → String → LocalUploadStorage → List Url × Loading LoadedSource
load_url reader raw s = elim (read_existing_stage (staged_path reader) s) [
  | err e ↦ ([], (s, err e))
  | ok existing ↦
      let (log, fetched) = fetched_or_staged reader raw existing in
      (log, load_fetched reader existing fetched s)
]

unfoldable pub load_source :
    SourceReader → DocumentSource → LocalUploadStorage → List Url × Loading LoadedSource
load_source reader (url raw) s = load_url reader raw s
load_source reader (upload blob_path sha256 size filename) s =
    ([], load_upload reader blob_path sha256 size filename s)
