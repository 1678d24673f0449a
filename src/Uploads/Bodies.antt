-- ===== src/Uploads/Bodies.antt =====
-- src/lib/storage/uploads.ts: the reading of a bounded body, and the upload under a grant.
use mathlib.Core.List.{append-nil, append_assoc}
use monidhackson.Base.{
  ℕ, ◌+◌, ◌≤◌, ◌≡◌, refl, inl, inr, String, Bool, true, false, not, ◌&&◌, ◌||◌, List, [], ◌∷◌, ◌++◌,
  Option, none, some, length, length-append, text_eq, ltb, leb, ◌==◌, lookup, insert, if◌then◌else◌,
  min, Bool-cases, arith,
}
use monidhackson.Errors.{
  AppError, Result, ok, err, ◌>>=◌, unsafe_url, unsupported_media, file_too_large,
}
use monidhackson.Runs.Types.{Instant}
use monidhackson.Uploads.{Bytes, LocalGrant, LocalUploadStorage, max_pdf_bytes, is_issued, uploaded}

-- `content_length` is none where the header is absent or no number; `content_type` is the trimmed
-- media type in lower case; a request without a body has no chunks.
pub record PutRequest : Type 0 where
  pub content_length : Option ℕ
  pub content_type : Option String
  pub body : Option (List Bytes)

abbrev pub media_error : String → ℕ → AppError
media_error message status = record {
  code = unsupported_media;
  message = message;
  http_status = status;
  retryable = false;
}

abbrev pub body_too_large : AppError
body_too_large = record {
  code = file_too_large;
  message = "The upload exceeds its signed size.";
  http_status = 413;
  retryable = false;
}

abbrev pub grant_not_usable : AppError
grant_not_usable = record {
  code = unsafe_url;
  message = "The upload grant is invalid, expired, or already used.";
  http_status = 410;
  retryable = false;
}

-- `received` is what was read before; the chunks are joined at the end.
unfoldable pub read_chunks : List Bytes → ℕ → ℕ → Bytes → Result Bytes
read_chunks [] maximum received joined = ok joined
read_chunks (c ∷ cs) maximum received joined =
    elim (ltb maximum (received + length c) || ltb max_pdf_bytes (received + length c)) [
      | true ↦ err body_too_large
      | false ↦ read_chunks cs maximum (received + length c) (joined ++ c)
    ]

unfoldable pub read_bounded_stream : List Bytes → ℕ → Result Bytes
read_bounded_stream chunks maximum = read_chunks chunks maximum 0 []

abbrev pub grant_by_token : String → LocalUploadStorage → Option LocalGrant
grant_by_token token s = elim (lookup token s.tokens) [
  | none ↦ none
  | some path ↦ lookup path s.grants
]

abbrev pub is_wrong_length : Option ℕ → ℕ → Bool
is_wrong_length none size = false
is_wrong_length (some n) size = not (n == size)

abbrev pub is_wrong_type : Option String → Bool
is_wrong_type none = false
is_wrong_type (some t) = not (text_eq t "") && not (text_eq t "application/pdf")

-- The object is stored, and the grant, if it is still there, has been used.
abbrev pub stored : LocalGrant → Bytes → LocalUploadStorage → LocalUploadStorage
stored g bytes s = record s {
  objects = insert g.blob_path bytes s.objects;
  grants = elim (lookup g.blob_path s.grants) [
    | none ↦ s.grants
    | some current ↦ insert g.blob_path (record current { status = uploaded }) s.grants
  ];
}

-- What is refused before the body is read.
unfoldable pub refused_head : LocalGrant → PutRequest → Option AppError
refused_head g request =
    if is_wrong_length request.content_length g.expected_size
    then some (media_error "The upload size does not match the signed request." 422)
    else elim request.body [
      | none ↦ some (media_error "The PDF upload body is empty." 422)
      | some chunks ↦ none
    ]

abbrev pub chunks_of : PutRequest → List Bytes
chunks_of request = elim request.body [ none ↦ [] | some chunks ↦ chunks ]

unfoldable pub checked_body : (Bytes → String) → LocalGrant → PutRequest → Result Bytes
checked_body digest g request = read_bounded_stream (chunks_of request) g.expected_size >>= λ bytes.
    if not (length bytes == g.expected_size) || not (text_eq (digest bytes) g.expected_sha256)
    then err (media_error "The upload does not match its signed size and SHA-256." 422)
    else if is_wrong_type request.content_type
    then err (media_error "Only application/pdf uploads are accepted." 415)
    else ok bytes

-- `while_reading` is what others do to the storage while the body arrives.
unfoldable pub accept_put :
    (Bytes → String)
    → (LocalUploadStorage → LocalUploadStorage)
    → String
    → PutRequest
    → Instant
    → LocalUploadStorage
    → LocalUploadStorage × Result (Unit {0})
accept_put digest while_reading token request now s = elim (grant_by_token token s) [
  | none ↦ (s, err grant_not_usable)
  | some g ↦
      if leb g.expires_at now || not (is_issued g.status)
      then (s, err grant_not_usable)
      else elim (refused_head g request) [
        | some e ↦ (s, err e)
        | none ↦ elim (checked_body digest g request) [
          | err e ↦ (while_reading s, err e)
          | ok bytes ↦ (stored g bytes (while_reading s), ok tt)
        ]
      ]
]

-- The chunks one after another.
abbrev pub joined : List Bytes → Bytes
joined [] = []
joined (c ∷ cs) = c ++ joined cs

abbrev Bounded : List Bytes → ℕ → Bytes → Type 0
Bounded cs maximum acc = read_chunks cs maximum (length acc) acc ≡ (
    if ltb (min maximum max_pdf_bytes) (length (acc ++ joined cs))
    then err body_too_large
    else ok (acc ++ joined cs))

read_chunks-joined :
    (cs : List Bytes) (maximum : ℕ) (acc : Bytes)
    → length acc ≤ maximum
    → length acc ≤ max_pdf_bytes
    → Bounded cs maximum acc
unfolding read_chunks
read_chunks-joined [] maximum acc small fits =
    let fitting : ltb (min maximum max_pdf_bytes) (length acc) ≡ false = ground arith in
    rw append-nil (rw fitting refl)
read_chunks-joined (c ∷ cs) maximum acc small fits =
    elim (Bool-cases
      (ltb maximum (length acc + length c) || ltb max_pdf_bytes (length acc + length c))) [
        | inl over ↦
            let longer : ltb (min maximum max_pdf_bytes) (length (acc ++ (c ++ joined cs))) ≡ true =
              let n = length-append acc (c ++ joined cs) in
              let m = length-append c (joined cs) in ground arith in
            rw (over, longer, read_chunks) refl
        | inr under ↦
            let n = length-append acc c in
            let rest = read_chunks-joined cs maximum (acc ++ c) (ground arith) (ground arith) in
            rw (under, read_chunks) (rw (n, append_assoc) at rest)
      ]

-- A body is read exactly as far as it fits: the bytes are those of its chunks in order, and a body
-- longer than its signed size or than 25 MB is refused, however it is cut into chunks.
pub read_bounded_stream_lem :
    (chunks : List Bytes) (maximum : ℕ)
    → read_bounded_stream chunks maximum ≡ (
        if ltb (min maximum max_pdf_bytes) (length (joined chunks))
        then err body_too_large
        else ok (joined chunks))
unfolding read_bounded_stream
read_bounded_stream_lem chunks maximum =
    read_chunks-joined chunks maximum [] (omega arith) (omega arith)
