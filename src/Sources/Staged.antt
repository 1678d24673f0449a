-- ===== src/Sources/Staged.antt =====
-- src/lib/storage/source-reader.ts: what loading an upload leaves in the storage.
use monidhackson.Base.{
  ℕ, ◌≡◌, ◌≢◌, refl, sym, ap, subst, ◌∙◌, inl, inr, String, not, ◌||◌, Option, none, some, length,
  lookup, delete, lookup-insert_self, lookup-delete, lookup-delete_self, text_eq, eq_iff,
  Bool-cases, Option-cases, arith,
}
use monidhackson.Errors.{Result, ok, err, ok-injective, Result-cases}
use monidhackson.Contracts.{upload}
use monidhackson.Uploads.{
  Bytes, LocalUploadStorage, claim_incoming, read, stage, purge_incoming_to_fence, upload_not_found,
  is_claimed, is_other_run,
}
use monidhackson.Sources.{assert_pdf_bytes, normalize_filename}
use monidhackson.Sources.Fetches.{IsPdf, assert_pdf_bytes-IsPdf}
use monidhackson.Sources.Loads.{
  LoadedSource, SourceReader, staged_path, read_existing_stage, staged_or, stage_new, upload_bytes,
  upload_claim, fence_upload, load_upload, load_source,
}

-- The bytes that pass have the declared size.
assert_pdf_bytes-size :
    (bytes : Bytes) (n : ℕ) → assert_pdf_bytes bytes (some n) ≡ ok tt → length bytes ≡ n
unfolding assert_pdf_bytes
assert_pdf_bytes-size bytes n h = ground arith

stage-stores :
    (digest : Bytes → String) (path : String) (bytes : Bytes) (s t : LocalUploadStorage)
    → stage digest path bytes s ≡ ok t
    → lookup path t.objects ≡ some bytes
unfolding stage
stage-stores digest path bytes s t h = elim (Option-cases (lookup path s.objects)) [
  | inl absent ↦
      let made =
        ap (λ (u : LocalUploadStorage). u.objects) (ok-injective (rw (absent, stage) at h)) in
      rw (← made) (lookup-insert_self path bytes s.objects)
  | inr (old, found) ↦ elim (Bool-cases (text_eq (digest old) (digest bytes))) [
    | inr other ↦ let bad = rw (found, other, stage) at h in cc
    | inl same ↦
        let made =
          ap (λ (u : LocalUploadStorage). u.objects)
            (ok-injective (rw (found, same, stage) at h)) in
        rw (← made) (lookup-insert_self path bytes s.objects)
  ]
]

existing-stored :
    (path : String) (s : LocalUploadStorage) (old : Bytes)
    → read_existing_stage path s ≡ ok (some old)
    → lookup path s.objects ≡ some old
unfolding read_existing_stage read
existing-stored path s old h = elim (Option-cases (lookup path s.objects)) [
  | inl absent ↦ let bad = rw (absent, read_existing_stage, read) at h in cc
  | inr (b, found) ↦ let same = rw (found, read_existing_stage, read) at h in cc
]

purge-objects :
    (path : String) (run : Option String) (s t : LocalUploadStorage)
    → purge_incoming_to_fence path run s ≡ ok t
    → t.objects ≡ delete path s.objects
unfolding purge_incoming_to_fence
purge-objects path run s t h = elim (Option-cases (lookup path s.grants)) [
  | inl unknown ↦
      ap (λ (u : LocalUploadStorage). u.objects)
        (sym (ok-injective (rw (unknown, purge_incoming_to_fence) at h)))
  | inr (g, known) ↦
      elim (Bool-cases (not (is_claimed g.status) || is_other_run run g.claimed_run_id)) [
        | inl refused ↦ let bad = rw (known, refused, purge_incoming_to_fence) at h in cc
        | inr held ↦
            ap (λ (u : LocalUploadStorage). u.objects)
              (sym (ok-injective (rw (known, held, purge_incoming_to_fence) at h)))
      ]
]

-- Staged before or just now, the bytes are in the staging.
staged_again :
    (digest : Bytes → String) (path : String) (s t : LocalUploadStorage) (existing : Option Bytes)
    (bytes : Bytes) (incoming : Result Bytes)
    → read_existing_stage path s ≡ ok existing
    → staged_or existing incoming ≡ ok bytes
    → stage_new digest existing path bytes s ≡ ok t
    → lookup path t.objects ≡ some bytes
unfolding staged_or stage_new
staged_again digest path s t none bytes incoming h e h' = stage-stores digest path bytes s t h'
staged_again digest path s t (some old) bytes incoming h e h' =
    let same : s ≡ t = ok-injective h' in
    rw (← same) (existing-stored path s old h ∙ ap some (ok-injective e))

-- What is known of the bytes that were accepted.
record IsAccepted (reader : SourceReader) (blob_path sha256 : String) (size : ℕ)
    (s : LocalUploadStorage) (existing : Option Bytes) (bytes : Bytes) : Type 0 where
  read_before : read_existing_stage (staged_path reader) s ≡ ok existing
  chosen : staged_or existing (read blob_path s) ≡ ok bytes
  pdf : IsPdf bytes
  declared_size : length bytes ≡ size
  declared_digest : reader.digest bytes ≡ sha256

upload_bytes-IsAccepted :
    (reader : SourceReader) (blob_path sha256 : String) (size : ℕ) (s : LocalUploadStorage)
    (existing : Option Bytes) (bytes : Bytes)
    → upload_bytes reader blob_path sha256 size s ≡ ok (existing, bytes)
    → IsAccepted reader blob_path sha256 size s existing bytes
unfolding upload_bytes
upload_bytes-IsAccepted reader blob_path sha256 size s existing bytes h =
    elim (Result-cases (read_existing_stage (staged_path reader) s)) [
      | inr (e, h1) ↦ let bad = rw (h1, upload_bytes) at h in cc
      | inl (before, h1) ↦ elim (Result-cases (staged_or before (read blob_path s))) [
        | inr (e, h2) ↦ let bad = rw (h1, h2, upload_bytes) at h in cc
        | inl (b, h2) ↦ elim (Result-cases (assert_pdf_bytes b (some size))) [
          | inr (e, h3) ↦ let bad = rw (h1, h2, h3, upload_bytes) at h in cc
          | inl (_, h3) ↦ elim (Bool-cases (text_eq (reader.digest b) sha256)) [
            | inr other ↦ let bad = rw (h1, h2, h3, other, upload_bytes) at h in cc
            | inl same ↦
                let made = ok-injective (rw (h1, h2, h3, same, upload_bytes) at h) in
                subst
                  (λ (p : Option Bytes × Bytes). IsAccepted reader blob_path sha256 size s p.0 p.1)
                  made
                  (record {
                    read_before = h1;
                    chosen = h2;
                    pdf = assert_pdf_bytes-IsPdf b (some size) h3;
                    declared_size = assert_pdf_bytes-size b size h3;
                    declared_digest = (eq_iff _ _).0 same;
                  })
          ]
        ]
      ]
    ]

-- What a loaded upload leaves: the declared bytes, a PDF, in the staging of the run's document,
-- and nothing under the incoming path.
pub record IsLoaded (reader : SourceReader) (blob_path sha256 : String) (size : ℕ)
    (loaded : LoadedSource) (t : LocalUploadStorage) : Type 0 where
  pub pdf : IsPdf loaded.bytes
  pub declared_size : length loaded.bytes ≡ size
  pub declared_digest : reader.digest loaded.bytes ≡ sha256
  pub staged : read (staged_path reader) t ≡ ok loaded.bytes
  pub gone : read blob_path t ≡ err upload_not_found

fenced-leaves :
    (reader : SourceReader) (blob_path filename : String) (bytes : Bytes) (loaded : LoadedSource)
    (s : LocalUploadStorage)
    → blob_path ≢ staged_path reader
    → lookup (staged_path reader) s.objects ≡ some bytes
    → (fence_upload reader blob_path filename bytes s).1 ≡ ok loaded
    → (loaded.bytes ≡ bytes)
      × (read (staged_path reader) (fence_upload reader blob_path filename bytes s).0 ≡ ok bytes)
      × (read blob_path (fence_upload reader blob_path filename bytes s).0 ≡ err upload_not_found)
unfolding fence_upload read
fenced-leaves reader blob_path filename bytes loaded s other stored h =
    elim (Result-cases (purge_incoming_to_fence blob_path (some reader.run_id) s)) [
      | inr (e, h1) ↦ let bad = rw (h1, fence_upload) at h in cc
      | inl (t, h1) ↦ elim (Result-cases (normalize_filename reader.platform filename)) [
        | inr (e, h2) ↦ let bad = rw (h1, h2, fence_upload) at h in cc
        | inl (name, h2) ↦
            let made = ok-injective (rw (h1, h2, fence_upload) at h) in
            let left = purge-objects blob_path (some reader.run_id) s t h1 in
            let kept : lookup (staged_path reader) t.objects ≡ some bytes =
              rw (left, lookup-delete) (ground (arith, eq_iff blob_path (staged_path reader))) in
            let gone : lookup blob_path t.objects ≡ none =
              rw left (lookup-delete_self blob_path s.objects) in
            (
              ap (λ (l : LoadedSource). l.bytes) (sym made),
              rw (h1, fence_upload) (rw (kept, read) refl),
              rw (h1, fence_upload) (rw (gone, read) refl),
            )
      ]
    ]

-- A document that was loaded from an upload is what the request declared: its bytes are a PDF of at
-- most 25 MB with the declared size and digest. They lie in the staging of the run's document,
-- whether they were staged now or by an earlier attempt, and the incoming path holds nothing any
-- more. The two paths are assumed to differ.
pub load_source-IsLoaded :
    (reader : SourceReader) (blob_path sha256 : String) (size : ℕ) (filename : String)
    (s : LocalUploadStorage) (loaded : LoadedSource)
    → blob_path ≢ staged_path reader
    → (load_source reader (upload blob_path sha256 size filename) s).1.1 ≡ ok loaded
    → IsLoaded reader blob_path sha256 size loaded
        (load_source reader (upload blob_path sha256 size filename) s).1.0
unfolding load_source load_upload
load_source-IsLoaded reader blob_path sha256 size filename s loaded other h =
    elim (Result-cases (claim_incoming (upload_claim reader blob_path sha256 size) reader.now s)) [
      | inr (e, h1) ↦ let bad = rw (h1, load_upload) at h in cc
      | inl (claimed, h1) ↦
          elim (Result-cases (upload_bytes reader blob_path sha256 size claimed)) [
            | inr (e, h2) ↦ let bad = rw (h1, h2, load_upload) at h in cc
            | inl ((existing, bytes), h2) ↦
                elim (Result-cases
                  (stage_new reader.digest existing (staged_path reader) bytes claimed)) [
                    | inr (e, h3) ↦ let bad = rw (h1, h2, h3, load_upload) at h in cc
                    | inl (staged, h3) ↦
                        let a =
                          upload_bytes-IsAccepted reader blob_path sha256 size claimed existing
                            bytes h2 in
                        let kept =
                          staged_again reader.digest (staged_path reader) claimed staged existing
                            bytes (read blob_path claimed) a.read_before a.chosen h3 in
                        let (is, again, gone) =
                          fenced-leaves reader blob_path filename bytes loaded staged other kept
                            (rw (h1, h2, h3, load_upload) at h) in
                        rw (h1, h2, h3, load_upload)
                          (record {
                            pdf = rw is a.pdf;
                            declared_size = rw is a.declared_size;
                            declared_digest = rw is a.declared_digest;
                            staged = rw is again;
                            gone = gone;
                          })
                  ]
          ]
    ]
