-- ===== src/Tests/Uploads.antt =====
-- Uploads and chunks at concrete inputs.
use monidhackson.Base.{
  ℕ, ◌≡◌, refl, String, List, [], ◌∷◌, none, some, map, length, lookup, insert, delete, ltb, min,
  take, if◌then◌else◌, ◌+◌,
}
use monidhackson.Errors.{ok, err}
use monidhackson.Uploads.{
  Bytes, LocalGrant, LocalUploadStorage, issued, claimed, max_pdf_bytes, purge_incoming_to_fence,
  read, upload_not_found, is_claimed, with_grant, without_object,
}
use monidhackson.Uploads
use monidhackson.Uploads.Bodies.{
  PutRequest, accept_put, read_bounded_stream, read_chunks, body_too_large, read_bounded_stream_lem,
  checked_body, refused_head, stored,
}
use monidhackson.Uploads.Bodies
use monidhackson.Uploads.Seals.{IsFiled, insert-IsFiled}
use monidhackson.Uploads.Fences.{nothing, put, purged_stays_away}
use monidhackson.Uploads.Claims.{Accepted, accept_put-Accepted}
use monidhackson.PageIndex.{
  chunk_step, chunk_length, paragraph_slices, slices, joined, paragraph_slices_lem,
}

-- The digest of the tests: every text has the same.
abbrev digest : Bytes → String
digest bytes = "00"

abbrev path : String
path = "incoming/a.pdf"

abbrev grant : LocalGrant
grant = record {
  token = "token";
  blob_path = path;
  owner_id = "owner";
  expected_sha256 = "00";
  expected_size = 2;
  expires_at = 9000;
  status = issued;
  claimed_run_id = none;
}

abbrev before : LocalUploadStorage
before = record { tokens = ("token", path) ∷ []; grants = []; objects = []; quota_events = [] }

abbrev issued_storage : LocalUploadStorage
issued_storage = record before { grants = (path, grant) ∷ [] }

abbrev claimed_grant : LocalGrant
claimed_grant = record grant { status = claimed; claimed_run_id = some "run-1" }

abbrev claimed_storage : LocalUploadStorage
claimed_storage = record before {
  grants = (path, claimed_grant) ∷ [];
  objects = (path, 1 ∷ 2 ∷ []) ∷ [];
}

abbrev request : PutRequest
request = record {
  content_length = some 2;
  content_type = some "application/pdf";
  body = some ((1 ∷ []) ∷ (2 ∷ []) ∷ []);
}

one_grant-IsFiled : (g : LocalGrant) → g.blob_path ≡ path → IsFiled (with_grant g before path)
unfolding lookup
one_grant-IsFiled g at =
    insert-IsFiled path g before (with_grant g before path) at refl (λ p h e. cc)

read_bounded_stream_lem_example : read_bounded_stream ((1 ∷ []) ∷ (2 ∷ []) ∷ []) 2 ≡ (
    if ltb (min 2 max_pdf_bytes) (length (Bodies.joined ((1 ∷ []) ∷ (2 ∷ []) ∷ [])))
    then err body_too_large
    else ok (Bodies.joined ((1 ∷ []) ∷ (2 ∷ []) ∷ [])))
read_bounded_stream_lem_example = read_bounded_stream_lem ((1 ∷ []) ∷ (2 ∷ []) ∷ []) 2

accept_put-Accepted_example :
    Accepted digest "token" 1000 issued_storage (stored grant (1 ∷ 2 ∷ []) issued_storage)
unfolding accept_put checked_body refused_head read_bounded_stream read_chunks lookup insert
accept_put-Accepted_example =
    accept_put-Accepted digest "token" request 1000 issued_storage
      (stored grant (1 ∷ 2 ∷ []) issued_storage) (one_grant-IsFiled grant refl) refl

abbrev fenced_storage : LocalUploadStorage
fenced_storage =
    with_grant (record claimed_grant { status = Uploads.fenced })
      (without_object path claimed_storage) path

-- Of two overlapping uploads, the slower one ends after the object was claimed and purged behind the
-- fence.
fenced_while_reading :
    purge_incoming_to_fence path (some "run-1") claimed_storage ≡ ok fenced_storage
unfolding purge_incoming_to_fence is_claimed lookup delete insert
fenced_while_reading = refl

late_upload_stored :
    read path (accept_put digest (λ s. fenced_storage) "token" request 1000 issued_storage).0
    ≡ ok (1 ∷ 2 ∷ [])
unfolding accept_put checked_body refused_head read_bounded_stream read_chunks lookup insert delete
    read stored
late_upload_stored = refl

purged_stays_away_example :
    read path (accept_put digest (λ x. x) "token" request 1000 fenced_storage).0
    ≡ err upload_not_found
unfolding purge_incoming_to_fence is_claimed lookup delete insert
purged_stays_away_example =
    purged_stays_away digest path (some "run-1") claimed_storage fenced_storage
      (accept_put digest (λ x. x) "token" request 1000 fenced_storage).0
      (one_grant-IsFiled claimed_grant refl) refl (put "token" request 1000 nothing)

abbrev paragraph : List ℕ
paragraph = 1 ∷ 2 ∷ 3 ∷ []

paragraph_slices_lem_example :
    (joined (map (take chunk_step) (paragraph_slices paragraph)) ≡ paragraph)
    × (slices chunk_step chunk_length (length paragraph + 2) 0 paragraph
        ≡ paragraph_slices paragraph)
paragraph_slices_lem_example = paragraph_slices_lem paragraph 2
