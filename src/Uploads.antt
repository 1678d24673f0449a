-- ===== src/Uploads.antt =====
-- src/lib/storage/uploads.ts: the local upload storage. A grant is issued, its object is uploaded,
-- claimed by a run, and purged behind a fence. Both maps of grants hold the same objects, so that a
-- token leads to the path of its grant, and the grants are kept by path. Bytes are numbers; the
-- digest, the random ids, the owner's namespace and the normalisation of a file name are arguments.
pub mod Bodies
pub mod Seals
pub mod Removals
pub mod Fences
pub mod Claims
use monidhackson.Base.{
  ℕ, ◌+◌, ◌*◌, String, Bool, true, false, not, ◌&&◌, ◌||◌, List, [], ◌∷◌, ◌++◌, Option, none, some,
  is_none, length, filter, sum_by, text_eq, concat, ltb, leb, ◌==◌, lookup, insert, delete, values,
  if◌then◌else◌,
}
use monidhackson.Errors.{
  AppError, Result, ok, err, ◌>>=◌, rate_limited, unsafe_url, unsupported_media, source_unreachable,
  monid_parse_failed, analysis_incomplete,
}
use monidhackson.Runs.Types.{Instant}
use monidhackson.Budget.{PrincipalKind, guest, api, utc_day}

abbrev pub max_pdf_bytes : ℕ
max_pdf_bytes = 26214400

abbrev pub grant_lifetime_ms : ℕ
grant_lifetime_ms = 300000

abbrev pub grant_expiry_grace_ms : ℕ
grant_expiry_grace_ms = 300000

abbrev pub quota_event_retention_ms : ℕ
quota_event_retention_ms = 2592000000

abbrev pub Bytes : Type 0
Bytes = List ℕ

pub data GrantStatus : Type 0 where
  issued uploaded claimed fenced deleted : GrantStatus

pub record LocalGrant : Type 0 where
  pub token : String
  pub blob_path : String
  pub owner_id : String
  pub expected_sha256 : String
  pub expected_size : ℕ
  pub expires_at : Instant
  pub status : GrantStatus
  pub claimed_run_id : Option String

pub record LocalQuotaEvent : Type 0 where
  pub quota_key : String
  pub size_bytes : ℕ
  pub day : ℕ
  pub created_at : Instant

pub record LocalUploadStorage : Type 0 where
  pub tokens : List (String × String)
  pub grants : List (String × LocalGrant)
  pub objects : List (String × Bytes)
  pub quota_events : List LocalQuotaEvent

pub record UploadLimits : Type 0 where
  pub max_outstanding_upload_grants : ℕ
  pub api_upload_documents_per_day : ℕ
  pub guest_upload_documents_per_day : ℕ
  pub api_upload_bytes_per_day : ℕ
  pub guest_upload_bytes_per_day : ℕ
  pub global_upload_bytes_per_day : ℕ

pub record PresignUploadRequest : Type 0 where
  pub filename : String
  pub size_bytes : ℕ
  pub sha256 : String

pub record PresignContext : Type 0 where
  pub owner_id : String
  pub quota_key : String
  pub principal_kind : PrincipalKind

pub record UploadClaim : Type 0 where
  pub owner_id : String
  pub run_id : String
  pub blob_path : String
  pub expected_sha256 : String
  pub expected_size : ℕ

abbrev pub issuance_quota_reached : AppError
issuance_quota_reached = record {
  code = rate_limited;
  message = "The upload issuance quota has been reached.";
  http_status = 429;
  retryable = true;
}

abbrev pub grant_not_claimable : AppError
grant_not_claimable = record {
  code = unsafe_url;
  message = "The incoming upload grant cannot be claimed.";
  http_status = 409;
  retryable = false;
}

abbrev pub upload_not_found : AppError
upload_not_found = record {
  code = source_unreachable;
  message = "The uploaded PDF was not found.";
  http_status = 404;
  retryable = false;
}

abbrev pub staged_differently : AppError
staged_differently = record {
  code = unsupported_media;
  message = "Immutable staging path already contains different bytes.";
  http_status = 409;
  retryable = false;
}

-- A plain Error, which the application reports as unexpected.
abbrev pub not_owned : AppError
not_owned = record {
  code = analysis_incomplete;
  message = "Incoming upload is not owned by an active claim.";
  http_status = 500;
  retryable = true;
}

unfoldable pub is_unused : GrantStatus → Bool
is_unused issued = true
is_unused uploaded = true
is_unused _ = false

unfoldable pub is_claimed : GrantStatus → Bool
is_claimed claimed = true
is_claimed fenced = true
is_claimed _ = false

abbrev pub is_uploaded : GrantStatus → Bool
is_uploaded uploaded = true
is_uploaded _ = false

abbrev pub is_issued : GrantStatus → Bool
is_issued issued = true
is_issued _ = false

abbrev pub is_deleted : GrantStatus → Bool
is_deleted deleted = true
is_deleted _ = false

abbrev pub is_outstanding : String → Instant → LocalGrant → Bool
is_outstanding owner now g = text_eq g.owner_id owner && ltb now g.expires_at && is_unused g.status

abbrev pub document_limit : UploadLimits → PrincipalKind → ℕ
document_limit c api = c.api_upload_documents_per_day
document_limit c guest = c.guest_upload_documents_per_day

abbrev pub byte_limit : UploadLimits → PrincipalKind → ℕ
byte_limit c api = c.api_upload_bytes_per_day
byte_limit c guest = c.guest_upload_bytes_per_day

abbrev pub quota_of : String → ℕ → LocalUploadStorage → List LocalQuotaEvent
quota_of key day s = filter (λ e. text_eq e.quota_key key && e.day == day) s.quota_events

abbrev pub bytes_of : List LocalQuotaEvent → ℕ
bytes_of es = sum_by (λ (e : LocalQuotaEvent). e.size_bytes) es

unfoldable pub is_over_quota :
    UploadLimits → ℕ → PresignContext → Instant → LocalUploadStorage → Bool
is_over_quota c size context now s =
    let day = utc_day now in
    leb c.max_outstanding_upload_grants
      (length (filter (is_outstanding context.owner_id now) (values s.grants)))
    || leb (document_limit c context.principal_kind) (length (quota_of context.quota_key day s))
    || ltb (byte_limit c context.principal_kind)
        (bytes_of (quota_of context.quota_key day s) + size)
    || ltb c.global_upload_bytes_per_day
        (bytes_of (filter (λ e. e.day == day) s.quota_events) + size)

abbrev pub incoming_path : String → String → String → String
incoming_path namespace uuid sha256 =
    concat "incoming/"
      (concat namespace (concat "/" (concat uuid (concat "/" (concat sha256 ".pdf")))))

abbrev pub new_grant :
    String → String → PresignUploadRequest → PresignContext → Instant → LocalGrant
new_grant token path input context now = record {
  token = token;
  blob_path = path;
  owner_id = context.owner_id;
  expected_sha256 = input.sha256;
  expected_size = input.size_bytes;
  expires_at = now + grant_lifetime_ms;
  status = issued;
  claimed_run_id = none;
}

abbrev pub issued_grant :
    LocalGrant → PresignContext → Instant → LocalUploadStorage → LocalUploadStorage
issued_grant g context now s = record {
  tokens = insert g.token g.blob_path s.tokens;
  grants = insert g.blob_path g s.grants;
  objects = s.objects;
  quota_events =
      s.quota_events
      ++ record {
        quota_key = context.quota_key;
        size_bytes = g.expected_size;
        day = utc_day now;
        created_at = now;
      }
        ∷ [];
}

-- The answer is the grant; the URL that the response is built of is left out.
unfoldable pub presign :
    UploadLimits
    → (String → Result String)
    → String
    → String
    → String
    → PresignUploadRequest
    → PresignContext
    → Instant
    → LocalUploadStorage
    → Result (LocalUploadStorage × LocalGrant)
presign c normalize_filename namespace token uuid input context now s =
    normalize_filename input.filename >>= λ name.
    if is_over_quota c input.size_bytes context now s
    then err issuance_quota_reached
    else let g = new_grant token (incoming_path namespace uuid input.sha256) input context now in
      ok (issued_grant g context now s, g)

abbrev pub with_grant : LocalGrant → LocalUploadStorage → String → LocalUploadStorage
with_grant g s path = record s { grants = insert path g s.grants }

abbrev pub is_run : Option String → String → Bool
is_run none id = false
is_run (some r) id = text_eq r id

abbrev pub matches : LocalGrant → UploadClaim → Bool
matches g input =
    text_eq g.owner_id input.owner_id
    && text_eq g.expected_sha256 input.expected_sha256
    && g.expected_size == input.expected_size

unfoldable pub is_same_claim : LocalGrant → UploadClaim → Bool
is_same_claim g input =
    is_claimed g.status && is_run g.claimed_run_id input.run_id && matches g input

unfoldable pub is_claimable : LocalGrant → UploadClaim → Instant → Bool
is_claimable g input now = ltb now g.expires_at && is_uploaded g.status && matches g input

unfoldable pub claim_incoming :
    UploadClaim → Instant → LocalUploadStorage → Result LocalUploadStorage
claim_incoming input now s = elim (lookup input.blob_path s.grants) [
  | none ↦ err grant_not_claimable
  | some g ↦
      if is_same_claim g input
      then ok s
      else if not (is_claimable g input now)
      then err grant_not_claimable
      else ok (
          with_grant (record g { status = claimed; claimed_run_id = some input.run_id }) s
            input.blob_path)
]

unfoldable pub read : String → LocalUploadStorage → Result Bytes
read path s = elim (lookup path s.objects) [ none ↦ err upload_not_found | some b ↦ ok b ]

unfoldable pub stage :
    (Bytes → String) → String → Bytes → LocalUploadStorage → Result LocalUploadStorage
stage digest path bytes s = elim (lookup path s.objects) [
  | none ↦ ok (record s { objects = insert path bytes s.objects })
  | some existing ↦
      if not (text_eq (digest existing) (digest bytes))
      then err staged_differently
      else ok (record s { objects = insert path bytes s.objects })
]

-- Local uploads have no address that the parsing provider could read.
abbrev pub temporary_read_url : Result String
temporary_read_url = err (record {
  code = monid_parse_failed;
  message =
      "Local uploads cannot be exposed to the live parsing provider. Configure private object storage.";
  http_status = 503;
  retryable = false;
})

abbrev pub without_object : String → LocalUploadStorage → LocalUploadStorage
without_object path s = record s { objects = delete path s.objects }

-- Whether a run is named, and it is not the one that holds the claim.
abbrev pub is_other_run : Option String → Option String → Bool
is_other_run none holder = false
is_other_run (some id) holder = not (is_run holder id)

unfoldable pub purge_incoming_to_fence :
    String → Option String → LocalUploadStorage → Result LocalUploadStorage
purge_incoming_to_fence path claimed_run_id s = elim (lookup path s.grants) [
  | none ↦ ok (without_object path s)
  | some g ↦
      if not (is_claimed g.status) || is_other_run claimed_run_id g.claimed_run_id
      then err not_owned
      else ok (with_grant (record g { status = fenced }) (without_object path s) path)
]

-- The map holds nothing under a key that was deleted, so the check that follows never throws.
unfoldable pub remove_object : String → LocalUploadStorage → LocalUploadStorage
remove_object path s = without_object path s

abbrev pub is_swept : LocalGrant → Instant → Bool
is_swept g now = leb (g.expires_at + grant_expiry_grace_ms) now && not (is_deleted g.status)

abbrev pub swept : LocalGrant → LocalUploadStorage → LocalUploadStorage
swept g s = record s {
  tokens = delete g.token s.tokens;
  grants = delete g.blob_path s.grants;
  objects = delete g.blob_path s.objects;
}

unfoldable pub sweep_grants :
    List LocalGrant
    → Instant
    → ℕ
    → List String
    → LocalUploadStorage
    → LocalUploadStorage × List String
sweep_grants [] now limit gone s = (s, gone)
sweep_grants (g ∷ gs) now limit gone s = elim (leb limit (length gone) || not (is_swept g now)) [
  | true ↦ sweep_grants gs now limit gone s
  | false ↦ sweep_grants gs now limit (gone ++ g.blob_path ∷ []) (swept g s)
]

unfoldable pub sweep_expired_incoming :
    Instant → ℕ → LocalUploadStorage → LocalUploadStorage × List String
sweep_expired_incoming now limit s = sweep_grants (values s.grants) now limit [] (record s {
  quota_events = filter (λ e. ltb now (e.created_at + quota_event_retention_ms)) s.quota_events;
})

unfoldable pub clear_uploads : LocalUploadStorage
clear_uploads = record { tokens = []; grants = []; objects = []; quota_events = [] }
