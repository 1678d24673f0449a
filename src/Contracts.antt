-- ===== src/Contracts.antt =====
-- src/contracts/analysis.ts and src/contracts/api.ts: the statuses of a run, its cost events and
-- the request that creates it. A zod schema is read as the type that it infers.
use monidhackson.Base.{ℕ, String, Bool, false, ◌||◌, ◌==◌, List, [], ◌∷◌, Option}

pub data RunStatus : Type 0 where
  queued validating staging page_indexing parsing purging_source : RunStatus
  extracting reconciling verifying : RunStatus
  ready partial failed cleanup_pending expired : RunStatus

-- The position in `runStatuses`, by which two statuses are compared.
abbrev pub status_index : RunStatus → ℕ
status_index queued = 0
status_index validating = 1
status_index staging = 2
status_index page_indexing = 3
status_index parsing = 4
status_index purging_source = 5
status_index extracting = 6
status_index reconciling = 7
status_index verifying = 8
status_index ready = 9
status_index partial = 10
status_index failed = 11
status_index cleanup_pending = 12
status_index expired = 13

-- The literal of the source.
abbrev pub status_text : RunStatus → String
status_text queued = "queued"
status_text validating = "validating"
status_text staging = "staging"
status_text page_indexing = "page_indexing"
status_text parsing = "parsing"
status_text purging_source = "purging_source"
status_text extracting = "extracting"
status_text reconciling = "reconciling"
status_text verifying = "verifying"
status_text ready = "ready"
status_text partial = "partial"
status_text failed = "failed"
status_text cleanup_pending = "cleanup_pending"
status_text expired = "expired"

unfoldable pub status_eq : RunStatus → RunStatus → Bool
status_eq s t = status_index s == status_index t

unfoldable pub has_status : List RunStatus → RunStatus → Bool
unfolding status_eq
has_status [] s = false
has_status (t ∷ ts) s = status_eq t s || has_status ts s

pub data DocumentRole : Type 0 where
  base amendment : DocumentRole

pub data DocumentSource : Type 0 where
  url : String → DocumentSource
  -- blob_path, sha256, size_bytes, filename
  upload : String → String → ℕ → String → DocumentSource

pub record RunDocumentInput : Type 0 where
  pub role : DocumentRole
  pub source : DocumentSource

pub record CreateRunRequest : Type 0 where
  pub documents : List RunDocumentInput

pub data CostProvider : Type 0 where
  monid openai railway_s3 vercel_blob vercel neon : CostProvider

pub data CostStatus : Type 0 where
  pending succeeded failed : CostStatus

-- The optional texts that explain an estimate are left out: they are only displayed.
pub record CostEvent : Type 0 where
  pub attempt_id : Option String
  pub provider : CostProvider
  pub operation : String
  pub status : CostStatus
  pub actual_micro_usd : Option ℕ
  pub estimated_micro_usd : Option ℕ
  pub latency_ms : ℕ
  pub retry_of : Option String
