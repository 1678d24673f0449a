-- ===== src/Tests/Samples.antt =====
-- The runs and stores of the tests.
use monidhackson.Base.{◌+◌, [], ◌∷◌, some}
use monidhackson.Contracts.{RunStatus, validating, CreateRunRequest, base, upload}
use monidhackson.Runs.Types.{RunRecord}
use monidhackson.Runs.Store.{InMemoryRunStore}
use monidhackson.Runs.Store.Record.{Environment, CreateRunRecordInput, new_run_record}

abbrev pub env : Environment
env = record { run_ttl_hours = 24; request_hash = λ request. "digest" }

abbrev pub request : CreateRunRequest
request = record {
  documents = record { role = base; source = upload "incoming/a.pdf" "00" 9 "a.pdf" } ∷ [];
}

abbrev pub input : CreateRunRecordInput
input = record {
  id = some "run-1";
  owner_id = "owner";
  quota_key = "quota";
  input = request;
  idempotency_key = some "key";
  reserved_micro_usd = 500;
}

abbrev pub fresh_run : RunRecord
fresh_run = new_run_record env "unused" input 1000

abbrev pub with_status : RunStatus → RunRecord
with_status s = record fresh_run { status = s }

abbrev pub empty_store : InMemoryRunStore
empty_store = record { records = []; idempotency = [] }

abbrev pub store_of : RunRecord → InMemoryRunStore
store_of r = record { records = (r.id, r) ∷ []; idempotency = ("owner\0key", r.id) ∷ [] }

-- The run under its first worker, and its admission.
abbrev pub worker_run : RunRecord
worker_run = record fresh_run {
  status = validating;
  stage = validating;
  progress = 5;
  processing_lease_id = some "w1";
  processing_lease_expires_at = some (2000 + 45000);
  processing_fence = 0 + 1;
  updated_at = 2000;
  version = 0 + 1;
}

abbrev pub leased_run : RunRecord
leased_run = record fresh_run {
  admission_lease_id = some "a1";
  admission_lease_expires_at = some (2000 + 120000);
  updated_at = 2000;
  version = 0 + 1;
}
