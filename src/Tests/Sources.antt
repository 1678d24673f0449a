-- ===== src/Tests/Sources.antt =====
-- Downloads and uploads of sources at concrete inputs.
use monidhackson.Base.{
  ℕ, zero, suc, refl, String, List, [], ◌∷◌, none, some, lookup, insert, decimal, eq_iff,
}
use monidhackson.Errors.{Result, ok}
use monidhackson.Contracts.{upload}
use monidhackson.PageIndex.{Text}
use monidhackson.Uploads.{
  LocalGrant, LocalUploadStorage, uploaded, claim_incoming, read, stage, is_same_claim,
  is_claimable, is_claimed, purge_incoming_to_fence,
}
use monidhackson.Citations.Repair.{same_text, has_prefix, contains}
use monidhackson.Sources.{
  Url, Platform, pdf_signature, assert_pdf_bytes, normalize_filename, ends_with,
}
use monidhackson.Sources.Reader.{Response, fetch_canada_buys_pdf}
use monidhackson.Sources.Fetches.{Confined, fetch_canada_buys_pdf-Confined}
use monidhackson.Sources.Loads.{
  LoadedSource, SourceReader, load_source, load_upload, upload_bytes, read_existing_stage,
  staged_or, stage_new, fence_upload, staged_path,
}
use monidhackson.Sources.Staged.{IsLoaded, load_source-IsLoaded}

abbrev tender_url : Url
tender_url = record {
  protocol = "https:";
  username = "";
  password = "";
  hostname = "canadabuys.canada.ca";
  port = "";
  rest = "/tender.pdf";
  hash = "";
}

abbrev platform : Platform
platform = record {
  parse_url = λ s. some tender_url;
  resolve_url = λ l u. some u;
  print_url = λ u. "https://canadabuys.canada.ca/tender.pdf";
  lower = λ s. s;
  units = λ s. 1 ∷ [];
  clean_filename = λ s. s;
}

-- One redirect, then the file.
abbrev network : ℕ → Url → Result Response
network n u = elim n [
  | zero ↦
      ok
        (record { status = 302; location = some "/tender.pdf"; content_length = none; body = none })
  | suc k ↦ ok (record {
    status = 200;
    location = none;
    content_length = some 5;
    body = some (pdf_signature ∷ []);
  })
]

fetch_canada_buys_pdf-Confined_example :
    Confined platform 4
      (fetch_canada_buys_pdf platform network "https://canadabuys.canada.ca/tender")
fetch_canada_buys_pdf-Confined_example =
    fetch_canada_buys_pdf-Confined platform network "https://canadabuys.canada.ca/tender"

abbrev units_table : List (String × Text)
units_table = ("a.pdf", 9 ∷ 8 ∷ []) ∷ (".pdf", 8 ∷ []) ∷ []

abbrev units : String → Text
units s = elim (lookup s units_table) [ none ↦ 7 ∷ [] | some t ↦ t ]

abbrev reader : SourceReader
reader = record {
  platform = record platform { units = units };
  network = network;
  digest = λ b. "00";
  filename_from_url = λ s. s;
  owner_id = "owner";
  run_id = "run-1";
  document_index = 0;
  now = 1000;
}

abbrev grant : LocalGrant
grant = record {
  token = "token";
  blob_path = "incoming/a.pdf";
  owner_id = "owner";
  expected_sha256 = "00";
  expected_size = 5;
  expires_at = 9000;
  status = uploaded;
  claimed_run_id = none;
}

abbrev storage : LocalUploadStorage
storage = record {
  tokens = ("token", "incoming/a.pdf") ∷ [];
  grants = ("incoming/a.pdf", grant) ∷ [];
  objects = ("incoming/a.pdf", pdf_signature) ∷ [];
  quota_events = [];
}

abbrev loaded : LoadedSource
loaded = record {
  source_name = "a.pdf";
  source_url = none;
  blob_path = some "incoming/a.pdf";
  bytes = pdf_signature;
  sha256 = "00";
  resource_ids = "blob:incoming/a.pdf" ∷ "staged:run-1:0" ∷ [];
}

load_source-IsLoaded_example :
    IsLoaded reader "incoming/a.pdf" "00" 5 loaded
      (load_source reader (upload "incoming/a.pdf" "00" 5 "a.pdf") storage).1.0
unfolding load_source load_upload claim_incoming is_same_claim is_claimable is_claimed upload_bytes
    read_existing_stage read staged_or assert_pdf_bytes same_text stage_new stage insert
    fence_upload purge_incoming_to_fence normalize_filename ends_with contains has_prefix lookup
    decimal
load_source-IsLoaded_example =
    load_source-IsLoaded reader "incoming/a.pdf" "00" 5 "a.pdf" storage loaded
      (λ e. cc ((eq_iff "incoming/a.pdf" (staged_path reader)).1 e)) refl
