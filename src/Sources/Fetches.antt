-- ===== src/Sources/Fetches.antt =====
-- src/lib/storage/source-reader.ts: fetchCanadaBuysPdf, whatever the network answers.
use monidhackson.Base.{
  ℕ, zero, suc, ◌+◌, ◌≤◌, ◌≡◌, ◌⊎◌, refl, inl, inr, String, List, [], ◌∷◌, ◌++◌, Option, none, some,
  length, length-append, take, All, eq_iff, Bool-cases, Option-cases, arith, subst,
}
use monidhackson.Errors.{ok-injective, Result, ok, err, Result-cases}
use monidhackson.Uploads.{Bytes}
use monidhackson.Citations.Repair.{same_text_iff}
use monidhackson.Sources.{
  Url, Platform, max_document_bytes, allowed_url_host, pdf_signature, assert_pdf_bytes, is_accepted,
  checked_url, validate_canada_buys_url,
}
use monidhackson.Sources.Reader.{
  Response, is_redirect, is_success, read_bounded_body, redirect_target, answered, fetch_rounds,
  fetch_canada_buys_pdf,
}

-- HTTPS, the one host, no credentials, the standard port, no fragment.
pub record IsConfined (u : Url) : Type 0 where
  pub https : u.protocol ≡ "https:"
  pub host : u.hostname ≡ allowed_url_host
  pub no_user : u.username ≡ ""
  pub no_password : u.password ≡ ""
  pub standard_port : (u.port ≡ "") ⊎ (u.port ≡ "443")
  pub no_fragment : u.hash ≡ ""

-- Between one byte and 25 MB, with the signature of a PDF.
pub record IsPdf (bytes : Bytes) : Type 0 where
  pub some_byte : 1 ≤ length bytes
  pub bounded : length bytes ≤ max_document_bytes
  pub signature : take 5 bytes ≡ pdf_signature

pub assert_pdf_bytes-IsPdf :
    (bytes : Bytes) (declared : Option ℕ) → assert_pdf_bytes bytes declared ≡ ok tt → IsPdf bytes
unfolding assert_pdf_bytes
assert_pdf_bytes-IsPdf bytes declared h = record {
  some_byte = ground arith;
  bounded = ground arith;
  signature = (same_text_iff (take 5 bytes) pdf_signature).0 (ground arith);
}

module _ (platform : Platform) where
  checked_url-IsConfined : (o : Option Url) (u : Url) → checked_url platform o ≡ ok u → IsConfined u
  unfolding checked_url
  checked_url-IsConfined none u h = cc
  checked_url-IsConfined (some v) u h = elim (Bool-cases (is_accepted platform v)) [
    | inr e ↦ let bad = rw (e, checked_url) at h in cc
    | inl e ↦
        let made = ok-injective (rw (e, checked_url) at h) in
        subst IsConfined made (record {
          https = ground (arith, eq_iff v.protocol "https:");
          host = refl;
          no_user = ground (arith, eq_iff v.username "");
          no_password = ground (arith, eq_iff v.password "");
          standard_port = ground (arith, eq_iff v.port "", eq_iff v.port "443");
          no_fragment = refl;
        })
  ]

  validated-IsConfined :
      (raw : String) (u : Url) → validate_canada_buys_url platform raw ≡ ok u → IsConfined u
  unfolding validate_canada_buys_url
  validated-IsConfined raw u h = checked_url-IsConfined (platform.parse_url raw) u h

  target-IsConfined :
      (location : Option String) (current next : Url)
      → redirect_target platform location current ≡ ok next
      → IsConfined next
  unfolding redirect_target
  target-IsConfined none current next h = cc
  target-IsConfined (some l) current next h = elim (Option-cases (platform.resolve_url l current)) [
    | inl e ↦ let bad = rw (e, redirect_target) at h in cc
    | inr (u, e) ↦ validated-IsConfined (platform.print_url u) next (rw (e, redirect_target) at h)
  ]

  -- What a download that succeeds gives.
  abbrev pub Delivers : Result (Bytes × String) → Type 0
  Delivers (err e) = Unit
  Delivers (ok (bytes, address)) =
      IsPdf bytes × ((u : Url) × IsConfined u × (address ≡ platform.print_url u))

  answered-Delivers :
      (r : Response) (current : Url) → IsConfined current → Delivers (answered platform r current)
  unfolding answered
  answered-Delivers r current c = elim (Bool-cases (is_success r.status)) [
    | inr e ↦ rw e tt
    | inl e ↦ rw e (elim (Result-cases (read_bounded_body r max_document_bytes)) [
      | inr (f, e') ↦ rw e' tt
      | inl (bytes, e') ↦ rw e' (elim (Result-cases (assert_pdf_bytes bytes none)) [
        | inr (f, e'') ↦ rw e'' tt
        | inl (_, e'') ↦ rw e'' (assert_pdf_bytes-IsPdf bytes none e'', (current, c, refl))
      ])
    ])
  ]

  abbrev pub Confined : ℕ → List Url × Result (Bytes × String) → Type 0
  Confined most (log, result) = All IsConfined log × (length log ≤ most) × Delivers result

  All-append :
      (log : List Url) (u : Url)
      → All IsConfined log
      → IsConfined u
      → All IsConfined (log ++ u ∷ [])
  All-append [] u a c = (c, tt)
  All-append (v ∷ vs) u (b, a) c = (b, All-append vs u a c)

  fetch_rounds-Confined :
      (network : ℕ → Url → Result Response) (left : ℕ) (current : Url) (log : List Url) (most : ℕ)
      → IsConfined current
      → All IsConfined log
      → length log + left + 1 ≤ most
      → Confined most (fetch_rounds platform network left current log)
  unfolding fetch_rounds
  fetch_rounds-Confined network zero current log most c a fits =
      let grown = All-append log current a c in
      let count : length (log ++ current ∷ []) ≤ most =
        omega (arith, length-append log (current ∷ [])) in
      elim (Result-cases (network (length log) current)) [
        | inr (e, h) ↦ rw (h, fetch_rounds) (grown, count, tt)
        | inl (r, h) ↦ elim (Bool-cases (is_redirect r.status)) [
          | inl e ↦ rw (h, e, fetch_rounds) (grown, count, tt)
          | inr e ↦ rw (h, e, fetch_rounds) (grown, count, answered-Delivers r current c)
        ]
      ]
  fetch_rounds-Confined network (suc left) current log most c a fits =
      let grown = All-append log current a c in
      let count : length (log ++ current ∷ []) + left + 1 ≤ most =
        omega (arith, length-append log (current ∷ [])) in
      elim (Result-cases (network (length log) current)) [
        | inr (e, h) ↦ rw (h, fetch_rounds) (grown, omega (arith, count), tt)
        | inl (r, h) ↦ elim (Bool-cases (is_redirect r.status)) [
          | inr e ↦
              rw (h, e, fetch_rounds) (grown, omega (arith, count), answered-Delivers r current c)
          | inl e ↦ elim (Result-cases (redirect_target platform r.location current)) [
            | inr (f, t) ↦ rw (h, e, t, fetch_rounds) (grown, omega (arith, count), tt)
            | inl (next, t) ↦
                rw (h, e, t, fetch_rounds)
                  (fetch_rounds-Confined network left next (log ++ current ∷ []) most
                    (target-IsConfined r.location current next t) grown count)
          ]
        ]
      ]

  -- A download stays with the one host: whatever the network answers, each of its at most four
  -- requests goes over HTTPS to canadabuys.canada.ca, on the standard port, without credentials or a
  -- fragment; a redirect to anywhere else is never followed. What it delivers is between one byte
  -- and 25 MB, begins like a PDF, and is reported under such a URL.
  pub fetch_canada_buys_pdf-Confined :
      (network : ℕ → Url → Result Response) (raw : String)
      → Confined 4 (fetch_canada_buys_pdf platform network raw)
  unfolding fetch_canada_buys_pdf
  fetch_canada_buys_pdf-Confined network raw =
      elim (Result-cases (validate_canada_buys_url platform raw)) [
        | inr (e, h) ↦ rw (h, fetch_canada_buys_pdf) (tt, omega arith, tt)
        | inl (u, h) ↦
            rw (h, fetch_canada_buys_pdf)
              (fetch_rounds-Confined network 3 u [] 4 (validated-IsConfined raw u h) tt
                (omega arith))
      ]
