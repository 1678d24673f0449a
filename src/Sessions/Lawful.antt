-- ===== src/Sessions/Lawful.antt =====
-- The platform of src/lib/security/auth.ts as it is documented, and what a session and its cookie are
-- under it: both read back.
use monidhackson.Base.{
  ℕ, ◌≤◌, ◌≡◌, refl, ap, ◌∙◌, true, false, List, [], ◌∷◌, ◌++◌, none, some, All, all, leb, ◌==◌,
  if◌then◌else◌, arith,
}
use monidhackson.Errors.{ok}
use monidhackson.PageIndex.{Text}
use monidhackson.Citations.Repair.{same_text, same_text_iff}
use monidhackson.Sessions.{
  Crypto, SessionPayload, Request, cookie_name, is_hex_text, is_hex_digit, hex_bytes,
  constant_time_hex_equal, signed_parts, unexpired, encode_session, verified_payload,
  decode_session, find_cookie, read_cookie,
}
use monidhackson.Sessions.Splitting.{
  split, join, is_empty, is_empty-append, split-clean, split-first,
}

-- A unit that `trim` keeps and that no cookie header splits at.
abbrev pub IsCookieUnit : ℕ → Type 0
IsCookieUnit c = (33 ≤ c) × (c ≤ 126) × (c == 59 ≡ false) × (c == 61 ≡ false)

-- What the platform documents: digests are hexadecimal, base64url has no dot and reads back, an
-- encoded component is unreserved and reads back, and `trim` keeps what has no white space.
pub record IsLawful (crypto : Crypto) : Type 0 where
  pub hmac-IsHex : (k t : Text) → is_hex_text (crypto.hmac_sha256_hex k t) ≡ true
  pub payload-some : (p : SessionPayload) → is_empty (crypto.encode_payload p) ≡ false
  pub payload-NoDot :
      (p : SessionPayload) → All (λ (c : ℕ). c == 46 ≡ false) (crypto.encode_payload p)
  pub parse-encode :
      (p : SessionPayload)
      → crypto.parse_payload (crypto.encode_payload p)
        ≡ some (record { sub = some p.sub; exp = some p.exp })
  pub encoded-All : (t : Text) → All IsCookieUnit (crypto.encode_uri_component t)
  pub decode-encode :
      (t : Text) → crypto.decode_uri_component (crypto.encode_uri_component t) ≡ some t
  pub trim-visible : (t : Text) → All (λ (c : ℕ). (33 ≤ c) × (c ≤ 126)) t → crypto.trim t ≡ t

All-append {ℓ κ} :
    {A : Type ℓ} (P : A → Type κ) (xs ys : List A) → All P xs → All P ys → All P (xs ++ ys)
All-append P [] ys h g = g
All-append P (x ∷ xs) ys (h, hs) g = (h, All-append P xs ys hs g)

All-map {ℓ κ μ} :
    {A : Type ℓ} (P : A → Type κ) (Q : A → Type μ)
    → ((x : A) → P x → Q x)
    → (xs : List A) → All P xs
    → All Q xs
All-map P Q f [] h = tt
All-map P Q f (x ∷ xs) (h, hs) = (f x h, All-map P Q f xs hs)

hex-NoDot : (t : Text) → all is_hex_digit t ≡ true → All (λ (c : ℕ). c == 46 ≡ false) t
hex-NoDot [] h = tt
hex-NoDot (c ∷ cs) h = (ground arith, hex-NoDot cs (ground arith))

hex-some : (t : Text) → is_hex_text t ≡ true → is_empty t ≡ false
hex-some t h = ground arith

constant_time_hex_equal_refl :
    (t : Text) → is_hex_text t ≡ true → constant_time_hex_equal t t ≡ true
unfolding constant_time_hex_equal
constant_time_hex_equal_refl t h =
    let (_, same) = same_text_iff (hex_bytes t) (hex_bytes t) in rw (h, same refl) refl

module _ (crypto : Crypto) (lawful : IsLawful crypto) (secret : Text) where
  -- A session that is issued reads back until it expires.
  pub decode-encode_session :
      (p : SessionPayload) (now : ℕ)
      → decode_session crypto (some (encode_session crypto p secret)) secret now
        ≡ (if leb p.exp now then none else some p)
  unfolding decode_session encode_session signed_parts verified_payload unexpired
  decode-encode_session p now =
      let body = crypto.encode_payload p in
      let signature = crypto.hmac_sha256_hex secret body in
      let hex = lawful.hmac-IsHex secret body in
      let parts : split 46 (body ++ 46 ∷ signature) ≡ body ∷ signature ∷ [] =
        split-first 46 body signature (lawful.payload-NoDot p)
        ∙ ap (λ (ts : List Text). body ∷ ts)
            (split-clean 46 signature (hex-NoDot signature (ground arith))) in
      rw
        (
          encode_session,
          is_empty-append body 46 signature,
          parts,
          lawful.payload-some p,
          hex-some signature hex,
          verified_payload,
          constant_time_hex_equal_refl signature hex,
          lawful.parse-encode p,
        )
        refl

  trim-pair :
      (value : Text)
      → crypto.trim (cookie_name ++ 61 ∷ crypto.encode_uri_component value)
        ≡ cookie_name ++ 61 ∷ crypto.encode_uri_component value
  trim-pair value =
      let visible =
        All-map IsCookieUnit (λ (c : ℕ). (33 ≤ c) × (c ≤ 126)) (λ c (low, high, _, _). (low, high))
          (crypto.encode_uri_component value) (lawful.encoded-All value) in
      lawful.trim-visible (cookie_name ++ 61 ∷ crypto.encode_uri_component value) (
        All-append (λ (c : ℕ). (33 ≤ c) × (c ≤ 126)) cookie_name
          (61 ∷ crypto.encode_uri_component value) (ground arith)
          ((omega arith, omega arith), visible))

  split-pair :
      (value : Text)
      → split 61 (cookie_name ++ 61 ∷ crypto.encode_uri_component value)
        ≡ cookie_name ∷ crypto.encode_uri_component value ∷ []
  split-pair value =
      let clean =
        All-map IsCookieUnit (λ (c : ℕ). c == 61 ≡ false) (λ c (_, _, _, other). other)
          (crypto.encode_uri_component value) (lawful.encoded-All value) in
      split-first 61 cookie_name (crypto.encode_uri_component value) (ground arith)
      ∙ ap (λ (ts : List Text). cookie_name ∷ ts)
          (split-clean 61 (crypto.encode_uri_component value) clean)

  find_cookie-pair :
      (value : Text) (others : List Text)
      → find_cookie crypto
          ((cookie_name ++ 61 ∷ crypto.encode_uri_component value) ∷ others)
          cookie_name
        ≡ ok (some value)
  unfolding find_cookie join same_text
  find_cookie-pair value others =
      rw (trim-pair value, split-pair value, lawful.decode-encode value) refl

  splits-nothing :
      (value : Text) (others : List Text)
      → ¬ (split 59 [] ≡ (cookie_name ++ 61 ∷ crypto.encode_uri_component value) ∷ others)
  unfolding split
  splits-nothing value others h = cc

  pub read_cookie-pair :
      (r : Request) (header value : Text) (others : List Text)
      → r.cookie ≡ some header
      → split 59 header ≡ (cookie_name ++ 61 ∷ crypto.encode_uri_component value) ∷ others
      → read_cookie crypto r cookie_name ≡ ok (some value)
  unfolding read_cookie split
  read_cookie-pair r [] value others h parts = absurd (splits-nothing value others parts)
  read_cookie-pair r (c ∷ cs) value others h parts =
      rw (h, parts, find_cookie-pair value others) refl
