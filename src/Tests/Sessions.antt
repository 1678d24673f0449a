-- ===== src/Tests/Sessions.antt =====
-- A guest of src/lib/security/auth.ts who comes back, over a small encoding that is lawful: a
-- component is a marker and the binary digits of each unit.
use monidhackson.Base.{
  Bool, Option, ◌⊎◌, not, ◌||◌, ℕ, zero, suc, ◌+◌, ◌*◌, ◌-◌, ◌/◌, ◌%◌, ◌≤◌, ◌≡◌, refl, inl, inr, ap,
  ◌∙◌, true, false, [], ◌∷◌, ◌++◌, none, some, All, map, ◌==◌, if◌then◌else◌, Bool-cases, arith,
}
use monidhackson.Errors.{ok}
use monidhackson.PageIndex.{Text}
use monidhackson.Citations.Repair.{same_text}
use monidhackson.Sessions.{
  constant_time_hex_equal, hex_bytes, signed_parts, Crypto, Request, AuthConfig, SetCookie,
  Principal, encode_session, authenticate_request, authenticate_guest, api_principal,
  session_secret, session_cookie, new_session, ip_quota_key, client_ip, read_cookie, guest_prefix,
  ip_prefix, decode_session,
}
use monidhackson.Sessions.Splitting.{split}
use monidhackson.Sessions.Lawful.{IsLawful, IsCookieUnit}
use monidhackson.Sessions.Issued.{session_lasts_a_day}
use monidhackson.Sessions.Challenge.{
  ChallengeConfig, ChallengeRequest, MutationAction, create_run, challenged, trimmed,
  enforce_mutation_challenge, enforce_mutation_challenge-IsChecked,
}
use monidhackson.Sessions.Trusted.{IsTrusted, authenticate_request-IsTrusted}

bits : ℕ → ℕ → Text
bits zero n = []
bits (suc fuel) n = elim (n == 0) [ true ↦ [] | false ↦ (97 + n % 2) ∷ bits fuel (n / 2) ]

bits-zero : (fuel n : ℕ) → n == 0 ≡ true → bits (suc fuel) n ≡ []
unfolding bits
bits-zero fuel n e = rw (e, bits) refl

bits-suc : (fuel n : ℕ) → n == 0 ≡ false → bits (suc fuel) n ≡ (97 + n % 2) ∷ bits fuel (n / 2)
unfolding bits
bits-suc fuel n e = rw (e, bits) refl

bits-none : (n : ℕ) → bits zero n ≡ []
unfolding bits
bits-none n = refl

encoded : Text → Text
unfolding bits
encoded [] = []
encoded (c ∷ cs) = 99 ∷ (bits c c ++ encoded cs)

-- The number that the digits at the head make, and the units after them.
decoded : Text → ℕ × Text
decoded [] = (0, [])
decoded (c ∷ cs) =
    let (value, units) = decoded cs in
    if c == 99 then (0, value ∷ units) else (c - 97 + 2 * value, units)

decoded-bits :
    (fuel n : ℕ) (t units : Text)
    → n ≤ fuel
    → decoded t ≡ (0, units)
    → decoded (bits fuel n ++ t) ≡ (n, units)
unfolding decoded
decoded-bits zero n t units h is =
    let none_left : 0 ≡ n = omega arith in
    rw (bits-none n) (is ∙ ap (λ (k : ℕ). (k, units)) none_left)
decoded-bits (suc fuel) n t units h is = elim (Bool-cases (n == 0)) [
  | inl e ↦
      let none_left : 0 ≡ n = ground arith in
      rw (bits-zero fuel n e) (is ∙ ap (λ (k : ℕ). (k, units)) none_left)
  | inr e ↦
      let rest = decoded-bits fuel (n / 2) t units (ground arith) is in
      let no_marker : (97 + n % 2) == 99 ≡ false = ground arith in
      let whole : 97 + n % 2 - 97 + 2 * (n / 2) ≡ n = omega arith in
      rw (bits-suc fuel n e, rest, no_marker) (ap (λ (k : ℕ). (k, units)) whole)
]

decoded-encoded : (t : Text) → decoded (encoded t) ≡ (0, t)
unfolding encoded decoded
decoded-encoded [] = refl
decoded-encoded (c ∷ cs) =
    let digits = decoded-bits c c (encoded cs) cs (omega arith) (decoded-encoded cs) in
    rw digits refl

abbrev lift : Text → Text
lift t = map (λ (c : ℕ). c + 100) t

abbrev lower : Text → Text
lower t = map (λ (c : ℕ). c - 100) t

abbrev crypto : Crypto
crypto = record {
  hmac_sha256_hex = λ k t. 97 ∷ 98 ∷ [];
  sha256_hex = λ t. 48 ∷ 102 ∷ [];
  encode_payload = λ p. (p.exp + 100) ∷ lift p.sub;
  parse_payload = λ t. elim t [
    | [] ↦ none
    | c ∷ cs ↦ some (record { sub = some (lower cs); exp = some (c - 100) })
  ];
  encode_uri_component = encoded;
  decode_uri_component = λ t. some ((decoded t).1);
  trim = λ t. t;
}

bits-All : (fuel n : ℕ) (t : Text) → All IsCookieUnit t → All IsCookieUnit (bits fuel n ++ t)
bits-All zero n t h = rw (bits-none n) h
bits-All (suc fuel) n t h = elim (Bool-cases (n == 0)) [
  | inl e ↦ rw (bits-zero fuel n e) h
  | inr e ↦ rw (bits-suc fuel n e) (ground arith, bits-All fuel (n / 2) t h)
]

encoded-All : (t : Text) → All IsCookieUnit (encoded t)
unfolding encoded
encoded-All [] = tt
encoded-All (c ∷ cs) = (ground arith, bits-All c c (encoded cs) (encoded-All cs))

lower-lift : (t : Text) → lower (lift t) ≡ t
lower-lift [] = refl
lower-lift (c ∷ cs) = let back : c + 100 - 100 ≡ c = omega arith in λ i. back i ∷ lower-lift cs i

lift-NoDot : (t : Text) → All (λ (c : ℕ). c == 46 ≡ false) (lift t)
lift-NoDot [] = tt
lift-NoDot (c ∷ cs) = (ground arith, lift-NoDot cs)

crypto-IsLawful : IsLawful crypto
unfolding encoded decoded
crypto-IsLawful = record {
  hmac-IsHex = λ k t. refl;
  payload-some = λ p. refl;
  payload-NoDot = λ p. (ground arith, lift-NoDot p.sub);
  parse-encode = λ p.
      let back : p.exp + 100 - 100 ≡ p.exp = omega arith in
      λ i. some (record { sub = some (lower-lift p.sub i); exp = some (back i) });
  encoded-All = encoded-All;
  decode-encode = λ t. ap (λ (q : ℕ × Text). some q.1) (decoded-encoded t);
  trim-visible = λ t h. refl;
}

abbrev secret : Text
secret = 1 ∷ []

abbrev config : AuthConfig
config = record {
  is_production = true;
  session_signing_secret = some secret;
  ip_hash_secret = none;
  api_key_sha256 = none;
}

abbrev first_request : Request
first_request = record {
  cookie = none;
  authorization = none;
  x_forwarded_for = some (7 ∷ 44 ∷ 8 ∷ []);
  x_real_ip = none;
}

abbrev issued : SetCookie
issued = session_cookie crypto [] config secret (new_session crypto [] (5 ∷ []) 1000)

abbrev newcomer : Principal
newcomer = record {
  id = guest_prefix crypto ++ 5 ∷ [];
  quota_key = ip_prefix crypto ++ 97 ∷ 98 ∷ [];
  is_api = false;
  set_cookie = some issued;
}

newcomer_accepted :
    authenticate_request crypto [] first_request config true (5 ∷ []) 1000 ≡ ok newcomer
unfolding authenticate_request api_principal session_secret read_cookie authenticate_guest
    decode_session ip_quota_key client_ip split
newcomer_accepted = refl

abbrev next_request : Request
next_request = record first_request { cookie = some issued.pair }

one_cookie : split 59 issued.pair ≡ issued.pair ∷ []
unfolding split encoded bits encode_session
one_cookie = refl

session_lasts_a_day_example :
    authenticate_request crypto [] next_request config false (9 ∷ []) 86400999
    ≡ ok (record newcomer { set_cookie = none })
unfolding ip_quota_key client_ip session_secret split
session_lasts_a_day_example =
    session_lasts_a_day crypto crypto-IsLawful [] (5 ∷ []) (9 ∷ []) issued.pair 1000 86400999 config
      first_request next_request newcomer issued [] newcomer_accepted refl refl refl one_cookie

authenticate_request-IsTrusted_example :
    IsTrusted crypto [] next_request config false
      (9 ∷ [])
      86400999
      (record newcomer { set_cookie = none })
authenticate_request-IsTrusted_example =
    authenticate_request-IsTrusted crypto [] (9 ∷ []) 86400999 next_request config false
      (record newcomer { set_cookie = none }) session_lasts_a_day_example

-- An odd last digit is not compared, and an empty third part is not refused.
odd_digit_ignored : constant_time_hex_equal (97 ∷ 98 ∷ []) (97 ∷ 98 ∷ 99 ∷ []) ≡ true
unfolding constant_time_hex_equal hex_bytes same_text
odd_digit_ignored = refl

empty_part_ignored : signed_parts (split 46 (1 ∷ 46 ∷ 2 ∷ 46 ∷ [])) ≡ some (1 ∷ [], 2 ∷ [])
unfolding signed_parts split
empty_part_ignored = refl

abbrev challenge_config : ChallengeConfig
challenge_config = record {
  is_production = true;
  turnstile_secret_key = some secret;
  turnstile_expected_hostname = some (4 ∷ []);
}

abbrev challenge_request : ChallengeRequest
challenge_request = record {
  hostname = 4 ∷ [];
  x_turnstile_token = some (6 ∷ []);
  x_forwarded_for = none;
}

abbrev knows_token : Text → Option Text → MutationAction → Text → Bool
knows_token token address action hostname = same_text token (6 ∷ [])

challenge_passed :
    enforce_mutation_challenge crypto
      (λ t. t)
      knows_token
      challenge_config
      challenge_request
      newcomer
      create_run
    ≡ ok tt
unfolding enforce_mutation_challenge challenged same_text
challenge_passed = refl

enforce_mutation_challenge-IsChecked_example :
    (newcomer.is_api || not challenge_config.is_production ≡ true)
    ⊎ ((expected : Text) × (token : Text) × (challenge_config.turnstile_expected_hostname
          ≡ some expected)
        × (challenge_request.hostname ≡ expected)
        × (trimmed crypto (λ t. t) challenge_request.x_turnstile_token ≡ some token)
        × (knows_token token none create_run expected ≡ true))
enforce_mutation_challenge-IsChecked_example =
    enforce_mutation_challenge-IsChecked crypto (λ t. t) knows_token challenge_config
      challenge_request newcomer create_run challenge_passed
