-- ===== src/Sessions.antt =====
-- src/lib/security/auth.ts: who a request comes from. Texts are lists of code units. The digests, the
-- encodings of the platform and its `trim` are an argument; a request reads the clock once. Optional
-- settings are not empty, which the schema of the configuration demands.
pub mod Splitting
pub mod Lawful
pub mod Issued
pub mod Trusted
pub mod Challenge
use monidhackson.Base.{
  ℕ, ◌+◌, ◌*◌, ◌-◌, ◌≤◌, String, Bool, true, false, not, ◌&&◌, ◌||◌, List, [], ◌∷◌, ◌++◌, Option,
  none, some, all, take, get_or, ltb, leb, ◌==◌, if◌then◌else◌,
}
use monidhackson.Errors.{AppError, Result, ok, err, ◌>>=◌, analysis_incomplete, rate_limited}
use monidhackson.PageIndex.{Text, drop}
use monidhackson.Citations.Repair.{same_text, has_prefix}
use monidhackson.Sources.{refusal}
use monidhackson.Sessions.Splitting.{split, join, is_empty}

-- rfp_session
abbrev pub cookie_name : Text
cookie_name = 114 ∷ 102 ∷ 112 ∷ 95 ∷ 115 ∷ 101 ∷ 115 ∷ 115 ∷ 105 ∷ 111 ∷ 110 ∷ []

abbrev pub session_seconds : ℕ
session_seconds = 24 * 60 * 60

pub record SessionPayload : Type 0 where
  pub sub : Text
  pub exp : ℕ

-- The fields of a parsed payload that have their types.
pub record PartialPayload : Type 0 where
  pub sub : Option Text
  pub exp : Option ℕ

-- `encode_payload` is the base64url text of the JSON, and `parse_payload` reads it, with `none`
-- where that throws.
pub record Crypto : Type 0 where
  pub hmac_sha256_hex : Text → Text → Text
  pub sha256_hex : Text → Text
  pub encode_payload : SessionPayload → Text
  pub parse_payload : Text → Option PartialPayload
  pub encode_uri_component : Text → Text
  pub decode_uri_component : Text → Option Text
  pub trim : Text → Text

pub record Request : Type 0 where
  pub cookie : Option Text
  pub authorization : Option Text
  pub x_forwarded_for : Option Text
  pub x_real_ip : Option Text

pub record AuthConfig : Type 0 where
  pub is_production : Bool
  pub session_signing_secret : Option Text
  pub ip_hash_secret : Option Text
  pub api_key_sha256 : Option Text

-- The cookie that a response sets: its name and value, and what else the header says.
pub record SetCookie : Type 0 where
  pub pair : Text
  pub max_age : ℕ
  pub is_secure : Bool

pub record Principal : Type 0 where
  pub id : Text
  pub quota_key : Text
  pub is_api : Bool
  pub set_cookie : Option SetCookie

abbrev pub is_hex_digit : ℕ → Bool
is_hex_digit u = (leb 48 u && leb u 57) || (leb 65 u && leb u 70) || (leb 97 u && leb u 102)

abbrev pub hex_value : ℕ → ℕ
hex_value u = if ltb u 58 then u - 48 else if ltb u 71 then u - 55 else u - 87

-- `Buffer.from(text, "hex")`, which drops an odd last digit.
unfoldable pub hex_bytes : Text → List ℕ
hex_bytes [] = []
hex_bytes (c ∷ []) = []
hex_bytes (c ∷ d ∷ cs) = (16 * hex_value c + hex_value d) ∷ hex_bytes cs

abbrev pub is_hex_text : Text → Bool
is_hex_text t = not (is_empty t) && all is_hex_digit t

unfoldable pub constant_time_hex_equal : Text → Text → Bool
constant_time_hex_equal left right =
    if not (is_hex_text left) || not (is_hex_text right)
    then false
    else same_text (hex_bytes left) (hex_bytes right)

abbrev pub sessions_not_configured : AppError
sessions_not_configured = record {
  code = analysis_incomplete;
  message = "Guest sessions are not configured.";
  http_status = 503;
  retryable = true;
}

abbrev pub invalid_credential : AppError
invalid_credential = refusal rate_limited "The API credential is invalid." 401

abbrev pub credential_required : AppError
credential_required = refusal rate_limited "A valid session or API credential is required." 401

-- The URIError of a malformed cookie, which the application reports as unexpected.
abbrev pub malformed_cookie : AppError
malformed_cookie = record {
  code = analysis_incomplete;
  message = "The request could not be completed.";
  http_status = 500;
  retryable = true;
}

-- The body and the signature of a session: two parts, and a third only if it is empty.
unfoldable pub signed_parts : List Text → Option (Text × Text)
signed_parts [] = none
signed_parts (body ∷ []) = none
signed_parts (body ∷ signature ∷ []) =
    if is_empty body || is_empty signature then none else some (body, signature)
signed_parts (body ∷ signature ∷ extra ∷ more) =
    if is_empty body || is_empty signature || not (is_empty extra)
    then none
    else some (body, signature)

unfoldable pub unexpired : PartialPayload → ℕ → Option SessionPayload
unexpired p now = elim p.sub [
  | none ↦ none
  | some sub ↦ elim p.exp [
    | none ↦ none
    | some exp ↦ if leb exp now then none else some (record { sub = sub; exp = exp })
  ]
]

-- What follows the first `=` of a pair.
abbrev pub cookie_value : List Text → Text
cookie_value [] = []
cookie_value (key ∷ value) = join 61 value

abbrev pub has_key : Text → List Text → Bool
has_key name [] = false
has_key name (key ∷ value) = same_text key name

module _ (crypto : Crypto) where
  unfoldable pub encode_session : SessionPayload → Text → Text
  encode_session payload secret =
      let body = crypto.encode_payload payload in body ++ 46 ∷ crypto.hmac_sha256_hex secret body

  unfoldable pub verified_payload : Text → ℕ → Text × Text → Option SessionPayload
  verified_payload secret now (body, signature) =
      if not (constant_time_hex_equal signature (crypto.hmac_sha256_hex secret body))
      then none
      else elim (crypto.parse_payload body) [ none ↦ none | some p ↦ unexpired p now ]

  unfoldable pub decode_session : Option Text → Text → ℕ → Option SessionPayload
  decode_session none secret now = none
  decode_session (some value) secret now =
      if is_empty value then none else elim (signed_parts (split 46 value)) [
        | none ↦ none
        | some parts ↦ verified_payload secret now parts
      ]

  -- The first pair of the header that has the name.
  unfoldable pub find_cookie : List Text → Text → Result (Option Text)
  find_cookie [] name = ok none
  find_cookie (pair ∷ pairs) name =
      let rest = find_cookie pairs name in
      let parts = split 61 (crypto.trim pair) in
      if has_key name parts
      then elim (crypto.decode_uri_component (cookie_value parts)) [
        | none ↦ err malformed_cookie
        | some value ↦ ok (some value)
      ]
      else rest

  unfoldable pub read_cookie : Request → Text → Result (Option Text)
  read_cookie r name = elim r.cookie [
    | none ↦ ok none
    | some cookie ↦ if is_empty cookie then ok none else find_cookie (split 59 cookie) name
  ]

  -- "Bearer "
  abbrev pub bearer : Text
  bearer = 66 ∷ 101 ∷ 97 ∷ 114 ∷ 101 ∷ 114 ∷ 32 ∷ []

  abbrev pub api_prefix : Text
  api_prefix = 97 ∷ 112 ∷ 105 ∷ 58 ∷ []

  abbrev pub guest_prefix : Text
  guest_prefix = 103 ∷ 117 ∷ 101 ∷ 115 ∷ 116 ∷ 58 ∷ []

  abbrev pub ip_prefix : Text
  ip_prefix = 105 ∷ 112 ∷ 58 ∷ []

  abbrev pub local : Text
  local = 108 ∷ 111 ∷ 99 ∷ 97 ∷ 108 ∷ []

  abbrev pub principal_of_key : Text → Principal
  principal_of_key hash = record {
    id = api_prefix ++ take 24 hash;
    quota_key = api_prefix ++ hash;
    is_api = true;
    set_cookie = none;
  }

  unfoldable pub checked_key : Text → Text → Result (Option Principal)
  checked_key token key =
      let hash = crypto.sha256_hex token in
      if not (constant_time_hex_equal hash key)
      then err invalid_credential
      else ok (some (principal_of_key hash))

  unfoldable pub api_principal : Request → AuthConfig → Result (Option Principal)
  api_principal r config = elim r.authorization [
    | none ↦ ok none
    | some authorization ↦ elim config.api_key_sha256 [
      | none ↦ ok none
      | some key ↦
          if not (has_prefix authorization bearer)
          then ok none
          else checked_key (crypto.trim (drop 7 authorization)) key
    ]
  ]

  abbrev pub non_empty : Option Text → Option Text
  non_empty none = none
  non_empty (some t) = if is_empty t then none else some t

  abbrev pub first_of : List Text → Option Text
  first_of [] = none
  first_of (t ∷ ts) = some (crypto.trim t)

  abbrev pub forwarded_ip : Option Text → Option Text
  forwarded_ip none = none
  forwarded_ip (some header) = first_of (split 44 header)

  unfoldable pub client_ip : Request → Text
  client_ip r = elim (non_empty (forwarded_ip r.x_forwarded_for)) [
    | some ip ↦ ip
    | none ↦ get_or (non_empty r.x_real_ip) local
  ]

  module _ (development_secret : Text) where
    unfoldable pub session_secret : AuthConfig → Result Text
    session_secret config = elim config.session_signing_secret [
      | some secret ↦ ok secret
      | none ↦ if config.is_production then err sessions_not_configured else ok development_secret
    ]

    unfoldable pub ip_quota_key : Request → AuthConfig → Result Text
    ip_quota_key r config =
        elim config.ip_hash_secret [ some secret ↦ ok secret | none ↦ session_secret config ]
        >>= λ secret. ok (ip_prefix ++ crypto.hmac_sha256_hex secret (client_ip r))

    abbrev pub guest_principal : Request → AuthConfig → Text → Option SetCookie → Result Principal
    guest_principal r config sub set_cookie = ip_quota_key r config >>= λ key. ok (record {
      id = guest_prefix ++ sub;
      quota_key = key;
      is_api = false;
      set_cookie = set_cookie;
    })

    abbrev pub new_session : Text → ℕ → SessionPayload
    new_session uuid now = record { sub = uuid; exp = now + session_seconds * 1000 }

    abbrev pub session_cookie : AuthConfig → Text → SessionPayload → SetCookie
    session_cookie config secret session = record {
      pair = cookie_name ++ 61 ∷ crypto.encode_uri_component (encode_session session secret);
      max_age = session_seconds;
      is_secure = config.is_production;
    }

    unfoldable pub authenticate_guest :
        Request → AuthConfig → Bool → Text → ℕ → Text → Option Text → Result Principal
    authenticate_guest r config create_guest uuid now secret cookie =
        elim (decode_session cookie secret now) [
          | some session ↦ guest_principal r config session.sub none
          | none ↦
              if not create_guest
              then err credential_required
              else guest_principal r config uuid
                  (some (session_cookie config secret (new_session uuid now)))
        ]

    unfoldable pub authenticate_request : Request → AuthConfig → Bool → Text → ℕ → Result Principal
    authenticate_request r config create_guest uuid now = api_principal r config >>= λ api.
        elim api [
          | some p ↦ ok p
          | none ↦ session_secret config >>= λ secret. read_cookie r cookie_name >>= λ cookie.
              authenticate_guest r config create_guest uuid now secret cookie
        ]
