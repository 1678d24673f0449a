-- ===== src/Sessions/Issued.antt =====
-- A session of src/lib/security/auth.ts that a response has set, and a later request that carries it.
use monidhackson.Base.{
  ℕ, ◌+◌, ◌≡◌, refl, inl, inr, sym, ap, ◌∙◌, true, false, not, List, ◌∷◌, ◌++◌, Option, none, some,
  leb, if◌then◌else◌, Bool-cases, Option-cases,
}
use monidhackson.Errors.{ok, err, ◌>>=◌, >>=-eq-ok, ok-injective}
use monidhackson.PageIndex.{Text, drop}
use monidhackson.Citations.Repair.{has_prefix}
use monidhackson.Sessions.{
  Crypto, SessionPayload, Request, AuthConfig, SetCookie, Principal, cookie_name,
  constant_time_hex_equal, encode_session, decode_session, read_cookie, session_secret,
  ip_quota_key, new_session, session_cookie, authenticate_guest, authenticate_request,
  credential_required, guest_prefix, api_principal, checked_key, principal_of_key, bearer,
  client_ip,
}
use monidhackson.Sessions.Splitting.{split}
use monidhackson.Sessions.Lawful.{IsLawful, decode-encode_session, read_cookie-pair}

module _ (crypto : Crypto) (secret : Text) where
  -- What a response to a newcomer sets.
  authenticate_guest-cookie :
      (development_secret uuid : Text) (now : ℕ) (r : Request) (config : AuthConfig)
      (cookie : Option Text) (p : Principal) (c : SetCookie)
      → authenticate_guest crypto development_secret r config true uuid now secret cookie ≡ ok p
      → p.set_cookie ≡ some c
      → (session : SessionPayload) × (session ≡ new_session crypto development_secret uuid now)
        × (p.id ≡ guest_prefix crypto ++ uuid)
        × (c.pair
            ≡ cookie_name
              ++ 61 ∷ crypto.encode_uri_component (encode_session crypto session secret))
  unfolding authenticate_guest
  authenticate_guest-cookie development_secret uuid now r config cookie p c h set =
      elim (Option-cases (decode_session crypto cookie secret now)) [
        | inl e ↦
            let fresh = new_session crypto development_secret uuid now in
            let (key, _, is) =
              >>=-eq-ok _ (ip_quota_key crypto development_secret r config)
                (rw (e, authenticate_guest) at h) in
            let same = ok-injective is in
            let cookies = sym (ap (λ (q : Principal). q.set_cookie) same) in
            let pair : c ≡ session_cookie crypto development_secret config secret fresh = cc in
            (
              fresh,
              refl,
              sym (ap (λ (q : Principal). q.id) same),
              ap (λ (d : SetCookie). d.pair) pair,
            )
        | inr (session, e) ↦
            let (key, _, is) =
              >>=-eq-ok _ (ip_quota_key crypto development_secret r config)
                (rw (e, authenticate_guest) at h) in
            let none_set = ap (λ (q : Principal). q.set_cookie) (ok-injective is) in absurd cc
      ]

abbrev cookie_of : Option Principal → Option SetCookie
cookie_of none = none
cookie_of (some p) = p.set_cookie

checked_key-no_cookie :
    (crypto : Crypto) (token key : Text) (p : Principal)
    → checked_key crypto token key ≡ ok (some p)
    → p.set_cookie ≡ none
unfolding checked_key
checked_key-no_cookie crypto token key p h =
    elim (Bool-cases (not (constant_time_hex_equal (crypto.sha256_hex token) key))) [
      | inl e ↦ let bad = rw (e, checked_key) at h in absurd cc
      | inr e ↦
          let same : some (principal_of_key crypto (crypto.sha256_hex token)) ≡ some p =
            ok-injective (rw (e, checked_key) at h) in
          ap (λ (o : Option Principal). cookie_of o) (sym same)
    ]

api_principal-no_cookie :
    (crypto : Crypto) (r : Request) (config : AuthConfig) (p : Principal)
    → api_principal crypto r config ≡ ok (some p)
    → p.set_cookie ≡ none
unfolding api_principal
api_principal-no_cookie crypto r config p h = elim (Option-cases r.authorization) [
  | inl e ↦ let bad = rw (e, api_principal) at h in absurd cc
  | inr (authorization, e) ↦ elim (Option-cases config.api_key_sha256) [
    | inl e' ↦ let bad = rw (e, e', api_principal) at h in absurd cc
    | inr (key, e') ↦ elim (Bool-cases (not (has_prefix authorization (bearer crypto)))) [
      | inl e'' ↦ let bad = rw (e, e', e'', api_principal) at h in absurd cc
      | inr e'' ↦
          checked_key-no_cookie crypto (crypto.trim (drop 7 authorization)) key p
            (rw (e, e', e'', api_principal) at h)
    ]
  ]
]

-- Where a principal with a new cookie comes from.
newcomer :
    (crypto : Crypto) (development_secret uuid : Text) (now : ℕ) (r : Request) (config : AuthConfig)
    (p : Principal) (c : SetCookie) (api : Option Principal)
    → api_principal crypto r config ≡ ok api
    → authenticate_request crypto development_secret r config true uuid now ≡ ok p
    → p.set_cookie ≡ some c
    → (secret : Text) × (cookie : Option Text) × (session_secret crypto development_secret config
        ≡ ok secret)
      × (authenticate_guest crypto development_secret r config true uuid now secret cookie ≡ ok p)
unfolding authenticate_request
newcomer crypto development_secret uuid now r config p c (some q) is h set =
    let same = ok-injective (rw (is, authenticate_request) at h) in
    let no_cookie = api_principal-no_cookie crypto r config q is in
    let kept = ap (λ (p' : Principal). p'.set_cookie) same in absurd cc
newcomer crypto development_secret uuid now r config p c none is h set =
    let (secret, hs, h') =
      >>=-eq-ok _ (session_secret crypto development_secret config)
        (rw (is, authenticate_request) at h) in
    let (cookie, _, h'') = >>=-eq-ok _ (read_cookie crypto r cookie_name) h' in
    (secret, cookie, hs, h'')

-- On a platform whose digests and encodings are as documented, a session that authenticateRequest
-- gives to a newcomer, whatever cookie was sent before, is good for a day. A later request that has
-- no Authorization header and whose first cookie is the one that was set comes from the same guest,
-- and sets no cookie, up to that time; from then on it is refused where no guest may be created.
pub session_lasts_a_day :
    (crypto : Crypto) (lawful : IsLawful crypto) (development_secret uuid later_uuid header : Text)
    (now later : ℕ) (config : AuthConfig) (r later_request : Request) (p : Principal)
    (c : SetCookie) (others : List Text)
    → authenticate_request crypto development_secret r config true uuid now ≡ ok p
    → p.set_cookie ≡ some c
    → later_request.authorization ≡ none
    → later_request.cookie ≡ some header
    → split 59 header ≡ c.pair ∷ others
    → authenticate_request crypto development_secret later_request config false later_uuid later ≡ (
        if leb (now + 86400000) later
        then err (credential_required)
        else ip_quota_key crypto development_secret later_request config >>= λ key.
            ok (record { id = p.id; quota_key = key; is_api = false; set_cookie = none }))
unfolding authenticate_request authenticate_guest api_principal ip_quota_key client_ip
session_lasts_a_day crypto lawful development_secret uuid later_uuid header now later config r
      later_request p c others h set anonymous carried parts =
    let (api, is, _) = >>=-eq-ok _ (api_principal crypto r config) h in
    let (secret, cookie, signs, h') =
      newcomer crypto development_secret uuid now r config p c api is h set in
    let (session, fresh, id, pair) =
      authenticate_guest-cookie crypto secret development_secret uuid now r config cookie p c h'
        set in
    let carries =
      read_cookie-pair crypto lawful secret later_request header
        (encode_session crypto session secret) others carried
        (parts ∙ ap (λ (t : Text). t ∷ others) pair) in
    let decodes = decode-encode_session crypto lawful secret session later in
    let ends : session.exp ≡ now + 86400000 = ap (λ (q : SessionPayload). q.exp) fresh in
    let who : session.sub ≡ uuid = ap (λ (q : SessionPayload). q.sub) fresh in
    elim (Bool-cases (leb (now + 86400000) later)) [
      | inl e ↦
          let decoded = rw (ends, e) at decodes in
          rw (e, authenticate_request, anonymous, signs, carries, authenticate_guest, decoded) refl
      | inr e ↦
          let decoded = rw (ends, e) at decodes in
          rw
            (
              e, authenticate_request, anonymous, signs, carries, authenticate_guest, decoded, who,
              id,
            )
            refl
    ]
