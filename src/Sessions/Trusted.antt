-- ===== src/Sessions/Trusted.antt =====
-- Whom authenticateRequest of src/lib/security/auth.ts trusts.
use monidhackson.Base.{
  ℕ, ◌<◌, ◌≡◌, refl, ◌⊎◌, inl, inr, sym, ap, ◌∙◌, Bool, true, not, ◌||◌, List, [], ◌∷◌, ◌++◌,
  Option, none, some, take, leb, Bool-cases, Option-cases, arith,
}
use monidhackson.Errors.{ok, >>=-eq-ok, ok-injective}
use monidhackson.PageIndex.{Text, drop}
use monidhackson.Citations.Repair.{has_prefix}
use monidhackson.Sessions.{
  Crypto, SessionPayload, PartialPayload, Request, AuthConfig, Principal, cookie_name,
  constant_time_hex_equal, signed_parts, unexpired, verified_payload, decode_session, read_cookie,
  checked_key, session_secret, ip_quota_key, authenticate_guest, authenticate_request, api_prefix,
  guest_prefix, api_principal, bearer,
}
use monidhackson.Sessions.Splitting.{split, join, is_empty, join-split}

some-injective {ℓ} : {A : Type ℓ} {a b : A} → some a ≡ some b → a ≡ b
some-injective h = cc

module _ (crypto : Crypto) where
  -- The principal holds the API key.
  pub HoldsKey : Request → AuthConfig → Principal → Type 0
  HoldsKey r config p =
      (authorization : Text) × (key : Text) × (r.authorization ≡ some authorization)
      × (has_prefix authorization (bearer crypto) ≡ true)
      × (config.api_key_sha256 ≡ some key)
      × (constant_time_hex_equal (crypto.sha256_hex (crypto.trim (drop 7 authorization))) key
          ≡ true)
      × (p.id
          ≡ api_prefix crypto ++ take 24 (crypto.sha256_hex (crypto.trim (drop 7 authorization))))

  -- A session that the secret signs, and that has not expired.
  pub IsSigned : Text → ℕ → Text → SessionPayload → Type 0
  IsSigned secret now value session =
      (body : Text) × (signature : Text) × (more : List Text) × (value
        ≡ join 46 (body ∷ signature ∷ more))
      × (constant_time_hex_equal signature (crypto.hmac_sha256_hex secret body) ≡ true)
      × (crypto.parse_payload body
          ≡ some (record { sub = some session.sub; exp = some session.exp }))
      × (now < session.exp)

  unexpired-eq-some :
      (q : PartialPayload) (now : ℕ) (session : SessionPayload)
      → unexpired q now ≡ some session
      → (q ≡ record { sub = some session.sub; exp = some session.exp }) × (now < session.exp)
  unfolding unexpired
  unexpired-eq-some q now session h = elim (Option-cases q.sub) [
    | inl e ↦ let bad = rw (e, unexpired) at h in absurd cc
    | inr (sub, e) ↦ elim (Option-cases q.exp) [
      | inl e' ↦ let bad = rw (e, e', unexpired) at h in absurd cc
      | inr (exp, e') ↦ elim (Bool-cases (leb exp now)) [
        | inl e'' ↦ let bad = rw (e, e', e'', unexpired) at h in absurd cc
        | inr e'' ↦
            let same = some-injective (rw (e, e', e'', unexpired) at h) in
            let subs : q.sub ≡ some session.sub =
              e ∙ ap (λ (s : SessionPayload). some s.sub) same in
            let exps : q.exp ≡ some session.exp =
              e' ∙ ap (λ (s : SessionPayload). some s.exp) same in
            let kept : exp ≡ session.exp = ap (λ (s : SessionPayload). s.exp) same in
            ((λ i. record { sub = subs i; exp = exps i }), ground arith)
      ]
    ]
  ]

  signed_parts-eq-some :
      (ts : List Text) (body signature : Text)
      → signed_parts ts ≡ some (body, signature)
      → (more : List Text) × (ts ≡ body ∷ signature ∷ more)
  unfolding signed_parts
  signed_parts-eq-some [] body signature h = absurd cc
  signed_parts-eq-some (t ∷ []) body signature h = absurd cc
  signed_parts-eq-some (t ∷ u ∷ []) body signature h =
      elim (Bool-cases (is_empty t || is_empty u)) [
        | inl e ↦ let bad = rw (e, signed_parts) at h in absurd cc
        | inr e ↦
            let same = some-injective (rw (e, signed_parts) at h) in
            ([], λ i. (same i).0 ∷ (same i).1 ∷ [])
      ]
  signed_parts-eq-some (t ∷ u ∷ v ∷ more) body signature h =
      elim (Bool-cases (is_empty t || is_empty u || not (is_empty v))) [
        | inl e ↦ let bad = rw (e, signed_parts) at h in absurd cc
        | inr e ↦
            let same = some-injective (rw (e, signed_parts) at h) in
            (v ∷ more, λ i. (same i).0 ∷ (same i).1 ∷ v ∷ more)
      ]

  decode_session-IsSigned :
      (value secret : Text) (now : ℕ) (session : SessionPayload)
      → decode_session crypto (some value) secret now ≡ some session
      → IsSigned secret now value session
  unfolding decode_session verified_payload IsSigned
  decode_session-IsSigned value secret now session h = elim (Bool-cases (is_empty value)) [
    | inl e ↦ let bad = rw (e, decode_session) at h in absurd cc
    | inr e ↦ elim (Option-cases (signed_parts (split 46 value))) [
      | inl e' ↦ let bad = rw (e, e', decode_session) at h in absurd cc
      | inr ((body, signature), e') ↦
          let h' = rw (e, e', decode_session, verified_payload) at h in
          elim (Bool-cases
            (constant_time_hex_equal signature (crypto.hmac_sha256_hex secret body))) [
              | inr e'' ↦ let bad = rw e'' at h' in absurd cc
              | inl e'' ↦ elim (Option-cases (crypto.parse_payload body)) [
                | inl f ↦ let bad = rw (e'', f) at h' in absurd cc
                | inr (q, f) ↦
                    let (is, later) = unexpired-eq-some q now session (rw (e'', f) at h') in
                    let (more, parts) = signed_parts-eq-some (split 46 value) body signature e' in
                    (
                      body,
                      signature,
                      more,
                      sym (join-split 46 value) ∙ ap (λ (ts : List Text). join 46 ts) parts,
                      e'',
                      f ∙ ap (λ (o : PartialPayload). some o) is,
                      later,
                    )
              ]
            ]
    ]
  ]

  -- Where a principal comes from: it holds the API key; or the request has no such credential and
  -- sends a session that is signed and in time, and no cookie is set; or a guest may be created, and
  -- the principal is a new one.
  pub IsTrusted : Text → Request → AuthConfig → Bool → Text → ℕ → Principal → Type 0
  IsTrusted development_secret r config create_guest uuid now p =
      HoldsKey r config p
      ⊎ ((secret : Text) × (session_secret crypto development_secret config ≡ ok secret)
          × (((value : Text) × (session : SessionPayload) × (read_cookie crypto r cookie_name
                  ≡ ok (some value))
                × IsSigned secret now value session
                × (p.id ≡ guest_prefix crypto ++ session.sub)
                × (p.set_cookie ≡ none))
              ⊎ ((create_guest ≡ true) × (p.id ≡ guest_prefix crypto ++ uuid))))

  api_principal-HoldsKey :
      (r : Request) (config : AuthConfig) (p : Principal)
      → api_principal crypto r config ≡ ok (some p)
      → HoldsKey r config p
  unfolding api_principal checked_key HoldsKey
  api_principal-HoldsKey r config p h = elim (Option-cases r.authorization) [
    | inl e ↦ let bad = rw (e, api_principal) at h in absurd cc
    | inr (authorization, e) ↦ elim (Option-cases config.api_key_sha256) [
      | inl e' ↦ let bad = rw (e, e', api_principal) at h in absurd cc
      | inr (key, e') ↦ elim (Bool-cases (has_prefix authorization (bearer crypto))) [
        | inr e'' ↦ let bad = rw (e, e', e'', api_principal) at h in absurd cc
        | inl e'' ↦
            let hash = crypto.sha256_hex (crypto.trim (drop 7 authorization)) in
            elim (Bool-cases (constant_time_hex_equal hash key)) [
              | inr f ↦ let bad = rw (e, e', e'', f, api_principal, checked_key) at h in absurd cc
              | inl f ↦
                  let same =
                    some-injective
                      (ok-injective (rw (e, e', e'', f, api_principal, checked_key) at h)) in
                  (authorization, key, e, e'', e', f, sym (ap (λ (q : Principal). q.id) same))
            ]
      ]
    ]
  ]

  authenticate_guest-IsTrusted :
      (development_secret uuid secret : Text) (now : ℕ) (r : Request) (config : AuthConfig)
      (create_guest : Bool) (cookie : Option Text) (p : Principal)
      → session_secret crypto development_secret config ≡ ok secret
      → read_cookie crypto r cookie_name ≡ ok cookie
      → authenticate_guest crypto development_secret r config create_guest uuid now secret cookie
        ≡ ok p
      → IsTrusted development_secret r config create_guest uuid now p
  unfolding authenticate_guest IsTrusted decode_session
  authenticate_guest-IsTrusted development_secret uuid secret now r config create_guest cookie p
        signs sent h =
      elim (Option-cases (decode_session crypto cookie secret now)) [
        | inl e ↦ elim (Bool-cases create_guest) [
          | inr e' ↦ let bad = rw (e, e', authenticate_guest) at h in absurd cc
          | inl e' ↦
              let (key, _, is) =
                >>=-eq-ok _ (ip_quota_key crypto development_secret r config)
                  (rw (e, e', authenticate_guest) at h) in
              inr (secret, signs, inr (e', sym (ap (λ (q : Principal). q.id) (ok-injective is))))
        ]
        | inr (session, e) ↦
            let (key, _, is) =
              >>=-eq-ok _ (ip_quota_key crypto development_secret r config)
                (rw (e, authenticate_guest) at h) in
            let same = ok-injective is in
            elim (Option-cases cookie) [
              | inl none_sent ↦ let bad = rw (none_sent, decode_session) at e in absurd cc
              | inr (value, is_sent) ↦ inr (
                secret,
                signs,
                inl (
                  value,
                  session,
                  rw is_sent at sent,
                  decode_session-IsSigned value secret now session (rw is_sent at e),
                  sym (ap (λ (q : Principal). q.id) same),
                  sym (ap (λ (q : Principal). q.set_cookie) same),
                ),
              )
            ]
      ]

  -- A request is accepted only from a holder of the API key, from a guest whose cookie carries a
  -- session that the secret of the configuration signs and that has not expired (the principal is
  -- then the one of the session, and no cookie is set), or, where guests may be created, from a
  -- guest with the new identifier.
  pub authenticate_request-IsTrusted :
      (development_secret uuid : Text) (now : ℕ) (r : Request) (config : AuthConfig)
      (create_guest : Bool) (p : Principal)
      → authenticate_request crypto development_secret r config create_guest uuid now ≡ ok p
      → IsTrusted development_secret r config create_guest uuid now p
  unfolding authenticate_request IsTrusted
  authenticate_request-IsTrusted development_secret uuid now r config create_guest p h =
      let (api, is, h') = >>=-eq-ok _ (api_principal crypto r config) h in
      elim (Option-cases api) [
        | inr (q, e) ↦
            let same = ok-injective (rw e at h') in
            inl (api_principal-HoldsKey r config p (is ∙ (rw (e, same) refl)))
        | inl e ↦
            let (secret, signs, h'') =
              >>=-eq-ok _ (session_secret crypto development_secret config) (rw e at h') in
            let (cookie, sent, h''') = >>=-eq-ok _ (read_cookie crypto r cookie_name) h'' in
            authenticate_guest-IsTrusted development_secret uuid secret now r config create_guest
              cookie p signs sent h'''
      ]
