-- ===== src/Uploads/Claims.antt =====
-- One grant takes one upload, of the bytes that were signed for.
use monidhackson.Base.{
  ℕ, ◌≡◌, refl, sym, ap, subst, inl, inr, String, Bool, true, false, not, ◌||◌, none, some, length,
  lookup, insert, lookup-insert_self, Bool-cases, Option-cases, text_eq, eq_iff, leb, ◌==◌,
  if◌then◌else◌, arith,
}
use monidhackson.Errors.{AppError, Result, ok, err, >>=-eq-ok, Result-cases}
use monidhackson.Runs.Types.{Instant}
use monidhackson.Uploads.{Bytes, uploaded, LocalGrant, LocalUploadStorage, is_issued, read}
use monidhackson.Uploads.Bodies.{
  PutRequest, grant_by_token, chunks_of, read_bounded_stream, checked_body, refused_head, stored,
  accept_put, is_wrong_type, grant_not_usable,
}
use monidhackson.Uploads.Seals.{IsFiled}

passed :
    (b bytes : Bytes) (n size : ℕ) (d sha : String) (is_wrong : Bool) (e e' : AppError)
    → ◌≡◌ {A = Result Bytes}
        (if not (n == size) || not (text_eq d sha)
          then err e
          else if is_wrong
          then err e'
          else ok b)
        (ok bytes)
    → (b ≡ bytes) × (n ≡ size) × (d ≡ sha)
passed b bytes n size d sha is_wrong e e' h = ground (arith, eq_iff d sha)

checked_body-signed :
    (digest : Bytes → String) (g : LocalGrant) (request : PutRequest) (bytes : Bytes)
    → checked_body digest g request ≡ ok bytes
    → (length bytes ≡ g.expected_size) × (digest bytes ≡ g.expected_sha256)
unfolding checked_body
checked_body-signed digest g request bytes h =
    let (b, e, made) = >>=-eq-ok _ (read_bounded_stream (chunks_of request) g.expected_size) h in
    let (b_is, size, signed) =
      passed b bytes (length b) g.expected_size (digest b) g.expected_sha256
        (is_wrong_type request.content_type) _ _ made in
    (
      subst (λ x. length x ≡ g.expected_size) b_is size,
      subst (λ x. digest x ≡ g.expected_sha256) b_is signed,
    )

-- What an accepted upload leaves: the signed bytes under the path of a grant that was issued and
-- had not run out, and a token that is spent.
abbrev pub Accepted :
    (Bytes → String) → String → Instant → LocalUploadStorage → LocalUploadStorage → Type 0
Accepted digest token now s t =
    (g : LocalGrant) × (bytes : Bytes) × (grant_by_token token s ≡ some g)
    × (is_issued g.status ≡ true)
    × (leb g.expires_at now ≡ false)
    × (length bytes ≡ g.expected_size)
    × (digest bytes ≡ g.expected_sha256)
    × (read g.blob_path t ≡ ok bytes)
    × ((request : PutRequest) (later : Instant)
        → accept_put digest (λ x. x) token request later t ≡ (t, err grant_not_usable))

grant_by_token-stored :
    (token : String) (g : LocalGrant) (bytes : Bytes) (s : LocalUploadStorage)
    → IsFiled s
    → grant_by_token token s ≡ some g
    → grant_by_token token (stored g bytes s) ≡ some (record g { status = uploaded })
grant_by_token-stored token g bytes s filed known = elim (Option-cases (lookup token s.tokens)) [
  | inl unknown ↦ cc (rw (unknown, grant_by_token) at known)
  | inr (p, leads) ↦
      let at = rw (leads, grant_by_token) at known in
      let same = filed p g at in
      let at' : lookup g.blob_path s.grants ≡ some g =
        subst (λ q. lookup q s.grants ≡ some g) (sym same) at in
      rw (leads, grant_by_token)
        (rw (at', stored)
          (subst
            (λ q.
              lookup q (insert g.blob_path (record g { status = uploaded }) s.grants)
              ≡ some (record g { status = uploaded }))
            same (lookup-insert_self g.blob_path (record g { status = uploaded }) s.grants)))
]

spent :
    (digest : Bytes → String) (token : String) (g : LocalGrant) (t : LocalUploadStorage)
    (request : PutRequest) (later : Instant)
    → grant_by_token token t ≡ some g
    → is_issued g.status ≡ false
    → accept_put digest (λ x. x) token request later t ≡ (t, err grant_not_usable)
unfolding accept_put
spent digest token g t request later known used =
    let over : (leb g.expires_at later || not (is_issued g.status)) ≡ true =
      rw used (ground arith) in
    rw (known, accept_put) (rw over refl)

-- The rest of an upload that is accepted.
completed :
    (digest : Bytes → String) (g : LocalGrant) (request : PutRequest) (s t : LocalUploadStorage)
    → ◌≡◌ {A = LocalUploadStorage × Result (Unit {0})}
        (elim (refused_head g request) [
          | some e ↦ (s, err e)
          | none ↦ elim (checked_body digest g request) [
            | err e ↦ (s, err e)
            | ok bytes ↦ (stored g bytes s, ok tt)
          ]
        ])
        (t, ok tt)
    → (bytes : Bytes) × (checked_body digest g request ≡ ok bytes) × (stored g bytes s ≡ t)
completed digest g request s t h = elim (Option-cases (refused_head g request)) [
  | inr (e, refused) ↦ cc (rw refused at h)
  | inl good ↦ elim (Result-cases (checked_body digest g request)) [
    | inr (e, refused) ↦ cc (rw refused at (rw good at h))
    | inl (bytes, checked) ↦ (bytes, checked, ap (λ x. x.0) (rw checked at (rw good at h)))
  ]
]

-- A grant takes one upload, of the very bytes it was signed for: an upload that is accepted had an
-- issued grant that had not run out, its bytes have the signed length and digest and are read back
-- from the grant's path, and every later upload under the same token is refused. The upload is
-- taken as one step; every grant stands under its own path.
pub accept_put-Accepted :
    (digest : Bytes → String) (token : String) (request : PutRequest) (now : Instant)
    (s t : LocalUploadStorage)
    → IsFiled s
    → accept_put digest (λ x. x) token request now s ≡ (t, ok tt)
    → Accepted digest token now s t
unfolding accept_put read
accept_put-Accepted digest token request now s t filed h =
    elim (Option-cases (grant_by_token token s)) [
      | inl unknown ↦ cc (rw (unknown, accept_put) at h)
      | inr (g, known) ↦
          let h' = rw (known, accept_put) at h in
          elim (Bool-cases (leb g.expires_at now || not (is_issued g.status))) [
            | inl over ↦ cc (rw over at h')
            | inr usable ↦
                let (bytes, checked, is) = completed digest g request s t (rw usable at h') in
                let (size, signed) = checked_body-signed digest g request bytes checked in
                subst (Accepted digest token now s) is (
                  g,
                  bytes,
                  known,
                  ground arith,
                  ground arith,
                  size,
                  signed,
                  rw (lookup-insert_self, read) refl,
                  λ again later.
                      spent digest token (record g { status = uploaded }) (stored g bytes s) again
                        later (grant_by_token-stored token g bytes s filed known) refl,
                )
          ]
    ]
