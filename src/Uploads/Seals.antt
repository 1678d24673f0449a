-- ===== src/Uploads/Seals.antt =====
-- A path whose object was purged behind a fence: what grants, uploads and claims do to it.
use monidhackson.Base.{
  ◌≡◌, ◌≢◌, refl, sym, ap, subst, ◌∙◌, inl, inr, String, true, not, ◌||◌, none, some, lookup,
  insert, lookup-insert_other, insert-cases, Bool-cases, Option-cases, leb, arith,
}
use monidhackson.Errors.{Result, ok, >>=-eq-ok, ok-injective, Result-cases}
use monidhackson.Runs.Types.{Instant}
use monidhackson.Uploads.{
  Bytes, fenced, LocalGrant, LocalUploadStorage, UploadLimits, PresignUploadRequest, PresignContext,
  presign, is_over_quota, is_issued, issued_grant, uploaded,
}
use monidhackson.Uploads.Bodies.{
  PutRequest, grant_by_token, checked_body, refused_head, stored, accept_put,
}

-- Every grant stands under its own path.
abbrev pub IsFiled : LocalUploadStorage → Type 0
IsFiled s = (p : String) (g : LocalGrant) → lookup p s.grants ≡ some g → g.blob_path ≡ p

-- Nothing is stored under the path, and a grant for it is fenced.
unfoldable pub Sealed : String → LocalUploadStorage → Type 0
Sealed path s =
    (lookup path s.objects ≡ none)
    × ((g : LocalGrant) → lookup path s.grants ≡ some g → g.status ≡ fenced)

abbrev pub Kept : String → LocalUploadStorage → Type 0
Kept path s = IsFiled s × Sealed path s

pub insert-IsFiled :
    (p : String) (g : LocalGrant) (s t : LocalUploadStorage)
    → g.blob_path ≡ p
    → t.grants ≡ insert p g s.grants
    → IsFiled s
    → IsFiled t
insert-IsFiled p g s t at written filed q h e =
    elim (insert-cases p q g h s.grants (rw written at e)) [
      | inl (same, is) ↦ ap (λ x. x.blob_path) (sym is) ∙ at ∙ same
      | inr old ↦ filed q h old
    ]

-- A grant is written under another path, or under the path itself while it is fenced there.
pub Sealed-insert :
    (path p : String) (g : LocalGrant) (s t : LocalUploadStorage)
    → t.grants ≡ insert p g s.grants
    → lookup path t.objects ≡ none
    → (p ≡ path → g.status ≡ fenced)
    → Sealed path s
    → Sealed path t
unfolding Sealed
Sealed-insert path p g s t written empty fences (_, all_fenced) = (
  empty,
  λ h e. elim (insert-cases p path g h s.grants (rw written at e)) [
    | inl (at, is) ↦ ap (λ x. x.status) (sym is) ∙ fences at
    | inr old ↦ all_fenced h old
  ],
)

pub Sealed-empty :
    (path : String) (s : LocalUploadStorage) → Sealed path s → lookup path s.objects ≡ none
unfolding Sealed
Sealed-empty path s sealed = sealed.0

pub granted :
    (token : String) (s : LocalUploadStorage) (g : LocalGrant)
    → IsFiled s
    → grant_by_token token s ≡ some g
    → lookup g.blob_path s.grants ≡ some g
granted token s g filed h = elim (Option-cases (lookup token s.tokens)) [
  | inl unknown ↦ cc (rw (unknown, grant_by_token) at h)
  | inr (p, known) ↦
      let found = rw (known, grant_by_token) at h in
      subst (λ q. lookup q s.grants ≡ some g) (sym (filed p g found)) found
]

issued-Kept :
    (path : String) (g : LocalGrant) (context : PresignContext) (now : Instant)
    (s : LocalUploadStorage)
    → g.blob_path ≢ path
    → Kept path s
    → Kept path (issued_grant g context now s)
issued-Kept path g context now s other (filed, sealed) = (
  insert-IsFiled g.blob_path g s (issued_grant g context now s) refl refl filed,
  Sealed-insert path g.blob_path g s (issued_grant g context now s) refl
      (Sealed-empty path s sealed) (λ same. absurd (other same)) sealed,
)

pub presign-Kept :
    (path : String) (c : UploadLimits) (normalize : String → Result String)
    (namespace token uuid : String) (input : PresignUploadRequest) (context : PresignContext)
    (now : Instant) (g : LocalGrant) (s t : LocalUploadStorage)
    → presign c normalize namespace token uuid input context now s ≡ ok (t, g)
    → g.blob_path ≢ path
    → Kept path s
    → Kept path t
unfolding presign
presign-Kept path c normalize namespace token uuid input context now g s t h other k =
    let (name, e, made) = >>=-eq-ok _ (normalize input.filename) h in
    elim (Bool-cases (is_over_quota c input.size_bytes context now s)) [
      | inl over ↦ cc (rw over at made)
      | inr under ↦
          let done = ok-injective (rw under at made) in
          subst (Kept path) (ap (λ x. x.0) done) (
            issued-Kept path _ context now s
              (λ same. other (ap (λ x. x.1.blob_path) (sym done) ∙ same)) k)
    ]

issued_elsewhere :
    (path : String) (g : LocalGrant) (s : LocalUploadStorage)
    → is_issued g.status ≡ true
    → lookup g.blob_path s.grants ≡ some g
    → Sealed path s
    → g.blob_path ≢ path
unfolding Sealed
issued_elsewhere path g s fresh at (_, all_fenced) same =
    let f = all_fenced g (subst (λ p. lookup p s.grants ≡ some g) same at) in cc (rw f at fresh)

put-Kept :
    (path : String) (g : LocalGrant) (bytes : Bytes) (s : LocalUploadStorage)
    → is_issued g.status ≡ true
    → lookup g.blob_path s.grants ≡ some g
    → Kept path s
    → Kept path (stored g bytes s)
put-Kept path g bytes s fresh at (filed, sealed) =
    let other = issued_elsewhere path g s fresh at sealed in
    let written : (stored g bytes s).grants
        ≡ insert g.blob_path (record g { status = uploaded }) s.grants =
      rw (at, stored) refl in
    (
      insert-IsFiled g.blob_path (record g { status = uploaded }) s (stored g bytes s) refl written
          filed,
      Sealed-insert path g.blob_path (record g { status = uploaded }) s (stored g bytes s) written
          (lookup-insert_other g.blob_path path bytes s.objects other ∙ Sealed-empty path s sealed)
          (λ same. absurd (other same)) sealed,
    )

pub accept_put-Kept :
    (digest : Bytes → String) (path token : String) (request : PutRequest) (now : Instant)
    (s : LocalUploadStorage)
    → Kept path s
    → Kept path (accept_put digest (λ x. x) token request now s).0
unfolding accept_put
accept_put-Kept digest path token request now s k = elim (Option-cases (grant_by_token token s)) [
  | inl unknown ↦ rw (unknown, accept_put) k
  | inr (g, known) ↦
      rw (known, accept_put)
        (elim (Bool-cases (leb g.expires_at now || not (is_issued g.status))) [
          | inl spent ↦ rw (spent, accept_put) k
          | inr usable ↦
              rw (usable, accept_put)
                (elim (Option-cases (refused_head g request)) [
                  | inr (e, refused) ↦ rw (refused, accept_put) k
                  | inl good ↦
                      rw (good, accept_put)
                        (elim (Result-cases (checked_body digest g request)) [
                          | inr (e, refused) ↦ rw (refused, accept_put) k
                          | inl (bytes, checked) ↦
                              rw (checked, accept_put)
                                (put-Kept path g bytes s (ground arith)
                                  (granted token s g k.0 known) k)
                        ])
                ])
        ])
]
