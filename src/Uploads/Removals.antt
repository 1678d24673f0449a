-- ===== src/Uploads/Removals.antt =====
-- What claims, stagings, purges and sweeps do to a path that was purged behind a fence.
use monidhackson.Base.{
  ℕ, ◌≡◌, ◌≢◌, refl, subst, ◌∙◌, inl, inr, String, true, not, ◌||◌, List, [], ◌∷◌, Option, some,
  length, lookup, insert, lookup-insert_other, lookup-delete-none, delete-found, Bool-cases,
  Option-cases, values, text_eq, leb, arith,
}
use monidhackson.Errors.{ok, ok-injective}
use monidhackson.Runs.Types.{Instant}
use monidhackson.Uploads.{
  Bytes, fenced, LocalGrant, LocalUploadStorage, UploadClaim, claim_incoming, is_same_claim,
  is_claimable, stage, purge_incoming_to_fence, sweep_grants, sweep_expired_incoming, is_swept,
  swept, with_grant, without_object, is_claimed, is_other_run, is_uploaded,
}
use monidhackson.Uploads.Seals.{Sealed, Kept, insert-IsFiled, Sealed-insert, Sealed-empty}

pub removed-Kept :
    (path p : String) (s : LocalUploadStorage) → Kept path s → Kept path (without_object p s)
unfolding Sealed
removed-Kept path p s (filed, (empty, all_fenced)) =
    (filed, (lookup-delete-none p path s.objects empty, all_fenced))

-- A grant is changed in place.
regrant-Kept :
    (path p : String) (g h : LocalGrant) (s : LocalUploadStorage)
    → lookup p s.grants ≡ some g
    → h.blob_path ≡ g.blob_path
    → (p ≡ path → h.status ≡ fenced)
    → Kept path s
    → Kept path (with_grant h s p)
regrant-Kept path p g h s at same fences (filed, sealed) = (
  insert-IsFiled p h s (with_grant h s p) (same ∙ filed p g at) refl filed,
  Sealed-insert path p h s (with_grant h s p) refl (Sealed-empty path s sealed) fences sealed,
)

uploaded_elsewhere :
    (path p : String) (g : LocalGrant) (input : UploadClaim) (now : Instant)
    (s : LocalUploadStorage)
    → is_claimable g input now ≡ true
    → lookup p s.grants ≡ some g
    → Sealed path s
    → p ≢ path
unfolding Sealed is_claimable
uploaded_elsewhere path p g input now s fresh at (_, all_fenced) same =
    let f = all_fenced g (subst (λ q. lookup q s.grants ≡ some g) same at) in
    let up : is_uploaded g.status ≡ true = ground arith in cc (rw f at up)

pub claim-Kept :
    (path : String) (input : UploadClaim) (now : Instant) (s t : LocalUploadStorage)
    → claim_incoming input now s ≡ ok t
    → Kept path s
    → Kept path t
unfolding claim_incoming
claim-Kept path input now s t h k = elim (Option-cases (lookup input.blob_path s.grants)) [
  | inl unknown ↦ cc (rw (unknown, claim_incoming) at h)
  | inr (g, known) ↦ elim (Bool-cases (is_same_claim g input)) [
    | inl same ↦
        subst (Kept path)
          (ok-injective (rw (same, claim_incoming) at (rw (known, claim_incoming) at h))) k
    | inr fresh ↦ elim (Bool-cases (is_claimable g input now)) [
      | inr refused ↦ cc (
          rw (refused, claim_incoming) at
            (rw (fresh, claim_incoming) at (rw (known, claim_incoming) at h)))
      | inl free ↦
          subst (Kept path)
            (ok-injective (
              rw (free, claim_incoming) at
                (rw (fresh, claim_incoming) at (rw (known, claim_incoming) at h))))
            (regrant-Kept path input.blob_path g _ s known refl
              (λ same.
                absurd (uploaded_elsewhere path input.blob_path g input now s free known k.1 same))
              k)
    ]
  ]
]

staged-Kept :
    (path p : String) (bytes : Bytes) (s : LocalUploadStorage)
    → p ≢ path
    → Kept path s
    → Kept path (record s { objects = insert p bytes s.objects })
unfolding Sealed
staged-Kept path p bytes s other (filed, (empty, all_fenced)) =
    (filed, (lookup-insert_other p path bytes s.objects other ∙ empty, all_fenced))

pub stage-Kept :
    (digest : Bytes → String) (path p : String) (bytes : Bytes) (s t : LocalUploadStorage)
    → p ≢ path
    → stage digest p bytes s ≡ ok t
    → Kept path s
    → Kept path t
unfolding stage
stage-Kept digest path p bytes s t other h k = elim (Option-cases (lookup p s.objects)) [
  | inl absent ↦
      subst (Kept path) (ok-injective (rw (absent, stage) at h))
        (staged-Kept path p bytes s other k)
  | inr (existing, present) ↦ elim (Bool-cases (text_eq (digest existing) (digest bytes))) [
    | inr differs ↦ cc (rw (differs, stage) at (rw (present, stage) at h))
    | inl same ↦
        subst (Kept path) (ok-injective (rw (same, stage) at (rw (present, stage) at h)))
          (staged-Kept path p bytes s other k)
  ]
]

pub purge-Kept :
    (path p : String) (run : Option String) (s t : LocalUploadStorage)
    → purge_incoming_to_fence p run s ≡ ok t
    → Kept path s
    → Kept path t
unfolding purge_incoming_to_fence
purge-Kept path p run s t h k = elim (Option-cases (lookup p s.grants)) [
  | inl unknown ↦
      subst (Kept path) (ok-injective (rw (unknown, purge_incoming_to_fence) at h))
        (removed-Kept path p s k)
  | inr (g, known) ↦
      elim (Bool-cases (not (is_claimed g.status) || is_other_run run g.claimed_run_id)) [
        | inl refused ↦
            cc (rw (refused, purge_incoming_to_fence) at (rw (known, purge_incoming_to_fence) at h))
        | inr owned ↦
            subst (Kept path)
              (ok-injective
                (rw (owned, purge_incoming_to_fence) at (rw (known, purge_incoming_to_fence) at h)))
              (regrant-Kept path p g (record g { status = fenced }) (without_object p s) known refl
                (λ same. refl) (removed-Kept path p s k))
      ]
]

swept-Kept :
    (path : String) (g : LocalGrant) (s : LocalUploadStorage) → Kept path s → Kept path (swept g s)
unfolding Sealed
swept-Kept path g s (filed, (empty, all_fenced)) = (
  (λ p h e. filed p h (delete-found g.blob_path p h s.grants e)),
  (
    lookup-delete-none g.blob_path path s.objects empty,
    λ h e. all_fenced h (delete-found g.blob_path path h s.grants e),
  ),
)

sweep_grants-Kept :
    (path : String) (gs : List LocalGrant) (now : Instant) (limit : ℕ) (gone : List String)
    (s : LocalUploadStorage)
    → Kept path s
    → Kept path (sweep_grants gs now limit gone s).0
unfolding sweep_grants
sweep_grants-Kept path [] now limit gone s k = k
sweep_grants-Kept path (g ∷ gs) now limit gone s k =
    elim (Bool-cases (leb limit (length gone) || not (is_swept g now))) [
      | inl stays ↦ rw (stays, sweep_grants) (sweep_grants-Kept path gs now limit gone s k)
      | inr goes ↦
          rw (goes, sweep_grants)
            (sweep_grants-Kept path gs now limit _ (swept g s) (swept-Kept path g s k))
    ]

pub sweep-Kept :
    (path : String) (now : Instant) (limit : ℕ) (s : LocalUploadStorage)
    → Kept path s
    → Kept path (sweep_expired_incoming now limit s).0
unfolding sweep_expired_incoming Sealed
sweep-Kept path now limit s k = sweep_grants-Kept path (values s.grants) now limit [] _ k
