-- ===== src/Uploads/Fences.antt =====
-- What was purged behind a fence stays away, whatever the storage does afterwards.
use monidhackson.Base.{
  ℕ, ◌≡◌, ◌≢◌, refl, subst, inl, inr, String, not, ◌||◌, List, Option, some, lookup,
  lookup-insert_self, lookup-delete_self, Bool-cases, Option-cases,
}
use monidhackson.Errors.{Result, ok, err, ok-injective}
use monidhackson.Runs.Types.{Instant}
use monidhackson.Uploads.{
  Bytes, fenced, LocalGrant, LocalUploadStorage, UploadLimits, PresignUploadRequest, PresignContext,
  UploadClaim, presign, claim_incoming, read, stage, purge_incoming_to_fence, remove_object,
  sweep_expired_incoming, with_grant, without_object, upload_not_found, is_claimed, is_other_run,
}
use monidhackson.Uploads.Bodies.{PutRequest, accept_put}
use monidhackson.Uploads.Seals.{
  IsFiled, Sealed, Kept, insert-IsFiled, presign-Kept, accept_put-Kept, Sealed-empty,
}
use monidhackson.Uploads.Removals.{claim-Kept, stage-Kept, purge-Kept, removed-Kept, sweep-Kept}

-- What the storage does, uploads one after another. A new grant has a path of its own, which
-- contains a random id; only staging paths are staged to.
pub data Work (digest : Bytes → String) (path : String) (s : LocalUploadStorage)
    : LocalUploadStorage → Type 0 where
  nothing : Work digest path s s
  presigned :
      {t u : LocalUploadStorage} (c : UploadLimits) (normalize : String → Result String)
      (namespace token uuid : String) (input : PresignUploadRequest) (context : PresignContext)
      (now : Instant) (g : LocalGrant)
      → Work digest path s t
      → presign c normalize namespace token uuid input context now t ≡ ok (u, g)
      → g.blob_path ≢ path
      → Work digest path s u
  put :
      {t : LocalUploadStorage} (token : String) (request : PutRequest) (now : Instant)
      → Work digest path s t
      → Work digest path s (accept_put digest (λ x. x) token request now t).0
  claims :
      {t u : LocalUploadStorage} (input : UploadClaim) (now : Instant)
      → Work digest path s t
      → claim_incoming input now t ≡ ok u
      → Work digest path s u
  stages :
      {t u : LocalUploadStorage} (p : String) (bytes : Bytes)
      → Work digest path s t
      → p ≢ path
      → stage digest p bytes t ≡ ok u
      → Work digest path s u
  purges :
      {t u : LocalUploadStorage} (p : String) (run : Option String)
      → Work digest path s t
      → purge_incoming_to_fence p run t ≡ ok u
      → Work digest path s u
  removes :
      {t : LocalUploadStorage} (p : String)
      → Work digest path s t
      → Work digest path s (remove_object p t)
  sweeps :
      {t : LocalUploadStorage} (now : Instant) (limit : ℕ)
      → Work digest path s t
      → Work digest path s (sweep_expired_incoming now limit t).0

Work-Kept :
    (digest : Bytes → String) (path : String) (s t : LocalUploadStorage)
    → Kept path s
    → Work digest path s t
    → Kept path t
unfolding remove_object
Work-Kept digest path s _ k nothing = k
Work-Kept digest path s u k
      (presigned {t} c normalize namespace token uuid input context now g e h other) =
    presign-Kept path c normalize namespace token uuid input context now g t u h other
      (Work-Kept digest path s t k e)
Work-Kept digest path s _ k (put {t} token request now e) =
    accept_put-Kept digest path token request now t (Work-Kept digest path s t k e)
Work-Kept digest path s u k (claims {t} input now e h) =
    claim-Kept path input now t u h (Work-Kept digest path s t k e)
Work-Kept digest path s u k (stages {t} p bytes e other h) =
    stage-Kept digest path p bytes t u other h (Work-Kept digest path s t k e)
Work-Kept digest path s u k (purges {t} p run e h) =
    purge-Kept path p run t u h (Work-Kept digest path s t k e)
Work-Kept digest path s _ k (removes {t} p e) =
    removed-Kept path p t (Work-Kept digest path s t k e)
Work-Kept digest path s _ k (sweeps {t} now limit e) =
    sweep-Kept path now limit t (Work-Kept digest path s t k e)

some_status :
    (m : List (String × LocalGrant)) (path : String) (g h : LocalGrant)
    → lookup path m ≡ some g
    → lookup path m ≡ some h
    → h.status ≡ g.status
some_status m path g h e e' = let same : g ≡ h = cc in rw same refl

fenced-Kept :
    (path : String) (g : LocalGrant) (s : LocalUploadStorage)
    → lookup path s.grants ≡ some g
    → IsFiled s
    → Kept path (with_grant (record g { status = fenced }) (without_object path s) path)
unfolding Sealed
fenced-Kept path g s known filed =
    let s' = with_grant (record g { status = fenced }) (without_object path s) path in
    (
      insert-IsFiled path (record g { status = fenced }) s s' (filed path g known) refl filed,
      (
        lookup-delete_self path s.objects,
        λ h e.
            let self = lookup-insert_self path (record g { status = fenced }) s.grants in
            some_status s'.grants path (record g { status = fenced }) h self e,
      ),
    )

purge-Sealed :
    (path : String) (run : Option String) (s t : LocalUploadStorage)
    → purge_incoming_to_fence path run s ≡ ok t
    → IsFiled s
    → Kept path t
unfolding purge_incoming_to_fence Sealed
purge-Sealed path run s t h filed = elim (Option-cases (lookup path s.grants)) [
  | inl unknown ↦
      subst (Kept path) (ok-injective (rw (unknown, purge_incoming_to_fence) at h))
        (filed, (lookup-delete_self path s.objects, λ g e. cc (unknown, e)))
  | inr (g, known) ↦
      elim (Bool-cases (not (is_claimed g.status) || is_other_run run g.claimed_run_id)) [
        | inl refused ↦
            cc (rw (refused, purge_incoming_to_fence) at (rw (known, purge_incoming_to_fence) at h))
        | inr owned ↦
            subst (Kept path)
              (ok-injective
                (rw (owned, purge_incoming_to_fence) at (rw (known, purge_incoming_to_fence) at h)))
              (fenced-Kept path g s known filed)
      ]
]

-- Once the source of an upload is purged behind its fence, it stays away: whatever grants, uploads,
-- claims, purges, removals and sweeps follow, the path reads as not found. A replayed upload does
-- not bring it back. A new grant is assumed to have another path, which contains a random id, and
-- nothing else is staged there; an upload is taken here as one step.
pub purged_stays_away :
    (digest : Bytes → String) (path : String) (run : Option String) (s t u : LocalUploadStorage)
    → IsFiled s
    → purge_incoming_to_fence path run s ≡ ok t
    → Work digest path t u
    → read path u ≡ err upload_not_found
unfolding read
purged_stays_away digest path run s t u filed h e =
    let k = Work-Kept digest path t u (purge-Sealed path run s t h filed) e in
    rw (Sealed-empty path u k.1, read) refl
