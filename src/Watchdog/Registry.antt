-- ===== src/Watchdog/Registry.antt =====
-- The watchdogs of a run, as arming leaves them.
use monidhackson.Base.{
  ℕ, ◌≡◌, refl, sym, ap, subst, ◌∙◌, ◌⊎◌, inl, inr, String, Bool, true, false, ◌||◌, List, [], ◌∷◌,
  ◌++◌, none, some, is_some, map, any, find, eq_iff, eq_refl, Bool-cases, Option-cases, arith,
}
use monidhackson.Errors.{ok, ok-injective}
use monidhackson.Runs.Types.{RunRecord, Instant, SourceCleanupWatchdog}
use monidhackson.Watchdog.{is_for, is_registered_as, mutate_at, new_watchdog, arm}

-- Each document has one watchdog at most, and each registration id stands for one.
abbrev pub OneEach : List SourceCleanupWatchdog → Type 0
OneEach [] = Unit {0}
OneEach (w ∷ ws) =
    (any (is_for w.document_index) ws ≡ false)
    × (any (is_registered_as w.registration_id) ws ≡ false)
    × OneEach ws

any-append :
    (p : SourceCleanupWatchdog → Bool) (ws : List SourceCleanupWatchdog) (w : SourceCleanupWatchdog)
    → any p (ws ++ w ∷ []) ≡ (any p ws || p w)
any-append p [] w = ground arith
any-append p (x ∷ xs) w = ground (arith, any-append p xs w)

none-any :
    (p : SourceCleanupWatchdog → Bool) (ws : List SourceCleanupWatchdog)
    → find p ws ≡ none
    → any p ws ≡ false
none-any p [] h = refl
none-any p (x ∷ xs) h = ground (arith, none-any p xs)

append-OneEach :
    (ws : List SourceCleanupWatchdog) (w : SourceCleanupWatchdog)
    → any (is_for w.document_index) ws ≡ false
    → any (is_registered_as w.registration_id) ws ≡ false
    → OneEach ws
    → OneEach (ws ++ w ∷ [])
append-OneEach [] w a b h = (refl, refl, tt)
append-OneEach (x ∷ xs) w a b (c, d, h) = (
  ground (arith, any-append (is_for x.document_index) xs w),
  ground (
    arith,
    any-append (is_registered_as x.registration_id) xs w,
    eq_iff x.registration_id w.registration_id,
    eq_iff w.registration_id x.registration_id,
  ),
  append-OneEach xs w (ground arith) (ground arith) h,
)

-- `w` is to stand where `old` is registered.
module _ (old w : SourceCleanupWatchdog) where
  replace : List SourceCleanupWatchdog → List SourceCleanupWatchdog
  replace ws = map (mutate_at old.registration_id (λ _. w)) ws

  replace-absent :
      (ws : List SourceCleanupWatchdog)
      → any (is_registered_as old.registration_id) ws ≡ false
      → replace ws ≡ ws
  unfolding replace
  replace-absent [] h = refl
  replace-absent (x ∷ xs) h = elim (Bool-cases (is_registered_as old.registration_id x)) [
    | inl e ↦ cc (rw e at h)
    | inr e ↦ rw e (ap (λ ys. x ∷ ys) (replace-absent xs (rw e at h)))
  ]

  find-any :
      (p q : SourceCleanupWatchdog → Bool) (ws : List SourceCleanupWatchdog)
      → find p ws ≡ some old
      → q old ≡ true
      → any q ws ≡ true
  find-any p q [] h e = cc
  find-any p q (x ∷ xs) h e = elim (Bool-cases (p x)) [
    | inl f ↦
        let same : some x ≡ some old = rw f at h in
        subst (λ y. (q y || any q xs) ≡ true) (sym (some-injective same)) (rw e refl)
    | inr f ↦ ground (arith, find-any p q xs (rw f at h) e)
  ]
    where
      some-injective : {a b : SourceCleanupWatchdog} → some a ≡ some b → a ≡ b
      some-injective s = cc

  -- Where the watchdog of a document stands: here, or behind.
  Place : ℕ → SourceCleanupWatchdog → List SourceCleanupWatchdog → Type 0
  Place index x xs =
      ((x ≡ old) × (replace (x ∷ xs) ≡ w ∷ xs))
      ⊎ ((replace (x ∷ xs) ≡ x ∷ replace xs) × (find (is_for index) xs ≡ some old))

  replace-Place :
      (index : ℕ) (x : SourceCleanupWatchdog) (xs : List SourceCleanupWatchdog)
      → any (is_registered_as x.registration_id) xs ≡ false
      → find (is_for index) (x ∷ xs) ≡ some old
      → Place index x xs
  unfolding Place replace
  replace-Place index x xs alone h = elim (Bool-cases (is_for index x)) [
    | inl e ↦
        let same : x ≡ old = some-injective (rw e at h) in
        let own : is_registered_as old.registration_id x ≡ true =
          subst (λ (y : SourceCleanupWatchdog). is_registered_as old.registration_id y ≡ true)
            (sym same) (eq_refl old.registration_id) in
        let absent : any (is_registered_as old.registration_id) xs ≡ false =
          subst (λ (y : SourceCleanupWatchdog). any (is_registered_as y.registration_id) xs ≡ false)
            same alone in
        inl (same, rw own (ap (λ ys. w ∷ ys) (replace-absent xs absent)))
    | inr e ↦ elim (Bool-cases (is_registered_as old.registration_id x)) [
      | inr other ↦ inr (rw other refl, rw e at h)
      | inl clash ↦
          let found = find-any (is_for index) (is_registered_as x.registration_id) xs (rw e at h) (
            ground (
              arith,
              eq_iff x.registration_id old.registration_id,
              eq_iff old.registration_id x.registration_id,
            )) in
          cc
    ]
  ]
    where
      some-injective : {a b : SourceCleanupWatchdog} → some a ≡ some b → a ≡ b
      some-injective s = cc

  any-replace :
      (p : SourceCleanupWatchdog → Bool) (index : ℕ) (ws : List SourceCleanupWatchdog)
      → p w ≡ p old
      → OneEach ws
      → find (is_for index) ws ≡ some old
      → any p (replace ws) ≡ any p ws
  unfolding Place
  any-replace p index [] e one h = cc
  any-replace p index (x ∷ xs) e (a, b, one) h = elim (replace-Place index x xs b h) [
    | inl (same, q) ↦ rw q (ap (λ v. v || any p xs) (e ∙ ap p (sym same)))
    | inr (q, behind) ↦ rw q (ap (λ v. p x || v) (any-replace p index xs e one behind))
  ]

  -- Arming again keeps the document and the registration of the watchdog.
  replace-OneEach :
      (index : ℕ) (ws : List SourceCleanupWatchdog)
      → w.document_index ≡ old.document_index
      → w.registration_id ≡ old.registration_id
      → OneEach ws
      → find (is_for index) ws ≡ some old
      → OneEach (replace ws)
  unfolding Place
  replace-OneEach index [] i j one h = cc
  replace-OneEach index (x ∷ xs) i j (a, b, one) h = elim (replace-Place index x xs b h) [
    | inl (same, q) ↦ rw q (
      subst (λ k. any (is_for k) xs ≡ false)
          (ap (λ (v : SourceCleanupWatchdog). v.document_index) same ∙ sym i) a,
      subst (λ k. any (is_registered_as k) xs ≡ false)
          (ap (λ (v : SourceCleanupWatchdog). v.registration_id) same ∙ sym j) b,
      one,
    )
    | inr (q, behind) ↦ rw q (
      any-replace (is_for x.document_index) index xs (rw i refl) one behind ∙ a,
      any-replace (is_registered_as x.registration_id) index xs (rw j refl) one behind ∙ b,
      replace-OneEach index xs i j one behind,
    )
  ]

-- Arming a document, for the first time or again, keeps one watchdog for each document and each
-- registration, given that the random id of a new registration is not in use.
pub arm-OneEach :
    (uuid : String) (index : ℕ) (document_id : String) (ids : List String) (now : Instant)
    (r u : RunRecord) (w : SourceCleanupWatchdog)
    → any (is_registered_as uuid) r.source_cleanup_watchdogs ≡ false
    → OneEach r.source_cleanup_watchdogs
    → arm uuid index document_id ids now r ≡ ok (u, w)
    → OneEach u.source_cleanup_watchdogs
unfolding arm new_watchdog replace
arm-OneEach uuid index document_id ids now r u w new one h =
    elim (Option-cases (find (is_for index) r.source_cleanup_watchdogs)) [
      | inl e ↦
          subst (λ (c : RunRecord × SourceCleanupWatchdog). OneEach c.0.source_cleanup_watchdogs)
            (ok-injective (rw (e, arm) at h))
            (append-OneEach r.source_cleanup_watchdogs (new_watchdog uuid index document_id ids now)
              (none-any (is_for index) r.source_cleanup_watchdogs e) new one)
      | inr (old, e) ↦ elim (Bool-cases (is_some old.provider_call_started_at)) [
        | inl started ↦ cc (rw (e, started, arm) at h)
        | inr idle ↦
            let w' = record old { document_id = document_id; resource_ids = ids } in
            subst (λ (c : RunRecord × SourceCleanupWatchdog). OneEach c.0.source_cleanup_watchdogs)
              (ok-injective (rw (e, idle, arm) at h))
              (replace-OneEach old w' index r.source_cleanup_watchdogs refl refl one e)
      ]
    ]
