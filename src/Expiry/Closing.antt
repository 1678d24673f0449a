-- ===== src/Expiry/Closing.antt =====
-- When the last update of a cleanup closes a run.
use monidhackson.Base.{
  ◌≡◌, refl, if◌then◌else◌, subst, ◌⊎◌, inl, inr, String, true, false, List, none, Bool-cases,
}
use monidhackson.Errors.{ok, >>=-eq-ok, ok-injective}
use monidhackson.Contracts.{RunStatus, cleanup_pending, expired, status_eq}
use monidhackson.Runs.Types.{RunRecord, Instant, Terminal, to_failed, to_expired, CleanupReceipt}
use monidhackson.Runs.Transition.{enter, transition_run}
use monidhackson.Runs.Transition.Laws.{Allowed, transition_run-ok_iff}
use monidhackson.Runs.Transition.Graph.{cleaned_failed, cleaned_expired}
use monidhackson.Expiry.{Storage, terminal_winner, terminal_status, scrub_for_audit}
use monidhackson.Expiry.Runner.{
  pending_record, receipts_after, is_confirmed, unconfirmed_record, cleaned_record, is_to_expired,
  close, finish,
}
use monidhackson.Expiry.Revocation.{pending_record-Pending}
use monidhackson.Expiry.Evidence.{AllGone, is_confirmed-AllGone, AllGone-is_confirmed}

-- The run is closed with its cleanup confirmed, or goes on waiting for it; its result is gone.
abbrev pub Closed : Terminal → RunRecord → Type 0
Closed winner u =
    (u.status ≡ terminal_status winner) × (u.is_cleanup_confirmed ≡ true) × (u.result ≡ none)

abbrev pub Waiting : RunRecord → Type 0
Waiting u = (u.status ≡ cleanup_pending) × (u.is_cleanup_confirmed ≡ false) × (u.result ≡ none)

pub entered_status :
    (r : RunRecord) (next : RunStatus) (now : Instant) (u : RunRecord)
    → transition_run r next now ≡ ok u
    → u.status ≡ next
unfolding enter
entered_status r next now u h = elim ((transition_run-ok_iff r next now u).0 h) [
  | inl (same, kept) ↦ rw kept same
  | inr (_, entered) ↦ rw entered refl
]

cleaned_Closed :
    (sha256_hex : String → String) (winner : Terminal) (now : Instant) (known : List CleanupReceipt)
    (c : RunRecord)
    → c.status ≡ terminal_status winner
    → Closed winner (
        if is_to_expired winner
        then scrub_for_audit sha256_hex (cleaned_record now known c) now
        else cleaned_record now known c)
unfolding cleaned_record scrub_for_audit
cleaned_Closed sha256_hex to_failed now known c h = (h, refl, refl)
cleaned_Closed sha256_hex to_expired now known c h = (h, refl, refl)

Closed-status :
    (sha256_hex : String → String) (winner : Terminal) (now : Instant) (known : List CleanupReceipt)
    (r u : RunRecord)
    → close sha256_hex winner now known true r ≡ ok u
    → Closed winner u
unfolding close
Closed-status sha256_hex winner now known r u h =
    let (c, e, made) = >>=-eq-ok _ (transition_run r (terminal_status winner) now) h in
    subst (Closed winner) (ok-injective made) (
      cleaned_Closed sha256_hex winner now known c
        (entered_status r (terminal_status winner) now c e))

Waiting-status :
    (sha256_hex : String → String) (winner : Terminal) (now : Instant) (known : List CleanupReceipt)
    (r u : RunRecord)
    → close sha256_hex winner now known false r ≡ ok u
    → Waiting u
unfolding close unconfirmed_record
Waiting-status sha256_hex winner now known r u h =
    let (p, e, made) = >>=-eq-ok _ (pending_record r now) h in
    subst Waiting (ok-injective made) ((pending_record-Pending r now p e).0, refl, refl)

pub finish_sound :
    (storage : Storage) (sha256_hex : String → String) (terminal : Terminal) (now : Instant)
    (fresh : List CleanupReceipt) (r u : RunRecord)
    → status_eq r.status expired ≡ false
    → finish storage sha256_hex terminal now fresh r ≡ ok u
    → (AllGone now r fresh (receipts_after storage now r fresh)
        × Closed (terminal_winner r.terminal_after_cleanup terminal) u)
      ⊎ Waiting u
unfolding finish
finish_sound storage sha256_hex terminal now fresh r u live h =
    let known = receipts_after storage now r fresh in
    let winner = terminal_winner r.terminal_after_cleanup terminal in
    let h' = rw (live, finish) at h in
    elim (Bool-cases (is_confirmed now r fresh known)) [
      | inl e ↦ inl (
        is_confirmed-AllGone now r fresh known e,
        Closed-status sha256_hex winner now known r u (rw e at h'),
      )
      | inr e ↦ inr (Waiting-status sha256_hex winner now known r u (rw e at h'))
    ]

leave :
    (winner : Terminal) (r : RunRecord)
    → r.status ≡ cleanup_pending
    → Allowed r (terminal_status winner)
leave to_failed r h = (rw h cleaned_failed, λ c. cc)
leave to_expired r h = (rw h cleaned_expired, λ c. cc)

close_pending :
    (sha256_hex : String → String) (winner : Terminal) (now : Instant) (known : List CleanupReceipt)
    (r : RunRecord)
    → r.status ≡ cleanup_pending
    → (u : RunRecord) × (close sha256_hex winner now known true r ≡ ok u)
unfolding close
close_pending sha256_hex winner now known r h =
    let c = enter r (terminal_status winner) now in
    let allowed : transition_run r (terminal_status winner) now ≡ ok c =
      (transition_run-ok_iff r (terminal_status winner) now c).1 (inr (leave winner r h, refl)) in
    (
      (if is_to_expired winner
          then scrub_for_audit sha256_hex (cleaned_record now known c) now
          else cleaned_record now known c),
      rw (allowed, close) refl,
    )

pub finish_complete :
    (storage : Storage) (sha256_hex : String → String) (terminal : Terminal) (now : Instant)
    (fresh : List CleanupReceipt) (r : RunRecord)
    → r.status ≡ cleanup_pending
    → AllGone now r fresh (receipts_after storage now r fresh)
    → (u : RunRecord) × (finish storage sha256_hex terminal now fresh r ≡ ok u)
      × Closed (terminal_winner r.terminal_after_cleanup terminal) u
unfolding finish
finish_complete storage sha256_hex terminal now fresh r waits gone =
    let known = receipts_after storage now r fresh in
    let winner = terminal_winner r.terminal_after_cleanup terminal in
    let live : status_eq r.status expired ≡ false = rw waits (unfold status_eq in refl) in
    let (u, e) = close_pending sha256_hex winner now known r waits in
    (
      u,
      rw (live, finish) (rw (AllGone-is_confirmed now r fresh known gone) e),
      Closed-status sha256_hex winner now known r u e,
    )
