-- ===== src/Sessions/Challenge.antt =====
-- enforceMutationChallenge of src/lib/security/auth.ts. The hostname of the request and the texts of
-- its headers are lower-cased and trimmed by the platform; the answer of the verifier is an argument.
use monidhackson.Base.{
  ◌≡◌, ◌⊎◌, inl, inr, Bool, true, not, ◌||◌, [], ◌∷◌, Option, none, some, if◌then◌else◌, Bool-cases,
  Option-cases,
}
use monidhackson.Errors.{AppError, Result, ok, err, analysis_incomplete, rate_limited}
use monidhackson.PageIndex.{Text}
use monidhackson.Citations.Repair.{same_text, same_text_iff}
use monidhackson.Sources.{refusal}
use monidhackson.Sessions.{Crypto, Principal, non_empty, forwarded_ip}

pub data MutationAction : Type 0 where
  upload_presign create_run ask_question delete_run : MutationAction

pub record ChallengeConfig : Type 0 where
  pub is_production : Bool
  pub turnstile_secret_key : Option Text
  pub turnstile_expected_hostname : Option Text

pub record ChallengeRequest : Type 0 where
  pub hostname : Text
  pub x_turnstile_token : Option Text
  pub x_forwarded_for : Option Text

abbrev pub challenge_not_configured : AppError
challenge_not_configured = record {
  code = analysis_incomplete;
  message = "Guest abuse protection is not configured.";
  http_status = 503;
  retryable = true;
}

abbrev pub hostname_not_allowed : AppError
hostname_not_allowed =
    refusal rate_limited "The request hostname is not allowed for this challenge." 403

abbrev pub token_required : AppError
token_required = refusal rate_limited "A Turnstile token is required." 403

abbrev pub challenge_not_accepted : AppError
challenge_not_accepted = refusal rate_limited "The abuse-protection challenge was not accepted." 403

module _ (crypto : Crypto) (lower : Text → Text) where
  abbrev pub trimmed : Option Text → Option Text
  trimmed none = none
  trimmed (some t) = some (crypto.trim t)

  -- `verify` gets the token, the address of the client, the action and the hostname.
  unfoldable pub challenged :
      (Text → Option Text → MutationAction → Text → Bool)
      → ChallengeRequest
      → MutationAction
      → Text
      → Result (Unit {0})
  challenged verify r action expected =
      if not (same_text (lower r.hostname) (lower expected))
      then err hostname_not_allowed
      else elim (non_empty crypto (trimmed r.x_turnstile_token)) [
        | none ↦ err token_required
        | some token ↦
            if verify token (forwarded_ip crypto r.x_forwarded_for) action (lower expected)
            then ok tt
            else err challenge_not_accepted
      ]

  unfoldable pub enforce_mutation_challenge :
      (Text → Option Text → MutationAction → Text → Bool)
      → ChallengeConfig
      → ChallengeRequest
      → Principal
      → MutationAction
      → Result (Unit {0})
  enforce_mutation_challenge verify config r p action =
      if p.is_api || not config.is_production then ok tt else elim config.turnstile_secret_key [
        | none ↦ err challenge_not_configured
        | some secret ↦ elim config.turnstile_expected_hostname [
          | none ↦ err challenge_not_configured
          | some expected ↦ challenged verify r action expected
        ]
      ]

  non_empty-eq-some : (o : Option Text) (t : Text) → non_empty crypto o ≡ some t → o ≡ some t
  non_empty-eq-some none t h = absurd cc
  non_empty-eq-some (some []) t h = absurd cc
  non_empty-eq-some (some (c ∷ cs)) t h = h

  challenged-IsChecked :
      (verify : Text → Option Text → MutationAction → Text → Bool) (r : ChallengeRequest)
      (action : MutationAction) (expected : Text)
      → challenged verify r action expected ≡ ok tt
      → (token : Text) × (lower r.hostname ≡ lower expected)
        × (trimmed r.x_turnstile_token ≡ some token)
        × (verify token (forwarded_ip crypto r.x_forwarded_for) action (lower expected) ≡ true)
  unfolding challenged
  challenged-IsChecked verify r action expected h =
      let address = forwarded_ip crypto r.x_forwarded_for in
      elim (Bool-cases (same_text (lower r.hostname) (lower expected))) [
        | inr e ↦ let bad = rw (e, challenged) at h in absurd cc
        | inl e ↦ elim (Option-cases (non_empty crypto (trimmed r.x_turnstile_token))) [
          | inl f ↦ let bad = rw (e, f, challenged) at h in absurd cc
          | inr (token, f) ↦ elim (Bool-cases (verify token address action (lower expected))) [
            | inr g ↦ let bad = rw (e, f, g, challenged) at h in absurd cc
            | inl g ↦
                let (same, _) = same_text_iff (lower r.hostname) (lower expected) in
                (token, same e, non_empty-eq-some (trimmed r.x_turnstile_token) token f, g)
          ]
        ]
      ]

  -- The check passes only an API principal, a request outside production, or a request with a token
  -- that the verifier accepts for this very action and for the hostname of the configuration, to
  -- which the request was sent.
  pub enforce_mutation_challenge-IsChecked :
      (verify : Text → Option Text → MutationAction → Text → Bool) (config : ChallengeConfig)
      (r : ChallengeRequest) (p : Principal) (action : MutationAction)
      → enforce_mutation_challenge verify config r p action ≡ ok tt
      → (p.is_api || not config.is_production ≡ true)
        ⊎ ((expected : Text) × (token : Text) × (config.turnstile_expected_hostname ≡ some expected)
            × (lower r.hostname ≡ lower expected)
            × (trimmed r.x_turnstile_token ≡ some token)
            × (verify token (forwarded_ip crypto r.x_forwarded_for) action (lower expected) ≡ true))
  unfolding enforce_mutation_challenge
  enforce_mutation_challenge-IsChecked verify config r p action h =
      elim (Bool-cases (p.is_api || not config.is_production)) [
        | inl e ↦ inl e
        | inr e ↦ elim (Option-cases config.turnstile_secret_key) [
          | inl f ↦ let bad = rw (e, f, enforce_mutation_challenge) at h in absurd cc
          | inr (secret, f) ↦ elim (Option-cases config.turnstile_expected_hostname) [
            | inl g ↦ let bad = rw (e, f, g, enforce_mutation_challenge) at h in absurd cc
            | inr (expected, g) ↦
                let h' = rw (e, f, g, enforce_mutation_challenge) at h in
                let (token, host, sent, accepted) =
                  challenged-IsChecked verify r action expected h' in
                inr (expected, token, g, host, sent, accepted)
          ]
        ]
      ]
