-- ===== src/Errors.antt =====
-- src/lib/errors.ts: the application's error, and the result of code that may throw it.
-- The random request id and the cause are left out: no code of the model reads them back.
use monidhackson.Base.{ℕ, String, Bool, ◌≡◌, refl, ◌⊎◌, inl, inr}

pub data ErrorCode : Type 0 where
  file_too_large unsupported_media encrypted_pdf unsafe_url : ErrorCode
  source_unreachable monid_parse_failed empty_parse model_unavailable : ErrorCode
  analysis_incomplete source_cleanup_pending budget_exceeded rate_limited : ErrorCode

pub record AppError : Type 0 where
  pub code : ErrorCode
  pub message : String
  pub http_status : ℕ
  pub retryable : Bool

pub data Result {ℓ} (A : Type ℓ) : Type ℓ where
  ok : A → Result A
  err : AppError → Result A

infixl 5 ◌>>=◌
abbrev pub ◌>>=◌ {ℓ κ} : {A : Type ℓ} {B : Type κ} → Result A → (A → Result B) → Result B
err e >>= next = err e
ok a >>= next = next a

module _ {ℓ κ} {A : Type ℓ} {B : Type κ} (next : A → Result B) where
  -- Inversion of a successful chain.
  pub >>=-eq-ok :
      (m : Result A) {b : B} → (m >>= next) ≡ ok b → (a : A) × (m ≡ ok a) × (next a ≡ ok b)
  >>=-eq-ok (err e) h = cc
  >>=-eq-ok (ok a) h = (a, refl, h)

pub ok-injective {ℓ} : {A : Type ℓ} {a b : A} → ok a ≡ ok b → a ≡ b
ok-injective h = cc

pub Result-cases {ℓ} :
    {A : Type ℓ} (m : Result A) → ((a : A) × (m ≡ ok a)) ⊎ ((e : AppError) × (m ≡ err e))
Result-cases (ok a) = inl (a, refl)
Result-cases (err e) = inr (e, refl)

infixl 5 ◌>>◌
abbrev pub ◌>>◌ {ℓ κ} : {A : Type ℓ} {B : Type κ} → Result A → Result B → Result B
first >> rest = first >>= λ _. rest
