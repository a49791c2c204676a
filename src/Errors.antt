-- ===== src/Errors.antt =====
-- pkg/bus/errors.go: the errors of the bus, and the result of an operation that may fail.
use pinakes.Base.{
  ℕ, refl, ◌⊎◌, inl, inr, String, zero, suc, ◌/◌, ◌≡◌, Bool, true, false, leb, if◌then◌else◌,
}

pub data Code : Type 0 where
  validation unauthorized not_found rejected rate_limited unavailable payload_too_large timeout
        internal :
      Code

pub record Error : Type 0 where
  pub code : Code
  pub message : String
  pub transient : Bool
  pub retry_after : ℕ
  pub status : ℕ

unfoldable pub status_for_code : Code → ℕ
status_for_code validation = 400
status_for_code unauthorized = 401
status_for_code not_found = 404
status_for_code rejected = 409
status_for_code rate_limited = 429
status_for_code payload_too_large = 413
status_for_code timeout = 408
status_for_code unavailable = 503
status_for_code internal = 500

-- int(d.Seconds()) of a duration that is not negative: whole seconds.
abbrev pub whole_seconds : ℕ → ℕ
whole_seconds d = d / 1_000_000_000

-- The Retry-After of an error: at least a second for a positive wait.
unfoldable pub retry_after_seconds : ℕ → ℕ
retry_after_seconds zero = 0
retry_after_seconds (suc d) = let s = whole_seconds (suc d) in if leb s 0 then 1 else s

unfoldable pub new_error : Code → String → Bool → ℕ → Error
unfolding status_for_code retry_after_seconds
new_error code message transient retry_after = record {
  code = code;
  message = message;
  transient = transient;
  retry_after = retry_after_seconds retry_after;
  status = status_for_code code;
}

pub data Result {ℓ} (A : Type ℓ) : Type ℓ where
  ok : A → Result A
  err : Error → Result A

-- newError(code, message, false, 0), the error of every operation but a rate limit
abbrev pub fail {ℓ} : {A : Type ℓ} → Code → String → Result A
fail code message = err (new_error code message false 0)

infixl 5 ◌>>=◌ ◌>>◌
abbrev pub ◌>>=◌ {ℓ κ} : {A : Type ℓ} {B : Type κ} → Result A → (A → Result B) → Result B
ok a >>= f = f a
err e >>= f = err e

abbrev pub ◌>>◌ {ℓ κ} : {A : Type ℓ} {B : Type κ} → Result A → Result B → Result B
m >> k = m >>= λ _. k

-- A guard: fails where the test holds.
abbrev pub reject_if : Bool → Code → String → Result (Unit {0})
reject_if true code message = fail code message
reject_if false code message = ok tt

-- A result is a value or an error.
pub Result-cases {ℓ} :
    {A : Type ℓ} (r : Result A) → ((a : A) × (r ≡ ok a)) ⊎ ((e : Error) × (r ≡ err e))
Result-cases (ok a) = inl (a, refl)
Result-cases (err e) = inr (e, refl)
