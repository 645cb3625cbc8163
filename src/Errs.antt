-- ===== src/Errs.antt =====
-- types/errs/error.go: the predefined errors, and the results of fallible calls.
use regclient.Base.{◌≡◌, refl, ◌⊎◌, inl, inr, Bool, true, false}

-- A constructor for each sentinel; a wrapped error is the sentinel that `errors.Is` finds in it.
pub data Error : Type 0 where
  all_requests_failed api_not_found backoff_limit canceled digest_mismatch : Error
  empty_challenge file_deleted file_not_found http_status invalid_challenge : Error
  invalid_reference loop_detected manifest_not_set missing_annotation missing_digest : Error
  missing_location missing_name missing_tag missing_tag_or_digest mismatch : Error
  mount_returned_location no_new_challenge not_found not_implemented not_retryable : Error
  parsing_failed retry_needed retry_limit_exceeded short_read size_limit_exceeded : Error
  unavailable unsupported unsupported_api unsupported_config_version : Error
  unsupported_media_type http_rate_limit http_unauthorized : Error
  -- an error with no sentinel in it
  other : Error

pub data Result {ℓ} (A : Type ℓ) : Type ℓ where
  ok : A → Result A
  err : Error → Result A

infixl 5 ◌>>=◌
abbrev pub ◌>>=◌ {ℓ κ} : {A : Type ℓ} {B : Type κ} → Result A → (A → Result B) → Result B
ok a >>= f = f a
err e >>= f = err e

module _ {ℓ} {A : Type ℓ} where
  abbrev pub is_ok : Result A → Bool
  is_ok (ok a) = true
  is_ok (err e) = false

  pub Result-cases : (r : Result A) → ((a : A) × (r ≡ ok a)) ⊎ ((e : Error) × (r ≡ err e))
  Result-cases (ok a) = inl (a, refl)
  Result-cases (err e) = inr (e, refl)
