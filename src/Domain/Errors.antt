-- ===== src/Domain/Errors.antt =====
-- internal/domain/errors.go, ErrInvalidEvent of event.go, and Go's `error` values.
use Prim.Native.String.{◌++◌ as ◌⊹◌}
use fluxa.Base.{String, Bool, true, false, Option, none, some, ◌≡◌, refl, ◌⊎◌, inl, inr}

pub record ErrInvalidEvent : Type 0 where
  pub field : String
  pub reason : String
  pub code : String

-- The dynamic values of the type `error` that the services make. `plain` is an error of a library
-- or of `fmt.Errorf` with no cause, `wrapped` is `fmt.Errorf("…: %w", err)`.
pub data GoError : Type 0 where
  plain : String → GoError
  not_found : GoError
  wrapped : String → GoError → GoError
  invalid_event : ErrInvalidEvent → GoError
  non_retryable : String → GoError
  non_retryable_of : String → GoError → GoError
  retryable : String → GoError
  retryable_of : String → GoError → GoError

-- A result with an `error`; a nil error is `none` or `ok`.
pub data Result {ℓ} (A : Type ℓ) : Type ℓ where
  ok : A → Result A
  err : GoError → Result A

abbrev pub new_non_retryable_error : String → Option GoError → GoError
new_non_retryable_error reason none = non_retryable reason
new_non_retryable_error reason (some e) = non_retryable_of reason e

abbrev pub new_retryable_error : String → Option GoError → GoError
new_retryable_error reason none = retryable reason
new_retryable_error reason (some e) = retryable_of reason e

-- `_, ok := err.(*NonRetryableError)`: the outermost value only, as a type assertion has it.
abbrev pub is_non_retryable : GoError → Bool
is_non_retryable (non_retryable _) = true
is_non_retryable (non_retryable_of _ _) = true
is_non_retryable _ = false

abbrev invalid_event_text : ErrInvalidEvent → String
invalid_event_text e = "invalid event: [" ⊹ (e.code ⊹ ("] " ⊹ (e.field ⊹ (" " ⊹ e.reason))))

-- The `Error` methods.
unfoldable pub error_text : GoError → String
error_text (plain s) = s
error_text not_found = "event not found"
error_text (wrapped s e) = s ⊹ (": " ⊹ error_text e)
error_text (invalid_event e) = invalid_event_text e
error_text (non_retryable r) = "non-retryable: " ⊹ r
error_text (non_retryable_of r e) = "non-retryable: " ⊹ (r ⊹ (": " ⊹ error_text e))
error_text (retryable r) = "retryable: " ⊹ r
error_text (retryable_of r e) = "retryable: " ⊹ (r ⊹ (": " ⊹ error_text e))

-- The `Unwrap` methods.
unfoldable pub unwrap : GoError → Option GoError
unwrap (wrapped _ e) = some e
unwrap (non_retryable_of _ e) = some e
unwrap (retryable_of _ e) = some e
unwrap _ = none

pub Result-cases {ℓ} :
    {A : Type ℓ} (r : Result A) → ((a : A) × (r ≡ ok a)) ⊎ ((e : GoError) × (r ≡ err e))
Result-cases (ok a) = inl (a, refl)
Result-cases (err e) = inr (e, refl)
