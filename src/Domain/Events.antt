-- ===== src/Domain/Events.antt =====
-- internal/domain/event.go: the transaction event and its validation.
use fluxa.Base.{ℕ, ◌+◌, ◌*◌, String, ◌==◌, Option, none, some, length, ltb, if◌then◌else◌}
use fluxa.Domain.Values.{Time, minute, is_zero_time, Float64, zero_float, fle, Metadata}
use fluxa.Domain.Errors.{ErrInvalidEvent}

-- `none` for a nil map.
pub record Event : Type 0 where
  pub event_id : String
  pub user_id : String
  pub amount : Float64
  pub currency : String
  pub merchant : String
  pub timestamp : Time
  pub metadata : Option Metadata

abbrev pub err_code_missing_field : String
err_code_missing_field = "MISSING_FIELD"

abbrev pub err_code_invalid_value : String
err_code_invalid_value = "INVALID_VALUE"

-- `len(e.Metadata)`.
abbrev pub metadata_len : Option Metadata → ℕ
metadata_len none = 0
metadata_len (some m) = length m

abbrev invalid : String → String → String → Option ErrInvalidEvent
invalid field reason code = some (record { field = field; reason = reason; code = code })

-- `Validate` at the clock reading `now`; `none` is a nil error.
unfoldable pub validate : Time → Event → Option ErrInvalidEvent
validate now e =
    if e.user_id == ""
    then invalid "user_id" "cannot be empty" err_code_missing_field
    else if fle e.amount zero_float
    then invalid "amount" "must be greater than 0" err_code_invalid_value
    else if e.currency == ""
    then invalid "currency" "cannot be empty" err_code_missing_field
    else if e.merchant == ""
    then invalid "merchant" "cannot be empty" err_code_missing_field
    else if is_zero_time e.timestamp
    then invalid "timestamp" "must be set" err_code_missing_field
    else if ltb (now + 5 * minute) e.timestamp
    then invalid "timestamp" "cannot be in the future" err_code_invalid_value
    else if ltb 10 (metadata_len e.metadata)
    then invalid "metadata" "too many keys (max 10)" err_code_invalid_value
    else none
