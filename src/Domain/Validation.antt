-- ===== src/Domain/Validation.antt =====
-- What `Validate` accepts.
use fluxa.Base.{◌+◌, ◌*◌, ◌≤◌, ◌≡◌, ◌≢◌, ◌↔◌, false, none, arith, eq_iff}
use fluxa.Domain.Values.{Time, minute, zero_float, fle}
use fluxa.Domain.Events.{Event, metadata_len, validate}

-- What a valid event is, read from its fields alone.
pub record IsValidEvent (now : Time) (e : Event) : Type 0 where
  pub has_user : e.user_id ≢ ""
  pub positive : fle e.amount zero_float ≡ false
  pub has_currency : e.currency ≢ ""
  pub has_merchant : e.merchant ≢ ""
  pub has_time : e.timestamp ≢ 0
  pub not_future : e.timestamp ≤ now + 5 * minute
  pub few_keys : metadata_len e.metadata ≤ 10

pub validate-IsValidEvent : (now : Time) (e : Event) → validate now e ≡ none → IsValidEvent now e
unfolding validate
validate-IsValidEvent now e h =
    ground (arith, eq_iff e.user_id "", eq_iff e.currency "", eq_iff e.merchant "")

pub IsValidEvent-validate : (now : Time) (e : Event) → IsValidEvent now e → validate now e ≡ none
unfolding validate
IsValidEvent-validate now e h =
    ground (arith, eq_iff e.user_id "", eq_iff e.currency "", eq_iff e.merchant "")

-- `Validate` returns nil exactly for the events that name a user, a currency and a merchant, have
-- an amount that is not at most 0 (a NaN is let through), a time that is set and at most five
-- minutes ahead of the clock, and at most ten metadata keys.
pub validate_iff : (now : Time) (e : Event) → (validate now e ≡ none) ↔ IsValidEvent now e
validate_iff now e = (validate-IsValidEvent now e, IsValidEvent-validate now e)
