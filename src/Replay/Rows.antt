-- ===== src/Replay/Rows.antt =====
-- What a row of the file becomes.
use Prim.Native.Nat.{◌%◌}
use Prim.Native.String.{len, ◌++◌ as ◌⊹◌}
use text.Mathlib.TextPositions.{len-append}
use fluxa.Base.{
  ℕ, suc, ◌+◌, ◌-◌, ◌*◌, ◌^◌, ◌≤◌, ◌<◌, String, ◌==◌, true, false, none, some, List, [], ◌∷◌, Bool,
  not, ◌&&◌, ap, ◌≡◌, ◌≢◌, ◌↔◌, refl, inl, inr, arith, ℤ, pos, negsuc, eq_iff, Option-cases,
  Bool-cases, if◌then◌else◌, lookup,
}
use fluxa.Domain.{Time, minute, second, Float64, zero_float, fle, validate}
use fluxa.Domain.Validation.{validate_iff}
use fluxa.Replay.Defs.{
  Numbers, word, seconds_of, ieee_epoch, after_epoch, cell, merchants, merchant_lookup, row_time,
  row_amount, row_merchant, map_csv_row,
}

word_pos : (m : ℕ) → 0 < after_epoch (word m)
word_pos m = ground arith

-- No duration leads back to the zero time.
after_epoch_pos : (z : ℤ) → 0 < after_epoch (seconds_of z)
after_epoch_pos (pos n) = word_pos ((n * 1_000_000_000) % 2 ^ 64)
after_epoch_pos (negsuc n) = word_pos (2 ^ 64 - 1 - (suc n * 1_000_000_000 - 1) % 2 ^ 64)

merchant_prefix : (s : String) → ("merchant_" ⊹ s) ≢ ""
merchant_prefix s h = absurd (omega (arith, len-append "merchant_" s, ap len h))

abbrev all_named : List (String × String) → Bool
all_named [] = true
all_named ((_, name) ∷ names) = not (name == "") && all_named names

lookup_named :
    (key name : String) (names : List (String × String))
    → all_named names ≡ true
    → lookup key names ≡ some name
    → name ≢ ""
lookup_named key name [] h found = cc
lookup_named key name ((k, n) ∷ names) h found =
    ground (arith, eq_iff n "", lookup_named key name names)

merchant_lookup_named : (key name : String) → merchant_lookup key ≡ some name → name ≢ ""
unfolding merchant_lookup
merchant_lookup_named key name found = lookup_named key name merchants refl found

module _ (numbers : Numbers) where
  row_time_set : (now : Time) (dt : String) → second ≤ now → 0 < row_time numbers now dt
  unfolding row_time
  row_time_set now dt set =
      elim (Option-cases (if dt == "" then none else numbers.parse_float dt)) [
        | inl clock ↦ rw (clock, row_time) (omega arith)
        | inr (x, parsed) ↦
            rw (parsed, row_time) (omega (arith, after_epoch_pos (numbers.to_int64 x)))
      ]

  -- Where the column holds a whole number of seconds that no `int64` of nanoseconds overflows, the
  -- event is that long after the start of 2024.
  row_time_exact :
      (now : Time) (dt : String) (x : Float64) (n : ℕ)
      → dt ≢ ""
      → numbers.parse_float dt ≡ some x
      → numbers.to_int64 x ≡ pos n
      → n ≤ 9_223_372_036
      → row_time numbers now dt ≡ (ieee_epoch + n) * second
  unfolding row_time
  row_time_exact now dt x n set parses whole small = ground (arith, eq_iff dt "")

  row_amount_positive : (amt : String) → fle (row_amount numbers amt) zero_float ≡ false
  unfolding row_amount
  row_amount_positive amt =
      elim (Bool-cases (
        fle (elim (numbers.parse_float amt) as (λ _. Float64) [ none ↦ zero_float | some x ↦ x ])
          zero_float)) [ inl low ↦ rw low refl | inr high ↦ rw high high ]

  row_merchant_named : (product card : String) → row_merchant numbers product card ≢ ""
  unfolding row_merchant
  row_merchant_named product card =
      let key = numbers.to_lower product ⊹ ("+" ⊹ numbers.to_lower card) in
      elim (Option-cases (merchant_lookup key)) [
        | inl other ↦ ground (arith, merchant_prefix (product ⊹ ("_" ⊹ card)))
        | inr (name, known) ↦ ground (arith, merchant_lookup_named key name known)
      ]

  -- What a row becomes passes `Validate` exactly if it is at most five minutes ahead of the clock,
  -- whatever its cells hold, as long as the clock of the replay is past the first second.
  pub map_csv_row_valid :
      (now clock : Time) (row : List String) (idx : List (String × ℕ))
      → second ≤ now
      → (validate clock (map_csv_row numbers now row idx) ≡ none)
        ↔ (row_time numbers now (cell row idx "TransactionDT") ≤ clock + 5 * minute)
  unfolding map_csv_row
  map_csv_row_valid now clock row idx set =
      let valid = validate_iff clock (map_csv_row numbers now row idx) in
      (
        λ v. (valid.0 v).not_future,
        λ soon. valid.1 (record {
          has_user = ground (arith, eq_iff (cell row idx "card1") "", eq_iff "unknown" "");
          positive = row_amount_positive (cell row idx "TransactionAmt");
          has_currency = ground (arith, eq_iff "USD" "");
          has_merchant = row_merchant_named (cell row idx "ProductCD") (cell row idx "card4");
          has_time = omega (arith, row_time_set now (cell row idx "TransactionDT") set);
          not_future = soon;
          few_keys = omega arith;
        }),
      )
