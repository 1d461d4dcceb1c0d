-- ===== src/Replay/Defs.antt =====
-- `mapCSVRowToEvent` and the loop of `main`. The CSV reader is a list of what it reads, and the
-- HTTP client a function of the body. Log lines and the file are left out.
use Prim.Native.Nat.{◌/◌, ◌%◌}
use Prim.Native.String.{◌++◌ as ◌⊹◌}
use fluxa.Base.{
  ℕ, zero, suc, ◌+◌, ◌-◌, ◌*◌, ◌^◌, String, ◌==◌, Option, none, some, List, [], ◌∷◌, ℤ, pos, negsuc,
  ltb, ltb_ℤ, pos_part, nat_eq, if◌then◌else◌, lookup, insert, get_elem?,
}
use fluxa.Domain.{Time, second, Float64, zero_float, one_float, fle, text, Result, ok, err, Event}
use fluxa.World.{M}

-- `strconv.ParseFloat`, the conversion of a float to `int64`, and `strings.ToLower`.
pub record Numbers : Type 0 where
  pub parse_float : String → Option Float64
  pub to_int64 : Float64 → ℤ
  pub to_lower : String → String

-- An `int64` product by `time.Second`, in nanoseconds, which wraps around.
abbrev pub word : ℕ → ℤ
word m = if ltb m (2 ^ 63) then pos m else negsuc (2 ^ 64 - 1 - m)

abbrev pub seconds_of : ℤ → ℤ
seconds_of (pos n) = word ((n * 1_000_000_000) % 2 ^ 64)
seconds_of (negsuc n) = word (2 ^ 64 - 1 - (suc n * 1_000_000_000 - 1) % 2 ^ 64)

-- 2024-01-01T00:00:00Z, in seconds since Go's zero time.
abbrev pub ieee_epoch : ℕ
ieee_epoch = 63_839_664_000

-- `ieeeEpoch.Add(d)` for `d` in nanoseconds, formatted in whole seconds.
abbrev pub after_epoch : ℤ → ℕ
after_epoch (pos n) = (ieee_epoch * 1_000_000_000 + n) / 1_000_000_000
after_epoch (negsuc n) = (ieee_epoch * 1_000_000_000 - suc n) / 1_000_000_000

-- The map from a column's name to its index; of two columns of one name the last one counts.
abbrev pub index_columns : ℕ → List String → List (String × ℕ) → List (String × ℕ)
index_columns i [] idx = idx
index_columns i (col ∷ cols) idx = index_columns (i + 1) cols (insert col i idx)

-- `get`: empty if the column or the cell is missing.
abbrev pub cell : List String → List (String × ℕ) → String → String
cell row idx col = elim (lookup col idx) [
  | none ↦ ""
  | some i ↦ elim (get_elem? row i) [ none ↦ "" | some t ↦ t ]
]

-- `merchantLookup`.
abbrev pub merchants : List (String × String)
merchants =
    ("w+visa", "Amazon Marketplace")
    ∷ ("w+mastercard", "Walmart Online")
    ∷ ("c+mastercard", "Walmart")
    ∷ ("c+visa", "Target")
    ∷ ("r+discover", "Target RedCard")
    ∷ ("h+amex", "Best Buy")
    ∷ ("s+visa", "Steam Games")
    ∷ ("s+mastercard", "PlayStation Store")
    ∷ []

unfoldable pub merchant_lookup : String → Option String
merchant_lookup key = lookup key merchants

module _ (numbers : Numbers) where
  -- The seconds after the epoch where the column parses, and else the clock's, in whole seconds.
  unfoldable pub row_time : Time → String → Time
  row_time now dt = elim (if dt == "" then none else numbers.parse_float dt) [
    | none ↦ now / second * second
    | some x ↦ after_epoch (seconds_of (numbers.to_int64 x)) * second
  ]

  unfoldable pub row_amount : String → Float64
  row_amount amt =
      let amount : Float64 = elim (numbers.parse_float amt) [ none ↦ zero_float | some x ↦ x ] in
      if fle amount zero_float then one_float else amount

  unfoldable pub row_merchant : String → String → String
  row_merchant product card =
      elim (merchant_lookup (numbers.to_lower product ⊹ ("+" ⊹ numbers.to_lower card))) [
        | none ↦ "merchant_" ⊹ (product ⊹ ("_" ⊹ card))
        | some name ↦ name
      ]

  -- `mapCSVRowToEvent`: the event that the JSON object stands for, which has no id.
  unfoldable pub map_csv_row : Time → List String → List (String × ℕ) → Event
  map_csv_row now row idx =
      let get = cell row idx in
      record {
        event_id = "";
        user_id = if get "card1" == "" then "unknown" else get "card1";
        amount = row_amount (get "TransactionAmt");
        currency = "USD";
        merchant = row_merchant (get "ProductCD") (get "card4");
        timestamp = row_time now (get "TransactionDT");
        metadata = some (
            ("email_domain", text (get "P_emaildomain"))
            ∷ ("card_network", text (get "card4"))
            ∷ ("product_code", text (get "ProductCD"))
            ∷ ("is_fraud_ground_truth", text (if get "isFraud" == "1" then "1" else "0"))
            ∷ []);
      }

-- `RATE_PER_SEC`, by `strconv.Atoi`.
unfoldable pub rate_per_sec : (String → Option ℤ) → String → ℕ
rate_per_sec atoi v = elim (if v == "" then none else atoi v) [
  | none ↦ 200
  | some n ↦ if ltb_ℤ (pos 0) n then pos_part n else 200
]

-- `time.Second / time.Duration(ratePerSec)`, in nanoseconds.
abbrev pub tick_interval : ℕ → ℕ
tick_interval rate = elim rate [ zero ↦ 0 | suc r ↦ 1_000_000_000 / suc r ]

-- `sent` and `failed`.
pub record Counts : Type 0 where
  pub sent : ℕ
  pub failed : ℕ

module _ (numbers : Numbers) (now : ℕ → Time) (print_event : Event → Result String)
    (post : String → M (Option ℕ)) (idx : List (String × ℕ)) where
  -- One row: `none` is a row that the reader cannot read.
  unfoldable pub send_row : Option (List String) → Counts → M Counts
  send_row none c w = (record c { failed = c.failed + 1 }, w)
  send_row (some row) c w = elim (print_event (map_csv_row numbers (now w.tick) row idx)) [
    | err x ↦ (record c { failed = c.failed + 1 }, w)
    | ok body ↦
        let (status, w1) = post body w in
        (
          elim status [
            | none ↦ record c { failed = c.failed + 1 }
            | some code ↦
                if nat_eq code 202
                then record c { sent = c.sent + 1 }
                else record c { failed = c.failed + 1 }
          ],
          w1,
        )
  ]

  -- The loop, up to the end of the file.
  unfoldable pub replay : List (Option (List String)) → Counts → M Counts
  replay [] c w = (c, w)
  replay (row ∷ rows) c w = let (c1, w1) = send_row row c w in replay rows c1 w1
