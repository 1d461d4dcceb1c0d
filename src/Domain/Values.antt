-- ===== src/Domain/Values.antt =====
-- Go's `time.Time`, `float64` and `interface{}` values as the services use them.
use fluxa.Base.{ℕ, ◌*◌, ◌^◌, String, Bool, true, false, List, ℤ, pos, ltb_ℤ, leb_ℤ, nat_eq}

-- An instant, in microseconds since Go's zero time (PostgreSQL keeps no more; what Go has below
-- a microsecond is left out).
abbrev pub Time : Type 0
Time = ℕ

abbrev pub second : ℕ
second = 1000000

abbrev pub minute : ℕ
minute = 60 * second

abbrev pub is_zero_time : Time → Bool
is_zero_time t = nat_eq t 0

-- A float64. Every finite one is a whole number of units of 2^-1074; the two zeros are one here,
-- as they are for the comparisons.
pub data Float64 : Type 0 where
  nan neg_inf pos_inf : Float64
  finite : ℤ → Float64

abbrev pub zero_float : Float64
zero_float = finite (pos 0)

abbrev pub one_float : Float64
one_float = finite (pos (2 ^ 1074))

-- `a < b` and `a <= b`: false where either is a NaN.
abbrev pub flt : Float64 → Float64 → Bool
flt (finite x) (finite y) = ltb_ℤ x y
flt (finite x) pos_inf = true
flt neg_inf (finite y) = true
flt neg_inf pos_inf = true
flt _ _ = false

abbrev pub fle : Float64 → Float64 → Bool
fle (finite x) (finite y) = leb_ℤ x y
fle (finite x) pos_inf = true
fle neg_inf (finite y) = true
fle neg_inf neg_inf = true
fle neg_inf pos_inf = true
fle pos_inf pos_inf = true
fle _ _ = false

-- A value that `encoding/json` stores in an `interface{}`.
mutual
  pub data Value : Type 0 where
    null : Value
    bool : Bool → Value
    number : Float64 → Value
    text : String → Value
    array : Elements → Value
    object : Members → Value

  pub data Elements : Type 0 where
    no_elements : Elements
    element : Elements → Value → Elements

  pub data Members : Type 0 where
    no_members : Members
    member : Members → String → Value → Members

-- `map[string]interface{}`, each key once.
abbrev pub Metadata : Type 0
Metadata = List (String × Value)
