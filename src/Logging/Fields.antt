-- ===== src/Logging/Fields.antt =====
-- Where each field of a log call ends up.
use fluxa.Base.{
  String, ◌==◌, Bool, ◌||◌, Option, none, some, List, [], ◌∷◌, ◌≡◌, ap, subst, refl, inl, inr,
  arith, eq_iff, Bool-cases, Option-cases, lookup, insert, lookup-insert, lookup-insert_other,
  lookup-remove, if◌then◌else◌,
}
use fluxa.Domain.{GoError, error_text, Float64, zero_float, null, bool, number, text, array, object}
use fluxa.Logging.Defs.{
  LogValue, value, integer, LogFields, Logger, merge_into, merge_all, merge_fields, with_fields,
  Printer, promoted, latency_of, log_entry, error_entry,
}

abbrev pub or_else {ℓ} : {A : Type ℓ} → Option A → Option A → Option A
or_else none later = later
or_else (some a) later = some a

-- The value of a key in the last map that has one.
abbrev pub last_value : String → List LogFields → Option LogValue
last_value key [] = none
last_value key (f ∷ fs) = or_else (last_value key fs) (lookup key f)

lookup-merge_into :
    (key : String) (result f : LogFields)
    → lookup key (merge_into result f) ≡ or_else (lookup key f) (lookup key result)
unfolding merge_into
lookup-merge_into key result [] = refl
lookup-merge_into key result ((k, v) ∷ f) = elim (Bool-cases (k == key)) [
  | inl this ↦ ground (arith, eq_iff k key, eq_iff key k, lookup-insert key v (merge_into result f))
  | inr other ↦ ground (
    arith,
    eq_iff k key,
    eq_iff key k,
    lookup-insert_other k key v (merge_into result f) other,
    lookup-merge_into key result f,
  )
]

lookup-merge_all :
    (key : String) (result : LogFields) (fs : List LogFields)
    → lookup key (merge_all result fs) ≡ or_else (last_value key fs) (lookup key result)
unfolding merge_all
lookup-merge_all key result [] = refl
lookup-merge_all key result (f ∷ fs) =
    ground (arith, lookup-merge_all key (merge_into result f) fs, lookup-merge_into key result f)

-- The keys with a place of their own.
abbrev pub is_standard : String → Bool
is_standard key =
    "stage" == key
    || "event_id" == key
    || "payload_mode" == key
    || "status" == key
    || "latency_ms" == key
    || "error_code" == key

module _ (l : Logger) (fields : List LogFields) where
  -- The value that a log call has for a key: of the last map of the call that has it, or else of
  -- the logger.
  abbrev pub call_value : String → Option LogValue
  call_value key = or_else (last_value key fields) (lookup key l.default_fields)

  lookup-all :
      (key : String)
      → lookup key (merge_fields (l.default_fields ∷ merge_fields fields ∷ [])) ≡ call_value key
  lookup-all key = ground (
    arith,
    lookup-merge_all key [] (l.default_fields ∷ merge_fields fields ∷ []),
    lookup-merge_all key [] fields,
  )

-- The latency that is shown for a value: a number, or 0 for one that is missing or no number.
abbrev pub IsLatency : Printer → Option LogValue → Float64 → Type 0
IsLatency printer none shown = shown ≡ zero_float
IsLatency printer (some (integer n)) shown = shown ≡ printer.float_of n
IsLatency printer (some (value (number x))) shown = shown ≡ x
IsLatency printer (some (value null)) shown = shown ≡ zero_float
IsLatency printer (some (value (bool b))) shown = shown ≡ zero_float
IsLatency printer (some (value (text t))) shown = shown ≡ zero_float
IsLatency printer (some (value (array xs))) shown = shown ≡ zero_float
IsLatency printer (some (value (object ms))) shown = shown ≡ zero_float

latency_of-IsLatency :
    (printer : Printer) (v : Option LogValue) → IsLatency printer v (latency_of printer v)
latency_of-IsLatency printer none = refl
latency_of-IsLatency printer (some (integer n)) = refl
latency_of-IsLatency printer (some (value (number x))) = refl
latency_of-IsLatency printer (some (value null)) = refl
latency_of-IsLatency printer (some (value (bool b))) = refl
latency_of-IsLatency printer (some (value (text t))) = refl
latency_of-IsLatency printer (some (value (array xs))) = refl
latency_of-IsLatency printer (some (value (object ms))) = refl

module _ (printer : Printer) (l : Logger) (time level message : String)
    (fields : List LogFields) where
  -- A standard key has its own place in the entry and is not among the fields; any other key stands
  -- among the fields. Each text and each field is of the value in the last map of the call that has
  -- the key, or else of the logger. So is the latency if that value is a float or an integer; any
  -- other value of latency_ms is lost, and the entry shows 0.
  pub log_entry_fields :
      let e = log_entry printer l time level message fields in
      (e.stage ≡ promoted printer (call_value l fields "stage"))
      × (e.event_id ≡ promoted printer (call_value l fields "event_id"))
      × (e.payload_mode ≡ promoted printer (call_value l fields "payload_mode"))
      × (e.status ≡ promoted printer (call_value l fields "status"))
      × IsLatency printer (call_value l fields "latency_ms") e.latency_ms
      × (e.error_code ≡ promoted printer (call_value l fields "error_code"))
      × ((key : String)
          → lookup key e.fields ≡ (if is_standard key then none else call_value l fields key))
  unfolding log_entry
  log_entry_fields = (
    ap (promoted printer) (lookup-all l fields "stage"),
    simp (lookup-remove, lookup-all),
    simp (lookup-remove, lookup-all),
    simp (lookup-remove, lookup-all),
    subst (IsLatency printer (call_value l fields "latency_ms")) (simp (lookup-remove, lookup-all))
        (latency_of-IsLatency printer (call_value l fields "latency_ms")),
    simp (lookup-remove, lookup-all),
    λ key. simp (lookup-remove, lookup-all) (ground arith),
  )

module _ (printer : Printer) (l : Logger) (time message : String) (fields : List LogFields) where
  -- An error's text is what the entry shows under `error`, whatever the call and the logger have
  -- there; a call without an error leaves that field alone.
  error_entry_fields :
      (failure : Option GoError)
      → lookup "error" (error_entry printer l time message failure fields).fields ≡ (elim failure [
        | none ↦ or_else (last_value "error" fields) (lookup "error" l.default_fields)
        | some e ↦ some (value (text (error_text e)))
      ])
  unfolding error_entry
  error_entry_fields failure =
      let fs = elim failure as (λ _. LogFields) [
        | none ↦ merge_fields fields
        | some e ↦ insert "error" (value (text (error_text e))) (merge_fields fields)
      ] in
      let (_, _, _, _, _, _, rest) = log_entry_fields printer l time "ERROR" message (fs ∷ []) in
      elim (Option-cases failure) [
        | inl quiet ↦ ground (arith, rest "error", lookup-merge_all "error" [] fields)
        | inr (e, failed) ↦ ground (
          arith,
          rest "error",
          lookup-insert "error" (value (text (error_text e))) (merge_fields fields),
        )
      ]

-- A logger that was made by `With` writes what the first logger would write with these fields put
-- before those of the call.
with_fields_lem :
    (l : Logger) (f : LogFields) (fields : List LogFields) (key : String)
    → call_value (with_fields l f) fields key ≡ call_value l (f ∷ fields) key
unfolding with_fields
with_fields_lem l f fields key = ground (
  arith,
  lookup-merge_into key [] l.default_fields,
  lookup-merge_into key (merge_into [] l.default_fields) f,
)
