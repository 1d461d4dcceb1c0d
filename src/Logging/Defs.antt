-- ===== src/Logging/Defs.antt =====
-- `Logger` and `log`, up to the entry that is then printed as JSON. `fmt.Sprint` and the conversion
-- of an integer to a float are parameters. A Go map has no order, so the merge of one map into
-- another goes through it in the list's order, the first entry of a key last.
use fluxa.Base.{String, Option, none, some, List, [], ◌∷◌, ℤ, lookup, insert, remove}
use fluxa.Domain.{Float64, zero_float, Value, number, text, GoError, error_text}

-- What an `interface{}` field holds: a JSON value, or an `int` or `int64`.
pub data LogValue : Type 0 where
  value : Value → LogValue
  integer : ℤ → LogValue

abbrev pub LogFields : Type 0
LogFields = List (String × LogValue)

pub record LogEntry : Type 0 where
  pub timestamp : String
  pub level : String
  pub message : String
  pub correlation_id : String
  pub service : String
  pub stage : String
  pub event_id : String
  pub payload_mode : String
  pub status : String
  pub latency_ms : Float64
  pub error_code : String
  pub fields : LogFields

pub record Logger : Type 0 where
  pub correlation_id : String
  pub service : String
  pub default_fields : LogFields

abbrev pub new_logger : String → String → Logger
new_logger service correlation_id = record {
  correlation_id = correlation_id;
  service = service;
  default_fields = [];
}

-- `for k, v := range f { result[k] = v }`.
unfoldable pub merge_into : LogFields → LogFields → LogFields
merge_into result [] = result
merge_into result ((k, v) ∷ f) = insert k v (merge_into result f)

unfoldable pub merge_all : LogFields → List LogFields → LogFields
merge_all result [] = result
merge_all result (f ∷ fs) = merge_all (merge_into result f) fs

-- `mergeFields`.
abbrev pub merge_fields : List LogFields → LogFields
merge_fields maps = merge_all [] maps

-- `With`.
unfoldable pub with_fields : Logger → LogFields → Logger
with_fields l fields = record l {
  default_fields = merge_into (merge_into [] l.default_fields) fields;
}

-- What `log` formats by other packages.
pub record Printer : Type 0 where
  pub sprint : LogValue → String
  pub float_of : ℤ → Float64

module _ (printer : Printer) where
  -- A promoted text is empty where the field is missing.
  abbrev pub promoted : Option LogValue → String
  promoted none = ""
  promoted (some v) = printer.sprint v

  -- Other types than floats and integers leave the latency at 0.
  abbrev pub latency_of : Option LogValue → Float64
  latency_of (some (value (number x))) = x
  latency_of (some (integer n)) = printer.float_of n
  latency_of _ = zero_float

  -- `log`, at the formatted time.
  unfoldable pub log_entry : Logger → String → String → String → List LogFields → LogEntry
  log_entry l time level message fields =
      let all = merge_fields (l.default_fields ∷ merge_fields fields ∷ []) in
      let f1 = remove "stage" all in
      let f2 = remove "event_id" f1 in
      let f3 = remove "payload_mode" f2 in
      let f4 = remove "status" f3 in
      let f5 = remove "latency_ms" f4 in
      let f6 = remove "error_code" f5 in
      record {
        timestamp = time;
        level = level;
        message = message;
        correlation_id = l.correlation_id;
        service = l.service;
        stage = promoted (lookup "stage" all);
        event_id = promoted (lookup "event_id" f1);
        payload_mode = promoted (lookup "payload_mode" f2);
        status = promoted (lookup "status" f3);
        latency_ms = latency_of (lookup "latency_ms" f4);
        error_code = promoted (lookup "error_code" f5);
        fields = f6;
      }

  -- `Info`, `Warn` and `Debug` only name the level; `Error` adds the error's text.
  unfoldable pub error_entry : Logger → String → String → Option GoError → List LogFields → LogEntry
  error_entry l time message failure fields = log_entry l time "ERROR" message (
      (elim failure [
        | none ↦ merge_fields fields
        | some e ↦ insert "error" (value (text (error_text e))) (merge_fields fields)
      ])
      ∷ [])
