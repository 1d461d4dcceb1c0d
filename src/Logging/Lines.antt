-- ===== src/Logging/Lines.antt =====
-- The four levels, and the line that each call prints.
use Prim.Native.String.{◌++◌ as ◌⊹◌}
use fluxa.Base.{String, Option, List}
use fluxa.Domain.{GoError, error_text, Result, ok, err}
use fluxa.Logging.Defs.{LogFields, LogEntry, Logger, Printer, log_entry, error_entry}

pub data Line : Type 0 where
  stdout : String → Line
  stderr : String → Line

-- `marshal` is `json.Marshal` of an entry.
module _ (printer : Printer) (marshal : LogEntry → Result String) where
  -- The end of `log`: an entry that has no JSON, as one with a NaN, leaves a line on the error output.
  unfoldable pub print_entry : LogEntry → Line
  print_entry entry = elim (marshal entry) [
    | ok json ↦ stdout json
    | err e ↦ stderr (
        "{\"level\":\"ERROR\",\"message\":\"Failed to marshal log entry: " ⊹ (error_text e ⊹ "\"}"))
  ]

  -- `Info`, `Warn`, `Debug` and `Error`, at a time.
  unfoldable pub info : Logger → String → String → List LogFields → Line
  info l time message fields = print_entry (log_entry printer l time "INFO" message fields)

  unfoldable pub warn : Logger → String → String → List LogFields → Line
  warn l time message fields = print_entry (log_entry printer l time "WARN" message fields)

  unfoldable pub debug : Logger → String → String → List LogFields → Line
  debug l time message fields = print_entry (log_entry printer l time "DEBUG" message fields)

  unfoldable pub error : Logger → String → String → Option GoError → List LogFields → Line
  error l time message failure fields =
      print_entry (error_entry printer l time message failure fields)
