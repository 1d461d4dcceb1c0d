-- ===== src/FraudEval/Interceptor.antt =====
-- `LoggingInterceptor`: one log entry for each call.
use Prim.Native.String.{◌++◌ as ◌⊹◌}
use fluxa.Base.{String, Option, some, [], ◌∷◌, ◌≡◌, refl, lookup, insert}
use fluxa.Domain.{Float64, number, text, GoError, plain, error_text}
use fluxa.World.{Env, M}
use fluxa.Logging.{
  value, LogFields, LogEntry, Logger, Printer, merge_all, merge_into, merge_fields, log_entry,
  error_entry,
}
use fluxa.Logging.Fields.{log_entry_fields}
use fluxa.FraudEval.Defs.{
  Code, invalid_argument, deadline_exceeded, canceled, unavailable_code, internal, Answer, status,
  response, Server, EvaluateRequest, ContextError, evaluate_transaction,
}

-- `code.String()`.
abbrev pub code_text : Code → String
code_text invalid_argument = "InvalidArgument"
code_text deadline_exceeded = "DeadlineExceeded"
code_text canceled = "Canceled"
code_text unavailable_code = "Unavailable"
code_text internal = "Internal"

abbrev pub answer_code : Answer → String
answer_code (status c _) = code_text c
answer_code (response _) = "OK"

-- The text of a status error.
abbrev pub status_error : Code → String → GoError
status_error c t = plain ("rpc error: code = " ⊹ (code_text c ⊹ (" desc = " ⊹ t)))

abbrev pub rpc_fields : String → Float64 → EvaluateRequest → Answer → LogFields
rpc_fields method latency r answer =
    ("method", value (text method))
    ∷ ("code", value (text (answer_code answer)))
    ∷ ("latency_ms", value (number latency))
    ∷ ("event_id", value (text r.event_id))
    ∷ []

module _ (printer : Printer) (l : Logger) (time method : String) (latency : Float64) where
  unfoldable pub rpc_entry : EvaluateRequest → Answer → LogEntry
  rpc_entry r answer =
      let fields = rpc_fields method latency r answer ∷ [] in
      elim answer [
        | status c t ↦ error_entry printer l time "rpc failed" (some (status_error c t)) fields
        | response _ ↦ log_entry printer l time "INFO" "rpc ok" fields
      ]

  -- The interceptor around `EvaluateTransaction`, at a formatted time and a measured latency.
  unfoldable pub intercepted :
      Env → Server → EvaluateRequest → Option ContextError → M (Answer × LogEntry)
  intercepted env s r context w =
      let (answer, w1) = evaluate_transaction env s r context w in
      ((answer, rpc_entry r answer), w1)

-- The entry of a call shows the call's event, its status code and its latency at their places,
-- whatever fields the logger brings along, and is of the level ERROR exactly if the call failed.
rpc_entry_fields :
    (printer : Printer) (l : Logger) (time method : String) (latency : Float64)
    (r : EvaluateRequest) (answer : Answer)
    → let e = rpc_entry printer l time method latency r answer in
      (e.event_id ≡ printer.sprint (value (text r.event_id)))
      × (e.latency_ms ≡ latency)
      × (lookup "method" e.fields ≡ some (value (text method)))
      × (lookup "code" e.fields ≡ some (value (text (answer_code answer))))
      × (e.level ≡ (elim answer [ status _ _ ↦ "ERROR" | response _ ↦ "INFO" ]))
unfolding rpc_entry error_entry log_entry merge_all merge_into
rpc_entry_fields printer l time method latency r (status c t) =
    let e = status_error c t in
    let fields =
      insert "error" (value (text (error_text e)))
        (merge_fields (rpc_fields method latency r (status c t) ∷ [])) in
    let (_, id, _, _, elapsed, _, rest) =
      log_entry_fields printer l time "ERROR" "rpc failed" (fields ∷ []) in
    (id, elapsed, rest "method", rest "code", refl)
rpc_entry_fields printer l time method latency r (response x) =
    let fields = rpc_fields method latency r (response x) in
    let (_, id, _, _, elapsed, _, rest) =
      log_entry_fields printer l time "INFO" "rpc ok" (fields ∷ []) in
    (id, elapsed, rest "method", rest "code", refl)
