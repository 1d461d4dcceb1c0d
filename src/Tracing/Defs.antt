-- ===== src/Tracing/Defs.antt =====
-- `endpoint` and `Init`. The exporter is a parameter, and so is the provider's own shutdown.
use fluxa.Base.{trim_prefix, String, ◌==◌, Option, none, if◌then◌else◌}
use fluxa.Domain.{GoError, Result, ok, err}

unfoldable pub endpoint : (String → String) → String
endpoint getenv =
    let ep = getenv "OTEL_EXPORTER_OTLP_ENDPOINT" in
    if ep == "" then "jaeger:4317" else trim_prefix (trim_prefix ep "http://") "https://"

-- `noopShutdown`.
abbrev pub noop_shutdown : Option GoError
noop_shutdown = none

-- `Init`: what the shutdown that it returns will answer, given what the exporter's constructor
-- answers for an address and what the provider's shutdown answers with that exporter.
unfoldable pub init {ℓ} :
    {Exporter : Type ℓ}
    → (String → Result Exporter)
    → (Exporter → Option GoError)
    → (String → String)
    → Option GoError
init new_exporter shutdown getenv = elim (new_exporter (endpoint getenv)) [
  | err _ ↦ noop_shutdown
  | ok exporter ↦ shutdown exporter
]
