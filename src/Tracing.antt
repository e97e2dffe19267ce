-- ===== src/Tracing.antt =====
-- internal/tracing/tracing.go and internal/version: the set-up of the tracer.
use taskflow_api.Base.{String, Option, none, some, str_eq, ◌==◌, if◌then◌else◌}
use taskflow_api.Domain.Errors.{Error, wrapf, Result, ok, err}
use Prim.Native.String.{◌++◌ as str_append}
use Prim.Native.Char.{code}

-- `version.Version`, which a build may override.
abbrev pub version : String
version = "dev"

-- `strings.TrimRight(s, "/")`
unfoldable pub trim_slashes : String → String
trim_slashes String.[] = ""
trim_slashes (String.◌∷◌ c s) = elim (trim_slashes s) [
  | String.[] ↦ if code c == b'/' then "" else String.◌∷◌ c ""
  | String.◌∷◌ d t ↦ String.◌∷◌ c (String.◌∷◌ d t)
]

unfoldable pub traces_url : String → String
traces_url endpoint = str_append (trim_slashes endpoint) "/v1/traces"

-- The constructors of OpenTelemetry: the errors of a resource and of an exporter for a URL.
pub record Otel : Type 0 where
  pub new_resource : String → String → Option Error
  pub new_exporter : String → Option Error

-- The provider that is registered: its resource, and the URL that it exports to, if any.
pub record Provider : Type 0 where
  pub service : String
  pub build : String
  pub exporter : Option String

abbrev exported : Otel → String → String → String → Option Error → Result Provider
exported otel service build url (some e) = err (wrapf "build otlp exporter: " e "")
exported otel service build url none =
    ok (record { service = service; build = build; exporter = some url })

abbrev resourced : Otel → String → String → String → Option Error → Result Provider
resourced otel service build endpoint (some e) = err (wrapf "build otel resource: " e "")
resourced otel service build endpoint none =
    if str_eq endpoint ""
    then ok (record { service = service; build = build; exporter = none })
    else exported otel service build (traces_url endpoint) (otel.new_exporter (traces_url endpoint))

-- `Init`
unfoldable pub init : Otel → String → String → String → Result Provider
init otel service build endpoint =
    resourced otel service build endpoint (otel.new_resource service build)
