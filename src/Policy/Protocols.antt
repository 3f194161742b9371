-- ===== src/Policy/Protocols.antt =====
-- src/lib/pluginProtocols.ts: which plugins the gateway runs on a proxy's protocol.
use ferrum_foundry.Prelude.{
  String, Bool, true, false, not, ◌&&◌, ◌||◌, List, [], ◌∷◌, Option, none, some, ite, if◌then◌else◌,
  any, all,
}
use ferrum_foundry.Prelude.Maps.{str_dec}
use ferrum_foundry.Prelude.Json.{
  Json, Fields, null, boolean, string, array, object, lookup, to_list,
}
use ferrum_foundry.Policy.{
  BackendScheme, https, tcp, tcps, udp, dtls, PluginConfig, Proxy, includes,
}

abbrev pub stream_capable_plugins : List String
stream_capable_plugins =
    "ip_restriction" ∷ "spiffe_identity" ∷ "mtls_auth" ∷ "access_control" ∷ "mesh_authz"
    ∷ "geo_restriction" ∷ "rate_limiting" ∷ "correlation_id" ∷ "otel_tracing" ∷ "stdout_logging"
    ∷ "statsd_logging" ∷ "http_logging" ∷ "tcp_logging" ∷ "kafka_logging" ∷ "loki_logging"
    ∷ "udp_logging" ∷ "ws_logging" ∷ "prometheus_metrics" ∷ "api_chargeback" ∷ "api_chargeback_sink"
    ∷ "workload_metrics" ∷ "transaction_debugger" ∷ "fault_injection" ∷ "proxy_alerts" ∷ []

abbrev pub waf_stream_modes : List String
waf_stream_modes = "enforce" ∷ "monitor" ∷ []

abbrev pub waf_enabled_actions : List String
waf_enabled_actions = "enforce" ∷ "block" ∷ "reject" ∷ "monitor" ∷ "log" ∷ "warn" ∷ []

abbrev pub waf_disabled_actions : List String
waf_disabled_actions = "disabled" ∷ "disable" ∷ "off" ∷ []

-- `undefined` and `null`
unfoldable pub absent : Option Json → Bool
absent none = true
absent (some null) = true
absent (some _) = false

unfoldable pub non_empty_string : Option Json → Bool
non_empty_string (some (string s)) = not (ite (str_dec s "") true false)
non_empty_string _ = false

-- `typeof value === "string" && set.has(value)`
unfoldable pub string_in : List String → Option Json → Bool
string_in names (some (string s)) = includes names s
string_in names _ = false

unfoldable pub waf_signature_enabled : Fields → Bool
waf_signature_enabled signature =
    absent (lookup "action" signature) || string_in waf_enabled_actions (lookup "action" signature)

unfoldable pub waf_signature_valid : Json → Bool
waf_signature_valid (object signature) =
    (non_empty_string (lookup "id" signature) && non_empty_string (lookup "pattern" signature))
    && (absent (lookup "action" signature)
        || (string_in waf_enabled_actions (lookup "action" signature)
            || string_in waf_disabled_actions (lookup "action" signature)))
waf_signature_valid _ = false

-- the fields of a valid signature, and its id
unfoldable pub signature_fields : Json → Fields
signature_fields (object signature) = signature
signature_fields _ = Fields.empty

unfoldable pub signature_id : Json → String
signature_id signature = elim (lookup "id" (signature_fields signature)) [
  | none ↦ ""
  | some v ↦ elim v [ string s ↦ s | _ ↦ "" ]
]

-- The set of the ids is as large as their list: none stands twice.
unfoldable pub distinct : List String → Bool
distinct [] = true
distinct (x ∷ xs) = not (includes xs x) && distinct xs

unfoldable pub ids : List Json → List String
ids [] = []
ids (s ∷ ss) = signature_id s ∷ ids ss

-- `absent(stream.signatures) ? [] : stream.signatures`, where it is an array
unfoldable pub signatures_of : Fields → Option (List Json)
signatures_of stream = elim (lookup "signatures" stream) [
  | none ↦ some []
  | some v ↦ elim v [ null ↦ some [] | array xs ↦ some (to_list xs) | _ ↦ none ]
]

unfoldable pub is_boolean : Option Json → Bool
is_boolean (some (boolean _)) = true
is_boolean _ = false

unfoldable pub is_true : Option Json → Bool
is_true (some (boolean true)) = true
is_true _ = false

unfoldable pub stream_inspects : Fields → Bool
stream_inspects stream =
    let require_tls = lookup "tcp_require_tls" stream in
    if not (absent require_tls) && not (is_boolean require_tls)
    then false
    else elim (signatures_of stream) [
      | none ↦ false
      | some signatures ↦
          if not (all waf_signature_valid signatures)
          then false
          else if not (distinct (ids signatures))
          then false
          else is_true require_tls
            || any (λ s. waf_signature_enabled (signature_fields s)) signatures
    ]

unfoldable pub waf_inspects_streams : Fields → Bool
waf_inspects_streams config =
    let mode = lookup "mode" config in
    if not (absent mode) && not (string_in waf_stream_modes mode)
    then false
    else elim (lookup "stream" config) [
      | none ↦ false
      | some v ↦ elim v [ object stream ↦ stream_inspects stream | _ ↦ false ]
    ]

unfoldable pub scheme_of : Proxy → BackendScheme
scheme_of p = elim p.backend_scheme [ none ↦ https | some s ↦ s ]

unfoldable pub is_tcp_scheme : BackendScheme → Bool
is_tcp_scheme tcp = true
is_tcp_scheme tcps = true
is_tcp_scheme _ = false

unfoldable pub is_udp_scheme : BackendScheme → Bool
is_udp_scheme udp = true
is_udp_scheme dtls = true
is_udp_scheme _ = false

unfoldable pub is_stream_proxy : Proxy → Bool
is_stream_proxy p = is_tcp_scheme (scheme_of p) || is_udp_scheme (scheme_of p)

unfoldable pub plugin_applies_to_proxy : PluginConfig → Proxy → Bool
plugin_applies_to_proxy plugin p =
    if not (is_stream_proxy p)
    then true
    else if includes ("waf" ∷ []) plugin.plugin_name
    then waf_inspects_streams plugin.config
    else if includes ("tcp_connection_throttle" ∷ []) plugin.plugin_name
    then is_tcp_scheme (scheme_of p)
    else if includes ("udp_rate_limiting" ∷ []) plugin.plugin_name
    then is_udp_scheme (scheme_of p)
    else includes stream_capable_plugins plugin.plugin_name
