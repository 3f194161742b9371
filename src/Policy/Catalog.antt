-- ===== src/Policy/Catalog.antt =====
-- src/lib/pluginConfigDefaults.ts: the names that the plugin catalog describes.
use ferrum_foundry.Prelude.{String, List, [], ◌∷◌}

abbrev pub plugin_metadata : List String
plugin_metadata =
    "key_auth" ∷ "basic_auth" ∷ "jwt_auth" ∷ "jwks_auth" ∷ "oauth2_introspection"
    ∷ "oidc_relying_party" ∷ "ldap_auth" ∷ "hmac_auth" ∷ "mtls_auth" ∷ "soap_ws_security"
    ∷ "spiffe_identity" ∷ "access_control" ∷ "ip_restriction" ∷ "geo_restriction" ∷ "bot_detection"
    ∷ "waf" ∷ "opa" ∷ "security_headers" ∷ "cors" ∷ "rate_limiting" ∷ "request_size_limiting"
    ∷ "response_size_limiting" ∷ "tcp_connection_throttle" ∷ "adaptive_concurrency"
    ∷ "request_termination" ∷ "request_deduplication" ∷ "response_caching" ∷ "request_transformer"
    ∷ "response_transformer" ∷ "compression" ∷ "body_validator" ∷ "openapi_validator"
    ∷ "request_mirror" ∷ "response_mock" ∷ "serverless_function" ∷ "graphql" ∷ "correlation_id"
    ∷ "stdout_logging" ∷ "http_logging" ∷ "tcp_logging" ∷ "udp_logging" ∷ "kafka_logging"
    ∷ "loki_logging" ∷ "ws_logging" ∷ "statsd_logging" ∷ "prometheus_metrics" ∷ "otel_tracing"
    ∷ "transaction_debugger" ∷ "transaction_log_schema" ∷ "proxy_alerts" ∷ "workload_metrics"
    ∷ "ai_federation" ∷ "ai_stream_router" ∷ "ai_prompt_shield" ∷ "ai_response_guard"
    ∷ "ai_request_guard" ∷ "ai_rate_limiter" ∷ "ai_token_metrics" ∷ "ai_semantic_cache"
    ∷ "ai_semantic_firewall" ∷ "ai_prompt_compressor" ∷ "ai_tool_governor" ∷ "ai_transcript_audit"
    ∷ "mcp_gateway" ∷ "a2a_gateway" ∷ "mesh_authz" ∷ "mesh_outbound_registry"
    ∷ "mesh_route_dispatch" ∷ "sse" ∷ "grpc_web" ∷ "grpc_method_router" ∷ "grpc_deadline"
    ∷ "ws_message_size_limiting" ∷ "ws_rate_limiting" ∷ "ws_frame_logging" ∷ "udp_rate_limiting"
    ∷ "api_chargeback" ∷ "api_chargeback_sink" ∷ "load_testing" ∷ "fault_injection" ∷ "spec_expose"
    ∷ []
