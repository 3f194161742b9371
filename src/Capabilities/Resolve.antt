-- ===== src/Capabilities/Resolve.antt =====
-- src/lib/capabilities.ts: the gateway's write state, and the verdict on a surface or a view.
use Prim.Native.String.{◌++◌ as ◌++ˢ◌}
use ferrum_foundry.Prelude.{
  String, Bool, true, false, not, ◌&&◌, Option, none, some, List, [], ◌∷◌, ltb, if◌then◌else◌, map,
}
use ferrum_foundry.Policy.{includes}
use ferrum_foundry.Capabilities.{
  GatewayRole, role_rank, role_name, CapabilitySurface, config_export, CapabilityBlocker, role,
  namespace_scope, gateway_read_only, CapabilityVerdict, CapabilityFacts, CapabilityGate,
  config_store, read_only_mode, no_gate, GatewayWriteState, enabled, unknown, read_only, FleetView,
}
use ferrum_foundry.Capabilities.Surfaces.{surfaces, capability_surfaces, fleet_views}

abbrev pub read_only_modes : List String
read_only_modes = "file" ∷ "dp" ∷ "mesh" ∷ "node_agent" ∷ []

-- MODE_EXPLANATIONS, which has every read-only mode
unfoldable pub mode_explanation : String → String
mode_explanation mode =
    if includes ("file" ∷ []) mode
    then "The gateway runs in file mode: its configuration comes from a config file and the admin API is read-only. Edit the gateway's file and reload it instead."
    else if includes ("dp" ∷ []) mode
    then "The gateway runs in data-plane (dp) mode: its configuration comes from the control plane and the admin API is read-only."
    else if includes ("mesh" ∷ []) mode
    then "The gateway runs in mesh mode: its configuration comes from mesh policy sources and the admin API is read-only."
    else if includes ("node_agent" ∷ []) mode
    then "The gateway runs in node-agent mode: it serves no admin configuration API and its admin API is read-only."
    else "The gateway runs in " ++ˢ (mode ++ˢ " mode, where the admin API is read-only.")

abbrev pub writes_disabled_explanation : String
writes_disabled_explanation =
    "The gateway reports that admin writes are disabled — a read-only admin API, an unavailable configuration database, or a failover topology that does not allow writes."

abbrev pub admin_read_only_flag_explanation : String
admin_read_only_flag_explanation =
    "The gateway was started with FERRUM_ADMIN_READ_ONLY, so the admin API is read-only."

abbrev pub namespace_scope_explanation : String
namespace_scope_explanation =
    "Your session holds namespace grants, and this is a fleet-wide surface that namespace grants do not scope. Only an administrator without namespace grants can change it."

abbrev pub node_agent_export_explanation : String
node_agent_export_explanation =
    "The gateway runs in node-agent mode: it has neither a configuration database nor a cached configuration, so configuration export is unavailable."

abbrev pub fleet_view_explanation : String
fleet_view_explanation =
    "Your session holds namespace grants, and this view reports on the whole gateway, which namespace grants do not scope. Foundry and Ferrum Edge refuse its fleet-wide routes to a namespace-scoped session; only a session without namespace grants can open it."

-- `x === b` for a fact that may be unread
unfoldable pub observed : Bool → Option Bool → Bool
observed b none = false
observed true (some b) = b
observed false (some b) = not b

unfoldable pub is_text : String → Option String → Bool
is_text s none = false
is_text s (some t) = includes (s ∷ []) t

-- `status && status !== "degraded"`
unfoldable pub not_degraded : Option String → Bool
not_degraded none = false
not_degraded (some s) = not (includes ("" ∷ []) s) && not (includes ("degraded" ∷ []) s)

unfoldable pub is_config_export : CapabilitySurface → Bool
is_config_export config_export = true
is_config_export _ = false

-- `facts.role && ROLE_RANK[facts.role] < ROLE_RANK[minimumRole]`
unfoldable pub outranked : Option GatewayRole → GatewayRole → Bool
outranked none minimum = false
outranked (some r) minimum = ltb (role_rank r) (role_rank minimum)

unfoldable pub name_of : Option GatewayRole → String
name_of none = ""
name_of (some r) = role_name r

abbrev pub permits : String → String → CapabilityVerdict
permits label headline = record {
  allowed = true;
  label = label;
  headline = headline;
  blocked_by = none;
  summary = none;
  explanation = none;
}

abbrev pub refuses : String → String → CapabilityBlocker → String → String → CapabilityVerdict
refuses label headline blocker summary explanation = record {
  allowed = false;
  label = label;
  headline = headline;
  blocked_by = some blocker;
  summary = some summary;
  explanation = some explanation;
}

unfoldable pub resolve_fleet_view : FleetView → CapabilityFacts → CapabilityVerdict
resolve_fleet_view view facts =
    let (label, headline) = fleet_views view in
    if not (observed true facts.namespace_scoped)
    then permits label headline
    else refuses label headline namespace_scope "Requires a session without namespace grants"
        fleet_view_explanation

module _ (normal : String → String) where
  unfoldable pub observed_mode : CapabilityFacts → Option String
  observed_mode facts = elim facts.mode [ none ↦ none | some m ↦ some (normal m) ]

  unfoldable pub observed_status : CapabilityFacts → Option String
  observed_status facts = elim facts.status [ none ↦ none | some s ↦ some (normal s) ]

  unfoldable pub flag_state : CapabilityFacts → GatewayWriteState
  flag_state facts =
      if observed false facts.admin_writes_enabled && not_degraded (observed_status facts)
      then read_only admin_read_only_flag_explanation
      else unknown

  unfoldable pub resolve_read_only_mode_state : CapabilityFacts → GatewayWriteState
  resolve_read_only_mode_state facts = elim (observed_mode facts) [
    | none ↦ flag_state facts
    | some m ↦
        if includes read_only_modes m then read_only (mode_explanation m) else flag_state facts
  ]

  unfoldable pub resolve_gateway_write_state : CapabilityFacts → GatewayWriteState
  resolve_gateway_write_state facts = elim (resolve_read_only_mode_state facts) [
    | read_only explanation ↦ read_only explanation
    | _ ↦
        if observed false facts.admin_writes_enabled
        then read_only writes_disabled_explanation
        else if observed true facts.admin_writes_enabled
        then enabled
        else unknown
  ]

  -- the write state of the surface's gate; a surface without one never consults it
  unfoldable pub gate_state : CapabilityGate → CapabilityFacts → GatewayWriteState
  gate_state config_store facts = resolve_gateway_write_state facts
  gate_state read_only_mode facts = resolve_read_only_mode_state facts
  gate_state no_gate facts = unknown

  unfoldable pub resolve_capability : CapabilitySurface → CapabilityFacts → CapabilityVerdict
  resolve_capability surface facts =
      let d = surfaces surface in
      if outranked facts.role d.minimum_role
      then refuses d.label d.headline role
          ("Requires the " ++ˢ (role_name d.minimum_role ++ˢ " role"))
          ("Your session has the "
            ++ˢ (name_of facts.role
                ++ˢ (" role, which cannot "
                    ++ˢ (d.action
                        ++ˢ (". Ferrum Edge requires the "
                            ++ˢ (role_name d.minimum_role ++ˢ " role for this surface."))))))
      else if d.fleet_wide && observed true facts.namespace_scoped
      then refuses d.label d.headline namespace_scope
          "Requires an administrator without namespace grants" namespace_scope_explanation
      else if is_config_export surface && is_text "node_agent" (observed_mode facts)
      then refuses d.label d.headline gateway_read_only "The gateway has no cached configuration"
          node_agent_export_explanation
      else elim (gate_state d.gate facts) [
        | read_only explanation ↦
            refuses d.label d.headline gateway_read_only "The gateway admin API is read-only"
              explanation
        | _ ↦ permits d.label d.headline
      ]

  unfoldable pub resolve_capabilities :
      CapabilityFacts → List (CapabilitySurface × CapabilityVerdict)
  resolve_capabilities facts =
      map (λ surface. (surface, resolve_capability surface facts)) capability_surfaces
