-- ===== src/Capabilities/Surfaces.antt =====
-- src/lib/capabilities.ts: the table SURFACES and the names of the fleet-wide views.
use ferrum_foundry.Prelude.{String, true, false, List, [], ◌∷◌, Bool}
use ferrum_foundry.Capabilities.{
  GatewayRole, operator, admin, CapabilitySurface, proxies, upstreams, plugin_configs, consumers,
  consumer_credentials, api_specs, namespace_registry, config_export, config_backup, gateway_trust,
  tls_material, tls_rotation, operational_actions, fleet_operations, bff_settings, CapabilityGate,
  config_store, read_only_mode, no_gate, SurfaceDescriptor, FleetView, metrics, tls, cluster, mesh,
}

abbrev describe : String → String → String → GatewayRole → CapabilityGate → Bool → SurfaceDescriptor
describe label headline action minimum_role gate fleet_wide = record {
  label = label;
  headline = headline;
  action = action;
  minimum_role = minimum_role;
  gate = gate;
  fleet_wide = fleet_wide;
}

unfoldable pub surfaces : CapabilitySurface → SurfaceDescriptor
surfaces proxies =
    describe "Proxy configuration" "Proxy configuration is read-only"
      "create, edit, or delete proxies" operator config_store false
surfaces upstreams =
    describe "Upstream configuration" "Upstream configuration is read-only"
      "create, edit, or delete upstreams and their targets" operator config_store false
surfaces plugin_configs =
    describe "Plugin configuration" "Plugin configuration is read-only"
      "create, edit, or delete plugin configurations" operator config_store false
surfaces consumers =
    describe "Consumer configuration" "Consumer configuration is read-only"
      "create, edit, or delete consumers" admin config_store false
surfaces consumer_credentials =
    describe "Consumer credentials" "Consumer credentials are read-only"
      "add, rotate, or revoke consumer credentials" admin config_store false
surfaces api_specs =
    describe "API spec import" "API spec import is unavailable"
      "import, replace, or delete API specs" admin config_store false
surfaces namespace_registry =
    describe "Namespace registry" "The namespace registry is read-only"
      "create, rename, or delete namespaces" admin config_store false
surfaces config_export =
    describe "Configuration export" "Configuration export is unavailable"
      "export the gateway configuration" admin no_gate false
surfaces config_backup =
    describe "Configuration restore" "Configuration restore is unavailable"
      "restore a configuration backup" admin config_store false
surfaces gateway_trust =
    describe "Gateway trust bundle" "The gateway trust bundle is read-only"
      "create, edit, or delete the gateway trust bundle" admin config_store false
surfaces tls_material =
    describe "Managed TLS material" "Managed TLS material is read-only"
      "upload or delete managed TLS material" admin read_only_mode true
surfaces tls_rotation =
    describe "TLS rotation" "TLS rotation is unavailable" "rotate TLS surfaces" operator no_gate
      true
surfaces operational_actions =
    describe "Operational gateway actions" "Operational gateway actions are unavailable"
      "run operational gateway actions" operator no_gate true
surfaces fleet_operations =
    describe "Fleet operational actions" "Fleet operational actions are unavailable"
      "refresh backend capabilities or test mesh egress" operator no_gate true
surfaces bff_settings =
    describe "BFF connection settings" "BFF connection settings are read-only"
      "change the Foundry BFF connection settings" admin no_gate true

-- CAPABILITY_SURFACES
abbrev pub capability_surfaces : List CapabilitySurface
capability_surfaces =
    proxies ∷ upstreams ∷ plugin_configs ∷ consumers ∷ consumer_credentials ∷ api_specs
    ∷ namespace_registry ∷ config_export ∷ config_backup ∷ gateway_trust ∷ tls_material
    ∷ tls_rotation ∷ operational_actions ∷ fleet_operations ∷ bff_settings ∷ []

-- FLEET_VIEWS: the label and the headline
unfoldable pub fleet_views : FleetView → String × String
fleet_views metrics = ("Gateway metrics", "Gateway metrics are unavailable")
fleet_views tls = ("TLS management", "TLS management is unavailable")
fleet_views cluster = ("Cluster status", "Cluster status is unavailable")
fleet_views mesh = ("Mesh status", "Mesh status is unavailable")
