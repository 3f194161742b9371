-- ===== src/Capabilities.antt =====
-- src/lib/capabilities.ts: which surfaces a session is offered for writing. A fact that was not read
-- is `none`. `normal` stands for `trim().toLowerCase()`, whose tables the JavaScript runtime has.
pub mod Surfaces
pub mod Resolve
pub mod Knowledge
pub mod Decisions
mod Tests
use ferrum_foundry.Prelude.{ℕ, String, Bool, true, false, Option, none, some}

pub data GatewayRole : Type 0 where
  viewer operator admin : GatewayRole

-- ROLE_RANK
unfoldable pub role_rank : GatewayRole → ℕ
role_rank viewer = 0
role_rank operator = 1
role_rank admin = 2

unfoldable pub role_name : GatewayRole → String
role_name viewer = "viewer"
role_name operator = "operator"
role_name admin = "admin"

pub data CapabilitySurface : Type 0 where
  proxies upstreams plugin_configs consumers consumer_credentials : CapabilitySurface
  api_specs namespace_registry config_export config_backup gateway_trust : CapabilitySurface
  tls_material tls_rotation operational_actions fleet_operations bff_settings : CapabilitySurface

pub data CapabilityBlocker : Type 0 where
  role namespace_scope gateway_read_only : CapabilityBlocker

pub record CapabilityVerdict : Type 0 where
  pub allowed : Bool
  pub label : String
  pub headline : String
  pub blocked_by : Option CapabilityBlocker
  pub summary : Option String
  pub explanation : Option String

pub record CapabilityFacts : Type 0 where
  pub role : Option GatewayRole
  pub namespace_scoped : Option Bool
  pub mode : Option String
  pub admin_writes_enabled : Option Bool
  pub status : Option String

pub data CapabilityGate : Type 0 where
  config_store read_only_mode no_gate : CapabilityGate

pub record SurfaceDescriptor : Type 0 where
  pub label : String
  pub headline : String
  pub action : String
  pub minimum_role : GatewayRole
  pub gate : CapabilityGate
  pub fleet_wide : Bool

pub data GatewayWriteState : Type 0 where
  enabled unknown : GatewayWriteState
  read_only : String → GatewayWriteState

pub data FleetView : Type 0 where
  metrics tls cluster mesh : FleetView
