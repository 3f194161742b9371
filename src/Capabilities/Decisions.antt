-- ===== src/Capabilities/Decisions.antt =====
-- What a verdict comes from, without the order of the checks.
use ferrum_foundry.Prelude.{
  String, Bool, true, false, not, ◌&&◌, ◌||◌, Option, none, some, ◌≡◌, refl, arith, Option-cases,
  inl, inr, ◌⊎◌,
}
use ferrum_foundry.Policy.{includes}
use ferrum_foundry.Capabilities.{
  CapabilitySurface, CapabilityFacts, CapabilityGate, config_store, read_only_mode, no_gate,
  GatewayWriteState, enabled, unknown, read_only, FleetView,
}
use ferrum_foundry.Capabilities.Surfaces.{surfaces}
use ferrum_foundry.Capabilities.Resolve.{
  read_only_modes, observed, is_text, not_degraded, is_config_export, outranked, observed_mode,
  observed_status, flag_state, resolve_read_only_mode_state, resolve_gateway_write_state,
  gate_state, resolve_capability, resolve_fleet_view,
}

abbrev pub is_read_only : GatewayWriteState → Bool
is_read_only (read_only _) = true
is_read_only _ = false

abbrev pub in_mode : Option String → Bool
in_mode none = false
in_mode (some m) = includes read_only_modes m

State-cases :
    (w : GatewayWriteState) → ((e : String) × (w ≡ read_only e)) ⊎ ((w ≡ enabled) ⊎ (w ≡ unknown))
State-cases (read_only e) = inl (e, refl)
State-cases enabled = inr (inl refl)
State-cases unknown = inr (inr refl)

module _ (normal : String → String) (f : CapabilityFacts) where
  abbrev pub is_read_only_mode : Bool
  is_read_only_mode = in_mode (observed_mode normal f)

  abbrev pub has_read_only_flag : Bool
  has_read_only_flag =
      observed false f.admin_writes_enabled && not_degraded (observed_status normal f)

  -- What closes a gate: the read-only gate is not closed by a failover topology, which
  -- `admin_writes_enabled` tells of together with the rest.
  abbrev pub gate_closes : CapabilityGate → Bool
  gate_closes config_store = is_read_only_mode || observed false f.admin_writes_enabled
  gate_closes read_only_mode = is_read_only_mode || has_read_only_flag
  gate_closes no_gate = false

  mode_state-closes :
      is_read_only (resolve_read_only_mode_state normal f)
      ≡ (is_read_only_mode || has_read_only_flag)
  unfolding resolve_read_only_mode_state flag_state
  mode_state-closes = elim (Option-cases (observed_mode normal f)) [
    | inl e ↦ ground arith
    | inr (m, e) ↦ ground arith
  ]

  write_state-closes :
      is_read_only (resolve_gateway_write_state normal f)
      ≡ (is_read_only_mode || observed false f.admin_writes_enabled)
  unfolding resolve_gateway_write_state
  write_state-closes = elim (State-cases (resolve_read_only_mode_state normal f)) [
    | inl (e, q) ↦ ground (arith, mode_state-closes)
    | inr (inl q) ↦ ground (arith, mode_state-closes)
    | inr (inr q) ↦ ground (arith, mode_state-closes)
  ]

  gate_state-closes : (g : CapabilityGate) → is_read_only (gate_state normal g f) ≡ gate_closes g
  unfolding gate_state
  gate_state-closes config_store = write_state-closes
  gate_state-closes read_only_mode = mode_state-closes
  gate_state-closes no_gate = refl

  abbrev pub is_blocked : CapabilitySurface → Bool
  is_blocked s =
      outranked f.role (surfaces s).minimum_role
      || (((surfaces s).fleet_wide && observed true f.namespace_scoped)
          || ((is_config_export s && is_text "node_agent" (observed_mode normal f))
              || gate_closes (surfaces s).gate))

  -- A surface is offered exactly when no observed fact blocks it: a role below its minimum, grants
  -- on a fleet-wide surface, a node agent's missing export, or the closing of its own gate.
  pub resolve_capability-allowed :
      (s : CapabilitySurface) → (resolve_capability normal s f).allowed ≡ not (is_blocked s)
  unfolding resolve_capability
  resolve_capability-allowed s = elim (State-cases (gate_state normal (surfaces s).gate f)) [
    | inl (e, q) ↦ ground (arith, gate_state-closes (surfaces s).gate)
    | inr (inl q) ↦ ground (arith, gate_state-closes (surfaces s).gate)
    | inr (inr q) ↦ ground (arith, gate_state-closes (surfaces s).gate)
  ]

-- A session that is refused a fleet-wide view is offered no fleet-wide surface for writing either.
pub resolve_fleet_view-refuses :
    (normal : String → String) (v : FleetView) (s : CapabilitySurface) (f : CapabilityFacts)
    → (resolve_fleet_view v f).allowed ≡ false
    → (surfaces s).fleet_wide ≡ true
    → (resolve_capability normal s f).allowed ≡ false
unfolding resolve_fleet_view
resolve_fleet_view-refuses normal v s f h w = ground (arith, resolve_capability-allowed normal f s)
