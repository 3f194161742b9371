-- ===== src/Capabilities/Tests.antt =====
-- A data plane read before and after the session is known.
use ferrum_foundry.Prelude.{String, true, false, none, some, ◌≡◌, refl, inl, inr, arith, not}
use ferrum_foundry.Prelude.Maps.{str_dec}
use ferrum_foundry.Policy.{includes}
use ferrum_foundry.Capabilities.{
  operator, admin, CapabilityFacts, proxies, tls_material, tls, role_rank,
}
use ferrum_foundry.Capabilities.Surfaces.{surfaces}
use ferrum_foundry.Capabilities.Resolve.{
  resolve_capability, resolve_fleet_view, observed, outranked, gate_state,
  resolve_gateway_write_state, resolve_read_only_mode_state, flag_state, observed_mode,
  is_config_export,
}
use ferrum_foundry.Capabilities.Decisions.{
  is_blocked, resolve_capability-allowed, resolve_fleet_view-refuses,
}
use ferrum_foundry.Capabilities.Knowledge.{
  LearnsAll, resolve_capability-denied_stays, resolve_capability-role_mono,
}

abbrev same : String → String
same s = s

abbrev unread : CapabilityFacts
unread = record {
  role = none;
  namespace_scoped = none;
  mode = some "dp";
  admin_writes_enabled = none;
  status = none;
}

abbrev known : CapabilityFacts
known = record unread { role = some admin; namespace_scoped = some true; status = some "ok" }

known-LearnsAll : LearnsAll unread known
known-LearnsAll = record {
  role = inl refl;
  namespace_scoped = inl refl;
  mode = inr refl;
  admin_writes_enabled = inl refl;
  status = inl refl;
}

resolve_capability-allowed_example :
    (resolve_capability same proxies known).allowed ≡ not (is_blocked same known proxies)
resolve_capability-allowed_example = resolve_capability-allowed same known proxies

resolve_capability-denied_stays_example : (resolve_capability same proxies known).allowed ≡ false
unfolding resolve_capability surfaces outranked observed is_config_export gate_state
    resolve_gateway_write_state resolve_read_only_mode_state observed_mode includes str_dec
resolve_capability-denied_stays_example =
    resolve_capability-denied_stays same unread known known-LearnsAll proxies refl

abbrev writable : CapabilityFacts
writable = record unread { mode = some "database"; admin_writes_enabled = some true }

resolve_capability-role_mono_example :
    (resolve_capability same proxies (record writable { role = some admin })).allowed ≡ true
unfolding resolve_capability surfaces outranked observed is_config_export gate_state
    resolve_gateway_write_state resolve_read_only_mode_state flag_state observed_mode includes
    str_dec role_rank
resolve_capability-role_mono_example =
    resolve_capability-role_mono same writable operator admin proxies (omega arith) refl

resolve_fleet_view-refuses_example : (resolve_capability same tls_material known).allowed ≡ false
unfolding resolve_fleet_view observed surfaces
resolve_fleet_view-refuses_example =
    resolve_fleet_view-refuses same tls tls_material known refl refl
