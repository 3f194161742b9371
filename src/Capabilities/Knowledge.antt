-- ===== src/Capabilities/Knowledge.antt =====
-- Facts that are read later never take a denial back, and a higher role never loses a surface.
use ferrum_foundry.Prelude.{
  String, Bool, true, false, Option, none, some, ◌≡◌, refl, arith, inl, inr, ◌⊎◌, ◌≤◌,
}
use ferrum_foundry.Capabilities.{
  GatewayRole, role_rank, CapabilitySurface, CapabilityFacts, CapabilityGate, config_store,
  read_only_mode, no_gate,
}
use ferrum_foundry.Capabilities.Surfaces.{surfaces}
use ferrum_foundry.Capabilities.Resolve.{
  observed, is_text, not_degraded, outranked, observed_mode, observed_status, resolve_capability,
}
use ferrum_foundry.Capabilities.Decisions.{
  gate_closes, resolve_capability-allowed, in_mode, is_read_only_mode,
}

-- The second fact is the first one, or the first was not read.
abbrev pub Learns {ℓ} : {A : Type ℓ} → Option A → Option A → Type ℓ
Learns o p = (o ≡ none) ⊎ (o ≡ p)

pub record LearnsAll (f g : CapabilityFacts) : Type 0 where
  pub role : Learns f.role g.role
  pub namespace_scoped : Learns f.namespace_scoped g.namespace_scoped
  pub mode : Learns f.mode g.mode
  pub admin_writes_enabled : Learns f.admin_writes_enabled g.admin_writes_enabled
  pub status : Learns f.status g.status

-- A test that an unread fact fails.
Learns-holds {ℓ} :
    {A : Type ℓ} (t : Option A → Bool) (o p : Option A)
    → t none ≡ false
    → Learns o p
    → t o ≡ true
    → t p ≡ true
Learns-holds t o p n (inl e) h = cc
Learns-holds t o p n (inr e) h = cc

module _ (normal : String → String) (f g : CapabilityFacts) (l : LearnsAll f g) where
  observed_mode-Learns : Learns (observed_mode normal f) (observed_mode normal g)
  unfolding observed_mode
  observed_mode-Learns = elim l.mode [ inl e ↦ inl (ground arith) | inr e ↦ inr (ground arith) ]

  observed_status-Learns : Learns (observed_status normal f) (observed_status normal g)
  unfolding observed_status
  observed_status-Learns = elim l.status [ inl e ↦ inl (ground arith) | inr e ↦ inr (ground arith) ]

  abbrev mode_keeps : is_read_only_mode normal f ≡ true → is_read_only_mode normal g ≡ true
  mode_keeps =
      Learns-holds in_mode (observed_mode normal f) (observed_mode normal g) refl
        observed_mode-Learns

  writes_keeps :
      observed false f.admin_writes_enabled ≡ true → observed false g.admin_writes_enabled ≡ true
  unfolding observed
  writes_keeps =
      Learns-holds (observed false) f.admin_writes_enabled g.admin_writes_enabled refl
        l.admin_writes_enabled

  degraded_keeps :
      not_degraded (observed_status normal f) ≡ true
      → not_degraded (observed_status normal g) ≡ true
  unfolding not_degraded
  degraded_keeps =
      Learns-holds not_degraded (observed_status normal f) (observed_status normal g) refl
        observed_status-Learns

  gate_closes-keeps :
      (k : CapabilityGate) → gate_closes normal f k ≡ true → gate_closes normal g k ≡ true
  gate_closes-keeps config_store h = ground (arith, mode_keeps, writes_keeps)
  gate_closes-keeps read_only_mode h = ground (arith, mode_keeps, writes_keeps, degraded_keeps)
  gate_closes-keeps no_gate h = h

  outranked_keeps : (r : GatewayRole) → outranked f.role r ≡ true → outranked g.role r ≡ true
  unfolding outranked
  outranked_keeps r = Learns-holds (λ o. outranked o r) f.role g.role refl l.role

  scoped_keeps : observed true f.namespace_scoped ≡ true → observed true g.namespace_scoped ≡ true
  unfolding observed
  scoped_keeps =
      Learns-holds (observed true) f.namespace_scoped g.namespace_scoped refl l.namespace_scoped

  agent_keeps :
      is_text "node_agent" (observed_mode normal f) ≡ true
      → is_text "node_agent" (observed_mode normal g) ≡ true
  unfolding is_text
  agent_keeps =
      Learns-holds (is_text "node_agent") (observed_mode normal f) (observed_mode normal g) refl
        observed_mode-Learns

  -- A denial is never taken back: what is denied under some facts stays denied when more of them
  -- have been read.
  pub resolve_capability-denied_stays :
      (s : CapabilitySurface)
      → (resolve_capability normal s f).allowed ≡ false
      → (resolve_capability normal s g).allowed ≡ false
  resolve_capability-denied_stays s h = ground (
    arith,
    resolve_capability-allowed normal f s,
    resolve_capability-allowed normal g s,
    outranked_keeps (surfaces s).minimum_role,
    scoped_keeps,
    agent_keeps,
    gate_closes-keeps (surfaces s).gate,
  )

-- With every other fact the same, a role of at least the rank of another is offered every surface
-- that the other is.
pub resolve_capability-role_mono :
    (normal : String → String) (f : CapabilityFacts) (low high : GatewayRole)
    (s : CapabilitySurface)
    → role_rank low ≤ role_rank high
    → (resolve_capability normal s (record f { role = some low })).allowed ≡ true
    → (resolve_capability normal s (record f { role = some high })).allowed ≡ true
unfolding outranked observed_mode observed_status
resolve_capability-role_mono normal f low high s le h = ground (
  arith,
  resolve_capability-allowed normal (record f { role = some low }) s,
  resolve_capability-allowed normal (record f { role = some high }) s,
)
