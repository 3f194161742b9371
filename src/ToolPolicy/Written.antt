-- ===== src/ToolPolicy/Written.antt =====
-- What is read back after a write.
use mathlib.Core.Logic.{ite}
use mathlib.Core.Option.{map}
use ferrum_foundry.Prelude.{
  String, Option, none, some, ◌≡◌, refl, arith, Option-cases, inl, inr, ◌≢◌,
}
use ferrum_foundry.Prelude.Maps.{str_dec, str_ne}
use ferrum_foundry.Prelude.Json.{Json, Fields, object, field, empty, lookup}
use ferrum_foundry.ToolPolicy.{
  assign, remove, plain, policy_of, configured_tool_policies, raw_tool_policy, with_tool_policy,
  normalize_tool_policy, McpToolPolicyEntry,
}

lookup-assign_self :
    (key : String) (v : Json) (fs : Fields)
    → "__proto__" ≢ key
    → lookup key (assign key v fs) ≡ some v
unfolding lookup assign
lookup-assign_self key v empty h = ground (arith, str_dec "__proto__" key, str_dec key key)
lookup-assign_self key v (field k w fs) h =
    ground (arith, lookup-assign_self key v fs h, str_dec key key)

lookup-assign_ne :
    (key q : String) (v : Json) (fs : Fields) → q ≢ key → lookup q (assign key v fs) ≡ lookup q fs
unfolding lookup assign
lookup-assign_ne key q v empty h = ground (arith, str_dec key q)
lookup-assign_ne key q v (field k w fs) h =
    ground (arith, lookup-assign_ne key q v fs h, str_dec key q, str_dec k q)

lookup-remove_ne : (key q : String) (fs : Fields) → q ≢ key → lookup q (remove key fs) ≡ lookup q fs
unfolding lookup remove
lookup-remove_ne key q empty h = refl
lookup-remove_ne key q (field k w fs) h =
    ground (arith, lookup-remove_ne key q fs h, str_dec key q, str_dec k q)

lookup-remove_self : (key : String) (fs : Fields) → lookup key (remove key fs) ≡ none
unfolding lookup remove
lookup-remove_self key empty = refl
lookup-remove_self key (field k w fs) = ground (arith, lookup-remove_self key fs)

configured-assign :
    (policy tools config : Fields)
    → lookup "tools" policy ≡ some (object tools)
    → configured_tool_policies (assign "policy" (object policy) config) ≡ tools
unfolding configured_tool_policies policy_of plain
configured-assign policy tools config h =
    ground
      (arith, lookup-assign_self "policy" (object policy) config (str_ne "__proto__" "policy" refl))

lookup-tools_assign :
    (tools policy : Fields)
    → lookup "tools" (assign "tools" (object tools) policy) ≡ some (object tools)
lookup-tools_assign tools policy =
    lookup-assign_self "tools" (object tools) policy (str_ne "__proto__" "tools" refl)

lookup-single : (name : String) (v : Json) → lookup name (field name v empty) ≡ some v
unfolding lookup
lookup-single name v = ground (arith, str_dec name name)

assign-empty :
    (name : String) (v : Json) → "__proto__" ≢ name → assign name v empty ≡ field name v empty
unfolding assign
assign-empty name v h = ground (arith, str_dec "__proto__" name)

abbrev pub written_entry : String → Option McpToolPolicyEntry → String → Option Json → Option Json
written_entry name entry q old =
    ite (str_dec q name) (map (λ e. object (normalize_tool_policy e)) entry) old

module _ (config : Fields) (name : String) (h : "__proto__" ≢ name) where
  configured-none :
      (q : String)
      → lookup q (configured_tool_policies (with_tool_policy config name none))
        ≡ lookup q (remove name (configured_tool_policies config))
  unfolding with_tool_policy configured_tool_policies remove
  configured-none q = elim (Option-cases (policy_of config)) [
    | inl e ↦ ground arith
    | inr (policy, e) ↦ elim (Option-cases (plain (lookup "tools" policy))) [
      | inl t ↦ ground arith
      | inr (tools, t) ↦ ground (
        arith,
        lookup-tools_assign (remove name tools) policy,
        configured-assign (assign "tools" (object (remove name tools)) policy) (remove name tools)
            config,
      )
    ]
  ]

  configured-some :
      (entry : McpToolPolicyEntry) (q : String)
      → lookup q (configured_tool_policies (with_tool_policy config name (some entry)))
        ≡ lookup q
            (assign name (object (normalize_tool_policy entry)) (configured_tool_policies config))
  unfolding with_tool_policy configured_tool_policies
  configured-some entry q =
      let written = object (normalize_tool_policy entry) in
      let own : Fields = field name written empty in
      elim (Option-cases (policy_of config)) [
        | inl e ↦ ground (
          arith,
          assign-empty name written h,
          configured-assign (field "tools" (object own) empty) own config
              (lookup-single "tools" (object own)),
        )
        | inr (policy, e) ↦ elim (Option-cases (plain (lookup "tools" policy))) [
          | inl t ↦ ground (
            arith,
            assign-empty name written h,
            lookup-tools_assign own policy,
            configured-assign (assign "tools" (object own) policy) own config,
          )
          | inr (tools, t) ↦ ground (
            arith,
            lookup-tools_assign (assign name written tools) policy,
            configured-assign (assign "tools" (object (assign name written tools)) policy)
                (assign name written tools) config,
          )
        ]
      ]

  -- A written entry is read back in its normal form, and a removed one is gone; every other tool
  -- keeps its entry. The name is not `__proto__`.
  pub raw_tool_policy-with_tool_policy :
      (entry : Option McpToolPolicyEntry) (q : String)
      → raw_tool_policy (with_tool_policy config name entry) q
        ≡ written_entry name entry q (raw_tool_policy config q)
  unfolding raw_tool_policy
  raw_tool_policy-with_tool_policy none q = elim (str_dec q name) [
    | yes p ↦
        ground (arith, configured-none q, lookup-remove_self name (configured_tool_policies config))
    | no p ↦
        ground
          (arith, configured-none q, lookup-remove_ne name q (configured_tool_policies config) p)
  ]
  raw_tool_policy-with_tool_policy (some e) q =
      let written = object (normalize_tool_policy e) in
      elim (str_dec q name) [
        | yes p ↦ ground (
          arith,
          configured-some e q,
          lookup-assign_self name written (configured_tool_policies config) h,
        )
        | no p ↦ ground (
          arith,
          configured-some e q,
          lookup-assign_ne name q written (configured_tool_policies config) p,
        )
      ]
