-- ===== src/ToolPolicy.antt =====
-- src/lib/mcpToolPolicy.ts: the entries of `config.policy.tools`, read and written. A configuration
-- is a JSON object; the copy that deepClone makes is the value itself. The checks before a write are
-- not modelled.
pub mod Written
pub mod Roundtrip
mod Tests
use ferrum_foundry.Prelude.{
  String, Bool, true, false, not, ◌&&◌, List, [], ◌∷◌, Option, none, some, ite, if◌then◌else◌,
}
use ferrum_foundry.Prelude.Maps.{str_dec}
use ferrum_foundry.Prelude.Json.{
  Json, Jsons, Fields, null, boolean, number, string, array, object, nil, cons, field, empty,
  lookup, to_list,
}

pub data McpToolAction : Type 0 where
  allow deny hide_from_discovery : McpToolAction

pub record McpToolPolicyEntry : Type 0 where
  pub action : McpToolAction
  pub allowed_groups : Option (List String)
  pub denied_groups : Option (List String)

-- `o[key] = value`: an own field keeps its place, a new one goes to the end; without an own field
-- of that name, an assignment to `__proto__` gives the object no field.
unfoldable pub assign : String → Json → Fields → Fields
assign key value empty = ite (str_dec "__proto__" key) empty (field key value empty)
assign key value (field k v fs) =
    ite (str_dec k key) (field key value fs) (field k v (assign key value fs))

-- `delete o[key]`
unfoldable pub remove : String → Fields → Fields
remove key empty = empty
remove key (field k v fs) = ite (str_dec k key) (remove key fs) (field k v (remove key fs))

-- the fields of a plain object, and of what stands under a name in one
unfoldable pub plain : Option Json → Option Fields
plain (some (object fs)) = some fs
plain _ = none

unfoldable pub policy_of : Fields → Option Fields
policy_of config = plain (lookup "policy" config)

unfoldable pub configured_tool_policies : Fields → Fields
configured_tool_policies config = elim (policy_of config) [
  | none ↦ empty
  | some policy ↦ elim (plain (lookup "tools" policy)) [ none ↦ empty | some tools ↦ tools ]
]

unfoldable pub raw_tool_policy : Fields → String → Option Json
raw_tool_policy config name = lookup name (configured_tool_policies config)

unfoldable pub action_name : McpToolAction → String
action_name allow = "allow"
action_name deny = "deny"
action_name hide_from_discovery = "hide_from_discovery"

unfoldable pub to_action : Option Json → Option McpToolAction
to_action (some (string s)) = ite (str_dec s "allow") (some allow) (
    ite (str_dec s "deny") (some deny)
      (ite (str_dec s "hide_from_discovery") (some hide_from_discovery) none))
to_action _ = none

unfoldable pub texts : Jsons → List String
texts nil = []
texts (cons (string s) js) = s ∷ texts js
texts (cons _ js) = texts js

-- `stringList(value)`, where null is `none`
unfoldable pub group_list : Option Json → Option (List String)
group_list (some (array js)) = some (texts js)
group_list _ = none

unfoldable pub parse_tool_policy : Option Json → Option McpToolPolicyEntry
parse_tool_policy (some (object raw)) = elim (to_action (lookup "action" raw)) [
  | none ↦ none
  | some action ↦ some (record {
    action = action;
    allowed_groups = group_list (lookup "allowed_groups" raw);
    denied_groups = group_list (lookup "denied_groups" raw);
  })
]
parse_tool_policy _ = none

unfoldable pub of_texts : List String → Jsons
of_texts [] = nil
of_texts (s ∷ ss) = cons (string s) (of_texts ss)

-- `if (groups && groups.length > 0) written[key] = [...groups]`
unfoldable pub with_groups : String → Option (List String) → Fields → Fields
with_groups key none written = written
with_groups key (some []) written = written
with_groups key (some (g ∷ gs)) written = assign key (array (of_texts (g ∷ gs))) written

unfoldable pub is_allow : McpToolAction → Bool
is_allow allow = true
is_allow _ = false

unfoldable pub normalize_tool_policy : McpToolPolicyEntry → Fields
normalize_tool_policy e =
    let written = field "action" (string (action_name e.action)) empty in
    if not (is_allow e.action)
    then written
    else with_groups "denied_groups" e.denied_groups
        (with_groups "allowed_groups" e.allowed_groups written)

-- `{ [name]: written }`, which makes an own field of every name
abbrev single : String → Json → Fields
single name written = field name written empty

unfoldable pub with_tool_policy : Fields → String → Option McpToolPolicyEntry → Fields
with_tool_policy config name none = elim (policy_of config) [
  | none ↦ config
  | some policy ↦ elim (plain (lookup "tools" policy)) [
    | none ↦ config
    | some tools ↦
        assign "policy" (object (assign "tools" (object (remove name tools)) policy)) config
  ]
]
with_tool_policy config name (some entry) =
    let written = object (normalize_tool_policy entry) in
    elim (policy_of config) [
      | none ↦ assign "policy" (object (single "tools" (object (single name written)))) config
      | some policy ↦ elim (plain (lookup "tools" policy)) [
        | none ↦
            assign "policy" (object (assign "tools" (object (single name written)) policy)) config
        | some tools ↦
            assign "policy" (object (assign "tools" (object (assign name written tools)) policy))
              config
      ]
    ]
