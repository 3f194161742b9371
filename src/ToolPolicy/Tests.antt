-- ===== src/ToolPolicy/Tests.antt =====
-- A configuration with one tool, and a second one written.
use ferrum_foundry.Prelude.{[], ◌∷◌, some, ◌≡◌, refl}
use ferrum_foundry.Prelude.Maps.{str_ne}
use ferrum_foundry.Prelude.Json.{Fields, object, field, empty}
use ferrum_foundry.ToolPolicy.{
  raw_tool_policy, with_tool_policy, McpToolPolicyEntry, parse_tool_policy, normalize_tool_policy,
  allow,
}
use ferrum_foundry.ToolPolicy.Written.{raw_tool_policy-with_tool_policy, written_entry}
use ferrum_foundry.ToolPolicy.Roundtrip.{parse-normalize, canonical}

abbrev config : Fields
config =
    field "policy" (object (field "tools" (object (field "a.read" (object empty) empty)) empty))
      empty

abbrev granted : McpToolPolicyEntry
granted = record { action = allow; allowed_groups = some ("staff" ∷ []); denied_groups = some [] }

raw_tool_policy-with_tool_policy_example :
    raw_tool_policy (with_tool_policy config "a.write" (some granted)) "a.read"
    ≡ written_entry "a.write" (some granted) "a.read" (raw_tool_policy config "a.read")
raw_tool_policy-with_tool_policy_example =
    raw_tool_policy-with_tool_policy config "a.write" (str_ne "__proto__" "a.write" refl)
      (some granted) "a.read"

parse-normalize_example :
    parse_tool_policy (some (object (normalize_tool_policy granted))) ≡ some (canonical granted)
parse-normalize_example = parse-normalize granted
