-- ===== src/ToolPolicy/Roundtrip.antt =====
-- An entry, written and parsed again.
use ferrum_foundry.Prelude.{
  String, List, [], ◌∷◌, Option, none, some, ◌≡◌, refl, ap, ◌∙◌, if◌then◌else◌,
}
use ferrum_foundry.Prelude.Maps.{str_dec}
use ferrum_foundry.Prelude.Json.{object, lookup}
use ferrum_foundry.ToolPolicy.{
  assign, normalize_tool_policy, McpToolPolicyEntry, with_groups, parse_tool_policy, to_action,
  texts, of_texts, group_list, is_allow, action_name, McpToolAction, allow, deny,
  hide_from_discovery,
}

texts-of_texts : (ss : List String) → texts (of_texts ss) ≡ ss
unfolding texts of_texts
texts-of_texts [] = refl
texts-of_texts (s ∷ ss) = ap (◌∷◌ s) (texts-of_texts ss)

-- The groups that a written list gives back: an empty list is not written.
abbrev pub filled : Option (List String) → Option (List String)
filled none = none
filled (some []) = none
filled (some (g ∷ gs)) = some (g ∷ gs)

-- What an entry means: groups only with `allow`, and no empty list.
abbrev pub canonical : McpToolPolicyEntry → McpToolPolicyEntry
canonical e = record {
  action = e.action;
  allowed_groups = if is_allow e.action then filled e.allowed_groups else none;
  denied_groups = if is_allow e.action then filled e.denied_groups else none;
}

abbrev entry : McpToolAction → Option (List String) → Option (List String) → McpToolPolicyEntry
entry action allowed denied = record {
  action = action;
  allowed_groups = allowed;
  denied_groups = denied;
}

abbrev RoundTrip : McpToolPolicyEntry → Type 0
RoundTrip e = parse_tool_policy (some (object (normalize_tool_policy e))) ≡ some (canonical e)

roundtrip :
    (action : McpToolAction) (allowed denied : Option (List String))
    → RoundTrip (entry action allowed denied)
unfolding parse_tool_policy normalize_tool_policy to_action with_groups group_list is_allow
    action_name assign lookup str_dec of_texts texts
roundtrip deny allowed denied = refl
roundtrip hide_from_discovery allowed denied = refl
roundtrip allow none none = refl
roundtrip allow none (some []) = refl
roundtrip allow (some []) none = refl
roundtrip allow (some []) (some []) = refl
roundtrip allow none (some (g ∷ gs)) =
    ap (λ t. some (entry allow none (some (g ∷ t)))) (texts-of_texts gs)
roundtrip allow (some []) (some (g ∷ gs)) =
    ap (λ t. some (entry allow none (some (g ∷ t)))) (texts-of_texts gs)
roundtrip allow (some (g ∷ gs)) none =
    ap (λ t. some (entry allow (some (g ∷ t)) none)) (texts-of_texts gs)
roundtrip allow (some (g ∷ gs)) (some []) =
    ap (λ t. some (entry allow (some (g ∷ t)) none)) (texts-of_texts gs)
roundtrip allow (some (g ∷ gs)) (some (k ∷ ks)) =
    ap (λ t. some (entry allow (some (g ∷ t)) (some (k ∷ texts (of_texts ks))))) (texts-of_texts gs)
    ∙ ap (λ t. some (entry allow (some (g ∷ gs)) (some (k ∷ t)))) (texts-of_texts ks)

-- An entry that is written and parsed again keeps its meaning.
pub parse-normalize :
    (e : McpToolPolicyEntry)
    → parse_tool_policy (some (object (normalize_tool_policy e))) ≡ some (canonical e)
parse-normalize e = roundtrip e.action e.allowed_groups e.denied_groups
