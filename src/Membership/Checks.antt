-- ===== src/Membership/Checks.antt =====
-- src/lib/pluginMembership.ts: the checks and the payloads, which send nothing.
use ferrum_foundry.Prelude.{
  String, Bool, true, false, not, ◌&&◌, ◌||◌, List, [], ◌∷◌, ◌++◌, Option, none, some, map,
  if◌then◌else◌, keep, any, length, ◌==◌,
}
use ferrum_foundry.Prelude.Json.{sort}
use ferrum_foundry.Policy.{PluginScope, proxy, proxy_group, includes}
use ferrum_foundry.Policy.Attachment.{unique_after}
use ferrum_foundry.Membership.{
  ProxyRead, ProxyPayload, PluginData, Refusal, group_needs_proxy, proxy_needs_target,
  target_without_proxy_scope, members_without_group,
}

-- `proxiesApi.toUpdatePayload(proxy)`
unfoldable pub to_update_payload : ProxyRead → ProxyPayload
to_update_payload p = record { plugins = p.plugins; content = p.content }

-- `proxy.plugins ?? []`
unfoldable pub listed : Option (List String) → List String
listed none = []
listed (some ids) = ids

-- `association.plugin_config_id === pluginId`
unfoldable pub is_id : String → String → Bool
is_id plugin_id id = includes (plugin_id ∷ []) id

unfoldable pub lists_plugin : Option (List String) → String → Bool
lists_plugin plugins plugin_id = any (is_id plugin_id) (listed plugins)

unfoldable pub references_plugin : ProxyRead → String → Bool
references_plugin p plugin_id = lists_plugin p.plugins plugin_id

unfoldable pub referencing_proxy_ids : List ProxyRead → String → List String
referencing_proxy_ids ps plugin_id = map (λ p. p.id) (keep (λ p. references_plugin p plugin_id) ps)

-- The references outside a set, for assertMembershipUnchanged and unaccountedReferences.
unfoldable pub unexpected : List ProxyRead → String → List String → List String
unexpected ps plugin_id seen =
    keep (λ id. not (includes seen id)) (referencing_proxy_ids ps plugin_id)

unfoldable pub is_none : {A : Type 0} → List A → Bool
is_none [] = true
is_none (_ ∷ _) = false

-- `data.proxy_id` as a condition: neither absent nor empty
unfoldable pub target : Option String → Option String
target none = none
target (some id) = if includes ("" ∷ []) id then none else some id

unfoldable pub has_target : Option String → Bool
has_target id = elim (target id) [ none ↦ false | some _ ↦ true ]

unfoldable pub is_group : PluginScope → Bool
is_group proxy_group = true
is_group _ = false

unfoldable pub is_proxy : PluginScope → Bool
is_proxy proxy = true
is_proxy _ = false

unfoldable pub observed_membership : PluginData → List String → List String
observed_membership d members =
    if is_group d.scope
    then unique_after [] members
    else elim (target d.proxy_id) [ none ↦ [] | some id ↦ if is_proxy d.scope then id ∷ [] else [] ]

unfoldable pub validate_scope : PluginData → List String → Option Refusal
validate_scope d desired =
    if is_group d.scope && is_none desired
    then some group_needs_proxy
    else if is_proxy d.scope && not (has_target d.proxy_id)
    then some proxy_needs_target
    else if not (is_proxy d.scope) && has_target d.proxy_id
    then some target_without_proxy_scope
    else if not (is_group d.scope) && not (is_none desired)
    then some members_without_group
    else none

-- `is_blank id` stands for `!id.trim()`, whose table of blanks the JavaScript runtime has.
unfoldable pub unique_ids : (String → Bool) → List String → Option (List String)
unique_ids is_blank ids =
    let unique = unique_after [] ids in
    if not (length unique == length ids) || any is_blank unique then none else some unique

unfoldable pub desired_associations : Option (List String) → String → Bool → Option (List String)
desired_associations plugins plugin_id should_include =
    let without_plugin = keep (λ id. not (is_id plugin_id id)) (listed plugins) in
    some (if should_include then without_plugin ++ plugin_id ∷ [] else without_plugin)

unfoldable pub association_needs_change : ProxyRead → String → Bool → Bool
association_needs_change p plugin_id should_include =
    let matches = length (keep (is_id plugin_id) (listed p.plugins)) in
    if should_include then not (matches == 1) else not (matches == 0)

-- `Number(first(b)) - Number(first(a))` is not above 0
unfoldable pub puts_first : {A : Type 0} → (A → Bool) → A → A → Bool
puts_first first a b = not (first b) || first a

unfoldable pub changed_proxies : List ProxyRead → String → List String → List ProxyRead
changed_proxies ps plugin_id desired =
    sort (puts_first (λ p. includes desired p.id))
      (keep (λ p. association_needs_change p plugin_id (includes desired p.id)) ps)
