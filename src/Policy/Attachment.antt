-- ===== src/Policy/Attachment.antt =====
-- src/lib/effectivePolicy.ts: the plugins that run for a proxy. `locale_le a b` stands for
-- `a.localeCompare(b) <= 0`, which the JavaScript runtime defines. The cache of the index, by the
-- identity of the collection, is not modelled: an index is built from its collection.
use Prim.Native.String.{◌++◌ as ◌++ˢ◌}
use ferrum_foundry.Prelude.{
  ℕ, String, Bool, true, false, not, ◌&&◌, ◌||◌, List, [], ◌∷◌, ◌++◌, Option, none, some, ite, map,
  if◌then◌else◌, keep, ltb,
}
use ferrum_foundry.Prelude.Maps.{get, put, str_dec}
use ferrum_foundry.Prelude.Json.{Json, array, boolean, lookup, sort, nil}
use ferrum_foundry.Policy.{PluginScope, global, proxy, proxy_group, PluginConfig, Proxy, includes}
use ferrum_foundry.Policy.Protocols.{plugin_applies_to_proxy}

pub record EffectivePlugin : Type 0 where
  pub plugin : PluginConfig
  pub effective_source : PluginScope

pub record PluginAttachmentIndex : Type 0 where
  pub globals : List PluginConfig
  pub by_id : List (String × PluginConfig)

unfoldable pub is_global : PluginScope → Bool
is_global global = true
is_global _ = false

-- one round of the loop
unfoldable pub index_plugin : PluginConfig → PluginAttachmentIndex → PluginAttachmentIndex
index_plugin plugin index =
    if not plugin.enabled
    then index
    else if is_global plugin.scope
    then record index { globals = index.globals ++ plugin ∷ [] }
    else record index { by_id = put plugin.id plugin index.by_id }

unfoldable pub index_all : List PluginConfig → PluginAttachmentIndex → PluginAttachmentIndex
index_all [] index = index
index_all (p ∷ ps) index = index_all ps (index_plugin p index)

unfoldable pub build_plugin_attachment_index : List PluginConfig → PluginAttachmentIndex
build_plugin_attachment_index ps = index_all ps (record { globals = []; by_id = [] })

-- `priority(plugin)`, with Number.MAX_SAFE_INTEGER
unfoldable pub priority : PluginConfig → ℕ
priority plugin = elim plugin.priority_override [ none ↦ 9007199254740991 | some p ↦ p ]

abbrev pub additive_plugin_names : List String
additive_plugin_names = "request_size_limiting" ∷ "response_size_limiting" ∷ []

unfoldable pub route_transform_prefix : String → Option String
route_transform_prefix plugin_name =
    if includes ("request_transformer" ∷ []) plugin_name
    then some "istio-vs-req-xform-"
    else if includes ("response_transformer" ∷ []) plugin_name
    then some "istio-vs-resp-xform-"
    else none

-- `Array.isArray(rules) && rules.length === 0`
unfoldable pub is_empty_array : Option Json → Bool
is_empty_array (some (array nil)) = true
is_empty_array _ = false

unfoldable pub is_json_true : Option Json → Bool
is_json_true (some (boolean true)) = true
is_json_true _ = false

-- `a === b`, where a may be undefined or null
unfoldable pub is_text : Option String → String → Bool
is_text none s = false
is_text (some t) s = ite (str_dec t s) true false

unfoldable pub is_proxy_scope : PluginScope → Bool
is_proxy_scope proxy = true
is_proxy_scope _ = false

unfoldable pub is_istio_route_transform_consumer : PluginConfig → Proxy → Bool
is_istio_route_transform_consumer plugin p =
    if not (is_proxy_scope plugin.scope) || not (is_text plugin.proxy_id p.id)
    then false
    else elim (route_transform_prefix plugin.plugin_name) [
      | none ↦ false
      | some prefix ↦
          if not (is_text (some plugin.id) (prefix ++ˢ p.id))
          then false
          else is_empty_array (lookup "rules" plugin.config)
            && is_json_true (lookup "apply_route_overrides" plugin.config)
    ]

unfoldable pub shadows_global : PluginConfig → Proxy → Bool
shadows_global plugin p =
    if includes additive_plugin_names plugin.plugin_name
    then false
    else not (is_istio_route_transform_consumer plugin p)

unfoldable pub is_some : Option String → Bool
is_some none = false
is_some (some _) = true

-- the two `continue`s on the scope
unfoldable pub is_eligible : PluginConfig → Proxy → Bool
is_eligible plugin p = elim plugin.scope [
  | global ↦ true
  | proxy ↦ is_text plugin.proxy_id p.id
  | proxy_group ↦ not (is_some plugin.proxy_id)
]

-- `new Set(ids)`, in insertion order
unfoldable pub unique_after : List String → List String → List String
unique_after seen [] = []
unique_after seen (x ∷ xs) =
    let rest = unique_after (x ∷ seen) xs in if includes seen x then rest else x ∷ rest

unfoldable pub associated : Proxy → List String
associated p = elim p.plugins [ none ↦ [] | some xs ↦ unique_after [] xs ]

-- the loop over the associations: the scoped configurations that attach
unfoldable pub scoped_of : Proxy → List (String × PluginConfig) → List String → List PluginConfig
scoped_of p by_id [] = []
scoped_of p by_id (id ∷ xs) =
    let rest = scoped_of p by_id xs in
    elim (get id by_id) [
      | none ↦ rest
      | some plugin ↦ if is_eligible plugin p then plugin ∷ rest else rest
    ]

-- and the names that they shadow
unfoldable pub shadowed_by : Proxy → List PluginConfig → List String
shadowed_by p [] = []
shadowed_by p (s ∷ ss) =
    let rest = shadowed_by p ss in if shadows_global s p then s.plugin_name ∷ rest else rest

module _ (locale_le : String → String → Bool) where
  -- the comparison by which they are sorted is not above 0
  unfoldable pub runs_before : EffectivePlugin → EffectivePlugin → Bool
  runs_before l r =
      if ltb (priority l.plugin) (priority r.plugin)
      then true
      else if ltb (priority r.plugin) (priority l.plugin)
      then false
      else locale_le l.plugin.id r.plugin.id

  unfoldable pub attached_plugins_for_proxy : Proxy → PluginAttachmentIndex → List EffectivePlugin
  attached_plugins_for_proxy p index =
      let scoped = scoped_of p index.by_id (associated p) in
      let shadowed = shadowed_by p scoped in
      let globals = keep (λ g. not (includes shadowed g.plugin_name)) index.globals in
      sort runs_before (
        map (λ plugin. record { plugin = plugin; effective_source = plugin.scope })
          (globals ++ scoped))

  unfoldable pub effective_plugins_for_proxy : Proxy → List PluginConfig → List EffectivePlugin
  effective_plugins_for_proxy p configs =
      keep (λ e. plugin_applies_to_proxy e.plugin p)
        (attached_plugins_for_proxy p (build_plugin_attachment_index configs))

  unfoldable pub inapplicable_plugins_for_proxy : Proxy → List PluginConfig → List EffectivePlugin
  inapplicable_plugins_for_proxy p configs =
      keep (λ e. not (plugin_applies_to_proxy e.plugin p))
        (attached_plugins_for_proxy p (build_plugin_attachment_index configs))
