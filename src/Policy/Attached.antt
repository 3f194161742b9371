-- ===== src/Policy/Attached.antt =====
-- Which plugins run for a proxy, without the index, the loops and the order.
use ferrum_foundry.Prelude.{
  String, Bool, not, ◌&&◌, ◌||◌, List, [], ◌∷◌, ◌++◌, map, keep, any, ◌≡◌, refl, arith, ◌∙◌, ap,
}
use ferrum_foundry.Prelude.Maps.{str_dec}
use ferrum_foundry.Policy.{PluginConfig, Proxy, includes}
use ferrum_foundry.Policy.Protocols.{plugin_applies_to_proxy}
use ferrum_foundry.Policy.Attachment.{
  EffectivePlugin, PluginAttachmentIndex, is_global, build_plugin_attachment_index, shadows_global,
  is_eligible, associated, scoped_of, shadowed_by, attached_plugins_for_proxy,
  effective_plugins_for_proxy, runs_before,
}
use ferrum_foundry.Prelude.Anys.{any-append, any-keep, any-map, any-cong, any-or}
use ferrum_foundry.Policy.Lookup.{
  any-sort, any-attached, is_scoped, DistinctIds, named, globals-index_all,
}

includes-shadowed_by :
    (p : Proxy) (ss : List PluginConfig) (name : String)
    → includes (shadowed_by p ss) name
      ≡ any (λ s. shadows_global s p && includes (s.plugin_name ∷ []) name) ss
unfolding shadowed_by includes
includes-shadowed_by p [] name = refl
includes-shadowed_by p (s ∷ ss) name =
    ground (arith, includes-shadowed_by p ss name, str_dec s.plugin_name name)

-- A proxy- or group-scoped configuration attaches where it is enabled, the proxy's own list names
-- it, and its proxy_id allows it.
abbrev pub attaches : Proxy → PluginConfig → Bool
attaches p c = is_scoped c && (includes (named p) c.id && is_eligible c p)

-- A global one is shadowed by an attached one of its name, unless that is additive.
abbrev pub is_shadowed : Proxy → List PluginConfig → PluginConfig → Bool
is_shadowed p cs g =
    any (λ s. attaches p s && (shadows_global s p && includes (s.plugin_name ∷ []) g.plugin_name))
      cs

abbrev pub runs : Proxy → List PluginConfig → PluginConfig → Bool
runs p cs c =
    plugin_applies_to_proxy c p
    && (attaches p c || ((c.enabled && is_global c.scope) && not (is_shadowed p cs c)))

module _ (p : Proxy) (cs : List PluginConfig) (d : DistinctIds cs) where
  abbrev index : PluginAttachmentIndex
  index = build_plugin_attachment_index cs

  abbrev scoped : List PluginConfig
  scoped = scoped_of p index.by_id (associated p)

  includes-shadowed :
      (name : PluginConfig)
      → includes (shadowed_by p scoped) name.plugin_name ≡ is_shadowed p cs name
  includes-shadowed g =
      let q =
        λ (s : PluginConfig). shadows_global s p && includes (s.plugin_name ∷ []) g.plugin_name in
      includes-shadowed_by p scoped g.plugin_name
      ∙ any-attached p q cs d
      ∙ any-cong (λ c. is_scoped c && (includes (named p) c.id && (is_eligible c p && q c)))
          (λ c. attaches p c && q c) cs (λ c. ground arith)

  any-globals :
      (q : PluginConfig → Bool)
      → any q (keep (λ g. not (includes (shadowed_by p scoped) g.plugin_name)) index.globals)
        ≡ any (λ c. (c.enabled && is_global c.scope) && (not (is_shadowed p cs c) && q c)) cs
  unfolding build_plugin_attachment_index
  any-globals q =
      let kept = λ (g : PluginConfig). not (includes (shadowed_by p scoped) g.plugin_name) in
      any-keep q kept index.globals
      ∙ globals-index_all (λ g. kept g && q g) cs (record { globals = []; by_id = [] })
      ∙ any-cong (λ c. (c.enabled && is_global c.scope) && (kept c && q c))
          (λ c. (c.enabled && is_global c.scope) && (not (is_shadowed p cs c) && q c)) cs
          (λ c. ground (arith, includes-shadowed c))

  any-attached_plugins :
      (locale_le : String → String → Bool) (q : PluginConfig → Bool)
      → any (λ e. q e.plugin) (attached_plugins_for_proxy locale_le p index)
        ≡ any
            (λ c.
              (attaches p c || ((c.enabled && is_global c.scope) && not (is_shadowed p cs c)))
              && q c)
            cs
  unfolding attached_plugins_for_proxy
  any-attached_plugins locale_le q =
      let f : PluginConfig → EffectivePlugin =
        λ c. record { plugin = c; effective_source = c.scope } in
      let kept = keep (λ g. not (includes (shadowed_by p scoped) g.plugin_name)) index.globals in
      any-sort (runs_before locale_le) (λ e. q e.plugin) (map f (kept ++ scoped))
      ∙ any-map (λ e. q e.plugin) f (kept ++ scoped)
      ∙ any-append q kept scoped
      ∙ ap (λ b. b || any q scoped) (any-globals q)
      ∙ ap
          (λ b.
            any (λ c. (c.enabled && is_global c.scope) && (not (is_shadowed p cs c) && q c)) cs
            || b)
          (any-attached p q cs d)
      ∙ any-or (λ c. (c.enabled && is_global c.scope) && (not (is_shadowed p cs c) && q c))
          (λ c. is_scoped c && (includes (named p) c.id && (is_eligible c p && q c)))
          (λ c.
            (attaches p c || ((c.enabled && is_global c.scope) && not (is_shadowed p cs c))) && q c)
          cs (λ c. ground arith)

-- The plugins that run for a proxy are exactly those of the collection that apply to its protocol
-- and either attach to it or are global, enabled and not shadowed: any test holds of some plugin
-- that runs if and only if it holds of some such configuration. The configurations have distinct
-- ids.
pub any-effective_plugins :
    (locale_le : String → String → Bool) (p : Proxy) (cs : List PluginConfig)
    (q : PluginConfig → Bool)
    → DistinctIds cs
    → any (λ e. q e.plugin) (effective_plugins_for_proxy locale_le p cs)
      ≡ any (λ c. runs p cs c && q c) cs
unfolding effective_plugins_for_proxy
any-effective_plugins locale_le p cs q d =
    any-keep (λ e. q e.plugin) (λ e. plugin_applies_to_proxy e.plugin p)
      (attached_plugins_for_proxy locale_le p (build_plugin_attachment_index cs))
    ∙ any-attached_plugins p cs d locale_le (λ c. plugin_applies_to_proxy c p && q c)
    ∙ any-cong
        (λ c.
          (attaches p c || ((c.enabled && is_global c.scope) && not (is_shadowed p cs c)))
          && (plugin_applies_to_proxy c p && q c))
        (λ c. runs p cs c && q c) cs (λ c. ground arith)
