-- ===== src/Policy/Tests.antt =====
-- A proxy behind key_auth and access_control, with a shadowed global limiter.
use mathlib.Core.List.{Permᴰ}
use text.Mathlib.Text.{is_le}
use Prim.Native.String.{compare}
use ferrum_foundry.Prelude.{
  String, Bool, true, false, not, ◌&&◌, List, [], ◌∷◌, none, some, ◌≡◌, refl, any, All, max,
}
use ferrum_foundry.Prelude.Maps.{str_dec}
use ferrum_foundry.Prelude.Json.{
  Json, Fields, array, nil, cons, string, field, empty, lookup, to_list,
}
use ferrum_foundry.Policy.{
  PluginConfig, Proxy, Consumer, PluginScope, global, proxy_group, includes,
}
use ferrum_foundry.Policy.Attachment.{EffectivePlugin, effective_plugins_for_proxy}
use ferrum_foundry.Policy.Access.{
  is_empty, unidentified_access, is_unmodelled_plugin, is_auth_plugin, is_access_control,
  is_triggered, soap_establishes_identity, acl_decision, string_list, strings,
}
use ferrum_foundry.Policy.Resolve.{
  is_unobservable, analysis_reasons, resolve_consumer_access, is_external, priority_indeterminate,
  analyze_plugins, is_denial,
}
use ferrum_foundry.Policy.Attached.{runs, any-effective_plugins}
use ferrum_foundry.Policy.Decisions.{refuses, acl_decision-denied, is_unsure}
use ferrum_foundry.Policy.Order.{strictness, keeps_out, resolve_consumer_access_order}
use ferrum_foundry.Policy.Analysis.{analyze-definitive, analyze-problems}

abbrev names : String → Json
names s = array (cons (string s) nil)

abbrev plugin : String → String → PluginScope → Fields → PluginConfig
plugin id name scope config = record {
  id = id;
  plugin_name = name;
  config = config;
  scope = scope;
  proxy_id = none;
  enabled = true;
  priority_override = some 10;
  trigger = none;
  updated_at = "2026-01-01T00:00:00Z";
}

abbrev key : PluginConfig
key = plugin "k" "key_auth" global empty

abbrev acl : PluginConfig
acl = plugin "a" "access_control" proxy_group (field "disallowed_groups" (names "blocked") empty)

abbrev limit : PluginConfig
limit = plugin "g" "rate_limiting" global empty

abbrev group_limit : PluginConfig
group_limit = plugin "s" "rate_limiting" proxy_group empty

abbrev configs : List PluginConfig
configs = key ∷ acl ∷ limit ∷ group_limit ∷ []

abbrev api : Proxy
api = record { id = "api"; plugins = some ("a" ∷ "s" ∷ []); backend_scheme = none }

abbrev carol : Consumer
carol = record {
  username = "carol";
  credentials = some (field "keyauth" (names "secret") empty);
  acl_groups = some ("blocked" ∷ []);
}

abbrev dave : Consumer
dave = record carol { username = "dave"; acl_groups = none }

abbrev effective : PluginConfig → EffectivePlugin
effective c = record { plugin = c; effective_source = c.scope }

abbrev running : List EffectivePlugin
running = effective acl ∷ effective key ∷ effective group_limit ∷ []

abbrev locale_le : String → String → Bool
locale_le a b = is_le (compare a b)

any-effective_plugins_example :
    any (λ e. includes ("g" ∷ []) e.plugin.id) (effective_plugins_for_proxy locale_le api configs)
    ≡ any (λ c. runs api configs c && includes ("g" ∷ []) c.id) configs
unfolding includes str_dec
any-effective_plugins_example =
    any-effective_plugins locale_le api configs (λ c. includes ("g" ∷ []) c.id)
      (refl, (refl, (refl, (refl, tt))))

acl_decision-denied_example :
    (acl_decision carol (effective acl ∷ [])).is_denied
    ≡ any (λ e. not (is_triggered e) && refuses carol e.plugin) (effective acl ∷ [])
unfolding string_list strings lookup to_list includes str_dec
acl_decision-denied_example = acl_decision-denied carol (effective acl ∷ []) (refl, tt)

abbrev custom : EffectivePlugin
custom = effective (plugin "c" "own_login" global empty)

abbrev reordered : List EffectivePlugin
reordered = effective key ∷ custom ∷ effective acl ∷ []

resolve_consumer_access_order_example :
    ((resolve_consumer_access running dave).decision
      ≡ (resolve_consumer_access reordered dave).decision)
    × (strictness (resolve_consumer_access (effective acl ∷ running) dave).decision
        ≡ max
            (keeps_out dave (effective acl))
            (strictness (resolve_consumer_access running dave).decision))
unfolding is_auth_plugin is_access_control includes str_dec string_list strings lookup to_list
    soap_establishes_identity
resolve_consumer_access_order_example =
    resolve_consumer_access_order dave (effective acl) running reordered refl refl
      (refl, (refl, (refl, (refl, tt)))) (Permᴰ.swap refl refl)

analyze-definitive_example :
    All (λ a. is_unsure a.decision ≡ false) (analyze_plugins running (carol ∷ dave ∷ [])).consumers
unfolding analyze_plugins is_empty analysis_reasons is_auth_plugin includes str_dec is_unobservable
    is_triggered is_external priority_indeterminate
analyze-definitive_example = analyze-definitive running (carol ∷ dave ∷ []) refl

analyze-problems_example :
    All
      (λ a. is_denial a.decision ≡ true)
      (analyze_plugins (effective acl ∷ []) (carol ∷ dave ∷ [])).consumers
unfolding analyze_plugins is_empty is_auth_plugin includes str_dec is_denial unidentified_access
    is_unmodelled_plugin is_access_control is_triggered
analyze-problems_example = analyze-problems (effective acl ∷ []) (carol ∷ dave ∷ []) refl
