-- ===== src/Policy/Resolve.antt =====
-- src/lib/effectivePolicy.ts: resolveConsumerAccess and analyzeProxyPolicy. The time of the
-- evaluation, which the analysis only repeats, is left out.
use Prim.Native.String.{◌++◌ as ◌++ˢ◌, compare}
use text.Mathlib.Text.{is_le}
use ferrum_foundry.Prelude.{
  String, Bool, true, false, not, ◌&&◌, ◌||◌, List, [], ◌∷◌, ◌++◌, Option, none, some, map,
  if◌then◌else◌, keep, any, length, ltb, last?,
}
use ferrum_foundry.Prelude.Json.{Json, array, cons, lookup, sort}
use ferrum_foundry.Policy.{PluginConfig, Proxy, Consumer, includes, join}
use ferrum_foundry.Policy.Attachment.{EffectivePlugin, effective_plugins_for_proxy}
use ferrum_foundry.Policy.Access.{
  Access, AccessDecision, allowed, denied, conditional, is_auth_plugin, is_access_control,
  is_triggered, is_unmodelled_plugin, unidentified_access, acl_decision, AclResult, name_of,
  local_auth_credential, external_auth_plugins, unobservable_local_auth, is_empty,
  basic_auth_unknown_reason,
}

-- `Array.isArray(entries) && entries.length > 0`
unfoldable pub is_filled_array : Option Json → Bool
is_filled_array (some (array (cons _ _))) = true
is_filled_array _ = false

unfoldable pub has_credential : Consumer → String → Bool
has_credential c type = elim c.credentials [
  | none ↦ false
  | some fields ↦ is_filled_array (lookup type fields)
]

unfoldable pub matches_local : Consumer → EffectivePlugin → Bool
matches_local c e = elim (local_auth_credential e.plugin.plugin_name) [
  | none ↦ false
  | some credential ↦ has_credential c credential
]

unfoldable pub is_external : EffectivePlugin → Bool
is_external e = includes external_auth_plugins e.plugin.plugin_name

unfoldable pub is_unobservable : EffectivePlugin → Bool
is_unobservable e = includes unobservable_local_auth e.plugin.plugin_name

-- `plugin.priority_override == null`
unfoldable pub has_no_priority : EffectivePlugin → Bool
has_no_priority e = elim e.plugin.priority_override [ none ↦ true | some _ ↦ false ]

unfoldable pub priority_indeterminate : List EffectivePlugin → Bool
priority_indeterminate auth = ltb 1 (length auth) && any has_no_priority auth

abbrev when : Bool → String → List String
when b reason = if b then reason ∷ [] else []

-- What the consumer has against the authentication plugins, past access control.
unfoldable pub resolve_credentials : Consumer → List EffectivePlugin → AclResult → Access
resolve_credentials c auth acl =
    let matching = keep (matches_local c) auth in
    let external = keep is_external auth in
    let unknown = is_empty matching && any is_unobservable auth in
    let triggered = keep is_triggered auth in
    let indeterminate = priority_indeterminate auth in
    if is_empty matching && (is_empty external && not unknown)
    then record {
      decision = denied;
      reasons = "Consumer has no credential for an effective authentication plugin" ∷ [];
    }
    else if unknown
        || (not (is_empty external)
            || (not (is_empty triggered) || (acl.is_conditional || indeterminate)))
    then record {
      decision = conditional;
      reasons =
          acl.reasons
          ++ (when unknown basic_auth_unknown_reason
              ++ (when (not (is_empty external)) (
                    "External identity mapping must be evaluated at request time ("
                    ++ˢ (join (map name_of external) ++ˢ ")"))
                  ++ (when (not (is_empty triggered))
                        "One or more authentication plugins have request-dependent triggers"
                      ++ (when indeterminate
                            "Authentication execution order is not exposed for every plugin instance"
                          ++ when (not (is_empty matching)) (
                              "Consumer has a matching local credential ("
                              ++ˢ (join (map name_of matching) ++ˢ ")"))))));
    }
    else record {
      decision = allowed;
      reasons = acl.reasons ++ ("Matching credential for " ++ˢ join (map name_of matching)) ∷ [];
    }

unfoldable pub resolve_consumer_access : List EffectivePlugin → Consumer → Access
resolve_consumer_access plugins c =
    let auth = keep is_auth_plugin plugins in
    let acl = acl_decision c (keep is_access_control plugins) in
    if is_empty auth
    then unidentified_access plugins
    else if acl.is_denied
    then record { decision = denied; reasons = acl.reasons }
    else resolve_credentials c auth acl

pub record ProxyPolicyAnalysis : Type 0 where
  pub effective_plugins : List EffectivePlugin
  pub auth_plugins : List EffectivePlugin
  pub access_control_plugins : List EffectivePlugin
  pub configuration_problems : List String
  pub consumers : List Access
  pub conditional : Bool
  pub reasons : List String
  pub latest_config_update : Option String

unfoldable pub is_denial : AccessDecision → Bool
is_denial denied = true
is_denial _ = false

unfoldable pub analysis_reasons : List EffectivePlugin → List EffectivePlugin → List String
analysis_reasons plugins auth =
    (if is_empty auth && any is_unmodelled_plugin plugins
      then (unidentified_access plugins).reasons
      else [])
    ++ (when (any is_unobservable auth) basic_auth_unknown_reason
        ++ (when (any is_triggered plugins)
              "Request-dependent plugin triggers make access conditional"
            ++ (when (any is_external auth)
                  "External identities cannot be mapped conclusively from stored consumers"
                ++ when (priority_indeterminate auth)
                    "Authentication execution order is not fully exposed by the admin API")))

-- `filter(Boolean).sort().at(-1)`
unfoldable pub latest_update : List EffectivePlugin → Option String
latest_update plugins = last? (
    sort (λ a b. is_le (compare a b))
      (keep (λ u. not (includes ("" ∷ []) u)) (map (λ e. e.plugin.updated_at) plugins)))

unfoldable pub analyze_plugins : List EffectivePlugin → List Consumer → ProxyPolicyAnalysis
analyze_plugins plugins consumers =
    let auth = keep is_auth_plugin plugins in
    let unidentified = unidentified_access plugins in
    let reasons = analysis_reasons plugins auth in
    record {
      effective_plugins = plugins;
      auth_plugins = auth;
      access_control_plugins = keep is_access_control plugins;
      configuration_problems =
          if is_empty auth && is_denial unidentified.decision then unidentified.reasons else [];
      consumers = map (resolve_consumer_access plugins) consumers;
      conditional = not (is_empty reasons);
      reasons = reasons;
      latest_config_update = latest_update plugins;
    }

unfoldable pub analyze_proxy_policy :
    (String → String → Bool) → Proxy → List PluginConfig → List Consumer → ProxyPolicyAnalysis
analyze_proxy_policy locale_le p configs consumers =
    analyze_plugins (effective_plugins_for_proxy locale_le p configs) consumers
