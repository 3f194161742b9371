-- ===== src/Policy/Access.antt =====
-- src/lib/effectivePolicy.ts: who may reach a proxy: identity, access control and credentials.
use Prim.Native.String.{◌++◌ as ◌++ˢ◌}
use ferrum_foundry.Prelude.{
  String, Bool, true, false, not, ◌&&◌, ◌||◌, List, [], ◌∷◌, ◌++◌, Option, none, some, map,
  if◌then◌else◌, keep, any,
}
use ferrum_foundry.Prelude.Json.{
  null, Json, Fields, array, boolean, object, string, lookup, to_list,
}
use ferrum_foundry.Policy.{PluginConfig, Consumer, includes, join}
use ferrum_foundry.Policy.Catalog.{plugin_metadata}
use ferrum_foundry.Policy.Attachment.{EffectivePlugin}

-- LOCAL_AUTH_CREDENTIALS: the plugin's name and the credential that it checks
unfoldable pub local_auth_credential : String → Option String
local_auth_credential name =
    if includes ("key_auth" ∷ []) name
    then some "keyauth"
    else if includes ("jwt_auth" ∷ []) name
    then some "jwt"
    else if includes ("hmac_auth" ∷ []) name
    then some "hmac_auth"
    else if includes ("mtls_auth" ∷ []) name
    then some "mtls_auth"
    else none

-- What `name in LOCAL_AUTH_CREDENTIALS` finds: the table's names, and those that every object
-- literal inherits.
abbrev pub local_auth_names : List String
local_auth_names =
    "key_auth" ∷ "jwt_auth" ∷ "hmac_auth" ∷ "mtls_auth" ∷ "constructor" ∷ "hasOwnProperty"
    ∷ "isPrototypeOf" ∷ "propertyIsEnumerable" ∷ "toLocaleString" ∷ "toString" ∷ "valueOf"
    ∷ "__proto__" ∷ "__defineGetter__" ∷ "__defineSetter__" ∷ "__lookupGetter__"
    ∷ "__lookupSetter__" ∷ []

abbrev pub unobservable_local_auth : List String
unobservable_local_auth = "basic_auth" ∷ []

abbrev pub basic_auth_unknown_reason : String
basic_auth_unknown_reason =
    "Basic-auth credential presence is unknown: ordinary Consumer responses omit basicauth"

abbrev pub external_auth_plugins : List String
external_auth_plugins =
    "jwks_auth" ∷ "oauth2_introspection" ∷ "oidc_relying_party" ∷ "ldap_auth" ∷ "spiffe_identity"
    ∷ "soap_ws_security" ∷ []

-- An object whose `enabled` is not false. An array is an object without that field.
unfoldable pub is_enabled_object : Option Json → Bool
is_enabled_object (some (object fs)) = elim (lookup "enabled" fs) [
  | none ↦ true
  | some v ↦ elim v [ boolean b ↦ b | _ ↦ true ]
]
is_enabled_object (some (array _)) = true
is_enabled_object _ = false

unfoldable pub soap_establishes_identity : PluginConfig → Bool
soap_establishes_identity plugin =
    if not (includes ("soap_ws_security" ∷ []) plugin.plugin_name)
    then true
    else any (λ key. is_enabled_object (lookup key plugin.config))
        ("username_token" ∷ "x509_signature" ∷ "saml" ∷ [])

unfoldable pub is_auth_plugin : EffectivePlugin → Bool
is_auth_plugin e =
    if includes unobservable_local_auth e.plugin.plugin_name
    then true
    else if includes local_auth_names e.plugin.plugin_name
    then true
    else includes external_auth_plugins e.plugin.plugin_name && soap_establishes_identity e.plugin

unfoldable pub is_unmodelled_plugin : EffectivePlugin → Bool
is_unmodelled_plugin e = not (includes plugin_metadata e.plugin.plugin_name)

unfoldable pub is_access_control : EffectivePlugin → Bool
is_access_control e = includes ("access_control" ∷ []) e.plugin.plugin_name

-- `value != null`
abbrev pub is_present : Option Json → Bool
is_present none = false
is_present (some null) = false
is_present (some _) = true

unfoldable pub is_triggered : EffectivePlugin → Bool
is_triggered e = is_present e.plugin.trigger

unfoldable pub name_of : EffectivePlugin → String
name_of e = e.plugin.plugin_name

abbrev pub unidentified_acl_reason : String
unidentified_acl_reason =
    "rejects every request with 401: access_control requires an identified consumer or authenticated identity, and no effective plugin establishes one"

pub data AccessDecision : Type 0 where
  public allowed denied conditional : AccessDecision

pub record Access : Type 0 where
  pub decision : AccessDecision
  pub reasons : List String

unfoldable pub is_empty : {A : Type 0} → List A → Bool
is_empty [] = true
is_empty (_ ∷ _) = false

unfoldable pub unidentified_access : List EffectivePlugin → Access
unidentified_access plugins =
    let unmodelled = keep is_unmodelled_plugin plugins in
    let acls = keep is_access_control plugins in
    let untriggered = keep (λ e. not (is_triggered e)) acls in
    if not (is_empty unmodelled)
    then record {
      decision = conditional;
      reasons =
          ("Unrecognized plugin(s) may establish an identity that Foundry cannot model ("
            ++ˢ (join (map name_of unmodelled) ++ˢ ")"))
          ∷ [];
    }
    else if not (is_empty untriggered)
    then record {
      decision = denied;
      reasons = map (λ e. e.plugin.id ++ˢ (" " ++ˢ unidentified_acl_reason)) untriggered;
    }
    else if not (is_empty acls)
    then record {
      decision = conditional;
      reasons =
          "Request-dependent access-control trigger rejects the requests it matches with 401 (no effective plugin establishes an identity); other requests are unauthenticated"
          ∷ [];
    }
    else record {
      decision = public;
      reasons = "No recognized effective authentication plugin" ∷ [];
    }

unfoldable pub strings : List Json → List String
strings [] = []
strings (string s ∷ js) = s ∷ strings js
strings (_ ∷ js) = strings js

unfoldable pub string_list : Fields → String → List String
string_list config key = elim (lookup key config) [
  | none ↦ []
  | some v ↦ elim v [ array xs ↦ strings (to_list xs) | _ ↦ [] ]
]

-- `xs.find(p)`
unfoldable pub find : (String → Bool) → List String → Option String
find p [] = none
find p (x ∷ xs) = if p x then some x else find p xs

-- `if (deniedGroup)`: neither undefined nor the empty text
unfoldable pub truthy : Option String → Bool
truthy none = false
truthy (some s) = not (includes ("" ∷ []) s)

unfoldable pub text_of : Option String → String
text_of none = ""
text_of (some s) = s

unfoldable pub groups_of : Consumer → List String
groups_of c = elim c.acl_groups [ none ↦ [] | some gs ↦ gs ]

-- One untriggered access_control plugin: it denies with a reason, or goes on with what it adds.
pub data Verdict : Type 0 where
  denies : String → Verdict
  goes_on : List String → Verdict

unfoldable pub judge : Consumer → PluginConfig → Verdict
judge c plugin =
    let denied_group =
      find (includes (groups_of c)) (string_list plugin.config "disallowed_groups") in
    let allowed_consumers = string_list plugin.config "allowed_consumers" in
    let allowed_groups = string_list plugin.config "allowed_groups" in
    if includes (string_list plugin.config "disallowed_consumers") c.username
    then denies (plugin.id ++ˢ (" explicitly denies consumer " ++ˢ c.username))
    else if truthy denied_group
    then denies (plugin.id ++ˢ (" denies ACL group " ++ˢ text_of denied_group))
    else if not (is_empty allowed_consumers) || not (is_empty allowed_groups)
    then (if not (includes allowed_consumers c.username)
          && not (any (includes (groups_of c)) allowed_groups)
        then denies (plugin.id ++ˢ " has an allow-list that does not match this consumer")
        else goes_on ((plugin.id ++ˢ " allow-list matches") ∷ []))
    else goes_on []

pub record AclResult : Type 0 where
  pub is_denied : Bool
  pub is_conditional : Bool
  pub reasons : List String

-- the loop over the untriggered plugins
unfoldable pub acl_loop : Consumer → Bool → List EffectivePlugin → List String → AclResult
acl_loop c is_conditional [] reasons = record {
  is_denied = false;
  is_conditional = is_conditional;
  reasons =
      if is_conditional
      then reasons ++ "Request-dependent access-control trigger requires runtime evaluation" ∷ []
      else reasons;
}
acl_loop c is_conditional (e ∷ es) reasons = elim (judge c e.plugin) [
  | denies reason ↦ record {
    is_denied = true;
    is_conditional = is_conditional;
    reasons = reason ∷ [];
  }
  | goes_on more ↦ acl_loop c is_conditional es (reasons ++ more)
]

unfoldable pub acl_decision : Consumer → List EffectivePlugin → AclResult
acl_decision c plugins =
    acl_loop c (not (is_empty (keep is_triggered plugins)))
      (keep (λ e. not (is_triggered e)) plugins) []
