-- ===== src/Policy.antt =====
-- The policy analysis of a proxy: the resources that it reads, as src/api/types.ts names them, with
-- the fields that it reads. A priority is a natural number, as the gateway's are.
pub mod Catalog
pub mod Protocols
pub mod Attachment
pub mod Access
pub mod Resolve
pub mod Decisions
pub mod Order
pub mod Analysis
pub mod Lookup
pub mod Attached
mod Tests
use Prim.Native.String.{◌++◌ as ◌++ˢ◌}
use ferrum_foundry.Prelude.{ℕ, String, Bool, true, false, List, [], ◌∷◌, Option, ite, any}
use ferrum_foundry.Prelude.Maps.{str_dec}
use ferrum_foundry.Prelude.Json.{Json, Fields}

pub data BackendScheme : Type 0 where
  http https tcp tcps udp dtls : BackendScheme

pub data PluginScope : Type 0 where
  global proxy proxy_group : PluginScope

pub record PluginConfig : Type 0 where
  pub id : String
  pub plugin_name : String
  pub config : Fields
  pub scope : PluginScope
  pub proxy_id : Option String
  pub enabled : Bool
  pub priority_override : Option ℕ
  pub trigger : Option Json
  pub updated_at : String

-- `plugins` holds the plugin_config_id of each association.
pub record Proxy : Type 0 where
  pub id : String
  pub plugins : Option (List String)
  pub backend_scheme : Option BackendScheme

pub record Consumer : Type 0 where
  pub username : String
  pub credentials : Option Fields
  pub acl_groups : Option (List String)

-- `xs.includes(x)` and `set.has(x)`
unfoldable pub includes : List String → String → Bool
includes [] x = false
includes (y ∷ ys) x = ite (str_dec y x) true (includes ys x)

-- `names.join(", ")`
unfoldable pub join : List String → String
join [] = ""
join (x ∷ []) = x
join (x ∷ y ∷ xs) = x ++ˢ (", " ++ˢ join (y ∷ xs))
