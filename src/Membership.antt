-- ===== src/Membership.antt =====
-- src/lib/pluginMembership.ts: the plans that write a plugin and the proxies that list it. A plan is
-- a function of the world around it, which answers each request and may change in between; it keeps
-- the list of the writes it sent. A thrown error is a value that carries what its text names.
pub mod Checks
pub mod Steps
pub mod Rollback
pub mod Plans
pub mod Deletes
pub mod Sends
pub mod Compensation
pub mod Associations
pub mod Saves
pub mod Deletion
pub mod Ordering
mod Tests
use ferrum_foundry.Prelude.{String, Bool, true, false, List, [], ◌∷◌, ◌++◌, Option, none, some}
use ferrum_foundry.Prelude.Json.{Fields}
use ferrum_foundry.Policy.{PluginScope}

-- A proxy as it is read; `content` is every field that a payload repeats unchanged.
pub record ProxyRead : Type 0 where
  pub id : String
  pub updated_at : String
  pub plugins : Option (List String)
  pub content : Fields

pub record ProxyPayload : Type 0 where
  pub plugins : Option (List String)
  pub content : Fields

pub record PluginData : Type 0 where
  pub scope : PluginScope
  pub proxy_id : Option String
  pub content : Fields

pub record PluginRead : Type 0 where
  pub id : String
  pub updated_at : String
  pub payload : PluginData

-- What the plans ask of an error of the gateway client.
pub record GatewayError : Type 0 where
  pub is_not_found : Bool
  pub is_precondition_failed : Bool
  pub is_committed : Bool

pub data Operation : Type 0 where
  save delete : Operation

-- A PluginMembershipError without a recovery report.
pub data Refusal : Type 0 where
  group_needs_proxy proxy_needs_target target_without_proxy_scope : Refusal
  members_without_group duplicate_or_blank : Refusal
  unknown_proxies : List String → Refusal
  proxy_changed plugin_changed attaching_changed detaching_changed : String → Refusal

pub data Outcome (A : Type 0) : Type 0 where
  answered : A → Outcome A
  failed : GatewayError → Outcome A

-- The lines of a recovery report; the message of an error that one of them quotes is left out.
pub data Detail : Type 0 where
  plugin_exists : PluginScope → Detail
  plugin_missing plugin_unverified references_unverified : Detail
  references were_members were_detached hidden_fields unaccounted : List String → Detail
  left_attached overwritten_proxy not_reattached not_listed created_kept check_lists :
      String → Detail
  proxy_rollback_failed : String → Detail
  not_restored_missing overwritten_plugin plugin_rollback_failed : Detail

pub data Failure : Type 0 where
  gateway : GatewayError → Failure
  refused : Refusal → Failure
  reported : List Detail → Failure
  not_converged deletion_failed : Failure → List Detail → Option PluginData → Failure
  saved_unverified : Failure → List Detail → Option PluginRead → Bool → Failure
  membership_changed : Operation → List String → Failure
  stale : Operation → Failure
  unverifiable : Failure

pub data Write : Type 0 where
  put_proxy : String → ProxyPayload → ProxyRead → Write
  post_plugin : PluginData → Write
  put_plugin : String → PluginData → PluginRead → List String → Write
  delete_plugin : String → PluginRead → List String → Write

-- PluginMembershipDependencies. `blocking` is what pluginConfigPlaceholderSites answers for the role.
pub record Gateway (W : Type 0) : Type 0 where
  pub list_proxies : W → Outcome (List ProxyRead) × W
  pub get_proxy : String → W → Outcome ProxyRead × W
  pub update_proxy : String → ProxyPayload → ProxyRead → W → Outcome ProxyRead × W
  pub get_plugin : String → W → Outcome PluginRead × W
  pub create_plugin : PluginData → W → Outcome PluginRead × W
  pub update_plugin : String → PluginData → PluginRead → List String → W → Outcome PluginRead × W
  pub delete_plugin : String → PluginRead → List String → W → Outcome (Unit {0}) × W
  pub can_condition : PluginRead → Bool
  pub blocking : PluginRead → List String

pub record State (W : Type 0) : Type 0 where
  pub world : W
  pub sent : List Write

pub data Result (A : Type 0) : Type 0 where
  ok : A → Result A
  err : Failure → Result A

abbrev pub Plan : Type 0 → Type 0 → Type 0
Plan W A = State W → Result A × State W

abbrev pub to_result : {A : Type 0} → Outcome A → Result A
to_result (answered a) = ok a
to_result (failed e) = err (gateway e)

module _ {W : Type 0} where
  unfoldable pub pure : {A : Type 0} → A → Plan W A
  pure a s = (ok a, s)

  unfoldable pub throw : {A : Type 0} → Failure → Plan W A
  throw e s = (err e, s)

  abbrev pub continue : {A B : Type 0} → (A → Plan W B) → Result A × State W → Result B × State W
  continue f (ok a, s) = f a s
  continue f (err e, s) = (err e, s)

  infixl 5 ◌>>=◌ ◌>>◌
  unfoldable pub ◌>>=◌ : {A B : Type 0} → Plan W A → (A → Plan W B) → Plan W B
  (m >>= f) s = continue f (m s)

  unfoldable pub ◌>>◌ : {A B : Type 0} → Plan W A → Plan W B → Plan W B
  (m >> k) s = continue (λ _. k) (m s)

  -- `try`: the result as a value
  unfoldable pub attempt : {A : Type 0} → Plan W A → Plan W (Result A)
  attempt m s = let (r, s') = m s in (ok r, s')

  -- a request that only reads
  unfoldable pub read : {A : Type 0} → (W → Outcome A × W) → Plan W A
  read f s = let (a, w) = f s.world in (to_result a, record s { world = w })

  -- a request that writes
  unfoldable pub send : {A : Type 0} → Write → (W → Outcome A × W) → Plan W A
  send x f s =
      let (a, w) = f s.world in (to_result a, record { world = w; sent = s.sent ++ x ∷ [] })
