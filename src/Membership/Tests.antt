-- ===== src/Membership/Tests.antt =====
-- A gateway with one plugin and one proxy, on which each plan runs.
use ferrum_foundry.Prelude.{String, Bool, true, [], ◌∷◌, none, some, ◌≡◌, refl, ◌⊎◌, sym, ap}
use ferrum_foundry.Prelude.Json.{Fields, sort, insert}
use ferrum_foundry.Prelude.Maps.{str_dec}
use ferrum_foundry.Policy.{proxy_group, includes}
use ferrum_foundry.Policy.Attachment.{unique_after}
use ferrum_foundry.Membership.{
  ProxyRead, PluginRead, answered, put_proxy, Gateway, State, ◌>>=◌, ◌>>◌, attempt, read, send,
  pure, Outcome, failed,
}
use ferrum_foundry.Membership.Checks.{
  references_plugin, lists_plugin, listed, is_id, to_update_payload,
}
use ferrum_foundry.Membership.Steps.{get_plugin_if_present, same_text, apply_association_plan}
use ferrum_foundry.Membership.Rollback.{
  rollback_associations, rollback_order, rollback_all, rollback_association, restore_association,
}
use ferrum_foundry.Membership.Plans.{update_plugin_with_membership}
use ferrum_foundry.Membership.Deletes.{delete_plugin_with_membership}
use ferrum_foundry.Membership.Sends.{Sends}
use ferrum_foundry.Membership.Compensation.{Attaches, rollback_associations-Attaches}
use ferrum_foundry.Membership.Saves.{Replaces, update_plugin-Replaces}
use ferrum_foundry.Membership.Ordering.{Ordered, apply_association_plan-Ordered}
use ferrum_foundry.Membership.Deletion.{Safe, delete_plugin-Safe}

abbrev plugin : PluginRead
plugin = record {
  id = "limit";
  updated_at = "1";
  payload = record { scope = proxy_group; proxy_id = none; content = Fields.empty };
}

abbrev shop : ProxyRead
shop = record {
  id = "shop";
  updated_at = "7";
  plugins = some ("limit" ∷ []);
  content = Fields.empty;
}

abbrev bare_shop : ProxyRead
bare_shop = record { id = "shop"; updated_at = "8"; plugins = some []; content = Fields.empty }

-- Every read answers the same, and every write succeeds.
abbrev still : Gateway (Unit {0})
still = record {
  list_proxies = λ w. (answered (shop ∷ []), w);
  get_proxy = λ _ w. (answered bare_shop, w);
  update_proxy = λ _ _ _ w. (answered shop, w);
  get_plugin = λ _ w. (answered plugin, w);
  create_plugin = λ _ w. (answered plugin, w);
  update_plugin = λ _ _ _ _ w. (answered plugin, w);
  delete_plugin = λ _ _ _ w. (answered tt, w);
  can_condition = λ _. true;
  blocking = λ _. [];
}

abbrev start : State (Unit {0})
start = record { world = tt; sent = [] }

abbrev is_empty : String → Bool
is_empty s = includes ("" ∷ []) s

-- A proxy that lost the plugin is written back with it.
restored :
    (rollback_associations still
      (record { before = shop; after = bare_shop } ∷ [])
      "limit"
      start).1.sent
    ≡ put_proxy "shop" (record { plugins = some ("limit" ∷ []); content = Fields.empty }) bare_shop
      ∷ []
unfolding rollback_associations rollback_order rollback_all rollback_association restore_association
    ◌>>=◌ read send attempt pure get_plugin_if_present sort insert references_plugin lists_plugin
    listed is_id includes str_dec same_text ◌>>◌ to_update_payload
restored = refl

rollback_associations-Attaches_example :
    Sends
      (Attaches "limit")
      (rollback_associations still (record { before = shop; after = bare_shop } ∷ []) "limit")
rollback_associations-Attaches_example =
    rollback_associations-Attaches still "limit" (record { before = shop; after = bare_shop } ∷ [])

update_plugin-Replaces_example : Sends Replaces (
    update_plugin_with_membership still is_empty "limit" plugin.payload
      ("shop" ∷ [])
      none
      ("shop" ∷ []))
update_plugin-Replaces_example =
    update_plugin-Replaces still is_empty "limit" plugin.payload ("shop" ∷ []) none ("shop" ∷ [])

delete_plugin-Safe_example :
    let after = (delete_plugin_with_membership still "limit" none ("shop" ∷ []) start).1.sent in
    (after ≡ []) ⊎ Safe still "limit" none (unique_after [] ("shop" ∷ [])) start after
delete_plugin-Safe_example = delete_plugin-Safe still "limit" none ("shop" ∷ []) start

-- the same gateway, with a proxy under every id
abbrev known : Gateway (Unit {0})
known = record still { get_proxy = λ id w. (answered (record bare_shop { id = id }), w) }

abbrev id_of : String → Outcome ProxyRead → String
id_of other (answered p) = p.id
id_of other (failed e) = other

known_answers :
    (id : String) (w : Unit {0}) (p : ProxyRead) → (known.get_proxy id w).0 ≡ answered p → p.id ≡ id
known_answers id w p e = sym (ap (id_of id) e)

apply_association_plan-Ordered_example :
    Ordered "limit" start
      (apply_association_plan known (bare_shop ∷ shop ∷ []) "limit" ("shop" ∷ []) start).1
apply_association_plan-Ordered_example =
    apply_association_plan-Ordered known "limit" ("shop" ∷ []) known_answers (bare_shop ∷ shop ∷ [])
      start
