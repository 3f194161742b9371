-- ===== src/Membership/Deletes.antt =====
-- src/lib/pluginMembership.ts: the delete of a plugin.
use ferrum_foundry.Prelude.{String, Bool, not, List, [], Option, none, some, if◌then◌else◌}
use ferrum_foundry.Policy.Attachment.{unique_after}
use ferrum_foundry.Membership.{
  PluginRead, delete, Failure, deletion_failed, unverifiable, delete_plugin, Gateway, ok, err, Plan,
  pure, throw, ◌>>=◌, ◌>>◌, attempt, read, send,
}
use ferrum_foundry.Membership.Steps.{
  is_not_found, is_precondition_failed, is_committed, refuse_when, assert_editor_baseline,
  assert_membership_unchanged, get_plugin_if_present, recovery_state,
}

module _ {W : Type 0} (g : Gateway W) where
  -- where something was written since the read
  unfoldable pub changed_deletion :
      String → Option (PluginRead → Bool) → List String → Failure → Plan W (Unit {0})
  changed_deletion plugin_id guard observed e = do
    l ← attempt (get_plugin_if_present g plugin_id)
    elim l [
      | err _ ↦ pure tt
      | ok o ↦ elim o [ none ↦ pure tt | some p ↦ assert_editor_baseline p guard delete ]
    ]
    r ← attempt (read g.list_proxies)
    elim r [ err _ ↦ pure tt | ok ps ↦ assert_membership_unchanged ps plugin_id observed delete ]
    state ← recovery_state g plugin_id
    throw (deletion_failed e state none)

  -- the `catch` of deletePluginWithMembership
  unfoldable pub explain_failed_delete :
      String → PluginRead → Option (PluginRead → Bool) → List String → Failure → Plan W (Unit {0})
  explain_failed_delete plugin_id plugin guard observed e =
      if is_not_found e
      then pure tt
      else if is_committed e
      then throw e
      else if is_precondition_failed e
      then changed_deletion plugin_id guard observed e
      else do
        state ← recovery_state g plugin_id
        throw (deletion_failed e state (some plugin.payload))

  -- the `try` of deletePluginWithMembership
  unfoldable pub request_delete :
      String → PluginRead → Option (PluginRead → Bool) → List String → Plan W (Unit {0})
  request_delete plugin_id plugin guard observed = do
    r ←
        attempt (
          send (delete_plugin plugin_id plugin observed)
            (g.delete_plugin plugin_id plugin observed))
    elim r [ ok _ ↦ pure tt | err e ↦ explain_failed_delete plugin_id plugin guard observed e ]

  unfoldable pub delete_plugin_with_membership :
      String → Option (PluginRead → Bool) → List String → Plan W (Unit {0})
  delete_plugin_with_membership plugin_id guard observed_proxy_ids = do
    let observed = unique_after [] observed_proxy_ids
    plugin ← read (g.get_plugin plugin_id)
    refuse_when (not (g.can_condition plugin)) unverifiable
    assert_editor_baseline plugin guard delete
    ps ← read g.list_proxies
    assert_membership_unchanged ps plugin_id observed delete
    request_delete plugin_id plugin guard observed
