-- ===== src/Membership/Rollback.antt =====
-- src/lib/pluginMembership.ts: what a failed update takes back, and what it reports.
use ferrum_foundry.Prelude.{String, not, List, [], ◌∷◌, ◌++◌, none, some, if◌then◌else◌}
use ferrum_foundry.Prelude.Json.{sort}
use ferrum_foundry.Policy.Attachment.{unique_after}
use ferrum_foundry.Membership.{
  PluginData, PluginRead, Detail, left_attached, overwritten_proxy, not_reattached,
  proxy_rollback_failed, hidden_fields, not_restored_missing, overwritten_plugin, unaccounted,
  plugin_rollback_failed, put_proxy, put_plugin, Gateway, ok, err, Plan, pure, ◌>>=◌, ◌>>◌, attempt,
  read, send,
}
use ferrum_foundry.Membership.Checks.{
  to_update_payload, references_plugin, unexpected, is_none, puts_first, target, is_proxy,
}
use ferrum_foundry.Membership.Steps.{
  AppliedProxyChange, is_precondition_failed, same_text, get_plugin_if_present,
}

abbrev pub reverse_onto : {A : Type 0} → List A → List A → List A
reverse_onto [] acc = acc
reverse_onto (x ∷ xs) acc = reverse_onto xs (x ∷ acc)

unfoldable pub rollback_order : List AppliedProxyChange → String → List AppliedProxyChange
rollback_order applied plugin_id =
    sort (puts_first (λ c. references_plugin c.before plugin_id)) (reverse_onto applied [])

-- The set of rollbackFence.
unfoldable pub fence_of : String → List AppliedProxyChange → List String
fence_of plugin_id [] = []
fence_of plugin_id (c ∷ cs) =
    let rest = fence_of plugin_id cs in
    if references_plugin c.after plugin_id then c.after.id ∷ rest else rest

unfoldable pub rollback_fence :
    List String → List AppliedProxyChange → String → PluginData → List String
rollback_fence observed applied plugin_id payload = unique_after [] (
    observed
    ++ (fence_of plugin_id applied ++ (elim (target payload.proxy_id) [
      | none ↦ []
      | some id ↦ if is_proxy payload.scope then id ∷ [] else []
    ])))

module _ {W : Type 0} (g : Gateway W) where
  -- the body of the `try`: nothing to report, or why it was not written
  unfoldable pub restore_association : String → AppliedProxyChange → Plan W (List Detail)
  restore_association plugin_id change = do
    current ← read (g.get_proxy change.after.id)
    if not (same_text current.updated_at change.after.updated_at)
        then pure (overwritten_proxy current.id ∷ [])
        else do
          plugin ← get_plugin_if_present g plugin_id
          elim plugin [
            | none ↦ pure (not_reattached current.id ∷ [])
            | some p ↦ do
              send (put_proxy current.id (to_update_payload change.before) current)
                  (g.update_proxy current.id (to_update_payload change.before) current)
              pure []
          ]

  -- one round of rollbackAssociations
  unfoldable pub rollback_association : String → AppliedProxyChange → Plan W (List Detail)
  rollback_association plugin_id change =
      if not (references_plugin change.before plugin_id)
      then pure (left_attached change.after.id ∷ [])
      else do
        r ← attempt (restore_association plugin_id change)
        elim r [
          | ok details ↦ pure details
          | err e ↦ pure (
              (if is_precondition_failed e
                then overwritten_proxy change.before.id
                else proxy_rollback_failed change.before.id)
              ∷ [])
        ]

  unfoldable pub rollback_all : String → List AppliedProxyChange → Plan W (List Detail)
  rollback_all plugin_id [] = pure []
  rollback_all plugin_id (c ∷ cs) = do
    a ← rollback_association plugin_id c
    b ← rollback_all plugin_id cs
    pure (a ++ b)

  unfoldable pub rollback_associations : List AppliedProxyChange → String → Plan W (List Detail)
  rollback_associations applied plugin_id =
      rollback_all plugin_id (rollback_order applied plugin_id)

  -- the body of the `try` of rollbackPlugin
  unfoldable pub restore_plugin : PluginRead → PluginRead → List String → Plan W (List Detail)
  restore_plugin before after fence = do
    found ← get_plugin_if_present g after.id
    elim found [
      | none ↦ pure (not_restored_missing ∷ [])
      | some current ↦
          if not (same_text current.updated_at after.updated_at)
          then pure (overwritten_plugin ∷ [])
          else do
            ps ← read g.list_proxies
            let others = unexpected ps before.id fence
            if not (is_none others) then pure (unaccounted others ∷ []) else do
              send (put_plugin before.id before.payload current fence)
                  (g.update_plugin before.id before.payload current fence)
              pure []
    ]

  -- its `catch` on a precondition that failed
  unfoldable pub refused_restore : PluginRead → List String → Plan W (List Detail)
  refused_restore before fence = do
    r ← attempt (read g.list_proxies)
    elim r [
      | err e ↦ pure (overwritten_plugin ∷ [])
      | ok ps ↦ pure (
          (if is_none (unexpected ps before.id fence)
            then overwritten_plugin
            else unaccounted (unexpected ps before.id fence))
          ∷ [])
    ]

  unfoldable pub rollback_plugin : PluginRead → PluginRead → List String → Plan W (List Detail)
  rollback_plugin before after fence =
      if not (is_none (g.blocking before))
      then pure (hidden_fields (g.blocking before) ∷ [])
      else do
        r ← attempt (restore_plugin before after fence)
        elim r [
          | ok details ↦ pure details
          | err e ↦
              if is_precondition_failed e
              then refused_restore before fence
              else pure (plugin_rollback_failed ∷ [])
        ]
