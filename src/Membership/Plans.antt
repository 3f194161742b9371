-- ===== src/Membership/Plans.antt =====
-- src/lib/pluginMembership.ts: the three plans, each a create, an update or a delete of a plugin.
use ferrum_foundry.Prelude.{
  String, Bool, true, false, not, ◌&&◌, ◌||◌, List, [], ◌∷◌, ◌++◌, Option, none, some,
  if◌then◌else◌, keep,
}
use ferrum_foundry.Policy.{includes}
use ferrum_foundry.Policy.Attachment.{unique_after}
use ferrum_foundry.Membership.{
  ProxyRead, PluginData, PluginRead, save, plugin_changed, Detail, were_members, were_detached,
  check_lists, created_kept, Failure, refused, not_converged, saved_unverified, membership_changed,
  stale, put_plugin, post_plugin, Gateway, ok, err, Plan, pure, throw, ◌>>=◌, ◌>>◌, attempt, read,
  send,
}
use ferrum_foundry.Membership.Checks.{
  referencing_proxy_ids, target, is_group, is_proxy, validate_scope,
}
use ferrum_foundry.Membership.Steps.{
  AppliedProxyChange, is_precondition_failed, is_committed, same_text, refuse_when,
  assert_editor_baseline, assert_membership_unchanged, get_plugin_if_present, recovery_state,
  load_plan, apply_association_plan, reconcile_proxy_scoped_association, detach_former_proxy_scope,
}
use ferrum_foundry.Membership.Rollback.{rollback_associations, rollback_plugin, rollback_fence}

-- A refusal before anything is written, which carries its own comparison.
unfoldable pub is_comparison : Failure → Bool
is_comparison (stale _) = true
is_comparison (membership_changed _ _) = true
is_comparison _ = false

unfoldable pub is_present : {A : Type 0} → Option A → Bool
is_present none = false
is_present (some _) = true

-- `data.scope === "proxy" && data.proxy_id`
unfoldable pub proxy_target : PluginData → Option String
proxy_target d = if is_proxy d.scope then target d.proxy_id else none

unfoldable pub is_target : PluginData → String → Bool
is_target d id = elim d.proxy_id [
  | none ↦ false
  | some t ↦ is_proxy d.scope && includes (t ∷ []) id
]

module _ {W : Type 0} (g : Gateway W) where
  unfoldable pub check_scope : PluginData → List String → Plan W (Unit {0})
  check_scope d desired = elim (validate_scope d desired) [
    | none ↦ pure tt
    | some r ↦ throw (refused r)
  ]

  unfoldable pub kept_created_plugin : PluginRead → Failure → Plan W PluginRead
  kept_created_plugin created e = do
    state ← recovery_state g created.id
    throw (not_converged e (created_kept created.id ∷ state) (some created.payload))

  unfoldable pub attach_created :
      PluginData → List ProxyRead → List String → PluginRead → Plan W PluginRead
  attach_created d ps desired created = elim (proxy_target d) [
    | some id ↦ do
      r ← attempt (reconcile_proxy_scoped_association g created.id id)
      elim r [ ok _ ↦ pure created | err e ↦ kept_created_plugin created e ]
    | none ↦ if not (is_group d.scope) then pure created else do
      r ← apply_association_plan g ps created.id desired
      elim r.1 [ none ↦ pure created | some e ↦ kept_created_plugin created e ]
  ]

  unfoldable pub create_plugin_with_membership :
      (String → Bool) → PluginData → List String → Plan W PluginRead
  create_plugin_with_membership is_blank d desired = do
    check_scope d desired
    plan ← load_plan g is_blank (if is_group d.scope then desired else [])
    created ← send (post_plugin d) (g.create_plugin d)
    attach_created d plan.0 plan.1 created

  -- the `catch` of updatePluginIfUnchanged
  unfoldable pub explain_refused_put :
      PluginRead → Option (PluginRead → Bool) → List String → Failure → Plan W PluginRead
  explain_refused_put snapshot guard expected e =
      if not (is_precondition_failed e) then throw e else do
        latest ← get_plugin_if_present g snapshot.id
        elim latest [ none ↦ pure tt | some p ↦ assert_editor_baseline p guard save ]
        r ← attempt (read g.list_proxies)
        elim r [
          | err _ ↦ pure tt
          | ok ps ↦ assert_membership_unchanged ps snapshot.id expected save
        ]
        throw (refused (plugin_changed snapshot.id))

  unfoldable pub update_plugin_if_unchanged :
      PluginRead → PluginData → Option (PluginRead → Bool) → List String → Plan W PluginRead
  update_plugin_if_unchanged snapshot d guard expected = do
    current ← read (g.get_plugin snapshot.id)
    assert_editor_baseline current guard save
    refuse_when (not (same_text current.updated_at snapshot.updated_at))
        (refused (plugin_changed snapshot.id))
    r ← attempt (
        send (put_plugin snapshot.id d current expected)
          (g.update_plugin snapshot.id d current expected))
    elim r [ ok p ↦ pure p | err e ↦ explain_refused_put snapshot guard expected e ]

  -- the detaching of the proxy that the plugin used to name
  unfoldable pub detach_former : String → PluginRead → PluginData → Plan W (Unit {0})
  detach_former plugin_id before d = elim (proxy_target before.payload) [
    | none ↦ pure tt
    | some former ↦
        if is_target d former then pure tt else detach_former_proxy_scope g plugin_id former
  ]

  -- what follows the plugin's PUT, and where it failed
  unfoldable pub converge :
      String
      → PluginRead
      → PluginData
      → List ProxyRead
      → List String
      → Plan W (List AppliedProxyChange × Option Failure)
  converge plugin_id before d ps desired =
      if is_group d.scope then apply_association_plan g ps plugin_id desired else do
        r ← attempt (elim (proxy_target d) [
          | none ↦ detach_former plugin_id before d
          | some id ↦ do
            reconcile_proxy_scoped_association g plugin_id id
            detach_former plugin_id before d
        ])
        elim r [ ok _ ↦ pure ([], none) | err e ↦ pure ([], some e) ]

  unfoldable pub report_saved :
      String
      → PluginRead
      → PluginData
      → List ProxyRead
      → Option PluginRead
      → Failure
      → Plan W PluginRead
  report_saved plugin_id before d ps updated e = do
    let members = referencing_proxy_ids ps plugin_id
    found ← elim updated [
      | some p ↦ pure (some p)
      | none ↦ do
        r ← attempt (get_plugin_if_present g plugin_id)
        elim r [ ok o ↦ pure o | err _ ↦ pure none ]
    ]
    state ← recovery_state g plugin_id
    throw (
        saved_unverified e
          (were_members members
              ∷ were_detached (keep (λ id. not (is_target d id)) members)
              ∷ (elim (proxy_target d) [ none ↦ [] | some id ↦ check_lists id ∷ [] ])
            ++ state)
          found (not (is_present updated)))

  unfoldable pub take_back :
      String
      → PluginRead
      → PluginData
      → List String
      → Option PluginRead
      → List AppliedProxyChange
      → Plan W (List Detail)
  take_back plugin_id before d observed updated applied =
      let fence = rollback_fence observed applied plugin_id d in
      elim updated [
        | none ↦ rollback_associations g applied plugin_id
        | some after ↦
            if not (is_group before.payload.scope) then rollback_plugin g before after fence else do
              a ← rollback_associations g applied plugin_id
              b ← rollback_plugin g before after fence
              pure (a ++ b)
      ]

  -- the `catch` of updatePluginWithMembership
  unfoldable pub recover_update :
      String
      → PluginRead
      → PluginData
      → List String
      → List ProxyRead
      → Option PluginRead
      → List AppliedProxyChange
      → Failure
      → Plan W PluginRead
  recover_update plugin_id before d observed ps updated applied e =
      if is_comparison e && not (is_present updated)
      then throw e
      else if (is_present updated || is_committed e)
          && (is_group before.payload.scope && not (is_group d.scope))
      then report_saved plugin_id before d ps updated e
      else do
        a ← take_back plugin_id before d observed updated applied
        b ← recovery_state g plugin_id
        throw (not_converged e (a ++ b) (some before.payload))

  unfoldable pub update_plugin_with_membership :
      (String → Bool)
      → String
      → PluginData
      → List String
      → Option (PluginRead → Bool)
      → List String
      → Plan W PluginRead
  update_plugin_with_membership is_blank plugin_id d desired guard observed_proxy_ids = do
    check_scope d desired
    let observed = unique_after [] observed_proxy_ids
    before ← read (g.get_plugin plugin_id)
    assert_editor_baseline before guard save
    plan ← load_plan g is_blank (if is_group d.scope then desired else [])
    assert_membership_unchanged plan.0 plugin_id observed save
    r ← attempt (update_plugin_if_unchanged before d guard observed)
    elim r [
      | err e ↦ recover_update plugin_id before d observed plan.0 none [] e
      | ok updated ↦ do
        done ← converge plugin_id before d plan.0 plan.1
        elim done.1 [
          | none ↦ pure updated
          | some e ↦ recover_update plugin_id before d observed plan.0 (some updated) done.0 e
        ]
    ]
