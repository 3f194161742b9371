-- ===== src/Membership/Saves.antt =====
-- A create and an update, by what they may send: no DELETE, whatever fails.
use ferrum_foundry.Prelude.{String, Bool, List, Option}
use ferrum_foundry.Membership.{
  ProxyRead, ProxyPayload, PluginData, PluginRead, Write, put_proxy, post_plugin, put_plugin,
  delete_plugin, Gateway, Failure,
}
use ferrum_foundry.Membership.Checks.{is_group}
use ferrum_foundry.Membership.Steps.{AppliedProxyChange, is_precondition_failed}
use ferrum_foundry.Membership.Rollback.{
  rollback_associations, rollback_plugin, restore_plugin, refused_restore,
}
use ferrum_foundry.Membership.Plans.{
  kept_created_plugin, attach_created, create_plugin_with_membership, explain_refused_put,
  update_plugin_if_unchanged, detach_former, converge, report_saved, take_back, recover_update,
  update_plugin_with_membership, is_target, proxy_target,
}
use ferrum_foundry.Membership.Sends.{
  Sends, Sends-pure, Sends-throw, Sends-read, Sends-send, Sends-bind, Sends-attempt, Sends-if,
  Sends-then, Sends-result, Sends-option, Sends-imp,
}
use ferrum_foundry.Membership.Compensation.{
  refuse_when-Sends, assert_editor_baseline-Sends, assert_membership_unchanged-Sends,
  get_plugin_if_present-Sends, recovery_state-Sends, Attaches, rollback_associations-Attaches,
}
use ferrum_foundry.Membership.Associations.{
  load_plan-Sends, apply_association_plan-Sends, reconcile-Sends, detach-Sends, check_scope-Sends,
}

-- A create only posts the plugin and writes proxies.
abbrev pub Adds : Write → Type 0
Adds (put_proxy _ _ _) = Unit
Adds (post_plugin _) = Unit
Adds _ = ⊥

-- An update writes the plugin and proxies.
abbrev pub Replaces : Write → Type 0
Replaces (put_proxy _ _ _) = Unit
Replaces (put_plugin _ _ _ _) = Unit
Replaces _ = ⊥

attaching_Replaces : (plugin_id : String) (x : Write) → Attaches plugin_id x → Replaces x
attaching_Replaces plugin_id (put_proxy _ _ _) h = tt
attaching_Replaces plugin_id (post_plugin _) h = absurd h
attaching_Replaces plugin_id (put_plugin _ _ _ _) h = tt
attaching_Replaces plugin_id (delete_plugin _ _ _) h = absurd h

module _ {W : Type 0} (g : Gateway W) where
  proxies_Add : (id : String) (d : ProxyPayload) (b : ProxyRead) → Adds (put_proxy id d b)
  proxies_Add id d b = tt

  kept-Adds : (created : PluginRead) (e : Failure) → Sends Adds (kept_created_plugin g created e)
  unfolding kept_created_plugin
  kept-Adds created e =
      Sends-bind Adds (recovery_state-Sends Adds g _) (λ state. Sends-throw Adds _ _)

  attach_created-Adds :
      (d : PluginData) (ps : List ProxyRead) (desired : List String) (created : PluginRead)
      → Sends Adds (attach_created g d ps desired created)
  unfolding attach_created
  attach_created-Adds d ps desired created =
      Sends-option Adds (proxy_target d)
        (Sends-if Adds _ (Sends-pure Adds _) (
          Sends-bind Adds (apply_association_plan-Sends g Adds proxies_Add _ _ _)
            (λ r. Sends-option Adds r.1 (Sends-pure Adds _) (λ e. kept-Adds created e))))
        (λ id.
          Sends-bind Adds (Sends-attempt Adds (reconcile-Sends g Adds proxies_Add _ _))
            (λ r. Sends-result Adds r (λ u. Sends-pure Adds _) (λ e. kept-Adds created e)))

  -- A create posts the plugin and writes proxies, and sends nothing else, whatever the gateway
  -- answers: a create that fails deletes nothing.
  pub create_plugin-Adds :
      (is_blank : String → Bool) (d : PluginData) (desired : List String)
      → Sends Adds (create_plugin_with_membership g is_blank d desired)
  unfolding create_plugin_with_membership
  create_plugin-Adds is_blank d desired =
      Sends-then Adds (check_scope-Sends g Adds proxies_Add d desired) (
        Sends-bind Adds (load_plan-Sends g Adds proxies_Add _ _) (λ plan.
          Sends-bind Adds (Sends-send Adds _ _ tt) (λ created. attach_created-Adds _ _ _ _)))

  proxies_Replace : (id : String) (d : ProxyPayload) (b : ProxyRead) → Replaces (put_proxy id d b)
  proxies_Replace id d b = tt

  rollback_associations-Replaces :
      (applied : List AppliedProxyChange) (plugin_id : String)
      → Sends Replaces (rollback_associations g applied plugin_id)
  rollback_associations-Replaces applied plugin_id =
      Sends-imp (attaching_Replaces plugin_id) (rollback_associations-Attaches g plugin_id applied)

  rollback_plugin-Replaces :
      (before after : PluginRead) (fence : List String)
      → Sends Replaces (rollback_plugin g before after fence)
  unfolding rollback_plugin restore_plugin refused_restore
  rollback_plugin-Replaces before after fence =
      let R = Replaces in
      Sends-if R _ (Sends-pure R _) (
        Sends-bind R
          (Sends-attempt R (
            Sends-bind R (get_plugin_if_present-Sends R g _) (λ found.
              Sends-option R found (Sends-pure R _) (λ current. Sends-if R _ (Sends-pure R _) (
                Sends-bind R (Sends-read R _) (λ ps.
                  Sends-if R _ (Sends-pure R _)
                    (Sends-then R (Sends-send R _ _ tt) (Sends-pure R _))))))))
          (λ r.
            Sends-result R r (λ d. Sends-pure R _)
              (λ e.
                Sends-if R (is_precondition_failed e)
                  (Sends-bind R (Sends-attempt R (Sends-read R _))
                    (λ l. Sends-result R l (λ ps. Sends-pure R _) (λ f. Sends-pure R _)))
                  (Sends-pure R _))))

  take_back-Replaces :
      (plugin_id : String) (before : PluginRead) (d : PluginData) (observed : List String)
      (updated : Option PluginRead) (applied : List AppliedProxyChange)
      → Sends Replaces (take_back g plugin_id before d observed updated applied)
  unfolding take_back
  take_back-Replaces plugin_id before d observed updated applied =
      let R = Replaces in
      Sends-option R updated (rollback_associations-Replaces applied plugin_id) (λ after.
        Sends-if R _ (rollback_plugin-Replaces before after _) (
          Sends-bind R (rollback_associations-Replaces applied plugin_id)
            (λ a. Sends-bind R (rollback_plugin-Replaces before after _) (λ b. Sends-pure R _))))

  report_saved-Replaces :
      (plugin_id : String) (before : PluginRead) (d : PluginData) (ps : List ProxyRead)
      (updated : Option PluginRead) (e : Failure)
      → Sends Replaces (report_saved g plugin_id before d ps updated e)
  unfolding report_saved
  report_saved-Replaces plugin_id before d ps updated e =
      let R = Replaces in
      Sends-bind R
        (Sends-option R updated
          (Sends-bind R (Sends-attempt R (get_plugin_if_present-Sends R g _))
            (λ r. Sends-result R r (λ o. Sends-pure R _) (λ f. Sends-pure R _)))
          (λ p. Sends-pure R _))
        (λ found. Sends-bind R (recovery_state-Sends R g _) (λ state. Sends-throw R _ _))

  recover_update-Replaces :
      (plugin_id : String) (before : PluginRead) (d : PluginData) (observed : List String)
      (ps : List ProxyRead) (updated : Option PluginRead) (applied : List AppliedProxyChange)
      (e : Failure)
      → Sends Replaces (recover_update g plugin_id before d observed ps updated applied e)
  unfolding recover_update
  recover_update-Replaces plugin_id before d observed ps updated applied e =
      let R = Replaces in
      Sends-if R _ (Sends-throw R _ _) (
        Sends-if R _ (report_saved-Replaces plugin_id before d ps updated e) (
          Sends-bind R (take_back-Replaces plugin_id before d observed updated applied)
            (λ a. Sends-bind R (recovery_state-Sends R g _) (λ b. Sends-throw R _ _))))

  update_if_unchanged-Replaces :
      (snapshot : PluginRead) (d : PluginData) (guard : Option (PluginRead → Bool))
      (expected : List String)
      → Sends Replaces (update_plugin_if_unchanged g snapshot d guard expected)
  unfolding update_plugin_if_unchanged explain_refused_put
  update_if_unchanged-Replaces snapshot d guard expected =
      let R = Replaces in
      Sends-bind R (Sends-read R _) (λ current.
        Sends-then R (assert_editor_baseline-Sends R current guard _) (
          Sends-then R (refuse_when-Sends R _ _) (
            Sends-bind R (Sends-attempt R (Sends-send R _ _ tt)) (λ r.
              Sends-result R r (λ p. Sends-pure R _)
                (λ e. Sends-if R _ (Sends-throw R _ _) (
                  Sends-bind R (get_plugin_if_present-Sends R g _) (λ latest.
                    Sends-then R
                      (Sends-option R latest (Sends-pure R _)
                        (λ p. assert_editor_baseline-Sends R p guard _))
                      (Sends-bind R (Sends-attempt R (Sends-read R _)) (λ l.
                        Sends-then R
                          (Sends-result R l (λ ps. assert_membership_unchanged-Sends R ps _ _ _)
                            (λ f. Sends-pure R _))
                          (Sends-throw R _ _))))))))))

  converge-Replaces :
      (plugin_id : String) (before : PluginRead) (d : PluginData) (ps : List ProxyRead)
      (desired : List String)
      → Sends Replaces (converge g plugin_id before d ps desired)
  unfolding converge detach_former
  converge-Replaces plugin_id before d ps desired =
      let R = Replaces in
      let former = Sends-option R (proxy_target before.payload) (Sends-pure R tt) (λ id.
        Sends-if R (is_target d id) (Sends-pure R tt)
          (detach-Sends g R proxies_Replace plugin_id id)) in
      Sends-if R (is_group d.scope) (apply_association_plan-Sends g R proxies_Replace _ _ _) (
        Sends-bind R
          (Sends-attempt R (
            Sends-option R (proxy_target d) former
              (λ id. Sends-then R (reconcile-Sends g R proxies_Replace plugin_id id) former)))
          (λ r. Sends-result R r (λ u. Sends-pure R _) (λ e. Sends-pure R _)))

  -- An update writes the plugin and proxies, and sends nothing else, whatever the gateway answers:
  -- neither the change nor its rollback deletes the plugin or creates one.
  pub update_plugin-Replaces :
      (is_blank : String → Bool) (plugin_id : String) (d : PluginData) (desired : List String)
      (guard : Option (PluginRead → Bool)) (observed : List String)
      → Sends Replaces (update_plugin_with_membership g is_blank plugin_id d desired guard observed)
  unfolding update_plugin_with_membership
  update_plugin-Replaces is_blank plugin_id d desired guard observed =
      let R = Replaces in
      Sends-then R (check_scope-Sends g R proxies_Replace d desired) (
        Sends-bind R (Sends-read R _) (λ before.
          Sends-then R (assert_editor_baseline-Sends R before guard _) (
            Sends-bind R (load_plan-Sends g R proxies_Replace _ _) (λ plan.
              Sends-then R (assert_membership_unchanged-Sends R _ _ _ _) (
                Sends-bind R (Sends-attempt R (update_if_unchanged-Replaces before d guard _)) (λ r.
                  Sends-result R r
                    (λ updated. Sends-bind R (converge-Replaces plugin_id before d _ _) (λ done.
                      Sends-option R done.1 (Sends-pure R _)
                        (λ e. recover_update-Replaces plugin_id before d _ _ _ _ e)))
                    (λ e. recover_update-Replaces plugin_id before d _ _ _ _ e)))))))
