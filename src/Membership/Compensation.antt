-- ===== src/Membership/Compensation.antt =====
-- The steps and the rollback, by what they may send.
use ferrum_foundry.Prelude.{
  String, Bool, true, List, [], ◌∷◌, Option, none, some, ◌≡◌, Bool-cases, inl, inr,
}
use ferrum_foundry.Membership.{
  ProxyRead, PluginRead, Write, put_proxy, Gateway, Plan, Failure, Operation,
}
use ferrum_foundry.Membership.Checks.{to_update_payload, references_plugin, lists_plugin}
use ferrum_foundry.Membership.Steps.{
  AppliedProxyChange, is_not_found, refuse_when, unless_changed, assert_editor_baseline,
  assert_membership_unchanged, get_plugin_if_present, plugin_state, references_state,
  recovery_state, get_proxy_if_present,
}
use ferrum_foundry.Membership.Rollback.{
  restore_association, rollback_association, rollback_all, rollback_associations,
}
use ferrum_foundry.Membership.Sends.{
  Sends, Sends-pure, Sends-throw, Sends-read, Sends-send, Sends-bind, Sends-attempt, Sends-if,
  Sends-then, Sends-result, Sends-option,
}

module _ {W : Type 0} (P : Write → Type 0) where
  pub refuse_when-Sends : (b : Bool) (e : Failure) → Sends P (refuse_when {W = W} b e)
  unfolding refuse_when
  refuse_when-Sends b e = Sends-if P b (Sends-throw P _ e) (Sends-pure P tt)

  pub unless_changed-Sends :
      {A : Type 0} {m : Plan W A} (e : Failure) → Sends P m → Sends P (unless_changed m e)
  unfolding unless_changed
  unless_changed-Sends e h =
      Sends-bind P (Sends-attempt P h)
        (λ r. Sends-result P r (λ a. Sends-pure P a) (λ f. Sends-throw P _ _))

  pub assert_editor_baseline-Sends :
      (p : PluginRead) (guard : Option (PluginRead → Bool)) (o : Operation)
      → Sends P (assert_editor_baseline {W = W} p guard o)
  unfolding assert_editor_baseline
  assert_editor_baseline-Sends p none o = Sends-pure P tt
  assert_editor_baseline-Sends p (some matches) o =
      Sends-if P (matches p) (Sends-pure P tt) (Sends-throw P _ _)

  pub assert_membership_unchanged-Sends :
      (ps : List ProxyRead) (id : String) (observed : List String) (o : Operation)
      → Sends P (assert_membership_unchanged {W = W} ps id observed o)
  unfolding assert_membership_unchanged
  assert_membership_unchanged-Sends ps id observed o =
      Sends-if P _ (Sends-pure P tt) (Sends-throw P _ _)

  module _ (g : Gateway W) where
    pub get_plugin_if_present-Sends : (id : String) → Sends P (get_plugin_if_present g id)
    unfolding get_plugin_if_present
    get_plugin_if_present-Sends id = Sends-bind P (Sends-attempt P (Sends-read P _)) (λ r.
        Sends-result P r (λ p. Sends-pure P _)
          (λ e. Sends-if P (is_not_found e) (Sends-pure P _) (Sends-throw P _ e)))

    pub get_proxy_if_present-Sends : (id : String) → Sends P (get_proxy_if_present g id)
    unfolding get_proxy_if_present
    get_proxy_if_present-Sends id = Sends-bind P (Sends-attempt P (Sends-read P _)) (λ r.
        Sends-result P r (λ p. Sends-pure P _)
          (λ e. Sends-if P (is_not_found e) (Sends-pure P _) (Sends-throw P _ e)))

    pub recovery_state-Sends : (id : String) → Sends P (recovery_state g id)
    unfolding recovery_state plugin_state references_state
    recovery_state-Sends id =
        Sends-bind P
          (Sends-bind P (Sends-attempt P (get_plugin_if_present-Sends id))
            (λ r. Sends-result P r (λ o. Sends-pure P _) (λ e. Sends-pure P _)))
          (λ a.
            Sends-bind P
              (Sends-bind P (Sends-attempt P (Sends-read P _))
                (λ r. Sends-result P r (λ o. Sends-pure P _) (λ e. Sends-pure P _)))
              (λ b. Sends-pure P _))

-- A write of a proxy that lists the plugin.
abbrev pub Attaches : String → Write → Type 0
Attaches plugin_id (put_proxy _ payload _) = lists_plugin payload.plugins plugin_id ≡ true
Attaches plugin_id _ = ⊥

module _ {W : Type 0} (g : Gateway W) (plugin_id : String) where
  abbrev Q : Write → Type 0
  Q = Attaches plugin_id

  restore_association-Attaches :
      (c : AppliedProxyChange)
      → references_plugin c.before plugin_id ≡ true
      → Sends Q (restore_association g plugin_id c)
  unfolding restore_association references_plugin to_update_payload
  restore_association-Attaches c h = Sends-bind Q (Sends-read Q _) (λ current.
      Sends-if Q _ (Sends-pure Q _) (
        Sends-bind Q (get_plugin_if_present-Sends Q g plugin_id) (λ plugin.
          Sends-option Q plugin (Sends-pure Q _)
            (λ p. Sends-then Q (Sends-send Q _ _ h) (Sends-pure Q _)))))

  rollback_association-Attaches :
      (c : AppliedProxyChange) → Sends Q (rollback_association g plugin_id c)
  unfolding rollback_association
  rollback_association-Attaches c = elim (Bool-cases (references_plugin c.before plugin_id)) [
    | inr off ↦ rw off (Sends-pure Q _)
    | inl on ↦ rw on (
        Sends-bind Q (Sends-attempt Q (restore_association-Attaches c on))
          (λ r. Sends-result Q r (λ d. Sends-pure Q _) (λ e. Sends-pure Q _)))
  ]

  rollback_all-Attaches : (cs : List AppliedProxyChange) → Sends Q (rollback_all g plugin_id cs)
  unfolding rollback_all
  rollback_all-Attaches [] = Sends-pure Q _
  rollback_all-Attaches (c ∷ cs) =
      Sends-bind Q (rollback_association-Attaches c)
        (λ a. Sends-bind Q (rollback_all-Attaches cs) (λ b. Sends-pure Q _))

  -- The rollback of associations only ever writes a proxy back with the plugin among its
  -- references: whatever the gateway answers, it takes no reference away and touches no plugin.
  pub rollback_associations-Attaches :
      (applied : List AppliedProxyChange) → Sends Q (rollback_associations g applied plugin_id)
  unfolding rollback_associations
  rollback_associations-Attaches applied = rollback_all-Attaches _
