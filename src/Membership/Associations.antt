-- ===== src/Membership/Associations.antt =====
-- What the association steps of a plan may send.
use ferrum_foundry.Prelude.{String, Bool, List, [], ◌∷◌}
use ferrum_foundry.Membership.{ProxyRead, ProxyPayload, PluginData, Write, put_proxy, Gateway}
use ferrum_foundry.Membership.Checks.{unique_ids, references_plugin, validate_scope}
use ferrum_foundry.Membership.Steps.{
  AppliedProxyChange, load_plan, apply_association, apply_all, apply_association_plan,
  reconcile_proxy_scoped_association, detach_former_proxy_scope,
}
use ferrum_foundry.Membership.Plans.{check_scope}
use ferrum_foundry.Membership.Sends.{
  Sends, Sends-pure, Sends-throw, Sends-read, Sends-send, Sends-bind, Sends-attempt, Sends-if,
  Sends-then, Sends-result, Sends-option,
}
use ferrum_foundry.Membership.Compensation.{
  refuse_when-Sends, unless_changed-Sends, get_proxy_if_present-Sends,
}

-- The association steps, for a predicate that every write of a proxy has.
module _ {W : Type 0} (g : Gateway W) (P : Write → Type 0)
    (all_proxies : (id : String) (d : ProxyPayload) (b : ProxyRead) → P (put_proxy id d b)) where
  pub load_plan-Sends :
      (is_blank : String → Bool) (ids : List String) → Sends P (load_plan g is_blank ids)
  unfolding load_plan
  load_plan-Sends is_blank ids =
      Sends-option P (unique_ids is_blank ids) (Sends-throw P _ _) (λ unique.
        Sends-bind P (Sends-read P _)
          (λ ps. Sends-then P (refuse_when-Sends P _ _) (Sends-pure P _)))

  pub apply_association-Sends :
      (plugin_id : String) (desired : List String) (snapshot : ProxyRead)
      → Sends P (apply_association g plugin_id desired snapshot)
  unfolding apply_association
  apply_association-Sends plugin_id desired snapshot = Sends-bind P (Sends-read P _) (λ current.
      Sends-then P (refuse_when-Sends P _ _) (
        Sends-bind P (unless_changed-Sends P _ (Sends-send P _ _ (all_proxies _ _ _)))
          (λ after. Sends-pure P _)))

  pub apply_all-Sends :
      (plugin_id : String) (desired : List String) (ps : List ProxyRead)
      (applied : List AppliedProxyChange)
      → Sends P (apply_all g plugin_id desired ps applied)
  unfolding apply_all
  apply_all-Sends plugin_id desired [] applied = Sends-pure P _
  apply_all-Sends plugin_id desired (p ∷ ps) applied =
      Sends-bind P (Sends-attempt P (apply_association-Sends plugin_id desired p))
        (λ r. Sends-result P r (λ c. apply_all-Sends plugin_id desired ps _) (λ e. Sends-pure P _))

  pub apply_association_plan-Sends :
      (ps : List ProxyRead) (plugin_id : String) (desired : List String)
      → Sends P (apply_association_plan g ps plugin_id desired)
  unfolding apply_association_plan
  apply_association_plan-Sends ps plugin_id desired = apply_all-Sends plugin_id desired _ []

  pub reconcile-Sends :
      (plugin_id id : String) → Sends P (reconcile_proxy_scoped_association g plugin_id id)
  unfolding reconcile_proxy_scoped_association
  reconcile-Sends plugin_id id = Sends-bind P (Sends-read P _) (λ p.
      Sends-if P (references_plugin p plugin_id) (Sends-pure P tt) (
        Sends-then P (unless_changed-Sends P _ (Sends-send P _ _ (all_proxies _ _ _)))
          (Sends-bind P (Sends-read P _) (λ c. refuse_when-Sends P _ _))))

  pub detach-Sends : (plugin_id id : String) → Sends P (detach_former_proxy_scope g plugin_id id)
  unfolding detach_former_proxy_scope
  detach-Sends plugin_id id = Sends-bind P (get_proxy_if_present-Sends P g id) (λ found.
      Sends-option P found (Sends-pure P tt) (λ p. Sends-if P _ (Sends-pure P tt) (
        Sends-bind P (unless_changed-Sends P _ (Sends-send P _ _ (all_proxies _ _ _)))
          (λ a. Sends-pure P _))))

  pub check_scope-Sends :
      (d : PluginData) (desired : List String) → Sends P (check_scope {W = W} g d desired)
  unfolding check_scope
  check_scope-Sends d desired =
      Sends-option P (validate_scope d desired) (Sends-pure P tt) (λ r. Sends-throw P _ _)
