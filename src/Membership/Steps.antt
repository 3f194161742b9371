-- ===== src/Membership/Steps.antt =====
-- src/lib/pluginMembership.ts: the steps that read, compare and write.
use ferrum_foundry.Prelude.{
  String, Bool, true, false, not, List, [], ◌∷◌, ◌++◌, Option, none, some, map, if◌then◌else◌, keep,
}
use ferrum_foundry.Policy.{includes}
use ferrum_foundry.Membership.{
  ProxyRead, PluginRead, Operation, unknown_proxies, proxy_changed, attaching_changed,
  detaching_changed, duplicate_or_blank, Detail, plugin_exists, plugin_missing, plugin_unverified,
  references_unverified, references, not_listed, Failure, gateway, refused, reported,
  membership_changed, stale, put_proxy, Gateway, ok, err, Plan, pure, throw, ◌>>=◌, ◌>>◌, attempt,
  read, send,
}
use ferrum_foundry.Membership.Checks.{
  to_update_payload, references_plugin, referencing_proxy_ids, unexpected, is_none, unique_ids,
  desired_associations, changed_proxies,
}

-- What a plan did to one proxy.
pub record AppliedProxyChange : Type 0 where
  pub before : ProxyRead
  pub after : ProxyRead

unfoldable pub is_not_found : Failure → Bool
is_not_found (gateway e) = e.is_not_found
is_not_found _ = false

unfoldable pub is_precondition_failed : Failure → Bool
is_precondition_failed (gateway e) = e.is_precondition_failed
is_precondition_failed _ = false

unfoldable pub is_committed : Failure → Bool
is_committed (gateway e) = e.is_committed
is_committed _ = false

unfoldable pub same_text : String → String → Bool
same_text a b = includes (a ∷ []) b

module _ {W : Type 0} where
  -- `if (refused) throw refusal`
  unfoldable pub refuse_when : Bool → Failure → Plan W (Unit {0})
  refuse_when b e = if b then throw e else pure tt

  unfoldable pub unless_changed : {A : Type 0} → Plan W A → Failure → Plan W A
  unless_changed write changed = do
    r ← attempt write
    elim r [ ok a ↦ pure a | err e ↦ throw (if is_precondition_failed e then changed else e) ]

  -- `guard` is whether a read still holds what the editor opened; none where there is no editor.
  unfoldable pub assert_editor_baseline :
      PluginRead → Option (PluginRead → Bool) → Operation → Plan W (Unit {0})
  assert_editor_baseline plugin none operation = pure tt
  assert_editor_baseline plugin (some matches) operation =
      if matches plugin then pure tt else throw (stale operation)

  unfoldable pub assert_membership_unchanged :
      List ProxyRead → String → List String → Operation → Plan W (Unit {0})
  assert_membership_unchanged ps plugin_id observed operation =
      let ids = unexpected ps plugin_id observed in
      if is_none ids then pure tt else throw (membership_changed operation ids)

  module _ (g : Gateway W) where
    unfoldable pub get_plugin_if_present : String → Plan W (Option PluginRead)
    get_plugin_if_present plugin_id = do
      r ← attempt (read (g.get_plugin plugin_id))
      elim r [ ok p ↦ pure (some p) | err e ↦ if is_not_found e then pure none else throw e ]

    -- the two lines of recoveryState, each with its own `try`
    unfoldable pub plugin_state : String → Plan W (List Detail)
    plugin_state plugin_id = do
      r ← attempt (get_plugin_if_present plugin_id)
      elim r [
        | ok found ↦ pure (elim found [
          | some p ↦ plugin_exists p.payload.scope ∷ []
          | none ↦ plugin_missing ∷ []
        ])
        | err e ↦ pure (plugin_unverified ∷ [])
      ]

    unfoldable pub references_state : String → Plan W (List Detail)
    references_state plugin_id = do
      r ← attempt (read g.list_proxies)
      elim r [
        | ok ps ↦ pure (references (referencing_proxy_ids ps plugin_id) ∷ [])
        | err e ↦ pure (references_unverified ∷ [])
      ]

    unfoldable pub recovery_state : String → Plan W (List Detail)
    recovery_state plugin_id = do
      a ← plugin_state plugin_id
      b ← references_state plugin_id
      pure (a ++ b)

    -- the proxies of the gateway, and the desired ids, which are all known
    unfoldable pub load_plan : (String → Bool) → List String → Plan W (List ProxyRead × List String)
    load_plan is_blank desired = elim (unique_ids is_blank desired) [
      | none ↦ throw (refused duplicate_or_blank)
      | some ids ↦ do
        ps ← read g.list_proxies
        let missing = keep (λ id. not (includes (map (λ p. p.id) ps) id)) ids
        refuse_when (not (is_none missing)) (refused (unknown_proxies missing))
        pure (ps, ids)
    ]

    -- one round of applyAssociationPlan
    unfoldable pub apply_association : String → List String → ProxyRead → Plan W AppliedProxyChange
    apply_association plugin_id desired snapshot = do
      current ← read (g.get_proxy snapshot.id)
      refuse_when (not (same_text current.updated_at snapshot.updated_at))
          (refused (proxy_changed snapshot.id))
      let payload = record (to_update_payload current) {
        plugins = desired_associations current.plugins plugin_id (includes desired current.id);
      }
      after ←
          unless_changed
            (send (put_proxy snapshot.id payload current)
              (g.update_proxy snapshot.id payload current))
            (refused (proxy_changed snapshot.id))
      pure (record { before = current; after = after })

    -- The changes that were applied, also where a round failed: the array outlives the throw.
    unfoldable pub apply_all :
        String
        → List String
        → List ProxyRead
        → List AppliedProxyChange
        → Plan W (List AppliedProxyChange × Option Failure)
    apply_all plugin_id desired [] applied = pure (applied, none)
    apply_all plugin_id desired (p ∷ ps) applied = do
      r ← attempt (apply_association plugin_id desired p)
      elim r [
        | ok change ↦ apply_all plugin_id desired ps (applied ++ change ∷ [])
        | err e ↦ pure (applied, some e)
      ]

    unfoldable pub apply_association_plan :
        List ProxyRead → String → List String → Plan W (List AppliedProxyChange × Option Failure)
    apply_association_plan ps plugin_id desired =
        apply_all plugin_id desired (changed_proxies ps plugin_id desired) []

    unfoldable pub reconcile_proxy_scoped_association : String → String → Plan W (Unit {0})
    reconcile_proxy_scoped_association plugin_id desired_proxy_id = do
      p ← read (g.get_proxy desired_proxy_id)
      if references_plugin p plugin_id then pure tt else do
        let payload = record (to_update_payload p) {
          plugins = desired_associations p.plugins plugin_id true;
        }
        unless_changed (send (put_proxy p.id payload p) (g.update_proxy p.id payload p))
            (refused (attaching_changed desired_proxy_id))
        confirmed ← read (g.get_proxy desired_proxy_id)
        refuse_when (not (references_plugin confirmed plugin_id))
            (reported (not_listed desired_proxy_id ∷ []))

    unfoldable pub get_proxy_if_present : String → Plan W (Option ProxyRead)
    get_proxy_if_present id = do
      r ← attempt (read (g.get_proxy id))
      elim r [ ok p ↦ pure (some p) | err e ↦ if is_not_found e then pure none else throw e ]

    unfoldable pub detach_former_proxy_scope : String → String → Plan W (Unit {0})
    detach_former_proxy_scope plugin_id former_proxy_id = do
      found ← get_proxy_if_present former_proxy_id
      elim found [
        | none ↦ pure tt
        | some p ↦ if not (references_plugin p plugin_id) then pure tt else do
          let payload = record (to_update_payload p) {
            plugins = desired_associations p.plugins plugin_id false;
          }
          after ←
              unless_changed (send (put_proxy p.id payload p) (g.update_proxy p.id payload p))
                (refused (detaching_changed former_proxy_id))
          pure tt
      ]
