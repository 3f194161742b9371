-- ===== src/Policy/Order.antt =====
-- Which plugins of a proxy the decision about a consumer depends on.
use mathlib.Core.List.{Permᴰ}
use ferrum_foundry.Prelude.{
  ℕ, max, Bool, true, false, not, ◌&&◌, ◌||◌, List, [], ◌∷◌, keep, any, ltb, length, if◌then◌else◌,
  ◌≡◌, refl, ap, sym, ◌∙◌, arith, All, All-keep,
}
use ferrum_foundry.Prelude.Anys.{any-keep}
use ferrum_foundry.Prelude.Orders.{Permᴰ-any, Permᴰ-All, Permᴰ-keep}
use ferrum_foundry.Policy.{Consumer}
use ferrum_foundry.Policy.Attachment.{EffectivePlugin}
use ferrum_foundry.Policy.Access.{
  AccessDecision, public, allowed, conditional, denied, is_auth_plugin, is_access_control,
  is_triggered,
}
use ferrum_foundry.Policy.Resolve.{
  priority_indeterminate, resolve_consumer_access, resolve_credentials, matches_local, is_external,
  is_unobservable, has_no_priority,
}
use ferrum_foundry.Policy.Decisions.{
  empty-keep, refuses, Named, acl_decision-denied, acl_decision-conditional,
}

-- A plugin that establishes who a consumer is, or controls their access.
abbrev pub takes_part : EffectivePlugin → Bool
takes_part e = is_auth_plugin e || is_access_control e

-- How much a decision keeps out.
abbrev pub strictness : AccessDecision → ℕ
strictness public = 0
strictness allowed = 1
strictness conditional = 2
strictness denied = 3

keep-keep :
    (p q : EffectivePlugin → Bool) (es : List EffectivePlugin)
    → ((e : EffectivePlugin) → p e ≡ true → q e ≡ true)
    → keep p (keep q es) ≡ keep p es
keep-keep p q [] h = refl
keep-keep p q (e ∷ es) h = ground (arith, h e, keep-keep p q es h)

module _ (c : Consumer) where
  -- What is left of the list of plugins in a decision where one of them authenticates.
  abbrev decide : Bool → Bool → Bool → Bool → Bool → Bool → AccessDecision
  decide is_refused matched external unobservable depends indeterminate =
      if is_refused || (not matched && (not external && not unobservable))
      then denied
      else if (not matched && unobservable) || (external || (depends || indeterminate))
      then conditional
      else allowed

  abbrev decided : List EffectivePlugin → AccessDecision
  decided es =
      decide (any (λ e. is_access_control e && (not (is_triggered e) && refuses c e.plugin)) es)
        (any (λ e. is_auth_plugin e && matches_local c e) es)
        (any (λ e. is_auth_plugin e && is_external e) es)
        (any (λ e. is_auth_plugin e && is_unobservable e) es)
        (any (λ e. is_auth_plugin e && is_triggered e) es
          || any (λ e. is_access_control e && is_triggered e) es)
        (ltb 1 (length (keep is_auth_plugin es))
          && any (λ e. is_auth_plugin e && has_no_priority e) es)

  resolve-decided :
      (es : List EffectivePlugin)
      → any is_auth_plugin es ≡ true
      → All Named es
      → (resolve_consumer_access es c).decision ≡ decided es
  unfolding resolve_consumer_access resolve_credentials priority_indeterminate
  resolve-decided es a h = ground (
    arith,
    empty-keep is_auth_plugin es,
    empty-keep (matches_local c) (keep is_auth_plugin es),
    empty-keep is_external (keep is_auth_plugin es),
    empty-keep is_triggered (keep is_auth_plugin es),
    any-keep (matches_local c) is_auth_plugin es,
    any-keep is_external is_auth_plugin es,
    any-keep is_unobservable is_auth_plugin es,
    any-keep is_triggered is_auth_plugin es,
    any-keep has_no_priority is_auth_plugin es,
    any-keep is_triggered is_access_control es,
    any-keep (λ e. not (is_triggered e) && refuses c e.plugin) is_access_control es,
    acl_decision-conditional c (keep is_access_control es),
    acl_decision-denied c (keep is_access_control es) (All-keep is_access_control Named es h),
  )

  decided-Permᴰ : {es fs : List EffectivePlugin} → Permᴰ es fs → decided es ≡ decided fs
  decided-Permᴰ p =
      rw
        (
          Permᴰ-any (λ e. is_access_control e && (not (is_triggered e) && refuses c e.plugin)) p,
          Permᴰ-any (λ e. is_auth_plugin e && matches_local c e) p,
          Permᴰ-any (λ e. is_auth_plugin e && is_external e) p,
          Permᴰ-any (λ e. is_auth_plugin e && is_unobservable e) p,
          Permᴰ-any (λ e. is_auth_plugin e && is_triggered e) p,
          Permᴰ-any (λ e. is_access_control e && is_triggered e) p,
          Permᴰ-any (λ e. is_auth_plugin e && has_no_priority e) p,
          Permᴰ-keep is_auth_plugin p,
        )
        refl

  -- Where some plugin authenticates, the others that do not take part change nothing at all.
  resolve-takes_part :
      (es : List EffectivePlugin)
      → any is_auth_plugin es ≡ true
      → resolve_consumer_access (keep takes_part es) c ≡ resolve_consumer_access es c
  unfolding resolve_consumer_access
  resolve-takes_part es a =
      let auth : keep is_auth_plugin (keep takes_part es) ≡ keep is_auth_plugin es =
        keep-keep is_auth_plugin takes_part es (λ e h. ground arith) in
      let acl : keep is_access_control (keep takes_part es) ≡ keep is_access_control es =
        keep-keep is_access_control takes_part es (λ e h. ground arith) in
      ground (arith, auth, acl, empty-keep is_auth_plugin es)

  any-takes_part :
      (es : List EffectivePlugin) → any is_auth_plugin (keep takes_part es) ≡ any is_auth_plugin es
  any-takes_part [] = refl
  any-takes_part (e ∷ es) = ground (arith, any-takes_part es)

  resolve-Permᴰ :
      (es fs : List EffectivePlugin)
      → any is_auth_plugin es ≡ true
      → All Named es
      → Permᴰ (keep takes_part es) (keep takes_part fs)
      → (resolve_consumer_access es c).decision ≡ (resolve_consumer_access fs c).decision
  resolve-Permᴰ es fs a h p =
      let named : All Named (keep takes_part es) = All-keep takes_part Named es h in
      let there : any is_auth_plugin (keep takes_part es) ≡ true = any-takes_part es ∙ a in
      let same = Permᴰ-any is_auth_plugin p in
      let there' : any is_auth_plugin (keep takes_part fs) ≡ true = sym same ∙ there in
      ap (λ r. r.decision) (sym (resolve-takes_part es a))
      ∙ resolve-decided (keep takes_part es) there named
      ∙ decided-Permᴰ p
      ∙ sym (resolve-decided (keep takes_part fs) there' (Permᴰ-All Named p named))
      ∙ ap (λ r. r.decision) (resolve-takes_part fs (sym (any-takes_part fs) ∙ there'))

  -- How much one access control keeps a consumer out: one without a trigger that refuses them, one
  -- that may or may not run, any other.
  abbrev pub keeps_out : EffectivePlugin → ℕ
  keeps_out e =
      if not (is_access_control e)
      then 0
      else if is_triggered e
      then 2
      else if refuses c e.plugin
      then 3
      else 0

  resolve-strictness :
      (e : EffectivePlugin) (es : List EffectivePlugin)
      → is_auth_plugin e ≡ false
      → any is_auth_plugin es ≡ true
      → Named e
      → All Named es
      → strictness (resolve_consumer_access (e ∷ es) c).decision
        ≡ max (keeps_out e) (strictness (resolve_consumer_access es c).decision)
  resolve-strictness e es n a k h =
      let there : any is_auth_plugin (e ∷ es) ≡ true = ground arith in
      rw (resolve-decided es a h, resolve-decided (e ∷ es) there (k, h)) (ground arith)

  -- Where some plugin authenticates, and no plugin lists the empty text as a denied group: the
  -- decision about a consumer depends only on the plugins that authenticate or control access, and
  -- not on their order, so a custom plugin beside them, which may establish an identity too, does
  -- not change it. A further plugin that does not authenticate makes it exactly as strict as the
  -- stricter of what it was and what that plugin says of the consumer: denied by an access control
  -- without a trigger that refuses them, conditional by one with a trigger, otherwise nothing.
  pub resolve_consumer_access_order :
      (e : EffectivePlugin) (es fs : List EffectivePlugin)
      → any is_auth_plugin es ≡ true
      → is_auth_plugin e ≡ false
      → All Named (e ∷ es)
      → Permᴰ (keep takes_part es) (keep takes_part fs)
      → ((resolve_consumer_access es c).decision ≡ (resolve_consumer_access fs c).decision)
        × (strictness (resolve_consumer_access (e ∷ es) c).decision
            ≡ max (keeps_out e) (strictness (resolve_consumer_access es c).decision))
  resolve_consumer_access_order e es fs a n (k, h) p =
      (resolve-Permᴰ es fs a h p, resolve-strictness e es n a k h)
