-- ===== src/Policy/Decisions.antt =====
-- What access control answers, whatever the order of its plugins.
use ferrum_foundry.Prelude.Maps.{str_dec}
use ferrum_foundry.Prelude.Anys.{any-keep}
use ferrum_foundry.Prelude.{
  refl, String, Bool, true, false, not, ◌&&◌, ◌||◌, List, [], ◌∷◌, ◌++◌, keep, any, ◌≡◌, arith, inl,
  inr, All, ◌⊎◌,
}
use ferrum_foundry.Policy.{PluginConfig, Consumer, includes}
use ferrum_foundry.Policy.Attachment.{EffectivePlugin}
use ferrum_foundry.Policy.Access.{
  AccessDecision, conditional, is_triggered, acl_decision, acl_loop, judge, Verdict, denies,
  goes_on, is_empty, string_list, groups_of, find, truthy,
}

module _ {A : Type 0} (p : A → Bool) where
  pub empty-keep : (xs : List A) → is_empty (keep p xs) ≡ not (any p xs)
  unfolding is_empty
  empty-keep [] = refl
  empty-keep (x ∷ xs) = ground (arith, empty-keep xs)

pub any_of_empty : {A : Type 0} (p : A → Bool) (xs : List A) → is_empty xs ≡ true → any p xs ≡ false
unfolding is_empty
any_of_empty p [] h = refl
any_of_empty p (x ∷ xs) h = cc

Verdict-cases :
    (v : Verdict) → ((r : String) × (v ≡ denies r)) ⊎ ((m : List String) × (v ≡ goes_on m))
Verdict-cases (denies r) = inl (r, refl)
Verdict-cases (goes_on m) = inr (m, refl)

truthy-find :
    (p : String → Bool) (xs : List String) → includes xs "" ≡ false → truthy (find p xs) ≡ any p xs
unfolding truthy find includes
truthy-find p [] h = refl
truthy-find p (x ∷ xs) h = ground (arith, truthy-find p xs, str_dec x "")

-- What access_control means: a denied name, a denied group, or an allow-list without a match.
abbrev pub refuses : Consumer → PluginConfig → Bool
refuses c plugin =
    includes (string_list plugin.config "disallowed_consumers") c.username
    || (any (includes (groups_of c)) (string_list plugin.config "disallowed_groups")
        || (not (
              is_empty (string_list plugin.config "allowed_consumers")
              && is_empty (string_list plugin.config "allowed_groups"))
            && not (
                includes (string_list plugin.config "allowed_consumers") c.username
                || any (includes (groups_of c)) (string_list plugin.config "allowed_groups"))))

abbrev pub is_verdict_denial : Verdict → Bool
is_verdict_denial (denies _) = true
is_verdict_denial (goes_on _) = false

-- No denied group is the empty text.
abbrev pub Named : EffectivePlugin → Type 0
Named e = includes (string_list e.plugin.config "disallowed_groups") "" ≡ false

judge-refuses :
    (c : Consumer) (e : EffectivePlugin)
    → Named e
    → is_verdict_denial (judge c e.plugin) ≡ refuses c e.plugin
unfolding judge
judge-refuses c e h = ground (
  arith,
  truthy-find (includes (groups_of c)) (string_list e.plugin.config "disallowed_groups") h,
)

acl_loop-denied :
    (c : Consumer) (b : Bool) (es : List EffectivePlugin) (reasons : List String)
    → All Named es
    → (acl_loop c b es reasons).is_denied ≡ any (λ e. refuses c e.plugin) es
unfolding acl_loop
acl_loop-denied c b [] reasons h = refl
acl_loop-denied c b (e ∷ es) reasons (h, hs) = elim (Verdict-cases (judge c e.plugin)) [
  | inl (reason, eq) ↦ ground (arith, judge-refuses c e h)
  | inr (more, eq) ↦
      ground (arith, judge-refuses c e h, acl_loop-denied c b es (reasons ++ more) hs)
]

All-keep-Named :
    (q : EffectivePlugin → Bool) (es : List EffectivePlugin) → All Named es → All Named (keep q es)
All-keep-Named q [] h = tt
All-keep-Named q (e ∷ es) (h, hs) = ground (arith, All-keep-Named q es hs)

-- Access control denies a consumer exactly when some plugin of it without a trigger refuses them,
-- wherever in the order it stands; provided that no plugin lists the empty text as a denied group.
pub acl_decision-denied :
    (c : Consumer) (es : List EffectivePlugin)
    → All Named es
    → (acl_decision c es).is_denied ≡ any (λ e. not (is_triggered e) && refuses c e.plugin) es
unfolding acl_decision
acl_decision-denied c es h = ground (
  arith,
  acl_loop-denied c (not (is_empty (keep is_triggered es))) (keep (λ e. not (is_triggered e)) es) []
      (All-keep-Named (λ e. not (is_triggered e)) es h),
  any-keep (λ e. refuses c e.plugin) (λ e. not (is_triggered e)) es,
)

acl_loop-conditional :
    (c : Consumer) (b : Bool) (es : List EffectivePlugin) (reasons : List String)
    → (acl_loop c b es reasons).is_conditional ≡ b
unfolding acl_loop
acl_loop-conditional c b [] reasons = refl
acl_loop-conditional c b (e ∷ es) reasons = elim (Verdict-cases (judge c e.plugin)) [
  | inl (reason, eq) ↦ ground arith
  | inr (more, eq) ↦ ground (arith, acl_loop-conditional c b es (reasons ++ more))
]

pub acl_decision-conditional :
    (c : Consumer) (es : List EffectivePlugin)
    → (acl_decision c es).is_conditional ≡ any is_triggered es
unfolding acl_decision
acl_decision-conditional c es = ground (
  arith,
  acl_loop-conditional c (not (is_empty (keep is_triggered es)))
      (keep (λ e. not (is_triggered e)) es) [],
  empty-keep is_triggered es,
)

abbrev pub is_unsure : AccessDecision → Bool
is_unsure conditional = true
is_unsure _ = false
