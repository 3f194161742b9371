-- ===== src/Policy/Analysis.antt =====
-- The analysis of a proxy agrees with what it says of each consumer.
use ferrum_foundry.Prelude.{
  refl, Bool, true, false, not, ◌&&◌, ◌||◌, List, [], ◌∷◌, ◌++◌, map, keep, any, ◌≡◌, arith, All,
}
use ferrum_foundry.Policy.{Consumer}
use ferrum_foundry.Policy.Attachment.{EffectivePlugin}
use ferrum_foundry.Policy.Access.{
  is_auth_plugin, is_access_control, is_triggered, is_unmodelled_plugin, unidentified_access,
  is_empty,
}
use ferrum_foundry.Policy.Resolve.{
  resolve_consumer_access, resolve_credentials, is_external, is_unobservable,
  priority_indeterminate, analyze_plugins, analysis_reasons, is_denial,
}
use ferrum_foundry.Policy.Decisions.{is_unsure, acl_decision-conditional, empty-keep, any_of_empty}

empty-append : {A : Type 0} (xs ys : List A) → is_empty (xs ++ ys) ≡ (is_empty xs && is_empty ys)
unfolding is_empty
empty-append [] ys = refl
empty-append (x ∷ xs) ys = refl

any-keep-le :
    {A : Type 0} (p q : A → Bool) (xs : List A) → any p xs ≡ false → any p (keep q xs) ≡ false
any-keep-le p q [] h = refl
any-keep-le p q (x ∷ xs) h = ground (arith, any-keep-le p q xs)

-- Whether an analysis has a reason, read off the plugins.
abbrev has_reason : List EffectivePlugin → Bool
has_reason es =
    let auth = keep is_auth_plugin es in
    (is_empty auth && any is_unmodelled_plugin es)
    || (any is_unobservable auth
        || (any is_triggered es || (any is_external auth || priority_indeterminate auth)))

analysis-empty :
    (es : List EffectivePlugin)
    → is_empty (analysis_reasons es (keep is_auth_plugin es)) ≡ not (has_reason es)
unfolding analysis_reasons unidentified_access is_empty
analysis-empty es = ground (arith, empty-keep is_unmodelled_plugin es)

keep-not :
    {A : Type 0} (p : A → Bool) (xs : List A) → any p xs ≡ false → keep (λ x. not (p x)) xs ≡ xs
keep-not p [] h = refl
keep-not p (x ∷ xs) h = ground (arith, keep-not p xs)

unidentified-unsure :
    (es : List EffectivePlugin)
    → any is_unmodelled_plugin es ≡ false
    → any is_triggered es ≡ false
    → is_unsure (unidentified_access es).decision ≡ false
unfolding unidentified_access
unidentified-unsure es h t = ground (
  arith,
  empty-keep is_unmodelled_plugin es,
  keep-not is_triggered (keep is_access_control es),
  any-keep-le is_triggered is_access_control es t,
)

resolve-unsure :
    (es : List EffectivePlugin) (c : Consumer)
    → has_reason es ≡ false
    → is_unsure (resolve_consumer_access es c).decision ≡ false
unfolding resolve_consumer_access resolve_credentials
resolve-unsure es c h = ground (
  arith,
  unidentified-unsure es,
  any_of_empty is_unobservable (keep is_auth_plugin es),
  empty-keep is_external (keep is_auth_plugin es),
  empty-keep is_triggered (keep is_auth_plugin es),
  any-keep-le is_triggered is_auth_plugin es,
  any-keep-le is_triggered is_access_control es,
  acl_decision-conditional c (keep is_access_control es),
)

All-map_unsure :
    (es : List EffectivePlugin) (cs : List Consumer)
    → has_reason es ≡ false
    → All (λ a. is_unsure a.decision ≡ false) (map (resolve_consumer_access es) cs)
All-map_unsure es [] h = tt
All-map_unsure es (c ∷ cs) h = (resolve-unsure es c h, All-map_unsure es cs h)

-- An analysis that is not marked conditional has no consumer whose decision is conditional.
pub analyze-definitive :
    (es : List EffectivePlugin) (cs : List Consumer)
    → (analyze_plugins es cs).conditional ≡ false
    → All (λ a. is_unsure a.decision ≡ false) (analyze_plugins es cs).consumers
unfolding analyze_plugins
analyze-definitive es cs h = All-map_unsure es cs (ground (arith, analysis-empty es))

All-map_denied :
    (es : List EffectivePlugin) (cs : List Consumer)
    → is_empty (keep is_auth_plugin es) ≡ true
    → is_denial (unidentified_access es).decision ≡ true
    → All (λ a. is_denial a.decision ≡ true) (map (resolve_consumer_access es) cs)
unfolding resolve_consumer_access
All-map_denied es [] h d = tt
All-map_denied es (c ∷ cs) h d = (ground arith, All-map_denied es cs h d)

-- A configuration problem that the analysis names makes the proxy unusable: every consumer is denied.
pub analyze-problems :
    (es : List EffectivePlugin) (cs : List Consumer)
    → is_empty (analyze_plugins es cs).configuration_problems ≡ false
    → All (λ a. is_denial a.decision ≡ true) (analyze_plugins es cs).consumers
unfolding analyze_plugins is_empty
analyze-problems es cs h = All-map_denied es cs (ground arith) (ground arith)
