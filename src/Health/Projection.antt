-- ===== src/Health/Projection.antt =====
-- What the loops leave in a summary, and when it has a namespace block.
use mathlib.Core.Path.{subst}
use ferrum_foundry.Prelude.Json.{Json, Fields, object, lookup}
use ferrum_foundry.Prelude.{
  sym, String, true, false, List, [], ◌∷◌, Option, none, some, if◌then◌else◌, ◌≡◌, refl, arith,
  Option-cases, inl, inr,
}
use ferrum_foundry.Prelude.Maps.{put, get, get-put_self, get-put_ne, str_dec}
use ferrum_foundry.Policy.{includes}
use ferrum_foundry.Health.{
  scoped_health_fields, is_scalar, copy_scalar, copy_scalars, to_fields, project_namespace_block,
  project_health_summary,
}

-- A field that is copied: a scalar of the source.
abbrev pub scalar_of : Option Json → Option Json
scalar_of none = none
scalar_of (some v) = if is_scalar v then some v else none

abbrev or_old : Option Json → Option Json → Option Json
or_old none old = old
or_old (some v) old = some v

get-copy_scalar :
    (source : Fields) (name k : String) (target : List (String × Json))
    → get k (copy_scalar source name target) ≡ (
        if includes (name ∷ []) k
        then or_old (scalar_of (lookup k source)) (get k target)
        else get k target)
unfolding copy_scalar includes
get-copy_scalar source name k target = elim (Option-cases (lookup name source)) [
  | inl e ↦ ground (arith, str_dec name k)
  | inr (v, e) ↦
      ground (arith, str_dec name k, get-put_self name v target, get-put_ne name k v target)
]

pub get-copy_scalars :
    (source : Fields) (names : List String) (k : String) (target : List (String × Json))
    → get k (copy_scalars source names target) ≡ (
        if includes names k
        then or_old (scalar_of (lookup k source)) (get k target)
        else get k target)
unfolding copy_scalars includes
get-copy_scalars source [] k target = refl
get-copy_scalars source (name ∷ names) k target =
    elim (Option-cases (scalar_of (lookup k source))) [
      | inl e ↦ ground (
        arith,
        str_dec name k,
        get-copy_scalar source name k target,
        get-copy_scalars source names k (copy_scalar source name target),
      )
      | inr (v, e) ↦ ground (
        arith,
        str_dec name k,
        get-copy_scalar source name k target,
        get-copy_scalars source names k (copy_scalar source name target),
      )
    ]

-- What is assigned as the namespace.
abbrev pub block_value : Option (List (String × Json)) → Option Json
block_value none = none
block_value (some b) = some (object (to_fields b))

-- The fields of a summary, read off the body without the loops.
abbrev pub revealed : Fields → List String → String → Option Json
revealed parsed grants k =
    if includes ("namespace" ∷ []) k
    then block_value (project_namespace_block (lookup "namespace" parsed) grants)
    else if includes scoped_health_fields k
    then scalar_of (lookup k parsed)
    else none

abbrev pub get? : String → Option (List (String × Json)) → Option Json
get? k none = none
get? k (some m) = get k m

pub or_old-none : (o : Option Json) → or_old o none ≡ o
or_old-none none = refl
or_old-none (some v) = refl

named : (k : String) → includes ("namespace" ∷ []) k ≡ true → "namespace" ≡ k
unfolding includes
named k h = ground (arith, str_dec "namespace" k)

pub namespace_unscoped :
    (k : String) → includes ("namespace" ∷ []) k ≡ true → includes scoped_health_fields k ≡ false
unfolding includes str_dec
namespace_unscoped k h = elim (str_dec "namespace" k) [
  | yes p ↦ subst (λ t. includes scoped_health_fields t ≡ false) p refl
  | no p ↦ absurd (p (named k h))
]

get-put_same :
    (k : String)
    → "namespace" ≡ k
    → (v : Json) (m : List (String × Json)) → get k (put "namespace" v m) ≡ some v
get-put_same k p v m =
    subst (λ t. get t (put "namespace" v m) ≡ some v) p (get-put_self "namespace" v m)

is_namespace : (k : String) → "namespace" ≡ k → includes ("namespace" ∷ []) k ≡ true
unfolding includes
is_namespace k h = ground (arith, str_dec "namespace" k)

get-summary :
    (parsed : Fields) (k : String)
    → get k (copy_scalars parsed scoped_health_fields [])
      ≡ (if includes scoped_health_fields k then scalar_of (lookup k parsed) else none)
unfolding get
get-summary parsed k = ground (
  arith,
  get-copy_scalars parsed scoped_health_fields k [],
  or_old-none (scalar_of (lookup k parsed)),
)

pub get-revealed :
    (parsed : Fields) (grants : List String) (k : String)
    → get? k (project_health_summary (object parsed) grants) ≡ revealed parsed grants k
unfolding project_health_summary get
get-revealed parsed grants k =
    let summary = copy_scalars parsed scoped_health_fields [] in
    let base = get-summary parsed k in
    elim (Option-cases (project_namespace_block (lookup "namespace" parsed) grants)) [
      | inl e ↦ ground (arith, base, namespace_unscoped k)
      | inr (b, e) ↦ elim (str_dec "namespace" k) [
        | yes p ↦ ground (arith, is_namespace k p, get-put_same k p (object (to_fields b)) summary)
        | no p ↦ ground (
          arith,
          base,
          named k,
          get-put_ne "namespace" k (object (to_fields b)) summary (λ q. p (sym q)),
        )
      ]
    ]

pub get-namespace :
    (parsed : Fields) (grants : List String)
    → get? "namespace" (project_health_summary (object parsed) grants)
      ≡ block_value (project_namespace_block (lookup "namespace" parsed) grants)
get-namespace parsed grants =
    ground (arith, get-revealed parsed grants "namespace", is_namespace "namespace" refl)
