-- ===== src/Health/Summary.antt =====
-- What a summary shows of a body, told of the body and the grants alone.
use mathlib.Core.Path.{subst}
use ferrum_foundry.Prelude.Json.{boolean, number, Json, Fields, null, string, array, object, lookup}
use ferrum_foundry.Prelude.{
  sym, String, false, List, [], ◌∷◌, Option, none, some, if◌then◌else◌, ◌≡◌, refl, arith, inl, inr,
  Bool, Bool-cases,
}
use ferrum_foundry.Prelude.Maps.{get}
use ferrum_foundry.Policy.{includes}
use ferrum_foundry.Health.{
  namespace_block_fields, is_scalar, copy_scalars, to_fields, is_granted, project_namespace_block,
  project_health_summary,
}
use ferrum_foundry.Health.Projection.{
  scalar_of, get-copy_scalars, or_old-none, block_value, get?, get-revealed, get-namespace,
  namespace_unscoped,
}

-- A value that may be shown: none that holds others.
abbrev pub plain_value : Option Json → Option Json
plain_value (some (array _)) = none
plain_value (some (object _)) = none
plain_value o = o

-- What may be shown of an object under a name: a plain value, under one of the names given.
abbrev pub shown : List String → Fields → String → Option Json
shown names source k = if includes names k then plain_value (lookup k source) else none

-- What is held under a name other than the namespace's.
abbrev pub beside_namespace : String → Option Json → Option Json
beside_namespace k o = if includes ("namespace" ∷ []) k then none else o

abbrev pub holds_name : List String → Option Json → Bool
holds_name grants (some (string s)) = includes grants s
holds_name grants _ = false

-- A namespace block that may be shown: an object whose active namespace is granted.
abbrev pub open_block : List String → Option Json → Option Fields
open_block grants (some (object block)) =
    if holds_name grants (lookup "active" block) then some block else none
open_block grants _ = none

-- What a summary holds as its namespace: nothing where no block may be shown, else an object with
-- three fields of the block at most.
abbrev pub ShowsBlock : Option Fields → Option Json → String → Type 0
ShowsBlock none o j = o ≡ none
ShowsBlock (some block) o j =
    (fs : Fields) × (o ≡ some (object fs))
    × (lookup j fs
        ≡ shown ("active" ∷ "serving_scope" ∷ "data_plane_single_namespace" ∷ []) block j)

scalar_of-plain_value : (o : Option Json) → scalar_of o ≡ plain_value o
unfolding is_scalar
scalar_of-plain_value none = refl
scalar_of-plain_value (some null) = refl
scalar_of-plain_value (some (boolean _)) = refl
scalar_of-plain_value (some (number _)) = refl
scalar_of-plain_value (some (string _)) = refl
scalar_of-plain_value (some (array _)) = refl
scalar_of-plain_value (some (object _)) = refl

is_granted-holds_name :
    (o : Option Json) (grants : List String) → is_granted o grants ≡ holds_name grants o
unfolding is_granted
is_granted-holds_name none grants = refl
is_granted-holds_name (some null) grants = refl
is_granted-holds_name (some (boolean _)) grants = refl
is_granted-holds_name (some (number _)) grants = refl
is_granted-holds_name (some (string _)) grants = refl
is_granted-holds_name (some (array _)) grants = refl
is_granted-holds_name (some (object _)) grants = refl

lookup-to_fields : (k : String) (m : List (String × Json)) → lookup k (to_fields m) ≡ get k m
unfolding lookup to_fields get
lookup-to_fields k [] = refl
lookup-to_fields k ((j, v) ∷ m) = rw (lookup-to_fields k m) refl

lookup-copied :
    (block : Fields) (j : String)
    → lookup j (to_fields (copy_scalars block namespace_block_fields []))
      ≡ shown ("active" ∷ "serving_scope" ∷ "data_plane_single_namespace" ∷ []) block j
unfolding get
lookup-copied block j = ground (
  arith,
  lookup-to_fields j (copy_scalars block namespace_block_fields []),
  get-copy_scalars block namespace_block_fields j [],
  or_old-none (scalar_of (lookup j block)),
  scalar_of-plain_value (lookup j block),
)

block-ShowsBlock :
    (o : Option Json) (grants : List String) (j : String)
    → ShowsBlock (open_block grants o) (block_value (project_namespace_block o grants)) j
unfolding project_namespace_block
block-ShowsBlock none grants j = refl
block-ShowsBlock (some null) grants j = refl
block-ShowsBlock (some (boolean _)) grants j = refl
block-ShowsBlock (some (number _)) grants j = refl
block-ShowsBlock (some (string _)) grants j = refl
block-ShowsBlock (some (array _)) grants j = refl
block-ShowsBlock (some (object block)) grants j =
    rw (is_granted-holds_name (lookup "active" block) grants)
      (elim (Bool-cases (holds_name grants (lookup "active" block))) [
        | inl e ↦
            rw e (
              to_fields (copy_scalars block namespace_block_fields []),
              refl,
              lookup-copied block j,
            )
        | inr e ↦ rw e refl
      ])

-- What a summary of an object shows. Under every name but the namespace's it holds the body's
-- value where that is no object and no array and the name is one of the five health fields, else
-- nothing. As the namespace it holds nothing, unless the body's is an object whose active namespace
-- is a granted text: then an object, which under each of three names holds the block's value where
-- that is no object and no array, and under any other nothing.
pub get-project_health_summary :
    (parsed : Fields) (grants : List String) (k j : String)
    → let out = project_health_summary (object parsed) grants in
      (beside_namespace k (get? k out)
        ≡ shown ("status" ∷ "timestamp" ∷ "mode" ∷ "admin_writes_enabled" ∷ "ready" ∷ []) parsed k)
      × ShowsBlock (open_block grants (lookup "namespace" parsed)) (get? "namespace" out) j
get-project_health_summary parsed grants k j = (
  ground (
    arith,
    get-revealed parsed grants k,
    namespace_unscoped k,
    scalar_of-plain_value (lookup k parsed),
  ),
  subst (λ o. ShowsBlock (open_block grants (lookup "namespace" parsed)) o j)
      (sym (get-namespace parsed grants)) (block-ShowsBlock (lookup "namespace" parsed) grants j),
)
