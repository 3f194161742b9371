-- ===== src/Health.antt =====
-- server/health-summary.ts: the health fields that a namespace-scoped principal receives. A parsed
-- body is a JSON value; an object that the code builds is the list of its fields in the order of
-- their assignment, and `none` is `undefined`.
pub mod Projection
pub mod Summary
mod Tests
use ferrum_foundry.Prelude.{
  String, Bool, true, false, List, [], ◌∷◌, Option, none, some, if◌then◌else◌,
}
use ferrum_foundry.Prelude.Maps.{put}
use ferrum_foundry.Prelude.Json.{
  Json, Fields, null, boolean, number, string, array, object, field, empty, lookup,
}
use ferrum_foundry.Policy.{includes}

abbrev pub scoped_health_fields : List String
scoped_health_fields = "status" ∷ "timestamp" ∷ "mode" ∷ "admin_writes_enabled" ∷ "ready" ∷ []

abbrev pub namespace_block_fields : List String
namespace_block_fields = "active" ∷ "serving_scope" ∷ "data_plane_single_namespace" ∷ []

-- `value === null || typeof value !== 'object'`
unfoldable pub is_scalar : Json → Bool
is_scalar (array _) = false
is_scalar (object _) = false
is_scalar _ = true

-- one round of the loop of copyScalars
unfoldable pub copy_scalar : Fields → String → List (String × Json) → List (String × Json)
copy_scalar source name target = elim (lookup name source) [
  | none ↦ target
  | some value ↦ if is_scalar value then put name value target else target
]

unfoldable pub copy_scalars : Fields → List String → List (String × Json) → List (String × Json)
copy_scalars source [] target = target
copy_scalars source (name ∷ names) target =
    copy_scalars source names (copy_scalar source name target)

unfoldable pub to_fields : List (String × Json) → Fields
to_fields [] = empty
to_fields ((k, v) ∷ m) = field k v (to_fields m)

-- `typeof value.active !== 'string' || !grants.includes(value.active)`, the other way round
unfoldable pub is_granted : Option Json → List String → Bool
is_granted (some (string active)) grants = includes grants active
is_granted _ grants = false

unfoldable pub project_namespace_block : Option Json → List String → Option (List (String × Json))
project_namespace_block (some (object value)) grants =
    if is_granted (lookup "active" value) grants
    then some (copy_scalars value namespace_block_fields [])
    else none
project_namespace_block _ grants = none

unfoldable pub project_health_summary : Json → List String → Option (List (String × Json))
project_health_summary (object parsed) grants =
    let summary = copy_scalars parsed scoped_health_fields [] in
    elim (project_namespace_block (lookup "namespace" parsed) grants) [
      | none ↦ some summary
      | some namespace ↦ some (put "namespace" (object (to_fields namespace)) summary)
    ]
project_health_summary _ grants = none
