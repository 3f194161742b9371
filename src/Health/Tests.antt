-- ===== src/Health/Tests.antt =====
-- A detailed health body, for a principal of one namespace.
use ferrum_foundry.Prelude.{[], ◌∷◌, ◌≡◌}
use ferrum_foundry.Prelude.Json.{Json, Fields, string, object, field, empty, lookup}
use ferrum_foundry.Health.{project_health_summary}
use ferrum_foundry.Health.Projection.{get?}
use ferrum_foundry.Health.Summary.{
  beside_namespace, shown, ShowsBlock, open_block, get-project_health_summary,
}

abbrev body : Fields
body = field "status" (string "ok") (
    field "database" (object empty)
      (field "namespace" (object (field "active" (string "team") empty)) empty))

abbrev team : Json
team = object (field "active" (string "team") empty)

get-project_health_summary_example :
    let out = project_health_summary (object body) ("team" ∷ []) in
    (beside_namespace "status" (get? "status" out)
      ≡ shown
          ("status" ∷ "timestamp" ∷ "mode" ∷ "admin_writes_enabled" ∷ "ready" ∷ [])
          body
          "status")
    × ShowsBlock
        (open_block ("team" ∷ []) (lookup "namespace" body))
        (get? "namespace" out)
        "active"
get-project_health_summary_example = get-project_health_summary body ("team" ∷ []) "status" "active"
