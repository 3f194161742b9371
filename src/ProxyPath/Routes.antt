-- ===== src/ProxyPath/Routes.antt =====
-- src/server/proxy-path.ts: the routes that a namespace-scoped principal may reach. A pattern of the
-- source is one route for each of its shapes, as the texts between slashes that it asks for.
use Prim.Native.String.{String}
use ferrum_foundry.Prelude.{
  Bool, true, false, not, ◌&&◌, ◌||◌, List, [], ◌∷◌, Option, none, some, if◌then◌else◌, any, ◌≡◌,
}
use ferrum_foundry.Policy.{includes}
use ferrum_foundry.Registry.{after_prefix}
use ferrum_foundry.ProxyPath.{split, proxy_target_path}

-- `(a|b)` of one or more texts, and `[^/]+`
pub data Piece : Type 0 where
  one_of : List String → Piece
  any_name : Piece

pub record Route : Type 0 where
  pub methods : List String
  pub pieces : List Piece
  pub may_end_in_slash : Bool

abbrev text : String → Piece
text s = one_of (s ∷ [])

unfoldable pub matches_piece : Piece → String → Bool
matches_piece (one_of texts) s = includes texts s
matches_piece any_name s = not (includes ("" ∷ []) s)

unfoldable pub matches_pieces : Bool → List Piece → List String → Bool
matches_pieces slash [] [] = true
matches_pieces slash [] (s ∷ []) = slash && includes ("" ∷ []) s
matches_pieces slash [] (s ∷ t ∷ ss) = false
matches_pieces slash (p ∷ ps) [] = false
matches_pieces slash (p ∷ ps) (s ∷ ss) =
    let rest = matches_pieces slash ps ss in matches_piece p s && rest

-- the texts between the slashes of a path that begins with one
unfoldable pub texts_of : String → Option (List String)
texts_of path = elim (after_prefix "/" path) [ none ↦ none | some rest ↦ some (split 47 rest) ]

unfoldable pub matches_path : Route → String → Bool
matches_path r path = elim (texts_of path) [
  | none ↦ false
  | some ss ↦ matches_pieces r.may_end_in_slash r.pieces ss
]

abbrev resources : Piece
resources =
    one_of ("proxies" ∷ "upstreams" ∷ "consumers" ∷ "api-specs" ∷ "gateway-trust-bundles" ∷ [])

abbrev route : List String → List Piece → Route
route methods pieces = record { methods = methods; pieces = pieces; may_end_in_slash = true }

abbrev exact : List String → List Piece → Route
exact methods pieces = record { methods = methods; pieces = pieces; may_end_in_slash = false }

-- NAMESPACE_SCOPED_ROUTES
unfoldable pub namespace_scoped_routes : List Route
namespace_scoped_routes =
    route ("GET" ∷ "POST" ∷ []) (resources ∷ [])
    ∷ route ("GET" ∷ "POST" ∷ []) (text "plugins" ∷ text "config" ∷ [])
    ∷ route ("GET" ∷ "PUT" ∷ "DELETE" ∷ []) (resources ∷ any_name ∷ [])
    ∷ route ("GET" ∷ "PUT" ∷ "DELETE" ∷ []) (text "plugins" ∷ text "config" ∷ any_name ∷ [])
    ∷ route ("POST" ∷ "PUT" ∷ "DELETE" ∷ [])
        (text "consumers" ∷ any_name ∷ text "credentials" ∷ any_name ∷ [])
    ∷ route ("DELETE" ∷ [])
        (text "consumers" ∷ any_name ∷ text "credentials" ∷ any_name ∷ any_name ∷ [])
    ∷ route ("GET" ∷ []) (text "api-specs" ∷ text "by-proxy" ∷ any_name ∷ [])
    ∷ route ("GET" ∷ []) (text "proxies" ∷ any_name ∷ text "mcp" ∷ text "tools" ∷ [])
    ∷ route ("GET" ∷ []) (text "gateway-trust" ∷ text "status" ∷ [])
    ∷ route ("GET" ∷ []) (text "config" ∷ text "export" ∷ [])
    ∷ route ("GET" ∷ []) (text "audit" ∷ [])
    ∷ exact ("GET" ∷ []) (text "backend-egress-policy" ∷ [])
    ∷ route ("POST" ∷ []) (one_of ("batch" ∷ "restore" ∷ []) ∷ [])
    ∷ route ("GET" ∷ []) (text "backup" ∷ [])
    ∷ []

-- NAMESPACE_SAFE_GLOBAL_ROUTES
unfoldable pub namespace_safe_global_routes : List Route
namespace_safe_global_routes =
    exact ("GET" ∷ []) (text "plugins" ∷ [])
    ∷ exact ("GET" ∷ "POST" ∷ []) (text "namespaces" ∷ [])
    ∷ exact ("GET" ∷ "PUT" ∷ "DELETE" ∷ []) (text "namespaces" ∷ any_name ∷ [])
    ∷ exact ("GET" ∷ []) (one_of ("live" ∷ "health" ∷ "status" ∷ []) ∷ [])
    ∷ []

unfoldable pub classified_method : String → String
classified_method method = if includes ("HEAD" ∷ []) method then "GET" else method

unfoldable pub allows : String → String → Route → Bool
allows method path r = includes r.methods method && matches_path r path

module _ (decode : String → Option String) (serialize : String → String) where
  unfoldable pub proxy_path_is_allowed_for_namespace : String → String → Bool
  proxy_path_is_allowed_for_namespace method raw_url =
      elim (proxy_target_path decode serialize raw_url) [
        | none ↦ false
        | some path ↦
            any (allows (classified_method method) path) namespace_safe_global_routes
            || any (allows (classified_method method) path) namespace_scoped_routes
      ]

  unfoldable pub proxy_path_is_edge_namespace_safe_global : String → String → Bool
  proxy_path_is_edge_namespace_safe_global method raw_url =
      elim (proxy_target_path decode serialize raw_url) [
        | none ↦ false
        | some path ↦ any (allows (classified_method method) path) namespace_safe_global_routes
      ]

-- The classes of the gateway's routes that a scoped principal may reach.
abbrev pub known_classes : List String
known_classes =
    "proxies" ∷ "upstreams" ∷ "consumers" ∷ "plugins" ∷ "api-specs" ∷ "gateway-trust-bundles"
    ∷ "gateway-trust" ∷ "config" ∷ "audit" ∷ "backend-egress-policy" ∷ "batch" ∷ "restore"
    ∷ "backup" ∷ "namespaces" ∷ "live" ∷ "health" ∷ "status" ∷ []

abbrev pub first_text : Option (List String) → Option String
first_text none = none
first_text (some []) = none
first_text (some (s ∷ ss)) = some s

-- The path's first text is one of the classes.
abbrev pub IsKnown : String → Type 0
IsKnown path =
    (class_name : String) × (first_text (texts_of path) ≡ some class_name)
    × (includes known_classes class_name ≡ true)
