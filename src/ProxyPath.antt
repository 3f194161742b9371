-- ===== src/ProxyPath.antt =====
-- src/server/proxy-path.ts: the path that a proxied request asks the gateway for, the routes that a
-- namespace-scoped principal may reach, and which unmatched requests get the page's shell.
pub mod Segments
pub mod Encoded
pub mod Pieces
pub mod Targets
pub mod Decoding
pub mod Routes
pub mod Denied
mod Tests
use Prim.Native.Char.{Char, code}
use Prim.Native.String.{String, [] as empty_text, ◌∷◌ as prepend, ◌++◌ as ◌++ˢ◌}
use ferrum_foundry.Prelude.{
  ℕ, zero, suc, Bool, true, false, not, ◌&&◌, ◌||◌, List, [], ◌∷◌, Option, none, some, map,
  if◌then◌else◌, leb, ◌==◌, any,
}
use ferrum_foundry.Policy.{includes}
use ferrum_foundry.Registry.{is_code, after_prefix}

-- `value.split(separator)`, the separator by its number
abbrev pub onto_first : Char → List String → List String
onto_first c [] = prepend c empty_text ∷ []
onto_first c (x ∷ xs) = prepend c x ∷ xs

unfoldable pub split : ℕ → String → List String
split separator empty_text = empty_text ∷ []
split separator (prepend c s) =
    let rest = split separator s in
    if is_code separator c then empty_text ∷ rest else onto_first c rest

-- `value.split('?', 1)[0]`
unfoldable pub before_query : String → String
before_query empty_text = empty_text
before_query (prepend c s) =
    let rest = before_query s in if is_code 63 c then empty_text else prepend c rest

unfoldable pub contains : (Char → Bool) → String → Bool
contains p empty_text = false
contains p (prepend c s) = let rest = contains p s in p c || rest

abbrev pub is_control : Char → Bool
is_control c = leb (code c) 31 || is_code 127 c

unfoldable pub contains_control : String → Bool
contains_control s = contains is_control s

-- UNSAFE_SEGMENT_CHARACTER_PATTERN: a percent sign, a slash or a backslash
abbrev pub is_unsafe_character : Char → Bool
is_unsafe_character c = is_code 37 c || (is_code 47 c || is_code 92 c)

unfoldable pub is_unsafe_segment : String → Bool
is_unsafe_segment s =
    contains_control s || (contains is_unsafe_character s || includes ("." ∷ ".." ∷ []) s)

-- `decode` stands for decodeURIComponent, `none` where it throws
unfoldable pub decode_segment : (String → Option String) → String → Option String
decode_segment decode encoded = elim (decode encoded) [
  | none ↦ none
  | some s ↦ if is_unsafe_segment s then none else some s
]

unfoldable pub decode_segments : (String → Option String) → List String → Option (List String)
decode_segments decode [] = some []
decode_segments decode (x ∷ xs) = elim (decode_segment decode x) [
  | none ↦ none
  | some s ↦ elim (decode_segments decode xs) [ none ↦ none | some rest ↦ some (s ∷ rest) ]
]

-- `rawPath.startsWith('/')`, with what follows
unfoldable pub is_plain : String → Bool
is_plain path = not (contains_control path) && not (contains (is_code 35) path)

-- a segment that is empty, but for the last
unfoldable pub has_gap : List String → Bool
has_gap [] = false
has_gap (x ∷ []) = false
has_gap (x ∷ y ∷ ys) = let rest = has_gap (y ∷ ys) in includes ("" ∷ []) x || rest

unfoldable pub path_segments : List String → Option (List String)
path_segments (api ∷ proxy ∷ x ∷ xs) =
    if includes ("api" ∷ []) api && includes ("proxy" ∷ []) proxy && not (has_gap (x ∷ xs))
    then some (x ∷ xs)
    else none
path_segments _ = none

-- `join('/')`, with a slash before it
unfoldable pub join_path : List String → String
join_path [] = empty_text
join_path (x ∷ xs) = "/" ++ˢ (x ++ˢ join_path xs)

module _ (decode : String → Option String) (serialize : String → String) where
  unfoldable pub segments_of : String → Option (List String)
  segments_of path = if not (is_plain path) then none else elim (after_prefix "/" path) [
    | none ↦ none
    | some rest ↦ elim (decode_segments decode (split 47 rest)) [
      | none ↦ none
      | some segments ↦ path_segments segments
    ]
  ]

  -- `serialize` stands for what URL makes of a pathname, `none` for an UnsafeProxyPathError
  unfoldable pub proxy_target_path : String → Option String
  proxy_target_path raw_url = elim (segments_of (before_query raw_url)) [
    | none ↦ none
    | some segments ↦ some (serialize (join_path segments))
  ]

-- the rounds of requestIsApiRoute that are left
unfoldable pub decodes_to_api : (String → Option String) → ℕ → String → Bool
decodes_to_api decode zero path = true
decodes_to_api decode (suc passes) path = elim (after_prefix "/api/" path) [
  | some _ ↦ true
  | none ↦ elim (decode path) [
    | none ↦ false
    | some decoded ↦
        if includes (path ∷ []) decoded then false else decodes_to_api decode passes decoded
  ]
]

abbrev pub max_decode_passes : ℕ
max_decode_passes = 8

abbrev pub begins : String → String → Bool
begins p s = elim (after_prefix p s) [ none ↦ false | some _ ↦ true ]

-- `route` is `request.routeOptions.url`
unfoldable pub request_is_api_route : (String → Option String) → Option String → String → Bool
request_is_api_route decode route url =
    (elim route as (λ _. Bool) [ none ↦ false | some r ↦ begins "/api/" r ])
    || decodes_to_api decode max_decode_passes (before_query url)

unfoldable pub serves_spa_shell : (String → Option String) → String → Option String → String → Bool
serves_spa_shell decode method route url =
    includes ("GET" ∷ "HEAD" ∷ []) method
    && (not (request_is_api_route decode route url)
        && (not (includes ("/api" ∷ []) (before_query url))
            && not (begins "/assets/" (before_query url))))
