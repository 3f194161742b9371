-- ===== src/Registry.antt =====
-- src/server/namespace-registry.ts and the name policy of src/shared/namespace.js: which requests to
-- the namespace registry reach the gateway, and with which body.
pub mod Query
pub mod Scan
pub mod Confined
pub mod Paths
pub mod Granted
pub mod Distinct
pub mod Complete
mod Tests
use Prim.Native.Char.{Char, code}
use Prim.Native.String.{String, [] as empty_text, ◌∷◌ as prepend, count}
use ferrum_foundry.Prelude.{
  ℕ, zero, suc, ◌+◌, ◌*◌, ◌-◌, Bool, true, false, not, ◌&&◌, ◌||◌, List, [], ◌∷◌, Option, none,
  some, if◌then◌else◌, leb, ltb, ◌==◌, min,
}
use ferrum_foundry.Prelude.Json.{Json, null, string, object, Fields, empty, field, lookup}
use ferrum_foundry.Policy.{includes}
use ferrum_foundry.Capabilities.{GatewayRole, admin}

-- AuthPrincipal; `none` for a principal that is not confined to namespaces
pub record Principal : Type 0 where
  pub role : GatewayRole
  pub namespaces : Option (List String)

-- A RegistryRequestError, by its status and what it is about.
pub data Refusal : Type 0 where
  unsupported bad_json not_object bad_name bad_description long_description : Refusal
  bad_pagination : String → Refusal
  insufficient_role access_denied : Refusal

unfoldable pub status : Refusal → ℕ
status insufficient_role = 403
status access_denied = 403
status _ = 400

abbrev pub is_code : ℕ → Char → Bool
is_code n c = code c == n

abbrev pub in_range : ℕ → ℕ → Char → Bool
in_range low high c = leb low (code c) && leb (code c) high

-- `[0-9]`, `[a-zA-Z0-9]` and `[a-zA-Z0-9._-]`
unfoldable pub is_digit : Char → Bool
is_digit c = in_range 48 57 c

unfoldable pub is_alphanumeric : Char → Bool
is_alphanumeric c = in_range 97 122 c || (in_range 65 90 c || is_digit c)

unfoldable pub is_name_character : Char → Bool
is_name_character c = is_alphanumeric c || (is_code 46 c || (is_code 95 c || is_code 45 c))

-- at most so many further characters of a name
unfoldable pub name_goes_on : ℕ → String → Bool
name_goes_on n empty_text = true
name_goes_on zero (prepend c s) = false
name_goes_on (suc n) (prepend c s) = let rest = name_goes_on n s in is_name_character c && rest

-- `isNamespaceName` of a string
unfoldable pub is_namespace_name : String → Bool
is_namespace_name empty_text = false
is_namespace_name (prepend c s) = is_alphanumeric c && name_goes_on 253 s

-- what is left of a text that starts with another, as `startsWith` and `slice` read it
unfoldable pub after_prefix : String → String → Option String
after_prefix empty_text s = some s
after_prefix (prepend c p) empty_text = none
after_prefix (prepend c p) (prepend d s) =
    let rest = after_prefix p s in if code c == code d then rest else none

-- What a path names: nothing of the registry, its collection, or a text after `/namespaces/`.
pub data Place : Type 0 where
  elsewhere collection : Place
  member : String → Place

unfoldable pub place_of : String → Place
place_of path =
    if includes ("/namespaces" ∷ []) path
    then collection
    else elim (after_prefix "/namespaces/" path) [ none ↦ elsewhere | some name ↦ member name ]

unfoldable pub is_registry_path : String → Bool
is_registry_path path = elim (place_of path) [ elsewhere ↦ false | _ ↦ true ]

unfoldable pub registry_name_allowed : Principal → String → Bool
registry_name_allowed p name = elim p.namespaces [ none ↦ true | some names ↦ includes names name ]

unfoldable pub is_admin : GatewayRole → Bool
is_admin admin = true
is_admin _ = false

-- `method !== 'GET' && principal.role !== 'admin'`
unfoldable pub lacks_role : String → Principal → Bool
lacks_role method p = not (includes ("GET" ∷ []) method) && not (is_admin p.role)

-- `none` where the function returns
unfoldable pub authorize_place : Place → String → Principal → Option Refusal
authorize_place elsewhere method p = none
authorize_place collection method p =
    if not (includes ("GET" ∷ "POST" ∷ []) method)
    then some unsupported
    else if lacks_role method p
    then some insufficient_role
    else none
authorize_place (member name) method p =
    if not (includes ("GET" ∷ "PUT" ∷ "DELETE" ∷ []) method) || not (is_namespace_name name)
    then some unsupported
    else if lacks_role method p
    then some insufficient_role
    else if not (registry_name_allowed p name)
    then some access_denied
    else none

unfoldable pub authorize_registry_path : String → String → Principal → Option Refusal
authorize_registry_path path method p = authorize_place (place_of path) method p

-- `normalizeNamespaceDescription`; `is_space` stands for the runtime's table of White_Space
unfoldable pub trim_start : (Char → Bool) → String → String
trim_start is_space empty_text = empty_text
trim_start is_space (prepend c s) =
    let rest = trim_start is_space s in if is_space c then rest else prepend c s

-- a character before a trimmed text, dropped where it is a blank at the end
unfoldable pub before_trimmed : Bool → Char → String → String
before_trimmed blank c (prepend d s) = prepend c (prepend d s)
before_trimmed blank c empty_text = if blank then empty_text else prepend c empty_text

unfoldable pub trim_end : (Char → Bool) → String → String
trim_end is_space empty_text = empty_text
trim_end is_space (prepend c s) = before_trimmed (is_space c) c (trim_end is_space s)

unfoldable pub normalize_namespace_description : (Char → Bool) → String → String
normalize_namespace_description is_space s = trim_end is_space (trim_start is_space s)

unfoldable pub is_too_long : (Char → Bool) → String → Bool
is_too_long is_space s = ltb 1024 (count (normalize_namespace_description is_space s))

pub data BodyCheck : Type 0 where
  refused : Refusal → BodyCheck
  forwarded : Fields → BodyCheck

-- the two members that are written again, each where the body has it
unfoldable pub rewritten : Option Json → Option Json → Fields
rewritten name description =
    let rest : Fields = elim description [ none ↦ empty | some d ↦ field "description" d empty ] in
    elim name [ none ↦ rest | some n ↦ field "name" n rest ]

unfoldable pub check_description : (Char → Bool) → Option Json → Option Refusal
check_description is_space none = none
check_description is_space (some null) = none
check_description is_space (some (string s)) =
    if is_too_long is_space s then some long_description else none
check_description is_space (some _) = some bad_description

unfoldable pub check_name : String → Principal → Option Json → Option Refusal
check_name method p none = if includes ("POST" ∷ []) method then some bad_name else none
check_name method p (some (string name)) =
    if not (is_namespace_name name)
    then some bad_name
    else if not (registry_name_allowed p name)
    then some access_denied
    else none
check_name method p (some _) = some bad_name

unfoldable pub check_members :
    (Char → Bool) → String → Principal → Option Json → Option Json → BodyCheck
check_members is_space method p name description = elim (check_name method p name) [
  | some r ↦ refused r
  | none ↦ elim (check_description is_space description) [
    | some r ↦ refused r
    | none ↦ forwarded (rewritten name description)
  ]
]

-- `none` for bytes that are no UTF-8 or no JSON
unfoldable pub authorize_registry_body :
    (Char → Bool) → Option Json → String → Principal → BodyCheck
authorize_registry_body is_space none method p = refused bad_json
authorize_registry_body is_space (some (object body)) method p =
    check_members is_space method p (lookup "name" body) (lookup "description" body)
authorize_registry_body is_space (some _) method p = refused not_object
