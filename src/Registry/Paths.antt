-- ===== src/Registry/Paths.antt =====
-- Which requests for a path of the namespace registry reach the gateway (authorizeRegistryPath),
-- told of the text of the path.
use Prim.Native.Char.{Char, code}
use Prim.Native.String.{String, [] as empty_text, ◌∷◌ as prepend, ◌++◌ as ◌++ˢ◌, count}
use Prim.Native.String.append.{nil, cons}
use Prim.Native.String.count.{nil as count-nil, cons as count-cons}
use ferrum_foundry.Prelude.{
  ℕ, zero, suc, ◌≤◌, Bool, true, List, Option, none, some, ◌≡◌, ◌≢◌, ◌⊎◌, ◌↔◌, refl, ap, arith,
}
use ferrum_foundry.Prelude.Maps.{str_dec}
use ferrum_foundry.Policy.{includes}
use ferrum_foundry.Capabilities.{GatewayRole, admin, viewer, operator}
use ferrum_foundry.Registry.{
  Principal, is_alphanumeric, is_name_character, is_digit, name_goes_on, is_namespace_name,
  after_prefix, place_of, collection, member, registry_name_allowed, is_admin, lacks_role,
  authorize_place, authorize_registry_path,
}

-- `[a-zA-Z0-9]` and `[a-zA-Z0-9._-]`, by the characters' numbers
abbrev pub IsLetterOrDigit : Char → Type 0
IsLetterOrDigit c =
    ((48 ≤ code c) × (code c ≤ 57))
    ⊎ (((65 ≤ code c) × (code c ≤ 90)) ⊎ ((97 ≤ code c) × (code c ≤ 122)))

abbrev pub IsNameCharacter : Char → Type 0
IsNameCharacter c = IsLetterOrDigit c ⊎ ((code c ≡ 45) ⊎ ((code c ≡ 46) ⊎ (code c ≡ 95)))

abbrev pub AllNameCharacters : String → Type 0
AllNameCharacters empty_text = Unit
AllNameCharacters (prepend c s) = IsNameCharacter c × AllNameCharacters s

-- A letter or a digit, then at most 253 characters of a name.
abbrev pub IsName : String → Type 0
IsName empty_text = ⊥
IsName (prepend c s) = IsLetterOrDigit c × (AllNameCharacters s × (count s ≤ 253))

-- A name that the principal's grants hold, where it is confined to any.
abbrev pub HoldsName : Option (List String) → String → Type 0
HoldsName none name = Unit
HoldsName (some names) name = includes names name ≡ true

is_alphanumeric_iff : (c : Char) → (is_alphanumeric c ≡ true) ↔ IsLetterOrDigit c
unfolding is_alphanumeric is_digit
is_alphanumeric_iff c = ground arith

is_name_character_iff : (c : Char) → (is_name_character c ≡ true) ↔ IsNameCharacter c
unfolding is_name_character
is_name_character_iff c = ground (arith, is_alphanumeric_iff c)

name_goes_on_iff :
    (n : ℕ) (s : String) → (name_goes_on n s ≡ true) ↔ (AllNameCharacters s × (count s ≤ n))
unfolding name_goes_on
name_goes_on_iff n empty_text = ground (arith, count-nil)
name_goes_on_iff zero (prepend c s) = ground (arith, count-cons c s)
name_goes_on_iff (suc n) (prepend c s) =
    ground (arith, count-cons c s, is_name_character_iff c, name_goes_on_iff n s)

is_namespace_name_iff : (name : String) → (is_namespace_name name ≡ true) ↔ IsName name
unfolding is_namespace_name
is_namespace_name_iff empty_text = ground arith
is_namespace_name_iff (prepend c s) = ground (arith, is_alphanumeric_iff c, name_goes_on_iff 253 s)

registry_name_allowed_iff :
    (p : Principal) (name : String)
    → (registry_name_allowed p name ≡ true) ↔ HoldsName p.namespaces name
unfolding registry_name_allowed
registry_name_allowed_iff p name = go p.namespaces
  where
    go :
        (o : Option (List String))
        → ((elim o as (λ _. Bool) [ none ↦ true | some names ↦ includes names name ]) ≡ true)
          ↔ HoldsName o name
    go none = ground arith
    go (some names) = ground arith

is_admin_iff : (r : GatewayRole) → (is_admin r ≡ true) ↔ (r ≡ admin)
unfolding is_admin
is_admin_iff viewer = ground arith
is_admin_iff operator = ground arith
is_admin_iff admin = ground arith

pub after_prefix-append : (p s : String) → after_prefix p (p ++ˢ s) ≡ some s
unfolding after_prefix
after_prefix-append empty_text s = rw (nil s) refl
after_prefix-append (prepend c p) s = rw (cons c p s) (ground (arith, after_prefix-append p s))

after_prefix-itself : after_prefix "/namespaces/" "/namespaces" ≡ none
unfolding after_prefix
after_prefix-itself = refl

not_collection : (name : String) → "/namespaces" ≢ ("/namespaces/" ++ˢ name)
not_collection name h =
    let a = ap (after_prefix "/namespaces/") h in
    ground (arith, a, after_prefix-append "/namespaces/" name, after_prefix-itself)

place_of-collection : place_of "/namespaces" ≡ collection
unfolding place_of includes
place_of-collection = ground (arith, str_dec "/namespaces" "/namespaces")

place_of-member : (name : String) → place_of ("/namespaces/" ++ˢ name) ≡ member name
unfolding place_of includes
place_of-member name = ground (
  arith,
  str_dec "/namespaces" ("/namespaces/" ++ˢ name),
  not_collection name,
  after_prefix-append "/namespaces/" name,
)

collection_iff :
    (method : String) (p : Principal)
    → (authorize_place collection method p ≡ none)
      ↔ ((method ≡ "GET") ⊎ ((method ≡ "POST") × (p.role ≡ admin)))
unfolding authorize_place lacks_role includes
collection_iff method p =
    ground (arith, str_dec "GET" method, str_dec "POST" method, is_admin_iff p.role)

member_iff :
    (name method : String) (p : Principal)
    → (authorize_place (member name) method p ≡ none) ↔ (
        ((method ≡ "GET") ⊎ (((method ≡ "PUT") ⊎ (method ≡ "DELETE")) × (p.role ≡ admin)))
        × (IsName name × HoldsName p.namespaces name))
unfolding authorize_place lacks_role includes
member_iff name method p = ground (
  arith,
  str_dec "GET" method,
  str_dec "PUT" method,
  str_dec "DELETE" method,
  is_admin_iff p.role,
  is_namespace_name_iff name,
  registry_name_allowed_iff p name,
)

-- Which requests for the registry's paths are let through. For `/namespaces`, exactly a GET, and an
-- admin's POST. For `/namespaces/` and any text after it, exactly a GET, and an admin's PUT or
-- DELETE, where that text is a namespace's name (a letter or a digit, then at most 253 letters,
-- digits, dots, underscores and hyphens) and, of a principal confined to namespaces, one of them.
pub authorize_registry_path_iff :
    (name method : String) (p : Principal)
    → ((authorize_registry_path "/namespaces" method p ≡ none)
        ↔ ((method ≡ "GET") ⊎ ((method ≡ "POST") × (p.role ≡ admin))))
      × ((authorize_registry_path ("/namespaces/" ++ˢ name) method p ≡ none) ↔ (
          ((method ≡ "GET") ⊎ (((method ≡ "PUT") ⊎ (method ≡ "DELETE")) × (p.role ≡ admin)))
          × (IsName name × HoldsName p.namespaces name)))
unfolding authorize_registry_path
authorize_registry_path_iff name method p = (
  rw place_of-collection (collection_iff method p),
  rw (place_of-member name) (member_iff name method p),
)
