-- ===== src/Registry/Tests.antt =====
-- A registry of three namespaces, read by a principal that is granted two names.
use Prim.Native.Char.{Char}
use Prim.Native.String.{◌++◌ as ◌++ˢ◌}
use ferrum_foundry.Prelude.{
  arith, String, Bool, false, not, List, [], ◌∷◌, none, some, ◌≡◌, ◌⊎◌, ◌↔◌, refl, any, map, keep,
}
use ferrum_foundry.Prelude.Json.{Json, object, string, empty, field, sort}
use ferrum_foundry.Prelude.Maps.{str_dec}
use ferrum_foundry.Policy.{includes}
use ferrum_foundry.Capabilities.{admin}
use ferrum_foundry.Registry.{
  Principal, is_namespace_name, name_goes_on, is_name_character, is_alphanumeric, is_digit,
  after_prefix, place_of, registry_name_allowed, is_admin, lacks_role, authorize_place,
  authorize_registry_path, authorize_registry_body,
}
use ferrum_foundry.Registry.Query.{
  registry_pagination, IsBoundedCheck, registry_pagination-IsBoundedCheck,
}
use ferrum_foundry.Registry.Scan.{names, grants_of, scoped_registry_list, scan_granted_names}
use ferrum_foundry.Registry.Confined.{IsSafeBody, authorize_registry_body-IsSafeBody}
use ferrum_foundry.Registry.Paths.{IsName, HoldsName, authorize_registry_path_iff}
use ferrum_foundry.Registry.Granted.{IsScoped, scoped_registry_list-IsScoped}
use ferrum_foundry.Registry.Distinct.{Unrepeated}
use ferrum_foundry.Registry.Complete.{paged, scan_granted_names-everything}

abbrev clerk : Principal
clerk = record { role = admin; namespaces = some ("shop" ∷ "blog" ∷ []) }

abbrev all_names : List String
all_names = "bank" ∷ "blog" ∷ "shop" ∷ []

abbrev no_space : Char → Bool
no_space c = false

abbrev never : String → String → Bool
never a b = false

abbrev same : String → String
same s = s

permitted : authorize_registry_path "/namespaces/shop" "PUT" clerk ≡ none
unfolding authorize_registry_path place_of after_prefix authorize_place includes str_dec
    is_namespace_name name_goes_on is_name_character is_alphanumeric is_digit lacks_role is_admin
    registry_name_allowed
permitted = refl

abbrev put : String
put = "PUT"

authorize_registry_path_iff_example :
    ((authorize_registry_path "/namespaces" put clerk ≡ none)
      ↔ ((put ≡ "GET") ⊎ ((put ≡ "POST") × (clerk.role ≡ admin))))
    × ((authorize_registry_path ("/namespaces/" ++ˢ "shop") put clerk ≡ none) ↔ (
        ((put ≡ "GET") ⊎ (((put ≡ "PUT") ⊎ (put ≡ "DELETE")) × (clerk.role ≡ admin)))
        × (IsName "shop" × HoldsName clerk.namespaces "shop")))
authorize_registry_path_iff_example = authorize_registry_path_iff "shop" put clerk

abbrev body : Json
body = object (field "name" (string "shop") empty)

authorize_registry_body-IsSafeBody_example :
    IsSafeBody no_space "POST" clerk (authorize_registry_body no_space (some body) "POST" clerk)
authorize_registry_body-IsSafeBody_example =
    authorize_registry_body-IsSafeBody no_space "POST" clerk (some body)

registry_pagination-IsBoundedCheck_example :
    IsBoundedCheck (registry_pagination (("offset", "7") ∷ ("limit", "5000") ∷ []))
registry_pagination-IsBoundedCheck_example =
    registry_pagination-IsBoundedCheck (("offset", "7") ∷ ("limit", "5000") ∷ [])

scoped_registry_list-IsScoped_example : IsScoped (grants_of clerk) (
    scoped_registry_list [] clerk
      (λ grants. scan_granted_names same never grants (paged all_names) 10))
scoped_registry_list-IsScoped_example =
    scoped_registry_list-IsScoped same never (paged all_names) 10 [] clerk

all_valid : any (λ x. not (is_namespace_name x)) all_names ≡ false
unfolding is_namespace_name name_goes_on is_name_character is_alphanumeric is_digit
all_valid = refl

all_apart : Unrepeated (map same all_names)
unfolding includes str_dec
all_apart = (refl, (refl, (refl, tt)))

scan_granted_names-everything_example :
    scan_granted_names same never ("shop" ∷ "blog" ∷ []) (paged all_names) 1
    ≡ names (sort never (keep (includes ("shop" ∷ "blog" ∷ [])) all_names))
scan_granted_names-everything_example =
    scan_granted_names-everything same ("shop" ∷ "blog" ∷ []) never all_names all_valid all_apart 1
      (omega arith) (omega arith)
