-- ===== src/Registry/Query.antt =====
-- src/server/namespace-registry.ts: registryPagination, the page that a scoped list answers.
use Prim.Native.Char.{code}
use Prim.Native.String.{String, [] as empty_text, ◌∷◌ as prepend}
use ferrum_foundry.Prelude.{
  ℕ, ◌+◌, ◌*◌, ◌-◌, ◌≤◌, ◌≡◌, arith, List, [], ◌∷◌, Option, none, some, if◌then◌else◌, ltb, ◌==◌,
  min, inl, inr, Bool-cases, Option-cases,
}
use ferrum_foundry.Policy.{includes}
use ferrum_foundry.Registry.{Refusal, bad_pagination, is_digit, is_code}

-- `BigInt(value)` of digits after those that were read
unfoldable pub digits_from : ℕ → String → Option ℕ
digits_from n empty_text = some n
digits_from n (prepend c s) =
    let rest = digits_from (n * 10 + (code c - 48)) s in if is_digit c then rest else none

unfoldable pub some_digits : String → Option ℕ
some_digits empty_text = none
some_digits (prepend c s) = digits_from 0 (prepend c s)

-- a text of PAGINATION_INTEGER_PATTERN, as the number that it writes
unfoldable pub pagination_integer : String → Option ℕ
pagination_integer empty_text = none
pagination_integer (prepend c s) = if is_code 43 c then some_digits s else some_digits (prepend c s)

abbrev pub largest_offset : ℕ
largest_offset = 9223372036854775807

abbrev pub largest_limit : ℕ
largest_limit = 18446744073709551615

pub record Window : Type 0 where
  pub offset : ℕ
  pub limit : ℕ

pub data WindowCheck : Type 0 where
  rejected : Refusal → WindowCheck
  window : Window → WindowCheck

-- a value that is at most a bound
unfoldable pub parsed : ℕ → String → Option ℕ
parsed bound value = elim (pagination_integer value) [
  | none ↦ none
  | some n ↦ if ltb bound n then none else some n
]

unfoldable pub page_limit : ℕ → ℕ
page_limit n = if n == 0 then 100 else min n 1000

-- one round of the loop over the parameters, `none` where it throws
unfoldable pub read_parameter : String → String → Window → Option Window
read_parameter key value w =
    if includes ("offset" ∷ []) key
    then elim (parsed largest_offset value) [
      | none ↦ none
      | some n ↦ some (record w { offset = n })
    ]
    else if includes ("limit" ∷ []) key
    then elim (parsed largest_limit value) [
      | none ↦ none
      | some n ↦ some (record w { limit = page_limit n })
    ]
    else some w

unfoldable pub read_parameters : List (String × String) → Window → WindowCheck
read_parameters [] w = window w
read_parameters ((key, value) ∷ ps) w = elim (read_parameter key value w) [
  | none ↦ rejected (bad_pagination key)
  | some w' ↦ read_parameters ps w'
]

unfoldable pub registry_pagination : List (String × String) → WindowCheck
registry_pagination ps = read_parameters ps (record { offset = 0; limit = 100 })

-- What a window keeps, whatever the parameters: an offset of 63 bits and a page that is not empty
-- and has at most 1000 names.
pub record IsBounded (w : Window) : Type 0 where
  pub offset_fits : w.offset ≤ largest_offset
  pub limit_above : 1 ≤ w.limit
  pub limit_below : w.limit ≤ 1000

page_limit-bounds : (n : ℕ) → (1 ≤ page_limit n) × (page_limit n ≤ 1000)
unfolding page_limit
page_limit-bounds n = ground arith

parsed-le : (bound n : ℕ) (value : String) → parsed bound value ≡ some n → n ≤ bound
unfolding parsed
parsed-le bound n value h = elim (Option-cases (pagination_integer value)) [
  | inl q ↦ ground arith
  | inr (m, q) ↦ ground arith
]

-- what each parameter puts into the window
set_offset-IsBounded :
    (w : Window) (value : String) (n : ℕ)
    → IsBounded w
    → parsed largest_offset value ≡ some n
    → IsBounded (record w { offset = n })
set_offset-IsBounded w value n b h = record {
  offset_fits = parsed-le largest_offset n value h;
  limit_above = b.limit_above;
  limit_below = b.limit_below;
}

set_limit-IsBounded :
    (w : Window) (n : ℕ) → IsBounded w → IsBounded (record w { limit = page_limit n })
set_limit-IsBounded w n b = record {
  offset_fits = b.offset_fits;
  limit_above = (page_limit-bounds n).0;
  limit_below = (page_limit-bounds n).1;
}

abbrev IsKept : Option Window → Type 0
IsKept none = Unit
IsKept (some w) = IsBounded w

read_parameter-IsKept :
    (key value : String) (w : Window) → IsBounded w → IsKept (read_parameter key value w)
unfolding read_parameter
read_parameter-IsKept key value w b = elim (Bool-cases (includes ("offset" ∷ []) key)) [
  | inl o ↦ elim (Option-cases (parsed largest_offset value)) [
    | inl q ↦ rw (o, q) tt
    | inr (n, q) ↦ rw (o, q) (set_offset-IsBounded w value n b q)
  ]
  | inr o ↦ elim (Bool-cases (includes ("limit" ∷ []) key)) [
    | inl l ↦ elim (Option-cases (parsed largest_limit value)) [
      | inl q ↦ rw (o, l, q) tt
      | inr (n, q) ↦ rw (o, l, q) (set_limit-IsBounded w n b)
    ]
    | inr l ↦ rw (o, l) b
  ]
]

abbrev pub IsBoundedCheck : WindowCheck → Type 0
IsBoundedCheck (rejected _) = Unit
IsBoundedCheck (window w) = IsBounded w

next-IsBounded :
    (key : String) (o : Option Window) (rest : Window → WindowCheck)
    → IsKept o
    → ((w : Window) → IsBounded w → IsBoundedCheck (rest w))
    → IsBoundedCheck
        (elim o as (λ _. WindowCheck) [ none ↦ rejected (bad_pagination key) | some w ↦ rest w ])
next-IsBounded key none rest k h = tt
next-IsBounded key (some w) rest k h = h w k

read_parameters-IsBounded :
    (ps : List (String × String)) (w : Window) → IsBounded w → IsBoundedCheck (read_parameters ps w)
unfolding read_parameters
read_parameters-IsBounded [] w b = b
read_parameters-IsBounded ((key, value) ∷ ps) w b =
    next-IsBounded key (read_parameter key value w) (read_parameters ps)
      (read_parameter-IsKept key value w b) (λ w' b'. read_parameters-IsBounded ps w' b')

-- Whatever the parameters of a request, the page that it asks for is rejected or has an offset
-- of 63 bits and a limit from 1 to 1000.
pub registry_pagination-IsBoundedCheck :
    (ps : List (String × String)) → IsBoundedCheck (registry_pagination ps)
unfolding registry_pagination
registry_pagination-IsBoundedCheck ps =
    read_parameters-IsBounded ps (record { offset = 0; limit = 100 })
      (record { offset_fits = omega arith; limit_above = omega arith; limit_below = omega arith })
