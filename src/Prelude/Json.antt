-- ===== src/Prelude/Json.antt =====
-- A parsed JSON value, what `Array.isArray` and a property access answer for it, and a stable sort.
use Prim.Native.String.{String}
use mathlib.Core.Logic.{ite}
use mathlib.Core.Bool.{Bool}
use mathlib.Core.List.{List, [], ◌∷◌}
use mathlib.Core.Option.{Option, none, some}
use ferrum_foundry.Prelude.Tests.{if◌then◌else◌}
use ferrum_foundry.Prelude.Maps.{str_dec}

-- A number is kept as its text: the code modelled here never computes with one.
mutual
  pub data Json : Type 0 where
    null : Json
    boolean : Bool → Json
    number : String → Json
    string : String → Json
    array : Jsons → Json
    object : Fields → Json

  pub data Jsons : Type 0 where
    nil : Jsons
    cons : Json → Jsons → Jsons

  pub data Fields : Type 0 where
    empty : Fields
    field : String → Json → Fields → Fields

-- `o[key]` of an object's own fields; `none` is `undefined`
unfoldable pub lookup : String → Fields → Option Json
lookup key empty = none
lookup key (field k v fs) = ite (str_dec k key) (some v) (lookup key fs)

unfoldable pub to_list : Jsons → List Json
to_list nil = []
to_list (cons x xs) = x ∷ to_list xs

module _ {ℓ} {A : Type ℓ} where
  -- `Array.prototype.sort`, which is stable; `le x y` is "the comparison of x to y is not above 0"
  unfoldable pub insert : (A → A → Bool) → A → List A → List A
  insert le x [] = x ∷ []
  insert le x (y ∷ ys) = if le x y then x ∷ y ∷ ys else y ∷ insert le x ys

  unfoldable pub sort : (A → A → Bool) → List A → List A
  sort le [] = []
  sort le (x ∷ xs) = insert le x (sort le xs)
