-- ===== src/Prelude/Apart.antt =====
-- Two maps with no key in common.
use Prim.Native.String.{String}
use mathlib.Core.Path.{◌≡◌}
use mathlib.Core.Logic.{◌⊎◌, inl, inr}
use mathlib.Core.List.{List}
use mathlib.Core.Option.{none, some}
use native.Mathlib.Omega.{arith}
use ferrum_foundry.Prelude.Maps.{
  str_dec, get, put, delete, get-put_ne, get-delete_self, get-delete_ne,
}

module _ {ℓ} {V : Type ℓ} where
  abbrev pub Apart : List (String × V) → List (String × V) → Type ℓ
  Apart m n = (k : String) → (get k m ≡ none) ⊎ (get k n ≡ none)

  pub absent_right :
      (m n : List (String × V)) (k : String) (v : V) → Apart m n → get k m ≡ some v → get k n ≡ none
  absent_right m n k v a h = ground (arith, a k)

  pub absent_left :
      (m n : List (String × V)) (k : String) (v : V) → Apart m n → get k n ≡ some v → get k m ≡ none
  absent_left m n k v a h = ground (arith, a k)

  module _ (key : String) (e : V) (m n : List (String × V)) (a : Apart m n) where
    pub Apart-put_left : get key n ≡ none → Apart (put key e m) n
    Apart-put_left h k = elim (str_dec k key) [
      | yes p ↦ inr (rw p h)
      | no p ↦ ground (arith, a k, get-put_ne key k e m)
    ]

    pub Apart-put_right : get key m ≡ none → Apart m (put key e n)
    Apart-put_right h k = elim (str_dec k key) [
      | yes p ↦ inl (rw p h)
      | no p ↦ ground (arith, a k, get-put_ne key k e n)
    ]

    -- The key moves from the second map to the first.
    pub Apart-move : Apart (put key e m) (delete key n)
    Apart-move k = elim (str_dec k key) [
      | yes p ↦ inr (rw p (get-delete_self key n))
      | no p ↦ ground (arith, a k, get-put_ne key k e m, get-delete_ne key k n)
    ]

    -- The key moves from the first map to the second.
    pub Apart-move_back : Apart (delete key m) (put key e n)
    Apart-move_back k = elim (str_dec k key) [
      | yes p ↦ inl (rw p (get-delete_self key m))
      | no p ↦ ground (arith, a k, get-put_ne key k e n, get-delete_ne key k m)
    ]

  module _ (key : String) (m n : List (String × V)) (a : Apart m n) where
    pub Apart-delete_left : Apart (delete key m) n
    Apart-delete_left k = elim (str_dec k key) [
      | yes p ↦ inl (rw p (get-delete_self key m))
      | no p ↦ ground (arith, a k, get-delete_ne key k m)
    ]

    pub Apart-delete_right : Apart m (delete key n)
    Apart-delete_right k = elim (str_dec k key) [
      | yes p ↦ inr (rw p (get-delete_self key n))
      | no p ↦ ground (arith, a k, get-delete_ne key k n)
    ]
