-- ===== src/Prelude/Orders.antt =====
-- What a list keeps when its elements change places.
use mathlib.Core.Path.{◌≡◌, refl, ◌∙◌, subst}
use mathlib.Core.Bool.{Bool}
use mathlib.Core.List.{List, Permᴰ}
use native.Mathlib.Omega.{arith}
use ferrum_foundry.Prelude.Lists.{any, length, All, keep}

module _ {A : Type 0} where
  pub Permᴰ-any : (p : A → Bool) {xs ys : List A} → Permᴰ xs ys → any p xs ≡ any p ys
  Permᴰ-any p Permᴰ.nil = refl
  Permᴰ-any p (Permᴰ.cons e h) = ground (arith, Permᴰ-any p h)
  Permᴰ-any p (Permᴰ.swap d e) = ground arith
  Permᴰ-any p (Permᴰ.trans h k) = Permᴰ-any p h ∙ Permᴰ-any p k

  pub Permᴰ-All : (P : A → Type 0) {xs ys : List A} → Permᴰ xs ys → All P xs → All P ys
  Permᴰ-All P Permᴰ.nil h = tt
  Permᴰ-All P (Permᴰ.cons e q) (h, hs) = (subst P e h, Permᴰ-All P q hs)
  Permᴰ-All P (Permᴰ.swap d e) (h, (k, hs)) = (subst P e k, (subst P d h, hs))
  Permᴰ-All P (Permᴰ.trans q r) h = Permᴰ-All P r (Permᴰ-All P q h)

  -- The number of elements that are kept.
  pub Permᴰ-keep :
      (p : A → Bool) {xs ys : List A} → Permᴰ xs ys → length (keep p xs) ≡ length (keep p ys)
  Permᴰ-keep p Permᴰ.nil = refl
  Permᴰ-keep p (Permᴰ.cons e h) = ground (arith, Permᴰ-keep p h)
  Permᴰ-keep p (Permᴰ.swap d e) = ground arith
  Permᴰ-keep p (Permᴰ.trans h k) = Permᴰ-keep p h ∙ Permᴰ-keep p k
