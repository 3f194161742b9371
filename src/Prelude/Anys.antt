-- ===== src/Prelude/Anys.antt =====
-- `some` of an array, through the operations that build it.
use mathlib.Core.Path.{◌≡◌, refl}
use mathlib.Core.Bool.{Bool, ◌&&◌, ◌||◌}
use mathlib.Core.List.{List, [], ◌∷◌, ◌++◌, map}
use native.Mathlib.Omega.{arith}
use ferrum_foundry.Prelude.Lists.{any, keep}

pub any-append :
    {A : Type 0} (p : A → Bool) (xs ys : List A) → any p (xs ++ ys) ≡ (any p xs || any p ys)
any-append p [] ys = refl
any-append p (x ∷ xs) ys = ground (arith, any-append p xs ys)

pub any-keep :
    {A : Type 0} (q r : A → Bool) (xs : List A) → any q (keep r xs) ≡ any (λ x. r x && q x) xs
any-keep q r [] = refl
any-keep q r (x ∷ xs) = ground (arith, any-keep q r xs)

pub any-map :
    {A B : Type 0} (q : B → Bool) (f : A → B) (xs : List A)
    → any q (map f xs) ≡ any (λ x. q (f x)) xs
any-map q f [] = refl
any-map q f (x ∷ xs) = ground (arith, any-map q f xs)

pub any-cong :
    {A : Type 0} (f g : A → Bool) (xs : List A) → ((x : A) → f x ≡ g x) → any f xs ≡ any g xs
any-cong f g [] h = refl
any-cong f g (x ∷ xs) h = ground (arith, h x, any-cong f g xs h)

pub any-or :
    {A : Type 0} (f g h : A → Bool) (xs : List A)
    → ((x : A) → (f x || g x) ≡ h x)
    → (any f xs || any g xs) ≡ any h xs
any-or f g h [] k = refl
any-or f g h (x ∷ xs) k = ground (arith, k x, any-or f g h xs k)
