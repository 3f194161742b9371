-- ===== src/Registry/Distinct.antt =====
-- Lists without a repeated name, and how many granted names such a list can hold.
use ferrum_foundry.Prelude.{
  suc, ◌≤◌, String, Bool, true, false, List, [], ◌∷◌, ◌++◌, ◌≡◌, ◌≢◌, refl, sym, ap, ◌∙◌, arith,
  length, keep, map, All, ite, Bool-cases, inl, inr,
}
use ferrum_foundry.Prelude.Maps.{str_dec}
use ferrum_foundry.Policy.{includes}

abbrev pub Unrepeated : List String → Type 0
Unrepeated [] = Unit
Unrepeated (x ∷ xs) = (includes xs x ≡ false) × Unrepeated xs

includes-append_self :
    (xs : List String) (y : String) (zs : List String) → includes (xs ++ y ∷ zs) y ≡ true
unfolding includes
includes-append_self [] y zs = ground arith
includes-append_self (x ∷ xs) y zs = ground (arith, includes-append_self xs y zs)

pub includes_before :
    (xs : List String) (y : String) (zs : List String)
    → Unrepeated (xs ++ y ∷ zs)
    → includes xs y ≡ false
unfolding includes
includes_before [] y zs h = refl
includes_before (x ∷ xs) y zs (h, hs) = elim (str_dec x y) [
  | yes p ↦ absurd (ground (arith, p, h, includes-append_self xs y zs))
  | no p ↦ ground (arith, includes_before xs y zs hs)
]

pub includes-map :
    (f : String → String) (xs : List String) (x : String)
    → includes xs x ≡ true
    → includes (map f xs) (f x) ≡ true
unfolding includes
includes-map f [] x h = absurd (ground arith)
includes-map f (y ∷ ys) x h = elim (str_dec y x) [
  | yes p ↦ ground (arith, ap f p)
  | no p ↦ ground (arith, includes-map f ys x)
]

pub includes-keep :
    (p : String → Bool) (xs : List String) (x : String)
    → includes xs x ≡ false
    → includes (keep p xs) x ≡ false
unfolding includes
includes-keep p [] x h = refl
includes-keep p (y ∷ ys) x h = ground (arith, includes-keep p ys x)

pub Unrepeated-keep :
    (p : String → Bool) (xs : List String) → Unrepeated xs → Unrepeated (keep p xs)
Unrepeated-keep p [] h = tt
Unrepeated-keep p (x ∷ xs) (h, hs) = elim (Bool-cases (p x)) [
  | inl q ↦ rw q (includes-keep p xs x h, Unrepeated-keep p xs hs)
  | inr q ↦ rw q (Unrepeated-keep p xs hs)
]

pub Unrepeated_of_map :
    (f : String → String) (xs : List String) → Unrepeated (map f xs) → Unrepeated xs
Unrepeated_of_map f [] h = tt
Unrepeated_of_map f (x ∷ xs) (h, hs) = elim (Bool-cases (includes xs x)) [
  | inl q ↦ absurd (ground (arith, includes-map f xs x q))
  | inr q ↦ (q, Unrepeated_of_map f xs hs)
]

-- a list less the first occurrence of a name
abbrev without : String → List String → List String
without a [] = []
without a (g ∷ gs) = ite (str_dec g a) gs (g ∷ without a gs)

length-without :
    (a : String) (gs : List String) → includes gs a ≡ true → suc (length (without a gs)) ≡ length gs
unfolding includes
length-without a [] h = absurd (ground arith)
length-without a (g ∷ gs) h = ground (arith, length-without a gs)

includes-without :
    (a b : String) (gs : List String)
    → a ≢ b
    → includes gs b ≡ true
    → includes (without a gs) b ≡ true
unfolding includes
includes-without a b [] n h = h
includes-without a b (g ∷ gs) n h = elim (str_dec g a) [
  | yes p ↦ elim (str_dec g b) [ yes q ↦ absurd (n (sym p ∙ q)) | no q ↦ ground arith ]
  | no p ↦ elim (str_dec g b) [
    | yes q ↦ ground arith
    | no q ↦ ground (arith, includes-without a b gs n)
  ]
]

not_included :
    (x y : String) (ys : List String)
    → includes (y ∷ ys) x ≡ false
    → (x ≢ y) × (includes ys x ≡ false)
unfolding includes
not_included x y ys h = elim (str_dec y x) [
  | yes p ↦ absurd (ground arith)
  | no p ↦ ((λ q. p (sym q)), ground arith)
]

-- A list without repetitions of names in `gs` is no longer than `gs`.
pub length-Unrepeated_le :
    (xs gs : List String)
    → Unrepeated xs
    → All (λ x. includes gs x ≡ true) xs
    → length xs ≤ length gs
length-Unrepeated_le [] gs h k = omega arith
length-Unrepeated_le (x ∷ xs) gs (h, hs) (k, ks) =
    let shorter = length-Unrepeated_le xs (without x gs) hs (all_without xs h ks) in
    omega (arith, shorter, length-without x gs k)
  where
    all_without :
        (ys : List String)
        → includes ys x ≡ false
        → All (λ y. includes gs y ≡ true) ys
        → All (λ y. includes (without x gs) y ≡ true) ys
    all_without [] h k = tt
    all_without (y ∷ ys) h (k, ks) =
        let (n, h') = not_included x y ys h in (includes-without x y gs n k, all_without ys h' ks)
