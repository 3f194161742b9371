-- ===== src/Drain/Still.antt =====
-- Uploads of which the first ones do not drain.
use ferrum_foundry.Prelude.{
  ℕ, zero, suc, ◌≤◌, false, List, [], ◌∷◌, Option, none, some, ◌≡◌, refl, ap, arith, All, length,
}
use ferrum_foundry.Drain.{Upload, nth, set}

abbrev pub IsStill : Upload → Type 0
IsStill u = u.is_draining ≡ false

-- the first `n` uploads do not drain
abbrev pub FirstStill : ℕ → List Upload → Type 0
FirstStill zero us = Unit
FirstStill (suc n) [] = Unit
FirstStill (suc n) (u ∷ us) = IsStill u × FirstStill n us

pub FirstStill-set :
    (n : ℕ) (us : List Upload) (v : Upload)
    → IsStill v
    → FirstStill n us
    → FirstStill (suc n) (set n v us)
unfolding set
FirstStill-set zero [] v h k = tt
FirstStill-set (suc n) [] v h k = tt
FirstStill-set zero (u ∷ us) v h k = (h, tt)
FirstStill-set (suc n) (u ∷ us) v h (k, ks) = (k, FirstStill-set n us v h ks)

abbrev pub NotDraining : Option Upload → Type 0
NotDraining none = Unit
NotDraining (some u) = IsStill u

pub FirstStill-suc :
    (n : ℕ) (us : List Upload) → NotDraining (nth n us) → FirstStill n us → FirstStill (suc n) us
unfolding nth
FirstStill-suc zero [] h k = tt
FirstStill-suc (suc n) [] h k = tt
FirstStill-suc zero (u ∷ us) h k = (h, tt)
FirstStill-suc (suc n) (u ∷ us) h (k, ks) = (k, FirstStill-suc n us h ks)

pub All-FirstStill : (n : ℕ) (us : List Upload) → length us ≤ n → FirstStill n us → All IsStill us
All-FirstStill n [] h k = tt
All-FirstStill zero (u ∷ us) h k = absurd (omega arith)
All-FirstStill (suc n) (u ∷ us) h (k, ks) = (k, All-FirstStill n us (omega arith) ks)

pub length-set : (n : ℕ) (v : Upload) (us : List Upload) → length (set n v us) ≡ length us
unfolding set
length-set n v [] = refl
length-set zero v (u ∷ us) = refl
length-set (suc n) v (u ∷ us) = ap suc (length-set n v us)
