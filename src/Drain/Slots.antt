-- ===== src/Drain/Slots.antt =====
-- How many uploads of each pool are draining, and what replacing one does to the count.
use mathlib.Core.Path.{subst}
use mathlib.Core.Option.{some-injective}
use ferrum_foundry.Prelude.{
  ap, ℕ, zero, suc, ◌+◌, Bool, true, false, not, ◌&&◌, List, [], ◌∷◌, ◌++◌, some, ◌≡◌, arith,
  if◌then◌else◌, All,
}
use ferrum_foundry.Drain.{Upload, nth, set}

-- one for an upload that holds a slot of the pool
abbrev pub weight : Bool → Upload → ℕ
weight true u = if u.is_draining && u.is_signed_out then 1 else 0
weight false u = if u.is_draining && not u.is_signed_out then 1 else 0

abbrev pub slots_held : Bool → List Upload → ℕ
slots_held pool [] = 0
slots_held pool (u ∷ us) = weight pool u + slots_held pool us

pub slots_held-append :
    (pool : Bool) (us : List Upload) (u : Upload)
    → slots_held pool (us ++ u ∷ []) ≡ slots_held pool us + weight pool u
slots_held-append pool [] u = omega arith
slots_held-append pool (v ∷ us) u = omega (arith, slots_held-append pool us u)

pub slots_held-set :
    (pool : Bool) (i : ℕ) (us : List Upload) (u v : Upload)
    → nth i us ≡ some u
    → slots_held pool (set i v us) + weight pool u ≡ slots_held pool us + weight pool v
unfolding nth set
slots_held-set pool i [] u v h = absurd (ground arith)
slots_held-set pool zero (w ∷ us) u v h = omega (arith, ap (weight pool) (some-injective w u h))
slots_held-set pool (suc i) (w ∷ us) u v h = omega (arith, slots_held-set pool i us u v h)

module _ (P : Upload → Type 0) where
  pub All-set : (i : ℕ) (us : List Upload) (v : Upload) → P v → All P us → All P (set i v us)
  unfolding set
  All-set i [] v h k = tt
  All-set zero (u ∷ us) v h (k, ks) = (h, ks)
  All-set (suc i) (u ∷ us) v h (k, ks) = (k, All-set i us v h ks)

  pub All-nth : (i : ℕ) (us : List Upload) (u : Upload) → nth i us ≡ some u → All P us → P u
  unfolding nth
  All-nth i [] u e k = absurd (ground arith)
  All-nth zero (w ∷ us) u e (k, ks) = subst P (some-injective w u e) k
  All-nth (suc i) (w ∷ us) u e (k, ks) = All-nth i us u e ks
