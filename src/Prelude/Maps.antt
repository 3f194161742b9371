-- ===== src/Prelude/Maps.antt =====
-- A JavaScript `Map` or `Set` with string keys, as the list of its entries in insertion order.
use Prim.Native.Nat.{◌+◌, ◌≤◌}
use Prim.Native.String.{String}
use mathlib.Core.Path.{◌≡◌, refl, subst}
use mathlib.Core.Logic.{ite, ◌≢◌, ◌↔◌}
use mathlib.Core.Bool.{Bool, true, false}
use mathlib.Core.List.{List, [], ◌∷◌, ◌++◌}
use mathlib.Core.Option.{Option, none, some}
use native.Mathlib.Omega.{arith}
use text.Mathlib.Text.{◌==◌}
use text.Mathlib.TextEquality.{eq_iff}
use ferrum_foundry.Prelude.Lists.{length}

decision : {P : Type 0} (b : Bool) → (b ≡ true) ↔ P → Dec P
decision true h = yes (h.0 refl)
decision false h = no (λ p. cc (h.1 p))

-- Texts are compared by a decision, which hands over the equation.
unfoldable pub str_dec : Discrete String
unfolding decision
str_dec s t = decision (s == t) (eq_iff s t)

module _ {ℓ} {V : Type ℓ} where
  -- `m.get(k)`
  unfoldable pub get : String → List (String × V) → Option V
  get k [] = none
  get k ((j, v) ∷ m) = ite (str_dec j k) (some v) (get k m)

  -- `m.has(k)`
  unfoldable pub has : String → List (String × V) → Bool
  has k [] = false
  has k ((j, v) ∷ m) = ite (str_dec j k) true (has k m)

  -- `m.set(k, v)`: an existing key keeps its place, a new one goes to the end
  unfoldable pub put : String → V → List (String × V) → List (String × V)
  put k v [] = (k, v) ∷ []
  put k v ((j, w) ∷ m) = ite (str_dec j k) ((k, v) ∷ m) ((j, w) ∷ put k v m)

  -- `m.delete(k)`
  unfoldable pub delete : String → List (String × V) → List (String × V)
  delete k [] = []
  delete k ((j, w) ∷ m) = ite (str_dec j k) (delete k m) ((j, w) ∷ delete k m)

  pub get-put_self : (k : String) (v : V) (m : List (String × V)) → get k (put k v m) ≡ some v
  unfolding get put
  get-put_self k v [] = ground arith
  get-put_self k v ((j, w) ∷ m) = ground (arith, get-put_self k v m)

  pub get-put_ne :
      (k q : String) (v : V) (m : List (String × V)) → q ≢ k → get q (put k v m) ≡ get q m
  unfolding get put
  get-put_ne k q v [] h = ground arith
  get-put_ne k q v ((j, w) ∷ m) h = ground (arith, get-put_ne k q v m)

  pub get-delete_self : (k : String) (m : List (String × V)) → get k (delete k m) ≡ none
  unfolding get delete
  get-delete_self k [] = refl
  get-delete_self k ((j, w) ∷ m) = ground (arith, get-delete_self k m)

  pub get-delete_ne : (k q : String) (m : List (String × V)) → q ≢ k → get q (delete k m) ≡ get q m
  unfolding get delete
  get-delete_ne k q [] h = refl
  get-delete_ne k q ((j, w) ∷ m) h = ground (arith, get-delete_ne k q m)

  pub get_of_has :
      (k : String) (m : List (String × V)) → has k m ≡ true → (v : V) × (get k m ≡ some v)
  unfolding get has
  get_of_has k [] h = cc
  get_of_has k ((j, w) ∷ m) h = elim (str_dec j k) [
    | yes p ↦ (w, ground arith)
    | no p ↦ let (v, e) = get_of_has k m (ground arith) in (v, ground arith)
  ]

  pub has_of_get : (k : String) (m : List (String × V)) (v : V) → get k m ≡ some v → has k m ≡ true
  unfolding get has
  has_of_get k [] v h = cc
  has_of_get k ((j, w) ∷ m) v h = ground (arith, has_of_get k m v)

  pub get-eq-none_of_has : (k : String) (m : List (String × V)) → has k m ≡ false → get k m ≡ none
  unfolding get has
  get-eq-none_of_has k [] h = refl
  get-eq-none_of_has k ((j, w) ∷ m) h = ground (arith, get-eq-none_of_has k m)

  -- No key stands twice.
  abbrev pub Distinct : List (String × V) → Type ℓ
  Distinct [] = Unit
  Distinct ((k, v) ∷ m) = (get k m ≡ none) × Distinct m

  pub length-put-le :
      (k : String) (v : V) (m : List (String × V)) → length (put k v m) ≤ length m + 1
  unfolding put
  length-put-le k v [] = omega arith
  length-put-le k v ((j, w) ∷ m) = ground (arith, length-put-le k v m)

  pub length-delete-le : (k : String) (m : List (String × V)) → length (delete k m) ≤ length m
  unfolding delete
  length-delete-le k [] = omega arith
  length-delete-le k ((j, w) ∷ m) = ground (arith, length-delete-le k m)

  pub length-delete-lt :
      (k : String) (m : List (String × V)) (v : V)
      → get k m ≡ some v
      → length (delete k m) + 1 ≤ length m
  unfolding get delete
  length-delete-lt k [] v h = cc
  length-delete-lt k ((j, w) ∷ m) v h = ground (arith, length-delete-lt k m v, length-delete-le k m)

  pub length-put_hit :
      (k : String) (v : V) (m : List (String × V)) (x : V)
      → get k m ≡ some x
      → length (put k v m) ≡ length m
  unfolding get put
  length-put_hit k v [] x h = cc
  length-put_hit k v ((j, w) ∷ m) x h = ground (arith, length-put_hit k v m x)

  pub Distinct-put :
      (k : String) (v : V) (m : List (String × V)) → Distinct m → Distinct (put k v m)
  unfolding get put
  Distinct-put k v [] d = (refl, tt)
  Distinct-put k v ((j, w) ∷ m) (h, d) = ground (arith, get-put_ne k j v m, Distinct-put k v m d)

  get-delete-none :
      (k q : String) (m : List (String × V)) → get q m ≡ none → get q (delete k m) ≡ none
  unfolding get delete
  get-delete-none k q [] h = refl
  get-delete-none k q ((j, w) ∷ m) h = ground (arith, get-delete-none k q m)

  pub Distinct-delete : (k : String) (m : List (String × V)) → Distinct m → Distinct (delete k m)
  unfolding delete
  Distinct-delete k [] d = tt
  Distinct-delete k ((j, w) ∷ m) (h, d) =
      ground (arith, get-delete-none k j m, Distinct-delete k m d)

-- What holds of every value.
module _ {ℓ κ} {V : Type ℓ} (P : V → Type κ) where
  abbrev pub AllValues : List (String × V) → Type κ
  AllValues [] = Unit
  AllValues ((k, v) ∷ m) = P v × AllValues m

  pub AllValues-get :
      (k : String) (m : List (String × V)) {v : V} → AllValues m → get k m ≡ some v → P v
  unfolding get
  AllValues-get k [] h e = cc
  AllValues-get k ((j, w) ∷ m) {v} h e = elim (str_dec j k) [
    | yes p ↦ let same : w ≡ v = ground arith in subst P same h.0
    | no p ↦ AllValues-get k m h.1 (ground arith)
  ]

  pub AllValues-put :
      (k : String) (v : V) (m : List (String × V)) → P v → AllValues m → AllValues (put k v m)
  unfolding put
  AllValues-put k v [] p h = (p, tt)
  AllValues-put k v ((j, w) ∷ m) p (q, h) = ground (arith, AllValues-put k v m p h)

  pub AllValues-delete : (k : String) (m : List (String × V)) → AllValues m → AllValues (delete k m)
  unfolding delete
  AllValues-delete k [] h = tt
  AllValues-delete k ((j, w) ∷ m) (q, h) = ground (arith, AllValues-delete k m h)

pub str_ne : (s t : String) → (s == t) ≡ false → ◌≢◌ {A = String} s t
str_ne s t h e = cc ((eq_iff s t).1 e)

-- A new key goes to the end.
pub put_absent {ℓ} :
    {V : Type ℓ} (k : String) (v : V) (m : List (String × V))
    → has k m ≡ false
    → put k v m ≡ m ++ (k, v) ∷ []
unfolding has put
put_absent k v [] h = refl
put_absent k v ((j, w) ∷ m) h = ground (arith, put_absent k v m)
