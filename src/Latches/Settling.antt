-- ===== src/Latches/Settling.antt =====
-- What an observation ends: the latches that it settles, and no other.
use ferrum_foundry.Prelude.{
  String, true, List, [], ◌∷◌, ◌+◌, ◌≤◌, Option, none, some, if◌then◌else◌, length, ◌≡◌, arith,
  refl, Option-cases, inl, inr,
}
use ferrum_foundry.Prelude.Maps.{
  get, delete, Distinct, get-delete_self, get-delete_ne, length-delete-le, length-delete-lt,
}
use ferrum_foundry.Latches.{
  LatchObservation, Installed, Store, settled_by, settle_each, settle_outcome_latches,
}

-- What is left of an entry.
abbrev pub unsettled : LatchObservation → Option Installed → Option Installed
unsettled o none = none
unsettled o (some i) = if settled_by i.latch o then none else some i

-- What is left of an entry of the copy that the loop deletes from.
abbrev left : LatchObservation → Option Installed → Option Installed → Option Installed
left o none x = x
left o (some i) x = if settled_by i.latch o then none else x

module _ (o : LatchObservation) (q : String) where
  get-settle_each :
      (m next : List (String × Installed))
      → Distinct m
      → get q (settle_each o m next) ≡ left o (get q m) (get q next)
  unfolding settle_each get
  get-settle_each [] next d = refl
  get-settle_each ((k, i) ∷ m) next (h, d) = ground (
    arith,
    get-settle_each m next d,
    get-settle_each m (delete k next) d,
    get-delete_self k next,
    get-delete_ne k q next,
  )

  length-settle_each-le :
      (m next : List (String × Installed)) → length (settle_each o m next) ≤ length next
  unfolding settle_each
  length-settle_each-le [] next = omega arith
  length-settle_each-le ((k, i) ∷ m) next = ground (
    arith,
    length-settle_each-le m next,
    length-settle_each-le m (delete k next),
    length-delete-le k next,
  )

  length-settle_each-lt :
      (m next : List (String × Installed)) (i j : Installed)
      → get q m ≡ some i
      → settled_by i.latch o ≡ true
      → get q next ≡ some j
      → length (settle_each o m next) + 1 ≤ length next
  unfolding settle_each get
  length-settle_each-lt [] next i j h p e = cc
  length-settle_each-lt ((k, x) ∷ m) next i j h p e = ground (
    arith,
    length-settle_each-lt m next i j,
    length-settle_each-lt m (delete k next) i j,
    length-settle_each-le m (delete k next),
    length-delete-le k next,
    length-delete-lt k next j,
    get-delete_ne k q next,
  )

-- An observation ends exactly the latches that it settles: each other key keeps what it holds, the
-- same object. The keys of the store are distinct, as those of a map are.
pub get-settle_outcome_latches :
    (o : LatchObservation) (s : Store) (q : String)
    → Distinct s.latches
    → get q (settle_outcome_latches o s).latches ≡ unsettled o (get q s.latches)
unfolding settle_outcome_latches
get-settle_outcome_latches o s q d = elim (Option-cases (get q s.latches)) [
  | inl n ↦ ground (arith, get-settle_each o q s.latches s.latches d)
  | inr (i, e) ↦ ground (
    arith,
    get-settle_each o q s.latches s.latches d,
    length-settle_each-lt o q s.latches s.latches i i,
  )
]
