-- ===== src/Throttle/Tables.antt =====
-- The tables of the throttle: what dropping stale entries keeps.
use ferrum_foundry.Prelude.{
  ℕ, ◌≤◌, String, true, false, none, some, List, [], ◌∷◌, ◌≡◌, refl, arith, length, inl, inr,
  Bool-cases,
}
use ferrum_foundry.Throttle.{Options, Entry, is_stale, drop_stale, first_stale, with_room}
use ferrum_foundry.Prelude.Maps

module _ (o : Options) (now : ℕ) where
  pub drop_stale-live :
      (k : String) (e : Entry) (m : List (String × Entry))
      → Maps.get k m ≡ some e
      → is_stale o e now ≡ false
      → Maps.get k (drop_stale o now m) ≡ some e
  unfolding drop_stale Maps.get
  drop_stale-live k e [] h live = cc
  drop_stale-live k e ((j, x) ∷ m) h live = ground (arith, drop_stale-live k e m)

  pub drop_stale-absent :
      (k : String) (m : List (String × Entry))
      → Maps.get k m ≡ none
      → Maps.get k (drop_stale o now m) ≡ none
  unfolding drop_stale Maps.get
  drop_stale-absent k [] h = refl
  drop_stale-absent k ((j, x) ∷ m) h = ground (arith, drop_stale-absent k m)

  pub length-drop_stale-le : (m : List (String × Entry)) → length (drop_stale o now m) ≤ length m
  unfolding drop_stale
  length-drop_stale-le [] = omega arith
  length-drop_stale-le ((j, x) ∷ m) = ground (arith, length-drop_stale-le m)

  pub Distinct-drop_stale :
      (m : List (String × Entry)) → Maps.Distinct m → Maps.Distinct (drop_stale o now m)
  unfolding drop_stale
  Distinct-drop_stale [] d = tt
  Distinct-drop_stale ((j, x) ∷ m) (h, d) =
      ground (arith, drop_stale-absent j m, Distinct-drop_stale m d)

  pub AllValues-drop_stale {κ} :
      (P : Entry → Type κ) (m : List (String × Entry))
      → Maps.AllValues P m
      → Maps.AllValues P (drop_stale o now m)
  unfolding drop_stale
  AllValues-drop_stale P [] h = tt
  AllValues-drop_stale P ((j, x) ∷ m) (p, h) = ground (arith, AllValues-drop_stale P m h)

  -- The key that is dropped for room carries a stale entry.
  pub first_stale-is_stale :
      (k : String) (m : List (String × Entry))
      → Maps.Distinct m
      → first_stale o now m ≡ some k
      → (e : Entry) × (Maps.get k m ≡ some e) × (is_stale o e now ≡ true)
  unfolding first_stale Maps.get
  first_stale-is_stale k [] d h = cc
  first_stale-is_stale k ((j, x) ∷ m) (new, d) h = elim (Bool-cases (is_stale o x now)) [
    | inl old ↦ (x, ground arith, old)
    | inr live ↦
        let (e, found, stale) = first_stale-is_stale k m d (rw live at h) in
        (e, ground arith, stale)
  ]

  module _ (limit : ℕ) where
    pub with_room-live :
        (k : String) (e : Entry) (m : List (String × Entry))
        → Maps.get k m ≡ some e
        → is_stale o e now ≡ false
        → Maps.get k (with_room o limit now m) ≡ some e
    unfolding with_room
    with_room-live k e m h live = ground (arith, drop_stale-live k e m)

    pub with_room-absent :
        (k : String) (m : List (String × Entry))
        → Maps.get k m ≡ none
        → Maps.get k (with_room o limit now m) ≡ none
    unfolding with_room
    with_room-absent k m h = ground (arith, drop_stale-absent k m)

    pub length-with_room-le :
        (m : List (String × Entry)) → length (with_room o limit now m) ≤ length m
    unfolding with_room
    length-with_room-le m = ground (arith, length-drop_stale-le m)

    pub Distinct-with_room :
        (m : List (String × Entry)) → Maps.Distinct m → Maps.Distinct (with_room o limit now m)
    unfolding with_room
    Distinct-with_room m d = ground (arith, Distinct-drop_stale m)

    pub AllValues-with_room {κ} :
        (P : Entry → Type κ) (m : List (String × Entry))
        → Maps.AllValues P m
        → Maps.AllValues P (with_room o limit now m)
    unfolding with_room
    AllValues-with_room P m h = ground (arith, AllValues-drop_stale P m)
