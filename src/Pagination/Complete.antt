-- ===== src/Pagination/Complete.antt =====
-- Of a gateway that pages one fixed collection, a traversal reads everything.
use mathlib.Core.List.{append_assoc, append-nil, map-append}
use mathlib.Core.Path.{subst}
use ferrum_foundry.Prelude.{
  ℕ, zero, suc, ◌+◌, ◌<◌, ◌≤◌, String, true, false, Option, none, some, List, [], ◌∷◌, ◌++◌, ◌≡◌,
  ◌≢◌, ◌⊎◌, refl, arith, sym, ap, ◌∙◌, length, length-append, take, drop, take-append-drop, inl,
  Bool-cases, leb→le, inr,
}
use ferrum_foundry.Pagination.{
  Page, BoundedCollection, CollectOptions, State, finished, more, see, see_page, take_page,
  check_seen, check_total, check_page, round, loop, collect_bounded_pages, collected, leb,
}
use ferrum_foundry.Pagination.Rounds.{ids, Unrepeated, Tracks, Tracks-start, Tracks-see_page}
use ferrum_foundry.Prelude.Maps

-- A gateway over one collection that does not change.
abbrev pub paged {ℓ} : {T : Type ℓ} → List T → ℕ → ℕ → Option (Page T)
paged xs at n =
    some (record { items = take n (drop at xs); offset = some at; total = some (length xs) })

module _ {ℓ} {T : Type ℓ} where
  pub drop-append : (ys zs : List T) → drop (length ys) (ys ++ zs) ≡ zs
  drop-append [] zs = refl
  drop-append (y ∷ ys) zs = drop-append ys zs

  take_all : (n : ℕ) (zs : List T) → length zs ≤ n → take n zs ≡ zs
  take_all zero [] h = refl
  take_all zero (z ∷ zs) h = absurd (omega arith)
  take_all (suc n) [] h = refl
  take_all (suc n) (z ∷ zs) h = ap (◌∷◌ z) (take_all n zs (omega arith))

  pub length-take_short : (n : ℕ) (zs : List T) → n ≤ length zs → length (take n zs) ≡ n
  length-take_short zero zs h = refl
  length-take_short (suc n) [] h = absurd (omega arith)
  length-take_short (suc n) (z ∷ zs) h = ap suc (length-take_short n zs (omega arith))

  pub length-drop_rest : (n : ℕ) (zs : List T) → n ≤ length zs → length (drop n zs) + n ≡ length zs
  length-drop_rest zero zs h = omega arith
  length-drop_rest (suc n) [] h = absurd (omega arith)
  length-drop_rest (suc n) (z ∷ zs) h = omega (arith, length-drop_rest n zs)

  present :
      (identity : T → String) (ys : List T) (z : T) (zs : List T)
      → Maps.get (identity z) (ids identity (ys ++ z ∷ zs)) ≢ none
  unfolding Maps.get
  present identity [] z zs = ground arith
  present identity (y ∷ ys) z zs = ground (arith, present identity ys z zs)

  new_identity :
      (identity : T → String) (ys : List T) (z : T) (zs : List T)
      → Maps.Distinct (ids identity (ys ++ z ∷ zs))
      → Maps.has (identity z) (ids identity ys) ≡ false
  unfolding Maps.has Maps.get
  new_identity identity [] z zs d = refl
  new_identity identity (y ∷ ys) z zs (h, d) = elim (Maps.str_dec (identity y) (identity z)) [
    | yes p ↦ absurd (present identity ys z zs (rw p at h))
    | no p ↦ ground (arith, new_identity identity ys z zs d)
  ]

  see_all :
      (identity : T → String) (ys zs rest : List T)
      → Maps.Distinct (ids identity (ys ++ (zs ++ rest)))
      → see identity (ids identity ys) zs ≡ some (ids identity (ys ++ zs))
  unfolding see
  see_all identity ys [] rest d = rw append-nil
  see_all identity ys (z ∷ zs) rest d =
      let new = new_identity identity ys z (zs ++ rest) d in
      let shifted : (ys ++ z ∷ []) ++ (zs ++ rest) ≡ ys ++ z ∷ (zs ++ rest) =
        append_assoc ys (z ∷ []) (zs ++ rest) in
      let later =
        see_all identity (ys ++ z ∷ []) zs rest
          (subst (λ l. Maps.Distinct (ids identity l)) (sym shifted) d) in
      rw (new, Maps.put_absent (identity z) tt (ids identity ys) new)
        (sym (ap (λ m. see identity m zs) (map-append (λ x. (identity x, tt)) ys (z ∷ [])))
          ∙ later
          ∙ ap (λ l. some (ids identity l)) (append_assoc ys (z ∷ []) zs))

  see_page_all :
      (identity : Option (T → String)) (seen : List (String × Unit {0})) (ys zs rest : List T)
      → Tracks identity seen ys
      → Unrepeated identity (ys ++ (zs ++ rest))
      → (seen' : List (String × Unit {0})) × (see_page identity seen zs ≡ some seen')
  unfolding see_page
  see_page_all none seen ys zs rest h d = (seen, refl)
  see_page_all (some identity) seen ys zs rest (same, _) d =
      (ids identity (ys ++ zs), rw same (see_all identity ys zs rest d))

module _ {ℓ} {T : Type ℓ} (o : CollectOptions T) (xs : List T) where
  -- The options ask for everything, and nothing stops the traversal.
  pub record IsUnbounded : Type ℓ where
    pub positive : 0 < o.page_size
    pub unbudgeted : o.budget ≡ none
    pub not_aborted : (at : ℕ) → o.is_aborted at ≡ false
    pub distinct : Unrepeated o.identity xs

  abbrev whole : BoundedCollection T
  whole = record { items = xs; total = length xs; complete = true }

  -- The loop's variables once `ys` is read.
  abbrev after_items : List T → List (String × Unit {0}) → Option ℕ → State T
  after_items ys seen e = record { items = ys; seen = seen; offset = length ys; expected_total = e }

  module _ (u : IsUnbounded) (ys zs : List T) (split : xs ≡ ys ++ zs)
      (seen seen' : List (String × Unit {0})) (e : Option ℕ)
      (known : (e ≡ none) ⊎ (e ≡ some (length xs))) where
    abbrev next_page : Page T
    next_page = record {
      items = take o.page_size zs;
      offset = some (length ys);
      total = some (length xs);
    }

    fetched : paged xs (length ys) o.page_size ≡ some next_page
    fetched =
        ap
          (λ l. some (record {
            items = take o.page_size l;
            offset = some (length ys);
            total = some (length xs);
          }))
          (ap (drop (length ys)) split ∙ drop-append ys zs)

    honest_round :
        see_page o.identity seen (take o.page_size zs) ≡ some seen'
        → round o (paged xs) (after_items ys seen e)
          ≡ take_page o (after_items ys seen e) next_page (length xs) seen'
    unfolding round check_page check_total check_seen
    honest_round fresh = ground (arith, fetched, u.not_aborted (length ys))

    last_page :
        length zs ≤ o.page_size
        → take_page o (after_items ys seen e) next_page (length xs) seen' ≡ finished whole
    unfolding take_page
    last_page h = rw (take_all o.page_size zs h, ← split) (ground arith)

    more_page :
        o.page_size < length zs
        → take_page o (after_items ys seen e) next_page (length xs) seen'
          ≡ more (after_items (ys ++ take o.page_size zs) seen' (some (length xs)))
    unfolding take_page
    more_page h =
        let shown : length (take o.page_size zs) ≡ o.page_size =
          length-take_short o.page_size zs (omega arith) in
        let below : length xs ≡ length ys + length zs = ap length split ∙ length-append ys zs in
        ground
          (arith, shown, below, length-append ys (take o.page_size zs), u.unbudgeted, u.positive)

  honest_loop :
      IsUnbounded
      → (fuel : ℕ) (ys zs : List T) (seen : List (String × Unit {0})) (e : Option ℕ) → xs ≡ ys ++ zs
      → (e ≡ none) ⊎ (e ≡ some (length xs))
      → Tracks o.identity seen ys
      → length zs < fuel
      → loop o (paged xs) fuel (after_items ys seen e) ≡ collected whole
  unfolding loop
  honest_loop u zero ys zs seen e split known tr enough = absurd (omega arith)
  honest_loop u (suc fuel) ys zs seen e split known tr enough =
      let n = o.page_size in
      let parts : ys ++ (take n zs ++ drop n zs) ≡ xs =
        ap (λ l. ys ++ l) (take-append-drop n zs) ∙ sym split in
      let (seen', fresh) =
        see_page_all o.identity seen ys (take n zs) (drop n zs) tr
          (subst (Unrepeated o.identity) (sym parts) u.distinct) in
      let taken = honest_round u ys zs split seen seen' e known fresh in
      elim (Bool-cases (leb (length zs) n)) [
        | inl last ↦
            rw (taken ∙ last_page u ys zs split seen seen' e known (leb→le _ _ last), loop) refl
        | inr more_left ↦
            let short : n < length zs = ground arith in
            rw (taken ∙ more_page u ys zs split seen seen' e known short, loop)
              (honest_loop u fuel (ys ++ take n zs) (drop n zs) seen' (some (length xs))
                (sym parts ∙ sym (append_assoc ys (take n zs) (drop n zs))) (inr refl)
                (Tracks-see_page o.identity seen seen' ys (take n zs) tr fresh)
                (omega (arith, length-drop_rest n zs, u.positive)))
      ]

  -- A gateway that pages one fixed collection is read to the end: without a budget, never aborted,
  -- with a positive page size and, where identities are asked for, no identity twice in the
  -- collection, the traversal with more rounds than items returns the collection in order, with
  -- its size, as complete.
  pub collect_paged :
      IsUnbounded
      → (fuel : ℕ) → length xs < fuel
      → collect_bounded_pages o (paged xs) fuel ≡ collected whole
  unfolding collect_bounded_pages
  collect_paged u fuel enough =
      let read =
        honest_loop u fuel [] xs [] none refl (inl refl) (Tracks-start o.identity) enough in
      ground (arith, read, u.positive, u.unbudgeted)
