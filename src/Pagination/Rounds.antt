-- ===== src/Pagination/Rounds.antt =====
-- What one round of the traversal has checked when it does not throw.
use mathlib.Core.List.{append_assoc, append-nil, map-append}
use ferrum_foundry.Prelude.{
  ℕ, String, true, Option, none, some, List, [], ◌∷◌, ◌++◌, map, ◌==◌, ◌≡◌, ◌⊎◌, inl, inr, arith,
  sym, ap, ◌∙◌, Option-cases, Bool-cases,
}
use ferrum_foundry.Pagination.{
  Page, Failure, CollectOptions, State, Round, failed, option_eq, see, see_page, take_page,
  check_seen, check_total, check_page, round, BoundedCollection, finished, more,
}
use mathlib.Core.Path.{subst, refl}
use ferrum_foundry.Prelude.Maps

-- The identities of records, as the keys of a set.
abbrev pub ids {ℓ} : {T : Type ℓ} → (T → String) → List T → List (String × Unit {0})
ids identity = map (λ x. (identity x, tt))

-- No identity is seen twice, where records have one.
abbrev pub Unrepeated {ℓ} : {T : Type ℓ} → Option (T → String) → List T → Type 0
Unrepeated none items = Unit
Unrepeated (some identity) items = Maps.Distinct (ids identity items)

-- `seenIdentities` holds the identities of the items so far.
abbrev pub Tracks {ℓ} :
    {T : Type ℓ} → Option (T → String) → List (String × Unit {0}) → List T → Type 0
Tracks none seen items = Unit
Tracks (some identity) seen items = (seen ≡ ids identity items) × Maps.Distinct seen

module _ {ℓ} {T : Type ℓ} where
  see_lem :
      (identity : T → String) (seen seen' : List (String × Unit {0})) (xs : List T)
      → Maps.Distinct seen
      → see identity seen xs ≡ some seen'
      → (seen' ≡ seen ++ ids identity xs) × Maps.Distinct seen'
  unfolding see
  see_lem identity seen seen' [] d h =
      let same : seen' ≡ seen = cc in
      (same ∙ sym (append-nil seen), subst Maps.Distinct (sym same) d)
  see_lem identity seen seen' (x ∷ xs) d h = elim (Bool-cases (Maps.has (identity x) seen)) [
    | inl old ↦ absurd (cc (rw old at h))
    | inr new ↦
        let (e, d') =
          see_lem identity (Maps.put (identity x) tt seen) seen' xs
            (Maps.Distinct-put (identity x) tt seen d) (rw new at h) in
        (
          e
              ∙ rw (Maps.put_absent (identity x) tt seen new)
                  (append_assoc seen ((identity x, tt) ∷ []) (ids identity xs)),
          d',
        )
  ]

  pub Tracks-see_page :
      (identity : Option (T → String)) (seen seen' : List (String × Unit {0})) (items xs : List T)
      → Tracks identity seen items
      → see_page identity seen xs ≡ some seen'
      → Tracks identity seen' (items ++ xs)
  unfolding see_page
  Tracks-see_page none seen seen' items xs h e = tt
  Tracks-see_page (some identity) seen seen' items xs (same, d) e =
      let (e', d') = see_lem identity seen seen' xs d e in (e' ∙ rw (same, map-append), d')

  pub Unrepeated-of_Tracks :
      (identity : Option (T → String)) (seen : List (String × Unit {0})) (items : List T)
      → Tracks identity seen items
      → Unrepeated identity items
  Unrepeated-of_Tracks none seen items h = tt
  Unrepeated-of_Tracks (some identity) seen items (same, d) = subst Maps.Distinct same d

  pub Tracks-start : (identity : Option (T → String)) → Tracks identity [] []
  Tracks-start none = tt
  Tracks-start (some identity) = (refl, tt)

module _ {ℓ} {T : Type ℓ} where
  pub Round-cases :
      (r : Round T)
      → ((c : BoundedCollection T) × (r ≡ finished c))
        ⊎ (((f : Failure) × (r ≡ failed f)) ⊎ ((s : State T) × (r ≡ more s)))
  Round-cases (finished c) = inl (c, refl)
  Round-cases (failed f) = inr (inl (f, refl))
  Round-cases (more s) = inr (inr (s, refl))

module _ {ℓ} {T : Type ℓ} (o : CollectOptions T) where
  option_eq→≡ : (m : Option ℕ) (n : ℕ) → option_eq m n ≡ true → m ≡ some n
  option_eq→≡ none n h = cc
  option_eq→≡ (some m) n h = ground arith

  -- A stage throws, or takes the page with these identities seen.
  abbrev Stage : State T → Page T → ℕ → Type ℓ → Round T → Type ℓ
  Stage s p t P r =
      ((f : Failure) × (r ≡ failed f))
      ⊎ ((seen : List (String × Unit {0})) × P
          × (see_page o.identity s.seen p.items ≡ some seen)
          × (r ≡ take_page o s p t seen))

  check_seen_cases : (s : State T) (p : Page T) (t : ℕ) → Stage s p t Unit (check_seen o s p t)
  unfolding check_seen
  check_seen_cases s p t = elim (Option-cases (see_page o.identity s.seen p.items)) [
    | inl again ↦ inl (Failure.repeated, rw (again, check_seen))
    | inr (seen, fresh) ↦ inr (seen, tt, fresh, rw (fresh, check_seen))
  ]

  -- The total is the first page's, and no other.
  abbrev pub Agrees : State T → ℕ → Type 0
  Agrees s t = (s.expected_total ≡ none) ⊎ (s.expected_total ≡ some t)

  check_total_cases :
      (s : State T) (p : Page T) (t : ℕ)
      → ((f : Failure) × (check_total o s p t ≡ failed f))
        ⊎ (Agrees s t × (check_total o s p t ≡ check_seen o s p t))
  unfolding check_total
  check_total_cases s p t = elim (Option-cases s.expected_total) [
    | inl first ↦ inr (inl first, rw first)
    | inr (e, known) ↦ elim (Bool-cases (t == e)) [
      | inr other ↦ inl (Failure.changed, rw (known, other))
      | inl same ↦
          let eq : e ≡ t = ground arith in inr (inr (known ∙ ap some eq), rw (known, same) (rw eq))
    ]
  ]

  module _ (fetch : ℕ → ℕ → Option (Page T)) where
    check_page_cases :
        (s : State T)
        → ((f : Failure) × (round o fetch s ≡ failed f))
          ⊎ ((p : Page T) × (t : ℕ) × (fetch s.offset o.page_size ≡ some p)
              × (p.offset ≡ some s.offset)
              × (p.total ≡ some t)
              × (round o fetch s ≡ check_total o s p t))
    unfolding round check_page
    check_page_cases s = elim (Bool-cases (o.is_aborted s.offset)) [
      | inl gone ↦ inl (Failure.aborted, rw gone)
      | inr here ↦ elim (Option-cases (fetch s.offset o.page_size)) [
        | inl lost ↦ inl (Failure.fetch_failed, rw (here, lost))
        | inr (p, got) ↦ elim (Option-cases p.total) [
          | inl bad ↦ inl (Failure.inconsistent, rw (here, got, check_page, bad))
          | inr (t, tot) ↦ elim (Bool-cases (option_eq p.offset s.offset)) [
            | inr elsewhere ↦ inl (Failure.inconsistent, rw (here, got, check_page, tot, elsewhere))
            | inl placed ↦ inr (
              p,
              t,
              got,
              option_eq→≡ p.offset s.offset placed,
              tot,
              simp (here, got, check_page, tot, placed),
            )
          ]
        ]
      ]
    ]

    -- A page that passed the checks of a round.
    pub record Took (s : State T) (p : Page T) (t : ℕ) (seen : List (String × Unit {0}))
        : Type ℓ where
      pub answered : fetch s.offset o.page_size ≡ some p
      pub placed : p.offset ≡ some s.offset
      pub total : p.total ≡ some t
      pub agrees : Agrees s t
      pub fresh : see_page o.identity s.seen p.items ≡ some seen

    -- A round throws, or takes a page that passed its checks.
    pub round_cases :
        (s : State T)
        → ((f : Failure) × (round o fetch s ≡ failed f))
          ⊎ ((p : Page T) × (t : ℕ) × (seen : List (String × Unit {0})) × Took s p t seen
              × (round o fetch s ≡ take_page o s p t seen))
    round_cases s = elim (check_page_cases s) [
      | inl fails ↦ inl fails
      | inr (p, t, answered, placed, total, e) ↦ elim (check_total_cases s p t) [
        | inl (f, e') ↦ inl (f, e ∙ e')
        | inr (agrees, e') ↦ elim (check_seen_cases s p t) [
          | inl (f, e'') ↦ inl (f, e ∙ e' ∙ e'')
          | inr (seen, _, fresh, e'') ↦ inr (
            p,
            t,
            seen,
            record {
              answered = answered;
              placed = placed;
              total = total;
              agrees = agrees;
              fresh = fresh;
            },
            e ∙ e' ∙ e'',
          )
        ]
      ]
    ]
