-- ===== src/Pagination/Ends.antt =====
-- A traversal ends.
use ferrum_foundry.Prelude.{
  ℕ, zero, suc, ◌+◌, ◌<◌, ◌≤◌, String, Option, none, some, List, ◌≡◌, ◌≢◌, ◌⊎◌, inl, inr, arith,
  sym, ap, ◌∙◌, length, length-append,
}
use ferrum_foundry.Pagination.{
  Page, Failure, CollectOptions, State, Round, failed, more, Result, threw, take_page, check_seen,
  check_total, check_page, round, loop, start, collect_bounded_pages,
}
use ferrum_foundry.Pagination.Rounds.{round_cases, Round-cases}
use ferrum_foundry.Pagination.Sound.{more_lem}

module _ {ℓ} {T : Type ℓ} (o : CollectOptions T) (fetch : ℕ → ℕ → Option (Page T)) where
  take_page-ne-out_of_fuel :
      (s : State T) (p : Page T) (t : ℕ) (seen : List (String × Unit {0}))
      → take_page o s p t seen ≢ failed Failure.out_of_fuel
  unfolding take_page
  take_page-ne-out_of_fuel s p t seen = ground arith

  round-ne-out_of_fuel : (s : State T) → round o fetch s ≢ failed Failure.out_of_fuel
  unfolding round check_page check_total check_seen take_page
  round-ne-out_of_fuel s = ground arith

  disjoint_rounds : (f : Failure) (s' : State T) → Round.failed f ≢ more s'
  disjoint_rounds f s' e = cc

  more_progress :
      (s s' : State T)
      → round o fetch s ≡ more s'
      → (t : ℕ) × (s'.expected_total ≡ some t)
        × (length s'.items < t)
        × (length s.items < length s'.items)
        × ((s.expected_total ≡ none) ⊎ (s.expected_total ≡ some t))
        × (p : Page T) × (fetch s.offset o.page_size ≡ some p)
        × (p.total ≡ some t)
  more_progress s s' e = elim (round_cases o fetch s) [
    | inl (f, r) ↦ absurd (disjoint_rounds f s' (sym r ∙ e))
    | inr (p, t, seen, k, r) ↦
        let (items, _, _, expected, below, pos) = more_lem o fetch s s' p t seen (sym r ∙ e) in
        (
          t,
          expected,
          below,
          omega (arith, ap length items, length-append s.items p.items),
          k.agrees,
          p,
          k.answered,
          k.total,
        )
  ]

  threw_injective :
      (f : Failure)
      → ◌≡◌ {A = Result T} (threw f) (threw Failure.out_of_fuel)
      → f ≡ Failure.out_of_fuel
  threw_injective f e = cc

  loop-ne-out_of_fuel :
      (fuel : ℕ) (s : State T) (t : ℕ)
      → s.expected_total ≡ some t
      → length s.items < t
      → t ≤ fuel + length s.items
      → loop o fetch fuel s ≢ threw Failure.out_of_fuel
  unfolding loop
  loop-ne-out_of_fuel zero s t known below enough = absurd (omega arith)
  loop-ne-out_of_fuel (suc fuel) s t known below enough = elim (Round-cases (round o fetch s)) [
    | inl (c, r) ↦ rw (r, loop) (λ e. cc)
    | inr (inl (f, r)) ↦
        rw (r, loop) (λ e. round-ne-out_of_fuel s (r ∙ ap failed (threw_injective f e)))
    | inr (inr (s', r)) ↦
        let (t', expected, below', grows, agrees, _, _, _) = more_progress s s' r in
        let same : t' ≡ t = ground arith in
        rw (r, loop) (loop-ne-out_of_fuel fuel s' t' expected below' (omega arith))
  ]

  from_start :
      (fuel : ℕ)
      → ((p : Page T) (t : ℕ) → fetch 0 o.page_size ≡ some p → p.total ≡ some t → t ≤ suc fuel)
      → loop o fetch (suc fuel) (start o fetch) ≢ threw Failure.out_of_fuel
  unfolding loop
  from_start fuel enough = elim (Round-cases (round o fetch (start o fetch))) [
    | inl (c, r) ↦ rw (r, loop) (λ e. cc)
    | inr (inl (f, r)) ↦
        rw (r, loop)
          (λ e. round-ne-out_of_fuel (start o fetch) (r ∙ ap failed (threw_injective f e)))
    | inr (inr (s', r)) ↦
        let (t, expected, below, grows, _, p, answered, total) =
          more_progress (start o fetch) s' r in
        rw (r, loop)
          (loop-ne-out_of_fuel fuel s' t expected below (omega (arith, enough p t answered total)))
  ]

  -- Whatever the gateway answers, a traversal with as many rounds as the total that the first page
  -- reports, and one at least, returns or throws: it does not run on.
  pub collect-ne-out_of_fuel :
      (fuel : ℕ)
      → ((p : Page T) (t : ℕ) → fetch 0 o.page_size ≡ some p → p.total ≡ some t → t ≤ fuel)
      → 0 < fuel
      → collect_bounded_pages o fetch fuel ≢ threw Failure.out_of_fuel
  unfolding collect_bounded_pages
  collect-ne-out_of_fuel zero enough pos = absurd (omega arith)
  collect-ne-out_of_fuel (suc fuel) enough pos = ground (arith, from_start fuel enough)
