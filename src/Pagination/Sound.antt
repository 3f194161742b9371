-- ===== src/Pagination/Sound.antt =====
-- What a traversal that returns has read.
use mathlib.Core.List.{append_assoc, append-nil}
use mathlib.Core.Path.{subst}
use ferrum_foundry.Prelude.{
  ℕ, zero, suc, ◌+◌, ◌<◌, String, true, false, Option, some, List, [], ◌++◌, ◌≡◌, inl, inr, arith,
  sym, ap, ◌∙◌, length, ◌⊎◌,
}
use ferrum_foundry.Pagination.{
  Page, BoundedCollection, CollectOptions, State, finished, more, collected, spent, take_page, loop,
  start, collect_bounded_pages,
}
use ferrum_foundry.Pagination.Rounds.{
  Unrepeated, Tracks, Tracks-see_page, Unrepeated-of_Tracks, Tracks-start, Agrees, Took,
  round_cases, Round-cases,
}

module _ {ℓ} {T : Type ℓ} (o : CollectOptions T) (fetch : ℕ → ℕ → Option (Page T)) where
  -- `Reads t offset items`: pages chained from `offset`, each where it was asked for and with the
  -- total `t`, hold `items` in order.
  pub data Reads (t : ℕ) : ℕ → List T → Type ℓ where
    nothing : {at : ℕ} → Reads t at []
    page :
        {at : ℕ} (p : Page T) {rest : List T}
        → fetch at o.page_size ≡ some p
        → p.offset ≡ some at
        → p.total ≡ some t
        → Reads t (at + length p.items) rest
        → Reads t at (p.items ++ rest)

  -- What a collection says of the gateway, from a state of the loop on.
  record IsFaithful (s : State T) (c : BoundedCollection T) : Type ℓ where
    rest : List T
    reads : Reads c.total s.offset rest
    extends : c.items ≡ s.items ++ rest
    agrees : Agrees o s c.total
    unrepeated : Unrepeated o.identity c.items
    whole : c.complete ≡ true → length c.items ≡ c.total
    part : c.complete ≡ false → (length c.items < c.total) × (spent o (length c.items) ≡ true)

  finished_fields :
      (s : State T) (p : Page T) (t : ℕ) (seen : List (String × Unit {0})) (c : BoundedCollection T)
      → take_page o s p t seen ≡ finished c
      → (c.items ≡ s.items ++ p.items)
        × (c.total ≡ t)
        × (c.complete ≡ true → length c.items ≡ c.total)
        × (c.complete ≡ false → (length c.items < c.total) × (spent o (length c.items) ≡ true))
  unfolding take_page
  finished_fields s p t seen c e = ground arith

  finished_lem :
      (s : State T) (p : Page T) (t : ℕ) (seen : List (String × Unit {0})) (c : BoundedCollection T)
      → Tracks o.identity s.seen s.items
      → Took o fetch s p t seen
      → take_page o s p t seen ≡ finished c
      → IsFaithful s c
  unfolding take_page
  finished_lem s p t seen c tr k e =
      let (items, total, whole, part) = finished_fields s p t seen c e in
      record {
        rest = p.items ++ [];
        reads = page p k.answered k.placed (rw total k.total) nothing;
        extends = rw append-nil items;
        agrees = rw total k.agrees;
        unrepeated = subst (Unrepeated o.identity) (sym items) (
            Unrepeated-of_Tracks o.identity seen (s.items ++ p.items)
              (Tracks-see_page o.identity s.seen seen s.items p.items tr k.fresh));
        whole = whole;
        part = part;
      }

  pub more_lem :
      (s s' : State T) (p : Page T) (t : ℕ) (seen : List (String × Unit {0}))
      → take_page o s p t seen ≡ more s'
      → (s'.items ≡ s.items ++ p.items)
        × (s'.offset ≡ s.offset + length p.items)
        × (s'.seen ≡ seen)
        × (s'.expected_total ≡ some t)
        × (length s'.items < t)
        × (0 < length p.items)
  unfolding take_page
  more_lem s s' p t seen e = ground arith

  -- What is faithful from the next state on is faithful from this one.
  IsFaithful-more :
      (s s' : State T) (p : Page T) (t : ℕ) (seen : List (String × Unit {0}))
      (c : BoundedCollection T)
      → Took o fetch s p t seen
      → take_page o s p t seen ≡ more s'
      → IsFaithful s' c
      → IsFaithful s c
  IsFaithful-more s s' p t seen c k e h =
      let (items, offset, _, expected, _, _) = more_lem s s' p t seen e in
      let same : t ≡ c.total = total_of h.agrees expected in
      record {
        rest = p.items ++ h.rest;
        reads =
            page p k.answered k.placed (k.total ∙ ap some same)
              (subst (λ at. Reads c.total at h.rest) offset h.reads);
        extends = h.extends ∙ rw items (append_assoc s.items p.items h.rest);
        agrees = subst (Agrees o s) same k.agrees;
        unrepeated = h.unrepeated;
        whole = h.whole;
        part = h.part;
      }
    where
      total_of : Agrees o s' c.total → s'.expected_total ≡ some t → t ≡ c.total
      total_of agrees expected = ground arith

  Tracks-more :
      (s s' : State T) (p : Page T) (t : ℕ) (seen : List (String × Unit {0}))
      → Tracks o.identity s.seen s.items
      → Took o fetch s p t seen
      → take_page o s p t seen ≡ more s'
      → Tracks o.identity s'.seen s'.items
  Tracks-more s s' p t seen tr k e =
      let (items, _, same, _, _, _) = more_lem s s' p t seen e in
      rw (items, same) (Tracks-see_page o.identity s.seen seen s.items p.items tr k.fresh)

  -- By induction on the rounds left.
  loop-IsFaithful :
      (fuel : ℕ) (s : State T) (c : BoundedCollection T)
      → Tracks o.identity s.seen s.items
      → loop o fetch fuel s ≡ collected c
      → IsFaithful s c
  unfolding loop
  loop-IsFaithful zero s c tr e = cc
  loop-IsFaithful (suc fuel) s c tr e = elim (round_cases o fetch s) [
    | inl (f, r) ↦ absurd (cc (rw (r, loop) at e))
    | inr (p, t, seen, k, r) ↦ elim (Round-cases (take_page o s p t seen)) [
      | inl (c', done) ↦
          let same : c' ≡ c = ground arith in
          finished_lem s p t seen c tr k (done ∙ ap finished same)
      | inr (inl (f, fails)) ↦ absurd (cc (rw (r ∙ fails, loop) at e))
      | inr (inr (s', next)) ↦ IsFaithful-more s s' p t seen c k next (
          loop-IsFaithful fuel s' c (Tracks-more s s' p t seen tr k next)
            (rw (r ∙ next, loop) at e))
    ]
  ]

  -- A traversal that returns has read its items, in order, from pages chained from offset 0 that
  -- all report the total it returns, with no identity seen twice. Either it calls itself complete,
  -- and the items are as many as that total, or it does not, and they are fewer and fill the
  -- budget.
  pub collect_sound :
      (fuel : ℕ) (c : BoundedCollection T)
      → collect_bounded_pages o fetch fuel ≡ collected c
      → Reads c.total 0 c.items
        × Unrepeated o.identity c.items
        × (((c.complete ≡ true) × (length c.items ≡ c.total))
            ⊎ ((c.complete ≡ false)
                × (length c.items < c.total)
                × (spent o (length c.items) ≡ true)))
  unfolding collect_bounded_pages
  collect_sound fuel c e =
      let h = loop-IsFaithful fuel (start o fetch) c (Tracks-start o.identity) (ground arith) in
      (
        subst (Reads c.total 0) (sym h.extends) h.reads,
        h.unrepeated,
        ground (arith, h.whole, h.part),
      )
