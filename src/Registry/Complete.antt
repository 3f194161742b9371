-- ===== src/Registry/Complete.antt =====
-- Of a registry that does not change, a traversal answers every granted name.
use mathlib.Core.Path.{subst}
use mathlib.Core.List.{append_assoc, append-nil, map-append}
use ferrum_foundry.Prelude.{
  ℕ, zero, suc, ◌+◌, ◌*◌, ◌≤◌, String, Bool, true, false, not, List, [], ◌∷◌, ◌++◌, Option, none,
  some, if◌then◌else◌, ◌≡◌, refl, sym, ap, ◌∙◌, arith, leb, ltb, ◌==◌, length, any, take, drop,
  keep, map, All, Bool-cases, ◌⊎◌, inl, inr, length-append, keep-append, take-append-drop,
  length-take-le, leb→le, ==_iff,
}
use ferrum_foundry.Prelude.Json.{sort}
use ferrum_foundry.Policy.{includes}
use ferrum_foundry.Prelude.Anys.{any-append}
use ferrum_foundry.Pagination.Complete.{drop-append}
use ferrum_foundry.Registry.{is_namespace_name}
use ferrum_foundry.Registry.Scan.{
  envelope, Response, ScanOutcome, names, Progress, Listing, Round, finished, more, add, list_name,
  list_names, settle, take_names, take_envelope, take_page, answer, round, scan_from,
  scan_granted_names,
}
use ferrum_foundry.Registry.Distinct.{
  Unrepeated, includes_before, includes-map, includes-keep, Unrepeated-keep, Unrepeated_of_map,
  length-Unrepeated_le,
}

-- The pages of a registry that holds the same names whenever it is asked.
abbrev pub paged : List String → ℕ → ℕ → Option Response
paged xs k offset = some (record {
  status = 200;
  page = some (envelope (some (take 1000 (drop offset xs))) (some (length xs)) (some offset));
})

full_page : (n : ℕ) (zs : List String) → 1 ≤ length (drop n zs) → length (take n zs) ≡ n
full_page zero zs h = refl
full_page (suc n) [] h = absurd (omega arith)
full_page (suc n) (z ∷ zs) h = ap suc (full_page n zs h)

zero_or_more : (n : ℕ) → (n ≡ 0) ⊎ (1 ≤ n)
zero_or_more zero = inl refl
zero_or_more (suc n) = inr (omega arith)

module _ (key : String → String) (grants : List String) where
  -- where the traversal stands after the names `ys`
  abbrev kept : List String → List String
  kept ys = keep (includes grants) ys

  add_new : (xs : List String) (x : String) → includes xs x ≡ false → add xs x ≡ xs ++ x ∷ []
  unfolding add
  add_new xs x h = rw h refl

  abbrev listed_as : List String → Listing
  listed_as ys = record { found = kept ys; witnessed = map key ys; consistent = true }

  found_new :
      (ys : List String) (x : String)
      → includes ys x ≡ false
      → (if includes grants x then add (kept ys) x else kept ys) ≡ kept (ys ++ x ∷ [])
  found_new ys x h = elim (Bool-cases (includes grants x)) [
    | inl q ↦
        rw (q, keep-append (includes grants) ys (x ∷ []), q)
          (add_new (kept ys) x (includes-keep (includes grants) ys x h))
    | inr q ↦ rw (q, keep-append (includes grants) ys (x ∷ []), q) (sym (append-nil (kept ys)))
  ]

  not_listed :
      (ys : List String) (x : String)
      → includes (map key ys) (key x) ≡ false
      → includes ys x ≡ false
  not_listed ys x h = elim (Bool-cases (includes ys x)) [
    | inl q ↦ absurd (ground (arith, includes-map key ys x q))
    | inr q ↦ q
  ]

  list_name_new :
      (le : String → String → Bool) (ys : List String) (x : String)
      → includes (map key ys) (key x) ≡ false
      → list_name key le grants (listed_as ys) x ≡ listed_as (ys ++ x ∷ [])
  unfolding list_name
  list_name_new le ys x h =
      rw
        (
          found_new ys x (not_listed ys x h),
          add_new (map key ys) (key x) h,
          h,
          map-append key ys (x ∷ []),
        )
        refl

  list_names_new :
      (le : String → String → Bool) (ys xs rest : List String)
      → Unrepeated (map key (ys ++ (xs ++ rest)))
      → list_names key le grants (listed_as ys) xs ≡ listed_as (ys ++ xs)
  unfolding list_names
  list_names_new le ys [] rest u = rw append-nil refl
  list_names_new le ys (x ∷ xs) rest u =
      let new =
        includes_before (map key ys) (key x) (map key (xs ++ rest))
          (subst Unrepeated (map-append key ys (x ∷ (xs ++ rest))) u) in
      let later =
        list_names_new le (ys ++ x ∷ []) xs rest
          (subst (λ l. Unrepeated (map key l)) (sym (append_assoc ys (x ∷ []) (xs ++ rest))) u) in
      rw (list_name_new le ys x new) (later ∙ ap listed_as (append_assoc ys (x ∷ []) xs))

  kept_granted : (xs : List String) → All (λ x. includes grants x ≡ true) (kept xs)
  kept_granted [] = tt
  kept_granted (x ∷ xs) = elim (Bool-cases (includes grants x)) [
    | inl q ↦ rw q (q, kept_granted xs)
    | inr q ↦ rw q (kept_granted xs)
  ]

  nil_of_length : (xs : List String) → length xs ≡ 0 → xs ≡ []
  nil_of_length [] h = refl
  nil_of_length (x ∷ xs) h = absurd (omega arith)

  -- when as many granted names were found as there are grants, the rest holds none
  none_later :
      (xs rest : List String)
      → Unrepeated (xs ++ rest)
      → length (kept xs) ≡ length grants
      → kept (xs ++ rest) ≡ kept xs
  none_later xs rest u e =
      let most =
        length-Unrepeated_le (kept (xs ++ rest)) grants
          (Unrepeated-keep (includes grants) (xs ++ rest) u) (kept_granted (xs ++ rest)) in
      let split = keep-append (includes grants) xs rest in
      let parts = ap length split ∙ length-append (kept xs) (kept rest) in
      let none_left = nil_of_length (kept rest) (omega (arith, most, parts, e)) in
      split ∙ ap (λ l. kept xs ++ l) none_left ∙ append-nil (kept xs)

  module _ (le : String → String → Bool) (xs : List String)
      (valid : any (λ x. not (is_namespace_name x)) xs ≡ false)
      (apart : Unrepeated (map key xs)) where
    abbrev reached : Option ℕ → List String → Progress
    reached first ys = record {
      found = kept ys;
      witnessed = map key ys;
      first_total = first;
      offset = length ys;
    }

    abbrev total_of : Option ℕ → ℕ
    total_of first = elim first as (λ _. ℕ) [ none ↦ length xs | some n ↦ n ]

    abbrev settled : List String → List String → Round
    settled ys page =
        settle key le grants (listed_as (ys ++ page)) (some (length xs)) (length ys + length page)
          (leb (length xs) (length ys + length page)) (length page == 0)

    at_offset :
        (ys page rest : List String)
        → ys ++ (page ++ rest) ≡ xs
        → take 1000 (page ++ rest) ≡ page
        → take 1000 (drop (length ys) xs) ≡ page
    at_offset ys page rest split cut =
        ap (λ l. take 1000 (drop (length ys) l)) (sym split)
        ∙ ap (take 1000) (drop-append ys (page ++ rest))
        ∙ cut

    valid_page :
        (ys page rest : List String)
        → ys ++ (page ++ rest) ≡ xs
        → any (λ x. not (is_namespace_name x)) page ≡ false
    valid_page ys page rest split =
        let invalid = λ (x : String). not (is_namespace_name x) in
        ground (
          arith,
          ap (any invalid) split,
          any-append invalid ys (page ++ rest),
          any-append invalid page rest,
          valid,
        )

    length_split :
        (ys page rest : List String)
        → ys ++ (page ++ rest) ≡ xs
        → length ys + (length page + length rest) ≡ length xs
    length_split ys page rest split =
        omega (arith, ap length split, length-append ys (page ++ rest), length-append page rest)

    take_envelope_reads :
        (first : Option ℕ) (ys page rest : List String)
        → ys ++ (page ++ rest) ≡ xs
        → total_of first ≡ length xs
        → length page ≤ 1000
        → take_envelope key le grants (reached first ys) page (length xs) (length ys)
          ≡ settled ys page
    unfolding take_envelope take_names
    take_envelope_reads first ys page rest split t short =
        let names_new =
          list_names_new le ys page rest (subst (λ l. Unrepeated (map key l)) (sym split) apart) in
        let all = length_split ys page rest split in
        let same : (length ys == length ys) ≡ true = ground arith in
        let fits : ltb 1000 (length page) ≡ false = ground arith in
        let equal : (length xs == length xs) ≡ true = ground arith in
        let inside : leb (length ys + length page) (length xs) ≡ true = ground (arith, all) in
        rw (same, fits, t, equal, inside, names_new) refl

    round_reads :
        (k : ℕ) (first : Option ℕ) (ys page rest : List String)
        → ys ++ (page ++ rest) ≡ xs
        → total_of first ≡ length xs
        → take 1000 (page ++ rest) ≡ page
        → length page ≤ 1000
        → round key le grants (paged xs) k (reached first ys) ≡ settled ys page
    unfolding round answer take_page
    round_reads k first ys page rest split t cut short =
        rw (at_offset ys page rest split cut, valid_page ys page rest split)
          (take_envelope_reads first ys page rest split t short)

    -- what is answered once the last page, or the last grant, was read
    abbrev everything : ScanOutcome
    everything = names (sort le (kept xs))

    after_page :
        (left k : ℕ) (ys page rest : List String)
        → ys ++ (page ++ rest) ≡ xs
        → ((length rest ≡ 0) ⊎ (1 ≤ length page))
        → (1 ≤ length rest
            → scan_from key le grants (paged xs) left k (reached (some (length xs)) (ys ++ page))
              ≡ everything)
        → (elim (settled ys page) as (λ _. ScanOutcome) [
          | finished o ↦ o
          | more s ↦ scan_from key le grants (paged xs) left k s
        ])
          ≡ everything
    unfolding settle
    after_page left k ys page rest split moved next =
        let whole = append_assoc ys page rest ∙ split in
        let lengths = length_split ys page rest split in
        let seen = length-append ys page in
        elim (Bool-cases (length (kept (ys ++ page)) == length grants)) [
          | inl g ↦
              let same =
                none_later (ys ++ page) rest
                  (Unrepeated_of_map key _ (subst (λ l. Unrepeated (map key l)) (sym whole) apart))
                  ((==_iff _ _).0 g) in
              rw g (ap (λ l. names (sort le l)) (sym same ∙ ap kept whole))
          | inr g ↦ elim (Bool-cases (leb (length xs) (length ys + length page))) [
            | inl last ↦
                let none_left = nil_of_length rest (omega (arith, leb→le _ _ last, lengths)) in
                rw (g, last)
                  (ap (λ l. names (sort le (kept l)))
                    (sym (append-nil (ys ++ page))
                      ∙ ap (λ l. (ys ++ page) ++ l) (sym none_left)
                      ∙ whole))
            | inr last ↦
                let left_over : 1 ≤ length rest = ground (arith, last, lengths) in
                let not_empty : (length page == 0) ≡ false = elim moved [
                  | inl e ↦ absurd (omega (arith, e, left_over))
                  | inr m ↦ ground (arith, m)
                ] in
                rw (g, last, not_empty, sym seen) (next left_over)
          ]
        ]

    pages :
        (left k : ℕ) (first : Option ℕ) (ys zs : List String)
        → ys ++ zs ≡ xs
        → total_of first ≡ length xs
        → 1 ≤ left
        → length zs ≤ left * 1000
        → scan_from key le grants (paged xs) left k (reached first ys) ≡ everything
    unfolding scan_from
    pages zero k first ys zs split t h fuel = absurd (omega arith)
    pages (suc left) k first ys zs split t h fuel =
        let page = take 1000 zs in
        let rest = drop 1000 zs in
        let cut = take-append-drop 1000 zs in
        let divided : ys ++ (page ++ rest) ≡ xs = ap (λ l. ys ++ l) cut ∙ split in
        let counted = ap length cut in
        let sum = length-append page rest in
        rw
          (
            scan_from,
            round_reads k first ys page rest divided t (ap (take 1000) cut)
                (length-take-le 1000 zs),
          )
          (after_page left (suc k) ys page rest divided
            (elim (zero_or_more (length rest)) [
              | inl e ↦ inl e
              | inr r ↦ inr (omega (arith, full_page 1000 zs r))
            ])
            (λ r.
              pages left (suc k) (some (length xs)) (ys ++ page) rest
                (append_assoc ys page rest ∙ divided) refl
                (omega (arith, full_page 1000 zs r, sum, counted, fuel, r))
                (omega (arith, full_page 1000 zs r, sum, counted, fuel, r))))

    -- Of a registry of valid names that does not change, none repeated and none taken for another
    -- by its key, a traversal with pages enough for it answers exactly the granted names, sorted.
    pub scan_granted_names-everything :
        (max_pages : ℕ)
        → 1 ≤ max_pages
        → length xs ≤ max_pages * 1000
        → scan_granted_names key le grants (paged xs) max_pages
          ≡ names (sort le (keep (includes grants) xs))
    unfolding scan_granted_names
    scan_granted_names-everything max_pages h fuel = pages max_pages 0 none [] xs refl refl h fuel
