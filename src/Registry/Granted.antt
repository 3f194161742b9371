-- ===== src/Registry/Granted.antt =====
-- A scoped list holds granted names only, whatever the gateway answers.
use ferrum_foundry.Prelude.{
  ℕ, zero, suc, ◌≤◌, String, Bool, true, false, not, List, [], ◌∷◌, Option, none, some,
  if◌then◌else◌, ◌≡◌, arith, leb, ◌==◌, length, take, drop, All, All-append, Bool-cases, inl, inr,
  length-take-le,
}
use ferrum_foundry.Prelude.Json.{sort, insert}
use ferrum_foundry.Policy.{includes}
use ferrum_foundry.Registry.{Principal}
use ferrum_foundry.Registry.Query.{
  Window, WindowCheck, rejected, window, registry_pagination, IsBounded, IsBoundedCheck,
  registry_pagination-IsBoundedCheck,
}
use ferrum_foundry.Registry.Scan.{
  Page, legacy, envelope, Response, ScanOutcome, names, changed, upstream, unavailable, threw,
  Progress, Listing, Round, finished, more, add, list_name, list_names, settle, take_names,
  take_envelope, take_page, answer, round, scan_from, scan_granted_names, ListAnswer, listing,
  refused, page_of, grants_of, scoped_registry_list,
}

module _ (P : String → Type 0) where
  All-take : (n : ℕ) (xs : List String) → All P xs → All P (take n xs)
  All-take zero xs h = tt
  All-take (suc n) [] h = tt
  All-take (suc n) (x ∷ xs) (h, hs) = (h, All-take n xs hs)

  All-drop : (n : ℕ) (xs : List String) → All P xs → All P (drop n xs)
  All-drop zero xs h = h
  All-drop (suc n) [] h = tt
  All-drop (suc n) (x ∷ xs) (h, hs) = All-drop n xs hs

  All-insert :
      (le : String → String → Bool) (x : String) (xs : List String)
      → P x
      → All P xs
      → All P (insert le x xs)
  unfolding insert
  All-insert le x [] h hs = (h, tt)
  All-insert le x (y ∷ ys) h (k, ks) = elim (Bool-cases (le x y)) [
    | inl q ↦ rw q (h, (k, ks))
    | inr q ↦ rw q (k, All-insert le x ys h ks)
  ]

  pub All-sort : (le : String → String → Bool) (xs : List String) → All P xs → All P (sort le xs)
  unfolding sort
  All-sort le [] h = tt
  All-sort le (x ∷ xs) (h, hs) = All-insert le x (sort le xs) h (All-sort le xs hs)

  All-add : (xs : List String) (x : String) → P x → All P xs → All P (add xs x)
  unfolding add
  All-add xs x h hs = elim (Bool-cases (includes xs x)) [
    | inl q ↦ rw q hs
    | inr q ↦ rw q (All-append P xs (x ∷ []) hs (h, tt))
  ]

module _ (key : String → String) (le : String → String → Bool) (grants : List String) where
  abbrev pub IsGrant : String → Type 0
  IsGrant name = includes grants name ≡ true

  -- An outcome that answers names answers granted ones.
  abbrev pub IsGranted : ScanOutcome → Type 0
  IsGranted (names ns) = All IsGrant ns
  IsGranted _ = Unit

  abbrev IsGrantedRound : Round → Type 0
  IsGrantedRound (finished o) = IsGranted o
  IsGrantedRound (more s) = All IsGrant s.found

  record GrantedRound (r : Round) : Type 0 where
    is_granted : IsGrantedRound r

  threw-granted : GrantedRound (finished threw)
  threw-granted = record { is_granted = tt }

  list_name-granted :
      (l : Listing) (name : String)
      → All IsGrant l.found
      → All IsGrant (list_name key le grants l name).found
  unfolding list_name
  list_name-granted l name h = elim (Bool-cases (includes grants name)) [
    | inl q ↦ rw q (All-add IsGrant l.found name q h)
    | inr q ↦ rw q h
  ]

  list_names-granted :
      (l : Listing) (xs : List String)
      → All IsGrant l.found
      → All IsGrant (list_names key le grants l xs).found
  unfolding list_names
  list_names-granted l [] h = h
  list_names-granted l (x ∷ xs) h =
      list_names-granted (list_name key le grants l x) xs (list_name-granted l x h)

  if_granted :
      (b : Bool) (r r' : Round)
      → GrantedRound r
      → GrantedRound r'
      → GrantedRound (if b then r else r')
  if_granted true r r' h h' = h
  if_granted false r r' h h' = h'

  settle-granted :
      (l : Listing) (first : Option ℕ) (offset : ℕ) (is_last is_empty : Bool)
      → All IsGrant l.found
      → GrantedRound (settle key le grants l first offset is_last is_empty)
  unfolding settle
  settle-granted l first offset is_last is_empty h =
      let found = finished (names (sort le l.found)) in
      let shown : GrantedRound found = record { is_granted = All-sort IsGrant le l.found h } in
      let refusal = finished (unavailable changed) in
      let next = more (record {
        found = l.found;
        witnessed = l.witnessed;
        first_total = first;
        offset = offset;
      }) in
      let empty_round = if is_empty then finished threw else next in
      let last_round = if is_last then found else empty_round in
      if_granted (length l.found == length grants) found
        (if not l.consistent then refusal else last_round) shown
        (if_granted (not l.consistent) refusal last_round (record { is_granted = tt })
          (if_granted is_last found empty_round shown
            (if_granted is_empty (finished threw) next threw-granted (record { is_granted = h }))))

  take_names-granted :
      (s : Progress) (xs : List String) (first : Option ℕ) (offset : ℕ) (consistent is_last : Bool)
      → All IsGrant s.found
      → GrantedRound (take_names key le grants s xs first offset consistent is_last)
  unfolding take_names
  take_names-granted s xs first offset consistent is_last h =
      settle-granted _ first offset is_last _ (list_names-granted _ xs h)

  take_page-granted :
      (s : Progress) (p : Page) → All IsGrant s.found → GrantedRound (take_page key le grants s p)
  unfolding take_page take_envelope
  take_page-granted s (legacy none) h = threw-granted
  take_page-granted s (legacy (some xs)) h =
      if_granted _ _ _ threw-granted (take_names-granted s xs s.first_total s.offset true true h)
  take_page-granted s (envelope none total offset) h = threw-granted
  take_page-granted s (envelope (some xs) none offset) h = threw-granted
  take_page-granted s (envelope (some xs) (some total) none) h = threw-granted
  take_page-granted s (envelope (some xs) (some total) (some offset)) h =
      if_granted _ _ _ threw-granted
        (if_granted _ _ _ threw-granted (take_names-granted s xs _ _ _ _ h))

  answer-granted :
      (s : Progress) (r : Response) → All IsGrant s.found → GrantedRound (answer key le grants s r)
  unfolding answer
  answer-granted s r h =
      let failed_as = upstream (if leb 400 r.status then r.status else 502) in
      if_granted (not (r.status == 200)) (finished (unavailable failed_as)) _
        (record { is_granted = tt }) (read_page r.page)
    where
      read_page :
          (o : Option Page)
          → GrantedRound (elim o as (λ _. Round) [
            | none ↦ finished threw
            | some p ↦ take_page key le grants s p
          ])
      read_page none = threw-granted
      read_page (some p) = take_page-granted s p h

  module _ (fetch : ℕ → ℕ → Option Response) where
    round-granted :
        (k : ℕ) (s : Progress) → All IsGrant s.found → GrantedRound (round key le grants fetch k s)
    unfolding round
    round-granted k s h = read_response (fetch k s.offset)
      where
        read_response :
            (o : Option Response)
            → GrantedRound (elim o as (λ _. Round) [
              | none ↦ finished threw
              | some r ↦ answer key le grants s r
            ])
        read_response none = threw-granted
        read_response (some r) = answer-granted s r h

    next-IsGranted :
        (r : Round) (next : Progress → ScanOutcome)
        → GrantedRound r
        → ((s : Progress) → All IsGrant s.found → IsGranted (next s))
        → IsGranted (elim r as (λ _. ScanOutcome) [ finished o ↦ o | more s ↦ next s ])
    next-IsGranted (finished o) next h f = h.is_granted
    next-IsGranted (more s) next h f = f s h.is_granted

    scan_from-IsGranted :
        (left k : ℕ) (s : Progress)
        → All IsGrant s.found
        → IsGranted (scan_from key le grants fetch left k s)
    unfolding scan_from
    scan_from-IsGranted zero k s h = tt
    scan_from-IsGranted (suc left) k s h =
        next-IsGranted (round key le grants fetch k s) (scan_from key le grants fetch left (suc k))
          (round-granted k s h) (λ s' h'. scan_from-IsGranted left (suc k) s' h')

    -- Whatever the pages hold, the names that a traversal answers are granted ones.
    pub scan_granted_names-IsGranted :
        (max_pages : ℕ) → IsGranted (scan_granted_names key le grants fetch max_pages)
    unfolding scan_granted_names
    scan_granted_names-IsGranted max_pages = scan_from-IsGranted max_pages 0 _ tt

-- The names of a scoped list's answer are granted ones, of a page of at most 1000.
abbrev pub IsScoped : List String → ListAnswer → Type 0
IsScoped grants (listing data_ w total) =
    All (λ name. includes grants name ≡ true) data_ × (length data_ ≤ 1000) × IsBounded w
IsScoped grants _ = Unit

page_of-IsScoped :
    (key : String → String) (le : String → String → Bool) (grants : List String) (w : Window)
    (o : ScanOutcome)
    → IsBounded w
    → IsGranted key le grants o
    → IsScoped grants (page_of w o)
unfolding page_of
page_of-IsScoped key le grants w (names ns) b h = (
  All-take _ w.limit _ (All-drop _ w.offset ns h),
  omega (arith, length-take-le w.limit (drop w.offset ns), b.limit_below),
  b,
)
page_of-IsScoped key le grants w (unavailable u) b h = tt
page_of-IsScoped key le grants w threw b h = tt

-- Whatever the gateway answers, a scoped list answers at most 1000 names, each one granted to the
-- principal; the paging parameters cannot widen it.
pub scoped_registry_list-IsScoped :
    (key : String → String) (le : String → String → Bool) (fetch : ℕ → ℕ → Option Response)
    (max_pages : ℕ) (query : List (String × String)) (p : Principal)
    → IsScoped
        (grants_of p)
        (scoped_registry_list query p (λ grants. scan_granted_names key le grants fetch max_pages))
unfolding scoped_registry_list
scoped_registry_list-IsScoped key le fetch max_pages query p =
    go (registry_pagination query) (registry_pagination-IsBoundedCheck query)
  where
    go :
        (c : WindowCheck)
        → IsBoundedCheck c
        → IsScoped (grants_of p) (elim c as (λ _. ListAnswer) [
          | rejected r ↦ refused r
          | window w ↦ page_of w (scan_granted_names key le (grants_of p) fetch max_pages)
        ])
    go (rejected r) b = tt
    go (window w) b =
        page_of-IsScoped key le (grants_of p) w _ b
          (scan_granted_names-IsGranted key le (grants_of p) fetch max_pages)
