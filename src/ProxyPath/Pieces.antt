-- ===== src/ProxyPath/Pieces.antt =====
-- What the checks of proxyTargetPath say of a text, of its segments and of what they decode to.
use Prim.Native.Char.{Char, code}
use Prim.Native.String.{String, [] as empty_text, ◌∷◌ as prepend}
use ferrum_foundry.Prelude.{
  ℕ, ◌<◌, ◌≢◌, Bool, false, List, [], ◌∷◌, Option, some, ◌≡◌, ◌↔◌, refl, ap, ◌∙◌, arith, All,
  Bool-cases, Option-cases, inl, inr,
}
use ferrum_foundry.Prelude.Maps.{str_dec}
use ferrum_foundry.Policy.{includes}
use ferrum_foundry.ProxyPath.{
  contains, contains_control, is_control, is_unsafe_character, is_unsafe_segment, decode_segment,
  decode_segments, has_gap, path_segments,
}
use ferrum_foundry.ProxyPath.Segments.{IsSafe}

-- What every character of a text is.
abbrev pub Every : (Char → Type 0) → String → Type 0
Every P empty_text = Unit
Every P (prepend c s) = P c × Every P s

abbrev pub IsNot : ℕ → Char → Type 0
IsNot n c = code c ≢ n

abbrev pub IsPrintable : Char → Type 0
IsPrintable c = (31 < code c) × IsNot 127 c

-- A character that the text of a path may have: no control, `#` or `?`.
abbrev pub IsPathCharacter : Char → Type 0
IsPathCharacter c = IsPrintable c × (IsNot 35 c × IsNot 63 c)

-- A character that a segment may have: no control, `%`, `/` or backslash.
abbrev pub IsSegmentCharacter : Char → Type 0
IsSegmentCharacter c = IsPrintable c × (IsNot 37 c × (IsNot 47 c × IsNot 92 c))

abbrev pub IsSegment : String → Type 0
IsSegment s = Every IsSegmentCharacter s × ((s ≢ ".") × (s ≢ ".."))

-- One segment or more, of which only the last may be empty.
abbrev pub IsGapless : List String → Type 0
IsGapless [] = ⊥
IsGapless (x ∷ []) = Unit
IsGapless (x ∷ y ∷ ys) = (x ≢ "") × IsGapless (y ∷ ys)

-- There is a segment.
abbrev pub HasOne : List String → Type 0
HasOne [] = ⊥
HasOne (x ∷ xs) = Unit

pub each_and :
    (P Q : Char → Type 0) (s : String) → (Every P s × Every Q s) ↔ Every (λ c. P c × Q c) s
each_and P Q empty_text = ground arith
each_and P Q (prepend c s) = ground (arith, each_and P Q s)

pub each_iff :
    (p : Char → Bool) (P : Char → Type 0) (s : String)
    → ((c : Char) → (p c ≡ false) ↔ P c)
    → (contains p s ≡ false) ↔ Every P s
unfolding contains
each_iff p P empty_text h = ground arith
each_iff p P (prepend c s) h = ground (arith, h c, each_iff p P s h)

pub is_unsafe_segment_iff : (s : String) → (is_unsafe_segment s ≡ false) ↔ IsSegment s
unfolding is_unsafe_segment contains_control includes
is_unsafe_segment_iff s = ground (
  arith,
  each_iff is_control IsPrintable s (λ c. ground arith),
  each_iff is_unsafe_character (λ c. IsNot 37 c × (IsNot 47 c × IsNot 92 c)) s (λ c. ground arith),
  each_and IsPrintable (λ c. IsNot 37 c × (IsNot 47 c × IsNot 92 c)) s,
  str_dec "." s,
  str_dec ".." s,
)

pub has_gap_iff : (xs : List String) → (HasOne xs × (has_gap xs ≡ false)) ↔ IsGapless xs
unfolding has_gap includes
has_gap_iff [] = ground arith
has_gap_iff (x ∷ []) = ground arith
has_gap_iff (x ∷ y ∷ ys) = ground (arith, str_dec "" x, has_gap_iff (y ∷ ys))

pub path_segments-parts :
    (all segments : List String)
    → path_segments all ≡ some segments
    → (all ≡ "api" ∷ "proxy" ∷ segments) × (has_gap segments ≡ false) × HasOne segments
unfolding path_segments includes
path_segments-parts [] segments h = cc
path_segments-parts (a ∷ []) segments h = cc
path_segments-parts (a ∷ b ∷ []) segments h = cc
path_segments-parts (a ∷ b ∷ x ∷ xs) [] h = ground (arith, str_dec "api" a, str_dec "proxy" b)
path_segments-parts (a ∷ b ∷ x ∷ xs) (y ∷ ys) h = (
  ground (arith, str_dec "api" a, str_dec "proxy" b),
  ground (arith, str_dec "api" a, str_dec "proxy" b),
  tt,
)

pub path_segments-api :
    (segments : List String)
    → has_gap segments ≡ false
    → HasOne segments
    → path_segments ("api" ∷ "proxy" ∷ segments) ≡ some segments
unfolding path_segments includes
path_segments-api [] h one = elim one [ ]
path_segments-api (x ∷ xs) h one = ground (arith, str_dec "api" "api", str_dec "proxy" "proxy")

module _ (decode : String → Option String) where
  -- Each text is decoded, once, to the segment in its place.
  abbrev pub DecodeTo : List String → List String → Type 0
  DecodeTo [] [] = Unit
  DecodeTo (x ∷ xs) (s ∷ ss) = (decode x ≡ some s) × DecodeTo xs ss
  DecodeTo _ _ = ⊥

  decode_segment-parts :
      (x s : String) → decode_segment decode x ≡ some s → (decode x ≡ some s) × IsSafe s
  unfolding decode_segment
  decode_segment-parts x s h = elim (Option-cases (decode x)) [
    | inl e ↦ absurd (ground (arith, e, h))
    | inr (d, e) ↦ elim (Bool-cases (is_unsafe_segment d)) [
      | inl u ↦ absurd (ground (arith, e, u, h))
      | inr u ↦ let p : d ≡ s = ground (arith, e, u, h) in (ground arith, ground arith)
    ]
  ]

  pub decode_segments-parts :
      (xs ys : List String) → decode_segments decode xs ≡ some ys → DecodeTo xs ys × All IsSafe ys
  unfolding decode_segments
  decode_segments-parts [] [] h = (tt, tt)
  decode_segments-parts [] (y ∷ ys) h = cc
  decode_segments-parts (x ∷ xs) [] h = elim (Option-cases (decode_segment decode x)) [
    | inl e ↦ absurd (ground (arith, e, h))
    | inr (s, e) ↦ elim (Option-cases (decode_segments decode xs)) [
      | inl f ↦ absurd (ground (arith, e, f, h))
      | inr (rest, f) ↦ absurd (ground (arith, e, f, h))
    ]
  ]
  decode_segments-parts (x ∷ xs) (y ∷ ys) h = elim (Option-cases (decode_segment decode x)) [
    | inl e ↦ absurd (ground (arith, e, h))
    | inr (s, e) ↦ elim (Option-cases (decode_segments decode xs)) [
      | inl f ↦ absurd (ground (arith, e, f, h))
      | inr (rest, f) ↦
          let p : s ≡ y = ground (arith, e, f, h) in
          let q : rest ≡ ys = ground (arith, e, f, h) in
          let (d, safe) = decode_segment-parts x y (e ∙ ap some p) in
          let (ds, all_safe) = decode_segments-parts xs ys (f ∙ ap some q) in
          ((d, ds), (safe, all_safe))
    ]
  ]

  decode_segment-safe :
      (x s : String) → decode x ≡ some s → IsSafe s → decode_segment decode x ≡ some s
  unfolding decode_segment
  decode_segment-safe x s h safe = ground (arith, h, safe)

  pub decode_segments-all :
      (xs ys : List String) → DecodeTo xs ys → All IsSafe ys → decode_segments decode xs ≡ some ys
  unfolding decode_segments
  decode_segments-all [] [] d h = refl
  decode_segments-all [] (y ∷ ys) d h = elim d [ ]
  decode_segments-all (x ∷ xs) [] d h = elim d [ ]
  decode_segments-all (x ∷ xs) (y ∷ ys) (d, ds) (h, hs) =
      rw (decode_segments, decode_segment-safe x y d h, decode_segments-all xs ys ds hs) refl
