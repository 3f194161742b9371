-- ===== src/ProxyPath/Encoded.antt =====
-- The text that a proxied request has, cut at its query and its slashes.
use Prim.Native.Char.{Char}
use Prim.Native.String.{String, [] as empty_text, ◌∷◌ as prepend, ◌++◌ as ◌++ˢ◌}
use Prim.Native.String.append.{nil, cons}
use text.Mathlib.TextEquality.{Char-path}
use ferrum_foundry.Prelude.{
  true, false, List, [], ◌∷◌, some, ◌≡◌, ◌≢◌, refl, ap, sym, ◌∙◌, arith, All, Bool-cases, inl, inr,
}
use ferrum_foundry.Registry.{is_code, after_prefix}
use ferrum_foundry.Registry.Paths.{after_prefix-append}
use ferrum_foundry.ProxyPath.{split, onto_first, before_query, contains, join_path}
use ferrum_foundry.ProxyPath.Segments.{HasNoSlash}

-- The query of a text with its mark, or nothing.
abbrev pub StartsQuery : String → Type 0
StartsQuery empty_text = Unit
StartsQuery (prepend c s) = is_code 63 c ≡ true

abbrev pub HasNoMark : String → Type 0
HasNoMark s = contains (is_code 63) s ≡ false

pub before_query-HasNoMark : (s : String) → HasNoMark (before_query s)
unfolding before_query contains
before_query-HasNoMark empty_text = refl
before_query-HasNoMark (prepend c s) = elim (Bool-cases (is_code 63 c)) [
  | inl e ↦ rw (before_query, e) refl
  | inr e ↦ rw (before_query, e) (rw (contains, e) (before_query-HasNoMark s))
]

pub after_query :
    (s : String) → (query : String) × (s ≡ (before_query s ++ˢ query)) × StartsQuery query
unfolding before_query
after_query empty_text = ("", sym (nil ""), tt)
after_query (prepend c s) =
    let (query, e, h) = after_query s in
    elim (Bool-cases (is_code 63 c)) [
      | inl m ↦ (prepend c s, rw (before_query, m) (sym (nil (prepend c s))), m)
      | inr m ↦
          (query, rw (before_query, m) (ap (prepend c) e ∙ sym (cons c (before_query s) query)), h)
    ]

before_query_of_query : (query : String) → StartsQuery query → before_query query ≡ ""
unfolding before_query
before_query_of_query empty_text h = refl
before_query_of_query (prepend c s) h = rw (before_query, h) refl

pub before_query-append :
    (s query : String) → HasNoMark s → StartsQuery query → before_query (s ++ˢ query) ≡ s
unfolding contains before_query
before_query-append empty_text query h q = rw (nil query) (before_query_of_query query q)
before_query-append (prepend c s) query h q =
    let m : is_code 63 c ≡ false = ground arith in
    let rest = before_query-append s query (ground arith) q in
    rw (cons c s query) (rw (before_query, m) (ap (prepend c) rest))

slash : (c : Char) (t : String) → is_code 47 c ≡ true → prepend c t ≡ ("/" ++ˢ t)
slash c t h =
    let p : c ≡ "/" = Char-path c "/" (ground arith) in
    rw (cons "/" "" t, nil t) (ap (λ d. prepend d t) p)

after_slash : (s t : String) → ("/" ++ˢ s) ≡ ("/" ++ˢ t) → s ≡ t
after_slash s t h =
    let a = ap (after_prefix "/") h in
    ground (arith, a, after_prefix-append "/" s, after_prefix-append "/" t)

not_slash : (t : String) → empty_text ≢ ("/" ++ˢ t)
unfolding after_prefix
not_slash t h = ground (arith, ap (after_prefix "/") h, after_prefix-append "/" t)

join_path-onto_first :
    (c : Char) (xs : List String) (t : String)
    → join_path xs ≡ ("/" ++ˢ t)
    → join_path (onto_first c xs) ≡ ("/" ++ˢ prepend c t)
unfolding join_path
join_path-onto_first c [] t h = absurd (not_slash t h)
join_path-onto_first c (x ∷ xs) t h =
    let e = after_slash (x ++ˢ join_path xs) t h in
    rw (cons c x (join_path xs)) (ap (λ u. "/" ++ˢ prepend c u) e)

pub join_path-split : (s : String) → join_path (split 47 s) ≡ ("/" ++ˢ s)
unfolding split join_path
join_path-split empty_text = refl
join_path-split (prepend c s) = elim (Bool-cases (is_code 47 c)) [
  | inl e ↦
      rw (split, e)
        (rw (nil (join_path (split 47 s)))
          (ap (λ u. "/" ++ˢ u) (join_path-split s ∙ sym (slash c s e))))
  | inr e ↦ rw (split, e) (join_path-onto_first c (split 47 s) s (join_path-split s))
]

onto_first-HasNoSlash :
    (c : Char) (xs : List String)
    → is_code 47 c ≡ false
    → All HasNoSlash xs
    → All HasNoSlash (onto_first c xs)
unfolding contains
onto_first-HasNoSlash c [] e h = (ground arith, tt)
onto_first-HasNoSlash c (x ∷ xs) e (h, hs) = (ground arith, hs)

pub split-HasNoSlash : (s : String) → All HasNoSlash (split 47 s)
unfolding split contains
split-HasNoSlash empty_text = (refl, tt)
split-HasNoSlash (prepend c s) = elim (Bool-cases (is_code 47 c)) [
  | inl e ↦ rw (split, e) (refl, split-HasNoSlash s)
  | inr e ↦ rw (split, e) (onto_first-HasNoSlash c (split 47 s) e (split-HasNoSlash s))
]

pub after_prefix-slash : (s rest : String) → after_prefix "/" s ≡ some rest → s ≡ ("/" ++ˢ rest)
unfolding after_prefix
after_prefix-slash empty_text rest h = cc
after_prefix-slash (prepend c s) rest h = elim (Bool-cases (is_code 47 c)) [
  | inl e ↦ slash c s e ∙ ap (λ u. "/" ++ˢ u) (ground (arith, e, h))
  | inr e ↦ absurd (ground (arith, e, h))
]
