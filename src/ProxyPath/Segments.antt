-- ===== src/ProxyPath/Segments.antt =====
-- A path of texts without a slash falls into these texts again.
use Prim.Native.Char.{Char}
use Prim.Native.String.{String, [] as empty_text, ◌∷◌ as prepend, ◌++◌ as ◌++ˢ◌}
use Prim.Native.String.append.{nil, cons}
use ferrum_foundry.Prelude.{false, List, [], ◌∷◌, ◌≡◌, refl, ap, ◌∙◌, arith, All}
use ferrum_foundry.Registry.{is_code}
use ferrum_foundry.ProxyPath.{split, contains, is_unsafe_character, is_unsafe_segment, join_path}

abbrev pub IsSafe : String → Type 0
IsSafe s = is_unsafe_segment s ≡ false

abbrev pub HasNoSlash : String → Type 0
HasNoSlash s = contains (is_code 47) s ≡ false

split_character :
    (c : Char) (t x : String) (ys : List String)
    → is_code 47 c ≡ false
    → split 47 t ≡ x ∷ ys
    → split 47 (prepend c t) ≡ prepend c x ∷ ys
unfolding split
split_character c t x ys h e = rw (split, e, h) refl

pub split_segment :
    (x t : String) (ys : List String)
    → HasNoSlash x
    → split 47 t ≡ "" ∷ ys
    → split 47 (x ++ˢ t) ≡ x ∷ ys
unfolding contains
split_segment empty_text t ys h e = rw (nil t) e
split_segment (prepend c x) t ys h e = rw (cons c x t) (
    split_character c (x ++ˢ t) x ys (ground (arith, h))
      (split_segment x t ys (ground (arith, h)) e))

split_slash : (t : String) → split 47 ("/" ++ˢ t) ≡ "" ∷ split 47 t
unfolding split
split_slash t = rw (cons "/" "" t, nil t) refl

no_slash : (x : String) → contains is_unsafe_character x ≡ false → HasNoSlash x
unfolding contains
no_slash empty_text h = refl
no_slash (prepend c x) h = ground (arith, no_slash x)

pub safe-HasNoSlash : (x : String) → IsSafe x → HasNoSlash x
unfolding is_unsafe_segment
safe-HasNoSlash x h = no_slash x (ground (arith, h))

pub split-join_path : (xs : List String) → All HasNoSlash xs → split 47 (join_path xs) ≡ "" ∷ xs
unfolding split join_path
split-join_path [] h = refl
split-join_path (x ∷ xs) (h, hs) =
    split_slash (x ++ˢ join_path xs)
    ∙ ap (λ l. "" ∷ l) (split_segment x (join_path xs) xs h (split-join_path xs hs))
