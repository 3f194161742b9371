-- ===== src/ProxyPath/Denied.antt =====
-- A namespace-scoped principal reaches known classes of routes only.
use mathlib.Core.Path.{subst}
use Prim.Native.String.{String}
use ferrum_foundry.Prelude.{
  Bool, true, false, List, [], ◌∷◌, Option, none, some, any, all, ◌≡◌, refl, sym, arith, Bool-cases,
  inl, inr,
}
use ferrum_foundry.Prelude.Maps.{str_dec}
use ferrum_foundry.Policy.{includes}
use ferrum_foundry.ProxyPath.{proxy_target_path}
use ferrum_foundry.ProxyPath.Routes.{
  Piece, one_of, any_name, Route, matches_piece, matches_pieces, texts_of, matches_path,
  namespace_scoped_routes, namespace_safe_global_routes, classified_method, allows,
  proxy_path_is_allowed_for_namespace, known_classes, first_text, IsKnown,
}

-- a route whose first text is one of the classes
abbrev begins_known : List Piece → Bool
begins_known [] = false
begins_known (any_name ∷ ps) = false
begins_known (one_of texts ∷ ps) = all (includes known_classes) texts

included_known :
    (texts : List String) (s : String)
    → all (includes known_classes) texts ≡ true
    → includes texts s ≡ true
    → includes known_classes s ≡ true
unfolding includes
included_known [] s h e = absurd (ground (arith, e))
included_known (t ∷ ts) s h e = elim (str_dec t s) [
  | yes p ↦ subst (λ x. includes known_classes x ≡ true) p (ground (arith, h))
  | no p ↦ included_known ts s (ground (arith, h)) (ground (arith, e, p))
]

abbrev FirstKnown : Option (List String) → Type 0
FirstKnown o = (name : String) × (first_text o ≡ some name) × (includes known_classes name ≡ true)

pieces_known :
    (slash : Bool) (ps : List Piece) (ss : List String)
    → begins_known ps ≡ true
    → matches_pieces slash ps ss ≡ true
    → FirstKnown (some ss)
unfolding matches_pieces matches_piece
pieces_known slash [] ss h e = absurd (ground (arith, h))
pieces_known slash (any_name ∷ ps) ss h e = absurd (ground (arith, h))
pieces_known slash (one_of texts ∷ ps) [] h e = absurd (ground (arith, e))
pieces_known slash (one_of texts ∷ ps) (s ∷ ss) h e =
    (s, refl, included_known texts s h (ground (arith, e)))

matches_path-IsKnown :
    (r : Route) (path : String)
    → begins_known r.pieces ≡ true
    → matches_path r path ≡ true
    → IsKnown path
unfolding matches_path
matches_path-IsKnown r path h e = go (texts_of path) refl
  where
    go : (o : Option (List String)) → texts_of path ≡ o → IsKnown path
    go none q = absurd (ground (arith, e, q))
    go (some ss) q =
        subst FirstKnown (sym q)
          (pieces_known r.may_end_in_slash r.pieces ss h (ground (arith, e, q)))

any-IsKnown :
    (method path : String) (rs : List Route)
    → all (λ r. begins_known r.pieces) rs ≡ true
    → any (allows method path) rs ≡ true
    → IsKnown path
unfolding allows
any-IsKnown method path [] h e = absurd (ground (arith, e))
any-IsKnown method path (r ∷ rs) h e = elim (Bool-cases (matches_path r path)) [
  | inl m ↦ matches_path-IsKnown r path (ground (arith, h)) m
  | inr m ↦ any-IsKnown method path rs (ground (arith, h)) (ground (arith, e, m))
]

scoped_begin_known : all (λ r. begins_known r.pieces) namespace_scoped_routes ≡ true
unfolding namespace_scoped_routes includes str_dec
scoped_begin_known = refl

global_begin_known : all (λ r. begins_known r.pieces) namespace_safe_global_routes ≡ true
unfolding namespace_safe_global_routes includes str_dec
global_begin_known = refl

module _ (decode : String → Option String) (serialize : String → String) where
  -- A request of a namespace-scoped principal that is allowed asks for a path that was not refused
  -- and begins with one of the known classes: every other class of routes is denied.
  pub proxy_path_is_allowed-IsKnown :
      (method raw_url : String)
      → proxy_path_is_allowed_for_namespace decode serialize method raw_url ≡ true
      → (path : String) × (proxy_target_path decode serialize raw_url ≡ some path) × IsKnown path
  unfolding proxy_path_is_allowed_for_namespace
  proxy_path_is_allowed-IsKnown method raw_url h =
      go (proxy_target_path decode serialize raw_url) refl
    where
      go :
          (o : Option String)
          → proxy_target_path decode serialize raw_url ≡ o
          → (path : String) × (proxy_target_path decode serialize raw_url ≡ some path)
            × IsKnown path
      go none q = absurd (ground (arith, h, q))
      go (some path) q =
          elim (Bool-cases (any (allows (classified_method method) path) namespace_scoped_routes)) [
            | inl s ↦ (
              path,
              q,
              any-IsKnown (classified_method method) path namespace_scoped_routes scoped_begin_known
                  s,
            )
            | inr s ↦ (
              path,
              q,
              any-IsKnown (classified_method method) path namespace_safe_global_routes
                  global_begin_known (ground (arith, h, q, s)),
            )
          ]
