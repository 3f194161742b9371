-- ===== src/ProxyPath/Decoding.antt =====
-- No text that decodes to a path of the API, however often, gets the page's shell.
use ferrum_foundry.Prelude.{
  ℕ, zero, suc, String, true, false, [], ◌∷◌, Option, none, some, ◌≡◌, refl, sym, ap, ◌∙◌, arith,
  Bool-cases, Option-cases, inl, inr,
}
use mathlib.Core.Path.{subst}
use mathlib.Core.Option.{some-injective}
use ferrum_foundry.Policy.{includes}
use ferrum_foundry.Registry.{after_prefix}
use ferrum_foundry.ProxyPath.{
  before_query, decodes_to_api, begins, request_is_api_route, serves_spa_shell, max_decode_passes,
}

module _ (decode : String → Option String) where
  -- a text decoded so many times
  abbrev pub decoded : ℕ → String → Option String
  decoded zero path = some path
  decoded (suc k) path = elim (decode path) [ none ↦ none | some d ↦ decoded k d ]

  decoded_step :
      (k : ℕ) (path d : String) → decode path ≡ some d → decoded (suc k) path ≡ decoded k d
  decoded_step k path d h = rw (decoded, h) refl

  decoded_stop : (k : ℕ) (path : String) → decode path ≡ none → decoded (suc k) path ≡ none
  decoded_stop k path h = rw (decoded, h) refl

  decoded_fixed : (k : ℕ) (path : String) → decode path ≡ some path → decoded k path ≡ some path
  decoded_fixed zero path h = refl
  decoded_fixed (suc k) path h = decoded_step k path path h ∙ decoded_fixed k path h

  same_text : (a b : String) → includes (a ∷ []) b ≡ true → a ≡ b
  unfolding includes
  same_text a b h = ground arith

  -- a path that is no API path, where the rounds after the first have the property
  later :
      (passes : ℕ) (path : String)
      → after_prefix "/api/" path ≡ none
      → decodes_to_api decode (suc passes) path ≡ false
      → ((d : String)
          → decodes_to_api decode passes d ≡ false
          → (k : ℕ) (q : String) → decoded k d ≡ some q
          → begins "/api/" q ≡ false)
      → (k : ℕ) (q : String) → decoded k path ≡ some q
      → begins "/api/" q ≡ false
  unfolding decodes_to_api
  later passes path p h ih zero q e =
      subst (λ x. begins "/api/" x ≡ false) (some-injective path q e) (rw (begins, p) refl)
  later passes path p h ih (suc k) q e = elim (Option-cases (decode path)) [
    | inl n ↦ absurd (ground (arith, sym (decoded_stop k path n) ∙ e))
    | inr (d, n) ↦ elim (Bool-cases (includes (path ∷ []) d)) [
      | inl s ↦
          let fixed = n ∙ ap some (sym (same_text path d s)) in
          let same = some-injective path q (sym (decoded_fixed (suc k) path fixed) ∙ e) in
          subst (λ x. begins "/api/" x ≡ false) same (rw (begins, p) refl)
      | inr s ↦ ih d (ground (arith, p, n, s, h)) k q (sym (decoded_step k path d n) ∙ e)
    ]
  ]

  never_api :
      (passes : ℕ) (path : String)
      → decodes_to_api decode passes path ≡ false
      → (k : ℕ) (q : String) → decoded k path ≡ some q
      → begins "/api/" q ≡ false
  unfolding decodes_to_api
  never_api zero path h k q e = absurd (ground (arith, h))
  never_api (suc passes) path h k q e = elim (Option-cases (after_prefix "/api/" path)) [
    | inr (r, p) ↦ absurd (ground (arith, p, h))
    | inl p ↦ later passes path p h (never_api passes) k q e
  ]

  -- Where the shell is served, the path is none of the API's, however often it is decoded.
  pub serves_spa_shell-decoded :
      (method : String) (route : Option String) (url : String)
      → serves_spa_shell decode method route url ≡ true
      → (k : ℕ) (q : String) → decoded k (before_query url) ≡ some q
      → begins "/api/" q ≡ false
  unfolding serves_spa_shell request_is_api_route
  serves_spa_shell-decoded method route url h k q e =
      never_api max_decode_passes (before_query url) (ground (arith, h)) k q e
