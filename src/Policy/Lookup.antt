-- ===== src/Policy/Lookup.antt =====
-- What the attachment index holds, and what the loop over the associations finds in it.
use ferrum_foundry.Prelude.{
  String, Bool, false, not, ◌&&◌, ◌||◌, List, [], ◌∷◌, Option, none, some, if◌then◌else◌, any, ◌≡◌,
  refl, arith, Option-cases, inl, inr, ◌∙◌, ap,
}
use ferrum_foundry.Prelude.Maps.{get, str_dec, get-put_self, get-put_ne}
use ferrum_foundry.Prelude.Json.{insert, sort}
use ferrum_foundry.Policy.{PluginConfig, Proxy, includes}
use ferrum_foundry.Policy.Attachment.{
  PluginAttachmentIndex, is_global, index_plugin, index_all, build_plugin_attachment_index,
  is_eligible, unique_after, associated, scoped_of,
}
use ferrum_foundry.Prelude.Anys.{any-append, any-cong}

-- A test on a list is decided alike before and after sorting.
any-insert :
    {A : Type 0} (le : A → A → Bool) (p : A → Bool) (x : A) (xs : List A)
    → any p (insert le x xs) ≡ (p x || any p xs)
unfolding insert
any-insert le p x [] = refl
any-insert le p x (y ∷ ys) = ground (arith, any-insert le p x ys)

pub any-sort :
    {A : Type 0} (le : A → A → Bool) (p : A → Bool) (xs : List A) → any p (sort le xs) ≡ any p xs
unfolding sort
any-sort le p [] = refl
any-sort le p (x ∷ xs) = ground (arith, any-insert le p x (sort le xs), any-sort le p xs)

includes_unique :
    (seen xs : List String) (x : String)
    → includes (unique_after seen xs) x ≡ (includes xs x && not (includes seen x))
unfolding unique_after includes
includes_unique seen [] x = refl
includes_unique seen (y ∷ xs) x = ground (arith, includes_unique (y ∷ seen) xs x, str_dec y x)

-- A configuration that an association can find.
abbrev pub is_scoped : PluginConfig → Bool
is_scoped c = c.enabled && not (is_global c.scope)

abbrev find_config : String → List PluginConfig → Option PluginConfig
find_config k [] = none
find_config k (c ∷ cs) = if is_scoped c && includes (c.id ∷ []) k then some c else find_config k cs

abbrev pub config_ids : List PluginConfig → List String
config_ids [] = []
config_ids (c ∷ cs) = c.id ∷ config_ids cs

-- No two configurations have the same id.
abbrev pub DistinctIds : List PluginConfig → Type 0
DistinctIds [] = Unit
DistinctIds (c ∷ cs) = (includes (config_ids cs) c.id ≡ false) × DistinctIds cs

find_config-none :
    (k : String) (cs : List PluginConfig)
    → includes (config_ids cs) k ≡ false
    → find_config k cs ≡ none
unfolding includes
find_config-none k [] h = refl
find_config-none k (c ∷ cs) h = ground (arith, find_config-none k cs, str_dec c.id k)

abbrev or_get : Option PluginConfig → Option PluginConfig → Option PluginConfig
or_get none d = d
or_get (some c) d = some c

get-index_all :
    (k : String) (cs : List PluginConfig) (index : PluginAttachmentIndex)
    → DistinctIds cs
    → get k (index_all cs index).by_id ≡ or_get (find_config k cs) (get k index.by_id)
unfolding index_all index_plugin includes
get-index_all k [] index d = refl
get-index_all k (c ∷ cs) index (h, d) = ground (
  arith,
  get-index_all k cs (index_plugin c index) d,
  find_config-none k cs,
  get-put_self c.id c index.by_id,
  get-put_ne c.id k c index.by_id,
  str_dec c.id k,
)

pub globals-index_all :
    (q : PluginConfig → Bool) (cs : List PluginConfig) (index : PluginAttachmentIndex)
    → any q (index_all cs index).globals
      ≡ (any q index.globals || any (λ c. (c.enabled && is_global c.scope) && q c) cs)
unfolding index_all index_plugin
globals-index_all q [] index = ground arith
globals-index_all q (c ∷ cs) index =
    ground
      (arith, globals-index_all q cs (index_plugin c index), any-append q index.globals (c ∷ []))

-- The ids that the proxy's own list names.
abbrev pub named : Proxy → List String
named p = elim p.plugins [ none ↦ [] | some xs ↦ xs ]

module _ (p : Proxy) (q : PluginConfig → Bool) where
  abbrev chosen : Option PluginConfig → Bool
  chosen none = false
  chosen (some c) = is_eligible c p && q c

  any-scoped_of :
      (m : List (String × PluginConfig)) (ids : List String)
      → any q (scoped_of p m ids) ≡ any (λ k. chosen (get k m)) ids
  unfolding scoped_of
  any-scoped_of m [] = refl
  any-scoped_of m (k ∷ ids) = elim (Option-cases (get k m)) [
    | inl e ↦ ground (arith, any-scoped_of m ids)
    | inr (c, e) ↦ ground (arith, any-scoped_of m ids)
  ]

  any-chosen_cons :
      (c : PluginConfig) (cs : List PluginConfig) (ids : List String)
      → find_config c.id cs ≡ none
      → any (λ k. chosen (find_config k (c ∷ cs))) ids ≡ (
          (is_scoped c && (includes ids c.id && (is_eligible c p && q c)))
          || any (λ k. chosen (find_config k cs)) ids)
  unfolding includes
  any-chosen_cons c cs [] h = ground arith
  any-chosen_cons c cs (k ∷ ids) h =
      ground (arith, any-chosen_cons c cs ids h, str_dec c.id k, str_dec k c.id)

  any-chosen :
      (cs : List PluginConfig) (ids : List String)
      → DistinctIds cs
      → any (λ k. chosen (find_config k cs)) ids
        ≡ any (λ c. is_scoped c && (includes ids c.id && (is_eligible c p && q c))) cs
  any-chosen [] [] d = refl
  any-chosen [] (k ∷ ids) d = any-chosen [] ids d
  any-chosen (c ∷ cs) ids (h, d) =
      ground (arith, any-chosen_cons c cs ids (find_config-none c.id cs h), any-chosen cs ids d)

  includes-associated : (x : String) → includes (associated p) x ≡ includes (named p) x
  unfolding associated includes
  includes-associated x = elim (Option-cases p.plugins) [
    | inl e ↦ ground arith
    | inr (xs, e) ↦ ground (arith, includes_unique [] xs x)
  ]

  or_get-none : (o : Option PluginConfig) → or_get o none ≡ o
  or_get-none none = refl
  or_get-none (some c) = refl

  get-build :
      (cs : List PluginConfig) (k : String)
      → DistinctIds cs
      → get k (build_plugin_attachment_index cs).by_id ≡ find_config k cs
  unfolding build_plugin_attachment_index get
  get-build cs k d =
      get-index_all k cs (record { globals = []; by_id = [] }) d ∙ or_get-none (find_config k cs)

  pub any-attached :
      (cs : List PluginConfig)
      → DistinctIds cs
      → any q (scoped_of p (build_plugin_attachment_index cs).by_id (associated p))
        ≡ any (λ c. is_scoped c && (includes (named p) c.id && (is_eligible c p && q c))) cs
  any-attached cs d =
      let m = (build_plugin_attachment_index cs).by_id in
      any-scoped_of m (associated p)
      ∙ any-cong (λ k. chosen (get k m)) (λ k. chosen (find_config k cs)) (associated p)
          (λ k. ap chosen (get-build cs k d))
      ∙ any-chosen cs (associated p) d
      ∙ any-cong (λ c. is_scoped c && (includes (associated p) c.id && (is_eligible c p && q c)))
          (λ c. is_scoped c && (includes (named p) c.id && (is_eligible c p && q c))) cs
          (λ c. ground (arith, includes-associated c.id))
