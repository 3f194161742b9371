-- ===== src/Membership/Ordering.antt =====
-- A change of membership attaches every proxy before it detaches one.
use mathlib.Core.List.{append_assoc, append-nil}
use mathlib.Core.Path.{subst}
use ferrum_foundry.Prelude.{
  String, Bool, true, false, not, List, [], ◌∷◌, ◌++◌, Option, some, ◌≡◌, refl, sym, ap, ◌∙◌, arith,
  Bool-cases, inl, inr, All, All-append, keep, any,
}
use ferrum_foundry.Prelude.Anys.{any-append}
use ferrum_foundry.Prelude.Json.{sort, insert}
use ferrum_foundry.Policy.{includes}
use ferrum_foundry.Membership.{
  ProxyRead, Outcome, answered, failed, Write, put_proxy, Gateway, State, Result, ok, err, Plan,
  continue, ◌>>=◌, attempt, read, pure, Failure, to_result,
}
use ferrum_foundry.Membership.Checks.{
  desired_associations, lists_plugin, listed, is_id, puts_first, changed_proxies,
  association_needs_change,
}
use ferrum_foundry.Membership.Steps.{
  AppliedProxyChange, apply_association, apply_all, apply_association_plan,
}
use ferrum_foundry.Membership.Sends.{
  Sends, Sends-pure, Sends-send, Sends-bind, Sends-then, Sends-attempt, Sends-result, Grows,
  Grows-refl,
}
use ferrum_foundry.Membership.Compensation.{refuse_when-Sends, unless_changed-Sends}

-- A write of a proxy that lists the plugin, or does not.
abbrev pub Lists : String → Bool → Write → Type 0
Lists plugin_id b (put_proxy _ payload _) = lists_plugin payload.plugins plugin_id ≡ b
Lists plugin_id b _ = ⊥

any-kept : (p : String → Bool) (xs : List String) → any p (keep (λ x. not (p x)) xs) ≡ false
any-kept p [] = refl
any-kept p (x ∷ xs) = ground (arith, any-kept p xs)

is_id_self : (id : String) → is_id id id ≡ true
unfolding is_id includes
is_id_self id = ground arith

lists_plugin-desired :
    (plugins : Option (List String)) (id : String) (b : Bool)
    → lists_plugin (desired_associations plugins id b) id ≡ b
unfolding lists_plugin desired_associations listed
lists_plugin-desired plugins id b =
    let others = keep (λ x. not (is_id id x)) (listed plugins) in
    ground (
      arith,
      any-append (is_id id) others (id ∷ []),
      any-kept (is_id id) (listed plugins),
      is_id_self id,
    )

module _ {A : Type 0} (f : A → Bool) where
  insert_front : (x : A) (ys : List A) → f x ≡ true → insert (puts_first f) x ys ≡ x ∷ ys
  unfolding insert puts_first
  insert_front x [] h = refl
  insert_front x (y ∷ ys) h = ground (arith, h)

  insert_rest :
      (x : A) (ys : List A)
      → f x ≡ false
      → All (λ y. f y ≡ false) ys
      → insert (puts_first f) x ys ≡ x ∷ ys
  unfolding insert puts_first
  insert_rest x [] h k = refl
  insert_rest x (y ∷ ys) h (k, ks) = ground (arith, h, k)

  insert_after :
      (x : A) (us vs : List A)
      → f x ≡ false
      → All (λ y. f y ≡ true) us
      → All (λ y. f y ≡ false) vs
      → insert (puts_first f) x (us ++ vs) ≡ us ++ x ∷ vs
  unfolding insert puts_first
  insert_after x [] vs h k l = insert_rest x vs h l
  insert_after x (a ∷ us) vs h (k, ks) l = ground (arith, h, k, insert_after x us vs h ks l)

  all_firsts : (xs : List A) → All (λ y. f y ≡ true) (keep f xs)
  all_firsts [] = tt
  all_firsts (x ∷ xs) = elim (Bool-cases (f x)) [
    | inl q ↦ rw q (q, all_firsts xs)
    | inr q ↦ rw q (all_firsts xs)
  ]

  all_others : (xs : List A) → All (λ y. f y ≡ false) (keep (λ y. not (f y)) xs)
  all_others [] = tt
  all_others (x ∷ xs) = elim (Bool-cases (f x)) [
    | inl q ↦ rw q (all_others xs)
    | inr q ↦ rw q (q, all_others xs)
  ]

  sort-puts_first : (xs : List A) → sort (puts_first f) xs ≡ keep f xs ++ keep (λ y. not (f y)) xs
  unfolding sort
  sort-puts_first [] = refl
  sort-puts_first (x ∷ xs) = elim (Bool-cases (f x)) [
    | inl q ↦ rw (q, sort-puts_first xs) (insert_front x _ q)
    | inr q ↦ rw (q, sort-puts_first xs) (insert_after x _ _ q (all_firsts xs) (all_others xs))
  ]

module _ {W : Type 0} (plugin_id : String) where
  -- the log grew by attaching writes and then by detaching ones
  abbrev pub Ordered : State W → State W → Type 0
  Ordered s t =
      (ws : List Write) × (vs : List Write) × (t.sent ≡ s.sent ++ (ws ++ vs))
      × All (Lists plugin_id true) ws
      × All (Lists plugin_id false) vs

module _ {W : Type 0} (g : Gateway W) (plugin_id : String) (desired : List String)
    (answers : (id : String) (w : W) (p : ProxyRead)
      → (g.get_proxy id w).0 ≡ answered p
      → p.id ≡ id) where
  Sends-bind_read :
      {A B : Type 0} (P : Write → Type 0) (f : W → Outcome A × W) (k : A → Plan W B)
      → ((a : A) (w : W) → (f w).0 ≡ answered a → Sends P (k a))
      → Sends P (read f >>= k)
  unfolding ◌>>=◌ read
  Sends-bind_read {A = A} P f k h = record { grows = λ s. go s (f s.world).0 refl }
    where
      go :
          (s : State W) (o : Outcome A)
          → (f s.world).0 ≡ o
          → Grows P s (continue k (to_result o, record s { world = (f s.world).1 })).1
      go s (answered a) e = (h a s.world e).grows (record s { world = (f s.world).1 })
      go s (failed x) e = Grows-refl P s

  apply_association-Lists :
      (b : Bool) (p : ProxyRead)
      → includes desired p.id ≡ b
      → Sends (Lists plugin_id b) (apply_association g plugin_id desired p)
  unfolding apply_association
  apply_association-Lists b p h =
      let P = Lists plugin_id b in
      Sends-bind_read P (g.get_proxy p.id) _ (λ current w e.
        let same = ap (includes desired) (answers p.id w current e) ∙ h in
        Sends-then P (refuse_when-Sends P _ _) (
          Sends-bind P
            (unless_changed-Sends P _ (
              Sends-send P _ _ (
                lists_plugin-desired current.plugins plugin_id (includes desired current.id)
                ∙ same)))
            (λ after. Sends-pure P _)))

  grown_first :
      (s t u : State W)
      → Grows (Lists plugin_id true) s t
      → Ordered plugin_id t u
      → Ordered plugin_id s u
  grown_first s t u (ws, e, h) (ws', vs, e', h', k) = (
    ws ++ ws',
    vs,
    cc (e, e', append_assoc s.sent ws (ws' ++ vs), append_assoc ws ws' vs),
    All-append (Lists plugin_id true) ws ws' h h',
    k,
  )

  all_last : (s t : State W) → Grows (Lists plugin_id false) s t → Ordered plugin_id s t
  all_last s t (vs, e, h) = ([], vs, e, tt, h)

  all_first : (s t : State W) → Grows (Lists plugin_id true) s t → Ordered plugin_id s t
  all_first s t (ws, e, h) = (ws, [], cc (e, append-nil ws), h, tt)

  apply_all-Lists :
      (b : Bool) (ps : List ProxyRead) (applied : List AppliedProxyChange)
      → All (λ p. includes desired p.id ≡ b) ps
      → Sends (Lists plugin_id b) (apply_all g plugin_id desired ps applied)
  unfolding apply_all
  apply_all-Lists b [] applied h = Sends-pure (Lists plugin_id b) _
  apply_all-Lists b (p ∷ ps) applied (h, hs) =
      let P = Lists plugin_id b in
      Sends-bind P (Sends-attempt P (apply_association-Lists b p h))
        (λ r. Sends-result P r (λ c. apply_all-Lists b ps _ hs) (λ e. Sends-pure P _))

  abbrev Rest : Type 0
  Rest = List AppliedProxyChange × Option Failure

  -- one round that attaches, and the rounds after it
  next-Ordered :
      (s : State W) (r : Result AppliedProxyChange × State W) (f : AppliedProxyChange → Plan W Rest)
      (applied : List AppliedProxyChange)
      → Grows (Lists plugin_id true) s r.1
      → ((c : AppliedProxyChange) (t : State W) → Ordered plugin_id t (f c t).1)
      → Ordered plugin_id s
          (continue
            (λ x. elim x as (λ _. Plan W Rest) [ ok c ↦ f c | err e ↦ pure (applied, some e) ])
            (ok r.0, r.1)).1
  unfolding pure
  next-Ordered s (ok c, t) f applied h k = grown_first s t (f c t).1 h (k c t)
  next-Ordered s (err e, t) f applied h k = all_first s t h

  apply_all-Ordered :
      (ps qs : List ProxyRead) (applied : List AppliedProxyChange) (s : State W)
      → All (λ p. includes desired p.id ≡ true) ps
      → All (λ p. includes desired p.id ≡ false) qs
      → Ordered plugin_id s (apply_all g plugin_id desired (ps ++ qs) applied s).1
  unfolding apply_all ◌>>=◌ attempt
  apply_all-Ordered [] qs applied s h k =
      all_last s (apply_all g plugin_id desired qs applied s).1
        ((apply_all-Lists false qs applied k).grows s)
  apply_all-Ordered (p ∷ ps) qs applied s (h, hs) k =
      next-Ordered s (apply_association g plugin_id desired p s)
        (λ c. apply_all g plugin_id desired (ps ++ qs) (applied ++ c ∷ [])) applied
        ((apply_association-Lists true p h).grows s)
        (λ c t. apply_all-Ordered ps qs (applied ++ c ∷ []) t hs k)

  -- Of a gateway that answers a proxy under its own id: a change of membership first writes proxies
  -- that then list the plugin, and after them proxies that do not. No source is detached before
  -- every destination was attached, also where the change stops halfway.
  pub apply_association_plan-Ordered :
      (ps : List ProxyRead) (s : State W)
      → Ordered plugin_id s (apply_association_plan g ps plugin_id desired s).1
  unfolding apply_association_plan changed_proxies
  apply_association_plan-Ordered ps s =
      let first = λ (p : ProxyRead). includes desired p.id in
      let changed = keep (λ p. association_needs_change p plugin_id (includes desired p.id)) ps in
      subst (λ l. Ordered plugin_id s (apply_all g plugin_id desired l [] s).1)
        (sym (sort-puts_first first changed))
        (apply_all-Ordered (keep first changed) (keep (λ p. not (first p)) changed) [] s
          (all_firsts first changed) (all_others first changed))
