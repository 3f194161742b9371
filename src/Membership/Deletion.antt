-- ===== src/Membership/Deletion.antt =====
-- The delete of a plugin sends one DELETE at most, after the checks that make it safe.
use mathlib.Core.List.{append-nil}
use ferrum_foundry.Prelude.{
  String, Bool, true, false, not, List, [], ◌∷◌, ◌++◌, Option, none, some, if◌then◌else◌, ◌≡◌, refl,
  ◌∙◌, ◌⊎◌, inl, inr, All,
}
use ferrum_foundry.Policy.Attachment.{unique_after}
use ferrum_foundry.Membership.{
  ProxyRead, PluginRead, delete, GatewayError, Outcome, answered, failed, gateway, Write,
  delete_plugin, Gateway, State, ok, err, Plan, pure, throw, continue, to_result, ◌>>=◌, ◌>>◌,
  attempt, read, send, Failure,
}
use ferrum_foundry.Membership.Checks.{unexpected, is_none}
use ferrum_foundry.Membership.Steps.{
  refuse_when, assert_editor_baseline, assert_membership_unchanged, is_not_found, is_committed,
  is_precondition_failed,
}
use ferrum_foundry.Membership.Deletes.{
  changed_deletion, explain_failed_delete, delete_plugin_with_membership, request_delete,
}
use ferrum_foundry.Membership.Sends.{
  Sends, Sends-pure, Sends-throw, Sends-read, Sends-bind, Sends-attempt, Sends-if, Sends-then,
  Sends-result, Sends-option,
}
use ferrum_foundry.Membership.Compensation.{
  assert_editor_baseline-Sends, assert_membership_unchanged-Sends, get_plugin_if_present-Sends,
  recovery_state-Sends,
}

abbrev Nothing : Write → Type 0
Nothing _ = ⊥

-- Whether a read still holds what the editor opened.
abbrev pub holds : Option (PluginRead → Bool) → PluginRead → Bool
holds none p = true
holds (some matches) p = matches p

is_none_eq_nil : {A : Type 0} (xs : List A) → is_none xs ≡ true → xs ≡ []
unfolding is_none
is_none_eq_nil [] h = refl
is_none_eq_nil (x ∷ xs) h = cc

Outcome-cases :
    {A : Type 0} (o : Outcome A)
    → ((a : A) × (o ≡ answered a)) ⊎ ((e : GatewayError) × (o ≡ failed e))
Outcome-cases (answered a) = inl (a, refl)
Outcome-cases (failed e) = inr (e, refl)

module _ {W : Type 0} (g : Gateway W) where
  explain-Nothing :
      (id : String) (p : PluginRead) (guard : Option (PluginRead → Bool)) (observed : List String)
      (e : Failure)
      → Sends Nothing (explain_failed_delete g id p guard observed e)
  unfolding explain_failed_delete changed_deletion
  explain-Nothing id p guard observed e =
      let N = Nothing in
      Sends-if N (is_not_found e) (Sends-pure N _) (
        Sends-if N (is_committed e) (Sends-throw N _ _) (
          Sends-if N (is_precondition_failed e)
            (Sends-bind N (Sends-attempt N (get_plugin_if_present-Sends N g _)) (λ l.
              Sends-then N
                (Sends-result N l
                  (λ o.
                    Sends-option N o (Sends-pure N _)
                      (λ q. assert_editor_baseline-Sends N q guard _))
                  (λ f. Sends-pure N _))
                (Sends-bind N (Sends-attempt N (Sends-read N _)) (λ r.
                  Sends-then N
                    (Sends-result N r (λ ps. assert_membership_unchanged-Sends N _ _ _ _)
                      (λ f. Sends-pure N _))
                    (Sends-bind N (recovery_state-Sends N g _) (λ st. Sends-throw N _ _))))))
            (Sends-bind N (recovery_state-Sends N g _) (λ st. Sends-throw N _ _))))

  only_read : {A : Type 0} (m : Plan W A) (s : State W) → Sends Nothing m → (m s).1.sent ≡ s.sent
  only_read m s h = nothing_sent (h.grows s)
    where
      nothing_sent :
          (ws : List Write) × ((m s).1.sent ≡ s.sent ++ ws) × All Nothing ws → (m s).1.sent ≡ s.sent
      nothing_sent ([], e, _) = e ∙ append-nil s.sent
      nothing_sent (w ∷ ws, e, (h, _)) = absurd h

  -- The delete that is allowed, with the reads that allow it.
  abbrev pub Safe :
      String → Option (PluginRead → Bool) → List String → State W → List Write → Type 0
  Safe id guard observed s sent =
      (plugin : PluginRead) × (ps : List ProxyRead) × ((g.get_plugin id s.world).0
        ≡ answered plugin)
      × ((g.list_proxies (g.get_plugin id s.world).1).0 ≡ answered ps)
      × (g.can_condition plugin ≡ true)
      × (holds guard plugin ≡ true)
      × (unexpected ps id observed ≡ [])
      × (sent ≡ s.sent ++ delete_plugin id plugin observed ∷ [])

  -- A check lets the rest run, and then what it asks for holds; or nothing is sent.
  abbrev Lets : Type 0 → Plan W (Unit {0}) → Plan W (Unit {0}) → State W → Type 0
  Lets P m k s = ((m >> k) s).1.sent ≡ s.sent ⊎ P × ((m >> k) s ≡ k s)

  refuse_when-Lets :
      (b : Bool) (e : Failure) (k : Plan W (Unit {0})) (s : State W)
      → Lets (b ≡ true) (refuse_when (not b) e) k s
  unfolding refuse_when ◌>>◌ pure throw
  refuse_when-Lets false e k s = inl refl
  refuse_when-Lets true e k s = inr (refl, refl)

  choice-Lets :
      (b : Bool) (e : Failure) (k : Plan W (Unit {0})) (s : State W)
      → Lets (b ≡ true) (if b then pure tt else throw e) k s
  unfolding ◌>>◌ pure throw
  choice-Lets false e k s = inl refl
  choice-Lets true e k s = inr (refl, refl)

  assert_editor_baseline-Lets :
      (p : PluginRead) (guard : Option (PluginRead → Bool)) (k : Plan W (Unit {0})) (s : State W)
      → Lets (holds guard p ≡ true) (assert_editor_baseline p guard delete) k s
  unfolding assert_editor_baseline ◌>>◌ pure throw
  assert_editor_baseline-Lets p none k s = inr (refl, refl)
  assert_editor_baseline-Lets p (some matches) k s = choice-Lets (matches p) _ k s

  assert_membership_unchanged-Lets :
      (ps : List ProxyRead) (id : String) (observed : List String) (k : Plan W (Unit {0}))
      (s : State W)
      → Lets
          (is_none (unexpected ps id observed) ≡ true)
          (assert_membership_unchanged ps id observed delete)
          k
          s
  unfolding assert_membership_unchanged
  assert_membership_unchanged-Lets ps id observed k s = choice-Lets _ _ k s

  then_when :
      {P : Type 0} (m k : Plan W (Unit {0})) (s : State W) (B : List Write → Type 0)
      → Lets P m k s
      → (P → ((k s).1.sent ≡ s.sent) ⊎ B (k s).1.sent)
      → (((m >> k) s).1.sent ≡ s.sent) ⊎ B ((m >> k) s).1.sent
  then_when m k s B (inl e) f = inl e
  then_when m k s B (inr (p, q)) f = rw q (f p)

  read_when :
      {A : Type 0} (f : W → Outcome A × W) (k : A → Plan W (Unit {0})) (s : State W)
      (B : List Write → Type 0)
      → ((a : A)
          → (f s.world).0 ≡ answered a
          → let after = (k a (record s { world = (f s.world).1 })).1.sent in
            (after ≡ s.sent) ⊎ B after)
      → (((read f >>= k) s).1.sent ≡ s.sent) ⊎ B ((read f >>= k) s).1.sent
  unfolding ◌>>=◌ read
  read_when f k s B h = elim (Outcome-cases (f s.world).0) [
    | inr (e, q) ↦ rw q (inl refl)
    | inl (a, q) ↦ rw q (h a q)
  ]

  answer_sent :
      (id : String) (p : PluginRead) (guard : Option (PluginRead → Bool)) (observed : List String)
      (o : Outcome (Unit {0})) (s : State W)
      → (continue
          (λ r. elim r as (λ _. Plan W (Unit {0})) [
            | ok _ ↦ pure tt
            | err e ↦ explain_failed_delete g id p guard observed e
          ])
          (ok (to_result o), s)).1.sent
        ≡ s.sent
  unfolding pure
  answer_sent id p guard observed (answered _) s = refl
  answer_sent id p guard observed (failed e) s =
      only_read _ s (explain-Nothing id p guard observed (gateway e))

  -- the request itself, whose failure is only explained
  request_delete-sent :
      (id : String) (p : PluginRead) (guard : Option (PluginRead → Bool)) (observed : List String)
      (s : State W)
      → (request_delete g id p guard observed s).1.sent ≡ s.sent ++ delete_plugin id p observed ∷ []
  unfolding request_delete ◌>>=◌ attempt send
  request_delete-sent id p guard observed s =
      answer_sent id p guard observed (g.delete_plugin id p observed s.world).0 _

  -- A delete of a plugin sends nothing, or one DELETE; and that only where the plugin was read with
  -- a validator to be conditional on, still holds what the page showed, and is referenced by no
  -- proxy that the page did not show, whose ids the DELETE carries as the expected ones.
  pub delete_plugin-Safe :
      (id : String) (guard : Option (PluginRead → Bool)) (observed : List String) (s : State W)
      → let after = (delete_plugin_with_membership g id guard observed s).1.sent in
        (after ≡ s.sent) ⊎ Safe id guard (unique_after [] observed) s after
  unfolding delete_plugin_with_membership
  delete_plugin-Safe id guard observed s =
      let B = Safe id guard (unique_after [] observed) s in
      read_when _ _ s B (λ p q. then_when _ _ _ B (refuse_when-Lets (g.can_condition p) _ _ _) (λ c.
        then_when _ _ _ B (assert_editor_baseline-Lets p guard _ _) (λ h. read_when _ _ _ B (λ ps r.
          then_when _ _ _ B (assert_membership_unchanged-Lets ps id _ _ _) (λ u.
            inr (p, ps, q, r, c, h, is_none_eq_nil _ u, request_delete-sent id p guard _ _))))))
