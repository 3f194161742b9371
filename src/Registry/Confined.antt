-- ===== src/Registry/Confined.antt =====
-- What a request to the registry may name in the body that is forwarded.
use Prim.Native.Char.{Char}
use mathlib.Core.Path.{subst}
use ferrum_foundry.Prelude.{
  String, Bool, true, Option, none, some, ◌≡◌, refl, sym, arith, Option-cases, inl, inr,
}
use ferrum_foundry.Prelude.Json.{Json, null, boolean, number, string, array, object, lookup}
use ferrum_foundry.Prelude.Maps.{str_dec}
use ferrum_foundry.Registry.{
  Principal, Refusal, is_namespace_name, registry_name_allowed, BodyCheck, refused, forwarded,
  rewritten, check_description, check_name, check_members, authorize_registry_body,
}

-- A name that a principal may use.
abbrev pub IsOpen : Principal → String → Type 0
IsOpen p name = (is_namespace_name name ≡ true) × (registry_name_allowed p name ≡ true)

-- The name of a body that is forwarded.
abbrev pub IsOpenName : Principal → Option Json → Type 0
IsOpenName p none = Unit
IsOpenName p (some (string name)) = IsOpen p name
IsOpenName p (some _) = ⊥

check_name-IsOpenName :
    (method : String) (p : Principal) (name : Option Json)
    → check_name method p name ≡ none
    → IsOpenName p name
unfolding check_name
check_name-IsOpenName method p none h = tt
check_name-IsOpenName method p (some (string name)) h = ground arith
check_name-IsOpenName method p (some null) h = ground arith
check_name-IsOpenName method p (some (boolean b)) h = ground arith
check_name-IsOpenName method p (some (number n)) h = ground arith
check_name-IsOpenName method p (some (array xs)) h = ground arith
check_name-IsOpenName method p (some (object fs)) h = ground arith

lookup-rewritten_name :
    (name description : Option Json) → lookup "name" (rewritten name description) ≡ name
unfolding rewritten lookup str_dec
lookup-rewritten_name none none = refl
lookup-rewritten_name none (some d) = refl
lookup-rewritten_name (some n) none = refl
lookup-rewritten_name (some n) (some d) = refl

lookup-rewritten_description :
    (name description : Option Json)
    → lookup "description" (rewritten name description) ≡ description
unfolding rewritten lookup str_dec
lookup-rewritten_description none none = refl
lookup-rewritten_description none (some d) = refl
lookup-rewritten_description (some n) none = refl
lookup-rewritten_description (some n) (some d) = refl

module _ (is_space : Char → Bool) (method : String) (p : Principal) where
  -- What is forwarded names an open namespace, or none, and passes the check again unchanged.
  abbrev pub IsSafeBody : BodyCheck → Type 0
  IsSafeBody (refused _) = Unit
  IsSafeBody (forwarded fs) =
      IsOpenName p (lookup "name" fs)
      × (authorize_registry_body is_space (some (object fs)) method p ≡ forwarded fs)

  refused_name :
      (name description : Option Json) (r : Refusal)
      → check_name method p name ≡ some r
      → check_members is_space method p name description ≡ refused r
  unfolding check_members
  refused_name name description r q = rw (check_members, q) refl

  refused_description :
      (name description : Option Json) (r : Refusal)
      → check_name method p name ≡ none
      → check_description is_space description ≡ some r
      → check_members is_space method p name description ≡ refused r
  unfolding check_members
  refused_description name description r q d = rw (check_members, q, d) refl

  passed :
      (name description : Option Json)
      → check_name method p name ≡ none
      → check_description is_space description ≡ none
      → check_members is_space method p name description ≡ forwarded (rewritten name description)
  unfolding check_members
  passed name description q d = rw (check_members, q, d) refl

  passed_again :
      (name description : Option Json)
      → check_name method p name ≡ none
      → check_description is_space description ≡ none
      → authorize_registry_body is_space (some (object (rewritten name description))) method p
        ≡ forwarded (rewritten name description)
  unfolding authorize_registry_body
  passed_again name description q d =
      rw (lookup-rewritten_name name description, lookup-rewritten_description name description)
        (passed name description q d)

  check_members-IsSafeBody :
      (name description : Option Json)
      → IsSafeBody (check_members is_space method p name description)
  check_members-IsSafeBody name description = elim (Option-cases (check_name method p name)) [
    | inr (r, q) ↦ subst IsSafeBody (sym (refused_name name description r q)) tt
    | inl q ↦ elim (Option-cases (check_description is_space description)) [
      | inr (r, d) ↦ subst IsSafeBody (sym (refused_description name description r q d)) tt
      | inl d ↦ subst IsSafeBody (sym (passed name description q d)) (
        subst (IsOpenName p) (sym (lookup-rewritten_name name description))
            (check_name-IsOpenName method p name q),
        passed_again name description q d,
      )
    ]
  ]

  -- The body that is forwarded names a valid namespace that the principal may use, or none, and is
  -- one that the check forwards unchanged.
  pub authorize_registry_body-IsSafeBody :
      (body : Option Json) → IsSafeBody (authorize_registry_body is_space body method p)
  unfolding authorize_registry_body
  authorize_registry_body-IsSafeBody none = tt
  authorize_registry_body-IsSafeBody (some (object body)) = check_members-IsSafeBody _ _
  authorize_registry_body-IsSafeBody (some null) = tt
  authorize_registry_body-IsSafeBody (some (boolean b)) = tt
  authorize_registry_body-IsSafeBody (some (number n)) = tt
  authorize_registry_body-IsSafeBody (some (string s)) = tt
  authorize_registry_body-IsSafeBody (some (array xs)) = tt
