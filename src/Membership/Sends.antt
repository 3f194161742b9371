-- ===== src/Membership/Sends.antt =====
-- What a plan may send: every write that it adds to the log satisfies a predicate, whatever the
-- gateway answers.
use mathlib.Core.List.{append_assoc, append-nil}
use ferrum_foundry.Prelude.{
  Option, none, some, Bool, true, false, List, [], ◌∷◌, ◌++◌, if◌then◌else◌, ◌≡◌, refl, sym, All,
  All-append, All-imp,
}
use ferrum_foundry.Membership.{
  Write, State, Result, ok, err, Plan, pure, throw, continue, ◌>>=◌, ◌>>◌, attempt, read, send,
  Outcome, Failure,
}

module _ {W : Type 0} (P : Write → Type 0) where
  -- The log grew by writes with `P`.
  abbrev pub Grows : State W → State W → Type 0
  Grows s t = (ws : List Write) × (t.sent ≡ s.sent ++ ws) × All P ws

  pub record Sends {A : Type 0} (m : Plan W A) : Type 0 where
    pub grows : (s : State W) → Grows s (m s).1

  pub Grows-refl : (s : State W) → Grows s s
  Grows-refl s = ([], sym (append-nil s.sent), tt)

  pub Grows-trans : (s t u : State W) → Grows s t → Grows t u → Grows s u
  Grows-trans s t u (ws, e, h) (vs, e', h') =
      (ws ++ vs, cc (e, e', append_assoc s.sent ws vs), All-append P ws vs h h')

  pub Sends-pure : {A : Type 0} (a : A) → Sends (pure a)
  unfolding pure
  Sends-pure a = record { grows = Grows-refl }

  pub Sends-throw : (A : Type 0) (e : Failure) → Sends (throw {A = A} e)
  unfolding throw
  Sends-throw A e = record { grows = Grows-refl }

  pub Sends-read : {A : Type 0} (f : W → Outcome A × W) → Sends (read f)
  unfolding read
  Sends-read f = record { grows = λ s. Grows-refl s }

  pub Sends-send : {A : Type 0} (x : Write) (f : W → Outcome A × W) → P x → Sends (send x f)
  unfolding send
  Sends-send x f p = record { grows = λ s. (x ∷ [], refl, (p, tt)) }

  continue-Grows :
      {A B : Type 0} (s : State W) (r : Result A × State W) (f : A → Plan W B)
      → Grows s r.1
      → ((a : A) → Sends (f a))
      → Grows s (continue f r).1
  continue-Grows s (ok a, t) f h k = Grows-trans s t (f a t).1 h ((k a).grows t)
  continue-Grows s (err e, t) f h k = h

  pub Sends-bind :
      {A B : Type 0} {m : Plan W A} {f : A → Plan W B}
      → Sends m
      → ((a : A) → Sends (f a))
      → Sends (m >>= f)
  unfolding ◌>>=◌
  Sends-bind {m = m} {f = f} h k = record { grows = λ s. continue-Grows s (m s) f (h.grows s) k }

  pub Sends-then : {A B : Type 0} {m : Plan W A} {n : Plan W B} → Sends m → Sends n → Sends (m >> n)
  unfolding ◌>>◌
  Sends-then {m = m} {n = n} h k = record {
    grows = λ s. continue-Grows s (m s) (λ _. n) (h.grows s) (λ _. k);
  }

  pub Sends-attempt : {A : Type 0} {m : Plan W A} → Sends m → Sends (attempt m)
  unfolding attempt
  Sends-attempt h = record { grows = h.grows }

  pub Sends-if :
      {A : Type 0} (b : Bool) {m n : Plan W A} → Sends m → Sends n → Sends (if b then m else n)
  Sends-if true h k = h
  Sends-if false h k = k

module _ {W : Type 0} (P : Write → Type 0) {A B : Type 0} where
  pub Sends-result :
      {f : A → Plan W B} {h : Failure → Plan W B} (r : Result A)
      → ((a : A) → Sends P (f a))
      → ((e : Failure) → Sends P (h e))
      → Sends P (elim r [ ok a ↦ f a | err e ↦ h e ])
  Sends-result (ok a) k l = k a
  Sends-result (err e) k l = l e

  pub Sends-option :
      {m : Plan W B} {f : A → Plan W B} (o : Option A)
      → Sends P m
      → ((a : A) → Sends P (f a))
      → Sends P (elim o [ none ↦ m | some a ↦ f a ])
  Sends-option none h k = h
  Sends-option (some a) h k = k a

-- A weaker predicate.
pub Sends-imp :
    {W A : Type 0} {P Q : Write → Type 0} {m : Plan W A}
    → ((x : Write) → P x → Q x)
    → Sends P m
    → Sends Q m
Sends-imp {P = P} {Q = Q} f h = record {
  grows = λ s. let (ws, e, k) = h.grows s in (ws, e, All-imp P Q ws f k);
}
