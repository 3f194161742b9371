-- ===== src/Latches/InFlight.antt =====
-- The counts of writes in flight are the numbers of the releases not yet called.
use ferrum_foundry.Prelude.{
  refl, ℕ, String, List, [], ◌∷◌, ◌++◌, ◌+◌, ◌-◌, Option, none, some, ite, if◌then◌else◌, ◌≡◌,
  arith, zero, suc, ◌⊎◌, inl, inr,
}
use ferrum_foundry.Prelude.Maps.{
  get, get-delete_self, get-delete_ne, get-put_self, get-put_ne, str_dec,
}
use ferrum_foundry.Latches.{
  Store, Release, begin_write, release_write, or_else, empty_store, is_write_in_flight, ltb,
}

-- The callers: each holds what its beginWrite returned, in the order of the calls.
pub record World : Type 0 where
  pub store : Store
  pub held : List Release

pub data Call : Type 0 where
  begin : String → Call
  release : ℕ → Call

-- The caller with number `n` calls its release; a number that no caller has does nothing.
unfoldable pub release_nth : ℕ → Store → List Release → Store × List Release
release_nth n s [] = (s, [])
release_nth zero s (r ∷ rs) = let (s', r') = release_write r s in (s', r' ∷ rs)
release_nth (suc n) s (r ∷ rs) = let (s', rs') = release_nth n s rs in (s', r ∷ rs')

unfoldable pub call : Call → World → World
call (begin key) w =
    let (s, r) = begin_write key w.store in record { store = s; held = w.held ++ r ∷ [] }
call (release n) w = let (s, rs) = release_nth n w.store w.held in record { store = s; held = rs }

unfoldable pub calls : List Call → World → World
calls [] w = w
calls (c ∷ cs) w = calls cs (call c w)

abbrev pub new_world : World
new_world = record { store = empty_store; held = [] }

-- The releases of `key` not yet called.
abbrev pub unended_of : String → Release → ℕ
unended_of key r = if r.released then 0 else ite (str_dec r.key key) 1 0

abbrev pub unended : String → List Release → ℕ
unended key [] = 0
unended key (r ∷ rs) = unended_of key r + unended key rs

-- The entry of a key with that many writes: none at 0.
abbrev pub entry : ℕ → Option ℕ
entry zero = none
entry (suc n) = some (suc n)

unended-append :
    (key : String) (rs ts : List Release) → unended key (rs ++ ts) ≡ unended key rs + unended key ts
unended-append key [] ts = omega arith
unended-append key (r ∷ rs) ts = omega (arith, unended-append key rs ts)

Nat-cases : (n : ℕ) → (n ≡ 0) ⊎ ((m : ℕ) × (n ≡ suc m))
Nat-cases zero = inl refl
Nat-cases (suc m) = inr (m, refl)

module _ (key : String) where
  begin-entry :
      (k : String) (s : Store) (n : ℕ)
      → get key s.in_flight ≡ entry n
      → get key (begin_write k s).0.in_flight ≡ entry (unended_of key (begin_write k s).1 + n)
  unfolding begin_write
  begin-entry k s zero h = ground (
    arith,
    str_dec k key,
    get-put_self k (or_else 0 (get k s.in_flight) + 1) s.in_flight,
    get-put_ne k key (or_else 0 (get k s.in_flight) + 1) s.in_flight,
  )
  begin-entry k s (suc n) h = ground (
    arith,
    str_dec k key,
    get-put_self k (or_else 0 (get k s.in_flight) + 1) s.in_flight,
    get-put_ne k key (or_else 0 (get k s.in_flight) + 1) s.in_flight,
  )

  release-entry :
      (r : Release) (s : Store) (n : ℕ)
      → get key s.in_flight ≡ entry (unended_of key r + n)
      → get key (release_write r s).0.in_flight ≡ entry (unended_of key (release_write r s).1 + n)
  unfolding release_write
  release-entry r s zero h = ground (
    arith,
    str_dec r.key key,
    get-put_self r.key (or_else 1 (get r.key s.in_flight) - 1) s.in_flight,
    get-put_ne r.key key (or_else 1 (get r.key s.in_flight) - 1) s.in_flight,
    get-delete_self r.key s.in_flight,
    get-delete_ne r.key key s.in_flight,
  )
  release-entry r s (suc n) h = ground (
    arith,
    str_dec r.key key,
    get-put_self r.key (or_else 1 (get r.key s.in_flight) - 1) s.in_flight,
    get-put_ne r.key key (or_else 1 (get r.key s.in_flight) - 1) s.in_flight,
    get-delete_self r.key s.in_flight,
    get-delete_ne r.key key s.in_flight,
  )

  recount : (o : Option ℕ) (a b : ℕ) → o ≡ entry a → a ≡ b → o ≡ entry b
  recount o a b h e = cc

  nth-entry :
      (i : ℕ) (s : Store) (rs : List Release) (m : ℕ)
      → get key s.in_flight ≡ entry (m + unended key rs)
      → get key (release_nth i s rs).0.in_flight ≡ entry (m + unended key (release_nth i s rs).1)
  unfolding release_nth
  nth-entry i s [] m h = h
  nth-entry zero s (r ∷ rs) m h =
      let w = release_write r s in
      recount (get key w.0.in_flight) (unended_of key w.1 + (m + unended key rs))
        (m + (unended_of key w.1 + unended key rs))
        (release-entry r s (m + unended key rs) (
          recount (get key s.in_flight) (m + (unended_of key r + unended key rs))
            (unended_of key r + (m + unended key rs)) h (omega arith)))
        (omega arith)
  nth-entry (suc i) s (r ∷ rs) m h =
      let w = release_nth i s rs in
      recount (get key w.0.in_flight) (m + unended_of key r + unended key w.1)
        (m + (unended_of key r + unended key w.1))
        (nth-entry i s rs (m + unended_of key r) (
          recount (get key s.in_flight) (m + (unended_of key r + unended key rs))
            (m + unended_of key r + unended key rs) h (omega arith)))
        (omega arith)

  -- A world in which the store counts what is held.
  abbrev Counted : World → Type 0
  Counted w = get key w.store.in_flight ≡ entry (unended key w.held)

  call-Counted : (c : Call) (w : World) → Counted w → Counted (call c w)
  unfolding call
  call-Counted (begin k) w h =
      let (s, r) = begin_write k w.store in
      recount (get key s.in_flight) (unended_of key r + unended key w.held)
        (unended key (w.held ++ r ∷ [])) (begin-entry k w.store (unended key w.held) h)
        (omega (arith, unended-append key w.held (r ∷ [])))
  call-Counted (release n) w h =
      let r = release_nth n w.store w.held in
      recount (get key r.0.in_flight) (0 + unended key r.1) (unended key r.1)
        (nth-entry n w.store w.held 0 (
          recount (get key w.store.in_flight) (unended key w.held) (0 + unended key w.held) h
            (omega arith)))
        (omega arith)

  calls-Counted : (cs : List Call) (w : World) → Counted w → Counted (calls cs w)
  unfolding calls
  calls-Counted [] w h = h
  calls-Counted (c ∷ cs) w h = calls-Counted cs (call c w) (call-Counted c w h)

-- Whatever writes begin and whichever releases are called, in any order and any number of times,
-- isWriteInFlight tells of a key exactly whether a write under it has a release not yet called.
pub calls-is_write_in_flight :
    (cs : List Call) (key : String)
    → let w = calls cs new_world in is_write_in_flight key w.store ≡ ltb 0 (unended key w.held)
unfolding is_write_in_flight get
calls-is_write_in_flight cs key =
    let h : Counted key (calls cs new_world) = calls-Counted key cs new_world (λ i. none) in
    elim (Nat-cases (unended key (calls cs new_world).held)) [
      | inl z ↦ ground arith
      | inr (n, p) ↦ ground arith
    ]
