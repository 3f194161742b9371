-- ===== src/Latches/Review.antt =====
-- Runs of the latch store: what ends a latch, and that a review ends only the latch it is of.
use ferrum_foundry.Prelude.{
  String, false, List, [], ◌∷◌, ◌<◌, some, ◌≡◌, arith, inl, inr, ◌≢◌, ◌⊎◌, ==_iff, ◌↔◌, ◌≤◌,
  Option-cases, Bool, none, ◌&&◌, if◌then◌else◌,
}
use ferrum_foundry.Prelude.Maps.{
  get, delete, Distinct, get-delete_ne, get-put_ne, str_dec, Distinct-put, Distinct-delete,
  get-put_self, get-delete_self,
}
use ferrum_foundry.Latches.{
  OutcomeLatch, LatchObservation, Installed, Store, settled_by, settle_each, settle_outcome_latches,
  latch_outcome, release_outcome_latch, latch_key, is_current, empty_store, true,
}
use ferrum_foundry.Policy.{includes}
use ferrum_foundry.Latches.Settling.{get-settle_outcome_latches}

pub data Event : Type 0 where
  latched : OutcomeLatch → Event
  released : String → Installed → Event
  observed : LatchObservation → Event

unfoldable pub step : Event → Store → Store
step (latched l) s = latch_outcome l s
step (released key reviewed) s = (release_outcome_latch key reviewed s).1
step (observed o) s = settle_outcome_latches o s

unfoldable pub run : List Event → Store → Store
run [] s = s
run (e ∷ es) s = run es (step e s)

Distinct-settle_each :
    (o : LatchObservation) (m next : List (String × Installed))
    → Distinct next
    → Distinct (settle_each o m next)
unfolding settle_each
Distinct-settle_each o [] next d = d
Distinct-settle_each o ((k, i) ∷ m) next d = ground (
  arith,
  Distinct-settle_each o m next d,
  Distinct-settle_each o m (delete k next),
  Distinct-delete k next d,
)

Distinct-step : (e : Event) (s : Store) → Distinct s.latches → Distinct (step e s).latches
unfolding step latch_outcome release_outcome_latch settle_outcome_latches
Distinct-step (latched l) s d = Distinct-put (latch_key l) _ s.latches d
Distinct-step (released k r) s d = ground (arith, Distinct-delete k s.latches d)
Distinct-step (observed o) s d = ground (arith, Distinct-settle_each o s.latches s.latches d)

-- An event that leaves the latch `i` under `key` alone: a latch under another key, a release of
-- another key or after a review of another latch, an observation that does not settle it.
abbrev pub Spares : String → Installed → Event → Type 0
Spares key i (latched l) = key ≢ latch_key l
Spares key i (released k r) = (key ≢ k) ⊎ (i.serial ≢ r.serial)
Spares key i (observed o) = settled_by i.latch o ≡ false

abbrev pub AllSpare : String → Installed → List Event → Type 0
AllSpare key i [] = Unit
AllSpare key i (e ∷ es) = Spares key i e × AllSpare key i es

step-Spares :
    (e : Event) (s : Store) (key : String) (i : Installed)
    → Distinct s.latches
    → Spares key i e
    → get key s.latches ≡ some i
    → get key (step e s).latches ≡ some i
unfolding step latch_outcome release_outcome_latch is_current
step-Spares (latched l) s key i d h g =
    ground (arith, get-put_ne (latch_key l) key (record { serial = s.next; latch = l }) s.latches h)
step-Spares (released k r) s key i d (inl h) g = ground (arith, get-delete_ne k key s.latches h)
step-Spares (released k r) s key i d (inr h) g =
    ground (arith, str_dec key k, get-delete_ne k key s.latches, ==_iff i.serial r.serial)
step-Spares (observed o) s key i d h g = ground (arith, get-settle_outcome_latches o s key d)

-- A latch stays, the same object, through any events that spare it: only a newer latch under its
-- key, an observation that settles it, or a release after a review of this very latch ends it.
pub run-Spares :
    (es : List Event) (s : Store) (key : String) (i : Installed)
    → Distinct s.latches
    → AllSpare key i es
    → get key s.latches ≡ some i
    → get key (run es s).latches ≡ some i
unfolding run
run-Spares [] s key i d h g = g
run-Spares (e ∷ es) s key i d (h, hs) g =
    run-Spares es (step e s) key i (Distinct-step e s d) hs (step-Spares e s key i d h g)

-- Where an entry comes from: it was there, or the step installed it under a new serial.
step-origin :
    (e : Event) (s : Store) (q : String) (j : Installed)
    → Distinct s.latches
    → get q (step e s).latches ≡ some j
    → (get q s.latches ≡ some j) ⊎ ((j.serial ≡ s.next) × (s.next < (step e s).next))
unfolding step latch_outcome release_outcome_latch
step-origin (latched l) s q j d h =
    let new : Installed = record { serial = s.next; latch = l } in
    ground (
      arith,
      str_dec q (latch_key l),
      get-put_self (latch_key l) new s.latches,
      get-put_ne (latch_key l) q new s.latches,
    )
step-origin (released k r) s q j d h =
    ground (arith, str_dec q k, get-delete_self k s.latches, get-delete_ne k q s.latches)
step-origin (observed o) s q j d h =
    ground (arith, Option-cases (get q s.latches), get-settle_outcome_latches o s q d)

step-next-le : (e : Event) (s : Store) → s.next ≤ (step e s).next
unfolding step latch_outcome release_outcome_latch settle_outcome_latches
step-next-le (latched l) s = omega arith
step-next-le (released k r) s = ground arith
step-next-le (observed o) s = ground arith

module _ (r : Installed) where
  -- The serial of `r` was drawn, and no other object carries it.
  abbrev Identifies : Store → Type 0
  Identifies s =
      (r.serial < s.next)
      × ((q : String) (j : Installed) → get q s.latches ≡ some j → (j.serial ≢ r.serial) ⊎ (j ≡ r))

  step-Identifies :
      (e : Event) (s : Store) → Distinct s.latches → Identifies s → Identifies (step e s)
  step-Identifies e s d (lt, only) = (
    omega (arith, lt, step-next-le e s),
    λ q j h. elim (step-origin e s q j d h) [
      | inl old ↦ only q j old
      | inr (new, _) ↦ inl (λ p. omega (arith, lt, new, p))
    ],
  )

  run-Identifies :
      (es : List Event) (s : Store) → Distinct s.latches → Identifies s → Identifies (run es s)
  unfolding run
  run-Identifies [] s d h = h
  run-Identifies (e ∷ es) s d h =
      run-Identifies es (step e s) (Distinct-step e s d) (step-Identifies e s d h)

-- Every serial in the store was drawn.
abbrev Drawn : Store → Type 0
Drawn s = (q : String) (j : Installed) → get q s.latches ≡ some j → j.serial < s.next

run-Drawn :
    (es : List Event) (s : Store)
    → Distinct s.latches
    → Drawn s
    → Distinct (run es s).latches × Drawn (run es s)
unfolding run
run-Drawn [] s d h = (d, h)
run-Drawn (e ∷ es) s d h = run-Drawn es (step e s) (Distinct-step e s d) (λ q j g.
    elim (step-origin e s q j d g) [
      | inl old ↦ omega (arith, h q j old, step-next-le e s)
      | inr (new, lt) ↦ omega (arith, new, lt)
    ])

-- The object that a call of latchOutcome stores.
abbrev pub installed : OutcomeLatch → Store → Installed
installed l s = record { serial = s.next; latch = l }

installed-Identifies :
    (l : OutcomeLatch) (s : Store)
    → Distinct s.latches
    → Drawn s
    → Identifies (installed l s) (latch_outcome l s)
unfolding latch_outcome
installed-Identifies l s d h = (
  omega arith,
  λ q j g. elim (str_dec q (latch_key l)) [
    | yes p ↦ inr (ground (arith, get-put_self (latch_key l) (installed l s) s.latches))
    | no p ↦
        let lt = h q j (ground (arith, get-put_ne (latch_key l) q (installed l s) s.latches p)) in
        inl (λ e. omega (arith, lt, e))
  ],
)

current_iff :
    (key : String) (r : Installed) (s : Store)
    → Identifies r s
    → ((release_outcome_latch key r s).0 ≡ true) ↔ (get key s.latches ≡ some r)
unfolding release_outcome_latch is_current
current_iff key r s (lt, only) = elim (Option-cases (get key s.latches)) [
  | inl n ↦ ground arith
  | inr (j, e) ↦ elim (only key j e) [
    | inl ne ↦ ground (arith, ==_iff j.serial r.serial)
    | inr same ↦ ground (arith, ==_iff j.serial r.serial)
  ]
]

empty_store-Drawn : Drawn empty_store
unfolding get
empty_store-Drawn q j h = cc

get-release :
    (key q : String) (r : Installed) (s : Store)
    → get q (release_outcome_latch key r s).1.latches ≡ (
        if (release_outcome_latch key r s).0 && includes (key ∷ []) q
        then none
        else get q s.latches)
unfolding release_outcome_latch includes
get-release key q r s =
    ground (arith, str_dec key q, get-delete_self key s.latches, get-delete_ne key q s.latches)

-- What a release after a review does to the store: it removes the entry of its key where it
-- answers true, and touches nothing else.
abbrev pub Released : String → Store → Bool × Store → String → Type 0
Released key s out q =
    (get q out.1.latches ≡ (if out.0 && includes (key ∷ []) q then none else get q s.latches))
    × (out.1.in_flight ≡ s.in_flight)
    × (out.1.next ≡ s.next)

release-Released :
    (key q : String) (r : Installed) (s : Store) → Released key s (release_outcome_latch key r s) q
unfolding release_outcome_latch
release-Released key q r s = (get-release key q r s, ground arith, ground arith)

-- A review releases exactly the latch that was reviewed. With a latch installed after any calls,
-- and any calls since, the release answers true if and only if its key still holds that same
-- latch, the object and not its like. Where it answers true the key holds no latch after it; every
-- other name, and every name where it answers false, holds what it held, and the writes in flight
-- are untouched.
pub release_iff :
    (es fs : List Event) (l : OutcomeLatch) (q : String)
    → let s = run es empty_store in
      let later = run fs (latch_outcome l s) in
      let out = release_outcome_latch (latch_key l) (installed l s) later in
      ((out.0 ≡ true) ↔ (get (latch_key l) later.latches ≡ some (installed l s)))
      × Released (latch_key l) later out q
unfolding latch_outcome step
release_iff es fs l q =
    let s = run es empty_store in
    let later = run fs (latch_outcome l s) in
    let (d, h) = run-Drawn es empty_store tt empty_store-Drawn in
    let d' = Distinct-step (latched l) s d in
    let i = run-Identifies (installed l s) fs (latch_outcome l s) d' in
    (
      current_iff (latch_key l) (installed l s) later (i (installed-Identifies l s d h)),
      release-Released (latch_key l) q (installed l s) later,
    )
