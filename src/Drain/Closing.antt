-- ===== src/Drain/Closing.antt =====
-- From preClose on no upload drains.
use mathlib.Core.Path.{subst}
use ferrum_foundry.Prelude.{
  ℕ, zero, suc, Bool, true, false, not, ◌||◌, List, [], ◌∷◌, ◌++◌, Option, none, some, ◌≡◌, refl,
  sym, ap, ◌∙◌, arith, if◌then◌else◌, All, All-append, leb, length, Bool-cases, Option-cases, ◌⊎◌,
  inl, inr,
}
use ferrum_foundry.Drain.{
  Config, Unread, Upload, Server, Event, prefinish, finish, chunk, timers_due, stopped, pre_close,
  close_connection, write_response, opened, nth, set, put_upload, release, while_draining, abandon,
  abandon_first, has_room, take_slot, admit, step, run, idle_server,
}
use ferrum_foundry.Drain.Slots.{weight, slots_held, All-set, All-nth}
use ferrum_foundry.Drain.Pools.{run-IsWell}
use ferrum_foundry.Drain.Still.{
  IsStill, FirstStill, FirstStill-set, NotDraining, FirstStill-suc, All-FirstStill, length-set,
}

close_connection-still : (u : Upload) → (close_connection u).is_draining ≡ u.is_draining
unfolding close_connection
close_connection-still u = ground arith

-- What an abandoned upload leaves: one upload less that drains, or all as it was.
abbrev Abandoned : ℕ → Server → Server → Type 0
Abandoned i s t =
    (t.is_closing ≡ s.is_closing)
    × (((v : Upload) × IsStill v × (t.uploads ≡ set i v s.uploads))
        ⊎ (NotDraining (nth i s.uploads) × (t.uploads ≡ s.uploads)))

if_true : (b : Bool) (s t : Server) → b ≡ true → (if b then s else t) ≡ s
if_true b s t h = rw h refl

if_false : (b : Bool) (s t : Server) → b ≡ false → (if b then s else t) ≡ t
if_false b s t h = rw h refl

while_draining_taken :
    (i : ℕ) (f : Upload → Server → Server) (s : Server) (u : Upload)
    → nth i s.uploads ≡ some u
    → u.is_draining ≡ true
    → while_draining i f s ≡ f u s
unfolding while_draining
while_draining_taken i f s u e d = rw (while_draining, e) (if_true u.is_draining (f u s) s d)

while_draining_still :
    (i : ℕ) (f : Upload → Server → Server) (s : Server) (o : Option Upload)
    → nth i s.uploads ≡ o
    → NotDraining o
    → while_draining i f s ≡ s
unfolding while_draining
while_draining_still i f s none e h = rw (while_draining, e) refl
while_draining_still i f s (some u) e h =
    rw (while_draining, e) (if_false u.is_draining (f u s) s h)

release-Abandoned : (i : ℕ) (u : Upload) (s : Server) → Abandoned i s (release i true u s)
unfolding release
release-Abandoned i u s =
    let v = record u { is_draining = false } in
    (refl, inl (close_connection v, close_connection-still v, refl))

abandon-Abandoned : (i : ℕ) (s : Server) → Abandoned i s (abandon i s)
unfolding abandon
abandon-Abandoned i s = elim (Option-cases (nth i s.uploads)) [
  | inl e ↦ rw (while_draining_still i (release i true) s none e tt) (refl, inr (rw e tt, refl))
  | inr (u, e) ↦ elim (Bool-cases u.is_draining) [
    | inl d ↦ rw (while_draining_taken i (release i true) s u e d) (release-Abandoned i u s)
    | inr d ↦ rw (while_draining_still i (release i true) s (some u) e d) (refl, inr (rw e d, refl))
  ]
]

-- so the first uploads are still, one more after each round of the loop
FirstStill-Abandoned :
    (n : ℕ) (s t : Server) → Abandoned n s t → FirstStill n s.uploads → FirstStill (suc n) t.uploads
FirstStill-Abandoned n s t (c, inl (v, h, e)) k =
    subst (FirstStill (suc n)) (sym e) (FirstStill-set n s.uploads v h k)
FirstStill-Abandoned n s t (c, inr (h, e)) k =
    subst (FirstStill (suc n)) (sym e) (FirstStill-suc n s.uploads h k)

length-Abandoned : (i : ℕ) (s t : Server) → Abandoned i s t → length t.uploads ≡ length s.uploads
length-Abandoned i s t (c, inl (v, h, e)) = ap length e ∙ length-set i v s.uploads
length-Abandoned i s t (c, inr (h, e)) = ap length e

-- What the loop of preClose has reached.
record Reached (n : ℕ) (s t : Server) : Type 0 where
  still : FirstStill n t.uploads
  lengths : length t.uploads ≡ length s.uploads
  closing : t.is_closing ≡ s.is_closing

abandon_first-Reached : (n : ℕ) (s : Server) → Reached n s (abandon_first n s)
unfolding abandon_first
abandon_first-Reached zero s = record { still = tt; lengths = refl; closing = refl }
abandon_first-Reached (suc n) s =
    let before = abandon_first-Reached n s in
    let t = abandon_first n s in
    let change = abandon-Abandoned n t in
    record {
      still = FirstStill-Abandoned n t (abandon n t) change before.still;
      lengths = length-Abandoned n t (abandon n t) change ∙ before.lengths;
      closing = change.0 ∙ before.closing;
    }

record IsQuiet (s : Server) : Type 0 where
  closing : s.is_closing ≡ true
  still : All IsStill s.uploads

pre_close-IsQuiet : (config : Config) (s : Server) → IsQuiet (step config s pre_close)
unfolding step
pre_close-IsQuiet config s =
    let end = abandon_first-Reached (length s.uploads) (record s { is_closing = true }) in
    record {
      closing = end.closing;
      still = All-FirstStill (length s.uploads) _ (omega (arith, end.lengths)) end.still;
    }

not_draining :
    (i : ℕ) (us : List Upload) (o : Option Upload) → nth i us ≡ o → All IsStill us → NotDraining o
not_draining i us none e h = tt
not_draining i us (some u) e h = All-nth IsStill i us u e h

while_draining-IsQuiet :
    (i : ℕ) (f : Upload → Server → Server) (s : Server) → IsQuiet s → IsQuiet (while_draining i f s)
while_draining-IsQuiet i f s q =
    subst IsQuiet
      (sym (
        while_draining_still i f s (nth i s.uploads) refl
          (not_draining i s.uploads _ refl q.still)))
      q

write_response-IsQuiet :
    (i : ℕ) (u : Upload) (s : Server)
    → IsStill u
    → IsQuiet s
    → IsQuiet (put_upload i (write_response u) s)
unfolding put_upload write_response
write_response-IsQuiet i u s h q = record {
  closing = q.closing;
  still = All-set IsStill i s.uploads (write_response u) h q.still;
}

admit-IsQuiet :
    (config : Config) (now : ℕ) (r : Unread) (u : Upload) (s : Server)
    → IsStill u
    → IsQuiet s
    → IsQuiet (admit config now r u s)
unfolding admit
admit-IsQuiet config now r u s h q =
    let refuses =
      r.close_unread || (s.is_closing || (leb u.linger_for 0 || not (has_room config s u))) in
    let closed : refuses ≡ true = ground (arith, q.closing) in
    let kept = record s { uploads = s.uploads ++ close_connection u ∷ [] } in
    let quiet : IsQuiet kept = record {
      closing = q.closing;
      still =
          All-append IsStill s.uploads (close_connection u ∷ []) q.still
            (close_connection-still u ∙ h, tt);
    } in
    subst IsQuiet (sym (if_true refuses kept (take_slot r.declared_length now u s) closed)) quiet

choice-IsQuiet : (b : Bool) (s t : Server) → IsQuiet s → IsQuiet t → IsQuiet (if b then s else t)
choice-IsQuiet true s t h k = h
choice-IsQuiet false s t h k = k

step-IsQuiet : (config : Config) (s : Server) (e : Event) → IsQuiet s → IsQuiet (step config s e)
unfolding step opened
step-IsQuiet config s (prefinish now r) q =
    choice-IsQuiet r.is_complete s (admit config now r (opened config now r) s) q
      (admit-IsQuiet config now r (opened config now r) s refl q)
step-IsQuiet config s (finish i) q = elim (Option-cases (nth i s.uploads)) [
  | inl e ↦ rw (step, e) q
  | inr (u, e) ↦
      rw (step, e) (write_response-IsQuiet i u s (All-nth IsStill i s.uploads u e q.still) q)
]
step-IsQuiet config s (chunk i now n) q = while_draining-IsQuiet i _ s q
step-IsQuiet config s (timers_due i now) q = while_draining-IsQuiet i _ s q
step-IsQuiet config s (stopped i) q = while_draining-IsQuiet i _ s q
step-IsQuiet config s pre_close q = pre_close-IsQuiet config s

run-IsQuiet :
    (config : Config) (s : Server) (es : List Event) → IsQuiet s → IsQuiet (run config s es)
unfolding run
run-IsQuiet config s [] q = q
run-IsQuiet config s (e ∷ es) q =
    run-IsQuiet config (step config s e) es (step-IsQuiet config s e q)

run-append :
    (config : Config) (s : Server) (es fs : List Event)
    → run config s (es ++ fs) ≡ run config (run config s es) fs
unfolding run
run-append config s [] fs = refl
run-append config s (e ∷ es) fs = run-append config (step config s e) es fs

closed-IsQuiet :
    (config : Config) (before after : List Event)
    → IsQuiet (run config idle_server (before ++ pre_close ∷ after))
unfolding run
closed-IsQuiet config before after =
    subst IsQuiet (sym (run-append config idle_server before (pre_close ∷ after))) (
      run-IsQuiet config (step config (run config idle_server before) pre_close) after
        (pre_close-IsQuiet config (run config idle_server before)))

weight-IsStill : (pool : Bool) (u : Upload) → IsStill u → weight pool u ≡ 0
weight-IsStill true u h = ground (arith, h)
weight-IsStill false u h = ground (arith, h)

slots_held-IsStill : (pool : Bool) (us : List Upload) → All IsStill us → slots_held pool us ≡ 0
slots_held-IsStill pool [] h = refl
slots_held-IsStill pool (u ∷ us) (h, hs) =
    omega (arith, weight-IsStill pool u h, slots_held-IsStill pool us hs)

-- After preClose, whatever came before and comes later, no upload drains and both pools are empty:
-- nothing that a sender does holds up the shutdown.
pub run-IsStill :
    (config : Config) (before after : List Event)
    → let s = run config idle_server (before ++ pre_close ∷ after) in
      (s.signed_in_active ≡ 0) × (s.signed_out_active ≡ 0) × All IsStill s.uploads
run-IsStill config before after =
    let events = before ++ pre_close ∷ after in
    let well = run-IsWell config events in
    let quiet = closed-IsQuiet config before after in
    (
      well.signed_in_counted ∙ slots_held-IsStill false _ quiet.still,
      well.signed_out_counted ∙ slots_held-IsStill true _ quiet.still,
      quiet.still,
    )
