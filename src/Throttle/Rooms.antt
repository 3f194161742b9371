-- ===== src/Throttle/Rooms.antt =====
-- How a slot is freed in the authenticated table, and that the invariant survives it.
use ferrum_foundry.Prelude.{
  ℕ, ◌+◌, ◌<◌, ◌≤◌, String, Bool, true, false, none, some, List, [], ◌∷◌, ◌≡◌, ◌≢◌, refl, arith,
  length, leb, if◌then◌else◌, Option-cases, Bool-cases, inl, ◌∙◌, inr, ap,
}
use ferrum_foundry.Prelude.Apart.{Apart, Apart-move, Apart-move_back, Apart-delete_left}
use ferrum_foundry.Throttle.{
  Options, Entry, AuthFailureThrottle, with_room, first_stale, demote_oldest, make_trusted_room,
  move_in, promoted_entry,
}
use ferrum_foundry.Throttle.Tables.{first_stale-is_stale}
use ferrum_foundry.Throttle.Invariant.{IsSound, IsValid, refresh-IsSound, with_room-IsValid}
use ferrum_foundry.Prelude.Maps

module _ (o : Options) (on : 0 < o.max_failures) (key : String) where
  -- A slot is free for `key`; its own shared entry counts as free.
  pub record HasRoom (s : AuthFailureThrottle) : Type 0 where
    distinct_entries : Maps.Distinct s.entries
    distinct_trusted : Maps.Distinct s.trusted
    apart : Apart s.trusted s.entries
    room_entries : length (Maps.delete key s.entries) ≤ o.max_keys
    room_trusted : length s.trusted < o.max_trusted_keys
    sound_entries : Maps.AllValues (IsSound o) s.entries
    sound_trusted : Maps.AllValues (IsSound o) s.trusted
    sound_overflow : IsSound o s.overflow

  promoted_entry-IsSound :
      (clear : Bool) (now : ℕ) (s : AuthFailureThrottle)
      → Maps.AllValues (IsSound o) s.entries
      → IsSound o s.overflow
      → IsSound o (promoted_entry o key clear now s).0
        × IsSound o (promoted_entry o key clear now s).1
  unfolding promoted_entry
  promoted_entry-IsSound true now s h k = (on, k)
  promoted_entry-IsSound false now s h k = elim (Option-cases (Maps.get key s.entries)) [
    | inl new ↦
        let live = refresh-IsSound o on s.overflow now k in rw (new, promoted_entry) (live, live)
    | inr (x, old) ↦
        rw (old, promoted_entry) (Maps.AllValues-get (IsSound o) key s.entries h old, k)
  ]

  pub move_in-IsValid :
      (clear : Bool) (now : ℕ) (s : AuthFailureThrottle)
      → HasRoom s
      → IsValid o (move_in o key clear now s)
  unfolding move_in
  move_in-IsValid clear now s h =
      let e = (promoted_entry o key clear now s).0 in
      let (sound, sound') = promoted_entry-IsSound clear now s h.sound_entries h.sound_overflow in
      record {
        distinct_entries = Maps.Distinct-delete key s.entries h.distinct_entries;
        distinct_trusted = Maps.Distinct-put key e s.trusted h.distinct_trusted;
        apart = Apart-move key e s.trusted s.entries h.apart;
        bounded_entries = h.room_entries;
        bounded_trusted = omega (arith, Maps.length-put-le key e s.trusted, h.room_trusted);
        sound_entries = Maps.AllValues-delete (IsSound o) key s.entries h.sound_entries;
        sound_trusted = Maps.AllValues-put (IsSound o) key e s.trusted sound h.sound_trusted;
        sound_overflow = sound';
      }

  pub IsValid-HasRoom :
      (s : AuthFailureThrottle) → IsValid o s → length s.trusted < o.max_trusted_keys → HasRoom s
  IsValid-HasRoom s v h = record {
    distinct_entries = v.distinct_entries;
    distinct_trusted = v.distinct_trusted;
    apart = v.apart;
    room_entries = omega (arith, Maps.length-delete-le key s.entries, v.bounded_entries);
    room_trusted = h;
    sound_entries = v.sound_entries;
    sound_trusted = v.sound_trusted;
    sound_overflow = v.sound_overflow;
  }

  -- What `make_trusted_room` promises: a slot, or else the invariant as it was.
  abbrev pub Outcome : AuthFailureThrottle × Bool → Type 0
  Outcome r = ((r.1 ≡ true) → HasRoom r.0) × ((r.1 ≡ false) → IsValid o r.0)

  delete_stale-HasRoom :
      (k : String) (x : Entry) (s : AuthFailureThrottle)
      → IsValid o s
      → Maps.get k s.trusted ≡ some x
      → HasRoom (record s { trusted = Maps.delete k s.trusted })
  delete_stale-HasRoom k x s v found = record {
    distinct_entries = v.distinct_entries;
    distinct_trusted = Maps.Distinct-delete k s.trusted v.distinct_trusted;
    apart = Apart-delete_left k s.trusted s.entries v.apart;
    room_entries = omega (arith, Maps.length-delete-le key s.entries, v.bounded_entries);
    room_trusted = omega (arith, Maps.length-delete-lt k s.trusted x found, v.bounded_trusted);
    sound_entries = v.sound_entries;
    sound_trusted = Maps.AllValues-delete (IsSound o) k s.trusted v.sound_trusted;
    sound_overflow = v.sound_overflow;
  }

  -- How many slots of the shared table `key` is about to free.
  abbrev freed_by : List (String × Entry) → ℕ
  freed_by m = if Maps.has key m then 1 else 0

  room_for_demoted :
      (k : String) (x : Entry) (m : List (String × Entry))
      → key ≢ k
      → length m < o.max_keys + freed_by m
      → length m ≤ o.max_keys
      → length (Maps.delete key (Maps.put k x m)) ≤ o.max_keys
  room_for_demoted k x m other h bound = elim (Bool-cases (Maps.has key m)) [
    | inl there ↦
        let (e, found) = Maps.get_of_has key m there in
        let kept : Maps.get key (Maps.put k x m) ≡ some e =
          Maps.get-put_ne k key x m other ∙ found in
        omega (arith, Maps.length-delete-lt key (Maps.put k x m) e kept, Maps.length-put-le k x m)
    | inr absent ↦
        let lower : length m < o.max_keys + 0 = rw absent at h in
        omega (arith, Maps.length-delete-le key (Maps.put k x m), Maps.length-put-le k x m)
  ]

  module _ (s : AuthFailureThrottle) (v : IsValid o s) (new : Maps.get key s.trusted ≡ none) where
    demoted-HasRoom :
        (k : String) (x : Entry)
        → Maps.get k s.trusted ≡ some x
        → length s.entries < o.max_keys + freed_by s.entries
        → HasRoom (record s { trusted = Maps.delete k s.trusted; entries = Maps.put k x s.entries })
    demoted-HasRoom k x found h = record {
      distinct_entries = Maps.Distinct-put k x s.entries v.distinct_entries;
      distinct_trusted = Maps.Distinct-delete k s.trusted v.distinct_trusted;
      apart = Apart-move_back k x s.trusted s.entries v.apart;
      room_entries =
          room_for_demoted k x s.entries (λ same. cc (ap (λ q. Maps.get q s.trusted) same)) h
            v.bounded_entries;
      room_trusted = omega (arith, Maps.length-delete-lt k s.trusted x found, v.bounded_trusted);
      sound_entries =
          Maps.AllValues-put (IsSound o) k x s.entries
            (Maps.AllValues-get (IsSound o) k s.trusted v.sound_trusted found) v.sound_entries;
      sound_trusted = Maps.AllValues-delete (IsSound o) k s.trusted v.sound_trusted;
      sound_overflow = v.sound_overflow;
    }

    demote_oldest-Outcome :
        (m : List (String × Entry))
        → s.trusted ≡ m
        → length s.entries < o.max_keys + freed_by s.entries
        → Outcome (demote_oldest o s m)
    unfolding demote_oldest Maps.get
    demote_oldest-Outcome [] e h = (λ q. cc, λ _. v)
    demote_oldest-Outcome ((k, x) ∷ m) e h =
        let head : Maps.get k ((k, x) ∷ m) ≡ some x = ground arith in
        (λ _. demoted-HasRoom k x (ap (Maps.get k) e ∙ head) h, λ q. cc)

  has-with_room :
      (now limit : ℕ) (m : List (String × Entry)) → length m < limit → with_room o limit now m ≡ m
  unfolding with_room
  has-with_room now limit m h = ground arith

  -- Where the shared table is within its bound, a slot that the newcomer frees is never needed
  -- before `dropStale` runs, so the newcomer itself is not dropped there.
  room_after_drop :
      (now : ℕ) (m : List (String × Entry))
      → length m ≤ o.max_keys
      → length (with_room o (o.max_keys + freed_by m) now m) < o.max_keys + freed_by m
      → length (with_room o (o.max_keys + freed_by m) now m)
        < o.max_keys + freed_by (with_room o (o.max_keys + freed_by m) now m)
  room_after_drop now m bound h = elim (Bool-cases (Maps.has key m)) [
    | inl there ↦
        let one : freed_by m ≡ 1 = rw there in
        let same : with_room o (o.max_keys + freed_by m) now m ≡ m =
          has-with_room now (o.max_keys + freed_by m) m (omega arith) in
        omega (arith, ap length same, ap freed_by same)
    | inr absent ↦ let zero_freed : freed_by m ≡ 0 = rw absent in omega arith
  ]

  pub make_trusted_room-Outcome :
      (now : ℕ) (s : AuthFailureThrottle)
      → IsValid o s
      → Maps.get key s.trusted ≡ none
      → Outcome (make_trusted_room o key now s)
  unfolding make_trusted_room
  make_trusted_room-Outcome now s v new = elim (Option-cases (first_stale o now s.trusted)) [
    | inr (k, first) ↦
        let (x, found, stale) = first_stale-is_stale o now k s.trusted v.distinct_trusted first in
        rw (first, make_trusted_room) (λ _. delete_stale-HasRoom k x s v found, λ q. cc)
    | inl none_stale ↦
        let limit : ℕ = o.max_keys + freed_by s.entries in
        let m = with_room o limit now s.entries in
        let s' = record s { entries = m } in
        let v' : IsValid o s' = with_room-IsValid o on key now s v limit in
        rw (none_stale, make_trusted_room)
          (elim (Bool-cases (leb limit (length m))) [
            | inl full ↦ rw full (λ q. cc, λ _. v')
            | inr room ↦ rw room (
                demote_oldest-Outcome s' v' new s.trusted refl
                  (room_after_drop now s.entries v.bounded_entries (ground arith)))
          ])
  ]
