-- ===== src/Throttle/Promotion.antt =====
-- Promotion to the authenticated table keeps the invariant.
use ferrum_foundry.Prelude.{
  ℕ, ◌<◌, String, Bool, true, some, ◌≡◌, arith, length, leb, if◌then◌else◌, Option-cases,
  Bool-cases, inl, inr,
}
use ferrum_foundry.Prelude.Apart.{
  absent_right, Apart-put_left, Apart-delete_left, Apart-delete_right,
}
use ferrum_foundry.Throttle.{
  Options, Entry, AuthFailureThrottle, enabled, make_trusted_room, move_in, promote, record_success,
}
use ferrum_foundry.Throttle.Invariant.{IsSound, IsValid}
use ferrum_foundry.Throttle.Rooms.{
  move_in-IsValid, Outcome, make_trusted_room-Outcome, IsValid-HasRoom,
}
use ferrum_foundry.Prelude.Maps

module _ (o : Options) (on : 0 < o.max_failures) (key : String) where
  move_in_freed-IsValid :
      (clear : Bool) (now : ℕ) (r : AuthFailureThrottle × Bool)
      → Outcome o on key r
      → IsValid o (if r.1 then move_in o key clear now r.0 else r.0)
  move_in_freed-IsValid clear now r h = elim (Bool-cases r.1) [
    | inl freed ↦ rw freed (move_in-IsValid o on key clear now r.0 (h.0 freed))
    | inr kept ↦ rw kept (h.1 kept)
  ]

  module _ (room_now copy_now : ℕ) (s : AuthFailureThrottle) (v : IsValid o s) where
    touch-IsValid :
        (x : Entry)
        → Maps.get key s.trusted ≡ some x
        → IsValid o (record s { trusted = Maps.put key x (Maps.delete key s.trusted) })
    touch-IsValid x t =
        let rest = Maps.delete key s.trusted in
        record {
          distinct_entries = v.distinct_entries;
          distinct_trusted =
              Maps.Distinct-put key x rest (Maps.Distinct-delete key s.trusted v.distinct_trusted);
          apart =
              Apart-put_left key x rest s.entries
                (Apart-delete_left key s.trusted s.entries v.apart)
                (absent_right s.trusted s.entries key x v.apart t);
          bounded_entries = v.bounded_entries;
          bounded_trusted = omega (
            arith,
            Maps.length-put-le key x rest,
            Maps.length-delete-lt key s.trusted x t,
            v.bounded_trusted,
          );
          sound_entries = v.sound_entries;
          sound_trusted =
              Maps.AllValues-put (IsSound o) key x rest
                (Maps.AllValues-get (IsSound o) key s.trusted v.sound_trusted t)
                (Maps.AllValues-delete (IsSound o) key s.trusted v.sound_trusted);
          sound_overflow = v.sound_overflow;
        }

    -- Remembering that an address proved the secret keeps the invariant.
    pub promote-IsValid : (clear : Bool) → IsValid o (promote o key clear room_now copy_now s)
    unfolding promote
    promote-IsValid clear = elim (Bool-cases (enabled o)) [
      | inr off ↦ rw off v
      | inl yes_on ↦ elim (Option-cases (Maps.get key s.trusted)) [
        | inr (x, t) ↦ rw (yes_on, t) (touch-IsValid x t)
        | inl t ↦ elim (Bool-cases (leb o.max_trusted_keys (length s.trusted))) [
          | inr room ↦
              rw (yes_on, t, room)
                (move_in-IsValid o on key clear copy_now s
                  (IsValid-HasRoom o on key s v (ground arith)))
          | inl full ↦
              rw (yes_on, t, full)
                (move_in_freed-IsValid clear copy_now (make_trusted_room o key room_now s)
                  (make_trusted_room-Outcome o on key room_now s v t))
        ]
      ]
    ]

  forgotten-IsValid :
      (s : AuthFailureThrottle)
      → IsValid o s
      → IsValid o
          (record s { entries = Maps.delete key s.entries; trusted = Maps.delete key s.trusted })
  forgotten-IsValid s v = record {
    distinct_entries = Maps.Distinct-delete key s.entries v.distinct_entries;
    distinct_trusted = Maps.Distinct-delete key s.trusted v.distinct_trusted;
    apart =
        Apart-delete_left key s.trusted (Maps.delete key s.entries)
          (Apart-delete_right key s.trusted s.entries v.apart);
    bounded_entries = omega (arith, Maps.length-delete-le key s.entries, v.bounded_entries);
    bounded_trusted = omega (arith, Maps.length-delete-le key s.trusted, v.bounded_trusted);
    sound_entries = Maps.AllValues-delete (IsSound o) key s.entries v.sound_entries;
    sound_trusted = Maps.AllValues-delete (IsSound o) key s.trusted v.sound_trusted;
    sound_overflow = v.sound_overflow;
  }

  pub record_success-IsValid :
      (room_now copy_now : ℕ) (s : AuthFailureThrottle)
      → IsValid o s
      → IsValid o (record_success o key room_now copy_now s)
  unfolding record_success
  record_success-IsValid room_now copy_now s v = elim (Bool-cases (enabled o)) [
    | inr off ↦ rw off v
    | inl yes_on ↦ rw yes_on (
        promote-IsValid room_now copy_now
          (record s { entries = Maps.delete key s.entries; trusted = Maps.delete key s.trusted })
          (forgotten-IsValid s v) true)
  ]
