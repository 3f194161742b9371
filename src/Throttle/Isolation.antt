-- ===== src/Throttle/Isolation.antt =====
-- Live state is never lost to the capacity of a table, or to what other addresses do.
use ferrum_foundry.Prelude.{
  ℕ, ◌+◌, String, Bool, true, false, some, List, [], ◌∷◌, ◌≡◌, ◌≢◌, refl, arith, length, leb,
  if◌then◌else◌, Option-cases, Bool-cases, inl, inr, ap,
}
use ferrum_foundry.Throttle.{
  Options, Entry, AuthFailureThrottle, own, enabled, refresh, count, is_stale, with_room,
  first_stale, count_trusted, count_shared, count_new, record_failure, demote_oldest,
  make_trusted_room, move_in, promoted_entry, promote,
}
use ferrum_foundry.Throttle.Tables.{with_room-live, first_stale-is_stale}
use ferrum_foundry.Prelude.Maps

module _ (o : Options) (q : String) (e : Entry) where
  -- The address `q` has the entry `e` of its own.
  abbrev pub Owns : AuthFailureThrottle → Type 0
  Owns s = own q s ≡ some e

  module _ (key : String) (other : q ≢ key) (now : ℕ) (s : AuthFailureThrottle) (has : Owns s) where
    count_trusted-Owns : (x : Entry) → Owns (count_trusted o key now s x).0
    unfolding count_trusted own
    count_trusted-Owns x =
        ground (arith, Maps.get-put_ne key q (count o (refresh o x now) now).0 s.trusted)

    count_shared-Owns : (x : Entry) → Owns (count_shared o key now s x).0
    unfolding count_shared own
    count_shared-Owns x = ground (
      arith,
      Maps.get-put_ne key q (count o (refresh o x now) now).0 (Maps.delete key s.entries),
      Maps.get-delete_ne key q s.entries,
    )

    count_new-Owns :
        (live : is_stale o e now ≡ false)
        → Owns (count_new o key now s (with_room o o.max_keys now s.entries)).0
    unfolding count_new own
    count_new-Owns live = ground (
      arith,
      with_room-live o now o.max_keys q e s.entries,
      Maps.get-put_ne key q (count o (refresh o s.overflow now) now).0
          (with_room o o.max_keys now s.entries),
    )

    -- A failure of one address leaves the live entry of every other as it is.
    pub record_failure-Owns : is_stale o e now ≡ false → Owns (record_failure o key now s).0
    unfolding record_failure
    record_failure-Owns live = elim (Bool-cases (enabled o)) [
      | inr off ↦ rw off has
      | inl on ↦ elim (Option-cases (Maps.get key s.trusted)) [
        | inr (x, t) ↦ rw (on, t) (count_trusted-Owns x)
        | inl t ↦ elim (Option-cases (Maps.get key s.entries)) [
          | inr (x, k) ↦ rw (on, t, k) (count_shared-Owns x)
          | inl k ↦ rw (on, t, k) (count_new-Owns live)
        ]
      ]
    ]

  demote_oldest-Owns :
      (s : AuthFailureThrottle) (m : List (String × Entry))
      → s.trusted ≡ m
      → Owns s
      → Owns (demote_oldest o s m).0
  unfolding demote_oldest own Maps.get
  demote_oldest-Owns s [] h has = has
  demote_oldest-Owns s ((k, x) ∷ m) h has = ground (
    arith,
    ap (Maps.get q) h,
    Maps.str_dec k q,
    Maps.get-delete_self k s.trusted,
    Maps.get-delete_ne k q s.trusted,
    Maps.get-put_self k x s.entries,
    Maps.get-put_ne k q x s.entries,
  )

  module _ (key : String) (now : ℕ) (s : AuthFailureThrottle) (has : Owns s) where
    with_room-Owns :
        (limit : ℕ)
        → is_stale o e now ≡ false
        → Owns (record s { entries = with_room o limit now s.entries })
    unfolding own
    with_room-Owns limit live = ground (arith, with_room-live o now limit q e s.entries)

    delete_stale-Owns :
        (k : String) (x : Entry)
        → Maps.get k s.trusted ≡ some x
        → is_stale o x now ≡ true
        → is_stale o e now ≡ false
        → Owns (record s { trusted = Maps.delete k s.trusted })
    unfolding own
    delete_stale-Owns k x found stale live = elim (Maps.str_dec q k) [
      | yes p ↦ ground arith
      | no p ↦ ground (arith, Maps.get-delete_ne k q s.trusted)
    ]

    make_trusted_room-Owns :
        Maps.Distinct s.trusted → is_stale o e now ≡ false → Owns (make_trusted_room o key now s).0
    unfolding make_trusted_room
    make_trusted_room-Owns d live = elim (Option-cases (first_stale o now s.trusted)) [
      | inr (k, first) ↦
          let (x, found, stale) = first_stale-is_stale o now k s.trusted d first in
          rw (first, make_trusted_room) (delete_stale-Owns k x found stale live)
      | inl none_stale ↦
          rw (none_stale, make_trusted_room)
            (let limit : ℕ = o.max_keys + (if Maps.has key s.entries then 1 else 0) in
              let roomy : Owns (record s { entries = with_room o limit now s.entries }) =
                with_room-Owns limit live in
              elim (Bool-cases (leb limit (length (with_room o limit now s.entries)))) [
                | inl full ↦ rw full roomy
                | inr room ↦ rw room (
                    demote_oldest-Owns (record s { entries = with_room o limit now s.entries })
                      s.trusted refl roomy)
              ])
    ]

  move_in-Owns :
      (key : String) (clear : Bool) (now : ℕ) (s : AuthFailureThrottle)
      → q ≢ key
      → Owns s
      → Owns (move_in o key clear now s)
  unfolding move_in own
  move_in-Owns key clear now s other has = ground (
    arith,
    Maps.get-put_ne key q (promoted_entry o key clear now s).0 s.trusted,
    Maps.get-delete_ne key q s.entries,
  )

  touch-Owns :
      (key : String) (x : Entry) (s : AuthFailureThrottle)
      → q ≢ key
      → Owns s
      → Owns (record s { trusted = Maps.put key x (Maps.delete key s.trusted) })
  unfolding own
  touch-Owns key x s other has = ground (
    arith,
    Maps.get-put_ne key q x (Maps.delete key s.trusted),
    Maps.get-delete_ne key q s.trusted,
  )

  module _ (key : String) (room_now copy_now : ℕ) (s : AuthFailureThrottle) where
    move_in_freed-Owns :
        (clear : Bool) (r : AuthFailureThrottle × Bool)
        → q ≢ key
        → Owns r.0
        → Owns (if r.1 then move_in o key clear copy_now r.0 else r.0)
    move_in_freed-Owns clear r other has = elim (Bool-cases r.1) [
      | inl yes_room ↦ rw yes_room (move_in-Owns key clear copy_now r.0 other has)
      | inr no_room ↦ rw no_room has
    ]

    -- Another address that proves the secret takes no live entry away, though it may move one
    -- from the authenticated table to the shared one.
    pub promote-Owns :
        (clear : Bool)
        → q ≢ key
        → Maps.Distinct s.trusted
        → is_stale o e room_now ≡ false
        → Owns s
        → Owns (promote o key clear room_now copy_now s)
    unfolding promote
    promote-Owns clear other d live has = elim (Bool-cases (enabled o)) [
      | inr off ↦ rw off has
      | inl on ↦ elim (Option-cases (Maps.get key s.trusted)) [
        | inr (x, t) ↦ rw (on, t) (touch-Owns key x s other has)
        | inl t ↦ elim (Bool-cases (leb o.max_trusted_keys (length s.trusted))) [
          | inr room ↦ rw (on, t, room) (move_in-Owns key clear copy_now s other has)
          | inl full ↦
              rw (on, t, full)
                (move_in_freed-Owns clear (make_trusted_room o key room_now s) other
                  (make_trusted_room-Owns key room_now s has d live))
        ]
      ]
    ]
