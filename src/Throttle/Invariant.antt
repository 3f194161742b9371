-- ===== src/Throttle/Invariant.antt =====
-- The invariant of the throttle: an address stands in one table at most, the tables are bounded,
-- and every entry holds fewer failures than lock it.
use ferrum_foundry.Prelude.{
  ℕ, ◌<◌, ◌≤◌, String, none, some, ◌≡◌, refl, arith, length, ltb, Option-cases, Bool-cases, inl,
  inr, ltb→lt,
}
use ferrum_foundry.Throttle.{
  Options, Entry, AuthFailureThrottle, enabled, refresh, count, new_throttle, with_room,
  count_trusted, count_shared, count_new, record_failure,
}
use ferrum_foundry.Throttle.Tables.{
  with_room-absent, length-with_room-le, Distinct-with_room, AllValues-with_room,
}
use ferrum_foundry.Prelude.Apart.{
  Apart, absent_right, Apart-put_left, Apart-put_right, Apart-delete_right,
}
use ferrum_foundry.Prelude.Maps

module _ (o : Options) where
  abbrev pub IsSound : Entry → Type 0
  IsSound e = length e.failures < o.max_failures

  pub record IsValid (s : AuthFailureThrottle) : Type 0 where
    pub distinct_entries : Maps.Distinct s.entries
    pub distinct_trusted : Maps.Distinct s.trusted
    pub apart : Apart s.trusted s.entries
    pub bounded_entries : length s.entries ≤ o.max_keys
    pub bounded_trusted : length s.trusted ≤ o.max_trusted_keys
    pub sound_entries : Maps.AllValues IsSound s.entries
    pub sound_trusted : Maps.AllValues IsSound s.trusted
    pub sound_overflow : IsSound s.overflow

  module _ (on : 0 < o.max_failures) where
    pub new_throttle-IsValid : IsValid new_throttle
    unfolding Maps.get
    new_throttle-IsValid = record {
      distinct_entries = tt;
      distinct_trusted = tt;
      apart = λ k. inl refl;
      bounded_entries = omega arith;
      bounded_trusted = omega arith;
      sound_entries = tt;
      sound_trusted = tt;
      sound_overflow = on;
    }

    pub refresh-IsSound : (e : Entry) (now : ℕ) → IsSound e → IsSound (refresh o e now)
    unfolding refresh
    refresh-IsSound e now h = ground arith

    count-IsSound : (e : Entry) (now : ℕ) → IsSound (count o e now).0
    unfolding count
    count-IsSound e now = ground arith

    module _ (key : String) (now : ℕ) (s : AuthFailureThrottle) (v : IsValid s) where
      count_trusted-IsValid :
          (x : Entry) → Maps.get key s.trusted ≡ some x → IsValid (count_trusted o key now s x).0
      unfolding count_trusted
      count_trusted-IsValid x t =
          let e = (count o (refresh o x now) now).0 in
          record {
            distinct_entries = v.distinct_entries;
            distinct_trusted = Maps.Distinct-put key e s.trusted v.distinct_trusted;
            apart =
                Apart-put_left key e s.trusted s.entries v.apart
                  (absent_right s.trusted s.entries key x v.apart t);
            bounded_entries = v.bounded_entries;
            bounded_trusted =
                omega (arith, Maps.length-put_hit key e s.trusted x t, v.bounded_trusted);
            sound_entries = v.sound_entries;
            sound_trusted =
                Maps.AllValues-put IsSound key e s.trusted (count-IsSound (refresh o x now) now)
                  v.sound_trusted;
            sound_overflow = v.sound_overflow;
          }

      count_shared-IsValid :
          (x : Entry)
          → Maps.get key s.trusted ≡ none
          → Maps.get key s.entries ≡ some x
          → IsValid (count_shared o key now s x).0
      unfolding count_shared
      count_shared-IsValid x t k =
          let e = (count o (refresh o x now) now).0 in
          let rest = Maps.delete key s.entries in
          record {
            distinct_entries =
                Maps.Distinct-put key e rest
                  (Maps.Distinct-delete key s.entries v.distinct_entries);
            distinct_trusted = v.distinct_trusted;
            apart =
                Apart-put_right key e s.trusted rest
                  (Apart-delete_right key s.trusted s.entries v.apart) t;
            bounded_entries = omega (
              arith,
              Maps.length-put-le key e rest,
              Maps.length-delete-lt key s.entries x k,
              v.bounded_entries,
            );
            bounded_trusted = v.bounded_trusted;
            sound_entries =
                Maps.AllValues-put IsSound key e rest (count-IsSound (refresh o x now) now)
                  (Maps.AllValues-delete IsSound key s.entries v.sound_entries);
            sound_trusted = v.sound_trusted;
            sound_overflow = v.sound_overflow;
          }

      -- Dropping stale entries keeps the invariant.
      pub with_room-IsValid :
          (limit : ℕ) → IsValid (record s { entries = with_room o limit now s.entries })
      with_room-IsValid limit = record {
        distinct_entries = Distinct-with_room o now limit s.entries v.distinct_entries;
        distinct_trusted = v.distinct_trusted;
        apart = λ k. ground (arith, v.apart k, with_room-absent o now limit k s.entries);
        bounded_entries =
            omega (arith, length-with_room-le o now limit s.entries, v.bounded_entries);
        bounded_trusted = v.bounded_trusted;
        sound_entries = AllValues-with_room o now limit IsSound s.entries v.sound_entries;
        sound_trusted = v.sound_trusted;
        sound_overflow = v.sound_overflow;
      }

      count_new-IsValid :
          Maps.get key s.trusted ≡ none → IsValid (count_new o key now s s.entries).0
      unfolding count_new
      count_new-IsValid t =
          let live = refresh o s.overflow now in
          let e = (count o live now).0 in
          elim (Bool-cases (ltb (length s.entries) o.max_keys)) [
            | inr full ↦ rw full (record {
              distinct_entries = v.distinct_entries;
              distinct_trusted = v.distinct_trusted;
              apart = v.apart;
              bounded_entries = v.bounded_entries;
              bounded_trusted = v.bounded_trusted;
              sound_entries = v.sound_entries;
              sound_trusted = v.sound_trusted;
              sound_overflow = count-IsSound live now;
            })
            | inl room ↦ rw room (record {
              distinct_entries = Maps.Distinct-put key e s.entries v.distinct_entries;
              distinct_trusted = v.distinct_trusted;
              apart = Apart-put_right key e s.trusted s.entries v.apart t;
              bounded_entries = omega (arith, Maps.length-put-le key e s.entries, ltb→lt _ _ room);
              bounded_trusted = v.bounded_trusted;
              sound_entries =
                  Maps.AllValues-put IsSound key e s.entries (count-IsSound live now)
                    v.sound_entries;
              sound_trusted = v.sound_trusted;
              sound_overflow = refresh-IsSound s.overflow now v.sound_overflow;
            })
          ]

    count_new_room-IsValid :
        (key : String) (now limit : ℕ) (s : AuthFailureThrottle)
        → IsValid s
        → Maps.get key s.trusted ≡ none
        → IsValid (count_new o key now s (with_room o limit now s.entries)).0
    unfolding count_new
    count_new_room-IsValid key now limit s v t =
        count_new-IsValid key now (record s { entries = with_room o limit now s.entries })
          (with_room-IsValid key now s v limit) t

    -- A failure keeps the invariant.
    pub record_failure-IsValid :
        (key : String) (now : ℕ) (s : AuthFailureThrottle)
        → IsValid s
        → IsValid (record_failure o key now s).0
    unfolding record_failure
    record_failure-IsValid key now s v = elim (Bool-cases (enabled o)) [
      | inr off ↦ rw off v
      | inl yes_on ↦ elim (Option-cases (Maps.get key s.trusted)) [
        | inr (x, t) ↦ rw (yes_on, t) (count_trusted-IsValid key now s v x t)
        | inl t ↦ elim (Option-cases (Maps.get key s.entries)) [
          | inr (x, k) ↦ rw (yes_on, t, k) (count_shared-IsValid key now s v x t k)
          | inl k ↦ rw (yes_on, t, k) (count_new_room-IsValid key now o.max_keys s v t)
        ]
      ]
    ]
