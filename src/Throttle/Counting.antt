-- ===== src/Throttle/Counting.antt =====
-- Every failed attempt is counted, whatever table holds the address.
use ferrum_foundry.Prelude.{ℕ, String, true, none, List, ◌≡◌, Option-cases, inl, inr, arith, some}
use ferrum_foundry.Throttle.{
  Options, Entry, FailureOutcome, AuthFailureThrottle, effective, enabled, refresh, count,
  count_trusted, count_shared, count_new, record_failure, with_room,
}
use ferrum_foundry.Throttle.Tables.{with_room-absent}
use ferrum_foundry.Prelude.Maps

module _ (o : Options) (key : String) (now : ℕ) (s : AuthFailureThrottle) where
  -- What one failure makes of the entry that an address answers for.
  abbrev pub Counts : Entry → AuthFailureThrottle × FailureOutcome → Type 0
  Counts e r =
      let (e', out) = count o (refresh o e now) now in
      (effective key r.0 ≡ e')
      × (r.1.failures ≡ out.failures)
      × (r.1.locked_for_ms ≡ out.locked_for_ms)

  count_trusted-Counts : (e : Entry) → Counts e (count_trusted o key now s e)
  unfolding count_trusted effective
  count_trusted-Counts e =
      ground (arith, Maps.get-put_self key (count o (refresh o e now) now).0 s.trusted)

  count_shared-Counts :
      (e : Entry) → Maps.get key s.trusted ≡ none → Counts e (count_shared o key now s e)
  unfolding count_shared effective
  count_shared-Counts e h =
      ground
        (arith, Maps.get-put_self key (count o (refresh o e now) now).0 (Maps.delete key s.entries))

  count_new-Counts :
      (m : List (String × Entry))
      → Maps.get key s.trusted ≡ none
      → Maps.get key m ≡ none
      → Counts s.overflow (count_new o key now s m)
  unfolding count_new effective
  count_new-Counts m h k =
      ground (arith, Maps.get-put_self key (count o (refresh o s.overflow now) now).0 m)

  record_failure-trusted :
      (e : Entry)
      → enabled o ≡ true
      → Maps.get key s.trusted ≡ some e
      → (record_failure o key now s ≡ count_trusted o key now s e) × (effective key s ≡ e)
  unfolding record_failure effective
  record_failure-trusted e h t = (ground arith, ground arith)

  record_failure-shared :
      (e : Entry)
      → enabled o ≡ true
      → Maps.get key s.trusted ≡ none
      → Maps.get key s.entries ≡ some e
      → (record_failure o key now s ≡ count_shared o key now s e) × (effective key s ≡ e)
  unfolding record_failure effective
  record_failure-shared e h t k = (ground arith, ground arith)

  record_failure_new :
      enabled o ≡ true
      → Maps.get key s.trusted ≡ none
      → Maps.get key s.entries ≡ none
      → (record_failure o key now s ≡ count_new o key now s (with_room o o.max_keys now s.entries))
        × (effective key s ≡ s.overflow)
  unfolding record_failure effective
  record_failure_new h t k = (ground arith, ground arith)

  -- A failure is counted once, and by the rule for one entry, against the entry that the address
  -- answered for before: its own or, where no table holds it, the shared overflow entry.
  pub effective-record_failure :
      enabled o ≡ true → Counts (effective key s) (record_failure o key now s)
  effective-record_failure h = elim (Option-cases (Maps.get key s.trusted)) [
    | inr (e, mine) ↦
        let (same, old) = record_failure-trusted e h mine in rw (same, old) (count_trusted-Counts e)
    | inl new ↦ elim (Option-cases (Maps.get key s.entries)) [
      | inr (e, k) ↦
          let (same, old) = record_failure-shared e h new k in
          rw (same, old) (count_shared-Counts e new)
      | inl k ↦
          let (same, old) = record_failure_new h new k in
          rw (same, old)
            (count_new-Counts (with_room o o.max_keys now s.entries) new
              (with_room-absent o now o.max_keys key s.entries k))
    ]
  ]
