-- ===== src/Throttle/Runs.antt =====
-- Sequences of calls of the throttle.
use ferrum_foundry.Prelude.{
  ℕ, ◌<◌, String, true, false, some, List, [], ◌∷◌, ◌≡◌, ◌≢◌, arith, if◌then◌else◌, Bool-cases, inl,
  inr, sym, ◌∙◌, ◌-◌, All,
}
use ferrum_foundry.Throttle.{
  Options, Entry, AuthFailureThrottle, enabled, is_stale, new_throttle, own, effective, locked_for,
  record_failure, note_authenticated, record_success,
}
use ferrum_foundry.Throttle.Isolation.{Owns, record_failure-Owns, promote-Owns}
use ferrum_foundry.Throttle.Invariant.{IsValid, new_throttle-IsValid, record_failure-IsValid}
use ferrum_foundry.Throttle.Promotion.{promote-IsValid, record_success-IsValid}
use ferrum_foundry.Prelude.Maps

-- A call with the address and the readings of the clock that it makes.
pub data Call : Type 0 where
  failed : String → ℕ → Call
  proved signed_in : String → ℕ → ℕ → Call

module _ (o : Options) where
  unfoldable pub perform : Call → AuthFailureThrottle → AuthFailureThrottle
  perform (failed key now) s = (record_failure o key now s).0
  perform (proved key room_now copy_now) s = note_authenticated o key room_now copy_now s
  perform (signed_in key room_now copy_now) s = record_success o key room_now copy_now s

  unfoldable pub run : List Call → AuthFailureThrottle → AuthFailureThrottle
  run [] s = s
  run (c ∷ cs) s = run cs (perform c s)

  module _ (on : 0 < o.max_failures) where
    perform-IsValid : (c : Call) (s : AuthFailureThrottle) → IsValid o s → IsValid o (perform c s)
    unfolding perform
    perform-IsValid (failed key now) s v = record_failure-IsValid o on key now s v
    perform-IsValid (proved key r t) s v = promote-IsValid o on key r t s v false
    perform-IsValid (signed_in key r t) s v = record_success-IsValid o on key r t s v

    run-IsValid : (cs : List Call) (s : AuthFailureThrottle) → IsValid o s → IsValid o (run cs s)
    unfolding run
    run-IsValid [] s v = v
    run-IsValid (c ∷ cs) s v = run-IsValid cs (perform c s) (perform-IsValid c s v)

    -- Whatever calls are made of a new throttle, no address stands in both tables or twice in
    -- one, both tables are within their bounds, and no entry, the overflow entry included, holds
    -- as many failures as lock it.
    pub run-new_throttle-IsValid : (cs : List Call) → IsValid o (run cs new_throttle)
    run-new_throttle-IsValid cs = run-IsValid cs new_throttle (new_throttle-IsValid o on)

  module _ (q : String) (e : Entry) where
    record_success-Owns :
        (key : String) (room_now copy_now : ℕ) (s : AuthFailureThrottle)
        → q ≢ key
        → Maps.Distinct s.trusted
        → is_stale o e room_now ≡ false
        → Owns o q e s
        → Owns o q e (record_success o key room_now copy_now s)
    unfolding record_success own
    record_success-Owns key room_now copy_now s other d live has = elim (Bool-cases (enabled o)) [
      | inr off ↦ rw off has
      | inl on ↦ rw on (
          promote-Owns o q e key room_now copy_now
            (record s { entries = Maps.delete key s.entries; trusted = Maps.delete key s.trusted })
            true other (Maps.Distinct-delete key s.trusted d) live
            (ground
              (arith, Maps.get-delete_ne key q s.entries, Maps.get-delete_ne key q s.trusted)))
    ]

    -- The call is none of the address's own attempts, and is made while its entry carries
    -- something.
    abbrev pub Spares : Call → Type 0
    Spares (failed key now) = (q ≢ key) × (is_stale o e now ≡ false)
    Spares (proved key room_now _) = (q ≢ key) × (is_stale o e room_now ≡ false)
    Spares (signed_in key room_now _) = (q ≢ key) × (is_stale o e room_now ≡ false)

    perform-Owns :
        (c : Call) (s : AuthFailureThrottle)
        → IsValid o s
        → Spares c
        → Owns o q e s
        → Owns o q e (perform c s)
    unfolding perform
    perform-Owns (failed key now) s v h has = record_failure-Owns o q e key h.0 now s has h.1
    perform-Owns (proved key r t) s v h has =
        promote-Owns o q e key r t s false h.0 v.distinct_trusted h.1 has
    perform-Owns (signed_in key r t) s v h has =
        record_success-Owns key r t s h.0 v.distinct_trusted h.1 has

    run-Owns :
        0 < o.max_failures
        → (cs : List Call) (s : AuthFailureThrottle) → IsValid o s
        → All Spares cs
        → Owns o q e s
        → Owns o q e (run cs s)
    unfolding run
    run-Owns on [] s v h has = has
    run-Owns on (c ∷ cs) s v (h, hs) has =
        run-Owns on cs (perform c s) (perform-IsValid on c s v) hs (perform-Owns c s v h has)

  locked_for-eq_of_Owns :
      (q : String) (e : Entry) (now : ℕ) (s : AuthFailureThrottle)
      → Owns o q e s
      → locked_for o q now s ≡ (if enabled o then e.locked_until - now else 0)
  unfolding locked_for effective
  locked_for-eq_of_Owns q e now s h = ground arith

  -- The entry of an address is kept as it is by every sequence of calls for other addresses,
  -- failures, proofs and sign-ins alike, that are made while the entry is not stale. So neither
  -- the capacity of the tables nor a flood of other addresses ends or shortens its lockout.
  pub run-keeps_live :
      (q : String) (e : Entry) (now : ℕ) (cs : List Call) (s : AuthFailureThrottle)
      → 0 < o.max_failures
      → IsValid o s
      → own q s ≡ some e
      → All (Spares q e) cs
      → (own q (run cs s) ≡ some e) × (locked_for o q now (run cs s) ≡ locked_for o q now s)
  run-keeps_live q e now cs s on v has h =
      let kept = run-Owns q e on cs s v h has in
      (
        kept,
        locked_for-eq_of_Owns q e now (run cs s) kept ∙ sym (locked_for-eq_of_Owns q e now s has),
      )
