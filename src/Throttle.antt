-- ===== src/Throttle.antt =====
-- server/auth-throttle.ts: the failed-authentication throttle. A method that changes the object
-- returns the new record; `now` is the reading of the clock that the method makes.
pub mod Lockouts
pub mod Tables
pub mod Counting
pub mod Isolation
pub mod Invariant
pub mod Rooms
pub mod Promotion
pub mod Runs
pub mod Window
mod Tests
use ferrum_foundry.Prelude.{
  ℕ, suc, ◌+◌, ◌-◌, ◌*◌, ◌^◌, min, String, Bool, true, false, not, ◌&&◌, Option, none, some, List,
  [], ◌∷◌, ◌++◌, ltb, leb, if◌then◌else◌, length, keep, last?,
}
use ferrum_foundry.Prelude.Maps

pub record Options : Type 0 where
  pub max_failures : ℕ
  pub window_ms : ℕ
  pub lockout_ms : ℕ
  pub max_lockout_ms : ℕ
  pub max_keys : ℕ
  pub max_trusted_keys : ℕ

pub record Entry : Type 0 where
  pub failures : List ℕ  -- oldest first
  pub locked_until : ℕ
  pub lockouts : ℕ

pub record FailureOutcome : Type 0 where
  pub failures : ℕ
  pub locked_for_ms : Option ℕ
  pub overflow : Bool

pub record AuthFailureThrottle : Type 0 where
  pub entries : List (String × Entry)
  pub trusted : List (String × Entry)
  pub overflow : Entry

abbrev pub new_entry : Entry
new_entry = record { failures = []; locked_until = 0; lockouts = 0 }

-- the constructor
abbrev pub new_throttle : AuthFailureThrottle
new_throttle = record { entries = []; trusted = []; overflow = new_entry }

-- `trusted.get(key) ?? entries.get(key)`
unfoldable pub own : String → AuthFailureThrottle → Option Entry
own key s = elim (Maps.get key s.trusted) [ some e ↦ some e | none ↦ Maps.get key s.entries ]

-- `… ?? overflow`
unfoldable pub effective : String → AuthFailureThrottle → Entry
unfolding own
effective key s = elim (own key s) [ some e ↦ e | none ↦ s.overflow ]

module _ (o : Options) where
  abbrev pub enabled : Bool
  enabled = ltb 0 o.max_failures

  -- `now - at < windowMs`, on numbers that may not be subtracted below 0
  abbrev pub in_window : ℕ → ℕ → Bool
  in_window now at = ltb now (at + o.window_ms)

  -- `last === undefined || now - last >= windowMs`
  abbrev pub quiet : ℕ → Option ℕ → Bool
  quiet now none = true
  quiet now (some at) = leb (at + o.window_ms) now

  unfoldable pub is_stale : Entry → ℕ → Bool
  is_stale e now =
      leb e.locked_until now
      && quiet now (last? e.failures)
      && leb (e.locked_until + o.max_lockout_ms) now

  unfoldable pub refresh : Entry → ℕ → Entry
  refresh e now = if is_stale e now then new_entry else e

  -- how long the lockout after `lockouts` earlier ones lasts
  unfoldable pub lockout_after : ℕ → ℕ
  lockout_after lockouts = min (o.lockout_ms * 2 ^ min lockouts 30) o.max_lockout_ms

  unfoldable pub count : Entry → ℕ → Entry × FailureOutcome
  count e now =
      let recent = keep (in_window now) e.failures ++ now ∷ [] in
      let lockout = lockout_after e.lockouts in
      if leb o.max_failures (length recent)
      then (
        record { failures = []; locked_until = now + lockout; lockouts = e.lockouts + 1 },
        record { failures = length recent; locked_for_ms = some lockout; overflow = false },
      )
      else (
        record e { failures = recent },
        record { failures = length recent; locked_for_ms = none; overflow = false },
      )

  unfoldable pub drop_stale : ℕ → List (String × Entry) → List (String × Entry)
  drop_stale now [] = []
  drop_stale now ((k, e) ∷ m) =
      if is_stale e now then drop_stale now m else (k, e) ∷ drop_stale now m

  -- `if (entries.size >= maxKeys) this.dropStale(now)`, for a table of at least `limit` entries
  unfoldable pub with_room : ℕ → ℕ → List (String × Entry) → List (String × Entry)
  with_room limit now m = if leb limit (length m) then drop_stale now m else m

  module _ (key : String) (now : ℕ) (s : AuthFailureThrottle) where
    -- `this.count(this.refresh(trusted, now), now)`, in place
    unfoldable pub count_trusted : Entry → AuthFailureThrottle × FailureOutcome
    count_trusted e =
        let (e', out) = count (refresh e now) now in
        (record s { trusted = Maps.put key e' s.trusted }, out)

    unfoldable pub count_shared : Entry → AuthFailureThrottle × FailureOutcome
    count_shared e =
        let (e', out) = count (refresh e now) now in
        (record s { entries = Maps.put key e' (Maps.delete key s.entries) }, out)

    -- `entries` is the shared table after `dropStale`, where that ran
    unfoldable pub count_new : List (String × Entry) → AuthFailureThrottle × FailureOutcome
    count_new entries =
        let live = refresh s.overflow now in
        let (e, out) = count live now in
        if ltb (length entries) o.max_keys
        then (record s { entries = Maps.put key e entries; overflow = live }, out)
        else (record s { entries = entries; overflow = e }, record out { overflow = true })

    unfoldable pub record_failure : AuthFailureThrottle × FailureOutcome
    record_failure =
        if enabled
        then elim (Maps.get key s.trusted) [
          | some e ↦ count_trusted e
          | none ↦ elim (Maps.get key s.entries) [
            | some e ↦ count_shared e
            | none ↦ count_new (with_room o.max_keys now s.entries)
          ]
        ]
        else (s, record { failures = 0; locked_for_ms = none; overflow = false })

  -- `-` stops at 0, as `Math.max(0, …)` does
  unfoldable pub locked_for : String → ℕ → AuthFailureThrottle → ℕ
  locked_for key now s = if enabled then (effective key s).locked_until - now else 0

  unfoldable pub first_stale : ℕ → List (String × Entry) → Option String
  first_stale now [] = none
  first_stale now ((k, e) ∷ m) = if is_stale e now then some k else first_stale now m

  -- the least recently authenticated entry moves into the shared table
  unfoldable pub demote_oldest :
      AuthFailureThrottle → List (String × Entry) → AuthFailureThrottle × Bool
  demote_oldest s [] = (s, false)
  demote_oldest s ((k, e) ∷ m) =
      (record s { trusted = Maps.delete k s.trusted; entries = Maps.put k e s.entries }, true)

  -- `size - freed >= maxKeys` is written without the subtraction
  unfoldable pub make_trusted_room : String → ℕ → AuthFailureThrottle → AuthFailureThrottle × Bool
  make_trusted_room newcomer now s = elim (first_stale now s.trusted) [
    | some k ↦ (record s { trusted = Maps.delete k s.trusted }, true)
    | none ↦
        let freed : ℕ = if Maps.has newcomer s.entries then 1 else 0 in
        let entries = with_room (o.max_keys + freed) now s.entries in
        let s' = record s { entries = entries } in
        if leb (o.max_keys + freed) (length entries)
        then (s', false)
        else demote_oldest s' s.trusted
  ]

  -- `clearFailures ? newEntry() : (entries.get(key) ?? copyOfOverflow(now))`; the copy also
  -- refreshes the overflow entry
  unfoldable pub promoted_entry : String → Bool → ℕ → AuthFailureThrottle → Entry × Entry
  promoted_entry key true now s = (new_entry, s.overflow)
  promoted_entry key false now s = elim (Maps.get key s.entries) [
    | some e ↦ (e, s.overflow)
    | none ↦ (refresh s.overflow now, refresh s.overflow now)
  ]

  unfoldable pub move_in : String → Bool → ℕ → AuthFailureThrottle → AuthFailureThrottle
  move_in key clear now s =
      let (e, overflow) = promoted_entry key clear now s in
      record {
        entries = Maps.delete key s.entries;
        trusted = Maps.put key e s.trusted;
        overflow = overflow;
      }

  -- `room_now` and `copy_now` are the two readings of the clock
  unfoldable pub promote : String → Bool → ℕ → ℕ → AuthFailureThrottle → AuthFailureThrottle
  promote key clear room_now copy_now s =
      if enabled
      then elim (Maps.get key s.trusted) [
        | some e ↦ record s { trusted = Maps.put key e (Maps.delete key s.trusted) }
        | none ↦
            if leb o.max_trusted_keys (length s.trusted)
            then (let (s', freed) = make_trusted_room key room_now s in
                if freed then move_in key clear copy_now s' else s')
            else move_in key clear copy_now s
      ]
      else s

  abbrev pub note_authenticated : String → ℕ → ℕ → AuthFailureThrottle → AuthFailureThrottle
  note_authenticated key = promote key false

  unfoldable pub record_success : String → ℕ → ℕ → AuthFailureThrottle → AuthFailureThrottle
  record_success key room_now copy_now s =
      if enabled
      then promote key true room_now copy_now
          (record s { entries = Maps.delete key s.entries; trusted = Maps.delete key s.trusted })
      else s
