-- ===== src/Throttle/Lockouts.antt =====
-- How long the lockouts of one entry last.
use native.Mathlib.Nat.{pow-succ', mul_left_comm}
use native.Mathlib.Numerals.{add-one}
use ferrum_foundry.Prelude.{ℕ, ◌+◌, ◌*◌, ◌^◌, ◌<◌, ◌≤◌, min, some, [], ◌≡◌, arith, ap, ◌∙◌}
use ferrum_foundry.Throttle.{Options, Entry, lockout_after, count}

pow_step : (a l : ℕ) → a * 2 ^ (l + 1) ≡ 2 * (a * 2 ^ l)
pow_step a l = rw (add-one, pow-succ', mul_left_comm)

module _ (o : Options) where
  count-locks :
      (e : Entry) (now n : ℕ)
      → (count o e now).1.locked_for_ms ≡ some n
      → (n ≡ lockout_after o e.lockouts)
        × ((count o e now).0
            ≡ record { failures = []; locked_until = now + n; lockouts = e.lockouts + 1 })
  unfolding count
  count-locks e now n h = ground arith

  lockout_after-le : (l : ℕ) → lockout_after o l ≤ o.max_lockout_ms
  unfolding lockout_after
  lockout_after-le l = omega arith

  lockout_after_double :
      (l : ℕ) → l < 30 → lockout_after o (l + 1) ≡ min (2 * lockout_after o l) o.max_lockout_ms
  unfolding lockout_after
  lockout_after_double l h =
      let here : min l 30 ≡ l = omega arith in
      let next : min (l + 1) 30 ≡ l + 1 = omega arith in rw (here, next, pow_step) (omega arith)

  -- A lockout ends at the time of the failure plus its length, which never passes the ceiling, and
  -- starts the window afresh. The next lockout of the entry, whenever it comes before the
  -- escalation decays, lasts twice as long, up to the ceiling; so for thirty lockouts.
  pub lockout_escalates :
      (e e' : Entry) (now now' n n' : ℕ)
      → (count o e now).1.locked_for_ms ≡ some n
      → e'.lockouts ≡ (count o e now).0.lockouts
      → (count o e' now').1.locked_for_ms ≡ some n'
      → e.lockouts < 30
      → ((count o e now).0.locked_until ≡ now + n)
        × (n ≤ o.max_lockout_ms)
        × ((count o e now).0.failures ≡ [])
        × (n' ≡ min (2 * n) o.max_lockout_ms)
  lockout_escalates e e' now now' n n' h same h' few =
      let (len, after) = count-locks e now n h in
      let (len', _) = count-locks e' now' n' h' in
      let level : e'.lockouts ≡ e.lockouts + 1 = same ∙ ap (λ (x : Entry). x.lockouts) after in
      (
        ap (λ (x : Entry). x.locked_until) after,
        omega (arith, len, lockout_after-le e.lockouts),
        ap (λ (x : Entry). x.failures) after,
        len' ∙ rw (level, len) (lockout_after_double e.lockouts few),
      )
