-- ===== src/Throttle/Tests.antt =====
-- Runs of the throttle at concrete inputs, and its theorems applied to them.
use ferrum_foundry.Prelude.{
  ℕ, suc, ◌*◌, ◌≤◌, min, true, none, some, List, [], ◌∷◌, ◌≡◌, ◌≢◌, ◌↔◌, refl, arith, length, keep,
}
use ferrum_foundry.Throttle.{
  Options, Entry, AuthFailureThrottle, new_throttle, in_window, own, effective, is_stale, refresh,
  lockout_after, count, record_failure, locked_for, count_trusted, count_shared, count_new, promote,
  move_in, promoted_entry, record_success, make_trusted_room, first_stale, demote_oldest, with_room,
  drop_stale,
}
use ferrum_foundry.Throttle.Counting.{Counts, effective-record_failure}
use ferrum_foundry.Throttle.Runs.{
  Call, failed, signed_in, perform, run, run-new_throttle-IsValid, run-keeps_live,
}
use ferrum_foundry.Throttle.Invariant.{IsValid}
use ferrum_foundry.Throttle.Window.{entry_after, count_window}
use ferrum_foundry.Throttle.Lockouts.{lockout_escalates}
use ferrum_foundry.Prelude.Maps

throttle : Unit {0}
unfolding own effective is_stale refresh lockout_after count record_failure locked_for count_trusted
    count_shared count_new promote move_in promoted_entry record_success make_trusted_room
    first_stale demote_oldest with_room drop_stale perform run entry_after Maps.get Maps.put
    Maps.delete Maps.has Maps.str_dec
throttle = tt

-- Two failures in 100 ms lock an address for 50 ms, then 100, 150 and no longer.
abbrev options : Options
options = record {
  max_failures = 2;
  window_ms = 100;
  lockout_ms = 50;
  max_lockout_ms = 150;
  max_keys = 2;
  max_trusted_keys = 1;
}

abbrev calls : List Call
calls = failed "a" 10 ∷ failed "a" 20 ∷ failed "b" 30 ∷ signed_in "c" 40 40 ∷ failed "d" 45 ∷ []

after_calls :
    (locked_for options "a" 45 (run options calls new_throttle) ≡ 25)
    × (locked_for options "b" 45 (run options calls new_throttle) ≡ 0)
    × (length (run options calls new_throttle).entries ≡ 2)
    × (length (run options calls new_throttle).trusted ≡ 1)
unfolding throttle
after_calls = (refl, refl, refl, refl)

-- A full table of live entries sends newcomers to the overflow entry.
overflowing : (record_failure options "e" 50 (run options calls new_throttle)).1.overflow ≡ true
unfolding throttle
overflowing = refl

effective-record_failure_example :
    Counts options "e" 50
      (run options calls new_throttle)
      (effective "e" (run options calls new_throttle))
      (record_failure options "e" 50 (run options calls new_throttle))
effective-record_failure_example =
    effective-record_failure options "e" 50 (run options calls new_throttle) refl

run-new_throttle-IsValid_example : IsValid options (run options calls new_throttle)
run-new_throttle-IsValid_example = run-new_throttle-IsValid options (omega arith) calls

abbrev locked : AuthFailureThrottle
locked = run options (failed "a" 10 ∷ failed "a" 20 ∷ []) new_throttle

abbrev locked_entry : Entry
locked_entry = record { failures = []; locked_until = 70; lockouts = 1 }

abbrev others : List Call
others = failed "b" 30 ∷ signed_in "c" 40 40 ∷ failed "d" 45 ∷ signed_in "d" 46 46 ∷ []

run-keeps_live_example :
    (own "a" (run options others locked) ≡ some locked_entry)
    × (locked_for options "a" 60 (run options others locked) ≡ locked_for options "a" 60 locked)
unfolding throttle
run-keeps_live_example =
    run-keeps_live options "a" locked_entry 60 others locked (omega arith)
      (run-new_throttle-IsValid options (omega arith) (failed "a" 10 ∷ failed "a" 20 ∷ [])) refl
      (
        (Maps.str_ne "a" "b" refl, refl),
        (
          (Maps.str_ne "a" "c" refl, refl),
          ((Maps.str_ne "a" "d" refl, refl), ((Maps.str_ne "a" "d" refl, refl), tt)),
        ),
      )

count_window_example :
    let out = (count options (refresh options (entry_after options (20 ∷ [])) 110) 110).1 in
    (out.failures ≡ suc (length (keep (in_window options 110) (20 ∷ []))))
    × ((out.locked_for_ms ≢ none) ↔ (2 ≤ suc (length (keep (in_window options 110) (20 ∷ [])))))
unfolding throttle
count_window_example = count_window options (20 ∷ []) 110 (omega arith, tt) (refl, tt)

abbrev once : Entry
once = record { failures = 10 ∷ []; locked_until = 0; lockouts = 0 }

abbrev twice : Entry
twice = record { failures = 80 ∷ []; locked_until = 70; lockouts = 1 }

lockout_escalates_example :
    ((count options once 20).0.locked_until ≡ 70)
    × (50 ≤ 150)
    × ((count options once 20).0.failures ≡ [])
    × (◌≡◌ {A = ℕ} 100 (min (2 * 50) 150))
unfolding throttle
lockout_escalates_example =
    lockout_escalates options once twice 20 90 50 100 refl refl refl (omega arith)
