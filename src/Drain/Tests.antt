-- ===== src/Drain/Tests.antt =====
-- A slow upload that is drained, and one that finds the server closing.
use ferrum_foundry.Prelude.{false, List, [], ◌∷◌, ◌++◌, none, ◌≡◌, All}
use ferrum_foundry.Drain.{
  Config, Unread, Event, prefinish, finish, chunk, pre_close, run, idle_server,
}
use ferrum_foundry.Drain.Pools.{IsWell, run-IsWell}
use ferrum_foundry.Drain.Still.{IsStill}
use ferrum_foundry.Drain.Closing.{run-IsStill}

abbrev config : Config
config = record { max_active_uploads = 2; write_timeout = 60000 }

abbrev slow : Unread
slow = record {
  is_complete = false;
  is_signed_out = false;
  budget_ends_at = 60000;
  close_unread = false;
  declared_length = none;
}

abbrev arrivals : List Event
arrivals = prefinish 10 slow ∷ finish 0 ∷ chunk 0 20 1000 ∷ []

run-IsWell_example : IsWell config (run config idle_server arrivals)
run-IsWell_example = run-IsWell config arrivals

run-IsStill_example :
    let s = run config idle_server (arrivals ++ pre_close ∷ arrivals) in
    (s.signed_in_active ≡ 0) × (s.signed_out_active ≡ 0) × All IsStill s.uploads
run-IsStill_example = run-IsStill config arrivals arrivals
