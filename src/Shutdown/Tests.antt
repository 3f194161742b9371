-- ===== src/Shutdown/Tests.antt =====
-- A deadline that beats the drain, and the theorem applied to it.
use ferrum_foundry.Prelude.{List, [], ◌∷◌, ◌≡◌, refl}
use ferrum_foundry.Shutdown.{
  Event, signal, timer_fired, close_resolved, log_ignored, log_start, log_timeout, start_timer,
  close, exit, new_handler, handle, handle_all,
}
use ferrum_foundry.Shutdown.Once.{exits, closes, first_code, from_signal, drains, handle_all_once}

abbrev late_drain : List Event
late_drain = signal ∷ signal ∷ timer_fired ∷ close_resolved ∷ []

late_drain_effects :
    (handle_all late_drain new_handler).effects
    ≡ log_start ∷ start_timer ∷ close ∷ log_ignored ∷ log_timeout ∷ exit 1 ∷ []
unfolding handle_all handle
late_drain_effects = refl

handle_all_once_example :
    (exits (handle_all late_drain new_handler).effects ≡ first_code (from_signal late_drain))
    × (closes (handle_all late_drain new_handler).effects ≡ drains (from_signal late_drain))
handle_all_once_example = handle_all_once late_drain
