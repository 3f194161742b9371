-- ===== src/Shutdown.antt =====
-- server/shutdown.ts: the signal handler that bounds graceful shutdown. The handler's callbacks are
-- events; `close` and the timer answer only once they were started, which the first signal does.
pub mod Once
mod Tests
use ferrum_foundry.Prelude.{ℕ, Bool, true, false, not, ◌&&◌, List, [], ◌∷◌, ◌++◌, if◌then◌else◌}

-- What the handler does to the process around it, in order.
pub data Effect : Type 0 where
  log_ignored log_start log_timeout log_failed : Effect
  start_timer clear_timer close : Effect
  exit : ℕ → Effect

pub data Event : Type 0 where
  signal timer_fired close_resolved close_rejected : Event

pub record Handler : Type 0 where
  pub closing : Bool
  pub settled : Bool
  pub effects : List Effect

abbrev pub new_handler : Handler
new_handler = record { closing = false; settled = false; effects = [] }

abbrev emit : List Effect → Handler → Handler
emit es h = record h { effects = h.effects ++ es }

-- `finish(code, timer)`
unfoldable pub finish : ℕ → Handler → Handler
finish code h =
    if h.settled then h else emit (clear_timer ∷ exit code ∷ []) (record h { settled = true })

-- the callback of `setTimeout`
unfoldable pub on_timeout : Handler → Handler
on_timeout h =
    if h.settled then h else emit (log_timeout ∷ exit 1 ∷ []) (record h { settled = true })

-- the handler itself; `close` is called synchronously
unfoldable pub on_signal : Handler → Handler
on_signal h =
    if h.closing
    then emit (log_ignored ∷ []) h
    else emit (log_start ∷ start_timer ∷ close ∷ []) (record h { closing = true })

unfoldable pub handle : Event → Handler → Handler
unfolding finish on_timeout on_signal
handle signal h = on_signal h
handle timer_fired h = if h.closing then on_timeout h else h
handle close_resolved h = if h.closing then finish 0 h else h
handle close_rejected h = if h.closing then finish 1 (emit (log_failed ∷ []) h) else h

unfoldable pub handle_all : List Event → Handler → Handler
handle_all [] h = h
handle_all (e ∷ es) h = handle_all es (handle e h)
