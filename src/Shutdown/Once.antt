-- ===== src/Shutdown/Once.antt =====
-- One drain and at most one exit, whatever the order of the events.
use ferrum_foundry.Prelude.{ℕ, Bool, true, false, List, [], ◌∷◌, ◌++◌, ◌≡◌, refl, arith, ap}
use mathlib.Core.List.{append_assoc, append-nil}
use ferrum_foundry.Shutdown.{
  Effect, log_ignored, log_timeout, log_failed, clear_timer, close, exit, Event, signal,
  timer_fired, close_resolved, close_rejected, Handler, new_handler, handle, handle_all,
}

-- The exit codes and the drains among the effects.
abbrev pub exits : List Effect → List ℕ
exits [] = []
exits (exit code ∷ es) = code ∷ exits es
exits (_ ∷ es) = exits es

abbrev pub closes : List Effect → List Effect
closes [] = []
closes (close ∷ es) = close ∷ closes es
closes (_ ∷ es) = closes es

-- The exit code that an event asks for.
abbrev pub code_of : Event → List ℕ
code_of signal = []
code_of timer_fired = 1 ∷ []
code_of close_resolved = 0 ∷ []
code_of close_rejected = 1 ∷ []

-- The first answer decides the code.
abbrev pub first_code : List Event → List ℕ
first_code [] = []
first_code (signal ∷ es) = first_code es
first_code (e ∷ es) = code_of e

-- What is before the first signal has no effect.
abbrev pub from_signal : List Event → List Event
from_signal [] = []
from_signal (signal ∷ es) = signal ∷ es
from_signal (_ ∷ es) = from_signal es

abbrev pub drains : List Event → List Effect
drains [] = []
drains (e ∷ es) = close ∷ []

exits-append : (es fs : List Effect) → exits (es ++ fs) ≡ exits es ++ exits fs
exits-append [] fs = refl
exits-append (exit code ∷ es) fs = ap (◌∷◌ code) (exits-append es fs)
exits-append (_ ∷ es) fs = exits-append es fs

closes-append : (es fs : List Effect) → closes (es ++ fs) ≡ closes es ++ closes fs
closes-append [] fs = refl
closes-append (close ∷ es) fs = ap (◌∷◌ close) (closes-append es fs)
closes-append (_ ∷ es) fs = closes-append es fs

-- What a state has done: its flags, and the codes and drains among its effects.
record Did (c s : Bool) (ks : List ℕ) (ds : List Effect) (h : Handler) : Type 0 where
  closing : h.closing ≡ c
  settled : h.settled ≡ s
  codes : exits h.effects ≡ ks
  drained : closes h.effects ≡ ds

module _ (h : Handler) (codes : List ℕ) (drained : List Effect) where
  -- Effects that neither exit nor drain.
  abbrev After : List Effect → Type 0
  After es =
      (exits (h.effects ++ es) ≡ exits h.effects ++ exits es)
      × (closes (h.effects ++ es) ≡ closes h.effects ++ closes es)

  appended : (es : List Effect) → After es
  appended es = (exits-append h.effects es, closes-append h.effects es)

  settled_step :
      (e : Event) → Did true true codes drained h → Did true true codes drained (handle e h)
  unfolding handle
  settled_step signal d =
      ground (arith, appended (log_ignored ∷ []), append-nil codes, append-nil drained)
  settled_step timer_fired d = ground arith
  settled_step close_resolved d = ground arith
  settled_step close_rejected d =
      ground (arith, appended (log_failed ∷ []), append-nil codes, append-nil drained)

  repeated_signal : Did true false codes drained h → Did true false codes drained (handle signal h)
  unfolding handle
  repeated_signal d =
      ground (arith, appended (log_ignored ∷ []), append-nil codes, append-nil drained)

  timeout_step : Did true false [] drained h → Did true true (1 ∷ []) drained (handle timer_fired h)
  unfolding handle
  timeout_step d = ground (arith, appended (log_timeout ∷ exit 1 ∷ []), append-nil drained)

  resolved_step :
      Did true false [] drained h → Did true true (0 ∷ []) drained (handle close_resolved h)
  unfolding handle
  resolved_step d = ground (arith, appended (clear_timer ∷ exit 0 ∷ []), append-nil drained)

  rejected_step :
      Did true false [] drained h → Did true true (1 ∷ []) drained (handle close_rejected h)
  unfolding handle
  rejected_step d = ground (
    arith,
    append_assoc h.effects (log_failed ∷ []) (clear_timer ∷ exit 1 ∷ []),
    appended (log_failed ∷ clear_timer ∷ exit 1 ∷ []),
    append-nil drained,
  )

settled_stays :
    (es : List Event) (h : Handler) (codes : List ℕ) (drained : List Effect)
    → Did true true codes drained h
    → Did true true codes drained (handle_all es h)
unfolding handle_all
settled_stays [] h codes drained d = d
settled_stays (e ∷ es) h codes drained d =
    settled_stays es (handle e h) codes drained (settled_step h codes drained e d)

-- Between the first signal and the first answer.
closing_run :
    (es : List Event) (h : Handler) (drained : List Effect)
    → Did true false [] drained h
    → (exits (handle_all es h).effects ≡ first_code es)
      × (closes (handle_all es h).effects ≡ drained)
unfolding handle_all
closing_run [] h drained d = (d.codes, d.drained)
closing_run (signal ∷ es) h drained d =
    closing_run es (handle signal h) drained (repeated_signal h [] drained d)
closing_run (timer_fired ∷ es) h drained d =
    let d' =
      settled_stays es (handle timer_fired h) (1 ∷ []) drained (timeout_step h [] drained d) in
    (d'.codes, d'.drained)
closing_run (close_resolved ∷ es) h drained d =
    let d' =
      settled_stays es (handle close_resolved h) (0 ∷ []) drained (resolved_step h [] drained d) in
    (d'.codes, d'.drained)
closing_run (close_rejected ∷ es) h drained d =
    let d' =
      settled_stays es (handle close_rejected h) (1 ∷ []) drained (rejected_step h [] drained d) in
    (d'.codes, d'.drained)

started : Did true false [] (close ∷ []) (handle signal new_handler)
unfolding handle
started = record { closing = refl; settled = refl; codes = refl; drained = refl }

-- Whatever the events and their order, repeated signals among them: the drain is started once, by
-- the first signal, and the process exits once, with the code of the first answer after it, 0 for a
-- drain that finished and 1 for the deadline or a failure. With no signal neither happens, and
-- with no answer there is no exit.
pub handle_all_once :
    (es : List Event)
    → (exits (handle_all es new_handler).effects ≡ first_code (from_signal es))
      × (closes (handle_all es new_handler).effects ≡ drains (from_signal es))
unfolding handle_all handle
handle_all_once [] = (refl, refl)
handle_all_once (signal ∷ es) = closing_run es (handle signal new_handler) (close ∷ []) started
handle_all_once (timer_fired ∷ es) = handle_all_once es
handle_all_once (close_resolved ∷ es) = handle_all_once es
handle_all_once (close_rejected ∷ es) = handle_all_once es
