-- ===== src/Cover/Handlers.antt =====
-- The handlers of `CoverMonitor` (include/monitor/covermonitor.h, monitor/src/covermonitor.cpp), and
-- what the program `linearize` does with a history: read every event, then linearize.
use li_mo.Base.{ℕ, false, Option, some, List, [], Result, ok, fail, std_error}
use li_mo.Event.{EType, Event}
use li_mo.Monitor.{Handlers, Monitor, start, add_events}
use li_mo.Cover.History.{CoverHistory, of_values}
use li_mo.Cover.Events.{add_call, add_ret}
use li_mo.Cover.Lin.{do_linearization}

-- Calls and returns of push and pop; every other handler is that of the base class, which throws.
unfoldable pub handle_call : EType → CoverHistory → Event → Result CoverHistory
unfolding add_call
handle_call t h e = elim t [
  | EType.push ↦ ok (add_call h e)
  | EType.pop ↦ ok (add_call h e)
  | _ ↦ fail std_error
]

unfoldable pub handle_return : EType → CoverHistory → Event → Result CoverHistory
unfolding add_ret
handle_return t h e = elim t [
  | EType.push ↦ add_ret h e false
  | EType.pop ↦ add_ret h e false
  | _ ↦ fail std_error
]

abbrev pub cover_handlers : Handlers CoverHistory
cover_handlers = record {
  on_call = handle_call;
  on_return = handle_return;
  on_crash = λ h e. fail std_error;
}

unfoldable pub read_history : List Event → Result (Monitor CoverHistory)
unfolding add_events
read_history es = add_events cover_handlers (start (of_values [])) es

-- The body of `main` behind the reading of the file.
unfoldable pub linearize : ℕ → List Event → Option (Result (Unit {0}))
unfolding read_history do_linearization
linearize fuel es = elim (read_history es) [
  | fail cause ↦ some (fail cause)
  | ok m ↦ do_linearization fuel m.state
]
