-- ===== src/Tests/Histories.antt =====
-- A history of two values, read event by event and linearized; its counters and its guesses.
use li_mo.Base.{
  ℕ, ◌^◌, ◌≡◌, refl, false, true, none, some, List, [], ◌∷◌, arith, length, All, Pairs, ok,
}
use mathlib.Core.Bool.{xor}
use mathlib.Core.Option
use li_mo.Event.{Val, Event, EType}
use li_mo.Interval.Atomic.{closed, end_itv}
use li_mo.Monitor.{Monitor, start, add_event}
use li_mo.Monitor.Alternate.{alternates, add_events-alternates}
use li_mo.Monitor.Counters.{IsCounted, Steps, add_event-IsCounted, in_call}
use li_mo.Cover.History.{CoverHistory, CoverVal, cover_val, of_values, simple}
use li_mo.Cover.Events.{add_call}
use li_mo.Cover.Handlers.{cover_handlers, handle_call, handle_return, read_history, linearize}
use li_mo.Cover.Spec.{IsLinearizable}
use li_mo.Cover.Sound.{IsReadHistory}
use li_mo.Cover.Reading.{InTime, Then}
use li_mo.Cover.Linearize.{read_history-IsReadHistory}
use li_mo.Cover.Whole.{whole}
use li_mo.Cover.Complete.{linearize-IsLinearizable}
use li_mo.Cover.Lin.{step, drain, conclude, do_linearization}
use li_mo.Cover.Durable.{guesses, check_durable}
use li_mo.Cover.Guess.{guesses-length}
use li_mo.Cover.Agree.{check_durable-eq-do_linearization}

abbrev val : ℕ → Val
val n = record { thread = n; idx = 0 }

abbrev event : EType → ℕ → ℕ → Event
event t thread time = record { etype = t; thread = thread; val = none; timestamp = time }

abbrev with_val : EType → ℕ → ℕ → ℕ → Event
with_val t thread v time = record (event t thread time) { val = some (val v) }

-- The second push runs while the first returns; the pops are in the other order.
abbrev events : List Event
events =
    with_val EType.push 1 1 1
    ∷ with_val EType.push 2 2 2
    ∷ event EType.return 1 3
    ∷ event EType.return 2 4
    ∷ event EType.pop 1 5
    ∷ with_val EType.return 1 2 6
    ∷ event EType.pop 2 7
    ∷ with_val EType.return 2 1 8
    ∷ []

abbrev first_value : CoverVal
first_value = cover_val (val 1) (closed 1 3) (closed 7 8)

abbrev second_value : CoverVal
second_value = cover_val (val 2) (closed 2 4) (closed 5 6)

abbrev monitor : Monitor CoverHistory
monitor = record {
  last_evt = (1, EType.return) ∷ (2, EType.return) ∷ [];
  n_conc = 0;
  max_conc = 2;
  tot_conc = 6;
  n_ops = 8;
  state = of_values (first_value ∷ second_value ∷ []);
}

events_read : read_history events ≡ ok monitor
unfolding read_history add_call handle_call handle_return xor
events_read = refl

events_accepted : linearize 5 events ≡ some (ok tt)
unfolding linearize add_call handle_call handle_return xor simple step drain
events_accepted = refl

events-InTime : All InTime events
events-InTime = ground arith

events-Then : Pairs Then events
events-Then = ground arith

read_history-IsReadHistory_example : IsReadHistory monitor.state
read_history-IsReadHistory_example =
    read_history-IsReadHistory events monitor events-InTime events-Then events_read refl

-- The values of the history, the last push first.
abbrev values : List CoverVal
values = second_value ∷ first_value ∷ []

events-whole : whole [] [] events ≡ some values
unfolding whole xor
events-whole = refl

linearize-IsLinearizable_example : IsLinearizable values
linearize-IsLinearizable_example =
    linearize-IsLinearizable events values monitor 5 events-InTime events-Then events-whole
      events_read (omega arith) events_accepted

-- A pop that returns before the push of its value is called: the program accepts it.
abbrev popped_early : List Event
popped_early =
    event EType.pop 1 1
    ∷ with_val EType.return 1 1 2
    ∷ with_val EType.push 2 1 3
    ∷ event EType.return 2 4
    ∷ []

popped_early-whole : whole [] [] popped_early ≡ none
unfolding whole
popped_early-whole = refl

popped_early-linearize : linearize 5 popped_early ≡ some (ok tt)
unfolding linearize add_call handle_call handle_return xor simple step drain
popped_early-linearize = refl

abbrev calling : Monitor CoverHistory
calling = record (start (of_values [])) {
  last_evt = (1, EType.push) ∷ [];
  n_conc = 1;
  max_conc = 1;
  tot_conc = 1;
  n_ops = 1;
  state = record (of_values []) { open_calls = (1, with_val EType.push 1 1 1) ∷ [] };
}

abbrev returned_once : Monitor CoverHistory
returned_once = record calling {
  last_evt = (1, EType.return) ∷ [];
  n_conc = 0;
  n_ops = 2;
  state = of_values (cover_val (val 1) (closed 1 3) end_itv ∷ []);
}

return_read : add_event cover_handlers calling (event EType.return 1 3) ≡ ok returned_once
unfolding add_event handle_return
return_read = refl

calling-IsCounted : IsCounted calling
unfolding in_call
calling-IsCounted = record { key_order = (tt, tt); in_calls = omega arith; at_most = omega arith }

add_event-IsCounted_example :
    IsCounted returned_once × Steps (event EType.return 1 3) calling returned_once
add_event-IsCounted_example =
    add_event-IsCounted cover_handlers (event EType.return 1 3) calling returned_once
      calling-IsCounted return_read

add_events-alternates_example : alternates 1 false events ≡ true
add_events-alternates_example =
    add_events-alternates cover_handlers (of_values []) events monitor
      (unfold read_history in events_read) 1

-- Two calls of one thread do not take turns.
called_twice : alternates 1 false (with_val EType.push 1 1 1 ∷ event EType.pop 1 2 ∷ []) ≡ false
unfolding alternates
called_twice = refl

abbrev crashed : CoverHistory
crashed =
    of_values
      (record first_value { pop_crash = true } ∷ record second_value { push_crash = true } ∷ [])

abbrev crash_guesses : List CoverHistory
crash_guesses = elim (guesses crashed) [ ok hs ↦ hs | _ ↦ [] ]

guesses-length_example : length crash_guesses ≡ 2 ^ 2
unfolding guesses
guesses-length_example = guesses-length crashed crash_guesses (ground arith) refl

check_durable-eq-do_linearization_example :
    Option.map conclude (check_durable 5 monitor.state) ≡ do_linearization 5 monitor.state
check_durable-eq-do_linearization_example =
    check_durable-eq-do_linearization (first_value ∷ second_value ∷ []) 5 (ground arith)
      (ground arith) (refl, (refl, tt))
