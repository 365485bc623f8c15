-- ===== src/Cover/Linearize.antt =====
-- The whole run of `linearize`: a history of events in time order, with no value pushed twice, is
-- read into the state that `do_linearization` needs, and is linearizable where that accepts it.
use li_mo.Base.{
  ℕ, ◌≡◌, List, [], ◌∷◌, All, Pairs, nat_key, subst, went_through, ok_inj, no_result, ok,
}
use li_mo.Event.{Event}
use li_mo.Monitor.{Monitor, start, add_event, add_events}
use li_mo.Monitor.Dispatch.{Leads, add_event-Leads}
use li_mo.Cover.History.{CoverHistory, of_values}
use li_mo.Cover.Handlers.{cover_handlers, read_history, linearize}
use li_mo.Cover.Lin.{do_linearization}
use li_mo.Cover.Sound.{IsReadHistory}
use li_mo.Cover.Reading.{InTime, Then, IsReading}
use li_mo.Cover.Run.{handle_call-IsReading, handle_return-IsReading}

drop-IsReading :
    (h : CoverHistory) (e : Event) (es : List Event) → IsReading h (e ∷ es) → IsReading h es
drop-IsReading h e es g = record {
  current = record {
    ordered = g.current.ordered;
    read = g.current.read;
    unread = g.current.unread;
    ahead = g.current.ahead.1;
  };
  waiting = record {
    started = g.waiting.started;
    distinct = g.waiting.distinct;
    before = g.waiting.before.1;
  };
  in_time = g.in_time.1;
  in_order = g.in_order.1;
}

pub IsReading-Leads :
    (e : Event) (es : List Event)
    → Leads cover_handlers e (λ h. IsReading h (e ∷ es)) (λ h. IsReading h es)
IsReading-Leads e es = record {
  on_call = λ t h h' g r. handle_call-IsReading t h e es g h' r;
  on_return = λ t h h' g r. handle_return-IsReading t h e es g h' r;
  on_crash = λ h h' g r. absurd (no_result r);
  on_nothing = λ h g. drop-IsReading h e es g;
}

add_events-IsReading :
    (es : List Event) (m m' : Monitor CoverHistory)
    → IsReading m.state es
    → add_events cover_handlers m es ≡ ok m'
    → IsReading m'.state []
unfolding add_events
add_events-IsReading [] m m' g r = subst (λ z. IsReading z.state []) (ok_inj r) g
add_events-IsReading (e ∷ es) m m' g r =
    let (k, a, b) = went_through (add_event cover_handlers m e) _ m' r in
    add_events-IsReading es k m'
      (add_event-Leads cover_handlers e (λ h. IsReading h (e ∷ es)) (λ h. IsReading h es)
        (IsReading-Leads e es) m k g a)
      b

nothing_before {κ} : (es : List Event) → All (λ e. Unit {κ}) es
nothing_before [] = tt
nothing_before (e ∷ es) = (tt, nothing_before es)

pub fresh-IsReading :
    (es : List Event) → All InTime es → Pairs Then es → IsReading (of_values []) es
fresh-IsReading es t o = record {
  current = record { ordered = tt; read = tt; unread = tt; ahead = nothing_before es };
  waiting = record { started = tt; distinct = tt; before = nothing_before es };
  in_time = t;
  in_order = o;
}

-- If the monitor accepts every event of a history in time order, in which no value is pushed twice,
-- and no pop found the stack empty, then it holds what `do_linearization` needs.
pub read_history-IsReadHistory :
    (es : List Event) (m : Monitor CoverHistory)
    → All InTime es
    → Pairs Then es
    → read_history es ≡ ok m
    → m.state.empties ≡ []
    → IsReadHistory m.state
unfolding read_history
read_history-IsReadHistory es m t o r n =
    let g = add_events-IsReading es (start (of_values [])) m (fresh-IsReading es t o) r in
    record { ordered = g.current.ordered; read = g.current.read; no_empties = n }

pub linearizes :
    (fuel : ℕ) (es : List Event) (m : Monitor CoverHistory)
    → read_history es ≡ ok m
    → linearize fuel es ≡ do_linearization fuel m.state
unfolding linearize
linearizes fuel es m r = rw (r, linearize)
