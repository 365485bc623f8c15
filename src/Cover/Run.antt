-- ===== src/Cover/Run.antt =====
-- The handlers of `CoverMonitor` keep what holds while a history is read.
use li_mo.Base.{
  ℕ, ◌<◌, ◌≡◌, refl, sym, ◌∙◌, Bool, false, none, some, List, ◌∷◌, arith, All, All-mono, All-zip,
  Option-cases, inl, inr, find, remove, assign, nat_key, subst, Result, ok_inj, no_result, ok, fail,
  violation, or_else, ◌>>=◌,
}
use li_mo.Event.{Event, EType}
use li_mo.Interval.Atomic.{closed}
use li_mo.Cover.History.{CoverHistory}
use li_mo.Cover.Events.{add_call, ret_push, ret_pop, pop_value, add_ret}
use li_mo.Cover.Handlers.{handle_call, handle_return}
use li_mo.Cover.Calls.{All-assign, All-remove, Pairs-assign, Pairs-remove}
use li_mo.Cover.Reading.{pushes, InTime, Then, Differ, Differ-symm, IsWaiting, IsReading}
use li_mo.Cover.Read.{Returned, unchanged-Returned, ret_push-Returned, pop_value-Returned}

-- The calls that wait for the event are fewer, and those after it wait on.
remove-IsWaiting :
    (calls : List (ℕ × Event)) (k : ℕ) (e : Event) (es : List Event)
    → IsWaiting calls (e ∷ es)
    → IsWaiting (remove k calls) es
remove-IsWaiting calls k e es o = record {
  started = All-remove (λ c. 0 < c.timestamp) k calls o.started;
  distinct = Pairs-remove Differ Differ-symm k calls o.distinct;
  before = All-mono es (λ g h. All-remove (λ c. Then c g) k calls h) o.before.1;
}

assign-IsWaiting :
    (calls : List (ℕ × Event)) (e : Event) (es : List Event)
    → InTime e
    → All (Then e) es
    → IsWaiting calls (e ∷ es)
    → IsWaiting (assign e.thread e calls) es
assign-IsWaiting calls e es i t o = record {
  started = All-assign (λ c. 0 < c.timestamp) e.thread e calls i.0 o.started;
  distinct =
      Pairs-assign Differ Differ-symm e.thread e calls (All-mono calls differ o.before.0)
        o.distinct;
  before = All-zip es (λ g h l. All-assign (λ c. Then c g) e.thread e calls h l) t o.before.1;
}
  where
    differ : (c : ℕ × Event) → Then c.1 e → Differ e c.1
    differ c h = ground arith

-- A call is entered among the open ones.
add_call-IsReading :
    (h : CoverHistory) (e : Event) (es : List Event)
    → IsReading h (e ∷ es)
    → IsReading (add_call h e) es
unfolding add_call
add_call-IsReading h e es g = record {
  current = record {
    ordered = g.current.ordered;
    read = g.current.read;
    unread =
        All-assign (λ c. All (λ w. pushes c w.val ≡ false) h.values) e.thread e h.open_calls
          (All-mono h.values (λ w l. l.1) g.current.ahead.0) g.current.unread;
    ahead = g.current.ahead.1;
  };
  waiting = assign-IsWaiting h.open_calls e es g.in_time.0 g.in_order.0 g.waiting;
  in_time = g.in_time.1;
  in_order = g.in_order.1;
}

module _ (h : CoverHistory) (e : Event) (es : List Event) (g : IsReading h (e ∷ es))
    (b : Bool) where
  abbrev close : CoverHistory → CoverHistory
  close h' = record h' { open_calls = remove e.thread h'.open_calls }

  close-IsReading :
      (c : Event) (f : find e.thread h.open_calls ≡ some c) (h' : CoverHistory)
      → Returned h c e es g f h'
      → IsReading (close h') es
  unfolding Returned
  close-IsReading c f h' (p, v) = record {
    current = rw p v;
    waiting = rw p (remove-IsWaiting h.open_calls e.thread e es g.waiting);
    in_time = g.in_time.1;
    in_order = g.in_order.1;
  }

  -- What the handler of the call's type makes of the history.
  abbrev by_call : EType → Event → Result CoverHistory
  by_call t c = elim t [
    | EType.push ↦ ret_push h c (closed c.timestamp e.timestamp)
    | EType.pop ↦ ret_pop h c e (closed c.timestamp e.timestamp) b
    | _ ↦ ok h
  ]

  by_call-Returned :
      (c : Event) (f : find e.thread h.open_calls ≡ some c) (t : EType)
      → c.etype ≡ t
      → (h' : CoverHistory) → by_call t c ≡ ok h'
      → Returned h c e es g f h'
  by_call-Returned c f EType.push q h' r = ret_push-Returned h c e es g f c.val refl q h' r
  by_call-Returned c f EType.pop q h' r =
      pop_value-Returned h c e es g f b (or_else e.val c.val) h' (popped r)
    where
      popped :
          by_call EType.pop c ≡ ok h'
          → pop_value (or_else e.val c.val) h e (closed c.timestamp e.timestamp) b ≡ ok h'
      popped s = unfold ret_pop in s
  by_call-Returned c f _ q h' r =
      subst (Returned h c e es g f) (ok_inj r) (unchanged-Returned h c e es g f h refl refl)

  add_ret_closes :
      (c : Event)
      → find e.thread h.open_calls ≡ some c
      → add_ret h e b ≡ (by_call c.etype c >>= λ h'. ok (close h'))
  unfolding add_ret
  add_ret_closes c f = rw (f, add_ret)

  add_ret_unopened : find e.thread h.open_calls ≡ none → add_ret h e b ≡ fail violation
  unfolding add_ret
  add_ret_unopened f = rw (f, add_ret)

  closing :
      (c : Event) (f : find e.thread h.open_calls ≡ some c) (m : Result CoverHistory)
      → by_call c.etype c ≡ m
      → (h' : CoverHistory) → (m >>= λ k. ok (close k)) ≡ ok h'
      → IsReading h' es
  closing c f (fail x) q h' r = absurd (no_result r)
  closing c f (ok k) q h' r =
      subst (λ z. IsReading z es) (ok_inj r)
        (close-IsReading c f k (by_call-Returned c f c.etype refl k q))

  -- If a return is read, then what holds while reading still holds.
  pub add_ret-IsReading : (h' : CoverHistory) → add_ret h e b ≡ ok h' → IsReading h' es
  add_ret-IsReading h' r = elim (Option-cases (find e.thread h.open_calls)) [
    | inl f ↦ absurd (no_result (sym (add_ret_unopened f) ∙ r))
    | inr (c, f) ↦ closing c f (by_call c.etype c) refl h' (sym (add_ret_closes c f) ∙ r)
  ]

-- The handlers.
pub handle_call-IsReading :
    (t : EType) (h : CoverHistory) (e : Event) (es : List Event)
    → IsReading h (e ∷ es)
    → (h' : CoverHistory) → handle_call t h e ≡ ok h'
    → IsReading h' es
unfolding handle_call
handle_call-IsReading EType.push h e es g h' r =
    subst (λ z. IsReading z es) (ok_inj r) (add_call-IsReading h e es g)
handle_call-IsReading EType.pop h e es g h' r =
    subst (λ z. IsReading z es) (ok_inj r) (add_call-IsReading h e es g)
handle_call-IsReading _ h e es g h' r = absurd (no_result r)

pub handle_return-IsReading :
    (t : EType) (h : CoverHistory) (e : Event) (es : List Event)
    → IsReading h (e ∷ es)
    → (h' : CoverHistory) → handle_return t h e ≡ ok h'
    → IsReading h' es
unfolding handle_return
handle_return-IsReading EType.push h e es g h' r = add_ret-IsReading h e es g false h' r
handle_return-IsReading EType.pop h e es g h' r = add_ret-IsReading h e es g false h' r
handle_return-IsReading _ h e es g h' r = absurd (no_result r)
