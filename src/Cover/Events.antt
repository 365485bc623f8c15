-- ===== src/Cover/Events.antt =====
-- The operations of events/src/coverhistory.cpp that read events into a `CoverHistory`.
use li_mo.Base.{
  ℕ, ◌+◌, ◌==◌, ◌&&◌, map, or_default, or_else, Bool, true, false, not, Option, none, some, List,
  [], ◌∷◌, if◌then◌else◌, leb, assign, find, remove, nat_key, Result, ok, fail, violation, ◌>>=◌,
  ◌>>◌, throw_if, value,
}
use mathlib.Core.Bool.{xor}
use li_mo.Event.{Val, Event, EType, val_eq, val_key, create}
use li_mo.Interval.Atomic.{AtomicInterval, closed, end_itv, overlaps}
use li_mo.Cover.History.{CoverHistory, CoverVal, cover_val, add_value, add_empty, cover_bounds}

unfoldable pub add_call : CoverHistory → Event → CoverHistory
unfolding assign
add_call h call = record h { open_calls = assign call.thread call h.open_calls }

-- `std::find_if` by the value.
unfoldable pub find_value : Val → List CoverVal → Option CoverVal
find_value v [] = none
find_value v (w ∷ ws) = if val_eq v w.val then some w else find_value v ws

-- A write to the first value found, and the erasure of it.
unfoldable pub update_value : Val → CoverVal → List CoverVal → List CoverVal
update_value v new [] = []
update_value v new (w ∷ ws) = if val_eq v w.val then new ∷ ws else w ∷ update_value v new ws

unfoldable pub erase_value : Val → List CoverVal → List CoverVal
erase_value v [] = []
erase_value v (w ∷ ws) = if val_eq v w.val then ws else w ∷ erase_value v ws

abbrev pub itv_eq : AtomicInterval → AtomicInterval → Bool
itv_eq a b =
    (a.lbound == b.lbound)
    && (a.ubound == b.ubound)
    && not (xor a.l_open b.l_open)
    && not (xor a.u_open b.u_open)

-- The push branch of `add_ret`. The value is entered anew, without the era and the crash flag
-- that the source sets on a copy, and without the removal that it looked up.
unfoldable pub ret_push : CoverHistory → Event → AtomicInterval → Result CoverHistory
unfolding add_value overlaps find remove
ret_push h call op = do
  v ← value call.val
  let rm = or_default (find v h.unmatched_removes) end_itv
  let h' = record h { unmatched_removes = remove v h.unmatched_removes }
  ok (if overlaps rm op then h' else add_value h' (cover_val v op end_itv))

-- The pop branch for a value that was found.
unfoldable pub pop_found : CoverHistory → CoverVal → AtomicInterval → Bool → Result CoverHistory
unfolding overlaps update_value erase_value
pop_found h w op crashed = do
  throw_if (not (itv_eq w.rmv end_itv)) violation
  let w' = record w { rmv = op; pop_era = h.era; pop_crash = crashed }
  ok (record h {
    values =
        if overlaps op w.add then erase_value w.val h.values else update_value w.val w' h.values;
  })

-- The pop branch for the value that was popped, or for a pop of the empty stack. The value of the
-- return is read where the push is not there yet.
unfoldable pub pop_value :
    Option Val → CoverHistory → Event → AtomicInterval → Bool → Result CoverHistory
unfolding find_value pop_found add_empty assign
pop_value none h ret op crashed = ok (add_empty h op)
pop_value (some v) h ret op crashed = elim (find_value v h.values) [
  | none ↦ do
    r ← value ret.val
    ok (record h { unmatched_removes = assign r op h.unmatched_removes })
  | some w ↦ pop_found h w op crashed
]

-- The value is that of the return, or else of the call.
unfoldable pub ret_pop : CoverHistory → Event → Event → AtomicInterval → Bool → Result CoverHistory
unfolding pop_value
ret_pop h call ret op crashed = pop_value (or_else ret.val call.val) h ret op crashed

unfoldable pub add_ret : CoverHistory → Event → Bool → Result CoverHistory
unfolding ret_push ret_pop find remove
add_ret h ret crashed = elim (find ret.thread h.open_calls) [
  | none ↦ fail violation
  | some call ↦ do
    let op = closed call.timestamp ret.timestamp
    h' ← (elim call.etype [
      | EType.push ↦ ret_push h call op
      | EType.pop ↦ ret_pop h call ret op crashed
      | _ ↦ ok h
    ])
    ok (record h' { open_calls = remove ret.thread h'.open_calls })
]

-- The loop of `add_crash` over the calls that were open: each returns at a new timestamp.
unfoldable pub crash_returns : CoverHistory → List (ℕ × Event) → ℕ → Result (CoverHistory × ℕ)
unfolding add_ret create
crash_returns h [] clock = ok (h, clock)
crash_returns h ((t, call) ∷ calls) clock = do
  let (ev, clock') = create EType.return t none clock
  h' ← add_ret h ev true
  crash_returns h' calls clock'

-- A pop that crashed is kept where its value was pushed behind all covers.
unfoldable pub settle_crash : AtomicInterval → CoverVal → CoverVal
settle_crash ai v =
    if v.pop_crash
    then if leb ai.ubound v.add.lbound
      then record v { pop_crash = false }
      else record v { rmv = end_itv; pop_crash = false }
    else v

unfoldable pub add_crash : CoverHistory → ℕ → Result (CoverHistory × ℕ)
unfolding crash_returns settle_crash cover_bounds
add_crash h clock = do
  (h', clock') ← crash_returns h h.open_calls clock
  let ai = cover_bounds h'.values
  ok (record h' { values = map (settle_crash ai) h'.values; era = h'.era + 1 }, clock')
