-- ===== src/Cover/Lin.antt =====
-- `CoverHistory::step` of monitor/src/coverlin.cpp and `CoverMonitor::do_linearization` of
-- monitor/src/covermonitor.cpp.
use li_mo.Base.{
  ℕ, zero, suc, true, not, Option, none, some, List, [], ◌∷◌, map, any, if◌then◌else◌, Result, ok,
  fail, violation, std_error, pop_back, get_elem?,
}
use mathlib.Core.Option
use li_mo.Event.{LinRes, no_opening, cover_is_atomic, done, report, remain, combine}
use li_mo.Interval.Atomic.{AtomicInterval, nil, is_empty, overlaps}
use li_mo.Interval.Range.{interval, complement, is_atomic}
use li_mo.Cover.History.{
  CoverHistory, Last, pop_empty, push, push_pop, epsilon, last_kind, sound, simple, cover,
  minmax_prune, split, segmentize,
}

-- `first_match`: the first opening that overlaps the pop of the empty stack.
unfoldable pub first_match : List AtomicInterval → AtomicInterval → AtomicInterval
unfolding overlaps
first_match [] e = nil
first_match (opening ∷ rest) e = if overlaps opening e then opening else first_match rest e

unfoldable pub step_empties : CoverHistory → LinRes CoverHistory
unfolding first_match any is_empty interval segmentize complement cover
step_empties h =
    let atoms = (complement (cover h.values)).atoms in
    let openings = map (first_match atoms) h.empties in
    if any is_empty openings
    then report no_opening
    else remain (segmentize h (interval openings true).atoms)

-- `opens.atoms()[1]`, which is out of range where there is no second opening.
unfoldable pub step_split : CoverHistory → Result (LinRes CoverHistory)
unfolding cover is_atomic complement split get_elem?
step_split h =
    let cov = cover h.values in
    if is_atomic cov
    then ok (report cover_is_atomic)
    else elim (get_elem? (complement cov).atoms 1) [
      | none ↦ fail std_error
      | some gap ↦ ok (remain ((split h gap).0 ∷ (split h gap).1 ∷ []))
    ]

unfoldable pub step_values : CoverHistory → Result (LinRes CoverHistory)
unfolding minmax_prune step_split
step_values h =
    if (minmax_prune h).0
    then ok (remain ((minmax_prune h).1 ∷ []))
    else step_split (minmax_prune h).1

-- The `switch` over what the last operations of the history are.
unfoldable pub step_as : Last → CoverHistory → Result (LinRes CoverHistory)
unfolding step_empties step_values
step_as epsilon h = ok done
step_as pop_empty h = ok (step_empties h)
step_as push h = step_values h
step_as push_pop h = step_values h

unfoldable pub step : CoverHistory → Result (LinRes CoverHistory)
unfolding step_as last_kind
step h = step_as (last_kind h) h

-- The `while` of `do_linearization` with fuel for its rounds; `none` means that the fuel ran out.
unfoldable pub drain : ℕ → LinRes CoverHistory → Option (Result (LinRes CoverHistory))
unfolding step combine pop_back
drain zero r = none
drain (suc fuel) r = elim r.viol [
  | some m ↦ some (ok r)
  | none ↦ elim (pop_back r.remaining) [
    | none ↦ some (ok r)
    | some (rest, h) ↦ elim (step h) [
      | fail e ↦ some (fail e)
      | ok s ↦ drain fuel (combine (record r { remaining = rest }) s)
    ]
  ]
]

-- `throw Violation` where the last result has one.
abbrev pub conclude : Result (LinRes CoverHistory) → Result (Unit {0})
conclude (fail e) = fail e
conclude (ok r) = elim r.viol [ none ↦ ok tt | some m ↦ fail violation ]

unfoldable pub do_linearization : ℕ → CoverHistory → Option (Result (Unit {0}))
do_linearization fuel h =
    if not (sound h)
    then some (fail violation)
    else if not (simple h)
    then some (fail std_error)
    else elim (step h) [ fail e ↦ some (fail e) | ok r ↦ Option.map conclude (drain fuel r) ]
