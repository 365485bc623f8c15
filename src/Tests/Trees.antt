-- ===== src/Tests/Trees.antt =====
-- The tree monitor on a few values.
use li_mo.Base.{
  ℕ, ◌+◌, ◌-◌, ◌≤◌, ◌≡◌, refl, false, true, none, some, [], ◌∷◌, arith, ok, assign, find,
}
use mathlib.Core.List.{Perm}
use li_mo.Event.{Event, EType, val_key}
use li_mo.Interval.Atomic.{closed, covers, overlaps}
use li_mo.IntervalTree.{
  Itv, Info, TreeNode, null, node, info, both, add, do_add, mk_dummy, update, hull, find_outer,
  outer_ctn,
}
use li_mo.IntervalTree.Spanned.{IsSpanned, reals}
use li_mo.IntervalTree.Branches.{IsTree}
use li_mo.IntervalTree.Adding.{add-IsTree}
use li_mo.IntervalTree.Parting.{disj_left, disj_right, take_left, disjoint}
use li_mo.IntervalTree.LeftPart.{SplitsLeft}
use li_mo.IntervalTree.RightPart.{SplitsRight, disj_total}
use li_mo.IntervalTree.Monitor.{TreeState, ended, handle_ret_pop, read_active, active_val}
use li_mo.IntervalTree.Stored.{handle_ret_pop-Stored}

abbrev around : ℕ → ℕ → Itv
around m n = record { inner = closed m n; outer = closed (m - 1) (n + 1) }

abbrev leaf_of : Itv → Info
leaf_of i = info i (some i) false true 1

abbrev single : Itv → TreeNode
single i = node (leaf_of i) null null

-- Two intervals that overlap, the second one the right child.
abbrev two_info : Info
two_info = info (both (closed 2 9)) none true true 3

abbrev two : TreeNode
two = node two_info (single (around 2 6)) (single (around 4 9))

-- The intervals are apart: a new dummy over both.
apart_added :
    add (single (around 2 3)) (single (around 6 9))
    ≡ some (
        node
          (info (both (closed 2 9)) none true true 3)
          (single (around 2 3))
          (node (record (leaf_of (around 6 9)) { left = false }) null null))
unfolding add do_add mk_dummy update hull find_outer outer_ctn covers
apart_added = refl

two-IsSpanned : IsSpanned two
unfolding IsSpanned
two-IsSpanned = (
  (refl, refl, refl, ground arith, refl),
  ((refl, ground arith, refl), tt, tt),
  ((refl, ground arith, refl), tt, tt),
)

five-IsSpanned : IsSpanned (single (around 5 7))
unfolding IsSpanned
five-IsSpanned = ((refl, ground arith, refl), tt, tt)

-- The third interval goes into the right child, which becomes a dummy.
add-IsTree_example :
    IsTree (add two (single (around 5 7))) 2 9 (around 5 7 ∷ around 2 6 ∷ around 4 9 ∷ [])
unfolding reals
add-IsTree_example =
    add-IsTree two_info (single (around 2 6)) (single (around 4 9)) (leaf_of (around 5 7)) null null
      two-IsSpanned five-IsSpanned

-- A value whose insertion returned at 5, and whose removal was called at 7 and returns at 8.
abbrev state : TreeState
state = record {
  active = (1, record { thread = 1; idx = 0 }) ∷ [];
  values = (record { thread = 1; idx = 0 }, record { inner = closed 5 7; outer = closed 3 0 }) ∷ [];
  tree = two;
}

abbrev last_event : Event
last_event = record { etype = EType.return; thread = 1; val = none; timestamp = 8 }

in_order : (ended last_event state).inner.lbound ≤ (ended last_event state).inner.ubound
unfolding find
in_order = ground arith

handle_ret_pop-Stored_example :
    (t : TreeNode) × (handle_ret_pop state last_event
      ≡ ok (record (read_active last_event state) {
        values = assign (active_val last_event state) (ended last_event state) state.values;
        tree = t;
      }))
    × IsSpanned t
    × Perm (reals t) (ended last_event state ∷ reals two)
handle_ret_pop-Stored_example = handle_ret_pop-Stored state last_event two-IsSpanned in_order

-- The first interval ends before the second one starts: it is the part on the left.
abbrev apart_info : Info
apart_info = info (both (closed 2 9)) none true true 3

abbrev apart : TreeNode
apart = node apart_info (single (around 2 3)) (single (around 6 9))

apart-IsSpanned : IsSpanned apart
unfolding IsSpanned
apart-IsSpanned = (
  (refl, refl, refl, ground arith, refl),
  ((refl, ground arith, refl), tt, tt),
  ((refl, ground arith, refl), tt, tt),
)

part_found : disj_left 6 apart ≡ some (single (around 2 3), single (around 6 9))
unfolding disj_left take_left disjoint overlaps update hull
part_found = refl

disj_total_example :
    SplitsLeft (disj_left 6 apart) (around 2 3 ∷ around 6 9 ∷ [])
    × SplitsRight (disj_right 3 apart) (around 2 3 ∷ around 6 9 ∷ [])
unfolding reals
disj_total_example =
    disj_total 6 3 apart_info (single (around 2 3)) (single (around 6 9)) apart-IsSpanned
