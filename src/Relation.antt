-- ===== src/Relation.antt =====
-- include/relation.h and logic/src/relation.cpp: how two values of a stack can be related, one before
-- or after the other, or above or below it. A relation is the set of those that are possible; the
-- source keeps it in four bits.
pub mod Product
pub mod Compare
use li_mo.Base.{
  ℕ, ◌+◌, ◌<◌, ◌≡◌, Bool, true, false, not, ◌&&◌, ◌||◌, Option, none, some, List, [], ◌∷◌,
  if◌then◌else◌, filter, Result, ok, ◌>>=◌, fail, std_error,
}
use mathlib.Core.Bool.{xor}
use li_mo.Event.{Val}
use li_mo.Interval.Atomic.{AtomicInterval, preceeds}

pub data RelVal : Type 0 where
  is_before is_after is_above is_below : RelVal

pub record Relation : Type 0 where
  pub before : Bool
  pub after : Bool
  pub above : Bool
  pub below : Bool

abbrev pub bits : Bool → Bool → Bool → Bool → Relation
bits b a u d = record { before = b; after = a; above = u; below = d }

-- The test `value & c`.
abbrev pub has : RelVal → Relation → Bool
has is_before r = r.before
has is_after r = r.after
has is_above r = r.above
has is_below r = r.below

abbrev pub components : List RelVal
components = is_before ∷ is_after ∷ is_above ∷ is_below ∷ []

abbrev pub reverse_rel : RelVal → RelVal
reverse_rel is_before = is_after
reverse_rel is_after = is_before
reverse_rel is_above = is_below
reverse_rel is_below = is_above

abbrev pub all_rel : Relation
all_rel = bits true true true true

abbrev pub none_rel : Relation
none_rel = bits false false false false

abbrev pub only : RelVal → Relation
only is_before = bits true false false false
only is_after = bits false true false false
only is_above = bits false false true false
only is_below = bits false false false true

-- `operator|`, `operator&` and `operator^`.
abbrev pub union : Relation → Relation → Relation
union r s =
    bits (r.before || s.before) (r.after || s.after) (r.above || s.above) (r.below || s.below)

abbrev pub common : Relation → Relation → Relation
common r s =
    bits (r.before && s.before) (r.after && s.after) (r.above && s.above) (r.below && s.below)

abbrev pub differing : Relation → Relation → Relation
differing r s =
    bits (xor r.before s.before) (xor r.after s.after) (xor r.above s.above) (xor r.below s.below)

abbrev pub negated : Relation → Relation
negated r = differing r all_rel

abbrev bit : Bool → ℕ
bit b = if b then 1 else 0

unfoldable pub size : Relation → ℕ
size r = bit r.before + bit r.after + bit r.above + bit r.below

unfoldable pub branches : Relation → List RelVal
unfolding filter
branches r = filter (λ c. has c r) components

-- The four tests, each of which adds the reverse of a component.
unfoldable pub reversed : Relation → Relation
reversed r =
    let a = if r.above then union none_rel (only is_below) else none_rel in
    let b = if r.below then union a (only is_above) else a in
    let c = if r.before then union b (only is_after) else b in
    if r.after then union c (only is_before) else c

-- `MulTbl`
unfoldable pub mul_tbl : RelVal → RelVal → Relation
mul_tbl is_before is_before = only is_before
mul_tbl is_before is_after = all_rel
mul_tbl is_before is_above = union (only is_above) (only is_before)
mul_tbl is_before is_below = only is_before
mul_tbl is_after is_before = all_rel
mul_tbl is_after is_after = only is_after
mul_tbl is_after is_above = union (only is_after) (only is_above)
mul_tbl is_after is_below = only is_after
mul_tbl is_above is_before = only is_before
mul_tbl is_above is_after = only is_after
mul_tbl is_above is_above = only is_above
mul_tbl is_above is_below = all_rel
mul_tbl is_below is_before = union (only is_below) (only is_before)
mul_tbl is_below is_after = union (only is_below) (only is_after)
mul_tbl is_below is_above = union (only is_above) (only is_below)
mul_tbl is_below is_below = only is_below

-- The two loops of `operator*`.
unfoldable pub times_each : RelVal → List RelVal → Relation → Relation → Relation
unfolding mul_tbl
times_each r [] s res = res
times_each r (k ∷ ks) s res = times_each r ks s (if has k s then union res (mul_tbl r k) else res)

unfoldable pub times_all : List RelVal → Relation → Relation → Relation → Relation
unfolding times_each
times_all [] a s res = res
times_all (r ∷ rs) a s res =
    times_all rs a s (if has r a then times_each r components s res else res)

unfoldable pub times : Relation → Relation → Relation
unfolding times_all
times a s = times_all components a s none_rel

-- `Value`
pub record StackValue : Type 0 where
  pub val : Val
  pub add : AtomicInterval
  pub rmv : Option AtomicInterval

-- `r ^= (r & s)` where the test holds.
abbrev pub drop_if : Bool → Relation → Relation → Relation
drop_if test s r = if test then differing r (common r s) else r

-- The removal of the second value is read as soon as the first value has one.
abbrev pub pops_first : Option AtomicInterval → Option AtomicInterval → Result Bool
pops_first none q = ok false
pops_first (some p) none = fail std_error
pops_first (some p) (some q) = ok (preceeds p q)

-- `!q.has_value() || a.preceeds(q.value())`, and the two tests that ask for a value.
abbrev pub none_or_before : AtomicInterval → Option AtomicInterval → Bool
none_or_before a none = true
none_or_before a (some q) = preceeds a q

abbrev pub some_before : Option AtomicInterval → AtomicInterval → Bool
some_before none a = false
some_before (some p) a = preceeds p a

abbrev pub both_before : Option AtomicInterval → Option AtomicInterval → Bool
both_before (some p) (some q) = preceeds p q
both_before p q = false

-- The tests of `compare` in their order.
unfoldable pub compare : StackValue → StackValue → Result Relation
unfolding preceeds
compare v w = do
  let r1 = drop_if (preceeds v.add w.add) (union (only is_after) (only is_above)) all_rel
  let r2 = drop_if (preceeds w.add v.add) (union (only is_before) (only is_below)) r1
  first ← pops_first v.rmv w.rmv
  let r3 = drop_if first (union (only is_after) (only is_below)) r2
  let r4 = drop_if (both_before w.rmv v.rmv) (union (only is_before) (only is_above)) r3
  let r5 = drop_if (none_or_before v.add w.rmv) (only is_after) r4
  let r6 = drop_if (none_or_before w.add v.rmv) (only is_before) r5
  let r7 = drop_if (some_before v.rmv w.add) (bits false true true true) r6
  ok (drop_if (some_before w.rmv v.add) (bits true false true true) r7)
