-- ===== src/Logic.antt =====
-- include/logic.hpp and logic/src/bound.cpp: the bounds within which a value is pushed and popped, and
-- what a relation to another value leaves of them.
pub mod Bounds
pub mod Term
pub mod Normal
pub mod Distinct
pub mod Subsume
pub mod Maximal
pub mod DisjStep
pub mod ConjStep
pub mod Total
pub mod Normalize
pub mod Simpl
pub mod Meaning
use li_mo.Base.{
  Bool, true, false, ◌&&◌, ◌||◌, Option, none, some, List, [], ◌∷◌, if◌then◌else◌, ◌==◌,
}
use li_mo.Interval.Atomic.{AtomicInterval, nil, complete, is_empty, ◌⊓◌, covers, before, after}
use li_mo.Interval.Range.{atomic_plus, bounds}
use li_mo.Cover.Events.{itv_eq}
use li_mo.Relation.{RelVal, is_before, is_after, is_above, is_below}

pub record Bound : Type 0 where
  pub add : AtomicInterval
  pub rmv : AtomicInterval

abbrev pub nil_bound : Bound
nil_bound = record { add = nil; rmv = nil }

abbrev pub complete_bound : Bound
complete_bound = record { add = complete; rmv = complete }

-- `Bound::simpl`: `none` is the constant false.
unfoldable pub simpl : Bound → Option Bound
unfolding is_empty
simpl b = if is_empty b.add || is_empty b.rmv then none else some b

unfoldable pub join : Bound → Bound → Bound
unfolding ◌⊓◌
join b o = record { add = b.add ⊓ o.add; rmv = b.rmv ⊓ o.rmv }

unfoldable pub extend : Bound → Bound → Bound
unfolding atomic_plus bounds
extend b o = record {
  add = bounds (atomic_plus b.add o.add);
  rmv = bounds (atomic_plus b.rmv o.rmv);
}

abbrev pub equal : Bound → Bound → Bool
equal b o = itv_eq b.add o.add && itv_eq b.rmv o.rmv

unfoldable pub implies : Bound → Bound → Bool
unfolding covers
implies b o = covers o.add b.add && covers o.rmv b.rmv

-- `Const::bounds`, and the loops of `Disj::bounds` and `Conj::bounds` over the bounds of their terms.
abbrev pub const_bounds : Bool → Bound
const_bounds val = if val then complete_bound else nil_bound

unfoldable pub disj_bounds : Bound → List Bound → Bound
unfolding extend
disj_bounds acc [] = acc
disj_bounds acc (b ∷ bs) = disj_bounds (extend acc b) bs

unfoldable pub conj_bounds : Bound → List Bound → Bound
unfolding join
conj_bounds acc [] = acc
conj_bounds acc (b ∷ bs) = conj_bounds (join acc b) bs

-- What is left of the bounds of `b` where `a` has the relation to it.
unfoldable pub restr_bounds : Bound → RelVal → Bound → Bound
unfolding ◌⊓◌ before after
restr_bounds a is_above b = record {
  add = after a.add b.add ⊓ after a.rmv b.add;
  rmv = before a.rmv b.rmv ⊓ before a.add b.rmv;
}
restr_bounds a is_below b = record {
  add = before a.add b.add ⊓ after a.rmv b.add;
  rmv = after a.rmv b.rmv ⊓ before a.add b.rmv;
}
restr_bounds a is_before b = record {
  add = before a.add b.add ⊓ before a.rmv b.add;
  rmv = before a.add b.rmv ⊓ before a.rmv b.rmv;
}
restr_bounds a is_after b = record {
  add = after a.add b.add ⊓ after a.rmv b.add;
  rmv = after a.add b.rmv ⊓ after a.rmv b.rmv;
}
