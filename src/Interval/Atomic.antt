-- ===== src/Interval/Atomic.antt =====
-- `AtomicInterval` of include/interval.h and events/src/interval.cpp: one interval between two
-- timestamps, each end open or closed. A timestamp is an `unsigned long long`, kept as a number
-- between `neg_inf` and `pos_inf`.
use li_mo.Base.{
  ℕ, ◌-◌, ◌^◌, Bool, true, false, not, ◌&&◌, ◌||◌, ltb, leb, ◌==◌, if◌then◌else◌, max, min,
}

abbrev pub neg_inf : ℕ
neg_inf = 0

abbrev pub pos_inf : ℕ
pos_inf = 2 ^ 64 - 1

pub record AtomicInterval : Type 0 where
  pub l_open : Bool
  pub lbound : ℕ
  pub ubound : ℕ
  pub u_open : Bool

abbrev pub atomic : Bool → ℕ → ℕ → Bool → AtomicInterval
atomic left lower upper right = record {
  l_open = left;
  lbound = lower;
  ubound = upper;
  u_open = right;
}

abbrev pub open_itv : ℕ → ℕ → AtomicInterval
open_itv lower upper = atomic true lower upper true

abbrev pub closed : ℕ → ℕ → AtomicInterval
closed lower upper = atomic false lower upper false

abbrev pub openclosed : ℕ → ℕ → AtomicInterval
openclosed lower upper = atomic true lower upper false

abbrev pub closedopen : ℕ → ℕ → AtomicInterval
closedopen lower upper = atomic false lower upper true

abbrev pub nil : AtomicInterval
nil = atomic false pos_inf neg_inf false

abbrev pub complete : AtomicInterval
complete = atomic false neg_inf pos_inf false

-- The interval of a removal that never happens.
abbrev pub end_itv : AtomicInterval
end_itv = closed (pos_inf - 2) pos_inf

unfoldable pub is_empty : AtomicInterval → Bool
is_empty a = ltb a.ubound a.lbound || (leb a.ubound a.lbound && (a.u_open || a.l_open))

unfoldable pub is_complete : AtomicInterval → Bool
is_complete a = (a.lbound == neg_inf) && (a.ubound == pos_inf)

unfoldable pub intersect : AtomicInterval → AtomicInterval → AtomicInterval
intersect a b =
    atomic
      (if a.lbound == b.lbound
        then a.l_open || b.l_open
        else if ltb a.lbound b.lbound
        then b.l_open
        else a.l_open)
      (if a.lbound == b.lbound
        then a.lbound
        else if ltb a.lbound b.lbound
        then b.lbound
        else a.lbound)
      (if a.ubound == b.ubound
        then a.ubound
        else if ltb a.ubound b.ubound
        then a.ubound
        else b.ubound)
      (if a.ubound == b.ubound
        then a.u_open || b.u_open
        else if ltb a.ubound b.ubound
        then a.u_open
        else b.u_open)

-- `operator*`, which takes the tighter bound first and then joins the open flags of a tie.
infixl 70 ◌⊓◌
unfoldable pub ◌⊓◌ : AtomicInterval → AtomicInterval → AtomicInterval
◌⊓◌ a b =
    let lower = if ltb a.lbound b.lbound then b.lbound else a.lbound in
    let l_open = if ltb a.lbound b.lbound then b.l_open else a.l_open in
    let upper = if ltb b.ubound a.ubound then b.ubound else a.ubound in
    let u_open = if ltb b.ubound a.ubound then b.u_open else a.u_open in
    atomic (if lower == b.lbound then l_open || b.l_open else l_open) lower upper
      (if upper == b.ubound then u_open || b.u_open else u_open)

-- The last test repeats `l_open`, as the source does.
unfoldable pub overlaps : AtomicInterval → AtomicInterval → Bool
overlaps a b =
    if ltb a.ubound b.lbound || ltb b.ubound a.lbound
    then false
    else if a.ubound == b.lbound
    then not (a.u_open && b.l_open)
    else if a.lbound == b.ubound
    then not (a.l_open && b.l_open)
    else true

unfoldable pub preceeds : AtomicInterval → AtomicInterval → Bool
preceeds a b =
    if a.ubound == b.lbound then (if a.u_open then true else b.l_open) else ltb a.ubound b.lbound

-- `operator<`
unfoldable pub less : AtomicInterval → AtomicInterval → Bool
less a b = if a.lbound == b.lbound then ltb a.ubound b.ubound else ltb a.lbound b.lbound

-- `contains` on an interval.
unfoldable pub covers : AtomicInterval → AtomicInterval → Bool
covers a o =
    (ltb a.lbound o.lbound || ((o.l_open || not a.l_open) && leb a.lbound o.lbound))
    && (ltb o.ubound a.ubound || ((o.u_open || not a.u_open) && leb o.ubound a.ubound))

-- `contains` on a timestamp.
unfoldable pub contains : AtomicInterval → ℕ → Bool
contains a ts =
    (ltb a.lbound ts || (not a.l_open && leb a.lbound ts))
    && (ltb ts a.ubound || (not a.u_open && leb ts a.ubound))

-- What is left of `b` where it has to come before `a`, and after `a`, as the source bounds it.
unfoldable pub before : AtomicInterval → AtomicInterval → AtomicInterval
before a b = closed (max a.lbound b.lbound) b.ubound

unfoldable pub after : AtomicInterval → AtomicInterval → AtomicInterval
after a b = closed b.lbound (min a.ubound b.ubound)
