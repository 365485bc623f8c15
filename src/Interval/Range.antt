-- ===== src/Interval/Range.antt =====
-- `Interval` of include/interval.h and events/src/interval.cpp: a vector of atomic intervals that
-- the constructor filters and merges. The constructor never leaves the vector empty; `first` and
-- `last` answer `nil` on the empty vector, which no interval of the program has.
use li_mo.Base.{
  ℕ, Bool, true, false, not, ◌&&◌, ◌||◌, Option, none, some, List, [], ◌∷◌, ◌++◌, ltb, leb, ◌==◌,
  if◌then◌else◌, length, filter, any,
}
use mathlib.Core.Option
use li_mo.Interval.Atomic.{
  AtomicInterval, atomic, neg_inf, pos_inf, nil, open_itv, is_empty, intersect, overlaps,
}

pub record Interval : Type 0 where
  pub atoms : List AtomicInterval

-- The successor is erased, and only the upper end of the current interval changes.
unfoldable pub absorb : AtomicInterval → AtomicInterval → AtomicInterval
absorb curr next =
    if ltb next.ubound curr.ubound
    then curr
    else if curr.ubound == next.ubound
    then record curr { ubound = next.ubound; u_open = curr.u_open && next.u_open }
    else record curr { ubound = next.ubound; u_open = next.u_open }

-- The `while` over `i`: `curr` is `intervals[i]`, and the list is what follows it.
unfoldable pub merge_from : AtomicInterval → List AtomicInterval → List AtomicInterval
merge_from curr [] = curr ∷ []
merge_from curr (next ∷ rest) = elim (overlaps curr next) [
  | true ↦ merge_from (absorb curr next) rest
  | false ↦ curr ∷ merge_from next rest
]

unfoldable pub merge : List AtomicInterval → List AtomicInterval
unfolding merge_from absorb
merge [] = []
merge (a ∷ rest) = merge_from a rest

unfoldable pub insert_by_lbound : AtomicInterval → List AtomicInterval → List AtomicInterval
insert_by_lbound a [] = a ∷ []
insert_by_lbound a (b ∷ rest) = elim (ltb a.lbound b.lbound) [
  | true ↦ a ∷ b ∷ rest
  | false ↦ b ∷ insert_by_lbound a rest
]

-- `std::sort` by the lower bound.
unfoldable pub sort_atoms : List AtomicInterval → List AtomicInterval
unfolding insert_by_lbound
sort_atoms [] = []
sort_atoms (a ∷ rest) = insert_by_lbound a (sort_atoms rest)

unfoldable pub or_nil : List AtomicInterval → List AtomicInterval
or_nil [] = nil ∷ []
or_nil (a ∷ rest) = a ∷ rest

-- The constructor. `sorted` defaults to true in the source.
unfoldable pub interval : List AtomicInterval → Bool → Interval
unfolding or_nil sort_atoms merge filter is_empty overlaps
interval atoms sorted =
    let kept = or_nil (filter (λ a. not (is_empty a)) atoms) in
    record { atoms = merge (if sorted then kept else sort_atoms kept) }

unfoldable pub first : List AtomicInterval → AtomicInterval
first [] = nil
first (a ∷ rest) = a

unfoldable pub last : List AtomicInterval → AtomicInterval
last [] = nil
last (a ∷ []) = a
last (a ∷ b ∷ rest) = last (b ∷ rest)

unfoldable pub is_atomic : Interval → Bool
is_atomic i = length i.atoms == 1

unfoldable pub bounds : Interval → AtomicInterval
unfolding first last
bounds i =
    atomic (first i.atoms).l_open (first i.atoms).lbound (last i.atoms).ubound (last i.atoms).u_open

unfoldable pub is_empty_interval : Interval → Bool
unfolding first last
is_empty_interval i =
    let lower = (first i.atoms).lbound in
    let upper = (last i.atoms).ubound in
    ltb upper lower || ((lower == upper) && ((first i.atoms).l_open || (last i.atoms).u_open))

unfoldable pub intervals_overlap : Interval → Interval → Bool
unfolding overlaps any
intervals_overlap a b = any (λ i. any (λ j. overlaps i j) b.atoms) a.atoms

-- The named constructors of one interval.
unfoldable pub single : AtomicInterval → Interval
unfolding interval
single a = interval (a ∷ []) true

unfoldable pub nil_interval : Interval
unfolding single
nil_interval = single (open_itv pos_inf neg_inf)

-- The loop of `complement`, from the end of the interval before.
unfoldable pub gaps : Bool → ℕ → List AtomicInterval → List AtomicInterval
gaps l_open lb [] = atomic l_open lb pos_inf true ∷ []
gaps l_open lb (i ∷ rest) =
    atomic l_open lb i.lbound (not i.l_open) ∷ gaps (not i.u_open) i.ubound rest

unfoldable pub complement : Interval → Interval
unfolding gaps interval
complement i = interval (gaps true neg_inf i.atoms) true

-- `AtomicInterval::complement`, through the union of the two sides.
unfoldable pub plus : Interval → Interval → Interval
unfolding interval
plus a b = interval (a.atoms ++ b.atoms) true

-- `Interval + AtomicInterval` puts the new interval first.
unfoldable pub plus_atomic : Interval → AtomicInterval → Interval
unfolding plus single
plus_atomic i a = plus (single a) i

unfoldable pub atomic_plus : AtomicInterval → AtomicInterval → Interval
unfolding plus_atomic single
atomic_plus a b = plus_atomic (single a) b

unfoldable pub atomic_complement : AtomicInterval → Interval
unfolding atomic_plus
atomic_complement a =
    atomic_plus (atomic false neg_inf a.lbound (not a.l_open))
      (atomic (not a.u_open) a.ubound pos_inf false)

-- The two cursors of `operator*`. `none` is the assertion that is there for the case that neither
-- interval lies before the other.
unfoldable pub meet : List AtomicInterval → List AtomicInterval → Option (List AtomicInterval)
unfolding overlaps intersect
meet [] other = some []
meet (s ∷ self) [] = some []
meet (s ∷ self) (o ∷ other) =
    let next_other = meet (s ∷ self) other in
    let next_self = meet self (o ∷ other) in
    if overlaps s o
    then Option.map (λ rest. intersect s o ∷ rest)
        (if leb o.ubound s.ubound then next_other else next_self)
    else if ltb s.ubound o.lbound
    then next_self
    else if ltb o.ubound s.lbound
    then next_other
    else none

unfoldable pub times : Interval → Interval → Option Interval
unfolding meet interval
times a b = Option.map (λ atoms. interval atoms true) (meet a.atoms b.atoms)
