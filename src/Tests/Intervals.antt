-- ===== src/Tests/Intervals.antt =====
-- The theorems on intervals at concrete intervals.
use li_mo.Base.{◌≡◌, refl, true, false, not, [], ◌∷◌, arith}
use li_mo.Interval.Atomic.{
  AtomicInterval, open_itv, closed, closedopen, openclosed, is_empty, intersect, overlaps,
}
use li_mo.Interval.Points.{IsClosed, overlaps_asymmetric}
use li_mo.Interval.Range.{Interval, interval, complement, plus}
use li_mo.Interval.Merge.{in_atoms, contains-interval, interval_loses_left_end}
use li_mo.Interval.Apart.{Apart, contains-complement, interval-Apart}

abbrev early : AtomicInterval
early = closed 2 5

abbrev late : AtomicInterval
late = closed 4 9

abbrev apart : AtomicInterval
apart = closed 12 15

-- The union of three operations, two of which overlap.
merged_union : (interval (early ∷ late ∷ apart ∷ []) true).atoms ≡ closed 2 9 ∷ closed 12 15 ∷ []
unfolding interval
merged_union = refl

-- The union of two intervals that come in the wrong order keeps their order.
unsorted_union :
    (plus (interval (apart ∷ []) true) (interval (early ∷ []) true)).atoms ≡ apart ∷ early ∷ []
unfolding plus
unsorted_union = refl

early-IsClosed : IsClosed early
early-IsClosed = record { left = refl; right = refl; ordered = omega arith }

late-IsClosed : IsClosed late
late-IsClosed = record { left = refl; right = refl; ordered = omega arith }

apart-IsClosed : IsClosed apart
apart-IsClosed = record { left = refl; right = refl; ordered = omega arith }

overlaps_asymmetric_example :
    (overlaps (open_itv 5 8) (closedopen 2 5) ≡ true)
    × (overlaps (closedopen 2 5) (open_itv 5 8) ≡ false)
    × (is_empty (intersect (open_itv 5 8) (closedopen 2 5)) ≡ true)
overlaps_asymmetric_example =
    overlaps_asymmetric (open_itv 5 8) (closedopen 2 5) refl (omega arith) (omega arith) refl refl
      refl

contains-interval_example :
    in_atoms 7 (interval (early ∷ late ∷ apart ∷ []) true).atoms
    ≡ in_atoms 7 (early ∷ late ∷ apart ∷ [])
contains-interval_example = contains-interval (early ∷ late ∷ apart ∷ []) 7 (refl, (refl, tt))

interval_loses_left_end_example :
    (in_atoms 3 (openclosed 3 9 ∷ closed 3 4 ∷ []) ≡ true)
    × (in_atoms 3 (interval (openclosed 3 9 ∷ closed 3 4 ∷ []) true).atoms ≡ false)
unfolding is_empty
interval_loses_left_end_example =
    interval_loses_left_end (openclosed 3 9) (closed 3 4) refl refl refl refl refl

abbrev two_atoms : Interval
two_atoms = record { atoms = early ∷ apart ∷ [] }

two_atoms-Apart : Apart true 0 two_atoms.atoms
unfolding is_empty
two_atoms-Apart = (refl, refl, (refl, refl, tt))

contains-complement_example :
    in_atoms 8 (complement two_atoms).atoms ≡ not (in_atoms 8 two_atoms.atoms)
contains-complement_example =
    contains-complement two_atoms 8 two_atoms-Apart (omega arith) (omega arith)

interval-Apart_example : Apart true 0 (interval (early ∷ late ∷ apart ∷ []) true).atoms
unfolding is_empty
interval-Apart_example =
    interval-Apart early (late ∷ apart ∷ []) (refl, (refl, tt)) (refl, (refl, (refl, tt)))
      (omega arith)
