-- ===== src/Tests/Relations.antt =====
-- Relations of values on a stack at concrete timestamps: one below, one inside it, one behind both.
use li_mo.Base.{ℕ, ◌≡◌, refl, true, false, some, arith, ok}
use mathlib.Core.Bool.{xor}
use li_mo.Event.{Val}
use li_mo.Interval.Atomic.{closed, contains}
use li_mo.Relation.{StackValue, Relation, bits, is_before, is_above, has, times, reversed, compare}
use li_mo.Relation.Product.{Stay, times-has, reversed-times}
use li_mo.Relation.Compare.{Within, compare-has, compare-reversed}

abbrev val : ℕ → Val
val n = record { thread = n; idx = 0 }

abbrev below_stay : Stay
below_stay = record { from = 2; to = 8; lasts = omega arith }

abbrev inside_stay : Stay
inside_stay = record { from = 3; to = 5; lasts = omega arith }

abbrev behind_stay : Stay
behind_stay = record { from = 10; to = 12; lasts = omega arith }

times-has_example :
    has is_before (times (bits false false true false) (bits true false false false)) ≡ true
times-has_example =
    times-has is_before is_above is_before (bits false false true false)
      (bits true false false false) inside_stay below_stay behind_stay refl refl
      (omega arith, omega arith) (omega arith) (omega arith)

abbrev inside : StackValue
inside = record { val = val 1; add = closed 3 4; rmv = some (closed 5 6) }

abbrev below : StackValue
below = record { val = val 2; add = closed 1 3; rmv = some (closed 6 8) }

abbrev inside_below : Relation
inside_below = bits false false true true

compared : compare inside below ≡ ok inside_below
unfolding compare xor
compared = refl

inside-Within : Within inside inside_stay
unfolding contains
inside-Within = record { pop = closed 5 6; popped = refl; pushed = refl; left = refl }

below-Within : Within below below_stay
unfolding contains
below-Within = record { pop = closed 6 8; popped = refl; pushed = refl; left = refl }

compare-has_example : has is_above inside_below ≡ true
compare-has_example =
    compare-has inside below inside_stay below_stay is_above inside_below inside-Within below-Within
      (omega arith, omega arith) compared

compare-reversed_example : compare below inside ≡ ok (reversed inside_below)
compare-reversed_example =
    compare-reversed inside below (closed 5 6) (closed 6 8) inside_below refl refl compared

reversed-times_example :
    reversed (times (bits true false true false) inside_below)
    ≡ times (reversed inside_below) (reversed (bits true false true false))
reversed-times_example = reversed-times (bits true false true false) inside_below
