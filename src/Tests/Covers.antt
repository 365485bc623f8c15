-- ===== src/Tests/Covers.antt =====
-- The check of a stack history at three values: one around another, and one behind both.
use li_mo.Base.{
  ℕ, ◌≡◌, refl, ◌⊎◌, true, some, List, [], ◌∷◌, arith, All, ok, fail, violation, get_elem?, inl,
  inr, here, there,
}
use li_mo.Event.{Val}
use li_mo.Interval.Atomic.{AtomicInterval, closed, atomic}
use li_mo.Interval.Range.{complement, is_atomic}
use li_mo.Cover.History.{CoverVal, cover_val, of_values, cover, minmax, prune, simple}
use li_mo.Cover.Lin.{step, drain, do_linearization}
use li_mo.Cover.Spec.{IsLinearizable, empty-IsLinearizable}
use li_mo.Cover.Compose.{IsRead}
use li_mo.Cover.Prune.{IsOrdered, prune-IsLinearizable, prune_complete}
use li_mo.Cover.Split.{SplitsAt, cover-SplitsAt}
use li_mo.Cover.Sound.{IsReadHistory}
use li_mo.Cover.Drain.{do_linearization-total, do_linearization-IsLinearizable}

abbrev val : ℕ → Val
val n = record { thread = n; idx = 0 }

abbrev around : CoverVal
around = cover_val (val 1) (closed 1 2) (closed 7 8)

abbrev inside : CoverVal
inside = cover_val (val 2) (closed 3 4) (closed 5 6)

abbrev behind : CoverVal
behind = cover_val (val 1) (closed 9 10) (closed 11 12)

abbrev crossing : CoverVal
crossing = cover_val (val 3) (closed 5 6) (closed 10 11)

abbrev three : List CoverVal
three = around ∷ inside ∷ record behind { val = val 4 } ∷ []

three-IsRead : All IsRead three
three-IsRead = ground arith

three-IsOrdered : IsOrdered three
three-IsOrdered = ground arith

three-IsReadHistory : IsReadHistory (of_values three)
three-IsReadHistory = record { ordered = three-IsOrdered; read = three-IsRead; no_empties = refl }

three_accepted : do_linearization 8 (of_values three) ≡ some (ok tt)
unfolding do_linearization drain step simple
three_accepted = refl

-- Two values that cross are refused.
crossing_refused : do_linearization 8 (of_values (around ∷ crossing ∷ [])) ≡ some (fail violation)
unfolding do_linearization drain step simple
crossing_refused = refl

do_linearization-IsLinearizable_example : IsLinearizable three
do_linearization-IsLinearizable_example =
    do_linearization-IsLinearizable (of_values three) 8 three-IsReadHistory (omega arith)
      three_accepted

do_linearization-total_example :
    (do_linearization 8 (of_values three) ≡ some (ok tt))
    ⊎ (do_linearization 8 (of_values three) ≡ some (fail violation))
do_linearization-total_example =
    do_linearization-total (of_values three) 8 three-IsReadHistory (omega arith)

prune_complete_example : minmax (prune 3 three) ≡ []
prune_complete_example = prune_complete 3 three three-IsOrdered three-IsRead (omega arith)

abbrev nested : List CoverVal
nested = around ∷ inside ∷ []

prune-IsLinearizable_example : IsLinearizable nested
unfolding prune
prune-IsLinearizable_example =
    prune-IsLinearizable 2 nested (ground arith) (ground arith) empty-IsLinearizable

cover-SplitsAt_example :
    (gap : AtomicInterval) × (get_elem? (complement (cover three)).atoms 1 ≡ some gap)
    × SplitsAt around (inside ∷ record behind { val = val 4 } ∷ []) gap
unfolding is_atomic cover li_mo.Interval.Range.interval
cover-SplitsAt_example =
    cover-SplitsAt around (inside ∷ record behind { val = val 4 } ∷ []) three-IsOrdered three-IsRead
      refl

three_gap : SplitsAt around (inside ∷ record behind { val = val 4 } ∷ []) (atomic true 7 10 true)
three_gap = record {
  first = omega arith;
  wide = omega arith;
  sides = (inl (omega arith), (inr (omega arith), tt));
  second = there (here (omega arith));
}
