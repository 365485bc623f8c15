-- ===== src/Tests/Segments.antt =====
-- Bounds and segments at concrete timestamps.
use li_mo.Base.{
  ℕ, zero, suc, ◌≡◌, ◌&&◌, ◌||◌, ◌⊎◌, refl, Bool, true, false, some, [], ◌∷◌, arith, cell, here,
  there, ok, fail, violation,
}
use li_mo.Base.Run.{Ends, ◌>>=◌}
use li_mo.Event.{Val}
use li_mo.Matrix.{Matrix, at, plus, times}
use li_mo.Matrix.Entrywise.{Sized, plus-times-Entries}
use li_mo.Segment.Check.{Accessor, segmentize_all, check_segments}
use li_mo.Segment.Segmented.{Ready}
use li_mo.Segment.Accepted.{segmentize_all-check_segments}
use li_mo.Interval.Atomic.{closed, closedopen, contains}
use li_mo.Relation.Product.{Stay}
use li_mo.Logic.{Bound}
use li_mo.Segment.{stack, SegNode, SegmentBuilder, Segmentation, segmentation, invalid, segmentize}
use li_mo.Segment.Orders.{Crosses, invalid_stack-Crosses}
use li_mo.Segment.Cuts.{CutsAt, segmentize-CutsAt}

abbrev early : Bound
early = record { add = closed 2 4; rmv = closed 5 7 }

abbrev wide : Bound
wide = record { add = closed 1 6; rmv = closed 5 9 }

abbrev inner_stay : Stay
inner_stay = record { from = 3; to = 6; lasts = omega arith }

abbrev outer_stay : Stay
outer_stay = record { from = 2; to = 8; lasts = omega arith }

abbrev late_stay : Stay
late_stay = record { from = 5; to = 9; lasts = omega arith }

invalid_stack-Crosses_example : Crosses inner_stay late_stay ⊎ Crosses late_stay inner_stay
unfolding invalid contains
invalid_stack-Crosses_example =
    invalid_stack-Crosses (closedopen 2 4) (closedopen 6 7) (closedopen 4 6) (closedopen 7 10)
      inner_stay late_stay refl refl refl refl refl

abbrev builder : SegmentBuilder
builder = record { add_call = 1; add_ret = 5; rmv_call = 7; rmv_ret = 9 }

abbrev cut_up : Segmentation
cut_up = segmentation (1 ∷ 2 ∷ 4 ∷ 5 ∷ []) (7 ∷ 8 ∷ 9 ∷ [])

segmented : segmentize builder (2 ∷ 4 ∷ 6 ∷ 8 ∷ []) ≡ some cut_up
unfolding segmentize
segmented = refl

segmentize-CutsAt_example :
    CutsAt 1 5 (2 ∷ 4 ∷ 6 ∷ 8 ∷ []) cut_up.add_ts 3
    × CutsAt 7 9 (2 ∷ 4 ∷ 6 ∷ 8 ∷ []) cut_up.rmv_ts 8
segmentize-CutsAt_example =
    segmentize-CutsAt builder (2 ∷ 4 ∷ 6 ∷ 8 ∷ []) cut_up 3 8 (ground arith) segmented (omega arith)
      (omega arith) (omega arith) (omega arith)

abbrev v00 : Val
v00 = record { thread = 0; idx = 0 }

abbrev v01 : Val
v01 = record { thread = 0; idx = 1 }

abbrev node0 : SegNode
node0 = record {
  thread = 0;
  index = 0;
  add_call = 1;
  add_ret = 4;
  rmv_call = 9;
  rmv_ret = 12;
  conc = v01 ∷ [];
}

abbrev node1 : SegNode
node1 = record {
  thread = 0;
  index = 1;
  add_call = 2;
  add_ret = 6;
  rmv_call = 7;
  rmv_ret = 10;
  conc = v00 ∷ [];
}

abbrev two_nodes : Accessor
two_nodes = (node0 ∷ node1 ∷ []) ∷ []

abbrev outer : Stay
outer = record { from = 3; to = 10; lasts = omega arith }

abbrev enclosed : Stay
enclosed = record { from = 5; to = 8; lasts = omega arith }

abbrev stays : ℕ → ℕ → Stay
stays i zero = outer
stays i (suc j) = enclosed

stays_apart : (i j k l : ℕ) → Crosses (stays i j) (stays k l) → ⊥
stays_apart i zero k zero c = omega (arith, c)
stays_apart i zero k (suc l) c = omega (arith, c)
stays_apart i (suc j) k zero c = omega (arith, c)
stays_apart i (suc j) k (suc l) c = omega (arith, c)

node0-Ready : Ready stays (v00 ∷ v01 ∷ []) two_nodes v00
unfolding cell
node0-Ready = record {
  node = node0;
  found = refl;
  is_done = (refl, (refl, (refl, (refl, tt))));
  during = (omega arith, omega arith, omega arith, omega arith);
  conc_in = (there (here refl), tt);
}

node1-Ready : Ready stays (v00 ∷ v01 ∷ []) two_nodes v01
unfolding cell
node1-Ready = record {
  node = node1;
  found = refl;
  is_done = (refl, (refl, (refl, (refl, tt))));
  during = (omega arith, omega arith, omega arith, omega arith);
  conc_in = (here refl, tt);
}

segmentize_all-check_segments_example :
    Ends
      (segmentize_all (v00 ∷ v01 ∷ []) two_nodes)
      (λ t. check_segments stack (v00 ∷ v01 ∷ []) two_nodes t ≡ some (ok tt))
segmentize_all-check_segments_example =
    segmentize_all-check_segments stays (v00 ∷ v01 ∷ []) two_nodes (node0-Ready, (node1-Ready, tt))
      stays_apart

abbrev crossed : Accessor
crossed =
    (record {
      thread = 0;
      index = 0;
      add_call = 1;
      add_ret = 3;
      rmv_call = 10;
      rmv_ret = 12;
      conc = v01 ∷ [];
    }
      ∷ record {
        thread = 0;
        index = 1;
        add_call = 5;
        add_ret = 7;
        rmv_call = 15;
        rmv_ret = 17;
        conc = v00 ∷ [];
      }
      ∷ [])
    ∷ []

-- Two values that must cross are a violation for a stack.
check_segments-crossed :
    (segmentize_all (v00 ∷ v01 ∷ []) crossed >>= check_segments stack (v00 ∷ v01 ∷ []) crossed)
    ≡ some (fail violation)
unfolding segmentize_all check_segments li_mo.Segment.valid
check_segments-crossed = refl

abbrev grid : Matrix
grid = record { rows = 1; cols = 2; cells = true ∷ false ∷ [] }

abbrev other : Matrix
other = record { rows = 1; cols = 2; cells = true ∷ true ∷ [] }

plus-times-Entries_example :
    Ends (plus grid other) (λ m.
      Sized 1 2 m
      × ((r c : ℕ) (x y : Bool)
          → at grid r c ≡ some x
          → at other r c ≡ some y
          → at m r c ≡ some (x || y)))
    × Ends (times grid other) (λ m.
      Sized 1 2 m
      × ((r c : ℕ) (x y : Bool)
          → at grid r c ≡ some x
          → at other r c ≡ some y
          → at m r c ≡ some (x && y)))
plus-times-Entries_example = plus-times-Entries grid other refl refl refl refl
