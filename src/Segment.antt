-- ===== src/Segment.antt =====
-- include/segment.hpp and include/segmentizer.hpp: the segments into which the timestamps of concurrent
-- operations cut the push and the pop of a value, and the test whether two values can lie in four
-- segments.
pub mod Orders
pub mod Cuts
pub mod Check
pub mod Cross
pub mod Crossing
pub mod Pairs
pub mod NoAlarm
pub mod Rooms
pub mod Segmented
pub mod Accepted
use li_mo.Base.{
  ℕ, suc, ◌+◌, ◌-◌, length, ◌≡◌, Bool, true, false, not, ◌&&◌, ◌||◌, Option, none, some, List, [],
  ◌∷◌, ◌++◌, if◌then◌else◌, ltb, filter, any, get_elem?, Result, ok, fail, std_error, ◌>>=◌,
}
use li_mo.Event.{Val}
use li_mo.Matrix.{Matrix, matrix}
use li_mo.Interval.Atomic.{AtomicInterval, closed, closedopen, neg_inf, pos_inf, overlaps, preceeds}

pub data Adt : Type 0 where
  unknown stack queue set : Adt

unfoldable pub ordered_as : AtomicInterval → AtomicInterval → AtomicInterval → AtomicInterval → Bool
unfolding preceeds
ordered_as a b c d = preceeds a b && preceeds b c && preceeds c d

unfoldable pub invalid :
    Adt → AtomicInterval → AtomicInterval → AtomicInterval → AtomicInterval → Result Bool
unfolding ordered_as
invalid stack aa ra ab rb = ok (ordered_as aa ab ra rb || ordered_as ab aa rb ra)
invalid queue aa ra ab rb = ok (ordered_as aa ab rb ra || ordered_as ab aa ra rb)
invalid unknown aa ra ab rb = fail std_error
invalid set aa ra ab rb = fail std_error

unfoldable pub valid :
    Adt → AtomicInterval → AtomicInterval → AtomicInterval → AtomicInterval → Result Bool
unfolding invalid
valid adt aa ra ab rb = invalid adt aa ra ab rb >>= λ b. ok (not b)

pub record SegNode : Type 0 where
  pub thread : ℕ
  pub index : ℕ
  pub add_call : ℕ
  pub add_ret : ℕ
  pub rmv_call : ℕ
  pub rmv_ret : ℕ
  pub conc : List Val

abbrev pub seg_node : ℕ → ℕ → SegNode
seg_node t i = record {
  thread = t;
  index = i;
  add_call = pos_inf;
  add_ret = pos_inf;
  rmv_call = pos_inf;
  rmv_ret = pos_inf;
  conc = [];
}

abbrev pub add_i : SegNode → AtomicInterval
add_i n = closed n.add_call n.add_ret

abbrev pub rmv_i : SegNode → AtomicInterval
rmv_i n = closed n.rmv_call n.rmv_ret

abbrev count : Bool → ℕ
count b = if b then 1 else 0

unfoldable pub overlap_count : SegNode → SegNode → ℕ
unfolding overlaps
overlap_count n v =
    count (overlaps (add_i n) (add_i v))
    + count (overlaps (add_i n) (rmv_i v))
    + count (overlaps (rmv_i n) (add_i v))
    + count (overlaps (rmv_i n) (rmv_i v))

abbrev pub timestamps : SegNode → List ℕ
timestamps n = n.add_call ∷ n.add_ret ∷ n.rmv_call ∷ n.rmv_ret ∷ []

pub record SegmentBuilder : Type 0 where
  pub add_call : ℕ
  pub add_ret : ℕ
  pub rmv_call : ℕ
  pub rmv_ret : ℕ

pub record Segmentation : Type 0 where
  pub add_ts : List ℕ
  pub rmv_ts : List ℕ
  pub valid : Matrix

-- `Segmentation::Segmentation`: every pair of segments is possible at first.
abbrev pub segmentation : List ℕ → List ℕ → Segmentation
segmentation add_ts rmv_ts = record {
  add_ts = add_ts;
  rmv_ts = rmv_ts;
  valid = matrix (length add_ts - 1) (length rmv_ts - 1) true;
}

abbrev pub finite : ℕ → Bool
finite t = ltb t pos_inf && ltb neg_inf t

-- The timestamps strictly between the two ends, with the ends.
unfoldable pub cut : ℕ → ℕ → List ℕ → List ℕ
unfolding filter
cut call ret conc = call ∷ filter (λ t. ltb call t && ltb t ret) conc ++ ret ∷ []

-- The assertions of `Segmentize`.
unfoldable pub all_finite : SegmentBuilder → List ℕ → Bool
unfolding any
all_finite b conc =
    finite b.add_call
    && finite b.add_ret
    && finite b.rmv_call
    && finite b.rmv_ret
    && not (any (λ t. not (finite t)) conc)

-- `Segmentize`; `none` where an assertion fails.
unfoldable pub segmentize : SegmentBuilder → List ℕ → Option Segmentation
unfolding cut all_finite
segmentize b conc =
    if all_finite b conc
    then some (segmentation (cut b.add_call b.add_ret conc) (cut b.rmv_call b.rmv_ret conc))
    else none

-- `Segmentation::add` and `Segmentation::rmv`: the segment from a timestamp to the next.
unfoldable pub segment : List ℕ → ℕ → Option AtomicInterval
unfolding get_elem?
segment ts idx = elim (get_elem? ts idx) [
  | none ↦ none
  | some from ↦ elim (get_elem? ts (suc idx)) [ none ↦ none | some to ↦ some (closedopen from to) ]
]
