-- ===== src/Segment/Check.antt =====
-- monitor/src/segmentizer.cpp: all values of a history cut into segments, and the search for pairs of
-- segments that no order of the sequential object allows.
use li_mo.Base.{
  ℕ, suc, ◌-◌, false, not, Option, none, some, List, [], ◌∷◌, ◌++◌, if◌then◌else◌, leb, length,
  get_elem?, set_elem, grow, cell, put, violation,
}
use li_mo.Base.Run.{Run, ◌>>=◌, return, read, throw, loop, each}
use li_mo.Event.{Val}
use li_mo.Matrix.{Matrix, matrix, at, set_or, times, all_false}
use li_mo.Segment.{
  Adt, SegNode, SegmentBuilder, Segmentation, timestamps, segmentize, segment, valid,
}

abbrev pub Accessor : Type 0
Accessor = List (List SegNode)

-- A null pointer is `none`.
abbrev pub SegmentAccessor : Type 0
SegmentAccessor = List (List (Option Segmentation))

-- `std::sort` on timestamps.
unfoldable pub insert_timestamp : ℕ → List ℕ → List ℕ
insert_timestamp t [] = t ∷ []
insert_timestamp t (u ∷ us) =
    let rest = insert_timestamp t us in if leb t u then t ∷ u ∷ us else u ∷ rest

unfoldable pub sort_timestamps : List ℕ → List ℕ
unfolding insert_timestamp
sort_timestamps [] = []
sort_timestamps (t ∷ ts) = insert_timestamp t (sort_timestamps ts)

-- The timestamps of the concurrent values.
unfoldable pub gather : Accessor → List Val → Run (List ℕ)
unfolding each cell
gather acc vs =
    each (λ v conc. read (cell acc v.thread v.idx) >>= λ n. return (conc ++ timestamps n)) vs []

abbrev pub builder_of : SegNode → SegmentBuilder
builder_of n = record {
  add_call = n.add_call;
  add_ret = n.add_ret;
  rmv_call = n.rmv_call;
  rmv_ret = n.rmv_ret;
}

-- The table with a cell for the value.
unfoldable pub make_room : Val → SegmentAccessor → Run SegmentAccessor
unfolding grow get_elem? set_elem
make_room it segs =
    let longer = grow segs (suc it.thread) [] in
    read (get_elem? longer it.thread) >>= λ row.
    return (set_elem longer it.thread (grow row (suc it.idx) none))

unfoldable pub cut_value : Accessor → Val → SegmentAccessor → Run SegmentAccessor
unfolding make_room gather sort_timestamps segmentize put
cut_value acc it segs = make_room it segs >>= λ room. read (cell acc it.thread it.idx) >>= λ n.
    gather acc n.conc >>= λ conc. read (segmentize (builder_of n) (sort_timestamps conc)) >>= λ s.
    return (put room it.thread it.idx (some s))

-- `segmentize`
unfoldable pub segmentize_all : List Val → Accessor → Run SegmentAccessor
unfolding each cut_value
segmentize_all order acc = each (cut_value acc) order []

-- One round of the innermost loop: a pair of segments of the one value, and one of the other.
unfoldable pub cross_at :
    Adt → Segmentation → Segmentation → ℕ → ℕ → ℕ → ℕ → Matrix × Matrix → Run (Matrix × Matrix)
unfolding at segment set_or
cross_at adt curr other i j i2 j2 (n_c, o_c) = read (at other.valid i2 j2) >>= λ b.
    if not b
    then return (n_c, o_c)
    else (read (segment curr.add_ts i) >>= λ add_i. read (segment curr.rmv_ts j) >>= λ rmv_j.
        read (segment other.add_ts i2) >>= λ add_i2. read (segment other.rmv_ts j2) >>= λ rmv_j2.
        some (valid adt add_i rmv_j add_i2 rmv_j2) >>= λ vl.
        set_or n_c i j vl >>= λ n. set_or o_c i2 j2 vl >>= λ o. return (n, o))

-- The two loops over the segments of the other value.
unfoldable pub cross_pair :
    Adt → Segmentation → Segmentation → ℕ → ℕ → Matrix × Matrix → Run (Matrix × Matrix)
unfolding at loop cross_at
cross_pair adt curr other i j st = read (at curr.valid i j) >>= λ b.
    if not b
    then return st
    else loop (λ i2. loop (cross_at adt curr other i j i2) 0 (length other.rmv_ts - 1)) 0
        (length other.add_ts - 1) st

-- The loops over the pairs of segments of both: the pairs that go together with some pair of the other.
unfoldable pub cross : Adt → Segmentation → Segmentation → Run (Matrix × Matrix)
unfolding loop cross_pair matrix
cross adt curr other =
    loop (λ i. loop (cross_pair adt curr other i) 0 (length curr.rmv_ts - 1)) 0
      (length curr.add_ts - 1)
      (matrix curr.valid.rows curr.valid.cols false, matrix other.valid.rows other.valid.cols false)

-- What a pointer points to; it may not be null.
unfoldable pub deref : SegmentAccessor → Val → Run Segmentation
unfolding cell
deref segs v = elim (cell segs v.thread v.idx) [ none ↦ none | some p ↦ read p ]

abbrev pub store : SegmentAccessor → Val → Segmentation → SegmentAccessor
store segs v s = put segs v.thread v.idx (some s)

abbrev pub throw_if_all_false : Segmentation → SegmentAccessor → Run SegmentAccessor
throw_if_all_false s segs = if all_false s.valid then throw violation else return segs

-- The second write of a pair, and the tests. The two values may be one and the same, so each is read
-- again behind a write.
unfoldable pub check_other : Val → Val → Matrix → SegmentAccessor → Run SegmentAccessor
unfolding deref times put
check_other it v o_c segs = deref segs v >>= λ other. times other.valid o_c >>= λ other_valid.
    let both = store segs v (record other { valid = other_valid }) in
    deref both it >>= λ curr_end.
    deref both v >>= λ other_end. throw_if_all_false curr_end both >>= throw_if_all_false other_end

unfoldable pub check_both : Adt → Val → Val → SegmentAccessor → Run SegmentAccessor
unfolding deref cross times put check_other
check_both adt it v segs = deref segs it >>= λ curr. deref segs v >>= λ other.
    cross adt curr other >>= λ (n_c, o_c). times curr.valid n_c >>= λ curr_valid.
    check_other it v o_c (store segs it (record curr { valid = curr_valid }))

-- A value that is outside of the table is skipped.
unfoldable pub check_pair : Adt → Val → Val → SegmentAccessor → Run SegmentAccessor
unfolding cell check_both
check_pair adt it v segs = elim (cell segs v.thread v.idx) [
  | none ↦ return segs
  | some p ↦ check_both adt it v segs
]

unfoldable pub check_value : Adt → Accessor → Val → SegmentAccessor → Run SegmentAccessor
unfolding cell deref each check_pair
check_value adt acc it segs = elim (cell segs it.thread it.idx) [
  | none ↦ return segs
  | some p ↦ deref segs it >>= λ curr.
      read (cell acc it.thread it.idx) >>= λ n. each (check_pair adt it) n.conc segs
]

-- The last loop, over all pointers of the table.
unfoldable pub check_left : SegmentAccessor → Run (Unit {0})
unfolding each all_false
check_left segs =
    each
      (λ row _.
        each
          (λ p _. elim p [
            | none ↦ return tt
            | some s ↦ if all_false s.valid then throw violation else return tt
          ])
          row tt)
      segs tt

-- `check_segments`
unfoldable pub check_segments : Adt → List Val → Accessor → SegmentAccessor → Run (Unit {0})
unfolding each check_value check_left
check_segments adt order acc segs = each (check_value adt acc) order segs >>= check_left
