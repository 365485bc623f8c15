-- ===== src/Segment/Segmented.antt =====
-- The cutting of all values of a history, and the check behind it.
use li_mo.Base.{
  ℕ, suc, ◌-◌, ◌<◌, ◌≤◌, ◌≡◌, inl, inr, refl, sym, ◌∙◌, subst, true, false, not, none, some, List,
  [], ◌∷◌, ◌++◌, arith, leb, length, get_elem?, get_elem?_bound, some_inj, nothing, cell, put,
  cell-put, put-cell, cell-put_same, All, All-append, any, Any, Bool-cases, Option-cases,
}
use li_mo.Base.Run.{each_inv, Ends}
use li_mo.Event.{Val}
use li_mo.Interval.Atomic.{AtomicInterval}
use li_mo.Relation.Product.{Stay}
use li_mo.Matrix.{matrix}
use li_mo.Matrix.Entries.{matrix-IsFull, at-matrix}
use li_mo.Segment.{
  SegNode, Segmentation, segmentation, timestamps, finite, all_finite, segmentize, segment, cut,
}
use li_mo.Segment.Check.{
  Accessor, SegmentAccessor, insert_timestamp, sort_timestamps, gather, builder_of, cut_value,
}
use li_mo.Segment.Cuts.{segmentize-InSegment}
use li_mo.Segment.Cross.{Fits}
use li_mo.Segment.Rooms.{Room, make_room-Room}

insert_timestamp-All {κ} :
    (P : ℕ → Type κ) (t : ℕ) (us : List ℕ) → P t → All P us → All P (insert_timestamp t us)
unfolding insert_timestamp
insert_timestamp-All P t [] h k = (h, tt)
insert_timestamp-All P t (u ∷ us) h k = elim (Bool-cases (leb t u)) [
  | inl e ↦ rw (e, insert_timestamp) (h, k)
  | inr e ↦ rw (e, insert_timestamp) (k.0, insert_timestamp-All P t us h k.1)
]

sort_timestamps-All {κ} : (P : ℕ → Type κ) (ts : List ℕ) → All P ts → All P (sort_timestamps ts)
unfolding sort_timestamps
sort_timestamps-All P [] h = tt
sort_timestamps-All P (t ∷ ts) h =
    insert_timestamp-All P t (sort_timestamps ts) h.0 (sort_timestamps-All P ts h.1)

abbrev pub IsFinite : ℕ → Type 0
IsFinite t = finite t ≡ true

-- The operations of the value were called and returned.
abbrev pub IsDone : SegNode → Type 0
IsDone n = All IsFinite (timestamps n)

abbrev pub HasNode : Accessor → Val → Type 0
HasNode acc v = (n : SegNode) × (cell acc v.thread v.idx ≡ some n) × IsDone n

gather-All :
    (acc : Accessor) (vs : List Val) → All (HasNode acc) vs → Ends (gather acc vs) (All IsFinite)
unfolding gather
gather-All acc vs h =
    each_inv (All IsFinite) (HasNode acc) _
      (λ v conc q p.
        rw q.1 (conc ++ timestamps q.0, refl, All-append IsFinite conc (timestamps q.0) p q.2))
      vs [] h tt

none_infinite : (ts : List ℕ) → All IsFinite ts → any (λ t. not (finite t)) ts ≡ false
unfolding any
none_infinite [] h = refl
none_infinite (t ∷ ts) h = rw (h.0, none_infinite ts h.1) refl

segmentize_lem :
    (n : SegNode) (conc : List ℕ)
    → IsDone n
    → All IsFinite conc
    → segmentize (builder_of n) conc
      ≡ some (segmentation (cut n.add_call n.add_ret conc) (cut n.rmv_call n.rmv_ret conc))
unfolding segmentize all_finite
segmentize_lem n conc d h = rw guard refl
  where
    guard : all_finite (builder_of n) conc ≡ true
    guard = rw (none_infinite conc h, d.0, d.1) (ground arith)

segment_bound :
    (ts : List ℕ) (k : ℕ) (i : AtomicInterval) → segment ts k ≡ some i → k < length ts - 1
unfolding segment
segment_bound ts k i e = elim (Option-cases (get_elem? ts (suc k))) [
  | inl n ↦ absurd (no_end n)
  | inr to ↦ omega (arith, get_elem?_bound ts (suc k) to.0 to.1)
]
  where
    no_end : get_elem? ts (suc k) ≡ none → ⊥
    no_end n = elim (Option-cases (get_elem? ts k)) [
      | inl m ↦ nothing (sym (rw (m, segment) refl) ∙ e)
      | inr from ↦ nothing (sym (rw (from.1, segment, n) refl) ∙ e)
    ]

-- The value was pushed and popped while its operations ran.
abbrev pub During : SegNode → Stay → Type 0
During n s = (n.add_call ≤ s.from) × (s.from < n.add_ret) × (n.rmv_call ≤ s.to) × (s.to < n.rmv_ret)

fresh-Fits :
    (n : SegNode) (conc : List ℕ) (s : Stay)
    → IsDone n
    → All IsFinite conc
    → During n s
    → Fits (segmentation (cut n.add_call n.add_ret conc) (cut n.rmv_call n.rmv_ret conc)) s
fresh-Fits n conc s d h u =
    let seg = segmentation (cut n.add_call n.add_ret conc) (cut n.rmv_call n.rmv_ret conc) in
    let found =
      segmentize-InSegment (builder_of n) conc seg s.from s.to (segmentize_lem n conc d h) u.0 u.1
        u.2 u.3 in
    record {
      sized = record {
        full = matrix-IsFull (length seg.add_ts - 1) (length seg.rmv_ts - 1) true;
        rows_eq = unfold matrix in refl;
        cols_eq = unfold matrix in refl;
      };
      add_idx = found.0.0;
      rmv_idx = found.1.0;
      add_seg = found.0.1;
      rmv_seg = found.1.1;
      add_is = found.0.2;
      rmv_is = found.1.2;
      in_add = found.0.3;
      in_rmv = found.1.3;
      possible =
          at-matrix (length seg.add_ts - 1) (length seg.rmv_ts - 1) found.0.0 found.1.0 true
            (segment_bound seg.add_ts found.0.0 found.0.1 found.0.2)
            (segment_bound seg.rmv_ts found.1.0 found.1.1 found.1.2);
    }

module _ (stay : ℕ → ℕ → Stay) (order : List Val) (acc : Accessor) where
  -- The value has a node, was pushed and popped while its operations ran, and the values that it is
  -- concurrent with are in the order as well.
  pub record Ready (v : Val) : Type 0 where
    pub node : SegNode
    pub found : cell acc v.thread v.idx ≡ some node
    pub is_done : IsDone node
    pub during : During node (stay v.thread v.idx)
    pub conc_in : All (λ w. Any (λ u. u ≡ w) order) node.conc

  abbrev pub Fit : SegmentAccessor → Type 0
  Fit t = (k l : ℕ) (seg : Segmentation) → cell t k l ≡ some (some seg) → Fits seg (stay k l)

  abbrev pub Cut : Val → SegmentAccessor → Type 0
  Cut v t = (seg : Segmentation) × (cell t v.thread v.idx ≡ some (some seg))

  pub cut_value-Cut :
      (v : Val) (t : SegmentAccessor) (r : Ready v)
      → All (HasNode acc) r.node.conc
      → Fit t
      → Ends (cut_value acc v t) (λ u. Fit u × Cut v u × ((y : Val) → Cut y t → Cut y u))
  unfolding cut_value
  cut_value-Cut v t r has h =
      let room = make_room-Room v t in
      let conc = gather-All acc r.node.conc has in
      let sorted = sort_timestamps-All IsFinite conc.0 conc.2 in
      let seg =
        segmentation (cut r.node.add_call r.node.add_ret (sort_timestamps conc.0))
          (cut r.node.rmv_call r.node.rmv_ret (sort_timestamps conc.0)) in
      rw room.1 (
        rw r.found (
          rw conc.1 (
            rw (segmentize_lem r.node (sort_timestamps conc.0) r.is_done sorted) (
              put room.0 v.thread v.idx (some seg),
              refl,
              (
                fit room.0 seg room.2 (
                    fresh-Fits r.node (sort_timestamps conc.0) (stay v.thread v.idx) r.is_done
                      sorted r.during),
                (seg, cell-put_same room.0 v.thread v.idx (some seg) room.2.there.0 room.2.there.1),
                λ y c. keep room.0 seg y c.0 (room.2.kept y.thread y.idx (some c.0) c.1),
              ),
            ))))
    where
      fit :
          (room : SegmentAccessor) (seg : Segmentation)
          → Room v t room
          → Fits seg (stay v.thread v.idx)
          → Fit (put room v.thread v.idx (some seg))
      fit room seg o f k l z e = elim (put-cell room v.thread v.idx k l (some seg) (some z) e) [
        | inl (p, q, g) ↦
            subst (λ i. Fits z (stay i l)) p
              (subst (λ j. Fits z (stay v.thread j)) q
                (subst (λ w. Fits w (stay v.thread v.idx)) (sym (some_inj g)) f))
        | inr g ↦ elim (o.fresh k l (some z) g) [
          | inl i ↦ h k l z i
          | inr i ↦ absurd (nothing (sym i))
        ]
      ]

      keep :
          (room : SegmentAccessor) (seg : Segmentation) (y : Val) (old : Segmentation)
          → cell room y.thread y.idx ≡ some (some old)
          → Cut y (put room v.thread v.idx (some seg))
      keep room seg y old e =
          elim (cell-put room v.thread v.idx y.thread y.idx (some seg) (some old) e) [
            | inl (p, q, g) ↦ (seg, g)
            | inr g ↦ (old, g)
          ]
