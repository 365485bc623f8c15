-- ===== src/Segment/Pairs.antt =====
-- The check of one pair of values: where the values can be those of a stack, it returns, and each value
-- still lies in segments that are possible.
use li_mo.Base.{
  ℕ, ◌-◌, ◌≡◌, ◌≢◌, ◌⊎◌, inl, inr, refl, sym, ◌∙◌, subst, true, ◌&&◌, Option, none, some, arith,
  length, cell, cell-put, put-cell, cell-put_same, cell-put_other, same_or_not, ok,
}
use li_mo.Base.Run.{Ends}
use li_mo.Event.{Val}
use li_mo.Relation.Product.{Stay}
use li_mo.Matrix.{Matrix, at, times}
use li_mo.Matrix.Entries.{all_false-at}
use li_mo.Matrix.Entrywise.{Sized, combine-Entry}
use li_mo.Segment.{stack, Segmentation}
use li_mo.Segment.Check.{SegmentAccessor, deref, store, check_other, check_both, throw_if_all_false}
use li_mo.Segment.Orders.{Crosses}
use li_mo.Segment.Cross.{Fits}
use li_mo.Segment.Crossing.{cross-Hit}

-- A value stays in its segments under a smaller matrix that still allows them.
abbrev pub refit :
    (seg : Segmentation) (s : Stay) (f : Fits seg s) (m : Matrix)
    → Sized (length seg.add_ts - 1) (length seg.rmv_ts - 1) m
    → at m f.add_idx f.rmv_idx ≡ some true
    → Fits (record seg { valid = m }) s
refit seg s f m z p = record {
  sized = z;
  add_idx = f.add_idx;
  rmv_idx = f.rmv_idx;
  add_seg = f.add_seg;
  rmv_seg = f.rmv_seg;
  add_is = f.add_is;
  rmv_is = f.rmv_is;
  in_add = f.in_add;
  in_rmv = f.in_rmv;
  possible = p;
}

times_lem :
    (seg : Segmentation) (s : Stay) (f : Fits seg s) (m : Matrix)
    → Sized (length seg.add_ts - 1) (length seg.rmv_ts - 1) m
    → at m f.add_idx f.rmv_idx ≡ some true
    → Ends (times seg.valid m) (λ n.
      Sized (length seg.add_ts - 1) (length seg.rmv_ts - 1) n
      × (at n f.add_idx f.rmv_idx ≡ some true))
unfolding times
times_lem seg s f m z p =
    let run =
      combine-Entry (λ x y. x && y) seg.valid m f.sized.full z.full
        (f.sized.rows_eq ∙ sym z.rows_eq) (f.sized.cols_eq ∙ sym z.cols_eq) in
    (
      run.0,
      run.1,
      (
        record {
          full = run.2.0.full;
          rows_eq = run.2.0.rows_eq ∙ f.sized.rows_eq;
          cols_eq = run.2.0.cols_eq ∙ f.sized.cols_eq;
        },
        run.2.1 f.add_idx f.rmv_idx true true f.possible p,
      ),
    )

pub deref-cell :
    (t : SegmentAccessor) (v : Val) (s : Segmentation)
    → cell t v.thread v.idx ≡ some (some s)
    → deref t v ≡ some (ok s)
unfolding deref
deref-cell t v s e = rw (e, deref) refl

-- A value that is there is there after a write.
store-cell :
    (t : SegmentAccessor) (v : Val) (s : Segmentation) (k l : ℕ) (w : Segmentation)
    → cell t k l ≡ some (some w)
    → (z : Segmentation) × (cell (store t v s) k l ≡ some (some z))
store-cell t v s k l w e = elim (cell-put t v.thread v.idx k l (some s) (some w) e) [
  | inl (p, q, g) ↦ (s, g)
  | inr g ↦ (w, g)
]

module _ (stay : ℕ → ℕ → Stay) (Null Listed : ℕ → ℕ → Type 0) where
  abbrev pub FitsPointer : ℕ → ℕ → Option Segmentation → Type 0
  FitsPointer k l none = Null k l
  FitsPointer k l (some seg) = Fits seg (stay k l)

  -- Each value that has a segmentation lies in segments of it that are possible, only some pointers are
  -- null, and the listed pointers are in the table.
  abbrev pub AllFit : SegmentAccessor → Type 0
  AllFit t =
      ((k l : ℕ) (p : Option Segmentation) → cell t k l ≡ some p → FitsPointer k l p)
      × ((k l : ℕ) → Listed k l → (p : Option Segmentation) × (cell t k l ≡ some p))

  store-AllFit :
      (t : SegmentAccessor) (v : Val) (seg : Segmentation)
      → AllFit t
      → Fits seg (stay v.thread v.idx)
      → AllFit (store t v seg)
  store-AllFit t v seg h f = (fits, stands)
    where
      fits :
          (k l : ℕ) (z : Option Segmentation)
          → cell (store t v seg) k l ≡ some z
          → FitsPointer k l z
      fits k l z e = elim (put-cell t v.thread v.idx k l (some seg) z e) [
        | inl (p, q, g) ↦
            subst (λ i. FitsPointer i l z) p
              (subst (λ j. FitsPointer v.thread j z) q
                (subst (λ w. FitsPointer v.thread v.idx w) (sym g) f))
        | inr g ↦ h.0 k l z g
      ]

      stands :
          (k l : ℕ) → Listed k l → (p : Option Segmentation) × (cell (store t v seg) k l ≡ some p)
      stands k l i =
          let old = h.1 k l i in
          elim (cell-put t v.thread v.idx k l (some seg) old.0 old.1) [
            | inl (p, q, g) ↦ (some seg, g)
            | inr g ↦ (old.0, g)
          ]

  not_all_false :
      (t : SegmentAccessor) (seg : Segmentation) (s : Stay)
      → Fits seg s
      → throw_if_all_false seg t ≡ some (ok t)
  not_all_false t seg s f = rw (all_false-at seg.valid f.add_idx f.rmv_idx f.possible) refl

  -- From the second write on.
  check_other-AllFit :
      (t : SegmentAccessor) (it v : Val) (c : Segmentation) (other : Segmentation) (o_c : Matrix)
      (f : Fits other (stay v.thread v.idx))
      → AllFit t
      → cell t it.thread it.idx ≡ some (some c)
      → cell t v.thread v.idx ≡ some (some other)
      → Sized (length other.add_ts - 1) (length other.rmv_ts - 1) o_c
      → at o_c f.add_idx f.rmv_idx ≡ some true
      → Ends (check_other it v o_c t) AllFit
  unfolding check_other
  check_other-AllFit t it v c other o_c f h e g z p =
      let run = times_lem other (stay v.thread v.idx) f o_c z p in
      let other_end = record other { valid = run.0 } in
      let both = store t v other_end in
      let fit =
        store-AllFit t v other_end h (refit other (stay v.thread v.idx) f run.0 run.2.0 run.2.1) in
      let there = store-cell t v other_end it.thread it.idx c e in
      let here_too = store-cell t v other_end v.thread v.idx other g in
      (
        both,
        runs run.0 there.0 here_too.0 run.1 there.1 here_too.1
            (not_all_false both there.0 _ (fit.0 it.thread it.idx (some there.0) there.1))
            (not_all_false both here_too.0 _ (fit.0 v.thread v.idx (some here_too.0) here_too.1)),
        fit,
      )
    where
      runs :
          (m : Matrix) (p q : Segmentation)
          → times other.valid o_c ≡ some (ok m)
          → cell (store t v (record other { valid = m })) it.thread it.idx ≡ some (some p)
          → cell (store t v (record other { valid = m })) v.thread v.idx ≡ some (some q)
          → throw_if_all_false p (store t v (record other { valid = m }))
            ≡ some (ok (store t v (record other { valid = m })))
          → throw_if_all_false q (store t v (record other { valid = m }))
            ≡ some (ok (store t v (record other { valid = m })))
          → check_other it v o_c t ≡ some (ok (store t v (record other { valid = m })))
      runs m p q em ep eq fp fq = rw (deref-cell t v other g) (
          rw em (
            rw (deref-cell (store t v (record other { valid = m })) it p ep)
              (rw (deref-cell (store t v (record other { valid = m })) v q eq) (rw fp fq))))

  module _ (never : (i j k l : ℕ) → Crosses (stay i j) (stay k l) → ⊥) where
    -- Two values that are not the same.
    apart-AllFit :
        (t : SegmentAccessor) (it v : Val) (c o : Segmentation)
        → AllFit t
        → cell t it.thread it.idx ≡ some (some c)
        → cell t v.thread v.idx ≡ some (some o)
        → (it.thread ≢ v.thread) ⊎ (it.idx ≢ v.idx)
        → Ends (check_both stack it v t) AllFit
    unfolding check_both
    apart-AllFit t it v c o h e g d =
        let f = h.0 it.thread it.idx (some c) e in
        let k = h.0 v.thread v.idx (some o) g in
        let marks =
          cross-Hit c o (stay it.thread it.idx) (stay v.thread v.idx) f k (never _ _ _ _)
            (never _ _ _ _) in
        let run = times_lem c (stay it.thread it.idx) f marks.0.0 marks.2.0.0 marks.2.1.0 in
        let new = record c { valid = run.0 } in
        let first = store t it new in
        rw (deref-cell t it c e) (
          rw (deref-cell t v o g) (
            rw marks.1 (
              rw run.1 (
                check_other-AllFit first it v new o marks.0.1 k
                  (store-AllFit t it new h
                    (refit c (stay it.thread it.idx) f run.0 run.2.0 run.2.1))
                  (cell-put_same t it.thread it.idx (some new) (some c) e)
                  (cell-put_other t it.thread it.idx v.thread v.idx (some new) d ∙ g) marks.2.0.1
                  marks.2.1.1))))

    -- A value and itself.
    self-AllFit :
        (t : SegmentAccessor) (it : Val) (c : Segmentation)
        → AllFit t
        → cell t it.thread it.idx ≡ some (some c)
        → Ends (check_both stack it it t) AllFit
    unfolding check_both
    self-AllFit t it c h e =
        let s = stay it.thread it.idx in
        let f = h.0 it.thread it.idx (some c) e in
        let marks = cross-Hit c c s s f f (never _ _ _ _) (never _ _ _ _) in
        let run = times_lem c s f marks.0.0 marks.2.0.0 marks.2.1.0 in
        let new = record c { valid = run.0 } in
        let fit = refit c s f run.0 run.2.0 run.2.1 in
        let there = cell-put_same t it.thread it.idx (some new) (some c) e in
        rw (deref-cell t it c e) (
          rw marks.1 (
            rw run.1 (
              check_other-AllFit (store t it new) it it new new marks.0.1 fit
                (store-AllFit t it new h fit) there there marks.2.0.1 marks.2.1.1)))

    pub check_both-AllFit :
        (t : SegmentAccessor) (it v : Val) (c o : Segmentation)
        → AllFit t
        → cell t it.thread it.idx ≡ some (some c)
        → cell t v.thread v.idx ≡ some (some o)
        → Ends (check_both stack it v t) AllFit
    check_both-AllFit t it v c o h e g = elim (same_or_not it.thread v.thread) [
      | inr d ↦ apart-AllFit t it v c o h e g (inl d)
      | inl p ↦ elim (same_or_not it.idx v.idx) [
        | inr d ↦ apart-AllFit t it v c o h e g (inr d)
        | inl q ↦
            subst (λ w. Ends (check_both stack it w t) AllFit) (same_val p q)
              (self-AllFit t it c h e)
      ]
    ]
      where
        same_val : it.thread ≡ v.thread → it.idx ≡ v.idx → it ≡ v
        same_val p q = ground arith
