-- ===== src/Segment/Crossing.antt =====
-- The four loops of the check of a pair: they return, and the pair of segments that each of two values
-- lies in goes together with that of the other.
use li_mo.Base.{
  ℕ, ◌-◌, ◌<◌, ◌≡◌, inl, inr, refl, sym, ap, ◌∙◌, subst, Bool, true, false, ◌||◌, Option, some,
  arith, length, some_inj, Bool-cases, ok, ok_inj, List,
}
use li_mo.Base.Run.{loop, Ends}
use li_mo.Interval.Atomic.{AtomicInterval, contains}
use li_mo.Relation.Product.{Stay}
use li_mo.Matrix.{Matrix, matrix, at, set_or}
use li_mo.Matrix.Entries.{IsFull, at_total, at_in, matrix-IsFull}
use li_mo.Matrix.Entrywise.{Sized, Ored, set_or-Ored}
use li_mo.Segment.{stack, Segmentation, segment, valid}
use li_mo.Segment.Check.{cross_at, cross_pair, cross}
use li_mo.Segment.Orders.{Crosses}
use li_mo.Segment.Cross.{Fits, segment-some, set_or-at, valid_stack, valid_total, Hits, loop-Hits}

clash : {o : Option Bool} → o ≡ some true → o ≡ some false → ⊥
clash p q = cc

in_same :
    (ts : List ℕ) (k l z : ℕ) (a b : AtomicInterval)
    → segment ts k ≡ some a
    → segment ts l ≡ some b
    → k ≡ l
    → contains b z ≡ true
    → contains a z ≡ true
in_same ts k l z a b e h p c =
    subst (λ i. contains i z ≡ true) (some_inj (sym h ∙ sym (ap (segment ts) p) ∙ e)) c

-- Where `set_or` writes true, the entry is true.
marked :
    (m n : Matrix) (r c s d : ℕ) (val : Bool)
    → r < m.rows
    → c < m.cols
    → IsFull m
    → Ored m r c val n
    → val ≡ true
    → r ≡ s
    → c ≡ d
    → at n s d ≡ some true
marked m n r c s d val h l f o v p q =
    let old = at_total m r c h l f in
    subst (λ z. at n z d ≡ some true) p
      (subst (λ z. at n r z ≡ some true) q
        (o.written old.0 old.1 ∙ ap (λ z. some (old.0 || z)) v ∙ ap some (or_true old.0)))
  where
    or_true : (b : Bool) → (b || true) ≡ true
    or_true b = ground arith

module _ (curr other : Segmentation) (x y : Stay) (f : Fits curr x) (g : Fits other y)
    (apart : Crosses x y → ⊥) (apart_too : Crosses y x → ⊥) where
  abbrev Shape : Matrix × Matrix → Type 0
  Shape st =
      Sized (length curr.add_ts - 1) (length curr.rmv_ts - 1) st.0
      × Sized (length other.add_ts - 1) (length other.rmv_ts - 1) st.1

  abbrev Hit : Matrix × Matrix → Type 0
  Hit st = (at st.0 f.add_idx f.rmv_idx ≡ some true) × (at st.1 g.add_idx g.rmv_idx ≡ some true)

  -- The indices are those of the segments that the values lie in.
  abbrev Match : ℕ → ℕ → ℕ → ℕ → Type 0
  Match i j i2 j2 =
      (((Unit {0} × (i ≡ f.add_idx)) × (j ≡ f.rmv_idx)) × (i2 ≡ g.add_idx)) × (j2 ≡ g.rmv_idx)

  module _ (i j i2 j2 : ℕ) (n_c o_c : Matrix) (a : i < length curr.add_ts - 1)
      (b : j < length curr.rmv_ts - 1) (c : i2 < length other.add_ts - 1)
      (d : j2 < length other.rmv_ts - 1) (sh : Shape (n_c, o_c)) where
    runs :
        (s t u v : AtomicInterval) (w : Bool) (n o : Matrix)
        → at other.valid i2 j2 ≡ some true
        → segment curr.add_ts i ≡ some s
        → segment curr.rmv_ts j ≡ some t
        → segment other.add_ts i2 ≡ some u
        → segment other.rmv_ts j2 ≡ some v
        → valid stack s t u v ≡ ok w
        → set_or n_c i j w ≡ some (ok n)
        → set_or o_c i2 j2 w ≡ some (ok o)
        → cross_at stack curr other i j i2 j2 (n_c, o_c) ≡ some (ok (n, o))
    unfolding cross_at
    runs s t u v w n o e es et eu ev ew en eo =
        rw e (rw es (rw et (rw eu (rw ev (rw ew (rw en (rw eo refl)))))))

    -- A pair of segments of the other value that is still possible.
    written :
        at other.valid i2 j2 ≡ some true
        → Ends
            (cross_at stack curr other i j i2 j2 (n_c, o_c))
            (Hits Shape Hit (Match i j i2 j2) (n_c, o_c))
    written e =
        let s = segment-some curr.add_ts i a in
        let t = segment-some curr.rmv_ts j b in
        let u = segment-some other.add_ts i2 c in
        let v = segment-some other.rmv_ts j2 d in
        let w = valid_total s.0 t.0 u.0 v.0 in
        let n = set_or-Ored n_c i j w.0 (rw sh.0.rows_eq a) (rw sh.0.cols_eq b) sh.0.full in
        let o = set_or-Ored o_c i2 j2 w.0 (rw sh.1.rows_eq c) (rw sh.1.cols_eq d) sh.1.full in
        (
          (n.0, o.0),
          runs s.0 t.0 u.0 v.0 w.0 n.0 o.0 e s.1 t.1 u.1 v.1 w.1 n.1 o.1,
          (
            (shape n_c n.0 sh.0 n.2.sized, shape o_c o.0 sh.1 o.2.sized),
            (λ h. (set_or-at n_c n.0 i j w.0 _ _ n.2 h.0, set_or-at o_c o.0 i2 j2 w.0 _ _ o.2 h.1)),
            λ m.
                let true_here =
                  is_valid s.0 t.0 u.0 v.0 w.0 w.1
                    (in_same curr.add_ts i f.add_idx x.from s.0 f.add_seg s.1 f.add_is m.0.0.0.1
                      f.in_add)
                    (in_same curr.rmv_ts j f.rmv_idx x.to t.0 f.rmv_seg t.1 f.rmv_is m.0.0.1
                      f.in_rmv)
                    (in_same other.add_ts i2 g.add_idx y.from u.0 g.add_seg u.1 g.add_is m.0.1
                      g.in_add)
                    (in_same other.rmv_ts j2 g.rmv_idx y.to v.0 g.rmv_seg v.1 g.rmv_is m.1
                      g.in_rmv) in
                (
                  marked n_c n.0 i j f.add_idx f.rmv_idx w.0 (rw sh.0.rows_eq a) (rw sh.0.cols_eq b)
                      sh.0.full n.2 true_here m.0.0.0.1 m.0.0.1,
                  marked o_c o.0 i2 j2 g.add_idx g.rmv_idx w.0 (rw sh.1.rows_eq c)
                      (rw sh.1.cols_eq d) sh.1.full o.2 true_here m.0.1 m.1,
                ),
          ),
        )
      where
        is_valid :
            (aa ra ab rb : AtomicInterval) (w : Bool)
            → valid stack aa ra ab rb ≡ ok w
            → contains aa x.from ≡ true
            → contains ra x.to ≡ true
            → contains ab y.from ≡ true
            → contains rb y.to ≡ true
            → w ≡ true
        is_valid aa ra ab rb w e k l p q =
            ok_inj (sym e ∙ valid_stack aa ra ab rb x y k l p q apart apart_too)

        shape : {r k : ℕ} (p q : Matrix) → Sized r k p → Sized p.rows p.cols q → Sized r k q
        shape p q sp sq = record {
          full = sq.full;
          rows_eq = sq.rows_eq ∙ sp.rows_eq;
          cols_eq = sq.cols_eq ∙ sp.cols_eq;
        }

    cross_at-Hits :
        Ends
          (cross_at stack curr other i j i2 j2 (n_c, o_c))
          (Hits Shape Hit (Match i j i2 j2) (n_c, o_c))
    unfolding cross_at
    cross_at-Hits =
        let at2 =
          at_total other.valid i2 j2 (rw g.sized.rows_eq c) (rw g.sized.cols_eq d) g.sized.full in
        elim (Bool-cases at2.0) [
          | inl e ↦ written (at2.1 ∙ ap some e)
          | inr e ↦ rw (at2.1 ∙ ap some e) (
            (n_c, o_c),
            refl,
            (sh, (λ h. h), λ m. absurd (clash (possible m) (at2.1 ∙ ap some e))),
          )
        ]
      where
        possible : Match i j i2 j2 → at other.valid i2 j2 ≡ some true
        possible m =
            ap (λ z. at other.valid z j2) m.0.1 ∙ ap (at other.valid g.add_idx) m.1 ∙ g.possible

  index_in :
      (seg : Segmentation) (s : Stay) (h : Fits seg s)
      → (h.add_idx < length seg.add_ts - 1) × (h.rmv_idx < length seg.rmv_ts - 1)
  index_in seg s h =
      let i = at_in seg.valid h.add_idx h.rmv_idx true h.possible in
      (rw (sym h.sized.rows_eq) i.0, rw (sym h.sized.cols_eq) i.1)

  cross_pair-Hits :
      (i j : ℕ) (st : Matrix × Matrix)
      → i < length curr.add_ts - 1
      → j < length curr.rmv_ts - 1
      → Shape st
      → Ends
          (cross_pair stack curr other i j st)
          (Hits Shape Hit ((Unit {0} × (i ≡ f.add_idx)) × (j ≡ f.rmv_idx)) st)
  unfolding cross_pair
  cross_pair-Hits i j st a b sh =
      let at1 =
        at_total curr.valid i j (rw f.sized.rows_eq a) (rw f.sized.cols_eq b) f.sized.full in
      elim (Bool-cases at1.0) [
        | inl e ↦ rw (at1.1 ∙ ap some e) (
            loop-Hits Shape Hit
              (λ i2. loop (cross_at stack curr other i j i2) 0 (length other.rmv_ts - 1))
              ((Unit {0} × (i ≡ f.add_idx)) × (j ≡ f.rmv_idx)) (length other.add_ts - 1) g.add_idx
              (index_in other y g).0
              (λ i2 su c shu.
                loop-Hits Shape Hit (cross_at stack curr other i j i2)
                  (((Unit {0} × (i ≡ f.add_idx)) × (j ≡ f.rmv_idx)) × (i2 ≡ g.add_idx))
                  (length other.rmv_ts - 1) g.rmv_idx (index_in other y g).1
                  (λ j2 sv d shv. cross_at-Hits i j i2 j2 sv.0 sv.1 a b c d shv) su shu)
              st sh)
        | inr e ↦
            rw (at1.1 ∙ ap some e)
              (st, refl, (sh, (λ h. h), λ m. absurd (clash (possible m) (at1.1 ∙ ap some e))))
      ]
    where
      possible : (Unit {0} × (i ≡ f.add_idx)) × (j ≡ f.rmv_idx) → at curr.valid i j ≡ some true
      possible m = ap (λ z. at curr.valid z j) m.0.1 ∙ ap (at curr.valid f.add_idx) m.1 ∙ f.possible

  -- The check of a pair returns, and leaves to both values the segments that they lie in.
  pub cross-Hit : Ends (cross stack curr other) (λ st. Shape st × Hit st)
  unfolding cross
  cross-Hit =
      let run =
        loop-Hits Shape Hit (λ i. loop (cross_pair stack curr other i) 0 (length curr.rmv_ts - 1))
          (Unit {0}) (length curr.add_ts - 1) f.add_idx (index_in curr x f).0
          (λ i su a shu.
            loop-Hits Shape Hit (cross_pair stack curr other i) (Unit {0} × (i ≡ f.add_idx))
              (length curr.rmv_ts - 1) f.rmv_idx (index_in curr x f).1
              (λ j sv b shv. cross_pair-Hits i j sv a b shv) su shu)
          (
            matrix curr.valid.rows curr.valid.cols false,
            matrix other.valid.rows other.valid.cols false,
          )
          (fresh curr x f, fresh other y g) in
      (run.0, run.1, (run.2.0, run.2.2 tt))
    where
      fresh :
          (seg : Segmentation) (s : Stay)
          → Fits seg s
          → Sized
              (length seg.add_ts - 1)
              (length seg.rmv_ts - 1)
              (matrix seg.valid.rows seg.valid.cols false)
      fresh seg s h = record {
        full = matrix-IsFull seg.valid.rows seg.valid.cols false;
        rows_eq = unfold matrix in h.sized.rows_eq;
        cols_eq = unfold matrix in h.sized.cols_eq;
      }
