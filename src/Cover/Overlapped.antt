-- ===== src/Cover/Overlapped.antt =====
-- A value whose push and pop overlap can be pushed and popped at once: it fits into every linearization
-- of other values.
use mathlib.Core.List.{Perm}
use mathlib.Core.List.Perm
use native.Mathlib.Bridge.{le_prop}
use li_mo.Base.{
  ℕ, ◌≤◌, ◌<◌, ◌≡◌, refl, ◌∙◌, Bool, true, false, none, List, [], ◌∷◌, ◌++◌, arith, All, All-mono,
  All-zip, All-append, Bool-cases, inl, inr, any, ltb, max, if◌then◌else◌, ap,
}
use li_mo.Event.{Val, val_eq}
use li_mo.Interval.Atomic.{AtomicInterval, preceeds}
use li_mo.Interval.Points.{IsClosed}
use li_mo.Cover.History.{CoverVal}
use li_mo.Cover.Spec.{
  Op, push_op, pop_op, itv_of, op_val, run_stack, pushed, popped, IsLinearizable, InOrder,
  Linearization-All,
}

-- The push and the pop meet.
abbrev pub Meets : CoverVal → Type 0
Meets v = (v.add.lbound ≤ v.rmv.ubound) × (v.rmv.lbound ≤ v.add.ubound)

starts_by :
    (a b : AtomicInterval) → IsClosed a → IsClosed b → preceeds a b ≡ false → b.lbound ≤ a.ubound
unfolding preceeds
starts_by a b c d h = compared c.right d.left
  where
    compared : a.u_open ≡ false → b.l_open ≡ false → b.lbound ≤ a.ubound
    compared c d = ground arith

not_before :
    (a b : AtomicInterval) → IsClosed a → IsClosed b → b.lbound ≤ a.ubound → preceeds a b ≡ false
unfolding preceeds
not_before a b c d h = compared c.right d.left
  where
    compared : a.u_open ≡ false → b.l_open ≡ false → preceeds a b ≡ false
    compared c d = ground arith

module _ (v : CoverVal) (ca : IsClosed v.add) (cr : IsClosed v.rmv) (mv : Meets v) where
  -- The value can be neither pushed nor popped before this timestamp.
  abbrev from : ℕ
  from = max v.add.lbound v.rmv.lbound

  abbrev ends_before : Op → Bool
  ends_before o = ltb (itv_of o).ubound from

  unfoldable enter : List Op → List Op
  unfolding any
  enter [] = push_op v ∷ pop_op v ∷ []
  enter (o ∷ ops) =
      let later = enter ops in
      if any ends_before (o ∷ ops) then o ∷ later else push_op v ∷ pop_op v ∷ o ∷ ops

  at_once :
      (ops : List Op) (s : List Val) → run_stack (push_op v ∷ pop_op v ∷ ops) s ≡ run_stack ops s
  unfolding run_stack
  at_once ops s = ground arith

  under :
      (o : Op) (ops us : List Op)
      → ((s : List Val) → run_stack us s ≡ run_stack ops s)
      → (s : List Val) → run_stack (o ∷ us) s ≡ run_stack (o ∷ ops) s
  unfolding run_stack
  under (push_op w) ops us ih s = ih (w.val ∷ s)
  under (pop_op w) ops us ih [] = refl
  under (pop_op w) ops us ih (u ∷ s) = ap (λ z. if val_eq u w.val then z else none) (ih s)

  enter_legal : (ops : List Op) (s : List Val) → run_stack (enter ops) s ≡ run_stack ops s
  unfolding enter
  enter_legal [] s = at_once [] s
  enter_legal (o ∷ ops) s = elim (Bool-cases (any ends_before (o ∷ ops))) [
    | inl e ↦ rw (e) (under o ops (enter ops) (enter_legal ops) s)
    | inr e ↦ rw (e) (at_once (o ∷ ops) s)
  ]

  enter_pushes : (ops : List Op) → Perm (pushed (enter ops)) (v ∷ pushed ops)
  unfolding enter pushed
  enter_pushes [] = Perm.refl (v ∷ [])
  enter_pushes (o ∷ ops) = elim (Bool-cases (any ends_before (o ∷ ops))) [
    | inl e ↦ rw (e) (behind o (enter_pushes ops))
    | inr e ↦ rw (e) (Perm.refl (v ∷ pushed (o ∷ ops)))
  ]
    where
      behind :
          (o : Op)
          → Perm (pushed (enter ops)) (v ∷ pushed ops)
          → Perm (pushed (o ∷ enter ops)) (v ∷ pushed (o ∷ ops))
      behind (push_op w) p = Perm.trans (Perm.cons w p) (Perm.swap v w (pushed ops))
      behind (pop_op w) p = p

  enter_pops : (ops : List Op) → Perm (popped (enter ops)) (v ∷ popped ops)
  unfolding enter popped
  enter_pops [] = Perm.refl (v ∷ [])
  enter_pops (o ∷ ops) = elim (Bool-cases (any ends_before (o ∷ ops))) [
    | inl e ↦ rw (e) (behind o (enter_pops ops))
    | inr e ↦ rw (e) (Perm.refl (v ∷ popped (o ∷ ops)))
  ]
    where
      behind :
          (o : Op)
          → Perm (popped (enter ops)) (v ∷ popped ops)
          → Perm (popped (o ∷ enter ops)) (v ∷ popped (o ∷ ops))
      behind (push_op w) p = p
      behind (pop_op w) p = Perm.trans (Perm.cons w p) (Perm.swap v w (popped ops))

  enter-All :
      (P : Op → Type 0) (ops : List Op)
      → P (push_op v)
      → P (pop_op v)
      → All P ops
      → All P (enter ops)
  unfolding enter
  enter-All P [] p q h = (p, (q, tt))
  enter-All P (o ∷ ops) p q h = elim (Bool-cases (any ends_before (o ∷ ops))) [
    | inl e ↦ rw (e) (h.0, enter-All P ops p q h.1)
    | inr e ↦ rw (e) (p, (q, h))
  ]

  -- What cannot come behind an operation that ends before the value can be entered starts before.
  starts_before :
      (o : Op) (ops : List Op)
      → IsClosed (itv_of o)
      → All (λ x. IsClosed (itv_of x)) ops
      → All (λ x. preceeds (itv_of x) (itv_of o) ≡ false) ops
      → any ends_before (o ∷ ops) ≡ true
      → (itv_of o).lbound < from
  unfolding any
  starts_before o [] c cs h e = own c.ordered
    where
      own : (itv_of o).lbound ≤ (itv_of o).ubound → (itv_of o).lbound < from
      own l = ground arith
  starts_before o (x ∷ ops) c cs h e = elim (Bool-cases (ends_before x)) [
    | inl f ↦ by_next f (starts_by (itv_of x) (itv_of o) cs.0 c h.0)
    | inr f ↦ starts_before o ops c cs.1 h.1 (skipped f)
  ]
    where
      by_next :
          ends_before x ≡ true → (itv_of o).lbound ≤ (itv_of x).ubound → (itv_of o).lbound < from
      by_next f l = ground arith

      skipped : ends_before x ≡ false → any ends_before (o ∷ ops) ≡ true
      skipped f = ground arith

  none_ends :
      (ops : List Op) → any ends_before ops ≡ false → All (λ o. from ≤ (itv_of o).ubound) ops
  unfolding any
  none_ends [] e = tt
  none_ends (o ∷ ops) e = (ground arith, none_ends ops (ground arith))

  abbrev Low : (from : ℕ) → Type 0
  Low n = (n ≤ v.add.ubound) × (n ≤ v.rmv.ubound) × (v.add.lbound ≤ n) × (v.rmv.lbound ≤ n)

  from_Low : Low from
  from_Low = bounds ca.ordered cr.ordered mv.0 mv.1
    where
      bounds :
          v.add.lbound ≤ v.add.ubound
          → v.rmv.lbound ≤ v.rmv.ubound
          → v.add.lbound ≤ v.rmv.ubound
          → v.rmv.lbound ≤ v.add.ubound
          → Low from
      bounds g h k l = (ground arith, ground arith, ground arith, ground arith)

  abbrev Solid : Op → Type 0
  Solid y = IsClosed (itv_of y) × (from ≤ (itv_of y).ubound)

  enter-InOrder :
      (ops : List Op) → All (λ x. IsClosed (itv_of x)) ops → InOrder ops → InOrder (enter ops)
  unfolding enter
  enter-InOrder [] cs o = ((not_before v.rmv v.add cr ca mv.0, tt), (tt, tt))
  enter-InOrder (x ∷ ops) cs o = elim (Bool-cases (any ends_before (x ∷ ops))) [
    | inl e ↦
        let l = starts_before x ops cs.0 cs.1 o.0 e in
        rw (e) (
          enter-All (λ y. preceeds (itv_of y) (itv_of x) ≡ false) ops
              (not_before v.add (itv_of x) ca cs.0 (omega (arith, l, from_Low.0)))
              (not_before v.rmv (itv_of x) cr cs.0 (omega (arith, l, from_Low.1))) o.0,
          enter-InOrder ops cs.1 o.1,
        )
    | inr e ↦
        let n = All-zip {R = Solid} (x ∷ ops) (λ y c l. (c, l)) cs (none_ends (x ∷ ops) e) in
        rw (e) (
          (
            not_before v.rmv v.add cr ca mv.0,
            All-mono (x ∷ ops)
                (λ y c. not_before (itv_of y) v.add c.0 ca (omega (arith, c.1, from_Low.2))) n,
          ),
          (
            All-mono (x ∷ ops)
                (λ y c. not_before (itv_of y) v.rmv c.0 cr (omega (arith, c.1, from_Low.3))) n,
            o,
          ),
        )
  ]

abbrev pub IsClosedVal : CoverVal → Type 0
IsClosedVal v = IsClosed v.add × IsClosed v.rmv

All-itv :
    (ops : List Op) → All (λ o. IsClosedVal (op_val o)) ops → All (λ o. IsClosed (itv_of o)) ops
All-itv [] h = tt
All-itv (push_op v ∷ ops) h = (h.0.0, All-itv ops h.1)
All-itv (pop_op v ∷ ops) h = (h.0.1, All-itv ops h.1)

pub Meets-IsLinearizable :
    (v : CoverVal) (vs : List CoverVal)
    → IsClosedVal v
    → Meets v
    → All IsClosedVal vs
    → IsLinearizable vs
    → IsLinearizable (v ∷ vs)
Meets-IsLinearizable v vs c m cs (ops, l) =
    let closed_ops = All-itv ops (Linearization-All IsClosedVal (λ w. hlevel le_prop) l cs) in
    (
      enter v c.0 c.1 m ops,
      record {
        legal = enter_legal v c.0 c.1 m ops [] ∙ l.legal;
        pushes = Perm.trans (enter_pushes v c.0 c.1 m ops) (Perm.cons v l.pushes);
        pops = Perm.trans (enter_pops v c.0 c.1 m ops) (Perm.cons v l.pops);
        in_order = enter-InOrder v c.0 c.1 m ops closed_ops l.in_order;
      },
    )

-- Values that meet fit in one after the other.
pub gone-IsLinearizable :
    (gone vs : List CoverVal)
    → All IsClosedVal gone
    → All Meets gone
    → All IsClosedVal vs
    → IsLinearizable vs
    → IsLinearizable (gone ++ vs)
gone-IsLinearizable [] vs cg mg cs l = l
gone-IsLinearizable (g ∷ gone) vs cg mg cs l =
    Meets-IsLinearizable g (gone ++ vs) cg.0 mg.0 (All-append IsClosedVal gone vs cg.1 cs)
      (gone-IsLinearizable gone vs cg.1 mg.1 cs l)

pub perm-IsLinearizable :
    {vs ws : List CoverVal} → Perm vs ws → IsLinearizable vs → IsLinearizable ws
perm-IsLinearizable p (ops, l) = (
  ops,
  record {
    legal = l.legal;
    pushes = Perm.trans l.pushes p;
    pops = Perm.trans l.pops p;
    in_order = l.in_order;
  },
)
