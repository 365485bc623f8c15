-- ===== src/Cover/Compose.antt =====
-- Two ways to build a linearization: one after the other across a gap, and one value around another
-- linearization.
use mathlib.Core.List.{Perm, perm_append_singleton, append-nil}
use native.Mathlib.Bridge.{le_prop}
use mathlib.Core.List.Perm
use li_mo.Base.{
  ℕ, ◌≤◌, ◌<◌, ◌≡◌, ◌∙◌, false, some, List, [], ◌∷◌, ◌++◌, arith, All, Pairs, All-mono, All-append,
  Pairs-append,
}
use li_mo.Interval.Atomic.{AtomicInterval, pos_inf, preceeds}
use li_mo.Interval.Points.{IsClosed}
use li_mo.Cover.History.{CoverVal}
use li_mo.Cover.Spec.{
  Op, push_op, pop_op, itv_of, op_val, run_stack, pushed, popped, Linearization, run_stack-append,
  run_stack-below, pushed-append, popped-append, Linearization-All,
}

-- A value of a history that was read: closed operations, and the push returned before the pop was
-- called.
pub record IsRead (v : CoverVal) : Type 0 where
  pub add_closed : IsClosed v.add
  pub rmv_closed : IsClosed v.rmv
  pub later : v.add.ubound < v.rmv.lbound
  pub started : 0 < v.add.ubound
  pub bounded : v.rmv.lbound < pos_inf

-- The value can be pushed before and popped after both operations of the other.
abbrev pub Around : CoverVal → CoverVal → Type 0
Around m w =
    (preceeds w.add m.add ≡ false)
    × (preceeds w.rmv m.add ≡ false)
    × (preceeds m.rmv w.add ≡ false)
    × (preceeds m.rmv w.rmv ≡ false)

pub Around-prop : (m w : CoverVal) → IsProp (Around m w)
Around-prop m w = hlevel

Around-first : (m : CoverVal) (o : Op) → Around m (op_val o) → preceeds (itv_of o) m.add ≡ false
Around-first m (push_op v) a = a.0
Around-first m (pop_op v) a = a.1

Around-last : (m : CoverVal) (o : Op) → Around m (op_val o) → preceeds m.rmv (itv_of o) ≡ false
Around-last m (push_op v) a = a.2
Around-last m (pop_op v) a = a.3

pub Around-bounds :
    (m w : CoverVal)
    → IsRead m
    → IsRead w
    → m.add.lbound ≤ w.add.ubound
    → w.rmv.lbound ≤ m.rmv.ubound
    → Around m w
unfolding preceeds
Around-bounds m w p q h k = (ground arith, ground arith, ground arith, ground arith)

wrap_legal :
    (m : CoverVal) (ops : List Op)
    → run_stack ops [] ≡ some []
    → run_stack (push_op m ∷ ops ++ pop_op m ∷ []) [] ≡ some []
unfolding run_stack
wrap_legal m ops h =
    run_stack-append ops (pop_op m ∷ []) (m.val ∷ []) (m.val ∷ [])
      (run_stack-below ops [] [] (m.val ∷ []) h)
    ∙ ground arith

wrap_in_order :
    (m : CoverVal) (ops : List Op)
    → IsRead m
    → All (λ o. Around m (op_val o)) ops
    → Pairs (λ x y. preceeds (itv_of y) (itv_of x) ≡ false) ops
    → Pairs (λ x y. preceeds (itv_of y) (itv_of x) ≡ false) (push_op m ∷ ops ++ pop_op m ∷ [])
unfolding preceeds
wrap_in_order m ops r a h = (
  All-append (λ o. preceeds (itv_of o) m.add ≡ false) ops (pop_op m ∷ [])
      (All-mono ops (Around-first m) a) (ground arith, tt),
  Pairs-append (λ x y. preceeds (itv_of y) (itv_of x) ≡ false) ops (pop_op m ∷ []) h (tt, tt)
      (All-mono ops (λ o k. (Around-last m o k, tt)) a),
)

-- A value pushed before every push ends, and popped after every pop begins, goes around any
-- linearization of the others.
pub wrap-Linearization :
    (m : CoverVal) (ws : List CoverVal) (ops : List Op)
    → IsRead m
    → All (λ w. Around m w) ws
    → Linearization ws ops
    → Linearization (m ∷ ws) (push_op m ∷ ops ++ pop_op m ∷ [])
unfolding pushed popped
wrap-Linearization m ws ops r a l = record {
  legal = wrap_legal m ops l.legal;
  pushes = Perm.cons m (rw (pushed-append ops (pop_op m ∷ [])) (rw append-nil l.pushes));
  pops =
      rw (popped-append ops (pop_op m ∷ []))
        (Perm.trans (perm_append_singleton m (popped ops)) (Perm.cons m l.pops));
  in_order = wrap_in_order m ops r (Linearization-All (Around m) (Around-prop m) l a) l.in_order;
}

-- All operations of the value begin up to the gap, or end behind it.
abbrev pub UpTo : ℕ → CoverVal → Type 0
UpTo g v = (v.add.lbound ≤ g) × (v.rmv.lbound ≤ g)

abbrev pub Behind : ℕ → CoverVal → Type 0
Behind g v = (g < v.add.ubound) × (g < v.rmv.ubound)

UpTo-op : (g : ℕ) (o : Op) → UpTo g (op_val o) → (itv_of o).lbound ≤ g
UpTo-op g (push_op v) h = h.0
UpTo-op g (pop_op v) h = h.1

Behind-op : (g : ℕ) (o : Op) → Behind g (op_val o) → g < (itv_of o).ubound
Behind-op g (push_op v) h = h.0
Behind-op g (pop_op v) h = h.1

gap_in_order : (g : ℕ) (x y : AtomicInterval) → x.lbound ≤ g → g < y.ubound → preceeds y x ≡ false
unfolding preceeds
gap_in_order g x y h k = ground arith

-- Two linearizations of values on the two sides of a gap follow one another.
pub append-Linearization :
    (g : ℕ) (us ws vs : List CoverVal) (xs ys : List Op)
    → Perm vs (us ++ ws)
    → All (UpTo g) us
    → All (Behind g) ws
    → Linearization us xs
    → Linearization ws ys
    → Linearization vs (xs ++ ys)
append-Linearization g us ws vs xs ys p a b l r = record {
  legal = run_stack-append xs ys [] [] l.legal ∙ r.legal;
  pushes = rw (pushed-append xs ys) (Perm.trans (Perm.append l.pushes r.pushes) (Perm.symm p));
  pops = rw (popped-append xs ys) (Perm.trans (Perm.append l.pops r.pops) (Perm.symm p));
  in_order =
      Pairs-append (λ x y. preceeds (itv_of y) (itv_of x) ≡ false) xs ys l.in_order r.in_order
        (All-mono xs
          (λ x h.
            All-mono ys
              (λ y k. gap_in_order g (itv_of x) (itv_of y) (UpTo-op g x h) (Behind-op g y k))
              (Linearization-All (Behind g) (λ v. hlevel le_prop) r b))
          (Linearization-All (UpTo g) (λ v. hlevel le_prop) l a));
}
