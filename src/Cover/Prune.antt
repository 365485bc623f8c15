-- ===== src/Cover/Prune.antt =====
-- `minmax` and `minmax_prune` of events/src/coverhistory.cpp: what they remove, that the loop ends,
-- and that a linearization of what is left gives one of all values.
use mathlib.Core.List.{Perm}
use mathlib.Core.List.Perm
use li_mo.Base.{
  ℕ, zero, suc, ◌≤◌, ◌<◌, ◌≡◌, refl, ap, ◌∙◌, sym, inl, inr, Bool, true, false, not, List, [], ◌∷◌,
  ◌++◌, arith, if◌then◌else◌, ltb, length-filter-split, ◌+◌, length, filter, filter_keep,
  filter_drop, filter-perm, All, All-filter, All-mono, All-perm, Pairs, Pairs-filter, Bool-cases,
  List-cases, subst,
}
use li_mo.Event.{Val, val_eq}
use li_mo.Interval.Atomic.{pos_inf, neg_inf}
use li_mo.Cover.History.{
  CoverVal, val_before, cover_lower, cover_upper, cover_bounds, is_minmax, minmax, erase_all, prune,
}
use li_mo.Cover.Spec.{Op, push_op, pop_op, Linearization, IsLinearizable}
use li_mo.Cover.Compose.{IsRead, Around, Around-prop, Around-bounds, wrap-Linearization}

-- In the order of the set, and no value twice.
abbrev pub IsOrdered : List CoverVal → Type 0
IsOrdered = Pairs λ v w. (v.add.ubound < w.add.ubound) × (val_eq v.val w.val ≡ false)

erase_stale :
    (m : CoverVal) (vs ms : List CoverVal)
    → All (λ w. (m.add.ubound < w.add.ubound) × (val_eq m.val w.val ≡ false)) vs
    → erase_all vs (m ∷ ms) ≡ erase_all vs ms
unfolding erase_all
erase_stale m [] ms h = refl
erase_stale m (w ∷ vs) ms h = rw (other h.0, erase_all) (rw (later h.0, erase_all))
  where
    other :
        (m.add.ubound < w.add.ubound) × (val_eq m.val w.val ≡ false) → val_eq w.val m.val ≡ false
    other k = ground arith

    later : (m.add.ubound < w.add.ubound) × (val_eq m.val w.val ≡ false) → val_before w m ≡ false
    later k = ground arith

erase_nil : (vs : List CoverVal) → erase_all vs [] ≡ vs
unfolding erase_all
erase_nil [] = refl
erase_nil (v ∷ vs) = refl

erase_kept :
    (v : CoverVal) (vs ms : List CoverVal)
    → All (λ w. (v.add.ubound < w.add.ubound) × (val_eq v.val w.val ≡ false)) ms
    → erase_all (v ∷ vs) ms ≡ v ∷ erase_all vs ms
unfolding erase_all
erase_kept v vs [] h = ap (◌∷◌ v) (sym (erase_nil vs))
erase_kept v vs (m ∷ ms) h = rw (h.0.1, erase_all) (rw (earlier h.0, erase_all))
  where
    earlier : (v.add.ubound < m.add.ubound) × (val_eq v.val m.val ≡ false) → val_before v m ≡ true
    earlier k = ground arith

erase_first :
    (v : CoverVal) (vs ms : List CoverVal) → erase_all (v ∷ vs) (v ∷ ms) ≡ erase_all vs (v ∷ ms)
unfolding erase_all
erase_first v vs ms = rw (same_val v.val, erase_all)
  where
    same_val : (a : Val) → val_eq a a ≡ true
    same_val a = ground arith

-- The two iterators take out of a set in its order, without a value twice, exactly the values of a
-- subset.
pub erase_all-filter :
    (q : CoverVal → Bool) (vs : List CoverVal)
    → IsOrdered vs
    → erase_all vs (filter q vs) ≡ filter (λ v. not (q v)) vs
unfolding filter erase_all
erase_all-filter q [] o = refl
erase_all-filter q (v ∷ vs) o = elim (Bool-cases (q v)) [
  | inl e ↦
      rw (filter_keep q v vs e, filter_drop (λ w. not (q w)) v vs (rw e))
        (erase_first v vs (filter q vs)
          ∙ erase_stale v vs (filter q vs) o.0
          ∙ erase_all-filter q vs o.1)
  | inr e ↦
      rw (filter_drop q v vs e, filter_keep (λ w. not (q w)) v vs (rw e))
        (erase_kept v vs (filter q vs) (
            All-filter (λ w. (v.add.ubound < w.add.ubound) × (val_eq v.val w.val ≡ false)) q vs o.0)
          ∙ ap (◌∷◌ v) (erase_all-filter q vs o.1))
]

-- What one round of the loop leaves.
abbrev pub unpruned : List CoverVal → List CoverVal
unpruned vs = filter (λ v. not (is_minmax (cover_bounds vs) v)) vs

pub prune_stop : (fuel : ℕ) (vs : List CoverVal) → minmax vs ≡ [] → prune fuel vs ≡ vs
unfolding prune
prune_stop zero vs e = refl
prune_stop (suc fuel) vs e = rw (e, prune)

prune_next :
    (fuel : ℕ) (vs : List CoverVal) (m : CoverVal) (ms : List CoverVal)
    → IsOrdered vs
    → minmax vs ≡ m ∷ ms
    → prune (suc fuel) vs ≡ prune fuel (unpruned vs)
unfolding prune minmax
prune_next fuel vs m ms o e =
    rw (e, prune)
      (ap (prune fuel)
        (ap (erase_all vs) (sym e) ∙ erase_all-filter (is_minmax (cover_bounds vs)) vs o))

pub cover_lower-le :
    (n : ℕ) (vs : List CoverVal)
    → (cover_lower n vs ≤ n) × All (λ v. cover_lower n vs ≤ v.add.ubound) vs
unfolding cover_lower
cover_lower-le n [] = (omega arith, tt)
cover_lower-le n (v ∷ vs) =
    let next = if ltb v.add.ubound n then v.add.ubound else n in
    let rest = cover_lower-le next vs in (ground (arith, rest.0), (ground (arith, rest.0), rest.1))

pub cover_upper-ge :
    (n : ℕ) (vs : List CoverVal)
    → (n ≤ cover_upper n vs) × All (λ v. v.rmv.lbound ≤ cover_upper n vs) vs
unfolding cover_upper
cover_upper-ge n [] = (omega arith, tt)
cover_upper-ge n (v ∷ vs) =
    let next = if ltb n v.rmv.lbound then v.rmv.lbound else n in
    let rest = cover_upper-ge next vs in (ground (arith, rest.0), (ground (arith, rest.0), rest.1))

-- A value of `minmax` can go around every value.
pub minmax-Around :
    (vs : List CoverVal) (m : CoverVal)
    → IsRead m
    → is_minmax (cover_bounds vs) m ≡ true
    → All IsRead vs
    → All (Around m) vs
unfolding cover_bounds
minmax-Around vs m r e h = go vs h (cover_lower-le pos_inf vs).1 (cover_upper-ge neg_inf vs).1
  where
    go :
        (ws : List CoverVal)
        → All IsRead ws
        → All (λ v. cover_lower pos_inf vs ≤ v.add.ubound) ws
        → All (λ v. v.rmv.lbound ≤ cover_upper neg_inf vs) ws
        → All (Around m) ws
    go [] a b c = tt
    go (w ∷ ws) a b c =
        (Around-bounds m w r a.0 (ground (arith, b.0)) (ground (arith, c.0)), go ws a.1 b.1 c.1)

wrap-All :
    (ms ws : List CoverVal) (ops : List Op)
    → All IsRead ms
    → All (λ m. All (Around m) (ms ++ ws)) ms
    → Linearization ws ops
    → IsLinearizable (ms ++ ws)
wrap-All [] ws ops r a l = (ops, l)
wrap-All (m ∷ ms) ws ops r a l =
    let (rest, k) = wrap-All ms ws ops r.1 (All-mono ms (λ n h. h.1) a.1) l in
    (push_op m ∷ rest ++ pop_op m ∷ [], wrap-Linearization m (ms ++ ws) rest r.0 a.0.1 k)

pub IsLinearizable-perm :
    {us vs : List CoverVal} → Perm us vs → IsLinearizable us → IsLinearizable vs
IsLinearizable-perm p (ops, l) = (
  ops,
  record {
    legal = l.legal;
    pushes = Perm.trans l.pushes p;
    pops = Perm.trans l.pops p;
    in_order = l.in_order;
  },
)

minmax_facts :
    (vs us : List CoverVal)
    → All IsRead us
    → All IsRead vs
    → All (λ m. IsRead m × All (Around m) vs) (filter (is_minmax (cover_bounds vs)) us)
unfolding filter
minmax_facts vs [] h k = tt
minmax_facts vs (u ∷ us) h k = elim (Bool-cases (is_minmax (cover_bounds vs) u)) [
  | inl e ↦
      rw (filter_keep (is_minmax (cover_bounds vs)) u us e)
        ((h.0, minmax-Around vs u h.0 e k), minmax_facts vs us h.1 k)
  | inr e ↦ rw (filter_drop (is_minmax (cover_bounds vs)) u us e) (minmax_facts vs us h.1 k)
]

-- If what a round leaves is linearizable, then so are the values before it.
unpruned-IsLinearizable :
    (vs : List CoverVal) → All IsRead vs → IsLinearizable (unpruned vs) → IsLinearizable vs
unfolding minmax
unpruned-IsLinearizable vs r (ops, l) =
    let facts = minmax_facts vs vs r r in
    let parts = filter-perm (is_minmax (cover_bounds vs)) vs in
    IsLinearizable-perm (Perm.symm parts) (
      wrap-All (minmax vs) (unpruned vs) ops (All-mono (minmax vs) (λ m h. h.0) facts)
        (All-mono (minmax vs) (λ m h. All-perm (Around m) (Around-prop m) (Perm.symm parts) h.1)
          facts)
        l)

-- If what `minmax_prune` leaves of values in their order, each pushed before its pop was called,
-- is linearizable, then so are the values before it.
pub prune-IsLinearizable :
    (fuel : ℕ) (vs : List CoverVal)
    → IsOrdered vs
    → All IsRead vs
    → IsLinearizable (prune fuel vs)
    → IsLinearizable vs
unfolding prune
prune-IsLinearizable zero vs o r l = l
prune-IsLinearizable (suc fuel) vs o r l = elim (List-cases (minmax vs)) [
  | inl e ↦ subst IsLinearizable (prune_stop (suc fuel) vs e) l
  | inr (m, ms, e) ↦ unpruned-IsLinearizable vs r (
      prune-IsLinearizable fuel (unpruned vs)
        (Pairs-filter (λ v w. (v.add.ubound < w.add.ubound) × (val_eq v.val w.val ≡ false))
          (λ v. not (is_minmax (cover_bounds vs) v)) vs o)
        (All-filter IsRead (λ v. not (is_minmax (cover_bounds vs) v)) vs r)
        (subst IsLinearizable (prune_next fuel vs m ms o e) l))
]

length-minmax : (vs : List CoverVal) → length vs ≡ length (minmax vs) + length (unpruned vs)
unfolding minmax
length-minmax vs = length-filter-split (is_minmax (cover_bounds vs)) vs

unpruned_shorter :
    (vs : List CoverVal) (m : CoverVal) (ms : List CoverVal)
    → minmax vs ≡ m ∷ ms
    → length (unpruned vs) < length vs
unpruned_shorter vs m ms e = omega (arith, length-minmax vs, ap length e)

pub prune_invariant :
    (fuel : ℕ) (vs : List CoverVal)
    → IsOrdered vs
    → All IsRead vs
    → IsOrdered (prune fuel vs) × All IsRead (prune fuel vs) × (length (prune fuel vs) ≤ length vs)
unfolding prune
prune_invariant zero vs o r = (o, r, omega arith)
prune_invariant (suc fuel) vs o r = elim (List-cases (minmax vs)) [
  | inl e ↦ rw (prune_stop (suc fuel) vs e) (o, r, omega arith)
  | inr (m, ms, e) ↦
      let (a, b, c) =
        prune_invariant fuel (unpruned vs)
          (Pairs-filter (λ v w. (v.add.ubound < w.add.ubound) × (val_eq v.val w.val ≡ false))
            (λ v. not (is_minmax (cover_bounds vs) v)) vs o)
          (All-filter IsRead (λ v. not (is_minmax (cover_bounds vs) v)) vs r) in
      rw (prune_next fuel vs m ms o e) (a, b, omega (arith, unpruned_shorter vs m ms e))
]

-- On values in their order, each pushed before its pop was called, the loop with a round for each
-- value ends by its test: nothing left is both minimal and maximal.
pub prune_complete :
    (fuel : ℕ) (vs : List CoverVal)
    → IsOrdered vs
    → All IsRead vs
    → length vs ≤ fuel
    → minmax (prune fuel vs) ≡ []
unfolding prune
prune_complete zero [] o r h = refl
prune_complete zero (v ∷ vs) o r h = absurd (omega arith)
prune_complete (suc fuel) vs o r h = elim (List-cases (minmax vs)) [
  | inl e ↦ rw (prune_stop (suc fuel) vs e) e
  | inr (m, ms, e) ↦ rw (prune_next fuel vs m ms o e) (
      prune_complete fuel (unpruned vs)
        (Pairs-filter (λ v w. (v.add.ubound < w.add.ubound) × (val_eq v.val w.val ≡ false))
          (λ v. not (is_minmax (cover_bounds vs) v)) vs o)
        (All-filter IsRead (λ v. not (is_minmax (cover_bounds vs) v)) vs r)
        (omega (arith, unpruned_shorter vs m ms e)))
]

-- A round that removes anything leaves fewer values.
pub prune_shorter :
    (vs : List CoverVal) (m : CoverVal) (ms : List CoverVal)
    → IsOrdered vs
    → All IsRead vs
    → minmax vs ≡ m ∷ ms
    → length (prune (length vs) vs) < length vs
prune_shorter [] m ms o r e = absurd (nil_minmax e)
  where
    nil_minmax : minmax [] ≡ m ∷ ms → ⊥
    nil_minmax k = unfold minmax filter in cc
prune_shorter (v ∷ vs) m ms o r e = rw (prune_next (length vs) (v ∷ vs) m ms o e) (
    omega (
      arith,
      unpruned_shorter (v ∷ vs) m ms e,
      (prune_invariant (length vs) (unpruned (v ∷ vs))
          (Pairs-filter (λ v w. (v.add.ubound < w.add.ubound) × (val_eq v.val w.val ≡ false))
            (λ w. not (is_minmax (cover_bounds (v ∷ vs)) w)) (v ∷ vs) o)
          (All-filter IsRead (λ w. not (is_minmax (cover_bounds (v ∷ vs)) w)) (v ∷ vs) r)).2,
    ))
