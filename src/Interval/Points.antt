-- ===== src/Interval/Points.antt =====
-- What the operations on `AtomicInterval` mean for the timestamps that an interval contains.
use li_mo.Base.{ℕ, ◌≤◌, ◌<◌, ◌≡◌, ◌↔◌, true, false, not, ◌&&◌, ◌||◌, arith, max}
use li_mo.Interval.Atomic.{
  AtomicInterval, is_empty, intersect, ◌⊓◌, overlaps, preceeds, covers, contains,
}

-- `intersect` contains exactly the timestamps that both intervals contain.
pub contains-intersect :
    (a b : AtomicInterval) (t : ℕ) → contains (intersect a b) t ≡ (contains a t && contains b t)
unfolding contains intersect
contains-intersect a b t = ground arith

-- `operator*` and `intersect` compute the same interval.
pub ⊓-eq-intersect : (a b : AtomicInterval) → ◌⊓◌ a b ≡ intersect a b
unfolding ◌⊓◌ intersect
⊓-eq-intersect a b = ground arith

-- `contains` on an interval, if it answers yes, holds of every timestamp of the other interval.
pub covers-contains :
    (a o : AtomicInterval) (t : ℕ) → covers a o ≡ true → contains o t ≡ true → contains a t ≡ true
unfolding covers contains
covers-contains a o t h k = ground arith

-- `preceeds` puts every timestamp of the one interval before every timestamp of the other.
pub preceeds-lt :
    (a b : AtomicInterval) (s t : ℕ)
    → preceeds a b ≡ true
    → contains a s ≡ true
    → contains b t ≡ true
    → s < t
unfolding preceeds contains
preceeds-lt a b s t h k l = ground arith

-- A closed interval with its bounds in order, as each operation of a history has.
pub record IsClosed (a : AtomicInterval) : Type 0 where
  pub left : a.l_open ≡ false
  pub right : a.u_open ≡ false
  pub ordered : a.lbound ≤ a.ubound

-- Of two operations exactly one holds: the first precedes the second, the second precedes the
-- first, or they overlap.
pub closed_trichotomy :
    (a b : AtomicInterval)
    → IsClosed a
    → IsClosed b
    → (overlaps a b ≡ not (preceeds a b || preceeds b a)) × ((preceeds a b && preceeds b a) ≡ false)
unfolding preceeds overlaps
closed_trichotomy a b p q = ground arith

-- Two operations overlap exactly where some timestamp lies in both.
pub overlaps_iff :
    (a b : AtomicInterval)
    → IsClosed a
    → IsClosed b
    → (overlaps a b ≡ true) ↔ ((t : ℕ) × (contains a t ≡ true) × (contains b t ≡ true))
unfolding overlaps contains
overlaps_iff a b p q =
    (λ h. (max a.lbound b.lbound, ground arith, ground arith), λ (t, k, l). ground arith)

-- With open ends `overlaps` depends on the order of its arguments.
pub overlaps_asymmetric :
    (a b : AtomicInterval)
    → a.lbound ≡ b.ubound
    → a.lbound < a.ubound
    → b.lbound < b.ubound
    → a.l_open ≡ true
    → b.u_open ≡ true
    → b.l_open ≡ false
    → (overlaps a b ≡ true) × (overlaps b a ≡ false) × (is_empty (intersect a b) ≡ true)
unfolding overlaps is_empty intersect
overlaps_asymmetric a b e p q x y z = ground arith
