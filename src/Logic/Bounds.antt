-- ===== src/Logic/Bounds.antt =====
-- What the operations on bounds mean for the values that are pushed and popped within them.
use li_mo.Base.{
  ℕ, ◌<◌, ◌≡◌, ap, ◌∙◌, Bool, true, false, ◌&&◌, ◌||◌, refl, none, some, List, [], ◌∷◌, arith,
}
use li_mo.Interval.Atomic.{AtomicInterval, contains, is_empty, covers, ◌⊓◌, before, after}
use li_mo.Interval.Points.{contains-intersect, ⊓-eq-intersect, covers-contains}
use li_mo.Relation.{RelVal, is_before, is_after, is_above, is_below}
use li_mo.Relation.Product.{Stay, Related}
use li_mo.Logic.{Bound, simpl, join, implies, conj_bounds, restr_bounds}

-- The stay begins in the one interval and ends in the other.
unfoldable pub bounded : Bound → Stay → Bool
bounded b s = contains b.add s.from && contains b.rmv s.to

contains-⊓ : (a b : AtomicInterval) (t : ℕ) → contains (a ⊓ b) t ≡ (contains a t && contains b t)
contains-⊓ a b t = ap (λ i. contains i t) (⊓-eq-intersect a b) ∙ contains-intersect a b t

-- A stay is within the joined bounds exactly where it is within both.
bounded-join : (a b : Bound) (s : Stay) → bounded (join a b) s ≡ (bounded a s && bounded b s)
unfolding bounded
bounded-join a b s =
    ap (λ z. z && contains (join a b).rmv s.to) (first a b)
    ∙ ap (λ z. (contains a.add s.from && contains b.add s.from) && z) (second a b)
    ∙ regroup (contains a.add s.from) (contains b.add s.from) (contains a.rmv s.to)
        (contains b.rmv s.to)
  where
    first :
        (a b : Bound)
        → contains (join a b).add s.from ≡ (contains a.add s.from && contains b.add s.from)
    first a b = unfold join in contains-⊓ a.add b.add s.from

    second :
        (a b : Bound) → contains (join a b).rmv s.to ≡ (contains a.rmv s.to && contains b.rmv s.to)
    second a b = unfold join in contains-⊓ a.rmv b.rmv s.to

    regroup : (p q r t : Bool) → ((p && q) && (r && t)) ≡ ((p && r) && (q && t))
    regroup p q r t = ground arith

-- The stay is within all bounds.
unfoldable pub all_bounded : List Bound → Stay → Bool
all_bounded [] s = true
all_bounded (b ∷ bs) s = bounded b s && all_bounded bs s

-- What the loop over a conjunction makes of its terms' bounds holds exactly the stays that all of
-- them hold, and the bound that it starts from.
pub bounded-conj_bounds :
    (acc : Bound) (bs : List Bound) (s : Stay)
    → bounded (conj_bounds acc bs) s ≡ (bounded acc s && all_bounded bs s)
unfolding conj_bounds all_bounded
bounded-conj_bounds acc [] s = with_true (bounded acc s)
  where
    with_true : (p : Bool) → p ≡ (p && true)
    with_true p = ground arith
bounded-conj_bounds acc (b ∷ bs) s =
    bounded-conj_bounds (join acc b) bs s
    ∙ ap (λ z. z && all_bounded bs s) (bounded-join acc b s)
    ∙ and_assoc (bounded acc s) (bounded b s) (all_bounded bs s)
  where
    and_assoc : (p q r : Bool) → ((p && q) && r) ≡ (p && (q && r))
    and_assoc p q r = ground arith

pub both_true : (p q : Bool) → (p && q) ≡ true → (p ≡ true) × (q ≡ true)
both_true p q h = ground arith

pub and_true : {p q : Bool} → p ≡ true → q ≡ true → (p && q) ≡ true
and_true h k = ground arith

in_meet :
    (a b : AtomicInterval) (t : ℕ)
    → contains a t ≡ true
    → contains b t ≡ true
    → contains (a ⊓ b) t ≡ true
in_meet a b t h k = contains-⊓ a b t ∙ and_true h k

-- A later timestamp is in `before`, an earlier one in `after`.
in_before :
    (a b : AtomicInterval) (s t : ℕ)
    → contains a s ≡ true
    → contains b t ≡ true
    → s < t
    → contains (before a b) t ≡ true
unfolding contains before
in_before a b s t h k l = ground arith

in_after :
    (a b : AtomicInterval) (s t : ℕ)
    → contains a s ≡ true
    → contains b t ≡ true
    → t < s
    → contains (after a b) t ≡ true
unfolding contains after
in_after a b s t h k l = ground arith

-- If the first bound implies the second, then a stay within the first is within the second.
pub implies-bounded :
    (b o : Bound) (s : Stay) → implies b o ≡ true → bounded b s ≡ true → bounded o s ≡ true
unfolding implies bounded
implies-bounded b o s h k =
    let l = both_true (covers o.add b.add) (covers o.rmv b.rmv) h in
    let m = both_true (contains b.add s.from) (contains b.rmv s.to) k in
    and_true (covers-contains o.add b.add s.from l.0 m.0) (covers-contains o.rmv b.rmv s.to l.1 m.1)

-- Whatever stay has the relation to a stay within the first bound, and is within the second, is within
-- what `restr_bounds` leaves of the second.
pub restr_bounds-bounded :
    (a b : Bound) (t : RelVal) (x y : Stay)
    → bounded a x ≡ true
    → bounded b y ≡ true
    → Related t x y
    → bounded (restr_bounds a t b) y ≡ true
unfolding bounded
restr_bounds-bounded a b t x y h k r =
    let l = both_true (contains a.add x.from) (contains a.rmv x.to) h in
    let m = both_true (contains b.add y.from) (contains b.rmv y.to) k in within t r l m
  where
    within :
        (u : RelVal)
        → Related u x y
        → (contains a.add x.from ≡ true) × (contains a.rmv x.to ≡ true)
        → (contains b.add y.from ≡ true) × (contains b.rmv y.to ≡ true)
        → (contains (restr_bounds a u b).add y.from && contains (restr_bounds a u b).rmv y.to)
          ≡ true
    within is_before q l m =
        unfold restr_bounds in
        and_true
          (in_meet (before a.add b.add) (before a.rmv b.add) y.from
            (in_before a.add b.add x.from y.from l.0 m.0 (omega (arith, x.lasts, y.lasts, q)))
            (in_before a.rmv b.add x.to y.from l.1 m.0 (omega (arith, x.lasts, y.lasts, q))))
          (in_meet (before a.add b.rmv) (before a.rmv b.rmv) y.to
            (in_before a.add b.rmv x.from y.to l.0 m.1 (omega (arith, x.lasts, y.lasts, q)))
            (in_before a.rmv b.rmv x.to y.to l.1 m.1 (omega (arith, x.lasts, y.lasts, q))))
    within is_after q l m =
        unfold restr_bounds in
        and_true
          (in_meet (after a.add b.add) (after a.rmv b.add) y.from
            (in_after a.add b.add x.from y.from l.0 m.0 (omega (arith, x.lasts, y.lasts, q)))
            (in_after a.rmv b.add x.to y.from l.1 m.0 (omega (arith, x.lasts, y.lasts, q))))
          (in_meet (after a.add b.rmv) (after a.rmv b.rmv) y.to
            (in_after a.add b.rmv x.from y.to l.0 m.1 (omega (arith, x.lasts, y.lasts, q)))
            (in_after a.rmv b.rmv x.to y.to l.1 m.1 (omega (arith, x.lasts, y.lasts, q))))
    within is_above q l m =
        unfold restr_bounds in
        and_true
          (in_meet (after a.add b.add) (after a.rmv b.add) y.from
            (in_after a.add b.add x.from y.from l.0 m.0 (omega (arith, x.lasts, y.lasts, q)))
            (in_after a.rmv b.add x.to y.from l.1 m.0 (omega (arith, x.lasts, y.lasts, q))))
          (in_meet (before a.rmv b.rmv) (before a.add b.rmv) y.to
            (in_before a.rmv b.rmv x.to y.to l.1 m.1 (omega (arith, x.lasts, y.lasts, q)))
            (in_before a.add b.rmv x.from y.to l.0 m.1 (omega (arith, x.lasts, y.lasts, q))))
    within is_below q l m =
        unfold restr_bounds in
        and_true
          (in_meet (before a.add b.add) (after a.rmv b.add) y.from
            (in_before a.add b.add x.from y.from l.0 m.0 (omega (arith, x.lasts, y.lasts, q)))
            (in_after a.rmv b.add x.to y.from l.1 m.0 (omega (arith, x.lasts, y.lasts, q))))
          (in_meet (after a.rmv b.rmv) (before a.add b.rmv) y.to
            (in_after a.rmv b.rmv x.to y.to l.1 m.1 (omega (arith, x.lasts, y.lasts, q)))
            (in_before a.add b.rmv x.from y.to l.0 m.1 (omega (arith, x.lasts, y.lasts, q))))

-- `Bound::simpl` on a bound that no stay satisfies, and on another one.
pub simpl_empty : (b : Bound) → (is_empty b.add || is_empty b.rmv) ≡ true → simpl b ≡ none
unfolding simpl
simpl_empty b e = rw (e, simpl) refl

pub simpl_solid : (b : Bound) → (is_empty b.add || is_empty b.rmv) ≡ false → simpl b ≡ some b
unfolding simpl
simpl_solid b e = rw (e, simpl) refl
