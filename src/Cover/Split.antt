-- ===== src/Cover/Split.antt =====
-- The split of `CoverHistory::step` at the first gap of the cover.
use li_mo.Base.{
  ℕ, ◌+◌, ◌≤◌, ◌<◌, ◌≡◌, refl, ap, ◌∙◌, sym, ◌⊎◌, inl, inr, true, false, not, some, List, [], ◌∷◌,
  map, arith, ◌==◌, length, filter, filter_keep, filter_drop, All, All-of_map, Any, here, there,
  Bool-cases, get_elem?, subst, length-filter-split,
}
use li_mo.Event.{val_eq}
use li_mo.Interval.Atomic.{AtomicInterval, atomic, is_empty}
use li_mo.Interval.Points.{IsClosed}
use li_mo.Interval.Range.{merge_from, is_atomic, complement}
use li_mo.Interval.Merge.{SortedFrom}
use li_mo.Interval.Apart.{Apart, interval_of_occupied, interval-Apart}
use li_mo.Interval.Gap.{
  Ascending, merge_from-IsClosed, merge_from-FirstGap, merge_from-ne-nil, complement-FirstGap,
}
use li_mo.Cover.History.{CoverVal, cover_of, cover, in_left}
use li_mo.Cover.Compose.{IsRead, UpTo, Behind}
use li_mo.Cover.Prune.{IsOrdered}

cover_of-IsClosed : (v : CoverVal) → IsRead v → IsClosed (cover_of v)
cover_of-IsClosed v r = ground arith

cover_of-occupied : (v : CoverVal) → IsRead v → is_empty (cover_of v) ≡ false
unfolding is_empty
cover_of-occupied v r = ground arith

covers-IsClosed : (vs : List CoverVal) → All IsRead vs → All IsClosed (map cover_of vs)
covers-IsClosed [] r = tt
covers-IsClosed (v ∷ vs) r = (cover_of-IsClosed v r.0, covers-IsClosed vs r.1)

covers-occupied :
    (vs : List CoverVal) → All IsRead vs → All (λ a. is_empty a ≡ false) (map cover_of vs)
covers-occupied [] r = tt
covers-occupied (v ∷ vs) r = (cover_of-occupied v r.0, covers-occupied vs r.1)

covers-below :
    (v : CoverVal) (vs : List CoverVal)
    → All (λ w. (v.add.ubound < w.add.ubound) × (val_eq v.val w.val ≡ false)) vs
    → All (λ a. (cover_of v).lbound < a.lbound) (map cover_of vs)
covers-below v [] o = tt
covers-below v (w ∷ vs) o = (o.0.0, covers-below v vs o.1)

covers-Ascending : (vs : List CoverVal) → IsOrdered vs → Ascending (map cover_of vs)
covers-Ascending [] o = tt
covers-Ascending (v ∷ vs) o = (covers-below v vs o.0, covers-Ascending vs o.1)

covers-SortedFrom :
    (v : CoverVal) (vs : List CoverVal)
    → IsOrdered (v ∷ vs)
    → SortedFrom (cover_of v) (map cover_of vs)
covers-SortedFrom v [] o = tt
covers-SortedFrom v (w ∷ vs) o = (ground arith, covers-SortedFrom w vs o.1)

cover_atoms :
    (v : CoverVal) (vs : List CoverVal)
    → All IsRead (v ∷ vs)
    → (cover (v ∷ vs)).atoms ≡ merge_from (cover_of v) (map cover_of vs)
unfolding cover
cover_atoms v vs r =
    interval_of_occupied (cover_of v) (map cover_of vs) (covers-occupied (v ∷ vs) r)

cover-Apart :
    (v : CoverVal) (vs : List CoverVal)
    → IsOrdered (v ∷ vs)
    → All IsRead (v ∷ vs)
    → Apart true 0 (cover (v ∷ vs)).atoms
unfolding cover
cover-Apart v vs o r =
    interval-Apart (cover_of v) (map cover_of vs) (covers-SortedFrom v vs o)
      (covers-occupied (v ∷ vs) r) r.0.started

-- A gap of the cover, with values on both sides.
pub record SplitsAt (v : CoverVal) (vs : List CoverVal) (gap : AtomicInterval) : Type 0 where
  pub first : v.rmv.lbound ≤ gap.lbound
  pub wide : gap.lbound < gap.ubound
  pub sides : All (λ w. (w.rmv.lbound ≤ gap.lbound) ⊎ (gap.ubound ≤ w.add.ubound)) vs
  pub second : Any (λ w. gap.ubound ≤ w.add.ubound) vs

Any-of_map :
    (n : ℕ) (vs : List CoverVal)
    → Any (λ a. n ≤ a.lbound) (map cover_of vs)
    → Any (λ w. n ≤ w.add.ubound) vs
Any-of_map n [] h = elim h [ ]
Any-of_map n (v ∷ vs) (here h) = here h
Any-of_map n (v ∷ vs) (there h) = there (Any-of_map n vs h)

-- Where the cover of values in their order, each pushed before its pop was called, is in more than
-- one piece, its complement has a second atom, which is a gap between values.
pub cover-SplitsAt :
    (v : CoverVal) (vs : List CoverVal)
    → IsOrdered (v ∷ vs)
    → All IsRead (v ∷ vs)
    → is_atomic (cover (v ∷ vs)) ≡ false
    → (gap : AtomicInterval) × (get_elem? (complement (cover (v ∷ vs))).atoms 1 ≡ some gap)
      × SplitsAt v vs gap
unfolding is_atomic
cover-SplitsAt v vs o r n = pieces (cover (v ∷ vs)).atoms refl n
  where
    merged :
        (c d : AtomicInterval) (rest : List AtomicInterval)
        → (cover (v ∷ vs)).atoms ≡ c ∷ d ∷ rest
        → merge_from (cover_of v) (map cover_of vs) ≡ c ∷ d ∷ rest
    merged c d rest e = sym (cover_atoms v vs r) ∙ e

    pieces :
        (atoms : List AtomicInterval)
        → (cover (v ∷ vs)).atoms ≡ atoms
        → (length (cover (v ∷ vs)).atoms == 1) ≡ false
        → (gap : AtomicInterval) × (get_elem? (complement (cover (v ∷ vs))).atoms 1 ≡ some gap)
          × SplitsAt v vs gap
    pieces [] e k =
        absurd (merge_from-ne-nil (cover_of v) (map cover_of vs) (sym (cover_atoms v vs r) ∙ e))
    pieces (c ∷ []) e k = let one : true ≡ false = ap (λ l. length l == 1) (sym e) ∙ k in cc
    pieces (c ∷ d ∷ rest) e k =
        let g =
          merge_from-FirstGap (cover_of v) (map cover_of vs) c d rest (cover_of-IsClosed v r.0)
            (covers-IsClosed vs r.1) (covers-Ascending (v ∷ vs) o) (merged c d rest e) in
        (
          atomic true c.ubound d.lbound true,
          complement-FirstGap (cover (v ∷ vs)) c d rest e
              (subst (All IsClosed) (merged c d rest e) (
                merge_from-IsClosed (cover_of v) (map cover_of vs) (cover_of-IsClosed v r.0)
                  (covers-IsClosed vs r.1)))
              (subst (Apart true 0) e (cover-Apart v vs o r)),
          record {
            first = g.head;
            wide = g.wide;
            sides =
                All-of_map (λ a. (a.ubound ≤ c.ubound) ⊎ (d.lbound ≤ a.lbound)) cover_of vs g.sides;
            second = Any-of_map d.lbound vs g.right;
          },
        )

abbrev pub Beside : AtomicInterval → CoverVal → Type 0
Beside gap w = (w.rmv.lbound ≤ gap.lbound) ⊎ (gap.ubound ≤ w.add.ubound)

in_left-UpTo :
    (gap : AtomicInterval) (w : CoverVal)
    → IsRead w
    → gap.lbound < gap.ubound
    → Beside gap w
    → in_left gap w ≡ true
    → UpTo gap.lbound w
in_left-UpTo gap w r k s e = (ground arith, ground arith)

not_in_left-Behind :
    (gap : AtomicInterval) (w : CoverVal)
    → IsRead w
    → gap.lbound < gap.ubound
    → Beside gap w
    → in_left gap w ≡ false
    → Behind gap.lbound w
not_in_left-Behind gap w r k s e = (ground arith, ground arith)

-- The values on the left of the gap end up to it.
pub left-UpTo :
    (gap : AtomicInterval) (ws : List CoverVal)
    → All IsRead ws
    → gap.lbound < gap.ubound
    → All (Beside gap) ws
    → All (UpTo gap.lbound) (filter (in_left gap) ws)
unfolding filter
left-UpTo gap [] r k s = tt
left-UpTo gap (w ∷ ws) r k s = elim (Bool-cases (in_left gap w)) [
  | inl e ↦
      rw (filter_keep (in_left gap) w ws e)
        (in_left-UpTo gap w r.0 k s.0 e, left-UpTo gap ws r.1 k s.1)
  | inr e ↦ rw (filter_drop (in_left gap) w ws e) (left-UpTo gap ws r.1 k s.1)
]

-- The values on the right of the gap begin behind it.
pub right-Behind :
    (gap : AtomicInterval) (ws : List CoverVal)
    → All IsRead ws
    → gap.lbound < gap.ubound
    → All (Beside gap) ws
    → All (Behind gap.lbound) (filter (λ w. not (in_left gap w)) ws)
unfolding filter
right-Behind gap [] r k s = tt
right-Behind gap (w ∷ ws) r k s = elim (Bool-cases (in_left gap w)) [
  | inl e ↦ rw (filter_drop (λ x. not (in_left gap x)) w ws (rw e)) (right-Behind gap ws r.1 k s.1)
  | inr e ↦
      rw (filter_keep (λ x. not (in_left gap x)) w ws (rw e))
        (not_in_left-Behind gap w r.0 k s.0 e, right-Behind gap ws r.1 k s.1)
]

right_nonempty :
    (gap : AtomicInterval) (ws : List CoverVal)
    → All IsRead ws
    → gap.lbound < gap.ubound
    → Any (λ w. gap.ubound ≤ w.add.ubound) ws
    → 0 < length (filter (λ w. not (in_left gap w)) ws)
unfolding filter
right_nonempty gap [] r k h = elim h [ ]
right_nonempty gap (w ∷ ws) r k (here h) =
    rw (filter_keep (λ x. not (in_left gap x)) w ws (out w r.0 h)) (omega arith)
  where
    out : (x : CoverVal) → IsRead x → gap.ubound ≤ x.add.ubound → not (in_left gap x) ≡ true
    out x a b = ground arith
right_nonempty gap (w ∷ ws) r k (there h) = elim (Bool-cases (in_left gap w)) [
  | inl e ↦ rw (filter_drop (λ x. not (in_left gap x)) w ws (rw e)) (right_nonempty gap ws r.1 k h)
  | inr e ↦ rw (filter_keep (λ x. not (in_left gap x)) w ws (rw e)) (omega arith)
]

left_nonempty :
    (gap : AtomicInterval) (v : CoverVal) (vs : List CoverVal)
    → v.rmv.lbound ≤ gap.lbound
    → 0 < length (filter (in_left gap) (v ∷ vs))
left_nonempty gap v vs h = rw (filter_keep (in_left gap) v vs (ground arith)) (omega arith)

-- At a gap between values, each pushed before its pop was called, both sides of the split hold
-- values, so each has fewer than there were.
pub split_sizes :
    (gap : AtomicInterval) (v : CoverVal) (vs : List CoverVal)
    → All IsRead (v ∷ vs)
    → SplitsAt v vs gap
    → (0 < length (filter (in_left gap) (v ∷ vs)))
      × (0 < length (filter (λ w. not (in_left gap w)) (v ∷ vs)))
      × (length (v ∷ vs)
          ≡ length (filter (in_left gap) (v ∷ vs))
            + length (filter (λ w. not (in_left gap w)) (v ∷ vs)))
split_sizes gap v vs r s = (
  left_nonempty gap v vs s.first,
  right_nonempty gap (v ∷ vs) r s.wide (there s.second),
  length-filter-split (in_left gap) (v ∷ vs),
)
