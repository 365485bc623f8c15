-- ===== src/Interval/Gap.antt =====
-- The first gap of a union of closed intervals: where it lies among them, and that `complement`
-- has it as its second atom.
use li_mo.Base.{
  ℕ, ◌≤◌, ◌<◌, ◌≡◌, ◌≢◌, refl, ap, ◌∙◌, sym, ◌⊎◌, inl, inr, true, false, not, some, List, [], ◌∷◌,
  arith, filter, filter_keep, All, All-filter, All-mono, Pairs, Any, here, there, Bool-cases,
  get_elem?, subst, cons_inj,
}
use li_mo.Interval.Atomic.{AtomicInterval, atomic, is_empty, overlaps}
use li_mo.Interval.Points.{IsClosed}
use li_mo.Interval.Range.{Interval, interval, absorb, merge_from, merge, or_nil, gaps, complement}
use li_mo.Interval.Merge.{occupied, absorb-left}
use li_mo.Interval.Apart.{Apart}

abbrev pub Ascending : List AtomicInterval → Type 0
Ascending = Pairs λ a b. a.lbound < b.lbound

absorb-IsClosed : (a b : AtomicInterval) → IsClosed a → IsClosed b → IsClosed (absorb a b)
unfolding absorb
absorb-IsClosed a b p q = ground arith

absorb_upper :
    (a b : AtomicInterval) → (a.ubound ≤ (absorb a b).ubound) × (b.ubound ≤ (absorb a b).ubound)
unfolding absorb
absorb_upper a b = ground arith

absorb-Ascending :
    (a b : AtomicInterval) (xs : List AtomicInterval)
    → Ascending (a ∷ b ∷ xs)
    → Ascending (absorb a b ∷ xs)
absorb-Ascending a b xs h = (All-mono xs (λ x k. omega (arith, (absorb-left a b).0)) h.0.1, h.1.1)

pub merge_from-IsClosed :
    (a : AtomicInterval) (xs : List AtomicInterval)
    → IsClosed a
    → All IsClosed xs
    → All IsClosed (merge_from a xs)
unfolding merge_from
merge_from-IsClosed a [] p q = (p, tt)
merge_from-IsClosed a (b ∷ xs) p q = elim (Bool-cases (overlaps a b)) [
  | inl o ↦ rw (o, merge_from) (merge_from-IsClosed (absorb a b) xs (absorb-IsClosed a b p q.0) q.1)
  | inr o ↦ rw (o, merge_from) (p, merge_from-IsClosed b xs q.0 q.1)
]

merge_from_join :
    (a b : AtomicInterval) (xs : List AtomicInterval)
    → overlaps a b ≡ true
    → merge_from a (b ∷ xs) ≡ merge_from (absorb a b) xs
unfolding merge_from
merge_from_join a b xs o = rw (o, merge_from)

merge_from_keep :
    (a b : AtomicInterval) (xs : List AtomicInterval)
    → overlaps a b ≡ false
    → merge_from a (b ∷ xs) ≡ a ∷ merge_from b xs
unfolding merge_from
merge_from_keep a b xs o = rw (o, merge_from)

-- The first merged interval begins where the first interval does.
pub merge_from-head :
    (a : AtomicInterval) (xs : List AtomicInterval) (c : AtomicInterval)
    (rest : List AtomicInterval)
    → merge_from a xs ≡ c ∷ rest
    → c.lbound ≡ a.lbound
unfolding merge_from
merge_from-head a [] c rest e = ground arith
merge_from-head a (b ∷ xs) c rest e = elim (Bool-cases (overlaps a b)) [
  | inl o ↦
      merge_from-head (absorb a b) xs c rest (sym (merge_from_join a b xs o) ∙ e)
      ∙ (absorb-left a b).0
  | inr o ↦ ground arith
]

pub merge_from-ne-nil : (a : AtomicInterval) (xs : List AtomicInterval) → merge_from a xs ≢ []
unfolding merge_from
merge_from-ne-nil a [] e = cc
merge_from-ne-nil a (b ∷ xs) e = elim (Bool-cases (overlaps a b)) [
  | inl o ↦ merge_from-ne-nil (absorb a b) xs (sym (merge_from_join a b xs o) ∙ e)
  | inr o ↦ let kept : a ∷ merge_from b xs ≡ [] = sym (merge_from_keep a b xs o) ∙ e in cc
]

pub record FirstGap (a : AtomicInterval) (xs : List AtomicInterval) (c d : AtomicInterval)
    : Type 0 where
  pub head : a.ubound ≤ c.ubound
  pub wide : c.ubound < d.lbound
  pub sides : All (λ x. (x.ubound ≤ c.ubound) ⊎ (d.lbound ≤ x.lbound)) xs
  pub right : Any (λ x. d.lbound ≤ x.lbound) xs

absorb-FirstGap :
    (a b : AtomicInterval) (xs : List AtomicInterval) (c d : AtomicInterval)
    → FirstGap (absorb a b) xs c d
    → FirstGap a (b ∷ xs) c d
absorb-FirstGap a b xs c d g = record {
  head = omega (arith, absorb_upper a b, g.head);
  wide = g.wide;
  sides = (inl (omega (arith, absorb_upper a b, g.head)), g.sides);
  right = there g.right;
}

split-FirstGap :
    (a b : AtomicInterval) (xs : List AtomicInterval) (d : AtomicInterval)
    → IsClosed a
    → IsClosed b
    → Ascending (a ∷ b ∷ xs)
    → overlaps a b ≡ false
    → d.lbound ≡ b.lbound
    → FirstGap a (b ∷ xs) a d
unfolding overlaps
split-FirstGap a b xs d p q s o e = record {
  head = omega arith;
  wide = omega (arith, apart a b p q s.0.0 o);
  sides = (inr (omega arith), All-mono xs (λ x k. inr (omega arith)) s.1.0);
  right = here (omega arith);
}
  where
    apart :
        (x y : AtomicInterval)
        → IsClosed x
        → IsClosed y
        → x.lbound < y.lbound
        → overlaps x y ≡ false
        → x.ubound < y.lbound
    apart x y h k l m = ground arith

-- Where merging leaves two intervals or more, every interval ends up to the end of the first or
-- begins from the beginning of the second, and there is one of each.
pub merge_from-FirstGap :
    (a : AtomicInterval) (xs : List AtomicInterval) (c d : AtomicInterval)
    (rest : List AtomicInterval)
    → IsClosed a
    → All IsClosed xs
    → Ascending (a ∷ xs)
    → merge_from a xs ≡ c ∷ d ∷ rest
    → FirstGap a xs c d
unfolding merge_from
merge_from-FirstGap a [] c d rest p q s e = cc
merge_from-FirstGap a (b ∷ xs) c d rest p q s e = elim (Bool-cases (overlaps a b)) [
  | inl o ↦ absorb-FirstGap a b xs c d (
      merge_from-FirstGap (absorb a b) xs c d rest (absorb-IsClosed a b p q.0) q.1
        (absorb-Ascending a b xs s) (sym (merge_from_join a b xs o) ∙ e))
  | inr o ↦
      let parts = cons_inj (sym (merge_from_keep a b xs o) ∙ e) in
      subst (λ z. FirstGap a (b ∷ xs) z d) parts.0
        (split-FirstGap a b xs d p q.0 s o (merge_from-head b xs d rest parts.1))
]

merge_first :
    (g : AtomicInterval) (xs : List AtomicInterval)
    → is_empty g ≡ false
    → g.u_open ≡ true
    → All (λ f. (g.ubound ≤ f.lbound) × (f.l_open ≡ true)) xs
    → get_elem? (merge_from g xs) 0 ≡ some g
unfolding merge_from get_elem? overlaps is_empty
merge_first g [] x u h = refl
merge_first g (f ∷ xs) x u h = rw (merge_from_keep g f xs (apart x u h.0))
  where
    apart :
        is_empty g ≡ false
        → g.u_open ≡ true
        → (g.ubound ≤ f.lbound) × (f.l_open ≡ true)
        → overlaps g f ≡ false
    apart y v k = ground arith

gaps_behind :
    (lb n : ℕ) (xs : List AtomicInterval)
    → n ≤ lb
    → All IsClosed xs
    → Apart true lb xs
    → All (λ f. (n ≤ f.lbound) × (f.l_open ≡ true)) (gaps true lb xs)
unfolding gaps is_empty
gaps_behind lb n [] h c a = ((h, refl), tt)
gaps_behind lb n (x ∷ xs) h c a = (
  (h, refl),
  subst (λ b. All (λ f. (n ≤ f.lbound) × (f.l_open ≡ true)) (gaps (not b) x.ubound xs))
      (sym c.0.right)
      (gaps_behind x.ubound n xs (ground arith) c.1
        (subst (λ b. Apart (not b) x.ubound xs) c.0.right a.2)),
)

second_gap :
    (g h : AtomicInterval) (xs : List AtomicInterval)
    → is_empty g ≡ false
    → is_empty h ≡ false
    → overlaps g h ≡ false
    → h.u_open ≡ true
    → All (λ f. (h.ubound ≤ f.lbound) × (f.l_open ≡ true)) xs
    → get_elem? (interval (g ∷ h ∷ xs) true).atoms 1 ≡ some h
unfolding interval merge or_nil get_elem?
second_gap g h xs p q o u k = rw (filter_keep occupied g (h ∷ xs) (ap not p)) (
    rw (filter_keep occupied h xs (ap not q)) (
      rw (merge_from_keep g h (filter occupied xs) o) (
        merge_first h (filter occupied xs) q u
          (All-filter (λ f. (h.ubound ≤ f.lbound) × (f.l_open ≡ true)) occupied xs k))))

closed_gap :
    (c d : AtomicInterval)
    → IsClosed c
    → IsClosed d
    → (c.ubound < d.lbound)
    → 0 < c.lbound
    → (is_empty (atomic true 0 c.lbound (not c.l_open)) ≡ false)
      × (is_empty (atomic (not c.u_open) c.ubound d.lbound (not d.l_open)) ≡ false)
      × (overlaps
            (atomic true 0 c.lbound (not c.l_open))
            (atomic (not c.u_open) c.ubound d.lbound (not d.l_open))
          ≡ false)
unfolding is_empty overlaps
closed_gap c d p q h k = ground arith

-- The second atom of the complement is the gap between the first two intervals.
pub complement-FirstGap :
    (i : Interval) (c d : AtomicInterval) (rest : List AtomicInterval)
    → i.atoms ≡ c ∷ d ∷ rest
    → All IsClosed (c ∷ d ∷ rest)
    → Apart true 0 (c ∷ d ∷ rest)
    → get_elem? (complement i).atoms 1 ≡ some (atomic true c.ubound d.lbound true)
unfolding complement gaps
complement-FirstGap i c d rest e (p, (q, r)) (a, x, (b, y, s)) =
    let (v, w, o) = closed_gap c d p q (ground arith) (ground arith) in
    ap (λ l. get_elem? (interval (gaps true 0 l) true).atoms 1) e
    ∙ second_gap (atomic true 0 c.lbound (not c.l_open))
        (atomic (not c.u_open) c.ubound d.lbound (not d.l_open)) (gaps (not d.u_open) d.ubound rest)
        v w o (ap not q.left)
        (subst
          (λ z. All (λ f. (d.lbound ≤ f.lbound) × (f.l_open ≡ true)) (gaps (not z) d.ubound rest))
          (sym q.right)
          (gaps_behind d.ubound d.lbound rest q.ordered r
            (subst (λ z. Apart (not z) d.ubound rest) q.right s)))
    ∙ ground arith
