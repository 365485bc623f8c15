-- ===== src/Relation/Compare.antt =====
-- `compare` of logic/src/relation.cpp.
use li_mo.Base.{
  ℕ, ◌<◌, ◌≡◌, refl, sym, ap, ◌∙◌, subst, Bool-cases, inl, inr, ok_inj, Bool, true, false, not,
  ◌&&◌, some, arith, ok,
}
use mathlib.Core.Bool.{xor}
use li_mo.Interval.Atomic.{AtomicInterval, contains, preceeds}
use li_mo.Interval.Points.{preceeds-lt}
use li_mo.Relation.{
  RelVal, is_before, is_after, is_above, is_below, Relation, has, reversed, compare, StackValue,
  bits, drop_if, union, only, all_rel,
}
use li_mo.Relation.Product.{Stay, Related}

-- The stay begins within the push of the value and ends within its pop.
pub record Within (v : StackValue) (s : Stay) : Type 0 where
  pub pop : AtomicInterval
  pub popped : v.rmv ≡ some pop
  pub pushed : contains v.add s.from ≡ true
  pub left : contains pop s.to ≡ true

-- What the eight tests of `compare` leave: of the pushes, of the pops, of each push and the other pop.
abbrev left_by : Bool → Bool → Bool → Bool → Bool → Bool → Bool → Bool → Relation
left_by push push' pop pop' cross cross' gone gone' =
    bits (not push' && not pop' && not cross' && not gone')
      (not push && not pop && not cross && not gone) (not push && not pop' && not gone && not gone')
      (not push' && not pop && not gone && not gone')

drops_left :
    (push push' pop pop' cross cross' gone gone' : Bool)
    → drop_if gone' (bits true false true true) (
        drop_if gone (bits false true true true) (
          drop_if cross' (only is_before) (
            drop_if cross (only is_after) (
              drop_if pop' (union (only is_before) (only is_above)) (
                drop_if pop (union (only is_after) (only is_below)) (
                  drop_if push'
                    (union (only is_before) (only is_below))
                    (drop_if push (union (only is_after) (only is_above)) all_rel)))))))
      ≡ left_by push push' pop pop' cross cross' gone gone'
unfolding xor
drops_left push push' pop pop' cross cross' gone gone' = ground arith

-- What is left for the values pushed at `a` and `b` and popped at `p` and `q`.
abbrev remaining : AtomicInterval → AtomicInterval → AtomicInterval → AtomicInterval → Relation
remaining a p b q =
    left_by (preceeds a b) (preceeds b a) (preceeds p q) (preceeds q p) (preceeds a q)
      (preceeds b p) (preceeds p b) (preceeds q a)

compare_popped :
    (v w : StackValue) (p q : AtomicInterval)
    → v.rmv ≡ some p
    → w.rmv ≡ some q
    → compare v w ≡ ok (remaining v.add p w.add q)
unfolding compare
compare_popped v w p q m n =
    rw (m, n)
      (ap ok (
        drops_left (preceeds v.add w.add) (preceeds w.add v.add) (preceeds p q) (preceeds q p)
          (preceeds v.add q) (preceeds w.add p) (preceeds p w.add) (preceeds q v.add)))

-- Compared the other way round, two values that are popped have the reverse relation.
pub compare-reversed :
    (v w : StackValue) (p q : AtomicInterval) (r : Relation)
    → v.rmv ≡ some p
    → w.rmv ≡ some q
    → compare v w ≡ ok r
    → compare w v ≡ ok (reversed r)
compare-reversed v w p q r m n e =
    compare_popped w v q p n m
    ∙ ap ok (
        turned (preceeds v.add w.add) (preceeds w.add v.add) (preceeds p q) (preceeds q p)
          (preceeds v.add q) (preceeds w.add p) (preceeds p w.add) (preceeds q v.add)
        ∙ ap reversed (ok_inj (sym (compare_popped v w p q m n) ∙ e)))
  where
    turned :
        (push push' pop pop' cross cross' gone gone' : Bool)
        → left_by push' push pop' pop cross' cross gone' gone
          ≡ reversed (left_by push push' pop pop' cross cross' gone gone')
    turned push push' pop pop' cross cross' gone gone' = unfold reversed in ground arith

-- An interval does not precede another one with an earlier timestamp.
not_first :
    (a b : AtomicInterval) (s t : ℕ)
    → contains a s ≡ true
    → contains b t ≡ true
    → t < s
    → preceeds a b ≡ false
not_first a b s t h k l = elim (Bool-cases (preceeds a b)) [
  | inl e ↦ absurd (omega (arith, preceeds-lt a b s t e h k))
  | inr e ↦ e
]

remaining-has :
    (t : RelVal) (a p b q : AtomicInterval) (x y : Stay)
    → contains a x.from ≡ true
    → contains p x.to ≡ true
    → contains b y.from ≡ true
    → contains q y.to ≡ true
    → Related t x y
    → has t (remaining a p b q) ≡ true
remaining-has is_before a p b q x y i j k l h =
    rw
      (
        not_first b a y.from x.from k i (omega (arith, x.lasts, y.lasts, h)),
        not_first q p y.to x.to l j (omega (arith, x.lasts, y.lasts, h)),
        not_first b p y.from x.to k j (omega (arith, x.lasts, y.lasts, h)),
        not_first q a y.to x.from l i (omega (arith, x.lasts, y.lasts, h)),
      )
      refl
remaining-has is_after a p b q x y i j k l h =
    rw
      (
        not_first a b x.from y.from i k (omega (arith, x.lasts, y.lasts, h)),
        not_first p q x.to y.to j l (omega (arith, x.lasts, y.lasts, h)),
        not_first a q x.from y.to i l (omega (arith, x.lasts, y.lasts, h)),
        not_first p b x.to y.from j k (omega (arith, x.lasts, y.lasts, h)),
      )
      refl
remaining-has is_above a p b q x y i j k l h =
    rw
      (
        not_first a b x.from y.from i k (omega (arith, x.lasts, y.lasts, h)),
        not_first q p y.to x.to l j (omega (arith, x.lasts, y.lasts, h)),
        not_first p b x.to y.from j k (omega (arith, x.lasts, y.lasts, h)),
        not_first q a y.to x.from l i (omega (arith, x.lasts, y.lasts, h)),
      )
      refl
remaining-has is_below a p b q x y i j k l h =
    rw
      (
        not_first b a y.from x.from k i (omega (arith, x.lasts, y.lasts, h)),
        not_first p q x.to y.to j l (omega (arith, x.lasts, y.lasts, h)),
        not_first p b x.to y.from j k (omega (arith, x.lasts, y.lasts, h)),
        not_first q a y.to x.from l i (omega (arith, x.lasts, y.lasts, h)),
      )
      refl

-- Of two values that are popped, `compare` has every relation that their stays on the stack can be
-- in.
pub compare-has :
    (v w : StackValue) (x y : Stay) (t : RelVal) (r : Relation)
    → Within v x
    → Within w y
    → Related t x y
    → compare v w ≡ ok r
    → has t r ≡ true
compare-has v w x y t r p q h e =
    subst (λ z. has t z ≡ true)
      (ok_inj (sym (compare_popped v w p.pop q.pop p.popped q.popped) ∙ e))
      (remaining-has t v.add p.pop w.add q.pop x y p.pushed p.left q.pushed q.left h)
