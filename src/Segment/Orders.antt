-- ===== src/Segment/Orders.antt =====
-- What the tests on four segments mean for values that are in them.
use li_mo.Base.{ℕ, ◌<◌, ◌≡◌, Bool, true, ◌&&◌, ◌||◌, ◌⊎◌, inl, inr, arith, ok, ok_inj}
use li_mo.Interval.Atomic.{AtomicInterval, contains, preceeds}
use li_mo.Interval.Points.{preceeds-lt}
use li_mo.Relation.Product.{Stay}
use li_mo.Segment.{stack, queue, ordered_as, invalid}

-- The second value is added while the first is there, and stays longer.
abbrev pub Crosses : Stay → Stay → Type 0
Crosses x y = (x.from < y.from) × (y.from < x.to) × (x.to < y.to)

-- The second value is there only while the first is.
abbrev pub Encloses : Stay → Stay → Type 0
Encloses x y = (x.from < y.from) × (y.to < x.to)

ordered_points :
    (a b c d : AtomicInterval) (p q r s : ℕ)
    → ordered_as a b c d ≡ true
    → contains a p ≡ true
    → contains b q ≡ true
    → contains c r ≡ true
    → contains d s ≡ true
    → (p < q) × (q < r) × (r < s)
unfolding ordered_as
ordered_points a b c d p q r s h i j k l =
    let (u, v, w) = three (preceeds a b) (preceeds b c) (preceeds c d) h in
    (preceeds-lt a b p q u i j, preceeds-lt b c q r v j k, preceeds-lt c d r s w k l)
  where
    three : (u v w : Bool) → (u && v && w) ≡ true → (u ≡ true) × (v ≡ true) × (w ≡ true)
    three u v w m = ground arith

either : (u v : Bool) → (u || v) ≡ true → (u ≡ true) ⊎ (v ≡ true)
either u v h = ground arith

module _ (aa ra ab rb : AtomicInterval) (x y : Stay) (i : contains aa x.from ≡ true)
    (j : contains ra x.to ≡ true) (k : contains ab y.from ≡ true)
    (l : contains rb y.to ≡ true) where
  -- If four segments are invalid for a stack, then values in them cross, as no two values of a stack
  -- do.
  pub invalid_stack-Crosses : invalid stack aa ra ab rb ≡ ok true → Crosses x y ⊎ Crosses y x
  unfolding invalid
  invalid_stack-Crosses h =
      elim (either (ordered_as aa ab ra rb) (ordered_as ab aa rb ra) (ok_inj h)) [
        | inl e ↦ inl (ordered_points aa ab ra rb x.from y.from x.to y.to e i k j l)
        | inr e ↦ inr (ordered_points ab aa rb ra y.from x.from y.to x.to e k i l j)
      ]

  -- If four segments are invalid for a queue, then one of the values in them encloses the other, as no
  -- two values of a queue do.
  pub invalid_queue-Encloses : invalid queue aa ra ab rb ≡ ok true → Encloses x y ⊎ Encloses y x
  unfolding invalid
  invalid_queue-Encloses h =
      elim (either (ordered_as aa ab rb ra) (ordered_as ab aa ra rb) (ok_inj h)) [
        | inl e ↦
            let (u, v, w) = ordered_points aa ab rb ra x.from y.from y.to x.to e i k l j in
            inl (u, w)
        | inr e ↦
            let (u, v, w) = ordered_points ab aa ra rb y.from x.from x.to y.to e k i j l in
            inr (u, w)
      ]
