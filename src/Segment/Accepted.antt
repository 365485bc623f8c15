-- ===== src/Segment/Accepted.antt =====
-- The cutting of all values and the check behind it, as the program runs them.
use li_mo.Base.{
  ℕ, ◌≡◌, refl, sym, ap, ◌∙◌, subst, Option, none, some, List, [], ◌∷◌, some_inj, nothing, cell,
  All, All-mono, Any, here, there, Any-mono, ok,
}
use li_mo.Base.Run.{each_done, Ends}
use li_mo.Event.{Val}
use li_mo.Relation.Product.{Stay}
use li_mo.Segment.{stack, Segmentation}
use li_mo.Segment.Check.{Accessor, SegmentAccessor, cut_value, segmentize_all, check_segments}
use li_mo.Segment.Orders.{Crosses}
use li_mo.Segment.Pairs.{FitsPointer}
use li_mo.Segment.NoAlarm.{Known, check_segments-AllFit}
use li_mo.Segment.Segmented.{HasNode, Ready, Fit, Cut, cut_value-Cut}

module _ (stay : ℕ → ℕ → Stay) (order : List Val) (acc : Accessor)
    (ready : All (Ready stay order acc) order) where
  abbrev Listed : ℕ → ℕ → Type 0
  Listed k l = Any (λ v. (v.thread ≡ k) × (v.idx ≡ l)) order

  abbrev Null : ℕ → ℕ → Type 0
  Null k l = Listed k l → ⊥

  pick : (P : Val → Type 0) (w : Val) (vs : List Val) → All P vs → Any (λ u. u ≡ w) vs → P w
  pick P w [] h a = elim a [ ]
  pick P w (v ∷ vs) h (here e) = subst P e h.0
  pick P w (v ∷ vs) h (there a) = pick P w vs h.1 a

  nodes : (ws : List Val) → All (λ w. Any (λ u. u ≡ w) order) ws → All (HasNode acc) ws
  nodes ws h =
      All-mono ws
        (λ w a. let r = pick (Ready stay order acc) w order ready a in (r.node, r.found, r.is_done))
        h

  listed : (w : Val) → Any (λ u. u ≡ w) order → Listed w.thread w.idx
  listed w a = Any-mono (λ u e. (ap (λ z. z.thread) e, ap (λ z. z.idx) e)) a

  -- All values are cut, each so that it lies in segments that are possible.
  segmentize_all-Cut :
      Ends
        (segmentize_all order acc)
        (λ t. Fit stay order acc t × All (λ v. Cut stay order acc v t) order)
  unfolding segmentize_all
  segmentize_all-Cut =
      let run =
        each_done (Fit stay order acc) (Ready stay order acc) (Cut stay order acc) (cut_value acc)
          (λ v t r h. cut_value-Cut stay order acc v t r (nodes r.node.conc r.conc_in) h) order []
          ready (λ k l seg e. absurd (nowhere k l e)) in
      (run.0, run.1, (run.2.0, run.2.1))
    where
      nowhere : (k l : ℕ) {seg : Segmentation} → cell [] k l ≡ some (some seg) → ⊥
      nowhere k l e = nothing e

-- Where the values can be those of a stack - each was pushed and popped while its operations ran,
-- all its operations returned, and no two of the values cross - and the values that `acc` calls
-- concurrent are in the order, `segmentize` returns and `check_segments` on what it returns does as
-- well, without a violation.
pub segmentize_all-check_segments :
    (stay : ℕ → ℕ → Stay) (order : List Val) (acc : Accessor)
    → All (Ready stay order acc) order
    → ((i j k l : ℕ) → Crosses (stay i j) (stay k l) → ⊥)
    → Ends (segmentize_all order acc) (λ t. check_segments stack order acc t ≡ some (ok tt))
segmentize_all-check_segments stay order acc ready never =
    let run = segmentize_all-Cut stay order acc ready in
    let t = run.0 in
    (
      t,
      run.1,
      check_segments-AllFit stay (Null stay order acc ready) (Listed stay order acc ready) never
          order acc t (known order ready (λ w a. a)) (fits t run.2.0 run.2.1, stands t run.2.1),
    )
  where
    N : ℕ → ℕ → Type 0
    N = Null stay order acc ready

    L : ℕ → ℕ → Type 0
    L = Listed stay order acc ready

    known :
        (vs : List Val)
        → All (Ready stay order acc) vs
        → ((w : Val) → Any (λ u. u ≡ w) vs → Any (λ u. u ≡ w) order)
        → All (Known stay N L never acc) vs
    known [] h i = tt
    known (v ∷ vs) h i = (
      (
        listed stay order acc ready v (i v (here refl)),
        (λ n. n (listed stay order acc ready v (i v (here refl)))),
        (
          h.0.node,
          h.0.found,
          All-mono h.0.node.conc (λ w a n. n (listed stay order acc ready w a)) h.0.conc_in,
        ),
      ),
      known vs h.1 (λ w a. i w (there a)),
    )

    cut_at :
        (t : SegmentAccessor) (vs : List Val) (k l : ℕ)
        → All (λ v. Cut stay order acc v t) vs
        → Any (λ v. (v.thread ≡ k) × (v.idx ≡ l)) vs
        → (seg : Segmentation) × (cell t k l ≡ some (some seg))
    cut_at t [] k l h a = elim a [ ]
    cut_at t (v ∷ vs) k l h (here (p, q)) = (
      h.0.0,
      subst (λ i. cell t i l ≡ some (some h.0.0)) p
          (subst (λ j. cell t v.thread j ≡ some (some h.0.0)) q h.0.1),
    )
    cut_at t (v ∷ vs) k l h (there a) = cut_at t vs k l h.1 a

    fits :
        (t : SegmentAccessor)
        → Fit stay order acc t
        → All (λ v. Cut stay order acc v t) order
        → (k l : ℕ) (p : Option Segmentation) → cell t k l ≡ some p
        → FitsPointer stay N L k l p
    fits t f c k l none e = λ i. nothing (some_inj (sym e ∙ (cut_at t order k l c i).1))
    fits t f c k l (some seg) e = f k l seg e

    stands :
        (t : SegmentAccessor)
        → All (λ v. Cut stay order acc v t) order
        → (k l : ℕ) → L k l
        → (p : Option Segmentation) × (cell t k l ≡ some p)
    stands t c k l i = let s = cut_at t order k l c i in (some s.0, s.1)
