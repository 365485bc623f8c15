-- ===== src/Segment/NoAlarm.antt =====
-- No false alarm: where the values of a history can be those of a stack, `check_segments` throws no
-- violation.
use li_mo.Base.{
  ℕ, ◌≡◌, inl, inr, refl, false, Option, none, some, List, Option-cases, cell, cell-All, All, ok,
  if◌then◌else◌, violation,
}
use li_mo.Base.Run.{Run, return, throw, each, each_inv, Ends}
use li_mo.Event.{Val}
use li_mo.Relation.Product.{Stay}
use li_mo.Matrix.{all_false}
use li_mo.Matrix.Entries.{all_false-at}
use li_mo.Segment.{stack, SegNode, Segmentation}
use li_mo.Segment.Check.{
  Accessor, SegmentAccessor, check_pair, check_value, check_left, check_segments,
}
use li_mo.Segment.Orders.{Crosses}
use li_mo.Segment.Pairs.{AllFit, deref-cell, check_both-AllFit}

module _ (stay : ℕ → ℕ → Stay) (Null Listed : ℕ → ℕ → Type 0)
    (never : (i j k l : ℕ) → Crosses (stay i j) (stay k l) → ⊥) where
  -- A pointer that is not null.
  pointed :
      (t : SegmentAccessor) (v : Val) (p : Option Segmentation)
      → AllFit stay Null Listed t
      → (Null v.thread v.idx → ⊥)
      → cell t v.thread v.idx ≡ some p
      → (s : Segmentation) × (cell t v.thread v.idx ≡ some (some s))
  pointed t v none h n e = absurd (n (h.0 v.thread v.idx none e))
  pointed t v (some s) h n e = (s, e)

  -- A value that is not the null pointer, if it is in the table.
  abbrev pub Valid : Val → Type 0
  Valid v = Null v.thread v.idx → ⊥

  check_pair-AllFit :
      (it v : Val) (t : SegmentAccessor)
      → Listed it.thread it.idx
      → Valid it
      → Valid v
      → AllFit stay Null Listed t
      → Ends (check_pair stack it v t) (AllFit stay Null Listed)
  unfolding check_pair
  check_pair-AllFit it v t l n m h = elim (Option-cases (cell t v.thread v.idx)) [
    | inl o ↦ rw (o, check_pair) (t, refl, h)
    | inr p ↦
        let c = h.1 it.thread it.idx l in
        let one = pointed t it c.0 h n c.1 in
        let two = pointed t v p.0 h m p.1 in
        rw (p.1, check_pair)
          (check_both-AllFit stay Null Listed never t it v one.0 two.0 h one.1 two.1)
  ]

  -- What an entry of `acc` has to be for the value: there, with values that are no null pointers.
  abbrev pub Known : Accessor → Val → Type 0
  Known acc v =
      Listed v.thread v.idx
      × Valid v
      × ((n : SegNode) × (cell acc v.thread v.idx ≡ some n) × All Valid n.conc)

  check_value-AllFit :
      (acc : Accessor) (it : Val) (t : SegmentAccessor)
      → Known acc it
      → AllFit stay Null Listed t
      → Ends (check_value stack acc it t) (AllFit stay Null Listed)
  unfolding check_value
  check_value-AllFit acc it t k h =
      let c = h.1 it.thread it.idx k.0 in
      let one = pointed t it c.0 h k.1 c.1 in
      rw (c.1, check_value)
        (rw (deref-cell t it one.0 one.1) (
          rw k.2.1 (
            each_inv (AllFit stay Null Listed) Valid (check_pair stack it)
              (λ v u m g. check_pair-AllFit it v u k.0 k.1 m g) k.2.0.conc t k.2.2 h)))

  abbrev Possible : Option Segmentation → Type 0
  Possible none = Unit
  Possible (some s) = all_false s.valid ≡ false

  check_left_lem : (t : SegmentAccessor) → AllFit stay Null Listed t → check_left t ≡ some (ok tt)
  unfolding check_left
  check_left_lem t h =
      (each_inv (λ _. Unit {0}) (All Possible) row_body
        (λ row _ q _. each_inv (λ _. Unit {0}) Possible body body_ends row tt q tt) t tt
        (cell-All Possible t possible) tt).1
    where
      body : Option Segmentation → Unit {0} → Run (Unit {0})
      body p _ = elim p [
        | none ↦ return tt
        | some s ↦ if all_false s.valid then throw violation else return tt
      ]

      row_body : List (Option Segmentation) → Unit {0} → Run (Unit {0})
      row_body row _ = each body row tt

      body_ends :
          (p : Option Segmentation) (u : Unit {0})
          → Possible p
          → Unit {0}
          → Ends (body p u) (λ _. Unit {0})
      body_ends none u q _ = (tt, refl, tt)
      body_ends (some s) u q _ = rw q (tt, refl, tt)

      possible : (k l : ℕ) (p : Option Segmentation) → cell t k l ≡ some p → Possible p
      possible k l none e = tt
      possible k l (some s) e =
          let f = h.0 k l (some s) e in all_false-at s.valid f.add_idx f.rmv_idx f.possible

  -- Where all values that the table of segments lists lie in segments of it, no two of them cross, and
  -- no pointer to one of them is null, `check_segments` for a stack returns and throws no violation.
  pub check_segments-AllFit :
      (order : List Val) (acc : Accessor) (t : SegmentAccessor)
      → All (Known acc) order
      → AllFit stay Null Listed t
      → check_segments stack order acc t ≡ some (ok tt)
  unfolding check_segments
  check_segments-AllFit order acc t k h =
      let run =
        each_inv (AllFit stay Null Listed) (Known acc) (check_value stack acc)
          (λ it u q g. check_value-AllFit acc it u q g) order t k h in
      rw run.1 (check_left_lem run.0 run.2)
