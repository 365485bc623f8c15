-- ===== src/Segment/Rooms.antt =====
-- The growing of the table of segments: a cell is made for the value, and the others stay as they are.
use li_mo.Base.{
  ℕ, suc, ◌≡◌, ◌⊎◌, inl, inr, refl, sym, ap, ◌∙◌, subst, Option, none, some, List, [], arith,
  some_inj, nothing, get_elem?, set_elem, grow, cell, cell_row, cell-get_elem?, get_elem?-set_elem,
  get_elem?-set_elem_other, get_elem?_bound, grow-get_elem?, grow_reaches, grow_old, same_or_not,
}
use li_mo.Base.Run.{Ends}
use li_mo.Event.{Val}
use li_mo.Segment.{Segmentation}
use li_mo.Segment.Check.{SegmentAccessor, make_room}

pub record Room (it : Val) (segs room : SegmentAccessor) : Type 0 where
  pub there : (p : Option Segmentation) × (cell room it.thread it.idx ≡ some p)
  pub kept : (k l : ℕ) (p : Option Segmentation) → cell segs k l ≡ some p → cell room k l ≡ some p
  pub fresh :
      (k l : ℕ) (p : Option Segmentation)
      → cell room k l ≡ some p
      → (cell segs k l ≡ some p) ⊎ (p ≡ none)

module _ (it : Val) (segs : SegmentAccessor) (row : List (Option Segmentation))
    (e : get_elem? (grow segs (suc it.thread) []) it.thread ≡ some row) where
  abbrev longer : SegmentAccessor
  longer = grow segs (suc it.thread) []

  abbrev row_end : List (Option Segmentation)
  row_end = grow row (suc it.idx) none

  abbrev room_end : SegmentAccessor
  room_end = set_elem longer it.thread row_end

  own_row : get_elem? room_end it.thread ≡ some row_end
  own_row = get_elem?-set_elem longer it.thread row_end (get_elem?_bound longer it.thread row e)

  kept_lem :
      (k l : ℕ) (p : Option Segmentation) → cell segs k l ≡ some p → cell room_end k l ≡ some p
  kept_lem k l p c =
      let r = cell-get_elem? segs k l p c in
      let long = grow-get_elem? segs (suc it.thread) [] k r.0 r.1 in
      elim (same_or_not it.thread k) [
        | inl q ↦
            subst (λ z. cell room_end z l ≡ some p) q
              (cell_row room_end it.thread l row_end own_row
                ∙ grow-get_elem? row (suc it.idx) none l p (
                    subst (λ z. get_elem? z l ≡ some p)
                      (some_inj (sym long ∙ sym (ap (get_elem? longer) q) ∙ e)) r.2))
        | inr d ↦
            cell_row room_end k l r.0 (get_elem?-set_elem_other longer it.thread k row_end d ∙ long)
            ∙ r.2
      ]

  old_row :
      (k l : ℕ) (r : List (Option Segmentation)) (p : Option Segmentation)
      → get_elem? longer k ≡ some r
      → get_elem? r l ≡ some p
      → cell segs k l ≡ some p
  unfolding get_elem?
  old_row k l r p f g = elim (grow_old segs (suc it.thread) [] k r f) [
    | inl h ↦ cell_row segs k l r h ∙ g
    | inr h ↦ absurd (nothing (subst (λ z. get_elem? z l ≡ some p) h g))
  ]

  fresh_lem :
      (k l : ℕ) (p : Option Segmentation)
      → cell room_end k l ≡ some p
      → (cell segs k l ≡ some p) ⊎ (p ≡ none)
  fresh_lem k l p c =
      let r = cell-get_elem? room_end k l p c in
      elim (same_or_not it.thread k) [
        | inl q ↦
            elim (grow_old row (suc it.idx) none l p (
              subst (λ z. get_elem? z l ≡ some p)
                (some_inj (sym r.1 ∙ sym (ap (get_elem? room_end) q) ∙ own_row)) r.2)) [
                  | inl g ↦ inl (old_row k l row p (sym (ap (get_elem? longer) q) ∙ e) g)
                  | inr g ↦ inr g
                ]
        | inr d ↦ inl (
            old_row k l r.0 p (sym (get_elem?-set_elem_other longer it.thread k row_end d) ∙ r.1)
              r.2)
      ]

  room_lem : Room it segs room_end
  room_lem =
      let reached = grow_reaches row (suc it.idx) none it.idx (omega arith) in
      record {
        there = (reached.0, cell_row room_end it.thread it.idx row_end own_row ∙ reached.1);
        kept = kept_lem;
        fresh = fresh_lem;
      }

-- The cell is made without a read outside of the table.
pub make_room-Room : (it : Val) (segs : SegmentAccessor) → Ends (make_room it segs) (Room it segs)
unfolding make_room
make_room-Room it segs =
    let row = grow_reaches segs (suc it.thread) [] it.thread (omega arith) in
    rw row.1 (
      set_elem (grow segs (suc it.thread) []) it.thread (grow row.0 (suc it.idx) none),
      refl,
      room_lem it segs row.0 row.1,
    )
