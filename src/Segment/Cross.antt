-- ===== src/Segment/Cross.antt =====
-- The loops over two pairs of segments: where two values of a stack lie in segments that are still
-- possible, these segments go together.
use li_mo.Base.{
  ℕ, suc, ◌-◌, ◌<◌, ◌≡◌, inl, inr, refl, sym, ap, ◌∙◌, subst, Bool, true, not, ◌||◌, some, List,
  arith, length, get_elem?-some, same_or_not, Bool-cases, ok,
}
use li_mo.Base.Run.{Run, loop, loop_inv, Ends}
use li_mo.Interval.Atomic.{AtomicInterval, closedopen, contains}
use li_mo.Relation.Product.{Stay}
use li_mo.Matrix.{Matrix, at}
use li_mo.Matrix.Entries.{at_in}
use li_mo.Matrix.Entrywise.{Sized, Ored}
use li_mo.Segment.{stack, ordered_as, Segmentation, segment, valid, invalid}
use li_mo.Segment.Orders.{Crosses, invalid_stack-Crosses}

-- The value lies in two segments whose pair is still possible.
pub record Fits (seg : Segmentation) (s : Stay) : Type 0 where
  pub sized : Sized (length seg.add_ts - 1) (length seg.rmv_ts - 1) seg.valid
  pub add_idx : ℕ
  pub rmv_idx : ℕ
  pub add_seg : AtomicInterval
  pub rmv_seg : AtomicInterval
  pub add_is : segment seg.add_ts add_idx ≡ some add_seg
  pub rmv_is : segment seg.rmv_ts rmv_idx ≡ some rmv_seg
  pub in_add : contains add_seg s.from ≡ true
  pub in_rmv : contains rmv_seg s.to ≡ true
  pub possible : at seg.valid add_idx rmv_idx ≡ some true

pub segment-some :
    (ts : List ℕ) (i : ℕ) → i < length ts - 1 → (a : AtomicInterval) × (segment ts i ≡ some a)
unfolding segment
segment-some ts i h =
    let from = get_elem?-some ts i (omega (arith, h)) in
    let to = get_elem?-some ts (suc i) (omega (arith, h)) in
    rw (from.1, segment, to.1) (closedopen from.0 to.0, refl)

-- An entry that is true stays true under `set_or`.
pub set_or-at :
    (m n : Matrix) (r c : ℕ) (val : Bool) (s d : ℕ)
    → Ored m r c val n
    → at m s d ≡ some true
    → at n s d ≡ some true
set_or-at m n r c val s d o e =
    let i = at_in m s d true e in
    elim (same_or_not r s) [
      | inr k ↦ o.others s d i.0 i.1 (inl k) ∙ e
      | inl p ↦ elim (same_or_not c d) [
        | inr k ↦ o.others s d i.0 i.1 (inr k) ∙ e
        | inl q ↦
            subst (λ z. at n z d ≡ some true) p
              (subst (λ z. at n r z ≡ some true) q
                (o.written true (
                  subst (λ z. at m z c ≡ some true) (sym p)
                    (subst (λ z. at m s z ≡ some true) (sym q) e))))
      ]
    ]

-- Segments of values that do not cross are valid for a stack.
pub valid_stack :
    (aa ra ab rb : AtomicInterval) (x y : Stay)
    → contains aa x.from ≡ true
    → contains ra x.to ≡ true
    → contains ab y.from ≡ true
    → contains rb y.to ≡ true
    → (Crosses x y → ⊥)
    → (Crosses y x → ⊥)
    → valid stack aa ra ab rb ≡ ok true
unfolding valid invalid
valid_stack aa ra ab rb x y i j k l n m =
    elim (Bool-cases (ordered_as aa ab ra rb || ordered_as ab aa rb ra)) [
      | inl e ↦ absurd (elim (invalid_stack-Crosses aa ra ab rb x y i j k l (ap ok e)) [
        | inl c ↦ n c
        | inr c ↦ m c
      ])
      | inr e ↦ ap (λ b. ok (not b)) e
    ]

pub valid_total : (aa ra ab rb : AtomicInterval) → (b : Bool) × (valid stack aa ra ab rb ≡ ok b)
unfolding valid invalid
valid_total aa ra ab rb = (_, refl)

-- A loop one round of which makes something true that every round keeps.
module _ {S : Type 0} (Shape Hit : S → Type 0) where
  abbrev pub Hits : Type 0 → S → S → Type 0
  Hits M before after = Shape after × (Hit before → Hit after) × (M → Hit after)

  pub loop-Hits :
      (body : ℕ → S → Run S) (M : Type 0) (end target : ℕ)
      → target < end
      → ((k : ℕ) (st : S) → k < end → Shape st → Ends (body k st) (Hits (M × (k ≡ target)) st))
      → (st : S) → Shape st
      → Ends (loop body 0 end st) (Hits M st)
  loop-Hits body M end target l step st h =
      let run =
        loop_inv (λ k after. Shape after × (Hit st → Hit after) × (M × (target < k) → Hit after))
          body end (λ k after b p. next k after b p) 0 end st (omega arith)
          (h, (λ t. t), λ t. absurd (omega (arith, t.1))) in
      (run.0, run.1, (run.2.0, run.2.1, λ t. run.2.2 (t, l)))
    where
      next :
          (k : ℕ) (after : S)
          → k < end
          → Shape after × (Hit st → Hit after) × (M × (target < k) → Hit after)
          → Ends (body k after) (λ z. Shape z × (Hit st → Hit z) × (M × (target < suc k) → Hit z))
      next k after b p =
          let run = step k after b p.0 in
          (
            run.0,
            run.1,
            (
              run.2.0,
              (λ t. run.2.1 (p.1 t)),
              λ t. elim (same_or_not k target) [
                | inl e ↦ run.2.2 (t.0, e)
                | inr e ↦ run.2.1 (p.2 (t.0, omega (arith, t.1, e)))
              ],
            ),
          )
