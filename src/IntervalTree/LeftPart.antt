-- ===== src/IntervalTree/LeftPart.antt =====
-- `disj_left` does not fail, and it loses nothing.
use li_mo.Base.{
  ℕ, min, ◌≡◌, refl, sym, ap, ◌∙◌, subst, true, ◌&&◌, Option, none, some, List, ◌++◌, ltb,
  if◌then◌else◌, Bool-cases, inl, inr,
}
use mathlib.Core.List.{append_assoc}
use li_mo.IntervalTree.{Itv, TreeNode, null, node, Info, lo, hi, turn, update, hull, then_on}
use li_mo.IntervalTree.Branches.{reals_dummy}
use li_mo.IntervalTree.Spanned.{reals}
use li_mo.IntervalTree.Parting.{Parts, disjoint, take_left, disj_left, detach, renew}
use li_mo.IntervalTree.Full.{IsFull, renewed, turn-IsFull}

-- `o` is a part and what remains, with the intervals `zs` in their order, where the part is on the left.
abbrev pub SplitsLeft : Parts → List Itv → Type 0
SplitsLeft o zs =
    (u : TreeNode) × (y : Info) × (l : TreeNode) × (r : TreeNode) × (o ≡ some (u, node y l r))
    × IsFull u
    × IsFull (node y l r)
    × (reals u ++ reals (node y l r) ≡ zs)

module _ (x a : Info) (al ar : TreeNode) (b : Info) (bl br : TreeNode)
    (h : IsFull (node x (node a al ar) (node b bl br))) where
  abbrev inner_of : List Itv
  inner_of = reals (node a al ar) ++ reals (node b bl br)

  sides : (x.dummy ≡ true) × IsFull (node a al ar) × IsFull (node b bl br)
  unfolding IsFull
  sides = h

  detach_left :
      SplitsLeft (detach x (node x null (node b bl br)) (node b bl br) (node a al ar)) inner_of
  unfolding update hull reals
  detach_left = (
    node a al ar,
    turn x.left b,
    bl,
    br,
    rw (sides.0) refl,
    sides.1,
    turn-IsFull x.left b bl br sides.2,
    refl,
  )

  over_left :
      (y : Info) (l r : TreeNode)
      → IsFull (node y l r)
      → IsFull (node x (node y l r) (node b bl br))
  unfolding IsFull
  over_left y l r f = (sides.0, f, sides.2)

  renew_left :
      (u : TreeNode) (y : Info) (l r : TreeNode)
      → IsFull u
      → IsFull (node y l r)
      → reals u ++ reals (node y l r) ≡ reals (node a al ar)
      → SplitsLeft (renew (node y l r) (λ t. node x t (node b bl br)) u) inner_of
  renew_left u y l r fu fv e =
      let v = renewed y l r fv in
      let w = renewed x (node v.0 l r) (node b bl br) (over_left v.0 l r v.2) in
      (
        u,
        w.0,
        node v.0 l r,
        node b bl br,
        ap (λ o. finish (then_on o (λ t. update (node x t (node b bl br))))) v.1 ∙ ap finish w.1,
        fu,
        w.2,
        ap (λ zs. reals u ++ zs)
              (w.3
                ∙ reals_dummy x (node v.0 l r) (node b bl br) sides.0
                ∙ ap (λ zs. zs ++ reals (node b bl br)) v.3)
            ∙ sym (append_assoc (reals u) (reals (node y l r)) (reals (node b bl br)))
            ∙ ap (λ zs. zs ++ reals (node b bl br)) e,
      )
    where
      finish : Option TreeNode → Parts
      finish o = elim o [ none ↦ none | some t ↦ some (u, t) ]

  unfoldable rest_left : Parts → Parts
  rest_left rest = elim rest [
    | none ↦ none
    | some p ↦ elim p.0 [
      | null ↦ some (null, node x (node a al ar) (node b bl br))
      | node c cl cr ↦ renew p.1 (λ t. node x t (node b bl br)) (node c cl cr)
    ]
  ]

  after_left :
      (u : TreeNode) (y : Info) (l r : TreeNode)
      → IsFull u
      → IsFull (node y l r)
      → reals u ++ reals (node y l r) ≡ reals (node a al ar)
      → SplitsLeft (rest_left (some (u, node y l r))) inner_of
  unfolding rest_left reals
  after_left null y l r fu fv e = (
    null,
    x,
    node a al ar,
    node b bl br,
    refl,
    fu,
    h,
    reals_dummy x (node a al ar) (node b bl br) sides.0,
  )
  after_left (node c cl cr) y l r fu fv e = renew_left (node c cl cr) y l r fu fv e

  take_left-Splits :
      (m : ℕ) (rest : Parts)
      → SplitsLeft rest (reals (node a al ar))
      → SplitsLeft (take_left m x (node a al ar) (node b bl br) rest) inner_of
  unfolding take_left rest_left
  take_left-Splits m rest t =
      elim (Bool-cases (disjoint (node a al ar) (node b bl br) && ltb (hi a) m)) [
        | inl e ↦
            subst (λ d. SplitsLeft (if d then detached else rest_left rest) inner_of) (sym e)
              detach_left
        | inr e ↦
            subst (λ d. SplitsLeft (if d then detached else rest_left rest) inner_of) (sym e)
              (subst (λ o. SplitsLeft (rest_left o) inner_of) (sym t.4)
                (after_left t.0 t.1 t.2 t.3 t.5 t.6 t.7))
      ]
    where
      detached : Parts
      detached = detach x (node x null (node b bl br)) (node b bl br) (node a al ar)

abbrev PartsLeft : TreeNode → Type 0
PartsLeft null = Unit
PartsLeft (node x l r) =
    (m : ℕ) → IsFull (node x l r) → SplitsLeft (disj_left m (node x l r)) (reals (node x l r))

node-PartsLeft : (x : Info) (l r : TreeNode) → PartsLeft l → PartsLeft (node x l r)
unfolding disj_left take_left IsFull reals
node-PartsLeft x null null pl m h = (null, x, null, null, refl, tt, h, refl)
node-PartsLeft x null (node b bl br) pl m h = elim h.0 [ ]
node-PartsLeft x (node a al ar) null pl m h = elim h.0 [ ]
node-PartsLeft x (node a al ar) (node b bl br) pl m h =
    subst (SplitsLeft (disj_left m (node x (node a al ar) (node b bl br))))
      (sym (reals_dummy x (node a al ar) (node b bl br) h.0))
      (take_left-Splits x a al ar b bl br h m (disj_left (min m (lo b)) (node a al ar))
        (pl (min m (lo b)) h.1))

parts_left : (t : TreeNode) → PartsLeft t
parts_left null = tt
parts_left (node x l r) = node-PartsLeft x l r (parts_left l)

-- Where every dummy of a tree has two children and every real node none, `disj_left` does not fail:
-- it gives a part and what remains, both again of that form, and the intervals of the part and then
-- those of the rest are those of the tree, in their order.
pub disj_left-SplitsLeft :
    (m : ℕ) (x : Info) (l r : TreeNode)
    → IsFull (node x l r)
    → SplitsLeft (disj_left m (node x l r)) (reals (node x l r))
disj_left-SplitsLeft m x l r h = parts_left (node x l r) m h
