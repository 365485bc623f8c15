-- ===== src/IntervalTree/RightPart.antt =====
-- `disj_right` does not fail, and it loses nothing.
use li_mo.Base.{
  ℕ, max, ◌≡◌, refl, sym, ap, ◌∙◌, subst, true, ◌&&◌, Option, none, some, List, ◌++◌, ltb,
  if◌then◌else◌, Bool-cases, inl, inr,
}
use mathlib.Core.List.{append_assoc, append-nil}
use li_mo.IntervalTree.{Itv, TreeNode, null, node, Info, lo, hi, turn, update, hull, then_on}
use li_mo.IntervalTree.Branches.{reals_dummy}
use li_mo.IntervalTree.Spanned.{reals, IsSpanned}
use li_mo.IntervalTree.Parting.{Parts, disjoint, take_right, disj_left, disj_right, detach, renew}
use li_mo.IntervalTree.Full.{IsFull, renewed, turn-IsFull, IsSpanned-IsFull}
use li_mo.IntervalTree.LeftPart.{SplitsLeft, disj_left-SplitsLeft}

-- `o` is a part and what remains, with the intervals `zs` in their order, where the part is on the right.
abbrev pub SplitsRight : Parts → List Itv → Type 0
SplitsRight o zs =
    (u : TreeNode) × (y : Info) × (l : TreeNode) × (r : TreeNode) × (o ≡ some (u, node y l r))
    × IsFull u
    × IsFull (node y l r)
    × (reals (node y l r) ++ reals u ≡ zs)

module _ (x a : Info) (al ar : TreeNode) (b : Info) (bl br : TreeNode)
    (h : IsFull (node x (node a al ar) (node b bl br))) where
  abbrev inner_of : List Itv
  inner_of = reals (node a al ar) ++ reals (node b bl br)

  sides : (x.dummy ≡ true) × IsFull (node a al ar) × IsFull (node b bl br)
  unfolding IsFull
  sides = h

  detach_right :
      SplitsRight (detach x (node x (node a al ar) null) (node a al ar) (node b bl br)) inner_of
  unfolding update hull reals
  detach_right = (
    node b bl br,
    turn x.left a,
    al,
    ar,
    rw (sides.0) refl,
    sides.2,
    turn-IsFull x.left a al ar sides.1,
    refl,
  )

  over_right :
      (y : Info) (l r : TreeNode)
      → IsFull (node y l r)
      → IsFull (node x (node a al ar) (node y l r))
  unfolding IsFull
  over_right y l r f = (sides.0, sides.1, f)

  renew_right :
      (u : TreeNode) (y : Info) (l r : TreeNode)
      → IsFull u
      → IsFull (node y l r)
      → reals (node y l r) ++ reals u ≡ reals (node b bl br)
      → SplitsRight (renew (node y l r) (λ t. node x (node a al ar) t) u) inner_of
  renew_right u y l r fu fv e =
      let v = renewed y l r fv in
      let w = renewed x (node a al ar) (node v.0 l r) (over_right v.0 l r v.2) in
      (
        u,
        w.0,
        node a al ar,
        node v.0 l r,
        ap (λ o. finish (then_on o (λ t. update (node x (node a al ar) t)))) v.1 ∙ ap finish w.1,
        fu,
        w.2,
        ap (λ zs. zs ++ reals u)
              (w.3
                ∙ reals_dummy x (node a al ar) (node v.0 l r) sides.0
                ∙ ap (λ zs. reals (node a al ar) ++ zs) v.3)
            ∙ append_assoc (reals (node a al ar)) (reals (node y l r)) (reals u)
            ∙ ap (λ zs. reals (node a al ar) ++ zs) e,
      )
    where
      finish : Option TreeNode → Parts
      finish o = elim o [ none ↦ none | some t ↦ some (u, t) ]

  unfoldable rest_right : Parts → Parts
  rest_right rest = elim rest [
    | none ↦ none
    | some p ↦ elim p.0 [
      | null ↦ some (null, node x (node a al ar) (node b bl br))
      | node c cl cr ↦ renew p.1 (λ t. node x (node a al ar) t) (node c cl cr)
    ]
  ]

  after_right :
      (u : TreeNode) (y : Info) (l r : TreeNode)
      → IsFull u
      → IsFull (node y l r)
      → reals (node y l r) ++ reals u ≡ reals (node b bl br)
      → SplitsRight (rest_right (some (u, node y l r))) inner_of
  unfolding rest_right reals
  after_right null y l r fu fv e = (
    null,
    x,
    node a al ar,
    node b bl br,
    refl,
    fu,
    h,
    append-nil (reals (node x (node a al ar) (node b bl br)))
        ∙ reals_dummy x (node a al ar) (node b bl br) sides.0,
  )
  after_right (node c cl cr) y l r fu fv e = renew_right (node c cl cr) y l r fu fv e

  take_right-Splits :
      (m : ℕ) (rest : Parts)
      → SplitsRight rest (reals (node b bl br))
      → SplitsRight (take_right m x (node a al ar) (node b bl br) rest) inner_of
  unfolding take_right rest_right
  take_right-Splits m rest t =
      elim (Bool-cases (disjoint (node a al ar) (node b bl br) && ltb m (lo b))) [
        | inl e ↦
            subst (λ d. SplitsRight (if d then detached else rest_right rest) inner_of) (sym e)
              detach_right
        | inr e ↦
            subst (λ d. SplitsRight (if d then detached else rest_right rest) inner_of) (sym e)
              (subst (λ o. SplitsRight (rest_right o) inner_of) (sym t.4)
                (after_right t.0 t.1 t.2 t.3 t.5 t.6 t.7))
      ]
    where
      detached : Parts
      detached = detach x (node x (node a al ar) null) (node a al ar) (node b bl br)

abbrev PartsRight : TreeNode → Type 0
PartsRight null = Unit
PartsRight (node x l r) =
    (m : ℕ) → IsFull (node x l r) → SplitsRight (disj_right m (node x l r)) (reals (node x l r))

node-PartsRight : (x : Info) (l r : TreeNode) → PartsRight r → PartsRight (node x l r)
unfolding disj_right take_right IsFull reals
node-PartsRight x null null pl m h =
    (null, x, null, null, refl, tt, h, append-nil (reals (node x null null)))
node-PartsRight x null (node b bl br) pl m h = elim h.0 [ ]
node-PartsRight x (node a al ar) null pl m h = elim h.0 [ ]
node-PartsRight x (node a al ar) (node b bl br) pl m h =
    subst (SplitsRight (disj_right m (node x (node a al ar) (node b bl br))))
      (sym (reals_dummy x (node a al ar) (node b bl br) h.0))
      (take_right-Splits x a al ar b bl br h m (disj_right (max m (hi a)) (node b bl br))
        (pl (max m (hi a)) h.2))

parts_right : (t : TreeNode) → PartsRight t
parts_right null = tt
parts_right (node x l r) = node-PartsRight x l r (parts_right r)

-- Where every dummy of a tree has two children and every real node none, `disj_right` does not fail:
-- it gives a part and what remains, both again of that form, and the intervals of the rest and then
-- those of the part are those of the tree, in their order.
pub disj_right-SplitsRight :
    (m : ℕ) (x : Info) (l r : TreeNode)
    → IsFull (node x l r)
    → SplitsRight (disj_right m (node x l r)) (reals (node x l r))
disj_right-SplitsRight m x l r h = parts_right (node x l r) m h

-- In a tree in its order, `disj_left` and `disj_right` do not fail, whatever their limits. Each gives a
-- part and what remains, every dummy in them with two children and every real node with none; the
-- intervals of the tree, in their order, are those of the part and the rest for `disj_left`, and those
-- of the rest and the part for `disj_right`.
pub disj_total :
    (m n : ℕ) (x : Info) (l r : TreeNode)
    → IsSpanned (node x l r)
    → SplitsLeft (disj_left m (node x l r)) (reals (node x l r))
      × SplitsRight (disj_right n (node x l r)) (reals (node x l r))
disj_total m n x l r h =
    let f = IsSpanned-IsFull (node x l r) h in
    (disj_left-SplitsLeft m x l r f, disj_right-SplitsRight n x l r f)
