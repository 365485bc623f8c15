-- ===== src/IntervalTree/Parting.antt =====
-- `disjoint`, `disj_left` and `disj_right` of monitor/src/interval_tree.cpp, which take from a tree the
-- part that lies before, or behind, all the rest. A result is a pair: the part, `null` where there is
-- none, and what remains. `none` is the dereference of a null pointer.
use li_mo.Base.{ℕ, Bool, false, ◌&&◌, not, Option, none, some, ltb, if◌then◌else◌, max, min}
use li_mo.Interval.Atomic.{overlaps}
use li_mo.IntervalTree.{TreeNode, null, node, Info, lo, hi, turned, update, then_on}

unfoldable pub disjoint : TreeNode → TreeNode → Bool
disjoint null r = false
disjoint (node a al ar) null = false
disjoint (node a al ar) (node b bl br) = not (overlaps a.interval.inner b.interval.inner)

abbrev pub Parts : Type 0
Parts = Option (TreeNode × TreeNode)

-- The new child and its parent, updated.
abbrev pub renew : TreeNode → (TreeNode → TreeNode) → TreeNode → Parts
renew child parent part = elim (then_on (update child) (λ t. update (parent t))) [
  | none ↦ none
  | some t ↦ some (part, t)
]

-- Where the part is a child of the node: a dummy gives way to its other child.
abbrev pub detach : Info → TreeNode → TreeNode → TreeNode → Parts
detach x without other part = elim (update without) [
  | none ↦ none
  | some t ↦ some (part, if x.dummy then turned x.left other else t)
]

unfoldable pub take_left : ℕ → Info → TreeNode → TreeNode → Parts → Parts
take_left m x null r rest = some (null, node x null r)
take_left m x (node a al ar) null rest = none
take_left m x (node a al ar) (node b bl br) rest =
    let l = node a al ar in
    let r = node b bl br in
    if disjoint l r && ltb (hi a) m then detach x (node x null r) r l else elim rest [
      | none ↦ none
      | some p ↦ elim p.0 [
        | null ↦ some (null, node x l r)
        | node c cl cr ↦ renew p.1 (λ t. node x t r) (node c cl cr)
      ]
    ]

-- `minimal_right_lb` for the left child.
abbrev pub limit_left : ℕ → TreeNode → ℕ
limit_left m null = m
limit_left m (node b bl br) = min m (lo b)

unfoldable pub disj_left : ℕ → TreeNode → Parts
disj_left m null = none
disj_left m (node x l r) = take_left m x l r (disj_left (limit_left m r) l)

unfoldable pub take_right : ℕ → Info → TreeNode → TreeNode → Parts → Parts
take_right m x l null rest = some (null, node x l null)
take_right m x null (node b bl br) rest = none
take_right m x (node a al ar) (node b bl br) rest =
    let l = node a al ar in
    let r = node b bl br in
    if disjoint l r && ltb m (lo b) then detach x (node x l null) l r else elim rest [
      | none ↦ none
      | some p ↦ elim p.0 [
        | null ↦ some (null, node x l r)
        | node c cl cr ↦ renew p.1 (λ t. node x l t) (node c cl cr)
      ]
    ]

-- `maximal_left_ub` for the right child.
abbrev pub limit_right : ℕ → TreeNode → ℕ
limit_right m null = m
limit_right m (node a al ar) = max m (hi a)

unfoldable pub disj_right : ℕ → TreeNode → Parts
disj_right m null = none
disj_right m (node x l r) = take_right m x l r (disj_right (limit_right m l) r)
