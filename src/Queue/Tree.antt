-- ===== src/Queue/Tree.antt =====
-- `RedBlackTree` of include/intervaltree.hpp: insertion with its repair. A node of the source knows
-- its parent; here the parents of a node are the path from it to the root.
use li_mo.Base.{
  ℕ, Bool, true, false, not, ◌&&◌, Option, none, some, List, [], ◌∷◌, ltb, leb, if◌then◌else◌, max,
}
use li_mo.Interval.Atomic.{AtomicInterval, less}

pub data Color : Type 0 where
  red black : Color

-- `ItvNode` in a node, with its `k`.
pub record ItvNode : Type 0 where
  pub itv : AtomicInterval
  pub k : ℕ

pub data Tree : Type 0 where
  leaf : Tree
  node : Color → ItvNode → Tree → Tree → Tree

-- The parent that a node hangs under, on its left or on its right, with the other child.
pub data Frame : Type 0 where
  left_of right_of : Color → ItvNode → Tree → Frame

abbrev pub hang : Tree → Frame → Tree
hang t (left_of c d r) = node c d t r
hang t (right_of c d l) = node c d l t

-- From a node up to the root.
unfoldable pub climb : Tree → List Frame → Tree
climb t [] = t
climb t (f ∷ path) = climb (hang t f) path

abbrev pub color_of : Tree → Color
color_of leaf = black
color_of (node c d l r) = c

abbrev pub frame_color : Frame → Color
frame_color (left_of c d r) = c
frame_color (right_of c d l) = c

abbrev pub is_red : Color → Bool
is_red red = true
is_red black = false

abbrev pub paint : Color → Tree → Tree
paint c leaf = leaf
paint c (node c' d l r) = node c d l r

abbrev pub paint_frame : Color → Frame → Frame
paint_frame c (left_of c' d r) = left_of c d r
paint_frame c (right_of c' d l) = right_of c d l

-- `rotateLeft` and `rotateRight` on the node at the top of the tree, whose child is not null where the
-- source calls them.
unfoldable pub rotate_left : Tree → Tree
rotate_left (node c d l (node c' d' l' r')) = node c' d' (node c d l l') r'
rotate_left t = t

unfoldable pub rotate_right : Tree → Tree
rotate_right (node c d (node c' d' l' r') r) = node c' d' l' (node c d r' r)
rotate_right t = t

-- `swap(parent->color, grandparent->color)` behind the rotation that put the parent on top.
abbrev pub swap_left : Tree → Tree
swap_left (node c d (node c' d' l r) t) = node c' d (node c d' l r) t
swap_left t = t

abbrev pub swap_right : Tree → Tree
swap_right (node c d t (node c' d' l r)) = node c' d t (node c d' l r)
swap_right t = t

-- The inner rotation, for a node on the inner side of its parent.
abbrev pub inner_left : Tree → Frame → Tree
inner_left t (left_of c d r) = node c d t r
inner_left t (right_of c d l) = rotate_left (node c d l t)

abbrev pub inner_right : Tree → Frame → Tree
inner_right t (left_of c d r) = rotate_right (node c d t r)
inner_right t (right_of c d l) = node c d l t

-- What stands in the place of the grandparent where the uncle is not red.
unfoldable pub restructure : Tree → Frame → Frame → Tree
unfolding rotate_left rotate_right
restructure t p (left_of c d uncle) = swap_right (rotate_right (node c d (inner_left t p) uncle))
restructure t p (right_of c d uncle) = swap_left (rotate_left (node c d uncle (inner_right t p)))

abbrev pub uncle_of : Frame → Tree
uncle_of (left_of c d t) = t
uncle_of (right_of c d t) = t

-- Both parents and the uncle in their new colours, where the uncle is red.
abbrev pub recolor : Tree → Frame → Frame → Tree
recolor t p (left_of c d uncle) = node red d (hang t (paint_frame black p)) (paint black uncle)
recolor t p (right_of c d uncle) = node red d (paint black uncle) (hang t (paint_frame black p))

-- The `while` of `fixInsert`: `t` is the node, the path its parents. `none` is the access to the
-- parent of a red root.
unfoldable pub fix_insert : Tree → List Frame → Option Tree
unfolding restructure climb
fix_insert t [] = some (paint black t)
fix_insert t (p ∷ []) =
    if is_red (color_of t) && is_red (frame_color p) then none else some (paint black (hang t p))
fix_insert t (p ∷ g ∷ path) =
    let recolored = fix_insert (recolor t p g) path in
    let rebuilt = fix_insert (restructure t p g) path in
    if is_red (color_of t) && is_red (frame_color p)
    then (if is_red (color_of (uncle_of g)) then recolored else rebuilt)
    else some (paint black (climb t (p ∷ g ∷ path)))

-- The search of `insert`, from the root down to the place of the key.
unfoldable pub descend : ItvNode → Tree → List Frame → List Frame
unfolding less
descend key leaf path = path
descend key (node c d l r) path =
    let to_left = descend key l (left_of c d r ∷ path) in
    let to_right = descend key r (right_of c d l ∷ path) in
    if less key.itv d.itv then to_left else to_right

unfoldable pub insert : ItvNode → Tree → Option Tree
unfolding descend fix_insert
insert key t = fix_insert (node red key leaf leaf) (descend key t [])

-- `compute_k` writes the largest upper bound of each subtree into its node.
abbrev pub k_of : Tree → ℕ
k_of leaf = 0
k_of (node c d l r) = d.k

unfoldable pub compute_k : Tree → Tree
compute_k leaf = leaf
compute_k (node c d l r) =
    let l' = compute_k l in
    let r' = compute_k r in
    node c (record d { k = max (k_of l') (max (k_of r') d.itv.ubound) }) l' r'

abbrev pub is_leaf : Tree → Bool
is_leaf leaf = true
is_leaf (node c d l r) = false

-- `contains`, with its tests in order.
unfoldable pub contains : Tree → AtomicInterval → Bool
contains leaf i = false
contains (node c d l r) i =
    let in_right = contains r i in
    let in_left = contains l i in
    if leb d.itv.lbound i.lbound && leb i.ubound d.itv.ubound
    then true
    else if not (is_leaf l) && (leb d.itv.lbound i.lbound && leb i.ubound (k_of l))
    then true
    else if not (is_leaf l) && (leb d.itv.lbound i.lbound && ltb (k_of l) i.ubound)
    then in_right
    else if leb i.lbound d.itv.lbound
    then in_left
    else false
