-- ===== src/IntervalTree.antt =====
-- `TreeNode` of include/interval_tree.hpp and monitor/src/interval_tree.cpp: the tree of intervals of
-- the tree monitor, and insertion into it. A result `none` is the dereference of a null pointer.
-- The number `id`, which only names a node in a drawing, is left out.
use li_mo.Base.{
  ℕ, ◌+◌, Bool, true, false, ◌&&◌, not, Option, none, some, ltb, if◌then◌else◌, max, min,
}
use li_mo.Interval.Atomic.{AtomicInterval, nil, closed, contains, covers, overlaps}
pub mod Spanned
pub mod Branches
pub mod Adding
pub mod Monitor
pub mod Stored
pub mod Parting
pub mod Full
pub mod LeftPart
pub mod RightPart

pub record Itv : Type 0 where
  pub inner : AtomicInterval
  pub outer : AtomicInterval

-- `Itv(itv)`
abbrev pub both : AtomicInterval → Itv
both itv = record { inner = itv; outer = itv }

-- What a node holds beside its children.
pub record Info : Type 0 where
  pub interval : Itv
  pub outer : Option Itv
  pub dummy : Bool
  pub left : Bool
  pub size : ℕ

abbrev pub info : Itv → Option Itv → Bool → Bool → ℕ → Info
info i o d s n = record { interval = i; outer = o; dummy = d; left = s; size = n }

-- A pointer to a node, `null` where it is null.
pub data TreeNode : Type 0 where
  null : TreeNode
  node : Info → TreeNode → TreeNode → TreeNode

abbrev pub lo : Info → ℕ
lo x = x.interval.inner.lbound

abbrev pub hi : Info → ℕ
hi x = x.interval.inner.ubound

abbrev pub turn : Bool → Info → Info
turn left x = info x.interval x.outer x.dummy left x.size

-- `i->left = left`
abbrev pub turned : Bool → TreeNode → TreeNode
turned left null = null
turned left (node x l r) = node (turn left x) l r

abbrev pub outer_of : TreeNode → Option Itv
outer_of null = none
outer_of (node x l r) = x.outer

unfoldable pub outer_ctn : TreeNode → Itv → Bool
outer_ctn t interval = elim (outer_of t) [ none ↦ false | some o ↦ covers o.outer interval.inner ]

-- Of two outer intervals the one that ends later, where the node is a left child, and else the one that
-- starts earlier.
unfoldable pub widest : Bool → Option Itv → Option Itv → Option Itv
widest left none r = r
widest left (some a) none = some a
widest left (some a) (some b) =
    if left
    then (if ltb a.outer.ubound b.outer.ubound then some b else some a)
    else (if ltb a.outer.lbound b.outer.lbound then some a else some b)

unfoldable pub find_outer : Bool → Itv → TreeNode → TreeNode → Option Itv
find_outer left interval l r =
    if outer_ctn l interval
    then (if outer_ctn r interval then widest left (outer_of l) (outer_of r) else outer_of l)
    else if outer_ctn r interval
    then outer_of r
    else none

-- The interval of a dummy with these children.
unfoldable pub hull : TreeNode → TreeNode → Option Itv
hull null null = none
hull null (node b bl br) = some b.interval
hull (node a al ar) null = some a.interval
hull (node a al ar) (node b bl br) = some (both (closed (lo a) (max (hi a) (hi b))))

abbrev pub size_of : TreeNode → ℕ
size_of null = 0
size_of (node x l r) = x.size

unfoldable pub update : TreeNode → Option TreeNode
update null = none
update (node x l r) =
    let size = 1 + size_of l + size_of r in
    if x.dummy
    then elim (hull l r) [
      | none ↦ none
      | some i ↦ some (node (info i (find_outer x.left i l r) true x.left size) l r)
    ]
    else some (node (info x.interval (some x.interval) false x.left size) l r)

unfoldable pub mk_dummy : TreeNode → TreeNode → Bool → Option TreeNode
mk_dummy l r left = update (node (info (both nil) none true left 0) l r)

unfoldable pub mk_real : Itv → Option TreeNode
mk_real i = update (node (info i none false true 0) null null)

abbrev pub then_on : Option TreeNode → (TreeNode → Option TreeNode) → Option TreeNode
then_on none next = none
then_on (some t) next = next t

-- `do_add` on the dummy `x` over `l` and `r`, with what adding to its children gives: `into_l` with `i`
-- turned to the left, `into_r` with `i` turned to the right.
unfoldable pub do_add :
    Info → TreeNode → TreeNode → TreeNode → Option TreeNode → Option TreeNode → Option TreeNode
do_add x null r i into_l into_r = some (node x i r)
do_add x (node a al ar) r null into_l into_r = none
do_add x (node a al ar) null (node c cl cr) into_l into_r =
    if ltb (lo c) (lo a)
    then some (node x (node a al ar) (node c cl cr))
    else some (node x (node (turn true c) cl cr) (node (turn false a) al ar))
do_add x (node a al ar) (node b bl br) (node c cl cr) into_l into_r =
    let l = node a al ar in
    let r = node b bl br in
    let add_r = then_on into_r (λ r'. update (node x l r')) in
    if ltb (hi c) (lo x)
    then mk_dummy (node (turn true c) cl cr) (node (turn false x) l r) true
    else if ltb (hi x) (lo c)
    then mk_dummy (node (turn true x) l r) (node (turn false c) cl cr) true
    else if ltb (lo b) (lo c)
    then add_r
    else if ltb (lo c) (hi a)
    then then_on into_l (λ l'. update (node x l' r))
    else add_r

unfoldable pub add : TreeNode → TreeNode → Option TreeNode
add null i = none
add (node x l r) i =
    let into_l = add l (turned true i) in
    let into_r = add r (turned false i) in
    if x.dummy then then_on (do_add x l r i into_l into_r) update else elim i [
      | null ↦ none
      | node c cl cr ↦
          if ltb (lo x) (lo c)
          then mk_dummy (node (turn true x) l r) (node (turn false c) cl cr) x.left
          else mk_dummy (node (turn true c) cl cr) (node (turn false x) l r) x.left
    ]

unfoldable pub tree_add : TreeNode → TreeNode → Option TreeNode
tree_add null i = some i
tree_add (node x l r) i = add (node x l r) i
