-- ===== src/IntervalTree/Full.antt =====
-- Trees in which every dummy has two children, and what `update` and a new side do to them.
use li_mo.Base.{◌+◌, [], max, ◌≡◌, refl, sym, ap, ◌∙◌, Bool, true, false, some, ◌++◌}
use li_mo.IntervalTree.{
  Itv, TreeNode, null, node, Info, lo, hi, turn, update, hull, find_outer, info, both,
}
use li_mo.Interval.Atomic.{closed}
use li_mo.IntervalTree.Branches.{reals_dummy}
use li_mo.IntervalTree.Spanned.{reals, own, IsSpanned}

abbrev pub HasBoth : Info → TreeNode → TreeNode → Type 0
HasBoth x null null = x.dummy ≡ false
HasBoth x null (node b bl br) = ⊥
HasBoth x (node a al ar) null = ⊥
HasBoth x (node a al ar) (node b bl br) = x.dummy ≡ true

-- A dummy has two children, and a real node none.
unfoldable pub IsFull : TreeNode → Type 0
IsFull null = Unit {0}
IsFull (node x l r) = HasBoth x l r × IsFull l × IsFull r

pub IsSpanned-IsFull : (t : TreeNode) → IsSpanned t → IsFull t
unfolding IsSpanned IsFull
IsSpanned-IsFull null h = tt
IsSpanned-IsFull (node x null null) h = (h.0.0, tt, tt)
IsSpanned-IsFull (node x null (node b bl br)) h = elim h.0 [ ]
IsSpanned-IsFull (node x (node a al ar) null) h = elim h.0 [ ]
IsSpanned-IsFull (node x (node a al ar) (node b bl br)) h =
    (h.0.0, IsSpanned-IsFull (node a al ar) h.1, IsSpanned-IsFull (node b bl br) h.2)

-- `update` of a node gives a node over the same children.
abbrev pub Renewed : Info → TreeNode → TreeNode → Type 0
Renewed x l r =
    (y : Info) × (update (node x l r) ≡ some (node y l r))
    × IsFull (node y l r)
    × (reals (node y l r) ≡ reals (node x l r))

pub renewed : (x : Info) (l r : TreeNode) → IsFull (node x l r) → Renewed x l r
unfolding update hull IsFull reals
renewed x null null h = (
  info x.interval (some x.interval) false x.left 1,
  rw (h.0),
  (refl, tt, tt),
  sym (ap (λ d. own d x.interval ++ [] ++ []) h.0),
)
renewed x null (node b bl br) h = elim h.0 [ ]
renewed x (node a al ar) null h = elim h.0 [ ]
renewed x (node a al ar) (node b bl br) h = (
  y,
  rw (h.0),
  (refl, h.1, h.2),
  reals_dummy y (node a al ar) (node b bl br) refl
      ∙ sym (reals_dummy x (node a al ar) (node b bl br) h.0),
)
  where
    i : Itv
    i = both (closed (lo a) (max (hi a) (hi b)))

    y : Info
    y = info i (find_outer x.left i (node a al ar) (node b bl br)) true x.left (1 + a.size + b.size)

pub turn-IsFull :
    (s : Bool) (y : Info) (l r : TreeNode) → IsFull (node y l r) → IsFull (node (turn s y) l r)
unfolding IsFull
turn-IsFull s y null null f = f
turn-IsFull s y null (node d dl dr) f = f
turn-IsFull s y (node c cl cr) null f = f
turn-IsFull s y (node c cl cr) (node d dl dr) f = f
