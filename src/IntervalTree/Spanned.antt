-- ===== src/IntervalTree/Spanned.antt =====
-- The order of the tree: a real node is a leaf, a dummy has two children, of which the left one starts
-- no later than the right one, and spans exactly their intervals.
use li_mo.Base.{ℕ, ◌+◌, ◌≤◌, ◌≡◌, refl, Bool, true, false, some, List, [], ◌∷◌, ◌++◌, arith, max}
use li_mo.Interval.Atomic.{closed}
use li_mo.IntervalTree.{
  Itv, Info, TreeNode, null, node, lo, hi, turn, hull, find_outer, update, both, info,
}

abbrev IsFork : Info → Info → Info → Type 0
IsFork x a b =
    (x.dummy ≡ true)
    × (lo x ≡ lo a)
    × (hi x ≡ max (hi a) (hi b))
    × (lo a ≤ lo b)
    × (x.size ≡ 1 + (a.size + b.size))

abbrev IsLeaf : Info → Type 0
IsLeaf x = (x.dummy ≡ false) × (lo x ≤ hi x) × (x.size ≡ 1)

abbrev HasShape : Info → TreeNode → TreeNode → Type 0
HasShape x null null = IsLeaf x
HasShape x null (node b bl br) = ⊥
HasShape x (node a al ar) null = ⊥
HasShape x (node a al ar) (node b bl br) = IsFork x a b

unfoldable pub IsSpanned : TreeNode → Type 0
IsSpanned null = Unit {0}
IsSpanned (node x l r) = HasShape x l r × IsSpanned l × IsSpanned r

abbrev pub own : Bool → Itv → List Itv
own true i = []
own false i = i ∷ []

-- The intervals of the real nodes.
unfoldable pub reals : TreeNode → List Itv
reals null = []
reals (node x l r) = own x.dummy x.interval ++ reals l ++ reals r

pub bounds_lem : (x : Info) (l r : TreeNode) → IsSpanned (node x l r) → lo x ≤ hi x
unfolding IsSpanned
bounds_lem x null null h = h.0.1
bounds_lem x null (node b bl br) h = elim h.0 [ ]
bounds_lem x (node a al ar) null h = elim h.0 [ ]
bounds_lem x (node a al ar) (node b bl br) h =
    bound (lo x) (hi x) (lo a) (hi a) (hi b) h.0.1 h.0.2 (bounds_lem a al ar h.1)
  where
    bound : (m n p q s : ℕ) → m ≡ p → n ≡ max q s → p ≤ q → m ≤ n
    bound m n p q s e f le = ground arith

-- A side says nothing about what a node spans.
pub turn-IsSpanned :
    (s : Bool) (x : Info) (l r : TreeNode)
    → IsSpanned (node x l r)
    → IsSpanned (node (turn s x) l r)
unfolding IsSpanned
turn-IsSpanned s x null null h = h
turn-IsSpanned s x null (node b bl br) h = h
turn-IsSpanned s x (node a al ar) null h = h
turn-IsSpanned s x (node a al ar) (node b bl br) h = h

pub reals-turn :
    (s : Bool) (x : Info) (l r : TreeNode) → reals (node (turn s x) l r) ≡ reals (node x l r)
unfolding reals
reals-turn s x l r = refl

-- `o` is a tree over the left child `A` and the right child `B`.
abbrev pub Forks : Info → TreeNode → TreeNode → Info → TreeNode → TreeNode → Info → Type 0
Forks a al ar b bl br y =
    IsSpanned (node y (node a al ar) (node b bl br))
    × (lo y ≡ lo a)
    × (hi y ≡ max (hi a) (hi b))
    × (y.dummy ≡ true)

module _ (a : Info) (al ar : TreeNode) (b : Info) (bl br : TreeNode) where
  pub update_fork :
      (x : Info)
      → x.dummy ≡ true
      → lo a ≤ lo b
      → IsSpanned (node a al ar)
      → IsSpanned (node b bl br)
      → (y : Info) × (update (node x (node a al ar) (node b bl br))
          ≡ some (node y (node a al ar) (node b bl br)))
        × Forks a al ar b bl br y
  unfolding update hull IsSpanned
  update_fork x d le ha hb =
      (y, rw (d), (((refl, refl, refl, le, omega arith), ha, hb), refl, refl, refl))
    where
      i : Itv
      i = both (closed (lo a) (max (hi a) (hi b)))

      y : Info
      y =
          info i (find_outer x.left i (node a al ar) (node b bl br)) true x.left
            (1 + a.size + b.size)
