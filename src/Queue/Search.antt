-- ===== src/Queue/Search.antt =====
-- `insert` keeps the search order.
use mathlib.Core.List.{append-nil, append_assoc}
use li_mo.Base.{
  ◌≤◌, ◌≡◌, refl, sym, ap, ◌∙◌, true, false, some, List, [], ◌∷◌, ◌++◌, arith, All, All-mono,
  All-append, Pairs, Bool-cases, inl, inr, subst,
}
use li_mo.Interval.Atomic.{less}
use li_mo.Queue.Tree.{
  Color, red, ItvNode, Tree, leaf, node, Frame, left_of, right_of, descend, insert,
}
use li_mo.Queue.Insert.{
  inorder, before_path, behind_path, whole, whole-hang, IsSearchTree, Fits, inorder-fix_insert,
}

-- A list in order around one of its elements.
pub record InOrderAround {A : Type 0} (R : A → A → Type 0) (xs : List A) (y : A) (ys : List A)
    : Type 0 where
  pub left : Pairs R xs
  pub below : All (λ x. R x y) xs
  pub above : All (R y) ys
  pub right : Pairs R ys

pub split-Pairs :
    {A : Type 0} (R : A → A → Type 0) (xs : List A) (y : A) (ys : List A)
    → Pairs R (xs ++ y ∷ ys)
    → InOrderAround R xs y ys
split-Pairs R [] y ys h = record { left = tt; below = tt; above = h.0; right = h.1 }
split-Pairs {A} R (x ∷ xs) y ys h =
    let s = split-Pairs R xs y ys h.1 in
    let (a, b) = parts xs h.0 in
    record { left = (a, s.left); below = (b, s.below); above = s.above; right = s.right }
  where
    parts : (zs : List A) → All (R x) (zs ++ y ∷ ys) → All (R x) zs × R x y
    parts [] k = (tt, k.0)
    parts (z ∷ zs) k = let (a, b) = parts zs k.1 in ((k.0, a), b)

module _ (key : ItvNode) (c : Color) (d : ItvNode) (l r : Tree) (path : List Frame) where
  pub descend_left :
      less key.itv d.itv ≡ true
      → descend key (node c d l r) path ≡ descend key l (left_of c d r ∷ path)
  unfolding descend
  descend_left a = rw (a, descend)

  pub descend_right :
      less key.itv d.itv ≡ false
      → descend key (node c d l r) path ≡ descend key r (right_of c d l ∷ path)
  unfolding descend
  descend_right a = rw (a, descend)

-- The nodes around the place that the search finds.
abbrev around : List Frame → List ItvNode
around path = whole leaf path

whole-descend :
    (key : ItvNode) (t : Tree) (path : List Frame) → around (descend key t path) ≡ whole t path
whole-descend key leaf path = unfold descend in refl
whole-descend key (node c d l r) path = elim (Bool-cases (less key.itv d.itv)) [
  | inl a ↦
      ap around (descend_left key c d l r path a)
      ∙ whole-descend key l (left_of c d r ∷ path)
      ∙ sym (whole-hang l (left_of c d r) path)
  | inr a ↦
      ap around (descend_right key c d l r path a)
      ∙ whole-descend key r (right_of c d l ∷ path)
      ∙ sym (whole-hang r (right_of c d l) path)
]

descend-Fits :
    (key : ItvNode) (t : Tree) (path : List Frame)
    → IsSearchTree t
    → Fits key path
    → Fits key (descend key t path)
descend-Fits key leaf path o f = unfold descend in f
descend-Fits key (node c d l r) path o f =
    let s =
      split-Pairs (λ a b. a.itv.lbound ≤ b.itv.lbound) (inorder l) d (inorder r)
        (unfold inorder in o) in
    elim (Bool-cases (less key.itv d.itv)) [
      | inl a ↦
          subst (Fits key) (sym (descend_left key c d l r path a))
            (descend-Fits key l (left_of c d r ∷ path) s.left (to_left a s.above))
      | inr a ↦
          subst (Fits key) (sym (descend_right key c d l r path a))
            (descend-Fits key r (right_of c d l ∷ path) s.right (to_right a s.below))
    ]
  where
    at_most : less key.itv d.itv ≡ true → key.itv.lbound ≤ d.itv.lbound
    at_most a = unfold less in ground arith

    at_least : less key.itv d.itv ≡ false → d.itv.lbound ≤ key.itv.lbound
    at_least a = unfold less in ground arith

    to_left :
        less key.itv d.itv ≡ true
        → All (λ e. d.itv.lbound ≤ e.itv.lbound) (inorder r)
        → Fits key (left_of c d r ∷ path)
    to_left a h =
        unfold before_path behind_path in
        (
          f.0,
          (
            at_most a,
            All-append (λ e. key.itv.lbound ≤ e.itv.lbound) (inorder r) (behind_path path)
                (All-mono (inorder r) (λ e k. omega (arith, k, at_most a)) h) f.1,
          ),
        )

    to_right :
        less key.itv d.itv ≡ false
        → All (λ e. e.itv.lbound ≤ d.itv.lbound) (inorder l)
        → Fits key (right_of c d l ∷ path)
    to_right a h =
        unfold before_path behind_path in
        (
          All-append (λ e. e.itv.lbound ≤ key.itv.lbound) (before_path path ++ inorder l) (d ∷ [])
              (All-append (λ e. e.itv.lbound ≤ key.itv.lbound) (before_path path) (inorder l) f.0
                (All-mono (inorder l) (λ e k. omega (arith, k, at_least a)) h))
              (at_least a, tt),
          f.1,
        )

weave :
    {A : Type 0} (R : A → A → Type 0) (k : A) (xs ys : List A)
    → Pairs R (xs ++ ys)
    → All (λ x. R x k) xs
    → All (R k) ys
    → Pairs R (xs ++ k ∷ ys)
weave {A} R k [] ys h a b = (b, h)
weave {A} R k (x ∷ xs) ys h a b = (with_key xs h.0, weave R k xs ys h.1 a.1 b)
  where
    with_key : (zs : List A) → All (R x) (zs ++ ys) → All (R x) (zs ++ k ∷ ys)
    with_key [] m = (a.0, m)
    with_key (z ∷ zs) m = (m.0, with_key zs m.1)

-- What `insert` makes of the nodes: the key stands among the others, in the search order.
pub record IsInserted (key : ItvNode) (t s : Tree) : Type 0 where
  pub before : List ItvNode
  pub behind : List ItvNode
  pub nodes : inorder t ≡ before ++ behind
  pub inserted : inorder s ≡ before ++ key ∷ behind
  pub searched : IsSearchTree s

-- If a tree in the search order takes a key, then the new tree has the same nodes in the same order
-- with the key among them, and is in the search order.
pub insert-IsInserted :
    (key : ItvNode) (t s : Tree) → IsSearchTree t → insert key t ≡ some s → IsInserted key t s
insert-IsInserted key t s o e = record {
  before = before_path path;
  behind = behind_path path;
  nodes = nodes;
  inserted = inserted;
  searched = subst (Pairs λ a b. a.itv.lbound ≤ b.itv.lbound) (sym inserted) order;
}
  where
    path : List Frame
    path = descend key t []

    root_left : before_path path ++ behind_path path ≡ around path
    root_left = unfold inorder in simp append-nil refl

    root_whole : whole t [] ≡ inorder t
    root_whole = unfold before_path behind_path in append-nil (inorder t)

    hung : whole (node red key leaf leaf) path ≡ before_path path ++ key ∷ behind_path path
    hung = unfold inorder in simp append_assoc refl

    fits : Fits key path
    fits = descend-Fits key t [] o (unfold before_path behind_path in (tt, tt))

    nodes : inorder t ≡ before_path path ++ behind_path path
    nodes = sym (root_left ∙ whole-descend key t [] ∙ root_whole)

    inserted : inorder s ≡ before_path path ++ key ∷ behind_path path
    inserted = inorder-fix_insert (node red key leaf leaf) path s (unfold insert in e) ∙ hung

    order : Pairs (λ a b. a.itv.lbound ≤ b.itv.lbound) (before_path path ++ key ∷ behind_path path)
    order =
        weave (λ a b. a.itv.lbound ≤ b.itv.lbound) key (before_path path) (behind_path path)
          (subst (Pairs λ a b. a.itv.lbound ≤ b.itv.lbound) nodes o) fits.0 fits.1
