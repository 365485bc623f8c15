-- ===== src/Queue/Insert.antt =====
-- The nodes of the tree in their order: what insertion and its repair do to them.
use mathlib.Core.List.{append-nil, append_assoc}
use li_mo.Base.{
  some_inj, nothing, ◌≤◌, ◌≡◌, refl, sym, ap, ◌∙◌, true, false, ◌&&◌, none, some, List, [], ◌∷◌,
  ◌++◌, All, Pairs, Bool-cases, inl, inr,
}
use li_mo.Queue.Tree.{
  Color, black, ItvNode, Tree, leaf, node, Frame, left_of, right_of, hang, climb, color_of,
  frame_color, is_red, paint, paint_frame, rotate_left, rotate_right, swap_left, swap_right,
  inner_left, inner_right, restructure, uncle_of, recolor, fix_insert,
}

unfoldable pub inorder : Tree → List ItvNode
inorder leaf = []
inorder (node c d l r) = inorder l ++ d ∷ inorder r

-- The nodes before and behind the place at the end of a path.
unfoldable pub before_path : List Frame → List ItvNode
before_path [] = []
before_path (left_of c d r ∷ path) = before_path path
before_path (right_of c d l ∷ path) = before_path path ++ inorder l ++ d ∷ []

unfoldable pub behind_path : List Frame → List ItvNode
behind_path [] = []
behind_path (left_of c d r ∷ path) = d ∷ inorder r ++ behind_path path
behind_path (right_of c d l ∷ path) = behind_path path

-- All nodes, by the tree at the end of a path.
abbrev pub whole : Tree → List Frame → List ItvNode
whole t path = before_path path ++ inorder t ++ behind_path path

pub whole-hang :
    (t : Tree) (f : Frame) (path : List Frame) → whole (hang t f) path ≡ whole t (f ∷ path)
unfolding inorder before_path behind_path
whole-hang t (left_of c d r) path = simp append_assoc refl
whole-hang t (right_of c d l) path = simp append_assoc refl

inorder-climb : (t : Tree) (path : List Frame) → inorder (climb t path) ≡ whole t path
unfolding climb
inorder-climb t [] = unfold before_path behind_path in sym (append-nil (inorder t))
inorder-climb t (f ∷ path) = inorder-climb (hang t f) path ∙ whole-hang t f path

inorder-paint : (c : Color) (t : Tree) → inorder (paint c t) ≡ inorder t
unfolding inorder
inorder-paint c leaf = refl
inorder-paint c (node c' d l r) = refl

inorder-rotate_left : (t : Tree) → inorder (rotate_left t) ≡ inorder t
unfolding inorder rotate_left
inorder-rotate_left leaf = refl
inorder-rotate_left (node c d l leaf) = refl
inorder-rotate_left (node c d l (node c' d' l' r')) = simp append_assoc refl

inorder-rotate_right : (t : Tree) → inorder (rotate_right t) ≡ inorder t
unfolding inorder rotate_right
inorder-rotate_right leaf = refl
inorder-rotate_right (node c d leaf r) = refl
inorder-rotate_right (node c d (node c' d' l' r') r) = simp append_assoc refl

inorder-swap_left : (t : Tree) → inorder (swap_left t) ≡ inorder t
unfolding inorder
inorder-swap_left leaf = refl
inorder-swap_left (node c d leaf r) = refl
inorder-swap_left (node c d (node c' d' l' r') r) = refl

inorder-swap_right : (t : Tree) → inorder (swap_right t) ≡ inorder t
unfolding inorder
inorder-swap_right leaf = refl
inorder-swap_right (node c d l leaf) = refl
inorder-swap_right (node c d l (node c' d' l' r')) = refl

inorder-inner_left : (t : Tree) (p : Frame) → inorder (inner_left t p) ≡ inorder (hang t p)
inorder-inner_left t (left_of c d r) = refl
inorder-inner_left t (right_of c d l) = inorder-rotate_left (node c d l t)

inorder-inner_right : (t : Tree) (p : Frame) → inorder (inner_right t p) ≡ inorder (hang t p)
inorder-inner_right t (left_of c d r) = inorder-rotate_right (node c d t r)
inorder-inner_right t (right_of c d l) = refl

inorder-restructure :
    (t : Tree) (p g : Frame) → inorder (restructure t p g) ≡ inorder (hang (hang t p) g)
unfolding restructure
inorder-restructure t p (left_of c d u) =
    inorder-swap_right (rotate_right (node c d (inner_left t p) u))
    ∙ inorder-rotate_right (node c d (inner_left t p) u)
    ∙ (unfold inorder in ap (λ z. z ++ d ∷ inorder u) (inorder-inner_left t p))
inorder-restructure t p (right_of c d u) =
    inorder-swap_left (rotate_left (node c d u (inner_right t p)))
    ∙ inorder-rotate_left (node c d u (inner_right t p))
    ∙ (unfold inorder in ap (λ z. inorder u ++ d ∷ z) (inorder-inner_right t p))

inorder-paint_frame :
    (c : Color) (t : Tree) (p : Frame) → inorder (hang t (paint_frame c p)) ≡ inorder (hang t p)
unfolding inorder
inorder-paint_frame c t (left_of c' d r) = refl
inorder-paint_frame c t (right_of c' d l) = refl

inorder-recolor : (t : Tree) (p g : Frame) → inorder (recolor t p g) ≡ inorder (hang (hang t p) g)
unfolding inorder
inorder-recolor t p (left_of c d u) = rw (inorder-paint_frame black t p, inorder-paint black u) refl
inorder-recolor t p (right_of c d u) =
    rw (inorder-paint_frame black t p, inorder-paint black u) refl

whole-hang_twice :
    (t : Tree) (p g : Frame) (path : List Frame)
    → whole (hang (hang t p) g) path ≡ whole t (p ∷ g ∷ path)
whole-hang_twice t p g path = whole-hang (hang t p) g path ∙ whole-hang t p (g ∷ path)

-- The repair keeps the nodes in their order.
pub inorder-fix_insert :
    (t : Tree) (path : List Frame) (s : Tree)
    → fix_insert t path ≡ some s
    → inorder s ≡ whole t path
unfolding fix_insert
inorder-fix_insert t [] s e =
    ap inorder (some_inj (sym e)) ∙ inorder-paint black t ∙ inorder-climb t []
inorder-fix_insert t (p ∷ []) s e =
    elim (Bool-cases (is_red (color_of t) && is_red (frame_color p))) [
      | inl a ↦ absurd (nothing (sym (stops a) ∙ e))
      | inr a ↦
          ap inorder (some_inj (sym e ∙ ends a))
          ∙ inorder-paint black (hang t p)
          ∙ inorder-climb t (p ∷ [])
    ]
  where
    stops : (is_red (color_of t) && is_red (frame_color p)) ≡ true → fix_insert t (p ∷ []) ≡ none
    stops a = rw (a, fix_insert)

    ends :
        (is_red (color_of t) && is_red (frame_color p)) ≡ false
        → fix_insert t (p ∷ []) ≡ some (paint black (hang t p))
    ends a = rw (a, fix_insert)
inorder-fix_insert t (p ∷ g ∷ path) s e =
    elim (Bool-cases (is_red (color_of t) && is_red (frame_color p))) [
      | inr a ↦
          ap inorder (some_inj (sym e ∙ ends a))
          ∙ inorder-paint black (climb t (p ∷ g ∷ path))
          ∙ inorder-climb t (p ∷ g ∷ path)
      | inl a ↦ elim (Bool-cases (is_red (color_of (uncle_of g)))) [
        | inl b ↦
            inorder-fix_insert (recolor t p g) path s (sym (recolors a b) ∙ e)
            ∙ above (recolor t p g) (inorder-recolor t p g)
        | inr b ↦
            inorder-fix_insert (restructure t p g) path s (sym (rebuilds a b) ∙ e)
            ∙ above (restructure t p g) (inorder-restructure t p g)
      ]
    ]
  where
    above :
        (u : Tree) → inorder u ≡ inorder (hang (hang t p) g) → whole u path ≡ whole t (p ∷ g ∷ path)
    above u h = ap (λ z. before_path path ++ z ++ behind_path path) h ∙ whole-hang_twice t p g path

    ends :
        (is_red (color_of t) && is_red (frame_color p)) ≡ false
        → fix_insert t (p ∷ g ∷ path) ≡ some (paint black (climb t (p ∷ g ∷ path)))
    ends a = rw (a, fix_insert)

    recolors :
        (is_red (color_of t) && is_red (frame_color p)) ≡ true
        → is_red (color_of (uncle_of g)) ≡ true
        → fix_insert t (p ∷ g ∷ path) ≡ fix_insert (recolor t p g) path
    recolors a b = rw (a, b, fix_insert)

    rebuilds :
        (is_red (color_of t) && is_red (frame_color p)) ≡ true
        → is_red (color_of (uncle_of g)) ≡ false
        → fix_insert t (p ∷ g ∷ path) ≡ fix_insert (restructure t p g) path
    rebuilds a b = rw (a, b, fix_insert)

-- The order of the nodes by their left bounds.
abbrev pub IsSearchTree : Tree → Type 0
IsSearchTree t = Pairs (λ d e. d.itv.lbound ≤ e.itv.lbound) (inorder t)

abbrev pub Fits : ItvNode → List Frame → Type 0
Fits key path =
    All (λ d. d.itv.lbound ≤ key.itv.lbound) (before_path path)
    × All (λ d. key.itv.lbound ≤ d.itv.lbound) (behind_path path)
