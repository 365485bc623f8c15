-- ===== src/Queue/Root.antt =====
-- `insert` never meets a null parent where the root is black, and leaves a black root.
use li_mo.Base.{
  ◌≡◌, refl, sym, true, false, ◌&&◌, Option, some, List, [], ◌∷◌, if◌then◌else◌, Bool-cases, inl,
  inr, subst,
}
use li_mo.Interval.Atomic.{less}
use li_mo.Queue.Tree.{
  Color, red, black, ItvNode, Tree, leaf, node, Frame, left_of, right_of, hang, climb, color_of,
  frame_color, is_red, paint, restructure, recolor, uncle_of, fix_insert, descend, insert,
}
use li_mo.Queue.Search.{descend_left, descend_right}

-- The path ends at a black root.
unfoldable pub HasBlackRoot : List Frame → Type 0
HasBlackRoot [] = Unit
HasBlackRoot (f ∷ []) = frame_color f ≡ black
HasBlackRoot (f ∷ g ∷ path) = HasBlackRoot (g ∷ path)

tail-HasBlackRoot : (f : Frame) (path : List Frame) → HasBlackRoot (f ∷ path) → HasBlackRoot path
unfolding HasBlackRoot
tail-HasBlackRoot f [] h = tt
tail-HasBlackRoot f (g ∷ path) h = h

paint_black : (t : Tree) → color_of (paint black t) ≡ black
paint_black leaf = refl
paint_black (node c d l r) = refl

-- The repair ends, and its result has a black root.
abbrev EndsBlack : Option Tree → Type 0
EndsBlack o = (s : Tree) × (o ≡ some s) × (color_of s ≡ black)

fix_insert-EndsBlack :
    (t : Tree) (path : List Frame) → HasBlackRoot path → EndsBlack (fix_insert t path)
unfolding fix_insert
fix_insert-EndsBlack t [] h = (paint black t, refl, paint_black t)
fix_insert-EndsBlack t (p ∷ []) h =
    (paint black (hang t p), rw (calm (color_of t)) refl, paint_black (hang t p))
  where
    calm : (c : Color) → (is_red c && is_red (frame_color p)) ≡ false
    calm red = unfold HasBlackRoot in rw h refl
    calm black = refl
fix_insert-EndsBlack t (p ∷ g ∷ path) h =
    elim (is_red (color_of t) && is_red (frame_color p))
      as (λ b. EndsBlack (
        if b
        then (if is_red (color_of (uncle_of g))
            then fix_insert (recolor t p g) path
            else fix_insert (restructure t p g) path)
        else some (paint black (climb t (p ∷ g ∷ path))))) [
          | false ↦
              (paint black (climb t (p ∷ g ∷ path)), refl, paint_black (climb t (p ∷ g ∷ path)))
          | true ↦
              elim (is_red (color_of (uncle_of g)))
                as (λ b. EndsBlack (
                  if b
                  then fix_insert (recolor t p g) path
                  else fix_insert (restructure t p g) path)) [
                    | true ↦
                        fix_insert-EndsBlack (recolor t p g) path
                          (tail-HasBlackRoot g path (tail-HasBlackRoot p (g ∷ path) h))
                    | false ↦
                        fix_insert-EndsBlack (restructure t p g) path
                          (tail-HasBlackRoot g path (tail-HasBlackRoot p (g ∷ path) h))
                  ]
        ]

cons-HasBlackRoot :
    (f g : Frame) (path : List Frame) → HasBlackRoot (g ∷ path) → HasBlackRoot (f ∷ g ∷ path)
unfolding HasBlackRoot
cons-HasBlackRoot f g path h = h

descend-HasBlackRoot :
    (key : ItvNode) (t : Tree) (f : Frame) (path : List Frame)
    → HasBlackRoot (f ∷ path)
    → HasBlackRoot (descend key t (f ∷ path))
descend-HasBlackRoot key leaf f path h = unfold descend in h
descend-HasBlackRoot key (node c d l r) f path h = elim (Bool-cases (less key.itv d.itv)) [
  | inl a ↦ subst HasBlackRoot (sym (descend_left key c d l r (f ∷ path) a)) (
      descend-HasBlackRoot key l (left_of c d r) (f ∷ path)
        (cons-HasBlackRoot (left_of c d r) f path h))
  | inr a ↦ subst HasBlackRoot (sym (descend_right key c d l r (f ∷ path) a)) (
      descend-HasBlackRoot key r (right_of c d l) (f ∷ path)
        (cons-HasBlackRoot (right_of c d l) f path h))
]

search-HasBlackRoot :
    (key : ItvNode) (t : Tree) → color_of t ≡ black → HasBlackRoot (descend key t [])
search-HasBlackRoot key leaf h = unfold descend HasBlackRoot in tt
search-HasBlackRoot key (node c d l r) h = elim (Bool-cases (less key.itv d.itv)) [
  | inl a ↦
      subst HasBlackRoot (sym (descend_left key c d l r [] a))
        (descend-HasBlackRoot key l (left_of c d r) [] (unfold HasBlackRoot in h))
  | inr a ↦
      subst HasBlackRoot (sym (descend_right key c d l r [] a))
        (descend-HasBlackRoot key r (right_of c d l) [] (unfold HasBlackRoot in h))
]

-- Insertion into a tree with a black root, as every tree of the program has, never meets a null
-- parent, and leaves a black root.
pub insert_total :
    (key : ItvNode) (t : Tree)
    → color_of t ≡ black
    → (s : Tree) × (insert key t ≡ some s) × (color_of s ≡ black)
unfolding insert
insert_total key t h =
    fix_insert-EndsBlack (node red key leaf leaf) (descend key t []) (search-HasBlackRoot key t h)
