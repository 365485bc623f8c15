-- ===== src/Queue/Cover.antt =====
-- `contains` of include/intervaltree.hpp.
use li_mo.Base.{
  ℕ, ◌≤◌, ◌<◌, ◌≡◌, refl, sym, ◌∙◌, Bool, true, false, not, ◌&&◌, List, [], ◌∷◌, ◌++◌, arith,
  if◌then◌else◌, ltb, leb, max, All, Any, here, there, Any-mono, some, inl, inr, ◌⊎◌,
}
use li_mo.Interval.Atomic.{AtomicInterval, less}
use li_mo.Queue.Tree.{
  Color, red, black, ItvNode, Tree, leaf, node, insert, k_of, compute_k, is_leaf, contains,
}
use li_mo.Queue.Insert.{inorder, IsSearchTree}
use li_mo.Queue.Search.{split-Pairs}

-- The interval of the node spans the other one.
abbrev pub Spans : AtomicInterval → ItvNode → Type 0
Spans i d = (d.itv.lbound ≤ i.lbound) × (i.ubound ≤ d.itv.ubound)

module _ {A : Type 0} (P : A → Type 0) where
  Any-left : (xs ys : List A) → Any P xs → Any P (xs ++ ys)
  Any-left [] ys h = elim h [ ]
  Any-left (x ∷ xs) ys (here p) = here p
  Any-left (x ∷ xs) ys (there h) = there (Any-left xs ys h)

  Any-right : (xs ys : List A) → Any P ys → Any P (xs ++ ys)
  Any-right [] ys h = h
  Any-right (x ∷ xs) ys h = there (Any-right xs ys h)

  Any-with :
      (Q R : A → Type 0) (xs : List A)
      → ((x : A) → P x → Q x → R x)
      → Any P xs
      → All Q xs
      → Any R xs
  Any-with Q R [] f h k = elim h [ ]
  Any-with Q R (x ∷ xs) f (here p) k = here (f x p k.0)
  Any-with Q R (x ∷ xs) f (there h) k = there (Any-with Q R xs f h k.1)

-- The bound in a node is the upper end of a node below it.
k_attained :
    (t : Tree) → is_leaf t ≡ false → Any (λ d. k_of (compute_k t) ≤ d.itv.ubound) (inorder t)
unfolding compute_k inorder
k_attained leaf h = absurd (ground arith)
k_attained (node c d l r) h =
    elim (largest (k_of (compute_k l)) (k_of (compute_k r)) d.itv.ubound) [
      | inl a ↦ Any-right At (inorder l) (d ∷ inorder r) (here a)
      | inr (inl (a, b)) ↦
          Any-left At (inorder l) (d ∷ inorder r)
            (Any-mono (λ e q. omega (arith, q, a)) (k_attained l (grown l b)))
      | inr (inr (a, b)) ↦
          Any-right At (inorder l) (d ∷ inorder r)
            (there (Any-mono (λ e q. omega (arith, q, a)) (k_attained r (grown r b))))
    ]
  where
    At : ItvNode → Type 0
    At e = max (k_of (compute_k l)) (max (k_of (compute_k r)) d.itv.ubound) ≤ e.itv.ubound

    largest :
        (x y z : ℕ)
        → (max x (max y z) ≤ z)
          ⊎ ((max x (max y z) ≤ x) × (0 < x))
          ⊎ ((max x (max y z) ≤ y) × (0 < y))
    largest x y z = ground arith

    grown : (u : Tree) → 0 < k_of (compute_k u) → is_leaf u ≡ false
    grown leaf q = elim q [ ]
    grown (node c' d' l' r') q = refl

is_leaf-compute_k : (t : Tree) → is_leaf (compute_k t) ≡ is_leaf t
unfolding compute_k
is_leaf-compute_k leaf = refl
is_leaf-compute_k (node c d l r) = refl

-- If `contains` answers yes on a tree in the search order whose bounds were computed, then one of its
-- intervals spans the interval asked for.
pub contains-Spans :
    (t : Tree) (i : AtomicInterval)
    → IsSearchTree t
    → contains (compute_k t) i ≡ true
    → Any (Spans i) (inorder t)
unfolding contains compute_k inorder
contains-Spans leaf i o e = absurd (ground arith)
contains-Spans (node c d l r) i o e =
    let s = split-Pairs (λ a b. a.itv.lbound ≤ b.itv.lbound) (inorder l) d (inorder r) o in
    elim (tests (leb d.itv.lbound i.lbound && leb i.ubound d.itv.ubound) (is_leaf (compute_k l))
      (leb d.itv.lbound i.lbound) (leb i.ubound (k_of (compute_k l)))
      (ltb (k_of (compute_k l)) i.ubound) (leb i.lbound d.itv.lbound) (contains (compute_k r) i)
      (contains (compute_k l) i) e) [
        | inl a ↦ Any-right (Spans i) (inorder l) (d ∷ inorder r) (here (at_node a))
        | inr (inl (a, b, q)) ↦ Any-left (Spans i) (inorder l) (d ∷ inorder r) (
            Any-with (λ x. k_of (compute_k l) ≤ x.itv.ubound) (λ x. x.itv.lbound ≤ d.itv.lbound)
              (Spans i) (inorder l) (λ x u v. in_left b q x u v)
              (k_attained l (sym (is_leaf-compute_k l) ∙ a)) s.below)
        | inr (inr (inl a)) ↦
            Any-right (Spans i) (inorder l) (d ∷ inorder r) (there (contains-Spans r i s.right a))
        | inr (inr (inr a)) ↦
            Any-left (Spans i) (inorder l) (d ∷ inorder r) (contains-Spans l i s.left a)
      ]
  where
    tests :
        (spans is_null lower within beyond behind x y : Bool)
        → (if spans
            then true
            else if not is_null && (lower && within)
            then true
            else if not is_null && (lower && beyond)
            then x
            else if behind
            then y
            else false)
          ≡ true
        → (spans ≡ true)
          ⊎ ((is_null ≡ false) × (lower ≡ true) × (within ≡ true))
          ⊎ (x ≡ true)
          ⊎ (y ≡ true)
    tests spans is_null lower within beyond behind x y h = ground arith

    at_node : (leb d.itv.lbound i.lbound && leb i.ubound d.itv.ubound) ≡ true → Spans i d
    at_node a = ground arith

    in_left :
        leb d.itv.lbound i.lbound ≡ true
        → leb i.ubound (k_of (compute_k l)) ≡ true
        → (x : ItvNode) → k_of (compute_k l) ≤ x.itv.ubound
        → x.itv.lbound ≤ d.itv.lbound
        → Spans i x
    in_left a b x u v = ground arith

-- Where the root has no left child, begins before the interval and ends within it, the search does not
-- look at the right subtree.
contains_no_left :
    (c : Color) (d : ItvNode) (r : Tree) (i : AtomicInterval)
    → d.itv.lbound < i.lbound
    → d.itv.ubound < i.ubound
    → contains (compute_k (node c d leaf r)) i ≡ false
unfolding contains compute_k
contains_no_left c d r i h k = ground arith

-- Let two intervals be entered into the empty tree, of which the second one is not less than the first
-- one. If an interval begins after the first one began and ends after it ended, and the second one
-- spans it, then `contains` answers no although an interval of the tree spans the one asked for.
pub contains-insert_misses :
    (d e : ItvNode) (i : AtomicInterval)
    → less e.itv d.itv ≡ false
    → d.itv.lbound < i.lbound
    → d.itv.ubound < i.ubound
    → Spans i e
    → (s : Tree) × (t : Tree) × (insert d leaf ≡ some s)
      × (insert e s ≡ some t)
      × (contains (compute_k t) i ≡ false)
      × Any (Spans i) (inorder t)
unfolding insert inorder
contains-insert_misses d e i l h k s = (
  node black d leaf leaf,
  node black d leaf (node red e leaf leaf),
  refl,
  on_the_right,
  contains_no_left black d (node red e leaf leaf) i h k,
  there (here s),
)
  where
    on_the_right :
        insert e (node black d leaf leaf) ≡ some (node black d leaf (node red e leaf leaf))
    on_the_right = rw (l, insert) refl
