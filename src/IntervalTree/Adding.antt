-- ===== src/IntervalTree/Adding.antt =====
-- Insertion keeps the order of the tree, and puts the new intervals to those of the tree.
use li_mo.Base.{
  ℕ, ◌≤◌, ◌<◌, ◌≡◌, refl, sym, ap, ◌∙◌, subst, Bool, true, false, none, List, ◌++◌, arith,
  if◌then◌else◌, max, min, ltb, Bool-cases, inl, inr, ltb→lt, ltb→ge, Option,
}
use mathlib.Core.List.{Perm, perm_append_comm}
use mathlib.Core.List.Perm
use li_mo.IntervalTree.{
  Itv, Info, TreeNode, null, node, lo, hi, turn, then_on, update, do_add, mk_dummy, add, info, both,
}
use li_mo.Interval.Atomic.{nil}
use li_mo.IntervalTree.Spanned.{IsSpanned, reals, bounds_lem, turn-IsSpanned}
use li_mo.IntervalTree.Branches.{
  IsTree, IsBranch, pair_up, forked, reals_dummy, IsBranch-IsTree, again, into_right, into_left,
}

earlier : (m n p : ℕ) → m ≤ n → n < p → (m ≤ p) × (m ≡ min p m)
earlier m n p le lt = (omega arith, ground arith)

max_comm : (m n : ℕ) → max m n ≡ max n m
max_comm m n = ground arith

later : (m n p : ℕ) → m ≤ n → n < p → (m ≤ p) × (m ≡ min m p)
later m n p le lt = (omega arith, ground arith)

min_kept : (a x c : ℕ) → x ≡ a → a ≤ c → a ≡ min x c
min_kept a x c e le = ground arith

le_min : (a b c m : ℕ) → m ≡ min b c → a ≤ b → a ≤ c → a ≤ m
le_min a b c m e le le' = ground arith

min_le : (a b c m : ℕ) → m ≡ min a c → a ≤ b → m ≤ b
min_le a b c m e le = ground arith

max_right : (a b c x y : ℕ) → x ≡ max a b → y ≡ max b c → max a y ≡ max x c
max_right a b c x y e f = ground arith

max_left : (a b c x y : ℕ) → x ≡ max a b → y ≡ max a c → max y b ≡ max x c
max_left a b c x y e f = ground arith

-- One dummy with its children, and a tree to add.
module _ (x a : Info) (al ar : TreeNode) (b : Info) (bl br : TreeNode) (c : Info) (cl cr : TreeNode)
    (h : IsSpanned (node x (node a al ar) (node b bl br))) (hc : IsSpanned (node c cl cr)) where
  abbrev all : List Itv
  all = reals (node c cl cr) ++ (reals (node a al ar) ++ reals (node b bl br))

  abbrev Added : Option TreeNode → Type 0
  Added o = IsBranch o (min (lo x) (lo c)) (max (hi x) (hi c)) all

  grown_right :
      (into : Option TreeNode)
      → IsTree into
          (min (lo b) (lo c))
          (max (hi b) (hi c))
          (reals (node c cl cr) ++ reals (node b bl br))
      → lo a ≤ lo c
      → Added (then_on into (λ r'. update (node x (node a al ar) r')))
  grown_right into t le =
      let f = forked a al ar b bl br x h in
      subst (λ o. Added (then_on o (λ r'. update (node x (node a al ar) r')))) (sym t.3)
        (pair_up a al ar t.0 t.1 t.2 x _ _ _ f.0 (le_min _ _ _ _ t.5 f.3 le) f.4 t.4
          (min_kept _ _ _ f.1 le) (max_right (hi a) (hi b) (hi c) (hi x) (hi t.0) f.2 t.6)
          (into_right (reals (node c cl cr)) (reals (node a al ar)) (reals (node b bl br)) t.7))

  grown_left :
      (into : Option TreeNode)
      → IsTree into
          (min (lo a) (lo c))
          (max (hi a) (hi c))
          (reals (node c cl cr) ++ reals (node a al ar))
      → Added (then_on into (λ l'. update (node x l' (node b bl br))))
  grown_left into t =
      let f = forked a al ar b bl br x h in
      subst (λ o. Added (then_on o (λ l'. update (node x l' (node b bl br))))) (sym t.3)
        (pair_up t.0 t.1 t.2 b bl br x _ _ _ f.0 (min_le _ _ _ _ t.5 f.3) t.4 f.5
          (t.5 ∙ ap (λ m. min m (lo c)) (sym f.1))
          (max_left (hi a) (hi b) (hi c) (hi x) (hi t.0) f.2 t.6)
          (into_left (reals (node c cl cr)) (reals (node a al ar)) (reals (node b bl br)) t.7))

  whole : Perm (reals (node c cl cr) ++ reals (node x (node a al ar) (node b bl br))) all
  whole =
      subst
        (λ zs.
          Perm (reals (node c cl cr) ++ reals (node x (node a al ar) (node b bl br)))
            (reals (node c cl cr) ++ zs))
        (reals_dummy x (node a al ar) (node b bl br) (forked a al ar b bl br x h).0) (Perm.refl _)

  put_before :
      hi c < lo x
      → Added (
          mk_dummy
            (node (turn true c) cl cr)
            (node (turn false x) (node a al ar) (node b bl br))
            true)
  unfolding mk_dummy reals
  put_before lt =
      let e = earlier (lo c) (hi c) (lo x) (bounds_lem c cl cr hc) lt in
      pair_up (turn true c) cl cr (turn false x) (node a al ar) (node b bl br)
        (info (both nil) none true true 0) _ _ _ refl e.0 (turn-IsSpanned true c cl cr hc)
        (turn-IsSpanned false x _ _ h) e.1 (max_comm (hi c) (hi x)) whole

  put_after :
      hi x < lo c
      → Added (
          mk_dummy
            (node (turn true x) (node a al ar) (node b bl br))
            (node (turn false c) cl cr)
            true)
  unfolding mk_dummy reals
  put_after lt =
      let e = later (lo x) (hi x) (lo c) (bounds_lem x _ _ h) lt in
      pair_up (turn true x) (node a al ar) (node b bl br) (turn false c) cl cr
        (info (both nil) none true true 0) _ _ _ refl e.0 (turn-IsSpanned true x _ _ h)
        (turn-IsSpanned false c cl cr hc) e.1 refl
        (Perm.trans
          (perm_append_comm (reals (node x (node a al ar) (node b bl br))) (reals (node c cl cr)))
          whole)

  do_add-IsBranch :
      (into_l into_r : Option TreeNode)
      → IsTree into_l
          (min (lo a) (lo c))
          (max (hi a) (hi c))
          (reals (node c cl cr) ++ reals (node a al ar))
      → IsTree into_r
          (min (lo b) (lo c))
          (max (hi b) (hi c))
          (reals (node c cl cr) ++ reals (node b bl br))
      → Added (do_add x (node a al ar) (node b bl br) (node c cl cr) into_l into_r)
  unfolding do_add
  do_add-IsBranch into_l into_r tl tr =
      let f = forked a al ar b bl br x h in
      elim (Bool-cases (ltb (hi c) (lo x))) [
        | inl e₁ ↦ rw (e₁) (put_before (ltb→lt _ _ e₁))
        | inr e₁ ↦ rw (e₁) (elim (Bool-cases (ltb (hi x) (lo c))) [
          | inl e₂ ↦ rw (e₂) (put_after (ltb→lt _ _ e₂))
          | inr e₂ ↦ rw (e₂) (elim (Bool-cases (ltb (lo b) (lo c))) [
            | inl e₃ ↦ rw (e₃) (grown_right into_r tr (step f.3 (ltb→lt _ _ e₃)))
            | inr e₃ ↦ rw (e₃) (elim (Bool-cases (ltb (lo c) (hi a))) [
              | inl e₄ ↦ rw (e₄) (grown_left into_l tl)
              | inr e₄ ↦
                  rw (e₄) (grown_right into_r tr (ends (bounds_lem a al ar f.4) (ltb→ge _ _ e₄)))
            ])
          ])
        ])
      ]
    where
      step : {m n p : ℕ} → m ≤ n → n < p → m ≤ p
      step le lt = omega arith

      ends : {m n p : ℕ} → m ≤ n → n ≤ p → m ≤ p
      ends le le' = omega arith

module _ (x : Info) (l r : TreeNode) (c : Info) (cl cr : TreeNode) where
  abbrev beside : Option TreeNode
  beside =
      if ltb (lo x) (lo c)
      then mk_dummy (node (turn true x) l r) (node (turn false c) cl cr) x.left
      else mk_dummy (node (turn true c) cl cr) (node (turn false x) l r) x.left

  abbrev into : TreeNode → Bool → Option TreeNode
  into t left = add t (node (turn left c) cl cr)

  abbrev inside : Option TreeNode
  inside = then_on (do_add x l r (node c cl cr) (into l true) (into r false)) update

  add_test : add (node x l r) (node c cl cr) ≡ (if x.dummy then inside else beside)
  unfolding add
  add_test = refl

  add_dummy : x.dummy ≡ true → add (node x l r) (node c cl cr) ≡ inside
  add_dummy e = add_test ∙ ap (λ d. if d then inside else beside) e

  add_real : x.dummy ≡ false → add (node x l r) (node c cl cr) ≡ beside
  add_real e = add_test ∙ ap (λ d. if d then inside else beside) e

-- Two trees under a new dummy, where the first one was a real node.
module _ (x : Info) (l r : TreeNode) (c : Info) (cl cr : TreeNode) (h : IsSpanned (node x l r))
    (hc : IsSpanned (node c cl cr)) where
  beside-IsBranch :
      IsBranch
        (beside x l r c cl cr)
        (min (lo x) (lo c))
        (max (hi x) (hi c))
        (reals (node c cl cr) ++ reals (node x l r))
  unfolding mk_dummy reals
  beside-IsBranch = elim (Bool-cases (ltb (lo x) (lo c))) [
    | inl e ↦ rw (e) (
        pair_up (turn true x) l r (turn false c) cl cr (info (both nil) none true x.left 0) _ _ _
          refl (low (ltb→lt _ _ e)) (turn-IsSpanned true x l r h) (turn-IsSpanned false c cl cr hc)
          (low_min (ltb→lt _ _ e)) refl
          (perm_append_comm (reals (node x l r)) (reals (node c cl cr))))
    | inr e ↦ rw (e) (
        pair_up (turn true c) cl cr (turn false x) l r (info (both nil) none true x.left 0) _ _ _
          refl (ltb→ge _ _ e) (turn-IsSpanned true c cl cr hc) (turn-IsSpanned false x l r h)
          (high_min (ltb→ge _ _ e)) (max_comm (hi c) (hi x)) (Perm.refl _))
  ]
    where
      low : {m n : ℕ} → m < n → m ≤ n
      low lt = omega arith

      low_min : {m n : ℕ} → m < n → m ≡ min m n
      low_min lt = ground arith

      high_min : {m n : ℕ} → n ≤ m → n ≡ min m n
      high_min le = ground arith

-- What adding does to a tree, where it is not null.
abbrev Grows : TreeNode → Type 0
Grows null = Unit
Grows (node x l r) =
    (c : Info)
    → (cl cr : TreeNode) → IsSpanned (node x l r)
    → IsSpanned (node c cl cr)
    → IsTree (add (node x l r) (node c cl cr)) (min (lo x) (lo c)) (max (hi x) (hi c))
        (reals (node c cl cr) ++ reals (node x l r))

node-Grows : (x : Info) (l r : TreeNode) → Grows l → Grows r → Grows (node x l r)
unfolding IsSpanned reals
node-Grows x null null gl gr c cl cr h hc =
    subst
      (λ o.
        IsTree o (min (lo x) (lo c)) (max (hi x) (hi c))
          (reals (node c cl cr) ++ reals (node x null null)))
      (sym (add_real x null null c cl cr h.0.0))
      (IsBranch-IsTree _ _ _ _ (beside-IsBranch x null null c cl cr h hc))
node-Grows x null (node b bl br) gl gr c cl cr h hc = elim h.0 [ ]
node-Grows x (node a al ar) null gl gr c cl cr h hc = elim h.0 [ ]
node-Grows x (node a al ar) (node b bl br) gl gr c cl cr h hc =
    subst
      (λ zs.
        IsTree (add (node x (node a al ar) (node b bl br)) (node c cl cr)) (min (lo x) (lo c))
          (max (hi x) (hi c)) (reals (node c cl cr) ++ zs))
      (sym (reals_dummy x (node a al ar) (node b bl br) h.0.0))
      (subst
        (λ o.
          IsTree o (min (lo x) (lo c)) (max (hi x) (hi c))
            (reals (node c cl cr) ++ (reals (node a al ar) ++ reals (node b bl br))))
        (sym (add_dummy x (node a al ar) (node b bl br) c cl cr h.0.0))
        (again _ _ _ _ (
          do_add-IsBranch x a al ar b bl br c cl cr h hc _ _
            (gl (turn true c) cl cr h.1 (turn-IsSpanned true c cl cr hc))
            (gr (turn false c) cl cr h.2 (turn-IsSpanned false c cl cr hc)))))

grows : (t : TreeNode) → Grows t
grows null = tt
grows (node x l r) = node-Grows x l r (grows l) (grows r)

-- Adding a tree to a tree in its order does not fail; it gives a tree in its order, with the intervals
-- of both, which starts where the earlier one starts and ends where the later one ends.
pub add-IsTree :
    (x : Info) (l r : TreeNode) (c : Info) (cl cr : TreeNode)
    → IsSpanned (node x l r)
    → IsSpanned (node c cl cr)
    → IsTree
        (add (node x l r) (node c cl cr))
        (min (lo x) (lo c))
        (max (hi x) (hi c))
        (reals (node c cl cr) ++ reals (node x l r))
add-IsTree x l r c cl cr h hc = grows (node x l r) c cl cr h hc
