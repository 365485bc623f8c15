-- ===== src/IntervalTree/Branches.antt =====
-- What `update` gives for a dummy over two trees, and the intervals of the result.
use li_mo.Base.{ℕ, ◌≤◌, ◌≡◌, refl, sym, ◌∙◌, subst, true, some, List, ◌++◌, max, Option}
use mathlib.Core.List.{Perm, perm_append_comm, append_assoc}
use mathlib.Core.List.Perm
use li_mo.IntervalTree.{Itv, Info, TreeNode, node, lo, hi, then_on, update}
use li_mo.IntervalTree.Spanned.{IsSpanned, reals, update_fork}

-- `o` is a tree of the intervals `xs` that starts at `m` and ends at `n`.
abbrev pub IsTree : Option TreeNode → ℕ → ℕ → List Itv → Type 0
IsTree o m n xs =
    (y : Info) × (l : TreeNode) × (r : TreeNode) × (o ≡ some (node y l r))
    × IsSpanned (node y l r)
    × (lo y ≡ m)
    × (hi y ≡ n)
    × Perm (reals (node y l r)) xs

-- The same of a dummy with two children.
abbrev pub IsBranch : Option TreeNode → ℕ → ℕ → List Itv → Type 0
IsBranch o m n xs =
    (a : Info) × (al : TreeNode) × (ar : TreeNode) × (b : Info) × (bl : TreeNode) × (br : TreeNode)
    × (y : Info) × (o ≡ some (node y (node a al ar) (node b bl br)))
    × IsSpanned (node y (node a al ar) (node b bl br))
    × (lo y ≡ m)
    × (hi y ≡ n)
    × Perm (reals (node a al ar) ++ reals (node b bl br)) xs

-- A dummy over two trees, the earlier one on its left.
pub pair_up :
    (a : Info) (al ar : TreeNode) (b : Info) (bl br : TreeNode) (x : Info) (m n : ℕ) (xs : List Itv)
    → x.dummy ≡ true
    → lo a ≤ lo b
    → IsSpanned (node a al ar)
    → IsSpanned (node b bl br)
    → lo a ≡ m
    → max (hi a) (hi b) ≡ n
    → Perm (reals (node a al ar) ++ reals (node b bl br)) xs
    → IsBranch (update (node x (node a al ar) (node b bl br))) m n xs
pair_up a al ar b bl br x m n xs d le ha hb em en p =
    let u = update_fork a al ar b bl br x d le ha hb in
    (a, al, ar, b, bl, br, u.0, u.1, u.2.0, u.2.1 ∙ em, u.2.2 ∙ en, p)

pub forked :
    (a : Info) (al ar : TreeNode) (b : Info) (bl br : TreeNode) (y : Info)
    → IsSpanned (node y (node a al ar) (node b bl br))
    → (y.dummy ≡ true)
      × (lo y ≡ lo a)
      × (hi y ≡ max (hi a) (hi b))
      × (lo a ≤ lo b)
      × IsSpanned (node a al ar)
      × IsSpanned (node b bl br)
unfolding IsSpanned
forked a al ar b bl br y h = (h.0.0, h.0.1, h.0.2, h.0.3, h.1, h.2)

pub reals_dummy :
    (y : Info) (l r : TreeNode) → y.dummy ≡ true → reals (node y l r) ≡ reals l ++ reals r
unfolding reals
reals_dummy y l r e = rw (e) refl

pub IsBranch-IsTree :
    (o : Option TreeNode) (m n : ℕ) (xs : List Itv) → IsBranch o m n xs → IsTree o m n xs
IsBranch-IsTree o m n xs t =
    let a = node t.0 t.1 t.2 in
    let b = node t.3 t.4 t.5 in
    let f = forked t.0 t.1 t.2 t.3 t.4 t.5 t.6 t.8 in
    (t.6, a, b, t.7, t.8, t.9, t.10, subst (λ zs. Perm zs xs) (sym (reals_dummy t.6 a b f.0)) t.11)

-- The second `update` of `add` changes nothing that counts.
pub again :
    (o : Option TreeNode) (m n : ℕ) (xs : List Itv)
    → IsBranch o m n xs
    → IsTree (then_on o update) m n xs
again o m n xs t =
    let f = forked t.0 t.1 t.2 t.3 t.4 t.5 t.6 t.8 in
    subst (λ o'. IsTree (then_on o' update) m n xs) (sym t.7)
      (IsBranch-IsTree _ m n xs (
        pair_up t.0 t.1 t.2 t.3 t.4 t.5 t.6 m n xs f.0 f.3 f.4 f.5 (sym f.1 ∙ t.9) (sym f.2 ∙ t.10)
          t.11))

module _ {A : Type 0} (new l r : List A) where
  pub into_right : {r' : List A} → Perm r' (new ++ r) → Perm (l ++ r') (new ++ (l ++ r))
  into_right p = Perm.trans (Perm.append_left l p) (
      subst (λ zs. Perm zs (new ++ (l ++ r))) (append_assoc l new r)
        (subst (λ zs. Perm ((l ++ new) ++ r) zs) (append_assoc new l r)
          (Perm.append_right r (perm_append_comm l new))))

  pub into_left : {l' : List A} → Perm l' (new ++ l) → Perm (l' ++ r) (new ++ (l ++ r))
  into_left {l'} p = subst (λ zs. Perm (l' ++ r) zs) (append_assoc new l r) (Perm.append_right r p)
