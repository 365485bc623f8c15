-- ===== src/IntervalTree/Stored.antt =====
-- What the return of a removal does to the tree of the tree monitor.
use li_mo.Base.{
  ◌≤◌, ◌≡◌, refl, false, true, ap, none, some, ◌∷◌, Option, Result, ok, fail, crash, assign,
}
use mathlib.Core.List.{Perm}
use mathlib.Core.List.Perm
use li_mo.Event.{Event, val_key}
use li_mo.IntervalTree.{Itv, TreeNode, null, node, info, mk_real, tree_add, then_on, update}
use li_mo.IntervalTree.Spanned.{IsSpanned, reals}
use li_mo.IntervalTree.Adding.{add-IsTree}
use li_mo.IntervalTree.Monitor.{TreeState, active_val, read_active, ended, handle_ret_pop}

-- A tree of one more interval.
abbrev pub IsStored : Option TreeNode → Itv → TreeNode → Type 0
IsStored o i t = (t' : TreeNode) × (o ≡ some t') × IsSpanned t' × Perm (reals t') (i ∷ reals t)

abbrev real : Itv → TreeNode
real i = node (info i (some i) false true 1) null null

real-IsSpanned : (i : Itv) → i.inner.lbound ≤ i.inner.ubound → IsSpanned (real i)
unfolding IsSpanned
real-IsSpanned i le = ((refl, le, refl), tt, tt)

pub mk_real-tree_add :
    (i : Itv) (t : TreeNode)
    → i.inner.lbound ≤ i.inner.ubound
    → IsSpanned t
    → IsStored (then_on (mk_real i) (tree_add t)) i t
unfolding mk_real update tree_add reals
mk_real-tree_add i null le h = (real i, refl, real-IsSpanned i le, Perm.refl _)
mk_real-tree_add i (node x l r) le h =
    let t = add-IsTree x l r (info i (some i) false true 1) null null h (real-IsSpanned i le) in
    (node t.0 t.1 t.2, t.3, t.4, t.7)

-- The return of a removal puts the interval of its value, complete now, to those of the tree, and
-- keeps the order of the tree, if the tree is in its order and the insertion returned before the
-- removal was called.
pub handle_ret_pop-Stored :
    (q : TreeState) (e : Event)
    → IsSpanned q.tree
    → (ended e q).inner.lbound ≤ (ended e q).inner.ubound
    → (t : TreeNode) × (handle_ret_pop q e
        ≡ ok (record (read_active e q) {
          values = assign (active_val e q) (ended e q) q.values;
          tree = t;
        }))
      × IsSpanned t
      × Perm (reals t) (ended e q ∷ reals q.tree)
unfolding handle_ret_pop
handle_ret_pop-Stored q e h le =
    let s = mk_real-tree_add (ended e q) q.tree le h in (s.0, ap finish s.1, s.2, s.3)
  where
    finish : Option TreeNode → Result TreeState
    finish o = elim o [
      | none ↦ fail crash
      | some t ↦ ok (record (read_active e q) {
        values = assign (active_val e q) (ended e q) q.values;
        tree = t;
      })
    ]
