-- ===== src/IntervalTree/Monitor.antt =====
-- `TreeMonitor` of include/monitor/treemonitor.hpp and monitor/src/treemonitor.cpp: its state and its
-- handlers. The drawings that it writes are left out.
use li_mo.Base.{
  ℕ, none, some, List, [], assign, find, nat_key, or_default, Result, ok, fail, crash, std_error,
  value, ◌>>=◌,
}
use li_mo.Event.{Val, Event, EType, val_key}
use li_mo.Interval.Atomic.{AtomicInterval, nil}
use li_mo.Queue.Monitor.{default_val}
use li_mo.Monitor.{Handlers}
use li_mo.IntervalTree.{Itv, TreeNode, null, both, mk_real, tree_add, then_on}

pub record TreeState : Type 0 where
  pub active : List (ℕ × Val)
  pub values : List (Val × Itv)
  pub tree : TreeNode

abbrev pub active_val : Event → TreeState → Val
active_val e q = or_default (find e.thread q.active) default_val

-- What `active[ev.thread]` leaves, which adds a default value where there is none.
abbrev pub read_active : Event → TreeState → TreeState
read_active e q = record q { active = assign e.thread (active_val e q) q.active }

abbrev pub get_itv : Val → TreeState → Itv
get_itv v q = or_default (find v q.values) (both nil)

abbrev pub set_inner : Val → (AtomicInterval → AtomicInterval) → TreeState → TreeState
set_inner v f q =
    let i = get_itv v q in record q { values = assign v (record i { inner = f i.inner }) q.values }

abbrev pub set_outer : Val → (AtomicInterval → AtomicInterval) → TreeState → TreeState
set_outer v f q =
    let i = get_itv v q in record q { values = assign v (record i { outer = f i.outer }) q.values }

unfoldable pub handle_push : TreeState → Event → Result TreeState
unfolding find assign
handle_push q e = do
  v ← value e.val
  ok (
      set_outer v (λ i. record i { lbound = e.timestamp })
        (record q { active = assign e.thread v q.active }))

unfoldable pub handle_ret_push : TreeState → Event → Result TreeState
unfolding find assign
handle_ret_push q e =
    ok (set_inner (active_val e q) (λ i. record i { lbound = e.timestamp }) (read_active e q))

unfoldable pub handle_pop : TreeState → Event → Result TreeState
unfolding find assign
handle_pop q e = do
  v ← value e.val
  ok (
      set_inner v (λ i. record i { ubound = e.timestamp })
        (record q { active = assign e.thread v q.active }))

-- The interval of a value whose removal returns now.
abbrev pub ended : Event → TreeState → Itv
ended e q =
    let i = get_itv (active_val e q) q in
    record i { outer = record i.outer { ubound = e.timestamp } }

-- The interval of the value, complete now, goes into the tree. A null pointer on the way is a crash.
unfoldable pub handle_ret_pop : TreeState → Event → Result TreeState
unfolding find assign mk_real tree_add
handle_ret_pop q e =
    let v = active_val e q in
    elim (then_on (mk_real (ended e q)) (tree_add q.tree)) [
      | none ↦ fail crash
      | some t ↦ ok (record (read_active e q) { values = assign v (ended e q) q.values; tree = t })
    ]

unfoldable pub tree_call : EType → TreeState → Event → Result TreeState
unfolding handle_push handle_pop
tree_call t q e = elim t [
  | EType.push ↦ handle_push q e
  | EType.pop ↦ handle_pop q e
  | _ ↦ fail std_error
]

unfoldable pub tree_return : EType → TreeState → Event → Result TreeState
unfolding handle_ret_push handle_ret_pop
tree_return t q e = elim t [
  | EType.push ↦ handle_ret_push q e
  | EType.pop ↦ handle_ret_pop q e
  | _ ↦ fail std_error
]

abbrev pub tree_handlers : Handlers TreeState
tree_handlers = record {
  on_call = tree_call;
  on_return = tree_return;
  on_crash = λ q e. fail std_error;
}

abbrev pub empty_tree : TreeState
empty_tree = record { active = []; values = []; tree = null }
