-- ===== src/Queue/Monitor.antt =====
-- `QueueMonitor` of include/monitor/queuemonitor.hpp and monitor/src/queuemonitor.cpp: for each value the
-- interval in which it was surely in the queue (`inner`) and the one in which it may have been
-- (`outer`), and the tree of the inner intervals that are complete.
use li_mo.Base.{
  ℕ, ◌-◌, ◌^◌, none, some, List, [], if◌then◌else◌, ltb, any, assign, find, nat_key, or_default,
  Result, ok, fail, violation, std_error, value, ◌>>=◌,
}
use li_mo.Event.{Val, Event, EType, val_key}
use li_mo.Interval.Atomic.{AtomicInterval, closed, neg_inf, pos_inf}
use li_mo.Monitor.{Handlers}
use li_mo.Queue.Tree.{Tree, leaf, insert, compute_k, contains}

pub record QueueState : Type 0 where
  pub inner : List (Val × AtomicInterval)
  pub outer : List (Val × AtomicInterval)
  pub active : List (ℕ × Val)
  pub queue_tree : Tree

abbrev pub empty_queue : QueueState
empty_queue = record { inner = []; outer = []; active = []; queue_tree = leaf }

abbrev pub member : Val → List (Val × AtomicInterval) → List (Val × AtomicInterval)
member v m = elim (find v m) [ none ↦ assign v (closed neg_inf pos_inf) m | some i ↦ m ]

abbrev pub ensure_member : Val → QueueState → QueueState
ensure_member v q = record q { inner = member v q.inner; outer = member v q.outer }

-- `map::at`, which throws where the key is missing.
abbrev pub at_key : Val → List (Val × AtomicInterval) → Result AtomicInterval
at_key v m = value (find v m)

-- `val_t()`, with -1 in its two's complement: what `active[]` gives for a thread without a value.
abbrev pub default_val : Val
default_val = record { thread = 2 ^ 64 - 1; idx = 2 ^ 64 - 1 }

abbrev pub active_val : Event → QueueState → Val
active_val e q = or_default (find e.thread q.active) default_val

-- The tree takes the inner interval. A null pointer on the way would be an error; there is none where
-- the root is black.
unfoldable pub add_val : Val → QueueState → Result QueueState
unfolding insert find
add_val v q = do
  i ← at_key v q.inner
  t ← value (insert (record { itv = i; k = 0 }) q.queue_tree)
  ok (record q { queue_tree = t })

unfoldable pub handle_enq : QueueState → Event → Result QueueState
unfolding find assign
handle_enq q e = do
  v ← value e.val
  let q' = ensure_member v (record q { active = assign e.thread v q.active })
  o ← at_key v q'.outer
  ok (record q' { outer = assign v (record o { lbound = e.timestamp }) q'.outer })

unfoldable pub handle_ret_enq : QueueState → Event → Result QueueState
unfolding find assign add_val
handle_ret_enq q e = do
  let v = active_val e q
  let q' = ensure_member v (record q { active = assign e.thread v q.active })
  i ← at_key v q'.inner
  let q'' = record q' { inner = assign v (record i { lbound = e.timestamp }) q'.inner }
  if ltb i.ubound pos_inf then add_val v q'' else ok q''

unfoldable pub handle_deq : QueueState → Event → Result QueueState
unfolding find assign add_val
handle_deq q e = do
  v ← value e.val
  let q' = ensure_member v (record q { active = assign e.thread v q.active })
  i ← at_key v q'.inner
  let q'' = record q' { inner = assign v (record i { ubound = e.timestamp }) q'.inner }
  if ltb neg_inf i.lbound then add_val v q'' else ok q''

unfoldable pub handle_ret_deq : QueueState → Event → Result QueueState
unfolding find assign
handle_ret_deq q e = do
  let v = active_val e q
  let q' = record q { active = assign e.thread v q.active }
  o ← at_key v q'.outer
  ok (record q' { outer = assign v (record o { ubound = e.timestamp }) q'.outer })

unfoldable pub queue_call : EType → QueueState → Event → Result QueueState
unfolding handle_enq handle_deq
queue_call t q e = elim t [
  | EType.enq ↦ handle_enq q e
  | EType.deq ↦ handle_deq q e
  | _ ↦ fail std_error
]

unfoldable pub queue_return : EType → QueueState → Event → Result QueueState
unfolding handle_ret_enq handle_ret_deq
queue_return t q e = elim t [
  | EType.enq ↦ handle_ret_enq q e
  | EType.deq ↦ handle_ret_deq q e
  | _ ↦ fail std_error
]

abbrev pub queue_handlers : Handlers QueueState
queue_handlers = record {
  on_call = queue_call;
  on_return = queue_return;
  on_crash = λ q e. fail std_error;
}

-- A violation is an outer interval that `contains` finds in the tree.
unfoldable pub check_queue : QueueState → Result (Unit {0})
unfolding any compute_k contains
check_queue q =
    if any (λ c. contains (compute_k q.queue_tree) c.1) q.outer then fail violation else ok tt
