-- ===== src/Queue/Check.antt =====
-- The queue monitor from its first event to its verdict: the tree stays a search tree with a black root,
-- and a violation is an outer interval that an inner one spans.
use li_mo.Base.{
  ◌≡◌, refl, sym, ap, ◌∙◌, Bool, true, false, Option, none, some, List, [], ◌∷◌, arith,
  if◌then◌else◌, ltb, any, nat_key, Any, here, there, Bool-cases, inl, inr, Result, ok, fail,
  violation, value, ok_inj, no_result, went_through, subst,
}
use li_mo.Event.{Val, Event, EType, val_key}
use li_mo.Interval.Atomic.{AtomicInterval, pos_inf, neg_inf}
use li_mo.Monitor.{Monitor, start, add_event, add_events}
use li_mo.Monitor.Dispatch.{Leads, add_event-Leads}
use li_mo.Queue.Tree.{black, ItvNode, Tree, color_of, insert, compute_k, contains}
use li_mo.Queue.Insert.{inorder, IsSearchTree}
use li_mo.Queue.Search.{insert-IsInserted}
use li_mo.Queue.Root.{insert_total}
use li_mo.Queue.Cover.{Spans, contains-Spans}
use li_mo.Queue.Monitor.{
  QueueState, empty_queue, ensure_member, at_key, active_val, add_val, handle_enq, handle_ret_enq,
  handle_deq, handle_ret_deq, queue_call, queue_return, queue_handlers, check_queue,
}

pub record IsQueueTree (t : Tree) : Type 0 where
  pub searched : IsSearchTree t
  pub rooted : color_of t ≡ black

abbrev Kept : QueueState → Type 0
Kept q = IsQueueTree q.queue_tree

insert-IsQueueTree :
    (key : ItvNode) (t s : Tree) → IsQueueTree t → insert key t ≡ some s → IsQueueTree s
insert-IsQueueTree key t s k e =
    let (u, f, b) = insert_total key t k.rooted in
    record {
      searched = (insert-IsInserted key t s k.searched e).searched;
      rooted = subst (λ z. color_of z ≡ black) (same (sym f ∙ e)) b;
    }
  where
    same : {a b : Tree} → some a ≡ some b → a ≡ b
    same h = cc

has_value : {A : Type 0} (o : Option A) (a : A) → value o ≡ ok a → o ≡ some a
has_value none a e = absurd (no_result e)
has_value (some x) a e = ap some (ok_inj e)

add_val-Kept : (v : Val) (q q' : QueueState) → Kept q → add_val v q ≡ ok q' → Kept q'
unfolding add_val
add_val-Kept v q q' k r =
    let (i, a, b) = went_through (at_key v q.inner) _ q' r in
    let (t, c, d) = went_through (value (insert (record { itv = i; k = 0 }) q.queue_tree)) _ q' b in
    subst Kept (ok_inj d) (
      insert-IsQueueTree (record { itv = i; k = 0 }) q.queue_tree t k
        (has_value (insert (record { itv = i; k = 0 }) q.queue_tree) t c))

add_if-Kept :
    (test : Bool) (v : Val) (q q' : QueueState)
    → Kept q
    → (if test then add_val v q else ok q) ≡ ok q'
    → Kept q'
add_if-Kept true v q q' k r = add_val-Kept v q q' k r
add_if-Kept false v q q' k r = subst Kept (ok_inj r) k

module _ (q : QueueState) (e : Event) (q' : QueueState) (k : Kept q) where
  handle_enq-Kept : handle_enq q e ≡ ok q' → Kept q'
  unfolding handle_enq
  handle_enq-Kept r =
      let (v, a, b) = went_through (value e.val) _ q' r in
      let (o, c, d) = went_through (at_key v (ensure_member v q).outer) _ q' b in
      subst Kept (ok_inj d) k

  handle_deq-Kept : handle_deq q e ≡ ok q' → Kept q'
  unfolding handle_deq
  handle_deq-Kept r =
      let (v, a, b) = went_through (value e.val) _ q' r in
      let (i, c, d) = went_through (at_key v (ensure_member v q).inner) _ q' b in
      add_if-Kept (ltb neg_inf i.lbound) v _ q' k d

  handle_ret_enq-Kept : handle_ret_enq q e ≡ ok q' → Kept q'
  unfolding handle_ret_enq
  handle_ret_enq-Kept r =
      let v = active_val e q in
      let (i, c, d) = went_through (at_key v (ensure_member v q).inner) _ q' r in
      add_if-Kept (ltb i.ubound pos_inf) v _ q' k d

  handle_ret_deq-Kept : handle_ret_deq q e ≡ ok q' → Kept q'
  unfolding handle_ret_deq
  handle_ret_deq-Kept r =
      let (o, c, d) = went_through (at_key (active_val e q) q.outer) _ q' r in
      subst Kept (ok_inj d) k

  queue_call-Kept : (t : EType) → queue_call t q e ≡ ok q' → Kept q'
  unfolding queue_call
  queue_call-Kept EType.enq r = handle_enq-Kept r
  queue_call-Kept EType.deq r = handle_deq-Kept r
  queue_call-Kept _ r = absurd (no_result r)

  queue_return-Kept : (t : EType) → queue_return t q e ≡ ok q' → Kept q'
  unfolding queue_return
  queue_return-Kept EType.enq r = handle_ret_enq-Kept r
  queue_return-Kept EType.deq r = handle_ret_deq-Kept r
  queue_return-Kept _ r = absurd (no_result r)

queue-Leads : (e : Event) → Leads queue_handlers e Kept Kept
queue-Leads e = record {
  on_call = λ t q q' k r. queue_call-Kept q e q' k t r;
  on_return = λ t q q' k r. queue_return-Kept q e q' k t r;
  on_crash = λ q q' k r. absurd (no_result r);
  on_nothing = λ q k. k;
}

add_events-Kept :
    (es : List Event) (m m' : Monitor QueueState)
    → Kept m.state
    → add_events queue_handlers m es ≡ ok m'
    → Kept m'.state
unfolding add_events
add_events-Kept [] m m' k r = subst (λ z. Kept z.state) (ok_inj r) k
add_events-Kept (e ∷ es) m m' k r =
    let (n, a, b) = went_through (add_event queue_handlers m e) _ m' r in
    add_events-Kept es n m' (add_event-Leads queue_handlers e Kept Kept (queue-Leads e) m n k a) b

-- Whatever events the queue monitor accepts, its tree is in the search order and has a black root.
pub add_events-IsQueueTree :
    (es : List Event) (m : Monitor QueueState)
    → add_events queue_handlers (start empty_queue) es ≡ ok m
    → IsQueueTree m.state.queue_tree
add_events-IsQueueTree es m r =
    add_events-Kept es (start empty_queue) m
      (record { searched = unfold inorder in tt; rooted = refl }) r

found :
    (t : Tree) (m : List (Val × AtomicInterval))
    → IsQueueTree t
    → any (λ c. contains (compute_k t) c.1) m ≡ true
    → Any (λ c. Any (Spans c.1) (inorder t)) m
unfolding any
found t [] k h = absurd (ground arith)
found t (c ∷ m) k h = elim (Bool-cases (contains (compute_k t) c.1)) [
  | inl a ↦ here (contains-Spans t c.1 k.searched a)
  | inr a ↦ there (found t m k (rw a at h))
]

-- If the queue monitor reports a violation for the events that it accepted, then an inner interval in
-- its tree spans the outer interval of some value.
pub check_queue-Spans :
    (es : List Event) (m : Monitor QueueState)
    → add_events queue_handlers (start empty_queue) es ≡ ok m
    → check_queue m.state ≡ fail violation
    → Any (λ c. Any (Spans c.1) (inorder m.state.queue_tree)) m.state.outer
unfolding check_queue
check_queue-Spans es m r v =
    found m.state.queue_tree m.state.outer (add_events-IsQueueTree es m r)
      (reported (any (λ c. contains (compute_k m.state.queue_tree) c.1) m.state.outer) v)
  where
    verdict : Bool → Result (Unit {0})
    verdict b = if b then fail violation else ok tt

    reported : (b : Bool) → verdict b ≡ fail violation → b ≡ true
    reported true h = refl
    reported false h = cc
