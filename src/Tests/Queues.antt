-- ===== src/Tests/Queues.antt =====
-- The interval tree and the queue monitor on a few values.
use li_mo.Base.{ℕ, ◌≡◌, refl, false, some, List, [], ◌∷◌, arith, Any, ok, fail, violation}
use li_mo.Event.{Val, Event, EType}
use li_mo.Interval.Atomic.{AtomicInterval, closed, less}
use li_mo.Monitor.{Monitor, start, add_events}
use li_mo.Queue.Tree.{red, black, ItvNode, Tree, leaf, node, color_of, insert, compute_k, contains}
use li_mo.Queue.Insert.{inorder}
use li_mo.Queue.Search.{IsInserted, insert-IsInserted}
use li_mo.Queue.Root.{insert_total}
use li_mo.Queue.Cover.{Spans, contains-Spans, contains-insert_misses}
use li_mo.Queue.Monitor.{
  QueueState, empty_queue, queue_call, queue_return, queue_handlers, check_queue,
}
use li_mo.Queue.Check.{IsQueueTree, add_events-IsQueueTree, check_queue-Spans}

abbrev item : AtomicInterval → ItvNode
item i = record { itv = i; k = 0 }

-- The third key goes under a red parent on the inner side: both rotations run.
abbrev two_nodes : Tree
two_nodes = node black (item (closed 5 6)) (node red (item (closed 1 2)) leaf leaf) leaf

abbrev three_nodes : Tree
three_nodes =
    node black (item (closed 3 9)) (node red (item (closed 1 2)) leaf leaf)
      (node red (item (closed 5 6)) leaf leaf)

third_inserted : insert (item (closed 3 9)) two_nodes ≡ some three_nodes
unfolding insert
third_inserted = refl

insert-IsInserted_example : IsInserted (item (closed 3 9)) two_nodes three_nodes
unfolding inorder
insert-IsInserted_example =
    insert-IsInserted (item (closed 3 9)) two_nodes three_nodes (ground arith) third_inserted

insert_total_example :
    (s : Tree) × (insert (item (closed 3 9)) two_nodes ≡ some s) × (color_of s ≡ black)
insert_total_example = insert_total (item (closed 3 9)) two_nodes refl

contains-Spans_example : Any (Spans (closed 7 8)) (inorder three_nodes)
unfolding inorder contains compute_k
contains-Spans_example = contains-Spans three_nodes (closed 7 8) (ground arith) refl

third_not_less : less (closed 3 9) (closed 1 2) ≡ false
unfolding less
third_not_less = refl

contains-insert_misses_example :
    (s : Tree) × (t : Tree) × (insert (item (closed 1 2)) leaf ≡ some s)
    × (insert (item (closed 3 9)) s ≡ some t)
    × (contains (compute_k t) (closed 7 8) ≡ false)
    × Any (Spans (closed 7 8)) (inorder t)
contains-insert_misses_example =
    contains-insert_misses (item (closed 1 2)) (item (closed 3 9)) (closed 7 8) third_not_less
      (omega arith) (omega arith) (omega arith, omega arith)

abbrev val : ℕ → Val
val n = record { thread = n; idx = 0 }

abbrev event : EType → ℕ → ℕ → ℕ → Event
event t thread v time = record { etype = t; thread = thread; val = some (val v); timestamp = time }

-- The second value enters and leaves the queue while the first one is in it.
abbrev overtaking : List Event
overtaking =
    event EType.enq 1 1 1
    ∷ event EType.return 1 1 2
    ∷ event EType.enq 1 2 3
    ∷ event EType.return 1 2 4
    ∷ event EType.deq 1 2 5
    ∷ event EType.return 1 2 6
    ∷ event EType.deq 1 1 7
    ∷ event EType.return 1 1 8
    ∷ []

abbrev overtaken : Monitor QueueState
overtaken = elim (add_events queue_handlers (start empty_queue) overtaking) [
  | ok m ↦ m
  | fail x ↦ start empty_queue
]

overtaking_read : add_events queue_handlers (start empty_queue) overtaking ≡ ok overtaken
unfolding add_events queue_call queue_return
overtaking_read = refl

overtaking_refused : check_queue overtaken.state ≡ fail violation
unfolding check_queue add_events queue_call queue_return
overtaking_refused = refl

add_events-IsQueueTree_example : IsQueueTree overtaken.state.queue_tree
add_events-IsQueueTree_example = add_events-IsQueueTree overtaking overtaken overtaking_read

check_queue-Spans_example :
    Any (λ c. Any (Spans c.1) (inorder overtaken.state.queue_tree)) overtaken.state.outer
check_queue-Spans_example =
    check_queue-Spans overtaking overtaken overtaking_read overtaking_refused
