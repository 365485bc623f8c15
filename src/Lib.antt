-- ===== src/Lib.antt =====
-- LiMo checks histories of concurrent objects for linearizability. A history is a sequence of call
-- and return events; a monitor reads it event by event and then decides whether the operations can
-- be put in an order that the sequential object allows and that respects real time.
--
-- The parts of the program, and the files here that model them:
--   * tool/include/typedef.h, event.h, util.h and tool/events/src/event.cpp: values, events and the
--     result of a linearization step. Event.antt; exceptions are values of `Result`, Base/Results.
--   * tool/include/interval.h and tool/events/src/interval.cpp: intervals of timestamps. `Atomic`
--     has one interval and its operations, `Range` the class `Interval`: the constructor (filter,
--     sort, merge), `complement`, `operator+` and `operator*`. Proofs: `Points` (what an operation
--     means for timestamps), `Merge` and `Apart` (the constructor, the complement), `Gap` (the first
--     gap of a union of closed intervals).
--   * tool/include/coverhistory.h and tool/events/src/coverhistory.cpp: the history of a stack as a
--     set of values, each with the interval of its push and of its pop. Cover/History.antt has the
--     operations on values (`cover`, `cover_bounds`, `minmax`, `minmax_prune`, `split`,
--     `segmentize`, `simplify`), Cover/Events.antt those that read events (`add_ret`, `add_crash`).
--   * tool/monitor/src/coverlin.cpp and covermonitor.cpp: `step` takes out the values that can be
--     pushed first and popped last, or splits the history at a gap of the cover; `do_linearization`
--     works on the list of histories that are left. Cover/Lin.antt. Cover/Spec.antt says what a
--     linearization is, independently of the code: a run of the sequential stack over the pushes and
--     pops that respects the order in real time. `Compose` builds linearizations, `Prune`, `Split`,
--     `Sound` and `Drain` carry the proof from one round to the whole loop. Cover/Durable.antt has
--     `guesses`, `add_branch` and `check_durable`; `Guess` and `Agree` are about them.
--   * tool/include/monitor.hpp and tool/monitor/src/monitor.cpp: `add_event` checks that calls and
--     returns of a thread alternate and passes an event to the handlers. Monitor.antt, with the
--     handlers as a record that Cover/Handlers.antt fills for `CoverMonitor`. `Monitor/Dispatch`
--     tells what an accepted event did, `Monitor/Alternate` what an accepted history is,
--     `Monitor/Counters` is about the counters. `Cover/Values`, `Calls`,
--     `Reading`, `Read`, `Run` and `Linearize` follow a history from its first event to the state
--     that `do_linearization` needs. Cover/Whole.antt reads the values of a history with no regard
--     to the code; `Held`, `Ending`, `Ended` and `Complete` relate them to the verdict of
--     tool/linearize/src/main.cpp, `Overlapped` adds the values that the code erases.
--   * tool/include/intervaltree.hpp and tool/monitor/src/queuemonitor.cpp: the check of queues. A
--     red-black tree holds the intervals in which values were surely in the queue; a value whose own
--     outermost interval one of them spans is overtaken. Queue/Tree.antt has the tree, with a
--     path of parents in place of the parent pointers, Queue/Monitor.antt the monitor; `Insert`,
--     `Search` and `Root` are about insertion, `Cover` about the search, `Check` about the monitor.
--   * tool/include/interval_tree.hpp, tool/monitor/src/interval_tree.cpp and treemonitor.cpp: a second
--     check of stacks. IntervalTree.antt has the tree and insertion, IntervalTree/Monitor.antt the
--     handlers; `Spanned` says what order the tree keeps, `Branches` and `Adding` are about
--     insertion, `Stored` about the handler that calls it. IntervalTree/Parting.antt has `disj_left`
--     and `disj_right`; `Full`, `LeftPart` and `RightPart` are about them.
--   * tool/include/logic.hpp, tool/logic/src/bound.cpp and term.cpp: the bounds of a value, under a
--     relation to another one and combined to terms. Logic.antt and Logic/Bounds.antt have the
--     bounds, Logic/Term.antt the terms, Logic/Simpl.antt their simplification. Logic/Meaning.antt
--     says which stays satisfy a term, Logic/Normal.antt what a normal form is; `Distinct`,
--     `Subsume` and `Maximal` are about the loops of `simpl`, `DisjStep` and `ConjStep` about one
--     call of it, `Total` and `Normalize` about all.
--   * tool/include/segment.hpp, segmentizer.hpp and tool/monitor/src/segmentizer.cpp: the segments of
--     the push and the pop of a value, and the search for pairs of segments that no order allows.
--     Segment.antt has the segments, Matrix.antt the matrix of the possible pairs, Segment/Check.antt
--     `segmentize` and `check_segments` on the table of pointers. `Orders` is about the tests on four
--     segments, `Cuts` about the cutting, `Cross` and `Crossing` about the loops over two pairs,
--     `Pairs`, `NoAlarm`, `Rooms`, `Segmented` and `Accepted` about the table.
--   * tool/include/generator.hpp and builder.hpp: the histories that the program makes for its tests.
--     Generator.antt; `Possible` says which event can come next, `Runs` and `Enumerate` that
--     `gen_histories` yields the runs of such events and `gen_single` one of them, `Script` what
--     events a run has. Builder.antt, with a sequential stack in `Replay`.
--   * tool/include/relation.h and tool/logic/src/relation.cpp: how two values of a stack can be
--     related. Relation.antt; `Product` is about the table, `Compare` about `compare`.
--
-- Numbers: a timestamp is an `unsigned long long`, kept as a natural number between NEGINF = 0 and
-- POSINF = 2 ^ 64 - 1; only comparisons and the decrement of a constant are made on timestamps.
-- `std::set<CoverVal>` is a list in ascending order of the end of the push, which is the order of
-- the set, and an insertion keeps a value that compares equal. `std::map` is a list in the order of
-- its keys. `Interval` keeps its atoms in the order of the vector.
--
-- `Monitor` keys its map of last events by `int`: the thread is cut to 32 bits. Its counters are kept
-- as natural numbers; that `totConc` can overflow in a long history is not modelled. A relation, four bits of an `uint32_t`, is a record of four Booleans.
--
-- Loops: the loop of `minmax_prune` runs on fuel, a round for each value: each round removes one.
-- `do_linearization` runs on fuel `rounds (length values)`, 3n - 1 for n values and 1 for none, the
-- last round to see that nothing is left; a split makes two smaller histories, pruning makes a
-- smaller one. Both bounds are proved to be enough.
-- `simpl` calls itself on terms that it has put together, and runs on fuel `fuel_of`: one for a
-- constant, a bound and a disjunction, five for a conjunction, and what the terms of it take.
-- `gen_histories` runs on fuel, a call for each event that is left, and `gen_single` on one more;
-- `build_history` on the size.
--
-- Not modelled: printing, files and regular expressions; `prune_crash`, which erases from the set
-- that it iterates over; removal from the red-black tree, which nothing calls; the graph
-- monitor, removal from the tree of the tree monitor and its loop, the conversion of histories,
-- the implementations under test and the other command line programs.
pub mod Base
pub mod Event
pub mod Interval
pub mod Monitor
pub mod Relation
pub mod Cover
pub mod Queue
pub mod Logic
pub mod Matrix
pub mod Segment
pub mod Generator
pub mod IntervalTree
pub mod Builder
pub mod Tests
