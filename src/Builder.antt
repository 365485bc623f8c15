-- ===== src/Builder.antt =====
-- include/builder.hpp: histories that are linearizable, built from empty ones by putting one behind
-- another and by putting one between the push and the pop of a value.
pub mod Replay
use li_mo.Base.{
  ℕ, zero, suc, ◌+◌, ◌-◌, ◌*◌, Bool, true, false, not, ◌&&◌, none, some, List, [], ◌∷◌, ◌++◌,
  if◌then◌else◌, ltb, leb, ◌==◌, ok,
}
use li_mo.Base.Run.{Run, ◌>>=◌, return}
use li_mo.Event.{Val, Event, push, pop}
use li_mo.Event

pub data Component : Type 0 where
  empty : Component
  concat : Component → Component → Component
  enclose : Component → Component

unfoldable pub size : Component → ℕ
size empty = 0
size (concat u v) = size u + size v
size (enclose u) = size u + 1

-- The events have no timestamps yet. The generator that `build` is given is not asked.
unfoldable pub build : Component → ℕ → List Event
unfolding size
build empty offset = []
build (concat u v) offset = build u offset ++ build v (size u + offset)
build (enclose u) offset =
    record {
      etype = push;
      thread = offset;
      val = some (record { thread = offset; idx = 0 });
      timestamp = 0;
    }
      ∷ record { etype = Event.return; thread = offset; val = none; timestamp = 0 }
      ∷ build u (offset + 1)
    ++ record {
      etype = pop;
      thread = offset;
      val = some (record { thread = offset; idx = 0 });
      timestamp = 0;
    }
      ∷ record { etype = Event.return; thread = offset; val = none; timestamp = 0 }
      ∷ []

-- The numbers that a call of `build_history` draws: which rule, and for `Concat` the size of the first
-- part. A call is known by its place in the tree of calls.
pub record Draws : Type 0 where
  pub rule : ℕ → ℕ
  pub split : ℕ → ℕ → ℕ

-- `build_history`, on fuel; `none` where an assertion fails.
unfoldable pub build_history : ℕ → Draws → ℕ → ℕ → Run Component
build_history fuel draws place zero = return empty
build_history fuel draws place (suc zero) = return (enclose empty)
build_history zero draws place (suc (suc n)) = none
build_history (suc fuel) draws place (suc (suc n)) =
    let inner = build_history fuel draws (place * 2 + 1) (suc n) in
    let split = draws.split place (suc (suc n)) in
    let first = build_history fuel draws (place * 2 + 1) split in
    let second = build_history fuel draws (place * 2 + 2) (suc (suc n) - split) in
    if draws.rule place == 0
    then (inner >>= λ u. return (enclose u))
    else (if ltb 0 split && ltb 0 (suc (suc n) - split)
        then (first >>= λ u. second >>= λ v. return (concat u v))
        else none)

unfoldable pub generate_lin_hist : Draws → ℕ → Run (List Event)
unfolding build_history build
generate_lin_hist draws n = build_history n draws 0 n >>= λ c. return (build c 1)
