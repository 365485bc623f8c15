-- ===== src/Generator.antt =====
-- include/generator.hpp: the enumeration of the histories of a number of values, and their random choice.
-- The state of a value counts its remaining events: the call and the return of its push, the call and
-- the return of its pop.
pub mod Possible
pub mod Runs
pub mod Enumerate
pub mod Script
use li_mo.Base.{
  ℕ, zero, suc, ◌+◌, ◌-◌, ◌*◌, Bool, true, false, ◌&&◌, ◌||◌, Option, none, some, List, [], ◌∷◌,
  ◌++◌, map, if◌then◌else◌, ltb, ◌==◌, length, filter, get_elem?, set_elem, replicate,
}
use li_mo.Base.Run.{Run, ◌>>=◌, return, read}
use li_mo.Event.{EType, push, pop}
use li_mo.Event

pub record EvT : Type 0 where
  pub t : EType
  pub th : ℕ

abbrev pub evt : ℕ → ℕ → EvT
evt i state =
    if state == 4
    then record { t = push; th = i }
    else (if (state == 3) || (state == 1)
        then record { t = Event.return; th = i }
        else (if state == 2 then record { t = pop; th = i } else record { t = Event.nil; th = i }))

abbrev pub State : Type 0
State = List ℕ

unfoldable pub all_zero : State → Bool
all_zero [] = true
all_zero (s ∷ ss) = (s == 0) && all_zero ss

-- An operation of the value runs.
abbrev pub running : ℕ → Bool
running s = (s == 1) || (s == 3)

unfoldable pub concurrency : State → ℕ
concurrency [] = 0
concurrency (s ∷ ss) = (if running s then 1 else 0) + concurrency ss

-- The indices, counted from the first argument on, of the values whose state passes the test.
unfoldable pub indices : (ℕ → Bool) → ℕ → State → List ℕ
indices p i [] = []
indices p i (s ∷ ss) = let rest = indices p (suc i) ss in if p s then i ∷ rest else rest

-- The index of the first value that was not pushed yet, or the number of values.
unfoldable pub earliest_add : State → ℕ
earliest_add [] = 0
earliest_add (s ∷ ss) = let rest = earliest_add ss in if s == 4 then 0 else suc rest

-- `std::set<int>::insert` on a set as a list in ascending order.
unfoldable pub insert : ℕ → List ℕ → List ℕ
insert i [] = i ∷ []
insert i (j ∷ js) =
    let rest = insert i js in if ltb i j then i ∷ j ∷ js else (if ltb j i then j ∷ rest else j ∷ js)

unfoldable pub insert_all : List ℕ → List ℕ → List ℕ
unfolding insert
insert_all [] js = js
insert_all (i ∷ is) js = insert_all is (insert i js)

abbrev pub pop_calls : State → List ℕ
pop_calls state = indices (λ s. s == 2) 0 state

unfoldable pub possible_indices : State → ℕ → List ℕ
unfolding all_zero concurrency indices earliest_add insert insert_all
possible_indices state max_conc =
    let possible_returns = indices running 0 state in
    let with_pops = insert_all (pop_calls state) possible_returns in
    if all_zero state
    then []
    else (if ltb (concurrency state) max_conc
        then (if ltb (earliest_add state) (length state)
            then insert (earliest_add state) with_pops
            else with_pops)
        else possible_returns)

-- `s2[i]--`
unfoldable pub decrement : State → ℕ → State
unfolding get_elem? set_elem
decrement state i = elim (get_elem? state i) [ none ↦ state | some s ↦ set_elem state i (s - 1) ]

abbrev pub combine : List ℕ → ℕ → List ℕ → List ℕ
combine pre event post = pre ++ event ∷ [] ++ post

abbrev pub is_fixed : Option ℕ → Bool
is_fixed none = false
is_fixed (some n) = n == 0

abbrev pub fewer : Option ℕ → Option ℕ
fewer none = none
fewer (some n) = some (n - 1)

-- The loop of `gen_histories` over the indices, where `next` is what the call for an index yields.
unfoldable pub gen_each : (ℕ → List (List ℕ)) → List ℕ → List ℕ → List (List ℕ)
gen_each next prepend [] = []
gen_each next prepend (i ∷ is) = map (combine prepend i) (next i) ++ gen_each next prepend is

-- The coroutine `gen_histories`, as the list of what it yields, on fuel. A negative number of indices to
-- fix, which never comes to 0, is `none`.
unfoldable pub gen_histories : ℕ → State → ℕ → Option ℕ → List ℕ → List (List ℕ)
unfolding gen_each possible_indices decrement all_zero
gen_histories zero state max_conc num_to_fix prepend =
    if is_fixed num_to_fix || all_zero state then prepend ∷ [] else []
gen_histories (suc fuel) state max_conc num_to_fix prepend =
    let all =
      gen_each (λ i. gen_histories fuel (decrement state i) max_conc (fewer num_to_fix) []) prepend
        (possible_indices state max_conc) in
    if is_fixed num_to_fix || all_zero state then prepend ∷ [] else all

-- `select_random`: `r` is the number that the random generator gives for the number of choices.
abbrev pub select_random : (ℕ → ℕ) → List ℕ → Option ℕ
select_random r set = get_elem? set (r (length set))

-- `gen_single`, on fuel; `rand` gives a random generator for each round.
unfoldable pub gen_single : ℕ → (ℕ → ℕ → ℕ) → ℕ → State → ℕ → List ℕ → Run (List ℕ)
unfolding possible_indices decrement
gen_single zero rand round state max_conc prepend = none
gen_single (suc fuel) rand round state max_conc prepend = elim (possible_indices state max_conc) [
  | [] ↦ return prepend
  | i ∷ is ↦ read (select_random (rand round) (i ∷ is)) >>= λ selected.
      gen_single fuel rand (suc round) (decrement state selected) max_conc
        (prepend ++ selected ∷ [])
]

abbrev pub initial : ℕ → State
initial size = replicate size 4

-- `make_history`: `none` is a read outside of the events or of the states.
unfoldable pub events_from : ℕ → List ℕ → State → Option (List EvT)
unfolding get_elem? decrement
events_from zero events state = some []
events_from (suc n) [] state = none
events_from (suc n) (i ∷ events) state = elim (get_elem? state i) [
  | none ↦ none
  | some s ↦ elim (events_from n events (decrement state i)) [
    | none ↦ none
    | some out ↦ some (evt i s ∷ out)
  ]
]

unfoldable pub make_history : ℕ → List ℕ → Option (List EvT)
unfolding events_from replicate
make_history size events = events_from (size * 4) events (initial size)

unfoldable pub create_single : ℕ → ℕ → (ℕ → ℕ → ℕ) → Run (List ℕ)
unfolding gen_single
create_single size max_threads rand =
    gen_single (suc (size * 4)) rand 0 (initial size) max_threads []
