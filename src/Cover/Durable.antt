-- ===== src/Cover/Durable.antt =====
-- `CoverHistory::guesses`, `add_branch` and `check_durable` of monitor/src/coverlin.cpp: the
-- histories that a crash leaves possible, and the check whether one of them is linearizable.
use li_mo.Base.{
  ℕ, Bool, true, false, ◌&&◌, ◌||◌, Option, none, some, List, [], ◌∷◌, ◌++◌, if◌then◌else◌, ltb,
  length, Result, ok, fail, std_error, ◌>>=◌, ◌>>◌, throw_if,
}
use mathlib.Core.Option
use li_mo.Event.{LinRes, is_violation, report, no_guess, done}
use li_mo.Interval.Atomic.{nil}
use li_mo.Cover.History.{CoverHistory, CoverVal, of_values, insert_value, add_value}
use li_mo.Cover.Lin.{step, drain}

abbrev pub has_crashed : CoverVal → Bool
has_crashed v = v.push_crash || v.pop_crash

-- The first loop of `guesses` with its two sets, `crashed` and `safe`.
unfoldable pub separate :
    List CoverVal → List CoverVal → List CoverVal → List CoverVal × List CoverVal
unfolding insert_value
separate crashed safe [] = (crashed, safe)
separate crashed safe (v ∷ vs) = elim (has_crashed v) [
  | true ↦ separate (insert_value v crashed) safe vs
  | false ↦ separate crashed (insert_value v safe) vs
]

unfoldable pub add_values : CoverHistory → List CoverVal → CoverHistory
unfolding add_value
add_values h [] = h
add_values h (v ∷ vs) = add_values (add_value h v) vs

-- The first history has the value without the operation that crashed, the second has the value as it
-- is. The source clears the flag of the first twice.
unfoldable pub add_branch : CoverHistory → CoverVal → Result (List CoverHistory)
unfolding add_value
add_branch h v =
    if v.push_crash
    then (do
      throw_if v.pop_crash std_error
      ok (add_value h (record v { push_crash = false; add = nil }) ∷ add_value h v ∷ []))
    else if v.pop_crash
    then ok (add_value h (record v { pop_crash = false; rmv = nil }) ∷ add_value h v ∷ [])
    else ok (h ∷ h ∷ [])

-- The two nested loops over the crashed values and the histories so far.
unfoldable pub branch_each : CoverVal → List CoverHistory → Result (List CoverHistory)
unfolding add_branch
branch_each v [] = ok []
branch_each v (h ∷ hs) = do r ← add_branch h v; rest ← branch_each v hs; ok (r ++ rest)

unfoldable pub branch_all : List CoverVal → List CoverHistory → Result (List CoverHistory)
unfolding branch_each
branch_all [] hs = ok hs
branch_all (v ∷ vs) hs = do nres ← branch_each v hs; branch_all vs nres

unfoldable pub guesses : CoverHistory → Result (List CoverHistory)
unfolding separate add_values branch_all
guesses h =
    let (crashed, safe) = separate [] [] h.values in
    branch_all crashed (add_values (of_values []) safe ∷ [])

-- The loop of `check_durable`, with the result of the last guess; fuel as in `drain`.
unfoldable pub check_guesses :
    ℕ → List CoverHistory → LinRes CoverHistory → Option (Result (LinRes CoverHistory))
unfolding step drain
check_guesses fuel [] lr = some (ok lr)
check_guesses fuel (h ∷ hs) lr = elim (step h) [
  | fail cause ↦ some (fail cause)
  | ok r ↦ elim (drain fuel r) [
    | none ↦ none
    | some (fail cause) ↦ some (fail cause)
    | some (ok s) ↦ elim (is_violation s) [ true ↦ check_guesses fuel hs s | false ↦ some (ok s) ]
  ]
]

-- With more than one guess the violation of the last one is replaced.
abbrev pub after_guesses : List CoverHistory → LinRes CoverHistory → LinRes CoverHistory
after_guesses hists lr = if is_violation lr && ltb 1 (length hists) then report no_guess else lr

unfoldable pub check_durable : ℕ → CoverHistory → Option (Result (LinRes CoverHistory))
unfolding guesses check_guesses
check_durable fuel h = elim (guesses h) [
  | fail cause ↦ some (fail cause)
  | ok hists ↦
      Option.map (λ r. r >>= λ lr. ok (after_guesses hists lr)) (check_guesses fuel hists done)
]
