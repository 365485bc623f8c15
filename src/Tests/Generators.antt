-- ===== src/Tests/Generators.antt =====
-- The generators of histories for one and two values.
use li_mo.Base.{
  ℕ, zero, suc, ◌<◌, ◌≡◌, ◌↔◌, refl, none, some, List, [], ◌∷◌, arith, here, there, length, ◌*◌,
  Pairs, ◌≢◌,
}
use li_mo.Base.Run.{Ends}
use li_mo.Builder.{Draws, generate_lin_hist}
use li_mo.Builder.Replay.{idle, replay, pushes, InRange, generate_lin_hist-replay}
use li_mo.Generator.{EvT, gen_histories, initial, create_single, make_history, possible_indices}
use li_mo.Generator.Runs.{Complete, Yields}
use li_mo.Generator.Enumerate.{gen_histories-Complete}
use li_mo.Generator.Script.{
  Within, script, of_thread, create_single-make_history, gen_histories-Within,
}

-- With one operation at a time, the push of the second value waits for a return of the first.
initial-possible_indices : possible_indices (3 ∷ 4 ∷ []) 1 ≡ 0 ∷ []
unfolding possible_indices
initial-possible_indices = refl

abbrev alone : List ℕ
alone = 0 ∷ 0 ∷ 0 ∷ 0 ∷ []

gen_histories-alone : gen_histories 4 (initial 1) 1 none [] ≡ alone ∷ []
unfolding gen_histories li_mo.Base.replicate
gen_histories-alone = refl

gen_histories-Complete_example :
    Yields alone (gen_histories 4 (initial 1) 1 none []) ↔ Complete 1 (initial 1) alone
unfolding li_mo.Base.replicate
gen_histories-Complete_example = gen_histories-Complete 1 4 (initial 1) alone (omega arith)

gen_histories-Within_example : Within 1 (initial 1) alone
unfolding gen_histories li_mo.Base.replicate
gen_histories-Within_example = gen_histories-Within 1 4 1 alone (omega arith) (here refl)

abbrev lowest : ℕ → ℕ → ℕ
lowest k n = 0

create_single-make_history_example : Ends (create_single 2 1 lowest) (λ h.
    (out : List EvT) × (make_history 2 h ≡ some out)
    × ((k : ℕ) → k < 2 → of_thread k out ≡ script 4))
create_single-make_history_example =
    create_single-make_history 2 1 lowest (λ k n h. h) (omega arith)

abbrev draws : Draws
draws = record { rule = λ place. 1; split = λ place n. 1 }

draws-InRange : InRange draws
draws-InRange place n h = (omega arith, omega (arith, h))

generate_lin_hist-replay_example :
    Ends
      (generate_lin_hist draws 3)
      (λ es. (length es ≡ 3 * 4) × (replay es idle [] ≡ some []) × Pairs (λ v w. v ≢ w) (pushes es))
generate_lin_hist-replay_example = generate_lin_hist-replay draws 3 draws-InRange
