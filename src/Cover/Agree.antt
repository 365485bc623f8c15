-- ===== src/Cover/Agree.antt =====
-- `check_durable` on a history in which no operation crashed.
use mathlib.Core.Option
use li_mo.Base.{
  ℕ, ◌≡◌, refl, sym, ◌∙◌, ap, false, Option, none, some, List, [], ◌∷◌, All, Bool-cases, inl, inr,
  Result, ok, fail, ◌>>=◌,
}
use li_mo.Event.{LinRes, is_violation, done}
use li_mo.Cover.History.{CoverHistory, CoverVal, of_values}
use li_mo.Cover.Lin.{step, drain, conclude, do_linearization}
use li_mo.Cover.Durable.{has_crashed, guesses, check_guesses, after_guesses, check_durable}
use li_mo.Cover.Prune.{IsOrdered}
use li_mo.Cover.Compose.{IsRead}
use li_mo.Cover.Sound.{step-IsStep}
use li_mo.Cover.Drain.{IsRead-simple}
use li_mo.Cover.Guess.{guesses_safe}

module _ (fuel : ℕ) (h : CoverHistory) (s : LinRes CoverHistory) (q : step h ≡ ok s) where
  -- A single guess is checked by the loop of the linearization.
  one_guess :
      (d : Option (Result (LinRes CoverHistory)))
      → drain fuel s ≡ d
      → check_guesses fuel (h ∷ []) done ≡ d
  unfolding check_guesses
  one_guess none e = rw (q, e, check_guesses)
  one_guess (some (fail x)) e = rw (q, e, check_guesses)
  one_guess (some (ok r)) e = elim (Bool-cases (is_violation r)) [
    | inl v ↦ rw (q, e, v, check_guesses)
    | inr v ↦ rw (q, e, v, check_guesses)
  ]

  abbrev settle : Option (Result (LinRes CoverHistory)) → Option (Result (LinRes CoverHistory))
  settle = Option.map λ r. r >>= λ lr. ok (after_guesses (h ∷ []) lr)

  settled : (d : Option (Result (LinRes CoverHistory))) → settle d ≡ d
  settled none = refl
  settled (some (fail x)) = refl
  settled (some (ok r)) = elim (Bool-cases (is_violation r)) [
    | inl v ↦ rw v refl
    | inr v ↦ rw v refl
  ]

  guessed :
      guesses h ≡ ok (h ∷ []) → check_durable fuel h ≡ settle (check_guesses fuel (h ∷ []) done)
  unfolding check_durable
  guessed g = rw (g, check_durable)

  one_guess-check_durable : guesses h ≡ ok (h ∷ []) → check_durable fuel h ≡ drain fuel s
  one_guess-check_durable g =
      guessed g ∙ ap settle (one_guess (drain fuel s) refl) ∙ settled (drain fuel s)

-- Of values in their order, each pushed before its pop was called, with no crashed operation and
-- no pop of the empty stack, the verdict of `check_durable` is that of `do_linearization`.
pub check_durable-eq-do_linearization :
    (vs : List CoverVal) (fuel : ℕ)
    → IsOrdered vs
    → All IsRead vs
    → All (λ v. has_crashed v ≡ false) vs
    → Option.map conclude (check_durable fuel (of_values vs)) ≡ do_linearization fuel (of_values vs)
check_durable-eq-do_linearization vs fuel o r c =
    let (s, q, st) =
      step-IsStep (of_values vs) (record { ordered = o; read = r; no_empties = refl }) in
    ap (Option.map conclude)
      (one_guess-check_durable fuel (of_values vs) s q (guesses_safe (of_values vs) o c))
    ∙ sym (linearizes s q)
  where
    linearizes :
        (s : LinRes CoverHistory)
        → step (of_values vs) ≡ ok s
        → do_linearization fuel (of_values vs) ≡ Option.map conclude (drain fuel s)
    linearizes s q =
        unfold do_linearization in rw (IsRead-simple (of_values vs) r, q, do_linearization)
