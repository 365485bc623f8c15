-- ===== src/Base/Run.antt =====
-- Calls that can fail an assertion or read outside of a vector, and loops of them.
use Prim.Native.Nat.{ℕ, zero, suc, ◌+◌, ◌<◌}
use mathlib.Core.Path.{◌≡◌, refl, subst}
use mathlib.Core.Option.{Option, none, some}
use mathlib.Core.List.{List, [], ◌∷◌}
use native.Mathlib.Omega.{arith}
use li_mo.Base.Results.{Result, ok, fail, Failure}
use li_mo.Base.Lists.{All}

-- `none` where an assertion fails or a read is out of range, else what the call returns or throws.
abbrev pub Run {ℓ} : Type ℓ → Type ℓ
Run A = Option (Result A)

infixl 5 ◌>>=◌
abbrev pub ◌>>=◌ {ℓ κ} : {A : Type ℓ} {B : Type κ} → Run A → (A → Run B) → Run B
none >>= next = none
some (fail cause) >>= next = some (fail cause)
some (ok a) >>= next = next a

abbrev pub return {ℓ} : {A : Type ℓ} → A → Run A
return a = some (ok a)

-- A read that is not checked, or that an assertion guards.
abbrev pub read {ℓ} : {A : Type ℓ} → Option A → Run A
read none = none
read (some a) = some (ok a)

abbrev pub throw {ℓ} : {A : Type ℓ} → Failure → Run A
throw cause = some (fail cause)

-- A call that returns, with a state of which the property holds.
abbrev pub Ends {ℓ κ} : {S : Type ℓ} → Run S → (S → Type κ) → Type (ℓ ⊔ κ)
Ends {S = S} call P = (s : S) × (call ≡ some (ok s)) × P s

pub Ends-bind {ℓ κ η θ} :
    {A : Type ℓ} {B : Type κ} {P : A → Type η} {Q : B → Type θ} (call : Run A) (next : A → Run B)
    → Ends call P
    → ((a : A) → P a → Ends (next a) Q)
    → Ends (call >>= next) Q
Ends-bind call next h k = rw h.1 (k h.0 h.2)

pub Ends-read {ℓ κ} :
    {A : Type ℓ} {P : A → Type κ} (o : Option A) (a : A) → o ≡ some a → P a → Ends (read o) P
Ends-read o a e p = rw e (a, refl, p)

module _ {ℓ} {S : Type ℓ} where
  -- `for`, over the indices from `i` on, as many as the second number says.
  unfoldable pub loop : (ℕ → S → Run S) → ℕ → ℕ → S → Run S
  loop body i zero s = return s
  loop body i (suc n) s = body i s >>= λ t. loop body (suc i) n t

  -- `for`, over the elements of a container.
  unfoldable pub each {κ} : {A : Type κ} → (A → S → Run S) → List A → S → Run S
  each body [] s = return s
  each body (x ∷ xs) s = body x s >>= λ t. each body xs t

  -- What holds at the start, and after a round if before it, holds at the end.
  pub loop_inv {κ} :
      (P : ℕ → S → Type κ) (body : ℕ → S → Run S) (end : ℕ)
      → ((i : ℕ) (s : S) → i < end → P i s → Ends (body i s) (P (suc i)))
      → (i n : ℕ) (s : S) → i + n ≡ end
      → P i s
      → Ends (loop body i n s) (P end)
  unfolding loop
  loop_inv P body end h i zero s e p = (s, refl, subst (λ k. P k s) (omega arith) p)
  loop_inv P body end h i (suc n) s e p =
      Ends-bind (body i s) (λ t. loop body (suc i) n t) (h i s (omega (arith, e)) p)
        (λ t q. loop_inv P body end h (suc i) n t (omega (arith, e)) q)

  pub each_inv {κ η θ} :
      {A : Type κ} (P : S → Type η) (Q : A → Type θ) (body : A → S → Run S)
      → ((x : A) (s : S) → Q x → P s → Ends (body x s) P)
      → (xs : List A) (s : S) → All Q xs
      → P s
      → Ends (each body xs s) P
  unfolding each
  each_inv P Q body h [] s q p = (s, refl, p)
  each_inv P Q body h (x ∷ xs) s q p =
      Ends-bind (body x s) (λ t. each body xs t) (h x s q.0 p)
        (λ t r. each_inv P Q body h xs t q.1 r)

  -- A loop whose rounds each make something of their element true that later rounds keep.
  pub each_done {κ η θ ι} :
      {A : Type κ} (P : S → Type η) (Q : A → Type θ) (Done : A → S → Type ι) (body : A → S → Run S)
      → ((x : A) (s : S)
          → Q x
          → P s
          → Ends (body x s) (λ t. P t × Done x t × ((y : A) → Done y s → Done y t)))
      → (xs : List A) (s : S) → All Q xs
      → P s
      → Ends (each body xs s) (λ t. P t × All (λ x. Done x t) xs × ((y : A) → Done y s → Done y t))
  unfolding each
  each_done P Q Done body h [] s q p = (s, refl, (p, tt, λ y d. d))
  each_done P Q Done body h (x ∷ xs) s q p =
      Ends-bind (body x s) (λ t. each body xs t) (h x s q.0 p)
        (λ t r.
          let rest = each_done P Q Done body h xs t q.1 r.0 in
          (rest.0, rest.1, (rest.2.0, (rest.2.2 x r.1, rest.2.1), λ y d. rest.2.2 y (r.2 y d))))
