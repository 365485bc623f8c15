-- ===== src/Base/Results.antt =====
-- include/exception.h: what a call of the program can end in, a value or an exception.
use mathlib.Core.Path.{◌≡◌, refl}
use mathlib.Core.Bool.{Bool, true, false}
use mathlib.Core.Option.{Option, none, some}

-- The classes of include/exception.h, and the exceptions of the standard library in one.
pub data Failure : Type 0 where
  violation crash exception std_error : Failure

pub data Result {ℓ} (A : Type ℓ) : Type ℓ where
  fail : Failure → Result A
  ok : A → Result A

-- `std::optional::value`, which throws, and the two ways to go on without a value.
module _ {ℓ} {A : Type ℓ} where
  abbrev pub value : Option A → Result A
  value (some a) = ok a
  value none = fail std_error

  abbrev pub or_default : Option A → A → A
  or_default o d = elim o [ none ↦ d | some a ↦ a ]

  abbrev pub or_else : Option A → Option A → Option A
  or_else o other = elim o [ none ↦ other | some a ↦ some a ]

-- What follows a call runs only if the call did not throw.
infixl 5 ◌>>=◌ ◌>>◌
abbrev pub ◌>>=◌ {ℓ κ} : {A : Type ℓ} {B : Type κ} → Result A → (A → Result B) → Result B
fail cause >>= next = fail cause
ok a >>= next = next a

abbrev pub ◌>>◌ {ℓ κ} : {A : Type ℓ} {B : Type κ} → Result A → Result B → Result B
fail cause >> next = fail cause
ok a >> next = next

-- `throw` where the test holds.
abbrev pub throw_if : Bool → Failure → Result (Unit {0})
throw_if test cause = elim test [ true ↦ fail cause | false ↦ ok tt ]

pub ok_inj {ℓ} : {A : Type ℓ} {a b : A} → ok a ≡ ok b → a ≡ b
ok_inj e = cc

pub no_result {ℓ} : {A : Type ℓ} {x : Failure} {a : A} → fail x ≡ ok a → ⊥
no_result e = cc

-- A chain that returned went through its first call.
pub went_through {ℓ κ} :
    {A : Type ℓ} {B : Type κ} (call : Result A) (next : A → Result B) (end : B)
    → (call >>= next) ≡ ok end
    → (mid : A) × (call ≡ ok mid) × (next mid ≡ ok end)
went_through (fail cause) next end e = absurd (no_result e)
went_through (ok a) next end e = (a, refl, e)

-- A test that did not throw was false.
pub passed {ℓ} :
    {B : Type ℓ} (test : Bool) (cause : Failure) (next : Result B) (end : B)
    → (throw_if test cause >> next) ≡ ok end
    → (test ≡ false) × (next ≡ ok end)
passed true cause next end e = absurd (no_result e)
passed false cause next end e = (refl, e)
