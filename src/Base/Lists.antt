-- ===== src/Base/Lists.antt =====
-- Lists over the native numbers: lengths, Boolean searches and predicates by recursion.
use Prim.Native.Nat.{ℕ, zero, suc, ◌+◌, ◌≤◌}
use mathlib.Core.Path.{◌≡◌, refl, ap, ◌∙◌}
use mathlib.Core.Bool.{Bool, true, false, not, ◌||◌}
use mathlib.Core.Logic.{◌⊎◌, inl, inr}
use mathlib.Core.Option.{Option, none, some}
use mathlib.Core.List.{List, [], ◌∷◌, ◌++◌}
use native.Mathlib.Omega.{arith}

module _ {ℓ} {A : Type ℓ} where
  abbrev pub length : List A → ℕ
  length [] = 0
  length (x ∷ xs) = suc (length xs)

  pub length-append : (xs ys : List A) → length (xs ++ ys) ≡ length xs + length ys
  length-append [] ys = omega arith
  length-append (x ∷ xs) ys = omega (arith, length-append xs ys)

  abbrev pub nonempty : List A → Bool
  nonempty [] = false
  nonempty (x ∷ xs) = true

  -- The elements that pass a test, in their order.
  unfoldable pub filter : (A → Bool) → List A → List A
  filter p [] = []
  filter p (x ∷ xs) = let rest = filter p xs in elim (p x) [ true ↦ x ∷ rest | false ↦ rest ]

  pub filter_nil : (p : A → Bool) → filter p [] ≡ []
  unfolding filter
  filter_nil p = refl

  pub filter_keep :
      (p : A → Bool) (x : A) (xs : List A) → p x ≡ true → filter p (x ∷ xs) ≡ x ∷ filter p xs
  unfolding filter
  filter_keep p x xs e = rw (e, filter)

  pub filter_drop :
      (p : A → Bool) (x : A) (xs : List A) → p x ≡ false → filter p (x ∷ xs) ≡ filter p xs
  unfolding filter
  filter_drop p x xs e = rw (e, filter)

  unfoldable pub any : (A → Bool) → List A → Bool
  any p [] = false
  any p (x ∷ xs) = p x || any p xs

  -- A predicate on every element.
  abbrev pub All {κ} : (A → Type κ) → List A → Type κ
  All P [] = Unit
  All P (x ∷ xs) = P x × All P xs

  pub length-filter-le : (p : A → Bool) (xs : List A) → length (filter p xs) ≤ length xs
  unfolding filter
  length-filter-le p [] = omega arith
  length-filter-le p (x ∷ xs) = ground (arith, length-filter-le p xs)

  pub length-filter-split :
      (p : A → Bool) (xs : List A)
      → length xs ≡ length (filter p xs) + length (filter (λ x. not (p x)) xs)
  unfolding filter
  length-filter-split p [] = omega arith
  length-filter-split p (x ∷ xs) = ground (arith, length-filter-split p xs)

  pub filter-All : (p : A → Bool) (xs : List A) → All (λ x. p x ≡ true) xs → filter p xs ≡ xs
  unfolding filter
  filter-All p [] h = refl
  filter-All p (x ∷ xs) h = filter_keep p x xs h.0 ∙ ap (◌∷◌ x) (filter-All p xs h.1)

  pub All-filter {κ} :
      (P : A → Type κ) (p : A → Bool) (xs : List A) → All P xs → All P (filter p xs)
  unfolding filter
  All-filter P p [] h = tt
  All-filter P p (x ∷ xs) h =
      elim (p x) as (λ b. All P (elim b [ true ↦ x ∷ filter p xs | false ↦ filter p xs ])) [
        | true ↦ (h.0, All-filter P p xs h.1)
        | false ↦ All-filter P p xs h.1
      ]

  unfoldable pub get_elem? : List A → ℕ → Option A
  get_elem? [] i = none
  get_elem? (x ∷ xs) zero = some x
  get_elem? (x ∷ xs) (suc i) = get_elem? xs i

  pub List-cases : (xs : List A) → (xs ≡ []) ⊎ ((x : A) × (ys : List A) × (xs ≡ x ∷ ys))
  List-cases [] = inl refl
  List-cases (x ∷ xs) = inr (x, xs, refl)

  pub Option-cases : (o : Option A) → (o ≡ none) ⊎ ((x : A) × (o ≡ some x))
  Option-cases none = inl refl
  Option-cases (some x) = inr (x, refl)

  pub cons_inj : {x y : A} {xs ys : List A} → x ∷ xs ≡ y ∷ ys → (x ≡ y) × (xs ≡ ys)
  cons_inj e = ground arith

  -- The elements before the last of `x ∷ xs`, and the last.
  split_back : A → List A → List A × A
  split_back x [] = ([], x)
  split_back x (y ∷ ys) = (x ∷ (split_back y ys).0, (split_back y ys).1)

  -- `back` and `pop_back` of a vector: what stands before the last element, and that element.
  unfoldable pub pop_back : List A → Option (List A × A)
  unfolding split_back
  pop_back [] = none
  pop_back (x ∷ xs) = some (split_back x xs)

  split_back-append :
      (x : A) (xs : List A) → x ∷ xs ≡ (split_back x xs).0 ++ (split_back x xs).1 ∷ []
  unfolding split_back
  split_back-append x [] = refl
  split_back-append x (y ∷ ys) = ap (◌∷◌ x) (split_back-append y ys)

  -- What `pop_back` takes apart is the vector.
  pub pop_back-append : (xs ys : List A) (y : A) → pop_back xs ≡ some (ys, y) → xs ≡ ys ++ y ∷ []
  unfolding pop_back
  pop_back-append [] ys y e = cc
  pop_back-append (x ∷ xs) ys y e = ground (arith, split_back-append x xs)

  pub pop_back-cons :
      (x : A) (xs : List A) → (ys : List A) × (y : A) × (pop_back (x ∷ xs) ≡ some (ys, y))
  unfolding pop_back
  pop_back-cons x xs = ((split_back x xs).0, (split_back x xs).1, refl)

pub some_inj {ℓ} : {A : Type ℓ} {a b : A} → some a ≡ some b → a ≡ b
some_inj e = cc

pub nothing {ℓ} : {A : Type ℓ} {a : A} → none ≡ some a → ⊥
nothing e = cc
