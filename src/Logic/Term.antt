-- ===== src/Logic/Term.antt =====
-- include/logic.hpp and logic/src/term.cpp: terms over bounds, and what `simpl` makes of them.
use li_mo.Base.{
  ℕ, ◌+◌, ◌≡◌, refl, Bool, true, false, not, ◌&&◌, Option, none, some, List, [], ◌∷◌, if◌then◌else◌,
  nothing, Result, ok, fail, std_error,
}
use li_mo.Logic.{Bound, implies, nil_bound, conj_bounds, disj_bounds}
use li_mo.Logic

-- `none` is a call that has run out of fuel, or a cast to a bound of what is none.
infixl 5 ◌>>=◌
abbrev pub ◌>>=◌ : {A B : Type 0} → Option A → (A → Option B) → Option B
none >>= next = none
some a >>= next = next a

-- A chain that has a result went through its first call.
pub went_on :
    {A B : Type 0} (call : Option A) (next : A → Option B) (end : B)
    → (call >>= next) ≡ some end
    → (mid : A) × (call ≡ some mid) × (next mid ≡ some end)
went_on none next end e = absurd (nothing e)
went_on (some a) next end e = (a, refl, e)

mutual
  pub data Term : Type 0 where
    const : Bool → Term
    bound : Bound → Term
    conj : Terms → Term
    disj : Terms → Term

  pub data Terms : Type 0 where
    no_terms : Terms
    term : Term → Terms → Terms

-- The subterms as a list, and back.
unfoldable pub list_of : Terms → List Term
list_of no_terms = []
list_of (term t ts) = t ∷ list_of ts

unfoldable pub terms_of : List Term → Terms
terms_of [] = no_terms
terms_of (t ∷ ts) = term t (terms_of ts)

abbrev pub conj_of : List Term → Term
conj_of ts = conj (terms_of ts)

abbrev pub disj_of : List Term → Term
disj_of ts = disj (terms_of ts)

abbrev pub is_disj : Term → Bool
is_disj (disj ts) = true
is_disj _ = false

-- `Term::size` and `Comb::size`: how many constants and bounds a term has.
unfoldable mutual
  pub size : Term → ℕ
  size (const b) = 1
  size (bound b) = 1
  size (conj ts) = size_each ts
  size (disj ts) = size_each ts

  pub size_each : Terms → ℕ
  size_each no_terms = 0
  size_each (term t ts) = size t + size_each ts

-- `Comb::equal`, `Const::equal` and `Bound::equal`. Two combinations are equal where they have as many
-- terms and each term of the other equals the one in its place here: `equal_from t u` is `equal u t`,
-- on which the calls change sides.
unfoldable mutual
  pub equal : Term → Term → Bool
  equal (const a) (const b) = if b then a else not a
  equal (bound a) (bound b) = Logic.equal a b
  equal (conj ts) (conj us) = equal_from_each ts us
  equal (disj ts) (disj us) = equal_from_each ts us
  equal _ _ = false

  pub equal_each : Terms → Terms → Bool
  equal_each no_terms no_terms = true
  equal_each (term t ts) (term u us) = equal t u && equal_each ts us
  equal_each _ _ = false

  pub equal_from : Term → Term → Bool
  equal_from (const a) (const b) = if a then b else not b
  equal_from (bound a) (bound b) = Logic.equal b a
  equal_from (conj ts) (conj us) = equal_each ts us
  equal_from (disj ts) (disj us) = equal_each ts us
  equal_from _ _ = false

  pub equal_from_each : Terms → Terms → Bool
  equal_from_each no_terms no_terms = true
  equal_from_each (term t ts) (term u us) = equal_from t u && equal_from_each ts us
  equal_from_each _ _ = false

-- The terms of `Disj::bound_disj`, cast to bounds without a test: `none` where one is none.
unfoldable pub cast_each : List Term → Option (List Bound)
cast_each [] = some []
cast_each (bound b ∷ ts) = do bs ← cast_each ts; some (b ∷ bs)
cast_each (_ ∷ ts) = none

-- `bound_disj`: `none` is a cast to a bound of what is none.
unfoldable pub bound_disj : Term → Option (Result (List Bound))
unfolding cast_each list_of
bound_disj (const b) = some (ok (nil_bound ∷ []))
bound_disj (bound b) = some (ok (b ∷ []))
bound_disj (conj ts) = some (fail std_error)
bound_disj (disj ts) = do bs ← cast_each (list_of ts); some (ok bs)

-- `bounds`
unfoldable mutual
  pub bounds : Term → Bound
  bounds (const b) = Logic.const_bounds b
  bounds (bound b) = b
  bounds (conj ts) = conj_bounds Logic.complete_bound (bounds_each ts)
  bounds (disj ts) = disj_bounds nil_bound (bounds_each ts)

  pub bounds_each : Terms → List Bound
  bounds_each no_terms = []
  bounds_each (term t ts) = bounds t ∷ bounds_each ts
