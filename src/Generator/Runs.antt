-- ===== src/Generator/Runs.antt =====
-- The histories as runs of a step relation: `gen_histories` yields exactly the complete runs, and
-- `gen_single` one of them.
use li_mo.Base.{
  ℕ, zero, suc, ◌+◌, ◌-◌, ◌≤◌, ◌≡◌, ◌⊎◌, inl, inr, refl, ap, subst, true, some, List, [], ◌∷◌, ◌++◌,
  map, ◌==◌, get_elem?, set_elem, arith, Any, here, there, nothing, some_inj,
}
use li_mo.Generator.{State, all_zero, decrement, combine, gen_each}
use li_mo.Generator.Possible.{In, Possible}

-- A run of events until no value has any left.
pub data Complete (max_conc : ℕ) : State → List ℕ → Type 0 where
  done : {state : State} → all_zero state ≡ true → Complete max_conc state []
  next :
      {state : State} {i : ℕ} {rest : List ℕ}
      → Possible state max_conc i
      → Complete max_conc (decrement state i) rest
      → Complete max_conc state (i ∷ rest)

-- How many events are left.
abbrev pub total : State → ℕ
total [] = 0
total (s ∷ ss) = s + total ss

total-set_elem :
    (state : State) (i s v : ℕ)
    → get_elem? state i ≡ some s
    → total (set_elem state i v) + s ≡ total state + v
unfolding get_elem? set_elem
total-set_elem [] i s v e = absurd (nothing e)
total-set_elem (u ∷ state) zero s v e = omega (arith, some_inj e)
total-set_elem (u ∷ state) (suc i) s v e = omega (arith, total-set_elem state i s v e)

pub decrement_at :
    (state : State) (i s : ℕ)
    → get_elem? state i ≡ some s
    → decrement state i ≡ set_elem state i (s - 1)
unfolding decrement
decrement_at state i s e = rw (e, decrement) refl

pub positive : (state : State) (max_conc i : ℕ) → (p : Possible state max_conc i) → 1 ≤ p.0
positive state max_conc i (s, e, inl r) = ground arith
positive state max_conc i (s, e, inr (h, inl r)) = omega (arith, r)
positive state max_conc i (s, e, inr (h, inr r)) = omega (arith, r.0)

pub total-decrement :
    (state : State) (max_conc i : ℕ)
    → Possible state max_conc i
    → suc (total (decrement state i)) ≡ total state
total-decrement state max_conc i p =
    rw (decrement_at state i p.0 p.1)
      (omega (arith, total-set_elem state i p.0 (p.0 - 1) p.1, positive state max_conc i p))

pub total-all_zero : (state : State) → total state ≡ 0 → all_zero state ≡ true
unfolding all_zero
total-all_zero [] e = refl
total-all_zero (s ∷ ss) e = rw (zero_head, total-all_zero ss (omega (arith, e))) refl
  where
    zero_head : (s == 0) ≡ true
    zero_head = ground (arith, e)

abbrev pub Yields : List ℕ → List (List ℕ) → Type 0
Yields h hs = Any (λ g. h ≡ g) hs

Yields-append :
    (h : List ℕ) (xs ys : List (List ℕ)) → Yields h (xs ++ ys) → Yields h xs ⊎ Yields h ys
Yields-append h [] ys a = inr a
Yields-append h (x ∷ xs) ys (here e) = inl (here e)
Yields-append h (x ∷ xs) ys (there a) = elim (Yields-append h xs ys a) [
  | inl b ↦ inl (there b)
  | inr b ↦ inr b
]

Yields-left : (h : List ℕ) (xs ys : List (List ℕ)) → Yields h xs → Yields h (xs ++ ys)
Yields-left h [] ys a = elim a [ ]
Yields-left h (x ∷ xs) ys (here e) = here e
Yields-left h (x ∷ xs) ys (there a) = there (Yields-left h xs ys a)

Yields-right : (h : List ℕ) (xs ys : List (List ℕ)) → Yields h ys → Yields h (xs ++ ys)
Yields-right h [] ys a = a
Yields-right h (x ∷ xs) ys a = there (Yields-right h xs ys a)

Yields-map :
    (h pre : List ℕ) (i : ℕ) (hs : List (List ℕ))
    → Yields h (map (combine pre i) hs)
    → (g : List ℕ) × (h ≡ combine pre i g) × Yields g hs
Yields-map h pre i [] a = elim a [ ]
Yields-map h pre i (x ∷ hs) (here e) = (x, e, here refl)
Yields-map h pre i (x ∷ hs) (there a) = let r = Yields-map h pre i hs a in (r.0, r.1, there r.2)

map-Yields :
    (pre : List ℕ) (i : ℕ) (g : List ℕ) (hs : List (List ℕ))
    → Yields g hs
    → Yields (combine pre i g) (map (combine pre i) hs)
map-Yields pre i g [] a = elim a [ ]
map-Yields pre i g (x ∷ hs) (here e) = here (ap (combine pre i) e)
map-Yields pre i g (x ∷ hs) (there a) = there (map-Yields pre i g hs a)

-- What the loop over the indices yields.
pub each-Yields :
    (f : ℕ → List (List ℕ)) (pre h : List ℕ) (is : List ℕ)
    → Yields h (gen_each f pre is)
    → (i : ℕ) × (g : List ℕ) × In i is × (h ≡ combine pre i g) × Yields g (f i)
unfolding gen_each
each-Yields f pre h [] a = elim a [ ]
each-Yields f pre h (i ∷ is) a =
    elim (Yields-append h (map (combine pre i) (f i)) (gen_each f pre is) a) [
      | inl b ↦ let r = Yields-map h pre i (f i) b in (i, r.0, here refl, r.1, r.2)
      | inr b ↦ let r = each-Yields f pre h is b in (r.0, r.1, there r.2, r.3, r.4)
    ]

pub Yields-each :
    (f : ℕ → List (List ℕ)) (pre : List ℕ) (i : ℕ) (g : List ℕ) (is : List ℕ)
    → In i is
    → Yields g (f i)
    → Yields (combine pre i g) (gen_each f pre is)
unfolding gen_each
Yields-each f pre i g [] m a = elim m [ ]
Yields-each f pre i g (j ∷ is) (here e) a =
    Yields-left (combine pre i g) (map (combine pre j) (f j)) (gen_each f pre is) (
      subst (λ k. Yields (combine pre i g) (map (combine pre k) (f k))) e
        (map-Yields pre i g (f i) a))
Yields-each f pre i g (j ∷ is) (there m) a =
    Yields-right (combine pre i g) (map (combine pre j) (f j)) (gen_each f pre is)
      (Yields-each f pre i g is m a)
