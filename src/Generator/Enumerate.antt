-- ===== src/Generator/Enumerate.antt =====
-- `gen_histories` yields the complete runs and no others, and `gen_single` ends in one of them.
use li_mo.Base.{
  ℕ, zero, suc, ◌-◌, ◌<◌, ◌≤◌, ◌≡◌, inl, inr, ◌↔◌, refl, sym, ap, ◌∙◌, subst, true, false, none,
  some, List, [], ◌∷◌, ◌++◌, ltb, ◌==◌, length, get_elem?, get_elem?-some, set_elem, arith, here,
  there, Bool-cases, List-cases, nothing, some_inj, All,
}
use mathlib.Core.List.{append_assoc, append-nil}
use li_mo.Base.Run.{Ends}
use li_mo.Generator.{
  State, all_zero, running, concurrency, possible_indices, decrement, gen_each, gen_histories,
  gen_single, earliest_add,
}
use li_mo.Generator.Possible.{
  earliest_found, earliest_at, In, Possible, possible_indices-Possible, Possible-possible_indices,
  zero_at,
}
use li_mo.Generator.Runs.{
  Complete, done, next, total, total-decrement, positive, decrement_at, Yields, each-Yields,
  Yields-each,
}

Possible-not_zero :
    (state : State) (max_conc i : ℕ) → Possible state max_conc i → all_zero state ≡ true → ⊥
Possible-not_zero state max_conc i p e =
    omega (arith, positive state max_conc i p, zero_at state max_conc state i p.0 e p.1)

module _ (max_conc : ℕ) where
  gen_ends :
      (fuel : ℕ) (state : State)
      → all_zero state ≡ true
      → gen_histories fuel state max_conc none [] ≡ [] ∷ []
  unfolding gen_histories
  gen_ends zero state e = rw (e, gen_histories) refl
  gen_ends (suc fuel) state e = rw (e, gen_histories) refl

  gen_stops :
      (state : State) → all_zero state ≡ false → gen_histories zero state max_conc none [] ≡ []
  unfolding gen_histories
  gen_stops state e = rw (e, gen_histories) refl

  gen_goes :
      (fuel : ℕ) (state : State)
      → all_zero state ≡ false
      → gen_histories (suc fuel) state max_conc none []
        ≡ gen_each
            (λ i. gen_histories fuel (decrement state i) max_conc none [])
            []
            (possible_indices state max_conc)
  unfolding gen_histories
  gen_goes fuel state e = rw (e, gen_histories) refl

  only :
      (h : List ℕ) (state : State)
      → all_zero state ≡ true
      → Yields h ([] ∷ [])
      → Complete max_conc state h
  only h state e (here q) = subst (Complete max_conc state) (sym q) (done e)
  only h state e (there b) = elim b [ ]

  Yields-Complete :
      (fuel : ℕ) (state : State) (h : List ℕ)
      → Yields h (gen_histories fuel state max_conc none [])
      → Complete max_conc state h
  Yields-Complete zero state h a = elim (Bool-cases (all_zero state)) [
    | inl e ↦ only h state e (subst (Yields h) (gen_ends zero state e) a)
    | inr e ↦ absurd (elim (subst (Yields h) (gen_stops state e) a) [ ])
  ]
  Yields-Complete (suc fuel) state h a = elim (Bool-cases (all_zero state)) [
    | inl e ↦ only h state e (subst (Yields h) (gen_ends (suc fuel) state e) a)
    | inr e ↦
        let r =
          each-Yields (λ i. gen_histories fuel (decrement state i) max_conc none []) [] h
            (possible_indices state max_conc) (subst (Yields h) (gen_goes fuel state e) a) in
        subst (Complete max_conc state) (sym r.3) (
          next (possible_indices-Possible state max_conc r.0 r.2)
            (Yields-Complete fuel (decrement state r.0) r.1 r.4))
  ]

  Complete-Yields :
      (fuel : ℕ) (state : State) (h : List ℕ)
      → total state ≤ fuel
      → Complete max_conc state h
      → Yields h (gen_histories fuel state max_conc none [])
  Complete-Yields fuel state [] l (done e) = rw (gen_ends fuel state e) (here refl)
  Complete-Yields zero state (i ∷ rest) l (next p c) =
      absurd (omega (arith, l, total-decrement state max_conc i p))
  Complete-Yields (suc fuel) state (i ∷ rest) l (next p c) = elim (Bool-cases (all_zero state)) [
    | inl e ↦ absurd (Possible-not_zero state max_conc i p e)
    | inr e ↦ rw (gen_goes fuel state e) (
        Yields-each (λ j. gen_histories fuel (decrement state j) max_conc none []) [] i rest
          (possible_indices state max_conc) (Possible-possible_indices state max_conc i p)
          (Complete-Yields fuel (decrement state i) rest
            (omega (arith, l, total-decrement state max_conc i p)) c))
  ]

-- With as much fuel as events are left, `gen_histories` without a limit on the number of indices yields
-- a history exactly where the history is a complete run: each event is one that can come next, and no
-- value has an event left.
pub gen_histories-Complete :
    (max_conc fuel : ℕ) (state : State) (h : List ℕ)
    → total state ≤ fuel
    → Yields h (gen_histories fuel state max_conc none []) ↔ Complete max_conc state h
gen_histories-Complete max_conc fuel state h l =
    (Yields-Complete max_conc fuel state h, Complete-Yields max_conc fuel state h l)

-- What the values have left is at most the four events of a value.
abbrev pub IsState : State → Type 0
IsState = All (λ s. s ≤ 4)

-- Some value has an event left.
some_left :
    (state : State)
    → all_zero state ≡ false
    → (k : ℕ) × (s : ℕ) × (get_elem? state k ≡ some s) × (1 ≤ s)
unfolding all_zero get_elem?
some_left [] e = cc
some_left (zero ∷ ss) e = let r = some_left ss (ground arith) in (suc r.0, r.1, r.2, r.3)
some_left (suc s ∷ ss) e = (0, suc s, refl, omega arith)

some-running :
    (state : State)
    → 1 ≤ concurrency state
    → (k : ℕ) × (s : ℕ) × (get_elem? state k ≡ some s) × (running s ≡ true)
unfolding concurrency get_elem?
some-running [] h = absurd (omega arith)
some-running (s ∷ ss) h = elim (Bool-cases (running s)) [
  | inl e ↦ (0, s, refl, e)
  | inr e ↦ let r = some-running ss (fewer e) in (suc r.0, r.1, r.2, r.3)
]
  where
    fewer : running s ≡ false → 1 ≤ concurrency ss
    fewer e = ground (arith, h)

state_at : (state : State) (k s : ℕ) → IsState state → get_elem? state k ≡ some s → s ≤ 4
unfolding get_elem?
state_at [] k s h e = absurd (nothing e)
state_at (u ∷ state) zero s h e = omega (arith, h.0, some_inj e)
state_at (u ∷ state) (suc k) s h e = state_at state k s h.1 e

-- Where at least one operation may run, some event can come next until no value has any left.
pub Possible-unless-all_zero :
    (state : State) (max_conc : ℕ)
    → IsState state
    → 1 ≤ max_conc
    → all_zero state ≡ false
    → (i : ℕ) × Possible state max_conc i
Possible-unless-all_zero state max_conc w m e =
    elim (Bool-cases (ltb (concurrency state) max_conc)) [
      | inr f ↦ let r = some-running state (ground arith) in (r.0, (r.1, r.2, inl r.3))
      | inl f ↦
          let r = some_left state e in
          open_at (ground arith) r.0 r.1 r.2 r.3 (state_at state r.0 r.1 w r.2)
    ]
  where
    open_at :
        concurrency state < max_conc
        → (k s : ℕ) → get_elem? state k ≡ some s
        → 1 ≤ s
        → s ≤ 4
        → (i : ℕ) × Possible state max_conc i
    open_at l k s g h b = elim (Bool-cases (running s)) [
      | inl r ↦ (k, (s, g, inl r))
      | inr r ↦ elim (Bool-cases (s == 2)) [
        | inl q ↦ (k, (s, g, inr (l, inl (ground arith))))
        | inr q ↦
            let found = earliest_found state k (g ∙ ap some (four r q)) in
            let first = earliest_at state found.0 in
            (earliest_add state, (4, first.0, inr (l, inr (refl, first.1))))
      ]
    ]
      where
        four : running s ≡ false → (s == 2) ≡ false → s ≡ 4
        four r q = ground arith

set_elem-IsState : (state : State) (i v : ℕ) → v ≤ 4 → IsState state → IsState (set_elem state i v)
unfolding set_elem
set_elem-IsState [] i v l h = tt
set_elem-IsState (s ∷ state) zero v l h = (l, h.1)
set_elem-IsState (s ∷ state) (suc i) v l h = (h.0, set_elem-IsState state i v l h.1)

pub decrement-IsState :
    (state : State) (max_conc i : ℕ)
    → Possible state max_conc i
    → IsState state
    → IsState (decrement state i)
decrement-IsState state max_conc i p h =
    rw (decrement_at state i p.0 p.1)
      (set_elem-IsState state i (p.0 - 1) (omega (arith, state_at state i p.0 h p.1)) h)

get_elem?-In : (is : List ℕ) (k i : ℕ) → get_elem? is k ≡ some i → In i is
unfolding get_elem?
get_elem?-In [] k i e = absurd (nothing e)
get_elem?-In (j ∷ is) zero i e = here (sym (some_inj e))
get_elem?-In (j ∷ is) (suc k) i e = there (get_elem?-In is k i e)

-- `gen_single` with more fuel than events are left: where at least one operation may run, it returns a
-- complete run, behind what it was given, whatever number below the number of choices is drawn.
pub gen_single-Complete :
    (fuel : ℕ) (rand : ℕ → ℕ → ℕ) (round : ℕ) (state : State) (max_conc : ℕ) (prepend : List ℕ)
    → total state < fuel
    → ((k n : ℕ) → 0 < n → rand k n < n)
    → 1 ≤ max_conc
    → IsState state
    → Ends
        (gen_single fuel rand round state max_conc prepend)
        (λ h. (rest : List ℕ) × (h ≡ prepend ++ rest) × Complete max_conc state rest)
unfolding gen_single
gen_single-Complete zero rand round state max_conc prepend l r m w = absurd (omega (arith, l))
gen_single-Complete (suc fuel) rand round state max_conc prepend l r m w =
    elim (List-cases (possible_indices state max_conc)) [
      | inl e ↦
          rw (e, gen_single) (prepend, refl, ([], sym (append-nil prepend), done (all_done e)))
      | inr (i, is, e) ↦
          let drawn =
            get_elem?-some (i ∷ is) (rand round (length (i ∷ is)))
              (r round (length (i ∷ is)) (omega arith)) in
          let p = possible_indices-Possible state max_conc drawn.0 (
            subst (In drawn.0) (sym e)
              (get_elem?-In (i ∷ is) (rand round (length (i ∷ is))) drawn.0 drawn.1)) in
          let ih =
            gen_single-Complete fuel rand (suc round) (decrement state drawn.0) max_conc
              (prepend ++ drawn.0 ∷ []) (omega (arith, l, total-decrement state max_conc drawn.0 p))
              r m (decrement-IsState state max_conc drawn.0 p w) in
          rw (e, gen_single, drawn.1)
            (
              ih.0,
              ih.1,
              (
                drawn.0 ∷ ih.2.0,
                ih.2.1 ∙ append_assoc prepend (drawn.0 ∷ []) ih.2.0,
                next p ih.2.2,
              ),
            )
    ]
  where
    all_done : possible_indices state max_conc ≡ [] → all_zero state ≡ true
    all_done e = elim (Bool-cases (all_zero state)) [
      | inl f ↦ f
      | inr f ↦
          let p = Possible-unless-all_zero state max_conc w m f in
          absurd (elim (subst (In p.0) e (Possible-possible_indices state max_conc p.0 p.1)) [ ])
    ]
