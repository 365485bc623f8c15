-- ===== src/Generator/Possible.antt =====
-- Which values can have the next event, and that `possible_indices` finds them.
use li_mo.Base.{
  ℕ, zero, suc, ◌+◌, ◌<◌, ◌≤◌, ◌≡◌, ◌≢◌, ◌⊎◌, inl, inr, refl, sym, ap, ◌∙◌, subst, Bool, true,
  false, ◌&&◌, some, List, [], ◌∷◌, if◌then◌else◌, ltb, ◌==◌, length, get_elem?, arith, Any, here,
  there, Bool-cases, nothing, some_inj,
}
use li_mo.Generator.{
  State, all_zero, running, concurrency, indices, earliest_add, insert, insert_all, pop_calls,
  possible_indices,
}

abbrev pub In : ℕ → List ℕ → Type 0
In i is = Any (λ j. i ≡ j) is

-- The next event can be one of the value: an operation of it runs, or one can be called without more
-- than `max_conc` of them running, which is its pop, or its push if it is the first that was not
-- pushed.
abbrev pub Possible : State → ℕ → ℕ → Type 0
Possible state max_conc i =
    (s : ℕ) × (get_elem? state i ≡ some s)
    × ((running s ≡ true)
        ⊎ ((concurrency state < max_conc)
            × ((s ≡ 2) ⊎ ((s ≡ 4) × ((j : ℕ) → j < i → get_elem? state j ≢ some 4)))))

abbrev At : (ℕ → Bool) → State → ℕ → Type 0
At p state k = (s : ℕ) × (get_elem? state k ≡ some s) × (p s ≡ true)

indices-At :
    (p : ℕ → Bool) (base i : ℕ) (state : State)
    → In i (indices p base state)
    → (k : ℕ) × (i ≡ base + k) × At p state k
unfolding indices get_elem?
indices-At p base i [] a = elim a [ ]
indices-At p base i (s ∷ ss) a = elim (Bool-cases (p s)) [
  | inl e ↦
      at_head e (λ b. later (indices-At p (suc base) i ss b))
        (subst (In i)
          (ap (λ b. if b then base ∷ indices p (suc base) ss else indices p (suc base) ss) e) a)
  | inr e ↦ later (
      indices-At p (suc base) i ss (
        subst (In i)
          (ap (λ b. if b then base ∷ indices p (suc base) ss else indices p (suc base) ss) e) a))
]
  where
    later : ((k : ℕ) × (i ≡ suc base + k) × At p ss k) → (k : ℕ) × (i ≡ base + k) × At p (s ∷ ss) k
    later r = (suc r.0, omega (arith, r.1), r.2)

    at_head :
        p s ≡ true
        → (In i (indices p (suc base) ss) → (k : ℕ) × (i ≡ base + k) × At p (s ∷ ss) k)
        → In i (base ∷ indices p (suc base) ss)
        → (k : ℕ) × (i ≡ base + k) × At p (s ∷ ss) k
    at_head e f (here q) = (0, omega (arith, q), (s, refl, e))
    at_head e f (there b) = f b

indices_has :
    (p : ℕ → Bool) (base k : ℕ) (state : State)
    → At p state k
    → In (base + k) (indices p base state)
unfolding indices get_elem?
indices_has p base k [] a = absurd (nothing a.1)
indices_has p base zero (s ∷ ss) a = rw (ap p (some_inj a.1) ∙ a.2) (here (omega arith))
indices_has p base (suc k) (s ∷ ss) a =
    let ih =
      subst (λ z. In z (indices p (suc base) ss)) (shift base k)
        (indices_has p (suc base) k ss a) in
    elim (Bool-cases (p s)) [ inl e ↦ rw (e, indices) (there ih) | inr e ↦ rw (e, indices) ih ]
  where
    shift : (base k : ℕ) → suc base + k ≡ base + suc k
    shift base k = omega arith

module _ (i j : ℕ) (js : List ℕ) where
  insert_front : ltb i j ≡ true → insert i (j ∷ js) ≡ i ∷ j ∷ js
  unfolding insert
  insert_front e = rw (e, insert) refl

  insert_behind : ltb i j ≡ false → ltb j i ≡ true → insert i (j ∷ js) ≡ j ∷ insert i js
  unfolding insert
  insert_behind e f = rw (e, insert, f) refl

  insert_same : ltb i j ≡ false → ltb j i ≡ false → insert i (j ∷ js) ≡ j ∷ js
  unfolding insert
  insert_same e f = rw (e, insert, f) refl

insert-In : (i j : ℕ) (js : List ℕ) → In i (insert j js) → (i ≡ j) ⊎ In i js
unfolding insert
insert-In i j [] (here e) = inl e
insert-In i j [] (there a) = elim a [ ]
insert-In i j (k ∷ js) a = elim (Bool-cases (ltb j k)) [
  | inl e ↦ front (subst (In i) (insert_front j k js e) a)
  | inr e ↦ elim (Bool-cases (ltb k j)) [
    | inl f ↦ behind (λ b. insert-In i j js b) (subst (In i) (insert_behind j k js e f) a)
    | inr f ↦ inr (subst (In i) (insert_same j k js e f) a)
  ]
]
  where
    front : In i (j ∷ k ∷ js) → (i ≡ j) ⊎ In i (k ∷ js)
    front (here e) = inl e
    front (there b) = inr b

    behind :
        (In i (insert j js) → (i ≡ j) ⊎ In i js) → In i (k ∷ insert j js) → (i ≡ j) ⊎ In i (k ∷ js)
    behind f (here e) = inr (here e)
    behind f (there b) = elim (f b) [ inl e ↦ inl e | inr c ↦ inr (there c) ]

insert_has : (i j : ℕ) (js : List ℕ) → (i ≡ j) ⊎ In i js → In i (insert j js)
unfolding insert
insert_has i j [] (inl e) = here e
insert_has i j [] (inr a) = elim a [ ]
insert_has i j (k ∷ js) a = elim (Bool-cases (ltb j k)) [
  | inl e ↦ rw (insert_front j k js e) (elim a [ inl q ↦ here q | inr b ↦ there b ])
  | inr e ↦ elim (Bool-cases (ltb k j)) [
    | inl f ↦ rw (insert_behind j k js e f) (behind (λ b. insert_has i j js b) a)
    | inr f ↦ rw (insert_same j k js e f) (elim a [ inl q ↦ here (q ∙ same e f) | inr b ↦ b ])
  ]
]
  where
    same : ltb j k ≡ false → ltb k j ≡ false → j ≡ k
    same e f = ground arith

    behind :
        ((i ≡ j) ⊎ In i js → In i (insert j js)) → (i ≡ j) ⊎ In i (k ∷ js) → In i (k ∷ insert j js)
    behind f (inl q) = there (f (inl q))
    behind f (inr (here q)) = here q
    behind f (inr (there b)) = there (f (inr b))

insert_all-In : (i : ℕ) (is js : List ℕ) → In i (insert_all is js) → In i is ⊎ In i js
unfolding insert_all
insert_all-In i [] js a = inr a
insert_all-In i (k ∷ is) js a = elim (insert_all-In i is (insert k js) a) [
  | inl b ↦ inl (there b)
  | inr b ↦ elim (insert-In i k js b) [ inl e ↦ inl (here e) | inr c ↦ inr c ]
]

insert_all_has : (i : ℕ) (is js : List ℕ) → In i is ⊎ In i js → In i (insert_all is js)
unfolding insert_all
insert_all_has i [] js (inl a) = elim a [ ]
insert_all_has i [] js (inr a) = a
insert_all_has i (k ∷ is) js (inl (here e)) =
    insert_all_has i is (insert k js) (inr (insert_has i k js (inl e)))
insert_all_has i (k ∷ is) js (inl (there a)) = insert_all_has i is (insert k js) (inl a)
insert_all_has i (k ∷ is) js (inr a) =
    insert_all_has i is (insert k js) (inr (insert_has i k js (inr a)))

-- `earliest_add` is the first value that was not pushed.
pub earliest_at :
    (state : State)
    → earliest_add state < length state
    → (get_elem? state (earliest_add state) ≡ some 4)
      × ((j : ℕ) → j < earliest_add state → get_elem? state j ≢ some 4)
unfolding earliest_add get_elem?
earliest_at [] h = absurd (omega arith)
earliest_at (s ∷ ss) h = elim (Bool-cases (s == 4)) [
  | inl e ↦ rw (e, earliest_add) (four e, λ j k. absurd (omega (arith, k)))
  | inr e ↦ rw (e, earliest_add) (later e (earliest_at ss (shorter e h)))
]
  where
    four : (s == 4) ≡ true → some s ≡ some 4
    four e = ap some (ground arith)

    shorter :
        (s == 4) ≡ false → earliest_add (s ∷ ss) < length (s ∷ ss) → earliest_add ss < length ss
    shorter e h = ground arith

    later :
        (s == 4) ≡ false
        → (get_elem? ss (earliest_add ss) ≡ some 4)
          × ((j : ℕ) → j < earliest_add ss → get_elem? ss j ≢ some 4)
        → (get_elem? ss (earliest_add ss) ≡ some 4)
          × ((j : ℕ) → j < suc (earliest_add ss) → get_elem? (s ∷ ss) j ≢ some 4)
    later e (p, q) = (p, first)
      where
        first : (j : ℕ) → j < suc (earliest_add ss) → get_elem? (s ∷ ss) j ≢ some 4
        first zero h f = differ (some_inj f) e
          where
            differ : s ≡ 4 → (s == 4) ≡ false → ⊥
            differ g i = ground arith
        first (suc j) h f = q j (omega (arith, h)) f

pub earliest_found :
    (state : State) (k : ℕ)
    → get_elem? state k ≡ some 4
    → (earliest_add state < length state) × (earliest_add state ≤ k)
unfolding earliest_add get_elem?
earliest_found [] k e = absurd (nothing e)
earliest_found (s ∷ ss) zero e = rw (four (some_inj e), earliest_add) (omega arith, omega arith)
  where
    four : s ≡ 4 → (s == 4) ≡ true
    four g = ground arith
earliest_found (s ∷ ss) (suc k) e =
    let ih = earliest_found ss k e in
    elim (Bool-cases (s == 4)) [
      | inl f ↦ rw (f, earliest_add) (omega arith, omega arith)
      | inr f ↦ rw (f, earliest_add) (omega (arith, ih.0), omega (arith, ih.1))
    ]

-- The set of the returns and the pop calls.
abbrev with_pops : State → List ℕ
with_pops state = insert_all (pop_calls state) (indices running 0 state)

module _ (state : State) (max_conc : ℕ) where
  possible_zero : all_zero state ≡ true → possible_indices state max_conc ≡ []
  unfolding possible_indices
  possible_zero e = rw (e, possible_indices) refl

  possible_full :
      all_zero state ≡ false
      → ltb (concurrency state) max_conc ≡ false
      → possible_indices state max_conc ≡ indices running 0 state
  unfolding possible_indices
  possible_full e f = rw (e, possible_indices, f) refl

  possible_push :
      all_zero state ≡ false
      → ltb (concurrency state) max_conc ≡ true
      → ltb (earliest_add state) (length state) ≡ true
      → possible_indices state max_conc ≡ insert (earliest_add state) (with_pops state)
  unfolding possible_indices
  possible_push e f g = rw (e, possible_indices, f, g) refl

  possible_pops :
      all_zero state ≡ false
      → ltb (concurrency state) max_conc ≡ true
      → ltb (earliest_add state) (length state) ≡ false
      → possible_indices state max_conc ≡ with_pops state
  unfolding possible_indices
  possible_pops e f g = rw (e, possible_indices, f, g) refl

  from_returns : (i : ℕ) → In i (indices running 0 state) → Possible state max_conc i
  from_returns i a =
      let r = indices-At running 0 i state a in
      let g = subst (λ k. get_elem? state k ≡ some r.2.0) (omega (arith, r.1)) r.2.1 in
      (r.2.0, g, inl r.2.2)

  from_pops :
      (i : ℕ) → concurrency state < max_conc → In i (with_pops state) → Possible state max_conc i
  from_pops i h a = elim (insert_all-In i (pop_calls state) (indices running 0 state) a) [
    | inr b ↦ from_returns i b
    | inl b ↦
        let r = indices-At (λ s. s == 2) 0 i state b in
        (
          r.2.0,
          subst (λ k. get_elem? state k ≡ some r.2.0) (omega (arith, r.1)) r.2.1,
          inr (h, inl (two r.2.0 r.2.2)),
        )
  ]
    where
      two : (s : ℕ) → (s == 2) ≡ true → s ≡ 2
      two s e = ground arith

  from_push :
      (i : ℕ)
      → concurrency state < max_conc
      → earliest_add state < length state
      → In i (insert (earliest_add state) (with_pops state))
      → Possible state max_conc i
  from_push i h l a = elim (insert-In i (earliest_add state) (with_pops state) a) [
    | inr b ↦ from_pops i h b
    | inl e ↦
        let first = earliest_at state l in
        (
          4,
          ap (get_elem? state) e ∙ first.0,
          inr (h, inr (refl, λ j k. first.1 j (omega (arith, k, e)))),
        )
  ]

  pub possible_indices-Possible :
      (i : ℕ) → In i (possible_indices state max_conc) → Possible state max_conc i
  possible_indices-Possible i a = elim (Bool-cases (all_zero state)) [
    | inl e ↦ absurd (elim (subst (In i) (possible_zero e) a) [ ])
    | inr e ↦ elim (Bool-cases (ltb (concurrency state) max_conc)) [
      | inr f ↦ from_returns i (subst (In i) (possible_full e f) a)
      | inl f ↦ elim (Bool-cases (ltb (earliest_add state) (length state))) [
        | inl g ↦ from_push i (ground arith) (ground arith) (subst (In i) (possible_push e f g) a)
        | inr g ↦ from_pops i (ground arith) (subst (In i) (possible_pops e f g) a)
      ]
    ]
  ]

  all-In_returns :
      (i : ℕ) (s : ℕ)
      → get_elem? state i ≡ some s
      → running s ≡ true
      → In i (indices running 0 state)
  all-In_returns i s g r =
      subst (λ k. In k (indices running 0 state)) (omega arith)
        (indices_has running 0 i state (s, g, r))

  all-In_pops :
      (i : ℕ) (s : ℕ)
      → get_elem? state i ≡ some s
      → (running s ≡ true) ⊎ (s ≡ 2)
      → In i (with_pops state)
  all-In_pops i s g (inl r) =
      insert_all_has i (pop_calls state) (indices running 0 state) (inr (all-In_returns i s g r))
  all-In_pops i s g (inr r) = insert_all_has i (pop_calls state) (indices running 0 state) (
      inl (
        subst (λ k. In k (pop_calls state)) (omega arith)
          (indices_has (λ u. u == 2) 0 i state (s, g, (λ (z : s ≡ 2). two z) r))))
    where
      two : s ≡ 2 → (s == 2) ≡ true
      two z = ground arith

  pub zero_at : (st : State) (i s : ℕ) → all_zero st ≡ true → get_elem? st i ≡ some s → s ≡ 0
  unfolding all_zero get_elem?
  zero_at [] i s h g = absurd (nothing g)
  zero_at (u ∷ st) zero s h g = sym (some_inj g) ∙ head u (all_zero st) h
    where
      head : (u : ℕ) (b : Bool) → ((u == 0) && b) ≡ true → u ≡ 0
      head u b e = ground arith
  zero_at (u ∷ st) (suc i) s h g = zero_at st i s (tail u (all_zero st) h) g
    where
      tail : (u : ℕ) (b : Bool) → ((u == 0) && b) ≡ true → b ≡ true
      tail u b e = ground arith

  earliest_is :
      (i : ℕ)
      → get_elem? state i ≡ some 4
      → ((j : ℕ) → j < i → get_elem? state j ≢ some 4)
      → (i ≡ earliest_add state) × (earliest_add state < length state)
  earliest_is i g first =
      let found = earliest_found state i g in
      let at = earliest_at state found.0 in
      elim (Bool-cases (ltb (earliest_add state) i)) [
        | inl e ↦ absurd (first (earliest_add state) (ground arith) at.0)
        | inr e ↦ (ground (arith, found.1), found.0)
      ]

  pub Possible-possible_indices :
      (i : ℕ) → Possible state max_conc i → In i (possible_indices state max_conc)
  Possible-possible_indices i p = elim (Bool-cases (all_zero state)) [
    | inl e ↦ absurd (not_zero p.0 (zero_at state i p.0 e p.1) p.2)
    | inr e ↦ elim (Bool-cases (ltb (concurrency state) max_conc)) [
      | inr f ↦
          rw (possible_full e f)
            (elim p.2 [ inl r ↦ all-In_returns i p.0 p.1 r | inr r ↦ absurd (full f r.0) ])
      | inl f ↦ elim (Bool-cases (ltb (earliest_add state) (length state))) [
        | inl g ↦
            rw (possible_push e f g)
              (insert_has i (earliest_add state) (with_pops state) (in_push p.2))
        | inr g ↦ rw (possible_pops e f g) (in_pops g p.2)
      ]
    ]
  ]
    where
      not_zero :
          (s : ℕ)
          → s ≡ 0
          → ((running s ≡ true)
              ⊎ ((concurrency state < max_conc)
                  × ((s ≡ 2) ⊎ ((s ≡ 4) × ((j : ℕ) → j < i → get_elem? state j ≢ some 4)))))
          → ⊥
      not_zero s z (inl r) = ground arith
      not_zero s z (inr (l, inl r)) = omega (arith, z, r)
      not_zero s z (inr (l, inr r)) = omega (arith, z, r.0)

      full : ltb (concurrency state) max_conc ≡ false → concurrency state < max_conc → ⊥
      full f l = ground arith

      in_push :
          ((running p.0 ≡ true)
            ⊎ ((concurrency state < max_conc)
                × ((p.0 ≡ 2) ⊎ ((p.0 ≡ 4) × ((j : ℕ) → j < i → get_elem? state j ≢ some 4)))))
          → (i ≡ earliest_add state) ⊎ In i (with_pops state)
      in_push (inl r) = inr (all-In_pops i p.0 p.1 (inl r))
      in_push (inr (l, inl r)) = inr (all-In_pops i p.0 p.1 (inr r))
      in_push (inr (l, inr r)) = inl (earliest_is i (p.1 ∙ ap some r.0) r.1).0

      in_pops :
          ltb (earliest_add state) (length state) ≡ false
          → ((running p.0 ≡ true)
              ⊎ ((concurrency state < max_conc)
                  × ((p.0 ≡ 2) ⊎ ((p.0 ≡ 4) × ((j : ℕ) → j < i → get_elem? state j ≢ some 4)))))
          → In i (with_pops state)
      in_pops g (inl r) = all-In_pops i p.0 p.1 (inl r)
      in_pops g (inr (l, inl r)) = all-In_pops i p.0 p.1 (inr r)
      in_pops g (inr (l, inr r)) = absurd (beyond g (earliest_is i (p.1 ∙ ap some r.0) r.1).1)
        where
          beyond :
              ltb (earliest_add state) (length state) ≡ false
              → earliest_add state < length state
              → ⊥
          beyond f h = ground arith
