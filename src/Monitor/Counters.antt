-- ===== src/Monitor/Counters.antt =====
-- The counters of `Monitor`: `nConc` against the threads whose last event is a call.
use li_mo.Base.{
  ℕ, ◌+◌, ◌<◌, ◌≤◌, ◌≡◌, sym, true, false, some, List, [], ◌∷◌, arith, if◌then◌else◌, ltb, All,
  All-mono, Pairs, Bool-cases, inl, inr, find, assign, nat_key, ok, subst,
}
use li_mo.Event.{EType, Event}
use li_mo.Monitor.{Handlers, Monitor, is_return, is_crash, key_of, add_conc, rem_conc, add_event}
use li_mo.Monitor.Dispatch.{
  Accepted, returned, called, after_return, after_call, add_event-Accepted,
}

-- The threads that are in a call.
unfoldable pub in_call : List (ℕ × EType) → ℕ
in_call [] = 0
in_call (c ∷ m) = let rest = in_call m in if is_return c.1 then rest else rest + 1

abbrev pub InKeyOrder : List (ℕ × EType) → Type 0
InKeyOrder = Pairs λ c d. c.0 < d.0

All-assign_key :
    (P : ℕ → Type 0) (k : ℕ) (t : EType) (m : List (ℕ × EType))
    → P k
    → All (λ c. P c.0) m
    → All (λ c. P c.0) (assign k t m)
unfolding assign
All-assign_key P k t [] p h = (p, tt)
All-assign_key P k t ((j, s) ∷ m) p h =
    elim (ltb k j)
      as (λ b.
        All (λ c. P c.0)
          (elim b [
            | true ↦ (k, t) ∷ (j, s) ∷ m
            | false ↦ elim (ltb j k) [ true ↦ (j, s) ∷ assign k t m | false ↦ (k, t) ∷ m ]
          ])) [
            | true ↦ (p, h)
            | false ↦
                elim (ltb j k)
                  as (λ b.
                    All (λ c. P c.0)
                      (elim b [ true ↦ (j, s) ∷ assign k t m | false ↦ (k, t) ∷ m ])) [
                        | true ↦ (h.0, All-assign_key P k t m p h.1)
                        | false ↦ (p, h.1)
                      ]
          ]

assign-InKeyOrder :
    (k : ℕ) (t : EType) (m : List (ℕ × EType)) → InKeyOrder m → InKeyOrder (assign k t m)
unfolding assign
assign-InKeyOrder k t [] o = (tt, tt)
assign-InKeyOrder k t ((j, s) ∷ m) o = elim (Bool-cases (ltb k j)) [
  | inl a ↦ rw (a, assign) ((first a, All-mono m (λ c l. trans a l) o.0), o)
  | inr a ↦ elim (Bool-cases (ltb j k)) [
    | inl b ↦
        rw (a, b, assign)
          (All-assign_key (λ i. j < i) k t m (next b) o.0, assign-InKeyOrder k t m o.1)
    | inr b ↦ rw (a, b, assign) (All-mono m (λ c l. equal a b l) o.0, o.1)
  ]
]
  where
    first : ltb k j ≡ true → k < j
    first a = ground arith

    next : ltb j k ≡ true → j < k
    next b = ground arith

    trans : ltb k j ≡ true → {i : ℕ} → j < i → k < i
    trans a l = ground arith

    equal : ltb k j ≡ false → ltb j k ≡ false → {i : ℕ} → j < i → k < i
    equal a b l = ground arith

in_call-assign-le :
    (k : ℕ) (t : EType) (m : List (ℕ × EType)) → in_call (assign k t m) ≤ in_call m + 1
unfolding in_call assign
in_call-assign-le k t [] = ground arith
in_call-assign-le k t (c ∷ m) = ground (arith, in_call-assign-le k t m)

-- A key before all keys is not found.
not_found :
    (k : ℕ) (t : EType) (m : List (ℕ × EType)) → All (λ c. k < c.0) m → find k m ≡ some t → ⊥
unfolding find
not_found k t [] h e = ground arith
not_found k t (c ∷ m) h e = ground (arith, not_found k t m)

in_call-assign-return :
    (k : ℕ) (t : EType) (m : List (ℕ × EType))
    → InKeyOrder m
    → find k m ≡ some t
    → is_return t ≡ false
    → in_call (assign k EType.return m) + 1 ≡ in_call m
unfolding in_call assign find
in_call-assign-return k t [] o e r = ground arith
in_call-assign-return k t ((j, s) ∷ m) o e r = elim (Bool-cases (ltb k j)) [
  | inl a ↦ absurd (not_found k t m (All-mono m (λ c l. trans a l) o.0) (next a))
  | inr a ↦ behind a (in_call-assign-return k t m o.1)
]
  where
    trans : ltb k j ≡ true → {i : ℕ} → j < i → k < i
    trans a l = ground arith

    next : ltb k j ≡ true → find k m ≡ some t
    next a = ground arith

    behind :
        ltb k j ≡ false
        → (find k m ≡ some t
            → is_return t ≡ false
            → in_call (assign k EType.return m) + 1 ≡ in_call m)
        → in_call (assign k EType.return ((j, s) ∷ m)) + 1 ≡ in_call ((j, s) ∷ m)
    behind a ih = ground arith

-- The threads are in the order of the map, those in a call are no more than `nConc`, and `nConc`
-- has not been above `maxConc`.
pub record IsCounted {S : Type 0} (m : Monitor S) : Type 0 where
  pub key_order : InKeyOrder m.last_evt
  pub in_calls : in_call m.last_evt ≤ m.n_conc
  pub at_most : m.n_conc ≤ m.max_conc

-- A step down for a return and up for a call.
abbrev pub Steps : {S : Type 0} → Event → Monitor S → Monitor S → Type 0
Steps e m m' =
    m'.n_conc + (if is_return e.etype then 1 else 0)
    ≡ m.n_conc + (if is_return e.etype then 0 else 1)

module _ {S : Type 0} (hs : Handlers S) (e : Event) where
  returned-IsCounted :
      (m : Monitor S) (t : EType) (s : S)
      → is_return e.etype ≡ true
      → find (key_of e) m.last_evt ≡ some t
      → is_return t ≡ false
      → IsCounted m
      → IsCounted (after_return e m s) × Steps e m (after_return e m s)
  unfolding rem_conc
  returned-IsCounted m t s a f r c =
      let n = rw (sym (is_ret e.etype a)) at less in
      (
        record {
          key_order = assign-InKeyOrder (key_of e) e.etype m.last_evt c.key_order;
          in_calls = omega (arith, n, c.in_calls);
          at_most = omega (arith, c.at_most);
        },
        rw a (omega (arith, n, c.in_calls)),
      )
    where
      less : in_call (assign (key_of e) EType.return m.last_evt) + 1 ≡ in_call m.last_evt
      less = in_call-assign-return (key_of e) t m.last_evt c.key_order f r

      is_ret : (u : EType) → is_return u ≡ true → u ≡ EType.return
      is_ret u h = ground arith

  called-IsCounted :
      (m : Monitor S) (s : S)
      → is_return e.etype ≡ false
      → IsCounted m
      → IsCounted (after_call e m s) × Steps e m (after_call e m s)
  unfolding add_conc
  called-IsCounted m s a c = (
    record {
      key_order = assign-InKeyOrder (key_of e) e.etype calls order;
      in_calls = omega (arith, in_call-assign-le (key_of e) e.etype calls, fewer);
      at_most = ground arith;
    },
    rw a (omega arith),
  )
    where
      calls : List (ℕ × EType)
      calls = if is_crash e.etype then [] else m.last_evt

      order : InKeyOrder calls
      order = elim (is_crash e.etype) as (λ b. InKeyOrder (if b then [] else m.last_evt)) [
        | true ↦ tt
        | false ↦ c.key_order
      ]

      fewer : in_call calls ≤ m.n_conc
      fewer = elim (is_crash e.etype) as (λ b. in_call (if b then [] else m.last_evt) ≤ m.n_conc) [
        | true ↦ unfold in_call in omega arith
        | false ↦ c.in_calls
      ]

  counted : (m m' : Monitor S) → IsCounted m → Accepted hs e m m' → IsCounted m' × Steps e m m'
  counted m m' c (returned t s a f q d w) =
      subst (λ z. IsCounted z × Steps e m z) w (returned-IsCounted m t s a f q c)
  counted m m' c (called s a q d w) =
      subst (λ z. IsCounted z × Steps e m z) w (called-IsCounted m s a c)

  -- From counters that are right, every event that the monitor accepts leads to counters that are
  -- right, and `nConc` goes down by one for a return and up by one for any other event: it is
  -- never below 1 when a return is counted.
  pub add_event-IsCounted :
      (m m' : Monitor S) → IsCounted m → add_event hs m e ≡ ok m' → IsCounted m' × Steps e m m'
  add_event-IsCounted m m' c r = counted m m' c (add_event-Accepted hs e m m' r)
