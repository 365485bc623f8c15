-- ===== src/Generator/Script.antt =====
-- What the events of a complete run are: those of each thread in their order, and never more operations
-- at once than allowed.
use native.Mathlib.Nat.{suc-mul}
use li_mo.Base.{
  ℕ, zero, suc, ◌+◌, ◌-◌, ◌*◌, ◌<◌, ◌≤◌, ◌≡◌, ◌≢◌, ◌⊎◌, inl, inr, refl, sym, ap, ◌∙◌, subst, Bool,
  true, false, ◌&&◌, ◌||◌, none, some, List, [], ◌∷◌, map, filter, filter_keep, filter_drop,
  if◌then◌else◌, ◌==◌, length, get_elem?, set_elem, get_elem?-set_elem, get_elem?-set_elem_other,
  get_elem?_bound, get_elem?-replicate, arith, Bool-cases, same_or_not, nothing, some_inj,
  replicate,
}
use li_mo.Base.Run.{Ends}
use li_mo.Event.{EType, push, pop}
use li_mo.Event
use li_mo.Generator.{
  EvT, evt, State, all_zero, running, concurrency, decrement, events_from, make_history,
  create_single, initial, gen_histories,
}
use li_mo.Generator.Possible.{Possible, zero_at}
use li_mo.Generator.Runs.{
  Yields, Complete, done, next, total, total-decrement, decrement_at, positive,
}
use li_mo.Generator.Enumerate.{IsState, gen_single-Complete, gen_histories-Complete}

-- The events that a value has left.
abbrev pub script : ℕ → List EType
script zero = []
script (suc zero) = Event.return ∷ []
script (suc (suc zero)) = pop ∷ Event.return ∷ []
script (suc (suc (suc zero))) = Event.return ∷ pop ∷ Event.return ∷ []
script (suc (suc (suc (suc s)))) = push ∷ Event.return ∷ pop ∷ Event.return ∷ []

-- The events of one thread.
abbrev pub of_thread : ℕ → List EvT → List EType
of_thread i out = map (λ e. e.t) (filter (λ e. e.th == i) out)

th-evt : (i s : ℕ) → (evt i s).th ≡ i
th-evt i s = elim (Bool-cases (s == 4)) [
  | inl e ↦ rw e refl
  | inr e ↦ elim (Bool-cases ((s == 3) || (s == 1))) [
    | inl f ↦ rw (e, f) refl
    | inr f ↦ elim (Bool-cases (s == 2)) [ inl g ↦ rw (e, f, g) refl | inr g ↦ rw (e, f, g) refl ]
  ]
]

script-evt : (i s : ℕ) → 1 ≤ s → s ≤ 4 → script s ≡ (evt i s).t ∷ script (s - 1)
script-evt i zero h l = absurd (omega (arith, h))
script-evt i (suc zero) h l = refl
script-evt i (suc (suc zero)) h l = refl
script-evt i (suc (suc (suc zero))) h l = refl
script-evt i (suc (suc (suc (suc zero)))) h l = refl
script-evt i (suc (suc (suc (suc (suc s))))) h l = absurd (omega (arith, l))

thread_own :
    (i k : ℕ) (e : EvT) (out : List EvT)
    → e.th ≡ i
    → i ≡ k
    → of_thread k (e ∷ out) ≡ e.t ∷ of_thread k out
thread_own i k e out h q = ap (map (λ e. e.t)) (filter_keep (λ e. e.th == k) e out same_thread)
  where
    same_thread : (e.th == k) ≡ true
    same_thread = ground arith

thread_other :
    (i k : ℕ) (e : EvT) (out : List EvT)
    → e.th ≡ i
    → i ≢ k
    → of_thread k (e ∷ out) ≡ of_thread k out
thread_other i k e out h n =
    ap (map (λ e. e.t)) (filter_drop (λ e. e.th == k) e out (no (same_or_not e.th k)))
  where
    no : (e.th ≡ k) ⊎ (e.th ≢ k) → (e.th == k) ≡ false
    no (inl q) = absurd (n (sym h ∙ q))
    no (inr q) = elim (Bool-cases (e.th == k)) [ inl f ↦ absurd (q (ground arith)) | inr f ↦ f ]

decrement_own :
    (state : State) (i s : ℕ)
    → get_elem? state i ≡ some s
    → get_elem? (decrement state i) i ≡ some (s - 1)
decrement_own state i s e =
    rw (decrement_at state i s e) (get_elem?-set_elem state i (s - 1) (get_elem?_bound state i s e))

decrement_other :
    (state : State) (i k s : ℕ)
    → get_elem? state i ≡ some s
    → i ≢ k
    → get_elem? (decrement state i) k ≡ get_elem? state k
decrement_other state i k s e n =
    rw (decrement_at state i s e) (get_elem?-set_elem_other state i k (s - 1) n)

-- The events of a complete run: each thread has the events that its value had left, in their order.
record Scripted (state : State) (h : List ℕ) : Type 0 where
  out : List EvT
  runs : events_from (length h) h state ≡ some out
  threads : (k s : ℕ) → get_elem? state k ≡ some s → s ≤ 4 → of_thread k out ≡ script s

all_zero-total : (state : State) → all_zero state ≡ true → total state ≡ 0
unfolding all_zero
all_zero-total [] e = refl
all_zero-total (s ∷ state) e =
    let r = both s (all_zero state) e in omega (arith, r.0, all_zero-total state r.1)
  where
    both : (s : ℕ) (b : Bool) → ((s == 0) && b) ≡ true → (s ≡ 0) × (b ≡ true)
    both s b e = ground arith

at_most_one : (b : Bool) → (if b then 1 else 0) ≤ 1
at_most_one b = ground arith

not_running : (s : ℕ) → running s ≡ true → running (s - 1) ≡ false
not_running s h = ground arith

module _ (max_conc : ℕ) where
  Complete-Scripted : (state : State) (h : List ℕ) → Complete max_conc state h → Scripted state h
  unfolding events_from filter
  Complete-Scripted state [] (done e) = record {
    out = [];
    runs = refl;
    threads = λ k s g l. sym (ap script (zero_at state max_conc state k s e g));
  }
  Complete-Scripted state (i ∷ rest) (next p c) =
      let ih = Complete-Scripted (decrement state i) rest c in
      record {
        out = evt i p.0 ∷ ih.out;
        runs = rw (p.1, events_from, ih.runs) refl;
        threads = λ k s g l. elim (same_or_not i k) [
          | inl q ↦
              let same = some_inj (sym p.1 ∙ ap (get_elem? state) q ∙ g) in
              thread_own i k (evt i p.0) ih.out (th-evt i p.0) q
              ∙ ap (λ z. (evt i p.0).t ∷ z)
                  (ih.threads k (p.0 - 1)
                    (subst (λ z. get_elem? (decrement state i) z ≡ some (p.0 - 1)) q
                      (decrement_own state i p.0 p.1))
                    (omega (arith, l, same)))
              ∙ sym (script-evt i p.0 (positive state max_conc i p) (omega (arith, l, same)))
              ∙ ap script same
          | inr n ↦
              thread_other i k (evt i p.0) ih.out (th-evt i p.0) n
              ∙ ih.threads k s (decrement_other state i k p.0 p.1 n ∙ g) l
        ];
      }

  Complete-length :
      (state : State) (h : List ℕ) → Complete max_conc state h → length h ≡ total state
  Complete-length state [] (done e) = sym (all_zero-total state e)
  Complete-length state (i ∷ rest) (next p c) =
      ap suc (Complete-length (decrement state i) rest c) ∙ total-decrement state max_conc i p

  -- The states that a run goes through have no more operations at once than allowed.
  abbrev pub Within : State → List ℕ → Type 0
  Within state [] = concurrency state ≤ max_conc
  Within state (i ∷ rest) = (concurrency state ≤ max_conc) × Within (decrement state i) rest

  concurrency-set_elem :
      (state : State) (i s v : ℕ)
      → get_elem? state i ≡ some s
      → concurrency (set_elem state i v) + (if running s then 1 else 0)
        ≡ concurrency state + (if running v then 1 else 0)
  unfolding get_elem? set_elem concurrency
  concurrency-set_elem [] i s v e = absurd (nothing e)
  concurrency-set_elem (u ∷ state) zero s v e =
      rw (some_inj e)
        (swap (if running v then 1 else 0) (if running s then 1 else 0) (concurrency state))
    where
      swap : (a b c : ℕ) → a + c + b ≡ b + c + a
      swap a b c = omega arith
  concurrency-set_elem (u ∷ state) (suc i) s v e = omega (arith, concurrency-set_elem state i s v e)

  concurrency-decrement :
      (state : State) (i : ℕ)
      → concurrency state ≤ max_conc
      → Possible state max_conc i
      → concurrency (decrement state i) ≤ max_conc
  concurrency-decrement state i l p = rw (decrement_at state i p.0 p.1) (
      bound p.0 (concurrency (set_elem state i (p.0 - 1))) p.2
        (concurrency-set_elem state i p.0 (p.0 - 1) p.1))
    where
      bound :
          (s c : ℕ)
          → ((running s ≡ true)
              ⊎ ((concurrency state < max_conc)
                  × ((s ≡ 2) ⊎ ((s ≡ 4) × ((j : ℕ) → j < i → get_elem? state j ≢ some 4)))))
          → c + (if running s then 1 else 0)
            ≡ concurrency state + (if running (s - 1) then 1 else 0)
          → c ≤ max_conc
      bound s c (inl r) e = omega (
        arith,
        l,
        subst (λ b. c + (if running s then 1 else 0) ≡ concurrency state + (if b then 1 else 0))
            (not_running s r) e,
      )
      bound s c (inr (h, q)) e = omega (arith, h, e, at_most_one (running (s - 1)))

  pub Complete-Within :
      (state : State) (h : List ℕ)
      → concurrency state ≤ max_conc
      → Complete max_conc state h
      → Within state h
  Complete-Within state [] l (done e) = l
  Complete-Within state (i ∷ rest) l (next p c) =
      (l, Complete-Within (decrement state i) rest (concurrency-decrement state i l p) c)

total-replicate : (n s : ℕ) → total (replicate n s) ≡ n * s
unfolding replicate
total-replicate zero s = omega arith
total-replicate (suc n) s = omega (arith, total-replicate n s, suc-mul n s)

replicate-IsState : (n : ℕ) → IsState (replicate n 4)
unfolding replicate
replicate-IsState zero = tt
replicate-IsState (suc n) = (omega arith, replicate-IsState n)

-- The events that `create_single` draws for a number of values, with at least one operation at once and
-- draws below the number of choices, make a history: it returns, `make_history` reads no event and no
-- state out of range, and in the history each thread pushes, returns, pops and returns.
pub create_single-make_history :
    (size max_threads : ℕ) (rand : ℕ → ℕ → ℕ)
    → ((k n : ℕ) → 0 < n → rand k n < n)
    → 1 ≤ max_threads
    → Ends (create_single size max_threads rand) (λ h.
      (out : List EvT) × (make_history size h ≡ some out)
      × ((k : ℕ) → k < size → of_thread k out ≡ script 4))
unfolding create_single make_history
create_single-make_history size max_threads rand r m =
    let run =
      gen_single-Complete (suc (size * 4)) rand 0 (initial size) max_threads []
        (omega (arith, total-replicate size 4)) r m (replicate-IsState size) in
    let c = subst (Complete max_threads (initial size)) (sym run.2.1) run.2.2 in
    let s = Complete-Scripted max_threads (initial size) run.0 c in
    (
      run.0,
      run.1,
      (
        s.out,
        subst (λ n. events_from n run.0 (initial size) ≡ some s.out)
            (Complete-length max_threads (initial size) run.0 c ∙ total-replicate size 4) s.runs,
        λ k l. s.threads k 4 (get_elem?-replicate size k 4 l) (omega arith),
      ),
    )

concurrency-replicate : (n : ℕ) → concurrency (replicate n 4) ≡ 0
unfolding replicate concurrency
concurrency-replicate zero = refl
concurrency-replicate (suc n) = omega (arith, concurrency-replicate n)

-- In each history that `gen_histories` yields for a number of values, no more operations run at once
-- than allowed, after any number of its events.
pub gen_histories-Within :
    (max_conc fuel size : ℕ) (h : List ℕ)
    → size * 4 ≤ fuel
    → Yields h (gen_histories fuel (initial size) max_conc none [])
    → Within max_conc (initial size) h
gen_histories-Within max_conc fuel size h l y =
    Complete-Within max_conc (initial size) h (omega (arith, concurrency-replicate size)) (
      (gen_histories-Complete max_conc fuel (initial size) h
          (omega (arith, l, total-replicate size 4))).0
        y)
