-- ===== src/Builder/Replay.antt =====
-- What is built is a history of one operation at a time that a stack runs from empty to empty, and in
-- which no value is pushed twice.
use mathlib.Core.List.{append_assoc, append-nil}
use li_mo.Base.{
  ℕ, zero, suc, ◌+◌, ◌-◌, ◌*◌, ◌<◌, ◌≤◌, ◌≡◌, ◌≢◌, refl, sym, ap, ◌∙◌, Bool, true, false, ◌&&◌,
  Option, none, some, List, [], ◌∷◌, ◌++◌, if◌then◌else◌, ltb, ◌==◌, length, length-append, arith,
  All, All-mono, All-append, Pairs, Pairs-append, Bool-cases, inl, inr,
}
use li_mo.Base.Run.{Ends}
use li_mo.Event.{Val, val_eq, Event, EType, push, pop}
use li_mo.Event
use li_mo.Builder.{
  Component, empty, concat, enclose, size, build, Draws, build_history, generate_lin_hist,
}

-- The sequential stack on a history: `none` where an operation does not return before the next call, or
-- where a pop does not get the value that it says.
pub data Pending : Type 0 where
  idle : Pending
  called : ℕ → Pending

abbrev pop_top : Val → List Val → Option (List Val)
pop_top v [] = none
pop_top v (w ∷ s) = if val_eq w v then some s else none

abbrev step_call : EType → Option Val → List Val → Option (List Val)
step_call push (some v) s = some (v ∷ s)
step_call pop (some v) s = pop_top v s
step_call _ _ s = none

abbrev is_return : EType → Bool
is_return Event.return = true
is_return _ = false

unfoldable pub replay : List Event → Pending → List Val → Option (List Val)
replay [] idle s = some s
replay [] (called t) s = none
replay (e ∷ es) idle s = elim (step_call e.etype e.val s) [
  | none ↦ none
  | some r ↦ replay es (called e.thread) r
]
replay (e ∷ es) (called t) s =
    let rest = replay es idle s in if is_return e.etype && (e.thread == t) then rest else none

eq_self : (n : ℕ) → (n == n) ≡ true
eq_self n = ground arith

abbrev value_of : ℕ → Val
value_of n = record { thread = n; idx = 0 }

-- A call and its return.
replay_push :
    (n : ℕ) (es : List Event) (s : List Val)
    → replay
        (record { etype = push; thread = n; val = some (value_of n); timestamp = 0 }
          ∷ record { etype = Event.return; thread = n; val = none; timestamp = 0 }
          ∷ es)
        idle
        s
      ≡ replay es idle (value_of n ∷ s)
unfolding replay
replay_push n es s = rw (eq_self n) refl

replay_pop :
    (n : ℕ) (es : List Event) (s : List Val)
    → replay
        (record { etype = pop; thread = n; val = some (value_of n); timestamp = 0 }
          ∷ record { etype = Event.return; thread = n; val = none; timestamp = 0 }
          ∷ es)
        idle
        (value_of n ∷ s)
      ≡ replay es idle s
unfolding replay
replay_pop n es s = rw (eq_self n, replay, eq_self n) refl

-- What is built leaves the stack as it finds it.
replay-build :
    (c : Component) (offset : ℕ) (es : List Event) (s : List Val)
    → replay (build c offset ++ es) idle s ≡ replay es idle s
unfolding build
replay-build empty offset es s = refl
replay-build (concat u v) offset es s =
    ap (λ z. replay z idle s) (append_assoc (build u offset) (build v (size u + offset)) es)
    ∙ replay-build u offset (build v (size u + offset) ++ es) s
    ∙ replay-build v (size u + offset) es s
replay-build (enclose u) offset es s =
    replay_push offset _ s
    ∙ ap (λ z. replay z idle (value_of offset ∷ s)) (append_assoc (build u (offset + 1)) _ es)
    ∙ replay-build u (offset + 1) _ (value_of offset ∷ s)
    ∙ replay_pop offset es s

-- The values that are pushed.
abbrev pushed_by : EType → Option Val → List Val
pushed_by push (some v) = v ∷ []
pushed_by _ _ = []

unfoldable pub pushes : List Event → List Val
pushes [] = []
pushes (e ∷ es) = pushed_by e.etype e.val ++ pushes es

pushes-append : (es fs : List Event) → pushes (es ++ fs) ≡ pushes es ++ pushes fs
unfolding pushes
pushes-append [] fs = refl
pushes-append (e ∷ es) fs =
    ap (λ z. pushed_by e.etype e.val ++ z) (pushes-append es fs)
    ∙ sym (append_assoc (pushed_by e.etype e.val) (pushes es) (pushes fs))

abbrev Between : ℕ → ℕ → Val → Type 0
Between a b v = (a ≤ v.thread) × (v.thread < b)

-- The values that are pushed are as many as the size says, from the offset on, and distinct.
pushes-build :
    (c : Component) (offset : ℕ)
    → All (Between offset (offset + size c)) (pushes (build c offset))
      × Pairs (λ v w. v ≢ w) (pushes (build c offset))
unfolding build size pushes
pushes-build empty offset = (tt, tt)
pushes-build (concat u v) offset =
    let left = pushes-build u offset in
    let right = pushes-build v (size u + offset) in
    rw (pushes-append (build u offset) (build v (size u + offset))) (
      All-append _ (pushes (build u offset)) (pushes (build v (size u + offset)))
          (All-mono _ (λ w b. (b.0, omega (arith, b.1))) left.0)
          (All-mono _ (λ w b. (omega (arith, b.0), omega (arith, b.1))) right.0),
      Pairs-append _ (pushes (build u offset)) (pushes (build v (size u + offset))) left.1 right.1 (
          All-mono _
            (λ w b. All-mono _ (λ x d e. omega (arith, b.1, d.0, ap (λ z. z.thread) e)) right.0)
            left.0),
    )
pushes-build (enclose u) offset =
    let inner = pushes-build u (offset + 1) in
    rw (pushes-append (build u (offset + 1)) _, append-nil (pushes (build u (offset + 1))))
      (
        (
          (omega arith, omega arith),
          All-mono _ (λ w b. (omega (arith, b.0), omega (arith, b.1))) inner.0,
        ),
        (All-mono _ (λ w b e. omega (arith, b.0, ap (λ z. z.thread) e)) inner.0, inner.1),
      )

-- Four events for each value.
length-build : (c : Component) (offset : ℕ) → length (build c offset) ≡ size c * 4
unfolding build size
length-build empty offset = omega arith
length-build (concat u v) offset =
    length-append (build u offset) (build v (size u + offset))
    ∙ omega (arith, length-build u offset, length-build v (size u + offset))
length-build (enclose u) offset = omega (
  arith,
  length-append (build u (offset + 1)) (
      record { etype = pop; thread = offset; val = some (value_of offset); timestamp = 0 }
      ∷ record { etype = Event.return; thread = offset; val = none; timestamp = 0 }
      ∷ []),
  length-build u (offset + 1),
)

-- The draws of a split are in the range that is asked for.
abbrev pub InRange : Draws → Type 0
InRange draws = (place n : ℕ) → 2 ≤ n → (1 ≤ draws.split place n) × (draws.split place n < n)

build_history-size :
    (fuel : ℕ) (draws : Draws) (place n : ℕ)
    → InRange draws
    → n ≤ fuel
    → Ends (build_history fuel draws place n) (λ c. size c ≡ n)
unfolding build_history size
build_history-size fuel draws place zero r l = (empty, refl, refl)
build_history-size fuel draws place (suc zero) r l = (enclose empty, refl, omega arith)
build_history-size zero draws place (suc (suc n)) r l = absurd (omega (arith, l))
build_history-size (suc fuel) draws place (suc (suc n)) r l =
    let split = draws.split place (suc (suc n)) in
    let range = r place (suc (suc n)) (omega arith) in
    elim (Bool-cases (draws.rule place == 0)) [
      | inl e ↦
          let u = build_history-size fuel draws (place * 2 + 1) (suc n) r (omega (arith, l)) in
          rw (e, build_history, u.1) (enclose u.0, refl, omega (arith, u.2))
      | inr e ↦
          let u =
            build_history-size fuel draws (place * 2 + 1) split r (omega (arith, l, range.1)) in
          let v =
            build_history-size fuel draws (place * 2 + 2) (suc (suc n) - split) r
              (omega (arith, l, range.0)) in
          rw (e, build_history, asserted split n range.0 range.1, u.1, v.1)
            (concat u.0 v.0, refl, omega (arith, u.2, v.2, range.1))
    ]
  where
    asserted :
        (split n : ℕ)
        → 1 ≤ split
        → split < suc (suc n)
        → (ltb 0 split && ltb 0 (suc (suc n) - split)) ≡ true
    asserted split n a b = ground arith

-- With draws in their ranges `generate_lin_hist` returns a history of four events for each value, in
-- which no value is pushed twice, and which a stack runs, one operation at a time, from empty to
-- empty.
pub generate_lin_hist-replay :
    (draws : Draws) (n : ℕ)
    → InRange draws
    → Ends (generate_lin_hist draws n) (λ es.
      (length es ≡ n * 4) × (replay es idle [] ≡ some []) × Pairs (λ v w. v ≢ w) (pushes es))
unfolding generate_lin_hist
generate_lin_hist-replay draws n r =
    let run = build_history-size n draws 0 n r (omega arith) in
    rw run.1 (
      build run.0 1,
      refl,
      (
        length-build run.0 1 ∙ ap (λ k. k * 4) run.2,
        ap (λ es. replay es idle []) (sym (append-nil (build run.0 1)))
            ∙ replay-build run.0 1 [] []
            ∙ (unfold replay in refl),
        (pushes-build run.0 1).1,
      ),
    )
