-- ===== src/Cover/Complete.antt =====
-- The whole run of `linearize` against the values of the history.
use mathlib.Core.List.Perm
use li_mo.Base.{
  ℕ, ◌≤◌, ◌≡◌, refl, sym, ap, ◌∙◌, Bool, true, false, some, List, [], ◌∷◌, arith, if◌then◌else◌,
  All, All-mono, Pairs, Option-cases, inl, inr, find, assign, remove, nat_key, subst, length, ok,
  ok_inj, no_result, some_inj, nothing, went_through, fail, std_error, ◌==◌,
}
use li_mo.Event.{Event, EType, val_key}
use li_mo.Monitor.{
  Monitor, start, is_return, is_crash, is_operation, key_of, add_conc, rem_conc, dispatch_call,
  dispatch_return, add_event, add_events,
}
use li_mo.Monitor.Dispatch.{Accepted, returned, called, add_event-Accepted, add_event-Leads}
use li_mo.Monitor.Alternate.{find-assign}
use li_mo.Cover.History.{CoverHistory, CoverVal, of_values}
use li_mo.Cover.Events.{add_call, add_ret}
use li_mo.Cover.Handlers.{cover_handlers, handle_call, handle_return, read_history, linearize}
use li_mo.Cover.Spec.{IsLinearizable}
use li_mo.Cover.Drain.{do_linearization-IsLinearizable}
use li_mo.Cover.Sound.{rounds}
use li_mo.Cover.Reading.{InTime, Then, IsReading}
use li_mo.Cover.Overlapped.{gone-IsLinearizable, perm-IsLinearizable}
use li_mo.Cover.Linearize.{IsReading-Leads, fresh-IsReading, read_history-IsReadHistory, linearizes}
use li_mo.Cover.Whole.{ended, whole}
use li_mo.Cover.Held.{IsHeld}
use li_mo.Cover.Ended.{ended-IsHeld}

-- No thread has crashed, as the monitor keeps it.
abbrev pub NoCrash : Monitor CoverHistory → Type 0
NoCrash m = (j : ℕ) → (t : EType) → find j m.last_evt ≡ some t → is_crash t ≡ false

assign-NoCrash :
    (k : ℕ) (u : EType) (last : List (ℕ × EType))
    → is_crash u ≡ false
    → ((j : ℕ) → (t : EType) → find j last ≡ some t → is_crash t ≡ false)
    → (j : ℕ) → (t : EType) → find j (assign k u last) ≡ some t
    → is_crash t ≡ false
assign-NoCrash k u last c n j t f = either (j == k) (sym (find-assign j k u last) ∙ f)
  where
    either : (b : Bool) → (if b then some u else find j last) ≡ some t → is_crash t ≡ false
    either true q = subst (λ z. is_crash z ≡ false) (some_inj q) c
    either false q = n j t q

-- Only pushes and pops are called, and only they return.
called_add :
    (h : CoverHistory) (e : Event) (h' : CoverHistory)
    → dispatch_call cover_handlers h e ≡ ok h'
    → (add_call h e ≡ h') × (is_crash e.etype ≡ false)
unfolding dispatch_call handle_call
called_add h e h' r = by_type e.etype r
  where
    by_type :
        (t : EType)
        → (if is_operation t
            then handle_call t h e
            else if is_crash t
            then fail std_error
            else fail std_error)
          ≡ ok h'
        → (add_call h e ≡ h') × (is_crash t ≡ false)
    by_type EType.push q = (ok_inj q, refl)
    by_type EType.pop q = (ok_inj q, refl)
    by_type _ q = absurd (no_result q)

returned_add :
    (t : EType) (h : CoverHistory) (e : Event) (h' : CoverHistory)
    → is_return t ≡ false
    → is_crash t ≡ false
    → dispatch_return cover_handlers t h e ≡ ok h'
    → add_ret h e false ≡ ok h'
unfolding dispatch_return handle_return
returned_add EType.push h e h' a b r = r
returned_add EType.pop h e h' a b r = r
returned_add EType.return h e h' a b r = absurd (ground arith)
returned_add EType.crash h e h' a b r = absurd (ground arith)
returned_add _ h e h' a b r = absurd (no_result r)

-- What the events leave, read on from the event by its type.
module _ (calls : List (ℕ × Event)) (vs : List CoverVal) (e : Event) (es : List Event)
    (ws : List CoverVal) where
  whole_call :
      is_return e.etype ≡ false
      → whole calls vs (e ∷ es) ≡ some ws
      → whole (assign e.thread e calls) vs es ≡ some ws
  unfolding whole
  whole_call a k = sym (rw (a) refl) ∙ k

  whole_return :
      is_return e.etype ≡ true
      → whole calls vs (e ∷ es) ≡ some ws
      → (c : Event) × (vs' : List CoverVal) × (find e.thread calls ≡ some c)
        × (ended c e vs ≡ some vs')
        × (whole (remove e.thread calls) vs' es ≡ some ws)
  unfolding whole
  whole_return a k = elim (Option-cases (find e.thread calls)) [
    | inl f ↦ absurd (nothing (sym (rw (a) (rw (f) refl)) ∙ k))
    | inr (c, f) ↦ elim (Option-cases (ended c e vs)) [
      | inl q ↦ absurd (nothing (sym (rw (a) (rw (f) (rw (q) refl))) ∙ k))
      | inr (vs', q) ↦ (c, vs', f, q, sym (rw (a) (rw (f) (rw (q) refl))) ∙ k)
    ]
  ]

-- One event that the monitor accepts.
step-IsHeld :
    (e : Event) (es : List Event) (m n : Monitor CoverHistory) (calls : List (ℕ × Event))
    (vs ws : List CoverVal)
    → IsReading m.state (e ∷ es)
    → IsHeld m.state calls vs
    → NoCrash m
    → Accepted cover_handlers e m n
    → whole calls vs (e ∷ es) ≡ some ws
    → (calls' : List (ℕ × Event)) × (vs' : List CoverVal) × IsHeld n.state calls' vs'
      × NoCrash n
      × (whole calls' vs' es ≡ some ws)
unfolding add_conc rem_conc
step-IsHeld e es m n calls vs ws g l c (called s a q d w) k =
    let (x, y) = called_add m.state e s d in
    (
      assign e.thread e calls,
      vs,
      subst (λ z. IsHeld z.state (assign e.thread e calls) vs) w
          (subst (λ z. IsHeld z (assign e.thread e calls) vs) x (call_held l)),
      subst NoCrash w (assign-NoCrash (key_of e) e.etype before y (fewer y)),
      whole_call calls vs e es ws a k,
    )
  where
    before : List (ℕ × EType)
    before = if is_crash e.etype then [] else m.last_evt

    fewer :
        is_crash e.etype ≡ false
        → (j : ℕ) → (t : EType) → find j before ≡ some t
        → is_crash t ≡ false
    fewer y j t f = c j t (sym (ap (λ b. find j (if b then [] else m.last_evt)) y) ∙ f)

    call_held : IsHeld m.state calls vs → IsHeld (add_call m.state e) (assign e.thread e calls) vs
    call_held i =
        unfold add_call in
        record {
          same_calls = ap (assign e.thread e) i.same_calls;
          no_removes = i.no_removes;
          no_empties = i.no_empties;
          no_era = i.no_era;
          plain = i.plain;
          gone = i.gone;
          all = i.all;
          meets = i.meets;
          solid = i.solid;
          over = i.over;
        }
step-IsHeld e es m n calls vs ws g l c (returned t s a f q d w) k =
    let r = returned_add t m.state e s q (c (key_of e) t f) d in
    let (x, vs', y, z, v) = whole_return calls vs e es ws a k in
    (
      remove e.thread calls,
      vs',
      subst (λ u. IsHeld u.state (remove e.thread calls) vs') w
          (ended-IsHeld m.state x e es calls vs vs' g l (ap (find e.thread) l.same_calls ∙ y) s r
            z),
      subst NoCrash w (assign-NoCrash (key_of e) e.etype m.last_evt (no_crash e.etype a) c),
      v,
    )
  where
    no_crash : (t : EType) → is_return t ≡ true → is_crash t ≡ false
    no_crash t b = ground arith

-- All events.
add_events-IsHeld :
    (es : List Event) (m n : Monitor CoverHistory) (calls : List (ℕ × Event))
    (vs ws : List CoverVal)
    → IsReading m.state es
    → IsHeld m.state calls vs
    → NoCrash m
    → add_events cover_handlers m es ≡ ok n
    → whole calls vs es ≡ some ws
    → (calls' : List (ℕ × Event)) × IsHeld n.state calls' ws
unfolding add_events whole
add_events-IsHeld [] m n calls vs ws g l c r k = (
  calls,
  subst (λ z. IsHeld z.state calls ws) (ok_inj r) (subst (IsHeld m.state calls) (some_inj k) l),
)
add_events-IsHeld (e ∷ es) m n calls vs ws g l c r k =
    let (i, a, b) = went_through (add_event cover_handlers m e) _ n r in
    let (calls', vs', x, y, z) =
      step-IsHeld e es m i calls vs ws g l c (add_event-Accepted cover_handlers e m i a) k in
    add_events-IsHeld es i n calls' vs' ws
      (add_event-Leads cover_handlers e (λ h. IsReading h (e ∷ es)) (λ h. IsReading h es)
        (IsReading-Leads e es) m i g a)
      x y b z

start-IsHeld : IsHeld (of_values []) [] []
start-IsHeld = record {
  same_calls = refl;
  no_removes = refl;
  no_empties = refl;
  no_era = refl;
  plain = tt;
  gone = [];
  all = Perm.nil;
  meets = tt;
  solid = tt;
  over = tt;
}

-- Let the events of a history be in time order, with no value pushed twice, and let every pop take a
-- value whose push has returned before the pop does, and that no other pop took. If `linearize`
-- accepts the history, with enough rounds for the values that it has read, then all completed
-- pushes and pops of the history are linearizable, a value without a completed pop being popped at
-- the end.
pub linearize-IsLinearizable :
    (es : List Event) (vs : List CoverVal) (m : Monitor CoverHistory) (fuel : ℕ)
    → All InTime es
    → Pairs Then es
    → whole [] [] es ≡ some vs
    → read_history es ≡ ok m
    → rounds (length m.state.values) ≤ fuel
    → linearize fuel es ≡ some (ok tt)
    → IsLinearizable vs
unfolding read_history
linearize-IsLinearizable es vs m fuel t o w r k a =
    let (calls, l) =
      add_events-IsHeld es (start (of_values [])) m [] [] vs (fresh-IsReading es t o) start-IsHeld
        (λ j u f. absurd (nothing f)) r w in
    let h = read_history-IsReadHistory es m t o r l.no_empties in
    perm-IsLinearizable l.all (
      gone-IsLinearizable l.gone m.state.values l.solid l.meets
        (All-mono m.state.values (λ v i. (i.add_closed, i.rmv_closed)) h.read)
        (do_linearization-IsLinearizable m.state fuel h k (sym (linearizes fuel es m r) ∙ a)))
