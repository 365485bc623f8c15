-- ===== src/Cover/Drain.antt =====
-- The work list of `CoverMonitor::do_linearization`: it ends, throws nothing but a violation, and
-- accepts only what is linearizable.
use li_mo.Base.{
  ℕ, zero, suc, ◌+◌, ◌≤◌, ◌<◌, ◌≡◌, refl, ap, ◌∙◌, sym, ◌⊎◌, inl, inr, true, false, not, any,
  Bool-cases, Option, none, some, List, [], ◌∷◌, ◌++◌, arith, length, All, All-append, subst,
  pop_back, pop_back-append, pop_back-cons, Result, ok, fail, violation,
}
use li_mo.Event.{LinRes, Message, report, remain, combine}
use li_mo.Cover.History.{CoverHistory, CoverVal, sound, simple}
use li_mo.Cover.Lin.{step, drain, conclude, do_linearization}
use li_mo.Interval.Atomic.{overlaps}
use li_mo.Cover.Compose.{IsRead}
use li_mo.Cover.Spec.{IsLinearizable}
use li_mo.Cover.Sound.{IsReadHistory, IsStep, rounds, rounds_pos, total_rounds, step-IsStep}

total_rounds-append :
    (hs ks : List CoverHistory) → total_rounds (hs ++ ks) ≡ total_rounds hs + total_rounds ks
total_rounds-append [] ks = omega arith
total_rounds-append (h ∷ hs) ks = omega (arith, total_rounds-append hs ks)

All-back {κ} :
    (P : CoverHistory → Type κ) (hs : List CoverHistory) (h : CoverHistory)
    → All P (hs ++ h ∷ [])
    → All P hs × P h
All-back P [] h a = (tt, a.0)
All-back P (k ∷ hs) h a = let (x, y) = All-back P hs h a.1 in ((a.0, x), y)

All-split {κ} :
    (P : CoverHistory → Type κ) (hs ks : List CoverHistory) → All P (hs ++ ks) → All P hs × All P ks
All-split P [] ks a = (tt, a)
All-split P (k ∷ hs) ks a = let (x, y) = All-split P hs ks a.1 in ((a.0, x), y)

-- A run of the work list ends with a result, and if that is no violation, then all histories of
-- the list are linearizable.
abbrev pub Drains : ℕ → List CoverHistory → Type 0
Drains fuel hs =
    (r : LinRes CoverHistory) × (drain fuel (remain hs) ≡ some (ok r))
    × (r.viol ≡ none → All (λ k. IsLinearizable k.values) hs)

drain_next :
    (fuel : ℕ) (hs rest : List CoverHistory) (h : CoverHistory) (s : LinRes CoverHistory)
    → pop_back hs ≡ some (rest, h)
    → step h ≡ ok s
    → drain (suc fuel) (remain hs) ≡ drain fuel (combine (remain rest) s)
unfolding drain
drain_next fuel hs rest h s p q = rw (p, drain) (rw (q, drain))

drain_violation : (fuel : ℕ) (m : Message) → 0 < fuel → drain fuel (report m) ≡ some (ok (report m))
unfolding drain
drain_violation zero m h = elim h [ ]
drain_violation (suc fuel) m h = refl

combine-none :
    (rest : List CoverHistory) (s : LinRes CoverHistory)
    → s.viol ≡ none
    → combine (remain rest) s ≡ remain (s.remaining ++ rest)
unfolding combine
combine-none rest s e = rw (e, combine)

combine-some :
    (rest : List CoverHistory) (s : LinRes CoverHistory) (m : Message)
    → s.viol ≡ some m
    → combine (remain rest) s ≡ report m
unfolding combine
combine-some rest s m e = rw (e, combine)

drain_step :
    (fuel : ℕ) (rest : List CoverHistory) (h : CoverHistory) (s : LinRes CoverHistory)
    (v : Option Message)
    → s.viol ≡ v
    → All IsReadHistory rest
    → IsStep h.values s
    → total_rounds (rest ++ h ∷ []) < suc fuel
    → ((ks : List CoverHistory) → All IsReadHistory ks → total_rounds ks < fuel → Drains fuel ks)
    → (r : LinRes CoverHistory) × (drain fuel (combine (remain rest) s) ≡ some (ok r))
      × (r.viol ≡ none → All (λ k. IsLinearizable k.values) (rest ++ h ∷ []))
drain_step fuel rest h s none e g st n ih =
    let (r, d, l) = ih (s.remaining ++ rest) (All-append IsReadHistory s.remaining rest st.read g) (
      omega (
        arith,
        total_rounds-append s.remaining rest,
        total_rounds-append rest (h ∷ []),
        st.fewer,
      )) in
    (
      r,
      ap (drain fuel) (combine-none rest s e) ∙ d,
      λ q.
          let (a, b) = All-split (λ k. IsLinearizable k.values) s.remaining rest (l q) in
          All-append (λ k. IsLinearizable k.values) rest (h ∷ []) b (st.lin e a, tt),
    )
drain_step fuel rest h s (some m) e g st n ih = (
  report m,
  ap (drain fuel) (combine-some rest s m e)
      ∙ drain_violation fuel m
          (omega (arith, total_rounds-append rest (h ∷ []), rounds_pos (length h.values))),
  λ q. cc,
)

-- With a round for each that the histories can take, the work list is emptied or a violation found.
pub drain-Drains :
    (fuel : ℕ) (hs : List CoverHistory)
    → All IsReadHistory hs
    → total_rounds hs < fuel
    → Drains fuel hs
unfolding drain
drain-Drains zero hs g n = absurd (omega arith)
drain-Drains (suc fuel) [] g n = (remain [], refl, λ q. tt)
drain-Drains (suc fuel) (x ∷ xs) g n =
    let (rest, h, e) = pop_back-cons x xs in
    let parts : x ∷ xs ≡ rest ++ h ∷ [] = pop_back-append (x ∷ xs) rest h e in
    let (g', k) = All-back IsReadHistory rest h (subst (All IsReadHistory) parts g) in
    let (s, q, st) = step-IsStep h k in
    let (r, d, l) =
      drain_step fuel rest h s s.viol refl g' st (subst (λ z. total_rounds z < suc fuel) parts n)
        (λ ks. drain-Drains fuel ks) in
    (
      r,
      drain_next fuel (x ∷ xs) rest h s e q ∙ d,
      λ v. subst (All (λ z. IsLinearizable z.values)) (sym parts) (l v),
    )

no_overlap : (vs : List CoverVal) → All IsRead vs → any (λ v. overlaps v.add v.rmv) vs ≡ false
unfolding any
no_overlap [] r = refl
no_overlap (v ∷ vs) r = rw (apart v r.0) (no_overlap vs r.1)
  where
    apart : (w : CoverVal) → IsRead w → overlaps w.add w.rmv ≡ false
    apart w k = unfold overlaps in ground arith

-- Values whose push returned before their pop was called are simple.
pub IsRead-simple : (h : CoverHistory) → All IsRead h.values → simple h ≡ true
unfolding simple
IsRead-simple h r = ap not (no_overlap h.values r)

drain_stops :
    (fuel : ℕ) (m : Message) (hs : List CoverHistory)
    → 0 < fuel
    → drain fuel (record { viol = some m; remaining = hs })
      ≡ some (ok (record { viol = some m; remaining = hs }))
unfolding drain
drain_stops zero m hs h = elim h [ ]
drain_stops (suc fuel) m hs h = refl

abbrev Ends : ℕ → List CoverVal → LinRes CoverHistory → Type 0
Ends fuel vs s =
    (r : LinRes CoverHistory) × (drain fuel s ≡ some (ok r)) × (r.viol ≡ none → IsLinearizable vs)

unsound_run :
    (h : CoverHistory) (fuel : ℕ)
    → sound h ≡ false
    → do_linearization fuel h ≡ some (fail violation)
unfolding do_linearization
unsound_run h fuel e = rw (e, do_linearization)

drain_first :
    (fuel : ℕ) (vs : List CoverVal) (s : LinRes CoverHistory) (v : Option Message)
    → s.viol ≡ v
    → IsStep vs s
    → rounds (length vs) ≤ fuel
    → Ends fuel vs s
drain_first fuel vs s none e st n =
    let (r, d, l) = drain-Drains fuel s.remaining st.read (omega (arith, st.fewer)) in
    let whole : s ≡ remain s.remaining = ap (λ w. record { viol = w; remaining = s.remaining }) e in
    (r, ap (drain fuel) whole ∙ d, λ q. st.lin e (l q))
drain_first fuel vs s (some m) e st n =
    let whole : s ≡ record { viol = some m; remaining = s.remaining } =
      ap (λ w. record { viol = w; remaining = s.remaining }) e in
    (
      record { viol = some m; remaining = s.remaining },
      ap (drain fuel) whole
          ∙ drain_stops fuel m s.remaining (omega (arith, rounds_pos (length vs), n)),
      λ q. cc,
    )

lin_result :
    (h : CoverHistory) (fuel : ℕ)
    → IsReadHistory h
    → sound h ≡ true
    → rounds (length h.values) ≤ fuel
    → (r : LinRes CoverHistory) × (do_linearization fuel h ≡ some (conclude (ok r)))
      × (r.viol ≡ none → IsLinearizable h.values)
lin_result h fuel g p n =
    let (s, q, st) = step-IsStep h g in
    let (r, d, l) = drain_first fuel h.values s s.viol refl st n in
    (r, run_of s r p (IsRead-simple h g.read) q d, l)
  where
    run_of :
        (s r : LinRes CoverHistory)
        → sound h ≡ true
        → simple h ≡ true
        → step h ≡ ok s
        → drain fuel s ≡ some (ok r)
        → do_linearization fuel h ≡ some (conclude (ok r))
    run_of s r a b c d = unfold do_linearization in rw (a, b) (rw (c, d))

-- `do_linearization` on a history of matched operations that has no pops of the empty stack, with
-- enough rounds: it returns, or throws a violation, and nothing else.
pub do_linearization-total :
    (h : CoverHistory) (fuel : ℕ)
    → IsReadHistory h
    → rounds (length h.values) ≤ fuel
    → (do_linearization fuel h ≡ some (ok tt)) ⊎ (do_linearization fuel h ≡ some (fail violation))
do_linearization-total h fuel g n = elim (Bool-cases (sound h)) [
  | inr q ↦ inr (unsound_run h fuel q)
  | inl p ↦ let (r, d, l) = lin_result h fuel g p n in verdict r r.viol refl d
]
  where
    verdict :
        (r : LinRes CoverHistory) (v : Option Message)
        → r.viol ≡ v
        → do_linearization fuel h ≡ some (conclude (ok r))
        → (do_linearization fuel h ≡ some (ok tt))
          ⊎ (do_linearization fuel h ≡ some (fail violation))
    verdict r none e d = inl (rw e at d)
    verdict r (some m) e d = inr (rw e at d)

-- If `do_linearization`, with enough rounds, accepts a history of matched operations that has no
-- pops of the empty stack, then its values are linearizable: there is a run of the sequential
-- stack over their pushes and pops that respects the order in real time.
pub do_linearization-IsLinearizable :
    (h : CoverHistory) (fuel : ℕ)
    → IsReadHistory h
    → rounds (length h.values) ≤ fuel
    → do_linearization fuel h ≡ some (ok tt)
    → IsLinearizable h.values
do_linearization-IsLinearizable h fuel g n e = elim (Bool-cases (sound h)) [
  | inr q ↦ absurd (not_accepted (do_linearization fuel h) (unsound_run h fuel q) e)
  | inl p ↦ let (r, d, l) = lin_result h fuel g p n in accepted r r.viol refl (sym d ∙ e) l
]
  where
    not_accepted :
        (o : Option (Result (Unit {0}))) → o ≡ some (fail violation) → o ≡ some (ok tt) → ⊥
    not_accepted o x y = cc

    accepted :
        (r : LinRes CoverHistory) (v : Option Message)
        → r.viol ≡ v
        → some (conclude (ok r)) ≡ some (ok tt)
        → (r.viol ≡ none → IsLinearizable h.values)
        → IsLinearizable h.values
    accepted r none q d l = l q
    accepted r (some m) q d l = absurd (
        not_accepted (some (conclude (ok r)))
          (ap (λ w. some (conclude (ok (record r { viol = w })))) q) d)
