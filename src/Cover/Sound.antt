-- ===== src/Cover/Sound.antt =====
-- `do_linearization` on a history without pops of the empty stack: it ends, throws nothing but a
-- violation, and accepts only what is linearizable.
use li_mo.Base.{
  ℕ, zero, suc, ◌+◌, ◌*◌, ◌<◌, ◌≡◌, ◌≢◌, refl, ap, ◌∙◌, sym, inl, inr, Bool, false, not, none, some,
  List, [], ◌∷◌, ◌++◌, arith, length, nonempty, filter, filter-perm, All, All-filter, Pairs-filter,
  Bool-cases, List-cases, get_elem?, subst, ok,
}
use li_mo.Event.{LinRes, Message, cover_is_atomic, report, remain, done, val_eq}
use li_mo.Interval.Atomic.{AtomicInterval}
use li_mo.Interval.Range.{is_atomic, complement}
use li_mo.Cover.History.{
  CoverHistory, CoverVal, of_values, push_pop, epsilon, last_kind, cover, minmax, prune,
  minmax_prune, in_left, split,
}
use li_mo.Cover.Lin.{step_split, step_values, step_as, step}
use li_mo.Cover.Spec.{IsLinearizable, empty-IsLinearizable}
use li_mo.Cover.Compose.{IsRead, append-Linearization}
use li_mo.Cover.Prune.{IsOrdered, prune_stop, prune_invariant, prune_shorter, prune-IsLinearizable}
use li_mo.Cover.Split.{SplitsAt, Beside, cover-SplitsAt, left-UpTo, right-Behind, split_sizes}

-- A history that was read and has no pops of the empty stack.
pub record IsReadHistory (h : CoverHistory) : Type 0 where
  pub ordered : IsOrdered h.values
  pub read : All IsRead h.values
  pub no_empties : h.empties ≡ []

-- The rounds that a history with this many values can take.
abbrev pub rounds : ℕ → ℕ
rounds zero = 1
rounds (suc n) = 3 * n + 2

abbrev pub total_rounds : List CoverHistory → ℕ
total_rounds [] = 0
total_rounds (h ∷ hs) = rounds (length h.values) + total_rounds hs

-- What a step does for the values of a history: fewer rounds are left, and if it reports no violation and
-- all that remains is linearizable, so are the values.
pub record IsStep (vs : List CoverVal) (r : LinRes CoverHistory) : Type 0 where
  pub read : All IsReadHistory r.remaining
  pub fewer : total_rounds r.remaining < rounds (length vs)
  pub lin : r.viol ≡ none → All (λ k. IsLinearizable k.values) r.remaining → IsLinearizable vs

of_filter-IsReadHistory :
    (p : CoverVal → Bool) (vs : List CoverVal)
    → IsOrdered vs
    → All IsRead vs
    → IsReadHistory (of_values (filter p vs))
of_filter-IsReadHistory p vs o r = record {
  ordered =
      Pairs-filter (λ v w. (v.add.ubound < w.add.ubound) × (val_eq v.val w.val ≡ false)) p vs o;
  read = All-filter IsRead p vs r;
  no_empties = refl;
}

split_rounds : (n a b : ℕ) → 0 < a → 0 < b → n ≡ a + b → rounds a + (rounds b + 0) < rounds n
split_rounds n zero b p q e = absurd (omega arith)
split_rounds n (suc a) zero p q e = absurd (omega arith)
split_rounds zero (suc a) (suc b) p q e = absurd (omega arith)
split_rounds (suc n) (suc a) (suc b) p q e = omega arith

gap-IsStep :
    (v : CoverVal) (vs : List CoverVal) (gap : AtomicInterval)
    → IsOrdered (v ∷ vs)
    → All IsRead (v ∷ vs)
    → SplitsAt v vs gap
    → IsStep (v ∷ vs) (
        remain (
          of_values (filter (in_left gap) (v ∷ vs))
          ∷ of_values (filter (λ w. not (in_left gap w)) (v ∷ vs))
          ∷ []))
gap-IsStep v vs gap o r s =
    let (a, b, n) = split_sizes gap v vs r s in
    let sides : All (Beside gap) (v ∷ vs) = (inl s.first, s.sides) in
    record {
      read = (
        of_filter-IsReadHistory (in_left gap) (v ∷ vs) o r,
        (of_filter-IsReadHistory (λ w. not (in_left gap w)) (v ∷ vs) o r, tt),
      );
      fewer =
          split_rounds (length (v ∷ vs)) (length (filter (in_left gap) (v ∷ vs)))
            (length (filter (λ w. not (in_left gap w)) (v ∷ vs))) a b n;
      lin = λ q l. (
        l.0.0 ++ l.1.0.0,
        append-Linearization gap.lbound (filter (in_left gap) (v ∷ vs))
            (filter (λ w. not (in_left gap w)) (v ∷ vs)) (v ∷ vs) l.0.0 l.1.0.0
            (filter-perm (in_left gap) (v ∷ vs)) (left-UpTo gap (v ∷ vs) r s.wide sides)
            (right-Behind gap (v ∷ vs) r s.wide sides) l.0.1 l.1.0.1,
      );
    }

first_gap-IsStep :
    (vs : List CoverVal)
    → vs ≢ []
    → IsOrdered vs
    → All IsRead vs
    → is_atomic (cover vs) ≡ false
    → (gap : AtomicInterval) × (get_elem? (complement (cover vs)).atoms 1 ≡ some gap)
      × IsStep vs (
          remain (
            of_values (filter (in_left gap) vs)
            ∷ of_values (filter (λ w. not (in_left gap w)) vs)
            ∷ []))
first_gap-IsStep [] n o r e = absurd (n refl)
first_gap-IsStep (v ∷ vs) n o r e =
    let (gap, at, s) = cover-SplitsAt v vs o r e in (gap, at, gap-IsStep v vs gap o r s)

pub rounds_pos : (n : ℕ) → 0 < rounds n
rounds_pos zero = omega arith
rounds_pos (suc n) = omega arith

report-IsStep : (vs : List CoverVal) (m : Message) → IsStep vs (report m)
report-IsStep vs m = record { read = tt; fewer = rounds_pos (length vs); lin = λ q l. cc }

step_split-IsStep :
    (h : CoverHistory)
    → h.values ≢ []
    → IsReadHistory h
    → (r : LinRes CoverHistory) × (step_split h ≡ ok r) × IsStep h.values r
unfolding step_split split
step_split-IsStep h n g = elim (Bool-cases (is_atomic (cover h.values))) [
  | inl a ↦ (report cover_is_atomic, rw (a, step_split), report-IsStep h.values cover_is_atomic)
  | inr a ↦
      let (gap, at, s) = first_gap-IsStep h.values n g.ordered g.read a in
      (remain ((split h gap).0 ∷ (split h gap).1 ∷ []), rw (a, step_split) (rw (at, step_split)), s)
]

rounds_less : (m n : ℕ) → m < n → rounds m + 0 < rounds n
rounds_less m zero h = absurd (omega arith)
rounds_less zero (suc n) h = omega arith
rounds_less (suc m) (suc n) h = omega arith

pruned_history : (h : CoverHistory) → IsReadHistory h → IsReadHistory (minmax_prune h).1
unfolding minmax_prune
pruned_history h g =
    let (o, r, n) = prune_invariant (length h.values) h.values g.ordered g.read in
    record { ordered = o; read = r; no_empties = g.no_empties }

prune-IsStep :
    (h : CoverHistory) (m : CoverVal) (ms : List CoverVal)
    → IsReadHistory h
    → minmax h.values ≡ m ∷ ms
    → IsStep h.values (remain ((minmax_prune h).1 ∷ []))
unfolding minmax_prune
prune-IsStep h m ms g e = record {
  read = (pruned_history h g, tt);
  fewer =
      rounds_less (length (prune (length h.values) h.values)) (length h.values)
        (prune_shorter h.values m ms g.ordered g.read e);
  lin = λ q l. prune-IsLinearizable (length h.values) h.values g.ordered g.read l.0;
}

step_values_unpruned :
    (h : CoverHistory) → minmax h.values ≡ [] → step_values h ≡ step_split (minmax_prune h).1
unfolding step_values minmax_prune
step_values_unpruned h e = rw (ap nonempty e)

step_values_pruned :
    (h : CoverHistory) (m : CoverVal) (ms : List CoverVal)
    → minmax h.values ≡ m ∷ ms
    → step_values h ≡ ok (remain ((minmax_prune h).1 ∷ []))
unfolding step_values minmax_prune
step_values_pruned h m ms e = rw (ap nonempty e)

step_values-IsStep :
    (h : CoverHistory)
    → h.values ≢ []
    → IsReadHistory h
    → (r : LinRes CoverHistory) × (step_values h ≡ ok r) × IsStep h.values r
unfolding minmax_prune
step_values-IsStep h n g = elim (List-cases (minmax h.values)) [
  | inl e ↦
      let same : prune (length h.values) h.values ≡ h.values =
        prune_stop (length h.values) h.values e in
      let (r, k, s) =
        step_split-IsStep (minmax_prune h).1 (λ q. n (sym same ∙ q)) (pruned_history h g) in
      (r, step_values_unpruned h e ∙ k, subst (λ vs. IsStep vs r) same s)
  | inr (m, ms, e) ↦
      (remain ((minmax_prune h).1 ∷ []), step_values_pruned h m ms e, prune-IsStep h m ms g e)
]

last_kind_epsilon : (h : CoverHistory) → h.empties ≡ [] → h.values ≡ [] → last_kind h ≡ epsilon
unfolding last_kind
last_kind_epsilon h p q = rw (p, last_kind) (rw (q, last_kind))

last_kind_push_pop :
    (h : CoverHistory) (v : CoverVal) (vs : List CoverVal)
    → h.empties ≡ []
    → h.values ≡ v ∷ vs
    → last_kind h ≡ push_pop
unfolding last_kind
last_kind_push_pop h v vs p q = rw (p, last_kind) (rw (q, last_kind))

step_as_epsilon : (h : CoverHistory) → last_kind h ≡ epsilon → step h ≡ ok done
unfolding step step_as
step_as_epsilon h e = ap (λ k. step_as k h) e

step_as_push_pop : (h : CoverHistory) → last_kind h ≡ push_pop → step h ≡ step_values h
unfolding step step_as
step_as_push_pop h e = ap (λ k. step_as k h) e

done-IsStep : IsStep [] done
done-IsStep = record { read = tt; fewer = omega arith; lin = λ q l. empty-IsLinearizable }

-- A step of a history without pops of the empty stack never throws, leaves fewer rounds, and is
-- sound: if it reports no violation and what remains is linearizable, then so are the values.
pub step-IsStep :
    (h : CoverHistory)
    → IsReadHistory h
    → (r : LinRes CoverHistory) × (step h ≡ ok r) × IsStep h.values r
step-IsStep h g = elim (List-cases h.values) [
  | inl e ↦ (
    done,
    step_as_epsilon h (last_kind_epsilon h g.no_empties e),
    subst (λ vs. IsStep vs done) (sym e) done-IsStep,
  )
  | inr (v, vs, e) ↦
      let (r, k, s) = step_values-IsStep h (λ q. let x : v ∷ vs ≡ [] = sym e ∙ q in cc) g in
      (r, step_as_push_pop h (last_kind_push_pop h v vs g.no_empties e) ∙ k, s)
]
