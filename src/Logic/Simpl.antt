-- ===== src/Logic/Simpl.antt =====
-- logic/src/term.cpp: what `simpl` makes of a term.
use li_mo.Base.{ℕ, zero, suc, true, false, Option, none, some, List, [], ◌∷◌, ◌++◌, any, map}
use li_mo.Logic.{Bound, implies, nil_bound, conj_bounds, disj_bounds}
use li_mo.Logic
use li_mo.Logic.Term.{Term, const, bound, conj, disj, list_of, conj_of, disj_of, equal, ◌>>=◌}

-- The loop that keeps of equal terms the first.
unfoldable pub distinct : List Term → List Term → List Term
distinct nt [] = nt
distinct nt (it ∷ ntp) = elim (any (equal it) nt) [
  | true ↦ distinct nt ntp
  | false ↦ distinct (nt ++ it ∷ []) ntp
]

-- What the first loop of `simpl` ends in: a constant that decides the result, or the terms to go on with.
pub data Gathered : Type 0 where
  decided : Gathered
  remaining : List Term → Gathered

abbrev pub put_before : List Term → Gathered → Gathered
put_before ts decided = decided
put_before ts (remaining us) = remaining (ts ++ us)

-- The loops of `Conj::simpl` and `Disj::simpl` over the subterms, where `step` simplifies one: what a
-- simplified subterm adds to what comes of the later ones.
unfoldable pub conj_next : Term → Option Gathered → Option Gathered
unfolding list_of
conj_next (const true) rest = rest
conj_next (const false) rest = some decided
conj_next (conj us) rest = rest >>= λ g. some (put_before (list_of us) g)
conj_next t2 rest = rest >>= λ g. some (put_before (t2 ∷ []) g)

unfoldable pub gather_conj : (Term → Option Term) → List Term → Option Gathered
unfolding conj_next
gather_conj step [] = some (remaining [])
gather_conj step (t ∷ ts) = let rest = gather_conj step ts in step t >>= λ t2. conj_next t2 rest

unfoldable pub disj_next : Term → Option Gathered → Option Gathered
unfolding list_of
disj_next (const true) rest = some decided
disj_next (const false) rest = rest
disj_next (disj us) rest = rest >>= λ g. some (put_before (list_of us) g)
disj_next t2 rest = rest >>= λ g. some (put_before (t2 ∷ []) g)

unfoldable pub gather_disj : (Term → Option Term) → List Term → Option Gathered
unfolding disj_next
gather_disj step [] = some (remaining [])
gather_disj step (t ∷ ts) = let rest = gather_disj step ts in step t >>= λ t2. disj_next t2 rest

abbrev pub bounds_of : List Term → List Bound
bounds_of [] = []
bounds_of (bound b ∷ ts) = b ∷ bounds_of ts
bounds_of (_ ∷ ts) = bounds_of ts

abbrev pub others_of : List Term → List Term
others_of [] = []
others_of (bound b ∷ ts) = others_of ts
others_of (t ∷ ts) = t ∷ others_of ts

-- The terms of the first disjunction, and what stands around it.
unfoldable pub split_disj : List Term → Option (List Term × List Term)
unfolding list_of
split_disj [] = none
split_disj (disj ds ∷ ts) = some (list_of ds, ts)
split_disj (t ∷ ts) = do (ds, rest) ← split_disj ts; some (ds, t ∷ rest)

-- The loop that distributes a conjunction over a disjunction.
unfoldable pub distribute : (Term → Option Term) → List Term → List Term → Option (List Term)
distribute step others [] = some []
distribute step others (d ∷ ds) = do
  r ← step (conj_of (d ∷ others))
  rs ← distribute step others ds
  some (r ∷ rs)

-- All bounds of a conjunction in one, behind the other terms.
unfoldable pub merged : List Term → List Term
unfolding conj_bounds
merged nt = elim (bounds_of nt) [
  | [] ↦ others_of nt
  | b ∷ bs ↦ others_of nt ++ bound (conj_bounds b bs) ∷ []
]

abbrev pub conj_exit : (Term → Option Term) → List Term → Option Term
conj_exit step [] = some (const true)
conj_exit step (t ∷ []) = step t
conj_exit step (t ∷ u ∷ ts) = some (conj_of (t ∷ u ∷ ts))

unfoldable pub conj_rest : (Term → Option Term) → List Term → Option Term
unfolding split_disj distribute merged
conj_rest step [] = some (const true)
conj_rest step (t ∷ []) = some t
conj_rest step (t ∷ u ∷ ts) = elim (split_disj (t ∷ u ∷ ts)) [
  | none ↦ conj_exit step (merged (t ∷ u ∷ ts))
  | some (ds, others) ↦ distribute step others ds >>= λ rs. step (disj_of rs)
]

-- `Conj::simpl`
unfoldable pub conj_step : (Term → Option Term) → List Term → Option Term
unfolding gather_conj distinct conj_rest
conj_step step terms = gather_conj step terms >>= λ g. elim g [
  | decided ↦ some (const false)
  | remaining ntp ↦ conj_rest step (distinct [] ntp)
]

-- The loop that drops each bound that implies another one.
unfoldable pub keep_maximal : List Bound → List Bound → List Bound
unfolding implies
keep_maximal before [] = []
keep_maximal before (a ∷ after) =
    let rest = keep_maximal (before ++ a ∷ []) after in
    elim (any (implies a) (before ++ after)) [ true ↦ rest | false ↦ a ∷ rest ]

abbrev pub subsumed : List Term → List Term
subsumed nt = others_of nt ++ map bound (keep_maximal [] (bounds_of nt))

abbrev pub disj_exit : List Term → Term
disj_exit [] = const false
disj_exit (t ∷ []) = t
disj_exit (t ∷ u ∷ ts) = disj_of (t ∷ u ∷ ts)

unfoldable pub disj_rest : List Term → Term
disj_rest [] = const false
disj_rest (t ∷ []) = t
disj_rest (t ∷ u ∷ ts) = disj_exit (subsumed (t ∷ u ∷ ts))

-- `Disj::simpl`
unfoldable pub disj_step : (Term → Option Term) → List Term → Option Term
unfolding gather_disj distinct disj_rest
disj_step step terms = gather_disj step terms >>= λ g. elim g [
  | decided ↦ some (const true)
  | remaining ntp ↦ some (disj_rest (distinct [] ntp))
]

-- `simpl`, on fuel, since it calls itself on terms that it has put together.
unfoldable pub simpl : ℕ → Term → Option Term
unfolding conj_step disj_step list_of
simpl zero t = none
simpl (suc fuel) (const b) = some (const b)
simpl (suc fuel) (bound b) = elim (Logic.simpl b) [
  | none ↦ some (const false)
  | some c ↦ some (bound c)
]
simpl (suc fuel) (conj ts) = conj_step (simpl fuel) (list_of ts)
simpl (suc fuel) (disj ts) = disj_step (simpl fuel) (list_of ts)
