-- ===== src/Logic/Total.antt =====
-- `simpl` returns on every term, and what it returns is in normal form and means the same.
use li_mo.Base.{
  ℕ, zero, suc, ◌+◌, ◌≤◌, ◌<◌, ◌≡◌, refl, sym, ◌∙◌, Bool, true, false, ◌||◌, none, some, List,
  arith, All, Bool-cases, inl, inr, All-mono,
}
use li_mo.Interval.Atomic.{is_empty, contains}
use li_mo.Relation.Product.{Stay}
use li_mo.Logic.{Bound, nil_bound}
use li_mo.Logic
use li_mo.Logic.Bounds.{bounded, simpl_empty, simpl_solid}
use li_mo.Logic.Term.{
  Term, const, bound, conj, disj, Terms, no_terms, term, list_of, terms_of, conj_of, disj_of,
}
use li_mo.Logic.Simpl.{simpl}
use li_mo.Logic.Meaning.{holds, any_holds-list_of, all_hold-list_of}
use li_mo.Logic.Normal.{IsSolid, IsNormal, IsPlain, arity, arities, Simplified}
use li_mo.Logic.DisjStep.{disj_step_lem, arity-le, list_of-terms_of}
use li_mo.Logic.ConjStep.{conj_step_lem, plain-IsNormal}

-- Enough fuel for `simpl`: a call for each subterm, and for each conjunction the calls on what is
-- distributed.
unfoldable mutual
  pub fuel_of : Term → ℕ
  fuel_of (const b) = 1
  fuel_of (bound b) = 1
  fuel_of (conj ts) = 5 + fuel_each ts
  fuel_of (disj ts) = 1 + fuel_each ts

  pub fuel_each : Terms → ℕ
  fuel_each no_terms = 0
  fuel_each (term t ts) = fuel_of t + fuel_each ts

empty_contains :
    (b : Bound) (s : Stay) → (is_empty b.add || is_empty b.rmv) ≡ true → bounded b s ≡ false
unfolding is_empty bounded contains
empty_contains b s h = ground arith

simpl_bound_empty :
    (f : ℕ) (b : Bound) → Logic.simpl b ≡ none → simpl (suc f) (bound b) ≡ some (const false)
unfolding simpl
simpl_bound_empty f b e = rw (e, simpl) refl

simpl_bound_solid :
    (f : ℕ) (b : Bound) → Logic.simpl b ≡ some b → simpl (suc f) (bound b) ≡ some (bound b)
unfolding simpl
simpl_bound_solid f b e = rw (e, simpl) refl

bound-Simplified : (f : ℕ) → 1 ≤ f → (b : Bound) → Simplified (simpl f) (bound b)
unfolding holds
bound-Simplified zero l b = absurd (omega arith)
bound-Simplified (suc f) l b = elim (Bool-cases (is_empty b.add || is_empty b.rmv)) [
  | inl e ↦ record {
    result = const false;
    runs = simpl_bound_empty f b (simpl_empty b e);
    normal = tt;
    means = λ s. sym (empty_contains b s e);
    shrinks = omega arith;
  }
  | inr e ↦ record {
    result = bound b;
    runs = simpl_bound_solid f b (simpl_solid b e);
    normal = e;
    means = λ s. refl;
    shrinks = omega arith;
  }
]

const-Simplified : (f : ℕ) → 1 ≤ f → (b : Bool) → Simplified (simpl f) (const b)
unfolding simpl
const-Simplified zero l b = absurd (omega arith)
const-Simplified (suc f) l b = record {
  result = const b;
  runs = refl;
  normal = tt;
  means = λ s. refl;
  shrinks = omega arith;
}

-- A disjunction whose terms are simplified on one unit of fuel less.
disj-Simplified :
    (f : ℕ) (ts : Terms)
    → All (Simplified (simpl f)) (list_of ts)
    → Simplified (simpl (suc f)) (disj ts)
unfolding simpl holds
disj-Simplified f ts h =
    let end = disj_step_lem (simpl f) (list_of ts) h in
    record {
      result = end.0;
      runs = end.1;
      normal = end.2;
      means = λ s. end.3 s ∙ any_holds-list_of s ts;
      shrinks = arity-le end.0;
    }

solid-Simplified : (f : ℕ) → 1 ≤ f → (t : Term) → IsSolid t → Simplified (simpl f) t
solid-Simplified f l (bound b) h = bound-Simplified f l b
solid-Simplified f l (const b) h = absurd h
solid-Simplified f l (conj b) h = absurd h
solid-Simplified f l (disj b) h = absurd h

-- A term in normal form takes two units of fuel, a disjunction of such terms three.
normal-Simplified : (f : ℕ) → 2 ≤ f → (t : Term) → IsNormal t → Simplified (simpl f) t
normal-Simplified zero l t h = absurd (omega arith)
normal-Simplified (suc f) l (const b) h = const-Simplified (suc f) (omega arith) b
normal-Simplified (suc f) l (bound b) h = bound-Simplified (suc f) (omega arith) b
normal-Simplified (suc f) l (conj ts) h = absurd h
normal-Simplified (suc f) l (disj ts) h =
    disj-Simplified f ts (All-mono (list_of ts) (solid-Simplified f (omega arith)) h.0)

normals-Simplified :
    (f : ℕ) → 3 ≤ f → (rs : List Term) → All IsNormal rs → Simplified (simpl f) (disj_of rs)
normals-Simplified zero l rs h = absurd (omega arith)
normals-Simplified (suc f) l rs h =
    disj-Simplified f (terms_of rs)
      (rw (list_of-terms_of rs) (All-mono rs (normal-Simplified f (omega arith)) h))

-- A conjunction whose terms are simplified on one unit of fuel less, with enough left to distribute it.
conj-Simplified :
    (f k : ℕ) (ts : Terms)
    → 3 ≤ f
    → All (Simplified (simpl f)) (list_of ts)
    → arities (list_of ts) ≤ k
    → ((us : List Term) → All IsPlain us → arities us < k → Simplified (simpl f) (conj_of us))
    → Simplified (simpl (suc f)) (conj ts)
unfolding simpl holds
conj-Simplified f k ts m h l on_conj =
    let end =
      conj_step_lem (simpl f) (bound-Simplified f (omega (arith, m))) (normals-Simplified f m) k
        on_conj (list_of ts) h l in
    record {
      result = end.0;
      runs = end.1;
      normal = end.2;
      means = λ s. end.3 s ∙ all_hold-list_of s ts;
      shrinks = arity-le end.0;
    }

-- A conjunction of terms in normal form takes a unit of fuel more for each disjunction in it.
plains-Simplified :
    (f k : ℕ) (us : List Term)
    → All IsPlain us
    → arities us ≤ k
    → 4 + k ≤ f
    → Simplified (simpl f) (conj_of us)
plains-Simplified zero k us h l m = absurd (omega arith)
plains-Simplified (suc f) k us h l m =
    conj-Simplified f k (terms_of us) (omega arith)
      (rw (list_of-terms_of us)
        (All-mono us (λ t p. normal-Simplified f (omega (arith, m)) t (plain-IsNormal t p)) h))
      (rw (list_of-terms_of us) l)
      (λ vs p q. plains-Simplified f (arities vs) vs p (omega arith) (omega (arith, q, m)))

arity-fuel_of : (t : Term) → arity t ≤ fuel_of t
unfolding fuel_of
arity-fuel_of (const b) = omega arith
arity-fuel_of (bound b) = omega arith
arity-fuel_of (conj ts) = omega arith
arity-fuel_of (disj ts) = omega arith

arities-fuel_each : (ts : Terms) → arities (list_of ts) ≤ fuel_each ts
unfolding fuel_of list_of
arities-fuel_each no_terms = omega arith
arities-fuel_each (term t ts) = omega (arith, arity-fuel_of t, arities-fuel_each ts)

mutual
  unfolding fuel_of list_of

  pub enough-Simplified : (f : ℕ) (t : Term) → fuel_of t ≤ f → Simplified (simpl f) t
  enough-Simplified f (const b) l = const-Simplified f l b
  enough-Simplified f (bound b) l = bound-Simplified f l b
  enough-Simplified zero (conj ts) l = absurd (omega arith)
  enough-Simplified (suc f) (conj ts) l =
      conj-Simplified f (fuel_each ts) ts (omega (arith, l))
        (each-Simplified f ts (omega (arith, l))) (arities-fuel_each ts)
        (λ us p q. plains-Simplified f (arities us) us p (omega arith) (omega (arith, q, l)))
  enough-Simplified zero (disj ts) l = absurd (omega arith)
  enough-Simplified (suc f) (disj ts) l =
      disj-Simplified f ts (each-Simplified f ts (omega (arith, l)))

  each-Simplified :
      (f : ℕ) (ts : Terms) → fuel_each ts ≤ f → All (Simplified (simpl f)) (list_of ts)
  each-Simplified f no_terms l = tt
  each-Simplified f (term t ts) l =
      (enough-Simplified f t (omega (arith, l)), each-Simplified f ts (omega (arith, l)))

-- With as much fuel as `fuel_of` says, `simpl` returns.
pub simpl_total : (f : ℕ) (t : Term) → fuel_of t ≤ f → (r : Term) × (simpl f t ≡ some r)
simpl_total f t l = let end = enough-Simplified f t l in (end.result, end.runs)
