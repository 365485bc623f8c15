-- ===== src/Logic/Meaning.antt =====
-- What a term means for a value: whether a stay satisfies it.
use li_mo.Base.{◌≡◌, refl, sym, ap, Bool, true, false, ◌&&◌, ◌||◌, List, [], ◌∷◌, ◌++◌, arith}
use mathlib.Core.Bool.{xor}
use li_mo.Interval.Atomic.{AtomicInterval}
use li_mo.Cover.Events.{itv_eq}
use li_mo.Relation.Product.{Stay}
use li_mo.Logic.{Bound}
use li_mo.Logic
use li_mo.Logic.Bounds.{bounded, both_true}
use li_mo.Logic.Term.{
  Term, const, bound, conj, disj, Terms, no_terms, term, list_of, terms_of, conj_of, disj_of, equal,
  equal_each, equal_from, equal_from_each,
}

unfoldable mutual
  pub holds : Term → Stay → Bool
  holds (const b) s = b
  holds (bound b) s = bounded b s
  holds (conj ts) s = holds_all ts s
  holds (disj ts) s = holds_any ts s

  pub holds_all : Terms → Stay → Bool
  holds_all no_terms s = true
  holds_all (term t ts) s = holds t s && holds_all ts s

  pub holds_any : Terms → Stay → Bool
  holds_any no_terms s = false
  holds_any (term t ts) s = holds t s || holds_any ts s

module _ (s : Stay) where
  unfoldable pub all_hold : List Term → Bool
  all_hold [] = true
  all_hold (t ∷ ts) = holds t s && all_hold ts

  unfoldable pub any_holds : List Term → Bool
  any_holds [] = false
  any_holds (t ∷ ts) = holds t s || any_holds ts

  pub all_hold-list_of : (ts : Terms) → all_hold (list_of ts) ≡ holds_all ts s
  unfolding all_hold list_of holds
  all_hold-list_of no_terms = refl
  all_hold-list_of (term t ts) = ap (λ b. holds t s && b) (all_hold-list_of ts)

  pub any_holds-list_of : (ts : Terms) → any_holds (list_of ts) ≡ holds_any ts s
  unfolding any_holds list_of holds
  any_holds-list_of no_terms = refl
  any_holds-list_of (term t ts) = ap (λ b. holds t s || b) (any_holds-list_of ts)

  pub holds-conj_of : (ts : List Term) → holds (conj_of ts) s ≡ all_hold ts
  unfolding all_hold terms_of holds
  holds-conj_of [] = refl
  holds-conj_of (t ∷ ts) = ap (λ b. holds t s && b) (holds-conj_of ts)

  pub holds-disj_of : (ts : List Term) → holds (disj_of ts) s ≡ any_holds ts
  unfolding any_holds terms_of holds
  holds-disj_of [] = refl
  holds-disj_of (t ∷ ts) = ap (λ b. holds t s || b) (holds-disj_of ts)

  pub all_hold-append : (ts us : List Term) → all_hold (ts ++ us) ≡ (all_hold ts && all_hold us)
  unfolding all_hold
  all_hold-append [] us = refl
  all_hold-append (t ∷ ts) us = ground (arith, all_hold-append ts us)

  pub any_holds-append : (ts us : List Term) → any_holds (ts ++ us) ≡ (any_holds ts || any_holds us)
  unfolding any_holds
  any_holds-append [] us = refl
  any_holds-append (t ∷ ts) us = ground (arith, any_holds-append ts us)

itv_eq-eq : (a b : AtomicInterval) → itv_eq a b ≡ true → a ≡ b
unfolding xor
itv_eq-eq a b h = ground arith

pub Bound-eq : (a b : Bound) → Logic.equal a b ≡ true → a ≡ b
Bound-eq a b h = ground (arith, itv_eq-eq a.add b.add, itv_eq-eq a.rmv b.rmv)

mutual
  unfolding equal

  equal-eq : (t u : Term) → equal t u ≡ true → t ≡ u
  equal-eq (const a) (const b) h = ground arith
  equal-eq (bound a) (bound b) h = ap bound (Bound-eq a b h)
  equal-eq (conj ts) (conj us) h = ap conj (equal_from_each-eq ts us h)
  equal-eq (disj ts) (disj us) h = ap disj (equal_from_each-eq ts us h)
  equal-eq _ _ h = cc

  equal_each-eq : (ts us : Terms) → equal_each ts us ≡ true → ts ≡ us
  equal_each-eq no_terms no_terms h = refl
  equal_each-eq (term t ts) (term u us) h =
      let l = both_true (equal t u) (equal_each ts us) h in
      rw (equal-eq t u l.0, equal_each-eq ts us l.1) refl
  equal_each-eq _ _ h = cc

  equal_from-eq : (t u : Term) → equal_from t u ≡ true → t ≡ u
  equal_from-eq (const a) (const b) h = ground arith
  equal_from-eq (bound a) (bound b) h = ap bound (sym (Bound-eq b a h))
  equal_from-eq (conj ts) (conj us) h = ap conj (equal_each-eq ts us h)
  equal_from-eq (disj ts) (disj us) h = ap disj (equal_each-eq ts us h)
  equal_from-eq _ _ h = cc

  equal_from_each-eq : (ts us : Terms) → equal_from_each ts us ≡ true → ts ≡ us
  equal_from_each-eq no_terms no_terms h = refl
  equal_from_each-eq (term t ts) (term u us) h =
      let l = both_true (equal_from t u) (equal_from_each ts us) h in
      rw (equal_from-eq t u l.0, equal_from_each-eq ts us l.1) refl
  equal_from_each-eq _ _ h = cc

-- Terms that `equal` finds equal are the same.
pub equal_lem : (t u : Term) → equal t u ≡ true → t ≡ u
equal_lem t u h = equal-eq t u h

same_flag : (b : Bool) → xor b b ≡ false
unfolding xor
same_flag b = ground arith

itv_eq_refl : (a : AtomicInterval) → itv_eq a a ≡ true
itv_eq_refl a = rw (same_flag a.l_open, same_flag a.u_open) (ground arith)

Bound-refl : (a : Bound) → Logic.equal a a ≡ true
Bound-refl a = rw (itv_eq_refl a.add, itv_eq_refl a.rmv) refl

mutual
  unfolding equal

  equal_self : (t : Term) → equal t t ≡ true
  equal_self (const b) = ground arith
  equal_self (bound b) = Bound-refl b
  equal_self (conj ts) = equal_from_each_self ts
  equal_self (disj ts) = equal_from_each_self ts

  equal_each_self : (ts : Terms) → equal_each ts ts ≡ true
  equal_each_self no_terms = refl
  equal_each_self (term t ts) = rw (equal_self t, equal_each_self ts) refl

  equal_from_self : (t : Term) → equal_from t t ≡ true
  equal_from_self (const b) = ground arith
  equal_from_self (bound b) = Bound-refl b
  equal_from_self (conj ts) = equal_each_self ts
  equal_from_self (disj ts) = equal_each_self ts

  equal_from_each_self : (ts : Terms) → equal_from_each ts ts ≡ true
  equal_from_each_self no_terms = refl
  equal_from_each_self (term t ts) = rw (equal_from_self t, equal_from_each_self ts) refl

pub equal_refl : (t : Term) → equal t t ≡ true
equal_refl t = equal_self t
