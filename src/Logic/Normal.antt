-- ===== src/Logic/Normal.antt =====
-- The normal form that `simpl` reaches, and the loops over subterms that are in it.
use li_mo.Base.{
  ℕ, ◌+◌, ◌≤◌, ◌≡◌, refl, sym, ◌∙◌, Bool, true, false, ◌&&◌, ◌||◌, Option, some, List, [], ◌∷◌,
  ◌++◌, arith, All, Pairs, any, Bool-cases, inl, inr, All-append, length,
}
use li_mo.Interval.Atomic.{is_empty}
use li_mo.Relation.Product.{Stay}
use li_mo.Logic.{implies}
use li_mo.Logic.Term.{Term, const, bound, conj, disj, list_of, equal}
use li_mo.Logic.Simpl.{Gathered, decided, remaining, conj_next, disj_next, gather_conj, gather_disj}
use li_mo.Logic.Meaning.{holds, all_hold, any_holds, any_holds-append, any_holds-list_of, equal_lem}

-- A bound that some stay may satisfy.
abbrev pub IsSolid : Term → Type 0
IsSolid (bound b) = (is_empty b.add || is_empty b.rmv) ≡ false
IsSolid _ = ⊥

-- Neither bound implies the other.
abbrev pub Unrelated : Term → Term → Type 0
Unrelated (bound a) (bound b) = (implies a b ≡ false) × (implies b a ≡ false)
Unrelated _ _ = ⊥

-- A constant, a bound that is not empty, or a disjunction of at least two such bounds, none of which
-- implies another.
abbrev pub IsNormal : Term → Type 0
IsNormal (const b) = Unit
IsNormal (bound b) = IsSolid (bound b)
IsNormal (conj ts) = ⊥
IsNormal (disj ts) =
    All IsSolid (list_of ts) × Pairs Unrelated (list_of ts) × (2 ≤ length (list_of ts))

-- A term in normal form that is no constant.
abbrev pub IsPlain : Term → Type 0
IsPlain (const b) = ⊥
IsPlain t = IsNormal t

abbrev pub arity : Term → ℕ
arity (const b) = 0
arity (bound b) = 0
arity _ = 1

abbrev pub arities : List Term → ℕ
arities [] = 0
arities (t ∷ ts) = arity t + arities ts

-- A step brings the term to a normal form that means the same.
pub record Simplified (step : Term → Option Term) (t : Term) : Type 0 where
  pub result : Term
  pub runs : step t ≡ some result
  pub normal : IsNormal result
  pub means : (s : Stay) → holds result s ≡ holds t s
  pub shrinks : arity result ≤ arity t

abbrev pub ConjGathered : List Term → Gathered → Type 0
ConjGathered ts decided = (s : Stay) → all_hold s ts ≡ false
ConjGathered ts (remaining us) =
    All IsPlain us × ((s : Stay) → all_hold s us ≡ all_hold s ts) × (arities us ≤ arities ts)

abbrev pub DisjGathered : List Term → Gathered → Type 0
DisjGathered ts decided = (s : Stay) → any_holds s ts ≡ true
DisjGathered ts (remaining us) = All IsSolid us × ((s : Stay) → any_holds s us ≡ any_holds s ts)

and_false : (p : Bool) → (p && false) ≡ false
and_false p = ground arith

or_true : (p : Bool) → (p || true) ≡ true
or_true p = ground arith

module _ (t : Term) (ts : List Term) where
  conj_next_lem :
      (r : Term) (g : Gathered)
      → IsNormal r
      → ((s : Stay) → holds r s ≡ holds t s)
      → arity r ≤ arity t
      → ConjGathered ts g
      → (end : Gathered) × (conj_next r (some g) ≡ some end) × ConjGathered (t ∷ ts) end
  unfolding all_hold holds conj_next
  conj_next_lem (const true) decided n m a h = (decided, refl, λ s. rw (sym (m s)) (h s))
  conj_next_lem (const true) (remaining us) n m a h =
      (remaining us, refl, (h.0, (λ s. rw (sym (m s)) (h.1 s)), omega (arith, h.2)))
  conj_next_lem (const false) g n m a h = (decided, refl, λ s. rw (sym (m s)) refl)
  conj_next_lem (conj us) g n m a h = absurd n
  conj_next_lem r decided n m a h = (decided, refl, λ s. rw (h s) (and_false (holds t s)))
  conj_next_lem r (remaining us) n m a h =
      (remaining (r ∷ us), refl, ((n, h.0), (λ s. rw (m s, h.1 s) refl), omega (arith, h.2, a)))

  disj_next_lem :
      (r : Term) (g : Gathered)
      → IsNormal r
      → ((s : Stay) → holds r s ≡ holds t s)
      → DisjGathered ts g
      → (end : Gathered) × (disj_next r (some g) ≡ some end) × DisjGathered (t ∷ ts) end
  unfolding any_holds holds disj_next
  disj_next_lem (const true) g n m h = (decided, refl, λ s. rw (sym (m s)) refl)
  disj_next_lem (const false) decided n m h = (decided, refl, λ s. rw (sym (m s)) (h s))
  disj_next_lem (const false) (remaining us) n m h =
      (remaining us, refl, (h.0, λ s. rw (sym (m s)) (h.1 s)))
  disj_next_lem (conj us) g n m h = absurd n
  disj_next_lem r decided n m h = (decided, refl, λ s. rw (h s) (or_true (holds t s)))
  disj_next_lem (bound b) (remaining us) n m h =
      (remaining (bound b ∷ us), refl, ((n, h.0), λ s. rw (m s, h.1 s) refl))
  disj_next_lem (disj rs) (remaining us) n m h = (
    remaining (list_of rs ++ us),
    refl,
    (
      All-append IsSolid (list_of rs) us n.0 h.0,
      λ s. any_holds-append s (list_of rs) us ∙ rw (any_holds-list_of s rs, m s, h.1 s) refl,
    ),
  )

-- The loops over the subterms, where each of them is simplified.
module _ (step : Term → Option Term) where
  pub gather_conj_lem :
      (ts : List Term)
      → All (Simplified step) ts
      → (g : Gathered) × (gather_conj step ts ≡ some g) × ConjGathered ts g
  unfolding gather_conj all_hold
  gather_conj_lem [] h = (remaining [], refl, (tt, (λ s. refl), omega arith))
  gather_conj_lem (t ∷ ts) h =
      let ih = gather_conj_lem ts h.1 in
      rw (ih.1, h.0.runs) (conj_next_lem t ts h.0.result ih.0 h.0.normal h.0.means h.0.shrinks ih.2)

  pub gather_disj_lem :
      (ts : List Term)
      → All (Simplified step) ts
      → (g : Gathered) × (gather_disj step ts ≡ some g) × DisjGathered ts g
  unfolding gather_disj any_holds
  gather_disj_lem [] h = (remaining [], refl, (tt, λ s. refl))
  gather_disj_lem (t ∷ ts) h =
      let ih = gather_disj_lem ts h.1 in
      rw (ih.1, h.0.runs) (disj_next_lem t ts h.0.result ih.0 h.0.normal h.0.means ih.2)

-- A term that equals one of the list adds nothing to what the list means.
module _ (it : Term) (s : Stay) where
  pub all_hold-any :
      (nt : List Term) → any (equal it) nt ≡ true → (all_hold s nt && holds it s) ≡ all_hold s nt
  unfolding any all_hold
  all_hold-any [] h = cc
  all_hold-any (t ∷ nt) h = elim (Bool-cases (equal it t)) [
    | inl e ↦ rw (equal_lem it t e) (absorbed (holds t s) (all_hold s nt))
    | inr e ↦ regroup (holds t s) (all_hold s nt) (holds it s) (all_hold-any nt (ground arith))
  ]
    where
      absorbed : (p q : Bool) → ((p && q) && p) ≡ (p && q)
      absorbed p q = ground arith

      regroup : (p q r : Bool) → (q && r) ≡ q → ((p && q) && r) ≡ (p && q)
      regroup p q r e = ground arith

  pub any_holds-any :
      (nt : List Term) → any (equal it) nt ≡ true → (any_holds s nt || holds it s) ≡ any_holds s nt
  unfolding any any_holds
  any_holds-any [] h = cc
  any_holds-any (t ∷ nt) h = elim (Bool-cases (equal it t)) [
    | inl e ↦ rw (equal_lem it t e) (absorbed (holds t s) (any_holds s nt))
    | inr e ↦ regroup (holds t s) (any_holds s nt) (holds it s) (any_holds-any nt (ground arith))
  ]
    where
      absorbed : (p q : Bool) → ((p || q) || p) ≡ (p || q)
      absorbed p q = ground arith

      regroup : (p q r : Bool) → (q || r) ≡ q → ((p || q) || r) ≡ (p || q)
      regroup p q r e = ground arith
