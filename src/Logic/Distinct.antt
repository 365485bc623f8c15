-- ===== src/Logic/Distinct.antt =====
-- The loop that keeps of equal terms the first: what it keeps means the same, and is distinct.
use li_mo.Base.{
  ◌+◌, ◌≤◌, ◌≡◌, ◌≢◌, sym, ap, ◌∙◌, Bool, true, false, ◌&&◌, ◌||◌, List, [], ◌∷◌, ◌++◌, arith, All,
  Pairs, any, Bool-cases, inl, inr, All-append, Pairs-append, All-mono,
}
use li_mo.Relation.Product.{Stay}
use li_mo.Logic.Term.{Term, equal}
use li_mo.Logic.Simpl.{distinct}
use li_mo.Logic.Meaning.{holds, all_hold, any_holds, all_hold-append, any_holds-append, equal_refl}
use li_mo.Logic.Normal.{arities, all_hold-any, any_holds-any}

module _ (it : Term) (nt ntp : List Term) where
  skips : any (equal it) nt ≡ true → distinct nt (it ∷ ntp) ≡ distinct nt ntp
  unfolding distinct
  skips e = rw (e, distinct)

  keeps : any (equal it) nt ≡ false → distinct nt (it ∷ ntp) ≡ distinct (nt ++ it ∷ []) ntp
  unfolding distinct
  keeps e = rw (e, distinct)

pub all_hold-distinct :
    (s : Stay) (nt ntp : List Term)
    → all_hold s (distinct nt ntp) ≡ (all_hold s nt && all_hold s ntp)
unfolding distinct all_hold
all_hold-distinct s nt [] = and_true (all_hold s nt)
  where
    and_true : (p : Bool) → p ≡ (p && true)
    and_true p = ground arith
all_hold-distinct s nt (it ∷ ntp) = elim (Bool-cases (any (equal it) nt)) [
  | inl e ↦ rw (skips it nt ntp e) (
      all_hold-distinct s nt ntp
      ∙ ap (λ b. b && all_hold s ntp) (sym (all_hold-any it s nt e))
      ∙ assoc (all_hold s nt) (holds it s) (all_hold s ntp))
  | inr e ↦ rw (keeps it nt ntp e) (
      all_hold-distinct s (nt ++ it ∷ []) ntp
      ∙ ap (λ b. b && all_hold s ntp) (all_hold-append s nt (it ∷ []))
      ∙ assoc_one (all_hold s nt) (holds it s) (all_hold s ntp))
]
  where
    assoc : (p q r : Bool) → ((p && q) && r) ≡ (p && (q && r))
    assoc p q r = ground arith

    assoc_one : (p q r : Bool) → ((p && (q && true)) && r) ≡ (p && (q && r))
    assoc_one p q r = ground arith

pub any_holds-distinct :
    (s : Stay) (nt ntp : List Term)
    → any_holds s (distinct nt ntp) ≡ (any_holds s nt || any_holds s ntp)
unfolding distinct any_holds
any_holds-distinct s nt [] = or_false (any_holds s nt)
  where
    or_false : (p : Bool) → p ≡ (p || false)
    or_false p = ground arith
any_holds-distinct s nt (it ∷ ntp) = elim (Bool-cases (any (equal it) nt)) [
  | inl e ↦ rw (skips it nt ntp e) (
      any_holds-distinct s nt ntp
      ∙ ap (λ b. b || any_holds s ntp) (sym (any_holds-any it s nt e))
      ∙ assoc (any_holds s nt) (holds it s) (any_holds s ntp))
  | inr e ↦ rw (keeps it nt ntp e) (
      any_holds-distinct s (nt ++ it ∷ []) ntp
      ∙ ap (λ b. b || any_holds s ntp) (any_holds-append s nt (it ∷ []))
      ∙ assoc_one (any_holds s nt) (holds it s) (any_holds s ntp))
]
  where
    assoc : (p q r : Bool) → ((p || q) || r) ≡ (p || (q || r))
    assoc p q r = ground arith

    assoc_one : (p q r : Bool) → ((p || (q || false)) || r) ≡ (p || (q || r))
    assoc_one p q r = ground arith

pub All-distinct {κ} :
    (P : Term → Type κ) (nt ntp : List Term) → All P nt → All P ntp → All P (distinct nt ntp)
unfolding distinct
All-distinct P nt [] h k = h
All-distinct P nt (it ∷ ntp) h k = elim (Bool-cases (any (equal it) nt)) [
  | inl e ↦ rw (skips it nt ntp e) (All-distinct P nt ntp h k.1)
  | inr e ↦
      rw (keeps it nt ntp e)
        (All-distinct P (nt ++ it ∷ []) ntp (All-append P nt (it ∷ []) h (k.0, tt)) k.1)
]

arities-append : (xs ys : List Term) → arities (xs ++ ys) ≡ arities xs + arities ys
arities-append [] ys = omega arith
arities-append (x ∷ xs) ys = omega (arith, arities-append xs ys)

pub arities-distinct : (nt ntp : List Term) → arities (distinct nt ntp) ≤ arities nt + arities ntp
unfolding distinct
arities-distinct nt [] = omega arith
arities-distinct nt (it ∷ ntp) = elim (Bool-cases (any (equal it) nt)) [
  | inl e ↦ rw (skips it nt ntp e) (omega (arith, arities-distinct nt ntp))
  | inr e ↦
      rw (keeps it nt ntp e)
        (omega (arith, arities-distinct (nt ++ it ∷ []) ntp, arities-append nt (it ∷ [])))
]

-- Terms that `equal` tells apart from each of the list differ from them.
differs : (it : Term) (nt : List Term) → any (equal it) nt ≡ false → All (λ t. t ≢ it) nt
unfolding any
differs it [] e = tt
differs it (t ∷ nt) e =
    let l = none_true (equal it t) (any (equal it) nt) e in
    ((λ p. clash (ap (λ u. equal it u) p ∙ equal_refl it) l.0), differs it nt l.1)
  where
    none_true : (p q : Bool) → (p || q) ≡ false → (p ≡ false) × (q ≡ false)
    none_true p q h = ground arith

    clash : {b : Bool} → b ≡ true → b ≡ false → ⊥
    clash p q = cc

pub distinct-Pairs :
    (nt ntp : List Term) → Pairs (λ t u. t ≢ u) nt → Pairs (λ t u. t ≢ u) (distinct nt ntp)
unfolding distinct
distinct-Pairs nt [] h = h
distinct-Pairs nt (it ∷ ntp) h = elim (Bool-cases (any (equal it) nt)) [
  | inl e ↦ rw (skips it nt ntp e) (distinct-Pairs nt ntp h)
  | inr e ↦ rw (keeps it nt ntp e) (
      distinct-Pairs (nt ++ it ∷ []) ntp (
        Pairs-append (λ t u. t ≢ u) nt (it ∷ []) h (tt, tt)
          (All-mono nt (λ t d. (d, tt)) (differs it nt e))))
]
