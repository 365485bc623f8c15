-- ===== src/Logic/ConjStep.antt =====
-- `Conj::simpl`: where the terms that it simplifies are simplified, it reaches a normal form that means
-- the same.
use li_mo.Base.{
  ℕ, ◌≤◌, ◌<◌, ◌≡◌, refl, sym, ap, ◌∙◌, Bool, true, false, ◌&&◌, ◌||◌, Option, none, some, List, [],
  ◌∷◌, arith, All, Option-cases, inl, inr, some_inj, subst, nothing,
}
use li_mo.Relation.Product.{Stay}
use li_mo.Logic.{Bound, conj_bounds}
use li_mo.Logic.Bounds.{bounded, bounded-conj_bounds, all_bounded}
use li_mo.Logic.Term.{Term, const, bound, conj, disj, conj_of, disj_of, went_on}
use li_mo.Logic.Simpl.{
  Gathered, decided, remaining, distinct, bounds_of, others_of, split_disj, distribute, merged,
  conj_exit, conj_rest, conj_step,
}
use li_mo.Logic.Meaning.{
  holds, all_hold, any_holds, holds-conj_of, holds-disj_of, any_holds-list_of,
}
use li_mo.Logic.Normal.{
  IsSolid, IsNormal, IsPlain, arity, arities, Simplified, ConjGathered, gather_conj_lem,
}
use li_mo.Logic.Distinct.{all_hold-distinct, All-distinct, arities-distinct}

-- What `split_disj` makes of terms in normal form.
record Parts (nt ds others : List Term) : Type 0 where
  solid : All IsSolid ds
  plain : All IsPlain others
  fewer : arities others < arities nt
  means : (s : Stay) → all_hold s nt ≡ (any_holds s ds && all_hold s others)

split_disj_lem :
    (nt ds others : List Term)
    → All IsPlain nt
    → split_disj nt ≡ some (ds, others)
    → Parts nt ds others
unfolding split_disj all_hold holds
split_disj_lem [] ds others h e = absurd (nothing e)
split_disj_lem (disj us ∷ nt) ds others h e =
    subst (λ z. Parts (disj us ∷ nt) z.0 z.1) (some_inj e)
      (record {
        solid = h.0.0;
        plain = h.1;
        fewer = omega arith;
        means = λ s. ap (λ b. b && all_hold s nt) (sym (any_holds-list_of s us));
      })
split_disj_lem (bound b ∷ nt) ds others h e =
    let on = went_on (split_disj nt) (λ z. some (z.0, bound b ∷ z.1)) (ds, others) e in
    let ih = split_disj_lem nt on.0.0 on.0.1 h.1 on.1 in
    subst (λ z. Parts (bound b ∷ nt) z.0 z.1) (some_inj on.2)
      (record {
        solid = ih.solid;
        plain = (h.0, ih.plain);
        fewer = omega (arith, ih.fewer);
        means = λ s.
            ap (λ z. bounded b s && z) (ih.means s)
            ∙ swapped (bounded b s) (any_holds s on.0.0) (all_hold s on.0.1);
      })
  where
    swapped : (x y z : Bool) → (x && (y && z)) ≡ (y && (x && z))
    swapped x y z = ground arith
split_disj_lem (const b ∷ nt) ds others h e = absurd h.0
split_disj_lem (conj us ∷ nt) ds others h e = absurd h.0

no_disj : (nt : List Term) → All IsPlain nt → split_disj nt ≡ none → All IsSolid nt
unfolding split_disj
no_disj [] h e = tt
no_disj (disj us ∷ nt) h e = absurd (nothing (sym e))
no_disj (bound b ∷ nt) h e = (h.0, no_disj nt h.1 (ground (arith, Option-cases (split_disj nt))))
no_disj (const b ∷ nt) h e = absurd h.0
no_disj (conj us ∷ nt) h e = absurd h.0

others_of-All : (nt : List Term) → All IsSolid nt → others_of nt ≡ []
others_of-All [] h = refl
others_of-All (bound b ∷ nt) h = others_of-All nt h.1
others_of-All (const b ∷ nt) h = absurd h.0
others_of-All (conj ts ∷ nt) h = absurd h.0
others_of-All (disj ts ∷ nt) h = absurd h.0

all_hold-bounds :
    (s : Stay) (nt : List Term) → All IsSolid nt → all_hold s nt ≡ all_bounded (bounds_of nt) s
unfolding all_hold holds all_bounded
all_hold-bounds s [] h = refl
all_hold-bounds s (bound b ∷ nt) h = ap (λ z. bounded b s && z) (all_hold-bounds s nt h.1)
all_hold-bounds s (const b ∷ nt) h = absurd h.0
all_hold-bounds s (conj ts ∷ nt) h = absurd h.0
all_hold-bounds s (disj ts ∷ nt) h = absurd h.0

pub plain-IsNormal : (t : Term) → IsPlain t → IsNormal t
plain-IsNormal (const b) h = absurd h
plain-IsNormal (bound b) h = h
plain-IsNormal (conj ts) h = h
plain-IsNormal (disj ts) h = h

solid-IsPlain : (t : Term) → IsSolid t → IsPlain t
solid-IsPlain (const b) h = absurd h
solid-IsPlain (bound b) h = h
solid-IsPlain (conj ts) h = absurd h
solid-IsPlain (disj ts) h = absurd h

arity-solid : (t : Term) → IsSolid t → arity t ≡ 0
arity-solid (const b) h = refl
arity-solid (bound b) h = refl
arity-solid (conj ts) h = absurd h
arity-solid (disj ts) h = absurd h

and_true_right : (p : Bool) → p ≡ (p && true)
and_true_right p = ground arith

-- The steps that the exits of `Conj::simpl` take.
module _ (step : Term → Option Term) (on_bound : (b : Bound) → Simplified step (bound b))
    (on_disj : (rs : List Term) → All IsNormal rs → Simplified step (disj_of rs)) where
  -- Bounds are joined to one.
  joined_lem :
      (b : Bound) (nt : List Term)
      → All IsSolid (bound b ∷ nt)
      → (r : Term) × (conj_exit step (merged (bound b ∷ nt)) ≡ some r)
        × IsNormal r
        × ((s : Stay) → holds r s ≡ all_hold s (bound b ∷ nt))
  unfolding merged all_hold holds
  joined_lem b nt h =
      let end = on_bound (conj_bounds b (bounds_of nt)) in
      rw (others_of-All nt h.1) (
        end.result,
        end.runs,
        end.normal,
        λ s.
            end.means s
            ∙ bounded-conj_bounds b (bounds_of nt) s
            ∙ ap (λ z. bounded b s && z) (sym (all_hold-bounds s nt h.1)),
      )

  from_bounds :
      (t : Term) (nt : List Term)
      → All IsSolid (t ∷ nt)
      → (r : Term) × (conj_exit step (merged (t ∷ nt)) ≡ some r)
        × IsNormal r
        × ((s : Stay) → holds r s ≡ all_hold s (t ∷ nt))
  from_bounds (bound b) nt h = joined_lem b nt h
  from_bounds (const b) nt h = absurd h.0
  from_bounds (conj b) nt h = absurd h.0
  from_bounds (disj b) nt h = absurd h.0

  module _ (others : List Term)
      (on_conj : (d : Term) → IsSolid d → Simplified step (conj_of (d ∷ others))) where
    distribute_lem :
        (ds : List Term)
        → All IsSolid ds
        → (rs : List Term) × (distribute step others ds ≡ some rs)
          × All IsNormal rs
          × ((s : Stay) → any_holds s rs ≡ (any_holds s ds && all_hold s others))
    unfolding distribute any_holds all_hold holds
    distribute_lem [] h = ([], refl, tt, λ s. refl)
    distribute_lem (d ∷ ds) h =
        let one = on_conj d h.0 in
        let ih = distribute_lem ds h.1 in
        rw (one.runs, ih.1)
          (
            one.result ∷ ih.0,
            refl,
            (one.normal, ih.2),
            λ s.
                rw (one.means s ∙ holds-conj_of s (d ∷ others), ih.3 s)
                  (shared (holds d s) (any_holds s ds) (all_hold s others)),
          )
      where
        shared : (x y z : Bool) → ((x && z) || (y && z)) ≡ ((x || y) && z)
        shared x y z = ground arith

  module _ (limit : ℕ)
      (on_conj : (us : List Term)
        → All IsPlain us
        → arities us < limit
        → Simplified step (conj_of us)) where
    conj_rest_lem :
        (nt : List Term)
        → All IsPlain nt
        → arities nt ≤ limit
        → (r : Term) × (conj_rest step nt ≡ some r)
          × IsNormal r
          × ((s : Stay) → holds r s ≡ all_hold s nt)
    unfolding conj_rest all_hold holds
    conj_rest_lem [] h l = (const true, refl, tt, λ s. refl)
    conj_rest_lem (t ∷ []) h l = (t, refl, plain-IsNormal t h.0, λ s. and_true_right (holds t s))
    conj_rest_lem (t ∷ u ∷ ts) h l = elim (Option-cases (split_disj (t ∷ u ∷ ts))) [
      | inl n ↦ rw (n, conj_rest) (from_bounds t (u ∷ ts) (no_disj (t ∷ u ∷ ts) h n))
      | inr p ↦
          let parts = split_disj_lem (t ∷ u ∷ ts) p.0.0 p.0.1 h p.1 in
          let each =
            distribute_lem p.0.1
              (λ d q.
                on_conj (d ∷ p.0.1) (solid-IsPlain d q, parts.plain)
                  (omega (arith, arity-solid d q, parts.fewer)))
              p.0.0 parts.solid in
          let end = on_disj each.0 each.2 in
          rw (p.1, conj_rest, each.1)
            (
              end.result,
              end.runs,
              end.normal,
              λ s. end.means s ∙ holds-disj_of s each.0 ∙ each.3 s ∙ sym (parts.means s),
            )
    ]

    -- `Conj::simpl` on simplified terms.
    pub conj_step_lem :
        (ts : List Term)
        → All (Simplified step) ts
        → arities ts ≤ limit
        → (r : Term) × (conj_step step ts ≡ some r)
          × IsNormal r
          × ((s : Stay) → holds r s ≡ all_hold s ts)
    unfolding conj_step holds all_hold
    conj_step_lem ts h l = let g = gather_conj_lem step ts h in rw g.1 (on_gathered g.0 g.2)
      where
        on_gathered :
            (g : Gathered)
            → ConjGathered ts g
            → (r : Term) × ((elim g [
              | decided ↦ some (const false)
              | remaining ntp ↦ conj_rest step (distinct [] ntp)
            ])
                ≡ some r)
              × IsNormal r
              × ((s : Stay) → holds r s ≡ all_hold s ts)
        on_gathered decided d = (const false, refl, tt, λ s. sym (d s))
        on_gathered (remaining ntp) d =
            let rest =
              conj_rest_lem (distinct [] ntp) (All-distinct IsPlain [] ntp tt d.0)
                (omega (arith, arities-distinct [] ntp, d.2, l)) in
            (rest.0, rest.1, rest.2, λ s. rest.3 s ∙ all_hold-distinct s [] ntp ∙ d.1 s)
