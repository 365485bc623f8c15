-- ===== src/Logic/DisjStep.antt =====
-- `Disj::simpl`: where its terms are simplified, it reaches a normal form that means the same.
use li_mo.Base.{
  ◌≤◌, ◌≡◌, ◌≢◌, refl, sym, ap, ◌∙◌, Bool, true, false, ◌||◌, Option, some, List, [], ◌∷◌, arith,
  All, Pairs, any, map,
}
use li_mo.Relation.Product.{Stay}
use li_mo.Logic.{Bound, implies}
use li_mo.Logic.Bounds.{bounded}
use li_mo.Logic.Term.{Term, const, bound, conj, disj, list_of, terms_of}
use li_mo.Logic.Simpl.{
  Gathered, decided, remaining, distinct, bounds_of, others_of, keep_maximal, disj_exit, disj_rest,
  disj_step,
}
use li_mo.Logic.Meaning.{holds, any_holds, holds-disj_of}
use li_mo.Logic.Normal.{
  IsSolid, Unrelated, IsNormal, arity, Simplified, DisjGathered, gather_disj_lem,
}
use li_mo.Logic.Distinct.{any_holds-distinct, All-distinct, distinct-Pairs}
use li_mo.Logic.Maximal.{keep_maximal-Pairs, any-keep_maximal}
use li_mo.Logic.Subsume.{All-keep_maximal}

pub arity-le : (t : Term) → arity t ≤ 1
arity-le (const b) = omega arith
arity-le (bound b) = omega arith
arity-le (conj ts) = omega arith
arity-le (disj ts) = omega arith

pub list_of-terms_of : (ts : List Term) → list_of (terms_of ts) ≡ ts
unfolding list_of terms_of
list_of-terms_of [] = refl
list_of-terms_of (t ∷ ts) = ap (◌∷◌ t) (list_of-terms_of ts)

abbrev Solid : Bound → Type 0
Solid b = IsSolid (bound b)

-- Terms that are all bounds.
pub bounds_of-All : (nt : List Term) → All IsSolid nt → nt ≡ map bound (bounds_of nt)
bounds_of-All [] h = refl
bounds_of-All (bound b ∷ nt) h = ap (◌∷◌ (bound b)) (bounds_of-All nt h.1)
bounds_of-All (const b ∷ nt) h = absurd h.0
bounds_of-All (conj ts ∷ nt) h = absurd h.0
bounds_of-All (disj ts ∷ nt) h = absurd h.0

others_of-All : (nt : List Term) → All IsSolid nt → others_of nt ≡ []
others_of-All [] h = refl
others_of-All (bound b ∷ nt) h = others_of-All nt h.1
others_of-All (const b ∷ nt) h = absurd h.0
others_of-All (conj ts ∷ nt) h = absurd h.0
others_of-All (disj ts ∷ nt) h = absurd h.0

All-bounds_of : (nt : List Term) → All IsSolid nt → All Solid (bounds_of nt)
All-bounds_of [] h = tt
All-bounds_of (bound b ∷ nt) h = (h.0, All-bounds_of nt h.1)
All-bounds_of (const b ∷ nt) h = absurd h.0
All-bounds_of (conj ts ∷ nt) h = absurd h.0
All-bounds_of (disj ts ∷ nt) h = absurd h.0

differ_each :
    (b : Bound) (nt : List Term) → All (λ u. bound b ≢ u) nt → All (λ c. b ≢ c) (bounds_of nt)
differ_each b [] h = tt
differ_each b (bound c ∷ nt) h = ((λ e. h.0 (ap bound e)), differ_each b nt h.1)
differ_each b (const c ∷ nt) h = differ_each b nt h.1
differ_each b (conj c ∷ nt) h = differ_each b nt h.1
differ_each b (disj c ∷ nt) h = differ_each b nt h.1

bounds_of-Pairs : (nt : List Term) → Pairs (λ t u. t ≢ u) nt → Pairs (λ b c. b ≢ c) (bounds_of nt)
bounds_of-Pairs [] h = tt
bounds_of-Pairs (bound b ∷ nt) h = (differ_each b nt h.0, bounds_of-Pairs nt h.1)
bounds_of-Pairs (const b ∷ nt) h = bounds_of-Pairs nt h.1
bounds_of-Pairs (conj b ∷ nt) h = bounds_of-Pairs nt h.1
bounds_of-Pairs (disj b ∷ nt) h = bounds_of-Pairs nt h.1

pub any_holds-bounds :
    (s : Stay) (bs : List Bound) → any_holds s (map bound bs) ≡ any (λ b. bounded b s) bs
unfolding any_holds any holds
any_holds-bounds s [] = refl
any_holds-bounds s (b ∷ bs) = ap (λ z. bounded b s || z) (any_holds-bounds s bs)

Solid-map : (bs : List Bound) → All Solid bs → All IsSolid (map bound bs)
Solid-map [] h = tt
Solid-map (b ∷ bs) h = (h.0, Solid-map bs h.1)

Unrelated-map_row :
    (b : Bound) (bs : List Bound)
    → All (λ c. (implies b c ≡ false) × (implies c b ≡ false)) bs
    → All (Unrelated (bound b)) (map bound bs)
Unrelated-map_row b [] h = tt
Unrelated-map_row b (c ∷ bs) h = (h.0, Unrelated-map_row b bs h.1)

Unrelated-map :
    (bs : List Bound)
    → Pairs (λ b c. (implies b c ≡ false) × (implies c b ≡ false)) bs
    → Pairs Unrelated (map bound bs)
Unrelated-map [] h = tt
Unrelated-map (b ∷ bs) h = (Unrelated-map_row b bs h.0, Unrelated-map bs h.1)

-- A disjunction of distinct bounds, reduced to the ones that imply no other one.
disj_exit_lem :
    (ts : List Term)
    → All IsSolid ts
    → Pairs Unrelated ts
    → IsNormal (disj_exit ts) × ((s : Stay) → holds (disj_exit ts) s ≡ any_holds s ts)
unfolding any_holds holds
disj_exit_lem [] h p = (tt, λ s. refl)
disj_exit_lem (bound b ∷ []) h p = (h.0, λ s. or_false (bounded b s))
  where
    or_false : (x : Bool) → x ≡ (x || false)
    or_false x = ground arith
disj_exit_lem (const b ∷ []) h p = absurd h.0
disj_exit_lem (conj b ∷ []) h p = absurd h.0
disj_exit_lem (disj b ∷ []) h p = absurd h.0
disj_exit_lem (t ∷ u ∷ ts) h p =
    (rw (list_of-terms_of (t ∷ u ∷ ts)) (h, p, omega arith), λ s. holds-disj_of s (t ∷ u ∷ ts))

-- `disj_rest` on distinct bounds.
pub disj_rest_lem :
    (nt : List Term)
    → All IsSolid nt
    → Pairs (λ t u. t ≢ u) nt
    → IsNormal (disj_rest nt) × ((s : Stay) → holds (disj_rest nt) s ≡ any_holds s nt)
unfolding disj_rest any_holds holds
disj_rest_lem [] h p = (tt, λ s. refl)
disj_rest_lem (t ∷ []) h p = disj_exit_lem (t ∷ []) h (tt, tt)
disj_rest_lem (t ∷ u ∷ ts) h p =
    let nt = t ∷ u ∷ ts in
    let bs = bounds_of nt in
    let kept = keep_maximal [] bs in
    let exit =
      disj_exit_lem (map bound kept)
        (Solid-map kept (All-keep_maximal Solid [] bs (All-bounds_of nt h)))
        (Unrelated-map kept (keep_maximal-Pairs [] bs)) in
    rw (others_of-All nt h) (
      exit.0,
      λ s.
          exit.1 s
          ∙ any_holds-bounds s kept
          ∙ any-keep_maximal s bs (bounds_of-Pairs nt p)
          ∙ sym (any_holds-bounds s bs)
          ∙ ap (any_holds s) (sym (bounds_of-All nt h)),
    )

-- `Disj::simpl` on simplified terms.
pub disj_step_lem :
    (step : Term → Option Term) (ts : List Term)
    → All (Simplified step) ts
    → (r : Term) × (disj_step step ts ≡ some r)
      × IsNormal r
      × ((s : Stay) → holds r s ≡ any_holds s ts)
unfolding disj_step holds any_holds
disj_step_lem step ts h = let g = gather_disj_lem step ts h in rw g.1 (on_gathered g.0 g.2)
  where
    on_gathered :
        (g : Gathered)
        → DisjGathered ts g
        → (r : Term) × ((elim g [
          | decided ↦ some (const true)
          | remaining ntp ↦ some (disj_rest (distinct [] ntp))
        ])
            ≡ some r)
          × IsNormal r
          × ((s : Stay) → holds r s ≡ any_holds s ts)
    on_gathered decided d = (const true, refl, tt, λ s. sym (d s))
    on_gathered (remaining ntp) d =
        let nt = distinct [] ntp in
        let exit =
          disj_rest_lem nt (All-distinct IsSolid [] ntp tt d.0) (distinct-Pairs [] ntp tt) in
        (disj_rest nt, refl, exit.0, λ s. exit.1 s ∙ any_holds-distinct s [] ntp ∙ d.1 s)
