-- ===== src/Logic/Normalize.antt =====
-- `simpl` as a whole: it returns, what it returns is in normal form and means the same, and `bound_disj`
-- reads the bounds off it.
use li_mo.Base.{
  ℕ, ◌≤◌, ◌≡◌, ◌≢◌, refl, sym, ap, ◌∙◌, subst, Bool, true, false, ◌||◌, some, List, [], ◌∷◌, arith,
  All, any, some_inj, ok,
}
use li_mo.Interval.Atomic.{contains}
use li_mo.Relation.Product.{Stay}
use li_mo.Logic.{Bound, nil_bound}
use li_mo.Logic.Bounds.{bounded}
use li_mo.Logic.Term.{Term, const, bound, conj, disj, list_of, bound_disj, cast_each}
use li_mo.Logic.Simpl.{simpl, bounds_of}
use li_mo.Logic.Meaning.{holds, any_holds, any_holds-list_of}
use li_mo.Logic.Normal.{IsSolid, IsNormal}
use li_mo.Logic.DisjStep.{bounds_of-All, any_holds-bounds}
use li_mo.Logic.Total.{fuel_of, enough-Simplified}

-- With as much fuel as `fuel_of` says, `simpl` returns, and returns a constant, a bound that is not
-- empty, or a disjunction of at least two such bounds, none of which implies another one.
pub simpl-IsNormal :
    (f : ℕ) (t : Term) → fuel_of t ≤ f → (r : Term) × (simpl f t ≡ some r) × IsNormal r
simpl-IsNormal f t l = let end = enough-Simplified f t l in (end.result, end.runs, end.normal)

-- With as much fuel as `fuel_of` says, `simpl` returns, and a stay satisfies the term that it returns
-- exactly where it satisfies the term that it is given.
pub simpl-holds :
    (f : ℕ) (t : Term)
    → fuel_of t ≤ f
    → (r : Term) × (simpl f t ≡ some r) × ((s : Stay) → holds r s ≡ holds t s)
simpl-holds f t l = let end = enough-Simplified f t l in (end.result, end.runs, end.means)

cast_each-All : (ts : List Term) → All IsSolid ts → cast_each ts ≡ some (bounds_of ts)
unfolding cast_each
cast_each-All [] h = refl
cast_each-All (bound b ∷ ts) h = rw (cast_each-All ts h.1) refl
cast_each-All (const b ∷ ts) h = absurd h.0
cast_each-All (conj b ∷ ts) h = absurd h.0
cast_each-All (disj b ∷ ts) h = absurd h.0

nil_bounded : (s : Stay) → bounded nil_bound s ≡ false
unfolding bounded contains
nil_bounded s = ground arith

-- Where a term is in normal form and is not the constant true, its bounds are read without a wrong cast
-- and without an exception, and mean together what the term means.
normal-bound_disj :
    (r : Term)
    → IsNormal r
    → r ≢ const true
    → (bs : List Bound) × (bound_disj r ≡ some (ok bs))
      × ((s : Stay) → any (λ b. bounded b s) bs ≡ holds r s)
unfolding bound_disj holds any
normal-bound_disj (const true) n d = absurd (d refl)
normal-bound_disj (const false) n d = (nil_bound ∷ [], refl, λ s. rw (nil_bounded s) refl)
normal-bound_disj (bound b) n d = (b ∷ [], refl, λ s. or_false (bounded b s))
  where
    or_false : (x : Bool) → (x || false) ≡ x
    or_false x = ground arith
normal-bound_disj (conj ts) n d = absurd n
normal-bound_disj (disj ts) n d = (
  bounds_of (list_of ts),
  rw (cast_each-All (list_of ts) n.0) refl,
  λ s.
      sym (any_holds-bounds s (bounds_of (list_of ts)))
      ∙ ap (any_holds s) (sym (bounds_of-All (list_of ts) n.0))
      ∙ any_holds-list_of s ts,
)

-- Where `simpl` has as much fuel as `fuel_of` says and does not return the constant true,
-- `bound_disj` on what it returns neither throws nor casts to a bound what is none, and a stay is
-- within one of the bounds exactly where it satisfies the term.
pub bound_disj-simpl :
    (f : ℕ) (t r : Term)
    → fuel_of t ≤ f
    → simpl f t ≡ some r
    → r ≢ const true
    → (bs : List Bound) × (bound_disj r ≡ some (ok bs))
      × ((s : Stay) → any (λ b. bounded b s) bs ≡ holds t s)
bound_disj-simpl f t r l e d =
    let end = enough-Simplified f t l in
    let same = some_inj (sym end.runs ∙ e) in
    let read = normal-bound_disj r (subst IsNormal same end.normal) d in
    (read.0, read.1, λ s. read.2 s ∙ ap (λ z. holds z s) (sym same) ∙ end.means s)
