-- ===== src/Tests/Terms.antt =====
-- Terms over bounds at concrete timestamps.
use li_mo.Base.{◌≡◌, ◌≢◌, refl, true, some, ok, List, [], ◌∷◌, arith, any}
use li_mo.Interval.Atomic.{closed}
use li_mo.Relation.Product.{Stay}
use li_mo.Logic.{Bound, nil_bound}
use li_mo.Logic
use li_mo.Logic.Bounds.{bounded}
use li_mo.Logic.Term.{
  Term, const, bound, conj, disj, Terms, no_terms, term, bound_disj, size, equal,
}
use li_mo.Logic.Simpl.{simpl}
use li_mo.Logic.Meaning.{holds}
use li_mo.Logic.Normal.{IsNormal}
use li_mo.Logic.Total.{fuel_of}
use li_mo.Logic.Normalize.{simpl-IsNormal, simpl-holds, bound_disj-simpl}

abbrev early : Bound
early = record { add = closed 2 4; rmv = closed 5 7 }

abbrev late : Bound
late = record { add = closed 8 9; rmv = closed 10 12 }

abbrev wide : Bound
wide = record { add = closed 1 9; rmv = closed 6 12 }

abbrev either : Term
either = disj (term (bound early) (term (bound late) no_terms))

abbrev within : Term
within = conj (term (bound wide) (term either no_terms))

-- `within` as `simpl` leaves it.
abbrev distributed : Term
distributed =
    disj (term (bound (record { add = closed 2 4; rmv = closed 6 7 })) (term (bound late) no_terms))

simpl-within : simpl 9 within ≡ some distributed
unfolding simpl Logic.implies Logic.simpl any equal li_mo.Logic.Simpl.keep_maximal
    li_mo.Logic.Term.terms_of
simpl-within = refl

const_true_bounds : bound_disj (const true) ≡ some (ok (nil_bound ∷ []))
unfolding bound_disj
const_true_bounds = refl

simpl-IsNormal_example : (r : Term) × (simpl 9 within ≡ some r) × IsNormal r
unfolding fuel_of
simpl-IsNormal_example = simpl-IsNormal 9 within (omega arith)

simpl-holds_example :
    (r : Term) × (simpl 9 within ≡ some r) × ((s : Stay) → holds r s ≡ holds within s)
unfolding fuel_of
simpl-holds_example = simpl-holds 9 within (omega arith)

distributed_differs : distributed ≢ const true
distributed_differs e = cc

bound_disj-simpl_example :
    (bs : List Bound) × (bound_disj distributed ≡ some (ok bs))
    × ((s : Stay) → any (λ b. bounded b s) bs ≡ holds within s)
unfolding fuel_of
bound_disj-simpl_example =
    bound_disj-simpl 9 within distributed (omega arith) simpl-within distributed_differs
