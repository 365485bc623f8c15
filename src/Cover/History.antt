-- ===== src/Cover/History.antt =====
-- `CoverVal` and `CoverHistory` of include/coverhistory.h with the operations of
-- events/src/coverhistory.cpp that do not read events. The set of values is a list in ascending
-- order of the upper bound of the addition.
use li_mo.Base.{
  ℕ, zero, suc, Bool, true, false, not, ◌&&◌, ◌||◌, List, [], ◌∷◌, ◌++◌, map, ltb, leb,
  if◌then◌else◌, length, nonempty, filter, any,
}
use li_mo.Event.{Val, Event, val_eq}
use li_mo.Interval.Atomic.{AtomicInterval, neg_inf, pos_inf, closed, overlaps}
use li_mo.Interval.Range.{Interval, interval}

pub record CoverVal : Type 0 where
  pub val : Val
  pub add : AtomicInterval
  pub rmv : AtomicInterval
  pub push_era : ℕ
  pub pop_era : ℕ
  pub push_crash : Bool
  pub pop_crash : Bool

abbrev pub cover_val : Val → AtomicInterval → AtomicInterval → CoverVal
cover_val v add rmv = record {
  val = v;
  add = add;
  rmv = rmv;
  push_era = 0;
  pop_era = 0;
  push_crash = false;
  pop_crash = false;
}

-- From the end of the push to the beginning of the pop.
abbrev pub cover_of : CoverVal → AtomicInterval
cover_of v = closed v.add.ubound v.rmv.lbound

abbrev pub bound_of : CoverVal → AtomicInterval
bound_of v = closed v.add.lbound v.rmv.ubound

abbrev pub val_before : CoverVal → CoverVal → Bool
val_before v w = ltb v.add.ubound w.add.ubound

-- `std::set::insert`, which keeps a value that compares equal.
unfoldable pub insert_value : CoverVal → List CoverVal → List CoverVal
insert_value v [] = v ∷ []
insert_value v (w ∷ ws) = elim (val_before v w) [
  | true ↦ v ∷ w ∷ ws
  | false ↦ elim (val_before w v) [ true ↦ w ∷ insert_value v ws | false ↦ w ∷ ws ]
]

-- The constructor leaves `era` without a value; a history takes the one that it starts in.
pub record CoverHistory : Type 0 where
  pub values : List CoverVal
  pub empties : List AtomicInterval
  pub era : ℕ
  pub open_calls : List (ℕ × Event)
  pub unmatched_removes : List (Val × AtomicInterval)

abbrev pub of_values : List CoverVal → CoverHistory
of_values vs = record {
  values = vs;
  empties = [];
  era = 0;
  open_calls = [];
  unmatched_removes = [];
}

unfoldable pub add_value : CoverHistory → CoverVal → CoverHistory
unfolding insert_value
add_value h v = record h { values = insert_value v h.values }

unfoldable pub add_empty : CoverHistory → AtomicInterval → CoverHistory
add_empty h op = record h { empties = h.empties ++ op ∷ [] }

pub data Last : Type 0 where
  pop_empty push push_pop epsilon : Last

unfoldable pub last_kind : CoverHistory → Last
last_kind h = elim h.empties [
  | e ∷ es ↦ pop_empty
  | [] ↦ elim h.values [ v ∷ vs ↦ push_pop | [] ↦ epsilon ]
]

abbrev pub sound : CoverHistory → Bool
sound h = elim h.unmatched_removes [ [] ↦ true | r ∷ rs ↦ false ]

unfoldable pub simple : CoverHistory → Bool
unfolding any
simple h = not (any (λ v. overlaps v.add v.rmv) h.values)

unfoldable pub simplify : CoverHistory → CoverHistory
unfolding filter
simplify h = record h { values = filter (λ v. not (overlaps v.add v.rmv)) h.values }

unfoldable pub is_finished : CoverHistory → Bool
is_finished h = elim h.open_calls [ [] ↦ true | c ∷ cs ↦ false ]

-- The values are in the order of their cover's lower bound, so the vector is sorted already.
unfoldable pub cover : List CoverVal → Interval
cover vs = interval (map cover_of vs) true

-- The two loops of `cover_bounds`.
unfoldable pub cover_lower : ℕ → List CoverVal → ℕ
cover_lower lb [] = lb
cover_lower lb (v ∷ vs) =
    cover_lower (if ltb (cover_of v).lbound lb then (cover_of v).lbound else lb) vs

unfoldable pub cover_upper : ℕ → List CoverVal → ℕ
cover_upper ub [] = ub
cover_upper ub (v ∷ vs) =
    cover_upper (if ltb ub (cover_of v).ubound then (cover_of v).ubound else ub) vs

unfoldable pub cover_bounds : List CoverVal → AtomicInterval
unfolding cover_lower cover_upper
cover_bounds vs = closed (cover_lower pos_inf vs) (cover_upper neg_inf vs)

-- Pushed before all covers end to begin, and popped after all of them.
abbrev pub is_minmax : AtomicInterval → CoverVal → Bool
is_minmax ai v = leb v.add.lbound ai.lbound && leb ai.ubound v.rmv.ubound

unfoldable pub minmax : List CoverVal → List CoverVal
unfolding filter cover_bounds
minmax vs = filter (is_minmax (cover_bounds vs)) vs

-- The two iterators that take the values of the second set out of the first.
unfoldable pub erase_all : List CoverVal → List CoverVal → List CoverVal
erase_all [] ms = []
erase_all (v ∷ vs) [] = v ∷ vs
erase_all (v ∷ vs) (m ∷ ms) = elim (val_eq v.val m.val) [
  | true ↦ erase_all vs (m ∷ ms)
  | false ↦ elim (val_before v m) [
    | true ↦ v ∷ erase_all vs (m ∷ ms)
    | false ↦ erase_all (v ∷ vs) ms
  ]
]

-- The `while` of `minmax_prune` with fuel for its rounds.
unfoldable pub prune : ℕ → List CoverVal → List CoverVal
unfolding minmax erase_all
prune zero vs = vs
prune (suc fuel) vs = elim (minmax vs) [ [] ↦ vs | m ∷ ms ↦ prune fuel (erase_all vs (m ∷ ms)) ]

-- Whether any value was removed, and what is left. Each round removes a value.
unfoldable pub minmax_prune : CoverHistory → Bool × CoverHistory
unfolding prune
minmax_prune h =
    (nonempty (minmax h.values), record h { values = prune (length h.values) h.values })

abbrev pub in_left : AtomicInterval → CoverVal → Bool
in_left i v = ltb v.add.ubound i.lbound || leb v.rmv.lbound i.lbound

-- `std::partition_copy`
unfoldable pub split : CoverHistory → AtomicInterval → CoverHistory × CoverHistory
unfolding filter
split h i =
    (of_values (filter (in_left i) h.values), of_values (filter (λ v. not (in_left i v)) h.values))

-- One part for each opening, and the last for what is left.
unfoldable pub segmentize : CoverHistory → List AtomicInterval → List CoverHistory
unfolding split
segmentize h [] = h ∷ []
segmentize h (i ∷ rest) = let (left, right) = split h i in left ∷ segmentize right rest
