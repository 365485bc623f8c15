-- ===== src/Interval/Merge.antt =====
-- The constructor of `Interval` keeps the timestamps of its atoms, where they come sorted.
use li_mo.Base.{
  ℕ, ◌≡◌, refl, ◌∙◌, Bool, true, false, not, ◌&&◌, ◌||◌, List, [], ◌∷◌, arith, ltb, ◌==◌, any,
  filter, filter_nil, filter_keep, filter_drop, All, Bool-cases, inl, inr,
}
use li_mo.Interval.Atomic.{AtomicInterval, is_empty, overlaps, contains}
use li_mo.Interval.Range.{interval, absorb, merge_from, merge, or_nil}

-- The timestamps of a union.
abbrev pub in_atoms : ℕ → List AtomicInterval → Bool
in_atoms t = any (λ a. contains a t)

-- Ordered by the left end, where a closed end comes before an open one.
abbrev pub left_le : AtomicInterval → AtomicInterval → Bool
left_le a b = ltb a.lbound b.lbound || ((a.lbound == b.lbound) && (not a.l_open || b.l_open))

abbrev pub SortedFrom : AtomicInterval → List AtomicInterval → Type 0
SortedFrom a [] = Unit
SortedFrom a (b ∷ rest) = (left_le a b ≡ true) × SortedFrom b rest

abbrev pub IsSorted : List AtomicInterval → Type 0
IsSorted [] = Unit
IsSorted (a ∷ rest) = SortedFrom a rest

pub SortedFrom-le :
    (a b : AtomicInterval) (xs : List AtomicInterval)
    → left_le a b ≡ true
    → SortedFrom b xs
    → SortedFrom a xs
SortedFrom-le a b [] h s = tt
SortedFrom-le a b (c ∷ xs) h s = (ground arith, s.1)

pub absorb-left :
    (a b : AtomicInterval) → ((absorb a b).lbound ≡ a.lbound) × ((absorb a b).l_open ≡ a.l_open)
unfolding absorb
absorb-left a b = ground arith

contains-absorb :
    (a b : AtomicInterval) (t : ℕ)
    → left_le a b ≡ true
    → is_empty a ≡ false
    → is_empty b ≡ false
    → overlaps a b ≡ true
    → contains (absorb a b) t ≡ (contains a t || contains b t)
unfolding absorb contains overlaps is_empty
contains-absorb a b t l x y o = ground arith

pub absorb-is_empty : (a b : AtomicInterval) → is_empty a ≡ false → is_empty (absorb a b) ≡ false
unfolding absorb is_empty
absorb-is_empty a b x = ground arith

in_atoms-merge_from :
    (a : AtomicInterval) (xs : List AtomicInterval) (t : ℕ)
    → SortedFrom a xs
    → is_empty a ≡ false
    → All (λ b. is_empty b ≡ false) xs
    → in_atoms t (merge_from a xs) ≡ (contains a t || in_atoms t xs)
unfolding merge_from any
in_atoms-merge_from a [] t s x xs = refl
in_atoms-merge_from a (b ∷ rest) t s x xs = elim (Bool-cases (overlaps a b)) [
  | inl o ↦
      rw (o, merge_from)
        (ground (
          arith,
          in_atoms-merge_from (absorb a b) rest t
              (SortedFrom-le (absorb a b) b rest (ground (arith, absorb-left a b)) s.1)
              (absorb-is_empty a b x) xs.1,
          contains-absorb a b t s.0 x xs.0 o,
        ))
  | inr o ↦ rw (o, merge_from) (ground (arith, in_atoms-merge_from b rest t s.1 xs.0 xs.1))
]

abbrev pub occupied : AtomicInterval → Bool
occupied a = not (is_empty a)

SortedFrom-IsSorted :
    (a : AtomicInterval) (xs : List AtomicInterval) → SortedFrom a xs → IsSorted xs
SortedFrom-IsSorted a [] s = tt
SortedFrom-IsSorted a (b ∷ rest) s = s.1

SortedFrom-filter :
    (a : AtomicInterval) (xs : List AtomicInterval)
    → SortedFrom a xs
    → SortedFrom a (filter occupied xs)
unfolding filter
SortedFrom-filter a [] s = tt
SortedFrom-filter a (b ∷ rest) s = elim (Bool-cases (occupied b)) [
  | inl e ↦ rw (filter_keep occupied b rest e) (s.0, SortedFrom-filter b rest s.1)
  | inr e ↦
      rw (filter_drop occupied b rest e) (SortedFrom-filter a rest (SortedFrom-le a b rest s.0 s.1))
]

pub filter-occupied :
    (xs : List AtomicInterval) → All (λ b. is_empty b ≡ false) (filter occupied xs)
unfolding filter
filter-occupied [] = tt
filter-occupied (a ∷ rest) = elim (Bool-cases (occupied a)) [
  | inl e ↦ rw (filter_keep occupied a rest e) (ground arith, filter-occupied rest)
  | inr e ↦ rw (filter_drop occupied a rest e) (filter-occupied rest)
]

contains-empty : (a : AtomicInterval) (t : ℕ) → is_empty a ≡ true → contains a t ≡ false
unfolding contains is_empty
contains-empty a t e = ground arith

in_atoms-filter :
    (xs : List AtomicInterval) (t : ℕ) → in_atoms t (filter occupied xs) ≡ in_atoms t xs
unfolding filter any
in_atoms-filter [] t = refl
in_atoms-filter (a ∷ rest) t = ground (arith, in_atoms-filter rest t, contains-empty a t)

pub IsSorted-filter : (xs : List AtomicInterval) → IsSorted xs → IsSorted (filter occupied xs)
unfolding filter
IsSorted-filter [] s = tt
IsSorted-filter (a ∷ rest) s = elim (Bool-cases (occupied a)) [
  | inl e ↦ rw (filter_keep occupied a rest e) (SortedFrom-filter a rest s)
  | inr e ↦ rw (filter_drop occupied a rest e) (IsSorted-filter rest (SortedFrom-IsSorted a rest s))
]

in_atoms-merge-or_nil :
    (xs : List AtomicInterval) (t : ℕ)
    → IsSorted xs
    → All (λ b. is_empty b ≡ false) xs
    → in_atoms t (merge (or_nil xs)) ≡ in_atoms t xs
unfolding merge or_nil any contains
in_atoms-merge-or_nil [] t s x = ground arith
in_atoms-merge-or_nil (a ∷ rest) t s x = in_atoms-merge_from a rest t s x.0 x.1

-- The constructor of `Interval` keeps exactly the timestamps of its atoms, where these come ordered
-- by their left ends, a closed end before an open one at the same timestamp.
pub contains-interval :
    (atoms : List AtomicInterval) (t : ℕ)
    → IsSorted atoms
    → in_atoms t (interval atoms true).atoms ≡ in_atoms t atoms
unfolding interval
contains-interval atoms t s =
    let kept = filter occupied atoms in
    in_atoms-merge-or_nil kept t (IsSorted-filter atoms s) (filter-occupied atoms)
    ∙ in_atoms-filter atoms t

merge_loses_left_end :
    (a b : AtomicInterval)
    → a.l_open ≡ true
    → b.l_open ≡ false
    → a.lbound ≡ b.lbound
    → is_empty a ≡ false
    → is_empty b ≡ false
    → (in_atoms a.lbound (a ∷ b ∷ []) ≡ true) × (in_atoms a.lbound (merge_from a (b ∷ [])) ≡ false)
unfolding merge_from absorb is_empty overlaps contains any
merge_loses_left_end a b p q e x y = ground arith

-- If the open end comes first, the timestamp at the shared left end is lost: the union of `(x, u)`
-- and a closed interval from `x` does not contain `x`.
pub interval_loses_left_end :
    (a b : AtomicInterval)
    → a.l_open ≡ true
    → b.l_open ≡ false
    → a.lbound ≡ b.lbound
    → is_empty a ≡ false
    → is_empty b ≡ false
    → (in_atoms a.lbound (a ∷ b ∷ []) ≡ true)
      × (in_atoms a.lbound (interval (a ∷ b ∷ []) true).atoms ≡ false)
unfolding interval
interval_loses_left_end a b p q e x y = rw (filter_keep occupied a (b ∷ []) (ground arith)) (
    rw (filter_keep occupied b [] (ground arith))
      (rw (filter_nil occupied) (merge_loses_left_end a b p q e x y)))
