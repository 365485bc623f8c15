-- ===== src/Interval/Apart.antt =====
-- Atoms in ascending order with a gap between neighbours: what the constructor of `Interval`
-- leaves, and what `complement` does to it.
use li_mo.Base.{
  ℕ, ◌<◌, ◌≡◌, refl, ap, ◌∙◌, Bool, true, false, not, ◌&&◌, ◌||◌, List, [], ◌∷◌, arith, ltb, leb,
  ◌==◌, any, filter-All, All, Bool-cases, inl, inr,
}
use li_mo.Interval.Atomic.{AtomicInterval, atomic, pos_inf, is_empty, overlaps, contains}
use li_mo.Interval.Range.{Interval, interval, absorb, merge_from, merge, or_nil, gaps, complement}
use li_mo.Interval.Merge.{
  occupied, in_atoms, IsSorted, SortedFrom, absorb-left, absorb-is_empty, SortedFrom-le, left_le,
  contains-interval,
}

-- The atom begins behind the end `lb`, which is taken itself unless `l_open` is false.
abbrev pub starts_after : Bool → ℕ → AtomicInterval → Bool
starts_after l_open lb a = ltb lb a.lbound || ((lb == a.lbound) && (not l_open && a.l_open))

abbrev pub Apart : Bool → ℕ → List AtomicInterval → Type 0
Apart l_open lb [] = Unit
Apart l_open lb (a ∷ rest) =
    (starts_after l_open lb a ≡ true) × (is_empty a ≡ false) × Apart (not a.u_open) a.ubound rest

not-overlaps-starts_after :
    (a b : AtomicInterval)
    → left_le a b ≡ true
    → is_empty a ≡ false
    → is_empty b ≡ false
    → overlaps a b ≡ false
    → starts_after (not a.u_open) a.ubound b ≡ true
unfolding overlaps is_empty
not-overlaps-starts_after a b l x y o = ground arith

-- The merged list keeps a gap between neighbours.
pub merge_from-Apart :
    (l_open : Bool) (lb : ℕ) (a : AtomicInterval) (xs : List AtomicInterval)
    → starts_after l_open lb a ≡ true
    → SortedFrom a xs
    → is_empty a ≡ false
    → All (λ b. is_empty b ≡ false) xs
    → Apart l_open lb (merge_from a xs)
unfolding merge_from
merge_from-Apart l_open lb a [] h s x xs = (h, x, tt)
merge_from-Apart l_open lb a (b ∷ rest) h s x xs = elim (Bool-cases (overlaps a b)) [
  | inl o ↦
      rw (o, merge_from)
        (merge_from-Apart l_open lb (absorb a b) rest (ground (arith, absorb-left a b))
          (SortedFrom-le (absorb a b) b rest (ground (arith, absorb-left a b)) s.1)
          (absorb-is_empty a b x) xs.1)
  | inr o ↦
      rw (o, merge_from)
        (
          h,
          x,
          merge_from-Apart (not a.u_open) a.ubound b rest
              (not-overlaps-starts_after a b s.0 x xs.0 o) s.1 xs.0 xs.1,
        )
]

-- Is the timestamp behind the end `lb`?
abbrev behind : Bool → ℕ → ℕ → Bool
behind l_open lb t = ltb lb t || (not l_open && leb lb t)

Apart-not_behind :
    (l_open : Bool) (lb t : ℕ) (xs : List AtomicInterval)
    → Apart l_open lb xs
    → behind l_open lb t ≡ false
    → in_atoms t xs ≡ false
unfolding any contains is_empty
Apart-not_behind l_open lb t [] h b = refl
Apart-not_behind l_open lb t (a ∷ rest) h b =
    ground (arith, Apart-not_behind (not a.u_open) a.ubound t rest h.2)

gap_step :
    (l_open : Bool) (lb t : ℕ) (a : AtomicInterval) (later : Bool)
    → starts_after l_open lb a ≡ true
    → is_empty a ≡ false
    → (behind (not a.u_open) a.ubound t ≡ false → later ≡ false)
    → (contains (atomic l_open lb a.lbound (not a.l_open)) t
        || (behind (not a.u_open) a.ubound t && not later))
      ≡ (behind l_open lb t && not (contains a t || later))
unfolding contains is_empty
gap_step l_open lb t a true h x k = elim (Bool-cases (behind (not a.u_open) a.ubound t)) [
  | inl b ↦ ground arith
  | inr b ↦ cc (k b)
]
gap_step l_open lb t a false h x k = ground arith

gap_last :
    (l_open : Bool) (lb t : ℕ)
    → t < pos_inf
    → (contains (atomic l_open lb pos_inf true) t || false) ≡ (behind l_open lb t && true)
unfolding contains
gap_last l_open lb t k = ground arith

in_atoms-gaps :
    (l_open : Bool) (lb t : ℕ) (xs : List AtomicInterval)
    → Apart l_open lb xs
    → t < pos_inf
    → in_atoms t (gaps l_open lb xs) ≡ (behind l_open lb t && not (in_atoms t xs))
unfolding any gaps
in_atoms-gaps l_open lb t [] h k = gap_last l_open lb t k
in_atoms-gaps l_open lb t (a ∷ rest) h k =
    ap (◌||◌ (contains (atomic l_open lb a.lbound (not a.l_open)) t))
      (in_atoms-gaps (not a.u_open) a.ubound t rest h.2 k)
    ∙ gap_step l_open lb t a (in_atoms t rest) h.0 h.1
        (Apart-not_behind (not a.u_open) a.ubound t rest h.2)

gaps-SortedFrom :
    (l_open : Bool) (lb : ℕ) (g : AtomicInterval) (xs : List AtomicInterval)
    → (ltb g.lbound lb || ((g.lbound == lb) && (not g.l_open || l_open))) ≡ true
    → Apart l_open lb xs
    → SortedFrom g (gaps l_open lb xs)
unfolding gaps is_empty
gaps-SortedFrom l_open lb g [] h s = (h, tt)
gaps-SortedFrom l_open lb g (a ∷ rest) h s =
    let gap = atomic l_open lb a.lbound (not a.l_open) in
    (h, gaps-SortedFrom (not a.u_open) a.ubound gap rest (next_left l_open lb a s.0 s.1) s.2)
  where
    next_left :
        (l : Bool) (n : ℕ) (b : AtomicInterval)
        → starts_after l n b ≡ true
        → is_empty b ≡ false
        → (ltb n b.ubound || ((n == b.ubound) && (not l || not b.u_open))) ≡ true
    next_left l n b k x = ground arith

gaps-IsSorted :
    (l_open : Bool) (lb : ℕ) (xs : List AtomicInterval)
    → Apart l_open lb xs
    → IsSorted (gaps l_open lb xs)
unfolding gaps
gaps-IsSorted l_open lb [] s = tt
gaps-IsSorted l_open lb (a ∷ rest) s =
    (gaps-SortedFrom l_open lb (atomic l_open lb lb true) (a ∷ rest) (ground arith) s).1

-- `complement` contains exactly the timestamps between the two infinities that the interval does
-- not contain, where its atoms are in order, apart and behind `NEGINF`.
pub contains-complement :
    (i : Interval) (t : ℕ)
    → Apart true 0 i.atoms
    → 0 < t
    → t < pos_inf
    → in_atoms t (complement i).atoms ≡ not (in_atoms t i.atoms)
unfolding complement
contains-complement i t s p q =
    contains-interval (gaps true 0 i.atoms) t (gaps-IsSorted true 0 i.atoms s)
    ∙ in_atoms-gaps true 0 t i.atoms s q
    ∙ ground arith

pub interval_of_occupied :
    (a : AtomicInterval) (xs : List AtomicInterval)
    → All (λ b. is_empty b ≡ false) (a ∷ xs)
    → (interval (a ∷ xs) true).atoms ≡ merge_from a xs
unfolding interval merge or_nil
interval_of_occupied a xs x =
    ap (λ l. merge (or_nil l)) (filter-All occupied (a ∷ xs) (occupied_all (a ∷ xs) x))
  where
    occupied_all :
        (l : List AtomicInterval) → All (λ b. is_empty b ≡ false) l → All (λ b. occupied b ≡ true) l
    occupied_all [] h = tt
    occupied_all (b ∷ l) h = (ap not h.0, occupied_all l h.1)

-- The constructor leaves its atoms in order, none empty, with a gap between neighbours: what it is
-- given has to be sorted, not empty and behind `NEGINF`.
pub interval-Apart :
    (a : AtomicInterval) (xs : List AtomicInterval)
    → SortedFrom a xs
    → All (λ b. is_empty b ≡ false) (a ∷ xs)
    → 0 < a.lbound
    → Apart true 0 (interval (a ∷ xs) true).atoms
interval-Apart a xs s x p =
    rw (interval_of_occupied a xs x) (merge_from-Apart true 0 a xs (ground arith) s x.0 x.1)
