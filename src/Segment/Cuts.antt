-- ===== src/Segment/Cuts.antt =====
-- The segments of an operation leave no timestamp out, stay within it and are cut everywhere.
use li_mo.Base.{
  ℕ, suc, ◌<◌, ◌≤◌, ◌≡◌, refl, true, false, ◌&&◌, some, List, [], ◌∷◌, ◌++◌, arith, ltb, filter,
  Bool-cases, inl, inr, get_elem?, some_inj, nothing, subst, sym, ◌∙◌, All, All-mono, All-zip,
  Pairs, Pairs-filter, filter_keep, filter_drop, ◌⊎◌, Bool,
}
use li_mo.Interval.Atomic.{AtomicInterval, closedopen, contains}
use li_mo.Segment.{all_finite, SegmentBuilder, Segmentation, segmentation, cut, segmentize, segment}

-- Some segment contains the timestamp.
abbrev pub InSegment : List ℕ → ℕ → Type 0
InSegment ts t =
    (idx : ℕ) × (i : AtomicInterval) × (segment ts idx ≡ some i) × (contains i t ≡ true)

found_between : (a : ℕ) (xs : List ℕ) (b t : ℕ) → a ≤ t → t < b → InSegment (a ∷ xs ++ b ∷ []) t
unfolding segment get_elem? contains
found_between a [] b t h k = (0, closedopen a b, refl, ground arith)
found_between a (x ∷ xs) b t h k = elim (Bool-cases (ltb t x)) [
  | inl e ↦ (0, closedopen a x, refl, inside e)
  | inr e ↦ let (idx, i, p, q) = found_between x xs b t (reached e) k in (suc idx, i, p, q)
]
  where
    inside : ltb t x ≡ true → contains (closedopen a x) t ≡ true
    inside e = ground arith

    reached : ltb t x ≡ false → x ≤ t
    reached e = ground arith

segmentize_cuts :
    (b : SegmentBuilder) (conc : List ℕ) (s : Segmentation)
    → segmentize b conc ≡ some s
    → segmentation (cut b.add_call b.add_ret conc) (cut b.rmv_call b.rmv_ret conc) ≡ s
unfolding segmentize
segmentize_cuts b conc s e = elim (Bool-cases (all_finite b conc)) [
  | inl g ↦ some_inj (sym (rw (g, segmentize) refl) ∙ e)
  | inr g ↦ absurd (nothing (sym (rw (g, segmentize) refl) ∙ e))
]

-- If the operations of a value are cut into segments, in whatever order the cuts come, then every timestamp of its push before the
-- return is in a segment of the push, and every one of its pop in a segment of the pop.
pub segmentize-InSegment :
    (b : SegmentBuilder) (conc : List ℕ) (s : Segmentation) (t u : ℕ)
    → segmentize b conc ≡ some s
    → b.add_call ≤ t
    → t < b.add_ret
    → b.rmv_call ≤ u
    → u < b.rmv_ret
    → InSegment s.add_ts t × InSegment s.rmv_ts u
segmentize-InSegment b conc s t u e h k l m =
    subst (λ z. InSegment z.add_ts t × InSegment z.rmv_ts u) (segmentize_cuts b conc s e)
      (in_cut b.add_call b.add_ret t h k, in_cut b.rmv_call b.rmv_ret u l m)
  where
    in_cut : (from to v : ℕ) → from ≤ v → v < to → InSegment (cut from to conc) v
    in_cut from to v p q =
        unfold cut in found_between from (filter (λ w. ltb from w && ltb w to) conc) to v p q

-- A segment within the operation contains the timestamp, and no cut is strictly inside of it.
abbrev pub CutsAt : ℕ → ℕ → List ℕ → List ℕ → ℕ → Type 0
CutsAt call ret conc ts t =
    (idx : ℕ) × (i : AtomicInterval) × (segment ts idx ≡ some i)
    × (contains i t ≡ true)
    × (call ≤ i.lbound)
    × (i.ubound ≤ ret)
    × All (λ w. (w ≤ i.lbound) ⊎ (i.ubound ≤ w)) conc

abbrev Strictly : ℕ → ℕ → ℕ → Type 0
Strictly a b w = (a < w) × (w < b)

cut_between :
    (a : ℕ) (xs : List ℕ) (b t : ℕ)
    → a < b
    → All (Strictly a b) xs
    → Pairs (λ v w. v < w) xs
    → a ≤ t
    → t < b
    → CutsAt a b xs (a ∷ xs ++ b ∷ []) t
unfolding segment get_elem? contains
cut_between a [] b t l s o h k =
    (0, closedopen a b, refl, ground arith, omega arith, omega arith, tt)
cut_between a (x ∷ xs) b t l s o h k = elim (Bool-cases (ltb t x)) [
  | inl e ↦ (
    0,
    closedopen a x,
    refl,
    inside e,
    omega arith,
    omega (arith, s.0.1),
    (inr (omega arith), All-mono xs (λ w q. inr (omega (arith, q))) o.0),
  )
  | inr e ↦
      let inner = All-zip xs (λ w q r. (q, r.1)) o.0 s.1 in
      let (idx, i, p, q, u, v, w) = cut_between x xs b t s.0.1 inner o.1 (reached e) k in
      (suc idx, i, p, q, omega (arith, u, s.0.0), v, (inl u, w))
]
  where
    inside : ltb t x ≡ true → contains (closedopen a x) t ≡ true
    inside e = ground arith

    reached : ltb t x ≡ false → x ≤ t
    reached e = ground arith

module _ (call ret : ℕ) where
  abbrev between : ℕ → Bool
  between w = ltb call w && ltb w ret

  filter-Strictly : (ws : List ℕ) → All (Strictly call ret) (filter between ws)
  unfolding filter
  filter-Strictly [] = tt
  filter-Strictly (w ∷ ws) = elim (Bool-cases (between w)) [
    | inl e ↦ rw (filter_keep between w ws e) (strict e, filter-Strictly ws)
    | inr e ↦ rw (filter_drop between w ws e) (filter-Strictly ws)
  ]
    where
      strict : between w ≡ true → Strictly call ret w
      strict e = (ground arith, ground arith)

  -- What is not strictly between the ends is outside of every segment.
  all_outside :
      (i : AtomicInterval) (ws : List ℕ)
      → call ≤ i.lbound
      → i.ubound ≤ ret
      → All (λ w. (w ≤ i.lbound) ⊎ (i.ubound ≤ w)) (filter between ws)
      → All (λ w. (w ≤ i.lbound) ⊎ (i.ubound ≤ w)) ws
  unfolding filter
  all_outside i [] h k a = tt
  all_outside i (w ∷ ws) h k a = elim (Bool-cases (between w)) [
    | inl e ↦
        let b = subst (All (λ w. (w ≤ i.lbound) ⊎ (i.ubound ≤ w))) (filter_keep between w ws e) a in
        (b.0, all_outside i ws h k b.1)
    | inr e ↦ (
      outside i.lbound i.ubound h k e,
      all_outside i ws h k
          (subst (All (λ w. (w ≤ i.lbound) ⊎ (i.ubound ≤ w))) (filter_drop between w ws e) a),
    )
  ]
    where
      outside : (m n : ℕ) → call ≤ m → n ≤ ret → between w ≡ false → (w ≤ m) ⊎ (n ≤ w)
      outside m n h k e = ground arith

  cut-CutsAt :
      (conc : List ℕ) (t : ℕ)
      → Pairs (λ v w. v < w) conc
      → call ≤ t
      → t < ret
      → CutsAt call ret conc (cut call ret conc) t
  unfolding cut
  cut-CutsAt conc t o h k =
      let (idx, i, p, q, u, v, w) =
        cut_between call (filter between conc) ret t (omega arith) (filter-Strictly conc)
          (Pairs-filter (λ v w. v < w) between conc o) h k in
      (idx, i, p, q, u, v, all_outside i conc u v w)

-- If the operations of a value are cut into segments by timestamps in ascending order, then every
-- timestamp of its push before the return is in a segment of the push, and every one of its pop in
-- a segment of the pop; the segment lies within the operation, and none of the timestamps lies
-- strictly inside of it.
pub segmentize-CutsAt :
    (b : SegmentBuilder) (conc : List ℕ) (s : Segmentation) (t u : ℕ)
    → Pairs (λ v w. v < w) conc
    → segmentize b conc ≡ some s
    → b.add_call ≤ t
    → t < b.add_ret
    → b.rmv_call ≤ u
    → u < b.rmv_ret
    → CutsAt b.add_call b.add_ret conc s.add_ts t × CutsAt b.rmv_call b.rmv_ret conc s.rmv_ts u
segmentize-CutsAt b conc s t u o e h k l m =
    let c = segmentize_cuts b conc s e in
    subst
      (λ z.
        CutsAt b.add_call b.add_ret conc z.add_ts t × CutsAt b.rmv_call b.rmv_ret conc z.rmv_ts u)
      c (cut-CutsAt b.add_call b.add_ret conc t o h k, cut-CutsAt b.rmv_call b.rmv_ret conc u o l m)
