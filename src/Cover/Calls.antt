-- ===== src/Cover/Calls.antt =====
-- The map of open calls under entry, removal and search.
use li_mo.Base.{
  ℕ, ◌≡◌, true, false, some, List, [], ◌∷◌, arith, ltb, if◌then◌else◌, All, Pairs, Bool-cases, inl,
  inr, same, nat_key, subst, assign, find, remove,
}
use li_mo.Event.{Event}

module _ {κ} (P : Event → Type κ) where
  pub All-assign :
      (k : ℕ) (c : Event) (m : List (ℕ × Event))
      → P c
      → All (λ d. P d.1) m
      → All (λ d. P d.1) (assign k c m)
  unfolding assign
  All-assign k c [] p h = (p, tt)
  All-assign k c ((j, d) ∷ m) p h =
      elim (ltb k j)
        as (λ b.
          All (λ e. P e.1)
            (elim b [
              | true ↦ (k, c) ∷ (j, d) ∷ m
              | false ↦ elim (ltb j k) [ true ↦ (j, d) ∷ assign k c m | false ↦ (k, c) ∷ m ]
            ])) [
              | true ↦ (p, h)
              | false ↦
                  elim (ltb j k)
                    as (λ b.
                      All (λ e. P e.1)
                        (elim b [ true ↦ (j, d) ∷ assign k c m | false ↦ (k, c) ∷ m ])) [
                          | true ↦ (h.0, All-assign k c m p h.1)
                          | false ↦ (p, h.1)
                        ]
            ]

  pub All-remove :
      (k : ℕ) (m : List (ℕ × Event)) → All (λ d. P d.1) m → All (λ d. P d.1) (remove k m)
  unfolding remove
  All-remove k [] h = h
  All-remove k (d ∷ m) h =
      elim (same k d.0) as (λ b. All (λ d. P d.1) (if b then m else d ∷ remove k m)) [
        | true ↦ h.1
        | false ↦ (h.0, All-remove k m h.1)
      ]

  pub All-find :
      (k : ℕ) (m : List (ℕ × Event)) (c : Event) → All (λ d. P d.1) m → find k m ≡ some c → P c
  unfolding find
  All-find k [] c h e = absurd (ground arith)
  All-find k (d ∷ m) c h e = elim (Bool-cases (same k d.0)) [
    | inl q ↦ subst P (found q) h.0
    | inr q ↦ All-find k m c h.1 (next q)
  ]
    where
      found : same k d.0 ≡ true → d.1 ≡ c
      found q = ground arith

      next : same k d.0 ≡ false → find k m ≡ some c
      next q = ground arith

-- A symmetric relation between the open calls.
module _ {κ} (R : Event → Event → Type κ) (sym_R : (c d : Event) → R c d → R d c) where
  abbrev Between : List (ℕ × Event) → Type κ
  Between = Pairs λ c d. R c.1 d.1

  pub Pairs-assign :
      (k : ℕ) (c : Event) (m : List (ℕ × Event))
      → All (λ d. R c d.1) m
      → Between m
      → Between (assign k c m)
  unfolding assign
  Pairs-assign k c [] h r = (tt, tt)
  Pairs-assign k c ((j, d) ∷ m) h r =
      elim (ltb k j)
        as (λ b. Between (elim b [
          | true ↦ (k, c) ∷ (j, d) ∷ m
          | false ↦ elim (ltb j k) [ true ↦ (j, d) ∷ assign k c m | false ↦ (k, c) ∷ m ]
        ])) [
          | true ↦ (h, r)
          | false ↦
              elim (ltb j k)
                as (λ b. Between (elim b [ true ↦ (j, d) ∷ assign k c m | false ↦ (k, c) ∷ m ])) [
                  | true ↦ (All-assign (R d) k c m (sym_R c d h.0) r.0, Pairs-assign k c m h.1 r.1)
                  | false ↦ (h.1, r.1)
                ]
        ]

  pub Pairs-remove : (k : ℕ) (m : List (ℕ × Event)) → Between m → Between (remove k m)
  unfolding remove
  Pairs-remove k [] r = r
  Pairs-remove k (d ∷ m) r = elim (same k d.0) as (λ b. Between (if b then m else d ∷ remove k m)) [
    | true ↦ r.1
    | false ↦ (All-remove (R d.1) k m r.0, Pairs-remove k m r.1)
  ]

  -- The call that is taken out is related to those that stay.
  pub find-remove :
      (k : ℕ) (m : List (ℕ × Event)) (c : Event)
      → Between m
      → find k m ≡ some c
      → All (λ d. R c d.1) (remove k m)
  unfolding find remove
  find-remove k [] c r e = tt
  find-remove k (d ∷ m) c r e = elim (Bool-cases (same k d.0)) [
    | inl q ↦ rw (q) (subst (λ z. All (λ x. R z x.1) m) (found q) r.0)
    | inr q ↦
        rw (q) (sym_R d.1 c (All-find (R d.1) k m c r.0 (next q)), find-remove k m c r.1 (next q))
  ]
    where
      found : same k d.0 ≡ true → d.1 ≡ c
      found q = ground arith

      next : same k d.0 ≡ false → find k m ≡ some c
      next q = ground arith
