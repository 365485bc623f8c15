-- ===== src/Cover/Values.antt =====
-- The sorted list that stands for `std::set<CoverVal>` under insertion, the update of a value and
-- erasure.
use li_mo.Base.{
  ◌<◌, ◌≡◌, true, false, some, List, [], ◌∷◌, arith, if◌then◌else◌, All, All-mono, Bool-cases, inl,
  inr, nat_key, subst, sym,
}
use li_mo.Event.{Val, val_eq}
use li_mo.Cover.History.{CoverVal, val_before, insert_value}
use li_mo.Cover.Events.{find_value, update_value, erase_value}
use li_mo.Cover.Prune.{IsOrdered}

-- The order of the set and the difference of the values of two entries.
abbrev pub Later : CoverVal → CoverVal → Type 0
Later v w = (v.add.ubound < w.add.ubound) × (val_eq v.val w.val ≡ false)

module _ {κ} (P : CoverVal → Type κ) where
  pub All-insert_value :
      (v : CoverVal) (vs : List CoverVal) → P v → All P vs → All P (insert_value v vs)
  unfolding insert_value
  All-insert_value v [] p h = (p, tt)
  All-insert_value v (w ∷ ws) p h =
      elim (val_before v w)
        as (λ b. All P (elim b [
          | true ↦ v ∷ w ∷ ws
          | false ↦ elim (val_before w v) [ true ↦ w ∷ insert_value v ws | false ↦ w ∷ ws ]
        ])) [
          | true ↦ (p, h)
          | false ↦
              elim (val_before w v)
                as (λ b. All P (elim b [ true ↦ w ∷ insert_value v ws | false ↦ w ∷ ws ])) [
                  | true ↦ (h.0, All-insert_value v ws p h.1)
                  | false ↦ h
                ]
        ]

  pub All-erase_value : (a : Val) (vs : List CoverVal) → All P vs → All P (erase_value a vs)
  unfolding erase_value
  All-erase_value a [] h = h
  All-erase_value a (w ∷ ws) h =
      elim (val_eq a w.val) as (λ b. All P (if b then ws else w ∷ erase_value a ws)) [
        | true ↦ h.1
        | false ↦ (h.0, All-erase_value a ws h.1)
      ]

  pub All-update_value :
      (a : Val) (n : CoverVal) (vs : List CoverVal) → P n → All P vs → All P (update_value a n vs)
  unfolding update_value
  All-update_value a n [] p h = h
  All-update_value a n (w ∷ ws) p h =
      elim (val_eq a w.val) as (λ b. All P (if b then n ∷ ws else w ∷ update_value a n ws)) [
        | true ↦ (p, h.1)
        | false ↦ (h.0, All-update_value a n ws p h.1)
      ]

  pub All-find_value :
      (a : Val) (vs : List CoverVal) (w : CoverVal) → All P vs → find_value a vs ≡ some w → P w
  unfolding find_value
  All-find_value a [] w h e = absurd (ground arith)
  All-find_value a (x ∷ xs) w h e = elim (Bool-cases (val_eq a x.val)) [
    | inl q ↦ subst P (found q) h.0
    | inr q ↦ All-find_value a xs w h.1 (next q)
  ]
    where
      found : val_eq a x.val ≡ true → x ≡ w
      found q = ground arith

      next : val_eq a x.val ≡ false → find_value a xs ≡ some w
      next q = ground arith

pub find_value-same :
    (a : Val) (vs : List CoverVal) (w : CoverVal) → find_value a vs ≡ some w → a ≡ w.val
unfolding find_value
find_value-same a [] w e = absurd (ground arith)
find_value-same a (x ∷ xs) w e = ground (arith, find_value-same a xs w)

-- A push that returned behind all others is entered at the end.
pub insert_value-IsOrdered :
    (v : CoverVal) (vs : List CoverVal)
    → All (λ w. Later w v) vs
    → IsOrdered vs
    → IsOrdered (insert_value v vs)
unfolding insert_value
insert_value-IsOrdered v [] h o = (tt, tt)
insert_value-IsOrdered v (w ∷ ws) h o =
    rw (behind h.0, insert_value)
      (rw (ahead h.0)
        (All-insert_value (Later w) v ws h.0 o.0, insert_value-IsOrdered v ws h.1 o.1))
  where
    behind : Later w v → val_before v w ≡ false
    behind k = ground arith

    ahead : Later w v → val_before w v ≡ true
    ahead k = ground arith

pub erase_value-IsOrdered :
    (a : Val) (vs : List CoverVal) → IsOrdered vs → IsOrdered (erase_value a vs)
unfolding erase_value
erase_value-IsOrdered a [] o = o
erase_value-IsOrdered a (w ∷ ws) o =
    elim (val_eq a w.val) as (λ b. IsOrdered (if b then ws else w ∷ erase_value a ws)) [
      | true ↦ o.1
      | false ↦ (All-erase_value (Later w) a ws o.0, erase_value-IsOrdered a ws o.1)
    ]

-- The entry found is written with the same push and value.
pub update_value-IsOrdered :
    (a : Val) (n w : CoverVal) (vs : List CoverVal)
    → find_value a vs ≡ some w
    → n.add ≡ w.add
    → n.val ≡ w.val
    → IsOrdered vs
    → IsOrdered (update_value a n vs)
unfolding update_value find_value
update_value-IsOrdered a n w [] e p q o = o
update_value-IsOrdered a n w (x ∷ xs) e p q o = elim (Bool-cases (val_eq a x.val)) [
  | inl c ↦ rw (c, update_value) (All-mono xs (λ y l. as_found c y l) o.0, o.1)
  | inr c ↦
      rw (c, update_value)
        (
          All-update_value (Later x) a n xs (written (All-find_value (Later x) a xs w o.0 (next c)))
              o.0,
          update_value-IsOrdered a n w xs (next c) p q o.1,
        )
]
  where
    next : val_eq a x.val ≡ false → find_value a xs ≡ some w
    next c = ground arith

    as_found : val_eq a x.val ≡ true → (y : CoverVal) → Later x y → Later n y
    as_found c y l = let f : x ≡ w = ground arith in rw (p, q) (rw (sym f) l)

    written : Later x w → Later x n
    written l = rw (p, q) l
