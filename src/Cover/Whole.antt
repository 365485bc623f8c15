-- ===== src/Cover/Whole.antt =====
-- The values of a history, read from its events with no regard to the order of the operations: each
-- completed push gives a value, and each completed pop ends one.
use mathlib.Core.List.{Perm}
use mathlib.Core.List.Perm
use li_mo.Base.{
  ℕ, ◌≡◌, true, false, Option, none, some, List, [], ◌∷◌, arith, if◌then◌else◌, or_else, All,
  All-mono, Bool-cases, inl, inr, find, assign, remove, nat_key, subst,
}
use li_mo.Event.{Val, Event, EType, val_eq}
use li_mo.Interval.Atomic.{closed, end_itv}
use li_mo.Cover.History.{CoverVal, cover_val}
use li_mo.Monitor.{is_return}
use li_mo.Cover.Events.{find_value, update_value, erase_value, itv_eq}
use li_mo.Cover.Values.{Later}
use li_mo.Cover.Prune.{IsOrdered}

-- The operation of a call with its return. A pop takes a value that was pushed and not popped yet.
unfoldable pub ended : Event → Event → List CoverVal → Option (List CoverVal)
unfolding find_value update_value
ended call ret vs =
    let op = closed call.timestamp ret.timestamp in
    elim call.etype [
      | EType.push ↦ elim call.val [ none ↦ none | some v ↦ some (cover_val v op end_itv ∷ vs) ]
      | EType.pop ↦ elim (or_else ret.val call.val) [
        | none ↦ none
        | some v ↦ elim (find_value v vs) [
          | none ↦ none
          | some w ↦
              if itv_eq w.rmv end_itv
              then some (update_value v (cover_val w.val w.add op) vs)
              else none
        ]
      ]
      | _ ↦ none
    ]

-- The values of the events, with the calls that are open before them and the values so far; `none`
-- where a pop returns before the push of its value has, takes a value again or meets the empty
-- stack, and where a return has no call.
unfoldable pub whole : List (ℕ × Event) → List CoverVal → List Event → Option (List CoverVal)
unfolding ended find assign remove
whole calls vs [] = some vs
whole calls vs (e ∷ es) =
    let called = whole (assign e.thread e calls) vs es in
    if is_return e.etype
    then (elim (find e.thread calls) [
      | none ↦ none
      | some c ↦ elim (ended c e vs) [
        | none ↦ none
        | some vs' ↦ whole (remove e.thread calls) vs' es
      ]
    ])
    else called

pub erase-Perm :
    (a : Val) (vs : List CoverVal) (w : CoverVal)
    → find_value a vs ≡ some w
    → Perm vs (w ∷ erase_value a vs)
unfolding find_value erase_value
erase-Perm a [] w e = absurd (ground arith)
erase-Perm a (x ∷ xs) w e = elim (Bool-cases (val_eq a x.val)) [
  | inl q ↦ rw (q) (subst (λ z. Perm (x ∷ xs) (z ∷ xs)) (found q) (Perm.refl (x ∷ xs)))
  | inr q ↦
      rw (q)
        (Perm.trans (Perm.cons x (erase-Perm a xs w (next q))) (Perm.swap w x (erase_value a xs)))
]
  where
    found : val_eq a x.val ≡ true → x ≡ w
    found q = ground arith

    next : val_eq a x.val ≡ false → find_value a xs ≡ some w
    next q = ground arith

pub update-Perm :
    (a : Val) (n : CoverVal) (vs : List CoverVal) (w : CoverVal)
    → find_value a vs ≡ some w
    → Perm (update_value a n vs) (n ∷ erase_value a vs)
unfolding find_value erase_value update_value
update-Perm a n [] w e = absurd (ground arith)
update-Perm a n (x ∷ xs) w e = elim (Bool-cases (val_eq a x.val)) [
  | inl q ↦ rw (q) (Perm.refl (n ∷ xs))
  | inr q ↦
      rw (q) (
        Perm.trans (Perm.cons x (update-Perm a n xs w (next q))) (Perm.swap n x (erase_value a xs)))
]
  where
    next : val_eq a x.val ≡ false → find_value a xs ≡ some w
    next q = ground arith

-- No other entry of an ordered list has the value of the one found.
pub find_value-only :
    (a : Val) (vs : List CoverVal) (u : CoverVal)
    → IsOrdered vs
    → find_value a vs ≡ some u
    → All (λ x. val_eq a x.val ≡ true → x ≡ u) vs
unfolding find_value
find_value-only a [] u o e = tt
find_value-only a (x ∷ xs) u o e = elim (Bool-cases (val_eq a x.val)) [
  | inl q ↦ (λ k. found q, All-mono xs (λ y l k. absurd (differ q y l k)) o.0)
  | inr q ↦ (λ k. absurd (no_both q k), find_value-only a xs u o.1 (next q))
]
  where
    found : val_eq a x.val ≡ true → x ≡ u
    found q = ground arith

    next : val_eq a x.val ≡ false → find_value a xs ≡ some u
    next q = ground arith

    no_both : val_eq a x.val ≡ false → val_eq a x.val ≡ true → ⊥
    no_both q k = ground arith

    differ : val_eq a x.val ≡ true → (y : CoverVal) → Later x y → val_eq a y.val ≡ true → ⊥
    differ q y l k = ground arith

pub find_value-none :
    (a : Val) (vs : List CoverVal) → find_value a vs ≡ none → All (λ x. val_eq a x.val ≡ false) vs
unfolding find_value
find_value-none a [] e = tt
find_value-none a (x ∷ xs) e = (ground arith, find_value-none a xs (ground arith))
