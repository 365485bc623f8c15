-- ===== src/Cover/Held.antt =====
-- While a history is read, the values of its events are those of the `CoverHistory` and those that were
-- erased because their operations overlap.
use mathlib.Core.List.{Perm, perm_middle}
use mathlib.Core.List.Perm
use li_mo.Base.{
  ℕ, ◌≡◌, ◌&&◌, refl, sym, ap, ◌∙◌, Bool, true, false, some, List, [], ◌++◌, arith, if◌then◌else◌,
  or_else, All, All-mono, All-append, All-perm, Option-cases, inl, inr, find, remove, nat_key, ok,
}
use li_mo.Event.{Val, Event, EType, val_eq, val_key}
use li_mo.Interval.Atomic.{AtomicInterval, closed, end_itv, overlaps}
use li_mo.Cover.History.{CoverHistory, CoverVal, cover_val, insert_value, add_value}
use li_mo.Cover.Events.{
  find_value, update_value, erase_value, itv_eq, ret_push, ret_pop, pop_value, pop_found, add_ret,
}
use li_mo.Cover.Values.{find_value-same, All-find_value}
use mathlib.Core.Bool.{true≢false}
use li_mo.Cover.Prune.{IsOrdered}
use li_mo.Cover.Reading.{read_value}
use li_mo.Cover.Overlapped.{IsClosedVal, Meets}
use li_mo.Cover.Whole.{erase-Perm, find_value-only, find_value-none}

abbrev pub IsPlain : CoverVal → Type 0
IsPlain w = w ≡ cover_val w.val w.add w.rmv

-- The values of the events against what the history holds.
pub record IsHeld (h : CoverHistory) (calls : List (ℕ × Event)) (vs : List CoverVal) : Type 0 where
  pub same_calls : h.open_calls ≡ calls
  pub no_removes : h.unmatched_removes ≡ []
  pub no_empties : h.empties ≡ []
  pub no_era : h.era ≡ 0
  pub plain : All IsPlain h.values
  pub gone : List CoverVal
  pub all : Perm (gone ++ h.values) vs
  pub meets : All Meets gone
  pub solid : All IsClosedVal gone
  pub over : All (λ w. itv_eq w.rmv end_itv ≡ false) gone

module _ (h : CoverHistory) (c e : Event) (f : find e.thread h.open_calls ≡ some c) where
  abbrev op : AtomicInterval
  op = closed c.timestamp e.timestamp

  pub add_ret_push :
      (a : Val)
      → c.etype ≡ EType.push
      → c.val ≡ some a
      → h.unmatched_removes ≡ []
      → overlaps end_itv op ≡ false
      → add_ret h e false
        ≡ ok (record h {
          values = insert_value (read_value a c e) h.values;
          open_calls = remove e.thread h.open_calls;
          unmatched_removes = [];
        })
  unfolding add_ret ret_push add_value find remove
  add_ret_push a t v u o = rw (f, add_ret) (rw (t) (rw (v) (rw (u) (rw (o) refl))))

  pub add_ret_pop :
      (a : Val) (u : CoverVal)
      → c.etype ≡ EType.pop
      → or_else e.val c.val ≡ some a
      → find_value a h.values ≡ some u
      → itv_eq u.rmv end_itv ≡ true
      → add_ret h e false
        ≡ ok (record h {
          values =
              if overlaps op u.add
              then erase_value u.val h.values
              else update_value u.val
                  (record u { rmv = op; pop_era = h.era; pop_crash = false })
                  h.values;
          open_calls = remove e.thread h.open_calls;
        })
  unfolding add_ret ret_pop pop_value pop_found
  add_ret_pop a u t v s q =
      rw (f, add_ret) (rw (t) (rw (v) (rw (s, pop_value) (rw (q, pop_found) refl))))

-- The value that the events give is the one that the history holds.
module _ (h : CoverHistory) (calls : List (ℕ × Event)) (vs : List CoverVal) (o : IsOrdered h.values)
    (l : IsHeld h calls vs) (a : Val) (w : CoverVal) (f : find_value a vs ≡ some w)
    (q : itv_eq w.rmv end_itv ≡ true) where
  abbrev Held : CoverVal → Type 0
  Held x = (val_eq a x.val && itv_eq x.rmv end_itv) ≡ false

  abbrev Only : CoverVal → CoverVal → Type 0
  Only u x = (val_eq a x.val && itv_eq x.rmv end_itv) ≡ true → x ≡ u

  found_val : a ≡ w.val
  found_val = find_value-same a vs w f

  asked : (val_eq a w.val && itv_eq w.rmv end_itv) ≡ true
  asked = rw (sym found_val) (rw q (same_val a))
    where
      same_val : (a : Val) → (val_eq a a && true) ≡ true
      same_val a = ground arith

  pub held_value : (u : CoverVal) × (find_value a h.values ≡ some u) × (w ≡ u)
  held_value = elim (Option-cases (find_value a h.values)) [
    | inl s ↦ absurd (
        both (
          All-find_value Held a vs w
            (All-perm Held (λ x. hlevel) (Perm.symm l.all)
              (All-append Held l.gone h.values (All-mono l.gone (λ x k. over x k) l.over)
                (All-mono h.values (λ x k. other x k) (find_value-none a h.values s))))
            f))
    | inr (u, s) ↦ (
      u,
      s,
      All-find_value (Only u) a vs w
          (All-perm (Only u) (λ x. hlevel) (Perm.symm l.all)
            (All-append (Only u) l.gone h.values
              (All-mono l.gone (λ x k r. absurd (not_over x k r)) l.over)
              (All-mono h.values (λ x k r. k (first x r)) (find_value-only a h.values u o s))))
          f asked,
    )
  ]
    where
      both : (val_eq a w.val && itv_eq w.rmv end_itv) ≡ false → ⊥
      both k = true≢false (sym asked ∙ k)

      over : (x : CoverVal) → itv_eq x.rmv end_itv ≡ false → Held x
      over x k = rw k (and_false (val_eq a x.val))
        where
          and_false : (b : Bool) → (b && false) ≡ false
          and_false b = ground arith

      other : (x : CoverVal) → val_eq a x.val ≡ false → Held x
      other x k = rw k refl

      not_over :
          (x : CoverVal)
          → itv_eq x.rmv end_itv ≡ false
          → (val_eq a x.val && itv_eq x.rmv end_itv) ≡ true
          → ⊥
      not_over x k r = true≢false (sym r ∙ over x k)

      first :
          (x : CoverVal) → (val_eq a x.val && itv_eq x.rmv end_itv) ≡ true → val_eq a x.val ≡ true
      first x r = left (val_eq a x.val) (itv_eq x.rmv end_itv) r
        where
          left : (p q : Bool) → (p && q) ≡ true → p ≡ true
          left p q r = ground arith

  -- What is left without it.
  pub rest_held :
      (u : CoverVal)
      → find_value a h.values ≡ some u
      → w ≡ u
      → Perm (l.gone ++ erase_value a h.values) (erase_value a vs)
  rest_held u s k = Perm.cons_inv {a = u} (
      Perm.trans (Perm.symm (perm_middle l.gone (erase_value a h.values))) (
        Perm.trans (Perm.append_left l.gone (Perm.symm (erase-Perm a h.values u s)))
          (Perm.trans l.all (erase-Perm a vs u (f ∙ ap (λ z. some z) k)))))
