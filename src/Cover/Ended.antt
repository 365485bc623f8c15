-- ===== src/Cover/Ended.antt =====
-- A return that is read ends its operation in the history and among the values of the events.
use li_mo.Base.{
  ℕ, ◌≡◌, refl, sym, ap, ◌∙◌, Bool, false, Option, none, some, List, ◌∷◌, if◌then◌else◌, or_else,
  Bool-cases, inl, inr, find, remove, nat_key, subst, ok, some_inj, nothing,
}
use li_mo.Event.{Val, Event, EType, val_key}
use li_mo.Interval.Atomic.{AtomicInterval, closed, end_itv}
use li_mo.Cover.History.{CoverHistory, CoverVal, cover_val}
use li_mo.Cover.Events.{add_ret, find_value, update_value, itv_eq}
use li_mo.Cover.Reading.{IsReading}
use li_mo.Cover.Whole.{ended}
use li_mo.Cover.Held.{IsHeld}
use li_mo.Cover.Ending.{push-IsHeld, pop-IsHeld}

module _ (h : CoverHistory) (c e : Event) (es : List Event) (calls : List (ℕ × Event))
    (vs vs' : List CoverVal) (g : IsReading h (e ∷ es)) (l : IsHeld h calls vs)
    (f : find e.thread h.open_calls ≡ some c) (h' : CoverHistory)
    (r : add_ret h e false ≡ ok h') where
  abbrev Ended : List CoverVal → Type 0
  Ended ws = IsHeld h' (remove e.thread calls) ws

  abbrev op : AtomicInterval
  op = closed c.timestamp e.timestamp

  abbrev pushed_as : Option Val → Option (List CoverVal)
  pushed_as o = elim o [ none ↦ none | some v ↦ some (cover_val v op end_itv ∷ vs) ]

  abbrev taken_as : Val → Option CoverVal → Option (List CoverVal)
  taken_as v o = elim o [
    | none ↦ none
    | some w ↦
        if itv_eq w.rmv end_itv then some (update_value v (cover_val w.val w.add op) vs) else none
  ]

  abbrev popped_as : Option Val → Option (List CoverVal)
  popped_as o = elim o [ none ↦ none | some v ↦ taken_as v (find_value v vs) ]

  abbrev ended_as : EType → Option (List CoverVal)
  ended_as t = elim t [
    | EType.push ↦ pushed_as c.val
    | EType.pop ↦ popped_as (or_else e.val c.val)
    | _ ↦ none
  ]

  push-Ended :
      (o : Option Val) → c.val ≡ o → c.etype ≡ EType.push → pushed_as o ≡ some vs' → Ended vs'
  push-Ended none v t k = absurd (nothing k)
  push-Ended (some a) v t k =
      subst Ended (some_inj k) (push-IsHeld h c e es calls vs g l f a t v h' r)

  take-Ended :
      (a : Val) (o : Option CoverVal)
      → c.etype ≡ EType.pop
      → or_else e.val c.val ≡ some a
      → find_value a vs ≡ o
      → taken_as a o ≡ some vs'
      → Ended vs'
  take-Ended a none t v s k = absurd (nothing k)
  take-Ended a (some w) t v s k = elim (Bool-cases (itv_eq w.rmv end_itv)) [
    | inl q ↦
        subst Ended (some_inj (sym (ap made q) ∙ k))
          (pop-IsHeld h c e es calls vs g l f a w t v s q h' r)
    | inr q ↦ absurd (nothing (sym (ap made q) ∙ k))
  ]
    where
      made : Bool → Option (List CoverVal)
      made b = if b then some (update_value a (cover_val w.val w.add op) vs) else none

  pop-Ended :
      (o : Option Val)
      → or_else e.val c.val ≡ o
      → c.etype ≡ EType.pop
      → popped_as o ≡ some vs'
      → Ended vs'
  pop-Ended none v t k = absurd (nothing k)
  pop-Ended (some a) v t k = take-Ended a (find_value a vs) t v refl k

  ended_as-Ended : (t : EType) → c.etype ≡ t → ended_as t ≡ some vs' → Ended vs'
  ended_as-Ended EType.push q k = push-Ended c.val refl q k
  ended_as-Ended EType.pop q k = pop-Ended (or_else e.val c.val) refl q k
  ended_as-Ended _ q k = absurd (nothing k)

  -- A return that is read ends the operation in both.
  pub ended-IsHeld : ended c e vs ≡ some vs' → Ended vs'
  unfolding ended
  ended-IsHeld k = ended_as-Ended c.etype refl k
