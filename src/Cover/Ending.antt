-- ===== src/Cover/Ending.antt =====
-- What the return of a push and of a pop do to the values that a history holds and to those of its
-- events.
use mathlib.Core.List.{Perm, perm_append_comm, perm_middle}
use mathlib.Core.List.Perm
use li_mo.Base.{
  ℕ, ◌<◌, ◌≡◌, refl, sym, ap, ◌∙◌, true, false, some, List, [], ◌∷◌, ◌++◌, arith, if◌then◌else◌,
  or_else, All, All-zip, Bool-cases, inl, inr, find, remove, nat_key, subst, ok, ok_inj,
}
use li_mo.Event.{Val, Event, EType, val_key}
use li_mo.Interval.Atomic.{AtomicInterval, closed, end_itv, overlaps}
use li_mo.Interval.Points.{IsClosed}
use li_mo.Cover.History.{CoverHistory, CoverVal, cover_val, insert_value}
use li_mo.Cover.Events.{find_value, update_value, erase_value, itv_eq, add_ret}
use li_mo.Cover.Values.{
  Later, find_value-same, All-find_value, All-update_value, All-erase_value, All-insert_value,
}
use li_mo.Cover.Calls.{All-find}
use li_mo.Cover.Guess.{insert_last}
use li_mo.Cover.Compose.{IsRead}
use li_mo.Cover.Reading.{pushes, InTime, Then, Ahead, IsReading}
use li_mo.Cover.Overlapped.{Meets}
use li_mo.Cover.Whole.{update-Perm}
use li_mo.Cover.Held.{IsPlain, IsHeld, add_ret_push, add_ret_pop, held_value, rest_held}

module _ (h : CoverHistory) (c e : Event) (es : List Event) (calls : List (ℕ × Event))
    (vs : List CoverVal) (g : IsReading h (e ∷ es)) (l : IsHeld h calls vs)
    (f : find e.thread h.open_calls ≡ some c) where
  earlier : c.timestamp < e.timestamp
  earlier = (All-find (λ d. Then d e) e.thread h.open_calls c g.waiting.before.0 f).0

  op_closed : IsClosed (closed c.timestamp e.timestamp)
  op_closed = record { left = refl; right = refl; ordered = omega (arith, earlier) }

  closed_calls : remove e.thread h.open_calls ≡ remove e.thread calls
  closed_calls = ap (remove e.thread) l.same_calls

  pub push-IsHeld :
      (a : Val)
      → c.etype ≡ EType.push
      → c.val ≡ some a
      → (h' : CoverHistory) → add_ret h e false ≡ ok h'
      → IsHeld h'
          (remove e.thread calls)
          (cover_val a (closed c.timestamp e.timestamp) end_itv ∷ vs)
  push-IsHeld a t v h' r =
      subst (λ z. IsHeld z (remove e.thread calls) (n ∷ vs))
        (ok_inj (sym (add_ret_push h c e f a t v l.no_removes (apart g.in_time.0)) ∙ r))
        (record {
          same_calls = closed_calls;
          no_removes = refl;
          no_empties = l.no_empties;
          no_era = l.no_era;
          plain = All-insert_value IsPlain n h.values refl l.plain;
          gone = l.gone;
          all =
              Perm.trans (Perm.append_left l.gone last)
                (Perm.trans (perm_middle l.gone h.values) (Perm.cons n l.all));
          meets = l.meets;
          solid = l.solid;
          over = l.over;
        })
    where
      n : CoverVal
      n = cover_val a (closed c.timestamp e.timestamp) end_itv

      apart : InTime e → overlaps end_itv (closed c.timestamp e.timestamp) ≡ false
      apart i = unfold overlaps in ground (arith, i)

      behind : (w : CoverVal) → Ahead w e → pushes c w.val ≡ false → Later w n
      behind w k m = ground arith

      last : Perm (insert_value n h.values) (n ∷ h.values)
      last =
          subst (λ z. Perm z (n ∷ h.values))
            (sym (
              insert_last n h.values (
                All-zip h.values behind g.current.ahead.0 (
                  All-find (λ d. All (λ w. pushes d w.val ≡ false) h.values) e.thread h.open_calls c
                    g.current.unread f))))
            (perm_append_comm h.values (n ∷ []))

  -- The value that is held, with its pop.
  module _ (a : Val) (u : CoverVal) (s : find_value a h.values ≡ some u)
      (q : itv_eq u.rmv end_itv ≡ true) (k : find_value a vs ≡ some u) where
    abbrev pop_op : AtomicInterval
    pop_op = closed c.timestamp e.timestamp

    abbrev popped_val : CoverVal
    popped_val = cover_val u.val u.add pop_op

    abbrev stored_val : CoverVal
    stored_val = record u { rmv = pop_op; pop_era = h.era; pop_crash = false }

    stored_popped : stored_val ≡ popped_val
    stored_popped = ap with_pop (All-find_value IsPlain a h.values u l.plain s) ∙ ap in_era l.no_era
      where
        with_pop : CoverVal → CoverVal
        with_pop z = record z { rmv = pop_op; pop_era = h.era; pop_crash = false }

        in_era : ℕ → CoverVal
        in_era n = record popped_val { pop_era = n }

    same_val : a ≡ u.val
    same_val = find_value-same a h.values u s

    rest : Perm (l.gone ++ erase_value a h.values) (erase_value a vs)
    rest = rest_held h calls vs g.current.ordered l a u k q u s refl

    whole_popped :
        Perm (popped_val ∷ (l.gone ++ erase_value a h.values)) (update_value a popped_val vs)
    whole_popped =
        Perm.trans (Perm.cons popped_val rest) (Perm.symm (update-Perm a popped_val vs u k))

    abbrev Next : List CoverVal → Type 0
    Next values =
        IsHeld (record h { values = values; open_calls = remove e.thread h.open_calls })
          (remove e.thread calls) (update_value a popped_val vs)

    erased : overlaps pop_op u.add ≡ true → Next (erase_value u.val h.values)
    erased o =
        subst (λ z. Next (erase_value z h.values)) same_val
          (record {
            same_calls = closed_calls;
            no_removes = l.no_removes;
            no_empties = l.no_empties;
            no_era = l.no_era;
            plain = All-erase_value IsPlain a h.values l.plain;
            gone = popped_val ∷ l.gone;
            all = whole_popped;
            meets = (met o, l.meets);
            solid = (
              ((All-find_value IsRead a h.values u g.current.read s).add_closed, op_closed),
              l.solid,
            );
            over = (not_end g.in_time.0, l.over);
          })
      where
        met : overlaps pop_op u.add ≡ true → Meets popped_val
        met o = unfold overlaps in (ground arith, ground arith)

        not_end : InTime e → itv_eq pop_op end_itv ≡ false
        not_end i = ground arith

    updated : Next (update_value u.val stored_val h.values)
    updated =
        subst (λ z. Next (update_value z stored_val h.values)) same_val
          (subst (λ z. Next (update_value a z h.values)) (sym stored_popped)
            (record {
              same_calls = closed_calls;
              no_removes = l.no_removes;
              no_empties = l.no_empties;
              no_era = l.no_era;
              plain = All-update_value IsPlain a popped_val h.values refl l.plain;
              gone = l.gone;
              all =
                  Perm.trans (Perm.append_left l.gone (update-Perm a popped_val h.values u s))
                    (Perm.trans (perm_middle l.gone (erase_value a h.values)) whole_popped);
              meets = l.meets;
              solid = l.solid;
              over = l.over;
            }))

    found-IsHeld :
        c.etype ≡ EType.pop
        → or_else e.val c.val ≡ some a
        → (h' : CoverHistory) → add_ret h e false ≡ ok h'
        → IsHeld h' (remove e.thread calls) (update_value a popped_val vs)
    found-IsHeld t v h' r =
        subst (λ z. IsHeld z (remove e.thread calls) (update_value a popped_val vs))
          (ok_inj (sym (add_ret_pop h c e f a u t v s q) ∙ r))
          (elim (Bool-cases (overlaps pop_op u.add)) [
            | inl o ↦ subst (λ b. Next (if b then kept else changed)) (sym o) (erased o)
            | inr o ↦ subst (λ b. Next (if b then kept else changed)) (sym o) updated
          ])
      where
        kept : List CoverVal
        kept = erase_value u.val h.values

        changed : List CoverVal
        changed = update_value u.val stored_val h.values

  pub pop-IsHeld :
      (a : Val) (w : CoverVal)
      → c.etype ≡ EType.pop
      → or_else e.val c.val ≡ some a
      → find_value a vs ≡ some w
      → itv_eq w.rmv end_itv ≡ true
      → (h' : CoverHistory) → add_ret h e false ≡ ok h'
      → IsHeld h'
          (remove e.thread calls)
          (update_value a (cover_val w.val w.add (closed c.timestamp e.timestamp)) vs)
  pop-IsHeld a w t v k q h' r =
      let (u, s, m) = held_value h calls vs g.current.ordered l a w k q in
      subst
        (λ z.
          IsHeld h' (remove e.thread calls)
            (update_value a (cover_val z.val z.add (closed c.timestamp e.timestamp)) vs))
        (sym m)
        (found-IsHeld a u s (subst (λ z. itv_eq z.rmv end_itv ≡ true) m q) (k ∙ ap (λ z. some z) m)
          t v h' r)
