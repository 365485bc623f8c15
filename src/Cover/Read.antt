-- ===== src/Cover/Read.antt =====
-- `add_ret` and the handlers of `CoverMonitor`: a history of events in time order, with no value
-- pushed twice, is read into the state that `do_linearization` needs.
use li_mo.Base.{
  ◌<◌, ◌≡◌, refl, sym, ◌∙◌, Bool, true, false, Option, none, some, List, ◌∷◌, arith, if◌then◌else◌,
  or_default, All-mono, Bool-cases, Option-cases, inl, inr, find, remove, assign, nat_key, subst,
  ok_inj, no_result, ok, fail, violation, std_error,
}
use li_mo.Event.{Val, Event, EType, val_key}
use li_mo.Interval.Atomic.{AtomicInterval, closed, end_itv, overlaps}
use li_mo.Cover.History.{CoverHistory, CoverVal, add_value, add_empty}
use li_mo.Cover.Events.{
  find_value, update_value, erase_value, itv_eq, ret_push, pop_found, pop_value,
}
use li_mo.Cover.Compose.{IsRead}
use li_mo.Cover.Values.{All-find_value, find_value-same}
use li_mo.Cover.Calls.{All-find}
use li_mo.Cover.Reading.{
  InTime, Then, IsCurrent, IsReading, read_value, same-IsCurrent, erase-IsCurrent, update-IsCurrent,
  insert-IsCurrent,
}

module _ (h : CoverHistory) (c e : Event) (es : List Event) (g : IsReading h (e ∷ es))
    (f : find e.thread h.open_calls ≡ some c) where
  -- The calls stay open until the handler has run; the values are read up to the event.
  unfoldable pub Returned : CoverHistory → Type 0
  Returned h' =
      (h'.open_calls ≡ h.open_calls) × IsCurrent h'.values (remove e.thread h.open_calls) es

  abbrev op : AtomicInterval
  op = closed c.timestamp e.timestamp

  pub unchanged-Returned :
      (h' : CoverHistory) → h'.open_calls ≡ h.open_calls → h'.values ≡ h.values → Returned h'
  unfolding Returned
  unchanged-Returned h' p q =
      (p, rw q (same-IsCurrent h.open_calls e.thread c e es h.values g.current))

  -- The history without the removal that is looked up.
  abbrev taken : Val → CoverHistory
  taken a = record h { unmatched_removes = remove a h.unmatched_removes }

  ret_push-some :
      (a : Val)
      → c.val ≡ some a
      → ret_push h c op
        ≡ ok (
            if overlaps (or_default (find a h.unmatched_removes) end_itv) op
            then taken a
            else add_value (taken a) (read_value a c e))
  unfolding ret_push
  ret_push-some a q = rw q refl

  ret_push-none : c.val ≡ none → ret_push h c op ≡ fail std_error
  unfolding ret_push
  ret_push-none q = rw q refl

  pub ret_push-Returned :
      (o : Option Val)
      → c.val ≡ o
      → c.etype ≡ EType.push
      → (h' : CoverHistory) → ret_push h c op ≡ ok h'
      → Returned h'
  unfolding ret_push Returned add_value
  ret_push-Returned none q p h' r = absurd (no_result (sym (ret_push-none q) ∙ r))
  ret_push-Returned (some a) q p h' r =
      subst Returned (ok_inj (sym (ret_push-some a q) ∙ r))
        (elim (overlaps (or_default (find a h.unmatched_removes) end_itv) op)
          as (λ b. Returned (if b then taken a else add_value (taken a) (read_value a c e))) [
            | true ↦ unchanged-Returned (taken a) refl refl
            | false ↦ (
              refl,
              insert-IsCurrent h.open_calls e.thread c e es a h.values f p q g.waiting g.in_time.0
                  g.in_order.0 g.current,
            )
          ])

  abbrev with_pop : CoverVal → Bool → CoverVal
  with_pop w b = record w { rmv = op; pop_era = h.era; pop_crash = b }

  pop_found_first :
      (w : CoverVal) (b : Bool)
      → itv_eq w.rmv end_itv ≡ true
      → pop_found h w op b
        ≡ ok (record h {
          values =
              if overlaps op w.add
              then erase_value w.val h.values
              else update_value w.val (with_pop w b) h.values;
        })
  unfolding pop_found
  pop_found_first w b q = rw q refl

  pop_found_again :
      (w : CoverVal) (b : Bool) → itv_eq w.rmv end_itv ≡ false → pop_found h w op b ≡ fail violation
  unfolding pop_found
  pop_found_again w b q = rw q refl

  -- What the pop found is erased where it overlaps its push, and written otherwise.
  pop_found-Returned :
      (w : CoverVal) (b : Bool)
      → find_value w.val h.values ≡ some w
      → (h' : CoverHistory) → pop_found h w op b ≡ ok h'
      → Returned h'
  unfolding Returned
  pop_found-Returned w b q h' r = elim (Bool-cases (itv_eq w.rmv end_itv)) [
    | inr s ↦ absurd (no_result (sym (pop_found_again w b s) ∙ r))
    | inl s ↦
        subst Returned (ok_inj (sym (pop_found_first w b s) ∙ r))
          (elim (Bool-cases (overlaps op w.add)) [
            | inl o ↦
                rw o (refl, erase-IsCurrent h.open_calls e.thread c e es w.val h.values g.current)
            | inr o ↦ rw o (
              refl,
              update-IsCurrent h.open_calls e.thread c e es w.val (with_pop w b) w h.values q refl
                  refl (kept o) g.current,
            )
          ])
  ]
    where
      reads :
          IsRead w
          → w.add.ubound < e.timestamp
          → Then c e
          → InTime e
          → overlaps op w.add ≡ false
          → IsRead (with_pop w b)
      reads i l t k o = unfold overlaps in ground arith

      kept : overlaps op w.add ≡ false → IsRead (with_pop w b)
      kept =
          reads (All-find_value IsRead w.val h.values w g.current.read q)
            (All-find_value (λ u. u.add.ubound < e.timestamp) w.val h.values w
              (All-mono h.values (λ u l. l.0) g.current.ahead.0) q)
            (All-find (λ d. Then d e) e.thread h.open_calls c g.waiting.before.0 f) g.in_time.0

  -- A pop that returned before its push.
  early_pop-Returned :
      (b : Bool) (a : Val) (o : Option Val)
      → find_value a h.values ≡ none
      → e.val ≡ o
      → (h' : CoverHistory) → pop_value (some a) h e op b ≡ ok h'
      → Returned h'
  unfolding pop_value Returned
  early_pop-Returned b a none s v h' r = absurd (no_result (sym stuck ∙ r))
    where
      stuck : pop_value (some a) h e op b ≡ fail std_error
      stuck = rw (s, pop_value, v)
  early_pop-Returned b a (some x) s v h' r =
      subst Returned (ok_inj (sym entered ∙ r)) (unchanged-Returned removed refl refl)
    where
      removed : CoverHistory
      removed = record h { unmatched_removes = assign x op h.unmatched_removes }

      entered : pop_value (some a) h e op b ≡ ok removed
      entered = rw (s, pop_value, v)

  pub pop_value-Returned :
      (b : Bool) (o : Option Val) (h' : CoverHistory) → pop_value o h e op b ≡ ok h' → Returned h'
  unfolding pop_value Returned
  pop_value-Returned b none h' r =
      subst Returned (ok_inj r) (unchanged-Returned (add_empty h op) opened kept)
    where
      opened : (add_empty h op).open_calls ≡ h.open_calls
      opened = unfold add_empty in refl

      kept : (add_empty h op).values ≡ h.values
      kept = unfold add_empty in refl
  pop_value-Returned b (some a) h' r = elim (Option-cases (find_value a h.values)) [
    | inl s ↦ early_pop-Returned b a e.val s refl h' r
    | inr (w, s) ↦
        pop_found-Returned w b
          (subst (λ x. find_value x h.values ≡ some w) (find_value-same a h.values w s) s) h'
          (sym (found w s) ∙ r)
  ]
    where
      found :
          (w : CoverVal)
          → find_value a h.values ≡ some w
          → pop_value (some a) h e op b ≡ pop_found h w op b
      found w s = rw (s, pop_value)
