-- ===== src/Monitor/Dispatch.antt =====
-- `Monitor::add_event`: what the handlers preserve, every run of the monitor preserves.
use li_mo.Base.{
  ◌≡◌, sym, ◌∙◌, true, false, none, some, [], if◌then◌else◌, Bool-cases, Option-cases, inl, inr,
  find, assign, nat_key, ok, fail, exception, std_error, ok_inj, no_result, went_through, passed,
  subst, ◌>>=◌, ◌>>◌, throw_if,
}
use li_mo.Event.{EType, Event}
use li_mo.Monitor.{
  Handlers, Monitor, is_return, is_operation, is_crash, is_open, key_of, add_conc, rem_conc,
  dispatch_call, dispatch_return, return_event, call_event, add_event,
}

-- The monitor behind a return, and behind a call.
abbrev pub after_return : {S : Type 0} → Event → Monitor S → S → Monitor S
after_return e m s =
    rem_conc (record m { last_evt = assign (key_of e) e.etype m.last_evt; state = s })

abbrev pub after_call : {S : Type 0} → Event → Monitor S → S → Monitor S
after_call e m s = add_conc (record m {
  last_evt = assign (key_of e) e.etype (if is_crash e.etype then [] else m.last_evt);
  state = s;
})

-- The two ways in which the monitor accepts an event.
pub data Accepted {S : Type 0} (hs : Handlers S) (e : Event) (m m' : Monitor S) : Type 0 where
  returned :
      (t : EType) (s : S)
      → is_return e.etype ≡ true
      → find (key_of e) m.last_evt ≡ some t
      → is_return t ≡ false
      → dispatch_return hs t m.state e ≡ ok s
      → after_return e m s ≡ m'
      → Accepted hs e m m'
  called :
      (s : S)
      → is_return e.etype ≡ false
      → is_open (find (key_of e) (if is_crash e.etype then [] else m.last_evt)) ≡ false
      → dispatch_call hs m.state e ≡ ok s
      → after_call e m s ≡ m'
      → Accepted hs e m m'

module _ {S : Type 0} (hs : Handlers S) (e : Event) (m m' : Monitor S) where
  call_event-Accepted : is_return e.etype ≡ false → call_event hs m e ≡ ok m' → Accepted hs e m m'
  unfolding call_event
  call_event-Accepted a r =
      let (q, k) =
        passed (is_open (find (key_of e) (if is_crash e.etype then [] else m.last_evt))) exception _
          m' r in
      let (s, d, w) = went_through (dispatch_call hs m.state e) _ m' k in called s a q d (ok_inj w)

  return_event-Accepted :
      is_return e.etype ≡ true → return_event hs m e ≡ ok m' → Accepted hs e m m'
  unfolding return_event
  return_event-Accepted a r = elim (Option-cases (find (key_of e) m.last_evt)) [
    | inl f ↦ absurd (no_result (sym (unopened f) ∙ r))
    | inr (t, f) ↦
        let (q, k) = passed (is_return t) exception _ m' (sym (opened t f) ∙ r) in
        let (s, d, w) = went_through (dispatch_return hs t m.state e) _ m' k in
        returned t s a f q d (ok_inj w)
  ]
    where
      unopened : find (key_of e) m.last_evt ≡ none → return_event hs m e ≡ fail exception
      unopened f = rw (f, return_event)

      opened :
          (t : EType)
          → find (key_of e) m.last_evt ≡ some t
          → return_event hs m e ≡ (
              throw_if (is_return t) exception
              >> (dispatch_return hs t m.state e >>= λ s. ok (after_return e m s)))
      opened t f = rw (f, return_event)

  -- Every event that is accepted is a return behind a call of its thread, or a call.
  pub add_event-Accepted : add_event hs m e ≡ ok m' → Accepted hs e m m'
  unfolding add_event
  add_event-Accepted r = elim (Bool-cases (is_return e.etype)) [
    | inl a ↦ return_event-Accepted a (sym (rw (a, add_event)) ∙ r)
    | inr a ↦ call_event-Accepted a (sym (rw (a, add_event)) ∙ r)
  ]

-- From a state with the first property, every handler that returns leads to one with the second.
pub record Leads {S : Type 0} (hs : Handlers S) (e : Event) (P Q : S → Type 0) : Type 0 where
  pub on_call : (t : EType) (s s' : S) → P s → hs.on_call t s e ≡ ok s' → Q s'
  pub on_return : (t : EType) (s s' : S) → P s → hs.on_return t s e ≡ ok s' → Q s'
  pub on_crash : (s s' : S) → P s → hs.on_crash s e ≡ ok s' → Q s'
  pub on_nothing : (s : S) → P s → Q s

module _ {S : Type 0} (hs : Handlers S) (e : Event) (P Q : S → Type 0) (l : Leads hs e P Q) where
  dispatch_call-Leads : (s s' : S) → P s → dispatch_call hs s e ≡ ok s' → Q s'
  unfolding dispatch_call
  dispatch_call-Leads s s' p r = elim (Bool-cases (is_operation e.etype)) [
    | inl a ↦ l.on_call e.etype s s' p (sym (operation a) ∙ r)
    | inr a ↦ elim (Bool-cases (is_crash e.etype)) [
      | inl b ↦ l.on_crash s s' p (sym (crashed a b) ∙ r)
      | inr b ↦ absurd (no_result (sym (unhandled a b) ∙ r))
    ]
  ]
    where
      operation : is_operation e.etype ≡ true → dispatch_call hs s e ≡ hs.on_call e.etype s e
      operation a = rw (a, dispatch_call)

      crashed :
          is_operation e.etype ≡ false
          → is_crash e.etype ≡ true
          → dispatch_call hs s e ≡ hs.on_crash s e
      crashed a b = rw (a, b, dispatch_call)

      unhandled :
          is_operation e.etype ≡ false
          → is_crash e.etype ≡ false
          → dispatch_call hs s e ≡ fail std_error
      unhandled a b = rw (a, b, dispatch_call)

  dispatch_return-Leads : (t : EType) (s s' : S) → P s → dispatch_return hs t s e ≡ ok s' → Q s'
  unfolding dispatch_return
  dispatch_return-Leads t s s' p r = elim (Bool-cases (is_operation t)) [
    | inl a ↦ l.on_return t s s' p (sym (rw (a, dispatch_return)) ∙ r)
    | inr a ↦ subst Q (ok_inj (sym (rw (a, dispatch_return)) ∙ r)) (l.on_nothing s p)
  ]

  accepted-Leads : (m m' : Monitor S) → P m.state → Accepted hs e m m' → Q m'.state
  unfolding rem_conc add_conc
  accepted-Leads m m' p (returned t s a f q d w) =
      subst (λ z. Q z.state) w (dispatch_return-Leads t m.state s p d)
  accepted-Leads m m' p (called s a q d w) =
      subst (λ z. Q z.state) w (dispatch_call-Leads m.state s p d)

  -- An event that the monitor accepts leads from a state with the first property to one with the
  -- second, whatever it is dispatched to.
  pub add_event-Leads : (m m' : Monitor S) → P m.state → add_event hs m e ≡ ok m' → Q m'.state
  add_event-Leads m m' p r = accepted-Leads m m' p (add_event-Accepted hs e m m' r)
