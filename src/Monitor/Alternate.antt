-- ===== src/Monitor/Alternate.antt =====
-- A history that the monitor accepts: in each thread, calls and returns take turns.
use li_mo.Base.{
  ℕ, ◌≡◌, refl, sym, ◌∙◌, ap, subst, Bool, true, false, not, ◌&&◌, some, List, [], ◌∷◌, arith,
  if◌then◌else◌, ◌==◌, Bool-cases, ◌⊎◌, inl, inr, find, assign, nat_key, ok, went_through,
}
use li_mo.Event.{EType, Event}
use li_mo.Monitor.{
  Handlers, Monitor, start, is_return, is_crash, is_open, key_of, add_conc, rem_conc, add_event,
  add_events,
}
use li_mo.Monitor.Dispatch.{Accepted, returned, called, add_event-Accepted}

-- Whether the events of the thread are calls and returns in turn; `busy` says whether it has a
-- call that has not returned. A crash ends the calls of all threads, and is itself an event of its
-- thread without a return.
unfoldable pub alternates : ℕ → Bool → List Event → Bool
alternates k busy [] = true
alternates k busy (e ∷ es) =
    let crashed = alternates k (k == key_of e) es in
    let returns = alternates k false es in
    let calls = alternates k true es in
    let others = alternates k busy es in
    if is_crash e.etype
    then crashed
    else if k == key_of e
    then (if is_return e.etype then busy && returns else not busy && calls)
    else others

module _ (j k : ℕ) (t : EType) where
  pub find-assign :
      (m : List (ℕ × EType)) → find j (assign k t m) ≡ (if j == k then some t else find j m)
  unfolding find assign
  find-assign [] = ground arith
  find-assign ((i, u) ∷ m) = ground (arith, find-assign m)

-- Whether the thread is in a call.
abbrev busy_in : {S : Type 0} → ℕ → Monitor S → Bool
busy_in k m = is_open (find k m.last_evt)

module _ (k : ℕ) (e : Event) (es : List Event) where
  alternates_return :
      is_return e.etype ≡ true
      → (k == key_of e) ≡ true
      → (b : Bool) → b ≡ true
      → alternates k false es ≡ true
      → alternates k b (e ∷ es) ≡ true
  unfolding alternates
  alternates_return r q b p h = ground arith

  alternates_call :
      is_return e.etype ≡ false
      → is_crash e.etype ≡ false
      → (k == key_of e) ≡ true
      → (b : Bool) → b ≡ false
      → alternates k true es ≡ true
      → alternates k b (e ∷ es) ≡ true
  unfolding alternates
  alternates_call r c q b p h = ground arith

  alternates_crash :
      is_crash e.etype ≡ true
      → (b : Bool) → alternates k (k == key_of e) es ≡ true
      → alternates k b (e ∷ es) ≡ true
  unfolding alternates
  alternates_crash c b h = ground arith

  alternates_other :
      is_crash e.etype ≡ false
      → (k == key_of e) ≡ false
      → (b : Bool) → alternates k b es ≡ true
      → alternates k b (e ∷ es) ≡ true
  unfolding alternates
  alternates_other c q b h = ground arith

module _ {S : Type 0} (hs : Handlers S) (k : ℕ) (e : Event) (es : List Event) where
  -- Behind the entry of the event: the thread of the event is in a call unless it is a return.
  entered :
      (m : List (ℕ × EType))
      → alternates k (is_open (find k (assign (key_of e) e.etype m))) es ≡ true
      → ((k == key_of e) ≡ true) × (alternates k (not (is_return e.etype)) es ≡ true)
        ⊎ ((k == key_of e) ≡ false) × (alternates k (is_open (find k m)) es ≡ true)
  entered m h = elim (Bool-cases (k == key_of e)) [
    | inl q ↦ inl (q, subst (λ b. alternates k b es ≡ true) (own q) h)
    | inr q ↦ inr (q, subst (λ b. alternates k b es ≡ true) (other q) h)
  ]
    where
      own :
          (k == key_of e) ≡ true
          → is_open (find k (assign (key_of e) e.etype m)) ≡ not (is_return e.etype)
      own q =
          ap is_open (find-assign k (key_of e) e.etype m)
          ∙ ap (λ b. is_open (if b then some e.etype else find k m)) q
          ∙ open_unless (is_return e.etype)
        where
          open_unless : (b : Bool) → elim b [ true ↦ false | false ↦ true ] ≡ not b
          open_unless true = refl
          open_unless false = refl

      other :
          (k == key_of e) ≡ false
          → is_open (find k (assign (key_of e) e.etype m)) ≡ is_open (find k m)
      other q =
          ap is_open (find-assign k (key_of e) e.etype m)
          ∙ ap (λ b. is_open (if b then some e.etype else find k m)) q

  same_key : (k == key_of e) ≡ true → key_of e ≡ k
  same_key q = ground arith

  no_crash : (t : EType) → is_return t ≡ true → is_crash t ≡ false
  no_crash t r = ground arith

  return_alternates :
      (m : List (ℕ × EType)) (t : EType)
      → is_return e.etype ≡ true
      → find (key_of e) m ≡ some t
      → is_return t ≡ false
      → alternates k (is_open (find k (assign (key_of e) e.etype m))) es ≡ true
      → alternates k (is_open (find k m)) (e ∷ es) ≡ true
  return_alternates m t a f q h = elim (entered m h) [
    | inl (p, g) ↦
        alternates_return k e es a p (is_open (find k m))
          (ap is_open (subst (λ j. find j m ≡ some t) (same_key p) f) ∙ opened t q)
          (subst (λ b. alternates k (not b) es ≡ true) a g)
    | inr (p, g) ↦ alternates_other k e es (no_crash e.etype a) p (is_open (find k m)) g
  ]
    where
      opened : (t : EType) → is_return t ≡ false → is_open (some t) ≡ true
      opened t q = ground arith

  call_alternates :
      (m : List (ℕ × EType))
      → is_return e.etype ≡ false
      → is_open (find (key_of e) (if is_crash e.etype then [] else m)) ≡ false
      → alternates k
          (is_open (find k (assign (key_of e) e.etype (if is_crash e.etype then [] else m))))
          es
        ≡ true
      → alternates k (is_open (find k m)) (e ∷ es) ≡ true
  call_alternates m a q h = elim (Bool-cases (is_crash e.etype)) [
    | inl c ↦ alternates_crash k e es c (is_open (find k m)) (elim (entered [] (kept true c h)) [
      | inl (p, g) ↦ both p (subst (λ b. alternates k (not b) es ≡ true) a g)
      | inr (p, g) ↦ both p (unfold find in g)
    ])
    | inr c ↦ elim (entered m (kept false c h)) [
      | inl (p, g) ↦
          alternates_call k e es a c p (is_open (find k m))
            (subst (λ j. is_open (find j m) ≡ false) (same_key p)
              (subst (λ b. is_open (find (key_of e) (if b then [] else m)) ≡ false) c q))
            (subst (λ b. alternates k (not b) es ≡ true) a g)
      | inr (p, g) ↦ alternates_other k e es c p (is_open (find k m)) g
    ]
  ]
    where
      kept :
          (b : Bool)
          → is_crash e.etype ≡ b
          → alternates k
              (is_open (find k (assign (key_of e) e.etype (if is_crash e.etype then [] else m))))
              es
            ≡ true
          → alternates k (is_open (find k (assign (key_of e) e.etype (if b then [] else m)))) es
            ≡ true
      kept b c h =
          subst
            (λ d.
              alternates k (is_open (find k (assign (key_of e) e.etype (if d then [] else m)))) es
              ≡ true)
            c h

      both :
          {b : Bool}
          → (k == key_of e) ≡ b
          → alternates k b es ≡ true
          → alternates k (k == key_of e) es ≡ true
      both p g = subst (λ b. alternates k b es ≡ true) (sym p) g

  Accepted-alternates :
      (m m' : Monitor S)
      → Accepted hs e m m'
      → alternates k (busy_in k m') es ≡ true
      → alternates k (busy_in k m) (e ∷ es) ≡ true
  unfolding add_conc rem_conc
  Accepted-alternates m m' (returned t s a f q d w) h =
      return_alternates m.last_evt t a f q
        (subst (λ z. alternates k (busy_in k z) es ≡ true) (sym w) h)
  Accepted-alternates m m' (called s a q d w) h =
      call_alternates m.last_evt a q (subst (λ z. alternates k (busy_in k z) es ≡ true) (sym w) h)

module _ {S : Type 0} (hs : Handlers S) (k : ℕ) where
  from_state :
      (es : List Event) (m m' : Monitor S)
      → add_events hs m es ≡ ok m'
      → alternates k (busy_in k m) es ≡ true
  unfolding add_events alternates
  from_state [] m m' r = refl
  from_state (e ∷ es) m m' r =
      let (n, a, b) = went_through (add_event hs m e) _ m' r in
      Accepted-alternates hs k e es m n (add_event-Accepted hs e m n a) (from_state es n m' b)

-- If a monitor accepts every event of a history from its start, whatever its handlers are, then the
-- events of each thread, as cut to 32 bits, are calls and returns in turn, a call first; where there
-- is a crash, the calls of all threads end, and its own thread counts as being in a call.
pub add_events-alternates :
    {S : Type 0} (hs : Handlers S) (s : S) (es : List Event) (m : Monitor S)
    → add_events hs (start s) es ≡ ok m
    → (k : ℕ) → alternates k false es ≡ true
unfolding find
add_events-alternates hs s es m r k = from_state hs k es (start s) m r
