-- ===== src/Cover/Reading.antt =====
-- What holds of a `CoverHistory` while a history is read, and what each operation that reads events
-- does to its values.
use li_mo.Base.{
  ℕ, ◌-◌, ◌<◌, ◌≡◌, Bool, false, none, some, List, ◌∷◌, arith, All, All-mono, All-zip, Pairs, find,
  remove, nat_key,
}
use li_mo.Event.{Val, Event, EType, val_eq}
use li_mo.Interval.Atomic.{closed, end_itv, pos_inf}
use li_mo.Cover.History.{CoverHistory, CoverVal, cover_val, insert_value}
use li_mo.Cover.Events.{find_value, update_value, erase_value}
use li_mo.Cover.Compose.{IsRead}
use li_mo.Cover.Prune.{IsOrdered}
use li_mo.Cover.Values.{
  Later, All-insert_value, All-erase_value, All-update_value, All-find_value,
  insert_value-IsOrdered, erase_value-IsOrdered, update_value-IsOrdered,
}
use li_mo.Cover.Calls.{All-remove, All-find, find-remove}

-- Whether the event pushes the value.
abbrev pub pushes : Event → Val → Bool
pushes e v = elim e.etype [
  | EType.push ↦ elim e.val [ none ↦ false | some w ↦ val_eq w v ]
  | _ ↦ false
]

abbrev pub same_push : Event → Event → Bool
same_push c e = elim c.etype [
  | EType.push ↦ elim c.val [ none ↦ false | some v ↦ pushes e v ]
  | _ ↦ false
]

-- A timestamp that leaves room for the removal that never happens.
abbrev pub InTime : Event → Type 0
InTime e = (0 < e.timestamp) × (e.timestamp < pos_inf - 2)

-- The second event is later, and they are not two pushes of one value.
abbrev pub Then : Event → Event → Type 0
Then c e = (c.timestamp < e.timestamp) × (same_push c e ≡ false)

abbrev pub Differ : Event → Event → Type 0
Differ c d = (same_push c d ≡ false) × (same_push d c ≡ false)

-- The push of the value returned before the event, and the event does not push it again.
abbrev pub Ahead : CoverVal → Event → Type 0
Ahead w e = (w.add.ubound < e.timestamp) × (pushes e w.val ≡ false)

-- The values that were read, against the calls that are open and the events to come.
pub record IsCurrent (vs : List CoverVal) (calls : List (ℕ × Event)) (es : List Event)
    : Type 0 where
  pub ordered : IsOrdered vs
  pub read : All IsRead vs
  pub unread : All (λ c. All (λ w. pushes c.1 w.val ≡ false) vs) calls
  pub ahead : All (λ e. All (λ w. Ahead w e) vs) es

-- The calls that are open, against each other and the events to come.
pub record IsWaiting (calls : List (ℕ × Event)) (es : List Event) : Type 0 where
  pub started : All (λ c. 0 < c.1.timestamp) calls
  pub distinct : Pairs (λ c d. Differ c.1 d.1) calls
  pub before : All (λ e. All (λ c. Then c.1 e) calls) es

pub record IsReading (h : CoverHistory) (es : List Event) : Type 0 where
  pub current : IsCurrent h.values h.open_calls es
  pub waiting : IsWaiting h.open_calls es
  pub in_time : All InTime es
  pub in_order : Pairs Then es

pub Differ-symm : (c d : Event) → Differ c d → Differ d c
Differ-symm c d h = (h.1, h.0)

-- The value of a push that returns.
abbrev pub read_value : Val → Event → Event → CoverVal
read_value a c e = cover_val a (closed c.timestamp e.timestamp) end_itv

module _ (calls : List (ℕ × Event)) (k : ℕ) (c e : Event) (es : List Event) where
  -- The values stay as they are.
  pub same-IsCurrent :
      (vs : List CoverVal) → IsCurrent vs calls (e ∷ es) → IsCurrent vs (remove k calls) es
  same-IsCurrent vs v = record {
    ordered = v.ordered;
    read = v.read;
    unread = All-remove (λ d. All (λ w. pushes d w.val ≡ false) vs) k calls v.unread;
    ahead = v.ahead.1;
  }

  pub erase-IsCurrent :
      (a : Val) (vs : List CoverVal)
      → IsCurrent vs calls (e ∷ es)
      → IsCurrent (erase_value a vs) (remove k calls) es
  erase-IsCurrent a vs v = record {
    ordered = erase_value-IsOrdered a vs v.ordered;
    read = All-erase_value IsRead a vs v.read;
    unread =
        All-mono (remove k calls) (λ d h. All-erase_value (λ w. pushes d.1 w.val ≡ false) a vs h)
          (same-IsCurrent vs v).unread;
    ahead = All-mono es (λ f h. All-erase_value (λ w. Ahead w f) a vs h) v.ahead.1;
  }

  -- The found value is written with another removal.
  pub update-IsCurrent :
      (a : Val) (n w : CoverVal) (vs : List CoverVal)
      → find_value a vs ≡ some w
      → n.add ≡ w.add
      → n.val ≡ w.val
      → IsRead n
      → IsCurrent vs calls (e ∷ es)
      → IsCurrent (update_value a n vs) (remove k calls) es
  update-IsCurrent a n w vs q x y r v = record {
    ordered = update_value-IsOrdered a n w vs q x y v.ordered;
    read = All-update_value IsRead a n vs r v.read;
    unread =
        All-mono (remove k calls)
          (λ d h.
            All-update_value (λ u. pushes d.1 u.val ≡ false) a n vs
              (rw y (All-find_value (λ u. pushes d.1 u.val ≡ false) a vs w h q)) h)
          (same-IsCurrent vs v).unread;
    ahead =
        All-mono es
          (λ f h.
            All-update_value (λ u. Ahead u f) a n vs
              (rw (x, y) (All-find_value (λ u. Ahead u f) a vs w h q)) h)
          v.ahead.1;
  }

  -- The value of a push that returns is entered.
  pub insert-IsCurrent :
      (a : Val) (vs : List CoverVal)
      → find k calls ≡ some c
      → c.etype ≡ EType.push
      → c.val ≡ some a
      → IsWaiting calls (e ∷ es)
      → InTime e
      → All (Then e) es
      → IsCurrent vs calls (e ∷ es)
      → IsCurrent (insert_value (read_value a c e) vs) (remove k calls) es
  insert-IsCurrent a vs f p q o i t v =
      let n = read_value a c e in
      let cs : 0 < c.timestamp = All-find (λ d. 0 < d.timestamp) k calls c o.started f in
      let ct : Then c e = All-find (λ d. Then d e) k calls c o.before.0 f in
      let cu = All-find (λ d. All (λ w. pushes d w.val ≡ false) vs) k calls c v.unread f in
      let ce = All-mono es (λ g h. All-find (λ d. Then d g) k calls c h f) o.before.1 in
      record {
        ordered = insert_value-IsOrdered n vs (All-zip vs behind v.ahead.0 cu) v.ordered;
        read = All-insert_value IsRead n vs (entered cs ct i) v.read;
        unread =
            All-zip (remove k calls)
              (λ d h l. All-insert_value (λ w. pushes d.1 w.val ≡ false) n vs (not_again d.1 l) h)
              (same-IsCurrent vs v).unread (find-remove Differ Differ-symm k calls c o.distinct f);
        ahead =
            All-zip es (λ g h l. All-insert_value (λ w. Ahead w g) n vs l h) v.ahead.1
              (All-zip es not_later t ce);
      }
    where
      behind : (w : CoverVal) → Ahead w e → pushes c w.val ≡ false → Later w (read_value a c e)
      behind w h l = ground arith

      entered : 0 < c.timestamp → Then c e → InTime e → IsRead (read_value a c e)
      entered h l j = ground arith

      not_again : (d : Event) → Differ c d → pushes d a ≡ false
      not_again d h = ground arith

      not_later : (g : Event) → Then e g → Then c g → Ahead (read_value a c e) g
      not_later g h l = ground arith
