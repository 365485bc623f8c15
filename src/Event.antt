-- ===== src/Event.antt =====
-- include/typedef.h, include/event.h, include/history.h and include/util.h: values, events and the
-- result of a linearization step.
use li_mo.Base.{
  ℕ, ◌+◌, ◌≡◌, Bool, true, false, ◌&&◌, Option, none, some, List, [], ◌++◌, arith, ltb, ◌==◌,
  if◌then◌else◌, Key,
}

-- A value is known by its thread and index; the text that it is printed with takes no part in any
-- comparison and is left out. The index is a signed number in the source and is a natural number here:
-- indices count from 0, and the -1 of `val_t()` is kept in its two's complement.
pub record Val : Type 0 where
  pub thread : ℕ
  pub idx : ℕ

abbrev pub val_eq : Val → Val → Bool
val_eq a b = (a.thread == b.thread) && (a.idx == b.idx)

abbrev pub val_less : Val → Val → Bool
val_less a b = if a.thread == b.thread then ltb a.idx b.idx else ltb a.thread b.thread

pub val_less_irrefl : (a : Val) → val_less a a ≡ false
val_less_irrefl a = ground arith

pub val_less-connected : (a b : Val) → val_less a b ≡ false → val_less b a ≡ false → a ≡ b
val_less-connected a b h k = ground arith

pub val_eq-eq : (a b : Val) → val_eq a b ≡ true → a ≡ b
val_eq-eq a b h = ground arith

instance abbrev pub val_key : Key Val
val_key = record { less = val_less; irrefl = val_less_irrefl; connected = val_less-connected }

pub data EType : Type 0 where
  return push pop enq deq add rmv ctn crash nil : EType

pub record Event : Type 0 where
  pub etype : EType
  pub thread : ℕ
  pub val : Option Val
  pub timestamp : ℕ

-- `event_t::create` stamps an event from the global counter, which is passed in and returned.
unfoldable pub create : EType → ℕ → Option Val → ℕ → Event × ℕ
create t thread v clock =
    let now = clock + 1 in (record { etype = t; thread = thread; val = v; timestamp = now }, now)

-- The messages that a step can report.
pub data Message : Type 0 where
  no_opening cover_is_atomic no_guess : Message

-- `LinearizationResult`
pub record LinRes (A : Type 0) : Type 0 where
  pub viol : Option Message
  pub remaining : List A

module _ {A : Type 0} where
  abbrev pub is_violation : LinRes A → Bool
  is_violation r = elim r.viol [ none ↦ false | some m ↦ true ]

  abbrev pub done : LinRes A
  done = record { viol = none; remaining = [] }

  abbrev pub report : Message → LinRes A
  report m = record { viol = some m; remaining = [] }

  abbrev pub remain : List A → LinRes A
  remain rest = record { viol = none; remaining = rest }

  -- `operator+` puts what remains of the second result first.
  unfoldable pub combine : LinRes A → LinRes A → LinRes A
  combine r s = elim r.viol [
    | some m ↦ report m
    | none ↦ elim s.viol [ some m ↦ report m | none ↦ remain (s.remaining ++ r.remaining) ]
  ]
