-- ===== src/Monitor.antt =====
-- `Monitor` of include/monitor.hpp and monitor/src/monitor.cpp: the check that calls and returns of
-- a thread alternate, the dispatch to the handlers of the monitor, and the counters. The counters are
-- `int`s, kept as natural numbers: fewer than 2 ^ 31 events do not overflow `nConc`, `maxConc` and
-- `nOps`. `totConc`, a sum of `nConc`, can overflow sooner, which is not modelled.
pub mod Dispatch
pub mod Counters
pub mod Alternate
use li_mo.Base.{
  ℕ, ◌+◌, ◌-◌, ◌^◌, ◌%◌, Bool, true, false, Option, none, some, List, [], ◌∷◌, if◌then◌else◌, max,
  assign, find, nat_key, Result, ok, fail, exception, std_error, ◌>>=◌, ◌>>◌, throw_if,
}
use li_mo.Event.{EType, Event}

-- What a monitor overrides: the handlers of calls and returns by the type of the operation, and
-- that of a crash, on the monitor's own state.
pub record Handlers (S : Type 0) : Type 0 where
  pub on_call : EType → S → Event → Result S
  pub on_return : EType → S → Event → Result S
  pub on_crash : S → Event → Result S

pub record Monitor (S : Type 0) : Type 0 where
  pub last_evt : List (ℕ × EType)
  pub n_conc : ℕ
  pub max_conc : ℕ
  pub tot_conc : ℕ
  pub n_ops : ℕ
  pub state : S

abbrev pub is_return : EType → Bool
is_return t = elim t [ EType.return ↦ true | _ ↦ false ]

abbrev pub is_crash : EType → Bool
is_crash t = elim t [ EType.crash ↦ true | _ ↦ false ]

-- The types in `OP_TYPE`.
abbrev pub is_operation : EType → Bool
is_operation t = elim t [ EType.return ↦ false | EType.crash ↦ false | _ ↦ true ]

-- The map is keyed by `int`, so the thread is cut to 32 bits.
abbrev pub key_of : Event → ℕ
key_of e = e.thread % 2 ^ 32

-- Whether the thread has a call that has not returned.
abbrev pub is_open : Option EType → Bool
is_open o = elim o [ none ↦ false | some t ↦ elim (is_return t) [ true ↦ false | false ↦ true ] ]

module _ {S : Type 0} where
  abbrev pub start : S → Monitor S
  start s = record { last_evt = []; n_conc = 0; max_conc = 0; tot_conc = 0; n_ops = 0; state = s }

  unfoldable pub add_conc : Monitor S → Monitor S
  add_conc m = record m {
    n_conc = m.n_conc + 1;
    max_conc = max m.max_conc (m.n_conc + 1);
    tot_conc = m.tot_conc + (m.n_conc + 1);
    n_ops = m.n_ops + 1;
  }

  -- `nConc--`, which starts from 1 or more: a return is counted only behind its call.
  unfoldable pub rem_conc : Monitor S → Monitor S
  rem_conc m = record m {
    n_conc = m.n_conc - 1;
    tot_conc = m.tot_conc + (m.n_conc - 1);
    n_ops = m.n_ops + 1;
  }

  -- A call on which no type matches is a crash or unhandled.
  unfoldable pub dispatch_call : Handlers S → S → Event → Result S
  dispatch_call hs s e =
      if is_operation e.etype
      then hs.on_call e.etype s e
      else if is_crash e.etype
      then hs.on_crash s e
      else fail std_error

  -- A return behind a crash matches no type and is not handled.
  unfoldable pub dispatch_return : Handlers S → EType → S → Event → Result S
  dispatch_return hs t s e = if is_operation t then hs.on_return t s e else ok s

  unfoldable pub return_event : Handlers S → Monitor S → Event → Result (Monitor S)
  unfolding find assign dispatch_return rem_conc
  return_event hs m e = elim (find (key_of e) m.last_evt) [
    | none ↦ fail exception
    | some t ↦ do
      throw_if (is_return t) exception
      s ← dispatch_return hs t m.state e
      ok (rem_conc (record m { last_evt = assign (key_of e) e.etype m.last_evt; state = s }))
  ]

  unfoldable pub call_event : Handlers S → Monitor S → Event → Result (Monitor S)
  unfolding find assign dispatch_call add_conc
  call_event hs m e = do
    let before = if is_crash e.etype then [] else m.last_evt
    throw_if (is_open (find (key_of e) before)) exception
    s ← dispatch_call hs m.state e
    ok (add_conc (record m { last_evt = assign (key_of e) e.etype before; state = s }))

  unfoldable pub add_event : Handlers S → Monitor S → Event → Result (Monitor S)
  unfolding return_event call_event
  add_event hs m e = if is_return e.etype then return_event hs m e else call_event hs m e

  -- The loop of linearize/src/main.cpp over the history.
  unfoldable pub add_events : Handlers S → Monitor S → List Event → Result (Monitor S)
  unfolding add_event
  add_events hs m [] = ok m
  add_events hs m (e ∷ es) = do m' ← add_event hs m e; add_events hs m' es
