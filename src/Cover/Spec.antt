-- ===== src/Cover/Spec.antt =====
-- What a linearization of the values of a stack history is: a sequence of their pushes and pops that
-- the sequential stack can run from empty to empty and that respects the order in real time.
use mathlib.Core.List.{Perm}
use mathlib.Core.List.Perm
use li_mo.Base.{
  ◌≡◌, refl, ap, false, Option, none, some, List, [], ◌∷◌, ◌++◌, arith, if◌then◌else◌, All, Pairs,
  All-perm,
}
use li_mo.Event.{Val, val_eq}
use li_mo.Interval.Atomic.{AtomicInterval, preceeds}
use li_mo.Cover.History.{CoverVal}

pub data Op : Type 0 where
  push_op pop_op : CoverVal → Op

abbrev pub itv_of : Op → AtomicInterval
itv_of (push_op v) = v.add
itv_of (pop_op v) = v.rmv

-- The sequential stack: `none` where a pop meets the empty stack or another value.
unfoldable pub run_stack : List Op → List Val → Option (List Val)
run_stack [] s = some s
run_stack (push_op v ∷ ops) s = run_stack ops (v.val ∷ s)
run_stack (pop_op v ∷ ops) [] = none
run_stack (pop_op v ∷ ops) (w ∷ s) =
    let rest = run_stack ops s in if val_eq w v.val then rest else none

unfoldable pub pushed : List Op → List CoverVal
pushed [] = []
pushed (push_op v ∷ ops) = v ∷ pushed ops
pushed (pop_op v ∷ ops) = pushed ops

unfoldable pub popped : List Op → List CoverVal
popped [] = []
popped (push_op v ∷ ops) = popped ops
popped (pop_op v ∷ ops) = v ∷ popped ops

-- No operation is ordered before one that returned before it was called.
abbrev pub InOrder : List Op → Type 0
InOrder = Pairs λ x y. preceeds (itv_of y) (itv_of x) ≡ false

pub record Linearization (vs : List CoverVal) (ops : List Op) : Type 0 where
  pub legal : run_stack ops [] ≡ some []
  pub pushes : Perm (pushed ops) vs
  pub pops : Perm (popped ops) vs
  pub in_order : InOrder ops

-- A stack history of these values is linearizable.
abbrev pub IsLinearizable : List CoverVal → Type 0
IsLinearizable vs = (ops : List Op) × Linearization vs ops

pub run_stack-append :
    (xs ys : List Op) (s t : List Val)
    → run_stack xs s ≡ some t
    → run_stack (xs ++ ys) s ≡ run_stack ys t
unfolding run_stack
run_stack-append [] ys s t h = ground arith
run_stack-append (push_op v ∷ xs) ys s t h = run_stack-append xs ys (v.val ∷ s) t h
run_stack-append (pop_op v ∷ xs) ys [] t h = cc
run_stack-append (pop_op v ∷ xs) ys (w ∷ s) t h = ground (arith, run_stack-append xs ys s t)

-- What lies below on the stack is not touched.
pub run_stack-below :
    (ops : List Op) (s t below : List Val)
    → run_stack ops s ≡ some t
    → run_stack ops (s ++ below) ≡ some (t ++ below)
unfolding run_stack
run_stack-below [] s t below h = ground arith
run_stack-below (push_op v ∷ ops) s t below h = run_stack-below ops (v.val ∷ s) t below h
run_stack-below (pop_op v ∷ ops) [] t below h = cc
run_stack-below (pop_op v ∷ ops) (w ∷ s) t below h = ground (arith, run_stack-below ops s t below)

pub pushed-append : (xs ys : List Op) → pushed (xs ++ ys) ≡ pushed xs ++ pushed ys
unfolding pushed
pushed-append [] ys = refl
pushed-append (push_op v ∷ xs) ys = ap (◌∷◌ v) (pushed-append xs ys)
pushed-append (pop_op v ∷ xs) ys = pushed-append xs ys

pub popped-append : (xs ys : List Op) → popped (xs ++ ys) ≡ popped xs ++ popped ys
unfolding popped
popped-append [] ys = refl
popped-append (push_op v ∷ xs) ys = popped-append xs ys
popped-append (pop_op v ∷ xs) ys = ap (◌∷◌ v) (popped-append xs ys)

abbrev pub op_val : Op → CoverVal
op_val (push_op v) = v
op_val (pop_op v) = v

All-ops :
    (P : CoverVal → Type 0) (ops : List Op)
    → All P (pushed ops)
    → All P (popped ops)
    → All (λ o. P (op_val o)) ops
unfolding pushed popped
All-ops P [] h k = tt
All-ops P (push_op v ∷ ops) h k = (h.0, All-ops P ops h.1 k)
All-ops P (pop_op v ∷ ops) h k = (k.0, All-ops P ops h k.1)

-- What holds of all values holds of the value of each operation.
pub Linearization-All :
    (P : CoverVal → Type 0)
    → ((v : CoverVal) → IsProp (P v))
    → {vs : List CoverVal} {ops : List Op} → Linearization vs ops
    → All P vs
    → All (λ o. P (op_val o)) ops
Linearization-All P pr {vs} {ops} l h =
    All-ops P ops (All-perm P pr l.pushes h) (All-perm P pr l.pops h)

pub empty-IsLinearizable : IsLinearizable []
unfolding run_stack pushed popped
empty-IsLinearizable =
    ([], record { legal = refl; pushes = Perm.nil; pops = Perm.nil; in_order = tt })
