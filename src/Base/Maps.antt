-- ===== src/Base/Maps.antt =====
-- `std::map` as an association list in the order of its keys. Two keys are the same where neither
-- is less than the other.
use mathlib.Core.Path.{◌≡◌}
use mathlib.Core.Bool.{Bool, true, false, not, ◌&&◌}
use mathlib.Core.Option.{Option, none, some}
use mathlib.Core.List.{List, [], ◌∷◌}
use native.Mathlib.Omega.{arith}
use Prim.Native.Nat.{ℕ}
use li_mo.Base.Tests.{if◌then◌else◌, ltb}

pub record Key (K : Type 0) : Type 0 where
  pub less : K → K → Bool
  pub irrefl : (a : K) → less a a ≡ false
  pub connected : (a b : K) → less a b ≡ false → less b a ≡ false → a ≡ b

abbrev pub same : {K : Type 0} ⦃o : Key K⦄ → K → K → Bool
same ⦃o⦄ a b = not (o.less a b) && not (o.less b a)

module _ {K V : Type 0} ⦃o : Key K⦄ where
  unfoldable pub assign : K → V → List (K × V) → List (K × V)
  assign k v [] = (k, v) ∷ []
  assign k v ((j, w) ∷ m) = elim (o.less k j) [
    | true ↦ (k, v) ∷ (j, w) ∷ m
    | false ↦ elim (o.less j k) [ true ↦ (j, w) ∷ assign k v m | false ↦ (k, v) ∷ m ]
  ]

  unfoldable pub find : K → List (K × V) → Option V
  find k [] = none
  find k ((j, w) ∷ m) = if same k j then some w else find k m

  unfoldable pub remove : K → List (K × V) → List (K × V)
  remove k [] = []
  remove k ((j, w) ∷ m) = if same k j then m else (j, w) ∷ remove k m

pub ltb_irrefl : (a : ℕ) → ltb a a ≡ false
ltb_irrefl a = ground arith

pub ltb-connected : (a b : ℕ) → ltb a b ≡ false → ltb b a ≡ false → a ≡ b
ltb-connected a b h k = ground arith

instance abbrev pub nat_key : Key ℕ
nat_key = record { less = ltb; irrefl = ltb_irrefl; connected = ltb-connected }
