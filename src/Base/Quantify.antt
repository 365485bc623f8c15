-- ===== src/Base/Quantify.antt =====
-- Predicates on all elements and on all pairs of a list, under the list operations.
use mathlib.Core.Bool.{Bool, not}
use mathlib.Core.Logic.{inl, inr}
use mathlib.Core.List.{
  List, [], ◌∷◌, ◌++◌, map, Mem, Perm, perm_middle, mem-cons_self, mem-cons, not-mem-nil,
}
use mathlib.Core.List.Perm
use mathlib.Core.Logic.Or
use li_mo.Base.Tests.{Bool-cases}
use li_mo.Base.Lists.{All, filter, filter_keep, filter_drop, All-filter}

-- A relation between each element and every later one.
abbrev pub Pairs {ℓ κ} : {A : Type ℓ} → (A → A → Type κ) → List A → Type κ
Pairs R [] = Unit
Pairs R (x ∷ xs) = All (R x) xs × Pairs R xs

pub data Any {ℓ κ} {A : Type ℓ} (P : A → Type κ) : List A → Type (ℓ ⊔ κ) where
  here : {x : A} {xs : List A} → P x → Any P (x ∷ xs)
  there : {x : A} {xs : List A} → Any P xs → Any P (x ∷ xs)

module _ {ℓ} {A : Type ℓ} where
  pub All-mono {κ η} :
      {P : A → Type κ} {Q : A → Type η} (xs : List A) → ((x : A) → P x → Q x) → All P xs → All Q xs
  All-mono [] f h = tt
  All-mono (x ∷ xs) f h = (f x h.0, All-mono xs f h.1)

  pub All-zip {κ η θ} :
      {P : A → Type κ} {Q : A → Type η} {R : A → Type θ} (xs : List A)
      → ((x : A) → P x → Q x → R x)
      → All P xs
      → All Q xs
      → All R xs
  All-zip [] f h k = tt
  All-zip (x ∷ xs) f h k = (f x h.0 k.0, All-zip xs f h.1 k.1)

  pub All-append {κ} : (P : A → Type κ) (xs ys : List A) → All P xs → All P ys → All P (xs ++ ys)
  All-append P [] ys h k = k
  All-append P (x ∷ xs) ys h k = (h.0, All-append P xs ys h.1 k)

  pub Pairs-append {κ} :
      (R : A → A → Type κ) (xs ys : List A)
      → Pairs R xs
      → Pairs R ys
      → All (λ x. All (R x) ys) xs
      → Pairs R (xs ++ ys)
  Pairs-append R [] ys h k l = k
  Pairs-append R (x ∷ xs) ys h k l =
      (All-append (R x) xs ys h.0 l.0, Pairs-append R xs ys h.1 k l.1)

  pub Pairs-filter {κ} :
      (R : A → A → Type κ) (p : A → Bool) (xs : List A) → Pairs R xs → Pairs R (filter p xs)
  unfolding filter
  Pairs-filter R p [] h = h
  Pairs-filter R p (x ∷ xs) h = elim (Bool-cases (p x)) [
    | inl e ↦ rw (filter_keep p x xs e) (All-filter (R x) p xs h.0, Pairs-filter R p xs h.1)
    | inr e ↦ rw (filter_drop p x xs e) (Pairs-filter R p xs h.1)
  ]

  pub Any-mono {κ η} :
      {P : A → Type κ} {Q : A → Type η} {xs : List A} → ((x : A) → P x → Q x) → Any P xs → Any Q xs
  Any-mono f (here p) = here (f _ p)
  Any-mono f (there a) = there (Any-mono f a)

  All-mem {κ} : (P : A → Type κ) (xs : List A) → ((x : A) → Mem x xs → P x) → All P xs
  All-mem P [] h = tt
  All-mem P (x ∷ xs) h = (h x mem-cons_self, All-mem P xs (λ y m. h y (mem-cons.1 (Or.inr m))))

  mem-All {κ} :
      (P : A → Type κ)
      → ((x : A) → IsProp (P x))
      → (xs : List A) → All P xs
      → (x : A) → Mem x xs
      → P x
  mem-All P pr [] h x m = absurd (not-mem-nil m)
  mem-All P pr (y ∷ xs) h x m =
      Or.elim (pr x) (mem-cons.0 m) (λ e. rw e h.0) (mem-All P pr xs h.1 x)

  -- A property of all elements does not depend on their order.
  pub All-perm {κ} :
      (P : A → Type κ)
      → ((x : A) → IsProp (P x))
      → {xs ys : List A} → Perm xs ys
      → All P ys
      → All P xs
  All-perm P pr {xs} {ys} p h = All-mem P xs (λ x m. mem-All P pr ys h x ((Perm.mem_iff p).0 m))

  pub filter-perm :
      (p : A → Bool) (xs : List A) → Perm xs (filter p xs ++ filter (λ x. not (p x)) xs)
  unfolding filter
  filter-perm p [] = Perm.nil
  filter-perm p (x ∷ xs) = elim (Bool-cases (p x)) [
    | inl e ↦
        rw (filter_keep p x xs e, filter_drop (λ y. not (p y)) x xs (rw e))
          (Perm.cons x (filter-perm p xs))
    | inr e ↦
        rw (filter_drop p x xs e, filter_keep (λ y. not (p y)) x xs (rw e))
          (Perm.trans (Perm.cons x (filter-perm p xs)) (Perm.symm (perm_middle _ _)))
  ]

pub All-of_map {ℓ κ η} :
    {A : Type ℓ} {B : Type κ} (P : B → Type η) (f : A → B) (xs : List A)
    → All P (map f xs)
    → All (λ x. P (f x)) xs
All-of_map P f [] h = tt
All-of_map P f (x ∷ xs) h = (h.0, All-of_map P f xs h.1)

pub All-map {ℓ κ η} :
    {A : Type ℓ} {B : Type κ} (P : B → Type η) (f : A → B) (xs : List A)
    → All (λ x. P (f x)) xs
    → All P (map f xs)
All-map P f [] h = tt
All-map P f (x ∷ xs) h = (h.0, All-map P f xs h.1)
