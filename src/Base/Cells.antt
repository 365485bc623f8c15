-- ===== src/Base/Cells.antt =====
-- The cells of a vector: reading and writing by index, also of a vector of vectors.
use Prim.Native.Nat.{ℕ, zero, suc, ◌<◌}
use mathlib.Core.Path.{◌≡◌, refl, sym, ap, ◌∙◌, subst}
use mathlib.Core.Logic.{◌≢◌, ◌⊎◌, inl, inr}
use mathlib.Core.Option.{Option, none, some}
use mathlib.Core.List.{List, [], ◌∷◌}
use native.Mathlib.Omega.{arith}
use li_mo.Base.Tests.{◌==◌, Bool-cases}
use li_mo.Base.Lists.{All, length, get_elem?, nothing, some_inj, Option-cases}

pub same_or_not : (i k : ℕ) → (i ≡ k) ⊎ (i ≢ k)
same_or_not i k = elim (Bool-cases (i == k)) [
  | inl e ↦ inl (ground arith)
  | inr e ↦ inr (λ p. ground arith)
]

module _ {ℓ} {A : Type ℓ} where
  unfoldable pub set_elem : List A → ℕ → A → List A
  set_elem [] i y = []
  set_elem (x ∷ xs) zero y = y ∷ xs
  set_elem (x ∷ xs) (suc i) y = x ∷ set_elem xs i y

  unfoldable pub replicate : ℕ → A → List A
  replicate zero x = []
  replicate (suc n) x = x ∷ replicate n x

  -- `resize`, which only ever grows here: new cells hold the value.
  unfoldable pub grow : List A → ℕ → A → List A
  unfolding replicate
  grow [] n x = replicate n x
  grow (y ∷ ys) zero x = y ∷ ys
  grow (y ∷ ys) (suc n) x = y ∷ grow ys n x

  pub length-set_elem : (xs : List A) (i : ℕ) (y : A) → length (set_elem xs i y) ≡ length xs
  unfolding set_elem
  length-set_elem [] i y = refl
  length-set_elem (x ∷ xs) zero y = refl
  length-set_elem (x ∷ xs) (suc i) y = ap suc (length-set_elem xs i y)

  pub length-replicate : (n : ℕ) (x : A) → length (replicate n x) ≡ n
  unfolding replicate
  length-replicate zero x = refl
  length-replicate (suc n) x = ap suc (length-replicate n x)

  pub get_elem?-replicate : (n i : ℕ) (x : A) → i < n → get_elem? (replicate n x) i ≡ some x
  unfolding get_elem? replicate
  get_elem?-replicate zero i x h = absurd (omega arith)
  get_elem?-replicate (suc n) zero x h = refl
  get_elem?-replicate (suc n) (suc i) x h = get_elem?-replicate n i x (omega arith)

  pub get_elem?-some : (xs : List A) (i : ℕ) → i < length xs → (x : A) × (get_elem? xs i ≡ some x)
  unfolding get_elem?
  get_elem?-some [] i h = absurd (omega arith)
  get_elem?-some (x ∷ xs) zero h = (x, refl)
  get_elem?-some (x ∷ xs) (suc i) h = get_elem?-some xs i (omega arith)

  pub get_elem?_bound : (xs : List A) (i : ℕ) (x : A) → get_elem? xs i ≡ some x → i < length xs
  unfolding get_elem?
  get_elem?_bound [] i x e = absurd (nothing e)
  get_elem?_bound (y ∷ xs) zero x e = omega arith
  get_elem?_bound (y ∷ xs) (suc i) x e = omega (arith, get_elem?_bound xs i x e)

  pub get_elem?-set_elem :
      (xs : List A) (i : ℕ) (y : A) → i < length xs → get_elem? (set_elem xs i y) i ≡ some y
  unfolding get_elem? set_elem
  get_elem?-set_elem [] i y h = absurd (omega arith)
  get_elem?-set_elem (x ∷ xs) zero y h = refl
  get_elem?-set_elem (x ∷ xs) (suc i) y h = get_elem?-set_elem xs i y (omega arith)

  pub get_elem?-set_elem_other :
      (xs : List A) (i j : ℕ) (y : A) → i ≢ j → get_elem? (set_elem xs i y) j ≡ get_elem? xs j
  unfolding get_elem? set_elem
  get_elem?-set_elem_other [] i j y h = refl
  get_elem?-set_elem_other (x ∷ xs) zero zero y h = absurd (h refl)
  get_elem?-set_elem_other (x ∷ xs) zero (suc j) y h = refl
  get_elem?-set_elem_other (x ∷ xs) (suc i) zero y h = refl
  get_elem?-set_elem_other (x ∷ xs) (suc i) (suc j) y h =
      get_elem?-set_elem_other xs i j y (λ e. h (ap suc e))

-- A vector of vectors. `none` is a read outside of it.
module _ {ℓ} {A : Type ℓ} where
  unfoldable pub cell : List (List A) → ℕ → ℕ → Option A
  unfolding get_elem?
  cell t i j = elim (get_elem? t i) [ none ↦ none | some row ↦ get_elem? row j ]

  unfoldable pub put : List (List A) → ℕ → ℕ → A → List (List A)
  unfolding get_elem? set_elem
  put t i j y = elim (get_elem? t i) [ none ↦ t | some row ↦ set_elem t i (set_elem row j y) ]

  pub cell_row :
      (t : List (List A)) (i j : ℕ) (row : List A)
      → get_elem? t i ≡ some row
      → cell t i j ≡ get_elem? row j
  unfolding cell
  cell_row t i j row e = rw (e, cell) refl

  pub cell-none : (t : List (List A)) (i j : ℕ) → get_elem? t i ≡ none → cell t i j ≡ none
  unfolding cell
  cell-none t i j e = rw (e, cell) refl

  put_row :
      (t : List (List A)) (i j : ℕ) (y : A) (row : List A)
      → get_elem? t i ≡ some row
      → put t i j y ≡ set_elem t i (set_elem row j y)
  unfolding put
  put_row t i j y row e = rw (e, put) refl

  put-none : (t : List (List A)) (i j : ℕ) (y : A) → get_elem? t i ≡ none → put t i j y ≡ t
  unfolding put
  put-none t i j y e = rw (e, put) refl

  cell_cong :
      (t u : List (List A)) (k l : ℕ) → get_elem? t k ≡ get_elem? u k → cell t k l ≡ cell u k l
  unfolding cell
  cell_cong t u k l e = ap (λ o. elim o [ none ↦ none | some row ↦ get_elem? row l ]) e

  cell-set_elem :
      (t : List (List A)) (i l : ℕ) (row new : List A)
      → get_elem? t i ≡ some row
      → cell (set_elem t i new) i l ≡ get_elem? new l
  cell-set_elem t i l row new r =
      cell_row (set_elem t i new) i l new (get_elem?-set_elem t i new (get_elem?_bound t i row r))

  module _ (t : List (List A)) (i j k l : ℕ) (y : A) (row : List A)
      (r : get_elem? t i ≡ some row) where
    cell_other_row : i ≢ k → cell (set_elem t i (set_elem row j y)) k l ≡ cell t k l
    cell_other_row d =
        cell_cong (set_elem t i (set_elem row j y)) t k l
          (get_elem?-set_elem_other t i k (set_elem row j y) d)

    cell_same_row : i ≡ k → j ≢ l → cell (set_elem t i (set_elem row j y)) k l ≡ cell t k l
    cell_same_row p d =
        subst (λ m. cell (set_elem t i (set_elem row j y)) m l ≡ cell t m l) p
          (cell-set_elem t i l row (set_elem row j y) r
            ∙ get_elem?-set_elem_other row j l y d
            ∙ sym (cell_row t i l row r))

    cell_written :
        (w : A)
        → cell t k l ≡ some w
        → i ≡ k
        → j ≡ l
        → cell (set_elem t i (set_elem row j y)) k l ≡ some y
    cell_written w e p q =
        subst (λ m. cell (set_elem t i (set_elem row j y)) m l ≡ some y) p
          (cell-set_elem t i l row (set_elem row j y) r
            ∙ subst (λ m. get_elem? (set_elem row j y) m ≡ some y) q
                (get_elem?-set_elem row j y (
                  get_elem?_bound row j w (
                    sym (cell_row t i j row r)
                    ∙ subst (λ m. cell t m j ≡ some w) (sym p)
                        (subst (λ m. cell t k m ≡ some w) (sym q) e)))))

  -- A write changes one cell, if it is there.
  pub cell-put :
      (t : List (List A)) (i j k l : ℕ) (y w : A)
      → cell t k l ≡ some w
      → ((i ≡ k) × (j ≡ l) × (cell (put t i j y) k l ≡ some y)) ⊎ (cell (put t i j y) k l ≡ some w)
  cell-put t i j k l y w e = elim (Option-cases (get_elem? t i)) [
    | inl n ↦ inr (rw (put-none t i j y n) e)
    | inr r ↦ rw (put_row t i j y r.0 r.1) (elim (same_or_not i k) [
      | inr d ↦ inr (cell_other_row t i j k l y r.0 r.1 d ∙ e)
      | inl p ↦ elim (same_or_not j l) [
        | inr d ↦ inr (cell_same_row t i j k l y r.0 r.1 p d ∙ e)
        | inl q ↦ inl (p, q, cell_written t i j k l y r.0 r.1 w e p q)
      ]
    ])
  ]

  get_elem?-set_elem-none :
      (xs : List A) (i : ℕ) (y : A) → get_elem? xs i ≡ none → get_elem? (set_elem xs i y) i ≡ none
  unfolding get_elem? set_elem
  get_elem?-set_elem-none [] i y e = refl
  get_elem?-set_elem-none (x ∷ xs) zero y e = absurd (nothing (sym e))
  get_elem?-set_elem-none (x ∷ xs) (suc i) y e = get_elem?-set_elem-none xs i y e

  cell-put-none :
      (t : List (List A)) (i j k l : ℕ) (y : A) → cell t k l ≡ none → cell (put t i j y) k l ≡ none
  cell-put-none t i j k l y e = elim (Option-cases (get_elem? t i)) [
    | inl n ↦ rw (put-none t i j y n) e
    | inr r ↦ rw (put_row t i j y r.0 r.1) (elim (same_or_not i k) [
      | inr d ↦ cell_other_row t i j k l y r.0 r.1 d ∙ e
      | inl p ↦ elim (same_or_not j l) [
        | inr d ↦ cell_same_row t i j k l y r.0 r.1 p d ∙ e
        | inl q ↦ unwritten r.0 r.1 p q
      ]
    ])
  ]
    where
      unwritten :
          (row : List A)
          → get_elem? t i ≡ some row
          → i ≡ k
          → j ≡ l
          → cell (set_elem t i (set_elem row j y)) k l ≡ none
      unwritten row r p q =
          subst (λ m. cell (set_elem t i (set_elem row j y)) m l ≡ none) p
            (cell-set_elem t i l row (set_elem row j y) r
              ∙ subst (λ m. get_elem? (set_elem row j y) m ≡ none) q
                  (get_elem?-set_elem-none row j y (
                    sym (cell_row t i j row r)
                    ∙ subst (λ m. cell t m j ≡ none) (sym p)
                        (subst (λ m. cell t k m ≡ none) (sym q) e))))

  -- What stands in a cell after a write is what was written or what stood there.
  pub put-cell :
      (t : List (List A)) (i j k l : ℕ) (y z : A)
      → cell (put t i j y) k l ≡ some z
      → ((i ≡ k) × (j ≡ l) × (z ≡ y)) ⊎ (cell t k l ≡ some z)
  put-cell t i j k l y z e = elim (Option-cases (cell t k l)) [
    | inl n ↦ absurd (nothing (sym (cell-put-none t i j k l y n) ∙ e))
    | inr w ↦ elim (cell-put t i j k l y w.0 w.1) [
      | inl (p, q, g) ↦ inl (p, q, some_inj (sym e ∙ g))
      | inr g ↦ inr (w.1 ∙ sym g ∙ e)
    ]
  ]

  pub cell-put_same :
      (t : List (List A)) (i j : ℕ) (y w : A)
      → cell t i j ≡ some w
      → cell (put t i j y) i j ≡ some y
  cell-put_same t i j y w e = elim (Option-cases (get_elem? t i)) [
    | inl n ↦ absurd (nothing (sym (cell-none t i j n) ∙ e))
    | inr r ↦ rw (put_row t i j y r.0 r.1) (cell_written t i j i j y r.0 r.1 w e refl refl)
  ]

  pub cell-put_other :
      (t : List (List A)) (i j k l : ℕ) (y : A)
      → (i ≢ k) ⊎ (j ≢ l)
      → cell (put t i j y) k l ≡ cell t k l
  cell-put_other t i j k l y d = elim (Option-cases (get_elem? t i)) [
    | inl n ↦ ap (λ u. cell u k l) (put-none t i j y n)
    | inr r ↦ rw (put_row t i j y r.0 r.1) (in_row r.0 r.1 (same_or_not i k) d)
  ]
    where
      in_row :
          (row : List A)
          → get_elem? t i ≡ some row
          → (i ≡ k) ⊎ (i ≢ k)
          → (i ≢ k) ⊎ (j ≢ l)
          → cell (set_elem t i (set_elem row j y)) k l ≡ cell t k l
      in_row row r (inr n) f = cell_other_row t i j k l y row r n
      in_row row r (inl p) (inl n) = absurd (n p)
      in_row row r (inl p) (inr n) = cell_same_row t i j k l y row r p n

  get_elem?-All {κ} :
      (P : A → Type κ) (xs : List A) → ((k : ℕ) (x : A) → get_elem? xs k ≡ some x → P x) → All P xs
  unfolding get_elem?
  get_elem?-All P [] h = tt
  get_elem?-All P (x ∷ xs) h = (h 0 x refl, get_elem?-All P xs (λ k y e. h (suc k) y e))

  -- What holds of each cell holds of all elements of all rows.
  pub cell-All {κ} :
      (P : A → Type κ) (t : List (List A))
      → ((k l : ℕ) (x : A) → cell t k l ≡ some x → P x)
      → All (All P) t
  unfolding cell get_elem?
  cell-All P [] h = tt
  cell-All P (row ∷ t) h =
      (get_elem?-All P row (λ l x e. h 0 l x e), cell-All P t (λ k l x e. h (suc k) l x e))

-- Vectors that have grown.
module _ {ℓ} {A : Type ℓ} where
  pub grow-get_elem? :
      (xs : List A) (n : ℕ) (x : A) (i : ℕ) (y : A)
      → get_elem? xs i ≡ some y
      → get_elem? (grow xs n x) i ≡ some y
  unfolding grow get_elem?
  grow-get_elem? [] n x i y e = absurd (nothing e)
  grow-get_elem? (z ∷ xs) zero x i y e = e
  grow-get_elem? (z ∷ xs) (suc n) x zero y e = e
  grow-get_elem? (z ∷ xs) (suc n) x (suc i) y e = grow-get_elem? xs n x i y e

  pub grow_reaches :
      (xs : List A) (n : ℕ) (x : A) (i : ℕ) → i < n → (y : A) × (get_elem? (grow xs n x) i ≡ some y)
  unfolding grow get_elem?
  grow_reaches [] n x i h = (x, get_elem?-replicate n i x h)
  grow_reaches (z ∷ xs) zero x i h = absurd (omega arith)
  grow_reaches (z ∷ xs) (suc n) x zero h = (z, refl)
  grow_reaches (z ∷ xs) (suc n) x (suc i) h = grow_reaches xs n x i (omega arith)

  replicate_old : (n : ℕ) (x : A) (i : ℕ) (y : A) → get_elem? (replicate n x) i ≡ some y → y ≡ x
  unfolding replicate get_elem?
  replicate_old zero x i y e = absurd (nothing e)
  replicate_old (suc n) x zero y e = some_inj (sym e)
  replicate_old (suc n) x (suc i) y e = replicate_old n x i y e

  pub grow_old :
      (xs : List A) (n : ℕ) (x : A) (i : ℕ) (y : A)
      → get_elem? (grow xs n x) i ≡ some y
      → (get_elem? xs i ≡ some y) ⊎ (y ≡ x)
  unfolding grow get_elem?
  grow_old [] n x i y e = inr (replicate_old n x i y e)
  grow_old (z ∷ xs) zero x i y e = inl e
  grow_old (z ∷ xs) (suc n) x zero y e = inl e
  grow_old (z ∷ xs) (suc n) x (suc i) y e = grow_old xs n x i y e

-- Cells and the rows that they are in.
module _ {ℓ} {A : Type ℓ} where
  pub cell-get_elem? :
      (t : List (List A)) (k l : ℕ) (y : A)
      → cell t k l ≡ some y
      → (row : List A) × (get_elem? t k ≡ some row) × (get_elem? row l ≡ some y)
  cell-get_elem? t k l y e = elim (Option-cases (get_elem? t k)) [
    | inl n ↦ absurd (nothing (sym (cell-none t k l n) ∙ e))
    | inr r ↦ (r.0, r.1, sym (cell_row t k l r.0 r.1) ∙ e)
  ]
