-- ===== src/Matrix/Entries.antt =====
-- The entries of a matrix under reading, writing and the entrywise operators.
use native.Mathlib.Nat.{mul-le-mul_right, suc-mul}
use li_mo.Base.{
  ℕ, zero, suc, ◌+◌, ◌*◌, ◌<◌, ◌≡◌, ◌≢◌, ◌⊎◌, inl, inr, refl, sym, ap, ◌∙◌, Bool, true, false, ◌&&◌,
  ◌||◌, some, List, [], ◌∷◌, ltb, any, get_elem?, set_elem, replicate, length, length-set_elem,
  length-replicate, get_elem?-some, get_elem?-set_elem, get_elem?-set_elem_other, arith, some_inj,
  get_elem?-replicate, Bool-cases, nothing,
}
use li_mo.Matrix.{Matrix, matrix, all_false, getidx, at, set}

-- The matrix has all its entries.
abbrev pub IsFull : Matrix → Type 0
IsFull m = length m.cells ≡ m.rows * m.cols

below : (n r c k : ℕ) → r < k → c < n → r * n + c < k * n
below n r c k h l = omega (arith, l, mul-le-mul_right n h, suc-mul r n)

apart : (n r c s d : ℕ) → c < n → d < n → r < s → r * n + c < s * n + d
apart n r c s d h l k = omega (arith, below n r c s k h)

same_index : (n r c s d : ℕ) → c < n → d < n → r * n + c ≡ s * n + d → (r ≡ s) × (c ≡ d)
same_index n r c s d h l e = elim (ordered r s) [
  | inl k ↦ absurd (omega (arith, apart n r c s d h l k, e))
  | inr (inl k) ↦ absurd (omega (arith, apart n s d r c l h k, e))
  | inr (inr p) ↦ (p, omega (arith, e, ap (λ z. z * n) p))
]
  where
    ordered : (r s : ℕ) → (r < s) ⊎ (s < r) ⊎ (r ≡ s)
    ordered r s = ground arith

pub at_index :
    (m : Matrix) (r c : ℕ) → r < m.rows → c < m.cols → at m r c ≡ get_elem? m.cells (getidx m r c)
unfolding at
at_index m r c h l = rw (guard, at) refl
  where
    guard : (ltb c m.cols && ltb r m.rows) ≡ true
    guard = ground arith

module _ (m : Matrix) (r c : ℕ) (h : r < m.rows) (l : c < m.cols) where
  pub at_total : IsFull m → (b : Bool) × (at m r c ≡ some b)
  at_total f =
      let g = get_elem?-some m.cells (getidx m r c) (rw f (below m.cols r c m.rows h l)) in
      (g.0, at_index m r c h l ∙ g.1)

  pub at-set_same : (b : Bool) → IsFull m → at (set m r c b) r c ≡ some b
  at-set_same b f =
      at_index_set b
      ∙ get_elem?-set_elem m.cells (getidx m r c) b (rw f (below m.cols r c m.rows h l))
    where
      at_index_set :
          (b : Bool)
          → at (set m r c b) r c ≡ get_elem? (set_elem m.cells (getidx m r c) b) (getidx m r c)
      at_index_set b =
          unfold set in at_index (record m { cells = set_elem m.cells (getidx m r c) b }) r c h l

  pub at-set_other :
      (b : Bool) (s d : ℕ)
      → s < m.rows
      → d < m.cols
      → (r ≢ s) ⊎ (c ≢ d)
      → at (set m r c b) s d ≡ at m s d
  unfolding set
  at-set_other b s d k q n =
      at_index (record m { cells = set_elem m.cells (getidx m r c) b }) s d k q
      ∙ get_elem?-set_elem_other m.cells (getidx m r c) (getidx m s d) b (distinct n)
      ∙ sym (at_index m s d k q)
    where
      distinct : (r ≢ s) ⊎ (c ≢ d) → getidx m r c ≢ getidx m s d
      distinct (inl n) e = n (same_index m.cols r c s d l q e).0
      distinct (inr n) e = n (same_index m.cols r c s d l q e).1

  pub set-IsFull : (b : Bool) → IsFull m → IsFull (set m r c b)
  unfolding set
  set-IsFull b f = length-set_elem m.cells (getidx m r c) b ∙ f

pub matrix-IsFull : (rows cols : ℕ) (b : Bool) → IsFull (matrix rows cols b)
unfolding matrix
matrix-IsFull rows cols b = length-replicate (rows * cols) b

pub at_in : (m : Matrix) (r c : ℕ) (b : Bool) → at m r c ≡ some b → (r < m.rows) × (c < m.cols)
unfolding at
at_in m r c b e = elim (Bool-cases (ltb c m.cols && ltb r m.rows)) [
  | inl g ↦ (ground arith, ground arith)
  | inr g ↦ absurd (nothing (sym (rw (g, at) refl) ∙ e))
]

pub at-matrix :
    (rows cols r c : ℕ) (b : Bool) → r < rows → c < cols → at (matrix rows cols b) r c ≡ some b
at-matrix rows cols r c b h l =
    shown ∙ get_elem?-replicate (rows * cols) (r * cols + c) b (below cols r c rows h l)
  where
    shown : at (matrix rows cols b) r c ≡ get_elem? (replicate (rows * cols) b) (r * cols + c)
    shown =
        unfold matrix in
        at_index (record { rows = rows; cols = cols; cells = replicate (rows * cols) b }) r c h l

any-get_elem? : (xs : List Bool) (k : ℕ) → get_elem? xs k ≡ some true → any (λ b. b) xs ≡ true
unfolding any get_elem?
any-get_elem? [] k e = absurd (nothing e)
any-get_elem? (x ∷ xs) zero e = rw (some_inj e) refl
any-get_elem? (x ∷ xs) (suc k) e = rw (any-get_elem? xs k e) (or_true x)
  where
    or_true : (x : Bool) → (x || true) ≡ true
    or_true x = ground arith

-- Not all entries are false where one is true.
pub all_false-at : (m : Matrix) (r c : ℕ) → at m r c ≡ some true → all_false m ≡ false
unfolding all_false
all_false-at m r c e =
    let i = at_in m r c true e in
    rw (any-get_elem? m.cells (getidx m r c) (sym (at_index m r c i.0 i.1) ∙ e)) refl
