-- ===== src/Matrix/Entrywise.antt =====
-- The entrywise operators on matrices and `set_or`: they return, and which entries they give.
use li_mo.Base.{
  ℕ, suc, ◌<◌, ◌≡◌, ◌≢◌, ◌⊎◌, inl, inr, refl, sym, ap, ◌∙◌, subst, Bool, true, ◌&&◌, ◌||◌, some,
  ◌==◌, arith, same_or_not, some_inj,
}
use li_mo.Base.Run.{loop, loop_inv, Ends}
use li_mo.Matrix.{Matrix, matrix, at, set, set_or, combine_at, combine, plus, times}
use li_mo.Matrix.Entries.{
  IsFull, at_index, at_total, at-set_same, at-set_other, set-IsFull, matrix-IsFull, at_in,
}

-- A matrix of the same size, with all its entries.
pub record Sized (rows cols : ℕ) (m : Matrix) : Type 0 where
  pub full : IsFull m
  pub rows_eq : m.rows ≡ rows
  pub cols_eq : m.cols ≡ cols

pub set-Sized :
    (rows cols : ℕ) (m : Matrix) (r c : ℕ) (b : Bool)
    → r < rows
    → c < cols
    → Sized rows cols m
    → Sized rows cols (set m r c b)
set-Sized rows cols m r c b h l s = record {
  full = set-IsFull m r c (rw s.rows_eq h) (rw s.cols_eq l) b s.full;
  rows_eq = unfold set in s.rows_eq;
  cols_eq = unfold set in s.cols_eq;
}

-- `set_or` returns: the entry is true where it was or where the value is, and the others are as before.
pub record Ored (m : Matrix) (r c : ℕ) (val : Bool) (n : Matrix) : Type 0 where
  pub sized : Sized m.rows m.cols n
  pub written : (old : Bool) → at m r c ≡ some old → at n r c ≡ some (old || val)
  pub others : (s d : ℕ) → s < m.rows → d < m.cols → (r ≢ s) ⊎ (c ≢ d) → at n s d ≡ at m s d

pub set_or-Ored :
    (m : Matrix) (r c : ℕ) (val : Bool)
    → r < m.rows
    → c < m.cols
    → IsFull m
    → Ends (set_or m r c val) (Ored m r c val)
unfolding set_or
set_or-Ored m r c val h l f =
    let old = at_total m r c h l f in
    rw (sym (at_index m r c h l) ∙ old.1) (
      set m r c (old.0 || val),
      refl,
      record {
        sized =
            set-Sized m.rows m.cols m r c (old.0 || val) h l
              (record { full = f; rows_eq = refl; cols_eq = refl });
        written = λ o e.
            at-set_same m r c h l (old.0 || val) f
            ∙ ap (λ z. some (z || val)) (some_inj (sym old.1 ∙ e));
        others = at-set_other m r c h l (old.0 || val);
      },
    )

module _ (op : Bool → Bool → Bool) (a b : Matrix) (full_a : IsFull a) (full_b : IsFull b)
    (rows_eq : a.rows ≡ b.rows) (cols_eq : a.cols ≡ b.cols) where
  -- The entry is what the operator makes of the two entries.
  abbrev Entry : Matrix → ℕ → ℕ → Type 0
  Entry m r c = (x y : Bool) → at a r c ≡ some x → at b r c ≡ some y → at m r c ≡ some (op x y)

  record Partial (done : ℕ → ℕ → Type 0) (m : Matrix) : Type 0 where
    sized : Sized a.rows a.cols m
    entries : (r c : ℕ) → r < a.rows → c < a.cols → done r c → Entry m r c

  abbrev Before : ℕ → ℕ → ℕ → ℕ → Type 0
  Before c r s d = (d < c) ⊎ ((d ≡ c) × (s < r))

  combine_at-Partial :
      (c r : ℕ) (m : Matrix)
      → c < a.cols
      → r < a.rows
      → Partial (Before c r) m
      → Ends (combine_at op a b c r m) (Partial (Before c (suc r)))
  combine_at-Partial c r m l h p =
      let x = at_total a r c h l full_a in
      let y = at_total b r c (rw (sym rows_eq) h) (rw (sym cols_eq) l) full_b in
      rw (x.1, y.1)
        (
          set m r c (op x.0 y.0),
          refl,
          record {
            sized = set-Sized a.rows a.cols m r c (op x.0 y.0) h l p.sized;
            entries = λ s d k q done.
                entry x.0 y.0 x.1 y.1 s d k q done (same_or_not r s) (same_or_not c d);
          },
        )
    where
      kept :
          (x : Bool) (s d : ℕ)
          → (r ≢ s) ⊎ (c ≢ d)
          → s < a.rows
          → d < a.cols
          → at (set m r c x) s d ≡ at m s d
      kept x s d n k q =
          at-set_other m r c (rw p.sized.rows_eq h) (rw p.sized.cols_eq l) x s d
            (rw p.sized.rows_eq k) (rw p.sized.cols_eq q) n

      entry :
          (x y : Bool)
          → at a r c ≡ some x
          → at b r c ≡ some y
          → (s d : ℕ) → s < a.rows
          → d < a.cols
          → Before c (suc r) s d
          → (r ≡ s) ⊎ (r ≢ s)
          → (c ≡ d) ⊎ (c ≢ d)
          → Entry (set m r c (op x y)) s d
      entry x y e f s d k q done (inl g) (inl i) u v eu ev =
          subst (λ z. at (set m r c (op x y)) z d ≡ some (op u v)) g
            (subst (λ z. at (set m r c (op x y)) r z ≡ some (op u v)) i
              (at-set_same m r c (rw p.sized.rows_eq h) (rw p.sized.cols_eq l) (op x y) p.sized.full
                ∙ same_op (some_inj (sym e ∙ ap (λ z. at a z c) g ∙ ap (at a s) i ∙ eu))
                    (some_inj (sym f ∙ ap (λ z. at b z c) g ∙ ap (at b s) i ∙ ev))))
        where
          same_op : x ≡ u → y ≡ v → some (op x y) ≡ some (op u v)
          same_op i j = cc
      entry x y e f s d k q done (inr n) t u v eu ev =
          kept _ s d (inl n) k q ∙ p.entries s d k q (earlier done) u v eu ev
        where
          earlier : Before c (suc r) s d → Before c r s d
          earlier (inl g) = inl g
          earlier (inr (g, i)) = inr (g, omega (arith, i, λ (z : r ≡ s). n z))
      entry x y e f s d k q done t (inr n) u v eu ev =
          kept _ s d (inr n) k q ∙ p.entries s d k q (earlier done) u v eu ev
        where
          earlier : Before c (suc r) s d → Before c r s d
          earlier (inl g) = inl g
          earlier (inr (g, i)) = absurd (n (sym g))

  -- Down one column, then over the columns.
  column-Partial :
      (c : ℕ) (m : Matrix)
      → c < a.cols
      → Partial (λ s d. d < c) m
      → Ends (loop (combine_at op a b c) 0 a.rows m) (Partial (λ s d. d < suc c))
  column-Partial c m l p =
      let run =
        loop_inv (λ r. Partial (Before c r)) (combine_at op a b c) a.rows
          (λ r n h q. combine_at-Partial c r n l h q) 0 a.rows m (omega arith) (start p) in
      (run.0, run.1, finish run.2)
    where
      start : Partial (λ s d. d < c) m → Partial (Before c 0) m
      start p = record {
        sized = p.sized;
        entries = λ s d k q done.
            p.entries s d k q (elim done [ inl g ↦ g | inr (g, i) ↦ absurd (omega (arith, i)) ]);
      }

      finish : {n : Matrix} → Partial (Before c a.rows) n → Partial (λ s d. d < suc c) n
      finish p = record {
        sized = p.sized;
        entries = λ s d k q done.
            p.entries s d k q (elim (same_or_not d c) [
              | inl g ↦ inr (g, k)
              | inr g ↦ inl (omega (arith, done, g))
            ]);
      }

  -- The loops return a matrix of the same size, whose entries they make of the entries of both.
  pub combine-Entry : Ends (combine op a b) (λ m.
      Sized a.rows a.cols m
      × ((r c : ℕ) (x y : Bool) → at a r c ≡ some x → at b r c ≡ some y → at m r c ≡ some (op x y)))
  unfolding combine
  combine-Entry =
      let run =
        loop_inv (λ c. Partial (λ s d. d < c)) (λ c m. loop (combine_at op a b c) 0 a.rows m) a.cols
          (λ c m l p. column-Partial c m l p) 0 a.cols (matrix a.rows a.cols true) (omega arith)
          (record {
            sized = record {
              full = matrix-IsFull a.rows a.cols true;
              rows_eq = unfold matrix in refl;
              cols_eq = unfold matrix in refl;
            };
            entries = λ s d k q done. absurd (omega (arith, done));
          }) in
      rw guard (
        run.0,
        run.1,
        (
          run.2.sized,
          λ r c x y e f. let i = at_in a r c x e in run.2.entries r c i.0 i.1 i.1 x y e f,
        ),
      )
    where
      guard : ((a.rows == b.rows) && (a.cols == b.cols)) ≡ true
      guard = ground (arith, rows_eq, cols_eq)

-- Of two matrices of the same size with all their entries, `operator+` and `operator*` return a
-- matrix of this size with all its entries: `operator+` has the disjunction of the two entries at
-- each place, `operator*` their conjunction.
pub plus-times-Entries :
    (a b : Matrix)
    → IsFull a
    → IsFull b
    → a.rows ≡ b.rows
    → a.cols ≡ b.cols
    → Ends (plus a b) (λ m.
      Sized a.rows a.cols m
      × ((r c : ℕ) (x y : Bool) → at a r c ≡ some x → at b r c ≡ some y → at m r c ≡ some (x || y)))
      × Ends (times a b) (λ m.
        Sized a.rows a.cols m
        × ((r c : ℕ) (x y : Bool)
            → at a r c ≡ some x
            → at b r c ≡ some y
            → at m r c ≡ some (x && y)))
unfolding plus times
plus-times-Entries a b f g h k =
    (combine-Entry (λ x y. x || y) a b f g h k, combine-Entry (λ x y. x && y) a b f g h k)
