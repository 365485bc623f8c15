-- ===== src/Logic/Subsume.antt =====
-- The loop of `Disj::simpl` that drops each bound that implies another one: what it keeps means the
-- same, and no bound of it implies another.
use li_mo.Base.{
  ◌≡◌, refl, subst, Bool, true, false, List, [], ◌∷◌, ◌++◌, arith, All, Any, here, there, any,
  Bool-cases, inl, inr,
}
use li_mo.Interval.Atomic.{AtomicInterval, covers}
use li_mo.Logic.{Bound, implies}
use li_mo.Logic.Bounds.{both_true, and_true}
use li_mo.Logic.Simpl.{keep_maximal}

pub covers_trans :
    (a b c : AtomicInterval) → covers b a ≡ true → covers c b ≡ true → covers c a ≡ true
unfolding covers
covers_trans a b c h k = ground arith

pub covers_antisym : (a b : AtomicInterval) → covers b a ≡ true → covers a b ≡ true → a ≡ b
unfolding covers
covers_antisym a b h k = ground arith

pub implies_trans : (a b c : Bound) → implies a b ≡ true → implies b c ≡ true → implies a c ≡ true
unfolding implies
implies_trans a b c h k =
    let l = both_true (covers b.add a.add) (covers b.rmv a.rmv) h in
    let m = both_true (covers c.add b.add) (covers c.rmv b.rmv) k in
    and_true (covers_trans a.add b.add c.add l.0 m.0) (covers_trans a.rmv b.rmv c.rmv l.1 m.1)

pub implies_antisym : (a b : Bound) → implies a b ≡ true → implies b a ≡ true → a ≡ b
unfolding implies
implies_antisym a b h k =
    let l = both_true (covers b.add a.add) (covers b.rmv a.rmv) h in
    let m = both_true (covers a.add b.add) (covers a.rmv b.rmv) k in
    same_fields (covers_antisym a.add b.add l.0 m.0) (covers_antisym a.rmv b.rmv l.1 m.1)
  where
    same_fields : a.add ≡ b.add → a.rmv ≡ b.rmv → a ≡ b
    same_fields p q = cc

pub implies_refl : (a : Bound) → implies a a ≡ true
unfolding implies covers
implies_refl a = ground arith

module _ (before : List Bound) (a : Bound) (after : List Bound) where
  pub drops :
      any (implies a) (before ++ after) ≡ true
      → keep_maximal before (a ∷ after) ≡ keep_maximal (before ++ a ∷ []) after
  unfolding keep_maximal
  drops e = rw (e, keep_maximal)

  pub keeps :
      any (implies a) (before ++ after) ≡ false
      → keep_maximal before (a ∷ after) ≡ a ∷ keep_maximal (before ++ a ∷ []) after
  unfolding keep_maximal
  keeps e = rw (e, keep_maximal)

pub All-keep_maximal {κ} :
    (P : Bound → Type κ) (before bs : List Bound) → All P bs → All P (keep_maximal before bs)
unfolding keep_maximal
All-keep_maximal P before [] h = tt
All-keep_maximal P before (a ∷ after) h =
    let ih = All-keep_maximal P (before ++ a ∷ []) after h.1 in
    elim (Bool-cases (any (implies a) (before ++ after))) [
      | inl e ↦ rw (drops before a after e) ih
      | inr e ↦ rw (keeps before a after e) (h.0, ih)
    ]

pub Any-keep_maximal {κ} :
    (P : Bound → Type κ) (before bs : List Bound) → Any P (keep_maximal before bs) → Any P bs
unfolding keep_maximal
Any-keep_maximal P before [] h = h
Any-keep_maximal P before (a ∷ after) h =
    let ih = Any-keep_maximal P (before ++ a ∷ []) after in
    elim (Bool-cases (any (implies a) (before ++ after))) [
      | inl e ↦ there (ih (subst (Any P) (drops before a after e) h))
      | inr e ↦ cons_case ih (subst (Any P) (keeps before a after e) h)
    ]
  where
    cons_case :
        {a : Bound} {kept after : List Bound}
        → (Any P kept → Any P after)
        → Any P (a ∷ kept)
        → Any P (a ∷ after)
    cons_case f (here p) = here p
    cons_case f (there q) = there (f q)

pub none_any : (p : Bound → Bool) (bs : List Bound) → any p bs ≡ false → All (λ b. p b ≡ false) bs
unfolding any
none_any p [] h = tt
none_any p (b ∷ bs) h = ground (arith, none_any p bs)

pub any_none : (p : Bound → Bool) (bs : List Bound) → All (λ b. p b ≡ false) bs → any p bs ≡ false
unfolding any
any_none p [] h = refl
any_none p (b ∷ bs) h = rw (h.0, any_none p bs h.1) refl
