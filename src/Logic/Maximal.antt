-- ===== src/Logic/Maximal.antt =====
-- What the loop of `Disj::simpl` over the bounds keeps: each bound that implies no other one, so that
-- what they mean together does not change.
use li_mo.Base.{
  ◌≡◌, ◌≢◌, refl, sym, ◌∙◌, subst, Bool, true, false, ◌||◌, List, [], ◌∷◌, ◌++◌, arith, All, Pairs,
  Any, here, there, any, Bool-cases, inl, inr, All-append, All-mono, All-zip, Any-mono,
}
use li_mo.Relation.Product.{Stay}
use li_mo.Logic.{Bound, implies}
use li_mo.Logic.Bounds.{bounded, implies-bounded}
use li_mo.Logic.Simpl.{keep_maximal}
use li_mo.Logic.Subsume.{
  implies_trans, implies_antisym, implies_refl, drops, keeps, All-keep_maximal, Any-keep_maximal,
  none_any, any_none,
}

-- The bound implies no other one of the list.
abbrev IsTop : Bound → Bound → Type 0
IsTop m b = implies m b ≡ true → m ≡ b

All-left {κ} : (P : Bound → Type κ) (xs ys : List Bound) → All P (xs ++ ys) → All P xs
All-left P [] ys h = tt
All-left P (x ∷ xs) ys h = (h.0, All-left P xs ys h.1)

All-right {κ} : (P : Bound → Type κ) (xs ys : List Bound) → All P (xs ++ ys) → All P ys
All-right P [] ys h = h
All-right P (x ∷ xs) ys h = All-right P xs ys h.1

Any-All {κ} :
    (P : Bound → Type κ) (c : Bound) (xs : List Bound) → Any (λ z. z ≡ c) xs → All P xs → P c
Any-All P c [] m h = elim m [ ]
Any-All P c (x ∷ xs) (here p) h = subst P p h.0
Any-All P c (x ∷ xs) (there q) h = Any-All P c xs q h.1

Any-left {κ} : (P : Bound → Type κ) (xs ys : List Bound) → Any P xs → Any P (xs ++ ys)
Any-left P [] ys m = elim m [ ]
Any-left P (x ∷ xs) ys (here p) = here p
Any-left P (x ∷ xs) ys (there q) = there (Any-left P xs ys q)

Any-last {κ} : (P : Bound → Type κ) (xs : List Bound) (y : Bound) → P y → Any P (xs ++ y ∷ [])
Any-last P [] y p = here p
Any-last P (x ∷ xs) y p = there (Any-last P xs y p)

-- What is kept implies nothing of what stands before.
keep_maximal_before :
    (c : Bound) (before bs : List Bound)
    → Any (λ z. z ≡ c) before
    → All (λ b. implies b c ≡ false) (keep_maximal before bs)
unfolding keep_maximal
keep_maximal_before c before [] m = tt
keep_maximal_before c before (a ∷ after) m =
    let ih = keep_maximal_before c (before ++ a ∷ []) after (Any-left _ before (a ∷ []) m) in
    elim (Bool-cases (any (implies a) (before ++ after))) [
      | inl e ↦ rw (drops before a after e) ih
      | inr e ↦ rw (keeps before a after e) (
        Any-All (λ b. implies a b ≡ false) c before m
            (All-left _ before after (none_any (implies a) (before ++ after) e)),
        ih,
      )
    ]

-- No bound that is kept implies another one.
pub keep_maximal-Pairs :
    (before bs : List Bound)
    → Pairs (λ a b. (implies a b ≡ false) × (implies b a ≡ false)) (keep_maximal before bs)
unfolding keep_maximal
keep_maximal-Pairs before [] = tt
keep_maximal-Pairs before (a ∷ after) =
    let ih = keep_maximal-Pairs (before ++ a ∷ []) after in
    elim (Bool-cases (any (implies a) (before ++ after))) [
      | inl e ↦ rw (drops before a after e) ih
      | inr e ↦ rw (keeps before a after e) (
        All-zip _ (λ b h k. (h, k))
            (All-keep_maximal (λ b. implies a b ≡ false) (before ++ a ∷ []) after
              (All-right _ before after (none_any (implies a) (before ++ after) e)))
            (keep_maximal_before a (before ++ a ∷ []) after (Any-last _ before a refl)),
        ih,
      )
    ]

-- A bound of the list that implies no other one is kept.
kept :
    (m : Bound) (before bs : List Bound)
    → All (λ b. All (λ c. b ≢ c) bs) before
    → Pairs (λ b c. b ≢ c) bs
    → All (IsTop m) before
    → All (IsTop m) bs
    → Any (λ b. m ≡ b) bs
    → Any (λ b. m ≡ b) (keep_maximal before bs)
unfolding keep_maximal
kept m before [] d p t u q = elim q [ ]
kept m before (a ∷ after) d p t u (there q) =
    let ih =
      kept m (before ++ a ∷ []) after
        (All-append _ before (a ∷ []) (All-mono before (λ b h. h.1) d) (p.0, tt)) p.1
        (All-append _ before (a ∷ []) t (u.0, tt)) u.1 q in
    elim (Bool-cases (any (implies a) (before ++ after))) [
      | inl e ↦ rw (drops before a after e) ih
      | inr e ↦ rw (keeps before a after e) (there ih)
    ]
kept m before (a ∷ after) d p t u (here q) =
    rw
      (keeps before a after (
        any_none (implies a) (before ++ after) (
          All-append _ before after (All-zip before (λ b h k. other b (λ r. h.0 (sym r)) k) d t)
            (All-zip after other p.0 u.1))))
      (here q)
  where
    other : (b : Bound) → a ≢ b → IsTop m b → implies a b ≡ false
    other b n top = elim (Bool-cases (implies a b)) [
      | inl e ↦ absurd (n (sym q ∙ top (subst (λ z. implies z b ≡ true) (sym q) e)))
      | inr e ↦ e
    ]

clash : {t : Bool} → t ≡ true → t ≡ false → ⊥
clash p q = cc

record Above (a : Bound) (bs : List Bound) : Type 0 where
  top : Bound
  implied : implies a top ≡ true
  is_top : All (IsTop top) bs
  stands : Any (λ b. top ≡ b) (a ∷ bs)

-- From a bound up to one that implies no other one of the list.
climb : (a : Bound) (bs : List Bound) → Above a bs
climb a [] = record { top = a; implied = implies_refl a; is_top = tt; stands = here refl }
climb a (b ∷ bs) = elim (Bool-cases (implies a b)) [
  | inl e ↦
      let up = climb b bs in
      record {
        top = up.top;
        implied = implies_trans a b up.top e up.implied;
        is_top = ((λ h. implies_antisym up.top b h up.implied), up.is_top);
        stands = there up.stands;
      }
  | inr e ↦
      let up = climb a bs in
      record {
        top = up.top;
        implied = up.implied;
        is_top = ((λ h. absurd (clash (implies_trans a up.top b up.implied h) e)), up.is_top);
        stands = skip b up.stands;
      }
]
  where
    skip :
        {P : Bound → Type 0} {a : Bound} {bs : List Bound} (b : Bound)
        → Any P (a ∷ bs)
        → Any P (a ∷ b ∷ bs)
    skip b (here p) = here p
    skip b (there q) = there (there q)

-- Where a stay is within some of the bounds, it is within some that is kept.
pub Any-kept :
    (s : Stay) (bs : List Bound)
    → Pairs (λ b c. b ≢ c) bs
    → Any (λ b. bounded b s ≡ true) bs
    → Any (λ b. bounded b s ≡ true) (keep_maximal [] bs)
Any-kept s bs p h =
    let found = pick h in
    let up = climb found.0 bs in
    Any-mono
      (λ b e.
        subst (λ z. bounded z s ≡ true) e (implies-bounded found.0 up.top s up.implied found.2))
      (kept up.top [] bs tt p tt up.is_top (drop_head found.1 up.stands))
  where
    pick :
        {xs : List Bound}
        → Any (λ b. bounded b s ≡ true) xs
        → (a : Bound) × Any (λ b. a ≡ b) xs × (bounded a s ≡ true)
    pick (here q) = (_, here refl, q)
    pick (there r) = let f = pick r in (f.0, there f.1, f.2)

    drop_head :
        {a top : Bound} → Any (λ b. a ≡ b) bs → Any (λ b. top ≡ b) (a ∷ bs) → Any (λ b. top ≡ b) bs
    drop_head i (here q) = Any-mono (λ b e. q ∙ e) i
    drop_head i (there r) = r

-- What the loop keeps means the same as all.
pub any-keep_maximal :
    (s : Stay) (bs : List Bound)
    → Pairs (λ b c. b ≢ c) bs
    → any (λ b. bounded b s) (keep_maximal [] bs) ≡ any (λ b. bounded b s) bs
unfolding any
any-keep_maximal s bs p =
    same_test _ _ (λ h. Any-any bs (Any-keep_maximal _ [] bs (any-Any (keep_maximal [] bs) h)))
      (λ h. Any-any (keep_maximal [] bs) (Any-kept s bs p (any-Any bs h)))
  where
    same_test : (x y : Bool) → (x ≡ true → y ≡ true) → (y ≡ true → x ≡ true) → x ≡ y
    same_test true y f g = sym (f refl)
    same_test false true f g = g refl
    same_test false false f g = refl

    drop_false : {x y : Bool} → x ≡ false → (x || y) ≡ true → y ≡ true
    drop_false e h = ground arith

    or_true : (x : Bool) → (x || true) ≡ true
    or_true x = ground arith

    any-Any :
        (xs : List Bound) → any (λ b. bounded b s) xs ≡ true → Any (λ b. bounded b s ≡ true) xs
    any-Any [] h = elim (clash h refl) [ ]
    any-Any (x ∷ xs) h = elim (Bool-cases (bounded x s)) [
      | inl e ↦ here e
      | inr e ↦ there (any-Any xs (drop_false e h))
    ]

    Any-any :
        (xs : List Bound) → Any (λ b. bounded b s ≡ true) xs → any (λ b. bounded b s) xs ≡ true
    Any-any [] m = elim m [ ]
    Any-any (x ∷ xs) (here q) = rw q refl
    Any-any (x ∷ xs) (there r) = rw (Any-any xs r) (or_true (bounded x s))
