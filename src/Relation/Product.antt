-- ===== src/Relation/Product.antt =====
-- `operator*` of relations: the table is the composition of the relations between the runs of values
-- on a stack.
use li_mo.Base.{
  ℕ, ◌<◌, ◌≡◌, refl, sym, Bool, true, false, ◌&&◌, ◌||◌, ◌⊎◌, List, [], ◌∷◌, arith, any, ap, ◌∙◌,
  if◌then◌else◌,
}
use li_mo.Relation.{
  RelVal, is_before, is_after, is_above, is_below, Relation, has, reverse_rel, reversed, mul_tbl,
  times_each, times_all, times, components, none_rel, union,
}

-- A value on a stack, from its push to its pop.
pub record Stay : Type 0 where
  pub from : ℕ
  pub to : ℕ
  pub lasts : from < to

abbrev pub Related : RelVal → Stay → Stay → Type 0
Related is_before a b = a.to < b.from
Related is_after a b = b.to < a.from
Related is_above a b = (b.from < a.from) × (a.to < b.to)
Related is_below a b = (a.from < b.from) × (b.to < a.to)

-- Two values of a stack are related in one of the four ways.
abbrev pub Stacked : Stay → Stay → Type 0
Stacked a b =
    (a.to < b.from)
    ⊎ (b.to < a.from)
    ⊎ ((b.from < a.from) × (a.to < b.to))
    ⊎ ((a.from < b.from) × (b.to < a.to))

has-union : (t : RelVal) (a b : Relation) → has t (union a b) ≡ (has t a || has t b)
has-union is_before a b = refl
has-union is_after a b = refl
has-union is_above a b = refl
has-union is_below a b = refl

-- What one row of the table contributes.
abbrev row : RelVal → RelVal → Relation → List RelVal → Bool
row t r s = any λ k. has k s && has t (mul_tbl r k)

or_if :
    (t : RelVal) (test : Bool) (res s : Relation)
    → has t (if test then union res s else res) ≡ (has t res || (test && has t s))
or_if t true res s = has-union t res s
or_if t false res s = ground arith

has-times_each :
    (t r : RelVal) (ks : List RelVal) (s res : Relation)
    → has t (times_each r ks s res) ≡ (has t res || row t r s ks)
unfolding times_each any
has-times_each t r [] s res = ground arith
has-times_each t r (k ∷ ks) s res =
    has-times_each t r ks s (if has k s then union res (mul_tbl r k) else res)
    ∙ ap (λ b. b || row t r s ks) (or_if t (has k s) res (mul_tbl r k))
    ∙ or_assoc (has t res) (has k s && has t (mul_tbl r k)) (row t r s ks)
  where
    or_assoc : (x y z : Bool) → ((x || y) || z) ≡ (x || (y || z))
    or_assoc x y z = ground arith

has-times_all :
    (t : RelVal) (rs : List RelVal) (a s res : Relation)
    → has t (times_all rs a s res) ≡ (has t res || any (λ r. has r a && row t r s components) rs)
unfolding times_all
has-times_all t [] a s res = unfold any in ground arith
has-times_all t (r ∷ rs) a s res =
    has-times_all t rs a s (if has r a then times_each r components s res else res)
    ∙ ap (λ b. b || any (λ r. has r a && row t r s components) rs) (chosen (has r a))
    ∙ (unfold any in
        or_assoc (has t res) (has r a) (row t r s components)
          (any (λ r. has r a && row t r s components) rs))
  where
    chosen :
        (b : Bool)
        → has t (if b then times_each r components s res else res)
          ≡ (has t res || (b && row t r s components))
    chosen true = has-times_each t r components s res
    chosen false = ground arith

    or_assoc : (x y z w : Bool) → ((x || (y && z)) || w) ≡ (x || ((y && z) || w))
    or_assoc x y z w = ground arith

-- A component is in the product exactly where the table has it for a component of each factor.
pub has-times :
    (t : RelVal) (a b : Relation)
    → has t (times a b)
      ≡ any (λ r. has r a && any (λ k. has k b && has t (mul_tbl r k)) components) components
unfolding times
has-times t a b = has-times_all t components a b none_rel ∙ none_of t
  where
    none_of : (u : RelVal) {b : Bool} → (has u none_rel || b) ≡ b
    none_of is_before = refl
    none_of is_after = refl
    none_of is_above = refl
    none_of is_below = refl

-- The table has the relation of the outer two values, whatever that is.
mul_tbl-has :
    (t r k : RelVal) (x y z : Stay)
    → Related r x y
    → Related k y z
    → Related t x z
    → has t (mul_tbl r k) ≡ true
unfolding mul_tbl
mul_tbl-has t r k x y z h l m = ground arith

pub reversed_involutive : (a : Relation) → reversed (reversed a) ≡ a
unfolding reversed
reversed_involutive a = ground arith

any-components : (p : RelVal → Bool) (c : RelVal) → p c ≡ true → any p components ≡ true
unfolding any
any-components p is_before h = ground arith
any-components p is_after h = ground arith
any-components p is_above h = ground arith
any-components p is_below h = ground arith

-- If the relation of the first value to the second is among those of the first factor, and that of
-- the second to the third among those of the second factor, then the relation of the first to the
-- third, if it is one of the four, is in the product.
pub times-has :
    (t r k : RelVal) (a b : Relation) (x y z : Stay)
    → has r a ≡ true
    → has k b ≡ true
    → Related r x y
    → Related k y z
    → Related t x z
    → has t (times a b) ≡ true
times-has t r k a b x y z h l u v w =
    has-times t a b
    ∙ any-components (λ c. has c a && any (λ d. has d b && has t (mul_tbl c d)) components) r
        (both (has r a) (any (λ d. has d b && has t (mul_tbl r d)) components) h (
          any-components (λ d. has d b && has t (mul_tbl r d)) k
            (both (has k b) (has t (mul_tbl r k)) l (mul_tbl-has t r k x y z u v w))))
  where
    both : (p q : Bool) → p ≡ true → q ≡ true → (p && q) ≡ true
    both p q m n = ground arith

has-reversed : (t : RelVal) (a : Relation) → has t (reversed a) ≡ has (reverse_rel t) a
unfolding reversed
has-reversed is_before a = ground arith
has-reversed is_after a = ground arith
has-reversed is_above a = ground arith
has-reversed is_below a = ground arith

relation_ext : (a b : Relation) → ((t : RelVal) → has t a ≡ has t b) → a ≡ b
relation_ext a b h = ground (arith, h is_before, h is_after, h is_above, h is_below)

has-reversed-times :
    (t : RelVal) (a b : Relation)
    → has t (reversed (times a b)) ≡ has t (times (reversed b) (reversed a))
has-reversed-times t a b =
    has-reversed t (times a b)
    ∙ has-times (reverse_rel t) a b
    ∙ swapped t
    ∙ sym (has-times t (reversed b) (reversed a))
  where
    swapped :
        (u : RelVal)
        → any
            (λ r. has r a && any (λ k. has k b && has (reverse_rel u) (mul_tbl r k)) components)
            components
          ≡ any
              (λ r.
                has r (reversed b)
                && any (λ k. has k (reversed a) && has u (mul_tbl r k)) components)
              components
    swapped is_before = unfold any mul_tbl reversed in ground arith
    swapped is_after = unfold any mul_tbl reversed in ground arith
    swapped is_above = unfold any mul_tbl reversed in ground arith
    swapped is_below = unfold any mul_tbl reversed in ground arith

-- The reverse of a product is the product of the reverses in the other order.
pub reversed-times : (a b : Relation) → reversed (times a b) ≡ times (reversed b) (reversed a)
reversed-times a b =
    relation_ext (reversed (times a b)) (times (reversed b) (reversed a))
      (λ t. has-reversed-times t a b)
