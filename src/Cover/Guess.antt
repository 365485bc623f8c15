-- ===== src/Cover/Guess.antt =====
-- The guesses of `check_durable`: how many there are, and that there is one, the history itself,
-- where no operation crashed.
use native.Mathlib.Nat.{pow-succ'}
use mathlib.Core.List.{append-nil}
use li_mo.Base.{
  ℕ, suc, ◌*◌, ◌^◌, ◌≡◌, refl, sym, ◌∙◌, ap, true, false, List, [], ◌∷◌, ◌++◌, arith, length,
  length-append, All, ◌+◌, ◌||◌, if◌then◌else◌, Bool-cases, inl, inr, All-zip, All-append, ok,
  ok_inj, went_through,
}
use li_mo.Cover.History.{CoverHistory, CoverVal, of_values, val_before, insert_value, add_value}
use li_mo.Cover.Prune.{IsOrdered}
use li_mo.Cover.Values.{Later}
use li_mo.Cover.Durable.{
  has_crashed, separate, add_values, add_branch, branch_each, branch_all, guesses,
}

add_branch-length :
    (h : CoverHistory) (v : CoverVal) (r : List CoverHistory) → add_branch h v ≡ ok r → length r ≡ 2
unfolding add_branch
add_branch-length h v r e = ground arith

branch_each-length :
    (v : CoverVal) (hs ks : List CoverHistory)
    → branch_each v hs ≡ ok ks
    → length ks ≡ 2 * length hs
unfolding branch_each
branch_each-length v [] ks e = rw (sym (ok_inj e)) refl
branch_each-length v (h ∷ hs) ks e =
    let (r, a, b) = went_through (add_branch h v) _ ks e in
    let (rest, c, d) = went_through (branch_each v hs) _ ks b in
    rw (sym (ok_inj d)) (
      omega
        (arith, length-append r rest, add_branch-length h v r a, branch_each-length v hs rest c))

branch_all-length :
    (vs : List CoverVal) (hs ks : List CoverHistory)
    → branch_all vs hs ≡ ok ks
    → length ks ≡ 2 ^ length vs * length hs
unfolding branch_all
branch_all-length [] hs ks e = rw (sym (ok_inj e)) (omega arith)
branch_all-length (v ∷ vs) hs ks e =
    let (r, a, b) = went_through (branch_each v hs) _ ks e in
    branch_all-length vs r ks b
    ∙ double (2 ^ length vs) (2 ^ suc (length vs)) (length hs) (length r) (pow-succ' 2 (length vs))
        (branch_each-length v hs r a)
  where
    double : (p r n q : ℕ) → r ≡ 2 * p → q ≡ 2 * n → p * q ≡ r * n
    double p r n q e h = rw (h, e) (grind arith)

-- An entry behind all others goes to the end.
pub insert_last :
    (v : CoverVal) (vs : List CoverVal) → All (λ w. Later w v) vs → insert_value v vs ≡ vs ++ v ∷ []
unfolding insert_value
insert_last v [] h = refl
insert_last v (w ∷ ws) h =
    rw (behind h.0, insert_value) (rw (ahead h.0) (ap (◌∷◌ w) (insert_last v ws h.1)))
  where
    behind : Later w v → val_before v w ≡ false
    behind k = ground arith

    ahead : Later w v → val_before w v ≡ true
    ahead k = ground arith

append_last : (vs ws : List CoverVal) (v : CoverVal) → (vs ++ v ∷ []) ++ ws ≡ vs ++ v ∷ ws
append_last [] ws v = refl
append_last (x ∷ vs) ws v = ap (◌∷◌ x) (append_last vs ws v)

-- The values before one in the middle of an ordered list.
before_middle :
    (vs ws : List CoverVal) (v : CoverVal) → IsOrdered (vs ++ v ∷ ws) → All (λ w. Later w v) vs
before_middle [] ws v o = tt
before_middle (x ∷ vs) ws v o = (at vs o.0, before_middle vs ws v o.1)
  where
    at : (us : List CoverVal) → All (Later x) (us ++ v ∷ ws) → Later x v
    at [] h = h.0
    at (u ∷ us) h = at us h.1

separate_safe :
    (ss vs : List CoverVal)
    → IsOrdered (ss ++ vs)
    → All (λ v. has_crashed v ≡ false) vs
    → separate [] ss vs ≡ ([], ss ++ vs)
unfolding separate
separate_safe ss [] o h = rw append-nil refl
separate_safe ss (v ∷ vs) o h =
    rw (h.0, separate)
      (rw (insert_last v ss (before_middle ss vs v o)) (
        separate_safe (ss ++ v ∷ []) vs (rw (append_last ss vs v) o) h.1
        ∙ ap (λ z. ([], z)) (append_last ss vs v)))

add_values_in_order :
    (us vs : List CoverVal)
    → IsOrdered (us ++ vs)
    → add_values (of_values us) vs ≡ of_values (us ++ vs)
unfolding add_values add_value
add_values_in_order us [] o = rw append-nil refl
add_values_in_order us (v ∷ vs) o = rw (insert_last v us (before_middle us vs v o)) (
    add_values_in_order (us ++ v ∷ []) vs (rw (append_last us vs v) o)
    ∙ ap of_values (append_last us vs v))

-- Where no operation crashed there is one guess: the history with the same values.
pub guesses_safe :
    (h : CoverHistory)
    → IsOrdered h.values
    → All (λ v. has_crashed v ≡ false) h.values
    → guesses h ≡ ok (of_values h.values ∷ [])
unfolding guesses branch_all
guesses_safe h o c =
    rw (separate_safe [] h.values o c) (ap (λ k. ok (k ∷ [])) (add_values_in_order [] h.values o))

-- The values whose push or pop crashed.
abbrev pub crashes : List CoverVal → ℕ
crashes [] = 0
crashes (v ∷ vs) = let rest = crashes vs in if v.push_crash || v.pop_crash then rest + 1 else rest

-- Every value whose push or pop crashed goes to the first set.
separate-crashes :
    (cs ss vs : List CoverVal)
    → IsOrdered vs
    → All (λ v. All (λ c. Later c v) cs) vs
    → length (separate cs ss vs).0 ≡ length cs + crashes vs
unfolding separate
separate-crashes cs ss [] o h = omega arith
separate-crashes cs ss (v ∷ vs) o h = elim (Bool-cases (v.push_crash || v.pop_crash)) [
  | inl e ↦
      rw (e, separate)
        (separate-crashes (insert_value v cs) ss vs o.1 (All-zip vs grown h.1 o.0)
          ∙ one_more (length (insert_value v cs)) (length cs) (crashes vs)
              (ap length (insert_last v cs h.0) ∙ length-append cs (v ∷ [])))
  | inr e ↦ rw (e, separate) (separate-crashes cs (insert_value v ss) vs o.1 h.1)
]
  where
    grown :
        (w : CoverVal)
        → All (λ c. Later c w) cs
        → Later v w
        → All (λ c. Later c w) (insert_value v cs)
    grown w l k = rw (insert_last v cs h.0) (All-append (λ c. Later c w) cs (v ∷ []) l (k, tt))

    one_more : (m n r : ℕ) → m ≡ n + 1 → m + r ≡ n + (r + 1)
    one_more m n r e = omega (arith, e)

-- Where the values are in the order of the set and `guesses` returns, n values whose push or pop
-- crashed give 2 ^ n guesses.
pub guesses-length :
    (h : CoverHistory) (hists : List CoverHistory)
    → IsOrdered h.values
    → guesses h ≡ ok hists
    → length hists ≡ 2 ^ crashes h.values
unfolding guesses
guesses-length h hists o e =
    branch_all-length (separate [] [] h.values).0 _ hists e
    ∙ omega arith
    ∙ ap (λ n. 2 ^ n)
        (separate-crashes [] [] h.values o (nothing_crashed h.values)
          ∙ none_before (crashes h.values))
  where
    nothing_crashed : (vs : List CoverVal) → All (λ v. Unit {0}) vs
    nothing_crashed [] = tt
    nothing_crashed (v ∷ vs) = (tt, nothing_crashed vs)

    none_before : (n : ℕ) → 0 + n ≡ n
    none_before n = omega arith
