-- ===== src/Matrix.antt =====
-- include/segment.hpp: the matrix of the pairs of segments that are still possible.
pub mod Entries
pub mod Entrywise
use li_mo.Base.{
  ℕ, zero, suc, ◌+◌, ◌*◌, ◌<◌, ◌≡◌, Bool, true, false, not, ◌&&◌, ◌||◌, Option, none, some, List,
  [], ◌∷◌, if◌then◌else◌, ltb, ◌==◌, any, get_elem?, set_elem, replicate,
}
use li_mo.Base.Run.{Run, ◌>>=◌, return, read, loop}

pub record Matrix : Type 0 where
  pub rows : ℕ
  pub cols : ℕ
  pub cells : List Bool

unfoldable pub matrix : ℕ → ℕ → Bool → Matrix
unfolding replicate
matrix rows cols init = record { rows = rows; cols = cols; cells = replicate (rows * cols) init }

unfoldable pub all_false : Matrix → Bool
unfolding any
all_false m = not (any (λ b. b) m.cells)

abbrev pub getidx : Matrix → ℕ → ℕ → ℕ
getidx m row col = row * m.cols + col

unfoldable pub at : Matrix → ℕ → ℕ → Option Bool
unfolding get_elem?
at m row col =
    if ltb col m.cols && ltb row m.rows then get_elem? m.cells (getidx m row col) else none

-- A write outside of the data has no defined effect, and changes nothing here.
unfoldable pub set : Matrix → ℕ → ℕ → Bool → Matrix
unfolding set_elem
set m row col val = record m { cells = set_elem m.cells (getidx m row col) val }

unfoldable pub set_or : Matrix → ℕ → ℕ → Bool → Run Matrix
unfolding set get_elem?
set_or m row col val =
    read (get_elem? m.cells (getidx m row col)) >>= λ old. return (set m row col (old || val))

-- One entry of `operator+` or `operator*`, then the loop down a column, then the loop over the columns.
abbrev pub combine_at : (Bool → Bool → Bool) → Matrix → Matrix → ℕ → ℕ → Matrix → Run Matrix
combine_at op a b c r m =
    read (at a r c) >>= λ x. read (at b r c) >>= λ y. return (set m r c (op x y))

unfoldable pub combine : (Bool → Bool → Bool) → Matrix → Matrix → Run Matrix
unfolding loop at set
combine op a b =
    if (a.rows == b.rows) && (a.cols == b.cols)
    then loop (λ c m. loop (combine_at op a b c) 0 a.rows m) 0 a.cols (matrix a.rows a.cols true)
    else none

unfoldable pub plus : Matrix → Matrix → Run Matrix
unfolding combine
plus a b = combine (λ x y. x || y) a b

unfoldable pub times : Matrix → Matrix → Run Matrix
unfolding combine
times a b = combine (λ x y. x && y) a b
