-- ===== src/Shell/Pipes.antt =====
-- `get_pipes` takes a line of commands apart: XERN/UPROGS/src/sh.h.
use xern.Base.{
  ℕ, suc, ◌+◌, ◌≤◌, ◌<◌, ◌≡◌, ◌≢◌, Bool, true, false, not, Option, ◌&&◌, some, List, [], ◌∷◌, ◌++◌,
  ◌==◌, if◌then◌else◌, length, arith, update,
}
use xern.Shell.{Rows, quote, bar, rmldspaces}

-- Whether a text, begun inside quotes or not, has no bar outside of its quotes and closes them.
unfoldable pub closed : (inside : Bool) → List ℕ → Bool
closed inside [] = not inside
closed inside (c ∷ s) =
    if c == quote
    then closed (not inside) s
    else if (c == bar) && not inside
    then false
    else closed inside s

pub record IsCommand (c : List ℕ) : Type 0 where
  pub whole : closed false c ≡ true
  pub filled : length (rmldspaces c) ≢ 0
  pub fits : length (rmldspaces c) ≤ 255

-- The commands with a bar between two of them.
unfoldable pub joined : List (List ℕ) → List ℕ
joined [] = []
joined (c ∷ []) = c
joined (c ∷ d ∷ cs) = c ++ (bar ∷ joined (d ∷ cs))

-- The rows from `pos` on hold the commands without the spaces in front, and an empty row behind.
unfoldable pub Lists : Rows → ℕ → List (List ℕ) → Type 0
Lists rows pos [] = rows pos ≡ []
Lists rows pos (c ∷ cs) = (rows pos ≡ rmldspaces c) × Lists rows (suc pos) cs

-- The count of quotes behind a byte.
abbrev counted : (c quotes : ℕ) → ℕ
counted c quotes = if c == quote then quotes + 1 else quotes

pub row_same : (rows : Rows) (pos : ℕ) (x : List ℕ) → update rows pos x pos ≡ x
row_same rows pos x = ground arith

pub row_other :
    (rows : Rows) (pos : ℕ) (x : List ℕ) (j : ℕ) → j < pos → update rows pos x j ≡ rows j
row_other rows pos x j h = ground (arith, h)

pub row_next : (rows : Rows) (pos : ℕ) → update rows (pos + 1) [] (suc pos) ≡ []
row_next rows pos = ground arith

-- The rows that were filled before stay.
abbrev Split : (pos : ℕ) → Rows → List (List ℕ) → Option (Bool × Rows) → Type 0
Split pos rows cs r =
    (rows' : Rows) × (r ≡ some (true, rows'))
    × Lists rows' pos cs
    × ((j : ℕ) → j < pos → rows' j ≡ rows j)
