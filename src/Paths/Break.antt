-- ===== src/Paths/Break.antt =====
-- Taking a path name apart: `brk_path` of XERN/fs/utils.h. Rows of `dirnames` are texts: `strncpy` with 255 keeps the
-- first 255 bytes and ends them, which its row of 256 bytes has room for.
pub mod Names
pub mod Whole
use xern.Base.{
  ℕ, zero, suc, ◌+◌, get_elem?, Bool, true, false, Option, none, some, List, [], ◌∷◌, ◌++◌, ◌==◌,
  leb, if◌then◌else◌, ◌>>=◌, length, drop, take, update,
}
use xern.Strings.Terminated.{holding}
use xern.Paths.{slash, starts_slash, local_path}

-- The bytes before the NUL.
abbrev pub text_of : List ℕ → List ℕ
text_of [] = []
text_of (c ∷ s) = if c == 0 then [] else c ∷ text_of s

abbrev pub slash_at : List ℕ → ℕ → Bool
slash_at [] i = false
slash_at (c ∷ s) zero = c == slash
slash_at (c ∷ s) (suc i) = slash_at s i

-- What is left of the path, the row to fill next, and the rows.
abbrev pub Rows : Type 0
Rows = List ℕ × ℕ × (ℕ → List ℕ)

-- The loop; `dir_count` is `pos` in it. A round moves `i` on or drops more of the path, so fuel for its length is enough.
-- Behind a slash, `i` goes on from 1.
unfoldable pub brk_loop : ℕ → (path : List ℕ) → (i pos : ℕ) → (ℕ → List ℕ) → Rows
brk_loop zero path i pos dirs = (path, pos, dirs)
brk_loop (suc n) path i pos dirs =
    let cut =
      brk_loop n (drop (i + 1) path) 1 (pos + 1) (update dirs pos (take 255 (take i path))) in
    let on = brk_loop n path (i + 1) pos dirs in
    if leb (length path) i
    then (path, pos, dirs)
    else if slash_at path i
    then (if pos + 1 == 255
        then (drop (i + 1) path, pos + 1, update dirs pos (take 255 (take i path)))
        else cut)
    else if pos == 255
    then (path, pos, dirs)
    else on

-- What follows the loop: the count of rows, and the rows.
abbrev pub brk_end : Rows → ℕ × (ℕ → List ℕ)
brk_end ([], pos, dirs) = (pos, dirs)
brk_end (c ∷ s, pos, dirs) = (pos + 1, update dirs pos (take 255 (c ∷ s)))

abbrev pub brk_start : List ℕ → (ℕ → List ℕ) → Rows
brk_start path dirs =
    if starts_slash path then (drop 1 path, 1, update dirs 0 (slash ∷ [])) else (path, 0, dirs)

unfoldable pub brk_path : List ℕ → (ℕ → List ℕ) → Option (ℕ × (ℕ → List ℕ))
brk_path pathname dirs = local_path (holding pathname []) >>= λ buf.
    let (path, pos, dirs') = brk_start (text_of buf) dirs in
    some (brk_end (brk_loop (length path) path 0 pos dirs'))
