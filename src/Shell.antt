-- ===== src/Shell.antt =====
-- The shell's reading of a command line: the text functions of XERN/UPROGS/src/sh.h and what `execute_pipeline` starts with.
-- Texts are the bytes before a NUL. The rows of an array of texts hold 256 bytes: `none` is a text that is too long for one.
pub mod Pipes
pub mod Words
pub mod Command
use xern.Base.{
  ℕ, ◌+◌, ◌-◌, ◌%◌, Bool, true, false, not, ◌&&◌, ◌||◌, Option, none, some, List, [], ◌∷◌, ◌++◌,
  ◌==◌, leb, ltb, if◌then◌else◌, ◌>>=◌, length, drop, take, update,
}

abbrev pub space : ℕ
space = b' '

abbrev pub quote : ℕ
quote = 34

abbrev pub backslash : ℕ
backslash = 92

abbrev pub bar : ℕ
bar = b'|'

abbrev pub Rows : Type 0
Rows = ℕ → List ℕ

unfoldable pub rmldspaces : List ℕ → List ℕ
rmldspaces [] = []
rmldspaces (c ∷ s) = let rest = rmldspaces s in if c == space then rest else c ∷ s

-- `rmldspaces` into a row.
abbrev pub put_row : Rows → ℕ → List ℕ → Option Rows
put_row rows pos s =
    if ltb 255 (length (rmldspaces s)) then none else some (update rows pos (rmldspaces s))

-- The first byte of a text, which is the NUL of an empty one.
abbrev pub head : List ℕ → ℕ
head [] = 0
head (c ∷ s) = c

-- The loop of `remove_multiple_spaces`, with the byte before and the quotes so far.
unfoldable pub squeeze_spaces : List ℕ → (prev quotes : ℕ) → List ℕ
squeeze_spaces [] prev quotes = []
squeeze_spaces (c ∷ s) prev quotes =
    let quotes' = if (c == quote) && not (prev == backslash) then quotes + 1 else quotes in
    let rest = squeeze_spaces s c quotes' in
    if (c == head s) && ((c == space) && (quotes' % 2 == 0)) then rest else c ∷ rest

-- The last byte of a text of more than one byte is dropped if it is a space.
unfoldable pub trim_end : List ℕ → List ℕ
trim_end s =
    let n = length s in if ltb 1 n && (head (drop (n - 1) s) == space) then take (n - 1) s else s

unfoldable pub remove_multiple_spaces : List ℕ → List ℕ
remove_multiple_spaces input = trim_end (squeeze_spaces (rmldspaces input) 0 0)

-- The bytes before the first space.
unfoldable pub first_word : List ℕ → ℕ
first_word [] = 0
first_word (c ∷ s) = let n = first_word s in if c == space then 0 else n + 1

-- The number that says whether "/bin/" was put in front, and the name.
unfoldable pub get_progname : List ℕ → ℕ × List ℕ
get_progname input =
    let tmp = rmldspaces input in
    let count = first_word tmp in
    if (head tmp == b'.') && (head (drop 1 tmp) == b'/')
    then (1, take (if leb 255 count then 254 else count) tmp)
    else (
      2,
      (b'/' ∷ b'b' ∷ b'i' ∷ b'n' ∷ b'/' ∷ []) ++ take (if leb 250 count then 249 else count) tmp,
    )

-- The text behind the last bar, or nothing, and the empty row behind.
unfoldable pub last_row : List ℕ → (pos : ℕ) → Rows → Option Rows
last_row [] pos rows = some (update rows pos [])
last_row (c ∷ seg) pos rows =
    put_row rows pos (c ∷ seg) >>= λ rows'. some (update rows' (pos + 1) [])

-- The loop of `get_pipes` on what is left of the text, behind the bytes `seg` since the last bar.
unfoldable pub pipes_loop : List ℕ → (seg : List ℕ) → (quotes pos : ℕ) → Rows → Option (Bool × Rows)
pipes_loop [] seg quotes pos rows = last_row seg pos rows >>= λ rows'. some (true, rows')
pipes_loop (c ∷ s) seg quotes pos rows =
    let quotes' = if c == quote then quotes + 1 else quotes in
    elim ((c == bar) && (quotes' % 2 == 0)) [
      | false ↦ pipes_loop s (seg ++ (c ∷ [])) quotes' pos rows
      | true ↦ put_row rows pos seg >>= λ rows'. elim (length (rmldspaces seg) == 0) [
        | true ↦ some (false, rows')
        | false ↦ elim (pos + 1 == 15) [
          | true ↦ some (true, update rows' 15 [])
          | false ↦ pipes_loop s [] quotes' (pos + 1) rows'
        ]
      ]
    ]

unfoldable pub get_pipes : List ℕ → Rows → Option (Bool × Rows)
get_pipes input cmds = pipes_loop input [] 0 0 cmds

-- What a letter behind a backslash stands for.
unfoldable pub escape : ℕ → Option ℕ
escape c =
    if c == b'f'
    then some 12
    else if c == b'r'
    then some 13
    else if c == b'n'
    then some 10
    else if c == b't'
    then some 9
    else if c == b'v'
    then some 11
    else if c == b'b'
    then some 8
    else if c == b'a'
    then some 7
    else if (c == backslash) || ((c == quote) || (c == 39))
    then some c
    else none

-- The loop of `get_cmd_args`; `held` is the byte that the escape before stands for, in place of the next one. Quotes become
-- spaces.
unfoldable pub args_loop :
    List ℕ → (held : Option ℕ) → (seg : List ℕ) → (quotes pos : ℕ) → Rows → Option (Bool × Rows)
args_loop [] held seg quotes pos rows =
    last_row seg pos rows >>= λ rows'. some ((quotes % 2 == 0), rows')
args_loop (c ∷ s) (some e) seg quotes pos rows = args_loop s none (seg ++ (e ∷ [])) quotes pos rows
args_loop (c ∷ s) none seg quotes pos rows =
    let c' = if c == quote then space else c in
    let quotes' = if c == quote then quotes + 1 else quotes in
    elim (if c == backslash then escape (head s) else none) [
      | some e ↦ args_loop s (some e) seg quotes pos rows
      | none ↦ elim ((c' == space) && (quotes' % 2 == 0)) [
        | false ↦ args_loop s none (seg ++ (c' ∷ [])) quotes' pos rows
        | true ↦ put_row rows pos seg >>= λ rows'. elim (length (rmldspaces seg) == 0) [
          | true ↦ args_loop s none [] quotes' pos rows'
          | false ↦ elim (pos + 1 == 14) [
            | true ↦ some ((quotes' % 2 == 0), update rows' 14 [])
            | false ↦ args_loop s none [] quotes' (pos + 1) rows'
          ]
        ]
      ]
    ]

unfoldable pub get_cmd_args : List ℕ → Rows → Option (Bool × Rows)
get_cmd_args input words = args_loop input none [] 0 0 words

unfoldable pub char_count : List ℕ → ℕ → ℕ
char_count [] ch = 0
char_count (c ∷ s) ch = let n = char_count s ch in if c == ch then n + 1 else n

-- What `execute_pipeline` makes of a command before it runs it: the name of the program, and the arguments taken from
-- behind it.
unfoldable pub read_command : List ℕ → Rows → Option (List ℕ × Bool × Rows)
read_command cmd args =
    let (state, progname) = get_progname cmd in
    let off = if state == 1 then length progname else length progname - 5 in
    get_cmd_args (drop off cmd) args >>= λ (ok, args'). some (progname, ok, args')
