-- ===== src/Paths.antt =====
-- Path names: XERN/include/libgen.h, which XERN/UPROGS/src/include/libgen.h repeats for user
-- programs. Buffers are as in Strings: lists of bytes to their end, `none` a fault.
pub mod Parts
pub mod Clean
pub mod Break
use xern.Base.{
  ℕ, zero, suc, ◌+◌, ◌-◌, get_elem?, Bool, true, false, Option, none, some, List, [], ◌∷◌, ◌==◌,
  ltb, ◌&&◌, ◌||◌, if◌then◌else◌, ◌>>=◌, length, drop, replicate,
}
use xern.Strings.{strlen, strcpy, strncpy, put}

abbrev pub slash : ℕ
slash = b'/'

-- Whether the next byte is a slash.
abbrev pub starts_slash : List ℕ → Bool
starts_slash [] = false
starts_slash (c ∷ s) = c == slash

-- The loop of `remove_multiple_slashes` from `input[i]` and `output[count]` on.
unfoldable pub squeeze : (input output : List ℕ) → Option (List ℕ)
squeeze [] output = none
squeeze (c ∷ s) [] = none
squeeze (c ∷ s) (d ∷ output) =
    if c == 0
    then some (0 ∷ output)
    else if (c == slash) && starts_slash s
    then squeeze s (c ∷ output)
    else put c (squeeze s output)

-- `buf[i] = c`
unfoldable pub write_at : List ℕ → ℕ → ℕ → Option (List ℕ)
write_at [] i c = none
write_at (d ∷ buf) zero c = some (c ∷ buf)
write_at (d ∷ buf) (suc i) c = put d (write_at buf i c)

-- Byte `i`, the last one, becomes NUL if it is a slash.
unfoldable pub cut : List ℕ → ℕ → Option (List ℕ)
cut buf i = get_elem? buf i >>= λ c. if c == slash then write_at buf i 0 else some buf

unfoldable pub trim_slash : List ℕ → Option (List ℕ)
trim_slash output = strlen output >>= λ n. if ltb 1 n then cut output (n - 1) else some output

unfoldable pub remove_multiple_slashes : (input output : List ℕ) → Option (List ℕ)
remove_multiple_slashes input output = squeeze input output >>= trim_slash

-- `char path[strlen(pathname)+1]`, filled by `remove_multiple_slashes`; what it held is irrelevant.
unfoldable pub local_path : List ℕ → Option (List ℕ)
local_path pathname =
    strlen pathname >>= λ n. remove_multiple_slashes pathname (replicate (suc n) 0)

-- `base[0] = c, base[1] = 0`
unfoldable pub one_byte : ℕ → List ℕ → Option (List ℕ)
one_byte c base = write_at base 0 c >>= λ b. write_at b 1 0

-- The test for "/" and "." alone, on a path of length `n`.
unfoldable pub is_special : List ℕ → ℕ → Option Bool
is_special path n =
    if n == 1 then (get_elem? path 0 >>= λ c. some ((c == slash) || (c == b'.'))) else some false

-- The loop of `basename`, `i` indices before the end of the loop.
unfoldable pub base_loop : (path base : List ℕ) → (n i : ℕ) → Option (List ℕ)
base_loop path base n zero = strcpy base path
base_loop path base n (suc i) = get_elem? path i >>= λ c.
    let rest = base_loop path base n i in
    if c == slash then strncpy base (drop (suc i) path) (n - i) else rest

unfoldable pub basename : (pathname base : List ℕ) → Option (List ℕ)
basename pathname base = local_path pathname >>= λ path. strlen path >>= λ n.
    is_special path n >>= λ special.
    if special then (get_elem? path 0 >>= λ c. one_byte c base) else base_loop path base n n

-- Whether one of the first `n` bytes is a slash.
unfoldable pub contains_slash : List ℕ → ℕ → Option Bool
contains_slash path zero = some false
contains_slash [] (suc n) = none
contains_slash (c ∷ path) (suc n) = contains_slash path n >>= λ b. some ((c == slash) || b)

-- The loop of `dirname`; without a slash it ends and writes nothing.
unfoldable pub dir_loop : (path base : List ℕ) → ℕ → Option (List ℕ)
dir_loop path base zero = some base
dir_loop path base (suc i) = get_elem? path i >>= λ c.
    let rest = dir_loop path base i in
    if c == slash then strncpy base path (if i == 0 then 1 else i) else rest

unfoldable pub dirname : (pathname base : List ℕ) → Option (List ℕ)
dirname pathname base = local_path pathname >>= λ path. strlen path >>= λ n.
    contains_slash path n >>= λ some_slash.
    if some_slash
    then (is_special path n >>= λ special.
        if special then (get_elem? path 0 >>= λ c. one_byte c base) else dir_loop path base n)
    else one_byte b'.' base
