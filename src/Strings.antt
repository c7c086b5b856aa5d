-- ===== src/Strings.antt =====
-- The C strings of XERN/include/string.h (XERN/UPROGS/src/lib/string.c holds the same functions for
-- user programs). A pointer into a buffer is the list of bytes from it to the buffer's end, and
-- `none` is a read or a write past that end. Bytes are unsigned, as `char` is on ARM.
pub mod Terminated
pub mod Copy
pub mod Compare
pub mod Search
pub mod Turn
use xern.Base.{
  ℕ, zero, suc, ◌+◌, ◌-◌, ◌*◌, ◌%◌, ◌^◌, get_elem?, Bool, true, false, Option, none, some, List, [],
  ◌∷◌, ◌++◌, ◌==◌, ltb, ◌&&◌, not, if◌then◌else◌, ◌>>=◌, ℤ, pos, negsuc, sub_ℕ, is_zero,
}

unfoldable pub strlen : List ℕ → Option ℕ
strlen [] = none
strlen (c ∷ s) = if c == 0 then some 0 else strlen s >>= λ n. some (suc n)

-- The rest of a buffer behind a byte that was written.
abbrev pub put : ℕ → Option (List ℕ) → Option (List ℕ)
put c rest = rest >>= λ d. some (c ∷ d)

unfoldable pub strcpy : (dest src : List ℕ) → Option (List ℕ)
strcpy dest [] = none
strcpy [] (c ∷ s) = none
strcpy (d ∷ dest) (c ∷ s) = if c == 0 then some (0 ∷ dest) else put c (strcpy dest s)

unfoldable pub strncpy : (dest src : List ℕ) → ℕ → Option (List ℕ)
strncpy [] s n = none
strncpy (d ∷ dest) s zero = some (0 ∷ dest)
strncpy (d ∷ dest) [] (suc n) = none
strncpy (d ∷ dest) (c ∷ s) (suc n) = if c == 0 then some (0 ∷ dest) else put c (strncpy dest s n)

-- The result of `strcmp` and `strncmp` at the first bytes where they stop.
abbrev pub order : ℕ → ℕ → ℤ
order a b = if ltb b a then pos 1 else if ltb a b then negsuc 0 else pos 0

unfoldable pub strcmp : List ℕ → List ℕ → Option ℤ
strcmp [] t = none
strcmp (a ∷ s) [] = none
strcmp (a ∷ s) (b ∷ t) =
    if (a == b) && (not (a == 0) && not (b == 0)) then strcmp s t else some (order a b)

unfoldable pub strncmp : List ℕ → List ℕ → ℕ → Option ℤ
strncmp [] t n = none
strncmp (a ∷ s) [] n = none
strncmp (a ∷ s) (b ∷ t) zero = some (order a b)
strncmp (a ∷ s) (b ∷ t) (suc n) =
    if (a == b) && (not (a == 0) && not (b == 0)) then strncmp s t n else some (order a b)

unfoldable pub memcpy : (dest src : List ℕ) → ℕ → Option (List ℕ)
memcpy dest src zero = some dest
memcpy [] src (suc n) = none
memcpy (d ∷ dest) [] (suc n) = none
memcpy (d ∷ dest) (c ∷ src) (suc n) = put c (memcpy dest src n)

-- `c` is cut to a byte before.
unfoldable pub memset : List ℕ → ℕ → ℕ → Option (List ℕ)
memset s c zero = some s
memset [] c (suc n) = none
memset (d ∷ s) c (suc n) = put c (memset s c n)

unfoldable pub memcmp : List ℕ → List ℕ → ℕ → Option ℤ
memcmp s t zero = some (pos 0)
memcmp [] t (suc n) = none
memcmp (a ∷ s) [] (suc n) = none
memcmp (a ∷ s) (b ∷ t) (suc n) = if a == b then memcmp s t n else some (sub_ℕ a b)

-- The loop of `strstr` over the `n` bytes of the text from `i` on; `m` is the needle's length, and
-- the result is the index where the needle stands.
unfoldable pub strstr_loop : (hay needle : List ℕ) → (m n i : ℕ) → Option (Option ℕ)
strstr_loop hay needle m zero i = some none
strstr_loop [] needle m (suc n) i = none
strstr_loop (c ∷ hay) needle m (suc n) i = memcmp (c ∷ hay) needle m >>= λ (r : ℤ).
    let further = strstr_loop hay needle m n (suc i) in if is_zero r then some (some i) else further

unfoldable pub strstr : (hay needle : List ℕ) → Option (Option ℕ)
strstr hay needle = strlen needle >>= λ m.
    strlen hay >>= λ n. if ltb n m then some none else strstr_loop hay needle m n 0

-- `atoi`. The value is the bit pattern of an `int`; the function does not ask whether a character is
-- a digit.
unfoldable pub atoi_loop : List ℕ → ℕ → Option ℕ
atoi_loop [] value = none
atoi_loop (c ∷ s) value =
    if c == 0 then some value else atoi_loop s ((10 * value + (c + 2 ^ 32 - 48)) % 2 ^ 32)

unfoldable pub atoi : List ℕ → Option ℕ
atoi s = atoi_loop s 0

-- `reverse`: the loop from byte `i - 1` of the text down to the first, and the NUL behind.
unfoldable pub reverse_loop : List ℕ → (i : ℕ) → Option (List ℕ)
reverse_loop s zero = some (0 ∷ [])
reverse_loop s (suc i) = get_elem? s i >>= λ c. put c (reverse_loop s i)

unfoldable pub reverse : List ℕ → Option (List ℕ)
reverse s = strlen s >>= λ n. reverse_loop s n
