-- ===== src/Console.antt =====
-- The console: printing of XERN/drivers/uart.c.
-- What a function sends to the UART is the list of bytes in order, the keys that are pressed are a
-- list, and `none` is a fault: a read or a write outside a buffer.
pub mod Digits
pub mod Numbers
use xern.Base.{
  ℕ, zero, suc, ◌+◌, ◌-◌, ◌*◌, ◌/◌, ◌%◌, ◌^◌, Bool, true, false, Option, none, some, List, [], ◌∷◌,
  ◌++◌, ◌==◌, ltb, leb, if◌then◌else◌, ◌>>=◌, get_elem?, length,
}
use xern.Strings.{reverse}

-- A byte through `uart_putc`, with a carriage return behind a newline, before the rest.
abbrev pub send : ℕ → List ℕ → List ℕ
send c rest = if c == b'\n' then c ∷ b'\r' ∷ rest else c ∷ rest

unfoldable pub kputs : List ℕ → Option (List ℕ)
kputs [] = none
kputs (c ∷ s) = if c == 0 then some [] else kputs s >>= λ out. some (send c out)

abbrev pub decimal_digits : List ℕ
decimal_digits = b'0' ∷ b'1' ∷ b'2' ∷ b'3' ∷ b'4' ∷ b'5' ∷ b'6' ∷ b'7' ∷ b'8' ∷ b'9' ∷ []

abbrev pub hex_digits : List ℕ
hex_digits = decimal_digits ++ (b'A' ∷ b'B' ∷ b'C' ∷ b'D' ∷ b'E' ∷ b'F' ∷ [])

-- The `do` loop of the number printers in base `base`: the digits written to `tmp`, which has room for
-- `room` of them before the NUL.
unfoldable pub digit_loop : (room base : ℕ) → (digits : List ℕ) → ℕ → Option (List ℕ)
digit_loop zero base digits value = none
digit_loop (suc room) base digits value = get_elem? digits (value % base) >>= λ c.
    let rest = digit_loop room base digits (value / base) in
    if ltb 0 (value / base) then (rest >>= λ tmp. some (c ∷ tmp)) else some (c ∷ [])

-- `tmp[pos] = 0; reverse(tmp, out); kputs(out);`
unfoldable pub put_digits : List ℕ → Option (List ℕ)
put_digits tmp = reverse (tmp ++ (0 ∷ [])) >>= kputs

unfoldable pub kprinthex : ℕ → Option (List ℕ)
kprinthex value =
    if value == 0
    then some (b'0' ∷ b'x' ∷ b'0' ∷ [])
    else (digit_loop 9 16 hex_digits value >>= put_digits >>= λ out. some (b'0' ∷ b'x' ∷ out))

unfoldable pub kprintuint : ℕ → Option (List ℕ)
kprintuint value =
    if value == 0 then some (b'0' ∷ []) else digit_loop 11 10 decimal_digits value >>= put_digits

-- The loop of `kprintint` on a value that is not 0: the remainder of a negative one is not positive,
-- and -8 for the least `int`, which no digit stands at.
unfoldable pub put_signed : ℕ → Option (List ℕ)
put_signed value =
    if ltb value (2 ^ 31) then digit_loop 11 10 decimal_digits value >>= put_digits else none

-- `value` is the bit pattern of an `int`.
unfoldable pub kprintint : ℕ → Option (List ℕ)
kprintint value =
    if value == 0
    then some (b'0' ∷ [])
    else if leb (2 ^ 31) value
    then (put_signed ((2 ^ 32 - value) % 2 ^ 32) >>= λ out. some (b'-' ∷ out))
    else put_signed value

-- One argument of `kprintf`: a word, or a pointer to text.
pub data Param : Type 0 where
  word : ℕ → Param
  text : List ℕ → Param

-- The next argument as a word or as text; to read past the arguments, or one as the other, is a fault.
abbrev pub next_word : List Param → Option ℕ
next_word [] = none
next_word (word w ∷ params) = some w
next_word (text s ∷ params) = none

abbrev pub next_text : List Param → Option (List ℕ)
next_text [] = none
next_text (word w ∷ params) = none
next_text (text s ∷ params) = some s

-- `param++`
abbrev pub after : List Param → List Param
after [] = []
after (p ∷ params) = params

-- What `kprintf` sends for the conversion `c`.
unfoldable pub convert : ℕ → List Param → Option (List ℕ)
convert c params =
    if c == b'c'
    then (next_word params >>= λ w. some (send (w % 2 ^ 8) []))
    else if c == b's'
    then (next_text params >>= kputs)
    else if c == b'x'
    then (next_word params >>= kprinthex)
    else if c == b'u'
    then (next_word params >>= kprintuint)
    else if c == b'd'
    then (next_word params >>= kprintint)
    else some (b'%' ∷ [])

-- `kprintf`. A percent sign takes the byte behind it along, be it the NUL.
unfoldable pub kprintf : List ℕ → List Param → Option (List ℕ)
kprintf [] params = none
kprintf (c ∷ []) params = if c == 0 then some [] else none
kprintf (c ∷ d ∷ format) params =
    let rest = kprintf (d ∷ format) params in
    let behind = kprintf format (after params) in
    if c == 0
    then some []
    else if c == b'%'
    then (convert d params >>= λ out. behind >>= λ out'. some (out ++ out'))
    else rest >>= λ out. some (send c out)
