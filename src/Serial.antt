-- ===== src/Serial.antt =====
-- The console as a file: the line editing of XERN/fs/io.h. Keys that are pressed are a list, what is sent to the UART a
-- list of bytes in order.
pub mod Line
pub mod Transfer
pub mod Rights
pub mod Password
use xern.Base.{
  ℕ, zero, suc, ◌+◌, ◌-◌, Bool, true, false, Option, none, some, List, [], ◌∷◌, ◌++◌, ◌==◌, ltb,
  if◌then◌else◌, update, ◌>>=◌, ℤ, pos, negsuc,
}
use xern.Console.{send}

-- The loop of `serial_write` over `n` bytes; a carriage return follows a newline. To read past the buffer is a fault.
unfoldable pub write_bytes : ℕ → List ℕ → Option (List ℕ)
write_bytes zero buf = some []
write_bytes (suc n) [] = none
write_bytes (suc n) (c ∷ buf) = write_bytes n buf >>= λ out. some (send c out)

-- The result and the bytes sent; a negative `count` sends nothing. `console_write` is the same.
unfoldable pub serial_write : List ℕ → ℤ → Option (ℤ × List ℕ)
serial_write buf (negsuc n) = some (negsuc n, [])
serial_write buf (pos n) = write_bytes n buf >>= λ out. some (pos n, out)

abbrev pub backspace : ℕ
backspace = 0x7F

-- What a call leaves: the number returned, the caller's buffer, what was sent, and the keys that are left.
abbrev pub LineRead : Type 0
LineRead = ℕ × (ℕ → ℕ) × List ℕ × List ℕ

-- `uart_putc` of bytes before the rest of a call.
abbrev pub echo : List ℕ → Option LineRead → Option LineRead
echo out none = none
echo out (some (n, buf, out', keys)) = some (n, buf, out ++ out', keys)

-- `nread == count`
abbrev pub reached : ℤ → ℕ → Bool
reached (pos m) n = n == m
reached (negsuc m) n = false

-- The end of a line with `n` bytes in the buffer.
abbrev pub line_end : ℕ → (ℕ → ℕ) → (out keys : List ℕ) → LineRead
line_end n buf out keys = (n, update buf n 0, out ++ (b'\n' ∷ b'\r' ∷ []), keys)

-- `serial_read`, which `console_read` calls, with `nread` bytes in the buffer so far; `none` waits for a key.
unfoldable pub serial_read : (keys : List ℕ) → ℤ → (ℕ → ℕ) → (nread : ℕ) → Option LineRead
serial_read [] count buf nread = none
serial_read (c ∷ keys) count buf nread =
    let erased = echo (8 ∷ b' ' ∷ 8 ∷ []) (serial_read keys count buf (nread - 1)) in
    let ignored = serial_read keys count buf nread in
    let buf' = update buf nread c in
    let on = echo (c ∷ []) (serial_read keys count buf' (nread + 1)) in
    if c == backspace
    then (if ltb 0 nread then erased else ignored)
    else if c == b'\r'
    then some (line_end nread buf [] keys)
    else if reached count (nread + 1)
    then some (line_end (nread + 1) buf' (c ∷ []) keys)
    else on
