-- ===== src/Serial/Password.antt =====
-- Reading a password: `kreadpass` of XERN/kfuncs.c, a line that is not shown.
use xern.Base.{
  ℕ, ◌+◌, ◌-◌, ◌≡◌, refl, Option, none, some, List, [], ◌∷◌, ◌==◌, ltb, if◌then◌else◌, update, ℤ,
  Bool-cases, inl, inr,
}
use xern.Serial.{LineRead, backspace, reached, line_end, echo, serial_read}

-- With `nread` bytes in the buffer so far; `none` waits for a key.
unfoldable pub kreadpass : (keys : List ℕ) → ℤ → (ℕ → ℕ) → (nread : ℕ) → Option LineRead
kreadpass [] count buf nread = none
kreadpass (c ∷ keys) count buf nread =
    let erased = kreadpass keys count buf (nread - 1) in
    let ignored = kreadpass keys count buf nread in
    let buf' = update buf nread c in
    let on = kreadpass keys count buf' (nread + 1) in
    if c == backspace
    then (if ltb 0 nread then erased else ignored)
    else if c == b'\r'
    then some (line_end nread buf [] keys)
    else if reached count (nread + 1)
    then some (line_end (nread + 1) buf' [] keys)
    else on

-- A line read, with only the end of the line shown.
abbrev pub hidden : Option LineRead → Option LineRead
hidden none = none
hidden (some (n, buf, out, keys)) = some (n, buf, b'\n' ∷ b'\r' ∷ [], keys)

hidden-echo : (out : List ℕ) (r : Option LineRead) → hidden (echo out r) ≡ hidden r
hidden-echo out none = refl
hidden-echo out (some r) = refl

-- Of the same keys `kreadpass` makes what `serial_read` makes, in the buffer and in what it returns, but shows none of them:
-- it sends the end of the line only.
pub kreadpass-hidden :
    (keys : List ℕ) (count : ℤ) (buf : ℕ → ℕ) (nread : ℕ)
    → kreadpass keys count buf nread ≡ hidden (serial_read keys count buf nread)
unfolding kreadpass serial_read
kreadpass-hidden [] count buf nread = refl
kreadpass-hidden (c ∷ keys) count buf nread = elim (Bool-cases (c == backspace)) [
  | inl e ↦ elim (Bool-cases (ltb 0 nread)) [
    | inl p ↦ rw (e, p, hidden-echo) (kreadpass-hidden keys count buf (nread - 1))
    | inr p ↦ rw (e, p) (kreadpass-hidden keys count buf nread)
  ]
  | inr e ↦ elim (Bool-cases (c == b'\r')) [
    | inl f ↦ rw (e, f) refl
    | inr f ↦ elim (Bool-cases (reached count (nread + 1))) [
      | inl g ↦ rw (e, f, g) refl
      | inr g ↦
          rw (e, f, g, hidden-echo) (kreadpass-hidden keys count (update buf nread c) (nread + 1))
    ]
  ]
]
