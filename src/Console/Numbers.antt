-- ===== src/Console/Numbers.antt =====
-- The numbers that `kprintf` prints, read back by `atoi`.
use mathlib.Core.List.{reverse as mirror}
use xern.Base.{
  ℕ, ◌-◌, ◌%◌, ◌^◌, ◌≤◌, ◌<◌, ◌≡◌, ◌≢◌, refl, ap, ◌∙◌, true, false, List, [], ◌∷◌, some, Option,
  arith, length, ◌==◌, if◌then◌else◌, Bool-cases, inl, inr, lt→ltb, ltb, ==_iff, leb, ◌>>=◌,
}
use xern.Strings.{atoi, atoi_loop}
use xern.Strings.Terminated.{holding}
use xern.Console.{kprintuint, kprintint, put_signed, put_digits, digit_loop, decimal_digits}
use xern.Console.Digits.{digit_loop-Spelled, atoi_loop-mirror, put_digits-mirror, length-mirror}

-- What was sent is a text that `atoi` reads as `value`, whatever follows its NUL, of at most `n` bytes.
pub record Prints (value n : ℕ) (out : Option (List ℕ)) : Type 0 where
  pub sent : List ℕ
  pub done : out ≡ some sent
  pub short : length sent ≤ n
  pub reads : (r : List ℕ) → atoi (holding sent r) ≡ some value

digits-Prints :
    (value : ℕ)
    → value < 2 ^ 32
    → Prints value 10 (digit_loop 11 10 decimal_digits value >>= put_digits)
unfolding atoi atoi_loop
digits-Prints value h =
    let s = digit_loop-Spelled 11 value (omega arith) (omega arith) in
    rw s.done (record {
      sent = mirror s.digits;
      done = put_digits-mirror s.digits s.all;
      short = omega (arith, length-mirror s.digits, s.fits 10 (omega arith) (omega arith));
      reads =
          λ r. atoi_loop-mirror s.digits (0 ∷ r) s.all (omega (arith, s.spells)) ∙ rw s.spells refl;
    })

zero-Prints : Prints 0 10 (some (b'0' ∷ []))
unfolding atoi atoi_loop
zero-Prints = record { sent = b'0' ∷ []; done = refl; short = omega arith; reads = λ r. refl }

-- Every 32-bit word is printed, without leaving a buffer, in at most ten digits which `atoi` reads as it.
pub kprintuint-Prints : (value : ℕ) → value < 2 ^ 32 → Prints value 10 (kprintuint value)
unfolding kprintuint atoi atoi_loop
kprintuint-Prints value h = elim (Bool-cases (value == 0)) [
  | inl z ↦ rw z (rw ((==_iff value 0).0 z) zero-Prints)
  | inr n ↦ rw n (digits-Prints value h)
]

-- The same for the absolute value of an `int` that is not the least one.
put_signed-Prints : (value : ℕ) → value < 2 ^ 31 → Prints value 10 (put_signed value)
unfolding put_signed
put_signed-Prints value h = rw (lt→ltb value (2 ^ 31) h) (digits-Prints value (omega (arith, h)))

plain-Prints :
    (value : ℕ)
    → value < 2 ^ 31
    → Prints value 10 (if value == 0 then some (b'0' ∷ []) else put_signed value)
unfolding atoi atoi_loop
plain-Prints value h = elim (Bool-cases (value == 0)) [
  | inl z ↦ rw z (rw ((==_iff value 0).0 z) zero-Prints)
  | inr n ↦ rw n (put_signed-Prints value h)
]

-- What was sent for the `int` with the bit pattern `value`: its digits, behind a minus sign if it is negative.
pub record PrintsSigned (value : ℕ) (out : Option (List ℕ)) : Type 0 where
  pub sent : List ℕ
  pub done : out ≡ some (if ltb value (2 ^ 31) then sent else b'-' ∷ sent)
  pub short : length sent ≤ 10
  pub reads :
      (r : List ℕ)
      → atoi (holding sent r) ≡ some (if ltb value (2 ^ 31) then value else 2 ^ 32 - value)

-- Every `int` but -2^31 is printed as its sign and at most ten digits, which `atoi` reads as its
-- absolute value.
pub kprintint-PrintsSigned :
    (value : ℕ) → value < 2 ^ 32 → value ≢ 2 ^ 31 → PrintsSigned value (kprintint value)
unfolding kprintint
kprintint-PrintsSigned value h least = elim (Bool-cases (ltb value (2 ^ 31))) [
  | inl plus ↦
      let p = plain-Prints value (ltb→lt value plus) in
      rw (upper value (ltb→lt value plus)) (record {
        sent = p.sent;
        done = rw plus p.done;
        short = p.short;
        reads = λ r. rw plus (p.reads r);
      })
  | inr minus ↦
      let low = negated value minus h least in
      let p = put_signed-Prints ((2 ^ 32 - value) % 2 ^ 32) (omega (arith, low)) in
      rw (not_zero value minus, lower value minus, p.done)
        (record {
          sent = p.sent;
          done = rw minus refl;
          short = p.short;
          reads = λ r. rw minus (p.reads r ∙ ap some low.1);
        })
]
  where
    ltb→lt : (v : ℕ) → ltb v (2 ^ 31) ≡ true → v < 2 ^ 31
    ltb→lt v e = ground (arith, e)

    upper : (v : ℕ) → v < 2 ^ 31 → leb (2 ^ 31) v ≡ false
    upper v l = ground arith

    lower : (v : ℕ) → ltb v (2 ^ 31) ≡ false → leb (2 ^ 31) v ≡ true
    lower v e = ground (arith, e)

    not_zero : (v : ℕ) → ltb v (2 ^ 31) ≡ false → (v == 0) ≡ false
    not_zero v e = ground (arith, e)

    negated :
        (v : ℕ)
        → ltb v (2 ^ 31) ≡ false
        → v < 2 ^ 32
        → v ≢ 2 ^ 31
        → ((2 ^ 32 - v) % 2 ^ 32 < 2 ^ 31) × ((2 ^ 32 - v) % 2 ^ 32 ≡ 2 ^ 32 - v)
    negated v e l ne = ground (arith, e, ne)
