-- ===== src/Console/Digits.antt =====
-- The digits that the number printers write, and what `atoi` reads back.
use mathlib.Core.List.{reverse as mirror, reverse-cons}
use native.Mathlib.Nat.{pow-suc}
use xern.Base.{
  ℕ, zero, suc, ◌+◌, ◌-◌, ◌*◌, ◌/◌, ◌%◌, ◌^◌, ◌≤◌, ◌<◌, ◌≡◌, refl, false, List, [], ◌∷◌, ◌++◌, some,
  Option, arith, length, All, ◌==◌, Bool-cases, inl, inr, ltb, get_elem?, append_assoc,
  length-append,
}
use xern.Strings.{atoi_loop}
use xern.Strings.Terminated.{IsText, holding}
use xern.Strings.Turn.{reverse-mirror}
use xern.Console.{digit_loop, put_digits, kputs, decimal_digits}

abbrev pub IsDigit : ℕ → Type 0
IsDigit c = (b'0' ≤ c) × (c ≤ b'9')

-- The number that digits spell, the last one first.
abbrev pub value_of : List ℕ → ℕ
value_of [] = 0
value_of (d ∷ ds) = d - b'0' + 10 * value_of ds

digit_at : (r : ℕ) → r < 10 → get_elem? decimal_digits r ≡ some (b'0' + r)
digit_at zero h = refl
digit_at (suc zero) h = refl
digit_at (suc (suc zero)) h = refl
digit_at (suc (suc (suc zero))) h = refl
digit_at (suc (suc (suc (suc zero)))) h = refl
digit_at (suc (suc (suc (suc (suc zero))))) h = refl
digit_at (suc (suc (suc (suc (suc (suc zero)))))) h = refl
digit_at (suc (suc (suc (suc (suc (suc (suc zero))))))) h = refl
digit_at (suc (suc (suc (suc (suc (suc (suc (suc zero)))))))) h = refl
digit_at (suc (suc (suc (suc (suc (suc (suc (suc (suc zero))))))))) h = refl
digit_at (suc (suc (suc (suc (suc (suc (suc (suc (suc (suc r)))))))))) h = absurd (omega arith)

-- What the loop writes for `value` into `room` places.
pub record Spelled (room value : ℕ) (out : Option (List ℕ)) : Type 0 where
  pub digits : List ℕ
  pub done : out ≡ some digits
  pub all : All IsDigit digits
  pub spells : value_of digits ≡ value
  pub fits : (m : ℕ) → value < 10 ^ m → 0 < m → length digits ≤ m

positive : (m v : ℕ) → v < 10 ^ m → 0 < v → 0 < m
positive zero v h p = absurd (omega arith)
positive (suc m) v h p = omega arith

tenth : (m v : ℕ) → v < 10 ^ suc m → v / 10 < 10 ^ m
tenth m v h = omega (arith, h, pow-suc 10 m)

one_more :
    (v n m : ℕ)
    → ((l : ℕ) → v / 10 < 10 ^ l → 0 < l → n ≤ l)
    → 0 < v / 10
    → v < 10 ^ m
    → 0 < m
    → suc n ≤ m
one_more v n zero fits p h q = absurd (omega arith)
one_more v n (suc m) fits p h q =
    let small = tenth m v h in omega (arith, fits m small (positive m (v / 10) small p))

pub digit_loop-Spelled :
    (room value : ℕ)
    → value < 10 ^ room
    → 0 < room
    → Spelled room value (digit_loop room 10 decimal_digits value)
unfolding digit_loop
digit_loop-Spelled zero value h p = absurd (omega arith)
digit_loop-Spelled (suc room) value h p = elim (Bool-cases (ltb 0 (value / 10))) [
  | inl more ↦
      let pos : 0 < value / 10 = ground (arith, more) in
      let small = tenth room value h in
      let r = digit_loop-Spelled room (value / 10) small (positive room (value / 10) small pos) in
      rw (digit_at (value % 10) (omega arith), more)
        (record {
          digits = (b'0' + value % 10) ∷ r.digits;
          done = rw r.done refl;
          all = (omega arith, r.all);
          spells = omega (arith, r.spells);
          fits = λ m l q. one_more value (length r.digits) m r.fits pos l q;
        })
  | inr last ↦
      rw (digit_at (value % 10) (omega arith), last)
        (record {
          digits = (b'0' + value % 10) ∷ [];
          done = refl;
          all = (omega arith, tt);
          spells = ground (arith, last);
          fits = λ m l q. omega (arith, q);
        })
]

-- `atoi` reads the digits from the first one.
pub atoi_loop-mirror :
    (ds t : List ℕ)
    → All IsDigit ds
    → value_of ds < 2 ^ 32
    → atoi_loop (mirror ds ++ t) 0 ≡ atoi_loop t (value_of ds)
unfolding atoi_loop
atoi_loop-mirror [] t a h = refl
atoi_loop-mirror (d ∷ ds) t (dig, a) h =
    rw
      (
        reverse-cons d ds,
        append_assoc (mirror ds) (d ∷ []) t,
        atoi_loop-mirror ds (d ∷ t) a (omega arith),
      )
      (rw (no_nul d dig, wrap d (value_of ds) dig h) refl)
  where
    no_nul : (c : ℕ) → IsDigit c → (c == 0) ≡ false
    no_nul c h = ground arith

    wrap :
        (c v : ℕ)
        → IsDigit c
        → c - b'0' + 10 * v < 2 ^ 32
        → (10 * v + (c + 2 ^ 32 - 48)) % 2 ^ 32 ≡ c - b'0' + 10 * v
    wrap c v h l = omega (arith, h, l)

All-mirror : (ds : List ℕ) → All IsDigit ds → All IsDigit (mirror ds)
All-mirror [] a = tt
All-mirror (d ∷ ds) (h, a) = rw (reverse-cons d ds) (snoc (mirror ds) (All-mirror ds a))
  where
    snoc : (xs : List ℕ) → All IsDigit xs → All IsDigit (xs ++ (d ∷ []))
    snoc [] b = (h, tt)
    snoc (x ∷ xs) (g, b) = (g, snoc xs b)

All-IsText : (ds : List ℕ) → All IsDigit ds → IsText ds
All-IsText [] a = tt
All-IsText (d ∷ ds) (h, a) = (λ e. omega arith, All-IsText ds a)

kputs-digits : (ds r : List ℕ) → All IsDigit ds → kputs (holding ds r) ≡ some ds
unfolding kputs
kputs-digits [] r a = refl
kputs-digits (d ∷ ds) r (h, a) = rw (no_nul, kputs-digits ds r a, no_newline) refl
  where
    no_nul : (d == 0) ≡ false
    no_nul = ground arith

    no_newline : (d == b'\n') ≡ false
    no_newline = ground arith

pub length-mirror : (ds : List ℕ) → length (mirror ds) ≡ length ds
length-mirror [] = refl
length-mirror (d ∷ ds) =
    rw (reverse-cons d ds) (omega (arith, length-append (mirror ds) (d ∷ []), length-mirror ds))

-- The digits are sent with the first one first.
pub put_digits-mirror : (ds : List ℕ) → All IsDigit ds → put_digits ds ≡ some (mirror ds)
unfolding put_digits
put_digits-mirror ds a =
    rw (reverse-mirror ds [] (All-IsText ds a)) (kputs-digits (mirror ds) [] (All-mirror ds a))
