-- ===== src/Bits/Maps.antt =====
-- What setting and clearing one bit does to all of them.
use xern.Base.{
  ltb, sym, ℕ, zero, suc, ◌/◌, ◌%◌, ◌<◌, ◌≡◌, refl, ap, ◌∙◌, Bool, true, false, ◌&&◌, ◌||◌, not,
  ◌==◌, arith, Bool-cases, inl, inr, ==_iff,
}
use xern.Bits.{test_bit, with_bit, without_bit, tstbit, setbit, clrbit}

same : Bool → Bool → Bool
same true b = b
same false b = not b

same_iff : (a b : Bool) → same a b ≡ true → a ≡ b
unfolding same
same_iff true b e = ground (arith, e)
same_iff false b e = ground (arith, e)

-- A test that every number below `n` passes.
all_below : ℕ → (ℕ → Bool) → Bool
all_below zero p = true
all_below (suc n) p = p n && all_below n p

below : (n : ℕ) (p : ℕ → Bool) (x : ℕ) → all_below n p ≡ true → x < n → p x ≡ true
unfolding all_below
below zero p x e h = absurd (omega arith)
below (suc n) p x e h = elim (Bool-cases (x == n)) [
  | inl here ↦ ground (arith, e, (==_iff x n).0 here)
  | inr there ↦ ground (arith, e, there, below n p x)
]

-- One byte, by going through all of them.
set_row : ℕ → ℕ → ℕ → Bool
set_row b j i = same (test_bit (with_bit b j) i) ((i == j) || test_bit b i)

set_table : all_below 256 (λ b. all_below 8 (λ j. all_below 8 (set_row b j))) ≡ true
unfolding all_below set_row same test_bit with_bit
set_table = refl

clear_row : ℕ → ℕ → ℕ → Bool
clear_row b j i = same (test_bit (without_bit b j) i) (not (i == j) && test_bit b i)

clear_table : all_below 256 (λ b. all_below 8 (λ j. all_below 8 (clear_row b j))) ≡ true
unfolding all_below clear_row same test_bit without_bit
clear_table = refl

bytes_row : ℕ → ℕ → Bool
bytes_row b j = ltb (with_bit b j) 256 && ltb (without_bit b j) 256

bytes_table : all_below 256 (λ b. all_below 8 (bytes_row b)) ≡ true
unfolding all_below bytes_row with_bit without_bit
bytes_table = refl

test-with_bit :
    (b j i : ℕ) → b < 256 → j < 8 → i < 8 → test_bit (with_bit b j) i ≡ ((i == j) || test_bit b i)
unfolding set_row
test-with_bit b j i hb hj hi = same_iff _ _ (
    below 8 (set_row b j) i
      (below 8 (λ j. all_below 8 (set_row b j)) j
        (below 256 (λ b. all_below 8 (λ j. all_below 8 (set_row b j))) b set_table hb) hj)
      hi)

test-without_bit :
    (b j i : ℕ)
    → b < 256
    → j < 8
    → i < 8
    → test_bit (without_bit b j) i ≡ (not (i == j) && test_bit b i)
unfolding clear_row
test-without_bit b j i hb hj hi = same_iff _ _ (
    below 8 (clear_row b j) i
      (below 8 (λ j. all_below 8 (clear_row b j)) j
        (below 256 (λ b. all_below 8 (λ j. all_below 8 (clear_row b j))) b clear_table hb) hj)
      hi)

bytes_lt : (b j : ℕ) → b < 256 → j < 8 → (with_bit b j < 256) × (without_bit b j < 256)
unfolding bytes_row
bytes_lt b j hb hj =
    split (with_bit b j) (without_bit b j)
      (below 8 (bytes_row b) j (below 256 (λ b. all_below 8 (bytes_row b)) b bytes_table hb) hj)
  where
    split : (x y : ℕ) → (ltb x 256 && ltb y 256) ≡ true → (x < 256) × (y < 256)
    split x y e = ground (arith, e)

-- A buffer holds bytes.
abbrev pub IsBytes : (ℕ → ℕ) → Type 0
IsBytes buf = (i : ℕ) → buf i < 256

pub setbit-IsBytes : (buf : ℕ → ℕ) (n : ℕ) → IsBytes buf → IsBytes (setbit buf n)
unfolding setbit
setbit-IsBytes buf n h i =
    ground (arith, h i, bytes_lt (buf (n / 8)) (n % 8) (h (n / 8)) (omega arith))

pub clrbit-IsBytes : (buf : ℕ → ℕ) (n : ℕ) → IsBytes buf → IsBytes (clrbit buf n)
unfolding clrbit
clrbit-IsBytes buf n h i =
    ground (arith, h i, bytes_lt (buf (n / 8)) (n % 8) (h (n / 8)) (omega arith))

-- In the same byte, a bit is the same one if its place is.
same_place : (n m : ℕ) → (m / 8 == n / 8) ≡ true → (m % 8 == n % 8) ≡ (m == n)
same_place n m e = ground (arith, e)

other_byte : (n m : ℕ) → (m / 8 == n / 8) ≡ false → (m == n) ≡ false
other_byte n m e = ground (arith, e)

-- Setting a bit sets it and leaves the others.
pub tstbit-setbit :
    (buf : ℕ → ℕ) (n m : ℕ) → IsBytes buf → tstbit (setbit buf n) m ≡ ((m == n) || tstbit buf m)
unfolding tstbit setbit
tstbit-setbit buf n m h = elim (Bool-cases (m / 8 == n / 8)) [
  | inl here ↦ rw here (
      test-with_bit (buf (n / 8)) (n % 8) (m % 8) (h (n / 8)) (omega arith) (omega arith)
      ∙ (ap (λ b. b || test_bit (buf (n / 8)) (m % 8)) (same_place n m here)
          ∙ ap (λ a. (m == n) || test_bit (buf a) (m % 8)) (sym ((==_iff (m / 8) (n / 8)).0 here))))
  | inr there ↦ rw (there, other_byte n m there) refl
]

-- Clearing a bit clears it and leaves the others.
pub tstbit-clrbit :
    (buf : ℕ → ℕ) (n m : ℕ) → IsBytes buf → tstbit (clrbit buf n) m ≡ (not (m == n) && tstbit buf m)
unfolding tstbit clrbit
tstbit-clrbit buf n m h = elim (Bool-cases (m / 8 == n / 8)) [
  | inl here ↦ rw here (
      test-without_bit (buf (n / 8)) (n % 8) (m % 8) (h (n / 8)) (omega arith) (omega arith)
      ∙ (ap (λ b. not b && test_bit (buf (n / 8)) (m % 8)) (same_place n m here)
          ∙ ap (λ a. not (m == n) && test_bit (buf a) (m % 8))
              (sym ((==_iff (m / 8) (n / 8)).0 here))))
  | inr there ↦ rw (there, other_byte n m there) refl
]

full_row : all_below 8 (test_bit 255) ≡ true
unfolding all_below test_bit
full_row = refl

-- The byte 255 has all its bits set.
pub test_bit-full : (j : ℕ) → j < 8 → test_bit 255 j ≡ true
test_bit-full j h = below 8 (test_bit 255) j full_row h
