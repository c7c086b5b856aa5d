-- ===== src/Bits.antt =====
-- Maps of bits in bytes: `buf[bit/8]` with the mask `1 << (bit % 8)`, as XERN/include/memory.h and
-- XERN/fs/utils.h both use them.
pub mod Maps
use Prim.Native.Nat.{bit_and, bit_or}
use xern.Base.{ℕ, ◌-◌, ◌/◌, ◌%◌, ◌^◌, Bool, true, false, ◌==◌, if◌then◌else◌, update}

-- Whether bit `j` of a byte is set, the byte with it set, and with it clear.
unfoldable pub test_bit : ℕ → ℕ → Bool
test_bit b j = if bit_and b (2 ^ j) == 0 then false else true

unfoldable pub with_bit : ℕ → ℕ → ℕ
with_bit b j = bit_or b (2 ^ j)

unfoldable pub without_bit : ℕ → ℕ → ℕ
without_bit b j = bit_and b (255 - 2 ^ j)

unfoldable pub tstbit : (ℕ → ℕ) → ℕ → Bool
tstbit buf bit = test_bit (buf (bit / 8)) (bit % 8)

unfoldable pub setbit : (ℕ → ℕ) → ℕ → ℕ → ℕ
setbit buf bit = update buf (bit / 8) (with_bit (buf (bit / 8)) (bit % 8))

unfoldable pub clrbit : (ℕ → ℕ) → ℕ → ℕ → ℕ
clrbit buf bit = update buf (bit / 8) (without_bit (buf (bit / 8)) (bit % 8))
