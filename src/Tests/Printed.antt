-- ===== src/Tests/Printed.antt =====
-- The theorems on printing at concrete numbers.
use xern.Base.{◌≡◌, refl, ◌∷◌, [], some, none, ◌^◌}
use xern.Console.{kprintint, kprintf, text, kputs, put_signed, convert}

-- The least `int` is read as a digit outside the table.
kprintint-least : kprintint (2 ^ 31) ≡ none
unfolding kprintint put_signed
kprintint-least = refl

-- `kprintf("%s\n", "a")`
kprintf-line :
    kprintf (b'%' ∷ b's' ∷ b'\n' ∷ 0 ∷ []) (text (b'a' ∷ 0 ∷ []) ∷ [])
    ≡ some (b'a' ∷ b'\n' ∷ b'\r' ∷ [])
unfolding kprintf convert kputs
kprintf-line = refl
