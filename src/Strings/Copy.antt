-- ===== src/Strings/Copy.antt =====
-- `strcpy` and `strncpy`: what they write, and exactly when they run past the destination.
use xern.Base.{
  ℕ, zero, suc, ◌≡◌, List, [], ◌∷◌, none, some, arith, length, drop, take, ltb, if◌then◌else◌,
}
use xern.Strings.{strcpy, strncpy}
use xern.Strings.Terminated.{IsText, holding}

-- `strcpy` of a text `s` succeeds exactly if the destination has room for it and its NUL; it then
-- holds the text, and the bytes behind are as before.
pub strcpy-holding :
    (s rest dest : List ℕ)
    → IsText s
    → strcpy dest (holding s rest) ≡ (
        if ltb (length s) (length dest)
        then some (holding s (drop (suc (length s)) dest))
        else none)
unfolding strcpy
strcpy-holding [] rest [] t = ground arith
strcpy-holding [] rest (d ∷ dest) t = ground arith
strcpy-holding (c ∷ s) rest [] t = ground arith
strcpy-holding (c ∷ s) rest (d ∷ dest) (ne, t) = ground (arith, strcpy-holding s rest dest t)

-- `strncpy` with size `n` of a text `s` copies its first `n` bytes at most and always ends them
-- by a NUL; it succeeds exactly if the destination has room for those and the NUL, one byte
-- more than `n` for a longer text.
pub strncpy-holding :
    (n : ℕ) (s rest dest : List ℕ)
    → IsText s
    → strncpy dest (holding s rest) n ≡ (
        if ltb (length (take n s)) (length dest)
        then some (holding (take n s) (drop (suc (length (take n s))) dest))
        else none)
unfolding strncpy
strncpy-holding zero s rest [] t = ground arith
strncpy-holding zero s rest (d ∷ dest) t = ground arith
strncpy-holding (suc n) [] rest [] t = ground arith
strncpy-holding (suc n) [] rest (d ∷ dest) t = ground arith
strncpy-holding (suc n) (c ∷ s) rest [] t = ground arith
strncpy-holding (suc n) (c ∷ s) rest (d ∷ dest) (ne, t) =
    ground (arith, strncpy-holding n s rest dest t)
