-- ===== src/Strings/Terminated.antt =====
-- Text in a buffer: its bytes, a NUL, and whatever lies behind it.
use xern.Base.{ℕ, ◌≡◌, ◌≢◌, refl, List, [], ◌∷◌, ◌++◌, some, arith, All, length}
use xern.Strings.{strlen}

-- A text has no NUL among its bytes.
abbrev pub IsText : List ℕ → Type 0
IsText = All (λ c. c ≢ 0)

-- A buffer with the text `s` and the bytes `rest` behind its NUL.
abbrev pub holding : List ℕ → List ℕ → List ℕ
holding s rest = s ++ (0 ∷ rest)

-- `strlen` of a buffer that holds a text is the number of its bytes.
pub strlen-holding : (s rest : List ℕ) → IsText s → strlen (holding s rest) ≡ some (length s)
unfolding strlen
strlen-holding [] rest t = refl
strlen-holding (c ∷ s) rest (ne, t) = ground (arith, strlen-holding s rest t)
