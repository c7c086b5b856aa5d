-- ===== src/Tests/Text.antt =====
-- The theorems on C strings at concrete buffers.
use xern.Base.{◌∷◌, [], List, ℕ, arith, replicate}
use xern.Strings.Terminated.{IsText, holding}
use xern.Paths.{remove_multiple_slashes}
use xern.Paths.Clean.{Holds, remove_multiple_slashes-renders}
use xern.Paths.Break.{brk_path}
use xern.Paths.Break.Whole.{Fills, brk_path-Fills}

abbrev abcd : List ℕ
abcd = b'a' ∷ b'b' ∷ b'c' ∷ b'd' ∷ []

abbrev cd : List ℕ
cd = b'c' ∷ b'd' ∷ []

abbrev nines : List ℕ
nines = 9 ∷ 9 ∷ 9 ∷ 9 ∷ []

IsText-abcd : IsText abcd
IsText-abcd = ground arith

IsText-cd : IsText cd
IsText-cd = ground arith

abbrev path_text : List ℕ
path_text = b'/' ∷ b'/' ∷ b'a' ∷ b'/' ∷ b'/' ∷ b'b' ∷ b'/' ∷ []

IsText-path_text : IsText path_text
IsText-path_text = ground arith

-- "//a//b/" becomes "/a/b".
remove_multiple_slashes-renders_example :
    Holds
      (remove_multiple_slashes (holding path_text []) (replicate 8 9))
      (b'/' ∷ b'a' ∷ b'/' ∷ b'b' ∷ [])
remove_multiple_slashes-renders_example =
    remove_multiple_slashes-renders path_text [] (replicate 8 9) IsText-path_text (omega arith)

-- It has the rows "/", "a" and "b".
brk_path-Fills_example :
    Fills (brk_path path_text (λ i. [])) ((b'/' ∷ []) ∷ (b'a' ∷ []) ∷ (b'b' ∷ []) ∷ [])
brk_path-Fills_example = brk_path-Fills path_text (λ i. []) IsText-path_text (omega arith)
