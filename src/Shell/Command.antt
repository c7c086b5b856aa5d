-- ===== src/Shell/Command.antt =====
-- From a command to a program's name and arguments: what `execute_pipeline` of XERN/UPROGS/src/sh.h starts with.
use xern.Base.{ℕ, List, [], ◌∷◌}

abbrev pub bin : List ℕ
bin = b'/' ∷ b'b' ∷ b'i' ∷ b'n' ∷ b'/' ∷ []
