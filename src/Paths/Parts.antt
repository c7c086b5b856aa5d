-- ===== src/Paths/Parts.antt =====
-- What a path name says: whether it starts at the root, and its parts, the runs of bytes between
-- slashes. `render` is the shortest name that says it.
use xern.Base.{ℕ, Bool, true, false, List, [], ◌∷◌, ◌++◌, ◌==◌, if◌then◌else◌}
use xern.Paths.{slash}

-- A run, unless it is empty, before the others.
abbrev pub keep : List ℕ → List (List ℕ) → List (List ℕ)
keep [] ps = ps
keep (c ∷ p) ps = (c ∷ p) ∷ ps

-- The bytes before the first slash.
abbrev pub first_run : List ℕ → List ℕ
first_run [] = []
first_run (c ∷ s) = if c == slash then [] else c ∷ first_run s

-- The parts behind the first slash.
abbrev pub other_parts : List ℕ → List (List ℕ)
other_parts [] = []
other_parts (c ∷ s) = if c == slash then keep (first_run s) (other_parts s) else other_parts s

abbrev pub parts : List ℕ → List (List ℕ)
parts s = keep (first_run s) (other_parts s)

-- Each part with a slash before it.
abbrev pub joined : List (List ℕ) → List ℕ
joined [] = []
joined (p ∷ ps) = slash ∷ (p ++ joined ps)

abbrev pub join : List (List ℕ) → List ℕ
join [] = []
join (p ∷ ps) = p ++ joined ps

abbrev pub render : Bool → List (List ℕ) → List ℕ
render true ps = slash ∷ join ps
render false ps = join ps
