-- ===== src/Tests/Commanded.antt =====
-- Command lines of the shell.
use xern.Base.{ℕ, ◌≡◌, true, some, List, [], ◌∷◌, ◌++◌, arith, All}
use xern.Shell.{Rows, quote, space, get_cmd_args}
use xern.Shell.Words.{Plain, Holds, get_cmd_args-splits}

abbrev no_rows : Rows
no_rows j = b'?' ∷ []

-- ls, grep with a bar in quotes, and wc behind a space.
abbrev list_it : List ℕ
list_it = b'l' ∷ b's' ∷ []

abbrev grep_it : List ℕ
grep_it = b'g' ∷ b' ' ∷ 34 ∷ b'|' ∷ 34 ∷ []

abbrev count_it : List ℕ
count_it = b' ' ∷ b'w' ∷ b'c' ∷ []

abbrev option : List ℕ
option = b'-' ∷ b'l' ∷ []

Plain-list : All Plain list_it
Plain-list = (
  (λ e. omega (arith, e), λ e. omega (arith, e), λ e. omega (arith, e)),
  ((λ e. omega (arith, e), λ e. omega (arith, e), λ e. omega (arith, e)), tt),
)

Plain-option : All Plain option
Plain-option = (
  (λ e. omega (arith, e), λ e. omega (arith, e), λ e. omega (arith, e)),
  ((λ e. omega (arith, e), λ e. omega (arith, e), λ e. omega (arith, e)), tt),
)

get_cmd_args-splits_example :
    (rows' : Rows) × (get_cmd_args (list_it ++ (quote ∷ (option ++ (quote ∷ [])))) no_rows
      ≡ some (true, rows'))
    × Holds rows' 0 ((list_it ++ (space ∷ option)) ∷ [])
get_cmd_args-splits_example =
    get_cmd_args-splits list_it option no_rows Plain-list Plain-option (omega arith) (omega arith)
