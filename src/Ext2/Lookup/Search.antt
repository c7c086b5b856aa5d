-- ===== src/Ext2/Lookup/Search.antt =====
-- `search_inode` of XERN/fs/utils.h: from a path name to an inode. `dirnames` is a global whose rows keep
-- what the call before left in them; the first row is read even if the name has no part.
use xern.Base.{
  ℕ, zero, suc, ◌-◌, Bool, true, false, ◌&&◌, Option, none, some, List, [], ◌∷◌, ◌==◌,
  if◌then◌else◌, ◌>>=◌,
}
use xern.Kernel.{InodePtr, root_inode}
use xern.Paths.{slash}
use xern.Paths.Break.{brk_path}
use xern.Ext2.{Fs, minode}
use xern.Ext2.Data.{Filing}
use xern.Ext2.Lookup.{find_inode}

-- `strcmp(...) == 0` on texts.
abbrev pub same_text : List ℕ → List ℕ → Bool
same_text [] [] = true
same_text [] (d ∷ t) = false
same_text (c ∷ s) [] = false
same_text (c ∷ s) (d ∷ t) = (c == d) && same_text s t

-- "root", which names the root directory wherever it stands.
abbrev pub root_name : List ℕ
root_name = b'r' ∷ b'o' ∷ b'o' ∷ b't' ∷ []

-- The loop from row `i` on.
unfoldable pub search_run : ℕ → ℕ → (ℕ → List ℕ) → Fs → InodePtr → Option (Option InodePtr × Fs)
search_run zero i dirs fs start = some (some start, fs)
search_run (suc n) i dirs fs start =
    let next : Option (Option InodePtr × Fs) =
      if same_text (dirs i) root_name
      then some (some root_inode, fs)
      else find_inode fs (dirs i) (minode fs start) in
    next >>= λ (p, fs'). elim p [
      | none ↦ some (none, fs')
      | some start' ↦ search_run n (suc i) dirs fs' start'
    ]

-- The pointer found, the file system and the rows.
unfoldable pub search_inode :
    Filing → List ℕ → (ℕ → List ℕ) → Option (Option InodePtr × Fs × (ℕ → List ℕ))
search_inode s path dirs = brk_path path dirs >>= λ (count, dirs').
    let rooted = same_text (dirs' 0) (slash ∷ []) in
    let start = if rooted then root_inode else (s.kernel.procs s.kernel.curr_proc).cwd in
    let off = if rooted then 1 else 0 in
    search_run (count - off) off dirs' s.fs start >>= λ (p, fs'). some (p, fs', dirs')
