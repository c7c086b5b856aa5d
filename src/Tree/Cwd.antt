-- ===== src/Tree/Cwd.antt =====
-- The name of the working directory: `getname` of XERN/fs/utils.h and `kgetcwd` of XERN/fs/getcwd.h.
pub mod Named
pub mod Child
use xern.Base.{
  ℕ, zero, suc, ◌+◌, Bool, true, false, Option, none, some, List, [], ◌∷◌, ◌++◌, ◌==◌, ltb, leb,
  if◌then◌else◌, length,
}
use xern.Kernel.{InodePtr}
use xern.Paths.Break.{text_of}
use xern.Permissions.{Inode}
use xern.Ext2.{Fs, blocksize, getblock, get32, minode}
use xern.Ext2.Cache.{get_inode}
use xern.Ext2.Data.{entries, entry, bytes_from}
use xern.Ext2.Lookup.{rec_len, name_len}
use xern.Tree.{Call, pure, ◌>>=◌, state, need, fs_try, caller}

-- What the search for an inode number comes to: `endless` when an entry of length 0 is met, `unnamed` where the code
-- returns 0.
pub data Naming : Type 0 where
  endless : Naming
  named : List ℕ → Naming
  unnamed : Naming
  onward : Naming

abbrev pub then_name : Naming → Naming → Naming
then_name onward next = next
then_name endless next = endless
then_name (named name) next = named name
then_name unnamed next = unnamed

-- The loop over the entries of a block.
unfoldable pub name_in_block : ℕ → (ℕ → ℕ) → (p ino : ℕ) → Naming
name_in_block zero buf p ino = endless
name_in_block (suc n) buf p ino =
    let rest = name_in_block n buf (p + rec_len buf p) ino in
    if leb blocksize p
    then onward
    else if get32 buf p == ino
    then named (bytes_from (name_len buf p) buf (p + 8))
    else rest

-- The direct blocks, and those of a table.
unfoldable pub name_in_blocks : ℕ → Fs → (ℕ → ℕ) → (i ino : ℕ) → Naming
name_in_blocks zero fs blocks i ino = onward
name_in_blocks (suc n) fs blocks i ino = elim (blocks i == 0) [
  | true ↦ unnamed
  | false ↦
      then_name (name_in_block (suc blocksize) (getblock fs (blocks i)) 0 ino)
        (name_in_blocks n fs blocks (suc i) ino)
]

unfoldable pub name_in_tables : ℕ → Fs → (ℕ → ℕ) → (i ino : ℕ) → Naming
name_in_tables zero fs tables i ino = onward
name_in_tables (suc n) fs tables i ino = elim (tables i == 0) [
  | true ↦ name_in_tables n fs tables (suc i) ino
  | false ↦
      then_name (name_in_blocks entries fs (entry fs (tables i)) 0 ino)
        (name_in_tables n fs tables (suc i) ino)
]

unfoldable pub name_entry : Fs → Inode → (ino : ℕ) → Naming
name_entry fs ip ino = then_name (name_in_blocks 12 fs ip.i_block 0 ino) (
    then_name
      (if ip.i_block 12 == 0
        then onward
        else name_in_blocks entries fs (entry fs (ip.i_block 12)) 0 ino)
      (if ip.i_block 13 == 0
        then onward
        else name_in_tables entries fs (entry fs (ip.i_block 13)) 0 ino))

-- What the name's buffer holds; a parent that is not found is a NULL pointer followed.
unfoldable pub getname : (parent ino : ℕ) → Call (Option (List ℕ))
getname parent ino = do
  found ← fs_try (λ fs. get_inode fs parent)
  p ← need found
  s ← state
  elim (name_entry s.fs (minode s.fs p).inode ino) [
    | endless ↦ λ s. none
    | named name ↦ pure (some (text_of (name ++ (0 ∷ []))))
    | unnamed ↦ pure none
    | onward ↦ pure none
  ]

-- The pairs of `v_inodes` and `p_inodes`, the last one first. `none` is the place behind the arrays, at which the code goes
-- on when the root is not reached in 64 rounds.
abbrev pub Trail : Type 0
Trail = List (Option (ℕ × ℕ))

unfoldable pub go_up : ℕ → InodePtr → Trail → Call Trail
go_up zero p trail = pure (none ∷ trail)
go_up (suc n) p trail = do
  s ← state
  let buf = getblock s.fs ((minode s.fs p).inode.i_block 0)
  let v = get32 buf 0
  let parent = get32 buf (rec_len buf 0)
  if parent == s.fs.root.ino then pure (some (v, parent) ∷ trail) else (do
    found ← fs_try (λ fs. get_inode fs parent)
    q ← need found
    go_up n q (some (v, parent) ∷ trail))

-- `v_inodes[0] == p_inodes[0]`
unfoldable pub is_root : Trail → Bool
is_root [] = false
is_root (none ∷ []) = false
is_root (some (v, parent) ∷ []) = v == parent
is_root (step ∷ next ∷ trail) = is_root (next ∷ trail)

-- The names with a slash in front of each; to read behind the arrays is a fault.
unfoldable pub names_of : Trail → Call (Option (List ℕ))
names_of [] = pure (some [])
names_of (none ∷ trail) = λ s. none
names_of (some (v, parent) ∷ trail) = do
  name ← getname parent v
  elim name [
    | none ↦ pure none
    | some n ↦ do
      rest ← names_of trail
      elim rest [ none ↦ pure none | some r ↦ pure (some (b'/' ∷ (n ++ r))) ]
  ]

abbrev pub cwd_root : List ℕ
cwd_root = b'/' ∷ b'r' ∷ b'o' ∷ b'o' ∷ b't' ∷ []

-- What is stored in a buffer of `size` bytes, or NULL.
unfoldable pub kgetcwd : (size : ℕ) → Call (Option (List ℕ))
kgetcwd size = do
  s ← state
  trail ← go_up 64 (caller s).cwd []
  if is_root trail then pure (if ltb size 6 then none else some cwd_root) else (do
    names ← names_of trail
    elim names [
      | none ↦ pure none
      | some path ↦
          pure (if ltb size (length (cwd_root ++ path) + 1) then none else some (cwd_root ++ path))
    ])
