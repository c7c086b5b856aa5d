-- ===== src/Ext2/Lookup.antt =====
-- Names in directories: `find_inode` of XERN/fs/utils.h, and `free_iblocks`, which walks over the same tables of
-- blocks. A name is its bytes before the NUL, and NUL stands behind it.
-- What a comparison reads behind a block, the bytes of the table from 2048 on, is not known.
pub mod Names
pub mod Ends
pub mod Search
use xern.Base.{
  ℕ, zero, suc, ◌+◌, ◌-◌, ◌*◌, ◌/◌, ◌%◌, Bool, true, false, not, ◌&&◌, Option, none, some, List, [],
  ◌∷◌, ◌==◌, ltb, leb, if◌then◌else◌, update, ◌>>=◌, length,
}
use xern.Kernel.{InodePtr}
use xern.Permissions.{Inode}
use xern.Ext2.{
  Fs, Minode, blocksize, getblock, get16, get32, dalloc_block, minode, set_minode, save_inode,
}
use xern.Ext2.Cache.{get_inode}
use xern.Ext2.Data.{entries, entry}
use xern.Ext2.Writing.{with_block}
use xern.Ext2.Writing.Paste.{nth}

-- `memcmp(...) == 0` over the first `n` bytes.
unfoldable pub same_bytes : ℕ → (f g : ℕ → ℕ) → Bool
same_bytes zero f g = true
same_bytes (suc n) f g = (f 0 == g 0) && same_bytes n (λ i. f (suc i)) (λ i. g (suc i))

-- The fields of the directory entry at place `p` of a block.
abbrev pub rec_len : (ℕ → ℕ) → ℕ → ℕ
rec_len buf p = get16 buf (p + 4)

abbrev pub name_len : (ℕ → ℕ) → ℕ → ℕ
name_len buf p = buf (p + 6)

abbrev pub entry_name : (ℕ → ℕ) → ℕ → ℕ → ℕ
entry_name buf p i = buf (p + 8 + i)

unfoldable pub same_name : (ℕ → ℕ) → ℕ → List ℕ → Bool
same_name buf p name =
    let len = if ltb (name_len buf p) (length name) then length name else name_len buf p in
    same_bytes len (entry_name buf p) (nth name)

-- What going through entries comes to: `loops` when an entry of length 0 is met, `absent` where the code returns 0.
pub data Visit : Type 0 where
  loops : Visit
  found : ℕ → Visit
  absent : Visit
  passed : Visit

-- The loop over the entries of a block. An entry of length 0 stays where it is, so fuel for every byte and the
-- end tells the two apart.
unfoldable pub find_in_block : ℕ → (ℕ → ℕ) → ℕ → List ℕ → Visit
find_in_block zero buf p name = loops
find_in_block (suc n) buf p name =
    let rest = find_in_block n buf (p + rec_len buf p) name in
    if leb blocksize p then passed else if same_name buf p name then found (get32 buf p) else rest

-- What `passed` goes on with.
abbrev pub then_visit : Visit → Visit → Visit
then_visit passed next = next
then_visit loops next = loops
then_visit (found ino) next = found ino
then_visit absent next = absent

-- Loops over block numbers that stop at 0: the direct blocks and those of a table.
unfoldable pub find_in_blocks : ℕ → Fs → (ℕ → ℕ) → ℕ → List ℕ → Visit
find_in_blocks zero fs blocks i name = passed
find_in_blocks (suc n) fs blocks i name = elim (blocks i == 0) [
  | true ↦ absent
  | false ↦
      then_visit (find_in_block (suc blocksize) (getblock fs (blocks i)) 0 name)
        (find_in_blocks n fs blocks (suc i) name)
]

-- The loop over the tables of the double indirect block passes over those that are not there.
unfoldable pub find_in_tables : ℕ → Fs → (ℕ → ℕ) → ℕ → List ℕ → Visit
find_in_tables zero fs tables i name = passed
find_in_tables (suc n) fs tables i name = elim (tables i == 0) [
  | true ↦ find_in_tables n fs tables (suc i) name
  | false ↦
      then_visit (find_in_blocks entries fs (entry fs (tables i)) 0 name)
        (find_in_tables n fs tables (suc i) name)
]

unfoldable pub find_entry : Fs → Inode → List ℕ → Visit
find_entry fs ip name = then_visit (find_in_blocks 12 fs ip.i_block 0 name) (
    then_visit
      (if ip.i_block 12 == 0
        then passed
        else find_in_blocks entries fs (entry fs (ip.i_block 12)) 0 name)
      (if ip.i_block 13 == 0
        then passed
        else find_in_tables entries fs (entry fs (ip.i_block 13)) 0 name))

-- S_ISDIR
abbrev pub is_dir : ℕ → Bool
is_dir mode = mode / 4096 % 16 == 4

-- `none` when an entry of length 0 keeps the loop where it is, or an entry that matches has inode 0.
unfoldable pub find_inode : Fs → List ℕ → Minode → Option (Option InodePtr × Fs)
find_inode fs name parent = elim (is_dir parent.inode.i_mode) [
  | false ↦ some (none, fs)
  | true ↦ elim (find_entry fs parent.inode name) [
    | loops ↦ none
    | found ino ↦ get_inode fs ino
    | absent ↦ some (none, fs)
    | passed ↦ some (none, fs)
  ]
]

-- `free_iblocks`: each loop stops at the first block number that is 0. The numbers are those that the tables held
-- before.
unfoldable pub free_direct : ℕ → ℕ → Inode → Fs → Inode × Fs
free_direct zero i ip fs = (ip, fs)
free_direct (suc n) i ip fs = elim (ip.i_block i == 0) [
  | true ↦ (ip, fs)
  | false ↦ free_direct n (suc i) (with_block ip i 0) (dalloc_block fs (ip.i_block i))
]

unfoldable pub free_listed : ℕ → (ℕ → ℕ) → ℕ → Fs → Fs
free_listed zero blocks i fs = fs
free_listed (suc n) blocks i fs = elim (blocks i == 0) [
  | true ↦ fs
  | false ↦ free_listed n blocks (suc i) (dalloc_block fs (blocks i))
]

unfoldable pub free_tables : ℕ → (ℕ → ℕ) → ℕ → Fs → Fs
free_tables zero tables i fs = fs
free_tables (suc n) tables i fs = elim (tables i == 0) [
  | true ↦ fs
  | false ↦
      free_tables n tables (suc i)
        (free_listed entries (entry fs (tables i)) 0 (dalloc_block fs (tables i)))
]

unfoldable pub free_iblocks : Fs → InodePtr → Fs
free_iblocks fs p =
    let mip = minode fs p in
    let (ip, fs') = free_direct 12 0 mip.inode fs in
    let t = ip.i_block 12 in
    let d = ip.i_block 13 in
    let fs'' = if t == 0 then fs' else free_listed entries (entry fs' t) 0 (dalloc_block fs' t) in
    let done =
      if d == 0 then fs'' else free_tables entries (entry fs'' d) 0 (dalloc_block fs'' d) in
    let mip' = record mip {
      inode = record (with_block (with_block ip 12 0) 13 0) {
        i_size = 0;
        i_blocks = 0;
        i_atime = 0;
        i_mtime = 0;
      };
    } in
    save_inode (set_minode done p mip') mip'
