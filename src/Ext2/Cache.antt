-- ===== src/Ext2/Cache.antt =====
-- The table of inodes in memory: `get_inode` and `FS_init` of XERN/fs/utils.h.
pub mod Copies
pub mod Saved
use xern.Base.{
  ℕ, ◌+◌, Bool, true, false, not, ◌&&◌, Option, none, some, ◌==◌, ltb, if◌then◌else◌, update, scan,
  ◌>>=◌, ℤ, pos, is_zero,
}
use xern.Kernel.{InodePtr, root_inode, minode_slot}
use xern.Ext2.{Fs, Minode, nminodes, getblock, get32, inode_at, inode_block, inode_place, minode}

-- The tests of the two loops: a used slot with the number, and a free one.
abbrev pub cached_at : Fs → ℕ → ℕ → Bool
cached_at fs ino i = not (is_zero (fs.minodes i).refcount) && ((fs.minodes i).ino == ino)

abbrev pub free_at : Fs → ℕ → Bool
free_at fs i = is_zero (fs.minodes i).refcount

-- Slot `i` takes the inode from the card.
unfoldable pub load_minode : Fs → (ino i : ℕ) → Fs
load_minode fs ino i = record fs {
  minodes = update fs.minodes i (record {
    ino = ino;
    refcount = pos 1;
    inode = inode_at (getblock fs (inode_block fs ino)) (inode_place ino);
  });
}

-- `none` for number 0 that is not in the table: the code reads before its buffer.
unfoldable pub get_inode : Fs → ℕ → Option (Option InodePtr × Fs)
get_inode fs ino = elim (scan nminodes 0 (cached_at fs ino)) [
  | some i ↦ some (some (minode_slot i), fs)
  | none ↦ if ino == 0 then none else (elim (scan nminodes 0 (free_at fs)) [
    | none ↦ some (none, fs)
    | some i ↦ some (some (minode_slot i), load_minode fs ino i)
  ])
]

-- The loop that empties the table.
abbrev pub clear_minodes : Fs → Fs
clear_minodes fs = record fs {
  minodes = λ i.
      if ltb i nminodes then record (fs.minodes i) { ino = 0; refcount = pos 0 } else fs.minodes i;
}

unfoldable pub fs_init : Fs → Option Fs
fs_init fs =
    let super : ℕ → ℕ = λ i. getblock fs 0 (1024 + i) in
    let group = getblock fs (get32 super 20 + 1) in
    let fs' = clear_minodes (record fs {
      max_inodes = get32 super 0;
      max_blocks = get32 super 4;
      block_bitmap = get32 group 0;
      inode_bitmap = get32 group 4;
      inode_start = get32 group 8;
    }) in
    get_inode fs' 2 >>= λ (p, fs''). p >>= λ mip. some (record fs'' { root = minode fs'' mip })
