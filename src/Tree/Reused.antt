-- ===== src/Tree/Reused.antt =====
-- A slot of the table of inodes after `kunlink` or `krmdir`: XERN/fs/unlink.h and XERN/fs/rmdir.h with `get_inode`.
use xern.Base.{ℕ, ◌≡◌, ◌≢◌, false, Bool, ◌==◌, if◌then◌else◌, pos, is_zero, update, ◌<◌}
use xern.Kernel.{Kernel}
use xern.Ext2.{Fs, nminodes}

-- The test of the loop that frees a slot.
abbrev held_at : Fs → ℕ → ℕ → Bool
held_at fs ino i = if is_zero (fs.minodes i).refcount then false else (fs.minodes i).ino == ino

-- Slot `i` is the first that is used for the inode `ino`, all slots before it are used, and no used slot holds `other`.
pub record HeldFirst (fs : Fs) (ino other i : ℕ) : Type 0 where
  pub within : i < nminodes
  pub used : is_zero (fs.minodes i).refcount ≡ false
  pub holds : (fs.minodes i).ino ≡ ino
  pub before :
      (j : ℕ) → j < i → (is_zero (fs.minodes j).refcount ≡ false) × ((fs.minodes j).ino ≢ ino)
  pub apart :
      (j : ℕ) → j < nminodes → is_zero (fs.minodes j).refcount ≡ false → (fs.minodes j).ino ≢ other

module _ (fs : Fs) (ino other i : ℕ) (h : HeldFirst fs ino other i) where
  -- The table once `kunlink` or `krmdir` has let the inode go.
  abbrev freed : Fs
  freed = record fs { minodes = update fs.minodes i (record (fs.minodes i) { refcount = pos 0 }) }
