-- ===== src/Ext2/Cache/Saved.antt =====
-- An inode written to the card and read again: the last lines of `write_file` and of the handlers of
-- XERN/fs that change an inode, with `get_inode`.
use xern.Base.{ℕ, ◌+◌, ◌<◌, ◌≤◌, ◌≡◌, refl, false, none, some, ◌==◌, scan, arith, ◌≢◌, ==-refl}
use xern.Kernel.{minode_slot}
use xern.Permissions.{Inode}
use xern.Ext2.{
  Fs, Minode, nminodes, inode_block, inode_place, inode_at, put_inode, save_inode, getblock,
}
use xern.Ext2.Codec.{InRange, SameInode, inode_at-put_inode, inode_at-Same}
use xern.Ext2.Cache.{cached_at, free_at, load_minode, get_inode}

abbrev pub card_inode : Fs → ℕ → Inode
card_inode fs ino = inode_at (getblock fs (inode_block fs ino)) (inode_place ino)

-- Writing an inode back makes it the card's, up to the widths of its fields.
pub card-save :
    (fs : Fs) (mip : Minode)
    → InRange mip.inode
    → SameInode (card_inode (save_inode fs mip) mip.ino) mip.inode
unfolding save_inode
card-save fs mip r =
    rw (==-refl (inode_block fs mip.ino))
      (inode_at-put_inode (fs.disk (inode_block fs mip.ino)) (inode_place mip.ino) mip.inode r)

-- The bytes of the others are left alone.
other_byte :
    (fs : Fs) (mip : Minode) (ino k : ℕ)
    → 1 ≤ mip.ino
    → 1 ≤ ino
    → ino ≢ mip.ino
    → k < 128
    → getblock (save_inode fs mip) (inode_block fs ino) (inode_place ino + k)
      ≡ getblock fs (inode_block fs ino) (inode_place ino + k)
unfolding save_inode put_inode
other_byte fs mip ino k h h' ne l = ground arith

-- Writing an inode back leaves the card's copy of every inode with another number.
pub card-save_other :
    (fs : Fs) (mip : Minode) (ino : ℕ)
    → 1 ≤ mip.ino
    → 1 ≤ ino
    → ino ≢ mip.ino
    → SameInode (card_inode (save_inode fs mip) ino) (card_inode fs ino)
unfolding save_inode
card-save_other fs mip ino h h' ne =
    inode_at-Same (getblock (save_inode fs mip) (inode_block (save_inode fs mip) ino))
      (getblock fs (inode_block fs ino)) (inode_place ino)
      (λ k l. other_byte fs mip ino k h h' ne l)

-- When the inode of `mip`, whose numbers fit their fields, is written back, no slot of the table holds its
-- number and slot `i` is the first free one, then `get_inode` of the number fills that slot with the very same
-- inode.
pub get_inode-save_inode :
    (fs : Fs) (mip : Minode) (i : ℕ)
    → InRange mip.inode
    → 1 ≤ mip.ino
    → scan nminodes 0 (cached_at fs mip.ino) ≡ none
    → scan nminodes 0 (free_at fs) ≡ some i
    → (get_inode (save_inode fs mip) mip.ino
        ≡ some (some (minode_slot i), load_minode (save_inode fs mip) mip.ino i))
      × SameInode ((load_minode (save_inode fs mip) mip.ino i).minodes i).inode mip.inode
unfolding save_inode get_inode load_minode
get_inode-save_inode fs mip i r h none_held free =
    (rw (none_held, free, nonzero mip.ino h, get_inode) refl, rw (==-refl i) (card-save fs mip r))
  where
    nonzero : (n : ℕ) → 1 ≤ n → (n == 0) ≡ false
    nonzero n h = ground arith
