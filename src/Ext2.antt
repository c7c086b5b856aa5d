-- ===== src/Ext2.antt =====
-- The file system on its card: blocks, inodes and the maps of what is taken, XERN/fs/utils.h with the
-- structures of XERN/include/ext2.h. `getblock` and `putblock` read and write a table of blocks of
-- bytes; numbers on it are little-endian. The block buffers are globals that are filled before they
-- are used, so what they hold in between is left out.
pub mod Codec
pub mod Cache
pub mod Counts
pub mod Alloc
pub mod Data
pub mod Reading
pub mod Writing
pub mod Lookup
pub mod Entries
use xern.Base.{
  ℕ, zero, suc, ◌+◌, ◌-◌, ◌*◌, ◌/◌, ◌%◌, ◌^◌, Bool, true, false, not, ◌&&◌, ◌||◌, Option, none,
  some, ◌==◌, ltb, leb, if◌then◌else◌, update, scan, ◌>>=◌, ℤ,
}
use xern.Bits.{tstbit, setbit, clrbit}
use xern.Kernel.{InodePtr, root_inode, minode_slot}
use xern.Permissions.{Inode}

abbrev pub blocksize : ℕ
blocksize = 2048

abbrev pub inodes_per_block : ℕ
inodes_per_block = 16

abbrev pub nminodes : ℕ
nminodes = 128

-- `struct minode`
pub record Minode : Type 0 where
  pub ino : ℕ
  pub refcount : ℤ
  pub inode : Inode

-- The card and the globals of the file system.
pub record Fs : Type 0 where
  pub disk : ℕ → ℕ → ℕ
  pub max_inodes : ℕ
  pub max_blocks : ℕ
  pub block_bitmap : ℕ
  pub inode_bitmap : ℕ
  pub inode_start : ℕ
  pub minodes : ℕ → Minode
  pub root : Minode

abbrev pub getblock : Fs → ℕ → ℕ → ℕ
getblock fs b = fs.disk b

abbrev pub putblock : Fs → ℕ → (ℕ → ℕ) → Fs
putblock fs b buf = record fs { disk = update fs.disk b buf }

-- Two and four bytes as a number, and back.
abbrev pub byte_of : ℕ → ℕ → ℕ
byte_of v n = v / 256 ^ n % 256

unfoldable pub get16 : (ℕ → ℕ) → ℕ → ℕ
get16 buf i = buf i + 256 * buf (i + 1)

unfoldable pub get32 : (ℕ → ℕ) → ℕ → ℕ
get32 buf i = buf i + 256 * buf (i + 1) + 65536 * buf (i + 2) + 16777216 * buf (i + 3)

unfoldable pub put16 : (ℕ → ℕ) → ℕ → ℕ → ℕ → ℕ
put16 buf i v k = if leb i k && ltb k (i + 2) then byte_of v (k - i) else buf k

unfoldable pub put32 : (ℕ → ℕ) → ℕ → ℕ → ℕ → ℕ
put32 buf i v k = if leb i k && ltb k (i + 4) then byte_of v (k - i) else buf k

-- The 128 bytes of an inode.
unfoldable pub inode_at : (ℕ → ℕ) → ℕ → Inode
inode_at buf p = record {
  i_mode = get16 buf p;
  i_uid = get16 buf (p + 2);
  i_size = get32 buf (p + 4);
  i_atime = get32 buf (p + 8);
  i_ctime = get32 buf (p + 12);
  i_mtime = get32 buf (p + 16);
  i_dtime = get32 buf (p + 20);
  i_gid = get16 buf (p + 24);
  i_links_count = get16 buf (p + 26);
  i_blocks = get32 buf (p + 28);
  i_flags = get32 buf (p + 32);
  i_osd1 = get32 buf (p + 36);
  i_block = λ j. get32 buf (p + 40 + 4 * j);
  i_pad = λ j. get32 buf (p + 100 + 4 * j);
  i_reserved = λ j. get32 buf (p + 120 + 4 * j);
}

unfoldable pub inode_byte : Inode → ℕ → ℕ
inode_byte ip k =
    if ltb k 2
    then byte_of ip.i_mode k
    else if ltb k 4
    then byte_of ip.i_uid (k - 2)
    else if ltb k 8
    then byte_of ip.i_size (k - 4)
    else if ltb k 12
    then byte_of ip.i_atime (k - 8)
    else if ltb k 16
    then byte_of ip.i_ctime (k - 12)
    else if ltb k 20
    then byte_of ip.i_mtime (k - 16)
    else if ltb k 24
    then byte_of ip.i_dtime (k - 20)
    else if ltb k 26
    then byte_of ip.i_gid (k - 24)
    else if ltb k 28
    then byte_of ip.i_links_count (k - 26)
    else if ltb k 32
    then byte_of ip.i_blocks (k - 28)
    else if ltb k 36
    then byte_of ip.i_flags (k - 32)
    else if ltb k 40
    then byte_of ip.i_osd1 (k - 36)
    else if ltb k 100
    then byte_of (ip.i_block ((k - 40) / 4)) ((k - 40) % 4)
    else if ltb k 120
    then byte_of (ip.i_pad ((k - 100) / 4)) ((k - 100) % 4)
    else byte_of (ip.i_reserved ((k - 120) / 4)) ((k - 120) % 4)

-- `memcpy` of an inode to byte `p` of a block.
unfoldable pub put_inode : (ℕ → ℕ) → ℕ → Inode → ℕ → ℕ
put_inode buf p ip k = if leb p k && ltb k (p + 128) then inode_byte ip (k - p) else buf k

-- The block of an inode on the card, and its place there. There is no inode 0.
abbrev pub inode_block : Fs → ℕ → ℕ
inode_block fs ino = (ino - 1) / inodes_per_block + fs.inode_start

abbrev pub inode_place : ℕ → ℕ
inode_place ino = 128 * ((ino - 1) % inodes_per_block)

-- The steps that save the inode of `mip` on the card.
unfoldable pub save_inode : Fs → Minode → Fs
save_inode fs mip =
    let b = inode_block fs mip.ino in
    putblock fs b (put_inode (getblock fs b) (inode_place mip.ino) mip.inode)

abbrev pub minode : Fs → InodePtr → Minode
minode fs root_inode = fs.root
minode fs (minode_slot i) = fs.minodes i

abbrev pub set_minode : Fs → InodePtr → Minode → Fs
set_minode fs root_inode mip = record fs { root = mip }
set_minode fs (minode_slot i) mip = record fs { minodes = update fs.minodes i mip }

-- The bytes of the four counts of free inodes and blocks: in block 0 behind HALF_BLOCKSIZE, and in block 1.
abbrev pub super_free_blocks : ℕ
super_free_blocks = 1024 + 12

abbrev pub super_free_inodes : ℕ
super_free_inodes = 1024 + 16

abbrev pub group_free_blocks : ℕ
group_free_blocks = 12

abbrev pub group_free_inodes : ℕ
group_free_inodes = 14

-- A count in the super block and one in the group descriptor, changed by `f` and `g`.
unfoldable pub change_counts : Fs → (s g : ℕ) → (ℕ → ℕ) → (ℕ → ℕ) → Fs
change_counts fs s g f f' =
    let fs' = putblock fs 0 (put32 (getblock fs 0) s (f (get32 (getblock fs 0) s))) in
    putblock fs' 1 (put16 (getblock fs' 1) g (f' (get16 (getblock fs' 1) g)))

-- `n--` and `n++` on `w` bits
abbrev pub down : ℕ → ℕ → ℕ
down w n = (n + 2 ^ w - 1) % 2 ^ w

abbrev pub up : ℕ → ℕ → ℕ
up w n = (n + 1) % 2 ^ w

abbrev pub dec_free_inodes : Fs → Fs
dec_free_inodes fs = change_counts fs super_free_inodes group_free_inodes (down 32) (down 16)

abbrev pub dec_free_blocks : Fs → Fs
dec_free_blocks fs = change_counts fs super_free_blocks group_free_blocks (down 32) (down 16)

abbrev pub inc_free_inodes : Fs → Fs
inc_free_inodes fs = change_counts fs super_free_inodes group_free_inodes (up 32) (up 16)

abbrev pub inc_free_blocks : Fs → Fs
inc_free_blocks fs = change_counts fs super_free_blocks group_free_blocks (up 32) (up 16)

-- The maps of inodes and of blocks are taken to fit their blocks, as those of at most 16384 inodes and blocks do: the code
-- would index the buffer of one block beyond its end, the model reads on in its table.
unfoldable pub alloc_inode : Fs → ℕ × Fs
alloc_inode fs =
    let buf = getblock fs fs.inode_bitmap in
    elim (scan fs.max_inodes 0 (λ i. not (tstbit buf i))) [
      | none ↦ (0, fs)
      | some i ↦ (i + 1, dec_free_inodes (putblock fs fs.inode_bitmap (setbit buf i)))
    ]

unfoldable pub alloc_block : Fs → ℕ × Fs
alloc_block fs =
    let buf = getblock fs fs.block_bitmap in
    elim (scan fs.max_blocks 0 (λ i. not (tstbit buf i))) [
      | none ↦ (0, fs)
      | some i ↦ (i, dec_free_blocks (putblock fs fs.block_bitmap (setbit buf i)))
    ]

-- `dalloc_inode` of a number that is not 0; 0 passes its guard and clears a bit before the map.
unfoldable pub dalloc_inode : Fs → ℕ → Option Fs
dalloc_inode fs ino =
    if ltb fs.max_inodes ino
    then some fs
    else if ino == 0
    then none
    else some (
        inc_free_inodes
          (putblock fs fs.inode_bitmap (clrbit (getblock fs fs.inode_bitmap) (ino - 1))))

unfoldable pub dalloc_block : Fs → ℕ → Fs
dalloc_block fs blk =
    if leb fs.max_blocks blk
    then fs
    else inc_free_blocks (putblock fs fs.block_bitmap (clrbit (getblock fs fs.block_bitmap) blk))
