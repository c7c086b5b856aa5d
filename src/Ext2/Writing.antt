-- ===== src/Ext2/Writing.antt =====
-- Writing to a file: `write_file` of XERN/fs/file.h. The text is the caller's bytes before the NUL.
pub mod Paste
pub mod Direct
pub mod Reread
use xern.Base.{
  ℕ, zero, suc, ◌+◌, ◌-◌, ◌*◌, ◌/◌, ◌%◌, ◌^◌, min, Bool, true, false, not, ◌&&◌, ◌||◌, Option, none,
  some, List, [], ◌∷◌, ◌++◌, ◌==◌, ltb, leb, if◌then◌else◌, update, ◌>>=◌, ℤ, pos, minus_one,
  length, take, drop,
}
use xern.Kernel.{Kernel, Oft, InodePtr}
use xern.Files.{set_oft, curr_fd}
use xern.Permissions.{Inode}
use xern.Ext2.{
  Fs, Minode, blocksize, getblock, putblock, get32, put32, alloc_block, minode, set_minode,
  save_inode,
}
use xern.Ext2.Data.{Filing, entries, secs_per_blk, entry, round_len}

-- `fmip->inode.i_block[i] = blk`
abbrev pub with_block : Inode → ℕ → ℕ → Inode
with_block ip i blk = record ip { i_block = update ip.i_block i blk }

-- `fmip->inode.i_blocks += SECS_PER_BLK`
abbrev pub one_more : Inode → Inode
one_more ip = record ip { i_blocks = (ip.i_blocks + secs_per_blk) % 2 ^ 32 }

abbrev pub zeros : ℕ → ℕ
zeros k = 0

-- Entry `j` of the table in block `t` is stored as `blk`; `buf` is what was read of the table before.
abbrev pub store_entry : Fs → (t : ℕ) → (ℕ → ℕ) → (j blk : ℕ) → Fs
store_entry fs t buf j blk = putblock fs t (put32 buf (4 * j) blk)

-- The block is 0 where no block was left. First the direct blocks.
unfoldable pub direct_block : Fs → Inode → ℕ → ℕ × Inode × Fs
direct_block fs ip lbk =
    let (blk, fs') = alloc_block fs in
    if not (ip.i_block lbk == 0)
    then (ip.i_block lbk, ip, fs)
    else if blk == 0
    then (0, with_block ip lbk 0, fs')
    else (blk, one_more (with_block ip lbk blk), fs')

-- The table of block numbers that the inode names in its place `i`.
unfoldable pub table_block : Fs → Inode → ℕ → ℕ × Inode × Fs
table_block fs ip i =
    let (blk, fs') = alloc_block fs in
    if not (ip.i_block i == 0)
    then (ip.i_block i, ip, fs)
    else (blk, with_block ip i blk, if blk == 0 then fs' else putblock fs' blk zeros)

-- A second table, named by entry `j` of the one in block `t`.
unfoldable pub second_table : Fs → (t j : ℕ) → ℕ × Fs
second_table fs t j =
    let (blk, fs') = alloc_block fs in
    if not (entry fs t j == 0)
    then (entry fs t j, fs)
    else if blk == 0
    then (0, fs')
    else (blk, putblock (store_entry fs' t (getblock fs t) j blk) blk zeros)

-- The block of data named by entry `j` of a table.
unfoldable pub data_entry : Fs → Inode → (t j : ℕ) → ℕ × Inode × Fs
data_entry fs ip t j =
    let (blk, fs') = alloc_block fs in
    if not (entry fs t j == 0)
    then (entry fs t j, ip, fs)
    else if blk == 0
    then (0, ip, fs')
    else (blk, one_more ip, store_entry fs' t (getblock fs t) j blk)

unfoldable pub indirect_block : Fs → Inode → ℕ → ℕ × Inode × Fs
indirect_block fs ip l =
    let (t, ip', fs') = table_block fs ip 12 in
    if t == 0 then (0, ip', fs') else data_entry fs' ip' t l

unfoldable pub double_block : Fs → Inode → ℕ → ℕ × Inode × Fs
double_block fs ip l =
    let (t, ip', fs') = table_block fs ip 13 in
    let (d, fs'') = second_table fs' t (l / entries) in
    if t == 0
    then (0, ip', fs')
    else if d == 0
    then (0, ip', fs'')
    else data_entry fs'' ip' d (l % entries)

unfoldable pub place_block : Fs → Inode → ℕ → ℕ × Inode × Fs
place_block fs ip lbk =
    if ltb lbk 12
    then direct_block fs ip lbk
    else if ltb lbk (entries + 12)
    then indirect_block fs ip (lbk - 12)
    else double_block fs ip (lbk - (12 + entries))

-- `memcpy` to place `start` of a block.
unfoldable pub paste : (ℕ → ℕ) → ℕ → List ℕ → ℕ → ℕ
paste buf start [] = buf
paste buf start (c ∷ s) = paste (update buf start c) (suc start) s

-- The loop of `write_file`: whether every block was found, the bytes written, the inode and the card. A round
-- writes at least a byte, so fuel `n` is enough.
unfoldable pub write_run : ℕ → Fs → Inode → List ℕ → (n offset : ℕ) → Bool × ℕ × Inode × Fs
write_run zero fs ip text n offset = (true, 0, ip, fs)
write_run (suc fuel) fs ip text n offset = elim (n == 0 || length text == 0) [
  | true ↦ (true, 0, ip, fs)
  | false ↦
      let (blk, ip', fs') = place_block fs ip (offset / blocksize) in
      let len = round_len n (length text) offset in
      let fs'' = putblock fs' blk (paste (getblock fs' blk) (offset % blocksize) (take len text)) in
      let (ok, m, ip'', done) = write_run fuel fs'' ip' (drop len text) (n - len) (offset + len) in
      if blk == 0 then (false, 0, ip', fs') else (ok, len + m, ip'', done)
]

-- What follows the loop. When no block was left, the inode in memory keeps what was entered, but neither the
-- offset nor the card's inode follows.
unfoldable pub write_done : Filing → (o : ℕ) → InodePtr → Bool × ℕ × Inode × Fs → ℤ × Filing
write_done s o p (true, m, ip, fs') =
    let f = s.kernel.open_file_table o in
    let mip = record (minode s.fs p) { inode = record ip { i_size = f.offset + m } } in
    (
      pos m,
      record {
        kernel = set_oft s.kernel o (record f { offset = f.offset + m });
        fs = save_inode (set_minode fs' p mip) mip;
      },
    )
write_done s o p (false, m, ip, fs') =
    (minus_one, record s { fs = set_minode fs' p (record (minode s.fs p) { inode = ip }) })

-- A negative `count` does as 0.
unfoldable pub write_file : Filing → (fd : ℕ) → List ℕ → (count : ℕ) → Option (ℤ × Filing)
write_file s fd text count = curr_fd s.kernel fd >>= λ o.
    let f = s.kernel.open_file_table o in
    f.m_ptr >>= λ p.
    some (write_done s o p (write_run count s.fs (minode s.fs p).inode text count f.offset))
