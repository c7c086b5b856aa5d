-- ===== src/Tests/Filed.antt =====
-- The theorems on files at a card of 64 blocks: the map of blocks in block 3, the inodes from block 4 on, and a
-- file with one block, 5.
use xern.Base.{
  ℕ, ltb, ◌%◌, ◌*◌, Bool-cases, ◌≡◌, refl, ◌∷◌, [], ◌++◌, List, some, none, Option, arith, ℤ, pos,
  if◌then◌else◌, ◌==◌, ◌&&◌, min, length, scan, ◌⊎◌, inl, inr, true, ◌≢◌,
}
use xern.Kernel.{minode_slot}
use xern.Permissions.{Inode}
use xern.Bits.{tstbit, test_bit}
use xern.Bits.Maps.{IsBytes}
use xern.Ext2.{
  Fs, Minode, get32, minode, alloc_block, dalloc_block, save_inode, nminodes, super_free_blocks,
  group_free_blocks,
}
use xern.Files.{set_oft}
use xern.Ext2.Alloc.{Allocated, alloc_block-Allocated, is_free}
use xern.Ext2.Alloc.Free.{SameMap, dalloc_block-alloc_block}
use xern.Ext2.Cache.Copies.{OneCopy, Served, get_inode-Served}
use xern.Ext2.Cache.Saved.{get_inode-save_inode}
use xern.Ext2.Codec.{InRange, SameInode}
use xern.Ext2.Cache.{get_inode, load_minode, cached_at, free_at}
use xern.Ext2.Data.{Filing, read_file, bytes_from}
use xern.Ext2.Reading.{read_file-Sliced, IsContent, direct, indirect, double}
use xern.Ext2.Writing.{write_file, write_run, write_done, place_block, direct_block}
use xern.Ext2.Writing.Direct.{Marked, own}
use xern.Ext2.Writing.Reread.{reread, reread-write_file}
use xern.Tests.{demo, demo_ofts}

-- An inode of a regular file of 2048 bytes.
abbrev pub small_file : Inode
small_file = record {
  i_mode = 0x81A4;
  i_uid = 0;
  i_size = 2048;
  i_atime = 0;
  i_ctime = 0;
  i_mtime = 0;
  i_dtime = 0;
  i_gid = 0;
  i_links_count = 1;
  i_blocks = 4;
  i_flags = 0;
  i_osd1 = 0;
  i_block = λ j. if j == 0 then 5 else 0;
  i_pad = λ j. 0;
  i_reserved = λ j. 0;
}

abbrev small_minode : Minode
small_minode = record { ino = 11; refcount = pos 1; inode = small_file }

abbrev free_minode : Minode
free_minode = record { ino = 0; refcount = pos 0; inode = small_file }

abbrev pub card : Fs
card = record {
  disk = λ b k. if b == 3 && k == 0 then 63 else 0;
  max_inodes = 64;
  max_blocks = 64;
  block_bitmap = 3;
  inode_bitmap = 2;
  inode_start = 4;
  minodes = λ i. if i == 0 then small_minode else free_minode;
  root = free_minode;
}

-- Descriptor 0 is the file, two bytes before the end of its block.
abbrev filing : Filing
filing = record {
  kernel = record demo {
    open_file_table = λ i. record (demo_ofts i) { m_ptr = some (minode_slot 0); offset = 2046 };
  };
  fs = card;
}

card-IsBytes : (b : ℕ) → IsBytes (card.disk b)
card-IsBytes b i = ground arith

card-Marked : Marked card.disk 3 4 small_file.i_block
unfolding tstbit test_bit
card-Marked = record {
  low = omega arith;
  bytes = card-IsBytes 3;
  owned = λ b h. own_taken b (own_ones b h);
  apart = λ j l h. ground (arith, h);
  taken = λ j l h. file_taken j h;
  distinct = λ j k a b h e. ground (arith, h, e);
}
  where
    own_ones : (b : ℕ) → own 3 4 b ≡ true → ((b ≡ 0) ⊎ (b ≡ 1)) ⊎ ((b ≡ 3) ⊎ (b ≡ 4))
    own_ones b h = ground (arith, h)

    own_taken : (b : ℕ) → ((b ≡ 0) ⊎ (b ≡ 1)) ⊎ ((b ≡ 3) ⊎ (b ≡ 4)) → tstbit (card.disk 3) b ≡ true
    own_taken b (inl (inl e)) = rw e refl
    own_taken b (inl (inr e)) = rw e refl
    own_taken b (inr (inl e)) = rw e refl
    own_taken b (inr (inr e)) = rw e refl

    five : (j : ℕ) → small_file.i_block j ≢ 0 → small_file.i_block j ≡ 5
    five j h = ground (arith, h)

    file_taken :
        (j : ℕ) → small_file.i_block j ≢ 0 → tstbit (card.disk 3) (small_file.i_block j) ≡ true
    file_taken j h = rw (five j h) refl

abbrev pub text : List ℕ
text = 72 ∷ 105 ∷ 33 ∷ []

abbrev state_of : Option (ℤ × Filing) → Filing
state_of none = filing
state_of (some (r, s)) = s

-- Three bytes: two into block 5 and one into a new block.
abbrev after : Filing
after = state_of (write_file filing 0 text 3)

wrote : write_file filing 0 text 3 ≡ some (pos 3, after)
unfolding write_file write_run write_done place_block direct_block alloc_block scan tstbit test_bit
wrote = refl

reread-write_file_example :
    (3 ≡ min 3 (length text)) × (reread after 0 2046 3 ≡ some (3, text ++ (0 ∷ [])))
reread-write_file_example =
    reread-write_file filing after 0 3 3 0 text (minode_slot 0) (omega arith) refl refl refl
      (omega arith) card-Marked wrote

after-InRange : InRange (minode after.fs (minode_slot 0)).inode
unfolding write_file write_run write_done place_block direct_block alloc_block scan tstbit test_bit
    save_inode
after-InRange = record {
  mode = omega arith;
  uid = omega arith;
  size = omega arith;
  atime = omega arith;
  ctime = omega arith;
  mtime = omega arith;
  dtime = omega arith;
  gid = omega arith;
  links = omega arith;
  blocks = omega arith;
  flags = omega arith;
  osd1 = omega arith;
  block = λ j l. ground arith;
  pad = λ j l. omega arith;
  reserved = λ j l. omega arith;
}

-- The same with the bytes of the file in block 5.
abbrev read_card : Fs
read_card = record card { disk = λ b k. if b == 5 then k % 256 else card.disk b k }

abbrev reading : Filing
reading = record filing { fs = read_card }

abbrev file_bytes : ℕ → ℕ
file_bytes i = if ltb i 2048 then i % 256 else 0

no_numbers : (t j : ℕ) → (t ≡ 0) → get32 (read_card.disk t) (4 * j) ≡ 0
unfolding get32
no_numbers t j e = rw e refl

read_card-IsContent : IsContent read_card small_file file_bytes
read_card-IsContent l b k (direct m h) low = elim (Bool-cases (l == 0)) [
  | inl first ↦ ground (arith, first, low)
  | inr other ↦ ground (arith, other, low)
]
read_card-IsContent l b k (indirect j h) low = rw (no_numbers 0 j refl) (ground (arith, low))
read_card-IsContent l b k (double i j h h') low =
    rw (no_numbers 0 i refl, no_numbers 0 j refl) (ground (arith, low))

-- Five bytes are asked for, and two are there.
read_file-Sliced_example :
    read_file reading 0 5
    ≡ some (
      2,
      bytes_from 2 file_bytes 2046 ++ (0 ∷ []),
      record reading {
        kernel =
            set_oft reading.kernel 0 (record (reading.kernel.open_file_table 0) { offset = 2048 });
      },
    )
read_file-Sliced_example =
    read_file-Sliced reading 0 5 0 (minode_slot 0) file_bytes refl refl read_card-IsContent
      (omega arith)

alloc_block-Allocated_example :
    Allocated card 3 64 super_free_blocks group_free_blocks (λ i. i) (alloc_block card)
alloc_block-Allocated_example = alloc_block-Allocated card (omega arith) (card-IsBytes 3)

first_free : scan 64 0 (is_free card 3) ≡ some 6
unfolding scan tstbit test_bit
first_free = refl

dalloc_block-alloc_block_example :
    SameMap card
      (dalloc_block (alloc_block card).1 (alloc_block card).0)
      3
      super_free_blocks
      group_free_blocks
dalloc_block-alloc_block_example =
    dalloc_block-alloc_block card 6 (omega arith) (card-IsBytes 3) (card-IsBytes 0) (card-IsBytes 1)
      first_free

card-OneCopy : OneCopy card
card-OneCopy i j ino a b c d = ground (arith, c, d)

get_inode-Served_example : Served 11 (get_inode card 11)
get_inode-Served_example = get_inode-Served card 11 card-OneCopy (omega arith)

-- Inode 12 is on the card only.
abbrev changed : Minode
changed = record { ino = 12; refcount = pos 1; inode = small_file }

small-InRange : InRange small_file
small-InRange = record {
  mode = omega arith;
  uid = omega arith;
  size = omega arith;
  atime = omega arith;
  ctime = omega arith;
  mtime = omega arith;
  dtime = omega arith;
  gid = omega arith;
  links = omega arith;
  blocks = omega arith;
  flags = omega arith;
  osd1 = omega arith;
  block = λ j l. ground arith;
  pad = λ j l. omega arith;
  reserved = λ j l. omega arith;
}

not_cached : scan nminodes 0 (cached_at card 12) ≡ none
unfolding scan
not_cached = refl

free_slot : scan nminodes 0 (free_at card) ≡ some 1
unfolding scan
free_slot = refl

get_inode-save_inode_example :
    (get_inode (save_inode card changed) 12
      ≡ some (some (minode_slot 1), load_minode (save_inode card changed) 12 1))
    × SameInode ((load_minode (save_inode card changed) 12 1).minodes 1).inode small_file
get_inode-save_inode_example =
    get_inode-save_inode card changed 1 small-InRange (omega arith) not_cached free_slot
