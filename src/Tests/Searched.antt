-- ===== src/Tests/Searched.antt =====
-- The theorems on directories at a card with one.
use xern.Base.{ℕ, refl, ◌%◌, ◌≡◌, ◌≢◌, arith, ◌==◌, if◌then◌else◌}
use xern.Permissions.{Inode}
use xern.Ext2.{Fs, get16, get32}
use xern.Ext2.Lookup.{loops, find_entry}
use xern.Ext2.Lookup.Ends.{Linked, at_end, then_next, IsDirectory, find_entry-ends}
use xern.Tests.Filed.{card, small_file, text}

-- A directory with one block, 7, which one entry for inode 12 fills, with a name of one byte. The byte of the padding behind it
-- is left from a longer name.
abbrev dir_block : ℕ → ℕ
dir_block k =
    if k == 0
    then 12
    else if k == 5
    then 8
    else if k == 6
    then 1
    else if k == 8
    then 97
    else if k == 9
    then 98
    else 0

-- Block 0 has the numbers of a super block in it.
abbrev dir_card : Fs
dir_card = record card {
  disk = λ b. if b == 7 then dir_block else if b == 0 then (λ k. k % 256) else card.disk b;
}

abbrev dir_inode : Inode
dir_inode = record small_file { i_block = λ j. if j == 0 then 7 else 0 }

dir-IsDirectory : IsDirectory dir_card dir_inode
unfolding get16 get32
dir-IsDirectory = record {
  direct = λ i l h. linked_at (dir_inode.i_block i) (seven i h);
  indirect = λ n. absurd (n refl);
  double = λ n. absurd (n refl);
}
  where
    seven : (i : ℕ) → dir_inode.i_block i ≢ 0 → dir_inode.i_block i ≡ 7
    seven i h = ground (arith, h)

    linked : Linked dir_block 0
    linked = then_next (omega arith) (at_end (omega arith))

    linked_at : (b : ℕ) → b ≡ 7 → Linked (dir_card.disk b) 0
    linked_at b e = rw e linked

find_entry-ends_example : find_entry dir_card dir_inode text ≢ loops
find_entry-ends_example = find_entry-ends dir_card dir_inode text dir-IsDirectory
