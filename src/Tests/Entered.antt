-- ===== src/Tests/Entered.antt =====
-- The theorems on entries of directories at a card with one directory.
use xern.Base.{
  ℕ, ◌<◌, ◌≡◌, ◌≢◌, refl, ◌⊎◌, inl, inr, List, [], ◌∷◌, arith, ◌==◌, ◌&&◌, if◌then◌else◌, true, All,
  some, none, pos, zero, suc, Option, ◌+◌,
}
use xern.Kernel.{root_inode, minode_slot}
use xern.Bits.{tstbit, test_bit}
use xern.Permissions.{Inode}
use xern.Ext2.{Fs, get16, get32, blocksize, alloc_block}
use xern.Ext2.Data.{entry}
use xern.Ext2.Lookup.{same_name, same_bytes, find_in_blocks, absent}
use xern.Base.{scan}
use xern.Ext2.Writing.Paste.{nth}
use xern.Ext2.Writing.Direct.{Marked, own}
use xern.Ext2.Entries.{
  insert_entry, last_entry, insert_listed, remove_direct, remove_entry, returns,
}
use xern.Ext2.Entries.Laid.{Dirent, Laid}
use xern.Ext2.Entries.Added.{Added, insert_entry-Added}
use xern.Ext2.Entries.Removed.{Removed, remove_entry-Removed}
use xern.Ext2.Entries.Again.{Differs, FoundAgain, remove-insert_entry}
use xern.Ext2.Entries.Names.{Without}
use xern.Ext2.Entries.Names.Whole.{Entered, find_inode-insert_child}
use xern.Ext2.Entries.Gaps.{insert_listed-loses, remove_direct-hides}
use xern.Strings.Terminated.{IsText}
use xern.Ext2.Cache.{get_inode}
use xern.Ext2.{getblock}
use xern.Ext2.Lookup.{found}
use xern.Tree.{Sys}
use xern.Tree.Cwd.{getname}
use xern.Tree.Cwd.Child.{Lacks, HasChild, direct, getname-HasChild}
use xern.Tests.{demo}
use xern.Tests.Filed.{card, small_file}

-- A block with one entry, "a" for inode 12.
abbrev pub one_block : ℕ → ℕ
one_block k =
    if k == 0 then 12 else if k == 5 then 8 else if k == 6 then 1 else if k == 8 then 97 else 0

abbrev one : Dirent
one = record { ino = 12; len = 2048; name = 97 ∷ [] }

abbrev name : List ℕ
name = 99 ∷ 100 ∷ []

one-Laid : Laid one_block (one ∷ [])
unfolding get16 get32
one-Laid = (
  (record { ino = refl; len = refl; size = refl; name = λ i l. first i l; room = omega arith }, tt),
  omega arith,
)
  where
    first : (i : ℕ) → i < 1 → one_block (0 + 8 + i) ≡ nth (97 ∷ []) i
    first zero l = refl
    first (suc i) l = absurd (omega arith)

insert_entry-Added_example : Added one_block [] one 13 name
insert_entry-Added_example =
    insert_entry-Added one_block [] one 13 name one-Laid (omega arith) (omega arith)

-- The same block behind the entry "cd" for inode 13.
abbrev two_block : ℕ → ℕ
two_block k =
    if k == 0
    then 12
    else if k == 4
    then 12
    else if k == 6
    then 1
    else if k == 8
    then 97
    else if k == 12
    then 13
    else if k == 16
    then 244
    else if k == 17
    then 7
    else if k == 18
    then 2
    else if k == 20
    then 99
    else if k == 21
    then 100
    else 0

abbrev first : Dirent
first = record { ino = 12; len = 12; name = 97 ∷ [] }

abbrev second : Dirent
second = record { ino = 13; len = 2036; name = name }

two-Laid : Laid two_block (first ∷ second ∷ [])
unfolding get16 get32
two-Laid = (
  (
    record { ino = refl; len = refl; size = refl; name = λ i l. a_name i l; room = omega arith },
    (
      record { ino = refl; len = refl; size = refl; name = λ i l. cd_name i l; room = omega arith },
      tt,
    ),
  ),
  omega arith,
)
  where
    a_name : (i : ℕ) → i < 1 → two_block (0 + 8 + i) ≡ nth (97 ∷ []) i
    a_name zero l = refl
    a_name (suc i) l = absurd (omega arith)

    cd_name : (i : ℕ) → i < 2 → two_block (0 + 12 + 8 + i) ≡ nth name i
    cd_name zero l = refl
    cd_name (suc zero) l = refl
    cd_name (suc (suc i)) l = absurd (omega arith)

hits : same_name two_block 0 (97 ∷ []) ≡ true
unfolding same_name same_bytes
hits = refl

remove_entry-Removed_example :
    Removed [] first (second ∷ []) (remove_entry (suc blocksize) two_block 0 0 (97 ∷ []))
remove_entry-Removed_example =
    remove_entry-Removed two_block [] (second ∷ []) first (97 ∷ []) two-Laid tt hits

abbrev block_of : Option (Option (ℕ → ℕ)) → ℕ → ℕ
block_of none = one_block
block_of (some none) = one_block
block_of (some (some buf)) = buf

abbrev inserted : ℕ → ℕ
inserted = block_of (insert_entry one_block 13 name)

went_in : insert_entry one_block 13 name ≡ some (some inserted)
unfolding insert_entry last_entry get16
went_in = refl

one-Differs : All (Differs name) (one ∷ [])
one-Differs = ((0, omega arith, omega arith), tt)

remove-insert_entry_example : FoundAgain one_block [] one 13 name inserted
remove-insert_entry_example =
    remove-insert_entry one_block [] one 13 name inserted one-Laid (omega arith) (omega arith)
      went_in one-Differs

-- A card on which block 7 is that of the root directory; of the first eight blocks, 6 is free.
abbrev root_dir : Inode
root_dir = record small_file { i_mode = 0o040755; i_block = λ j. if j == 0 then 7 else 0 }

abbrev pub dir_card : Fs
dir_card = record card {
  disk = λ b. if b == 7 then one_block else λ k. if b == 3 && k == 0 then 191 else 0;
  root = record { ino = 2; refcount = pos 1; inode = root_dir };
}

dir_card-Marked : Marked dir_card.disk 3 4 root_dir.i_block
unfolding tstbit test_bit
dir_card-Marked = record {
  low = omega arith;
  bytes = λ i. ground arith;
  owned = λ b h. own_taken b (own_ones b h);
  apart = λ j l h. ground (arith, h);
  taken = λ j l h. dir_taken j h;
  distinct = λ j k a b h e. ground (arith, h, e);
}
  where
    own_ones : (b : ℕ) → own 3 4 b ≡ true → ((b ≡ 0) ⊎ (b ≡ 1)) ⊎ ((b ≡ 3) ⊎ (b ≡ 4))
    own_ones b h = ground (arith, h)

    own_taken :
        (b : ℕ) → ((b ≡ 0) ⊎ (b ≡ 1)) ⊎ ((b ≡ 3) ⊎ (b ≡ 4)) → tstbit (dir_card.disk 3) b ≡ true
    own_taken b (inl (inl e)) = rw e refl
    own_taken b (inl (inr e)) = rw e refl
    own_taken b (inr (inl e)) = rw e refl
    own_taken b (inr (inr e)) = rw e refl

    seven : (j : ℕ) → root_dir.i_block j ≢ 0 → root_dir.i_block j ≡ 7
    seven j h = ground (arith, h)

    dir_taken :
        (j : ℕ) → root_dir.i_block j ≢ 0 → tstbit (dir_card.disk 3) (root_dir.i_block j) ≡ true
    dir_taken j h = rw (seven j h) refl

dir_card-Without :
    (j : ℕ) → j < 12 → root_dir.i_block j ≢ 0 → Without name (dir_card.disk (root_dir.i_block j))
dir_card-Without j l h = at (root_dir.i_block j) (ground (arith, h))
  where
    at : (b : ℕ) → b ≡ 7 → Without name (dir_card.disk b)
    at b e = rw e ([], one, one-Laid, one-Differs)

find_inode-insert_child_example : Entered dir_card root_inode 13 name
find_inode-insert_child_example =
    find_inode-insert_child dir_card root_inode 4 13 1 name refl dir_card-Marked dir_card-Without
      (omega arith) refl (omega arith) (omega arith)

six_free : (alloc_block dir_card).0 ≡ 6
unfolding alloc_block scan tstbit test_bit
six_free = refl

five_taken : tstbit (dir_card.disk 3) 5 ≡ true
unfolding tstbit test_bit
five_taken = refl

empty_table : entry dir_card 5 0 ≡ 0
unfolding get32
empty_table = refl

-- Block 5 as a table with no entry.
insert_listed-loses_example :
    (ip' : Inode) × (fs' : Fs) × (insert_listed 512 dir_card root_dir (entry dir_card 5) 0 13 name
      ≡ returns true ip' fs')
    × ((other : List ℕ) → find_in_blocks 512 fs' (entry fs' 5) 0 other ≡ absent)
insert_listed-loses_example =
    insert_listed-loses 511 dir_card root_dir 5 0 13 name (omega arith) (λ i. ground arith)
      (omega arith) (omega arith) five_taken empty_table (λ e. omega (arith, six_free))

-- A directory of two blocks: "a", and behind it "a" and "cd".
abbrev pub long_dir : Inode
long_dir = record small_file {
  i_mode = 0o040755;
  i_block = λ j. if j == 0 then 7 else if j == 1 then 8 else 0;
}

abbrev pub long_card : Fs
long_card = record dir_card {
  disk = λ b. if b == 8 then two_block else dir_card.disk b;
  minodes = λ i.
      if i == 1 then record { ino = 2; refcount = pos 1; inode = long_dir } else card.minodes i;
}

is_only : same_name one_block 0 (97 ∷ []) ≡ true
unfolding same_name same_bytes
is_only = refl

remove_direct-hides_example :
    (find_in_blocks 12 long_card long_dir.i_block 0 name ≡ found 13)
    × ((ip' : Inode) × (fs' : Fs) × (remove_direct 11 long_card long_dir 0 (97 ∷ [])
          ≡ returns true ip' fs')
        × ((j : ℕ) → 0 < j → ip'.i_block j ≡ long_dir.i_block j)
        × ((later : Fs) (other : List ℕ) → find_in_blocks 12 later ip'.i_block 0 other ≡ absent))
remove_direct-hides_example =
    remove_direct-hides 10 long_card long_dir 0 (97 ∷ []) one second (first ∷ []) [] (omega arith)
      (omega arith) one-Laid is_only (0, omega arith, omega arith) two-Laid
      ((0, omega arith, omega arith), tt)

abbrev long_sys : Sys
long_sys = record { kernel = demo; fs = long_card; dirnames = λ i. [] }

directory_there : get_inode long_card 2 ≡ some (some (minode_slot 1), long_card)
unfolding get_inode scan
directory_there = refl

long-HasChild : HasChild long_card long_dir second
long-HasChild = direct 1 (record {
  within = omega arith;
  there = λ j l. ground (arith, l);
  before = λ j l. at_zero j l;
  here = (first ∷ [], [], two-Laid, (omega arith, tt));
})
  where
    lack_one : Lacks 13 one_block
    lack_one = (one ∷ [], one-Laid, (omega arith, tt))

    at_zero : (j : ℕ) → j < 1 → Lacks 13 (getblock long_card (long_dir.i_block j))
    at_zero zero l = lack_one
    at_zero (suc j) l = absurd (omega (arith, l))

name-IsText : IsText name
name-IsText = (omega arith, (omega arith, tt))

getname-HasChild_example :
    getname 2 13 long_sys ≡ some (some name, record long_sys { fs = long_card })
getname-HasChild_example =
    getname-HasChild long_sys 2 (minode_slot 1) long_card second directory_there long-HasChild
      name-IsText
