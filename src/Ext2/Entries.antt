-- ===== src/Ext2/Entries.antt =====
-- Putting entries into directories and taking them out: XERN/fs/modentry.h. Places in a block are bytes from its start;
-- what a block's table holds from byte 2048 on is not part of it. `file_type` of an entry keeps what stood there.
pub mod Laid
pub mod Added
pub mod Moved
pub mod Removed
pub mod Again
pub mod Names
pub mod Gaps
use xern.Base.{
  ℕ, zero, suc, ◌+◌, ◌-◌, ◌*◌, ◌/◌, ◌%◌, ◌^◌, Bool, true, false, ◌&&◌, Option, none, some, List,
  ◌==◌, ltb, leb, if◌then◌else◌, update, ◌>>=◌, length, take,
}
use xern.Kernel.{InodePtr}
use xern.Permissions.{Inode}
use xern.Ext2.{
  Fs, blocksize, getblock, putblock, get32, put16, put32, alloc_block, dalloc_block, minode,
  set_minode,
}
use xern.Ext2.Data.{entries, entry}
use xern.Ext2.Writing.{with_block, zeros, paste}
use xern.Ext2.Lookup.{rec_len, name_len, same_name}

-- The bytes that an entry with a name of `n` bytes needs.
abbrev pub padded : ℕ → ℕ
padded n = 4 * ((8 + n + 3) / 4)

-- The loop to the last entry of a block. An entry of length 0 stays where it is: `none`.
unfoldable pub last_entry : ℕ → (ℕ → ℕ) → ℕ → Option ℕ
last_entry zero buf p = none
last_entry (suc n) buf p =
    let rest = last_entry n buf (p + rec_len buf p) in
    if leb blocksize (p + rec_len buf p) then some p else rest

-- The fields of an entry at place `p`; its name fits in a byte's count.
unfoldable pub put_entry : (ℕ → ℕ) → (p child len : ℕ) → List ℕ → ℕ → ℕ
put_entry buf p child len name =
    paste (update (put16 (put32 buf p child) (p + 4) len) (p + 6) (length name % 256)) (p + 8) name

-- A new block with one entry.
abbrev pub fresh_block : ℕ → List ℕ → ℕ → ℕ
fresh_block child name = put_entry zeros 0 child blocksize name

-- One block: `none` is an endless loop, or a write behind the block; `some none` means that there is no room.
unfoldable pub insert_entry : (ℕ → ℕ) → ℕ → List ℕ → Option (Option (ℕ → ℕ))
insert_entry buf child name = last_entry blocksize buf 0 >>= λ p.
    let ideal = padded (name_len buf p) in
    let q = p + ideal in
    if leb (padded (length name) + ideal) (rec_len buf p)
    then (if ltb blocksize (q + 8 + length name)
        then none
        else some (some (put_entry (put16 buf (p + 4) ideal) q child (rec_len buf p - ideal) name)))
    else some none

-- What going through the blocks of a directory comes to: a fault, a result with the inode and the card, or going on.
pub data Outcome : Type 0 where
  fault : Outcome
  returns : Bool → Inode → Fs → Outcome
  goes_on : Inode → Fs → Outcome

abbrev pub then_on : Outcome → (Inode → Fs → Outcome) → Outcome
then_on fault next = fault
then_on (returns ok ip fs) next = returns ok ip fs
then_on (goes_on ip fs) next = next ip fs

-- `i_size += BLOCKSIZE` and `i_size -= BLOCKSIZE`
abbrev pub grown : Inode → Inode
grown ip = record ip { i_size = (ip.i_size + blocksize) % 2 ^ 32 }

abbrev pub shrunk : Inode → Inode
shrunk ip = record ip { i_size = (ip.i_size + 2 ^ 32 - blocksize) % 2 ^ 32 }

-- A block that holds entries already, and what follows where it has no room.
unfoldable pub insert_at :
    Fs → Inode → (blk child : ℕ) → List ℕ → (next : Inode → Fs → Outcome) → Outcome
insert_at fs ip blk child name next = elim (insert_entry (getblock fs blk) child name) [
  | none ↦ fault
  | some none ↦ next ip fs
  | some (some buf) ↦ returns true ip (putblock fs blk buf)
]

-- The direct blocks.
unfoldable pub insert_direct : ℕ → Fs → Inode → (i child : ℕ) → List ℕ → Outcome
insert_direct zero fs ip i child name = goes_on ip fs
insert_direct (suc n) fs ip i child name = elim (ip.i_block i == 0) [
  | true ↦
      let (blk, fs') = alloc_block fs in
      if blk == 0
      then returns false ip fs'
      else returns true (grown (with_block ip i blk)) (putblock fs' blk (fresh_block child name))
  | false ↦
      insert_at fs ip (ip.i_block i) child name
        (λ ip' fs'. insert_direct n fs' ip' (suc i) child name)
]

-- The blocks of a table. A new one is entered in the copy of the table in memory, which is not written back.
unfoldable pub insert_listed : ℕ → Fs → Inode → (ℕ → ℕ) → (i child : ℕ) → List ℕ → Outcome
insert_listed zero fs ip blocks i child name = goes_on ip fs
insert_listed (suc n) fs ip blocks i child name = elim (blocks i == 0) [
  | true ↦
      let (blk, fs') = alloc_block fs in
      if blk == 0
      then returns false ip fs'
      else returns true (grown ip) (putblock fs' blk (fresh_block child name))
  | false ↦
      insert_at fs ip (blocks i) child name
        (λ ip' fs'. insert_listed n fs' ip' blocks (suc i) child name)
]

unfoldable pub insert_indirect : Fs → Inode → ℕ → List ℕ → Outcome
insert_indirect fs ip child name =
    let (blk, fs') = alloc_block fs in
    let fs'' = putblock fs' blk zeros in
    if ip.i_block 12 == 0
    then (if blk == 0
        then returns false ip fs'
        else insert_listed entries fs'' (with_block ip 12 blk) (entry fs'' blk) 0 child name)
    else insert_listed entries fs ip (entry fs (ip.i_block 12)) 0 child name

-- The tables of the double indirect block. A new one is not entered on the card either.
unfoldable pub insert_tables : ℕ → Fs → Inode → (ℕ → ℕ) → (i child : ℕ) → List ℕ → Outcome
insert_tables zero fs ip tables i child name = goes_on ip fs
insert_tables (suc n) fs ip tables i child name =
    let on : Inode → Fs → Outcome = λ ip' fs'. insert_tables n fs' ip' tables (suc i) child name in
    let (blk, fs') = alloc_block fs in
    let fs'' = putblock fs' blk zeros in
    elim (tables i == 0) [
      | true ↦
          if blk == 0
          then returns false ip fs'
          else then_on (insert_listed entries fs'' ip (entry fs'' blk) 0 child name) on
      | false ↦ then_on (insert_listed entries fs ip (entry fs (tables i)) 0 child name) on
    ]

-- The test is the other way round than that of the indirect block: a double indirect block that is there is replaced by
-- a new one, and where there is none block 0 is read for it.
unfoldable pub insert_double : Fs → Inode → ℕ → List ℕ → Outcome
insert_double fs ip child name =
    let (blk, fs') = alloc_block fs in
    let fs'' = putblock fs' blk zeros in
    if ip.i_block 13 == 0
    then insert_tables entries fs ip (entry fs 0) 0 child name
    else if blk == 0
    then returns false ip fs'
    else insert_tables entries fs'' (with_block ip 13 blk) (entry fs'' blk) 0 child name

-- The inode in memory keeps what was changed.
abbrev pub set_inode : Fs → InodePtr → Inode → Fs
set_inode fs p ip = set_minode fs p (record (minode fs p) { inode = ip })

abbrev pub ended : InodePtr → Outcome → Option (Bool × Fs)
ended p fault = none
ended p (returns ok ip fs) = some (ok, set_inode fs p ip)
ended p (goes_on ip fs) = some (false, set_inode fs p ip)

unfoldable pub insert_child : Fs → InodePtr → (child : ℕ) → List ℕ → Option (Bool × Fs)
insert_child fs p child entry_name =
    let name = take 255 entry_name in
    ended p (
      then_on (insert_direct 12 fs (minode fs p).inode 0 child name) λ ip' fs'.
        then_on (insert_indirect fs' ip' child name)
          λ ip'' fs''. insert_double fs'' ip'' child name)

-- What the search for an entry in one block comes to: `stuck` in an endless loop or a move of bytes behind the block,
-- `missed` without a match, `alone` when the entry fills the block, and otherwise the block without it.
pub data Removal : Type 0 where
  stuck : Removal
  missed : Removal
  alone : Removal
  left : (ℕ → ℕ) → Removal

-- `entry->rec_len += n`
abbrev pub lengthen : (ℕ → ℕ) → (p n : ℕ) → ℕ → ℕ
lengthen buf p n = put16 buf (p + 4) (rec_len buf p + n)

-- `memmove` of what stands behind `del` bytes at place `p`.
unfoldable pub move_down : (ℕ → ℕ) → (p del : ℕ) → ℕ → ℕ
move_down buf p del k = if leb p k && ltb k (blocksize - del) then buf (k + del) else buf k

-- The entry at place `p`, behind the one at `prev`. The first of a block that ends there fills it, so `prev` is read only
-- where there is one.
unfoldable pub drop_entry : (ℕ → ℕ) → (prev p : ℕ) → Removal
drop_entry buf prev p =
    let del = rec_len buf p in
    if del == blocksize
    then alone
    else if p + del == blocksize
    then left (lengthen buf prev del)
    else elim (last_entry blocksize buf 0) [
      | none ↦ stuck
      | some l ↦
          if ltb blocksize (p + del) then stuck else left (move_down (lengthen buf l del) p del)
    ]

unfoldable pub remove_entry : ℕ → (ℕ → ℕ) → (prev p : ℕ) → List ℕ → Removal
remove_entry zero buf prev p name = stuck
remove_entry (suc n) buf prev p name =
    let rest = remove_entry n buf p (p + rec_len buf p) name in
    if leb blocksize p then missed else if same_name buf p name then drop_entry buf prev p else rest

unfoldable pub remove_direct : ℕ → Fs → Inode → (i : ℕ) → List ℕ → Outcome
remove_direct zero fs ip i name = goes_on ip fs
remove_direct (suc n) fs ip i name = elim (ip.i_block i == 0) [
  | true ↦ returns false ip fs
  | false ↦
      let blk = ip.i_block i in
      elim (remove_entry (suc blocksize) (getblock fs blk) 0 0 name) [
        | stuck ↦ fault
        | missed ↦ remove_direct n fs ip (suc i) name
        | alone ↦ returns true (shrunk (with_block ip i 0)) (dalloc_block fs blk)
        | left buf ↦ returns true ip (putblock fs blk buf)
      ]
]

-- The blocks of the table in block `t`, whose bytes are `table`.
unfoldable pub remove_listed : ℕ → Fs → Inode → (t : ℕ) → (ℕ → ℕ) → (i : ℕ) → List ℕ → Outcome
remove_listed zero fs ip t table i name = goes_on ip fs
remove_listed (suc n) fs ip t table i name =
    let blk = get32 table (4 * i) in
    elim (blk == 0) [
      | true ↦ returns false ip fs
      | false ↦ elim (remove_entry (suc blocksize) (getblock fs blk) 0 0 name) [
        | stuck ↦ fault
        | missed ↦ remove_listed n fs ip t table (suc i) name
        | alone ↦
            returns true (shrunk ip) (putblock (dalloc_block fs blk) t (put32 table (4 * i) 0))
        | left buf ↦ returns true ip (putblock fs blk buf)
      ]
    ]

unfoldable pub remove_tables : ℕ → Fs → Inode → (ℕ → ℕ) → (i : ℕ) → List ℕ → Outcome
remove_tables zero fs ip tables i name = goes_on ip fs
remove_tables (suc n) fs ip tables i name = elim (tables i == 0) [
  | true ↦ returns false ip fs
  | false ↦
      then_on (remove_listed entries fs ip (tables i) (getblock fs (tables i)) 0 name)
        λ ip' fs'. remove_tables n fs' ip' tables (suc i) name
]

unfoldable pub remove_indirect : Fs → Inode → List ℕ → Outcome
remove_indirect fs ip name =
    let t = ip.i_block 12 in
    if t == 0 then returns false ip fs else remove_listed entries fs ip t (getblock fs t) 0 name

unfoldable pub remove_double : Fs → Inode → List ℕ → Outcome
remove_double fs ip name =
    if ip.i_block 13 == 0
    then returns false ip fs
    else remove_tables entries fs ip (entry fs (ip.i_block 13)) 0 name

unfoldable pub remove_child : Fs → InodePtr → List ℕ → Option (Bool × Fs)
remove_child fs p name = ended p (
    then_on (remove_direct 12 fs (minode fs p).inode 0 name)
      λ ip' fs'. then_on (remove_indirect fs' ip' name) λ ip'' fs''. remove_double fs'' ip'' name)
