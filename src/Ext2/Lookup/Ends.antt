-- ===== src/Ext2/Lookup/Ends.antt =====
-- Going through a directory ends.
use xern.Base.{
  ℕ, zero, suc, ◌+◌, ◌<◌, ◌≤◌, ◌≡◌, ◌≢◌, refl, arith, Bool, true, false, ◌==◌, leb, Bool-cases, inl,
  inr, List, if◌then◌else◌,
}
use xern.Permissions.{Inode}
use xern.Ext2.{Fs, blocksize, getblock}
use xern.Ext2.Data.{entries, entry}
use xern.Ext2.Lookup.{
  Visit, loops, found, absent, passed, rec_len, same_name, find_in_block, find_in_blocks,
  find_in_tables, find_entry, then_visit,
}

-- From place `p` on, entries that are not empty follow each other to the end of the block.
pub data Linked (buf : ℕ → ℕ) : ℕ → Type 0 where
  at_end : {p : ℕ} → blocksize ≤ p → Linked buf p
  then_next : {p : ℕ} → 1 ≤ rec_len buf p → Linked buf (p + rec_len buf p) → Linked buf p

-- The blocks of a directory are linked: the direct ones, and those that its tables name, where it has them.
pub record IsDirectory (fs : Fs) (ip : Inode) : Type 0 where
  pub direct : (i : ℕ) → i < 12 → ip.i_block i ≢ 0 → Linked (getblock fs (ip.i_block i)) 0
  pub indirect :
      ip.i_block 12 ≢ 0
      → (i : ℕ) → i < entries
      → entry fs (ip.i_block 12) i ≢ 0
      → Linked (getblock fs (entry fs (ip.i_block 12) i)) 0
  pub double :
      ip.i_block 13 ≢ 0
      → (i j : ℕ) → i < entries
      → entry fs (ip.i_block 13) i ≢ 0
      → j < entries
      → entry fs (entry fs (ip.i_block 13) i) j ≢ 0
      → Linked (getblock fs (entry fs (entry fs (ip.i_block 13) i) j)) 0

passed_ends : passed ≢ loops
passed_ends e = cc

absent_ends : absent ≢ loops
absent_ends e = cc

found_ends : (ino : ℕ) → found ino ≢ loops
found_ends ino e = cc

-- A round ends if the rest does.
round_ends :
    (past same : Bool) (ino : ℕ) (rest : Visit)
    → (past ≡ false → rest ≢ loops)
    → (if past then passed else if same then found ino else rest) ≢ loops
round_ends true same ino rest h = passed_ends
round_ends false true ino rest h = found_ends ino
round_ends false false ino rest h = h refl

block_ends :
    (buf : ℕ → ℕ) (n p : ℕ) (name : List ℕ)
    → blocksize ≤ p + n
    → Linked buf p
    → find_in_block (suc n) buf p name ≢ loops
unfolding find_in_block
block_ends buf n p name h (at_end e) =
    round_ends (leb blocksize p) (same_name buf p name) _ _ (λ no. absurd (ground (arith, no, e)))
block_ends buf zero p name h (then_next e l) =
    round_ends (leb blocksize p) (same_name buf p name) _ _ (λ no. absurd (ground (arith, no, h)))
block_ends buf (suc n) p name h (then_next e l) =
    round_ends (leb blocksize p) (same_name buf p name) _ _
      (λ no. block_ends buf n (p + rec_len buf p) name (omega arith) l)

then_ends : (v w : Visit) → v ≢ loops → w ≢ loops → then_visit v w ≢ loops
then_ends passed w a b = b
then_ends loops w a b = absurd (a refl)
then_ends (found ino) w a b = a
then_ends absent w a b = a

blocks_end :
    (n : ℕ) (fs : Fs) (blocks : ℕ → ℕ) (i : ℕ) (name : List ℕ)
    → ((j : ℕ) → j < i + n → blocks j ≢ 0 → Linked (getblock fs (blocks j)) 0)
    → find_in_blocks n fs blocks i name ≢ loops
unfolding find_in_blocks
blocks_end zero fs blocks i name h = passed_ends
blocks_end (suc n) fs blocks i name h = elim (Bool-cases (blocks i == 0)) [
  | inl e ↦ rw (e, find_in_blocks) absent_ends
  | inr e ↦
      rw (e, find_in_blocks)
        (then_ends (find_in_block (suc blocksize) (getblock fs (blocks i)) 0 name) _
          (block_ends (getblock fs (blocks i)) blocksize 0 name (omega arith)
            (h i (omega arith) (λ z. absurd (ground (arith, e, z)))))
          (blocks_end n fs blocks (suc i) name (λ j l. h j (omega (arith, l)))))
]

tables_end :
    (n : ℕ) (fs : Fs) (tables : ℕ → ℕ) (i : ℕ) (name : List ℕ)
    → ((k j : ℕ)
        → k < i + n
        → tables k ≢ 0
        → j < entries
        → entry fs (tables k) j ≢ 0
        → Linked (getblock fs (entry fs (tables k) j)) 0)
    → find_in_tables n fs tables i name ≢ loops
unfolding find_in_tables
tables_end zero fs tables i name h = passed_ends
tables_end (suc n) fs tables i name h = elim (Bool-cases (tables i == 0)) [
  | inl e ↦
      rw (e, find_in_tables)
        (tables_end n fs tables (suc i) name (λ k j l. h k j (omega (arith, l))))
  | inr e ↦
      rw (e, find_in_tables)
        (then_ends (find_in_blocks entries fs (entry fs (tables i)) 0 name) _
          (blocks_end entries fs (entry fs (tables i)) 0 name
            (λ j l. h i j (omega arith) (λ z. absurd (ground (arith, e, z))) (omega (arith, l))))
          (tables_end n fs tables (suc i) name (λ k j l. h k j (omega (arith, l)))))
]

unless_ends : (b : ℕ) (v : Visit) → (b ≢ 0 → v ≢ loops) → (if b == 0 then passed else v) ≢ loops
unless_ends b v h = elim (Bool-cases (b == 0)) [
  | inl none_there ↦ rw none_there passed_ends
  | inr there ↦ rw there (h (λ z. absurd (ground (arith, there, z))))
]

-- In a directory whose blocks are filled with entries that are not empty, the first twelve that it has and those that its
-- tables name, where it has tables, the search of `find_inode` for a name ends.
pub find_entry-ends :
    (fs : Fs) (ip : Inode) (name : List ℕ) → IsDirectory fs ip → find_entry fs ip name ≢ loops
unfolding find_entry
find_entry-ends fs ip name d =
    then_ends (find_in_blocks 12 fs ip.i_block 0 name) _
      (blocks_end 12 fs ip.i_block 0 name (λ j l. d.direct j (omega (arith, l))))
      (then_ends _ _
        (unless_ends (ip.i_block 12) _ (λ n.
          blocks_end entries fs (entry fs (ip.i_block 12)) 0 name
            (λ j l. d.indirect n j (omega (arith, l)))))
        (unless_ends (ip.i_block 13) _ (λ n.
          tables_end entries fs (entry fs (ip.i_block 13)) 0 name
            (λ k j l. d.double n k j (omega (arith, l))))))
