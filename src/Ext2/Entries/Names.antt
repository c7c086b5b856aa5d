-- ===== src/Ext2/Entries/Names.antt =====
-- A name that `insert_child` puts into a directory is found there by `find_inode`.
pub mod Whole
use xern.Base.{
  ℕ, zero, suc, ◌+◌, ◌-◌, ◌^◌, ◌<◌, ◌≤◌, ◌≡◌, refl, ap, ◌∙◌, sym, subst, arith, ◌⊎◌, inl, inr, ◌≢◌,
  List, [], ◌∷◌, ◌++◌, length, take, ltb, leb, if◌then◌else◌, Option, none, some, Bool, true, false,
  Bool-cases, Option-cases, All, ◌==◌, ==-refl,
}
use xern.Kernel.{InodePtr}
use xern.Bits.{tstbit}
use xern.Bits.Maps.{IsBytes}
use xern.Permissions.{Inode}
use xern.Ext2.{Fs, blocksize, getblock, putblock, alloc_block, minode}
use xern.Ext2.Alloc.Fresh.{Fresh, alloc_block-Fresh}
use xern.Ext2.Cache.{get_inode}
use xern.Ext2.Writing.{with_block, zeros}
use xern.Ext2.Writing.Direct.{Marked}
use xern.Ext2.Lookup.{
  Visit, loops, found, absent, passed, then_visit, find_in_block, find_in_blocks, find_entry,
  find_inode, is_dir, rec_len,
}
use xern.Ext2.Entries.{
  Outcome, fault, returns, goes_on, insert_entry, insert_at, insert_direct, insert_child,
  fresh_block, grown, padded, put_entry, set_inode,
}
use xern.Ext2.Entries.Laid.{Dirent, At, Stand, Laid, total, put_entry-At}
use xern.Ext2.Entries.Added.{insert_entry-Added}
use xern.Ext2.Entries.Again.{
  Differs, find_in_block-found, At-same_name, find_once, remove-insert_entry, Stand-Misses,
}
use xern.Ext2.Entries.Removed.{Misses}

-- The bytes of a block are laid out in entries, and none of their names is a beginning of `name`.
abbrev pub Without : List ℕ → (ℕ → ℕ) → Type 0
Without name buf =
    (es : List Dirent) × (e : Dirent) × Laid buf (es ++ e ∷ []) × All (Differs name) (es ++ e ∷ [])

passes_by :
    (n : ℕ) (buf : ℕ → ℕ) (p : ℕ) (es : List Dirent) (name : List ℕ)
    → Stand buf p es
    → p + total es ≡ blocksize
    → blocksize ≤ p + n
    → Misses buf p es name
    → find_in_block (suc n) buf p name ≡ passed
unfolding find_in_block
passes_by n buf p [] name s t h m = ground (arith, t)
passes_by zero buf p (e ∷ es) name s t h m = absurd (omega (arith, s.0.room))
passes_by (suc n) buf p (e ∷ es) name s t h m =
    find_once (suc n) buf p name (omega (arith, s.0.room)) m.0
    ∙ (ap (λ q. find_in_block (suc n) buf q name) {x = p + rec_len buf p} {y = p + e.len}
          (omega (arith, s.0.len))
        ∙ passes_by n buf (p + e.len) es name s.1 (omega arith) (omega (arith, s.0.room)) m.1)

pub Without-passed :
    (buf : ℕ → ℕ) (name : List ℕ)
    → Without name buf
    → find_in_block (suc blocksize) buf 0 name ≡ passed
Without-passed buf name (es, e, l, d) =
    passes_by blocksize buf 0 (es ++ e ∷ []) name l.0 (omega (arith, l.1)) (omega arith)
      (Stand-Misses buf 0 (es ++ e ∷ []) name l.0 d)

-- The new block.
pub fresh_found :
    (child : ℕ) (name : List ℕ)
    → child < 2 ^ 32
    → length name ≤ 255
    → find_in_block (suc blocksize) (fresh_block child name) 0 name ≡ found child
fresh_found child name c n =
    let d : Dirent = record { ino = child; len = blocksize; name = name } in
    let at : At (fresh_block child name) 0 d =
      put_entry-At zeros 0 child blocksize name c (omega arith) n (omega arith) in
    find_in_block-found blocksize (fresh_block child name) 0 [] [] d name (at, tt) (omega arith)
      (omega arith) tt (At-same_name (fresh_block child name) 0 d at)

-- Blocks that are neither free nor among the directory's from place `i` on are left alone.
abbrev pub Kept : Fs → Inode → (i : ℕ) → Fs → Type 0
Kept fs ip i fs' =
    (b : ℕ)
    → 2 ≤ b
    → b ≢ fs.block_bitmap
    → tstbit (fs.disk fs.block_bitmap) b ≡ true
    → ((j : ℕ) → i ≤ j → j < 12 → ip.i_block j ≢ b)
    → fs'.disk b ≡ fs.disk b

-- What putting a name in from place `i` on, of `n` places, leaves.
pub record Put (fs : Fs) (ip : Inode) (i n child : ℕ) (name : List ℕ) (ip' : Inode) (fs' : Fs)
    : Type 0 where
  pub finds : find_in_blocks n fs' ip'.i_block i name ≡ found child
  pub places : (j : ℕ) → j < i → ip'.i_block j ≡ ip.i_block j
  pub mode : ip'.i_mode ≡ ip.i_mode
  pub kept : Kept fs ip i fs'

module _ (n : ℕ) (fs : Fs) (ip : Inode) (i child : ℕ) (name : List ℕ) where
  pub direct_full :
      (ip.i_block i == 0) ≡ true
      → (alloc_block fs).0 ≡ 0
      → insert_direct (suc n) fs ip i child name ≡ returns false ip (alloc_block fs).1
  unfolding insert_direct
  direct_full e z = rw (e, insert_direct, z) refl

  pub direct_new :
      (ip.i_block i == 0) ≡ true
      → ((alloc_block fs).0 == 0) ≡ false
      → insert_direct (suc n) fs ip i child name
        ≡ returns true
            (grown (with_block ip i (alloc_block fs).0))
            (putblock (alloc_block fs).1 (alloc_block fs).0 (fresh_block child name))
  unfolding insert_direct
  direct_new e z = rw (e, insert_direct, z) refl

  pub direct_room :
      (buf : ℕ → ℕ)
      → (ip.i_block i == 0) ≡ false
      → insert_entry (getblock fs (ip.i_block i)) child name ≡ some (some buf)
      → insert_direct (suc n) fs ip i child name ≡ returns true ip (putblock fs (ip.i_block i) buf)
  unfolding insert_direct insert_at
  direct_room buf e r = rw (e, insert_direct, insert_at, r) refl

  pub direct_on :
      (ip.i_block i == 0) ≡ false
      → insert_entry (getblock fs (ip.i_block i)) child name ≡ some none
      → insert_direct (suc n) fs ip i child name ≡ insert_direct n fs ip (suc i) child name
  unfolding insert_direct insert_at
  direct_on e r = rw (e, insert_direct, insert_at, r) refl

module _ (n : ℕ) (fs : Fs) (blocks : ℕ → ℕ) (i : ℕ) (name : List ℕ)
    (h : (blocks i == 0) ≡ false) where
  pub search_here :
      (c : ℕ)
      → find_in_block (suc blocksize) (getblock fs (blocks i)) 0 name ≡ found c
      → find_in_blocks (suc n) fs blocks i name ≡ found c
  unfolding find_in_blocks
  search_here c e = rw (h, find_in_blocks, e) refl

  pub search_on :
      find_in_block (suc blocksize) (getblock fs (blocks i)) 0 name ≡ passed
      → find_in_blocks (suc n) fs blocks i name ≡ find_in_blocks n fs blocks (suc i) name
  unfolding find_in_blocks
  search_on e = rw (h, find_in_blocks, e) refl
