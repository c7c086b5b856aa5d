-- ===== src/Ext2/Alloc/Fresh.antt =====
-- A block that `alloc_block` gave, as its callers use it.
use xern.Base.{
  ℕ, ◌≤◌, ◌≡◌, refl, sym, subst, ◌==◌, Bool, true, false, not, ◌||◌, ◌≢◌, inl, inr, scan,
  scan-First, Option-cases,
}
use xern.Bits.{tstbit, setbit}
use xern.Bits.Maps.{IsBytes, setbit-IsBytes}
use xern.Ext2.{Fs, change_counts, alloc_block, super_free_blocks, group_free_blocks, down}
use xern.Ext2.Alloc.{is_free, take-Taken, map_block}

-- The block was free and is taken; the map and the inodes stay in their places, the map holds bytes, and no block of the card but the first
-- two and the map changed.
pub record Fresh (fs fs' : Fs) (blk : ℕ) : Type 0 where
  pub free : tstbit (fs.disk fs.block_bitmap) blk ≡ false
  pub place : fs'.block_bitmap ≡ fs.block_bitmap
  pub start : fs'.inode_start ≡ fs.inode_start
  pub bits :
      (n : ℕ)
      → tstbit (fs'.disk fs.block_bitmap) n ≡ ((n == blk) || tstbit (fs.disk fs.block_bitmap) n)
  pub bytes : IsBytes (fs'.disk fs.block_bitmap)
  pub others : (b : ℕ) → 2 ≤ b → b ≢ fs.block_bitmap → fs'.disk b ≡ fs.disk b

clear : (b : Bool) → not b ≡ true → b ≡ false
clear true e = cc
clear false e = refl

pub alloc_block-Fresh :
    (fs : Fs)
    → 2 ≤ fs.block_bitmap
    → IsBytes (fs.disk fs.block_bitmap)
    → (alloc_block fs).0 ≢ 0
    → Fresh fs (alloc_block fs).1 (alloc_block fs).0
unfolding alloc_block change_counts
alloc_block-Fresh fs h bytes ne =
    let map = fs.block_bitmap in
    elim (Option-cases (scan fs.max_blocks 0 (is_free fs map))) [
      | inl e ↦ absurd (ne (rw (e, alloc_block) refl))
      | inr (i, e) ↦
          let t = take-Taken fs map i super_free_blocks group_free_blocks h bytes in
          rw (e, alloc_block)
            (record {
              free =
                  clear (tstbit (fs.disk map) i)
                    (scan-First fs.max_blocks 0 (is_free fs map) e).passes;
              place = refl;
              start = refl;
              bits = t.bits;
              bytes =
                  subst IsBytes
                    (sym (
                      map_block fs map (setbit (fs.disk map) i) super_free_blocks group_free_blocks
                        (down 32) (down 16) h))
                    (setbit-IsBytes (fs.disk map) i bytes);
              others = t.others;
            })
    ]
