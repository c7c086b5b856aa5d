-- ===== src/Ext2/Alloc.antt =====
-- Taking inodes and blocks from the maps and giving them back: `alloc_inode`, `alloc_block`,
-- `dalloc_inode` and `dalloc_block` of XERN/fs/utils.h.
pub mod Free
pub mod Fresh
use xern.Base.{
  ℕ, ◌+◌, ◌-◌, ◌*◌, ◌/◌, ◌%◌, ◌^◌, ◌<◌, ◌≤◌, ◌≡◌, refl, ap, ◌∙◌, sym, arith, ◌==◌, ltb, leb, update,
  Bool, true, false, not, ◌&&◌, ◌||◌, Option, none, some, ◌⊎◌, inl, inr, ◌≢◌, scan, First,
  NoneBefore, scan-First, scan-none, Option-cases, ==-refl, Bool-cases,
}
use xern.Bits.{tstbit, setbit, clrbit}
use xern.Bits.Maps.{IsBytes, tstbit-setbit, tstbit-clrbit, setbit-IsBytes}
use xern.Ext2.{
  Fs, byte_of, get16, get32, put16, put32, getblock, putblock, change_counts, down, up, alloc_block,
  alloc_inode, super_free_blocks, super_free_inodes, group_free_blocks, group_free_inodes,
}
use xern.Ext2.Counts.{
  super_count, group_count, change_counts-super, change_counts-group, change_counts-disk, up-down,
  up-down16,
}

-- Bit `n` of the map in block `map` is clear.
abbrev pub is_free : Fs → (map n : ℕ) → Bool
is_free fs map n = not (tstbit (fs.disk map) n)

-- From `fs` to `fs'` bit `i` of the map is taken, the two counts went down by one on their widths and no other
-- block of the card changed.
pub record Taken (fs fs' : Fs) (map i s g : ℕ) : Type 0 where
  pub bits : (n : ℕ) → tstbit (fs'.disk map) n ≡ ((n == i) || tstbit (fs.disk map) n)
  pub super : super_count fs' s ≡ down 32 (super_count fs s)
  pub group : group_count fs' g ≡ down 16 (group_count fs g)
  pub others : (b : ℕ) → 2 ≤ b → b ≢ map → fs'.disk b ≡ fs.disk b

-- The step that both take.
abbrev pub take : Fs → (map i s g : ℕ) → Fs
take fs map i s g =
    change_counts (putblock fs map (setbit (getblock fs map) i)) s g (down 32) (down 16)

pub kept :
    (fs : Fs) (map : ℕ) (buf : ℕ → ℕ) (b : ℕ) → b ≢ map → (putblock fs map buf).disk b ≡ fs.disk b
kept fs map buf b h = ground arith

put : (fs : Fs) (map : ℕ) (buf : ℕ → ℕ) → (putblock fs map buf).disk map ≡ buf
put fs map buf = ground arith

pub count_super :
    (fs : Fs) (map : ℕ) (buf : ℕ → ℕ) (s g : ℕ) (f f' : ℕ → ℕ)
    → 2 ≤ map
    → super_count (change_counts (putblock fs map buf) s g f f') s ≡ f (super_count fs s) % 2 ^ 32
count_super fs map buf s g f f' h =
    change_counts-super (putblock fs map buf) s g f f'
    ∙ ap (λ d. f (get32 d s) % 2 ^ 32) (kept fs map buf 0 (λ e. omega arith))

pub count_group :
    (fs : Fs) (map : ℕ) (buf : ℕ → ℕ) (s g : ℕ) (f f' : ℕ → ℕ)
    → 2 ≤ map
    → group_count (change_counts (putblock fs map buf) s g f f') g ≡ f' (group_count fs g) % 2 ^ 16
count_group fs map buf s g f f' h =
    change_counts-group (putblock fs map buf) s g f f'
    ∙ ap (λ d. f' (get16 d g) % 2 ^ 16) (kept fs map buf 1 (λ e. omega arith))

pub map_block :
    (fs : Fs) (map : ℕ) (buf : ℕ → ℕ) (s g : ℕ) (f f' : ℕ → ℕ)
    → 2 ≤ map
    → (change_counts (putblock fs map buf) s g f f').disk map ≡ buf
map_block fs map buf s g f f' h =
    change_counts-disk (putblock fs map buf) s g f f' map h ∙ put fs map buf

pub take-Taken :
    (fs : Fs) (map i s g : ℕ)
    → 2 ≤ map
    → IsBytes (fs.disk map)
    → Taken fs (take fs map i s g) map i s g
take-Taken fs map i s g h bytes = record {
  bits = λ n.
      ap (λ d. tstbit d n) (map_block fs map (setbit (fs.disk map) i) s g (down 32) (down 16) h)
      ∙ tstbit-setbit (fs.disk map) i n bytes;
  super = count_super fs map (setbit (fs.disk map) i) s g (down 32) (down 16) h ∙ omega arith;
  group = count_group fs map (setbit (fs.disk map) i) s g (down 32) (down 16) h ∙ omega arith;
  others = λ b low ne.
      change_counts-disk (putblock fs map (setbit (fs.disk map) i)) s g (down 32) (down 16) b low
      ∙ kept fs map (setbit (fs.disk map) i) b ne;
}

-- What is given for a map of `max` bits: 0 and no change when all are taken, and otherwise the first free
-- bit, which is taken. `num` is the number that bit `i` stands for.
abbrev pub Allocated : Fs → (map max s g : ℕ) (num : ℕ → ℕ) → ℕ × Fs → Type 0
Allocated fs map max s g num (r, fs') =
    (NoneBefore (is_free fs map) 0 max × (r ≡ 0) × (fs' ≡ fs))
    ⊎ ((i : ℕ) × First (is_free fs map) max 0 i × (r ≡ num i) × Taken fs fs' map i s g)

all_taken :
    (fs : Fs) (map max : ℕ) → scan max 0 (is_free fs map) ≡ none → NoneBefore (is_free fs map) 0 max
all_taken fs map max e j low high = scan-none max 0 (is_free fs map) e j low (omega arith)

-- With the map of blocks in a block behind the first two that holds bytes, `alloc_block` gives 0 and changes
-- nothing when all blocks are taken; otherwise it gives the first free block, takes that bit of the map and no
-- other, takes the two counts down by one on 32 and 16 bits and leaves the other blocks of the card alone.
pub alloc_block-Allocated :
    (fs : Fs)
    → 2 ≤ fs.block_bitmap
    → IsBytes (fs.disk fs.block_bitmap)
    → Allocated fs fs.block_bitmap fs.max_blocks super_free_blocks group_free_blocks
        (λ i. i)
        (alloc_block fs)
unfolding alloc_block
alloc_block-Allocated fs h bytes =
    elim (Option-cases (scan fs.max_blocks 0 (is_free fs fs.block_bitmap))) [
      | inl e ↦ rw (e, alloc_block) (inl (all_taken fs fs.block_bitmap fs.max_blocks e, refl, refl))
      | inr (i, e) ↦
          rw (e, alloc_block)
            (inr (
              i,
              scan-First _ 0 (is_free fs fs.block_bitmap) e,
              refl,
              take-Taken fs fs.block_bitmap i super_free_blocks group_free_blocks h bytes,
            ))
    ]

-- The same of `alloc_inode` with the map of inodes; bit `i` stands for inode `i + 1`.
pub alloc_inode-Allocated :
    (fs : Fs)
    → 2 ≤ fs.inode_bitmap
    → IsBytes (fs.disk fs.inode_bitmap)
    → Allocated fs fs.inode_bitmap fs.max_inodes super_free_inodes group_free_inodes
        (λ i. i + 1)
        (alloc_inode fs)
unfolding alloc_inode
alloc_inode-Allocated fs h bytes =
    elim (Option-cases (scan fs.max_inodes 0 (is_free fs fs.inode_bitmap))) [
      | inl e ↦ rw (e, alloc_inode) (inl (all_taken fs fs.inode_bitmap fs.max_inodes e, refl, refl))
      | inr (i, e) ↦
          rw (e, alloc_inode)
            (inr (
              i,
              scan-First _ 0 (is_free fs fs.inode_bitmap) e,
              refl,
              take-Taken fs fs.inode_bitmap i super_free_inodes group_free_inodes h bytes,
            ))
    ]
