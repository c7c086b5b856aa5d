-- ===== src/Ext2/Alloc/Free.antt =====
-- Giving back what was taken.
use xern.Base.{
  ℕ, ◌+◌, ◌%◌, ◌^◌, ◌<◌, ◌≤◌, ◌≡◌, ap, subst, ◌∙◌, sym, arith, ◌==◌, leb, Bool, true, false, not,
  ◌&&◌, ◌||◌, some, ◌≢◌, scan, scan-First,
}
use xern.Bits.{tstbit, setbit, clrbit}
use xern.Bits.Maps.{IsBytes, tstbit-clrbit, setbit-IsBytes}
use xern.Ext2.{
  Fs, get16, get32, putblock, getblock, change_counts, down, up, alloc_block, dalloc_block,
  super_free_blocks, group_free_blocks,
}
use xern.Ext2.Counts.{super_count, group_count, change_counts-disk, up-down, up-down16}
use xern.Ext2.Alloc.{is_free, take, take-Taken, kept, map_block, count_super, count_group}

-- The step that both functions that give back take.
abbrev give : Fs → (map i s g : ℕ) → Fs
give fs map i s g = change_counts (putblock fs map (clrbit (getblock fs map) i)) s g (up 32) (up 16)

-- The map, the counts and all other blocks are the same.
pub record SameMap (fs fs' : Fs) (map s g : ℕ) : Type 0 where
  pub bits : (n : ℕ) → tstbit (fs'.disk map) n ≡ tstbit (fs.disk map) n
  pub super : super_count fs' s ≡ super_count fs s
  pub group : group_count fs' g ≡ group_count fs g
  pub others : (b : ℕ) → 2 ≤ b → b ≢ map → fs'.disk b ≡ fs.disk b

super_lt : (fs : Fs) (s : ℕ) → IsBytes (fs.disk 0) → super_count fs s < 2 ^ 32
unfolding get32
super_lt fs s h = omega (arith, h s, h (s + 1), h (s + 2), h (s + 3))

taken-IsBytes :
    (fs : Fs) (map i s g : ℕ)
    → 2 ≤ map
    → IsBytes (fs.disk map)
    → IsBytes ((take fs map i s g).disk map)
taken-IsBytes fs map i s g h bytes =
    subst IsBytes (sym (map_block fs map (setbit (fs.disk map) i) s g (down 32) (down 16) h))
      (setbit-IsBytes (fs.disk map) i bytes)

group_lt : (fs : Fs) (g : ℕ) → IsBytes (fs.disk 1) → group_count fs g < 2 ^ 16
unfolding get16
group_lt fs g h = omega (arith, h g, h (g + 1))

taken_back : (n i : ℕ) (b : ℕ → Bool) → not (b i) ≡ true → (not (n == i) && ((n == i) || b n)) ≡ b n
taken_back n i b f = ground (arith, f)

give-take :
    (fs : Fs) (map i s g : ℕ)
    → 2 ≤ map
    → IsBytes (fs.disk map)
    → IsBytes (fs.disk 0)
    → IsBytes (fs.disk 1)
    → is_free fs map i ≡ true
    → SameMap fs (give (take fs map i s g) map i s g) map s g
give-take fs map i s g h bytes b0 b1 free =
    let t = take-Taken fs map i s g h bytes in
    let fs' = take fs map i s g in
    let buf = clrbit (fs'.disk map) i in
    record {
      bits = λ n.
          ap (λ d. tstbit d n) (map_block fs' map buf s g (up 32) (up 16) h)
          ∙ (tstbit-clrbit (fs'.disk map) i n (taken-IsBytes fs map i s g h bytes)
              ∙ (ap (λ b. not (n == i) && b) (t.bits n)
                  ∙ taken_back n i (tstbit (fs.disk map)) free));
      super =
          count_super fs' map buf s g (up 32) (up 16) h
          ∙ (ap (λ c. up 32 c % 2 ^ 32) t.super ∙ up-down (super_count fs s) (super_lt fs s b0));
      group =
          count_group fs' map buf s g (up 32) (up 16) h
          ∙ (ap (λ c. up 16 c % 2 ^ 16) t.group ∙ up-down16 (group_count fs g) (group_lt fs g b1));
      others = λ b low ne.
          change_counts-disk (putblock fs' map buf) s g (up 32) (up 16) b low
          ∙ (kept fs' map buf b ne ∙ t.others b low ne);
    }

-- When there is a free block, the map of blocks stands in a block behind the first two and these blocks hold bytes,
-- giving back the block that `alloc_block` gave leaves every bit of the map, both counts and all
-- other blocks as they were.
pub dalloc_block-alloc_block :
    (fs : Fs) (i : ℕ)
    → 2 ≤ fs.block_bitmap
    → IsBytes (fs.disk fs.block_bitmap)
    → IsBytes (fs.disk 0)
    → IsBytes (fs.disk 1)
    → scan fs.max_blocks 0 (is_free fs fs.block_bitmap) ≡ some i
    → let (blk, fs') = alloc_block fs in
      SameMap fs (dalloc_block fs' blk) fs.block_bitmap super_free_blocks group_free_blocks
unfolding alloc_block dalloc_block change_counts
dalloc_block-alloc_block fs i h bytes b0 b1 e =
    let f = scan-First fs.max_blocks 0 (is_free fs fs.block_bitmap) e in
    rw (e, alloc_block, in_map fs.max_blocks i (omega (arith, f.within)), dalloc_block)
      (give-take fs fs.block_bitmap i super_free_blocks group_free_blocks h bytes b0 b1 f.passes)
  where
    in_map : (max i : ℕ) → i < max → leb max i ≡ false
    in_map max i h = ground arith
