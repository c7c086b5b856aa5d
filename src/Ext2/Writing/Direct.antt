-- ===== src/Ext2/Writing/Direct.antt =====
-- The first twelve blocks of a file: finding or allocating one for writing.
pub mod Pieces
pub mod Run
use xern.Base.{
  ℕ, ◌<◌, ◌≤◌, ◌≡◌, refl, sym, ap, ◌∙◌, subst, arith, ◌==◌, ltb, Bool, true, false, not, ◌||◌,
  Option, none, some, ◌≢◌, ◌⊎◌, inl, inr, Bool-cases, if◌then◌else◌, update, ==_iff,
}
use xern.Bits.{tstbit}
use xern.Bits.Maps.{IsBytes}
use xern.Permissions.{Inode}
use xern.Ext2.{Fs, alloc_block, putblock}
use xern.Ext2.Alloc.Fresh.{Fresh, alloc_block-Fresh}
use xern.Ext2.Writing.{direct_block, with_block, one_more}

-- The blocks that hold the counts, the map, and the inode of the file.
abbrev pub own : (map home b : ℕ) → Bool
own map home b = ltb b 2 || b == map || b == home

-- The map in block `map` holds bytes, its own blocks are taken in it, and the direct blocks of a file that are there
-- are taken, are none of these and are all different.
pub record Marked (disk : ℕ → ℕ → ℕ) (map home : ℕ) (blocks : ℕ → ℕ) : Type 0 where
  pub low : 2 ≤ map
  pub bytes : IsBytes (disk map)
  pub owned : (b : ℕ) → own map home b ≡ true → tstbit (disk map) b ≡ true
  pub apart : (j : ℕ) → j < 12 → blocks j ≢ 0 → own map home (blocks j) ≡ false
  pub taken : (j : ℕ) → j < 12 → blocks j ≢ 0 → tstbit (disk map) (blocks j) ≡ true
  pub distinct : (j k : ℕ) → j < 12 → k < 12 → blocks j ≢ 0 → blocks j ≡ blocks k → j ≡ k

-- The map and what it says depend on the map's block only.
pub Marked-disk :
    (disk disk' : ℕ → ℕ → ℕ) (map home : ℕ) (blocks : ℕ → ℕ)
    → disk' map ≡ disk map
    → Marked disk map home blocks
    → Marked disk' map home blocks
Marked-disk disk disk' map home blocks e m = record {
  low = m.low;
  bytes = subst IsBytes (sym e) m.bytes;
  owned = λ b h. ap (λ d. tstbit d b) e ∙ m.owned b h;
  apart = m.apart;
  taken = λ j l h. ap (λ d. tstbit d (blocks j)) e ∙ m.taken j l h;
  distinct = m.distinct;
}

-- Block `blk` was found for place `lbk` of the file.
pub record Placed (fs : Fs) (ip : Inode) (map home lbk blk : ℕ) (ip' : Inode) (fs' : Fs)
    : Type 0 where
  pub marked : Marked fs'.disk map home ip'.i_block
  pub place : fs'.block_bitmap ≡ map
  pub start : fs'.inode_start ≡ fs.inode_start
  pub found : ip'.i_block lbk ≡ blk
  pub mode : ip'.i_mode ≡ ip.i_mode
  pub kept : (j : ℕ) → j < 12 → ip.i_block j ≢ 0 → ip'.i_block j ≡ ip.i_block j
  pub same : (b : ℕ) → own map home b ≡ false → fs'.disk b ≡ fs.disk b

differ : (f : ℕ → Bool) (a b : ℕ) → f a ≡ true → f b ≡ false → a ≢ b
differ f a b t e same = ground (arith, t, e, same)

not_own : (map home b : ℕ) → own map home b ≡ false → (2 ≤ b) × (b ≢ map)
not_own map home b e = ground (arith, e)

module _ (fs fs' : Fs) (ip : Inode) (home lbk blk : ℕ) where
  -- A block that was free is none of those that are taken.
  Fresh-own :
      Marked fs.disk fs.block_bitmap home ip.i_block
      → Fresh fs fs' blk
      → own fs.block_bitmap home blk ≡ false
  Fresh-own m f = elim (Bool-cases (own fs.block_bitmap home blk)) [
    | inl e ↦ absurd (differ (tstbit (fs.disk fs.block_bitmap)) blk blk (m.owned blk e) f.free refl)
    | inr e ↦ e
  ]

  Fresh-other :
      Marked fs.disk fs.block_bitmap home ip.i_block
      → Fresh fs fs' blk
      → (j : ℕ) → j < 12
      → ip.i_block j ≢ 0
      → ip.i_block j ≢ blk
  Fresh-other m f j l h =
      differ (tstbit (fs.disk fs.block_bitmap)) (ip.i_block j) blk (m.taken j l h) f.free

  Fresh-Placed :
      lbk < 12
      → blk ≢ 0
      → ip.i_block lbk ≡ 0
      → Marked fs.disk fs.block_bitmap home ip.i_block
      → Fresh fs fs' blk
      → Placed fs ip fs.block_bitmap home lbk blk (one_more (with_block ip lbk blk)) fs'
  Fresh-Placed l nz hole m f = record {
    marked = record {
      low = m.low;
      bytes = f.bytes;
      owned = λ b h. ground (arith, f.bits b, m.owned b h);
      apart = λ j l' h. elim (Bool-cases (j == lbk)) [
        | inl e ↦ rw e (Fresh-own m f)
        | inr e ↦ rw e (m.apart j l' (rw e at h))
      ];
      taken = λ j l' h. elim (Bool-cases (j == lbk)) [
        | inl e ↦ rw e (ground (arith, f.bits blk))
        | inr e ↦ rw e (ground (arith, f.bits (ip.i_block j), m.taken j l' (rw e at h)))
      ];
      distinct = λ j k a b h e.
          ground (arith, h, e, m.distinct j k a b, Fresh-other m f j a, Fresh-other m f k b, hole);
    };
    place = f.place;
    start = f.start;
    found = ground arith;
    mode = refl;
    kept = λ j l' h. ground (arith, hole, h);
    same =
        λ b h. f.others b (not_own fs.block_bitmap home b h).0 (not_own fs.block_bitmap home b h).1;
  }

-- With the blocks of a file marked, the block that `direct_block` gives is placed when it is not 0.
pub direct_block-Placed :
    (fs : Fs) (ip : Inode) (home lbk : ℕ)
    → lbk < 12
    → Marked fs.disk fs.block_bitmap home ip.i_block
    → let (blk, ip', fs') = direct_block fs ip lbk in
      blk ≢ 0 → Placed fs ip fs.block_bitmap home lbk blk ip' fs'
unfolding direct_block
direct_block-Placed fs ip home lbk l m = elim (Bool-cases (ip.i_block lbk == 0)) [
  | inr e ↦
      rw (e, direct_block)
        (λ nz. record {
          marked = m;
          place = refl;
          start = refl;
          found = refl;
          mode = refl;
          kept = λ j l' h. refl;
          same = λ b h. refl;
        })
  | inl e ↦ elim (Bool-cases ((alloc_block fs).0 == 0)) [
    | inl e' ↦ rw (e, e', direct_block) (λ nz. absurd (nz refl))
    | inr e' ↦
        rw (e, e', direct_block)
          (λ nz.
            Fresh-Placed fs (alloc_block fs).1 ip home lbk (alloc_block fs).0 l nz
              ((==_iff (ip.i_block lbk) 0).0 e) m (alloc_block-Fresh fs m.low m.bytes nz))
  ]
]
