-- ===== src/Ext2/Entries/Gaps.antt =====
-- Where the tables of a directory and its entries come apart: a gap at which `find_inode` stops.
use xern.Base.{
  ℕ, suc, ◌+◌, [], ◌∷◌, ◌++◌, All, inl, inr, ◌*◌, ◌<◌, ◌≤◌, ◌≡◌, refl, ap, ◌∙◌, arith, ◌≢◌, List,
  true, false, ◌==◌,
}
use xern.Bits.{tstbit}
use xern.Bits.Maps.{IsBytes}
use xern.Permissions.{Inode}
use xern.Ext2.{Fs, blocksize, getblock, putblock, get32, alloc_block, dalloc_block}
use xern.Ext2.Alloc.Fresh.{alloc_block-Fresh}
use xern.Ext2.Data.{entry}
use xern.Ext2.Writing.{with_block}
use xern.Ext2.Lookup.{absent, found, same_name, find_in_block, find_in_blocks, then_visit}
use xern.Ext2.Entries.Laid.{Dirent, Laid, total, Stand-init, Stand-rest}
use xern.Ext2.Entries.Removed.{remove_entry-Removed}
use xern.Ext2.Entries.Again.{Differs, At-same_name, Stand-Misses, find_in_block-found}
use xern.Ext2.Entries.Names.{Without-passed}
use xern.Ext2.Entries.{
  returns, insert_listed, remove_direct, remove_entry, alone, grown, shrunk, fresh_block,
}

stops :
    (n : ℕ) (fs : Fs) (blocks : ℕ → ℕ) (i : ℕ) (name : List ℕ)
    → blocks i ≡ 0
    → find_in_blocks (suc n) fs blocks i name ≡ absent
unfolding find_in_blocks
stops n fs blocks i name e = rw (e, find_in_blocks) refl

listed_new :
    (n : ℕ) (fs : Fs) (ip : Inode) (blocks : ℕ → ℕ) (i child : ℕ) (name : List ℕ)
    → blocks i ≡ 0
    → ((alloc_block fs).0 == 0) ≡ false
    → insert_listed (suc n) fs ip blocks i child name
      ≡ returns true
          (grown ip)
          (putblock (alloc_block fs).1 (alloc_block fs).0 (fresh_block child name))
unfolding insert_listed
listed_new n fs ip blocks i child name e z = rw (e, insert_listed, z) refl

taken_apart :
    (fs : Fs) (map a b : ℕ) → tstbit (fs.disk map) a ≡ true → tstbit (fs.disk map) b ≡ false → a ≢ b
taken_apart fs map a b t f e = ground (arith, t, f, e)

apart_block :
    (fs : Fs) (blk b : ℕ) (buf : ℕ → ℕ) → b ≢ blk → (putblock fs blk buf).disk b ≡ fs.disk b
apart_block fs blk b buf ne = ground arith

-- Where `insert_child` comes to an entry of the table in block `t` that is 0, with a block free, and `t` taken and behind
-- the first two blocks and the map: it returns true, but the table on the card still has 0 there, so every search of
-- `find_inode`, the one for the new name too, gives up at this entry.
pub insert_listed-loses :
    (n : ℕ) (fs : Fs) (ip : Inode) (t i child : ℕ) (name : List ℕ)
    → 2 ≤ fs.block_bitmap
    → IsBytes (fs.disk fs.block_bitmap)
    → 2 ≤ t
    → t ≢ fs.block_bitmap
    → tstbit (fs.disk fs.block_bitmap) t ≡ true
    → entry fs t i ≡ 0
    → (alloc_block fs).0 ≢ 0
    → (ip' : Inode) × (fs' : Fs) × (insert_listed (suc n) fs ip (entry fs t) i child name
        ≡ returns true ip' fs')
      × ((other : List ℕ) → find_in_blocks (suc n) fs' (entry fs' t) i other ≡ absent)
insert_listed-loses n fs ip t i child name low bytes lo ne taken z free =
    let blk = (alloc_block fs).0 in
    let fresh = alloc_block-Fresh fs low bytes free in
    let fs' = putblock (alloc_block fs).1 blk (fresh_block child name) in
    let same : fs'.disk t ≡ fs.disk t =
      apart_block (alloc_block fs).1 blk t (fresh_block child name)
        (taken_apart fs fs.block_bitmap t blk taken fresh.free)
      ∙ fresh.others t lo ne in
    (
      grown ip,
      fs',
      listed_new n fs ip (entry fs t) i child name z (nonzero blk free),
      λ other. stops n fs' (entry fs' t) i other (ap (λ d. get32 d (4 * i)) same ∙ z),
    )
  where
    nonzero : (b : ℕ) → b ≢ 0 → (b == 0) ≡ false
    nonzero b h = ground (arith, h)

-- The only entry of a block, when its name is looked for, is to go with the block.
only_entry-alone :
    (buf : ℕ → ℕ) (d : Dirent) (name : List ℕ)
    → Laid buf (d ∷ [])
    → same_name buf 0 name ≡ true
    → remove_entry (suc blocksize) buf 0 0 name ≡ alone
only_entry-alone buf d name l h = elim (remove_entry-Removed buf [] [] d name l tt h) [
  | inl (empty, e) ↦ e
  | inr (buf', e, (s, t)) ↦ absurd (omega (arith, t))
]

-- A block that is there is searched.
in_block :
    (n : ℕ) (fs : Fs) (blocks : ℕ → ℕ) (i : ℕ) (name : List ℕ)
    → blocks i ≢ 0
    → find_in_blocks (suc n) fs blocks i name
      ≡ then_visit
          (find_in_block (suc blocksize) (getblock fs (blocks i)) 0 name)
          (find_in_blocks n fs blocks (suc i) name)
unfolding find_in_blocks
in_block n fs blocks i name z = rw (nonzero (blocks i) z, find_in_blocks) refl
  where
    nonzero : (b : ℕ) → b ≢ 0 → (b == 0) ≡ false
    nonzero b h = ground (arith, h)

-- The search passes over the first block and finds the name in the second.
found_behind :
    (n : ℕ) (fs : Fs) (blocks : ℕ → ℕ) (i : ℕ) (d e : Dirent) (before after : List Dirent)
    → blocks i ≢ 0
    → blocks (suc i) ≢ 0
    → Laid (getblock fs (blocks i)) (d ∷ [])
    → Differs e.name d
    → Laid (getblock fs (blocks (suc i))) (before ++ e ∷ after)
    → All (Differs e.name) before
    → find_in_blocks (suc (suc n)) fs blocks i e.name ≡ found e.ino
found_behind n fs blocks i d e before after z z' l dif (s, t) a =
    let buf = getblock fs (blocks (suc i)) in
    in_block (suc n) fs blocks i e.name z
    ∙ (ap (λ v. then_visit v (find_in_blocks (suc n) fs blocks (suc i) e.name))
          (Without-passed (getblock fs (blocks i)) e.name ([], d, l, (dif, tt)))
        ∙ (in_block n fs blocks (suc i) e.name z'
            ∙ ap (λ v. then_visit v (find_in_blocks n fs blocks (suc (suc i)) e.name))
                (find_in_block-found blocksize buf 0 before after e e.name s (omega (arith, t))
                  (omega arith)
                  (Stand-Misses buf 0 before e.name (Stand-init buf 0 before (e ∷ after) s) a)
                  (At-same_name buf (0 + total before) e
                    (Stand-rest buf 0 before (e ∷ after) s).0))))

-- Let `d` be the only entry of direct block `i`, and let the block behind it be laid out in entries, among them `e`, whose
-- name no entry before it is a beginning of. The search of `find_inode` from block `i` on finds `e`. When `remove_child` then
-- takes `d` out of block `i` by its name, it returns true and keeps the number of the block behind, but every later search
-- from block `i` on, the one for `e` too, gives up there.
pub remove_direct-hides :
    (n : ℕ) (fs : Fs) (ip : Inode) (i : ℕ) (name : List ℕ) (d e : Dirent)
    (before after : List Dirent)
    → ip.i_block i ≢ 0
    → ip.i_block (suc i) ≢ 0
    → Laid (getblock fs (ip.i_block i)) (d ∷ [])
    → same_name (getblock fs (ip.i_block i)) 0 name ≡ true
    → Differs e.name d
    → Laid (getblock fs (ip.i_block (suc i))) (before ++ e ∷ after)
    → All (Differs e.name) before
    → (find_in_blocks (suc (suc n)) fs ip.i_block i e.name ≡ found e.ino)
      × ((ip' : Inode) × (fs' : Fs) × (remove_direct (suc n) fs ip i name ≡ returns true ip' fs')
          × ((j : ℕ) → i < j → ip'.i_block j ≡ ip.i_block j)
          × ((later : Fs) (other : List ℕ)
              → find_in_blocks (suc (suc n)) later ip'.i_block i other ≡ absent))
unfolding remove_direct
remove_direct-hides n fs ip i name d e before after ne ne' l h dif l' a = (
  found_behind n fs ip.i_block i d e before after ne ne' l dif l' a,
  (
    shrunk (with_block ip i 0),
    dalloc_block fs (ip.i_block i),
    rw
        (
          nonzero (ip.i_block i) ne,
          remove_direct,
          only_entry-alone (getblock fs (ip.i_block i)) d name l h,
        )
        refl,
    λ j h. ground arith,
    λ later other. stops (suc n) later (with_block ip i 0).i_block i other (ground arith),
  ),
)
  where
    nonzero : (b : ℕ) → b ≢ 0 → (b == 0) ≡ false
    nonzero b h = ground (arith, h)
