-- ===== src/Ext2/Cache/Copies.antt =====
-- No inode has two copies in the table.
use xern.Base.{
  ℕ, ◌<◌, ◌≤◌, ◌≡◌, refl, true, false, inl, inr, Option, none, some, ◌==◌, scan, scan-First,
  scan-none, NoneBefore, arith, Option-cases,
}
use xern.Kernel.{InodePtr, minode_slot}
use xern.Ext2.{Fs, nminodes}
use xern.Ext2.Cache.{cached_at, free_at, load_minode, get_inode}

-- Two slots in use with one number are the same slot.
abbrev pub OneCopy : Fs → Type 0
OneCopy fs =
    (i j ino : ℕ)
    → i < nminodes
    → j < nminodes
    → cached_at fs ino i ≡ true
    → cached_at fs ino j ≡ true
    → i ≡ j

-- Slot `i` holds the inode.
abbrev pub Holds : Fs → ℕ → ℕ → Type 0
Holds fs ino i = (i < nminodes) × (cached_at fs ino i ≡ true)

load-OneCopy :
    (fs : Fs) (ino i : ℕ)
    → OneCopy fs
    → NoneBefore (cached_at fs ino) 0 nminodes
    → OneCopy (load_minode fs ino i)
unfolding load_minode
load-OneCopy fs ino i one fresh j k n hj hk cj ck =
    ground (arith, one j k n hj hk, fresh j (omega arith) hj, fresh k (omega arith) hk, cj, ck)

load-Holds : (fs : Fs) (ino i : ℕ) → i < nminodes → Holds (load_minode fs ino i) ino i
unfolding load_minode
load-Holds fs ino i h = (h, ground arith)

-- What `get_inode` gives: no fault, and then either a full table or a slot that holds the inode.
abbrev pub Served : ℕ → Option (Option InodePtr × Fs) → Type 0
Served ino none = ⊥
Served ino (some (none, fs)) = NoneBefore (free_at fs) 0 nminodes
Served ino (some (some p, fs)) = (i : ℕ) × (p ≡ minode_slot i) × Holds fs ino i × OneCopy fs

-- In a table without second copies, `get_inode` of a number that is not 0 never faults. It gives NULL
-- only when no slot is free; otherwise it gives a slot that holds the number, and the table
-- has no second copy of any inode after it.
pub get_inode-Served : (fs : Fs) (ino : ℕ) → OneCopy fs → 1 ≤ ino → Served ino (get_inode fs ino)
unfolding get_inode
get_inode-Served fs ino one h = elim (Option-cases (scan nminodes 0 (cached_at fs ino))) [
  | inr (i, e) ↦
      let f = scan-First nminodes 0 (cached_at fs ino) e in
      rw (e, get_inode) (i, refl, (omega (arith, f.within), f.passes), one)
  | inl e ↦
      rw (e, nonzero ino h, get_inode)
        (elim (Option-cases (scan nminodes 0 (free_at fs))) [
          | inl full ↦ rw full (scan-none nminodes 0 (free_at fs) full)
          | inr (i, e') ↦
              let f = scan-First nminodes 0 (free_at fs) e' in
              rw e' (
                i,
                refl,
                load-Holds fs ino i (omega (arith, f.within)),
                load-OneCopy fs ino i one (scan-none nminodes 0 (cached_at fs ino) e),
              )
        ])
]
  where
    nonzero : (n : ℕ) → 1 ≤ n → (n == 0) ≡ false
    nonzero n h = ground arith
