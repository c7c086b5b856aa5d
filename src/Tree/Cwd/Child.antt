-- ===== src/Tree/Cwd/Child.antt =====
-- `getname` of XERN/fs/utils.h over the blocks of a directory.
use xern.Base.{
  ℕ, zero, suc, ◌+◌, ◌<◌, ◌≤◌, ◌≡◌, ◌≢◌, refl, ap, ◌∙◌, arith, true, false, Bool-cases, inl, inr,
  List, [], ◌∷◌, ◌++◌, ◌==◌, ==_iff, leb, All, some, none, Option, subst, sym,
}
use xern.Strings.Terminated.{IsText}
use xern.Paths.Break.{text_of}
use xern.Paths.Break.Whole.{text_of-holding}
use xern.Permissions.{Inode}
use xern.Kernel.{InodePtr}
use xern.Ext2.{Fs, blocksize, getblock, minode}
use xern.Ext2.Cache.{get_inode}
use xern.Ext2.Data.{entries, entry}
use xern.Ext2.Entries.Laid.{Dirent, Stand, Laid, total}
use xern.Tree.{Sys, Call, pure, fs_try, >>=-some}
use xern.Tree.Cwd.{
  Naming, named, onward, endless, unnamed, then_name, name_in_block, name_in_blocks, name_entry,
  getname,
}
use xern.Tree.Cwd.Named.{steps_on, filled, name_in_block-Laid}

-- A block of entries, none of which has the number.
abbrev pub Lacks : ℕ → (ℕ → ℕ) → Type 0
Lacks ino buf = (es : List Dirent) × Laid buf es × All (λ e. e.ino ≢ ino) es

-- A block of entries, of which `d` is the first with its number.
abbrev pub Names : Dirent → (ℕ → ℕ) → Type 0
Names d buf =
    (before : List Dirent) × (after : List Dirent) × Laid buf (before ++ d ∷ after)
    × All (λ e. e.ino ≢ d.ino) before

passes_by :
    (n : ℕ) (buf : ℕ → ℕ) (p ino : ℕ) (es : List Dirent)
    → Stand buf p es
    → p + total es ≡ blocksize
    → blocksize ≤ p + n
    → All (λ e. e.ino ≢ ino) es
    → name_in_block (suc n) buf p ino ≡ onward
unfolding name_in_block
passes_by n buf p ino [] s t l a = rw (at_end (omega (arith, t))) refl
  where
    at_end : p ≡ blocksize → leb blocksize p ≡ true
    at_end e = ground (arith, e)
passes_by zero buf p ino (e ∷ es) (x, s) t l a = absurd (omega (arith, t, l, filled buf p e x))
passes_by (suc n) buf p ino (e ∷ es) (x, s) t l (ne, a) =
    steps_on (suc n) buf p ino e x (omega (arith, t, filled buf p e x)) ne
    ∙ passes_by n buf (p + e.len) ino es s (omega (arith, t)) (omega (arith, l, filled buf p e x)) a

Lacks-onward :
    (buf : ℕ → ℕ) (ino : ℕ) → Lacks ino buf → name_in_block (suc blocksize) buf 0 ino ≡ onward
Lacks-onward buf ino (es, (s, t), a) =
    passes_by blocksize buf 0 ino es s (omega (arith, t)) (omega arith) a

in_block :
    (n : ℕ) (fs : Fs) (blocks : ℕ → ℕ) (i ino : ℕ)
    → blocks i ≢ 0
    → name_in_blocks (suc n) fs blocks i ino
      ≡ then_name
          (name_in_block (suc blocksize) (getblock fs (blocks i)) 0 ino)
          (name_in_blocks n fs blocks (suc i) ino)
unfolding name_in_blocks
in_block n fs blocks i ino z = rw (nonzero (blocks i) z, name_in_blocks) refl
  where
    nonzero : (b : ℕ) → b ≢ 0 → (b == 0) ≡ false
    nonzero b h = ground (arith, h)

-- Of the first `n` blocks, `k` is the first that has an entry with the number of `d`, and `d` is the first of them there.
pub record FirstAt (fs : Fs) (blocks : ℕ → ℕ) (n k : ℕ) (d : Dirent) : Type 0 where
  pub within : k < n
  pub there : (j : ℕ) → j ≤ k → blocks j ≢ 0
  pub before : (j : ℕ) → j < k → Lacks d.ino (getblock fs (blocks j))
  pub here : Names d (getblock fs (blocks k))

-- The first `n` blocks are there and none has an entry with the number.
pub record AllLack (fs : Fs) (blocks : ℕ → ℕ) (n ino : ℕ) : Type 0 where
  pub there : (j : ℕ) → j < n → blocks j ≢ 0
  pub lack : (j : ℕ) → j < n → Lacks ino (getblock fs (blocks j))

reaches_block :
    (m : ℕ) (fs : Fs) (blocks : ℕ → ℕ) (i n k : ℕ) (d : Dirent)
    → FirstAt fs blocks n k d
    → i ≤ k
    → k < i + m
    → name_in_blocks m fs blocks i d.ino ≡ named d.name
reaches_block zero fs blocks i n k d f low high = absurd (omega (arith, low, high))
reaches_block (suc m) fs blocks i n k d f low high = elim (Bool-cases (i == k)) [
  | inl now ↦
      in_block m fs blocks i d.ino (f.there i low)
      ∙ ap (λ v. then_name v (name_in_blocks m fs blocks (suc i) d.ino))
          (subst
            (λ j. name_in_block (suc blocksize) (getblock fs (blocks j)) 0 d.ino ≡ named d.name)
            (sym ((==_iff i k).0 now))
            (let (before, after, laid, others) = f.here in
              name_in_block-Laid (getblock fs (blocks k)) before after d laid others))
  | inr yet ↦
      in_block m fs blocks i d.ino (f.there i low)
      ∙ (ap (λ v. then_name v (name_in_blocks m fs blocks (suc i) d.ino))
            (Lacks-onward (getblock fs (blocks i)) d.ino (f.before i (further i k low yet)))
          ∙ reaches_block m fs blocks (suc i) n k d f (further i k low yet) (omega (arith, high)))
]
  where
    further : (i k : ℕ) → i ≤ k → (i == k) ≡ false → suc i ≤ k
    further i k l e = ground (arith, l, e)

passes_all :
    (m : ℕ) (fs : Fs) (blocks : ℕ → ℕ) (i ino : ℕ)
    → AllLack fs blocks (i + m) ino
    → name_in_blocks m fs blocks i ino ≡ onward
unfolding name_in_blocks
passes_all zero fs blocks i ino a = refl
passes_all (suc m) fs blocks i ino a =
    in_block m fs blocks i ino (a.there i (omega arith))
    ∙ (ap (λ v. then_name v (name_in_blocks m fs blocks (suc i) ino))
          (Lacks-onward (getblock fs (blocks i)) ino (a.lack i (omega arith)))
        ∙ passes_all m fs blocks (suc i) ino (record {
          there = λ j l. a.there j (omega (arith, l));
          lack = λ j l. a.lack j (omega (arith, l));
        }))

-- The first entry with the number of `d` is `d`, in a direct block of the directory or in one that its table names.
pub data HasChild (fs : Fs) (ip : Inode) (d : Dirent) : Type 0 where
  direct : (k : ℕ) → FirstAt fs ip.i_block 12 k d → HasChild fs ip d
  listed :
      (k : ℕ)
      → AllLack fs ip.i_block 12 d.ino
      → ip.i_block 12 ≢ 0
      → FirstAt fs (entry fs (ip.i_block 12)) entries k d
      → HasChild fs ip d

name_entry-HasChild :
    (fs : Fs) (ip : Inode) (d : Dirent) → HasChild fs ip d → name_entry fs ip d.ino ≡ named d.name
unfolding name_entry
name_entry-HasChild fs ip d (direct k f) =
    rw (reaches_block 12 fs ip.i_block 0 12 k d f (omega arith) (omega (arith, f.within))) refl
name_entry-HasChild fs ip d (listed k a z f) =
    rw
      (
        passes_all 12 fs ip.i_block 0 d.ino a,
        nonzero (ip.i_block 12) z,
        reaches_block entries fs (entry fs (ip.i_block 12)) 0 entries k d f (omega arith)
            (omega (arith, f.within)),
      )
      refl
  where
    nonzero : (b : ℕ) → b ≢ 0 → (b == 0) ≡ false
    nonzero b h = ground (arith, h)

fs_try-some :
    {A : Type 0} (f : Fs → Option (A × Fs)) (s : Sys) (a : A) (fs' : Fs)
    → f s.fs ≡ some (a, fs')
    → fs_try f s ≡ some (a, record s { fs = fs' })
fs_try-some f s a fs' e = rw (e, fs_try) refl

-- When `get_inode` gives the directory with number `parent`, whose blocks are laid out in entries up to `d`, the first with
-- its number, in a direct block or in one that the table at place 12 names, then `getname` of the number of `d` gives the
-- name of `d`, which has no NUL, and changes nothing beyond `get_inode`.
pub getname-HasChild :
    (s : Sys) (parent : ℕ) (p : InodePtr) (fs' : Fs) (d : Dirent)
    → get_inode s.fs parent ≡ some (some p, fs')
    → HasChild fs' (minode fs' p).inode d
    → IsText d.name
    → getname parent d.ino s ≡ some (some d.name, record s { fs = fs' })
unfolding getname
getname-HasChild s parent p fs' d e h t =
    >>=-some (fs_try (λ fs. get_inode fs parent)) _ s {s' = record s { fs = fs' }}
      (fs_try-some (λ fs. get_inode fs parent) s (some p) fs' e)
    ∙ (ap (λ v. answered v (record s { fs = fs' }))
          (name_entry-HasChild fs' (minode fs' p).inode d h)
        ∙ ap (λ n. some (some n, record s { fs = fs' })) (text_of-holding d.name [] t))
  where
    answered : Naming → Call (Option (List ℕ))
    answered v = elim v [
      | endless ↦ λ s. none
      | named name ↦ pure (some (text_of (name ++ (0 ∷ []))))
      | unnamed ↦ pure none
      | onward ↦ pure none
    ]
