-- ===== src/Tree.antt =====
-- The system calls that name files by paths: XERN/fs/*.h over the inodes and directories of Ext2. A call takes the state
-- of the kernel and of the file system and returns a result and the new state; `none` is a fault, such as a NULL pointer
-- followed, or an endless loop. Paths are the caller's texts. Messages to the console are left out.
pub mod Making
pub mod Taking
pub mod Attributes
pub mod Opening
pub mod Changed
pub mod Reused
pub mod Cwd
use xern.Base.{
  ◌≡◌, refl, ℕ, suc, ◌+◌, ◌/◌, ◌%◌, Bool, true, false, not, ◌||◌, Option, none, some, List, [],
  ◌==◌, if◌then◌else◌, length, replicate, scan, update, ℤ, pos, minus_one, is_zero,
}
use xern.Kernel.{Kernel, Proc, InodePtr, root_inode, minode_slot}
use xern.Strings.Terminated.{holding}
use xern.Paths.{basename, dirname}
use xern.Paths.Break.{text_of}
use xern.Permissions.{Inode}
use xern.Ext2.{Fs, Minode, nminodes, minode, set_minode, save_inode}
use xern.Ext2.Data.{Filing}
use xern.Ext2.Lookup.Search.{search_inode}
use xern.Ext2.Entries.{insert_child, remove_child}

-- The globals of the kernel, of the file system, and the rows of `search_inode`.
pub record Sys : Type 0 where
  pub kernel : Kernel
  pub fs : Fs
  pub dirnames : ℕ → List ℕ

abbrev pub Call : Type 0 → Type 0
Call A = Sys → Option (A × Sys)

abbrev pub pure : {A : Type 0} → A → Call A
pure a s = some (a, s)

infixl 5 ◌>>=◌ ◌>>◌
abbrev pub ◌>>=◌ : {A B : Type 0} → Call A → (A → Call B) → Call B
◌>>=◌ m f s = elim (m s) [ none ↦ none | some (a, s') ↦ f a s' ]

abbrev pub ◌>>◌ : {B : Type 0} → Call (Unit {0}) → Call B → Call B
m >> k = m >>= λ _. k

-- A step whose result is known.
pub >>=-some :
    {A B : Type 0} (m : Call A) (f : A → Call B) (s : Sys) {a : A} {s' : Sys}
    → m s ≡ some (a, s')
    → (m >>= f) s ≡ f a s'
>>=-some m f s e = rw (e, ◌>>=◌) refl

-- `return -1;`
abbrev pub failed : Call ℤ
failed = pure minus_one

abbrev pub state : Call Sys
state s = some (s, s)

-- A value that may be missing, where its absence is a fault.
abbrev pub need : {A : Type 0} → Option A → Call A
need none s = none
need (some a) s = some (a, s)

abbrev pub on_fs : (Fs → Fs) → Call (Unit {0})
on_fs f s = some (tt, record s { fs = f s.fs })

-- An operation of the file system with a result, and one that may fault.
abbrev pub fs_result : {A : Type 0} → (Fs → A × Fs) → Call A
fs_result f s = let (a, fs') = f s.fs in some (a, record s { fs = fs' })

abbrev pub fs_try : {A : Type 0} → (Fs → Option (A × Fs)) → Call A
fs_try f s = elim (f s.fs) [ none ↦ none | some (a, fs') ↦ some (a, record s { fs = fs' }) ]

-- The process that calls.
abbrev pub caller : Sys → Proc
caller s = s.kernel.procs s.kernel.curr_proc

-- `search_inode`
unfoldable pub lookup : List ℕ → Call (Option InodePtr)
lookup path s = elim (search_inode (record { kernel = s.kernel; fs = s.fs }) path s.dirnames) [
  | none ↦ none
  | some (p, fs', dirs') ↦ some (p, record s { fs = fs'; dirnames = dirs' })
]

-- `basename(path, bname)` and `dirname(path, dname)` on buffers of the length of the path and its NUL.
unfoldable pub base_of : List ℕ → Call (List ℕ)
base_of path = do
  buf ← need (basename (holding path []) (replicate (suc (length path)) 0))
  pure (text_of buf)

unfoldable pub dir_of : List ℕ → Call (List ℕ)
dir_of path = do
  buf ← need (dirname (holding path []) (replicate (suc (length path)) 0))
  pure (text_of buf)

-- `p->inode` changed in memory.
abbrev pub change : InodePtr → (Inode → Inode) → Call (Unit {0})
change p f = on_fs λ fs. set_minode fs p (record (minode fs p) { inode = f (minode fs p).inode })

-- The steps that write the inode of `p` to the card.
abbrev pub save : InodePtr → Call (Unit {0})
save p = on_fs λ fs. save_inode fs (minode fs p)

-- The calls' loops that take the first free slot for a new inode, if there is one.
abbrev pub enter_minode : Fs → ℕ → Inode → Fs
enter_minode fs ino ip = elim (scan nminodes 0 (λ i. is_zero (fs.minodes i).refcount)) [
  | none ↦ fs
  | some i ↦ record fs {
    minodes = update fs.minodes i (record { ino = ino; refcount = pos 1; inode = ip });
  }
]

-- The loops of `kunlink` and `krmdir` that free the first slot with an inode.
unfoldable pub evict : ℕ → Fs → Fs
evict ino fs =
    elim (scan nminodes 0
      (λ i. if is_zero (fs.minodes i).refcount then false else (fs.minodes i).ino == ino)) [
        | none ↦ fs
        | some i ↦ record fs {
          minodes = update fs.minodes i (record (fs.minodes i) { refcount = pos 0 });
        }
      ]

-- S_ISLNK and S_ISBLK
abbrev pub is_lnk : ℕ → Bool
is_lnk mode = mode / 4096 % 16 == 10

abbrev pub is_blk : ℕ → Bool
is_blk mode = mode / 4096 % 16 == 6

-- Whether the caller is neither root nor the owner.
abbrev pub foreign : Sys → Inode → Bool
foreign s ip =
    if (caller s).uid == 0 then false else if (caller s).uid == ip.i_uid then false else true
