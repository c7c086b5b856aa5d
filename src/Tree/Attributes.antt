-- ===== src/Tree/Attributes.antt =====
-- Calls on the inode that a path leads to: XERN/fs/chmod.h, XERN/fs/chown.h, XERN/fs/statcall.h, XERN/fs/fexist.h,
-- XERN/fs/readlink.h and XERN/fs/chdir.h.
use xern.Base.{
  ℕ, ◌+◌, ◌*◌, ◌/◌, ◌%◌, ◌^◌, min, not, ◌||◌, Option, none, some, List, [], ◌∷◌, ◌++◌, ltb,
  if◌then◌else◌, update, ℤ, pos, minus_one,
}
use xern.Kernel.{InodePtr}
use xern.Paths.Break.{text_of}
use xern.Permissions.{Inode}
use xern.Ext2.{blocksize, inode_byte, minode}
use xern.Ext2.Data.{bytes_from, is_chr}
use xern.Ext2.Lookup.{is_dir}
use xern.Tree.{
  Call, pure, ◌>>=◌, ◌>>◌, failed, state, caller, lookup, change, save, is_lnk, is_blk, foreign,
}

-- The nine bits of access are set anew, the seven above them stay.
abbrev pub with_mode : ℕ → ℕ → ℕ
with_mode old mode = old / 512 % 128 * 512 + mode % 512

-- `kchmod` and `kchown` on the inode that the look-up found.
unfoldable pub change_found : Option InodePtr → (Inode → Inode) → Call ℤ
change_found none f = failed
change_found (some p) f = do
  s ← state
  if foreign s (minode s.fs p).inode then failed else (do change p f; save p; pure (pos 0))

unfoldable pub kchmod : List ℕ → (mode : ℕ) → Call ℤ
kchmod path mode = do
  found ← lookup path
  change_found found (λ ip. record ip { i_mode = with_mode ip.i_mode mode })

-- The identities are cut to 16 bits.
unfoldable pub kchown : List ℕ → (uid gid : ℕ) → Call ℤ
kchown path uid gid = do
  found ← lookup path
  change_found found (λ ip. record ip { i_uid = uid % 2 ^ 16; i_gid = gid % 2 ^ 16 })

-- `struct stat`
pub record Stat : Type 0 where
  pub st_dev : ℕ
  pub st_ino : ℕ
  pub st_mode : ℕ
  pub st_nlink : ℕ
  pub st_uid : ℕ
  pub st_gid : ℕ
  pub st_rdev : ℕ
  pub st_size : ℕ
  pub st_blksize : ℕ
  pub st_blocks : ℕ
  pub st_atim : ℕ
  pub st_mtim : ℕ
  pub st_ctim : ℕ

abbrev pub stat_of : ℕ → Inode → Stat
stat_of ino ip = record {
  st_dev = 65535;
  st_ino = ino;
  st_mode = ip.i_mode;
  st_nlink = ip.i_links_count;
  st_uid = ip.i_uid;
  st_gid = ip.i_gid;
  st_rdev = if is_chr ip.i_mode || is_blk ip.i_mode then ip.i_block 0 % 2 ^ 16 else 0;
  st_size = ip.i_size;
  st_blksize = blocksize;
  st_blocks = ip.i_blocks;
  st_atim = ip.i_atime;
  st_mtim = ip.i_mtime;
  st_ctim = ip.i_ctime;
}

-- The result, and what is written to `statbuf`.
unfoldable pub kstat : List ℕ → Call (ℤ × Option Stat)
kstat path = do
  found ← lookup path
  s ← state
  elim found [
    | none ↦ pure (minus_one, none)
    | some p ↦ pure (pos 0, some (stat_of (minode s.fs p).ino (minode s.fs p).inode))
  ]

unfoldable pub kfexist : List ℕ → Call ℤ
kfexist path = do found ← lookup path; elim found [ none ↦ pure (pos 0) | some p ↦ pure (pos 1) ]

-- `n` bytes from the numbers of the blocks of an inode on, where a symbolic link keeps its path.
abbrev pub link_bytes : Inode → ℕ → List ℕ
link_bytes ip n = bytes_from n (inode_byte ip) 40

-- The number that is returned, and the bytes stored in the caller's buffer: all `i_size` of them and a NUL. The inode has
-- 88 bytes from there on; to copy more reads behind it.
unfoldable pub kreadlink : List ℕ → Call (ℤ × List ℕ)
kreadlink path = do
  found ← lookup path
  s ← state
  elim found [
    | none ↦ pure (minus_one, [])
    | some p ↦
        let ip = (minode s.fs p).inode in
        if not (is_lnk ip.i_mode)
        then pure (minus_one, [])
        else if ltb 88 ip.i_size
        then (λ s. none)
        else pure (pos (min 60 ip.i_size), link_bytes ip ip.i_size ++ (0 ∷ []))
  ]

-- `curr_proc->cwd = p`
abbrev pub set_cwd : InodePtr → Call ℤ
set_cwd p s =
    let k = s.kernel in
    some (
      pos 0,
      record s {
        kernel = record k { procs = update k.procs k.curr_proc (record (caller s) { cwd = p }) };
      },
    )

abbrev pub enter_dir : InodePtr → Call ℤ
enter_dir p = do s ← state; if not (is_dir (minode s.fs p).inode.i_mode) then failed else set_cwd p

-- A symbolic link is followed once.
unfoldable pub kchdir : List ℕ → Call ℤ
kchdir path = do
  found ← lookup path
  s ← state
  elim found [
    | none ↦ failed
    | some p ↦
        let ip = (minode s.fs p).inode in
        if is_lnk ip.i_mode
        then (do
          target ← lookup (text_of (link_bytes ip (min 60 ip.i_size) ++ (0 ∷ [])))
          elim target [ none ↦ failed | some q ↦ enter_dir q ])
        else enter_dir p
  ]
