-- ===== src/Tree/Making.antt =====
-- Calls that make entries: XERN/fs/creat.h, XERN/fs/mkdir.h, XERN/fs/link.h and XERN/fs/symlink.h.
use xern.Base.{
  ℕ, suc, ◌+◌, ◌-◌, ◌%◌, ◌^◌, not, ◌||◌, Option, none, some, List, [], ◌∷◌, ◌==◌, ltb,
  if◌then◌else◌, length, replicate, update, ℤ, pos,
}
use xern.Kernel.{InodePtr}
use xern.Strings.{strncpy}
use xern.Strings.Terminated.{holding}
use xern.Paths.{remove_multiple_slashes}
use xern.Paths.Break.{text_of}
use xern.Permissions.{Inode}
use xern.Ext2.{
  Fs, blocksize, getblock, putblock, put16, put32, inode_at, put_inode, inode_block, inode_place,
  minode, alloc_inode, alloc_block,
}
use xern.Ext2.Data.{secs_per_blk}
use xern.Ext2.Lookup.{is_dir}
use xern.Ext2.Writing.{zeros, paste}
use xern.Ext2.Entries.{insert_child}
use xern.Tree.{
  Sys, Call, pure, ◌>>=◌, ◌>>◌, failed, state, need, on_fs, fs_result, fs_try, caller, lookup,
  base_of, dir_of, change, save, enter_minode,
}

-- The parent that the checks of a new entry hand over, unless they fail.
unfoldable pub new_parent : Option InodePtr → Option InodePtr → (InodePtr → Call ℤ) → Call ℤ
new_parent (some old) parent next = failed
new_parent none none next = failed
new_parent none (some p) next = do
  s ← state
  if is_dir (minode s.fs p).inode.i_mode then next p else failed

-- The bytes of a new inode, made by `f` from what stood there, followed by `more` on the bytes of the block; it is
-- entered in memory before the block is written.
abbrev pub create_inode : ℕ → (Inode → Inode) → (more : (ℕ → ℕ) → ℕ → ℕ) → Fs → Fs
create_inode ino f more fs =
    let b = inode_block fs ino in
    let p = inode_place ino in
    let old = getblock fs b in
    let buf = more (put_inode old p (f (inode_at old p))) in
    putblock (enter_minode fs ino (inode_at buf p)) b buf

abbrev plain_file : Sys → Inode → Inode
plain_file s ip = record ip {
  i_mode = 0o100644;
  i_uid = (caller s).uid;
  i_gid = (caller s).gid;
  i_size = 0;
  i_links_count = 1;
  i_atime = 0;
  i_ctime = 0;
  i_mtime = 0;
  i_blocks = 0;
  i_block = λ j. if ltb j 15 then 0 else ip.i_block j;
}

unfoldable pub kcreat : List ℕ → Call ℤ
kcreat path = do
  bname ← base_of path
  dname ← dir_of path
  ipath ← lookup path
  parent ← (elim ipath [ none ↦ lookup dname | some p ↦ pure none ])
  new_parent ipath parent λ p. do
    new_inode ← fs_result alloc_inode
    if new_inode == 0 then failed else (do
      ok ← fs_try (λ fs. insert_child fs p new_inode bname)
      if not ok then failed else (do
        s ← state
        on_fs (create_inode new_inode (plain_file s) (λ buf. buf))
        save p
        pure (pos 0)))

abbrev directory : Sys → ℕ → Inode → Inode
directory s blk ip = record ip {
  i_mode = 0o040755;
  i_uid = (caller s).uid;
  i_gid = (caller s).gid;
  i_size = blocksize;
  i_links_count = 2;
  i_atime = 0;
  i_ctime = 0;
  i_mtime = 0;
  i_blocks = secs_per_blk;
  i_block = λ j. if j == 0 then blk else if ltb j 15 then 0 else ip.i_block j;
}

-- An entry of the first block of a directory, with the NUL that `strcpy` writes.
abbrev dots : (ℕ → ℕ) → (p ino len : ℕ) → List ℕ → ℕ → ℕ
dots buf p ino len name =
    paste (update (update (put16 (put32 buf p ino) (p + 4) len) (p + 6) (length name)) (p + 7) 2)
      (p + 8) (holding name [])

-- The entries "." and ".." of a new directory.
unfoldable pub dot_block : (new_inode parent : ℕ) → ℕ → ℕ
dot_block new_inode parent =
    dots (dots zeros 0 new_inode 12 (b'.' ∷ [])) 12 parent (blocksize - 12) (b'.' ∷ b'.' ∷ [])

unfoldable pub kmkdir : List ℕ → Call ℤ
kmkdir path = do
  bname ← base_of path
  dname ← dir_of path
  ipath ← lookup path
  parent ← (elim ipath [ none ↦ lookup dname | some p ↦ pure none ])
  new_parent ipath parent λ p. do
    new_inode ← fs_result alloc_inode
    if new_inode == 0 then failed else (do
      new_block ← fs_result alloc_block
      if new_block == 0 then failed else (do
        ok ← fs_try (λ fs. insert_child fs p new_inode bname)
        if not ok then failed else (do
          s ← state
          on_fs (create_inode new_inode (directory s new_block) (λ buf. buf))
          on_fs (λ fs. putblock fs new_block (dot_block new_inode (minode fs p).ino))
          change p (λ ip. record ip { i_links_count = (ip.i_links_count + 1) % 2 ^ 16 })
          save p
          pure (pos 0))))

-- `klink`, behind its look-ups.
unfoldable pub link_found : Option InodePtr → Option InodePtr → Option InodePtr → List ℕ → Call ℤ
link_found none parent new bname = failed
link_found (some old) none new bname = failed
link_found (some old) (some p) new bname = do
  s ← state
  if not (is_dir (minode s.fs p).inode.i_mode) || is_dir (minode s.fs old).inode.i_mode
      then failed
      else elim new [
        | some q ↦ failed
        | none ↦ do
          ok ← fs_try (λ fs. insert_child fs p (minode fs old).ino bname)
          if not ok then failed else (do
            change old (λ ip. record ip { i_links_count = (ip.i_links_count + 1) % 2 ^ 16 })
            save old
            save p
            pure (pos 0))
      ]

unfoldable pub klink : (oldpath newpath : List ℕ) → Call ℤ
klink oldpath newpath = do
  bname ← base_of newpath
  dname ← dir_of newpath
  old ← lookup oldpath
  new ← lookup newpath
  parent ← lookup dname
  link_found old parent new bname

abbrev symbolic : ℕ → Inode → Inode
symbolic size ip = record ip {
  i_mode = 0xA1FF;
  i_uid = 0;
  i_gid = 0;
  i_size = size;
  i_links_count = 1;
  i_atime = 0;
  i_ctime = 0;
  i_mtime = 0;
  i_blocks = 0;
}

-- What `clean_target_path` holds, cut to 60 bytes.
unfoldable pub clean_target : List ℕ → Call (List ℕ)
clean_target target = do
  path ← need (remove_multiple_slashes (holding target []) (replicate (suc (length target)) 0))
  short ← need (strncpy path path 60)
  pure (text_of short)

unfoldable pub ksymlink : (target linkpath : List ℕ) → Call ℤ
ksymlink target linkpath = do
  bname ← base_of linkpath
  dname ← dir_of linkpath
  link ← lookup linkpath
  parent ← lookup dname
  clean ← clean_target target
  new_parent link parent λ p. do
    new_inode ← fs_result alloc_inode
    if new_inode == 0 then failed else (do
      ok ← fs_try (λ fs. insert_child fs p new_inode bname)
      if not ok then failed else (do
        on_fs (
            create_inode new_inode (symbolic (length clean))
              (λ buf. paste buf (inode_place new_inode + 40) clean))
        save p
        pure (pos 0)))
