-- ===== src/Tree/Taking.antt =====
-- Calls that take entries away: XERN/fs/unlink.h and XERN/fs/rmdir.h.
use xern.Base.{
  ℕ, ◌+◌, ◌-◌, ◌%◌, ◌^◌, Bool, not, ◌||◌, Option, none, some, List, [], ◌∷◌, ◌==◌, ltb,
  if◌then◌else◌, ℤ, pos,
}
use xern.Kernel.{InodePtr}
use xern.Ext2.{blocksize, getblock, get32, minode, dalloc_inode, dalloc_block}
use xern.Ext2.Lookup.{is_dir, free_iblocks}
use xern.Ext2.Lookup.Search.{same_text}
use xern.Ext2.Entries.{last_entry, remove_child}
use xern.Tree.{
  Sys, Call, pure, ◌>>=◌, ◌>>◌, failed, state, need, on_fs, fs_try, caller, lookup, base_of, dir_of,
  change, save, evict, is_lnk, foreign,
}

-- `dalloc_inode` as a step.
abbrev pub drop_inode : ℕ → Call (Unit {0})
drop_inode ino s = elim (dalloc_inode s.fs ino) [
  | none ↦ none
  | some fs' ↦ some (tt, record s { fs = fs' })
]

-- What becomes of the inode whose entry is gone.
unfoldable pub unlink_inode : InodePtr → Call (Unit {0})
unlink_inode child = do
  s ← state
  let ip = (minode s.fs child).inode
  let ino = (minode s.fs child).ino
  if ip.i_links_count == 1
      then (do on_fs (λ fs. if is_lnk ip.i_mode then fs else free_iblocks fs child); drop_inode ino)
      else if ltb 1 ip.i_links_count
      then (do change child (λ ip. record ip { i_links_count = ip.i_links_count - 1 }); save child)
      else pure tt

unfoldable pub kunlink : List ℕ → Call ℤ
kunlink path = do
  bname ← base_of path
  dname ← dir_of path
  parent ← lookup dname
  found ← lookup path
  elim found [
    | none ↦ failed
    | some child ↦ do
      s ← state
      if is_dir (minode s.fs child).inode.i_mode || foreign s (minode s.fs child).inode
          then failed
          else (do
            p ← need parent
            ok ← fs_try (λ fs. remove_child fs p bname)
            if not ok then failed else (do
              unlink_inode child
              save p
              on_fs (λ fs. evict (minode fs child).ino fs)
              pure (pos 0)))
  ]

-- The inode number of the last entry of a block; `none` is an endless loop.
abbrev pub last_ino : (ℕ → ℕ) → Option ℕ
last_ino buf = elim (last_entry blocksize buf 0) [ none ↦ none | some l ↦ some (get32 buf l) ]

-- The names and the directory that `krmdir` refuses.
abbrev pub kept_name : Sys → List ℕ → InodePtr → Bool
kept_name s bname child =
    (same_text bname (b'.' ∷ []) || same_text bname (b'.' ∷ b'.' ∷ []))
    || ((minode s.fs child).ino == (minode s.fs (caller s).cwd).ino)

unfoldable pub krmdir : List ℕ → Call ℤ
krmdir path = do
  bname ← base_of path
  dname ← dir_of path
  parent ← lookup dname
  found ← lookup path
  elim found [
    | none ↦ failed
    | some child ↦ do
      s ← state
      if not (is_dir (minode s.fs child).inode.i_mode)
            || (kept_name s bname child || foreign s (minode s.fs child).inode)
          then failed
          else (do
            last ← need (last_ino (getblock s.fs ((minode s.fs child).inode.i_block 0)))
            p ← need parent
            if not (last == (minode s.fs p).ino) then failed else (do
              ok ← fs_try (λ fs. remove_child fs p bname)
              if not ok then failed else (do
                drop_inode (minode s.fs child).ino
                on_fs (λ fs. dalloc_block fs ((minode fs child).inode.i_block 0))
                change p
                    (λ ip. record ip { i_links_count = (ip.i_links_count + 2 ^ 16 - 1) % 2 ^ 16 })
                save p
                on_fs (λ fs. evict (minode fs child).ino fs)
                pure (pos 0))))
  ]
