-- ===== src/Tree/Opening.antt =====
-- Opening files, `kopen` of XERN/fs/open.h, and reading the names of a directory, XERN/fs/getdent.h.
use xern.Base.{
  ℕ, ◌+◌, ◌/◌, ◌%◌, Bool, true, false, not, ◌&&◌, ◌||◌, Option, none, some, List, [], ◌∷◌, ◌++◌,
  ◌==◌, leb, if◌then◌else◌, scan, ℤ, pos, negsuc, minus_one,
}
use xern.Kernel.{Kernel, Oft, InodePtr, root_inode, minode_slot, proc_fd_max}
use xern.Paths.Break.{text_of}
use xern.Files.{set_oft, set_fd, curr_fd, oft_alloc, oft_dalloc}
use xern.Permissions.{bit, check_access_permission}
use xern.Ext2.{blocksize, getblock, minode}
use xern.Ext2.Data.{block_of, bytes_from, is_reg, is_chr}
use xern.Ext2.Lookup.{is_dir, rec_len, name_len, free_iblocks}
use xern.Tree.{Sys, Call, pure, ◌>>=◌, ◌>>◌, failed, state, need, caller, lookup, is_blk}
use xern.Tree.Making.{kcreat}

-- Equality of pointers to inodes in memory.
abbrev pub same_inode : InodePtr → InodePtr → Bool
same_inode root_inode root_inode = true
same_inode root_inode (minode_slot j) = false
same_inode (minode_slot i) root_inode = false
same_inode (minode_slot i) (minode_slot j) = i == j

-- O_CREAT with O_WRONLY or O_RDWR.
abbrev pub may_create : ℕ → Bool
may_create flags = (bit flags 6 == 1) && ((bit flags 0 == 1) || (bit flags 1 == 1))

-- The loop over the descriptors that looks for the file among those opened to be changed. Where a descriptor is free, the
-- code reads through its NULL pointer: `low` is what stands at address 0.
unfoldable pub modified_at : Oft → Kernel → InodePtr → (flags i : ℕ) → Bool
modified_at low k p flags i =
    let o : Oft = elim (curr_fd k i) [ none ↦ low | some j ↦ k.open_file_table j ] in
    let there : Bool = elim o.m_ptr [ none ↦ false | some q ↦ same_inode q p ] in
    there && (not (flags == 0) && (not (o.mode == 0) && not (bit flags 2 == 1)))

abbrev pub already_modified : Oft → Kernel → InodePtr → ℕ → Bool
already_modified low k p flags = elim (scan proc_fd_max 0 (modified_at low k p flags)) [
  | none ↦ false
  | some i ↦ true
]

-- O_APPEND and O_TRUNC, on a regular file that is opened to be written.
unfoldable pub position : InodePtr → (o flags : ℕ) → Call (Unit {0})
position p o flags s =
    let f = s.kernel.open_file_table o in
    let ip = (minode s.fs p).inode in
    let writes = ((bit flags 0 == 1) || (bit flags 1 == 1)) && is_reg ip.i_mode in
    let at_end =
      if bit flags 10 == 1
      then record s { kernel = set_oft s.kernel o (record f { offset = ip.i_size }) }
      else s in
    let emptied = record s {
      kernel = set_oft s.kernel o (record f { offset = 0 });
      fs = free_iblocks s.fs p;
    } in
    some (tt, if not writes then s else if bit flags 9 == 1 then emptied else at_end)

abbrev pub free_fd : Kernel → ℕ → Bool
free_fd k i = elim (curr_fd k i) [ none ↦ true | some j ↦ false ]

-- The first free descriptor takes the entry.
unfoldable pub take_fd : ℕ → Call ℤ
take_fd o s = elim (scan proc_fd_max 0 (free_fd s.kernel)) [
  | none ↦ some (minus_one, record s { kernel = oft_dalloc s.kernel o })
  | some fd ↦ some (pos fd, record s { kernel = set_fd s.kernel fd (some o) })
]

-- The entry `o` that `oft_alloc` gave, in the kernel `k` that it left.
abbrev pub fill_oft : Kernel → ℕ → InodePtr → ℕ → Call (Unit {0})
fill_oft k o p flags s = some (
  tt,
  record s {
    kernel =
        set_oft k o (record (k.open_file_table o) { mode = flags; m_ptr = some p; offset = 0 });
  },
)

-- `kopen` with the inode found. Without a free entry the code clears the pointers of the NULL entry: a fault.
unfoldable pub open_found : Oft → InodePtr → ℕ → Call ℤ
open_found low p flags = do
  s ← state
  let ip = (minode s.fs p).inode
  let directory = (bit flags 2 == 1) && not (is_dir ip.i_mode)
  let denied = not ((caller s).uid == 0) && not (check_access_permission s.kernel ip flags)
  let device = is_chr ip.i_mode || is_blk ip.i_mode
  let (entry, k) = oft_alloc s.kernel
  if directory || (denied || (not device && already_modified low s.kernel p flags))
      then failed
      else elim entry [
        | none ↦ λ s. none
        | some o ↦ do fill_oft k o p flags; position p o flags; take_fd o
      ]

unfoldable pub kopen : Oft → List ℕ → (flags : ℕ) → Call ℤ
kopen low file flags = do
  found ← lookup file
  elim found [
    | some p ↦ open_found low p flags
    | none ↦ if not (may_create flags) then failed else (do
      made ← kcreat file
      elim made [
        | negsuc n ↦ failed
        | pos n ↦ do again ← lookup file; p ← need again; open_found low p flags
      ])
  ]

-- The result, with the length and the name of an entry where there is one.
unfoldable pub next_dirent : (o : ℕ) → Call (ℤ × Option (ℕ × List ℕ))
next_dirent o = do
  s ← state
  let f = s.kernel.open_file_table o
  let moved = λ (n : ℕ) (s : Sys). record s {
    kernel = set_oft s.kernel o (record (s.kernel.open_file_table o) { offset = n });
  }
  if not (bit f.mode 2 == 1) then pure (minus_one, none) else (do
    p ← need f.m_ptr
    let ip = (minode s.fs p).inode
    let buf = getblock s.fs (block_of s.fs ip (f.offset / blocksize))
    let at = f.offset % blocksize
    let n = name_len buf at
    if leb ip.i_size f.offset then (λ s. some ((pos 0, none), moved 0 s)) else (λ s. some (
      (pos 1, some (n, text_of (bytes_from n buf (at + 8) ++ (0 ∷ [])))),
      moved (f.offset + rec_len buf at) s,
    )))

unfoldable pub kgetdent : ℤ → Call (ℤ × Option (ℕ × List ℕ))
kgetdent (negsuc n) = pure (minus_one, none)
kgetdent (pos fd) = do
  s ← state
  if leb proc_fd_max fd
      then pure (minus_one, none)
      else elim (curr_fd s.kernel fd) [ none ↦ pure (minus_one, none) | some o ↦ next_dirent o ]
