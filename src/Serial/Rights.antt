-- ===== src/Serial/Rights.antt =====
-- Who may read and write by a descriptor: the mode of its entry in XERN/fs/read.h and XERN/fs/write.h, and what `kopen` of
-- XERN/fs/open.h checked for that mode.
use xern.Base.{
  ℕ, ◌%◌, ◌<◌, ◌≡◌, refl, ◌∙◌, arith, ◌≢◌, some, true, false, ◌==◌, leb, pos, is_zero, ℤ, minus_one,
  List, [], ◌>>=◌,
}
use xern.Kernel.{InodePtr, proc_fd_max}
use xern.Files.{curr_fd}
use xern.Paths.Break.{text_of}
use xern.Permissions.{Inode, bit, check_access_permission}
use xern.Ext2.{minode}
use xern.Ext2.Data.{Filing, is_reg, is_chr}
use xern.Ext2.Writing.{write_file}
use xern.Serial.Transfer.{returned, kread, read_entry, kwrite, write_entry, write_inode}

-- What `kwrite` makes of the result of `write_file`: nothing is sent to the console.
abbrev pub pos_result : ℤ → Filing → ℤ × List ℕ × Filing
pos_result n s = (n, [], s)

-- A descriptor in use of a file that is in memory.
pub record Opened (s : Filing) (fd o : ℕ) (p : InodePtr) : Type 0 where
  pub below : fd < proc_fd_max
  pub entry : curr_fd s.kernel fd ≡ some o
  pub inode : (s.kernel.open_file_table o).m_ptr ≡ some p
  pub counted : is_zero (minode s.fs p).refcount ≡ false

module _ (undefined : ℤ) (s : Filing) (fd o : ℕ) (p : InodePtr) (h : Opened s fd o p) where
  abbrev mode : ℕ
  mode = (s.kernel.open_file_table o).mode

  no_bounds : leb proc_fd_max fd ≡ false
  no_bounds = ground (arith, h.below)

  module _ (four : mode ≢ 4) (five : mode ≢ 5) where
    not_mode : (n : ℕ) → mode ≢ n → (mode == n) ≡ false
    not_mode n ne = ground (arith, ne)

    reads_entry :
        (buf : ℕ → ℕ) (count : ℤ) (keys : List ℕ)
        → kread undefined s (pos fd) buf count keys ≡ read_entry undefined s fd o buf count keys
    unfolding kread
    reads_entry buf count keys = rw (no_bounds, h.entry, not_mode 4 four, not_mode 5 five) refl

    writes_entry :
        (text : List ℕ) (count : ℤ)
        → kwrite undefined s (pos fd) text count ≡ write_entry undefined s fd o text count
    unfolding kwrite
    writes_entry text count = rw (no_bounds, h.entry, not_mode 5 five, not_mode 4 four) refl

  refuses_read :
      (buf : ℕ → ℕ) (count : ℤ) (keys : List ℕ)
      → (bit mode 2 == 1) ≡ false
      → (bit mode 0 == 1) ≡ true
      → (bit mode 1 == 1) ≡ false
      → read_entry undefined s fd o buf count keys ≡ returned minus_one buf s
  unfolding read_entry
  refuses_read buf count keys a b c = rw (h.inode, read_entry, h.counted, a, b, c) refl

  refuses_write :
      (text : List ℕ) (count : ℤ)
      → (bit mode 2 == 1) ≡ false
      → (mode == 0) ≡ true
      → write_entry undefined s fd o text count ≡ some (minus_one, [], s)
  unfolding write_entry
  refuses_write text count a b = rw (h.inode, h.counted, a, b) refl

  passes_write :
      (text : List ℕ) (count : ℤ)
      → (bit mode 2 == 1) ≡ false
      → (mode == 0) ≡ false
      → write_entry undefined s fd o text count ≡ write_inode undefined s fd p text count
  unfolding write_entry
  passes_write text count a b = rw (h.inode, h.counted, a, b) refl

  writes_file :
      (text : List ℕ) (count : ℕ)
      → is_reg (minode s.fs p).inode.i_mode ≡ true
      → write_inode undefined s fd p text (pos count)
        ≡ (write_file s fd (text_of text) count >>= λ (n, s'). some (pos_result n s'))
  unfolding write_inode
  writes_file text count r = rw (no_device r, r) refl
    where
      no_device :
          is_reg (minode s.fs p).inode.i_mode ≡ true → is_chr (minode s.fs p).inode.i_mode ≡ false
      no_device r = ground (arith, r)

  -- A descriptor of a file opened to be written only, that is with bit 0 of the mode and neither bit 1 nor bit 2, cannot
  -- be read, and one opened with mode 0 cannot be written: both calls return -1 and change nothing.
  pub descriptor_refuses :
      (buf : ℕ → ℕ) (text : List ℕ) (count : ℤ) (keys : List ℕ)
      → (bit mode 0 ≡ 1
          → bit mode 1 ≡ 0
          → bit mode 2 ≡ 0
          → kread undefined s (pos fd) buf count keys ≡ returned minus_one buf s)
        × (mode ≡ 0 → kwrite undefined s (pos fd) text count ≡ some (minus_one, [], s))
  descriptor_refuses buf text count keys = (
    λ a b c.
        reads_entry (λ e. omega (arith)) (λ e. omega (arith)) buf count keys
        ∙ refuses_read buf count keys (ground (arith, c)) (ground (arith, a)) (ground (arith, b)),
    λ a.
        writes_entry (λ e. omega (arith)) (λ e. omega (arith)) text count
        ∙ refuses_write text count (ground (arith, a)) (ground (arith, a)),
  )

  -- For a descriptor on a regular file in memory, with a mode that is not 0 but has none of the bits 0 to 2, such as
  -- O_TRUNC or O_APPEND alone: the check of access that `kopen` makes for this mode is the one for mode 0, to read alone,
  -- yet `kwrite` does to the file what `write_file` does.
  pub kwrite-unchecked :
      (text : List ℕ) (count : ℕ)
      → mode % 8 ≡ 0
      → mode ≢ 0
      → is_reg (minode s.fs p).inode.i_mode ≡ true
      → ((ip : Inode)
          → check_access_permission s.kernel ip mode ≡ check_access_permission s.kernel ip 0)
        × (kwrite undefined s (pos fd) text (pos count)
            ≡ (write_file s fd (text_of text) count >>= λ (n, s'). some (pos_result n s')))
  unfolding check_access_permission
  kwrite-unchecked text count low ne r = (
    λ ip. ground (arith),
    writes_entry (λ e. omega arith) (λ e. omega arith) text (pos count)
        ∙ (passes_write text (pos count) (ground arith) (ground (arith, ne))
            ∙ writes_file text count r),
  )
