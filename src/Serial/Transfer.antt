-- ===== src/Serial/Transfer.antt =====
-- Reading and writing by a descriptor: XERN/fs/read.h and XERN/fs/write.h, which choose between files, pipes and the devices
-- of XERN/fs/device.h. Messages to the console are left out.
use xern.Base.{
  ℕ, ◌/◌, ◌%◌, not, ◌&&◌, Option, none, some, List, [], ◌==◌, leb, if◌then◌else◌, ◌>>=◌, ℤ, pos,
  negsuc, minus_one, is_zero, pos_part,
}
use xern.Kernel.{InodePtr, proc_fd_max}
use xern.Files.{read_pipe_mode, write_pipe_mode, curr_fd}
use xern.Piping.{PipeRead, read_pipe, write_pipe}
use xern.Paths.Break.{text_of}
use xern.Permissions.{bit}
use xern.Ext2.{minode}
use xern.Ext2.Data.{Filing, read_file, is_reg, is_chr}
use xern.Ext2.Writing.{write_file, paste}
use xern.Serial.{LineRead, serial_read, serial_write}

-- How `kread` ends: with a result and the caller's buffer, at the console, where `none` waits for a key, or as `read_pipe`
-- does.
pub data ReadEnd : Type 0 where
  fault : ReadEnd
  returned : ℤ → (ℕ → ℕ) → Filing → ReadEnd
  from_console : Option LineRead → ReadEnd
  from_pipe : PipeRead → ReadEnd

-- Row 0 of `devsw` does nothing, and what its function returns is not defined: `undefined`.
unfoldable pub read_device : (undefined : ℤ) → (major : ℕ) → Filing → (ℕ → ℕ) → ℤ → List ℕ → ReadEnd
read_device undefined major s buf count keys =
    if leb 3 major
    then returned minus_one buf s
    else if major == 0
    then returned undefined buf s
    else from_console (serial_read keys count buf 0)

-- The mode of the file decides.
unfoldable pub read_inode :
    (undefined : ℤ) → Filing → (fd : ℕ) → InodePtr → (ℕ → ℕ) → ℤ → List ℕ → ReadEnd
read_inode undefined s fd p buf count keys =
    let ip = (minode s.fs p).inode in
    let file : ReadEnd = elim (read_file s fd (pos_part count)) [
      | none ↦ fault
      | some (n, bytes, s') ↦ returned (pos n) (paste buf 0 bytes) s'
    ] in
    if is_chr ip.i_mode
    then read_device undefined (ip.i_block 0 / 256 % 256) s buf count keys
    else if is_reg ip.i_mode
    then file
    else returned minus_one buf s

-- The tests on an entry that is no pipe. A NULL pointer to the inode is a fault.
unfoldable pub read_entry : (undefined : ℤ) → Filing → (fd o : ℕ) → (ℕ → ℕ) → ℤ → List ℕ → ReadEnd
read_entry undefined s fd o buf count keys =
    let f = s.kernel.open_file_table o in
    elim f.m_ptr [
      | none ↦ fault
      | some p ↦
          if is_zero (minode s.fs p).refcount
          then returned minus_one buf s
          else if bit f.mode 2 == 1
          then returned minus_one buf s
          else if (bit f.mode 0 == 1) && not (bit f.mode 1 == 1)
          then returned minus_one buf s
          else read_inode undefined s fd p buf count keys
    ]

unfoldable pub kread :
    (undefined : ℤ) → Filing → (fd : ℤ) → (ℕ → ℕ) → (count : ℤ) → (keys : List ℕ) → ReadEnd
kread undefined s (negsuc n) buf count keys = returned minus_one buf s
kread undefined s (pos fd) buf count keys =
    if leb proc_fd_max fd then returned minus_one buf s else elim (curr_fd s.kernel fd) [
      | none ↦ returned minus_one buf s
      | some o ↦
          let mode = (s.kernel.open_file_table o).mode in
          if mode == read_pipe_mode
          then from_pipe (read_pipe s.kernel fd count)
          else if mode == write_pipe_mode
          then returned minus_one buf s
          else read_entry undefined s fd o buf count keys
    ]

-- The result, what was sent to the console, and the state. `buf` is the caller's memory from the address on.
abbrev pub Written : Type 0
Written = Option (ℤ × List ℕ × Filing)

unfoldable pub write_device : (undefined : ℤ) → (major : ℕ) → Filing → List ℕ → ℤ → Written
write_device undefined major s buf count =
    if leb 3 major
    then some (minus_one, [], s)
    else if major == 0
    then some (undefined, [], s)
    else serial_write buf count >>= λ (n, out). some (n, out, s)

unfoldable pub write_inode : (undefined : ℤ) → Filing → (fd : ℕ) → InodePtr → List ℕ → ℤ → Written
write_inode undefined s fd p buf count =
    let ip = (minode s.fs p).inode in
    if is_chr ip.i_mode
    then write_device undefined (ip.i_block 0 / 256 % 256) s buf count
    else if is_reg ip.i_mode
    then (write_file s fd (text_of buf) (pos_part count) >>= λ (n, s'). some (n, [], s'))
    else some (minus_one, [], s)

unfoldable pub write_entry : (undefined : ℤ) → Filing → (fd o : ℕ) → List ℕ → ℤ → Written
write_entry undefined s fd o buf count =
    let f = s.kernel.open_file_table o in
    f.m_ptr >>= λ p.
    if is_zero (minode s.fs p).refcount
    then some (minus_one, [], s)
    else if bit f.mode 2 == 1
    then some (minus_one, [], s)
    else if f.mode == 0
    then some (minus_one, [], s)
    else write_inode undefined s fd p buf count

unfoldable pub kwrite : (undefined : ℤ) → Filing → (fd : ℤ) → List ℕ → (count : ℤ) → Written
kwrite undefined s (negsuc n) buf count = some (minus_one, [], s)
kwrite undefined s (pos fd) buf count =
    if leb proc_fd_max fd then some (minus_one, [], s) else elim (curr_fd s.kernel fd) [
      | none ↦ some (minus_one, [], s)
      | some o ↦
          let mode = (s.kernel.open_file_table o).mode in
          if mode == write_pipe_mode
          then (write_pipe s.kernel fd buf count >>= λ (n, k).
              some (n, [], record s { kernel = k }))
          else if mode == read_pipe_mode
          then some (minus_one, [], s)
          else write_entry undefined s fd o buf count
    ]
