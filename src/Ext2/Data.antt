-- ===== src/Ext2/Data.antt =====
-- The contents of regular files: `read_file` and `write_file` of XERN/fs/file.h and `klseek` of
-- XERN/fs/lseek.h. Sizes, offsets and counts are below 2^31 and offsets within what the double indirect
-- blocks reach (about 512 MB; behind that the code runs over its table of 512 entries). Messages to the
-- console are left out, and so are the block buffers, which are filled before they are used.
use xern.Base.{
  ℕ, zero, suc, ◌+◌, ◌-◌, ◌*◌, ◌/◌, ◌%◌, min, Bool, not, ◌||◌, Option, none, some, List, [], ◌∷◌,
  ◌++◌, ◌==◌, ltb, leb, if◌then◌else◌, ◌>>=◌, ℤ, pos, minus_one, length,
}
use xern.Kernel.{Kernel, proc_fd_max}
use xern.Files.{set_oft, curr_fd}
use xern.Permissions.{Inode}
use xern.Ext2.{Fs, blocksize, getblock, get32, minode}

-- The kernel's globals and those of the file system.
pub record Filing : Type 0 where
  pub kernel : Kernel
  pub fs : Fs

-- BLOCKSIZE/4
abbrev pub entries : ℕ
entries = 512

abbrev pub secs_per_blk : ℕ
secs_per_blk = 4

-- Entry `j` of the table of block numbers in block `t`.
abbrev pub entry : Fs → ℕ → ℕ → ℕ
entry fs t j = get32 (getblock fs t) (4 * j)

-- The block that holds block `lbk` of the file.
unfoldable pub block_of : Fs → Inode → ℕ → ℕ
block_of fs ip lbk =
    if ltb lbk 12
    then ip.i_block lbk
    else if ltb lbk (entries + 12)
    then entry fs (ip.i_block 12) (lbk - 12)
    else let l = lbk - (12 + entries) in
      entry fs (entry fs (ip.i_block 13) (l / entries)) (l % entries)

-- `n` bytes of `buf`, from `start` on.
unfoldable pub bytes_from : ℕ → (ℕ → ℕ) → ℕ → List ℕ
bytes_from zero buf start = []
bytes_from (suc n) buf start = buf start ∷ bytes_from n buf (suc start)

-- What one round copies: `size` or `n` bytes, and no more than the block has left.
abbrev pub round_len : (n size offset : ℕ) → ℕ
round_len n size offset = min (min size n) (blocksize - offset % blocksize)

-- The loop of `read_file`; a round copies at least a byte, so fuel `n` is enough.
unfoldable pub read_run : ℕ → Fs → Inode → (n size offset : ℕ) → List ℕ
read_run zero fs ip n size offset = []
read_run (suc fuel) fs ip n size offset =
    let len = round_len n size offset in
    let rest = read_run fuel fs ip (n - len) (size - len) (offset + len) in
    if n == 0 || size == 0
    then []
    else bytes_from len (getblock fs (block_of fs ip (offset / blocksize))) (offset % blocksize)
      ++ rest

-- The number returned, and the bytes stored from the start of the caller's buffer on: those of the file, with a NUL
-- behind them. A negative `count` does as 0.
unfoldable pub read_file : Filing → (fd count : ℕ) → Option (ℕ × List ℕ × Filing)
read_file s fd count = curr_fd s.kernel fd >>= λ o.
    let f = s.kernel.open_file_table o in
    f.m_ptr >>= λ p.
    let ip = (minode s.fs p).inode in
    let got = read_run count s.fs ip count (ip.i_size - f.offset) f.offset in
    some (
      length got,
      got ++ (0 ∷ []),
      record s { kernel = set_oft s.kernel o (record f { offset = f.offset + length got }) },
    )

abbrev pub seek_set : ℕ
seek_set = 0

abbrev pub seek_cur : ℕ
seek_cur = 1

abbrev pub seek_end : ℕ
seek_end = 2

-- S_ISREG and S_ISCHR
abbrev pub is_reg : ℕ → Bool
is_reg mode = mode / 4096 % 16 == 8

abbrev pub is_chr : ℕ → Bool
is_chr mode = mode / 4096 % 16 == 2

-- `klseek`; the first test of `fd` is on a number that is not negative.
unfoldable pub klseek : Filing → (fd offset whence : ℕ) → Option (ℤ × Filing)
klseek s fd offset whence =
    if leb proc_fd_max fd then some (minus_one, s) else elim (curr_fd s.kernel fd) [
      | none ↦ some (minus_one, s)
      | some o ↦
          let f = s.kernel.open_file_table o in
          f.m_ptr >>= λ p.
          let ip = (minode s.fs p).inode in
          let to = min offset ip.i_size in
          let moved : ℕ → Option (ℤ × Filing) =
            λ n. some (pos n, record s { kernel = set_oft s.kernel o (record f { offset = n }) }) in
          if not (is_reg ip.i_mode)
          then some (minus_one, s)
          else if whence == seek_set
          then moved to
          else if whence == seek_cur
          then moved (f.offset + to)
          else if whence == seek_end
          then moved (ip.i_size + to)
          else some (minus_one, s)
    ]
