-- ===== src/Files.antt =====
-- File descriptors: the open file table (`oft_alloc` and `oft_dalloc` of XERN/fs/utils.h), closing
-- (XERN/fs/close.h and `close_pipe` of XERN/pipe.c) and XERN/fs/dup.h. Messages to the console are
-- left out. `none` is a fault: a NULL pointer followed.
pub mod Refs
pub mod Dropped
pub mod Closing
pub mod Close
pub mod Dup
pub mod Directory
use xern.Base.{
  ℕ, zero, suc, ◌+◌, Bool, true, false, not, ◌||◌, Option, none, some, List, [], ◌∷◌, ◌++◌, ◌==◌,
  ltb, leb, if◌then◌else◌, length, take, min, update, ◌>>=◌, scan, ℤ, pos, negsuc, minus_one, inc,
  dec, is_zero, is_positive,
}
use xern.Kernel.{Kernel, Proc, Oft, Pipe, Event, pipe_event, proc_fd_max, nofts, npipes}
use xern.Sync.{sleep, wakeup}
use xern.Strings.{strlen}
use xern.Pipe.{read_loop, write_loop}

abbrev pub read_pipe_mode : ℕ
read_pipe_mode = 4

abbrev pub write_pipe_mode : ℕ
write_pipe_mode = 5

abbrev pub set_oft : Kernel → ℕ → Oft → Kernel
set_oft k i o = record k { open_file_table = update k.open_file_table i o }

abbrev pub set_pipe : Kernel → ℕ → Pipe → Kernel
set_pipe k i p = record k { pipes = update k.pipes i p }

-- `curr_proc->fd[i] = o`
abbrev pub set_fd : Kernel → ℕ → Option ℕ → Kernel
set_fd k i o =
    let p = k.procs k.curr_proc in
    record k { procs = update k.procs k.curr_proc (record p { fd = update p.fd i o }) }

abbrev pub curr_fd : Kernel → ℕ → Option ℕ
curr_fd k i = (k.procs k.curr_proc).fd i

-- `oft_alloc`: the first entry with no reference, which now has one.
unfoldable pub oft_alloc : Kernel → Option ℕ × Kernel
oft_alloc k = elim (scan nofts 0 (λ i. is_zero (k.open_file_table i).refcount)) [
  | none ↦ (none, k)
  | some i ↦ (some i, set_oft k i (record (k.open_file_table i) { refcount = pos 1 }))
]

-- `oft_dalloc` clears the pointers. The count of references stays.
unfoldable pub oft_dalloc : Kernel → ℕ → Kernel
oft_dalloc k i = set_oft k i (record (k.open_file_table i) { m_ptr = none; p_ptr = none })

-- `if(p) oft_dalloc(p)`
abbrev pub oft_dalloc_if : Kernel → Option ℕ → Kernel
oft_dalloc_if k none = k
oft_dalloc_if k (some i) = oft_dalloc k i

-- `close_pipe` by the mode of the entry, with the descriptor cleared already: `o` is the entry,
-- `q` its pipe.
unfoldable pub close_reader : ℕ → ℕ → Kernel → Kernel
close_reader o q k =
    let p = record (k.pipes q) { nread = dec (k.pipes q).nread } in
    let e = record (k.open_file_table o) { refcount = dec (k.open_file_table o).refcount } in
    set_pipe (set_oft k o e) q (
      if is_zero e.refcount
      then (if is_positive p.nwrite then p else record p { used = false })
      else p)

unfoldable pub close_writer : ℕ → ℕ → Kernel → Option Kernel
close_writer o q k =
    let p = record (k.pipes q) { nwrite = dec (k.pipes q).nwrite } in
    let e = record (k.open_file_table o) { refcount = dec (k.open_file_table o).refcount } in
    if is_zero e.refcount
    then (if is_positive p.nread
        then wakeup (pipe_event q) (set_pipe (set_oft k o e) q p)
        else some (set_pipe (set_oft k o e) q (record p { used = false })))
    else wakeup (pipe_event q) (set_pipe (set_oft k o e) q p)

unfoldable pub close_pipe : Kernel → ℕ → Option (ℤ × Kernel)
close_pipe k fd = curr_fd k fd >>= λ o. (k.open_file_table o).p_ptr >>= λ q.
    let k' = set_fd k fd none in
    let mode = (k.open_file_table o).mode in
    if mode == read_pipe_mode
    then some (pos 0, close_reader o q k')
    else (if mode == write_pipe_mode
        then (close_writer o q k' >>= λ k''. some (pos 0, k''))
        else some (minus_one, k'))

-- `kclose` on an entry that is no pipe
unfoldable pub close_file : ℕ → ℕ → Kernel → ℤ × Kernel
close_file fd o k =
    let e = record (k.open_file_table o) { refcount = dec (k.open_file_table o).refcount } in
    let k' = set_oft (set_fd k fd none) o e in
    (pos 0, if is_positive e.refcount then k' else oft_dalloc k' o)

unfoldable pub close_entry : ℕ → Option ℕ → Kernel → Option (ℤ × Kernel)
close_entry fd none k = some (minus_one, k)
close_entry fd (some o) k =
    let mode = (k.open_file_table o).mode in
    if (mode == read_pipe_mode) || (mode == write_pipe_mode)
    then close_pipe k fd
    else some (close_file fd o k)

unfoldable pub kclose : Kernel → ℤ → Option (ℤ × Kernel)
kclose k (negsuc n) = some (minus_one, k)
kclose k (pos fd) =
    if leb proc_fd_max fd then some (minus_one, k) else close_entry fd (curr_fd k fd) k

-- The two writes at the end of `kdup2`. The entry is read again, after the `kclose`.
unfoldable pub dup_entry : ℕ → ℕ → Kernel → Option (ℤ × Kernel)
dup_entry oldfd newfd k = curr_fd k oldfd >>= λ o.
    let k' = set_fd k newfd (some o) in
    let e = k'.open_file_table o in
    some (pos newfd, set_oft k' o (record e { refcount = inc e.refcount }))

unfoldable pub dup_over : ℕ → ℕ → Option ℕ → Kernel → Option (ℤ × Kernel)
dup_over oldfd newfd none k = dup_entry oldfd newfd k
dup_over oldfd newfd (some o) k = kclose k (pos newfd) >>= λ (r, k'). dup_entry oldfd newfd k'

unfoldable pub dup_old : ℕ → ℕ → Option ℕ → Kernel → Option (ℤ × Kernel)
dup_old oldfd newfd none k = some (minus_one, k)
dup_old oldfd newfd (some o) k = dup_over oldfd newfd (curr_fd k newfd) k

unfoldable pub kdup2 : Kernel → ℤ → ℤ → Option (ℤ × Kernel)
kdup2 k (negsuc m) newfd = some (minus_one, k)
kdup2 k (pos oldfd) (negsuc n) = some (minus_one, k)
kdup2 k (pos oldfd) (pos newfd) =
    if leb proc_fd_max oldfd || leb proc_fd_max newfd
    then some (minus_one, k)
    else dup_old oldfd newfd (curr_fd k oldfd) k
