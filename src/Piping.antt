-- ===== src/Piping.antt =====
-- The system calls on pipes of XERN/pipe.c, but for `close_pipe`.
pub mod Reading
pub mod Writing
use xern.Base.{
  ℕ, zero, suc, ◌+◌, Bool, true, false, not, ◌||◌, Option, none, some, List, [], ◌∷◌, ◌++◌, ◌==◌,
  ltb, leb, if◌then◌else◌, length, take, min, update, ◌>>=◌, scan, ℤ, pos, negsuc, minus_one, inc,
  dec, is_zero, is_positive,
}
use xern.Kernel.{Kernel, Proc, Oft, Pipe, Event, pipe_event, proc_fd_max, nofts, npipes}
use xern.Sync.{sleep, wakeup}
use xern.Strings.{strlen}
use xern.Pipe.{read_loop, write_loop}
use xern.Files.{
  read_pipe_mode, write_pipe_mode, set_oft, set_pipe, set_fd, curr_fd, oft_alloc, oft_dalloc,
  oft_dalloc_if,
}

-- The loop of `kpipe` over the descriptors: the first two that are free.
unfoldable pub free_fds : ℕ → ℕ → (ℕ → Option ℕ) → List ℕ → List ℕ
free_fds zero i fd fds = fds
free_fds (suc n) i fd fds =
    let fds' : List ℕ = elim (fd i) [ none ↦ fds ++ (i ∷ []) | some o ↦ fds ] in
    elim (length fds' == 2) [ true ↦ fds' | false ↦ free_fds n (suc i) fd fds' ]

-- What a call leaves: its result, the descriptors written to `pipefd`, and the kernel.
abbrev pub PipeReply : Type 0
PipeReply = ℤ × List ℕ × Kernel

unfoldable pub set_used : Kernel → ℕ → Bool → Kernel
set_used k q b = set_pipe k q (record (k.pipes q) { used = b })

-- `kpipe` with the pipe `q`, the entries `a` and `b`, and the free descriptors found
unfoldable pub pipe_fds : ℕ → ℕ → ℕ → List ℕ → Kernel → PipeReply
pipe_fds q a b (r ∷ w ∷ rest) k =
    let p = record (k.pipes q) { r_off = 0; w_off = 0; count = 0; nread = pos 1; nwrite = pos 1 } in
    let reader = record (k.open_file_table a) {
      mode = read_pipe_mode;
      p_ptr = some q;
      m_ptr = none;
    } in
    let writer = record (k.open_file_table b) {
      mode = write_pipe_mode;
      p_ptr = some q;
      m_ptr = none;
    } in
    (
      pos 0,
      r ∷ w ∷ [],
      set_fd (set_fd (set_oft (set_oft (set_pipe k q p) a reader) b writer) r (some a)) w (some b),
    )
pipe_fds q a b (r ∷ []) k = (minus_one, [], set_used (oft_dalloc (oft_dalloc k a) b) q false)
pipe_fds q a b [] k = (minus_one, [], set_used (oft_dalloc (oft_dalloc k a) b) q false)

unfoldable pub pipe_ofts : ℕ → Option ℕ → Option ℕ → Kernel → PipeReply
pipe_ofts q (some a) (some b) k =
    pipe_fds q a b (free_fds proc_fd_max 0 (k.procs k.curr_proc).fd []) k
pipe_ofts q none b k = (minus_one, [], set_used (oft_dalloc_if k b) q false)
pipe_ofts q (some a) none k = (minus_one, [], set_used (oft_dalloc k a) q false)

unfoldable pub kpipe : Kernel → PipeReply
kpipe k = elim (scan npipes 0 (λ i. not (k.pipes i).used)) [
  | none ↦ (minus_one, [], k)
  | some q ↦
      let (a, k1) = oft_alloc (set_used k q true) in
      let (b, k2) = oft_alloc k1 in pipe_ofts q a b k2
]

-- How a call of `read_pipe` ends for now: with a result and the bytes stored in the buffer, those
-- of the pipe and a NUL behind them, or asleep, to
-- go on at `try_again` with `count` when it is chosen again, in the kernel of that time.
pub data PipeRead : Type 0 where
  got : ℤ → List ℕ → Kernel → PipeRead
  asleep : ℕ → Kernel → PipeRead
  fault : PipeRead

-- `read_pipe` from the label `try_again` on
unfoldable pub try_again : ℕ → ℕ → Kernel → PipeRead
try_again q zero k =
    if is_positive (k.pipes q).nwrite
    then (elim (sleep (pipe_event q) k) [ none ↦ fault | some k' ↦ asleep 0 k' ])
    else got minus_one [] k
try_again q (suc n) k =
    let (bytes, p) = read_loop (suc n) (k.pipes q) in
    got (pos (suc n)) (bytes ++ (0 ∷ [])) (set_pipe k q p)

-- `count` becomes the number of bytes that the pipe holds, if that is smaller.
unfoldable pub read_from : Option ℕ → ℕ → Kernel → PipeRead
read_from none count k = fault
read_from (some q) count k =
    try_again q (if ltb count (k.pipes q).count then count else (k.pipes q).count) k

unfoldable pub read_pipe : Kernel → ℕ → ℤ → PipeRead
read_pipe k fd (negsuc n) = got minus_one [] k
read_pipe k fd (pos count) = read_from (curr_fd k fd >>= λ o. (k.open_file_table o).p_ptr) count k

-- `buf` is the caller's memory from the address that it passed on.
unfoldable pub write_bytes : ℕ → ℤ → ℕ → List ℕ → Kernel → Option (ℤ × Kernel)
write_bytes q (negsuc n) len buf k = wakeup (pipe_event q) k >>= λ k'. some (negsuc n, k')
write_bytes q (pos n) len buf k =
    let count = if ltb len n then len else n in
    wakeup (pipe_event q) (set_pipe k q (write_loop (take count buf) (k.pipes q))) >>= λ k'.
    some (pos count, k')

unfoldable pub write_pipe : Kernel → ℕ → List ℕ → ℤ → Option (ℤ × Kernel)
write_pipe k fd buf count = curr_fd k fd >>= λ o. (k.open_file_table o).p_ptr >>= λ q.
    if is_zero (k.pipes q).nread
    then some (minus_one, k)
    else (strlen buf >>= λ len. write_bytes q count len buf k)
