-- ===== src/Files/Refs.antt =====
-- The reference counts of the open file table are the descriptors that refer to an entry, and entries in a pipe's mode
-- have pipes.
use xern.Base.{
  ℕ, ◌+◌, ◌<◌, ◌≡◌, ◌∙◌, ap, ◌⊎◌, false, Option, none, some, arith, ◌==◌, if◌then◌else◌, update,
  pos, sum_below, sum_below-alike, sum_below-update, le-sum_below,
}
use xern.Kernel.{Kernel, Proc, nprocs, proc_fd_max}
use xern.Files.{set_fd, curr_fd, read_pipe_mode, write_pipe_mode}

abbrev pub hits : ℕ → Option ℕ → ℕ
hits o none = 0
hits o (some a) = if a == o then 1 else 0

-- How many descriptors of a process refer to the entry `o`.
abbrev pub refs_of : ℕ → (ℕ → Option ℕ) → ℕ
refs_of o fd = sum_below proc_fd_max (λ i. hits o (fd i))

-- How many descriptors of all the processes do.
abbrev pub refs : ℕ → (ℕ → Proc) → ℕ
refs o procs = sum_below nprocs (λ p. refs_of o (procs p).fd)

-- Every entry's count is right, and an entry in use in the mode of a pipe has its pipe. The second leaves out directories:
-- O_DIRECTORY, and O_DIRECTORY with O_WRONLY, are the modes of pipes, but such an entry has none.
pub record FilesSound (k : Kernel) : Type 0 where
  pub counts : (o : ℕ) → (k.open_file_table o).refcount ≡ pos (refs o k.procs)
  pub piped :
      (o : ℕ)
      → 0 < refs o k.procs
      → ((k.open_file_table o).mode ≡ read_pipe_mode)
        ⊎ ((k.open_file_table o).mode ≡ write_pipe_mode)
      → (q : ℕ) × ((k.open_file_table o).p_ptr ≡ some q)
  pub running : k.curr_proc < nprocs

refs_of-update :
    (o : ℕ) (fd : ℕ → Option ℕ) (i : ℕ) (v : Option ℕ)
    → i < proc_fd_max
    → refs_of o (update fd i v) + hits o (fd i) ≡ refs_of o fd + hits o v
refs_of-update o fd i v h =
    ap (λ n. n + hits o (fd i))
      (sum_below-alike proc_fd_max (update (λ j. hits o (fd j)) i (hits o v))
        (λ j. hits o (update fd i v j)) (λ j low. ground arith))
    ∙ sum_below-update proc_fd_max (λ j. hits o (fd j)) i (hits o v) h

-- A write to a descriptor of the running process takes away the reference that was there and adds
-- the new one.
pub refs-set_fd :
    (k : Kernel) (o i : ℕ) (v : Option ℕ)
    → k.curr_proc < nprocs
    → i < proc_fd_max
    → refs o (set_fd k i v).procs + hits o (curr_fd k i) ≡ refs o k.procs + hits o v
refs-set_fd k o i v run h =
    let fd = (k.procs k.curr_proc).fd in
    let each = λ (p : ℕ). refs_of o (k.procs p).fd in
    omega (
      arith,
      sum_below-alike nprocs (update each k.curr_proc (refs_of o (update fd i v)))
          (λ p. refs_of o ((set_fd k i v).procs p).fd) (λ p low. ground arith),
      sum_below-update nprocs each k.curr_proc (refs_of o (update fd i v)) run,
      refs_of-update o fd i v h,
    )

-- A descriptor in use is one of its entry's references.
pub referred :
    (k : Kernel) (o i : ℕ)
    → k.curr_proc < nprocs
    → i < proc_fd_max
    → curr_fd k i ≡ some o
    → 0 < refs o k.procs
referred k o i run h e = omega (
  arith,
  one,
  le-sum_below proc_fd_max (λ j. hits o ((k.procs k.curr_proc).fd j)) i h,
  le-sum_below nprocs (λ p. refs_of o (k.procs p).fd) k.curr_proc run,
)
  where
    one : hits o (curr_fd k i) ≡ 1
    one = rw e (ground arith)

-- Processes that differ in other fields have the same descriptors.
pub refs-alike : (o : ℕ) (f g : ℕ → Proc) → ((p : ℕ) → (g p).fd ≡ (f p).fd) → refs o g ≡ refs o f
refs-alike o f g same =
    sum_below-alike nprocs (λ p. refs_of o (f p).fd) (λ p. refs_of o (g p).fd)
      (λ p low. ap (refs_of o) (same p))

pub hits_self : (o : ℕ) → hits o (some o) ≡ 1
hits_self o = ground arith

pub hits_other : (a o : ℕ) → (a == o) ≡ false → hits a (some o) ≡ 0
hits_other a o h = ground arith
