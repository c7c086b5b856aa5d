-- ===== src/Life/Family.antt =====
-- Parents and children: XERN/fork.c and XERN/wait.c, which also give out and take back memory. `none` is a
-- fault.
pub mod Wait
use xern.Base.{
  ℕ, zero, suc, ◌-◌, Bool, ◌&&◌, Option, none, some, ◌==◌, if◌then◌else◌, update, ◌>>=◌, scan, take,
  ℤ, pos, minus_one, inc,
}
use xern.Kernel.{Kernel, Proc, Oft, unused, runnable, proc_event, nprocs, proc_fd_max, stacksize}
use xern.Queue.{allocproc, dallocproc, enqueue}
use xern.Sync.{sleep}
use xern.Files.{curr_fd, set_oft, set_pipe, read_pipe_mode, write_pipe_mode}
use xern.Memory.{Machine, freeuvm}
use xern.Memory.Uvm.{copyuvm}
use xern.Life.{running, set_proc, is_zombie, is_child}

abbrev pub with_kernel : Machine → Kernel → Machine
with_kernel m k = record m { kernel = k }

-- The value and the status that `kwait` returns, or a parent that sleeps in the loop until a child ends.
pub data Waited : Type 0 where
  childless : Waited
  ended : (pid : ℕ) → (status : ℤ) → Machine → Waited
  asleep : Machine → Waited

abbrev pub has_ended : Kernel → ℕ → Bool
has_ended k i = is_zombie (k.procs i).state && ((k.procs i).ppid == (running k).pid)

abbrev pub reap : Machine → ℕ → Machine
reap m i =
    let k = m.kernel in
    let m' = freeuvm (with_kernel m (set_proc k i (record (k.procs i) { state = unused }))) i in
    with_kernel m' (dallocproc m'.kernel i)

-- A round of the outer loop, where a parent that slept goes on too.
unfoldable pub wait_round : Machine → Option Waited
wait_round m =
    let k = m.kernel in
    elim (scan (nprocs - 2) 2 (has_ended k)) [
      | some i ↦ some (ended (k.procs i).pid (k.procs i).exitcode (reap m i))
      | none ↦ sleep (proc_event k.curr_proc) k >>= λ k'. some (asleep (with_kernel m k'))
    ]

unfoldable pub kwait : Machine → Option Waited
kwait m = elim (scan (nprocs - 1) 1 (is_child m.kernel)) [
  | none ↦ some childless
  | some i ↦ wait_round m
]

-- The fields that a child takes from its parent, and its own. `ret` is the address of `return_to_usermode`.
abbrev pub child_of : (ret parent : ℕ) → Proc → Proc → Proc
child_of ret parent p np = record np {
  size = p.size;
  brk_start = p.brk_start;
  state = runnable;
  parent = some parent;
  priority = p.priority;
  ppid = p.pid;
  uid = p.uid;
  gid = p.gid;
  cwd = p.cwd;
  name = take 255 p.name;
  owner_name = take 64 p.owner_name;
  context = record { sp = stacksize - 30; r = λ i. 0; lr = ret };
  tf = record { r = λ i. 0; lr = p.tf.lr; sp = p.tf.sp; cpsr = p.tf.cpsr };
}

-- One more end of the pipe behind an entry, if there is one.
unfoldable pub share_pipe : Kernel → Oft → Option Kernel
share_pipe k e =
    if e.mode == read_pipe_mode
    then (e.p_ptr >>= λ q.
        some (set_pipe k q (record (k.pipes q) { nread = inc (k.pipes q).nread })))
    else if e.mode == write_pipe_mode
    then (e.p_ptr >>= λ q.
        some (set_pipe k q (record (k.pipes q) { nwrite = inc (k.pipes q).nwrite })))
    else some k

-- The loop over the descriptors.
unfoldable pub share_fds : ℕ → (i np : ℕ) → Kernel → Option Kernel
share_fds zero i np k = some k
share_fds (suc n) i np k =
    let p = k.procs np in
    let k' = set_proc k np (record p { fd = update p.fd i (curr_fd k i) }) in
    elim (curr_fd k i) [
      | none ↦ share_fds n (suc i) np k'
      | some o ↦
          let e = record (k.open_file_table o) { refcount = inc (k.open_file_table o).refcount } in
          share_pipe (set_oft k' o e) e >>= share_fds n (suc i) np
    ]

unfoldable pub kfork : (ret : ℕ) → Machine → Option (ℤ × Machine)
kfork ret m =
    let (slot, k) = allocproc m.kernel in
    elim slot [
      | none ↦ some (minus_one, m)
      | some np ↦
          let (copied, m') = copyuvm (with_kernel m k) np k.curr_proc in
          if copied
          then (let k' = m'.kernel in
              let born = set_proc k' np (child_of ret k'.curr_proc (running k') (k'.procs np)) in
              share_fds proc_fd_max 0 np born >>= λ k''.
              enqueue k''.procs k''.runnablequeue np >>= λ (procs, queue). some (
                pos (k''.procs np).pid,
                with_kernel m' (record k'' { procs = procs; runnablequeue = queue }),
              ))
          else some (minus_one, with_kernel m' (dallocproc m'.kernel np))
    ]
