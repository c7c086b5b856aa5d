-- ===== src/Tests.antt =====
-- Concrete kernels on which the theorems are applied.
mod Scheduling
mod Descriptors
mod Text
mod Exiting
mod Permitted
mod Printed
mod Paged
mod Filed
mod Searched
mod Entered
mod Called
mod Commanded
use xern.Base.{
  ℕ, ◌+◌, ◌*◌, Bool, true, false, Option, none, some, List, [], ◌∷◌, ◌==◌, ltb, if◌then◌else◌, ℤ,
  pos,
}
use xern.Kernel.{
  Kernel, Proc, Oft, Pipe, Context, Trapframe, ProcState, unused, runnable, sleeping, Event,
  null_event, proc_event, pipe_event, InodePtr, root_inode, nprocs,
}

abbrev pub no_context : Context
no_context = record { sp = 0; r = λ i. 0; lr = 0 }

abbrev pub no_tf : Trapframe
no_tf = record { r = λ i. 0; lr = 0; sp = 0; cpsr = 16 }

-- A process with the fields that the scheduler reads.
abbrev pub proc : ℕ → ProcState → ℕ → Event → Option ℕ → (ℕ → Option ℕ) → Proc
proc i st prio e n fds = record {
  next = n;
  context = no_context;
  tf = no_tf;
  size = 0;
  pgdir = 0x600000 + i * 0x4000;
  state = st;
  priority = prio;
  pid = i;
  ppid = 1;
  parent = some 1;
  event = e;
  exitcode = pos 0;
  uid = 0;
  gid = 0;
  fd = fds;
  cwd = root_inode;
  name = [];
  brk_start = 0;
  owner_name = [];
}

abbrev pub no_fds : ℕ → Option ℕ
no_fds i = none

-- The running process has entry 0 on descriptor 0 and entry 1, the write end of pipe 0, on 3; the
-- read end, entry 2, is on 4.
abbrev pub fds_of_one : ℕ → Option ℕ
fds_of_one i = if i == 0 then some 0 else if i == 3 then some 1 else if i == 4 then some 2 else none

-- 1 runs; 2 and 3 are runnable; 4, 5 and 6 sleep, 4 and 6 on pipe 0.
abbrev pub demo_procs : ℕ → Proc
demo_procs i =
    if i == 1
    then proc 1 runnable 1 null_event none fds_of_one
    else if i == 2
    then proc 2 runnable 1 null_event (some 3) no_fds
    else if i == 3
    then proc 3 runnable 1 null_event none no_fds
    else if i == 4
    then proc 4 sleeping 2 (pipe_event 0) (some 5) no_fds
    else if i == 5
    then proc 5 sleeping 1 (proc_event 5) (some 6) no_fds
    else if i == 6
    then proc 6 sleeping 1 (pipe_event 0) none no_fds
    else proc i unused 0 null_event none no_fds

abbrev pub demo_ofts : ℕ → Oft
demo_ofts i = record {
  mode = if i == 1 then 5 else if i == 2 then 4 else 0;
  refcount = if ltb i 3 then pos 1 else pos 0;
  m_ptr = none;
  p_ptr = if i == 1 then some 0 else if i == 2 then some 0 else none;
  offset = 0;
}

-- Pipe 0 holds the two bytes 7 and 8, across the end of the ring.
abbrev pub demo_pipe : Pipe
demo_pipe = record {
  buf = λ i. if i == 0 then 8 else 7;
  r_off = 8191;
  w_off = 8193;
  nwrite = pos 1;
  nread = pos 1;
  count = 2;
  used = true;
}

abbrev pub empty_pipe : Pipe
empty_pipe = record demo_pipe { r_off = 0; w_off = 0; count = 0 }

abbrev pub demo : Kernel
demo = record {
  procs = demo_procs;
  curr_proc = 1;
  runnablequeue = some 2;
  sleepqueue = some 4;
  freequeue = some 7;
  open_file_table = demo_ofts;
  pipes = λ i. if i == 0 then demo_pipe else empty_pipe;
  ttbr = 0x604000;
}
