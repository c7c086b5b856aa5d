-- ===== src/Kernel.antt =====
-- The kernel's global state: XERN/include/globals.h with the types of XERN/include/proc.h and
-- XERN/include/types.h, and the limits of XERN/include/param.h. A pointer into one of the global
-- arrays is an index, a pointer that may be NULL an `Option`; an array is a table from its indices.
use xern.Base.{ℕ, ◌==◌, Bool, true, false, List, Option, none, some, ℤ}

abbrev pub nprocs : ℕ
nprocs = 64

abbrev pub proc_fd_max : ℕ
proc_fd_max = 10

abbrev pub nofts : ℕ
nofts = 100

abbrev pub npipes : ℕ
npipes = 24

abbrev pub pipesize : ℕ
pipesize = 8192

abbrev pub stacksize : ℕ
stacksize = 1024

-- `enum procstate`
pub data ProcState : Type 0 where
  unused block zombie sleeping runnable : ProcState

-- What a process sleeps on. The source uses the address of the object as an `int`: a process, the
-- `data` field of a pipe, or NULL (the initial value, and the parent of a process without one).
pub data Event : Type 0 where
  null_event : Event
  proc_event : ℕ → Event
  pipe_event : ℕ → Event

-- Equality of two such addresses.
abbrev pub same_event : Event → Event → Bool
same_event null_event null_event = true
same_event null_event (proc_event j) = false
same_event null_event (pipe_event j) = false
same_event (proc_event i) null_event = false
same_event (proc_event i) (proc_event j) = i == j
same_event (proc_event i) (pipe_event j) = false
same_event (pipe_event i) null_event = false
same_event (pipe_event i) (proc_event j) = false
same_event (pipe_event i) (pipe_event j) = i == j

-- `(int)p` of a pointer to a process
abbrev pub event_of : Option ℕ → Event
event_of none = null_event
event_of (some p) = proc_event p

-- `struct context`: `sp` is an index into the process's `kstack`, `r` the table of `r0` to `r12`.
pub record Context : Type 0 where
  pub sp : ℕ
  pub r : ℕ → ℕ
  pub lr : ℕ

-- `struct trapframe`, the user registers
pub record Trapframe : Type 0 where
  pub r : ℕ → ℕ
  pub lr : ℕ
  pub sp : ℕ
  pub cpsr : ℕ

-- A pointer to an inode in memory: the static `root_inode`, or a slot of `minodes`.
pub data InodePtr : Type 0 where
  root_inode : InodePtr
  minode_slot : ℕ → InodePtr

-- `struct proc`. The two register blocks lie in `kstack` and do not overlap (words 993 to 1007 and
-- 1008 to 1023), so they are fields of their own. Text is the bytes before the NUL.
pub record Proc : Type 0 where
  pub next : Option ℕ
  pub context : Context
  pub tf : Trapframe
  pub size : ℕ
  pub pgdir : ℕ
  pub state : ProcState
  pub priority : ℕ
  pub pid : ℕ
  pub ppid : ℕ
  pub parent : Option ℕ
  pub event : Event
  pub exitcode : ℤ
  pub uid : ℕ
  pub gid : ℕ
  pub fd : ℕ → Option ℕ
  pub cwd : InodePtr
  pub name : List ℕ
  pub brk_start : ℕ
  pub owner_name : List ℕ

-- `struct oft`, an entry of the open file table
pub record Oft : Type 0 where
  pub mode : ℕ
  pub refcount : ℤ
  pub m_ptr : Option InodePtr
  pub p_ptr : Option ℕ
  pub offset : ℕ

-- `struct pipe`
pub record Pipe : Type 0 where
  pub buf : ℕ → ℕ
  pub r_off : ℕ
  pub w_off : ℕ
  pub nwrite : ℤ
  pub nread : ℤ
  pub count : ℕ
  pub used : Bool

-- The globals that the process, file descriptor and pipe components share. A pointer that the
-- source never leaves NULL while it is used, `curr_proc`, is an index.
pub record Kernel : Type 0 where
  pub procs : ℕ → Proc
  pub curr_proc : ℕ
  pub runnablequeue : Option ℕ
  pub sleepqueue : Option ℕ
  pub freequeue : Option ℕ
  pub open_file_table : ℕ → Oft
  pub pipes : ℕ → Pipe
  -- the translation table base that `switchuvm` loads
  pub ttbr : ℕ
