-- ===== src/Life.antt =====
-- System calls on processes: XERN/exit.c, XERN/kill.c, and of XERN/kfuncs.c those that read or set
-- the identity of the running process. Messages to the console are left out; `none` is a fault.
pub mod Empty
pub mod Adopt
pub mod Finish
pub mod Exit
pub mod Kill
pub mod Family
use xern.Base.{
  ℕ, zero, suc, ◌-◌, ◌+◌, Bool, true, false, not, ◌&&◌, Option, none, some, ◌==◌, if◌then◌else◌,
  update, ◌>>=◌, scan, ℤ, pos, negsuc, minus_one,
}
use xern.Kernel.{
  Kernel, Proc, ProcState, unused, block, zombie, sleeping, runnable, proc_event, event_of, nprocs,
  proc_fd_max,
}
use xern.Sync.{wakeup, scheduler, is_unused}
use xern.Files.{curr_fd, kclose}

abbrev pub running : Kernel → Proc
running k = k.procs k.curr_proc

abbrev pub set_proc : Kernel → ℕ → Proc → Kernel
set_proc k i p = record k { procs = update k.procs i p }

abbrev pub is_zombie : ProcState → Bool
is_zombie zombie = true
is_zombie unused = false
is_zombie block = false
is_zombie sleeping = false
is_zombie runnable = false

abbrev pub kgetpid : Kernel → ℕ
kgetpid k = (running k).pid

abbrev pub kgetppid : Kernel → ℕ
kgetppid k = (running k).ppid

abbrev pub kgetuid : Kernel → ℕ
kgetuid k = (running k).uid

abbrev pub kgetgid : Kernel → ℕ
kgetgid k = (running k).gid

unfoldable pub ksetuid : Kernel → ℤ → ℤ × Kernel
ksetuid k (negsuc n) = (minus_one, k)
ksetuid k (pos uid) = (pos 0, set_proc k k.curr_proc (record (running k) { uid = uid }))

unfoldable pub ksetgid : Kernel → ℤ → ℤ × Kernel
ksetgid k (negsuc n) = (minus_one, k)
ksetgid k (pos gid) = (pos 0, set_proc k k.curr_proc (record (running k) { gid = gid }))

abbrev pub user_exit_addr : ℕ
user_exit_addr = 0x80000004

-- The test of the loop in `kkill`.
abbrev pub is_target : Kernel → ℕ → ℕ → Bool
is_target k pid i =
    ((k.procs i).pid == pid)
    && (not (is_zombie (k.procs i).state) && not (is_unused (k.procs i).state))

-- The process returns from the kernel to the exit call at `user_exit_addr`.
abbrev pub send_to_exit : Kernel → ℕ → Kernel
send_to_exit k i =
    let p = k.procs i in set_proc k i (record p { tf = record p.tf { lr = user_exit_addr } })

unfoldable pub kkill : Kernel → ℤ → ℤ × Kernel
kkill k (negsuc n) = (minus_one, k)
kkill k (pos pid) =
    if pid == 1 then (minus_one, k) else elim (scan (nprocs - 2) 2 (is_target k pid)) [
      | none ↦ (minus_one, k)
      | some i ↦ (pos 0, send_to_exit k i)
    ]

-- The loop of `kexit` over the descriptors from `i` on.
unfoldable pub close_all : ℕ → ℕ → Kernel → Option Kernel
close_all zero i k = some k
close_all (suc n) i k = elim (curr_fd k i) [
  | none ↦ close_all n (suc i) k
  | some o ↦ kclose k (pos i) >>= λ (r, k'). close_all n (suc i) k'
]

abbrev pub is_child : Kernel → ℕ → Bool
is_child k i = not (is_unused (k.procs i).state) && ((k.procs i).ppid == (running k).pid)

-- Process 1 becomes the parent.
abbrev pub reparent : Kernel → ℕ → Kernel
reparent k i = set_proc k i (record (k.procs i) { ppid = 1; parent = some 1 })

-- The loop of `kexit` over the processes from `i` on, with the children counted so far.
unfoldable pub adopt : ℕ → ℕ → ℕ → Kernel → Kernel × ℕ
adopt zero i w k = (k, w)
adopt (suc n) i w k = elim (is_child k i) [
  | true ↦ adopt n (suc i) (suc w) (reparent k i)
  | false ↦ adopt n (suc i) w k
]

abbrev pub end_with : Kernel → ℤ → Kernel
end_with k value = set_proc k k.curr_proc (record (running k) { exitcode = value; state = zombie })

-- `kexit` from the exit code on, in the kernel after `adopt`.
unfoldable pub end_process : ℤ → Kernel × ℕ → Option Kernel
end_process value (k, w) = wakeup (event_of (running k).parent) (end_with k value) >>= λ k'.
    (if w == 0 then some k' else wakeup (proc_event 1) k') >>= scheduler

unfoldable pub kexit : ℤ → Kernel → Option Kernel
kexit value k =
    if (running k).pid == 1
    then some k
    else (close_all proc_fd_max 0 k >>= λ k'. end_process value (adopt (nprocs - 2) 2 0 k'))
