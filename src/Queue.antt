-- ===== src/Queue.antt =====
-- The process queues of XERN/include/queue.h: lists linked through `proc.next`, kept by priority.
-- The two in use are `runnablequeue` and `sleepqueue`; `freequeue` is a stack of unused processes.
pub mod Chain
pub mod Order
pub mod Priority
pub mod Fifo
use xern.Base.{
  ℕ, zero, suc, Bool, true, false, Option, none, some, ltb, leb, if◌then◌else◌, update, ◌>>=◌,
}
use xern.Kernel.{Proc, Kernel, nprocs}

-- The table of processes with the `next` of `p` written.
abbrev pub set_next : (ℕ → Proc) → ℕ → Option ℕ → ℕ → Proc
set_next procs p n = update procs p (record (procs p) { next = n })

-- The `while` loop of `enqueue`: the node behind which `p` goes. A queue holds at most NPROCS
-- nodes; `none` means that more were met.
unfoldable pub walk : ℕ → (ℕ → Proc) → ℕ → ℕ → Option ℕ
walk zero procs p q = none
walk (suc fuel) procs p q = elim (procs q).next [
  | none ↦ some q
  | some r ↦ elim (leb (procs p).priority (procs r).priority) [
    | true ↦ walk fuel procs p r
    | false ↦ some q
  ]
]

-- The two writes that put `p` behind `q`.
abbrev pub link : (ℕ → Proc) → ℕ → ℕ → ℕ → Proc
link procs p q = set_next (set_next procs p (procs q).next) q (some p)

-- The result is the table and the new head of the queue.
unfoldable pub enqueue : (ℕ → Proc) → Option ℕ → ℕ → Option ((ℕ → Proc) × Option ℕ)
enqueue procs none p = some (set_next procs p none, some p)
enqueue procs (some q) p =
    if ltb (procs q).priority (procs p).priority
    then some (set_next procs p (some q), some p)
    else walk nprocs procs p q >>= λ r. some (link procs p r, some q)

-- The node taken off, and the new head.
abbrev pub dequeue : (ℕ → Proc) → Option ℕ → Option ℕ × Option ℕ
dequeue procs none = (none, none)
dequeue procs (some p) = (some p, (procs p).next)

unfoldable pub allocproc : Kernel → Option ℕ × Kernel
allocproc k = elim k.freequeue [
  | none ↦ (none, k)
  | some p ↦ (some p, record k { freequeue = (k.procs p).next })
]

unfoldable pub dallocproc : Kernel → ℕ → Kernel
dallocproc k p = record k { procs = set_next k.procs p k.freequeue; freequeue = some p }
