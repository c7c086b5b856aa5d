-- ===== src/Sync.antt =====
-- Sleeping, waking and switching: XERN/include/sync.h and `scheduler` of XERN/sysinit.c.
-- `switch_context` (assembly) saves the registers of the running process, calls `scheduler` and
-- restores those of the process that it chose: here it is `scheduler`, and the code of the old
-- process behind the call runs when it is chosen again. `none` is a fault: a NULL process, or a
-- queue of more than NPROCS nodes.
pub mod Wake
pub mod Take
pub mod Leave
pub mod Loop
pub mod Wakeup
pub mod Sleep
pub mod Schedule
pub mod Again
use xern.Base.{
  ℕ, zero, suc, Bool, true, false, Option, none, some, if◌then◌else◌, update, ◌>>=◌, ◌==◌,
}
use xern.Kernel.{
  Kernel, Proc, ProcState, unused, block, zombie, sleeping, runnable, Event, same_event, nprocs,
}
use xern.Queue.{enqueue, dequeue}

abbrev pub set_state : (ℕ → Proc) → ℕ → ProcState → ℕ → Proc
set_state procs p s = update procs p (record (procs p) { state = s })

abbrev pub is_runnable : ProcState → Bool
is_runnable runnable = true
is_runnable unused = false
is_runnable block = false
is_runnable zombie = false
is_runnable sleeping = false

abbrev pub is_unused : ProcState → Bool
is_unused unused = true
is_unused block = false
is_unused zombie = false
is_unused sleeping = false
is_unused runnable = false

-- The process that `scheduler` takes, and the table base if it differs from the old one.
unfoldable pub switch_to : Kernel → (old : ℕ) → Option ℕ × Option ℕ → Option Kernel
switch_to k old (none, rest) = none
switch_to k old (some p, rest) = some (record k {
  curr_proc = p;
  runnablequeue = rest;
  ttbr = if (k.procs p).pgdir == (k.procs old).pgdir then k.ttbr else (k.procs p).pgdir;
})

unfoldable pub scheduler : Kernel → Option Kernel
scheduler k =
    let old = k.curr_proc in
    if is_runnable (k.procs old).state
    then (enqueue k.procs k.runnablequeue old >>= λ (procs, queue).
        switch_to (record k { procs = procs; runnablequeue = queue }) old (dequeue procs queue))
    else switch_to k old (dequeue k.procs k.runnablequeue)

abbrev pub put_to_sleep : (ℕ → Proc) → ℕ → Event → ℕ → Proc
put_to_sleep procs p e = update procs p (record (procs p) { event = e; state = sleeping })

-- `sleep`
unfoldable pub sleep : Event → Kernel → Option Kernel
sleep e k =
    enqueue (put_to_sleep k.procs k.curr_proc e) k.sleepqueue k.curr_proc >>= λ (procs, queue).
    scheduler (record k { procs = procs; sleepqueue = queue })

-- The loop of `wakeup`: the queue left to take from, the runnable queue, and `tmp`.
unfoldable pub wake_loop :
    ℕ
    → Event
    → (ℕ → Proc)
    → (sleepers run tmp : Option ℕ) → Option ((ℕ → Proc) × Option ℕ × Option ℕ)
wake_loop zero e procs sleepers run tmp = none
wake_loop (suc fuel) e procs none run tmp = some (procs, run, tmp)
wake_loop (suc fuel) e procs (some p) run tmp = elim (same_event (procs p).event e) [
  | true ↦ enqueue (set_state procs p runnable) run p >>= λ (procs', run').
      wake_loop fuel e procs' (procs p).next run' tmp
  | false ↦
      enqueue procs tmp p >>= λ (procs', tmp'). wake_loop fuel e procs' (procs p).next run tmp'
]

-- `wakeup`. A queue of NPROCS nodes takes NPROCS + 1 tests of the loop.
unfoldable pub wakeup : Event → Kernel → Option Kernel
wakeup e k =
    wake_loop (suc nprocs) e k.procs k.sleepqueue k.runnablequeue none >>= λ (procs, run, tmp).
    some (record k { procs = procs; runnablequeue = run; sleepqueue = tmp })
