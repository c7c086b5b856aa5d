-- ===== src/Tests/Scheduling.antt =====
-- The theorems on queues, sleeping, waking and switching at a concrete kernel.
use xern.Base.{refl, ◌∷◌, [], List, ℕ, some, arith}
use xern.Kernel.{pipe_event}
use xern.Queue.{enqueue}
use xern.Queue.Chain.{insert}
use xern.Queue.Order.{Enqueued, enqueue_refines}
use xern.Queue.Fifo.{Queued, enqueue-Queued}
use xern.Sync.{wakeup, sleep, scheduler}
use xern.Sync.Wakeup.{Queues, Awake, wakeup-Awake}
use xern.Sync.Schedule.{Scheduled, scheduler-Scheduled, relinks}
use xern.Sync.Sleep.{Slept, sleep-Slept}
use xern.Tests.{demo, demo_procs}

abbrev pub asleep_ones : List ℕ
asleep_ones = 4 ∷ 5 ∷ 6 ∷ []

abbrev pub runnable_ones : List ℕ
runnable_ones = 2 ∷ 3 ∷ []

pub demo-Queues : Queues demo asleep_ones runnable_ones
demo-Queues = record {
  asleep = (refl, refl, (refl, refl, (refl, refl, refl)));
  running = (refl, refl, (refl, refl, refl));
  apart = λ a i. ground arith;
  room = omega arith;
  sorted = omega arith;
}

wakeup-Awake_example :
    Awake demo (pipe_event 0) asleep_ones runnable_ones (wakeup (pipe_event 0) demo)
wakeup-Awake_example = wakeup-Awake demo (pipe_event 0) asleep_ones runnable_ones demo-Queues

enqueue-Queued_example : Queued demo_procs 1 runnable_ones (enqueue demo_procs (some 2) 1)
enqueue-Queued_example =
    enqueue-Queued demo_procs (some 2) 1 runnable_ones demo-Queues.running refl (omega arith)
      (omega arith)

enqueue_refines_example : Enqueued demo_procs 1 runnable_ones (enqueue demo_procs (some 2) 1)
enqueue_refines_example =
    enqueue_refines demo_procs (some 2) 1 runnable_ones demo-Queues.running refl (omega arith)

-- 1 goes behind 2 and 3, of its own priority, and 2 runs.
scheduler-Scheduled_example :
    Scheduled demo (relinks demo runnable_ones) 2 (3 ∷ 1 ∷ []) (scheduler demo)
unfolding insert
scheduler-Scheduled_example =
    scheduler-Scheduled demo refl runnable_ones 2 (3 ∷ 1 ∷ []) demo-Queues.running refl
      (omega arith) refl

sleep-Slept_example : Slept demo (pipe_event 0) asleep_ones 2 (3 ∷ []) (sleep (pipe_event 0) demo)
sleep-Slept_example =
    sleep-Slept demo (pipe_event 0) asleep_ones 2 (3 ∷ []) demo-Queues refl refl refl
