-- ===== src/Sync/Sleep.antt =====
-- `sleep`: the running process goes to the sleeping queue and another one runs.
use xern.Base.{
  ℕ, ◌≡◌, refl, sym, ◌∙◌, ap, false, Option, none, some, List, ◌∷◌, arith, has, ◌==◌, if◌then◌else◌,
}
use xern.Kernel.{Kernel, Proc, Event, sleeping}
use xern.Queue.Chain.{Chain, insert, frame}
use xern.Queue.Order.{Relinked, enqueue_refines}
use xern.Sync.{sleep, put_to_sleep, is_runnable}
use xern.Sync.Wake.{insert_alike, Apart, Apart-symm, Apart-cons}
use xern.Sync.Wakeup.{Queues}
use xern.Sync.Schedule.{scheduler-Scheduled}

-- After `sleep e` of `k`'s running process, with sleepers `xs`: `y` runs and `rest` may run.
pub record Slept (k : Kernel) (e : Event) (xs : List ℕ) (y : ℕ) (rest : List ℕ)
    (out : Option Kernel) : Type 0 where
  pub next : Kernel
  pub done : out ≡ some next
  pub runs : next.curr_proc ≡ y
  pub running : Chain next.procs next.runnablequeue rest
  pub asleep : Chain next.procs next.sleepqueue (insert k.procs k.curr_proc xs)
  pub fields :
      (a : ℕ)
      → record (next.procs a) { next = none }
        ≡ record (if a == k.curr_proc
            then record (k.procs k.curr_proc) { event = e; state = sleeping }
            else k.procs a) { next = none }
  pub table : next.ttbr ≡ (k.procs y).pgdir

-- `g` is the table of `k` with the running process put to sleep and queued behind or before `xs`.
module _ (k : Kernel) (e : Event) (xs : List ℕ) (g : ℕ → Proc)
    (rel : Relinked (put_to_sleep k.procs k.curr_proc e) g (k.curr_proc ∷ xs)) where
  asleep_now : is_runnable (g k.curr_proc).state ≡ false
  asleep_now = ap (λ (q : Proc). is_runnable q.state) (rel.fields k.curr_proc) ∙ ground arith

  same_pgdir : (a : ℕ) → (g a).pgdir ≡ (k.procs a).pgdir
  same_pgdir a = ap (λ (q : Proc). q.pgdir) (rel.fields a) ∙ ground arith

  runners_stay :
      (ys : List ℕ)
      → Chain k.procs k.runnablequeue ys
      → has k.curr_proc ys ≡ false
      → Apart xs ys
      → Chain g k.runnablequeue ys
  runners_stay ys c off apart = frame k.procs g k.runnablequeue k.runnablequeue ys c refl λ a i.
      ap (λ (q : Proc). q.next)
        (rel.outside a (Apart-cons k.curr_proc ys xs off (Apart-symm xs ys apart) a i))
      ∙ ground arith

  sleepers_queued :
      (h : Option ℕ) (next : Kernel)
      → Chain g h (insert (put_to_sleep k.procs k.curr_proc e) k.curr_proc xs)
      → ((a : ℕ) → next.procs a ≡ g a)
      → next.sleepqueue ≡ h
      → Chain next.procs next.sleepqueue (insert k.procs k.curr_proc xs)
  sleepers_queued h next c same at =
      let f1 = put_to_sleep k.procs k.curr_proc e in
      rw (← insert_alike k.procs f1 (λ a. ground arith) k.curr_proc xs) (
        frame g next.procs h next.sleepqueue (insert f1 k.curr_proc xs) c at
          (λ a i. ap (λ (q : Proc). q.next) (same a)))

module _ (k : Kernel) (e : Event) (xs : List ℕ) where
  -- With sleepers `xs` and `y` at the head of the runnable queue, and the running process in neither
  -- queue, `sleep e` switches to `y` under its translation table; the process that slept stands
  -- in the sleeping queue by its priority, in state SLEEPING with event `e`, and no other field of
  -- a process but `next` changed.
  pub sleep-Slept :
      (y : ℕ) (rest : List ℕ)
      → Queues k xs (y ∷ rest)
      → has k.curr_proc xs ≡ false
      → has k.curr_proc (y ∷ rest) ≡ false
      → k.ttbr ≡ (k.procs k.curr_proc).pgdir
      → Slept k e xs y rest (sleep e k)
  unfolding sleep
  sleep-Slept y rest q off_x off_y under =
      let p = k.curr_proc in
      let f1 = put_to_sleep k.procs p e in
      let s =
        enqueue_refines f1 k.sleepqueue p xs
          (frame k.procs f1 k.sleepqueue k.sleepqueue xs q.asleep refl (λ a i. ground arith)) off_x
          (omega (arith, q.room)) in
      let k1 : Kernel = record k { procs = s.table; sleepqueue = s.head } in
      let z =
        scheduler-Scheduled k1 (under ∙ sym (same_pgdir k e xs s.table s.relinked p)) (y ∷ rest) y
          rest (runners_stay k e xs s.table s.relinked (y ∷ rest) q.running off_y q.apart) off_y
          (omega (arith, q.room)) (rw (asleep_now k e xs s.table s.relinked)) in
      record {
        next = z.next;
        done = rw s.done z.done;
        runs = z.runs;
        running = z.queue;
        asleep =
            sleepers_queued k e xs s.table s.relinked s.head z.next s.chain
              (λ a. z.outside a (rw (asleep_now k e xs s.table s.relinked)))
              (ap (λ (n : Kernel). n.sleepqueue) z.others);
        fields = λ a. z.fields a ∙ s.relinked.fields a;
        table = z.table ∙ same_pgdir k e xs s.table s.relinked y;
      }
