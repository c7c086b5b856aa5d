-- ===== src/Sync/Schedule.antt =====
-- `scheduler`: which process runs next, and the translation table that it runs under.
use xern.Base.{
  ℕ, ◌≤◌, ◌≡◌, refl, sym, ap, subst, inl, inr, false, Option, none, some, List, [], ◌∷◌, arith, has,
  ◌==◌, if◌then◌else◌, length, Bool-cases, All,
}
use xern.Kernel.{Kernel, Proc, nprocs}
use xern.Queue.{dequeue}
use xern.Queue.Chain.{Chain, insert}
use xern.Queue.Order.{enqueue_refines}
use xern.Queue.Priority.{Sorted, insert-Sorted}
use xern.Sync.{switch_to, scheduler, is_runnable}

-- What may run: the queue, with the running process put in unless it went to sleep or ended.
abbrev pub ready : Kernel → List ℕ → List ℕ
ready k ys = if is_runnable (k.procs k.curr_proc).state then insert k.procs k.curr_proc ys else ys

-- The processes whose `next` the scheduler may write.
abbrev pub relinks : Kernel → List ℕ → List ℕ
relinks k ys = if is_runnable (k.procs k.curr_proc).state then k.curr_proc ∷ ys else []

-- `x` runs, the runnable queue leads through `rest`, and `next` was written in `ts` at most.
pub record Scheduled (k : Kernel) (ts : List ℕ) (x : ℕ) (rest : List ℕ) (out : Option Kernel)
    : Type 0 where
  pub next : Kernel
  pub done : out ≡ some next
  pub runs : next.curr_proc ≡ x
  pub queue : Chain next.procs next.runnablequeue rest
  pub fields : (a : ℕ) → record (next.procs a) { next = none } ≡ record (k.procs a) { next = none }
  pub outside : (a : ℕ) → has a ts ≡ false → next.procs a ≡ k.procs a
  pub table : next.ttbr ≡ (k.procs x).pgdir
  pub others : next ≡ record k {
    procs = next.procs;
    curr_proc = next.curr_proc;
    runnablequeue = next.runnablequeue;
    ttbr = next.ttbr;
  }

module _ (k : Kernel) (under : k.ttbr ≡ (k.procs k.curr_proc).pgdir) where
  -- The choice, once the queue is in its final form.
  switch_to-Scheduled :
      (g : ℕ → Proc) (q : Option ℕ) (ts : List ℕ) (x : ℕ) (rest : List ℕ)
      → Chain g q (x ∷ rest)
      → ((a : ℕ) → record (g a) { next = none } ≡ record (k.procs a) { next = none })
      → ((a : ℕ) → has a ts ≡ false → g a ≡ k.procs a)
      → Scheduled k ts x rest
          (switch_to (record k { procs = g; runnablequeue = q }) k.curr_proc (dequeue g q))
  unfolding switch_to
  switch_to-Scheduled g none ts x rest c same out = cc
  switch_to-Scheduled g (some p) ts x rest (e, new, c) same out =
      let at : p ≡ x = cc in
      let pgdir = λ (a : ℕ). ap (λ (p : Proc). p.pgdir) (same a) in
      record {
        next = record k {
          procs = g;
          curr_proc = p;
          runnablequeue = (g p).next;
          ttbr = if (g p).pgdir == (g k.curr_proc).pgdir then k.ttbr else (g p).pgdir;
        };
        done = refl;
        runs = at;
        queue = subst (λ a. Chain g (g a).next rest) (sym at) c;
        fields = same;
        outside = out;
        table = ground (arith, pgdir p, pgdir k.curr_proc, under);
        others = refl;
      }

  -- With the running process off the queue `ys`, which has at most NPROCS processes, and its
  -- translation table loaded, `scheduler` takes the first `x` of the processes
  -- that may run, leaves the others queued in order, loads `x`'s translation table unless it is
  -- loaded already, and changes no field of a process but `next`.
  pub scheduler-Scheduled :
      (ys : List ℕ) (x : ℕ) (rest : List ℕ)
      → Chain k.procs k.runnablequeue ys
      → has k.curr_proc ys ≡ false
      → length ys ≤ nprocs
      → ready k ys ≡ x ∷ rest
      → Scheduled k (relinks k ys) x rest (scheduler k)
  unfolding scheduler
  scheduler-Scheduled ys x rest c off room e =
      elim (Bool-cases (is_runnable (k.procs k.curr_proc).state)) [
        | inl stays ↦
            let q = enqueue_refines k.procs k.runnablequeue k.curr_proc ys c off room in
            rw (stays, q.done)
              (switch_to-Scheduled q.table q.head (k.curr_proc ∷ ys) x rest
                (subst (Chain q.table q.head) (rw stays at e) q.chain) q.relinked.fields
                q.relinked.outside)
        | inr stops ↦ rw stops (
            switch_to-Scheduled k.procs k.runnablequeue [] x rest
              (subst (Chain k.procs k.runnablequeue) (rw stops at e) c) (λ a. refl) (λ a o. refl))
      ]

  -- With nothing to run, `scheduler` dereferences a NULL process.
  pub scheduler-fault :
      k.runnablequeue ≡ none → is_runnable (k.procs k.curr_proc).state ≡ false → scheduler k ≡ none
  unfolding scheduler switch_to
  scheduler-fault e stops = rw (stops, e) refl

-- The head of the processes that may run has the highest priority of them.
pub ready-highest :
    (k : Kernel) (ys : List ℕ) (x : ℕ) (rest : List ℕ)
    → Sorted k.procs ys
    → ready k ys ≡ x ∷ rest
    → All (λ y. (k.procs y).priority ≤ (k.procs x).priority) rest × Sorted k.procs rest
ready-highest k ys x rest s e = subst (Sorted k.procs) e (ready-Sorted)
  where
    ready-Sorted : Sorted k.procs (ready k ys)
    ready-Sorted = elim (Bool-cases (is_runnable (k.procs k.curr_proc).state)) [
      | inl stays ↦ rw stays (insert-Sorted k.procs k.curr_proc ys s)
      | inr stops ↦ rw stops s
    ]
