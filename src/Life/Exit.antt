-- ===== src/Life/Exit.antt =====
-- `kexit`: what the process that ends leaves behind.
use xern.Base.{
  has, ◌-◌, ℕ, ◌≤◌, ◌<◌, ◌≡◌, refl, ◌∙◌, ap, sym, subst, true, false, Bool, Option, none, some,
  arith, ◌==◌, ℤ, pos,
}
use xern.Kernel.{Kernel, Proc, zombie, Oft, proc_event, nprocs, proc_fd_max}
use xern.Sync.{is_runnable}
use xern.Sync.Wakeup.{Queues-alike}
use xern.Sync.Again.{Stands}
use xern.Files.Refs.{FilesSound, refs, refs-alike}
use xern.Life.{running, kexit, close_all, adopt, end_with, end_process, is_child}
use xern.Life.Empty.{Emptied, Kept, close_all-Emptied}
use xern.Life.Adopt.{Adopted, adopt-Adopted, entry, moves}
use xern.Life.Finish.{Switched, finish-Switched}

-- The outcome of `kexit value` by the running process of `k`.
pub record Exited (k : Kernel) (value : ℤ) (out : Option Kernel) : Type 0 where
  pub next : Kernel
  pub done : out ≡ some next
  pub other : (next.curr_proc == k.curr_proc) ≡ false
  pub bound : next.ttbr ≡ (next.procs next.curr_proc).pgdir
  pub ended : (next.procs k.curr_proc).state ≡ zombie
  pub code : (next.procs k.curr_proc).exitcode ≡ value
  pub gone : (j : ℕ) → j < proc_fd_max → (next.procs k.curr_proc).fd j ≡ none
  pub orphans :
      (a : ℕ)
      → 2 ≤ a
      → a < nprocs
      → is_child k a ≡ true
      → ((next.procs a).ppid ≡ 1) × ((next.procs a).parent ≡ some 1)
  pub counts : (o : ℕ) → (next.open_file_table o).refcount ≡ pos (refs o next.procs)

-- An entry but for its parent.
abbrev apart_parent : Proc → Proc
apart_parent p = record p { ppid = 0; parent = none }

entry_alike :
    (k : Kernel) (a : ℕ) (b : Bool) → apart_parent (entry k a b) ≡ apart_parent (k.procs a)
entry_alike k a true = refl
entry_alike k a false = refl

-- `k1` after the descriptors are closed, `out` after the children are adopted.
module _ (k1 : Kernel) (value : ℤ) (out : Kernel × ℕ) (r : Adopted k1 2 62 0 out) where
  alike : (a : ℕ) → apart_parent (out.0.procs a) ≡ apart_parent (k1.procs a)
  alike a = ap apart_parent (r.fields a) ∙ entry_alike k1 a (moves k1 2 62 a)

  same_proc : out.0.curr_proc ≡ k1.curr_proc
  same_proc = ap (λ (n : Kernel). n.curr_proc) r.others

  end_next : (a : ℕ) → ((end_with out.0 value).procs a).next ≡ (k1.procs a).next
  end_next a = ground arith ∙ ap (λ (p : Proc). p.next) (alike a)

  end_priority : (a : ℕ) → ((end_with out.0 value).procs a).priority ≡ (k1.procs a).priority
  end_priority a = ground arith ∙ ap (λ (p : Proc). p.priority) (alike a)

  end_fd : (a : ℕ) → ((end_with out.0 value).procs a).fd ≡ (k1.procs a).fd
  end_fd a = ground arith ∙ ap (λ (p : Proc). p.fd) (alike a)

  end_ppid : (a : ℕ) → moves k1 2 62 a ≡ true → ((end_with out.0 value).procs a).ppid ≡ 1
  end_ppid a h = ground arith ∙ (ap (λ (p : Proc). p.ppid) (r.fields a) ∙ rw h refl)

  end_parent : (a : ℕ) → moves k1 2 62 a ≡ true → ((end_with out.0 value).procs a).parent ≡ some 1
  end_parent a h = ground arith ∙ (ap (λ (p : Proc). p.parent) (r.fields a) ∙ rw h refl)

  end_state : (running (end_with out.0 value)).state ≡ zombie
  end_state = ground arith

  end_code : (running (end_with out.0 value)).exitcode ≡ value
  end_code = ground arith

  end_Stands : Stands k1 1 → Stands (end_with out.0 value) 1
  end_Stands s = record {
    xs = s.xs;
    ys = s.ys;
    queues =
        Queues-alike k1 (end_with out.0 value) (ap (λ (n : Kernel). n.sleepqueue) r.others)
          (ap (λ (n : Kernel). n.runnablequeue) r.others) end_next end_priority s.queues;
    off = record {
      not_asleep = ap (λ a. has a s.xs) same_proc ∙ s.off.not_asleep;
      not_queued = ap (λ a. has a s.ys) same_proc ∙ s.off.not_queued;
      enough = s.off.enough;
    };
  }

  end_bound :
      k1.ttbr ≡ (running k1).pgdir
      → (end_with out.0 value).ttbr ≡ (running (end_with out.0 value)).pgdir
  end_bound under = ap (λ (n : Kernel). n.ttbr) r.others ∙ (under ∙ sym written)
    where
      written : (running (end_with out.0 value)).pgdir ≡ (running k1).pgdir
      written =
          ground arith
          ∙ (ap (λ (p : Proc). p.pgdir) (alike out.0.curr_proc)
              ∙ ap (λ a. (k1.procs a).pgdir) same_proc)

module _ (k k1 : Kernel) (kept : Kept k k1) where
  same_pid : (running k1).pid ≡ (running k).pid
  same_pid =
      ap (λ a. (k1.procs a).pid) kept.same_proc
      ∙ ap (λ (x : ℕ × ℕ × Option ℕ × ℕ). x.0) (kept.kin k.curr_proc)

  same_pgdir : (running k1).pgdir ≡ (running k).pgdir
  same_pgdir =
      ap (λ a. (k1.procs a).pgdir) kept.same_proc
      ∙ ap (λ (x : ℕ × ℕ × Option ℕ × ℕ). x.3) (kept.kin k.curr_proc)

  same_ppid : (a : ℕ) → (k1.procs a).ppid ≡ (k.procs a).ppid
  same_ppid a = ap (λ (x : ℕ × ℕ × Option ℕ × ℕ). x.1) (kept.kin a)

  child-moves : (a : ℕ) → 2 ≤ a → a < nprocs → is_child k a ≡ true → moves k1 2 62 a ≡ true
  child-moves a low high h = ground (arith, h, low, high, kept.live a, same_ppid a, same_pid)

module _ (k : Kernel) (value : ℤ) (c : FilesSound k) (s : Stands k 1)
    (not_init : ((running k).pid == 1) ≡ false) (under : k.ttbr ≡ (running k).pgdir) where
  closed : Emptied k 0 1 (close_all proc_fd_max 0 k)
  closed = close_all-Emptied proc_fd_max 0 1 k (omega arith) c s

  taken : Adopted closed.next 2 62 0 (adopt (nprocs - 2) 2 0 closed.next)
  taken = adopt-Adopted 62 2 0 closed.next

  abbrev taken_out : Kernel × ℕ
  taken_out = adopt (nprocs - 2) 2 0 closed.next

  switched : Switched (end_with taken_out.0 value) (end_process value taken_out)
  unfolding end_process
  switched =
      finish-Switched (end_with taken_out.0 value) _ (proc_event 1) (taken_out.1 == 0)
        (end_Stands closed.next value taken_out taken closed.stands)
        (ap is_runnable (end_state closed.next value taken_out taken))
        (end_bound closed.next value taken_out taken
          (closed.kept.same_table ∙ (under ∙ sym (same_pgdir k closed.next closed.kept))))

  -- The descriptor tables at the end are those after the loop over the descriptors.
  last_fds : (a : ℕ) → (switched.next.procs a).fd ≡ (closed.next.procs a).fd
  last_fds a =
      ap (λ (p : Proc). p.fd) (switched.through.fields a)
      ∙ end_fd closed.next value taken_out taken a

  last_counts :
      (o : ℕ) → (switched.next.open_file_table o).refcount ≡ pos (refs o switched.next.procs)
  last_counts o =
      ap (λ (t : ℕ → Oft). (t o).refcount)
        (switched.through.files ∙ ap (λ (n : Kernel). n.open_file_table) taken.others)
      ∙ (closed.counted.counts o
          ∙ ap pos (sym (refs-alike o closed.next.procs switched.next.procs last_fds)))

  abbrev ender : ℕ
  ender = taken_out.0.curr_proc

  at : ender ≡ k.curr_proc
  at = same_proc closed.next value taken_out taken ∙ closed.kept.same_proc

  -- With right reference counts, a pipe behind every used entry in a pipe's mode (so no directory
  -- opened with O_DIRECTORY, which is such a mode), queues in order and a runnable process behind
  -- the running one, which is not process 1 and under its own page directory, `kexit` returns in
  -- another process: the old one is ZOMBIE with the exit code and no open descriptor, its children
  -- among the processes from 2 on have process 1 as parent, by number and by pointer, the
  -- reference counts are right again, and the new process's page directory is loaded.
  pub kexit-Exited : Exited k value (kexit value k)
  unfolding kexit
  kexit-Exited =
      rw (not_init, closed.done)
        (record {
          next = switched.next;
          done = switched.done;
          other = subst (λ a. (switched.next.curr_proc == a) ≡ false) at switched.other;
          bound = switched.bound;
          ended =
              subst (λ a. (switched.next.procs a).state ≡ zombie) at
                (switched.through.state ∙ end_state closed.next value taken_out taken);
          code =
              subst (λ a. (switched.next.procs a).exitcode ≡ value) at
                (ap (λ (p : Proc). p.exitcode) (switched.through.fields ender)
                  ∙ end_code closed.next value taken_out taken);
          gone = λ j low.
              ap (λ (f : ℕ → Option ℕ). f j) (last_fds k.curr_proc)
              ∙ (ap (λ a. (closed.next.procs a).fd j) (sym closed.kept.same_proc)
                  ∙ closed.gone j (omega arith) low);
          orphans = λ a low high child.
              let moved = child-moves k closed.next closed.kept a low high child in
              (
                ap (λ (p : Proc). p.ppid) (switched.through.fields a)
                    ∙ end_ppid closed.next value taken_out taken a moved,
                ap (λ (p : Proc). p.parent) (switched.through.fields a)
                    ∙ end_parent closed.next value taken_out taken a moved,
              );
          counts = last_counts;
        })
