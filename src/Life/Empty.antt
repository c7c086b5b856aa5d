-- ===== src/Life/Empty.antt =====
-- The loop of `kexit` over the descriptors.
use xern.Base.{
  ◌⊎◌, ℕ, zero, suc, ◌+◌, ◌≤◌, ◌<◌, ◌≡◌, refl, ◌∙◌, ap, inl, inr, false, Option, none, some, arith,
  Option-cases,
}
use xern.Kernel.{Kernel, proc_fd_max}
use xern.Sync.{is_unused}
use xern.Sync.Again.{Stands}
use xern.Files.{curr_fd}
use xern.Files.Refs.{FilesSound}
use xern.Files.Dropped.{family, Dropped-fd}
use xern.Files.Close.{kclose-Stands}
use xern.Life.{close_all}

-- What closing leaves of the processes.
pub record Kept (k k' : Kernel) : Type 0 where
  pub same_proc : k'.curr_proc ≡ k.curr_proc
  pub kin : (p : ℕ) → family (k'.procs p) ≡ family (k.procs p)
  pub live : (p : ℕ) → is_unused (k.procs p).state ≡ false → is_unused (k'.procs p).state ≡ false
  pub same_table : k'.ttbr ≡ k.ttbr

-- The outcome of closing the descriptors from `i` on, with at least `n` processes runnable.
pub record Emptied (k : Kernel) (i n : ℕ) (out : Option Kernel) : Type 0 where
  pub next : Kernel
  pub done : out ≡ some next
  pub gone : (j : ℕ) → i ≤ j → j < proc_fd_max → curr_fd next j ≡ none
  pub before : (j : ℕ) → j < i → curr_fd next j ≡ curr_fd k j
  pub counted : FilesSound next
  pub stands : Stands next n
  pub kept : Kept k next

-- One round that ended in `k'`, with descriptor `i` unused.
later :
    (k k' : Kernel) (i n : ℕ) (out : Option Kernel)
    → curr_fd k' i ≡ none
    → ((j : ℕ) → j < i → curr_fd k' j ≡ curr_fd k j)
    → Kept k k'
    → Emptied k' (suc i) n out
    → Emptied k i n out
later k k' i n out free below kept e = record {
  next = e.next;
  done = e.done;
  gone = λ j low high. elim (eq_or_lt i j low) [
    | inl here ↦ ap (curr_fd e.next) here ∙ (e.before i (omega arith) ∙ free)
    | inr there ↦ e.gone j there high
  ];
  before = λ j low. e.before j (omega arith) ∙ below j low;
  counted = e.counted;
  stands = e.stands;
  kept = record {
    same_proc = e.kept.same_proc ∙ kept.same_proc;
    kin = λ p. e.kept.kin p ∙ kept.kin p;
    live = λ p h. e.kept.live p (kept.live p h);
    same_table = e.kept.same_table ∙ kept.same_table;
  };
}
  where
    eq_or_lt : (i j : ℕ) → i ≤ j → (j ≡ i) ⊎ (suc i ≤ j)
    eq_or_lt i j h = grind arith

-- From descriptor `i` on, the loop closes every descriptor in use, and leaves the reference counts
-- right and the queues in order with no fewer processes runnable.
pub close_all-Emptied :
    (m i n : ℕ) (k : Kernel)
    → i + m ≡ proc_fd_max
    → FilesSound k
    → Stands k n
    → Emptied k i n (close_all m i k)
unfolding close_all
close_all-Emptied zero i n k end c s = record {
  next = k;
  done = refl;
  gone = λ j low high. absurd (omega arith);
  before = λ j low. refl;
  counted = c;
  stands = s;
  kept = record { same_proc = refl; kin = λ p. refl; live = λ p h. h; same_table = refl };
}
close_all-Emptied (suc m) i n k end c s = elim (Option-cases (curr_fd k i)) [
  | inl free ↦
      rw (free, close_all)
        (later k k i n _ free (λ j low. refl)
          (record { same_proc = refl; kin = λ p. refl; live = λ p h. h; same_table = refl })
          (close_all-Emptied m (suc i) n k (omega arith) c s))
  | inr (o, used) ↦
      let (cl, stands) = kclose-Stands k i o s.xs s.ys c s.queues (omega arith) used n s.off in
      let fd = Dropped-fd k i o cl.next cl.dropped in
      rw (used, close_all)
        (rw cl.done (
          later k cl.next i n _ (fd i ∙ ground arith) (λ j low. fd j ∙ ground arith)
            (record {
              same_proc = cl.dropped.same_proc;
              kin = cl.dropped.kin;
              live = cl.dropped.live;
              same_table = cl.dropped.same_table;
            })
            (close_all-Emptied m (suc i) n cl.next (omega arith) cl.counted stands)))
]
