-- ===== src/Files/Dup.antt =====
-- `kdup2`: both descriptors refer to one entry, and the reference counts stay right.
use xern.Base.{
  ℕ, ◌+◌, ◌<◌, ◌≡◌, refl, ◌∙◌, sym, ap, subst, inl, inr, false, Option, none, some, arith, ◌==◌,
  List, ℤ, pos, inc, Bool-cases, ==_iff, ◌||◌, leb, Option-cases,
}
use xern.Kernel.{Kernel, proc_fd_max}
use xern.Sync.Wakeup.{Queues}
use xern.Files.{set_fd, set_oft, curr_fd, kdup2, dup_entry, dup_over, dup_old}
use xern.Files.Refs.{hits, refs, FilesSound, refs-set_fd, referred, hits_self, hits_other}
use xern.Files.Dropped.{IsPipeMode, Dropped-fd}
use xern.Files.Close.{kclose-Closed}

-- What `kdup2` onto descriptor `i` of an entry `o` leaves.
pub record Duped (k : Kernel) (i o : ℕ) (out : Option (ℤ × Kernel)) : Type 0 where
  pub next : Kernel
  pub done : out ≡ some (pos i, next)
  pub newfd : curr_fd next i ≡ some o
  pub fds : (j : ℕ) → (j == i) ≡ false → curr_fd next j ≡ curr_fd k j
  pub counted : FilesSound next

-- The kernel after the two writes of `kdup2`.
abbrev dup_result : Kernel → ℕ → ℕ → Kernel
dup_result k i o =
    set_oft (set_fd k i (some o)) o
      (record (k.open_file_table o) { refcount = inc (k.open_file_table o).refcount })

module _ (k : Kernel) (i o : ℕ) (c : FilesSound k) (low : i < proc_fd_max)
    (free : curr_fd k i ≡ none) (live : 0 < refs o k.procs) where
  refs_after : (a : ℕ) → refs a (dup_result k i o).procs ≡ refs a k.procs + hits a (some o)
  refs_after a = omega (arith, refs-set_fd k a i (some o) c.running low, ap (hits a) free)

  count_here :
      ((dup_result k i o).open_file_table o).refcount ≡ pos (refs o (dup_result k i o).procs)
  count_here = written ∙ ap inc (c.counts o) ∙ ap pos (omega (arith, refs_after o, hits_self o))
    where
      written : ((dup_result k i o).open_file_table o).refcount ≡ inc (k.open_file_table o).refcount
      written = ground arith

  count_there :
      (a : ℕ)
      → (a == o) ≡ false
      → ((dup_result k i o).open_file_table a).refcount ≡ pos (refs a (dup_result k i o).procs)
  count_there a ne = kept ∙ c.counts a ∙ ap pos (omega (arith, refs_after a, hits_other a o ne))
    where
      kept : ((dup_result k i o).open_file_table a).refcount ≡ (k.open_file_table a).refcount
      kept = rw ne

  counts_after :
      (a : ℕ)
      → ((dup_result k i o).open_file_table a).refcount ≡ pos (refs a (dup_result k i o).procs)
  counts_after a = elim (Bool-cases (a == o)) [
    | inl here ↦
        subst
          (λ b.
            ((dup_result k i o).open_file_table b).refcount ≡ pos (refs b (dup_result k i o).procs))
          (sym ((==_iff a o).0 here)) count_here
    | inr there ↦ count_there a there
  ]

  piped_after :
      (a : ℕ)
      → 0 < refs a (dup_result k i o).procs
      → IsPipeMode ((dup_result k i o).open_file_table a).mode
      → (q : ℕ) × (((dup_result k i o).open_file_table a).p_ptr ≡ some q)
  piped_after a used m =
      let (q, e) = c.piped a was_used (subst IsPipeMode same_mode m) in (q, same_pipe ∙ e)
    where
      same_mode : ((dup_result k i o).open_file_table a).mode ≡ (k.open_file_table a).mode
      same_mode = ground arith

      same_pipe : ((dup_result k i o).open_file_table a).p_ptr ≡ (k.open_file_table a).p_ptr
      same_pipe = ground arith

      was_used : 0 < refs a k.procs
      was_used = elim (Bool-cases (a == o)) [
        | inl here ↦ subst (λ b. 0 < refs b k.procs) (sym ((==_iff a o).0 here)) live
        | inr there ↦ omega (arith, refs_after a, hits_other a o there)
      ]

  dup_entry-Duped : (j : ℕ) → curr_fd k j ≡ some o → Duped k i o (dup_entry j i k)
  unfolding dup_entry
  dup_entry-Duped j e = record {
    next = dup_result k i o;
    done = rw e refl;
    newfd = ground arith;
    fds = λ j ne. ground arith;
    counted = record { counts = counts_after; piped = piped_after; running = c.running };
  }

module _ (k : Kernel) (i j o : ℕ) (xs ys : List ℕ) (c : FilesSound k) (qs : Queues k xs ys)
    (low_i : i < proc_fd_max) (low_j : j < proc_fd_max) (used : curr_fd k j ≡ some o) where
  not_past : (leb proc_fd_max j || leb proc_fd_max i) ≡ false
  not_past = ground arith

  -- Onto a free descriptor.
  dup_free : curr_fd k i ≡ none → Duped k i o (kdup2 k (pos j) (pos i))
  unfolding kdup2 dup_old dup_over
  dup_free free =
      rw (not_past, used, free)
        (dup_entry-Duped k i o c low_i free (referred k o j c.running low_j used) j used)

  -- Onto a descriptor in use, which is closed first.
  dup_busy :
      (p : ℕ) → curr_fd k i ≡ some p → (j == i) ≡ false → Duped k i o (kdup2 k (pos j) (pos i))
  unfolding kdup2 dup_old dup_over
  dup_busy p busy ne =
      let cl = kclose-Closed k i p xs ys c qs low_i busy in
      let closed_fd = Dropped-fd k i p cl.next cl.dropped in
      let here : curr_fd cl.next i ≡ none = closed_fd i ∙ ground arith in
      let there : curr_fd cl.next j ≡ some o = closed_fd j ∙ rw ne used in
      let d =
        dup_entry-Duped cl.next i o cl.counted low_i here
          (referred cl.next o j cl.counted.running low_j there) j there in
      rw (not_past, used, busy, cl.done)
        (record {
          next = d.next;
          done = d.done;
          newfd = d.newfd;
          fds = λ m n. d.fds m n ∙ (closed_fd m ∙ rw n refl);
          counted = d.counted;
        })

  -- With right reference counts, a pipe behind every used entry in a pipe's mode (so no directory
  -- opened with O_DIRECTORY, which is such a mode) and the queues in order, `kdup2` of a descriptor
  -- in use onto another one: afterwards both refer to the same entry, what
  -- the new one referred to before is closed, the other descriptors of the process are as
  -- before, and all reference counts are right.
  pub kdup2-Duped : (j == i) ≡ false → Duped k i o (kdup2 k (pos j) (pos i))
  kdup2-Duped ne = elim (Option-cases (curr_fd k i)) [
    | inl free ↦ dup_free free
    | inr (p, busy) ↦ dup_busy p busy ne
  ]

-- With right reference counts, a pipe behind every used entry in a pipe's mode and the queues in order, `kdup2` of a
-- descriptor in use onto itself
-- follows a NULL pointer: `kclose` clears the
-- descriptor before it is read again.
pub kdup2-self_fault :
    (k : Kernel) (i o : ℕ) (xs ys : List ℕ)
    → FilesSound k
    → Queues k xs ys
    → i < proc_fd_max
    → curr_fd k i ≡ some o
    → kdup2 k (pos i) (pos i) ≡ none
unfolding kdup2 dup_old dup_over dup_entry
kdup2-self_fault k i o xs ys c qs low used =
    let cl = kclose-Closed k i o xs ys c qs low used in
    let gone : curr_fd cl.next i ≡ none = Dropped-fd k i o cl.next cl.dropped i ∙ ground arith in
    rw (not_past k i i o xs ys c qs low low used, used)
      (rw (used, dup_old) (rw cl.done (rw gone refl)))
