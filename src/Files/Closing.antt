-- ===== src/Files/Closing.antt =====
-- What each way of closing a descriptor does to the counts and to the queues.
use xern.Base.{
  ℕ, ◌≡◌, refl, ◌∙◌, ap, inl, inr, false, Option, none, some, arith, ◌==◌, List, dec, is_zero,
  is_positive, Bool-cases, ◌||◌,
}
use xern.Kernel.{Kernel, Proc, Oft, Pipe, Event, pipe_event}
use xern.Sync.{wakeup, is_unused}
use xern.Sync.Wakeup.{Queues, Queues-alike, Awake, wakeup-Awake}
use xern.Sync.Again.{Off, Stands, wakeup-Stands}
use xern.Files.{
  set_fd, set_oft, set_pipe, read_pipe_mode, write_pipe_mode, close_file, close_reader,
  close_writer, oft_dalloc,
}
use xern.Files.Dropped.{family, Dropped}

module _ (k : Kernel) (i o : ℕ) where
  pub close_file-Dropped :
      ((k.open_file_table o).mode == read_pipe_mode
          || (k.open_file_table o).mode == write_pipe_mode)
        ≡ false
      → Dropped k i o (close_file i o k).1
  unfolding close_file oft_dalloc
  close_file-Dropped plain = elim (Bool-cases (is_positive (dec (k.open_file_table o).refcount))) [
    | inl more ↦ rw more (record {
      same_proc = refl;
      fds = λ p. refl;
      count = ground arith;
      others = λ a ne. ground arith;
      mode = ground arith;
      pipe = λ m. ground arith;
      kin = λ p. ground arith;
      live = λ p h. ground (arith, h);
      same_table = refl;
    })
    | inr last ↦ rw last (record {
      same_proc = refl;
      fds = λ p. refl;
      count = ground arith;
      others = λ a ne. ground arith;
      mode = ground arith;
      pipe = λ m. ground arith;
      kin = λ p. ground arith;
      live = λ p h. ground (arith, h);
      same_table = refl;
    })
  ]

  pub close_reader-Dropped : (q : ℕ) → Dropped k i o (close_reader o q (set_fd k i none))
  unfolding close_reader
  close_reader-Dropped q = record {
    same_proc = refl;
    fds = λ p. refl;
    count = ground arith;
    others = λ a ne. ground arith;
    mode = ground arith;
    pipe = λ m. ground arith;
    kin = λ p. ground arith;
    live = λ p h. ground (arith, h);
    same_table = refl;
  }

  -- `wakeup` leaves what `Dropped` is about.
  wake-Dropped :
      {k' : Kernel} {e : Event} {xs ys : List ℕ} {out : Option Kernel}
      → Dropped k i o k'
      → (w : Awake k' e xs ys out) → Dropped k i o w.next
  wake-Dropped d w =
      let table = ap (λ (n : Kernel). n.open_file_table) w.others in
      record {
        same_proc = ap (λ (n : Kernel). n.curr_proc) w.others ∙ d.same_proc;
        fds = λ p. ap (λ (x : Proc). x.fd) (w.fields p) ∙ d.fds p;
        count = ap (λ (t : ℕ → Oft). (t o).refcount) table ∙ d.count;
        others = λ a ne. ap (λ (t : ℕ → Oft). t a) table ∙ d.others a ne;
        mode = ap (λ (t : ℕ → Oft). (t o).mode) table ∙ d.mode;
        pipe = λ m. ap (λ (t : ℕ → Oft). (t o).p_ptr) table ∙ d.pipe m;
        kin = λ p. ap family (w.fields p) ∙ d.kin p;
        live =
            λ p h. ap (λ (x : Proc). is_unused x.state) (w.fields p) ∙ ground (arith, d.live p h);
        same_table = ap (λ (n : Kernel). n.ttbr) w.others ∙ d.same_table;
      }

  -- The queues do not depend on the descriptors, the open file table or the pipes.
  after-Queues :
      {xs ys : List ℕ} (table : ℕ → Oft) (ps : ℕ → Pipe)
      → Queues k xs ys
      → Queues (record (set_fd k i none) { open_file_table = table; pipes = ps }) xs ys
  after-Queues table ps q =
      Queues-alike k (record (set_fd k i none) { open_file_table = table; pipes = ps }) refl refl
        (λ a. ground arith) (λ a. ground arith) q

  -- What the queues are in a kernel `k'` that closing leads to from lists `xs` and `ys`.
  abbrev pub Still : List ℕ → List ℕ → Kernel → Type 0
  Still xs ys k' = (n : ℕ) → Off k n xs ys → Stands k' n

  same-Off :
      (n : ℕ) (xs ys : List ℕ) (table : ℕ → Oft) (ps : ℕ → Pipe)
      → Off k n xs ys
      → Off (record (set_fd k i none) { open_file_table = table; pipes = ps }) n xs ys
  same-Off n xs ys table ps off = record {
    not_asleep = off.not_asleep;
    not_queued = off.not_queued;
    enough = off.enough;
  }

  still :
      {xs ys : List ℕ} (table : ℕ → Oft) (ps : ℕ → Pipe)
      → Queues k xs ys
      → Still xs ys (record (set_fd k i none) { open_file_table = table; pipes = ps })
  still {xs} {ys} table ps q n off = record {
    xs = xs;
    ys = ys;
    queues = after-Queues table ps q;
    off = same-Off n xs ys table ps off;
  }

  pub reader-Still :
      (q : ℕ) {xs ys : List ℕ} → Queues k xs ys → Still xs ys (close_reader o q (set_fd k i none))
  unfolding close_reader
  reader-Still q qs = still _ _ qs

  pub file-Still : {xs ys : List ℕ} → Queues k xs ys → Still xs ys (close_file i o k).1
  unfolding close_file oft_dalloc
  file-Still qs = elim (Bool-cases (is_positive (dec (k.open_file_table o).refcount))) [
    | inl more ↦ rw more (still _ _ qs)
    | inr last ↦ rw last (still _ _ qs)
  ]

  -- The kernel in which `close_pipe` has counted the writer down, with `p` for the pipe.
  abbrev counted_down : ℕ → Pipe → Kernel
  counted_down q p =
      set_pipe
        (set_oft (set_fd k i none) o
          (record (k.open_file_table o) { refcount = dec (k.open_file_table o).refcount }))
        q p

  counted_down-Dropped : (q : ℕ) (p : Pipe) → Dropped k i o (counted_down q p)
  counted_down-Dropped q p = record {
    same_proc = refl;
    fds = λ p. refl;
    count = ground arith;
    others = λ a ne. ground arith;
    mode = ground arith;
    pipe = λ m. ground arith;
    kin = λ p. ground arith;
    live = λ p h. ground (arith, h);
    same_table = refl;
  }

  woken_writer :
      (q : ℕ) (p : Pipe) {xs ys : List ℕ}
      → Queues k xs ys
      → (k' : Kernel) × (wakeup (pipe_event q) (counted_down q p) ≡ some k')
        × Dropped k i o k'
        × Still xs ys k'
  woken_writer q p {xs} {ys} qs =
      let after = after-Queues _ _ qs in
      let w = wakeup-Awake (counted_down q p) (pipe_event q) xs ys after in
      (
        w.next,
        w.done,
        wake-Dropped (counted_down-Dropped q p) w,
        λ n off.
            wakeup-Stands (counted_down q p) (pipe_event q) n xs ys _ after
              (same-Off n xs ys _ _ off) w,
      )

  pub close_writer-Dropped :
      (q : ℕ) {xs ys : List ℕ}
      → Queues k xs ys
      → (k' : Kernel) × (close_writer o q (set_fd k i none) ≡ some k')
        × Dropped k i o k'
        × Still xs ys k'
  unfolding close_writer
  close_writer-Dropped q qs =
      let p = record (k.pipes q) { nwrite = dec (k.pipes q).nwrite } in
      elim (Bool-cases (is_zero (dec (k.open_file_table o).refcount))) [
        | inl last ↦ elim (Bool-cases (is_positive (k.pipes q).nread)) [
          | inl readers ↦ rw (last, readers) (woken_writer q p qs)
          | inr alone ↦
              let p' : Pipe = record (k.pipes q) {
                nwrite = dec (k.pipes q).nwrite;
                used = false;
              } in
              rw (last, alone) (counted_down q p', refl, counted_down-Dropped q p', still _ _ qs)
        ]
        | inr more ↦ rw more (woken_writer q p qs)
      ]
