-- ===== src/Files/Close.antt =====
-- `kclose` keeps the reference counts right, on every kind of entry.
use xern.Base.{
  ℕ, ◌<◌, ◌≡◌, refl, ap, inl, inr, true, false, Option, none, some, arith, ◌==◌, List, ℤ, pos,
  Bool-cases, ◌||◌, leb,
}
use xern.Kernel.{Kernel, proc_fd_max}
use xern.Sync.Wakeup.{Queues}
use xern.Sync.Again.{Off, Stands}
use xern.Files.{
  set_fd, curr_fd, read_pipe_mode, write_pipe_mode, kclose, close_entry, close_file, close_pipe,
  close_reader,
}
use xern.Files.Refs.{FilesSound, referred}
use xern.Files.Dropped.{IsPipeMode, Dropped, Dropped-FilesSound}
use xern.Files.Closing.{
  Still, close_file-Dropped, close_reader-Dropped, close_writer-Dropped, reader-Still, file-Still,
}

close_file_result : (k : Kernel) (i o : ℕ) → close_file i o k ≡ (pos 0, (close_file i o k).1)
unfolding close_file
close_file_result k i o = refl

pipe_mode : (m : ℕ) → (m == read_pipe_mode || m == write_pipe_mode) ≡ true → IsPipeMode m
pipe_mode m h = ground arith

not_past : (i : ℕ) → i < proc_fd_max → leb proc_fd_max i ≡ false
not_past i h = ground arith

-- What `kclose` of descriptor `i`, in use for the entry `o`, returns.
pub record Closed (k : Kernel) (i o : ℕ) (out : Option (ℤ × Kernel)) : Type 0 where
  pub next : Kernel
  pub done : out ≡ some (pos 0, next)
  pub dropped : Dropped k i o next
  pub counted : FilesSound next

module _ (k : Kernel) (i o : ℕ) (xs ys : List ℕ) (c : FilesSound k) (qs : Queues k xs ys)
    (low : i < proc_fd_max) (used : curr_fd k i ≡ some o) where
  close_pipe-Closed :
      (q : ℕ)
      → (k.open_file_table o).p_ptr ≡ some q
      → IsPipeMode (k.open_file_table o).mode
      → (c : Closed k i o (close_pipe k i)) × Still k i o xs ys c.next
  unfolding close_pipe
  close_pipe-Closed q e (inl reader) =
      let d = close_reader-Dropped k i o q in
      (
        record {
          next = close_reader o q (set_fd k i none);
          done = rw (used, e, reader) refl;
          dropped = d;
          counted = Dropped-FilesSound k i o _ c low used d;
        },
        reader-Still k i o q qs,
      )
  close_pipe-Closed q e (inr writer) =
      let (k', done, d, stands) = close_writer-Dropped k i o q qs in
      (
        record {
          next = k';
          done = rw (used, e, writer, done) refl;
          dropped = d;
          counted = Dropped-FilesSound k i o k' c low used d;
        },
        stands,
      )

  close_entry-Closed : (c : Closed k i o (close_entry i (some o) k)) × Still k i o xs ys c.next
  unfolding close_entry
  close_entry-Closed = elim (Bool-cases (mode == read_pipe_mode || mode == write_pipe_mode)) [
    | inl piped ↦
        let m = pipe_mode mode piped in
        let (q, e) = c.piped o (referred k o i c.running low used) m in
        rw piped (close_pipe-Closed q e m)
    | inr plain ↦
        let d = close_file-Dropped k i o plain in
        rw plain (
          record {
            next = (close_file i o k).1;
            done = ap some (close_file_result k i o);
            dropped = d;
            counted = Dropped-FilesSound k i o _ c low used d;
          },
          file-Still k i o qs,
        )
  ]
    where
      mode : ℕ
      mode = (k.open_file_table o).mode

  -- With right reference counts, a pipe behind every used entry in a pipe's mode (so no directory
  -- opened with O_DIRECTORY, which is such a mode) and the queues in order, `kclose` of a descriptor
  -- in use clears it, takes one off its entry's reference count and leaves every other entry and descriptor;
  -- afterwards all counts are right again.
  pub kclose-Closed : Closed k i o (kclose k (pos i))
  unfolding kclose
  kclose-Closed = rw (not_past i low, used) close_entry-Closed.0

  -- Nor does it take processes off the runnable queue.
  pub kclose-Stands :
      (n : ℕ) → Off k n xs ys → (c : Closed k i o (kclose k (pos i))) × Stands c.next n
  unfolding kclose
  kclose-Stands n off = rw (not_past i low, used) (close_entry-Closed.0, close_entry-Closed.1 n off)
