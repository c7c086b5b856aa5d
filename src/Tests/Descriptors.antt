-- ===== src/Tests/Descriptors.antt =====
-- The theorems on descriptors and pipes at a concrete kernel.
use xern.Base.{◌≡◌, refl, ◌∷◌, [], List, ℕ, some, none, arith, pos, sum_below, if◌then◌else◌, ◌==◌}
use xern.Kernel.{Kernel}
use xern.Pipe.{read_loop, write_loop}
use xern.Pipe.Ring.{IsValid, full-loses_oldest}
use xern.Strings.{strlen}
use xern.Files.{kclose, kdup2}
use xern.Files.Refs.{refs, FilesSound}
use xern.Files.Close.{Closed, kclose-Closed}
use xern.Files.Dup.{Duped, kdup2-Duped}
use xern.Piping.{read_pipe, write_pipe}
use xern.Piping.Reading.{OnPipe, here, NoData, read_pipe-starves}
use xern.Piping.Writing.{Sent, write_pipe-Sent}
use xern.Tests.{demo, demo_ofts, demo_procs, demo_pipe, empty_pipe}
use xern.Tests.Scheduling.{asleep_ones, runnable_ones, demo-Queues}

pub demo_refs :
    (o : ℕ)
    → refs o demo_procs ≡ (if 0 == o then 1 else if 1 == o then 1 else if 2 == o then 1 else 0)
unfolding sum_below
demo_refs o = ground arith

demo-FilesSound : FilesSound demo
demo-FilesSound = record {
  counts = λ o. ground (arith, demo_refs o);
  piped = λ o used m. (0, ground (arith, demo_refs o));
  running = omega arith;
}

-- The write end, with readers asleep on the pipe
kclose-Closed_example : Closed demo 3 1 (kclose demo (pos 3))
kclose-Closed_example =
    kclose-Closed demo 3 1 asleep_ones runnable_ones demo-FilesSound demo-Queues (omega arith) refl

-- The write end onto standard input, which is in use
kdup2-Duped_example : Duped demo 0 1 (kdup2 demo (pos 3) (pos 0))
kdup2-Duped_example =
    kdup2-Duped demo 0 3 1 asleep_ones runnable_ones demo-FilesSound demo-Queues (omega arith)
      (omega arith) refl refl

demo_pipe-IsValid : IsValid demo_pipe
demo_pipe-IsValid = omega arith

write_end : OnPipe demo 3 0
write_end = record { entry = 1; open_at = refl; pipe_of = refl }

-- "hi" and its NUL; ten bytes are offered.
abbrev text : List ℕ
text = b'h' ∷ b'i' ∷ 0 ∷ []

text_length : strlen text ≡ some 2
unfolding strlen
text_length = refl

write_pipe-Sent_example :
    Sent demo 0 asleep_ones runnable_ones (b'h' ∷ b'i' ∷ []) (write_pipe demo 3 text (pos 10))
write_pipe-Sent_example =
    write_pipe-Sent demo 3 0 10 2 text asleep_ones runnable_ones write_end refl text_length
      (omega arith) demo_pipe-IsValid (omega arith) demo-Queues

-- The same kernel with nothing in the pipe
abbrev drained : Kernel
drained = record demo { pipes = λ i. empty_pipe }

read_pipe-starves_example : NoData (read_pipe drained 4 (pos 5))
read_pipe-starves_example =
    read_pipe-starves drained 4 0 5 (read_pipe drained 4 (pos 5))
      (record { entry = 2; open_at = refl; pipe_of = refl }) refl here

full-loses_oldest_example :
    (read_loop 1 (write_loop (9 ∷ []) (record demo_pipe { count = 8192; w_off = 16383 }))).0
    ≡ 9 ∷ []
full-loses_oldest_example =
    full-loses_oldest (record demo_pipe { count = 8192; w_off = 16383 }) 9 (omega arith) refl

-- The same kernel with a directory on descriptor 0
abbrev with_directory : Kernel
with_directory = record demo {
  open_file_table = λ o. record (demo_ofts o) { mode = 4; p_ptr = none };
}
