-- ===== src/Tests/Exiting.antt =====
-- The theorems on the life of processes at a concrete kernel.
use xern.Base.{
  false, Bool-cases, inl, inr, ==_iff, ◌≢◌, ◌<◌, ◌*◌, some, ◌≡◌, refl, ℕ, ◌+◌, arith, pos,
  if◌then◌else◌, ◌==◌,
}
use xern.Kernel.{Kernel, zombie}
use xern.Memory.{Machine, Ram, table_of}
use xern.Memory.Freed.Loop.{table, TablesApart}
use xern.Life.Family.{kwait, ended}
use xern.Life.Family.Wait.{EndedFirst, Reaped, kwait-Reaped}
use xern.Sync.Wakeup.{Queues-alike}
use xern.Sync.Again.{Stands}
use xern.Files.Refs.{FilesSound, refs, refs-alike}
use xern.Life.{kexit, kkill, running}
use xern.Life.Kill.{Numbered, killed, kkill-sends}
use xern.Life.Exit.{Exited, kexit-Exited}
use xern.Tests.{demo, demo_procs}
use xern.Tests.Scheduling.{asleep_ones, runnable_ones, demo-Queues}
use xern.Tests.Descriptors.{demo_refs}

-- The processes with other numbers: the running one has number 9 and process 3 is its child.
abbrev exiting : Kernel
exiting = record demo {
  procs = λ i. record (demo_procs i) { pid = i + 8; ppid = if i == 3 then 9 else 1 };
}

same_refs : (o : ℕ) → refs o exiting.procs ≡ refs o demo_procs
same_refs o = refs-alike o demo_procs exiting.procs (λ p. refl)

exiting-FilesSound : FilesSound exiting
exiting-FilesSound = record {
  counts = λ o. ground (arith, demo_refs o, same_refs o);
  piped = λ o used m. (0, ground (arith, demo_refs o, same_refs o));
  running = omega arith;
}

exiting-Stands : Stands exiting 1
exiting-Stands = record {
  xs = asleep_ones;
  ys = runnable_ones;
  queues = Queues-alike demo exiting refl refl (λ a. refl) (λ a. refl) demo-Queues;
  off = record { not_asleep = refl; not_queued = refl; enough = omega arith };
}

kexit-Exited_example : Exited exiting (pos 7) (kexit (pos 7) exiting)
kexit-Exited_example = kexit-Exited exiting (pos 7) exiting-FilesSound exiting-Stands refl refl

demo-Numbered : Numbered demo
demo-Numbered i h = ground arith

kkill-sends_example : kkill demo (pos 3) ≡ killed demo (pos 3)
kkill-sends_example = kkill-sends demo demo-Numbered (pos 3)

-- The directory of process 3 names one table, at 9 MiB, whose first entry names the page behind it.
abbrev mapped : Ram
mapped = record {
  word = λ a. if a == 0x60E000 then 0x900001 else if a == 0x900000 then 0x901003 else 0;
  bitmap = λ i. 255;
}

-- Process 3 has ended with 5.
abbrev waiting : Machine
waiting = record {
  kernel = record exiting {
    procs = λ i.
        if i == 3
        then record (exiting.procs 3) { state = zombie; exitcode = pos 5 }
        else exiting.procs i;
  };
  ram = mapped;
}

waiting-EndedFirst : EndedFirst waiting.kernel 3
waiting-EndedFirst = record {
  from = omega arith;
  within = omega arith;
  ended = refl;
  child = refl;
  before = λ j low high z. only_two j (omega (arith, low, high));
}
  where
    only_two : (j : ℕ) → j ≡ 2 → (waiting.kernel.procs j).ppid ≢ (running waiting.kernel).pid
    only_two j e = ground (arith, e)

-- The only table is that of entry 2048.
only_table :
    (i : ℕ)
    → i < 4096
    → table mapped 0x60C000 i ≢ 0
    → (i ≡ 2048) × (table mapped 0x60C000 i ≡ 0x900000)
only_table i high ne =
    let (at, e) = by_word (0x60C000 + 4 * i) (omega (arith, high)) ne in (omega (arith, at), e)
  where
    by_word :
        (a : ℕ)
        → a < 0x900000
        → table_of (mapped.word a) ≢ 0
        → (a ≡ 0x60E000) × (table_of (mapped.word a) ≡ 0x900000)
    by_word a l ne = elim (Bool-cases (a == 0x60E000)) [
      | inl here ↦ ((==_iff a 0x60E000).0 here, rw here refl)
      | inr there ↦ absurd (ne (none_there a l there))
    ]
      where
        none_there : (a : ℕ) → a < 0x900000 → (a == 0x60E000) ≡ false → table_of (mapped.word a) ≡ 0
        none_there a l e = rw (e, before a l) refl
          where
            before : (a : ℕ) → a < 0x900000 → (a == 0x900000) ≡ false
            before a l = ground (arith, l)

mapped-TablesApart : TablesApart mapped 0x60C000
mapped-TablesApart = record {
  directory = λ i k j low high low' high' b ne e. omega (arith, e, high', (only_table i high ne).1);
  tables = λ i k j l low high low' high' other b b' ne ne' e.
      other (omega (arith, (only_table i high ne).0, (only_table k high' ne').0));
}

kwait-Reaped_example :
    (m' : Machine) × (kwait waiting ≡ some (ended 11 (pos 5) m')) × Reaped waiting 3 m'
kwait-Reaped_example =
    kwait-Reaped waiting 3 waiting-EndedFirst (λ i. omega arith) mapped-TablesApart
