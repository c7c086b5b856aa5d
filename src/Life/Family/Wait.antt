-- ===== src/Life/Family/Wait.antt =====
-- What `kwait` does for a child that has ended.
use xern.Base.{
  ℕ, ◌-◌, ◌≡◌, ◌≢◌, refl, arith, Bool, true, false, not, ◌&&◌, ◌==◌, some, inl, inr, scan,
  scan-none, Option-cases, First, First-scan, ==-refl, ◌<◌, ◌≤◌,
}
use xern.Kernel.{Kernel, ProcState, unused, zombie, block, sleeping, runnable, nprocs}
use xern.Queue.{dallocproc}
use xern.Bits.Maps.{IsBytes}
use xern.Memory.{Machine, freeuvm}
use xern.Memory.Freed.Loop.{table, TablesApart, Vacated, free_loop-Vacated}
use xern.Sync.{is_unused}
use xern.Life.{running, is_zombie, is_child}
use xern.Life.Family.{ended, has_ended, reap, wait_round, kwait}

-- The first child of the running process that has ended is process `i`.
pub record EndedFirst (k : Kernel) (i : ℕ) : Type 0 where
  pub from : 2 ≤ i
  pub within : i < nprocs
  pub ended : (k.procs i).state ≡ zombie
  pub child : (k.procs i).ppid ≡ (running k).pid
  pub before :
      (j : ℕ) → 2 ≤ j → j < i → (k.procs j).state ≡ zombie → (k.procs j).ppid ≢ (running k).pid

-- The slot of child `i` is free again, first in the queue of free ones, with the size 0; of the tables that the user entries
-- of its directory named nothing is left, and their pages are free, with every page that they named; and no other process
-- changed.
pub record Reaped (m : Machine) (i : ℕ) (m' : Machine) : Type 0 where
  pub free : (m'.kernel.procs i).state ≡ unused
  pub first : m'.kernel.freequeue ≡ some i
  pub next : (m'.kernel.procs i).next ≡ m.kernel.freequeue
  pub empty : (m'.kernel.procs i).size ≡ 0
  pub memory :
      (k : ℕ)
      → 2048 ≤ k
      → k < 4096
      → table m.ram (m.kernel.procs i).pgdir k ≢ 0
      → Vacated m.ram m'.ram (m.kernel.procs i).pgdir k
  pub others : (j : ℕ) → j ≢ i → m'.kernel.procs j ≡ m.kernel.procs j

zombie_child :
    (s : ProcState) (b : Bool) → (is_zombie s && b) ≡ true → (not (is_unused s) && b) ≡ true
zombie_child zombie b e = e
zombie_child unused b e = absurd (ground (arith, e))
zombie_child block b e = absurd (ground (arith, e))
zombie_child sleeping b e = absurd (ground (arith, e))
zombie_child runnable b e = absurd (ground (arith, e))

reap-Reaped :
    (m : Machine) (i : ℕ)
    → IsBytes m.ram.bitmap
    → TablesApart m.ram (m.kernel.procs i).pgdir
    → Reaped m i (reap m i)
unfolding freeuvm dallocproc
reap-Reaped m i h apart = record {
  free = ground arith;
  first = refl;
  next = ground arith;
  empty = ground arith;
  memory = λ k low high ne.
      rw (==-refl i) (free_loop-Vacated m.ram (m.kernel.procs i).pgdir k h apart low high ne);
  others = λ j ne. ground (arith, ne);
}

is_zombie-false : (s : ProcState) (b : Bool) → (s ≡ zombie → b ≡ false) → (is_zombie s && b) ≡ false
is_zombie-false zombie b h = h refl
is_zombie-false unused b h = refl
is_zombie-false block b h = refl
is_zombie-false sleeping b h = refl
is_zombie-false runnable b h = refl

EndedFirst-First : (k : Kernel) (i : ℕ) → EndedFirst k i → First (has_ended k) (nprocs - 2) 2 i
EndedFirst-First k i f = record {
  passes = rw f.ended (ground (arith, f.child));
  from = f.from;
  within = omega (arith, f.within);
  before = λ j low high.
      is_zombie-false (k.procs j).state ((k.procs j).ppid == (running k).pid)
        λ z. apart (k.procs j).ppid (running k).pid (f.before j low high z);
}
  where
    apart : (a b : ℕ) → a ≢ b → (a == b) ≡ false
    apart a b ne = ground (arith, ne)

-- Let `i` be the first child that has ended, and let the tables that the user entries of its directory name stand apart from
-- these entries and from each other, in a memory whose map holds bytes. Then `kwait` returns the number and the exit
-- code of the child without sleeping. Its slot is free, first in the queue of free ones, and has the size 0; each of those
-- entries and all entries of those tables are 0, and the pages from 8 MiB to 256 MiB that they named are free in the map.
-- No other process changes.
pub kwait-Reaped :
    (m : Machine) (i : ℕ)
    → EndedFirst m.kernel i
    → IsBytes m.ram.bitmap
    → TablesApart m.ram (m.kernel.procs i).pgdir
    → (m' : Machine) × (kwait m
        ≡ some (ended (m.kernel.procs i).pid (m.kernel.procs i).exitcode m'))
      × Reaped m i m'
unfolding kwait wait_round
kwait-Reaped m i e h apart =
    let f = EndedFirst-First m.kernel i e in
    let picked = First-scan (nprocs - 2) 2 (has_ended m.kernel) i f in
    (
      reap m i,
      elim (Option-cases (scan (nprocs - 1) 1 (is_child m.kernel))) [
        | inl empty ↦ absurd (
            clash (is_child m.kernel i)
              (zombie_child (m.kernel.procs i).state
                ((m.kernel.procs i).ppid == (running m.kernel).pid) f.passes)
              (scan-none (nprocs - 1) 1 (is_child m.kernel) empty i (omega (arith, e.from))
                (omega (arith, e.within))))
        | inr (j, some_child) ↦ rw (some_child, picked, kwait, wait_round) refl
      ],
      reap-Reaped m i h apart,
    )
  where
    clash : (b : Bool) → b ≡ true → b ≡ false → ⊥
    clash b x y = ground (arith, x, y)
