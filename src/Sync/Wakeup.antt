-- ===== src/Sync/Wakeup.antt =====
-- `wakeup` as a whole, on the kernel's two queues.
use xern.Base.{
  ℕ, suc, ◌+◌, ◌≤◌, ◌≡◌, refl, sym, ◌∙◌, inl, inr, Option, none, some, List, [], ◌∷◌, ◌++◌, arith,
  has, if◌then◌else◌, length, Bool-cases, All, append_assoc, append-nil,
}
use xern.Kernel.{Kernel, Proc, runnable, Event, same_event, nprocs}
use xern.Queue.Chain.{Chain, insert, frame}
use xern.Queue.Priority.{Sorted}
use xern.Sync.{wakeup}
use xern.Sync.Wake.{woken, left, put_all, Apart}
use xern.Sync.Loop.{wake_loop-Woken}

-- The kernel's queues lead through `xs` (asleep) and `ys` (runnable), with no process in both, at
-- most NPROCS together, and the sleepers ordered by priority.
pub record Queues (k : Kernel) (xs ys : List ℕ) : Type 0 where
  pub asleep : Chain k.procs k.sleepqueue xs
  pub running : Chain k.procs k.runnablequeue ys
  pub apart : Apart xs ys
  pub room : length xs + length ys ≤ nprocs
  pub sorted : Sorted k.procs xs

module _ (f : ℕ → Proc) where
  -- No process of `ws` is before one of `zs` by its priority.
  abbrev Behind : List ℕ → List ℕ → Type 0
  Behind ws zs = All (λ z. All (λ w. (f w).priority ≤ (f z).priority) ws) zs

  All-left :
      (e : Event) (n : ℕ) (xs : List ℕ)
      → All (λ w. (f w).priority ≤ n) xs
      → All (λ w. (f w).priority ≤ n) (left f e xs)
  unfolding left
  All-left e n [] a = tt
  All-left e n (x ∷ xs) (b, a) = elim (Bool-cases (same_event (f x).event e)) [
    | inl hit ↦ rw hit (All-left e n xs a)
    | inr miss ↦ rw miss (b, All-left e n xs a)
  ]

  pub left-Sorted : (e : Event) (xs : List ℕ) → Sorted f xs → Sorted f (left f e xs)
  unfolding left
  left-Sorted e [] s = tt
  left-Sorted e (x ∷ xs) (a, s) = elim (Bool-cases (same_event (f x).event e)) [
    | inl hit ↦ rw hit (left-Sorted e xs s)
    | inr miss ↦ rw miss (All-left e (f x).priority xs a, left-Sorted e xs s)
  ]

  insert_last :
      (p : ℕ) (zs : List ℕ)
      → All (λ z. (f p).priority ≤ (f z).priority) zs
      → insert f p zs ≡ zs ++ (p ∷ [])
  unfolding insert
  insert_last p [] a = refl
  insert_last p (z ∷ zs) (b, a) = ground (arith, insert_last p zs a)

  Behind-snoc :
      (p : ℕ) (ws zs : List ℕ)
      → All (λ w. (f w).priority ≤ (f p).priority) ws
      → Behind (p ∷ ws) zs
      → Behind ws (zs ++ (p ∷ []))
  Behind-snoc p ws [] a b = (a, tt)
  Behind-snoc p ws (z ∷ zs) a (b, bs) = (b.1, Behind-snoc p ws zs a bs)

  Behind-head :
      (p : ℕ) (ws zs : List ℕ) → Behind (p ∷ ws) zs → All (λ z. (f p).priority ≤ (f z).priority) zs
  Behind-head p ws [] b = tt
  Behind-head p ws (z ∷ zs) (b, bs) = (b.0, Behind-head p ws zs bs)

  put_all-Sorted : (ws zs : List ℕ) → Sorted f ws → Behind ws zs → put_all f ws zs ≡ zs ++ ws
  unfolding put_all
  put_all-Sorted [] zs s b = sym (append-nil zs)
  put_all-Sorted (p ∷ ws) zs (a, s) b =
      rw (insert_last p zs (Behind-head p ws zs b)) (
        put_all-Sorted ws (zs ++ (p ∷ [])) s (Behind-snoc p ws zs a b)
        ∙ append_assoc zs (p ∷ []) ws)

pub Sorted-alike :
    (f g : ℕ → Proc) (xs : List ℕ)
    → ((a : ℕ) → (g a).priority ≡ (f a).priority)
    → Sorted f xs
    → Sorted g xs
Sorted-alike f g [] same s = tt
Sorted-alike f g (x ∷ xs) same (a, s) = (below xs a, Sorted-alike f g xs same s)
  where
    below :
        (ys : List ℕ)
        → All (λ y. (f y).priority ≤ (f x).priority) ys
        → All (λ y. (g y).priority ≤ (g x).priority) ys
    below [] b = tt
    below (y ∷ ys) (b, bs) = (omega (arith, same x, same y), below ys bs)

-- A change that leaves the queue heads, the `next` fields and the priorities leaves the queues.
pub Queues-alike :
    (k k' : Kernel) {xs ys : List ℕ}
    → k'.sleepqueue ≡ k.sleepqueue
    → k'.runnablequeue ≡ k.runnablequeue
    → ((a : ℕ) → (k'.procs a).next ≡ (k.procs a).next)
    → ((a : ℕ) → (k'.procs a).priority ≡ (k.procs a).priority)
    → Queues k xs ys
    → Queues k' xs ys
Queues-alike k k' {xs} {ys} s r next priority q = record {
  asleep = frame k.procs k'.procs k.sleepqueue k'.sleepqueue xs q.asleep s (λ a i. next a);
  running = frame k.procs k'.procs k.runnablequeue k'.runnablequeue ys q.running r (λ a i. next a);
  apart = q.apart;
  room = q.room;
  sorted = Sorted-alike k.procs k'.procs xs priority q.sorted;
}

-- The outcome of `wakeup e` on a kernel whose queues lead through `xs` and `ys`.
pub record Awake (k : Kernel) (e : Event) (xs ys : List ℕ) (out : Option Kernel) : Type 0 where
  pub next : Kernel
  pub done : out ≡ some next
  pub asleep : Chain next.procs next.sleepqueue (left k.procs e xs)
  pub running : Chain next.procs next.runnablequeue (put_all k.procs (woken k.procs e xs) ys)
  pub fields :
      (a : ℕ)
      → record (next.procs a) { next = none } ≡ record (k.procs a) {
        next = none;
        state = if has a (woken k.procs e xs) then runnable else (k.procs a).state;
      }
  pub others : next ≡ record k {
    procs = next.procs;
    runnablequeue = next.runnablequeue;
    sleepqueue = next.sleepqueue;
  }

-- On queues that lead through `xs` (asleep, ordered by priority) and `ys` (runnable), `wakeup e`
-- returns; then the sleepers that waited for `e` stand in the runnable queue, put there in turn by
-- priority, the others still sleep in their old order, exactly the woken processes have become
-- RUNNABLE, and no other field of a process but `next`, and nothing else of the kernel, changed.
pub wakeup-Awake :
    (k : Kernel) (e : Event) (xs ys : List ℕ) → Queues k xs ys → Awake k e xs ys (wakeup e k)
unfolding wakeup
wakeup-Awake k e xs ys q =
    let w =
      wake_loop-Woken (suc nprocs) k.procs e k.sleepqueue k.runnablequeue none xs ys []
        (omega (arith, q.room))
        (record {
          sleepers = q.asleep;
          runners = q.running;
          others = refl;
          xy = q.apart;
          xz = λ a i. refl;
          yz = λ a i. refl;
          room_run = q.room;
          room_tmp = omega (arith, q.room);
        }) in
    record {
      next = record k { procs = w.table; runnablequeue = w.run; sleepqueue = w.tmp };
      done = rw w.done refl;
      asleep =
          rw
            (← put_all-Sorted k.procs (left k.procs e xs) [] (left-Sorted k.procs e xs q.sorted) tt)
            w.tmp_chain;
      running = w.run_chain;
      fields = w.fields;
      others = refl;
    }
