-- ===== src/Queue/Fifo.antt =====
-- `enqueue` keeps a queue ordered by priority, and first in, first out within each priority.
use xern.Base.{
  ℕ, ◌≤◌, ◌≡◌, false, Option, some, List, [], ◌∷◌, ◌++◌, has, ◌==◌, if◌then◌else◌, length,
}
use xern.Kernel.{Proc, nprocs}
use xern.Queue.{enqueue}
use xern.Queue.Chain.{Chain, insert}
use xern.Queue.Order.{enqueue_refines}
use xern.Queue.Priority.{Sorted, level, insert-Sorted, level-insert}

-- The queue `ys` that an `enqueue` of `p` into `xs` has made.
pub record Queued (f : ℕ → Proc) (p : ℕ) (xs : List ℕ) (out : Option ((ℕ → Proc) × Option ℕ))
    : Type 0 where
  pub table : ℕ → Proc
  pub head : Option ℕ
  pub queue : List ℕ
  pub done : out ≡ some (table, head)
  pub chain : Chain table head queue
  pub sorted : Sorted f queue
  pub levels :
      (v : ℕ)
      → level f v queue ≡ (if (f p).priority == v then level f v xs ++ (p ∷ []) else level f v xs)

-- Into a queue that is ordered by priority and does not hold `p`, `enqueue` of `p` succeeds and
-- leaves a queue ordered by priority, in which `p` stands last among the processes of its own
-- priority and the processes of each other priority stand as before.
pub enqueue-Queued :
    (f : ℕ → Proc) (q : Option ℕ) (p : ℕ) (xs : List ℕ)
    → Chain f q xs
    → has p xs ≡ false
    → length xs ≤ nprocs
    → Sorted f xs
    → Queued f p xs (enqueue f q p)
enqueue-Queued f q p xs c new room s =
    let e = enqueue_refines f q p xs c new room in
    record {
      table = e.table;
      head = e.head;
      queue = insert f p xs;
      done = e.done;
      chain = e.chain;
      sorted = insert-Sorted f p xs s;
      levels = λ v. level-insert f p v xs s;
    }
