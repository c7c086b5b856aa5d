-- ===== src/Sync/Again.antt =====
-- After `wakeup` the queues are again as every operation needs them.
use xern.Base.{
  ℕ, ◌+◌, ◌≤◌, ◌≡◌, refl, ◌∙◌, ap, inl, inr, Option, List, [], ◌∷◌, arith, ◌==◌, ◌&&◌, ◌||◌, not,
  false, has, length, Bool-cases, ==_iff, Bool,
}
use xern.Kernel.{Kernel, Proc, Event, same_event}
use xern.Queue.Chain.{insert, has-insert, length-insert}
use xern.Sync.Wake.{woken, left, put_all, Apart}
use xern.Sync.Wakeup.{Queues, Awake, Sorted-alike, left-Sorted}

module _ (f : ℕ → Proc) where
  abbrev waits : Event → ℕ → Bool
  waits e a = same_event (f a).event e

  has-left : (e : Event) (a : ℕ) (xs : List ℕ) → has a (left f e xs) ≡ (has a xs && not (waits e a))
  unfolding left
  has-left e a [] = refl
  has-left e a (x ∷ xs) = elim (Bool-cases (a == x)) [
    | inl here ↦ ground (arith, here, has-left e a xs, ap (waits e) ((==_iff a x).0 here))
    | inr there ↦ ground (arith, has-left e a xs)
  ]

  pub has-woken : (e : Event) (a : ℕ) (xs : List ℕ) → has a (woken f e xs) ≡ (has a xs && waits e a)
  unfolding woken
  has-woken e a [] = refl
  has-woken e a (x ∷ xs) = elim (Bool-cases (a == x)) [
    | inl here ↦ ground (arith, here, has-woken e a xs, ap (waits e) ((==_iff a x).0 here))
    | inr there ↦ ground (arith, has-woken e a xs)
  ]

  has-put_all : (a : ℕ) (ws ys : List ℕ) → has a (put_all f ws ys) ≡ (has a ws || has a ys)
  unfolding put_all
  has-put_all a [] ys = refl
  has-put_all a (w ∷ ws) ys = ground (arith, has-put_all a ws (insert f w ys), has-insert f w a ys)

  length-split :
      (e : Event) (xs : List ℕ) → length (left f e xs) + length (woken f e xs) ≡ length xs
  unfolding left woken
  length-split e [] = refl
  length-split e (x ∷ xs) = ground (arith, length-split e xs)

  length-put_all : (ws ys : List ℕ) → length (put_all f ws ys) ≡ length ws + length ys
  unfolding put_all
  length-put_all [] ys = omega arith
  length-put_all (w ∷ ws) ys =
      omega (arith, length-put_all ws (insert f w ys), length-insert f w ys)

  left-Apart :
      (e : Event) (xs ys : List ℕ) → Apart xs ys → Apart (left f e xs) (put_all f (woken f e xs) ys)
  left-Apart e xs ys apart a i =
      ground (arith, has-left e a xs, has-woken e a xs, has-put_all a (woken f e xs) ys, apart a)

-- The lists that the queues lead through after `wakeup e`.
pub wakeup-Queues :
    (k : Kernel) (e : Event) (xs ys : List ℕ) (out : Option Kernel)
    → Queues k xs ys
    → (w : Awake k e xs ys out)
    → Queues w.next (left k.procs e xs) (put_all k.procs (woken k.procs e xs) ys)
wakeup-Queues k e xs ys out q w = record {
  asleep = w.asleep;
  running = w.running;
  apart = left-Apart k.procs e xs ys q.apart;
  room =
      omega
        (arith, q.room, length-split k.procs e xs, length-put_all k.procs (woken k.procs e xs) ys);
  sorted =
      Sorted-alike k.procs w.next.procs (left k.procs e xs)
        (λ a. ap (λ (p : Proc). p.priority) (w.fields a)) (left-Sorted k.procs e xs q.sorted);
}

-- The running process is in neither queue, and at least `n` processes are runnable behind it.
pub record Off (k : Kernel) (n : ℕ) (xs ys : List ℕ) : Type 0 where
  pub not_asleep : has k.curr_proc xs ≡ false
  pub not_queued : has k.curr_proc ys ≡ false
  pub enough : n ≤ length ys

-- A kernel as system calls find it, with `n` runnable processes behind the running one.
pub record Stands (k : Kernel) (n : ℕ) : Type 0 where
  pub xs : List ℕ
  pub ys : List ℕ
  pub queues : Queues k xs ys
  pub off : Off k n xs ys

pub wakeup-Stands :
    (k : Kernel) (e : Event) (n : ℕ) (xs ys : List ℕ) (out : Option Kernel)
    → Queues k xs ys
    → Off k n xs ys
    → (w : Awake k e xs ys out) → Stands w.next n
wakeup-Stands k e n xs ys out q o w = record {
  xs = left k.procs e xs;
  ys = put_all k.procs (woken k.procs e xs) ys;
  queues = wakeup-Queues k e xs ys out q w;
  off =
      let c = k.curr_proc in
      let same : w.next.curr_proc ≡ c = ap (λ (m : Kernel). m.curr_proc) w.others in
      record {
        not_asleep =
            ap (λ a. has a (left k.procs e xs)) same
            ∙ ground (arith, o.not_asleep, has-left k.procs e c xs);
        not_queued =
            ap (λ a. has a (put_all k.procs (woken k.procs e xs) ys)) same
            ∙ ground (
              arith,
              o.not_asleep,
              o.not_queued,
              has-woken k.procs e c xs,
              has-put_all k.procs c (woken k.procs e xs) ys,
            );
        enough = omega (arith, o.enough, length-put_all k.procs (woken k.procs e xs) ys);
      };
}
