-- ===== src/Sync/Loop.antt =====
-- The loop of `wakeup`, by induction on the queue that it empties, and `wakeup` itself.
use xern.Base.{
  ℕ, zero, suc, ◌<◌, ◌≡◌, refl, sym, subst, inl, inr, true, false, Option, none, some, List, [],
  ◌∷◌, arith, length, Bool-cases,
}
use xern.Kernel.{Proc, runnable, Event, same_event}
use xern.Queue.{enqueue}
use xern.Queue.Chain.{Chain, insert}
use xern.Sync.{set_state, wake_loop}
use xern.Sync.Wake.{woken, left, put_all, Woken}
-- The three queues of the loop, apart from one another and short enough.
use xern.Sync.Take.{Ready, wake_one, woken-Ready, finish-Woken}
use xern.Sync.Leave.{leave_one, left-Ready, finish_left}

nothing_left :
    (fuel : ℕ) (f : ℕ → Proc) (e : Event) (run tmp : Option ℕ) (ys zs : List ℕ)
    → Chain f run ys
    → Chain f tmp zs
    → Woken f e [] ys zs (wake_loop (suc fuel) e f none run tmp)
unfolding wake_loop woken left put_all
nothing_left fuel f e run tmp ys zs c d = record {
  table = f;
  run = run;
  tmp = tmp;
  done = refl;
  run_chain = c;
  tmp_chain = d;
  fields = λ a. refl;
}

round_woken :
    (fuel : ℕ) (f : ℕ → Proc) (e : Event) (x : ℕ) (run tmp : Option ℕ) (g : ℕ → Proc)
    (head : Option ℕ)
    → same_event (f x).event e ≡ true
    → enqueue (set_state f x runnable) run x ≡ some (g, head)
    → wake_loop (suc fuel) e f (some x) run tmp ≡ wake_loop fuel e g (f x).next head tmp
unfolding wake_loop
round_woken fuel f e x run tmp g head hit done = rw (hit, wake_loop) (rw done refl)

round_left :
    (fuel : ℕ) (f : ℕ → Proc) (e : Event) (x : ℕ) (run tmp : Option ℕ) (g : ℕ → Proc)
    (head : Option ℕ)
    → same_event (f x).event e ≡ false
    → enqueue f tmp x ≡ some (g, head)
    → wake_loop (suc fuel) e f (some x) run tmp ≡ wake_loop fuel e g (f x).next run head
unfolding wake_loop
round_left fuel f e x run tmp g head miss done = rw (miss, wake_loop) (rw done refl)

-- With fuel for each node and the test at the end, the loop empties the queue.
pub wake_loop-Woken :
    (fuel : ℕ) (f : ℕ → Proc) (e : Event) (q run tmp : Option ℕ) (xs ys zs : List ℕ)
    → length xs < fuel
    → Ready f q run tmp xs ys zs
    → Woken f e xs ys zs (wake_loop fuel e f q run tmp)
wake_loop-Woken zero f e q run tmp xs ys zs room r = absurd (omega arith)
wake_loop-Woken (suc fuel) f e q run tmp [] ys zs room r =
    rw r.sleepers (nothing_left fuel f e run tmp ys zs r.runners r.others)
wake_loop-Woken (suc fuel) f e q run tmp (x ∷ xs) ys zs room r =
    rw r.sleepers.0 (elim (Bool-cases (same_event (f x).event e)) [
      | inl hit ↦
          let w = wake_one f e q run tmp x xs ys zs r in
          let out = wake_loop fuel e w.table (f x).next w.head tmp in
          subst (Woken f e (x ∷ xs) ys zs)
            (sym (round_woken fuel f e x run tmp w.table w.head hit w.done))
            (finish-Woken f e q run tmp x xs ys zs r w.table out hit w.relinked (
              wake_loop-Woken fuel w.table e (f x).next w.head tmp xs
                (insert (set_state f x runnable) x ys) zs (omega arith)
                (woken-Ready f e q run tmp x xs ys zs r w.table w.head w.chain w.relinked)))
      | inr miss ↦
          let w = leave_one f e q run tmp x xs ys zs r in
          let out = wake_loop fuel e w.table (f x).next run w.head in
          subst (Woken f e (x ∷ xs) ys zs)
            (sym (round_left fuel f e x run tmp w.table w.head miss w.done))
            (finish_left f e q run tmp x xs ys zs r w.table out miss w.relinked (
              wake_loop-Woken fuel w.table e (f x).next run w.head xs ys (insert f x zs)
                (omega arith)
                (left-Ready f e q run tmp x xs ys zs r w.table w.head w.chain w.relinked)))
    ])
