-- ===== src/Sync/Leave.antt =====
-- A round of `wakeup`'s loop on a process that waits for something else.
use xern.Base.{ℕ, ◌≡◌, refl, ◌∙◌, ap, false, Option, none, List, ◌∷◌, arith, has, if◌then◌else◌}
use xern.Kernel.{Proc, runnable, Event, same_event}
use xern.Queue.{enqueue}
use xern.Queue.Chain.{Chain, insert, length-insert}
use xern.Queue.Order.{Relinked, Enqueued, enqueue_refines}
use xern.Sync.Wake.{
  woken, left, put_all, Alike, put_all_alike, woken_alike, left_alike, Woken, keep, like,
  Apart-insert, tail-Apart, Apart-cons,
}
-- The three queues of the loop, apart from one another and short enough.
use xern.Sync.Take.{Ready}

module _ (f : ℕ → Proc) (e : Event) (q run tmp : Option ℕ) (x : ℕ) (xs ys zs : List ℕ)
    (r : Ready f q run tmp (x ∷ xs) ys zs) where
  as_before : (a : ℕ) → record (f a) { state = runnable } ≡ record (f a) { state = runnable }
  as_before a = refl

  -- `x` goes to `tmp`.
  pub leave_one : Enqueued f x zs (enqueue f tmp x)
  leave_one =
      enqueue_refines f tmp x zs r.others (tail-Apart x xs zs r.xz).0 (omega (arith, r.room_tmp))

  pub left-Ready :
      (g : ℕ → Proc) (head : Option ℕ)
      → Chain g head (insert f x zs)
      → Relinked f g (x ∷ zs)
      → Ready g (f x).next run head xs ys (insert f x zs)
  left-Ready g head c rel =
      let (fx, ay) = tail-Apart x xs ys r.xy in
      let (fz, az) = tail-Apart x xs zs r.xz in
      record {
        sleepers =
            keep f f g x zs rel as_before (f x).next xs r.sleepers.2
              (Apart-cons x xs zs r.sleepers.1 az);
        runners = keep f f g x zs rel as_before run ys r.runners (Apart-cons x ys zs fx r.yz);
        others = c;
        xy = ay;
        xz = Apart-insert f f g x zs rel as_before xs r.sleepers.1 az;
        yz = Apart-insert f f g x zs rel as_before ys fx r.yz;
        room_run = omega (arith, r.room_run);
        room_tmp = omega (arith, length-insert f x zs, r.room_tmp);
      }

  run_queue :
      (g : ℕ → Proc)
      → same_event (f x).event e ≡ false
      → Alike f g
      → put_all g (woken g e xs) ys ≡ put_all f (woken f e (x ∷ xs)) ys
  unfolding woken
  run_queue g miss l = rw (miss, woken_alike f g l) (put_all_alike f g l (woken f e xs) ys)

  tmp_queue :
      (g : ℕ → Proc)
      → same_event (f x).event e ≡ false
      → Alike f g
      → put_all g (left g e xs) (insert f x zs) ≡ put_all f (left f e (x ∷ xs)) zs
  unfolding put_all left
  tmp_queue g miss l =
      rw (miss, left_alike f g l) (put_all_alike f g l (left f e xs) (insert f x zs))

  state_step :
      (g : ℕ → Proc)
      → same_event (f x).event e ≡ false
      → Alike f g
      → (a : ℕ)
      → record (f a) { next = none; state = if has a (woken g e xs) then runnable else (f a).state }
        ≡ record (f a) {
          next = none;
          state = if has a (woken f e (x ∷ xs)) then runnable else (f a).state;
        }
  unfolding woken
  state_step g miss l a = rw (miss, woken_alike f g l) refl

  pub finish_left :
      (g : ℕ → Proc) (out : Option ((ℕ → Proc) × Option ℕ × Option ℕ))
      → same_event (f x).event e ≡ false
      → Relinked f g (x ∷ zs)
      → Woken g e xs ys (insert f x zs) out
      → Woken f e (x ∷ xs) ys zs out
  finish_left g out miss rel w =
      let l = like f f g x zs rel as_before in
      record {
        table = w.table;
        run = w.run;
        tmp = w.tmp;
        done = w.done;
        run_chain = rw (← run_queue g miss l) w.run_chain;
        tmp_chain = rw (← tmp_queue g miss l) w.tmp_chain;
        fields = λ a.
            w.fields a
            ∙ ap
                (λ (p : Proc). record p {
                  state = if has a (woken g e xs) then runnable else p.state;
                })
                (rel.fields a)
            ∙ state_step g miss l a;
      }
