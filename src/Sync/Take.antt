-- ===== src/Sync/Take.antt =====
-- A round of `wakeup`'s loop on a process that waits for the event.
use xern.Base.{
  ℕ, ◌+◌, ◌≤◌, ◌≡◌, refl, ◌∙◌, ap, true, false, Option, none, List, ◌∷◌, arith, has, if◌then◌else◌,
  length,
}
use xern.Kernel.{Proc, runnable, Event, same_event, nprocs}
use xern.Queue.{enqueue}
use xern.Queue.Chain.{Chain, insert, length-insert, frame}
use xern.Queue.Order.{Relinked, Enqueued, enqueue_refines}
use xern.Sync.{set_state}
use xern.Sync.Wake.{
  woken, left, put_all, Apart, Alike, insert_alike, put_all_alike, woken_alike, left_alike, Woken,
  keep, like, Apart-insert, insert-Apart, tail-Apart, Apart-cons, Apart-symm,
}

-- The three queues of the loop, apart from one another and short enough.
pub record Ready (f : ℕ → Proc) (q run tmp : Option ℕ) (xs ys zs : List ℕ) : Type 0 where
  pub sleepers : Chain f q xs
  pub runners : Chain f run ys
  pub others : Chain f tmp zs
  pub xy : Apart xs ys
  pub xz : Apart xs zs
  pub yz : Apart ys zs
  pub room_run : length xs + length ys ≤ nprocs
  pub room_tmp : length xs + length zs ≤ nprocs

module _ (f : ℕ → Proc) (e : Event) (q run tmp : Option ℕ) (x : ℕ) (xs ys zs : List ℕ)
    (r : Ready f q run tmp (x ∷ xs) ys zs) where
  fresh_run : has x ys ≡ false
  fresh_run = (tail-Apart x xs ys r.xy).0

  fresh_tmp : has x zs ≡ false
  fresh_tmp = (tail-Apart x xs zs r.xz).0

  as_before :
      (a : ℕ)
      → record (set_state f x runnable a) { state = runnable } ≡ record (f a) { state = runnable }
  as_before a = ground arith

  -- `x` goes to the runnable queue.
  pub wake_one : Enqueued (set_state f x runnable) x ys (enqueue (set_state f x runnable) run x)
  wake_one =
      enqueue_refines (set_state f x runnable) run x ys
        (frame f (set_state f x runnable) run run ys r.runners refl (λ a i. ground arith)) fresh_run
        (omega (arith, r.room_run))

  pub woken-Ready :
      (g : ℕ → Proc) (head : Option ℕ)
      → Chain g head (insert (set_state f x runnable) x ys)
      → Relinked (set_state f x runnable) g (x ∷ ys)
      → Ready g (f x).next head tmp xs (insert (set_state f x runnable) x ys) zs
  woken-Ready g head c rel =
      let f1 = set_state f x runnable in
      let (fx, ax) = tail-Apart x xs ys r.xy in
      let (fz, az) = tail-Apart x xs zs r.xz in
      record {
        sleepers =
            keep f f1 g x ys rel as_before (f x).next xs r.sleepers.2
              (Apart-cons x xs ys r.sleepers.1 ax);
        runners = c;
        others =
            keep f f1 g x ys rel as_before tmp zs r.others
              (Apart-cons x zs ys fz (Apart-symm ys zs r.yz));
        xy = Apart-insert f f1 g x ys rel as_before xs r.sleepers.1 ax;
        xz = az;
        yz = insert-Apart f f1 g x ys rel as_before zs fz r.yz;
        room_run = omega (arith, length-insert f1 x ys, r.room_run);
        room_tmp = omega (arith, r.room_tmp);
      }

  run_queue :
      (g : ℕ → Proc)
      → same_event (f x).event e ≡ true
      → Alike f g
      → put_all g (woken g e xs) (insert (set_state f x runnable) x ys)
        ≡ put_all f (woken f e (x ∷ xs)) ys
  unfolding put_all woken
  run_queue g hit l =
      rw (hit, woken_alike f g l, insert_alike f (set_state f x runnable) (λ a. ground arith))
        (put_all_alike f g l (woken f e xs) (insert f x ys))

  tmp_queue :
      (g : ℕ → Proc)
      → same_event (f x).event e ≡ true
      → Alike f g
      → put_all g (left g e xs) zs ≡ put_all f (left f e (x ∷ xs)) zs
  unfolding left
  tmp_queue g hit l = rw (hit, left_alike f g l) (put_all_alike f g l (left f e xs) zs)

  state_step :
      (g : ℕ → Proc)
      → same_event (f x).event e ≡ true
      → Alike f g
      → (a : ℕ)
      → let f1 = set_state f x runnable in
        record (f1 a) {
          next = none;
          state = if has a (woken g e xs) then runnable else (f1 a).state;
        }
        ≡ record (f a) {
          next = none;
          state = if has a (woken f e (x ∷ xs)) then runnable else (f a).state;
        }
  unfolding woken
  state_step g hit l a = rw (hit, woken_alike f g l) (ground arith)

  -- What follows for the whole round from the rest of the loop.
  pub finish-Woken :
      (g : ℕ → Proc) (out : Option ((ℕ → Proc) × Option ℕ × Option ℕ))
      → same_event (f x).event e ≡ true
      → Relinked (set_state f x runnable) g (x ∷ ys)
      → Woken g e xs (insert (set_state f x runnable) x ys) zs out
      → Woken f e (x ∷ xs) ys zs out
  finish-Woken g out hit rel w =
      let f1 = set_state f x runnable in
      let l = like f f1 g x ys rel as_before in
      record {
        table = w.table;
        run = w.run;
        tmp = w.tmp;
        done = w.done;
        run_chain = rw (← run_queue g hit l) w.run_chain;
        tmp_chain = rw (← tmp_queue g hit l) w.tmp_chain;
        fields = λ a.
            w.fields a
            ∙ ap
                (λ (p : Proc). record p {
                  state = if has a (woken g e xs) then runnable else p.state;
                })
                (rel.fields a)
            ∙ state_step g hit l a;
      }
