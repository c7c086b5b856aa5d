-- ===== src/Life/Finish.antt =====
-- The end of `kexit`: the wakeups, and the switch to another process.
use xern.Base.{
  ℕ, ◌≡◌, refl, ◌∙◌, ap, sym, subst, true, false, Bool, Option, none, some, arith, if◌then◌else◌,
  ◌==◌, List, [], ◌∷◌, has, ◌>>=◌,
}
use xern.Kernel.{Kernel, Proc, unused, Event}
use xern.Sync.{wakeup, scheduler, is_runnable}
use xern.Sync.Wakeup.{Queues, wakeup-Awake}
use xern.Sync.Again.{Off, Stands, wakeup-Stands, has-woken}
use xern.Sync.Schedule.{scheduler-Scheduled}
use xern.Life.{running}

-- A process but for its place in a queue and its state.
abbrev pub strip : Proc → Proc
strip p = record p { next = none; state = unused }

-- From `k` to `k'` only queues and states of sleepers changed.
pub record Through (old : ℕ) (k k' : Kernel) : Type 0 where
  pub fields : (a : ℕ) → strip (k'.procs a) ≡ strip (k.procs a)
  pub state : (k'.procs old).state ≡ (k.procs old).state
  pub files : k'.open_file_table ≡ k.open_file_table

trans : (old : ℕ) (k k' k2 : Kernel) → Through old k' k2 → Through old k k' → Through old k k2
trans old k k' k2 b a = record {
  fields = λ p. b.fields p ∙ a.fields p;
  state = b.state ∙ a.state;
  files = b.files ∙ a.files;
}

-- A wakeup by a running process that is not runnable any more.
pub record Resumed (k k' : Kernel) : Type 0 where
  pub through : Through k.curr_proc k k'
  pub same_proc : k'.curr_proc ≡ k.curr_proc
  pub same_table : k'.ttbr ≡ k.ttbr
  pub stands : Stands k' 1

wakeup-Resumed :
    (k : Kernel) (e : Event) → Stands k 1 → (k' : Kernel) × (wakeup e k ≡ some k') × Resumed k k'
wakeup-Resumed k e s =
    let w = wakeup-Awake k e s.xs s.ys s.queues in
    (
      w.next,
      w.done,
      record {
        through = record {
          fields = λ a. ap (λ (p : Proc). record p { state = unused }) (w.fields a);
          state =
              ap (λ (p : Proc). p.state) (w.fields k.curr_proc)
              ∙ ground (arith, has-woken k.procs e k.curr_proc s.xs, s.off.not_asleep);
          files = ap (λ (n : Kernel). n.open_file_table) w.others;
        };
        same_proc = ap (λ (n : Kernel). n.curr_proc) w.others;
        same_table = ap (λ (n : Kernel). n.ttbr) w.others;
        stands = wakeup-Stands k e 1 s.xs s.ys _ s.queues s.off w;
      },
    )

wakeup_if-Resumed :
    (k : Kernel) (e : Event) (b : Bool)
    → Stands k 1
    → (k' : Kernel) × ((if b then some k else wakeup e k) ≡ some k') × Resumed k k'
wakeup_if-Resumed k e true s = (
  k,
  refl,
  record {
    through = record { fields = λ a. refl; state = refl; files = refl };
    same_proc = refl;
    same_table = refl;
    stands = s;
  },
)
wakeup_if-Resumed k e false s = wakeup-Resumed k e s

-- Another process runs, and nothing but queues and states of sleepers changed.
pub record Switched (k : Kernel) (out : Option Kernel) : Type 0 where
  pub next : Kernel
  pub done : out ≡ some next
  pub through : Through k.curr_proc k next
  pub other : (next.curr_proc == k.curr_proc) ≡ false
  pub bound : next.ttbr ≡ (next.procs next.curr_proc).pgdir

head_off : (a : ℕ) (y : ℕ) (ys : List ℕ) → has a (y ∷ ys) ≡ false → (y == a) ≡ false
head_off a y ys h = ground arith

switch_from :
    (k : Kernel) (xs ys : List ℕ)
    → Queues k xs ys
    → Off k 1 xs ys
    → is_runnable (running k).state ≡ false
    → k.ttbr ≡ (running k).pgdir
    → Switched k (scheduler k)
switch_from k xs [] q o stops under = absurd (omega (arith, o.enough))
switch_from k xs (y ∷ ys) q o stops under =
    let z =
      scheduler-Scheduled k under (y ∷ ys) y ys q.running o.not_queued (omega (arith, q.room))
        (rw stops refl) in
    record {
      next = z.next;
      done = z.done;
      through = record {
        fields = λ a. ap (λ (p : Proc). record p { state = unused }) (z.fields a);
        state = ap (λ (p : Proc). p.state) (z.fields k.curr_proc);
        files = ap (λ (n : Kernel). n.open_file_table) z.others;
      };
      other = ap (λ a. a == k.curr_proc) z.runs ∙ head_off k.curr_proc y ys o.not_queued;
      bound =
          z.table
          ∙ sym (ap (λ a. (z.next.procs a).pgdir) z.runs ∙ ap (λ (p : Proc). p.pgdir) (z.fields y));
    }

-- A wakeup, a second one unless `b`, and the switch.
pub finish-Switched :
    (k : Kernel) (e e' : Event) (b : Bool)
    → Stands k 1
    → is_runnable (running k).state ≡ false
    → k.ttbr ≡ (running k).pgdir
    → Switched k (wakeup e k >>= λ k'. (if b then some k' else wakeup e' k') >>= scheduler)
finish-Switched k e e' b s stops under =
    let (k1, done1, r1) = wakeup-Resumed k e s in
    let (k2, done2, r2) = wakeup_if-Resumed k1 e' b r1.stands in
    let at : k2.curr_proc ≡ k.curr_proc = r2.same_proc ∙ r1.same_proc in
    let t : Through k.curr_proc k k2 =
      trans k.curr_proc k k1 k2 (subst (λ a. Through a k1 k2) r1.same_proc r2.through) r1.through in
    let z =
      switch_from k2 r2.stands.xs r2.stands.ys r2.stands.queues r2.stands.off
        (ap (λ a. is_runnable (k2.procs a).state) at ∙ (ap is_runnable t.state ∙ stops))
        (r2.same_table
          ∙ (r1.same_table
              ∙ (under
                  ∙ sym (
                      ap (λ a. (k2.procs a).pgdir) at
                      ∙ ap (λ (p : Proc). p.pgdir) (t.fields k.curr_proc))))) in
    rw (done1, done2)
      (record {
        next = z.next;
        done = z.done;
        through = trans k.curr_proc k k2 z.next (subst (λ a. Through a k2 z.next) at z.through) t;
        other = subst (λ a. (z.next.curr_proc == a) ≡ false) at z.other;
        bound = z.bound;
      })
