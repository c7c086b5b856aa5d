-- ===== src/Sync/Wake.antt =====
-- `wakeup` moves exactly the processes that sleep on the event to the runnable queue.
use xern.Base.{
  ℕ, ◌≡◌, refl, ◌∙◌, ap, inl, inr, true, false, Option, none, some, List, [], ◌∷◌, arith, has,
  if◌then◌else◌, Bool-cases,
}
use xern.Kernel.{Proc, runnable, Event, same_event}
use xern.Queue.Chain.{Chain, insert, has-insert, frame}
use xern.Queue.Order.{Relinked}

-- The sleepers that wait for `e`, and the others, in their order.
unfoldable pub woken : (ℕ → Proc) → Event → List ℕ → List ℕ
woken f e [] = []
woken f e (x ∷ xs) = if same_event (f x).event e then x ∷ woken f e xs else woken f e xs

unfoldable pub left : (ℕ → Proc) → Event → List ℕ → List ℕ
left f e [] = []
left f e (x ∷ xs) = if same_event (f x).event e then left f e xs else x ∷ left f e xs

-- A queue into which the processes of a list are put one after the other.
unfoldable pub put_all : (ℕ → Proc) → List ℕ → List ℕ → List ℕ
put_all f [] ys = ys
put_all f (p ∷ ps) ys = put_all f ps (insert f p ys)

-- No process is in both lists.
abbrev pub Apart : List ℕ → List ℕ → Type 0
Apart xs ys = (a : ℕ) → has a xs ≡ true → has a ys ≡ false

-- Two tables that agree on what the queues read of a process, but for `next` and `state`.
pub record Alike (f g : ℕ → Proc) : Type 0 where
  pub priority : (a : ℕ) → (g a).priority ≡ (f a).priority
  pub event : (a : ℕ) → (g a).event ≡ (f a).event

pub insert_alike :
    (f g : ℕ → Proc)
    → ((a : ℕ) → (g a).priority ≡ (f a).priority)
    → (p : ℕ) (xs : List ℕ) → insert g p xs ≡ insert f p xs
unfolding insert
insert_alike f g like p [] = refl
insert_alike f g like p (x ∷ xs) = ground (arith, like x, like p, insert_alike f g like p xs)

module _ (f g : ℕ → Proc) (like : Alike f g) where
  pub put_all_alike : (ps ys : List ℕ) → put_all g ps ys ≡ put_all f ps ys
  unfolding put_all
  put_all_alike [] ys = refl
  put_all_alike (p ∷ ps) ys =
      rw (insert_alike f g like.priority p ys) (put_all_alike ps (insert f p ys))

  pub woken_alike : (e : Event) (xs : List ℕ) → woken g e xs ≡ woken f e xs
  unfolding woken
  woken_alike e [] = refl
  woken_alike e (x ∷ xs) = rw (like.event, woken_alike e xs) refl

  pub left_alike : (e : Event) (xs : List ℕ) → left g e xs ≡ left f e xs
  unfolding left
  left_alike e [] = refl
  left_alike e (x ∷ xs) = rw (like.event, left_alike e xs) refl

-- What the loop of `wakeup` has done when it ends, started with the three queues `xs`, `ys`, `zs`.
pub record Woken (f : ℕ → Proc) (e : Event) (xs ys zs : List ℕ)
    (out : Option ((ℕ → Proc) × Option ℕ × Option ℕ)) : Type 0 where
  pub table : ℕ → Proc
  pub run : Option ℕ
  pub tmp : Option ℕ
  pub done : out ≡ some (table, run, tmp)
  pub run_chain : Chain table run (put_all f (woken f e xs) ys)
  pub tmp_chain : Chain table tmp (put_all f (left f e xs) zs)
  pub fields :
      (a : ℕ)
      → record (table a) { next = none } ≡ record (f a) {
        next = none;
        state = if has a (woken f e xs) then runnable else (f a).state;
      }

-- `f1` is `f` but for states, and `g` is `f1` after `x` was put into `ys`.
module _ (f f1 g : ℕ → Proc) (x : ℕ) (ys : List ℕ) (rel : Relinked f1 g (x ∷ ys))
    (same : (a : ℕ) → record (f1 a) { state = runnable } ≡ record (f a) { state = runnable }) where
  pub keep : (q : Option ℕ) (ws : List ℕ) → Chain f q ws → Apart ws (x ∷ ys) → Chain g q ws
  keep q ws c apart = frame f g q q ws c refl λ a i.
      ap (λ (p : Proc). p.next) (rel.outside a (apart a i)) ∙ ap (λ (p : Proc). p.next) (same a)

  pub like : Alike f g
  like = record {
    priority =
        λ a. ap (λ (p : Proc). p.priority) (rel.fields a) ∙ ap (λ (p : Proc). p.priority) (same a);
    event = λ a. ap (λ (p : Proc). p.event) (rel.fields a) ∙ ap (λ (p : Proc). p.event) (same a);
  }

  pub Apart-insert : (ws : List ℕ) → has x ws ≡ false → Apart ws ys → Apart ws (insert f1 x ys)
  Apart-insert ws out apart a i = ground (arith, has-insert f1 x a ys, apart a)

  pub insert-Apart : (ws : List ℕ) → has x ws ≡ false → Apart ys ws → Apart (insert f1 x ys) ws
  insert-Apart ws out apart a i = ground (arith, has-insert f1 x a ys, apart a)

pub tail-Apart : (x : ℕ) (xs ys : List ℕ) → Apart (x ∷ xs) ys → (has x ys ≡ false) × Apart xs ys
tail-Apart x xs ys apart = (apart x (ground arith), λ a i. apart a (ground arith))

pub Apart-cons : (x : ℕ) (ws ys : List ℕ) → has x ws ≡ false → Apart ws ys → Apart ws (x ∷ ys)
Apart-cons x ws ys out apart a i = ground (arith, apart a)

pub Apart-symm : (xs ys : List ℕ) → Apart xs ys → Apart ys xs
Apart-symm xs ys apart a i = elim (Bool-cases (has a xs)) [
  | inl both ↦ absurd (ground (arith, apart a))
  | inr out ↦ out
]
