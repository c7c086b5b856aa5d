-- ===== src/Queue/Order.antt =====
-- `enqueue` against insertion into a list by priority.
use xern.Base.{
  ℕ, zero, suc, ◌<◌, ◌≤◌, ◌≡◌, refl, sym, subst, inl, inr, true, false, Option, none, some, List,
  [], ◌∷◌, arith, has, ltb, leb, length, Bool-cases,
}
use xern.Kernel.{Proc, nprocs}
use xern.Queue.{set_next, link, walk, enqueue}
use xern.Queue.Chain.{Chain, insert, has-insert, frame}

-- What the walk from `x` has found: a node of the queue behind which `p` belongs.
record Placed (f : ℕ → Proc) (p x : ℕ) (xs : List ℕ) (fuel : ℕ) : Type 0 where
  at : ℕ
  found : walk fuel f p x ≡ some at
  inside : has at (x ∷ xs) ≡ true
  chain : Chain (link f p at) (some x) (x ∷ insert f p xs)

module _ (f : ℕ → Proc) (p : ℕ) where
  insert_alone : insert f p [] ≡ p ∷ []
  unfolding insert
  insert_alone = refl

  insert_past :
      (r : ℕ) (xs : List ℕ)
      → leb (f p).priority (f r).priority ≡ true
      → insert f p (r ∷ xs) ≡ r ∷ insert f p xs
  unfolding insert
  insert_past r xs h = ground arith

  insert_before :
      (r : ℕ) (xs : List ℕ)
      → leb (f p).priority (f r).priority ≡ false
      → insert f p (r ∷ xs) ≡ p ∷ r ∷ xs
  unfolding insert
  insert_before r xs h = ground arith

  -- Behind `x`, the last node of at least `p`'s priority.
  stop_here :
      (x : ℕ) (xs : List ℕ)
      → has x xs ≡ false
      → has p (x ∷ xs) ≡ false
      → Chain f (f x).next xs
      → Chain (link f p x) (some x) (x ∷ p ∷ xs)
  stop_here x xs out new c = (
    refl,
    ground arith,
    (
      ground arith,
      ground arith,
      frame f (link f p x) (f x).next (link f p x p).next xs c (ground arith) (λ a i. ground arith),
    ),
  )

  -- Past `x`, in front of which `p` does not belong.
  go_on :
      (x r at : ℕ) (xs : List ℕ)
      → (f x).next ≡ some r
      → has x (r ∷ xs) ≡ false
      → has p (x ∷ r ∷ xs) ≡ false
      → has at (r ∷ xs) ≡ true
      → Chain (link f p at) (some r) (r ∷ insert f p xs)
      → Chain (link f p at) (some x) (x ∷ r ∷ insert f p xs)
  go_on x r at xs e out new inside c =
      (refl, ground (arith, has-insert f p x xs), (ground arith, c.1, c.2))

  walk-Placed :
      (fuel x : ℕ) (xs : List ℕ)
      → length xs < fuel
      → has x xs ≡ false
      → has p (x ∷ xs) ≡ false
      → Chain f (f x).next xs
      → Placed f p x xs fuel
  unfolding walk
  walk-Placed zero x xs room out new c = absurd (omega arith)
  walk-Placed (suc fuel) x [] room out new c = record {
    at = x;
    found = rw (c, walk);
    inside = ground arith;
    chain = rw insert_alone (stop_here x [] out new c);
  }
  walk-Placed (suc fuel) x (r ∷ xs) room out new (e, fresh, c) =
      elim (Bool-cases (leb (f p).priority (f r).priority)) [
        | inl further ↦
            let rest = walk-Placed fuel r xs (omega arith) fresh (ground arith) c in
            record {
              at = rest.at;
              found = rw (e, further, walk) rest.found;
              inside = ground (arith, rest.inside);
              chain =
                  rw (insert_past r xs further)
                    (go_on x r rest.at xs e out new rest.inside rest.chain);
            }
        | inr here ↦ record {
          at = x;
          found = rw (e, here, walk) refl;
          inside = ground arith;
          chain = rw (insert_before r xs here) (stop_here x (r ∷ xs) out new (e, fresh, c));
        }
      ]

-- `g` is `f` but for `next` fields, and those only at the nodes of `xs`.
pub record Relinked (f g : ℕ → Proc) (xs : List ℕ) : Type 0 where
  pub fields : (a : ℕ) → record (g a) { next = none } ≡ record (f a) { next = none }
  pub outside : (a : ℕ) → has a xs ≡ false → g a ≡ f a

-- The outcome of putting `p` into the queue `xs`.
pub record Enqueued (f : ℕ → Proc) (p : ℕ) (xs : List ℕ) (out : Option ((ℕ → Proc) × Option ℕ))
    : Type 0 where
  pub table : ℕ → Proc
  pub head : Option ℕ
  pub done : out ≡ some (table, head)
  pub chain : Chain table head (insert f p xs)
  pub relinked : Relinked f table (p ∷ xs)

module _ (f : ℕ → Proc) (p : ℕ) where
  alone : Enqueued f p [] (enqueue f none p)
  unfolding enqueue
  alone = record {
    table = set_next f p none;
    head = some p;
    done = refl;
    chain = rw (insert_alone f p) (refl, refl, ground arith);
    relinked = record { fields = λ a. ground arith; outside = λ a o. ground arith };
  }

  link_fields : (at a : ℕ) → record (link f p at a) { next = none } ≡ record (f a) { next = none }
  link_fields at a = ground arith

  link_outside :
      (at a : ℕ) (xs : List ℕ) → has at xs ≡ true → has a (p ∷ xs) ≡ false → link f p at a ≡ f a
  link_outside at a xs inside o = ground arith

  link-Relinked : (at : ℕ) (xs : List ℕ) → has at xs ≡ true → Relinked f (link f p at) (p ∷ xs)
  link-Relinked at xs inside = record {
    fields = link_fields at;
    outside = λ a o. link_outside at a xs inside o;
  }

  in_front :
      (x : ℕ) (xs : List ℕ)
      → ltb (f x).priority (f p).priority ≡ true
      → Chain f (some x) (x ∷ xs)
      → has p (x ∷ xs) ≡ false
      → Enqueued f p (x ∷ xs) (some (set_next f p (some x), some p))
  in_front x xs higher c new = record {
    table = set_next f p (some x);
    head = some p;
    done = refl;
    chain = rw (insert_before f p x xs (ground arith)) (
      refl,
      new,
      frame f (set_next f p (some x)) (some x) (set_next f p (some x) p).next (x ∷ xs) c
          (ground arith) (λ a i. ground arith),
    );
    relinked = record { fields = λ a. ground arith; outside = λ a o. ground arith };
  }

  not-higher :
      (x : ℕ) → ltb (f x).priority (f p).priority ≡ false → leb (f p).priority (f x).priority ≡ true
  not-higher x h = ground arith

  enqueue_cons :
      (x : ℕ) (xs : List ℕ)
      → Chain f (some x) (x ∷ xs)
      → has p (x ∷ xs) ≡ false
      → length (x ∷ xs) ≤ nprocs
      → Enqueued f p (x ∷ xs) (enqueue f (some x) p)
  unfolding enqueue
  enqueue_cons x xs c new room = elim (Bool-cases (ltb (f x).priority (f p).priority)) [
    | inl higher ↦ rw higher (in_front x xs higher c new)
    | inr lower ↦
        let spot = walk-Placed f p nprocs x xs room c.1 new c.2 in
        record {
          table = link f p spot.at;
          head = some x;
          done = rw (lower, spot.found) refl;
          chain = rw (insert_past f p x xs (not-higher x lower)) spot.chain;
          relinked = link-Relinked spot.at (x ∷ xs) spot.inside;
        }
  ]

-- `enqueue` on a queue that leads through `xs`, none of them `p` and at most NPROCS, returns a queue
-- that leads through `xs` with `p` inserted by priority. It writes only `next` fields, and only
-- those of `p` and `xs`.
pub enqueue_refines :
    (f : ℕ → Proc) (q : Option ℕ) (p : ℕ) (xs : List ℕ)
    → Chain f q xs
    → has p xs ≡ false
    → length xs ≤ nprocs
    → Enqueued f p xs (enqueue f q p)
enqueue_refines f none p [] c new room = alone f p
enqueue_refines f none p (x ∷ xs) c new room = cc
enqueue_refines f (some q) p [] c new room = cc
enqueue_refines f (some q) p (x ∷ xs) (e, c, d) new room =
    subst (λ h. Enqueued f p (x ∷ xs) (enqueue f h p)) (sym e)
      (enqueue_cons f p x xs (refl, c, d) new room)
