-- ===== src/Queue/Chain.antt =====
-- The processes that a queue's pointers lead through, and what a write of `next` does to them.
use xern.Base.{
  suc, length, refl, ℕ, ◌≡◌, ◌∙◌, true, false, Option, none, some, List, [], ◌∷◌, arith, has, ◌==◌,
  ◌||◌, ltb, if◌then◌else◌,
}
use xern.Kernel.{Proc}

-- From `q` the `next` pointers lead through the distinct processes `xs`, and end in NULL.
abbrev pub Chain : (ℕ → Proc) → Option ℕ → List ℕ → Type 0
Chain procs q [] = q ≡ none
Chain procs q (x ∷ xs) = (q ≡ some x) × (has x xs ≡ false) × Chain procs (procs x).next xs

-- The queue with `p` put in: behind the entries of its own priority, before those of a lower one.
unfoldable pub insert : (ℕ → Proc) → ℕ → List ℕ → List ℕ
insert procs p [] = p ∷ []
insert procs p (x ∷ xs) =
    if ltb (procs x).priority (procs p).priority then p ∷ x ∷ xs else x ∷ insert procs p xs

pub has-insert :
    (f : ℕ → Proc) (p a : ℕ) (xs : List ℕ) → has a (insert f p xs) ≡ ((a == p) || has a xs)
unfolding insert
has-insert f p a [] = ground arith
has-insert f p a (x ∷ xs) = ground (arith, has-insert f p a xs)

pub length-insert : (f : ℕ → Proc) (p : ℕ) (xs : List ℕ) → length (insert f p xs) ≡ suc (length xs)
unfolding insert
length-insert f p [] = refl
length-insert f p (x ∷ xs) = ground (arith, length-insert f p xs)

-- A write to nodes outside a queue leaves the queue, from whatever pointer to its head.
pub frame :
    (f g : ℕ → Proc) (q q' : Option ℕ) (xs : List ℕ)
    → Chain f q xs
    → q' ≡ q
    → ((a : ℕ) → has a xs ≡ true → (g a).next ≡ (f a).next)
    → Chain g q' xs
frame f g q q' [] c e same = e ∙ c
frame f g q q' (x ∷ xs) (h, out, c) e same = (
  e ∙ h,
  out,
  frame f g (f x).next (g x).next xs c (same x (ground arith)) (λ a i. same a (ground arith)),
)
