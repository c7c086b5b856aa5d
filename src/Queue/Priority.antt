-- ===== src/Queue/Priority.antt =====
-- A queue is ordered by priority, and first in, first out within each priority.
use xern.Base.{
  ℕ, ◌≤◌, ◌<◌, ◌≡◌, refl, List, [], ◌∷◌, ◌++◌, arith, ◌==◌, ltb, if◌then◌else◌, All, Bool-cases,
  inl, inr,
}
use xern.Kernel.{Proc}
use xern.Queue.Chain.{insert}

-- No process stands behind one of a lower priority.
abbrev pub Sorted : (ℕ → Proc) → List ℕ → Type 0
Sorted f [] = Unit {0}
Sorted f (x ∷ xs) = All (λ y. (f y).priority ≤ (f x).priority) xs × Sorted f xs

-- The processes of priority `v`, in their order.
unfoldable pub level : (ℕ → Proc) → ℕ → List ℕ → List ℕ
level f v [] = []
level f v (x ∷ xs) = if (f x).priority == v then x ∷ level f v xs else level f v xs

module _ (f : ℕ → Proc) (p : ℕ) where
  All-insert :
      (n : ℕ) (xs : List ℕ)
      → (f p).priority ≤ n
      → All (λ y. (f y).priority ≤ n) xs
      → All (λ y. (f y).priority ≤ n) (insert f p xs)
  unfolding insert
  All-insert n [] h a = (h, tt)
  All-insert n (x ∷ xs) h (b, a) = elim (Bool-cases (ltb (f x).priority (f p).priority)) [
    | inl higher ↦ rw higher (h, (b, a))
    | inr lower ↦ rw lower (b, All-insert n xs h a)
  ]

  All-weaken :
      (n m : ℕ) (xs : List ℕ)
      → n ≤ m
      → All (λ y. (f y).priority ≤ n) xs
      → All (λ y. (f y).priority ≤ m) xs
  All-weaken n m [] h a = tt
  All-weaken n m (x ∷ xs) h (b, a) = (omega arith, All-weaken n m xs h a)

  -- `enqueue` keeps a queue ordered by priority.
  pub insert-Sorted : (xs : List ℕ) → Sorted f xs → Sorted f (insert f p xs)
  unfolding insert
  insert-Sorted [] s = (tt, tt)
  insert-Sorted (x ∷ xs) (a, s) = elim (Bool-cases (ltb (f x).priority (f p).priority)) [
    | inl higher ↦
        rw higher
          ((ground arith, All-weaken (f x).priority (f p).priority xs (ground arith) a), (a, s))
    | inr lower ↦ rw lower (All-insert (f x).priority xs (ground arith) a, insert-Sorted xs s)
  ]

  level-above :
      (n v : ℕ) (xs : List ℕ) → n < v → All (λ y. (f y).priority ≤ n) xs → level f v xs ≡ []
  unfolding level
  level-above n v [] h a = refl
  level-above n v (x ∷ xs) h (b, a) = ground (arith, level-above n v xs h a)

  -- Put into an ordered queue, a process stands last among those of its priority, and the order
  -- within every other priority stays.
  pub level-insert :
      (v : ℕ) (xs : List ℕ)
      → Sorted f xs
      → level f v (insert f p xs)
        ≡ (if (f p).priority == v then level f v xs ++ (p ∷ []) else level f v xs)
  unfolding insert level
  level-insert v [] s = refl
  level-insert v (x ∷ xs) (a, s) =
      ground (arith, level-above (f x).priority v xs, level-insert v xs s)
