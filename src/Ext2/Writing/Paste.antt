-- ===== src/Ext2/Writing/Paste.antt =====
-- The bytes that `memcpy` puts into a block.
use xern.Base.{
  ℕ, zero, suc, ◌+◌, ◌<◌, ◌≤◌, ◌≡◌, refl, ap, ◌∙◌, arith, List, [], ◌∷◌, length, take, drop, update,
  ◌⊎◌,
}
use xern.Ext2.Writing.{paste}

-- Byte `i` of a text.
abbrev pub nth : List ℕ → ℕ → ℕ
nth [] i = 0
nth (c ∷ s) zero = c
nth (c ∷ s) (suc i) = nth s i

pub nth-drop : (n : ℕ) (s : List ℕ) (i : ℕ) → nth (drop n s) i ≡ nth s (n + i)
nth-drop zero s i = ap (nth s) {x = i} {y = 0 + i} (omega arith)
nth-drop (suc n) [] i = refl
nth-drop (suc n) (c ∷ s) i =
    nth-drop n s i ∙ ap (nth (c ∷ s)) {x = suc (n + i)} {y = suc n + i} (omega arith)

pub nth-take : (n : ℕ) (s : List ℕ) (i : ℕ) → i < n → nth (take n s) i ≡ nth s i
nth-take zero s i h = absurd (omega arith)
nth-take (suc n) [] i h = refl
nth-take (suc n) (c ∷ s) zero h = refl
nth-take (suc n) (c ∷ s) (suc i) h = nth-take n s i (omega arith)

before : (buf : ℕ → ℕ) (start : ℕ) (s : List ℕ) (k : ℕ) → k < start → paste buf start s k ≡ buf k
unfolding paste
before buf start [] k h = refl
before buf start (c ∷ s) k h =
    before (update buf start c) (suc start) s k (omega arith) ∙ ground arith

-- Byte `i` of the text stands `i` behind the start, and the others stay.
pub paste-in :
    (buf : ℕ → ℕ) (start : ℕ) (s : List ℕ) (i : ℕ)
    → i < length s
    → paste buf start s (start + i) ≡ nth s i
unfolding paste
paste-in buf start [] i h = absurd (omega arith)
paste-in buf start (c ∷ s) zero h =
    before (update buf start c) (suc start) s (start + 0) (omega arith) ∙ ground arith
paste-in buf start (c ∷ s) (suc i) h =
    ap (paste (update buf start c) (suc start) s) {x = start + suc i} {y = suc start + i}
      (omega arith)
    ∙ paste-in (update buf start c) (suc start) s i (omega arith)

pub paste-out :
    (buf : ℕ → ℕ) (start : ℕ) (s : List ℕ) (k : ℕ)
    → (k < start) ⊎ (start + length s ≤ k)
    → paste buf start s k ≡ buf k
unfolding paste
paste-out buf start [] k h = refl
paste-out buf start (c ∷ s) k h =
    paste-out (update buf start c) (suc start) s k (shift (length s) h) ∙ ground (arith, h)
  where
    shift : (n : ℕ) → (k < start) ⊎ (start + suc n ≤ k) → (k < suc start) ⊎ (suc start + n ≤ k)
    shift n h = ground (arith, h)
