-- ===== src/Pipe/Window.antt =====
-- The bytes that a ring holds, oldest first.
use xern.Base.{
  ℕ, zero, suc, ◌+◌, ◌-◌, ◌%◌, ◌≤◌, ◌<◌, ◌≡◌, ◌≢◌, refl, ◌∙◌, ap, List, [], ◌∷◌, ◌++◌, arith,
  update, length,
}
use xern.Kernel.{pipesize}

-- `n` bytes from offset `r` on; offsets only grow, and are reduced where the ring is read.
unfoldable pub window : (ℕ → ℕ) → ℕ → ℕ → List ℕ
window buf r zero = []
window buf r (suc n) = buf (r % pipesize) ∷ window buf (r + 1) n

pub length-window : (buf : ℕ → ℕ) (r n : ℕ) → length (window buf r n) ≡ n
unfolding window
length-window buf r zero = refl
length-window buf r (suc n) = ap suc (length-window buf (r + 1) n)

-- Two offsets less than a ring apart are different places.
places_differ : (r w : ℕ) → r < w → w < r + pipesize → r % pipesize ≢ w % pipesize
places_differ r w low high = omega arith

-- A write outside the window leaves it.
window-update :
    (buf : ℕ → ℕ) (c w r n : ℕ)
    → r + n ≤ w
    → w < r + pipesize
    → window (update buf (w % pipesize) c) r n ≡ window buf r n
unfolding window
window-update buf c w r zero low high = refl
window-update buf c w r (suc n) low high = ground (
  arith,
  places_differ r w (omega arith) high,
  window-update buf c w (r + 1) n (omega arith) (omega arith),
)

-- A window can be read in two parts.
pub window-add :
    (buf : ℕ → ℕ) (r m n : ℕ) → window buf r (m + n) ≡ window buf r m ++ window buf (r + m) n
unfolding window
window-add buf r zero n = ground arith
window-add buf r (suc m) n =
    ap (window buf r) (plus_suc m n) ∙ ground (arith, window-add buf (r + 1) m n)
  where
    plus_suc : (m n : ℕ) → suc m + n ≡ suc (m + n)
    plus_suc m n = omega arith

-- A write at the end of a window that leaves a place extends it.
pub window-snoc :
    (buf : ℕ → ℕ) (c r n : ℕ)
    → n < pipesize
    → window (update buf ((r + n) % pipesize) c) r (n + 1) ≡ window buf r n ++ (c ∷ [])
unfolding window
window-snoc buf c r n room =
    window-add (update buf ((r + n) % pipesize) c) r n 1
    ∙ ground (arith, window-update buf c (r + n) r n (omega arith))

-- The first byte of a window that is not empty, and the others.
pub window-pos :
    (buf : ℕ → ℕ) (r n : ℕ)
    → 0 < n
    → window buf r n ≡ buf (r % pipesize) ∷ window buf (r + 1) (n - 1)
unfolding window
window-pos buf r zero h = absurd (omega arith)
window-pos buf r (suc n) h = ap (λ k. buf (r % pipesize) ∷ window buf (r + 1) k) (omega arith)
