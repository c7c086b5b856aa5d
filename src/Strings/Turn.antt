-- ===== src/Strings/Turn.antt =====
-- `reverse` turns a text round.
use mathlib.Core.List.{reverse as mirror, reverse-append}
use xern.Base.{
  ℕ, zero, suc, ◌≤◌, ◌<◌, ◌≡◌, refl, ap, List, [], ◌∷◌, ◌++◌, some, arith, length, get_elem?, take,
}
use xern.Strings.{reverse, reverse_loop}
use xern.Strings.Terminated.{IsText, holding, strlen-holding}

take-suc : (s : List ℕ) (i c : ℕ) → get_elem? s i ≡ some c → take (suc i) s ≡ take i s ++ (c ∷ [])
take-suc [] i c e = cc
take-suc (x ∷ s) zero c e = ground (arith, e)
take-suc (x ∷ s) (suc i) c e = ap (λ l. x ∷ l) (take-suc s i c e)

in_range :
    (s r : List ℕ) (i : ℕ)
    → i < length s
    → (c : ℕ) × (get_elem? (s ++ r) i ≡ some c) × (get_elem? s i ≡ some c)
in_range [] r i l = absurd (omega arith)
in_range (x ∷ s) r zero l = (x, refl, refl)
in_range (x ∷ s) r (suc i) l = in_range s r i (omega (arith, l))

reverse_loop-mirror :
    (s r : List ℕ) (i : ℕ)
    → i ≤ length s
    → reverse_loop (s ++ r) i ≡ some (mirror (take i s) ++ (0 ∷ []))
unfolding reverse_loop
reverse_loop-mirror s r zero l = refl
reverse_loop-mirror s r (suc i) l =
    let (c, e, e') = in_range s r i l in
    rw
      (
        e,
        reverse_loop-mirror s r i (omega arith),
        take-suc s i c e',
        reverse-append (take i s) (c ∷ []),
      )
      refl

take-length : (s : List ℕ) → take (length s) s ≡ s
take-length [] = refl
take-length (x ∷ s) = ap (λ l. x ∷ l) (take-length s)

-- `reverse` of a buffer that holds a text writes its bytes in the opposite order and the NUL.
pub reverse-mirror : (s r : List ℕ) → IsText s → reverse (holding s r) ≡ some (mirror s ++ (0 ∷ []))
unfolding reverse
reverse-mirror s r t =
    rw (strlen-holding s r t, reverse_loop-mirror s (0 ∷ r) (length s) (omega arith), take-length s)
      refl
