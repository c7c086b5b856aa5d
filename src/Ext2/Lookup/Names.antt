-- ===== src/Ext2/Lookup/Names.antt =====
-- When an entry of a directory counts as the one that is looked for.
use xern.Base.{
  ℕ, zero, suc, ◌<◌, ◌≤◌, ◌≡◌, ◌≢◌, ◌↔◌, refl, ◌∙◌, arith, true, ltb, List, [], ◌∷◌, length,
  Bool-cases, inl, inr,
}
use xern.Ext2.Writing.Paste.{nth}
use xern.Ext2.Lookup.{same_bytes, same_name, name_len, entry_name}

pub same_bytes_forth : (n : ℕ) (f g : ℕ → ℕ) → same_bytes n f g ≡ true → (i : ℕ) → i < n → f i ≡ g i
unfolding same_bytes
same_bytes_forth zero f g e i l = absurd (omega arith)
same_bytes_forth (suc n) f g e zero l = ground (arith, e)
same_bytes_forth (suc n) f g e (suc i) l =
    same_bytes_forth n (λ i. f (suc i)) (λ i. g (suc i)) (ground (arith, e)) i (omega arith)

pub same_bytes_back :
    (n : ℕ) (f g : ℕ → ℕ) → ((i : ℕ) → i < n → f i ≡ g i) → same_bytes n f g ≡ true
unfolding same_bytes
same_bytes_back zero f g h = refl
same_bytes_back (suc n) f g h = ground (
  arith,
  h 0 (omega arith),
  same_bytes_back n (λ i. f (suc i)) (λ i. g (suc i)) (λ i l. h (suc i) (omega arith)),
)

nth-end : (s : List ℕ) → nth s (length s) ≡ 0
nth-end [] = refl
nth-end (c ∷ s) = nth-end s

not_longer : (m n : ℕ) → (n < m → ⊥) → m ≤ n
not_longer m n h = elim (Bool-cases (ltb n m)) [
  | inl e ↦ absurd (h (ground (arith, e)))
  | inr e ↦ ground (arith, e)
]

-- An entry whose name has no NUL counts as the one that is looked for exactly if its name is not longer than the name
-- looked for, and what stands in the block from the entry's name on is the name looked for, so also when the
-- entry's name is shorter and the bytes behind it happen to go on like that.
pub same_name_iff :
    (buf : ℕ → ℕ) (p : ℕ) (name : List ℕ)
    → ((i : ℕ) → i < name_len buf p → entry_name buf p i ≢ 0)
    → (same_name buf p name ≡ true) ↔ (
        (name_len buf p ≤ length name)
        × ((i : ℕ) → i < length name → entry_name buf p i ≡ nth name i))
unfolding same_name
same_name_iff buf p name text = elim (Bool-cases (ltb (name_len buf p) (length name))) [
  | inl shorter ↦ rw shorter (
    λ e. (ground (arith, shorter), same_bytes_forth (length name) (entry_name buf p) (nth name) e),
    λ (short, same). same_bytes_back (length name) (entry_name buf p) (nth name) same,
  )
  | inr longer ↦ rw longer (
    λ e.
        let same = same_bytes_forth (name_len buf p) (entry_name buf p) (nth name) e in
        (
          not_longer (name_len buf p) (length name)
              (λ l. text (length name) l (same (length name) l ∙ nth-end name)),
          λ i l. same i (ground (arith, longer)),
        ),
    λ (short, same).
        same_bytes_back (name_len buf p) (entry_name buf p) (nth name)
          (λ i l. same i (ground (arith, longer))),
  )
]
