-- ===== src/Strings/Search.antt =====
-- `strstr` finds the first place where the needle stands.
use xern.Base.{
  ℕ, suc, ◌<◌, ◌≡◌, refl, List, [], ◌∷◌, none, some, Option, arith, length, false, if◌then◌else◌,
  Bool-cases, inl, inr, ltb,
}
use xern.Strings.{strstr, strstr_loop}
use xern.Strings.Terminated.{IsText, holding, strlen-holding}
use xern.Strings.Compare.{starts, memcmp-starts}

-- The first index, counted from `i`, at which a text goes on with the needle and has a byte left.
unfoldable pub first_at : (needle hay : List ℕ) → ℕ → Option ℕ
first_at m [] i = none
first_at m (c ∷ h) i = if starts m (c ∷ h) then some i else first_at m h (suc i)

strstr_loop-first :
    (m h r r' : List ℕ) (i : ℕ)
    → IsText m
    → IsText h
    → strstr_loop (holding h r) (holding m r') (length m) (length h) i ≡ some (first_at m h i)
unfolding strstr_loop first_at
strstr_loop-first m [] r r' i p q = refl
strstr_loop-first m (c ∷ h) r r' i p (ne, q) =
    let (v, e, z) = memcmp-starts m (c ∷ h) r r' p (ne, q) in
    rw e (rw z (ground (arith, strstr_loop-first m h r r' (suc i) p q)))

starts_short : (m h : List ℕ) → length h < length m → starts m h ≡ false
unfolding starts
starts_short [] h l = absurd (omega arith)
starts_short (a ∷ m) [] l = refl
starts_short (a ∷ m) (b ∷ h) l = ground (arith, starts_short m h)

first_at-short : (m h : List ℕ) (i : ℕ) → length h < length m → first_at m h i ≡ none
unfolding first_at
first_at-short m [] i l = refl
first_at-short m (c ∷ h) i l =
    rw (starts_short m (c ∷ h) l) (first_at-short m h (suc i) (omega arith))

-- On texts `strstr` reads nothing behind the NULs, and returns the first index of the haystack at
-- which the needle stands, or NULL if it stands nowhere.
pub strstr-first :
    (m h r r' : List ℕ)
    → IsText m
    → IsText h
    → strstr (holding h r) (holding m r') ≡ some (first_at m h 0)
unfolding strstr
strstr-first m h r r' p q =
    rw (strlen-holding m r' p, strlen-holding h r q)
      (elim (Bool-cases (ltb (length h) (length m))) [
        | inl short ↦ rw (short, first_at-short m h 0 (ground arith)) refl
        | inr long ↦ rw long (strstr_loop-first m h r r' 0 p q)
      ])
