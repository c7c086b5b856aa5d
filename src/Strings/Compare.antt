-- ===== src/Strings/Compare.antt =====
-- `strcmp` and `memcmp` decide equality of texts and of prefixes.
use xern.Base.{
  ℕ, zero, suc, ◌≡◌, ◌≢◌, ◌↔◌, refl, ap, sym, ◌∙◌, List, [], ◌∷◌, none, some, Option, arith, length,
  Bool, true, false, ◌==◌, ◌&&◌, ℤ, pos, negsuc, is_zero, sub_ℕ, Bool-cases, inl, inr,
}
use xern.Strings.{strcmp, memcmp}
use xern.Strings.Terminated.{IsText, holding}

-- Two texts are the same, as a test.
unfoldable pub same_text : List ℕ → List ℕ → Bool
same_text [] [] = true
same_text [] (b ∷ t) = false
same_text (a ∷ s) [] = false
same_text (a ∷ s) (b ∷ t) = (a == b) && same_text s t

tails : (a b : ℕ) (s t : List ℕ) → a ∷ s ≡ b ∷ t → s ≡ t
tails a b s t e = cc

pub same_text_iff : (s t : List ℕ) → (same_text s t ≡ true) ↔ (s ≡ t)
unfolding same_text
same_text_iff [] [] = (λ e. refl, λ e. refl)
same_text_iff [] (b ∷ t) = (λ e. cc, λ e. cc)
same_text_iff (a ∷ s) [] = (λ e. cc, λ e. cc)
same_text_iff (a ∷ s) (b ∷ t) = (
  λ e. ground (arith, (same_text_iff s t).0),
  λ e. ground (arith, (same_text_iff s t).1 (tails a b s t e)),
)

-- Whether a result of `strcmp` is 0.
abbrev pub is_same : Option ℤ → Bool
is_same none = false
is_same (some (pos zero)) = true
is_same (some (pos (suc n))) = false
is_same (some (negsuc n)) = false

strcmp_same :
    (s t r r' : List ℕ)
    → IsText s
    → IsText t
    → is_same (strcmp (holding s r) (holding t r')) ≡ same_text s t
unfolding strcmp same_text
strcmp_same [] [] r r' p q = refl
strcmp_same [] (b ∷ t) r r' p (ne, q) = ground arith
strcmp_same (a ∷ s) [] r r' (ne, p) q = ground arith
strcmp_same (a ∷ s) (b ∷ t) r r' (ne, p) (ne', q) = ground (arith, strcmp_same s t r r' p q)

is_same-eq : (o : Option ℤ) → is_same o ≡ true → o ≡ some (pos 0)
is_same-eq none h = cc
is_same-eq (some (pos zero)) h = refl
is_same-eq (some (pos (suc n))) h = cc
is_same-eq (some (negsuc n)) h = cc

-- On two texts, whatever lies behind their NULs, `strcmp` returns 0 exactly if they are the same.
pub strcmp_iff :
    (s t r r' : List ℕ)
    → IsText s
    → IsText t
    → (strcmp (holding s r) (holding t r') ≡ some (pos 0)) ↔ (s ≡ t)
strcmp_iff s t r r' p q =
    let same = strcmp_same s t r r' p q in
    (
      λ e. (same_text_iff s t).0 (sym same ∙ ap is_same e),
      λ e. is_same-eq _ (same ∙ (same_text_iff s t).1 e),
    )

-- Whether a text begins with another one.
unfoldable pub starts : (needle hay : List ℕ) → Bool
starts [] h = true
starts (a ∷ m) [] = false
starts (a ∷ m) (b ∷ h) = (a == b) && starts m h

sub_ℕ-ne : (a b : ℕ) → (a == b) ≡ false → is_zero (sub_ℕ a b) ≡ false
sub_ℕ-ne a b h = ground arith

ne_zero : (a : ℕ) → a ≢ 0 → (0 == a) ≡ false
ne_zero a h = ground arith

==-symm : (a b : ℕ) → (a == b) ≡ (b == a)
==-symm a b = ground arith

-- `memcmp` of the bytes of a needle with a text never reads behind the text's NUL, and finds them
-- equal exactly if the text begins with the needle.
pub memcmp-starts :
    (m h r r' : List ℕ)
    → IsText m
    → IsText h
    → (v : ℤ) × (memcmp (holding h r) (holding m r') (length m) ≡ some v) × (is_zero v ≡ starts m h)
unfolding memcmp starts
memcmp-starts [] h r r' p q = (pos 0, refl, refl)
memcmp-starts (a ∷ m) [] r r' (ne, p) q =
    rw (ne_zero a ne) (sub_ℕ 0 a, refl, sub_ℕ-ne 0 a (ne_zero a ne))
memcmp-starts (a ∷ m) (b ∷ h) r r' (ne, p) (ne', q) = elim (Bool-cases (b == a)) [
  | inl same ↦ let (v, e, z) = memcmp-starts m h r r' p q in rw (==-symm a b, same) (v, e, z)
  | inr other ↦ rw (==-symm a b, other) (sub_ℕ b a, refl, sub_ℕ-ne b a other)
]
