-- ===== src/Paths/Clean.antt =====
-- `remove_multiple_slashes` writes a path name in its shortest form.
use xern.Base.{
  ℕ, suc, ◌-◌, ◌<◌, ◌≡◌, ◌≢◌, refl, ap, sym, ◌∙◌, true, false, List, [], ◌∷◌, ◌++◌, some, Option,
  arith, length, ◌==◌, ◌&&◌, if◌then◌else◌, Bool-cases, inl, inr, ltb, ==_iff,
}
use xern.Strings.{put}
use xern.Strings.Terminated.{IsText, holding, strlen-holding}
use xern.Paths.{slash, starts_slash, squeeze, write_at, cut, trim_slash, remove_multiple_slashes}
use xern.Paths.Parts.{keep, first_run, other_parts, parts, joined, join, render}

-- One slash for each run of them.
unfoldable pub collapse : List ℕ → List ℕ
collapse [] = []
collapse (c ∷ s) =
    let rest = collapse s in if (c == slash) && starts_slash s then rest else c ∷ rest

-- Without a slash at the end.
unfoldable pub trim_end : List ℕ → List ℕ
trim_end [] = []
trim_end (c ∷ []) = if c == slash then [] else c ∷ []
trim_end (c ∷ d ∷ s) = c ∷ trim_end (d ∷ s)

unfoldable pub chop : List ℕ → List ℕ
chop [] = []
chop (c ∷ s) = c ∷ trim_end s

trim_end-cons : (c : ℕ) (s : List ℕ) → (c == slash) ≡ false → trim_end (c ∷ s) ≡ c ∷ trim_end s
unfolding trim_end
trim_end-cons c [] n = rw n refl
trim_end-cons c (d ∷ s) n = refl

-- Behind another byte, the text is the first run and the parts.
abbrev Behind : List ℕ → Type 0
Behind s = trim_end (collapse s) ≡ first_run s ++ joined (other_parts s)

Behind-cons : (c : ℕ) (s : List ℕ) → Behind s → Behind (c ∷ s)
unfolding trim_end collapse
Behind-cons c [] h = ground arith
Behind-cons c (d ∷ s) h = elim (Bool-cases (c == slash)) [
  | inl y ↦ elim (Bool-cases (d == slash)) [
    | inl y' ↦ rw (y, y') (rw y' at h)
    | inr n' ↦
        let at = (==_iff c slash).0 y in rw (y, n') (rw at (ap (λ l. slash ∷ l) (rw n' at h)))
  ]
  | inr n ↦ rw n (trim_end-cons c (collapse (d ∷ s)) n ∙ ap (λ l. c ∷ l) h)
]

trim_end-collapse : (s : List ℕ) → Behind s
unfolding trim_end collapse
trim_end-collapse [] = refl
trim_end-collapse (c ∷ s) = Behind-cons c s (trim_end-collapse s)

-- A text that begins with a slash.
abbrev Rooted : List ℕ → Type 0
Rooted s = chop (collapse (slash ∷ s)) ≡ slash ∷ join (keep (first_run s) (other_parts s))

Rooted-cons : (c : ℕ) (s : List ℕ) → Rooted s → Rooted (c ∷ s)
unfolding chop collapse trim_end
Rooted-cons c s h = elim (Bool-cases (c == slash)) [
  | inl y ↦ let at = (==_iff c slash).0 y in rw y (rw at h)
  | inr n ↦
      let b : Behind (c ∷ s) = trim_end-collapse (c ∷ s) in rw n (ap (λ l. slash ∷ l) (rw n at b))
]

chop-collapse-Rooted : (s : List ℕ) → Rooted s
unfolding chop collapse trim_end
chop-collapse-Rooted [] = refl
chop-collapse-Rooted (c ∷ s) = Rooted-cons c s (chop-collapse-Rooted s)

-- The shortest form.
pub chop-collapse : (s : List ℕ) → chop (collapse s) ≡ render (starts_slash s) (parts s)
unfolding chop collapse
chop-collapse [] = refl
chop-collapse (c ∷ s) = elim (Bool-cases (c == slash)) [
  | inl y ↦ rw y (rw ((==_iff c slash).0 y) (chop-collapse-Rooted s))
  | inr n ↦ rw n (ap (λ l. c ∷ l) (trim_end-collapse s))
]

-- A buffer, or a fault, is a buffer that holds a text.
abbrev pub Holds : Option (List ℕ) → List ℕ → Type 0
Holds out s = (r : List ℕ) × (out ≡ some (holding s r))

Holds-put : (c : ℕ) (out : Option (List ℕ)) (s : List ℕ) → Holds out s → Holds (put c out) (c ∷ s)
Holds-put c out s (r, e) = (r, rw e refl)

starts_slash-holding : (s rest : List ℕ) → starts_slash (holding s rest) ≡ starts_slash s
starts_slash-holding [] rest = refl
starts_slash-holding (c ∷ s) rest = refl

collapse-IsText : (s : List ℕ) → IsText s → IsText (collapse s)
unfolding collapse
collapse-IsText [] t = t
collapse-IsText (c ∷ s) (ne, t) = elim (Bool-cases ((c == slash) && starts_slash s)) [
  | inl y ↦ rw y (collapse-IsText s t)
  | inr n ↦ rw n (ne, collapse-IsText s t)
]

squeeze-collapse :
    (s rest dest : List ℕ)
    → IsText s
    → length s < length dest
    → Holds (squeeze (holding s rest) dest) (collapse s)
unfolding squeeze collapse
squeeze-collapse [] rest [] t l = absurd (omega arith)
squeeze-collapse [] rest (d ∷ dest) t l = (dest, refl)
squeeze-collapse (c ∷ s) rest [] t l = absurd (omega arith)
squeeze-collapse (c ∷ s) rest (d ∷ dest) (ne, t) l =
    rw (ne_zero c ne, starts_slash-holding s rest)
      (elim (Bool-cases ((c == slash) && starts_slash s)) [
        | inl y ↦ rw y (squeeze-collapse s rest (c ∷ dest) t (omega (arith, l)))
        | inr n ↦ rw n (Holds-put c _ _ (squeeze-collapse s rest dest t (omega (arith, l))))
      ])
  where
    ne_zero : (a : ℕ) → a ≢ 0 → (a == 0) ≡ false
    ne_zero a h = ground arith

cut-cons : (d : ℕ) (buf : List ℕ) (i : ℕ) → cut (d ∷ buf) (suc i) ≡ put d (cut buf i)
unfolding cut write_at
cut-cons d buf i = ground arith

cut-trim_end :
    (d : ℕ) (s r : List ℕ) → Holds (cut (holding (d ∷ s) r) (length s)) (trim_end (d ∷ s))
unfolding trim_end cut write_at
cut-trim_end d [] r = elim (Bool-cases (d == slash)) [
  | inl y ↦ rw y (0 ∷ r, refl)
  | inr n ↦ rw n (r, refl)
]
cut-trim_end d (e ∷ s) r =
    rw (cut-cons d (holding (e ∷ s) r) (length s)) (Holds-put d _ _ (cut-trim_end e s r))

trim_slash-chop : (s r : List ℕ) → IsText s → Holds (trim_slash (holding s r)) (chop s)
unfolding trim_slash chop trim_end
trim_slash-chop [] r t = (r, rw (strlen-holding [] r t) refl)
trim_slash-chop (c ∷ []) r t = (r, rw (strlen-holding (c ∷ []) r t) refl)
trim_slash-chop (c ∷ d ∷ s) r t =
    let last : Holds (cut (holding (c ∷ d ∷ s) r) (suc (length s))) (c ∷ trim_end (d ∷ s)) =
      rw (cut-cons c (holding (d ∷ s) r) (length s)) (Holds-put c _ _ (cut-trim_end d s r)) in
    rw (strlen-holding (c ∷ d ∷ s) r t, long (length s), before (length s)) last
  where
    long : (n : ℕ) → ltb 1 (suc (suc n)) ≡ true
    long n = ground arith

    before : (n : ℕ) → suc (suc n) - 1 ≡ suc n
    before n = omega arith

-- On a text, with a destination that has room for the text and its NUL,
-- `remove_multiple_slashes` writes the name with the same parts, from the root or not as
-- before, that has one slash between two parts and none at the end except in "/".
pub remove_multiple_slashes-renders :
    (s rest dest : List ℕ)
    → IsText s
    → length s < length dest
    → Holds (remove_multiple_slashes (holding s rest) dest) (render (starts_slash s) (parts s))
unfolding remove_multiple_slashes
remove_multiple_slashes-renders s rest dest t l =
    let (r, e) = squeeze-collapse s rest dest t l in
    rw (e, sym (chop-collapse s)) (trim_slash-chop (collapse s) r (collapse-IsText s t))
