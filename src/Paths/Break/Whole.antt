-- ===== src/Paths/Break/Whole.antt =====
-- `brk_path` on a whole name.
use xern.Base.{
  ℕ, zero, suc, ◌+◌, ◌≤◌, ◌≡◌, ◌≢◌, refl, sym, ap, arith, Bool, true, false, Option, some, List, [],
  ◌∷◌, ◌++◌, ◌==◌, length, update, replicate, All, append-nil, Bool-cases, inl, inr,
}
use xern.Strings.Terminated.{IsText, holding, strlen-holding}
use xern.Paths.{slash, starts_slash, local_path}
use xern.Paths.Parts.{keep, first_run, other_parts, parts, joined, join, render}
use xern.Paths.Clean.{remove_multiple_slashes-renders}
use xern.Paths.Break.{text_of, brk_loop, brk_end, brk_start, brk_path}
use xern.Paths.Break.Names.{rows, named, rows_of, IsPart, IsRun, loop-Taken, Taken}

length-replicate : (n : ℕ) → length {A = ℕ} (replicate n 0) ≡ n
length-replicate zero = refl
length-replicate (suc n) = ap suc (length-replicate n)

pub text_of-holding : (s r : List ℕ) → IsText s → text_of (holding s r) ≡ s
text_of-holding [] r t = refl
text_of-holding (c ∷ s) r (ne, t) = rw (nonzero c ne) (ap (λ l. c ∷ l) (text_of-holding s r t))
  where
    nonzero : (c : ℕ) → c ≢ 0 → (c == 0) ≡ false
    nonzero c h = ground arith

append-IsText : (s t : List ℕ) → IsText s → IsText t → IsText (s ++ t)
append-IsText [] t a b = b
append-IsText (c ∷ s) t (ne, a) b = (ne, append-IsText s t a b)

-- A part that is also a text.
Part : List ℕ → Type 0
Part p = IsPart p × IsText p

keep_parts :
    (p : List ℕ) (ps : List (List ℕ)) → IsRun p → IsText p → All Part ps → All Part (keep p ps)
unfolding Part
keep_parts [] ps r t h = h
keep_parts (c ∷ p) ps r t h = (((omega arith, r), t), h)

first_run-IsRun : (s : List ℕ) → IsText s → IsRun (first_run s) × IsText (first_run s)
first_run-IsRun [] t = (t, t)
first_run-IsRun (c ∷ s) (ne, t) = elim (Bool-cases (c == slash)) [
  | inl e ↦ rw e (tt, tt)
  | inr e ↦
      let (r, x) = first_run-IsRun s t in
      rw e (((λ same. absurd (ground (arith, e, same))), r), (ne, x))
]

other_parts-Part : (s : List ℕ) → IsText s → All Part (other_parts s)
other_parts-Part [] t = tt
other_parts-Part (c ∷ s) (ne, t) = elim (Bool-cases (c == slash)) [
  | inl e ↦
      let (r, x) = first_run-IsRun s t in
      rw e (keep_parts (first_run s) (other_parts s) r x (other_parts-Part s t))
  | inr e ↦ rw e (other_parts-Part s t)
]

parts-Part : (s : List ℕ) → IsText s → All Part (parts s)
parts-Part s t =
    let (r, x) = first_run-IsRun s t in
    keep_parts (first_run s) (other_parts s) r x (other_parts-Part s t)

only_parts : (ps : List (List ℕ)) → All Part ps → All IsPart ps
unfolding Part
only_parts [] a = tt
only_parts (p ∷ ps) ((a, x), b) = (a, only_parts ps b)

joined-IsText : (ps : List (List ℕ)) → All Part ps → IsText (joined ps)
unfolding Part
joined-IsText [] a = tt
joined-IsText (p ∷ ps) ((a, x), b) =
    ((λ e. absurd (omega (arith, e))), append-IsText p (joined ps) x (joined-IsText ps b))

join-IsText : (ps : List (List ℕ)) → All Part ps → IsText (join ps)
unfolding Part
join-IsText [] a = tt
join-IsText (p ∷ ps) ((a, x), b) = append-IsText p (joined ps) x (joined-IsText ps b)

render-IsText : (b : Bool) (ps : List (List ℕ)) → All Part ps → IsText (render b ps)
render-IsText true ps a = ((λ e. absurd (omega (arith, e))), join-IsText ps a)
render-IsText false ps a = join-IsText ps a

-- The name behind its root.
name_rows :
    (ps : List (List ℕ)) (pos : ℕ) (dirs : ℕ → List ℕ)
    → All IsPart ps
    → pos + length ps ≤ 255
    → named (brk_end (brk_loop (length (join ps)) (join ps) 0 pos dirs))
      ≡ rows pos dirs ++ rows_of ps
unfolding Taken brk_loop
name_rows [] pos dirs a h = sym (append-nil (rows pos dirs))
name_rows (p ∷ ps) pos dirs (a, b) h =
    loop-Taken (length (p ++ joined ps)) p ps 0 pos dirs a b (omega arith) (omega arith)
      (omega arith)

-- The first row of a name from the root.
abbrev root_rows : Bool → List (List ℕ)
root_rows true = (slash ∷ []) ∷ []
root_rows false = []

not_rooted : (ps : List (List ℕ)) → All IsPart ps → starts_slash (join ps) ≡ false
not_rooted [] a = refl
not_rooted ([] ∷ ps) (a, b) = absurd (omega (arith, a.0))
not_rooted ((c ∷ p) ∷ ps) ((h, (ne, r)), b) = ground (arith, ne)

start_rows :
    (b : Bool) (ps : List (List ℕ)) (dirs : ℕ → List ℕ)
    → All IsPart ps
    → length (root_rows b) + length ps ≤ 255
    → let (path, pos, dirs') = brk_start (render b ps) dirs in
      named (brk_end (brk_loop (length path) path 0 pos dirs')) ≡ root_rows b ++ rows_of ps
unfolding rows
start_rows true ps dirs a h = name_rows ps 1 (update dirs 0 (slash ∷ [])) a h
start_rows false ps dirs a h = rw (not_rooted ps a) (name_rows ps 0 dirs a h)

-- The function does not fault, and fills these rows.
abbrev pub Fills : Option (ℕ × (ℕ → List ℕ)) → List (List ℕ) → Type 0
Fills out names = (r : ℕ × (ℕ → List ℕ)) × (out ≡ some r) × (named r ≡ names)

-- `brk_path` of a text takes it apart: when the rows suffice, up to 255 of them, it counts and fills one row "/" if the
-- name starts with a slash and then one row for each of its parts, with the first 255 bytes of the part.
pub brk_path-Fills :
    (s : List ℕ) (dirs : ℕ → List ℕ)
    → IsText s
    → length (root_rows (starts_slash s)) + length (parts s) ≤ 255
    → Fills (brk_path s dirs) (root_rows (starts_slash s) ++ rows_of (parts s))
unfolding brk_path local_path
brk_path-Fills s dirs t h =
    let a = parts-Part s t in
    let name = render (starts_slash s) (parts s) in
    let (r, e) =
      remove_multiple_slashes-renders s [] (replicate (suc (length s)) 0) t
        (omega (arith, length-replicate (suc (length s)))) in
    let (path, pos, dirs') = brk_start name dirs in
    (
      brk_end (brk_loop (length path) path 0 pos dirs'),
      rw
          (
            strlen-holding s [] t,
            e,
            text_of-holding name r (render-IsText (starts_slash s) (parts s) a),
            brk_path,
          )
          refl,
      start_rows (starts_slash s) (parts s) dirs (only_parts (parts s) a) h,
    )
