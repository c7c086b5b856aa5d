-- ===== src/Shell/Words.antt =====
-- `get_cmd_args` takes the arguments of a command apart: XERN/UPROGS/src/sh.h.
use xern.Base.{
  ℕ, suc, ◌+◌, ◌≤◌, ◌<◌, ◌≡◌, ◌≢◌, refl, sym, ap, subst, ◌∙◌, Bool, true, false, Option, none, some,
  List, [], ◌∷◌, ◌++◌, ◌==◌, length, arith, All, append-nil, append_assoc, length-append, update,
  ltb,
}
use xern.Shell.{
  Rows, space, quote, backslash, rmldspaces, put_row, last_row, args_loop, get_cmd_args,
}
use xern.Shell.Pipes.{row_same, row_other, row_next}

-- A byte that no rule of the shell is about.
abbrev pub Plain : ℕ → Type 0
Plain c = (c ≢ space) × (c ≢ quote) × (c ≢ backslash)

pub record IsWord (w : List ℕ) : Type 0 where
  pub plain : All Plain w
  pub filled : length w ≢ 0
  pub fits : length w ≤ 255

-- The words with a space in front of each.
unfoldable pub spaced : List (List ℕ) → List ℕ
spaced [] = []
spaced (w ∷ ws) = space ∷ (w ++ spaced ws)

-- A byte that is gathered.
Plain-step :
    (c : ℕ) (s seg : List ℕ) (quotes pos : ℕ) (rows : Rows)
    → Plain c
    → args_loop (c ∷ s) none seg quotes pos rows
      ≡ args_loop s none (seg ++ (c ∷ [])) quotes pos rows
unfolding args_loop
Plain-step c s seg quotes pos rows (n, q, b) =
    rw (no_backslash c b, no_quote c q, no_space c n, args_loop) (rw (no_quote c q) refl)
  where
    no_space : (c : ℕ) → c ≢ space → (c == space) ≡ false
    no_space c n = ground (arith, n)

    no_quote : (c : ℕ) → c ≢ quote → (c == quote) ≡ false
    no_quote c n = ground (arith, n)

    no_backslash : (c : ℕ) → c ≢ backslash → (c == backslash) ≡ false
    no_backslash c n = ground (arith, n)

-- Reading plain bytes only gathers them, inside of quotes or not.
pub gathers-Plain :
    (w rest seg : List ℕ) (quotes pos : ℕ) (rows : Rows)
    → All Plain w
    → args_loop (w ++ rest) none seg quotes pos rows
      ≡ args_loop rest none (seg ++ w) quotes pos rows
gathers-Plain [] rest seg quotes pos rows a =
    ap (λ x. args_loop rest none x quotes pos rows) (sym (append-nil seg))
gathers-Plain (c ∷ w) rest seg quotes pos rows (p, a) =
    Plain-step c (w ++ rest) seg quotes pos rows p
    ∙ gathers-Plain w rest (seg ++ (c ∷ [])) quotes pos rows a
    ∙ ap (λ x. args_loop rest none x quotes pos rows) (append_assoc seg (c ∷ []) w)

-- No spaces stand in front of a plain text.
pub rmldspaces-Plain : (w : List ℕ) → All Plain w → rmldspaces w ≡ w
unfolding rmldspaces
rmldspaces-Plain [] a = refl
rmldspaces-Plain (c ∷ w) ((n, q, b), a) = ground (arith, n)

put_word :
    (w : List ℕ) (pos : ℕ) (rows : Rows) → IsWord w → put_row rows pos w ≡ some (update rows pos w)
put_word w pos rows h = rw (rmldspaces-Plain w h.plain, short h.fits) refl
  where
    short : length w ≤ 255 → ltb 255 (length w) ≡ false
    short l = ground (arith, l)

-- The space behind a word.
ends_word :
    (w s : List ℕ) (pos : ℕ) (rows : Rows)
    → IsWord w
    → pos + 1 < 14
    → args_loop (space ∷ s) none w 0 pos rows ≡ args_loop s none [] 0 (pos + 1) (update rows pos w)
unfolding args_loop
ends_word w s pos rows h l =
    rw (rmldspaces-Plain w h.plain, short h.fits, some_byte h.filled, below l, args_loop) refl
  where
    short : length w ≤ 255 → ltb 255 (length w) ≡ false
    short l = ground (arith, l)

    some_byte : length w ≢ 0 → (length w == 0) ≡ false
    some_byte ne = ground (arith, ne)

    below : pos + 1 < 14 → (pos + 1 == 14) ≡ false
    below l = ground (arith, l)

pub last_word :
    (w : List ℕ) (pos : ℕ) (rows : Rows)
    → IsWord w
    → args_loop [] none w 0 pos rows ≡ some (true, update (update rows pos w) (pos + 1) [])
unfolding args_loop last_row
last_word [] pos rows h = absurd (h.filled refl)
last_word (c ∷ w) pos rows h = rw (put_word (c ∷ w) pos rows h) refl

-- The rows from `pos` on hold the words, and an empty one behind.
unfoldable pub Holds : Rows → ℕ → List (List ℕ) → Type 0
Holds rows pos [] = rows pos ≡ []
Holds rows pos (w ∷ ws) = (rows pos ≡ w) × Holds rows (suc pos) ws

abbrev Parted : (pos : ℕ) → Rows → List (List ℕ) → Option (Bool × Rows) → Type 0
Parted pos rows ws r =
    (rows' : Rows) × (r ≡ some (true, rows'))
    × Holds rows' pos ws
    × ((j : ℕ) → j < pos → rows' j ≡ rows j)

-- Behind a word `w` that is read, the others.
parts :
    (w : List ℕ) (ws : List (List ℕ)) (pos : ℕ) (rows : Rows)
    → IsWord w
    → All IsWord ws
    → pos + suc (length ws) ≤ 14
    → Parted pos rows (w ∷ ws) (args_loop (spaced ws) none w 0 pos rows)
unfolding spaced Holds
parts w [] pos rows h a l = (
  update (update rows pos w) (pos + 1) [],
  last_word w pos rows h,
  (
    row_other (update rows pos w) (pos + 1) [] pos (omega arith) ∙ row_same rows pos w,
    row_next (update rows pos w) pos,
  ),
  λ j i. row_other (update rows pos w) (pos + 1) [] j (omega (arith, i)) ∙ row_other rows pos w j i,
)
parts w (v ∷ ws) pos rows h (g, a) l =
    let rows' = update rows pos w in
    let (r, done, holds, kept) = parts v ws (pos + 1) rows' g a (omega (arith, l)) in
    (
      r,
      ends_word w (v ++ spaced ws) pos rows h (omega (arith, l))
          ∙ gathers-Plain v (spaced ws) [] 0 (pos + 1) rows' g.plain
          ∙ done,
      (
        kept pos (omega arith) ∙ row_same rows pos w,
        subst (λ n. Holds r n (v ∷ ws)) (omega arith) holds,
      ),
      λ j i. kept j (omega (arith, i)) ∙ row_other rows pos w j i,
    )

-- When at most 14 words of 1 to 255 bytes, without spaces, quotes and backslashes, stand behind a space each,
-- `get_cmd_args` succeeds, and the rows hold these words in order and an empty row behind.
pub get_cmd_args-spaced :
    (ws : List (List ℕ)) (rows : Rows)
    → All IsWord ws
    → length ws ≤ 14
    → (rows' : Rows) × (get_cmd_args (spaced ws) rows ≡ some (true, rows')) × Holds rows' 0 ws
unfolding get_cmd_args spaced args_loop last_row Holds rmldspaces
get_cmd_args-spaced [] rows a l = (update rows 0 [], refl, refl)
get_cmd_args-spaced (w ∷ ws) rows (h, a) l =
    let (r, done, holds, kept) = parts w ws 0 (update rows 0 []) h a (omega (arith, l)) in
    (r, gathers-Plain w (spaced ws) [] 0 0 (update rows 0 []) h.plain ∙ done, holds)

-- No spaces stand in front of what begins with a plain byte.
pub rmldspaces-append : (a s : List ℕ) → All Plain a → length a ≢ 0 → rmldspaces (a ++ s) ≡ a ++ s
unfolding rmldspaces
rmldspaces-append [] s p ne = absurd (ne refl)
rmldspaces-append (c ∷ a) s ((n, q, b), p) ne = ground (arith, n)

-- The quote that closes, where it ends a word.
closes :
    (seg : List ℕ) (rows : Rows)
    → rmldspaces seg ≡ seg
    → length seg ≢ 0
    → length seg ≤ 255
    → args_loop (quote ∷ []) none seg 1 0 rows ≡ some (true, update (update rows 0 seg) 1 [])
unfolding args_loop last_row
closes seg rows e ne l = rw (e, short l, some_byte ne, args_loop) refl
  where
    short : length seg ≤ 255 → ltb 255 (length seg) ≡ false
    short l = ground (arith, l)

    some_byte : length seg ≢ 0 → (length seg == 0) ≡ false
    some_byte ne = ground (arith, ne)

opens :
    (s seg : List ℕ) (rows : Rows)
    → args_loop (quote ∷ s) none seg 0 0 rows ≡ args_loop s none (seg ++ (space ∷ [])) 1 0 rows
unfolding args_loop
opens s seg rows = refl

-- A quote within a word: for plain texts `a` and `b` of together at most 254 bytes, `a` not empty, the argument that is
-- written a"b" becomes the single word of `a`, a space and `b`.
pub get_cmd_args-splits :
    (a b : List ℕ) (rows : Rows)
    → All Plain a
    → All Plain b
    → length a ≢ 0
    → length a + length b ≤ 254
    → (rows' : Rows) × (get_cmd_args (a ++ (quote ∷ (b ++ (quote ∷ [])))) rows ≡ some (true, rows'))
      × Holds rows' 0 ((a ++ (space ∷ b)) ∷ [])
unfolding get_cmd_args Holds
get_cmd_args-splits a b rows p q ne l =
    let seg = (a ++ (space ∷ [])) ++ b in
    let whole : seg ≡ a ++ (space ∷ b) = append_assoc a (space ∷ []) b in
    let size : length (a ++ (space ∷ b)) ≡ length a + (length b + 1) =
      length-append a (space ∷ b) ∙ omega arith in
    (
      update (update rows 0 (a ++ (space ∷ b))) 1 [],
      gathers-Plain a (quote ∷ (b ++ (quote ∷ []))) [] 0 0 rows p
          ∙ opens (b ++ (quote ∷ [])) a rows
          ∙ gathers-Plain b (quote ∷ []) (a ++ (space ∷ [])) 1 0 rows q
          ∙ ap (λ x. args_loop (quote ∷ []) none x 1 0 rows) whole
          ∙ closes (a ++ (space ∷ b)) rows (rmldspaces-append a (space ∷ b) p ne)
              (omega (arith, size)) (omega (arith, size, l)),
      (refl, refl),
    )
