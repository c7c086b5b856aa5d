-- ===== src/Paths/Break/Names.antt =====
-- The rows that `brk_path` fills are the parts of the name.
use xern.Base.{
  ℕ, zero, suc, ◌+◌, ◌<◌, ◌≤◌, ◌≡◌, ◌≢◌, refl, ap, ◌∙◌, arith, true, false, List, [], ◌∷◌, ◌++◌,
  ◌==◌, leb, ltb, length, drop, take, update, map, All, append_assoc, append-nil, length-append,
  Bool-cases, inl, inr,
}
use xern.Paths.{slash}
use xern.Paths.Parts.{joined}
use xern.Paths.Break.{slash_at, brk_loop, brk_end}

-- The first `n` rows.
unfoldable pub rows : ℕ → (ℕ → List ℕ) → List (List ℕ)
rows zero dirs = []
rows (suc n) dirs = rows n dirs ++ (dirs n ∷ [])

rows-update :
    (n m : ℕ) (dirs : ℕ → List ℕ) (r : List ℕ) → n ≤ m → rows n (update dirs m r) ≡ rows n dirs
unfolding rows
rows-update zero m dirs r h = refl
rows-update (suc n) m dirs r h = cc (rows-update n m dirs r (omega arith), other)
  where
    other : update dirs m r n ≡ dirs n
    other = ground arith

rows-next :
    (n : ℕ) (dirs : ℕ → List ℕ) (r : List ℕ)
    → rows (n + 1) (update dirs n r) ≡ rows n dirs ++ (r ∷ [])
unfolding rows
rows-next n dirs r =
    ap (λ k. rows k (update dirs n r)) {x = n + 1} {y = suc n} (omega arith)
    ∙ cc (rows-update n n dirs r (omega arith), here)
  where
    here : update dirs n r n ≡ r
    here = ground arith

-- A run without a slash in it.
abbrev pub IsRun : List ℕ → Type 0
IsRun = All (λ c. c ≢ slash)

run_slash : (p t : List ℕ) (i : ℕ) → IsRun p → i < length p → slash_at (p ++ t) i ≡ false
run_slash [] t i r h = absurd (omega arith)
run_slash (c ∷ p) t zero (ne, r) h = ground (arith, ne)
run_slash (c ∷ p) t (suc i) (ne, r) h = run_slash p t i r (omega arith)

run_end : (p t : List ℕ) → slash_at (p ++ (slash ∷ t)) (length p) ≡ true
run_end [] t = refl
run_end (c ∷ p) t = run_end p t

take_run : (p t : List ℕ) → take (length p) (p ++ t) ≡ p
take_run [] t = refl
take_run (c ∷ p) t = ap (λ l. c ∷ l) (take_run p t)

drop_run : (p t : List ℕ) (n : ℕ) → n ≡ length p → drop (n + 1) (p ++ (slash ∷ t)) ≡ t
drop_run p t n e =
    ap (λ k. drop k (p ++ (slash ∷ t))) {x = n + 1} {y = suc (length p)} (omega arith) ∙ behind p
  where
    behind : (p : List ℕ) → drop (suc (length p)) (p ++ (slash ∷ t)) ≡ t
    behind [] = refl
    behind (c ∷ p) = behind p

-- The rows that a result names.
abbrev pub named : ℕ × (ℕ → List ℕ) → List (List ℕ)
named (n, dirs) = rows n dirs

-- The parts of a name, each with a byte and none with a slash.
abbrev pub IsPart : List ℕ → Type 0
IsPart p = (1 ≤ length p) × IsRun p

abbrev pub rows_of : List (List ℕ) → List (List ℕ)
rows_of = map (take 255)

last_row :
    (p : List ℕ) (pos : ℕ) (dirs : ℕ → List ℕ)
    → 1 ≤ length p
    → named (brk_end (p, pos, dirs)) ≡ rows pos dirs ++ (take 255 p ∷ [])
last_row [] pos dirs h = absurd (omega arith)
last_row (c ∷ p) pos dirs h = rows-next pos dirs (take 255 (c ∷ p))

-- The loop with `p` in front, from a place in `p` or at its end on.
unfoldable pub Taken :
    (m : ℕ) (p : List ℕ) (qs : List (List ℕ)) (i pos : ℕ) (dirs : ℕ → List ℕ) → Type 0
Taken m p qs i pos dirs =
    IsPart p
    → All IsPart qs
    → i ≤ length p
    → pos + length qs < 255
    → length (p ++ joined qs) ≤ m + i
    → named (brk_end (brk_loop m (p ++ joined qs) i pos dirs)) ≡ rows pos dirs ++ rows_of (p ∷ qs)

-- The tests of a round.
inside_round : (p t : List ℕ) (i : ℕ) → i < length p → leb (length (p ++ t)) i ≡ false
inside_round p t i h = ground (arith, length-append p t)

end_round : (p t : List ℕ) (i : ℕ) → i ≡ length p → leb (length (p ++ (slash ∷ t))) i ≡ false
end_round p t i e = ground (arith, length-append p (slash ∷ t))

done_round : (p : List ℕ) (i : ℕ) → i ≡ length p → leb (length p) i ≡ true
done_round p i e = ground arith

slash_round : (p t : List ℕ) (i : ℕ) → i ≡ length p → slash_at (p ++ (slash ∷ t)) i ≡ true
slash_round p t i e = rw e (run_end p t)

take_round : (p t : List ℕ) (i : ℕ) → i ≡ length p → take i (p ++ t) ≡ p
take_round p t i e = rw e (take_run p t)

room_round : (pos n : ℕ) → pos + n < 255 → (pos == 255) ≡ false
room_round pos n h = ground arith

next_row :
    (p : List ℕ) (qs : List (List ℕ)) (pos : ℕ) (dirs : ℕ → List ℕ)
    → rows (pos + 1) (update dirs pos (take 255 p)) ++ rows_of qs
      ≡ rows pos dirs ++ rows_of (p ∷ qs)
next_row p qs pos dirs =
    ap (λ r. r ++ rows_of qs) (rows-next pos dirs (take 255 p))
    ∙ append_assoc (rows pos dirs) (take 255 p ∷ []) (rows_of qs)

pub loop-Taken :
    (m : ℕ) (p : List ℕ) (qs : List (List ℕ)) (i pos : ℕ) (dirs : ℕ → List ℕ)
    → Taken m p qs i pos dirs
unfolding Taken brk_loop
loop-Taken zero p [] i pos dirs a b c d e = rw (append-nil p) (last_row p pos dirs a.0)
loop-Taken zero p (q ∷ qs) i pos dirs a b c d e =
    absurd (omega (arith, length-append p (joined (q ∷ qs))))
loop-Taken (suc m) p [] i pos dirs a b c d e = elim (Bool-cases (ltb i (length p))) [
  | inl inside ↦
      let l : i < length p = ground (arith, inside) in
      rw (inside_round p [] i l, run_slash p [] i a.1 l, room_round pos 0 d, brk_loop)
        (loop-Taken m p [] (i + 1) pos dirs a b (omega arith) d (omega arith))
  | inr at ↦
      rw (append-nil p, done_round p i (ground (arith, at)), brk_loop) (last_row p pos dirs a.0)
]
loop-Taken (suc m) p (q ∷ qs) i pos dirs a b c d e = elim (Bool-cases (ltb i (length p))) [
  | inl inside ↦
      let l : i < length p = ground (arith, inside) in
      rw
        (
          inside_round p (joined (q ∷ qs)) i l,
          run_slash p (joined (q ∷ qs)) i a.1 l,
          room_round pos (length (q ∷ qs)) d,
          brk_loop,
        )
        (loop-Taken m p (q ∷ qs) (i + 1) pos dirs a b (omega arith) d (omega arith))
  | inr at ↦
      let l : i ≡ length p = ground (arith, at) in
      let t = q ++ joined qs in
      rw
        (
          end_round p t i l,
          slash_round p t i l,
          room_round (pos + 1) (length qs) (omega arith),
          drop_run p t i l,
          take_round p (slash ∷ t) i l,
          brk_loop,
        )
        (loop-Taken m q qs 1 (pos + 1) (update dirs pos (take 255 p)) b.0 b.1 (omega (arith, b.0))
            (omega arith) (omega (arith, length-append p (slash ∷ t)))
          ∙ next_row p (q ∷ qs) pos dirs)
]
