-- ===== src/Memory/Freed/Loop.antt =====
-- The outer loop of `freeuvm` of XERN/include/memory.h, over the user entries of a page directory.
use xern.Base.{
  ℕ, zero, suc, ◌+◌, ◌*◌, ◌≤◌, ◌<◌, ◌≡◌, ◌≢◌, refl, ap, sym, ◌∙◌, subst, false, ◌==◌, inl, inr,
  arith, Bool-cases, ==_iff,
}
use xern.Bits.Maps.{IsBytes}
use xern.Memory.{Ram, store, table_of, page_of, dalloc_page, clear_table, free_table, free_loop}
use xern.Memory.Freed.{
  Freed, Eased, Eased-trans, Freed-Eased, dalloc_page-word, dalloc_page-Eased, dalloc_page-Freed,
  store-Eased, clear_table-Eased, clear_table-other, clear_table-Done,
}

-- The table that entry `i` of a directory names, or 0.
abbrev pub table : Ram → (pgdir i : ℕ) → ℕ
table r pgdir i = table_of (r.word (pgdir + 4 * i))

-- The tables that the user entries of a directory name stand apart from these entries and from each other.
pub record TablesApart (r : Ram) (pgdir : ℕ) : Type 0 where
  pub directory :
      (i k j : ℕ)
      → 2048 ≤ i
      → i < 4096
      → 2048 ≤ k
      → k < 4096
      → j < 256
      → table r pgdir i ≢ 0
      → pgdir + 4 * k ≢ table r pgdir i + 4 * j
  pub tables :
      (i k j l : ℕ)
      → 2048 ≤ i
      → i < 4096
      → 2048 ≤ k
      → k < 4096
      → i ≢ k
      → j < 256
      → l < 256
      → table r pgdir i ≢ 0
      → table r pgdir k ≢ 0
      → table r pgdir k + 4 * l ≢ table r pgdir i + 4 * j

-- Of the table that entry `k` named nothing is left: the entry is 0, the page of the table is free, all entries of the table
-- are 0, and every page that one of them named is free.
pub record Vacated (r r' : Ram) (pgdir k : ℕ) : Type 0 where
  pub entry : r'.word (pgdir + 4 * k) ≡ 0
  pub page : Freed r' (table r pgdir k)
  pub cleared : (j : ℕ) → j < 256 → r'.word (table r pgdir k + 4 * j) ≡ 0
  pub pages : (j : ℕ) → j < 256 → Freed r' (page_of (r.word (table r pgdir k + 4 * j)))

nonzero : (b : ℕ) → b ≢ 0 → (b == 0) ≡ false
nonzero b h = ground (arith, h)

-- A round at an entry that names the table `t`.
abbrev struck : Ram → (pgdir i t : ℕ) → Ram
struck r pgdir i t = store (dalloc_page r t) (pgdir + 4 * i) 0

takes_table :
    (r : Ram) (pgdir i t : ℕ)
    → table r pgdir i ≡ t
    → t ≢ 0
    → free_table pgdir i r ≡ clear_table 256 t 0 (struck r pgdir i t)
unfolding free_table
takes_table r pgdir i t e ne = rw (e, nonzero t ne, free_table) refl

takes_none : (r : Ram) (pgdir i : ℕ) → table r pgdir i ≡ 0 → free_table pgdir i r ≡ r
unfolding free_table
takes_none r pgdir i e = rw (e, free_table) refl

struck-Eased : (r : Ram) (pgdir i t : ℕ) → IsBytes r.bitmap → Eased r (struck r pgdir i t)
struck-Eased r pgdir i t h =
    let e = dalloc_page-Eased r t h in Eased-trans e (store-Eased _ (pgdir + 4 * i) e.bytes)

struck-other :
    (r : Ram) (pgdir i t a : ℕ) → a ≢ pgdir + 4 * i → (struck r pgdir i t).word a ≡ r.word a
struck-other r pgdir i t a ne = ground (arith, ne, dalloc_page-word r t a)

free_table-Eased : (r : Ram) (pgdir i : ℕ) → IsBytes r.bitmap → Eased r (free_table pgdir i r)
unfolding free_table
free_table-Eased r pgdir i h = elim (Bool-cases (table r pgdir i == 0)) [
  | inl none_there ↦ rw none_there (record { free = λ q f. f; zeros = λ a z. z; bytes = h })
  | inr there ↦
      let e = struck-Eased r pgdir i (table r pgdir i) h in
      rw there (Eased-trans e (clear_table-Eased 256 _ (table r pgdir i) 0 e.bytes))
]

free_loop-Eased :
    (n : ℕ) (r : Ram) (pgdir i : ℕ) → IsBytes r.bitmap → Eased r (free_loop n pgdir i r)
unfolding free_loop
free_loop-Eased zero r pgdir i h = record { free = λ q f. f; zeros = λ a z. z; bytes = h }
free_loop-Eased (suc n) r pgdir i h =
    let e = free_table-Eased r pgdir i h in
    Eased-trans e (free_loop-Eased n (free_table pgdir i r) pgdir (suc i) e.bytes)

-- From entry `i` on, `r` has the entries and tables of `r0`.
record Stays (r0 r : Ram) (pgdir i : ℕ) : Type 0 where
  entries : (k : ℕ) → i ≤ k → k < 4096 → r.word (pgdir + 4 * k) ≡ r0.word (pgdir + 4 * k)
  words :
      (k j : ℕ)
      → i ≤ k
      → k < 4096
      → j < 256
      → table r0 pgdir k ≢ 0
      → r.word (table r0 pgdir k + 4 * j) ≡ r0.word (table r0 pgdir k + 4 * j)

module _ (r0 : Ram) (pgdir : ℕ) (apart : TablesApart r0 pgdir) where
  same_table :
      (r : Ram) (i k : ℕ)
      → Stays r0 r pgdir i
      → i ≤ k
      → k < 4096
      → table r pgdir k ≡ table r0 pgdir k
  same_table r i k s low high = ap table_of (s.entries k low high)

  -- What the round at entry `i` leaves at an address outside this entry and its table.
  round-other :
      (r : Ram) (i a : ℕ)
      → Stays r0 r pgdir i
      → i < 4096
      → a ≢ pgdir + 4 * i
      → (table r0 pgdir i ≢ 0 → (j : ℕ) → j < 256 → a ≢ table r0 pgdir i + 4 * j)
      → (free_table pgdir i r).word a ≡ r.word a
  round-other r i a s l ne out = elim (Bool-cases (table r0 pgdir i == 0)) [
    | inl empty ↦
        ap (λ q. q.word a)
          (takes_none r pgdir i
            (same_table r i i s (omega arith) l ∙ (==_iff (table r0 pgdir i) 0).0 empty))
    | inr there ↦
        let t = table r0 pgdir i in
        let present : t ≢ 0 = filled t there in
        ap (λ q. q.word a) (takes_table r pgdir i t (same_table r i i s (omega arith) l) present)
        ∙ (clear_table-other 256 (struck r pgdir i t) t 0 a
              (λ k low high. out present k (omega (arith, high)))
            ∙ struck-other r pgdir i t a ne)
  ]
    where
      filled : (t : ℕ) → (t == 0) ≡ false → t ≢ 0
      filled t e z = ground (arith, e, z)

  round-Stays :
      (r : Ram) (i : ℕ)
      → Stays r0 r pgdir i
      → 2048 ≤ i
      → i < 4096
      → Stays r0 (free_table pgdir i r) pgdir (suc i)
  round-Stays r i s from l = record {
    entries = λ k low high.
        round-other r i (pgdir + 4 * k) s l (λ e. omega (arith, e, low))
          (λ ne j b. apart.directory i k j from l (omega (arith, low, from)) high b ne)
        ∙ s.entries k (omega (arith, low)) high;
    words = λ k j low high b ne.
        round-other r i (table r0 pgdir k + 4 * j) s l
          (λ e. apart.directory k i j (omega (arith, low, from)) high from l b ne (sym e))
          (λ ne' j' b'.
            apart.tables i k j' j from l (omega (arith, low, from)) high
              (λ e. omega (arith, e, low)) b' b ne' ne)
        ∙ s.words k j (omega (arith, low)) high b ne;
  }

  round-Vacated :
      (r : Ram) (i : ℕ)
      → IsBytes r.bitmap
      → Stays r0 r pgdir i
      → 2048 ≤ i
      → i < 4096
      → table r0 pgdir i ≢ 0
      → Vacated r0 (free_table pgdir i r) pgdir i
  round-Vacated r i h s from l ne =
      let t = table r0 pgdir i in
      let e = struck-Eased r pgdir i t h in
      let rest = clear_table-Eased 256 (struck r pgdir i t) t 0 e.bytes in
      let same : (j : ℕ) → j < 256 → (struck r pgdir i t).word (t + 4 * j) ≡ r0.word (t + 4 * j) =
        λ j b.
          struck-other r pgdir i t (t + 4 * j)
            (λ q. apart.directory i i j from l from l b ne (sym q))
          ∙ s.words i j (omega arith) l b ne in
      subst (λ q. Vacated r0 q pgdir i)
        (sym (takes_table r pgdir i t (same_table r i i s (omega arith) l) ne))
        (record {
          entry = rest.zeros (pgdir + 4 * i) (at_entry r i t);
          page = Freed-Eased t rest (dalloc_page-Freed r t h);
          cleared = λ j b.
              (clear_table-Done 256 (struck r pgdir i t) t 0 j e.bytes (omega arith)
                (omega (arith, b))).0;
          pages = λ j b.
              subst (λ w. Freed (clear_table 256 t 0 (struck r pgdir i t)) (page_of w)) (same j b)
                (clear_table-Done 256 (struck r pgdir i t) t 0 j e.bytes (omega arith)
                  (omega (arith, b))).1;
        })
    where
      at_entry : (r : Ram) (i t : ℕ) → (struck r pgdir i t).word (pgdir + 4 * i) ≡ 0
      at_entry r i t = ground arith

  Vacated-Eased : (r r' : Ram) (k : ℕ) → Eased r r' → Vacated r0 r pgdir k → Vacated r0 r' pgdir k
  Vacated-Eased r r' k e v = record {
    entry = e.zeros _ v.entry;
    page = Freed-Eased _ e v.page;
    cleared = λ j b. e.zeros _ (v.cleared j b);
    pages = λ j b. Freed-Eased _ e (v.pages j b);
  }

  loop-Vacated :
      (n : ℕ) (r : Ram) (i k : ℕ)
      → IsBytes r.bitmap
      → Stays r0 r pgdir i
      → 2048 ≤ i
      → i + n ≡ 4096
      → i ≤ k
      → k < 4096
      → table r0 pgdir k ≢ 0
      → Vacated r0 (free_loop n pgdir i r) pgdir k
  unfolding free_loop
  loop-Vacated zero r i k h s from len low high ne = absurd (omega (arith, len, low, high))
  loop-Vacated (suc n) r i k h s from len low high ne =
      let e = free_table-Eased r pgdir i h in
      elim (Bool-cases (i == k)) [
        | inl now ↦
            let v =
              round-Vacated r i h s from (omega (arith, len))
                (subst (λ q. table r0 pgdir q ≢ 0) (sym ((==_iff i k).0 now)) ne) in
            subst (Vacated r0 (free_loop n pgdir (suc i) (free_table pgdir i r)) pgdir)
              ((==_iff i k).0 now)
              (Vacated-Eased (free_table pgdir i r)
                (free_loop n pgdir (suc i) (free_table pgdir i r)) i
                (free_loop-Eased n (free_table pgdir i r) pgdir (suc i) e.bytes) v)
        | inr later ↦
            loop-Vacated n (free_table pgdir i r) (suc i) k e.bytes
              (round-Stays r i s from (omega (arith, len))) (omega (arith, from))
              (omega (arith, len)) (further i k low later) high ne
      ]
    where
      further : (i k : ℕ) → i ≤ k → (i == k) ≡ false → suc i ≤ k
      further i k l e = ground (arith, l, e)

-- The loop of `freeuvm` vacates every table that a user entry named.
pub free_loop-Vacated :
    (r : Ram) (pgdir k : ℕ)
    → IsBytes r.bitmap
    → TablesApart r pgdir
    → 2048 ≤ k
    → k < 4096
    → table r pgdir k ≢ 0
    → Vacated r (free_loop 2048 pgdir 2048 r) pgdir k
free_loop-Vacated r pgdir k h apart low high ne =
    loop-Vacated r pgdir apart 2048 r 2048 k h
      (record { entries = λ k low high. refl; words = λ k j low high b ne. refl }) (omega arith)
      (omega arith) low high ne
