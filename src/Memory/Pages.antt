-- ===== src/Memory/Pages.antt =====
-- `alloc_page` and `dalloc_page` as operations on the set of pages that are taken.
use xern.Base.{
  subst, ℕ, zero, suc, ◌+◌, ◌-◌, ◌*◌, ◌/◌, ◌%◌, ◌≤◌, ◌<◌, ◌≡◌, ◌≢◌, refl, ap, sym, ◌∙◌, Bool, true,
  false, not, ◌&&◌, ◌==◌, ltb, inl, inr, arith, Bool-cases, Option-cases, ==_iff, update,
  scan-First, scan-none, NoneBefore,
}
use xern.Bits.{test_bit, with_bit, tstbit, setbit}
use xern.Bits.Maps.{IsBytes, tstbit-setbit, tstbit-clrbit, setbit-IsBytes}
use xern.Memory.{Ram, page_size, page_loop, free_in, alloc_page, dalloc_page}

-- Page `p` of the memory is taken.
abbrev pub taken : Ram → ℕ → Bool
taken r p = tstbit r.bitmap p

-- All pages from `p` on and below `q` are taken.
abbrev pub Full : Ram → (p q : ℕ) → Type 0
Full r p q = (s : ℕ) → p ≤ s → s < q → taken r s ≡ true

-- What allocation among the pages from `p` on and below `q` does: the first page that is free, or none.
pub data Allocated (r : Ram) (p q : ℕ) (out : ℕ × Ram) : Type 0 where
  got :
      (s : ℕ)
      → p ≤ s
      → s < q
      → Full r p s
      → taken r s ≡ false
      → out ≡ (s * page_size, record r { bitmap = setbit r.bitmap s })
      → Allocated r p q out
  exhausted : Full r p q → out ≡ (0, r) → Allocated r p q out

bit_of : (buf : ℕ → ℕ) (i j : ℕ) → j < 8 → tstbit buf (i * 8 + j) ≡ test_bit (buf i) j
unfolding tstbit
bit_of buf i j h = rw (quotient, remainder) refl
  where
    quotient : (i * 8 + j) / 8 ≡ i
    quotient = omega (arith, h)

    remainder : (i * 8 + j) % 8 ≡ j
    remainder = omega (arith, h)

set_of :
    (buf : ℕ → ℕ) (i j : ℕ) → j < 8 → update buf i (with_bit (buf i) j) ≡ setbit buf (i * 8 + j)
unfolding setbit
set_of buf i j h = rw (quotient, remainder) refl
  where
    quotient : (i * 8 + j) / 8 ≡ i
    quotient = omega (arith, h)

    remainder : (i * 8 + j) % 8 ≡ j
    remainder = omega (arith, h)

-- The bits of byte `i` below bit `j` are taken.
row_Full :
    (r : Ram) (i j : ℕ)
    → j ≤ 8
    → NoneBefore (λ j. not (test_bit (r.bitmap i) j)) 0 j
    → Full r (i * 8) (i * 8 + j)
row_Full r i j h nothing s low high =
    subst (λ a. taken r a ≡ true) (sym (split s low))
      (bit_of r.bitmap i (s - i * 8) (omega (arith, low, high, h))
        ∙ ground (arith, nothing (s - i * 8) (omega arith) (omega (arith, low, high))))
  where
    split : (a : ℕ) → i * 8 ≤ a → a ≡ i * 8 + (a - i * 8)
    split a l = omega (arith, l)

Full-append : (r : Ram) (p q s : ℕ) → Full r p q → Full r q s → Full r p s
Full-append r p q s f g a low high = elim (Bool-cases (ltb a q)) [
  | inl left ↦ f a low (ground (arith, left))
  | inr right ↦ g a (ground (arith, right)) high
]

-- A byte with no free bit before the rest.
next_byte :
    (r : Ram) (i n : ℕ) (out : ℕ × Ram)
    → Full r (i * 8) (i * 8 + 8)
    → Allocated r (suc i * 8) (suc i * 8 + n * 8) out
    → Allocated r (i * 8) (i * 8 + suc n * 8) out
next_byte r i n out f (got s low high full free e) =
    got s (omega (arith, low)) (omega (arith, high))
      (Full-append r (i * 8) (i * 8 + 8) s f (λ a l h. full a (omega (arith, l)) h)) free e
next_byte r i n out f (exhausted full e) =
    exhausted
      (Full-append r (i * 8) (i * 8 + 8) (i * 8 + suc n * 8) f
        (λ a l h. full a (omega (arith, l)) (omega (arith, h))))
      e

page_loop-Allocated : (n i : ℕ) (r : Ram) → Allocated r (i * 8) (i * 8 + n * 8) (page_loop n i r)
unfolding page_loop
page_loop-Allocated zero i r = exhausted (λ s low high. absurd (omega arith)) refl
page_loop-Allocated (suc n) i r = elim (Option-cases (free_in (r.bitmap i))) [
  | inl nothing ↦
      rw (nothing, page_loop)
        (next_byte r i n _
          (row_Full r i 8 (omega arith)
            (scan-none 8 0 (λ j. not (test_bit (r.bitmap i) j)) nothing))
          (page_loop-Allocated n (suc i) r))
  | inr (j, e) ↦
      let f = scan-First 8 0 (λ j. not (test_bit (r.bitmap i) j)) e in
      let low : j < 8 = omega (arith, f.within) in
      rw (e, page_loop)
        (got (i * 8 + j) (omega arith) (omega (arith, low))
          (row_Full r i j (omega (arith, low)) f.before)
          (bit_of r.bitmap i j low ∙ ground (arith, f.passes))
          (λ k. (address i j k, record r { bitmap = set_of r.bitmap i j low k })))
]
  where
    address : (i j : ℕ) → i * page_size * 8 + j * page_size ≡ (i * 8 + j) * page_size
    address i j = omega arith

-- `alloc_page` on the bits of the map.
pub alloc_page-Allocated : (r : Ram) → Allocated r 2048 66048 (alloc_page r)
unfolding alloc_page
alloc_page-Allocated r = page_loop-Allocated 8000 256 r

-- What `alloc_page` leaves: the first page from 8 MiB on that was free is taken now and every other page is as it was, or
-- all were taken and nothing changed.
pub data TookPage (r : Ram) (out : ℕ × Ram) : Type 0 where
  took :
      (s : ℕ)
      → 2048 ≤ s
      → s < 66048
      → Full r 2048 s
      → taken r s ≡ false
      → out.0 ≡ s * page_size
      → taken out.1 s ≡ true
      → ((q : ℕ) → q ≢ s → taken out.1 q ≡ taken r q)
      → out.1.word ≡ r.word
      → TookPage r out
  full_up : Full r 2048 66048 → out ≡ (0, r) → TookPage r out

-- In a map of bytes, `alloc_page` takes the first page from 8 MiB on that is free and returns its address; every other
-- page stays as it is, and so does what stands in the memory. It returns 0, and changes nothing, only when all pages up to
-- 258 MiB are taken.
pub alloc_page-TookPage : (r : Ram) → IsBytes r.bitmap → TookPage r (alloc_page r)
alloc_page-TookPage r h = by_bits (alloc_page r) (alloc_page-Allocated r)
  where
    other : (s q : ℕ) → q ≢ s → (q == s) ≡ false
    other s q ne = ground (arith, ne)

    itself : (s : ℕ) → (s == s) ≡ true
    itself s = ground arith

    by_bits : (out : ℕ × Ram) → Allocated r 2048 66048 out → TookPage r out
    by_bits out (got s from to full free e) = rw e (
        took s from to full free refl (tstbit-setbit r.bitmap s s h ∙ rw (itself s) refl)
          (λ q ne. tstbit-setbit r.bitmap s q h ∙ rw (other s q ne) refl) refl)
    by_bits out (exhausted full e) = full_up full e

-- The pages that `dalloc_page` accepts.
abbrev pub may_free : ℕ → Bool
may_free addr = (not (ltb addr 0x800000) && not (ltb 0x10000000 addr)) && (addr % page_size == 0)

-- `dalloc_page` frees exactly the page at the given address if that is the address of a page from 8 MiB
-- to 256 MiB, and no page otherwise.
pub dalloc_page-taken :
    (r : Ram) (addr q : ℕ)
    → IsBytes r.bitmap
    → taken (dalloc_page r addr) q ≡ (not (may_free addr && (q == addr / page_size)) && taken r q)
unfolding dalloc_page
dalloc_page-taken r addr q h = ground (arith, tstbit-clrbit r.bitmap (addr / page_size) q h)

-- A page below 256 MiB that `alloc_page` returned and `dalloc_page` gets back: all pages are
-- taken or free as before.
pub dalloc_page-alloc_page :
    (r : Ram) (q : ℕ)
    → IsBytes r.bitmap
    → (alloc_page r).0 ≤ 0x10000000
    → taken (dalloc_page (alloc_page r).1 (alloc_page r).0) q ≡ taken r q
dalloc_page-alloc_page r q h low = back (alloc_page r) (alloc_page-Allocated r) low
  where
    freed_again :
        (s : ℕ)
        → 2048 ≤ s
        → s * page_size ≤ 0x10000000
        → taken r s ≡ false
        → taken (dalloc_page (record r { bitmap = setbit r.bitmap s }) (s * page_size)) q
          ≡ taken r q
    freed_again s from l free =
        dalloc_page-taken (record r { bitmap = setbit r.bitmap s }) (s * page_size) q
          (setbit-IsBytes r.bitmap s h)
        ∙ elim (Bool-cases (q == s)) [
          | inl here ↦
              ground (
                arith,
                here,
                tstbit-setbit r.bitmap s q h,
                free,
                ap (taken r) ((==_iff q s).0 here),
              )
          | inr there ↦ ground (arith, there, tstbit-setbit r.bitmap s q h)
        ]

    back :
        (out : ℕ × Ram)
        → Allocated r 2048 66048 out
        → out.0 ≤ 0x10000000
        → taken (dalloc_page out.1 out.0) q ≡ taken r q
    back out (got s from to full free e) l = rw e (freed_again s from (rw e at l) free)
    back out (exhausted full e) l = rw e (dalloc_page-taken r 0 q h ∙ ground arith)

-- With all pages below 256 MiB taken and the next one free, `alloc_page` returns that one, the first
-- of the two MiB of device registers, and `dalloc_page` does not take any behind it back.
pub alloc_page-device :
    (r : Ram) → Full r 2048 65536 → taken r 65536 ≡ false → (alloc_page r).0 ≡ 0x10000000
alloc_page-device r full free = first (alloc_page r) (alloc_page-Allocated r)
  where
    at : (s : ℕ) → 2048 ≤ s → Full r 2048 s → taken r s ≡ false → s * page_size ≡ 0x10000000
    at s from f fr = elim (Bool-cases (ltb s 65536)) [
      | inl less ↦ absurd (ground (arith, less, full s from, fr))
      | inr more ↦ elim (Bool-cases (s == 65536)) [
        | inl here ↦ omega (arith, (==_iff s 65536).0 here)
        | inr past ↦ absurd (ground (arith, more, past, f 65536, free))
      ]
    ]

    first : (out : ℕ × Ram) → Allocated r 2048 66048 out → out.0 ≡ 0x10000000
    first out (got s from to f fr e) = ap (λ (o : ℕ × Ram). o.0) e ∙ at s from f fr
    first out (exhausted f e) = absurd (ground (arith, f 65536 (omega arith) (omega arith), free))
