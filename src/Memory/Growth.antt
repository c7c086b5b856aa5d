-- ===== src/Memory/Growth.antt =====
-- How `allocuvm` and `ksbrk` change the size of a process.
use xern.Base.{
  ℕ, zero, suc, ◌+◌, ◌-◌, ◌*◌, ◌/◌, ◌%◌, ◌^◌, ◌≤◌, ◌<◌, ◌≡◌, refl, ◌∙◌, Option, none, some, ◌==◌,
  ◌⊎◌, inl, inr, arith, Bool-cases,
}
use xern.Memory.{Ram, Machine, store, page_size, alloc_page, table_of, set_size, with_ram, roundup}
use Prim.Native.Nat.{bit_or}
use xern.Memory.Uvm.{
  Filled, Filling, returns, goes_on, settle, alloc_round, fill_run, need_table, alloc_loop, end_of,
  allocuvm,
}

abbrev pub size_of : Machine → ℕ → ℕ
size_of m p = (m.kernel.procs p).size

-- The pages that `fill_run` got are in the size that it returns.
abbrev Gained : ℕ → ℕ → Filled → Type 0
Gained plen size f = (f.plen ≤ plen) × (f.size ≡ (size + page_size * (plen - f.plen)) % 2 ^ 32)

gain :
    (plen size : ℕ) (f : Filled)
    → Gained plen ((size + page_size) % 2 ^ 32) f
    → Gained (suc plen) size f
gain plen size f (l, e) = omega (arith, l, e)

fill_run-Gained :
    (n t j plen : ℕ) (r : Ram) (size : ℕ)
    → size < 2 ^ 32
    → Gained plen size (fill_run n t j plen r size)
unfolding fill_run
fill_run-Gained zero t j plen r size h = omega (arith, h)
fill_run-Gained (suc n) t j zero r size h = omega (arith, h)
fill_run-Gained (suc n) t j (suc plen) r size h = elim (Bool-cases ((alloc_page r).0 == 0)) [
  | inl full ↦ rw (full, fill_run) (omega (arith, h))
  | inr got ↦
      rw (got, fill_run)
        (let r' = store (alloc_page r).1 (t + 4 * j) (bit_or (alloc_page r).0 0xffe) in
          let size' = (size + page_size) % 2 ^ 32 in
          gain plen size (fill_run n t (suc j) plen r' size')
            (fill_run-Gained n t (suc j) plen r' size' (omega arith)))
]

-- What `allocuvm` returns when it is to give `plen` pages to process `p`: 0, or the address `start` and as many
-- bytes more.
abbrev pub Grown : Machine → (p start plen : ℕ) → ℕ × Machine → Type 0
Grown m p start plen out =
    (out.0 ≡ 0) ⊎ ((out.0 ≡ start) × (size_of out.1 p ≡ (size_of m p + page_size * plen) % 2 ^ 32))

-- After a round: the pages got so far are in the size.
abbrev Advanced : Machine → (p start plen : ℕ) → Filling → Type 0
Advanced m p start plen (returns out) = Grown m p start plen out
Advanced m p start plen (goes_on left m') =
    (left ≤ plen) × (size_of m' p ≡ (size_of m p + page_size * (plen - left)) % 2 ^ 32)

settle-Advanced :
    (m m' : Machine) (p start total t plen left : ℕ) (failed : Option ℕ)
    → left ≤ plen
    → size_of m' p ≡ (size_of m p + page_size * (plen - left)) % 2 ^ 32
    → Advanced m p start plen (settle p start total t failed left m')
unfolding settle
settle-Advanced m m' p start total t plen left (some j) l e = inl refl
settle-Advanced m m' p start total t plen zero none l e = inr (refl, omega (arith, e))
settle-Advanced m m' p start total t plen (suc left) none l e = (l, e)

alloc_round-Advanced :
    (p start total tpos toff plen : ℕ) (m : Machine)
    → size_of m p < 2 ^ 32
    → Advanced m p start plen (alloc_round p start total tpos toff plen m)
unfolding alloc_round
alloc_round-Advanced p start total tpos toff plen m h =
    let nt = need_table (m.kernel.procs p).pgdir (2048 + tpos) m.ram in
    let t = table_of (nt.1.word ((m.kernel.procs p).pgdir + 4 * (2048 + tpos))) in
    let f = fill_run (256 - toff) t toff plen nt.1 (size_of m p) in
    let g = fill_run-Gained (256 - toff) t toff plen nt.1 (size_of m p) h in
    elim (Bool-cases nt.0) [
      | inl ok ↦ rw ok (
          settle-Advanced m (set_size (with_ram m f.ram) p f.size) p start total t plen f.plen
            f.failed g.0 (sized f.ram f.size ∙ g.1))
      | inr bad ↦ rw bad (inl refl)
    ]
  where
    sized : (r : Ram) (n : ℕ) → size_of (set_size (with_ram m r) p n) p ≡ n
    sized r n = ground arith

further :
    (m m' : Machine) (p start plen left : ℕ) (out : ℕ × Machine)
    → left ≤ plen
    → size_of m' p ≡ (size_of m p + page_size * (plen - left)) % 2 ^ 32
    → Grown m' p start left out
    → Grown m p start plen out
further m m' p start plen left out l e (inl failed) = inl failed
further m m' p start plen left out l e (inr (at, size)) = inr (at, omega (arith, l, e, size))

alloc_loop-Grown :
    (n p start total tpos toff plen : ℕ) (m : Machine)
    → size_of m p < 2 ^ 32
    → Grown m p start plen (alloc_loop n p start total tpos toff plen m)
unfolding alloc_loop
alloc_loop-Grown zero p start total tpos toff plen m h = inl refl
alloc_loop-Grown (suc n) p start total tpos toff plen m h =
    go (alloc_round p start total tpos toff plen m)
      (alloc_round-Advanced p start total tpos toff plen m h)
      (λ left m' h'. alloc_loop-Grown n p start total (suc tpos) 0 left m' h')
  where
    go :
        (f : Filling)
        → Advanced m p start plen f
        → ((left : ℕ) (m' : Machine)
            → size_of m' p < 2 ^ 32
            → Grown m' p start left (alloc_loop n p start total (suc tpos) 0 left m'))
        → Grown m p start plen (elim f [
          | returns out ↦ out
          | goes_on left m' ↦ alloc_loop n p start total (suc tpos) 0 left m'
        ])
    go (returns out) a rest = a
    go (goes_on left m') (l, e) rest =
        further m m' p start plen left (alloc_loop n p start total (suc tpos) 0 left m') l e
          (rest left m' (omega (arith, e)))

-- `allocuvm` returns 0, or the end of the process's memory as it was; then the process's size has
-- grown by exactly the size that was asked for, rounded up to whole pages.
pub allocuvm-Grown :
    (m : Machine) (p size : ℕ)
    → size_of m p < 2 ^ 32
    → Grown m p (end_of (size_of m p)) (roundup size / page_size) (allocuvm m p size)
unfolding allocuvm
allocuvm-Grown m p size h = elim (Bool-cases (size == 0)) [
  | inl nothing ↦ rw nothing (inl refl)
  | inr some_pages ↦ rw some_pages (alloc_loop-Grown _ p _ _ _ _ _ m h)
]
