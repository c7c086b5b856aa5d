-- ===== src/Memory/Uvm.antt =====
-- Giving memory to a process: `allocuvm` and `copyuvm` of XERN/include/memory.h, and `ksbrk` of
-- XERN/sbrk.c.
use Prim.Native.Nat.{bit_or}
use xern.Base.{
  ℕ, zero, suc, ◌+◌, ◌-◌, ◌*◌, ◌/◌, ◌%◌, ◌^◌, Bool, true, false, Option, none, some, ◌==◌, ltb, leb,
  if◌then◌else◌, ℤ, pos, negsuc, dec, is_zero,
}
use xern.Memory.{
  Ram, Machine, store, page_size, alloc_page, dalloc_page, table_of, page_of, set_size, with_ram,
  freeuvm, roundup, clrpage,
}

-- The inner loop of `allocuvm` left off: the pages that are still to get, the memory and the
-- process's size; `failed` is the entry that got no page.
pub record Filled : Type 0 where
  pub plen : ℕ
  pub ram : Ram
  pub size : ℕ
  pub failed : Option ℕ

unfoldable pub fill_run : ℕ → (t j plen : ℕ) → Ram → (size : ℕ) → Filled
fill_run zero t j plen r size = record { plen = plen; ram = r; size = size; failed = none }
fill_run (suc n) t j zero r size = record { plen = 0; ram = r; size = size; failed = none }
fill_run (suc n) t j (suc plen) r size =
    let (a, r') = alloc_page r in
    elim (a == 0) [
      | true ↦ record {
        plen = suc plen;
        ram = store r' (t + 4 * j) a;
        size = size;
        failed = some j;
      }
      | false ↦
          fill_run n t (suc j) plen (store r' (t + 4 * j) (bit_or a 0xffe))
            ((size + page_size) % 2 ^ 32)
    ]

-- Whether there is a table for directory entry `i`, which is made if there was none.
unfoldable pub need_table : ℕ → ℕ → Ram → Bool × Ram
need_table pgdir i r =
    if r.word (pgdir + 4 * i) == 0
    then (let (t, r') = alloc_page r in
        if t == 0 then (false, r') else (true, store r' (pgdir + 4 * i) (bit_or t 0x31)))
    else (true, r)

-- `allocuvm` gives up: the pages that it got are cleared.
abbrev pub give_up : Machine → ℕ → (start got : ℕ) → ℕ × Machine
give_up m p start got = (0, clrpage m p start (got * page_size))

-- A round of its outer loop returns, or there are pages still to get.
pub data Filling : Type 0 where
  returns : ℕ × Machine → Filling
  goes_on : ℕ → Machine → Filling

-- What is done behind the inner loop, which left `plen` pages to get: `failed` is the entry of the
-- table `t` that got none.
unfoldable pub settle : (p start total t : ℕ) → Option ℕ → (plen : ℕ) → Machine → Filling
settle p start total t (some j) plen m =
    returns
      (give_up (if j == 0 then with_ram m (dalloc_page m.ram t) else m) p start (total - plen))
settle p start total t none zero m = returns (start, m)
settle p start total t none (suc more) m = goes_on (suc more) m

-- The round at entry `tpos` of the user space; `total` is the number of pages wanted.
unfoldable pub alloc_round : (p start total tpos toff plen : ℕ) → Machine → Filling
alloc_round p start total tpos toff plen m =
    let pgdir = (m.kernel.procs p).pgdir in
    let (ok, r) = need_table pgdir (2048 + tpos) m.ram in
    let t = table_of (r.word (pgdir + 4 * (2048 + tpos))) in
    let f = fill_run (256 - toff) t toff plen r (m.kernel.procs p).size in
    if ok
    then settle p start total t f.failed f.plen (set_size (with_ram m f.ram) p f.size)
    else returns (give_up (with_ram m r) p start (total - plen))

-- The outer loop, `n` entries before the end of the user space.
unfoldable pub alloc_loop : ℕ → (p start total tpos toff plen : ℕ) → Machine → ℕ × Machine
alloc_loop zero p start total tpos toff plen m = give_up m p start total
alloc_loop (suc n) p start total tpos toff plen m =
    elim (alloc_round p start total tpos toff plen m) [
      | returns out ↦ out
      | goes_on left m' ↦ alloc_loop n p start total (suc tpos) 0 left m'
    ]

-- The address of the byte behind a process's memory.
abbrev pub end_of : ℕ → ℕ
end_of size =
    (0x80000000 + size / 0x100000 * 0x100000 + page_size * (size % 0x100000 / page_size)) % 2 ^ 32

-- `allocuvm`, for a process of at most 2 GiB.
unfoldable pub allocuvm : Machine → (p size : ℕ) → ℕ × Machine
allocuvm m p size =
    if size == 0
    then (0, m)
    else let have = (m.kernel.procs p).size in
      let pages = roundup size / page_size in
      alloc_loop (2048 - have / 0x100000) p (end_of have) pages (have / 0x100000)
        (have % 0x100000 / page_size) pages m

-- `memcpy(d, s, PAGE_SIZE)` of pages
abbrev pub copy_page : Ram → (d s : ℕ) → Ram
copy_page r d s = record r {
  word = λ a.
      if leb d a
      then (if ltb a (d + page_size) then r.word (s + (a - d)) else r.word a)
      else r.word a;
}

-- What the inner loop of `copyuvm` came to.
pub data Copied : Type 0 where
  no_page : Copied
  complete : Copied
  going_on : ℤ → Copied

-- Entry `j` of the table `t` from that of the table `s`, with `plen` pages left to copy.
unfoldable pub copy_entry : (t s j : ℕ) → ℤ → Ram → Copied × Ram
copy_entry t s j plen r =
    let e = r.word (s + 4 * j) in
    if e == 0
    then (going_on plen, store r (t + 4 * j) 0)
    else let (a, r') = alloc_page r in
      if a == 0
      then (no_page, store r' (t + 4 * j) 0)
      else let full =
          copy_page (store r' (t + 4 * j) (bit_or a 0xffe)) (page_of (bit_or a 0xffe))
            (page_of e) in
        (if is_zero (dec plen) then complete else going_on (dec plen), full)

unfoldable pub copy_run : ℕ → (t s j : ℕ) → ℤ → Ram → Copied × Ram
copy_run zero t s j plen r = (going_on plen, r)
copy_run (suc n) t s j plen r =
    let (c, r') = copy_entry t s j plen r in
    elim c [
      | no_page ↦ (no_page, r')
      | complete ↦ (complete, r')
      | going_on left ↦ copy_run n t s (suc j) left r'
    ]

-- A round of the outer loop: entry `i` of the directories `d` and `s`.
unfoldable pub copy_table : (d s i : ℕ) → ℤ → Ram → Copied × Ram
copy_table d s i plen r =
    if r.word (s + 4 * i) == 0
    then (going_on plen, store r (d + 4 * i) 0)
    else let (a, r') = alloc_page r in
      if a == 0
      then (no_page, store r' (d + 4 * i) 0)
      else let r'' = store r' (d + 4 * i) (bit_or a 0x31) in
        copy_run 256 (table_of (r''.word (d + 4 * i))) (table_of (r''.word (s + 4 * i))) 0 plen r''

unfoldable pub copy_loop : ℕ → (d s i : ℕ) → ℤ → Ram → Bool × Ram
copy_loop zero d s i plen r = (false, r)
copy_loop (suc n) d s i plen r =
    let (c, r') = copy_table d s i plen r in
    elim c [
      | no_page ↦ (false, r')
      | complete ↦ (true, r')
      | going_on left ↦ copy_loop n d s (suc i) left r'
    ]

-- `copyuvm`: `true` is its result 1. One page less than the size is wanted before it ends.
unfoldable pub copyuvm : Machine → (d s : ℕ) → Bool × Machine
copyuvm m d s =
    let size = (m.kernel.procs s).size in
    let (ok, r) =
      copy_loop 2048 (m.kernel.procs d).pgdir (m.kernel.procs s).pgdir 2048
        (dec (pos (size / page_size))) m.ram in
    if ok then (true, set_size (with_ram m r) d size) else (false, freeuvm (with_ram m r) d)

-- `ksbrk`: the result is an address, or -1.
unfoldable pub ksbrk : Machine → ℤ → ℤ × Machine
ksbrk m (pos zero) = (pos (end_of (m.kernel.procs m.kernel.curr_proc).size), m)
ksbrk m (pos (suc n)) =
    let c = m.kernel.curr_proc in
    let (a, m') = allocuvm m c (suc n) in
    if a == 0 then (negsuc 0, m') else (pos (end_of (m.kernel.procs c).size), m')
ksbrk m (negsuc n) =
    let c = m.kernel.curr_proc in
    let start = end_of (m.kernel.procs c).size in
    let delsize = roundup (suc n) in
    let delstart = (start + 2 ^ 32 - delsize) % 2 ^ 32 in
    if ltb delstart (m.kernel.procs c).brk_start
    then (negsuc 0, m)
    else (pos start, clrpage m c delstart delsize)
