-- ===== src/Memory.antt =====
-- Pages and the user part of the page tables: XERN/include/memory.h. Memory is a table of 32-bit
-- words at byte addresses that 4 divides; the kernel sees it under its own addresses. Messages to
-- the console are left out.
pub mod Pages
pub mod Freed
pub mod Uvm
pub mod Growth
use Prim.Native.Nat.{bit_or}
use xern.Base.{
  ℕ, zero, suc, ◌+◌, ◌-◌, ◌*◌, ◌/◌, ◌%◌, ◌^◌, Bool, true, false, not, ◌&&◌, ◌||◌, Option, none,
  some, ◌==◌, ltb, leb, if◌then◌else◌, update, scan, ℤ, pos, negsuc, dec, is_zero, sub_ℕ,
}
use xern.Kernel.{Kernel, Proc}
use xern.Bits.{test_bit, with_bit, clrbit}

abbrev pub page_size : ℕ
page_size = 4096

-- The bytes of the map: RAMSZ * PAGES_PER_BLK / 8
abbrev pub bitmap_len : ℕ
bitmap_len = 258 * 256 / 8

pub record Ram : Type 0 where
  pub word : ℕ → ℕ
  pub bitmap : ℕ → ℕ

-- The kernel's globals and the memory.
pub record Machine : Type 0 where
  pub kernel : Kernel
  pub ram : Ram

abbrev pub store : Ram → ℕ → ℕ → Ram
store r a w = record r { word = update r.word a w }

-- The loop of `alloc_page` over the bits of a byte.
abbrev pub free_in : ℕ → Option ℕ
free_in b = scan 8 0 (λ j. not (test_bit b j))

-- The loop over the bytes; 0 when no page is left.
unfoldable pub page_loop : ℕ → ℕ → Ram → ℕ × Ram
page_loop zero i r = (0, r)
page_loop (suc n) i r = elim (free_in (r.bitmap i)) [
  | none ↦ page_loop n (suc i) r
  | some j ↦ (
    i * page_size * 8 + j * page_size,
    record r { bitmap = update r.bitmap i (with_bit (r.bitmap i) j) },
  )
]

unfoldable pub alloc_page : Ram → ℕ × Ram
alloc_page r = page_loop (bitmap_len - 256) 256 r

unfoldable pub dalloc_page : Ram → ℕ → Ram
dalloc_page r addr =
    if ltb addr 0x800000 || ltb 0x10000000 addr
    then r
    else if not (addr % page_size == 0)
    then r
    else record r { bitmap = clrbit r.bitmap (addr / page_size) }

-- The masks 0xFFFFFC00 and 0xFFFFF000 on an entry of a directory and of a table.
abbrev pub table_of : ℕ → ℕ
table_of e = e / 1024 * 1024

abbrev pub page_of : ℕ → ℕ
page_of e = e / page_size * page_size

-- Entry `j` of a table, freed and cleared unless it is 0.
unfoldable pub clear_entry : ℕ → ℕ → Ram → Ram
clear_entry t j r =
    let e = r.word (t + 4 * j) in
    if e == 0 then r else store (dalloc_page r (page_of e)) (t + 4 * j) 0

-- The inner loop of `freeuvm`.
unfoldable pub clear_table : ℕ → ℕ → ℕ → Ram → Ram
clear_table zero t j r = r
clear_table (suc n) t j r = clear_table n t (suc j) (clear_entry t j r)

-- A round of the outer loop: entry `i` of the directory.
unfoldable pub free_table : ℕ → ℕ → Ram → Ram
free_table pgdir i r =
    let t = table_of (r.word (pgdir + 4 * i)) in
    if t == 0 then r else clear_table 256 t 0 (store (dalloc_page r t) (pgdir + 4 * i) 0)

unfoldable pub free_loop : ℕ → ℕ → ℕ → Ram → Ram
free_loop zero pgdir i r = r
free_loop (suc n) pgdir i r = free_loop n pgdir (suc i) (free_table pgdir i r)

abbrev pub set_size : Machine → ℕ → ℕ → Machine
set_size m p size = record m {
  kernel = record m.kernel {
    procs = update m.kernel.procs p (record (m.kernel.procs p) { size = size });
  };
}

abbrev pub with_ram : Machine → Ram → Machine
with_ram m r = record m { ram = r }

unfoldable pub freeuvm : Machine → ℕ → Machine
freeuvm m p = set_size (with_ram m (free_loop 2048 (m.kernel.procs p).pgdir 2048 m.ram)) p 0

-- A size or an address rounded up to whole pages.
abbrev pub roundup : ℕ → ℕ
roundup n = if n % page_size == 0 then n else n + (page_size - n % page_size)

-- The inner loop of `clrpage`, which stops when no page is left to clear; the result tells how many are.
unfoldable pub clear_run : ℕ → (t j plen : ℕ) → Ram → ℕ × Ram
clear_run zero t j plen r = (plen, r)
clear_run (suc n) t j zero r = (0, r)
clear_run (suc n) t j (suc plen) r = clear_run n t (suc j) plen (clear_entry t j r)

-- Its outer loop, `n` entries before the end of the directory.
unfoldable pub clear_loop : ℕ → (pgdir tpos toff plen : ℕ) → Ram → ℕ × Ram
clear_loop zero pgdir tpos toff plen r = (plen, r)
clear_loop (suc n) pgdir tpos toff plen r =
    let t = table_of (r.word (pgdir + 4 * tpos)) in
    let (left, r') = if t == 0 then (plen, r) else clear_run (256 - toff) t toff plen r in
    elim left [ zero ↦ (0, r') | suc more ↦ clear_loop n pgdir (suc tpos) 0 (suc more) r' ]

-- `size` is far below 2^31. The size of the process is taken down only if all pages were met.
unfoldable pub clrpage : Machine → ℕ → (start size : ℕ) → Machine
clrpage m p start size =
    if (size == 0) || ltb start 0x80000000
    then m
    else let from = roundup start % 2 ^ 32 in
      let (left, r) =
        clear_loop (4096 - from / 0x100000) (m.kernel.procs p).pgdir (from / 0x100000)
          (from % 0x100000 / page_size) (roundup size / page_size) m.ram in
      if left == 0
      then set_size (with_ram m r) p (((m.kernel.procs p).size + 2 ^ 32 - roundup size) % 2 ^ 32)
      else with_ram m r
