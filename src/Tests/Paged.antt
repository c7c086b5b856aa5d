-- ===== src/Tests/Paged.antt =====
-- The theorems on memory at a concrete map of pages.
use xern.Base.{scan, ◌%◌, ◌≡◌, refl, ◌/◌, ltb, if◌then◌else◌, ◌==◌, arith, true}
use xern.Bits.{tstbit, test_bit}
use xern.Bits.Maps.{IsBytes, test_bit-full}
use xern.Memory.{Ram, Machine, alloc_page, page_loop}
use xern.Memory.Pages.{TookPage, alloc_page-TookPage, Full}
use xern.Tests.{demo}

-- Byte 256 of the map is full, and of byte 257 the first bit is set.
abbrev demo_ram : Ram
demo_ram = record {
  word = λ a. 0;
  bitmap = λ i. if i == 256 then 255 else if i == 257 then 1 else 0;
}

demo_ram-IsBytes : IsBytes demo_ram.bitmap
demo_ram-IsBytes i = ground arith

alloc_page-demo_ram : (alloc_page demo_ram).0 ≡ 0x809000
unfolding alloc_page page_loop test_bit scan
alloc_page-demo_ram = refl

alloc_page-TookPage_example : TookPage demo_ram (alloc_page demo_ram)
alloc_page-TookPage_example = alloc_page-TookPage demo_ram demo_ram-IsBytes

-- All pages below 256 MiB are taken.
abbrev full_ram : Ram
full_ram = record { word = λ a. 0; bitmap = λ i. if ltb i 8192 then 255 else 0 }

full_ram-Full : Full full_ram 2048 65536
unfolding tstbit
full_ram-Full s low high = rw inside (test_bit-full (s % 8) (omega arith))
  where
    inside : ltb (s / 8) 8192 ≡ true
    inside = ground (arith, high)

-- Process 2 has no memory yet and asks for 5000 bytes.
abbrev demo_machine : Machine
demo_machine = record { kernel = demo; ram = demo_ram }
