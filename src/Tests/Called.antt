-- ===== src/Tests/Called.antt =====
-- The theorems on system calls over paths and descriptors, at the card of Entered.
use xern.Base.{ℕ, ◌≡◌, refl, List, [], ◌∷◌, arith, some, none, pos, Option, ◌>>=◌}
use xern.Kernel.{InodePtr, root_inode, minode_slot}
use xern.Strings.{strlen}
use xern.Paths.{local_path, remove_multiple_slashes, squeeze, trim_slash, cut}
use xern.Paths.Break.{text_of, brk_path, brk_loop}
use xern.Permissions.{Inode, check_access_permission}
use xern.Ext2.{Fs, minode}
use xern.Ext2.Codec.{InRange}
use xern.Ext2.Data.{Filing}
use xern.Ext2.Writing.{write_file}
use xern.Ext2.Lookup.Search.{search_inode, search_run}
use xern.Tree.{Sys, lookup}
use xern.Tree.Changed.{Moded, kchmod-Remoded}
use xern.Serial.{serial_read}
use xern.Serial.Line.{edited, AsEdited, serial_read-AsEdited}
use xern.Serial.Transfer.{kwrite}
use xern.Serial.Rights.{Opened, kwrite-unchecked, pos_result}
use xern.Serial.Password.{kreadpass, hidden, kreadpass-hidden}
use xern.Tests.{demo, demo_ofts}
use xern.Tests.Filed.{card}
use xern.Tests.Entered.{dir_card}

-- "a", taken back, "b" and the end of the line.
abbrev keys : List ℕ
keys = 97 ∷ 127 ∷ 98 ∷ 13 ∷ 99 ∷ []

abbrev sevens : ℕ → ℕ
sevens k = 7

serial_read-AsEdited_example :
    AsEdited sevens 4 (edited keys (pos 4) []) (serial_read keys (pos 4) sevens 0)
serial_read-AsEdited_example =
    serial_read-AsEdited keys [] 4 sevens sevens (omega arith) (λ i l. absurd (omega arith))
      (λ k l. refl)

abbrev sys : Sys
sys = record { kernel = demo; fs = dir_card; dirnames = λ i. [] }

abbrev slash_path : List ℕ
slash_path = b'/' ∷ []

abbrev found : Option (Option InodePtr × Sys) → Sys
found none = sys
found (some (p, s)) = s

at_root : lookup slash_path sys ≡ some (some root_inode, found (lookup slash_path sys))
unfolding lookup search_inode search_run brk_path brk_loop local_path strlen remove_multiple_slashes
    squeeze trim_slash cut
at_root = refl

root-InRange : InRange (minode (found (lookup slash_path sys)).fs root_inode).inode
unfolding lookup search_inode search_run brk_path brk_loop local_path strlen remove_multiple_slashes
    squeeze trim_slash cut
root-InRange = record {
  mode = omega arith;
  uid = omega arith;
  size = omega arith;
  atime = omega arith;
  ctime = omega arith;
  mtime = omega arith;
  dtime = omega arith;
  gid = omega arith;
  links = omega arith;
  blocks = omega arith;
  flags = omega arith;
  osd1 = omega arith;
  block = λ j l. ground arith;
  pad = λ j l. omega arith;
  reserved = λ j l. omega arith;
}

kchmod-Remoded_example : Moded slash_path 0o700 sys (found (lookup slash_path sys)) root_inode
kchmod-Remoded_example =
    kchmod-Remoded slash_path 0o700 sys (found (lookup slash_path sys)) root_inode at_root
      root-InRange

-- Descriptor 0 is the file in slot 0, with a mode.
abbrev opened : ℕ → Filing
opened m = record {
  kernel = record demo {
    open_file_table = λ i. record (demo_ofts i) { mode = m; m_ptr = some (minode_slot 0) };
  };
  fs = card;
}

opened-Opened : (m : ℕ) → Opened (opened m) 0 0 (minode_slot 0)
opened-Opened m = record { below = omega arith; entry = refl; inode = refl; counted = refl }

abbrev opened_on : Fs → Filing
opened_on fs = record { kernel = (opened 0).kernel; fs = fs }

kwrite-unchecked_example :
    ((ip : Inode)
      → check_access_permission (opened 512).kernel ip 512
        ≡ check_access_permission (opened 512).kernel ip 0)
    × (kwrite (pos 0) (opened 512) (pos 0) (72 ∷ 0 ∷ []) (pos 1) ≡ (
        write_file (opened 512) 0 (text_of (72 ∷ 0 ∷ [])) 1 >>= λ (n, s'). some (pos_result n s')))
kwrite-unchecked_example =
    kwrite-unchecked (pos 0) (opened 512) 0 0 (minode_slot 0) (opened-Opened 512) (72 ∷ 0 ∷ []) 1
      refl (omega arith) refl

kreadpass-hidden_example :
    kreadpass keys (pos 4) sevens 0 ≡ hidden (serial_read keys (pos 4) sevens 0)
kreadpass-hidden_example = kreadpass-hidden keys (pos 4) sevens 0
