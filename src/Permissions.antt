-- ===== src/Permissions.antt =====
-- Access rights: `check_access_permission` of XERN/fs/open.h and `rights_to_execute` of
-- XERN/exec.c, on `struct ext2_inode` of XERN/include/ext2.h. The numbers are not negative: a mask
-- of one bit and a shift are written as a division and a remainder.
pub mod Rights
use xern.Base.{ℕ, ◌/◌, ◌%◌, ◌^◌, Bool, true, false, ◌==◌, ◌&&◌, if◌then◌else◌}
use xern.Kernel.{Kernel, Proc}

-- `struct ext2_inode`
pub record Inode : Type 0 where
  pub i_mode : ℕ
  pub i_uid : ℕ
  pub i_size : ℕ
  pub i_atime : ℕ
  pub i_ctime : ℕ
  pub i_mtime : ℕ
  pub i_dtime : ℕ
  pub i_gid : ℕ
  pub i_links_count : ℕ
  pub i_blocks : ℕ
  pub i_flags : ℕ
  pub i_osd1 : ℕ
  pub i_block : ℕ → ℕ
  pub i_pad : ℕ → ℕ
  pub i_reserved : ℕ → ℕ

-- Bit `i`, by the mask `1 << i`.
abbrev pub bit : ℕ → ℕ → ℕ
bit n i = n / 2 ^ i % 2

-- The three bits for the owner, the group or the others.
unfoldable pub permbits : Kernel → Inode → ℕ
permbits k ip =
    if (k.procs k.curr_proc).uid == ip.i_uid
    then ip.i_mode / 64 % 8
    else if (k.procs k.curr_proc).gid == ip.i_gid
    then ip.i_mode / 8 % 8
    else ip.i_mode % 8

unfoldable pub check_access_permission : Kernel → Inode → ℕ → Bool
check_access_permission k ip flags =
    if (bit flags 0 == 0) && (bit (permbits k ip) 2 == 0)
    then false
    else if (bit flags 0 == 1) && (bit (permbits k ip) 1 == 0)
    then false
    else if (bit flags 1 == 1) && (bit (permbits k ip) 2 == 0)
    then false
    else if (bit flags 1 == 1) && (bit (permbits k ip) 1 == 0)
    then false
    else true

unfoldable pub rights_to_execute : Kernel → Inode → Bool
rights_to_execute k ip = if bit (permbits k ip) 0 == 1 then true else false
