-- ===== src/Permissions/Rights.antt =====
-- The two checks against the nine permission bits of a mode.
use xern.Base.{ℕ, ◌/◌, ◌%◌, ◌≡◌, Bool, ◌==◌, ◌&&◌, ◌||◌, not, if◌then◌else◌, arith}
use xern.Kernel.{Kernel}
use xern.Permissions.{Inode, bit, permbits, check_access_permission, rights_to_execute}

pub data Class : Type 0 where
  owner group other : Class

pub data Right : Type 0 where
  read write execute : Right

-- As which of the three the running process meets a file: the first that applies.
abbrev pub class_of : Kernel → Inode → Class
class_of k ip =
    if (k.procs k.curr_proc).uid == ip.i_uid
    then owner
    else if (k.procs k.curr_proc).gid == ip.i_gid
    then group
    else other

-- The mode as `rwxrwxrwx`.
abbrev pub grants : ℕ → Class → Right → Bool
grants mode owner read = mode / 256 % 2 == 1
grants mode owner write = mode / 128 % 2 == 1
grants mode owner execute = mode / 64 % 2 == 1
grants mode group read = mode / 32 % 2 == 1
grants mode group write = mode / 16 % 2 == 1
grants mode group execute = mode / 8 % 2 == 1
grants mode other read = mode / 4 % 2 == 1
grants mode other write = mode / 2 % 2 == 1
grants mode other execute = mode % 2 == 1

abbrev pub may : Kernel → Inode → Right → Bool
may k ip r = grants ip.i_mode (class_of k ip) r

read_bit : (k : Kernel) (ip : Inode) → (bit (permbits k ip) 2 == 1) ≡ may k ip read
unfolding permbits
read_bit k ip = ground arith

write_bit : (k : Kernel) (ip : Inode) → (bit (permbits k ip) 1 == 1) ≡ may k ip write
unfolding permbits
write_bit k ip = ground arith

execute_bit : (k : Kernel) (ip : Inode) → (bit (permbits k ip) 0 == 1) ≡ may k ip execute
unfolding permbits
execute_bit k ip = ground arith

-- Access is granted exactly if the class of the running process may read, where the flags do
-- not ask to write only, and may write, where they ask to write; flags with bit 0 write, with
-- bit 1 read and write.
pub check_access_permission-may :
    (k : Kernel) (ip : Inode) (flags : ℕ)
    → check_access_permission k ip flags ≡ (
        (((bit flags 0 == 1) && not (bit flags 1 == 1)) || may k ip read)
        && (not ((bit flags 0 == 1) || (bit flags 1 == 1)) || may k ip write))
unfolding check_access_permission
check_access_permission-may k ip flags = ground (arith, read_bit k ip, write_bit k ip)

-- A file may be executed exactly if the class of the running process may.
pub rights_to_execute-may : (k : Kernel) (ip : Inode) → rights_to_execute k ip ≡ may k ip execute
unfolding rights_to_execute
rights_to_execute-may k ip = ground (arith, execute_bit k ip)
