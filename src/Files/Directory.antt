-- ===== src/Files/Directory.antt =====
-- Closing a directory. O_DIRECTORY of XERN/include/fcntl.h and READ_PIPE of XERN/include/param.h
-- are both 4, and `kopen` stores its flags as the mode of the entry.
use xern.Base.{ℕ, ◌+◌, ◌<◌, ◌≡◌, refl, ◌⊎◌, false, true, none, some, arith, pos, ◌==◌, leb, ◌||◌}
use xern.Kernel.{Kernel, proc_fd_max}
use xern.Files.{curr_fd, kclose, close_entry, close_pipe, read_pipe_mode, write_pipe_mode}

abbrev o_rdonly : ℕ
o_rdonly = 0

abbrev o_wronly : ℕ
o_wronly = 1

abbrev pub o_directory : ℕ
o_directory = 4

-- A descriptor opened with O_DIRECTORY, to read or to write, has no pipe; `kclose` of it follows
-- the NULL pointer to one.
pub kclose-directory_fault :
    (k : Kernel) (i o access : ℕ)
    → i < proc_fd_max
    → curr_fd k i ≡ some o
    → (access ≡ o_rdonly) ⊎ (access ≡ o_wronly)
    → (k.open_file_table o).mode ≡ access + o_directory
    → (k.open_file_table o).p_ptr ≡ none
    → kclose k (pos i) ≡ none
unfolding kclose close_entry close_pipe
kclose-directory_fault k i o access low used a mode alone =
    rw (past, used) (rw (piped, used) (rw alone refl))
  where
    past : leb proc_fd_max i ≡ false
    past = ground arith

    piped :
        ((k.open_file_table o).mode == read_pipe_mode
          || (k.open_file_table o).mode == write_pipe_mode)
        ≡ true
    piped = ground arith
