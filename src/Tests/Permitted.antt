-- ===== src/Tests/Permitted.antt =====
-- The theorems on access rights at a concrete file.
use xern.Base.{◌≡◌, false}
use xern.Permissions.{Inode, check_access_permission}
use xern.Permissions.Rights.{check_access_permission-may}
use xern.Tests.{demo}

-- A regular file `rwxr-x--x` of user 5 and group 0; the running process has user 0 and group 0.
abbrev of_group : Inode
of_group = record {
  i_mode = 33257;
  i_uid = 5;
  i_size = 0;
  i_atime = 0;
  i_ctime = 0;
  i_mtime = 0;
  i_dtime = 0;
  i_gid = 0;
  i_links_count = 1;
  i_blocks = 0;
  i_flags = 0;
  i_osd1 = 0;
  i_block = λ i. 0;
  i_pad = λ i. 0;
  i_reserved = λ i. 0;
}

-- To read and write: the group may only read.
check_access_permission-may_example : check_access_permission demo of_group 2 ≡ false
check_access_permission-may_example = check_access_permission-may demo of_group 2
