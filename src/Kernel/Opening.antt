-- ===== src/Kernel/Opening.antt =====
-- system_open of student-distrib/syscalls.c on a file and on a directory.
use linux_like_os_project.Prelude.{ℕ, ◌<◌, ◌≤◌, ◌≡◌, refl, List, Option, none, some, arith}
use linux_like_os_project.Prelude.Int.{pos}
use linux_like_os_project.FileSys.{Dentry, read_dentry_by_name}
use linux_like_os_project.Kernel.{
  Kernel, Fd, fops, curr_fd, set_curr_fd, file_descriptor_max, in_use, not_in_use, file_ops,
  dir_ops,
}
use linux_like_os_project.Kernel.Descriptors.{curr_fds}
use linux_like_os_project.Kernel.Calls.{call_open, find_free, ops_of, opened, system_open}
use linux_like_os_project.Kernel.Open.{IsFound, find_free-IsFound}

free-IsFound :
    (k : Kernel) (l : ℕ) (r : Option ℕ)
    → 2 ≤ l
    → l < file_descriptor_max
    → (curr_fd k l).flags ≡ not_in_use
    → IsFound (curr_fds k) 2 6 r
    → (j : ℕ) × (2 ≤ j) × (j < file_descriptor_max) × (r ≡ some j)
unfolding IsFound
free-IsFound k l none low high free f = absurd (f l low high free)
free-IsFound k l (some j) low high free f = (j, f.low, omega (arith, f.high), refl)

opened-file :
    (e : Dentry) (d : Fd)
    → e.filetype ≡ 2
    → opened e d
      ≡ record { file_op_table_ptr = file_ops; inode = e.inode_num; file_pos = 0; flags = in_use }
unfolding opened ops_of
opened-file e d h = rw h refl

-- A regular file is opened on a descriptor from 2 on, at position 0.
pub open_file-eq :
    (filename : List ℕ) (k : Kernel) (e : Dentry) (l : ℕ)
    → read_dentry_by_name k.image filename ≡ some e
    → e.filetype ≡ 2
    → 2 ≤ l
    → l < file_descriptor_max
    → (curr_fd k l).flags ≡ not_in_use
    → (j : ℕ) × (2 ≤ j)
      × (j < file_descriptor_max)
      × (system_open filename k
          ≡ some (
            pos j,
            set_curr_fd j
                (record {
                  file_op_table_ptr = file_ops;
                  inode = e.inode_num;
                  file_pos = 0;
                  flags = in_use;
                })
                k,
          ))
unfolding system_open call_open fops
open_file-eq filename k e l named regular low high free =
    let (j, a, b, found) =
      free-IsFound k l (find_free 6 2 (curr_fds k)) low high free
        (find_free-IsFound 6 2 (curr_fds k)) in
    (j, a, b, rw (named, found, opened-file e (curr_fd k j) regular, system_open) refl)

opened-dir :
    (e : Dentry) (d : Fd)
    → e.filetype ≡ 1
    → opened e d
      ≡ record { file_op_table_ptr = dir_ops; inode = e.inode_num; file_pos = 0; flags = in_use }
unfolding opened ops_of
opened-dir e d h = rw h refl

-- So is a directory.
pub open_dir-eq :
    (filename : List ℕ) (k : Kernel) (e : Dentry) (l : ℕ)
    → read_dentry_by_name k.image filename ≡ some e
    → e.filetype ≡ 1
    → 2 ≤ l
    → l < file_descriptor_max
    → (curr_fd k l).flags ≡ not_in_use
    → (j : ℕ) × (2 ≤ j)
      × (j < file_descriptor_max)
      × (system_open filename k
          ≡ some (
            pos j,
            set_curr_fd j
                (record {
                  file_op_table_ptr = dir_ops;
                  inode = e.inode_num;
                  file_pos = 0;
                  flags = in_use;
                })
                k,
          ))
unfolding system_open call_open fops
open_dir-eq filename k e l named regular low high free =
    let (j, a, b, found) =
      free-IsFound k l (find_free 6 2 (curr_fds k)) low high free
        (find_free-IsFound 6 2 (curr_fds k)) in
    (j, a, b, rw (named, found, opened-dir e (curr_fd k j) regular, system_open) refl)
