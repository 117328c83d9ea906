-- ===== src/FileSys.antt =====
-- The read-only file system of student-distrib/file_sys.c and file_sys.h: the boot block, the search
-- for a directory entry by name and by index, and reading a file's bytes. The image is a value: the
-- code never writes it. Buffers that the code fills are results.
pub mod Lookup
pub mod Contents
use linux_like_os_project.Prelude.{
  ℕ, zero, suc, ◌+◌, ◌-◌, ◌*◌, ◌/◌, ◌%◌, ◌^◌, List, [], ◌∷◌, ◌++◌, Option, none, some, ltb, leb,
  ◌==◌, if◌then◌else◌, get_or, get_elem?, take,
}
use linux_like_os_project.Prelude.Int.{ℤ, pos, negsuc}
use linux_like_os_project.Text.{strlen, strncmp}

abbrev pub filename_len : ℕ
filename_len = 32

abbrev pub dir_entries : ℕ
dir_entries = 63

abbrev pub bytes_per_block : ℕ
bytes_per_block = 4096

abbrev pub u32_mod : ℕ
u32_mod = 2 ^ 32

-- -1, the result of a call that fails.
abbrev pub failure : ℤ
failure = negsuc 0

-- `dentry_t`, with its reserved bytes.
pub record Dentry : Type 0 where
  pub filename : List ℕ
  pub filetype : ℕ
  pub inode_num : ℕ
  pub reserved : List ℕ

-- `inode_t`.
pub record Inode : Type 0 where
  pub length : ℕ
  pub data_block_num : List ℕ

-- `boot_block_t`, the index nodes behind it, and the bytes from `data_blocks` on.
pub record Image : Type 0 where
  pub dir_count : ℕ
  pub inode_count : ℕ
  pub direntries : List Dentry
  pub inodes : List Inode
  pub data_bytes : ℕ → ℕ

abbrev pub no_dentry : Dentry
no_dentry = record { filename = []; filetype = 0; inode_num = 0; reserved = [] }

abbrev pub no_inode : Inode
no_inode = record { length = 0; data_block_num = [] }

-- The four bytes of a `uint32_t` in memory.
abbrev pub le_bytes : ℕ → List ℕ
le_bytes w = (w % 256) ∷ (w / 256 % 256) ∷ (w / 65536 % 256) ∷ (w / 16777216 % 256) ∷ []

-- What stands in memory from `filename` on: the rest of the entry follows with no terminator
-- between.
abbrev pub dentry_bytes : Dentry → List ℕ
dentry_bytes d = d.filename ++ (le_bytes d.filetype ++ (le_bytes d.inode_num ++ d.reserved))

-- The number of bytes that read_dentry_by_name compares for one entry.
unfoldable pub compare_len : List ℕ → Dentry → ℕ
compare_len fname d =
    let len = strlen fname in
    let cur = strlen (dentry_bytes d) in
    if ltb len cur then (if ltb filename_len cur then filename_len else cur) else len

-- The loop of read_dentry_by_name over the slots that are left.
unfoldable pub search_dentries : List ℕ → List Dentry → Option Dentry
unfolding compare_len
search_dentries fname [] = none
search_dentries fname (d ∷ ds) =
    let rest = search_dentries fname ds in
    if ltb filename_len (strlen fname)
    then none
    else (elim (strncmp (dentry_bytes d) fname (compare_len fname d)) [
      | pos zero ↦ some d
      | _ ↦ rest
    ])

-- `some d` is the return of 0 with `d` loaded, `none` the return of -1.
unfoldable pub read_dentry_by_name : Image → List ℕ → Option Dentry
unfolding search_dentries
read_dentry_by_name fs fname =
    if strlen fname == 0 then none else search_dentries fname (take dir_entries fs.direntries)

unfoldable pub read_dentry_by_index : Image → ℕ → Option Dentry
read_dentry_by_index fs index =
    if ltb index fs.dir_count then some (get_or fs.direntries index no_dentry) else none

-- The loop of read_data over the `n` bytes that are left, at a block of the inode and an index in it.
unfoldable pub read_bytes : Image → Inode → ℕ → ℕ → ℕ → List ℕ
read_bytes fs node zero block index = []
read_bytes fs node (suc n) block index =
    fs.data_bytes (get_or node.data_block_num block 0 * bytes_per_block + index)
    ∷ read_bytes fs node n (if leb bytes_per_block (index + 1) then block + 1 else block)
        (if leb bytes_per_block (index + 1) then 0 else index + 1)

-- The length that read_data settles on: `offset + length` is a `uint32_t`, and wraps.
unfoldable pub clamp_length : Inode → ℕ → ℕ → ℕ
clamp_length node offset len =
    if ltb node.length ((offset + len) % u32_mod) then node.length - offset else len

-- The return value and the bytes that are put into `buf`.
unfoldable pub read_data : Image → ℕ → ℕ → ℕ → ℤ × List ℕ
unfolding read_bytes clamp_length
read_data fs inode_num offset len =
    if leb fs.inode_count inode_num
    then (failure, [])
    else let node = get_or fs.inodes inode_num no_inode in
      let n = clamp_length node offset len in
      if leb node.length offset
      then (pos 0, [])
      else (pos n, read_bytes fs node n (offset / bytes_per_block) (offset % bytes_per_block))
