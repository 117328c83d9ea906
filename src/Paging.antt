-- ===== src/Paging.antt =====
-- Paging: student-distrib/page.c and page.h, with process_page and the mapping of system_vidmap from
-- student-distrib/syscalls.c. The tables are functions of the index. Loading cr3 and flushing the TLB
-- are not part of the state.
pub mod Init
pub mod User
use linux_like_os_project.Prelude.{
  ℕ, zero, suc, ◌+◌, ◌*◌, ◌/◌, ◌%◌, ltb, leb, ◌==◌, if◌then◌else◌, ◌&&◌, Bool,
}

abbrev pub align : ℕ
align = 4096

abbrev pub page_size : ℕ
page_size = 1024

abbrev pub video_addr : ℕ
video_addr = 0xb8000

abbrev pub kernel_addr : ℕ
kernel_addr = 0x400000

abbrev pub user_addr_index : ℕ
user_addr_index = 32

abbrev pub eight_mb : ℕ
eight_mb = 0x800000

abbrev pub four_mb : ℕ
four_mb = 0x400000

abbrev pub num_processes : ℕ
num_processes = 6

-- `page_directory_entry_t` and `page_table_entry_t`: the flags, whose places the two members of the
-- union share, and the 20 bits from bit 12 on. `attr_idx`, which a page table entry has at bit 7, is
-- `page_size` here.
pub record Entry : Type 0 where
  pub present : ℕ
  pub read_write : ℕ
  pub user_supervisor : ℕ
  pub write_through : ℕ
  pub cache_disabled : ℕ
  pub accessed : ℕ
  pub dirty : ℕ
  pub page_size : ℕ
  pub global : ℕ
  pub avail : ℕ
  pub base_addr : ℕ

-- `mb.base_addr` is the upper ten of the 20 bits.
abbrev pub mb_base : Entry → ℕ
mb_base e = e.base_addr / 1024

abbrev pub set_mb_base : ℕ → Entry → Entry
set_mb_base b e = record e { base_addr = b % 1024 * 1024 + e.base_addr % 1024 }

abbrev pub Table : Type 0
Table = ℕ → Entry

pub record Paging : Type 0 where
  pub page_directory : Table
  pub page_table : Table
  pub vid_map : Table

-- One entry changed.
unfoldable pub change : ℕ → (Entry → Entry) → Table → Table
change i f t j = if j == i then f (t j) else t j

-- The defaults of the directory, `mb` with every field set, and of the two page tables.
abbrev pub blank_directory_entry : Entry
blank_directory_entry = record {
  present = 0;
  read_write = 1;
  user_supervisor = 0;
  write_through = 0;
  cache_disabled = 0;
  accessed = 0;
  dirty = 0;
  page_size = 1;
  global = 0;
  avail = 0;
  base_addr = 0;
}

abbrev pub blank_table_entry : ℕ → Entry
blank_table_entry i = record blank_directory_entry { page_size = 0; base_addr = i }

-- The first loop of init_page, with `n` rounds left at the index `i`.
unfoldable pub blank_directory : ℕ → ℕ → Table → Table
unfolding change
blank_directory zero i t = t
blank_directory (suc n) i t =
    blank_directory n (i + 1) (if i == 0 then t else change i (λ _. blank_directory_entry) t)

-- The second loop, for one of its two tables.
unfoldable pub blank_table : ℕ → ℕ → Table → Table
unfolding change
blank_table zero i t = t
blank_table (suc n) i t = blank_table n (i + 1) (change i (λ _. blank_table_entry i) t)

-- `table_addr` is the address of page_table.
unfoldable pub init_page : ℕ → Paging → Paging
init_page table_addr p =
    let first = record blank_directory_entry {
      present = 1;
      page_size = 0;
      base_addr = table_addr / 4096;
    } in
    let kernel = λ (e : Entry). set_mb_base (kernel_addr / 0x400000) (record e { present = 1 }) in
    let shown = λ (e : Entry). record e { present = 1 } in
    let mem = video_addr / align in
    record {
      page_directory =
          change 1 kernel (change 0 (λ _. first) (blank_directory page_size 0 p.page_directory));
      page_table = change (mem + 3) shown (
          change (mem + 2) shown
            (change (mem + 1) shown (change mem shown (blank_table page_size 0 p.page_table))));
      vid_map = blank_table page_size 0 p.vid_map;
    }

-- `process_id` is an int by its bit pattern; a negative one is out of range too.
unfoldable pub process_page : ℕ → Paging → Paging
unfolding change
process_page process_id p =
    if ltb process_id num_processes
    then record p {
      page_directory =
          change user_addr_index
            (λ e. record (set_mb_base ((eight_mb + four_mb * process_id) / 0x400000) e) {
              present = 1;
              user_supervisor = 1;
              global = 1;
            })
            p.page_directory;
    }
    else p

-- What system_vidmap sets; `map_addr` is the address of vid_map.
unfoldable pub map_video : ℕ → Paging → Paging
unfolding change
map_video map_addr p = record p {
  page_directory =
      change (user_addr_index + 1)
        (λ e. record e {
          page_size = 0;
          present = 1;
          base_addr = map_addr / 4096;
          user_supervisor = 1;
          global = 1;
        })
        p.page_directory;
  vid_map =
      change 0 (λ e. record e { present = 1; user_supervisor = 1; base_addr = video_addr / align })
        p.vid_map;
}

-- The base of vid_map[0], which the scheduler and the switch of the screen set.
unfoldable pub set_video_base : ℕ → Paging → Paging
unfolding change
set_video_base base p = record p {
  vid_map = change 0 (λ e. record e { base_addr = base }) p.vid_map;
}
