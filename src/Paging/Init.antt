-- ===== src/Paging/Init.antt =====
-- The tables after init_page.
use linux_like_os_project.Prelude.{
  ℕ, zero, suc, ◌+◌, ◌/◌, ◌<◌, ◌≡◌, refl, ◌∙◌, arith, ltb, leb, ◌==◌, if◌then◌else◌, ◌&&◌, false,
}
use linux_like_os_project.Paging.{
  Entry, Table, Paging, change, blank_directory, blank_directory_entry, blank_table,
  blank_table_entry, init_page, page_size, mb_base,
}

change-at :
    (i : ℕ) (f : Entry → Entry) (t : Table) (j : ℕ)
    → change i f t j ≡ (if j == i then f (t j) else t j)
unfolding change
change-at i f t j = refl

blank_table-at :
    (n i : ℕ) (t : Table) (j : ℕ)
    → blank_table n i t j ≡ (if leb i j && ltb j (i + n) then blank_table_entry j else t j)
unfolding blank_table
blank_table-at zero i t j = ground arith
blank_table-at (suc n) i t j =
    blank_table-at n (i + 1) (change i (λ _. blank_table_entry i) t) j
    ∙ ground (arith, change-at i (λ _. blank_table_entry i) t j)

blank_directory-at :
    (n i : ℕ) (t : Table) (j : ℕ)
    → 0 < i
    → blank_directory n i t j ≡ (if leb i j && ltb j (i + n) then blank_directory_entry else t j)
unfolding blank_directory
blank_directory-at zero i t j h = ground arith
blank_directory-at (suc n) i t j h =
    let off : (i == 0) ≡ false = ground arith in
    rw off (
      blank_directory-at n (i + 1) (change i (λ _. blank_directory_entry) t) j (omega arith)
      ∙ ground (arith, change-at i (λ _. blank_directory_entry) t j))

blank_directory-all :
    (n : ℕ) (t : Table) (j : ℕ)
    → blank_directory (suc n) 0 t j
      ≡ (if leb 1 j && ltb j (suc n) then blank_directory_entry else t j)
unfolding blank_directory
blank_directory-all n t j = blank_directory-at n 1 t j (omega arith) ∙ ground arith

-- After init_page, for an index below 1024: the directory has the entries 0 and 1 and no other; entry 0
-- is the page table at `table_addr`, in 4 kB pages, and entry 1 one 4 MB page, the kernel's at 4 MB,
-- which users cannot reach; the page table maps each page to the frame of its own number, and only the
-- video page and the three pages behind it are there; and nothing of vid_map is there.
pub init_page_lem :
    (table_addr : ℕ) (p : Paging) (j : ℕ)
    → j < page_size
    → let q = init_page table_addr p in
      ((q.page_directory j).present ≡ (if ltb j 2 then 1 else 0))
      × ((q.page_directory j).user_supervisor ≡ 0)
      × ((q.page_directory j).page_size ≡ (if j == 0 then 0 else 1))
      × ((q.page_directory 0).base_addr ≡ table_addr / 4096)
      × (mb_base (q.page_directory 1) ≡ 1)
      × ((q.page_table j).base_addr ≡ j)
      × ((q.page_table j).present ≡ (if leb 0xb8 j && leb j 0xbb then 1 else 0))
      × ((q.vid_map j).present ≡ 0)
unfolding init_page change
init_page_lem table_addr p j h = ground (
  arith,
  blank_directory-all 1023 p.page_directory j,
  blank_directory-all 1023 p.page_directory 1,
  blank_table-at 1024 0 p.page_table j,
  blank_table-at 1024 0 p.vid_map j,
)
