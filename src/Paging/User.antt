-- ===== src/Paging/User.antt =====
-- The user page of a process.
use linux_like_os_project.Prelude.{
  ℕ, ◌+◌, ◌*◌, ◌≤◌, ◌<◌, ◌≡◌, ◌≢◌, ◌⊎◌, arith, ltb, ◌==◌, if◌then◌else◌,
}
use linux_like_os_project.Paging.{
  Paging, mb_base, process_page, user_addr_index, num_processes, eight_mb, four_mb,
}

-- The physical address of the 4 MB page that the user's addresses go to.
abbrev pub user_frame : Paging → ℕ
user_frame p = mb_base (p.page_directory user_addr_index) * four_mb

-- For a process number below 6, process_page maps the user's 4 MB at 128 MB to the frame at
-- 8 MB + 4 MB * process, present and open to the user; for any other number it leaves the frame and those
-- two bits. It leaves every other entry of the directory.
pub process_page_lem :
    (pid : ℕ) (p : Paging) (j : ℕ)
    → (user_frame (process_page pid p)
        ≡ (if ltb pid num_processes then eight_mb + four_mb * pid else user_frame p))
      × (((process_page pid p).page_directory user_addr_index).present
          ≡ (if ltb pid num_processes then 1 else (p.page_directory user_addr_index).present))
      × (((process_page pid p).page_directory user_addr_index).user_supervisor ≡ (
          if ltb pid num_processes then 1 else (p.page_directory user_addr_index).user_supervisor))
      × ((process_page pid p).page_directory j ≡ (
          if (j == user_addr_index)
          then (process_page pid p).page_directory user_addr_index
          else p.page_directory j))
unfolding process_page
process_page_lem pid p j = ground arith

frame :
    (pid : ℕ) (p : Paging)
    → pid < num_processes
    → user_frame (process_page pid p) ≡ eight_mb + four_mb * pid
frame pid p h = ground (arith, process_page_lem pid p 0)

-- For two different process numbers below 6, an address of the user page that process_page maps for the
-- one is at 8 MB or above, and not in the page that it maps for the other.
pub user_frames_apart :
    (pid pid' : ℕ) (p p' : Paging) (a : ℕ)
    → pid < num_processes
    → pid' < num_processes
    → user_frame (process_page pid p) ≤ a
    → a < user_frame (process_page pid p) + four_mb
    → pid ≢ pid'
    → (eight_mb ≤ a)
      × ((a < user_frame (process_page pid' p'))
          ⊎ (user_frame (process_page pid' p') + four_mb ≤ a))
user_frames_apart pid pid' p p' a h h' lo hi ne = omega (arith, frame pid p h, frame pid' p' h')
