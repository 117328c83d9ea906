-- ===== src/Kernel/Vidmap.antt =====
-- system_vidmap, system_set_handler and system_sigreturn of student-distrib/syscalls.c.
use linux_like_os_project.Prelude.{
  ℕ, ◌+◌, ◌*◌, ◌/◌, ◌%◌, ◌<◌, ◌≤◌, ◌≡◌, ◌≢◌, ◌⊎◌, refl, Option, none, some, leb, ◌==◌, ◌&&◌, ◌||◌,
  not, if◌then◌else◌, true, false, arith,
}
use linux_like_os_project.Prelude.Int.{ℤ, pos}
use linux_like_os_project.FileSys.{failure}
use linux_like_os_project.Console.{video_addr}
use linux_like_os_project.Paging.{Paging, four_mb, change, map_video, user_addr_index, align}
use linux_like_os_project.Kernel.{Kernel}

abbrev pub one_twenty_eight_mb : ℕ
one_twenty_eight_mb = four_mb * 32

abbrev pub one_thirty_two_mb : ℕ
one_thirty_two_mb = one_twenty_eight_mb + four_mb

-- What a call gives: its value, the word that it stores at an address, if any, and the kernel.
pub record Mapped : Type 0 where
  pub value : ℤ
  pub stored : Option (ℕ × ℕ)
  pub kernel : Kernel

-- `screen_start` is the address passed, and `map_addr` the address of vid_map.
unfoldable pub system_vidmap : ℕ → ℕ → Kernel → Mapped
system_vidmap map_addr screen_start k =
    if (screen_start == 0)
      || not (leb one_twenty_eight_mb screen_start && leb screen_start one_thirty_two_mb)
    then record { value = failure; stored = none; kernel = k }
    else record {
      value = pos 0;
      stored = some (screen_start, one_twenty_eight_mb + four_mb);
      kernel = record k { paging = map_video map_addr k.paging };
    }

-- Both return -1.
unfoldable pub system_set_handler : ℕ → ℕ → Kernel → ℤ × Kernel
system_set_handler signum handler_access k = (failure, k)

unfoldable pub system_sigreturn : Kernel → ℤ × Kernel
system_sigreturn k = (failure, k)

-- Where a user's access at a virtual address in the 4 MB behind its page ends, by the directory and
-- vid_map, if vid_map stands where the directory's entry leads: the physical address.
unfoldable pub video_walk : ℕ → Paging → ℕ → Option ℕ
video_walk map_addr p a =
    let d = p.page_directory (a / four_mb) in
    let t = p.vid_map (a / align % 1024) in
    if ((d.present == 1) && (d.user_supervisor == 1))
      && (((d.page_size == 0) && (d.base_addr * align == map_addr))
          && ((t.present == 1) && (t.user_supervisor == 1)))
    then some (t.base_addr * align + a % align)
    else none

accepted :
    (screen_start : ℕ)
    → one_twenty_eight_mb ≤ screen_start
    → screen_start ≤ one_thirty_two_mb
    → ((screen_start == 0)
        || not (leb one_twenty_eight_mb screen_start && leb screen_start one_thirty_two_mb))
      ≡ false
accepted screen_start low high = ground (arith, low, high)

map_video-walk :
    (map_addr i : ℕ) (p : Paging)
    → map_addr % align ≡ 0
    → i < align
    → video_walk map_addr (map_video map_addr p) (one_thirty_two_mb + i) ≡ some (video_addr + i)
unfolding video_walk map_video change
map_video-walk map_addr i p h l =
    let d : (one_thirty_two_mb + i) / four_mb ≡ user_addr_index + 1 = omega (arith, l) in
    let t : (one_thirty_two_mb + i) / align % 1024 ≡ 0 = omega (arith, l) in
    let back : map_addr / 4096 * align ≡ map_addr = omega (arith, h) in
    let rest : (one_thirty_two_mb + i) % align ≡ i = omega (arith, l) in
    rw (d, t, back, rest) (ground arith)

map_video-others :
    (map_addr j : ℕ) (p : Paging)
    → j ≢ user_addr_index + 1
    → (map_video map_addr p).page_directory j ≡ p.page_directory j
unfolding map_video change
map_video-others map_addr j p h =
    let other : (j == user_addr_index + 1) ≡ false = ground (arith, h) in rw other refl

-- system_vidmap, with vid_map at the start of a page and an address in the user's 4 MB: the call gives 0
-- and stores 132 MB at the address; a user's access to the page there ends in video memory, at the same
-- place of its page; and every other entry of the directory is unchanged.
pub system_vidmap_lem :
    (map_addr screen_start i j : ℕ) (k : Kernel)
    → map_addr % align ≡ 0
    → one_twenty_eight_mb ≤ screen_start
    → screen_start ≤ one_thirty_two_mb
    → i < align
    → j ≢ user_addr_index + 1
    → let r = system_vidmap map_addr screen_start k in
      (r.value ≡ pos 0)
      × (r.stored ≡ some (screen_start, one_thirty_two_mb))
      × (video_walk map_addr r.kernel.paging (one_thirty_two_mb + i) ≡ some (video_addr + i))
      × (r.kernel.paging.page_directory j ≡ k.paging.page_directory j)
unfolding system_vidmap
system_vidmap_lem map_addr screen_start i j k h low high l other =
    rw (accepted screen_start low high) (
      refl,
      refl,
      map_video-walk map_addr i k.paging h l,
      map_video-others map_addr j k.paging other,
    )

-- An address that is outside is refused, and nothing changes.
pub system_vidmap-refused :
    (map_addr screen_start : ℕ) (k : Kernel)
    → (screen_start < one_twenty_eight_mb) ⊎ (one_thirty_two_mb < screen_start)
    → system_vidmap map_addr screen_start k ≡ record { value = failure; stored = none; kernel = k }
unfolding system_vidmap
system_vidmap-refused map_addr screen_start k h =
    let outside : ((screen_start == 0)
          || not (leb one_twenty_eight_mb screen_start && leb screen_start one_thirty_two_mb))
        ≡ true =
      ground (arith, h) in
    rw outside refl
