-- ===== src/Tests/Devices.antt =====
-- Tests of the clock, the interrupt controller, the keyboard and the paging.
use linux_like_os_project.Prelude.{
  [], ◌∷◌, ◌≡◌, ◌<◌, ◌≤◌, ◌*◌, ◌+◌, ◌/◌, ◌⊎◌, refl, arith, some, set, if◌then◌else◌,
}
use linux_like_os_project.Prelude.Int.{pos, negsuc}
use linux_like_os_project.Rtc.{Rtc, rtc_read, rtc_write, start_wait}
use linux_like_os_project.Rtc.Wait.{IsRtc, ticks, rtc_read_lem}
use linux_like_os_project.Rtc.Rate.{is_rate, rtc_write_lem}
use linux_like_os_project.Pic.{Pic}
use linux_like_os_project.Pic.Mask.{IsPic}
use linux_like_os_project.Keyboard.{Keyboard, printed_char, switch_screen}
use linux_like_os_project.Keyboard.Switch.{switch_back}
use linux_like_os_project.Keyboard.Modifiers.{IsFlags}
use linux_like_os_project.Keyboard.Letters.{is_lower, capital, printed_char_lem}
use linux_like_os_project.Keyboard.Tables.{default_scan_code_data}
use linux_like_os_project.Paging.{
  Entry, Paging, init_page, process_page, eight_mb, four_mb, mb_base, user_addr_index,
}
use linux_like_os_project.Paging.Init.{init_page_lem}
use linux_like_os_project.Paging.User.{user_frame, process_page_lem, user_frames_apart}
use linux_like_os_project.Tests.{sample_console}

abbrev pub sample_rtc : Rtc
sample_rtc = record {
  frequency = 512;
  max_counter = 2 ∷ 1 ∷ 1 ∷ [];
  block = 0 ∷ 0 ∷ 0 ∷ [];
  counter = 2 ∷ 1 ∷ 1 ∷ [];
}

sample-IsRtc : IsRtc sample_rtc
sample-IsRtc = record { max_counters = refl; blocks = refl; counters = refl }

rtc_read_lem_example : rtc_read 0 5 sample_rtc ≡ some (ticks 3 (start_wait 0 sample_rtc))
rtc_read_lem_example = rtc_read_lem 0 5 sample_rtc (omega arith) sample-IsRtc

rtc_write_lem_example : rtc_write 1 (some 256) 4 sample_rtc ≡ (
    if is_rate 256
    then (
      pos 0,
      record sample_rtc {
        frequency = 256;
        max_counter = set (2 ∷ 1 ∷ 1 ∷ []) 1 (1024 / 256);
        counter = set (2 ∷ 1 ∷ 1 ∷ []) 1 (1024 / 256);
      },
    )
    else (negsuc 0, sample_rtc))
rtc_write_lem_example = rtc_write_lem 1 256 sample_rtc

abbrev pub sample_pic : Pic
sample_pic = record { master_mask = 0xfb; slave_mask = 0xff; sent = [] }

sample-IsPic : IsPic sample_pic
sample-IsPic = record { master_byte = omega arith; slave_byte = omega arith }

abbrev sample_keyboard : Keyboard
sample_keyboard = record {
  shift_held = 1;
  caps_locked_activated = 0;
  caps_lock_held = 0;
  ctrl_held = 0;
  alt_held = 0;
  console = sample_console;
  vid_map_base = 0xb8;
}

sample-IsFlags : IsFlags sample_keyboard
sample-IsFlags = record { activated = omega arith; held = omega arith }

printed_char_lem_example : printed_char 0 16 sample_keyboard ≡ 81
unfolding is_lower default_scan_code_data capital
printed_char_lem_example =
    printed_char_lem 0 16 sample_keyboard (omega arith) (omega arith) (omega arith)

abbrev pub sample_entry : Entry
sample_entry = record {
  present = 0;
  read_write = 0;
  user_supervisor = 0;
  write_through = 0;
  cache_disabled = 0;
  accessed = 0;
  dirty = 0;
  page_size = 0;
  global = 0;
  avail = 0;
  base_addr = 0;
}

abbrev pub sample_paging : Paging
sample_paging = record {
  page_directory = λ i. sample_entry;
  page_table = λ i. sample_entry;
  vid_map = λ i. sample_entry;
}

init_page_lem_example :
    let q = init_page 0x400000 sample_paging in
    ((q.page_directory 2).present ≡ 0)
    × ((q.page_directory 2).user_supervisor ≡ 0)
    × ((q.page_directory 2).page_size ≡ 1)
    × ((q.page_directory 0).base_addr ≡ 0x400000 / 4096)
    × (mb_base (q.page_directory 1) ≡ 1)
    × ((q.page_table 2).base_addr ≡ 2)
    × ((q.page_table 2).present ≡ 0)
    × ((q.vid_map 2).present ≡ 0)
init_page_lem_example = init_page_lem 0x400000 sample_paging 2 (omega arith)

process_page_lem_example :
    (user_frame (process_page 3 sample_paging) ≡ eight_mb + four_mb * 3)
    × (((process_page 3 sample_paging).page_directory user_addr_index).present ≡ 1)
    × (((process_page 3 sample_paging).page_directory user_addr_index).user_supervisor ≡ 1)
    × ((process_page 3 sample_paging).page_directory 0 ≡ sample_entry)
process_page_lem_example = process_page_lem 3 sample_paging 0

user_frames_apart_example :
    (eight_mb ≤ 0x800000)
    × ((0x800000 < user_frame (process_page 1 sample_paging))
        ⊎ (user_frame (process_page 1 sample_paging) + four_mb ≤ 0x800000))
user_frames_apart_example =
    user_frames_apart 0 1 sample_paging sample_paging 0x800000 (omega arith) (omega arith)
      (omega (arith, (process_page_lem 0 sample_paging 0).0))
      (omega (arith, (process_page_lem 0 sample_paging 0).0)) (omega arith)

-- From terminal 0 to 2 and back, on the screen.
switch_back_example :
    let k' = switch_screen 0 (switch_screen 2 sample_keyboard) in
    (k'.console.screen_terminal ≡ 0)
    × (k'.console.terminal_array ≡ sample_keyboard.console.terminal_array)
    × (k'.console.curr_terminal ≡ sample_keyboard.console.curr_terminal)
    × (k'.console.video 0xb8010 ≡ sample_keyboard.console.video 0xb8010)
switch_back_example = switch_back 2 sample_keyboard 0xb8010
