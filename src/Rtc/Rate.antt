-- ===== src/Rtc/Rate.antt =====
-- Which frequencies RTC_write accepts, and what it sets.
use linux_like_os_project.Prelude.{
  ℕ, ◌/◌, ◌≤◌, ◌≡◌, true, none, some, arith, Bool, ◌||◌, ◌==◌, if◌then◌else◌, set,
}
use linux_like_os_project.Prelude.Int.{pos, negsuc}
use linux_like_os_project.Rtc.{Rtc, rtc_lowest_rate, find_rate, rtc_write, set_rtc_frequency}

-- A power of two from 2 to 1024.
unfoldable pub is_rate : ℕ → Bool
is_rate f =
    f == 2
    || f == 4
    || f == 8
    || f == 16
    || f == 32
    || f == 64
    || f == 128
    || f == 256
    || f == 512
    || f == 1024

find_rate-is_rate :
    (freq : ℕ) → find_rate 10 rtc_lowest_rate freq ≡ (if is_rate freq then some freq else none)
unfolding find_rate is_rate
find_rate-is_rate freq = ground arith

is_rate-range : (f : ℕ) → is_rate f ≡ true → (2 ≤ f) × (f ≤ 1024)
unfolding is_rate
is_rate-range f h = ground arith

-- For a buffer of four bytes that holds `freq`: if `freq` is a power of two from 2 to 1024, RTC_write
-- returns 0 and sets the frequency to it, and the terminal's counter and its maximum to 1024 / freq,
-- and leaves the blocks; on any other `freq` it returns -1 and changes nothing.
pub rtc_write_lem :
    (curr freq : ℕ) (r : Rtc)
    → rtc_write curr (some freq) 4 r ≡ (
        if is_rate freq
        then (
          pos 0,
          record r {
            frequency = freq;
            max_counter = set r.max_counter curr (1024 / freq);
            counter = set r.counter curr (1024 / freq);
          },
        )
        else (negsuc 0, r))
unfolding rtc_write set_rtc_frequency
rtc_write_lem curr freq r = rw find_rate-is_rate (ground (arith, is_rate-range freq))
