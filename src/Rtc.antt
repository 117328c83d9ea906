-- ===== src/Rtc.antt =====
-- The virtualised real-time clock of student-distrib/rtc.c: each of the three terminals has a rate of
-- its own, kept by counting the interrupts of the one device.
pub mod Rate
pub mod Wait
use linux_like_os_project.Prelude.{
  ℕ, zero, suc, ◌+◌, ◌-◌, ◌/◌, ◌^◌, List, [], ◌∷◌, Option, none, some, ltb, leb, ◌==◌,
  if◌then◌else◌, ◌&&◌, get_or, set, Bool, true, false,
}
use linux_like_os_project.Prelude.Int.{ℤ, pos, negsuc}

abbrev pub max_terminals : ℕ
max_terminals = 3

abbrev pub rtc_max_frequency : ℕ
rtc_max_frequency = 32768

abbrev pub rtc_max_usable_frequency : ℕ
rtc_max_usable_frequency = 1024

abbrev pub rtc_min_frequency : ℕ
rtc_min_frequency = 2

abbrev pub rtc_lowest_rate : ℕ
rtc_lowest_rate = 6

-- The globals of rtc.c. The arrays have an element for each terminal.
pub record Rtc : Type 0 where
  pub frequency : ℕ
  pub max_counter : List ℕ
  pub block : List ℕ
  pub counter : List ℕ

-- The loop of init_RTC that sets the arrays; the device's registers are not part of the state.
unfoldable pub init_rtc : Rtc → Rtc
init_rtc r = record r {
  max_counter = 1 ∷ 1 ∷ 1 ∷ [];
  block = 0 ∷ 0 ∷ 0 ∷ [];
  counter = 1 ∷ 1 ∷ 1 ∷ [];
}

-- `curr` is `curr_terminal`.
unfoldable pub set_rtc_frequency : ℕ → ℕ → Rtc → Rtc
set_rtc_frequency curr freq r =
    if leb rtc_min_frequency freq && leb freq rtc_max_usable_frequency
    then record r {
      frequency = freq;
      max_counter = set r.max_counter curr (rtc_max_usable_frequency / freq);
      counter = set r.counter curr (rtc_max_usable_frequency / freq);
    }
    else r

-- One round of the loop of RTC_handler.
unfoldable pub tick_terminal : ℕ → Rtc → Rtc
tick_terminal i r =
    if get_or r.counter i 0 == 0
    then record r { block = set r.block i 0; counter = set r.counter i (get_or r.max_counter i 0) }
    else record r { counter = set r.counter i (get_or r.counter i 0 - 1) }

unfoldable pub rtc_handler : Rtc → Rtc
unfolding tick_terminal
rtc_handler r = tick_terminal 2 (tick_terminal 1 (tick_terminal 0 r))

unfoldable pub rtc_open : ℕ → Rtc → ℤ × Rtc
unfolding set_rtc_frequency
rtc_open curr r = (pos 0, set_rtc_frequency curr rtc_min_frequency r)

unfoldable pub rtc_close : Rtc → ℤ × Rtc
rtc_close r = (pos 0, r)

-- What RTC_read does before its loop.
unfoldable pub start_wait : ℕ → Rtc → Rtc
start_wait curr r = record r {
  counter = set r.counter curr (get_or r.max_counter curr 0);
  block = set r.block curr 1;
}

-- The loop of RTC_read, which watches the block of its terminal. Between two looks the handler runs
-- once; the fuel bounds those runs, and `none` says that the loop still waits when it is used up.
unfoldable pub wait_loop : ℕ → ℕ → Rtc → Option Rtc
unfolding rtc_handler
wait_loop curr zero r = if get_or r.block curr 0 == 0 then some r else none
wait_loop curr (suc f) r =
    let rest = wait_loop curr f (rtc_handler r) in
    if get_or r.block curr 0 == 0 then some r else rest

unfoldable pub rtc_read : ℕ → ℕ → Rtc → Option Rtc
unfolding start_wait wait_loop
rtc_read curr fuel r = wait_loop curr fuel (start_wait curr r)

-- The loop of RTC_write over the rates from `i` on, `n` of them left: the first rate with the
-- frequency.
unfoldable pub find_rate : ℕ → ℕ → ℕ → Option ℕ
find_rate zero i freq = none
find_rate (suc n) i freq =
    let rest = find_rate n (i + 1) freq in
    if freq == rtc_max_frequency / 2 ^ (i - 1) then some (rtc_max_frequency / 2 ^ (i - 1)) else rest

-- `buffer` is `none` for a null pointer, and otherwise the `unsigned int` that it points to.
unfoldable pub rtc_write : ℕ → Option ℕ → ℕ → Rtc → ℤ × Rtc
unfolding find_rate set_rtc_frequency
rtc_write curr buffer nbytes r =
    if nbytes == 4
    then (elim buffer [
      | none ↦ (negsuc 0, r)
      | some freq ↦ (elim (find_rate 10 rtc_lowest_rate freq) [
        | none ↦ (negsuc 0, r)
        | some f ↦ (pos 0, set_rtc_frequency curr f r)
      ])
    ])
    else (negsuc 0, r)
