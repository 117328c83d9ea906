-- ===== src/Rtc/Wait.antt =====
-- How many interrupts RTC_read waits for.
use linux_like_os_project.Prelude.{
  ℕ, zero, suc, ◌-◌, ◌<◌, ◌≡◌, ◌≢◌, refl, ◌∙◌, none, some, arith, ◌==◌, if◌then◌else◌, get_or, set,
  length, length-set, get_or-set, ltb, ◌&&◌,
}
use linux_like_os_project.Rtc.{
  Rtc, tick_terminal, rtc_handler, start_wait, wait_loop, rtc_read, max_terminals,
}

-- The arrays have an element for each terminal.
pub record IsRtc (r : Rtc) : Type 0 where
  pub max_counters : length r.max_counter ≡ max_terminals
  pub blocks : length r.block ≡ max_terminals
  pub counters : length r.counter ≡ max_terminals

-- One round of the handler's loop, as the terminal `j` sees it.
record Ticked (i j : ℕ) (r : Rtc) : Type 0 where
  valid : IsRtc (tick_terminal i r)
  maxima : (tick_terminal i r).max_counter ≡ r.max_counter
  counted : get_or (tick_terminal i r).counter j 0 ≡ (
      if i == j
      then (if get_or r.counter j 0 == 0
          then get_or r.max_counter j 0
          else get_or r.counter j 0 - 1)
      else get_or r.counter j 0)
  blocked :
      get_or (tick_terminal i r).block j 0
      ≡ (if (i == j) && (get_or r.counter j 0 == 0) then 0 else get_or r.block j 0)

tick_terminal-Ticked : (i j : ℕ) (r : Rtc) → i < max_terminals → IsRtc r → Ticked i j r
unfolding tick_terminal
tick_terminal-Ticked i j r h v = ground (
  arith,
  length-set r.counter i (get_or r.max_counter i 0),
  length-set r.counter i (get_or r.counter i 0 - 1),
  length-set r.block i 0,
  get_or-set r.counter i j (get_or r.max_counter i 0) 0,
  get_or-set r.counter i j (get_or r.counter i 0 - 1) 0,
  get_or-set r.block i j 0 0,
)

-- One interrupt, as a terminal sees it.
record Handled (j : ℕ) (r : Rtc) : Type 0 where
  valid : IsRtc (rtc_handler r)
  maxima : (rtc_handler r).max_counter ≡ r.max_counter
  counted :
      get_or (rtc_handler r).counter j 0
      ≡ (if get_or r.counter j 0 == 0 then get_or r.max_counter j 0 else get_or r.counter j 0 - 1)
  blocked :
      get_or (rtc_handler r).block j 0
      ≡ (if get_or r.counter j 0 == 0 then 0 else get_or r.block j 0)

rtc_handler-Handled : (j : ℕ) (r : Rtc) → j < max_terminals → IsRtc r → Handled j r
unfolding rtc_handler
rtc_handler-Handled j r h v =
    let r1 = tick_terminal 0 r in
    let r2 = tick_terminal 1 r1 in
    let t0 = tick_terminal-Ticked 0 j r (omega arith) v in
    let t1 = tick_terminal-Ticked 1 j r1 (omega arith) t0.valid in
    let t2 = tick_terminal-Ticked 2 j r2 (omega arith) t1.valid in ground arith

-- `n` interrupts.
unfoldable pub ticks : ℕ → Rtc → Rtc
ticks zero r = r
ticks (suc n) r = ticks n (rtc_handler r)

wait_loop_done : (curr f : ℕ) (r : Rtc) → get_or r.block curr 0 ≡ 0 → wait_loop curr f r ≡ some r
unfolding wait_loop
wait_loop_done curr zero r h = ground arith
wait_loop_done curr (suc f) r h = ground arith

-- A look that finds the block still set goes on after an interrupt.
wait_loop_blocked :
    (curr f : ℕ) (r : Rtc)
    → get_or r.block curr 0 ≢ 0
    → wait_loop curr (suc f) r ≡ wait_loop curr f (rtc_handler r)
unfolding wait_loop
wait_loop_blocked curr f r b = ground arith

wait_loop_starved :
    (curr k : ℕ) (r : Rtc)
    → get_or r.block curr 0 ≢ 0
    → wait_loop curr zero r ≡ (if ltb k zero then some (ticks (suc k) r) else none)
unfolding wait_loop
wait_loop_starved curr k r b = ground arith

wait_loop_last :
    (curr f : ℕ) (r : Rtc)
    → curr < max_terminals
    → IsRtc r
    → get_or r.counter curr 0 ≡ 0
    → wait_loop curr f (rtc_handler r) ≡ some (rtc_handler r)
wait_loop_last curr f r h v e =
    wait_loop_done curr f (rtc_handler r) (ground (arith, rtc_handler-Handled curr r h v))

ticks-suc : (n : ℕ) (r : Rtc) → ticks (suc n) r ≡ ticks n (rtc_handler r)
unfolding ticks
ticks-suc n r = refl

ticks-zero : (r : Rtc) → ticks zero r ≡ r
unfolding ticks
ticks-zero r = refl

wait_loop_lem :
    (curr k f : ℕ) (r : Rtc)
    → curr < max_terminals
    → IsRtc r
    → get_or r.counter curr 0 ≡ k
    → get_or r.block curr 0 ≢ 0
    → wait_loop curr f r ≡ (if ltb k f then some (ticks (suc k) r) else none)
wait_loop_lem curr k zero r h v e b = wait_loop_starved curr k r b
wait_loop_lem curr zero (suc f) r h v e b =
    rw (wait_loop_blocked curr f r b, wait_loop_last curr f r h v e, ticks-suc, ticks-zero)
      (ground arith)
wait_loop_lem curr (suc k) (suc f) r h v e b =
    let s = rtc_handler-Handled curr r h v in
    rw (wait_loop_blocked curr f r b, ticks-suc)
      (wait_loop_lem curr k f (rtc_handler r) h s.valid (ground arith) (ground arith)
        ∙ ground arith)

start_wait-IsRtc : (curr : ℕ) (r : Rtc) → IsRtc r → IsRtc (start_wait curr r)
unfolding start_wait
start_wait-IsRtc curr r v =
    ground
      (arith, length-set r.counter curr (get_or r.max_counter curr 0), length-set r.block curr 1)

-- RTC_read by one of the three terminals, with arrays of three elements: it returns after exactly one interrupt more
-- than the terminal's maximum, in the state that those interrupts lead to, and not before.
pub rtc_read_lem :
    (curr f : ℕ) (r : Rtc)
    → curr < max_terminals
    → IsRtc r
    → rtc_read curr f r ≡ (
        if ltb (get_or r.max_counter curr 0) f
        then some (ticks (suc (get_or r.max_counter curr 0)) (start_wait curr r))
        else none)
unfolding rtc_read
rtc_read_lem curr f r h v =
    wait_loop_lem curr (get_or r.max_counter curr 0) f (start_wait curr r) h
      (start_wait-IsRtc curr r v) (unfold start_wait in ground (arith, started))
      (unfold start_wait in ground (arith, set_one))
  where
    started :
        get_or (set r.counter curr (get_or r.max_counter curr 0)) curr 0
        ≡ get_or r.max_counter curr 0
    started = ground (arith, get_or-set r.counter curr curr (get_or r.max_counter curr 0) 0)

    set_one : get_or (set r.block curr 1) curr 0 ≡ 1
    set_one = ground (arith, get_or-set r.block curr curr 1 0)
