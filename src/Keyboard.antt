-- ===== src/Keyboard.antt =====
-- The keyboard driver of student-distrib/keyboard.c: the modifier keys, the mapping of scan codes and
-- the switch of the shown terminal. `none` is that of the line editor.
pub mod Tables
pub mod Modifiers
pub mod Kept
pub mod Switch
pub mod Letters
use linux_like_os_project.Prelude.{
  ℕ, zero, suc, ◌+◌, ◌*◌, ◌/◌, Option, none, some, ltb, leb, ◌==◌, if◌then◌else◌, ◌&&◌, ◌||◌, not,
  Memory, store, true, false,
}
use linux_like_os_project.Console.{Console, move_cursor, video_addr}
use linux_like_os_project.Pic.{Pic, enable_irq}
use linux_like_os_project.LineEdit.{edit_buffer, ctl_l_cmd, backspace_pressed, enter_key}
use Tables.{default_scan_code_data, caps_lock_scan_data, shift_key_scan_data, shift_and_caps_data}

abbrev pub scan_code_map_size : ℕ
scan_code_map_size = 59

abbrev pub caps_lock_pressed : ℕ
caps_lock_pressed = 0x3a

abbrev pub caps_lock_released : ℕ
caps_lock_released = 0xba

abbrev pub left_shift_pressed : ℕ
left_shift_pressed = 0x2a

abbrev pub right_shift_pressed : ℕ
right_shift_pressed = 0x36

abbrev pub left_shift_released : ℕ
left_shift_released = 0xaa

abbrev pub right_shift_released : ℕ
right_shift_released = 0xb6

abbrev pub left_ctl_pressed : ℕ
left_ctl_pressed = 0x1d

abbrev pub left_ctl_released : ℕ
left_ctl_released = 0x9d

abbrev pub alt_pressed : ℕ
alt_pressed = 0x38

abbrev pub alt_released : ℕ
alt_released = 0xb8

abbrev pub tab_pressed : ℕ
tab_pressed = 0x0f

-- The flags of keyboard.c, the console, and the base of `vid_map[0]`, a page number.
pub record Keyboard : Type 0 where
  pub shift_held : ℕ
  pub caps_locked_activated : ℕ
  pub caps_lock_held : ℕ
  pub ctrl_held : ℕ
  pub alt_held : ℕ
  pub console : Console
  pub vid_map_base : ℕ

-- The three tests of caps_lock_handler, one after the other.
unfoldable pub caps_lock_on : ℕ → Keyboard → Keyboard
caps_lock_on response k =
    if (response == caps_lock_pressed)
      && ((k.caps_lock_held == 0) && (k.caps_locked_activated == 0))
    then record k { caps_lock_held = 1; caps_locked_activated = 1 }
    else k

unfoldable pub caps_lock_off : ℕ → Keyboard → Keyboard
caps_lock_off response k =
    if (response == caps_lock_pressed)
      && ((k.caps_locked_activated == 1) && (k.caps_lock_held == 0))
    then record k { caps_locked_activated = 0; caps_lock_held = 1 }
    else k

unfoldable pub caps_lock_handler : ℕ → Keyboard → Keyboard
unfolding caps_lock_on caps_lock_off
caps_lock_handler response k =
    let k' = caps_lock_off response (caps_lock_on response k) in
    if response == caps_lock_released then record k' { caps_lock_held = 0 } else k'

unfoldable pub shift_key_handler : ℕ → Keyboard → Keyboard
shift_key_handler response k =
    let k' =
      if (response == left_shift_pressed) || (response == right_shift_pressed)
      then record k { shift_held = 1 }
      else k in
    if (response == right_shift_released) || (response == left_shift_released)
    then record k' { shift_held = 0 }
    else k'

-- An edit of the shown terminal's line.
unfoldable pub edit : ℕ → Keyboard → Option Keyboard
edit response k = elim (edit_buffer response k.console) [
  | none ↦ none
  | some c ↦ some (record k { console = c })
]

unfoldable pub ctrl_key_handler : ℕ → Keyboard → Option Keyboard
ctrl_key_handler response k =
    let k1 = if response == left_ctl_pressed then record k { ctrl_held = 1 } else k in
    let k2 = if response == left_ctl_released then record k1 { ctrl_held = 0 } else k1 in
    if (response == 108) || (response == 76) then edit ctl_l_cmd k2 else some k2

-- memcpy of `n` bytes between pages that do not overlap, from the offset `i` on.
unfoldable pub copy_bytes : ℕ → ℕ → ℕ → ℕ → Memory → Memory
copy_bytes zero i dest src m = m
copy_bytes (suc n) i dest src m = copy_bytes n (i + 1) dest src (store (dest + i) (m (src + i)) m)

unfoldable pub switch_screen : ℕ → Keyboard → Keyboard
unfolding copy_bytes
switch_screen new_terminal k =
    let c = k.console in
    let saved =
      copy_bytes 4096 0 (video_addr + (c.screen_terminal + 1) * 4096) video_addr c.video in
    let loaded = copy_bytes 4096 0 video_addr (video_addr + (new_terminal + 1) * 4096) saved in
    record k {
      vid_map_base = video_addr / 4096 + (c.screen_terminal + 1);
      console =
          move_cursor
            (record c { video = loaded; terminal_flag = 0; screen_terminal = new_terminal });
    }

unfoldable pub alt_key_handler : ℕ → Keyboard → Keyboard
alt_key_handler response k =
    let k1 =
      if (response == alt_pressed) && (k.alt_held == 0) then record k { alt_held = 1 } else k in
    let k2 =
      if (response == alt_released) && (k1.alt_held == 1) then record k1 { alt_held = 0 } else k1 in
    let k3 = if response == 0xbb then switch_screen 0 k2 else k2 in
    let k4 = if response == 0xbc then switch_screen 1 k3 else k3 in
    if response == 0xbd then switch_screen 2 k4 else k4

-- `printed_char`; `unset` is what stands in the variable where no branch assigns it.
unfoldable pub printed_char : ℕ → ℕ → Keyboard → ℕ
printed_char unset response k =
    if leb scan_code_map_size response
    then unset
    else (if (k.caps_locked_activated == 1) && (k.shift_held == 0)
        then caps_lock_scan_data response
        else (if (k.shift_held == 1) && (k.caps_locked_activated == 0)
            then shift_key_scan_data response
            else (if not (k.shift_held == 0) && not (k.caps_locked_activated == 0)
                then shift_and_caps_data response
                else default_scan_code_data response)))

unfoldable pub typing_handler : ℕ → ℕ → Keyboard → Option Keyboard
typing_handler unset response k =
    if k.ctrl_held == 1
    then ctrl_key_handler (printed_char unset response k) k
    else (if k.alt_held == 1
        then some (alt_key_handler response k)
        else (if printed_char unset response k == 0
            then some k
            else edit (printed_char unset response k) k))

-- Four spaces.
unfoldable pub tab_key_handler : Keyboard → Option Keyboard
tab_key_handler k = elim (edit 32 k) [
  | none ↦ none
  | some k1 ↦ elim (edit 32 k1) [
    | none ↦ none
    | some k2 ↦ elim (edit 32 k2) [ none ↦ none | some k3 ↦ edit 32 k3 ]
  ]
]

-- The switch of keyboard_handler; `response` is the byte from the data port.
unfoldable pub keyboard_handler : ℕ → ℕ → Keyboard → Option Keyboard
keyboard_handler unset response k =
    if (response == caps_lock_pressed) || (response == caps_lock_released)
    then some (caps_lock_handler response k)
    else (if (response == left_shift_pressed)
          || ((response == right_shift_pressed)
              || ((response == left_shift_released) || (response == right_shift_released)))
        then some (shift_key_handler response k)
        else (if (response == left_ctl_pressed) || (response == left_ctl_released)
            then ctrl_key_handler response k
            else (if response == backspace_pressed
                then edit backspace_pressed k
                else (if response == enter_key
                    then edit enter_key k
                    else (if response == tab_pressed
                        then tab_key_handler k
                        else (if (response == alt_pressed) || (response == alt_released)
                            then some (alt_key_handler response k)
                            else typing_handler unset response k))))))

abbrev pub keyboard_irq : ℕ
keyboard_irq = 1

unfoldable pub init_ps2devices : Pic → Console → Pic × Console
unfolding enable_irq
init_ps2devices p c = (enable_irq keyboard_irq p, record c { display_on_main_page = 0 })
