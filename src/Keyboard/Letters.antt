-- ===== src/Keyboard/Letters.antt =====
-- Which character a key gives under SHIFT and CAPS LOCK.
use linux_like_os_project.Prelude.{
  ℕ, ◌-◌, ◌<◌, ◌≡◌, refl, arith, leb, ◌==◌, if◌then◌else◌, ◌&&◌, ◌||◌, not, true, false, Bool,
}
use linux_like_os_project.Prelude.Table.{every, every_lem}
use linux_like_os_project.Keyboard.{Keyboard, printed_char, scan_code_map_size}
use linux_like_os_project.Keyboard.Tables.{
  default_scan_code_data, caps_lock_scan_data, shift_key_scan_data, shift_and_caps_data,
}

unfoldable pub is_lower : ℕ → Bool
is_lower ch = leb 97 ch && leb ch 122

-- The capital of a small letter, and any other character itself.
unfoldable pub capital : ℕ → ℕ
capital ch = if is_lower ch then ch - 32 else ch

-- How the four tables agree on one key.
abbrev table_fact : ℕ → Bool
table_fact r =
    (caps_lock_scan_data r == capital (default_scan_code_data r))
    && ((not (is_lower (default_scan_code_data r))
          || (shift_key_scan_data r == capital (default_scan_code_data r)))
        && ((not (is_lower (default_scan_code_data r))
              || (shift_and_caps_data r == default_scan_code_data r))
            && (is_lower (default_scan_code_data r)
                || (shift_key_scan_data r == shift_and_caps_data r))))

tables_agree : every scan_code_map_size table_fact ≡ true
unfolding every caps_lock_scan_data default_scan_code_data shift_key_scan_data shift_and_caps_data
    capital is_lower
tables_agree = refl

capital_other : (ch : ℕ) → is_lower ch ≡ false → capital ch ≡ ch
unfolding capital
capital_other ch h = rw h

-- For a scan code in the tables, with both flags 0 or 1, and `lower` the character that the key gives alone: if that is a small
-- letter, the key gives the capital when exactly one of SHIFT and CAPS LOCK is on, and the small letter
-- otherwise; for any other key CAPS LOCK makes no difference.
pub printed_char_lem :
    (unset r : ℕ) (k : Keyboard)
    → r < scan_code_map_size
    → k.shift_held < 2
    → k.caps_locked_activated < 2
    → let lower = default_scan_code_data r in
      printed_char unset r k ≡ (
        if is_lower lower
        then (if k.shift_held == k.caps_locked_activated then lower else capital lower)
        else (if k.shift_held == 0 then lower else shift_key_scan_data r))
unfolding printed_char
printed_char_lem unset r k h s c = ground (
  arith,
  every_lem scan_code_map_size table_fact r tables_agree h,
  capital_other (default_scan_code_data r),
)
