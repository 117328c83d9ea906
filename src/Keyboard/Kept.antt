-- ===== src/Keyboard/Kept.antt =====
-- What keyboard_handler of student-distrib/keyboard.c leaves of the terminals, whatever the scan code.
use linux_like_os_project.Prelude.{
  ℕ, ◌<◌, ◌≡◌, refl, Option, none, some, ◌==◌, ◌&&◌, ◌||◌, if◌then◌else◌, inl, inr, Bool-cases,
  arith, Bool, true, false,
}
use linux_like_os_project.Console.{Console, max_terminals, move_cursor}
use linux_like_os_project.Console.Cursor.{IsConsole}
use linux_like_os_project.Console.Output.{Stays, Stays-refl, Stays-trans, Prints-Stays}
use linux_like_os_project.LineEdit.{edit_buffer, ctl_l_cmd, backspace_pressed, enter_key}
use linux_like_os_project.LineEdit.Kept.{Kept, edit_buffer-Kept}
use linux_like_os_project.Keyboard.{
  Keyboard, caps_lock_on, caps_lock_off, caps_lock_handler, shift_key_handler, edit,
  ctrl_key_handler, switch_screen, alt_key_handler, typing_handler, tab_key_handler,
  keyboard_handler, printed_char, caps_lock_pressed, caps_lock_released, left_shift_pressed,
  right_shift_pressed, left_shift_released, right_shift_released, left_ctl_pressed,
  left_ctl_released, tab_pressed, alt_pressed, alt_released,
}

-- The keyboard that a handler gives, if it gives one.
unfoldable pub KeyKept : Keyboard → Option Keyboard → Type 0
KeyKept k none = Unit
KeyKept k (some k') = Stays k.console k'.console

some-KeyKept : (k k' : Keyboard) → Stays k.console k'.console → KeyKept k (some k')
unfolding KeyKept
some-KeyKept k k' s = s

edited-KeyKept :
    (k : Keyboard) (r : Option Console)
    → Kept k.console r
    → KeyKept k (elim r as (λ _. Option Keyboard) [
      | none ↦ none
      | some c ↦ some (record k { console = c })
    ])
unfolding KeyKept Kept
edited-KeyKept k none p = tt
edited-KeyKept k (some c) p = Prints-Stays p

edit-KeyKept : (key : ℕ) (k : Keyboard) → IsConsole k.console → KeyKept k (edit key k)
unfolding edit
edit-KeyKept key k v = edited-KeyKept k (edit_buffer key k.console) (edit_buffer-Kept key v)

-- An edit after other steps.
then-KeyKept :
    (k k' : Keyboard) (r : Option Keyboard)
    → Stays k.console k'.console
    → KeyKept k' r
    → KeyKept k r
unfolding KeyKept
then-KeyKept k k' none s p = tt
then-KeyKept k k' (some k'') s p = Stays-trans s p

edits-KeyKept :
    (k : Keyboard) (r : Option Keyboard) (f : Keyboard → Option Keyboard)
    → KeyKept k r
    → ((k' : Keyboard) → IsConsole k'.console → KeyKept k' (f k'))
    → KeyKept k (elim r as (λ _. Option Keyboard) [ none ↦ none | some k' ↦ f k' ])
unfolding KeyKept
edits-KeyKept k none f p g = tt
edits-KeyKept k (some k') f p g = then-KeyKept k k' (f k') p (g k' p.formed)

tab-KeyKept : (k : Keyboard) → IsConsole k.console → KeyKept k (tab_key_handler k)
unfolding tab_key_handler
tab-KeyKept k v = edits-KeyKept k (edit 32 k) _ (edit-KeyKept 32 k v) (λ k1 v1.
    edits-KeyKept k1 (edit 32 k1) _ (edit-KeyKept 32 k1 v1) (λ k2 v2.
      edits-KeyKept k2 (edit 32 k2) _ (edit-KeyKept 32 k2 v2) (λ k3 v3. edit-KeyKept 32 k3 v3)))

switch_screen-Stays :
    (n : ℕ) (k : Keyboard)
    → n < max_terminals
    → IsConsole k.console
    → Stays k.console (switch_screen n k).console
unfolding switch_screen move_cursor
switch_screen-Stays n k h v = record {
  formed = record { count = v.count; curr = v.curr; screen = h; placed = v.placed };
  curr = refl;
  process = λ j. refl;
  flag = λ j. refl;
}

caps-same : (response : ℕ) (k : Keyboard) → (caps_lock_handler response k).console ≡ k.console
unfolding caps_lock_handler caps_lock_on caps_lock_off
caps-same response k = ground arith

shift-same : (response : ℕ) (k : Keyboard) → (shift_key_handler response k).console ≡ k.console
unfolding shift_key_handler
shift-same response k = ground arith

same-Stays : {c c' : Console} → IsConsole c → c' ≡ c → Stays c c'
same-Stays v e = rw e (Stays-refl v)

held-Stays :
    (b : Bool) (k k' : Keyboard)
    → IsConsole k.console
    → k'.console ≡ k.console
    → Stays k.console (if b then k' else k).console
held-Stays true k k' v e = same-Stays v e
held-Stays false k k' v e = Stays-refl v

switched-Stays :
    (b : Bool) (n : ℕ) (k : Keyboard)
    → n < max_terminals
    → IsConsole k.console
    → Stays k.console (if b then switch_screen n k else k).console
switched-Stays true n k h v = switch_screen-Stays n k h v
switched-Stays false n k h v = Stays-refl v

alt-Stays :
    (response : ℕ) (k : Keyboard)
    → IsConsole k.console
    → Stays k.console (alt_key_handler response k).console
unfolding alt_key_handler
alt-Stays response k v =
    let b1 = (response == alt_pressed) && (k.alt_held == 0) in
    let k1 = if b1 then record k { alt_held = 1 } else k in
    let b2 = (response == alt_released) && (k1.alt_held == 1) in
    let k2 = if b2 then record k1 { alt_held = 0 } else k1 in
    let k3 = if response == 0xbb then switch_screen 0 k2 else k2 in
    let k4 = if response == 0xbc then switch_screen 1 k3 else k3 in
    let a = held-Stays b1 k (record k { alt_held = 1 }) v refl in
    let b = held-Stays b2 k1 (record k1 { alt_held = 0 }) a.formed refl in
    let c = switched-Stays (response == 0xbb) 0 k2 (omega arith) b.formed in
    let d = switched-Stays (response == 0xbc) 1 k3 (omega arith) c.formed in
    let e = switched-Stays (response == 0xbd) 2 k4 (omega arith) d.formed in
    Stays-trans a (Stays-trans b (Stays-trans c (Stays-trans d e)))

ctrl-KeyKept :
    (response : ℕ) (k : Keyboard) → IsConsole k.console → KeyKept k (ctrl_key_handler response k)
unfolding ctrl_key_handler
ctrl-KeyKept response k v =
    let a = held-Stays (response == left_ctl_pressed) k (record k { ctrl_held = 1 }) v refl in
    let k1 = if response == left_ctl_pressed then record k { ctrl_held = 1 } else k in
    let k2 = if response == left_ctl_released then record k1 { ctrl_held = 0 } else k1 in
    let b =
      held-Stays (response == left_ctl_released) k1 (record k1 { ctrl_held = 0 }) a.formed refl in
    elim (Bool-cases ((response == 108) || (response == 76))) [
      | inl l ↦ rw l (
          then-KeyKept k k2 (edit ctl_l_cmd k2) (Stays-trans a b)
            (edit-KeyKept ctl_l_cmd k2 b.formed))
      | inr other ↦ rw other (some-KeyKept k k2 (Stays-trans a b))
    ]

typing-KeyKept :
    (unset response : ℕ) (k : Keyboard)
    → IsConsole k.console
    → KeyKept k (typing_handler unset response k)
unfolding typing_handler
typing-KeyKept unset response k v = elim (Bool-cases (k.ctrl_held == 1)) [
  | inl ctrl ↦ rw ctrl (ctrl-KeyKept (printed_char unset response k) k v)
  | inr plain ↦ elim (Bool-cases (k.alt_held == 1)) [
    | inl alt ↦ rw (plain, alt) (some-KeyKept k _ (alt-Stays response k v))
    | inr neither ↦ elim (Bool-cases (printed_char unset response k == 0)) [
      | inl nothing ↦ rw (plain, neither, nothing) (some-KeyKept k k (Stays-refl v))
      | inr char ↦ rw (plain, neither, char) (edit-KeyKept (printed_char unset response k) k v)
    ]
  ]
]

if-KeyKept :
    (b : Bool) (k : Keyboard) (r s : Option Keyboard)
    → KeyKept k r
    → KeyKept k s
    → KeyKept k (if b then r else s)
if-KeyKept true k r s p q = p
if-KeyKept false k r s p q = q

-- keyboard_handler on a well-formed console, whatever the scan code and the flags: where it does not fault,
-- it keeps the console so, the scheduled terminal, and each terminal's process and flag.
pub keyboard_handler-KeyKept :
    (unset response : ℕ) (k : Keyboard)
    → IsConsole k.console
    → KeyKept k (keyboard_handler unset response k)
unfolding keyboard_handler
keyboard_handler-KeyKept unset response k v =
    let typed =
      if-KeyKept ((response == alt_pressed) || (response == alt_released)) k _ _
        (some-KeyKept k _ (alt-Stays response k v)) (typing-KeyKept unset response k v) in
    let tab = if-KeyKept (response == tab_pressed) k _ _ (tab-KeyKept k v) typed in
    let enter = if-KeyKept (response == enter_key) k _ _ (edit-KeyKept enter_key k v) tab in
    let back =
      if-KeyKept (response == backspace_pressed) k _ _ (edit-KeyKept backspace_pressed k v) enter in
    let ctrl =
      if-KeyKept ((response == left_ctl_pressed) || (response == left_ctl_released)) k _ _
        (ctrl-KeyKept response k v) back in
    let shift =
      if-KeyKept
        ((response == left_shift_pressed)
          || ((response == right_shift_pressed)
              || ((response == left_shift_released) || (response == right_shift_released))))
        k _ _ (some-KeyKept k _ (same-Stays v (shift-same response k))) ctrl in
    if-KeyKept ((response == caps_lock_pressed) || (response == caps_lock_released)) k _ _
      (some-KeyKept k _ (same-Stays v (caps-same response k))) shift
