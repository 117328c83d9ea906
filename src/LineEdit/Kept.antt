-- ===== src/LineEdit/Kept.antt =====
-- What every key of edit_buffer of student-distrib/terminal.c leaves of the terminals.
use linux_like_os_project.Prelude.{
  ℕ, ◌-◌, ◌≡◌, refl, List, [], ◌∷◌, Option, none, some, ltb, ◌==◌, ◌&&◌, not, inl, inr, Bool-cases,
  take, arith,
}
use linux_like_os_project.Console.{Console, Terminal, terminal, erase_char}
use linux_like_os_project.Console.Cursor.{IsConsole}
use linux_like_os_project.Console.Steps.{erase_at-Moves, erase_char-eq}
use linux_like_os_project.Console.Output.{
  Prints, Prints-refl, Prints-trans, Moves-Prints, putc-Prints, clear-Prints,
}
use linux_like_os_project.LineEdit.{
  edit_shown, echo, echo_all, put_byte, grow, shrink, zero_first, enter_line, add_char, delete_char,
  edit_buffer, max_buf_size, end_of_line, ctl_l_cmd, enter_key, backspace_pressed,
}
use linux_like_os_project.LineEdit.Echo.{edit_shown-Moves}

-- The console that a step gives, if it gives one.
unfoldable pub Kept : Console → Option Console → Type 0
Kept c none = Unit
Kept c (some c') = Prints c c'

-- A change of a terminal's line.
record LineOnly (t t' : Terminal) : Type 0 where
  pub column : t'.screen_x ≡ t.screen_x
  pub row : t'.screen_y ≡ t.screen_y
  pub pid : t'.pid ≡ t.pid
  pub flag : t'.flag ≡ t.flag

put_byte-LineOnly : (b : ℕ) (t : Terminal) → LineOnly t (put_byte b t)
unfolding put_byte
put_byte-LineOnly b t = record { column = refl; row = refl; pid = refl; flag = refl }

grow-LineOnly : (t : Terminal) → LineOnly t (grow t)
unfolding grow
grow-LineOnly t = record { column = refl; row = refl; pid = refl; flag = refl }

end-LineOnly : (t : Terminal) → LineOnly t (grow (record t { enter_flag = 1 }))
unfolding grow
end-LineOnly t = record { column = refl; row = refl; pid = refl; flag = refl }

shrink-LineOnly : (t : Terminal) → LineOnly t (shrink t)
unfolding shrink put_byte
shrink-LineOnly t = record { column = refl; row = refl; pid = refl; flag = refl }

zero_first-LineOnly : (t : Terminal) → LineOnly t (zero_first t)
unfolding zero_first put_byte
zero_first-LineOnly t = elim (Bool-cases (t.buffer_size == 0)) [
  | inl e ↦ rw e (record { column = refl; row = refl; pid = refl; flag = refl })
  | inr ne ↦ rw ne (record { column = refl; row = refl; pid = refl; flag = refl })
]

edit_shown-Prints :
    (f : Terminal → Terminal) {c : Console}
    → IsConsole c
    → LineOnly (terminal c c.screen_terminal) (f (terminal c c.screen_terminal))
    → Prints c (edit_shown f c)
edit_shown-Prints f {c} v l =
    let p = v.placed c.screen_terminal v.screen in
    Moves-Prints v v.screen (record { column = rw l.column p.column; row = rw l.row p.row }) l.pid
      l.flag (edit_shown-Moves f c)

-- DISPLAY_ON_MAIN_PAGE is no part of it.
display-Prints :
    (d : ℕ) {c : Console} → IsConsole c → Prints c (record c { display_on_main_page = d })
display-Prints d v = record {
  formed = record { count = v.count; curr = v.curr; screen = v.screen; placed = v.placed };
  curr = refl;
  screen = refl;
  process = λ j. refl;
  flag = λ j. refl;
}

echo-Prints : (ch : ℕ) {c : Console} → IsConsole c → Prints c (echo ch c)
unfolding echo
echo-Prints ch v = let p = display-Prints 1 v in Prints-trans p (putc-Prints ch p.formed)

echo_all-Prints : (s : List ℕ) {c : Console} → IsConsole c → Prints c (echo_all s c)
unfolding echo_all
echo_all-Prints [] v = Prints-refl v
echo_all-Prints (ch ∷ s) v = let p = echo-Prints ch v in Prints-trans p (echo_all-Prints s p.formed)

-- An edit of the line, an echo, and an edit.
typed-Prints :
    (f g : Terminal → Terminal) (ch : ℕ) {c : Console}
    → ((t : Terminal) → LineOnly t (f t))
    → ((t : Terminal) → LineOnly t (g t))
    → IsConsole c
    → Prints c (edit_shown g (echo ch (edit_shown f c)))
typed-Prints f g ch lf lg v =
    let p = edit_shown-Prints f v (lf _) in
    let q = echo-Prints ch p.formed in
    Prints-trans p (Prints-trans q (edit_shown-Prints g q.formed (lg _)))

enter_line-Kept : {c : Console} → IsConsole c → Kept c (enter_line c)
unfolding enter_line Kept
enter_line-Kept {c} v =
    elim (Bool-cases (ltb (terminal c c.screen_terminal).buffer_size max_buf_size)) [
      | inl room ↦ rw room (
          typed-Prints (put_byte end_of_line) _ end_of_line (put_byte-LineOnly end_of_line)
            end-LineOnly v)
      | inr full ↦ rw full tt
    ]

add_char-Kept : (ch : ℕ) {c : Console} → IsConsole c → Kept c (add_char ch c)
unfolding add_char Kept
add_char-Kept ch {c} v =
    elim (Bool-cases (ltb (terminal c c.screen_terminal).buffer_size max_buf_size)) [
      | inl room ↦ rw room (typed-Prints (put_byte ch) _ ch (put_byte-LineOnly ch) grow-LineOnly v)
      | inr full ↦ rw full tt
    ]

erase_char-Kept : {c : Console} → IsConsole c → Kept c (erase_char c)
unfolding Kept
erase_char-Kept {c} v =
    let t = terminal c c.screen_terminal in
    let p = v.placed c.screen_terminal v.screen in
    elim (Bool-cases ((t.screen_x == 0) && (t.screen_y == 0))) [
      | inl origin ↦ rw (erase_char-eq c, origin) tt
      | inr inside ↦
          rw (erase_char-eq c, inside)
            (Moves-Prints v v.screen
              (record { column = ground (arith, p, inside); row = ground (arith, p, inside) }) refl
              refl (erase_at-Moves _ _ c))
    ]

-- The line behind an erased character.
erased-Kept :
    (c : Console) (r : Option Console)
    → Kept c r
    → Kept c (elim r as (λ _. Option Console) [
      | none ↦ none
      | some c' ↦ some (edit_shown zero_first (edit_shown shrink c'))
    ])
unfolding Kept
erased-Kept c none p = tt
erased-Kept c (some c') p =
    let q = edit_shown-Prints shrink p.formed (shrink-LineOnly _) in
    Prints-trans p (Prints-trans q (edit_shown-Prints zero_first q.formed (zero_first-LineOnly _)))

kept : {c c' : Console} → Prints c c' → Kept c (some c')
unfolding Kept
kept p = p

none-Kept : (c : Console) → Kept c none
unfolding Kept
none-Kept c = tt

delete_char-Kept : {c : Console} → IsConsole c → Kept c (delete_char c)
unfolding delete_char
delete_char-Kept {c} v =
    let t = terminal c c.screen_terminal in
    elim (Bool-cases (ltb 0 t.buffer_size)) [
      | inl some_left ↦ elim (Bool-cases (ltb t.buffer_size max_buf_size)) [
        | inl room ↦ rw (some_left, room) (erased-Kept c (erase_char c) (erase_char-Kept v))
        | inr full ↦ rw (some_left, full) (none-Kept c)
      ]
      | inr none_left ↦ rw none_left (kept (edit_shown-Prints zero_first v (zero_first-LineOnly _)))
    ]

some-Kept : {c : Console} → IsConsole c → Kept c (some c)
some-Kept v = kept (Prints-refl v)

-- edit_buffer on a well-formed console, whatever the key and the line: where it does not fault, it keeps
-- the console so, with the chosen terminals and each terminal's process and flag.
pub edit_buffer-Kept : (key : ℕ) {c : Console} → IsConsole c → Kept c (edit_buffer key c)
unfolding edit_buffer
edit_buffer-Kept key {c} v =
    let t = terminal c c.screen_terminal in
    elim (Bool-cases (key == ctl_l_cmd)) [
      | inl l ↦
          let p = display-Prints 1 v in
          let q = clear-Prints p.formed in
          rw l (
            kept (
              Prints-trans p
                (Prints-trans q (echo_all-Prints (take t.buffer_size t.buffer) q.formed))))
      | inr nl ↦ elim (Bool-cases ((t.waiting_in_read == 1) && not (key == 0))) [
        | inr idle ↦ rw (nl, idle) (some-Kept v)
        | inl reads ↦
            elim (Bool-cases ((t.buffer_size == max_buf_size - 2) && (key == enter_key))) [
              | inl last ↦ rw (nl, reads, last) (enter_line-Kept v)
              | inr room ↦ elim (Bool-cases (key == backspace_pressed)) [
                | inl back ↦ rw (nl, reads, room, back) (delete_char-Kept v)
                | inr other ↦
                    elim (Bool-cases
                      ((t.buffer_size == max_buf_size - 1) && not (key == enter_key))) [
                        | inl full ↦ rw (nl, reads, room, other, full) (some-Kept v)
                        | inr open_line ↦ elim (Bool-cases (key == enter_key)) [
                          | inl e ↦ rw (nl, reads, room, other, open_line, e) (enter_line-Kept v)
                          | inr ne ↦
                              rw (nl, reads, room, other, open_line, ne) (add_char-Kept key v)
                        ]
                      ]
              ]
            ]
      ]
    ]
