-- ===== src/LineEdit/Keys.antt =====
-- edit_buffer on the console: each key's effect on the shown terminal's line, and its echo.
use mathlib.Core.Path.{subst}
use linux_like_os_project.Prelude.{
  ℕ, ◌-◌, ◌<◌, ◌≡◌, ◌≢◌, refl, sym, ◌∙◌, ap, arith, ◌==◌, if◌then◌else◌, Option, some, lt→ltb,
  ltb→lt, ==_iff, ltb, ◌&&◌, Bool-cases, inl, inr, false,
}
use linux_like_os_project.Console.{Console, Terminal, terminal, num_cols, erase_char, erase_at}
use linux_like_os_project.Console.Cursor.{
  IsConsole, Placed, Moves-IsConsole, advance, settle, advance-settle-Placed,
}
use linux_like_os_project.Console.Steps.{erase_char-eq, erase_at-Moves, erase_char-IsConsole}
use linux_like_os_project.LineEdit.{
  edit_shown, echo, max_buf_size, end_of_line, backspace_pressed, enter_key, ctl_l_cmd, put_byte,
  grow, enter_line, add_char, shrink, zero_first, delete_char, edit_buffer,
}
use linux_like_os_project.LineEdit.Echo.{
  SameLine, advance-settle-SameLine, edit_shown-Moves, shown-Moves, typed-Moves,
  edit_shown-IsConsole,
}
use linux_like_os_project.LineEdit.Edit.{
  HasRoom, Edited, put-Placed, add-Edited, enter-Edited, delete-Edited, empty-Edited, full-Edited,
  zero_first-Behind, Behind-Edited,
}

-- The shown terminal.
abbrev pub shown : Console → Terminal
shown c = terminal c c.screen_terminal

-- A step of the shown terminal that keeps the console well-formed.
pub record Step (key : ℕ) (c c' : Console) : Type 0 where
  pub valid : IsConsole c'
  pub edited : Edited key (shown c) (shown c')

-- An edit without echo.
quiet-Step :
    {key : ℕ} (f : Terminal → Terminal) {c : Console}
    → IsConsole c
    → Placed (f (shown c))
    → Edited key (shown c) (f (shown c))
    → Step key c (edit_shown f c)
quiet-Step {key} f {c} v p e = record {
  valid = edit_shown-IsConsole f v p;
  edited = rw (shown-Moves v (edit_shown-Moves f c)) e;
}

-- An edit, an echo and an edit.
typed-Step :
    {key : ℕ} (f g : Terminal → Terminal) (ch : ℕ) {c : Console}
    → IsConsole c
    → Placed (f (shown c))
    → Placed (g (settle (advance ch (f (shown c)))))
    → Edited key (shown c) (g (settle (advance ch (f (shown c)))))
    → Step key c (edit_shown g (echo ch (edit_shown f c)))
typed-Step {key} f g ch {c} v p q e =
    let s = typed-Moves f g ch v p in
    record { valid = Moves-IsConsole v v.screen q s; edited = rw (shown-Moves v s) e }

shown-Placed : {c : Console} → IsConsole c → Placed (shown c)
shown-Placed {c} v = v.placed c.screen_terminal v.screen

end-Placed : {t : Terminal} → Placed t → Placed (grow (record t { enter_flag = 1 }))
unfolding grow
end-Placed p = record { column = p.column; row = p.row }

grow-Placed : {t : Terminal} → Placed t → Placed (grow t)
unfolding grow
grow-Placed p = record { column = p.column; row = p.row }

zero_first-Placed : {t : Terminal} → Placed t → Placed (zero_first t)
unfolding zero_first put_byte
zero_first-Placed p = ground (arith, p)

shrink-Placed : {t : Terminal} → Placed t → Placed (shrink t)
unfolding shrink put_byte
shrink-Placed p = record { column = p.column; row = p.row }

moved-SameLine : (x y : ℕ) (t : Terminal) → SameLine t (record t { screen_x = x; screen_y = y })
moved-SameLine x y t = record {
  buffer = refl;
  buffer_size = refl;
  waiting_in_read = refl;
  enter_flag = refl;
  pid = refl;
  flag = refl;
}

-- What a key gets done: a console, and what the step to it is.
abbrev pub Done : ℕ → Console → Option Console → Type 0
Done key c r = (c' : Console) × (r ≡ some c') × Step key c c'

enter_line-Done : {c : Console} → IsConsole c → HasRoom (shown c) → Done enter_key c (enter_line c)
unfolding enter_line
enter_line-Done {c} v h =
    let put = put_byte end_of_line in
    let end = λ (t : Terminal). grow (record t { enter_flag = 1 }) in
    let u = settle (advance end_of_line (put (shown c))) in
    let p = put-Placed end_of_line (shown-Placed v) in
    (
      edit_shown end (echo end_of_line (edit_shown put c)),
      rw (lt→ltb _ _ h.room),
      typed-Step put end end_of_line v p
          (end-Placed (advance-settle-Placed end_of_line (put (shown c)) p))
          (enter-Edited (shown c) u h (advance-settle-SameLine end_of_line (put (shown c)))),
    )

add_char-Done :
    (ch : ℕ) {c : Console}
    → IsConsole c
    → HasRoom (shown c)
    → ch ≢ backspace_pressed
    → ch ≢ enter_key
    → (shown c).buffer_size ≢ max_buf_size - 1
    → Done ch c (add_char ch c)
unfolding add_char
add_char-Done ch {c} v h nb ne nf =
    let put = put_byte ch in
    let u = settle (advance ch (put (shown c))) in
    let p = put-Placed ch (shown-Placed v) in
    (
      edit_shown grow (echo ch (edit_shown put c)),
      rw (lt→ltb _ _ h.room),
      typed-Step put grow ch v p (grow-Placed (advance-settle-Placed ch (put (shown c)) p))
          (add-Edited ch (shown c) u h nb ne nf (advance-settle-SameLine ch (put (shown c)))),
    )

-- Backspace on an empty line.
delete_none-Done :
    {c : Console}
    → IsConsole c
    → HasRoom (shown c)
    → (shown c).buffer_size ≡ 0
    → Done backspace_pressed c (delete_char c)
unfolding delete_char
delete_none-Done {c} v h e = (
  edit_shown zero_first c,
  rw e,
  quiet-Step zero_first v (zero_first-Placed (shown-Placed v))
      (Behind-Edited (empty-Edited (shown c) h e) (zero_first-Behind (shown c))),
)

-- Backspace on a line, the position not at the top left.
delete_some-Done :
    {c : Console}
    → IsConsole c
    → HasRoom (shown c)
    → 0 < (shown c).buffer_size
    → ((shown c).screen_x == 0) && ((shown c).screen_y == 0) ≡ false
    → Done backspace_pressed c (delete_char c)
unfolding delete_char
delete_some-Done {c} v h pos away =
    let x = if (shown c).screen_x == 0 then num_cols - 1 else (shown c).screen_x - 1 in
    let y = if (shown c).screen_x == 0 then (shown c).screen_y - 1 else (shown c).screen_y in
    let c1 = erase_at x y c in
    let erased : erase_char c ≡ some c1 = (rw (erase_char-eq c, away)) in
    let v1 = erase_char-IsConsole v erased in
    let t1 = shown-Moves v (erase_at-Moves x y c) in
    let c2 = edit_shown shrink c1 in
    let v2 = edit_shown-IsConsole shrink v1 (shrink-Placed (shown-Placed v1)) in
    let t2 = shown-Moves v1 (edit_shown-Moves shrink c1) ∙ ap shrink t1 in
    let c3 = edit_shown zero_first c2 in
    let t3 = shown-Moves v2 (edit_shown-Moves zero_first c2) ∙ ap zero_first t2 in
    (
      c3,
      rw (lt→ltb _ _ pos, lt→ltb _ _ h.room, erased),
      record {
        valid = edit_shown-IsConsole zero_first v2 (zero_first-Placed (shown-Placed v2));
        edited =
            subst (Edited backspace_pressed (shown c)) (sym t3)
              (delete-Edited (shown c) _ h pos (moved-SameLine x y (shown c)));
      },
    )

-- The position is at the top left, and a backspace is due.
abbrev pub Stuck : ℕ → Console → Type 0
Stuck key c =
    (key ≡ backspace_pressed)
    × (0 < (shown c).buffer_size)
    × ((shown c).screen_x ≡ 0)
    × ((shown c).screen_y ≡ 0)

delete_char-Done :
    {c : Console}
    → IsConsole c
    → HasRoom (shown c)
    → ¬ Stuck backspace_pressed c
    → Done backspace_pressed c (delete_char c)
delete_char-Done {c} v h free = elim (Bool-cases (ltb 0 (shown c).buffer_size)) [
  | inl some_left ↦ delete_some-Done v h (ltb→lt _ _ some_left) (away (ltb→lt _ _ some_left))
  | inr none_left ↦ delete_none-Done v h (ground arith)
]
  where
    away :
        0 < (shown c).buffer_size → ((shown c).screen_x == 0) && ((shown c).screen_y == 0) ≡ false
    away pos = elim (Bool-cases (((shown c).screen_x == 0) && ((shown c).screen_y == 0))) [
      | inl at ↦ absurd (free (refl, pos, ground arith, ground arith))
      | inr off ↦ off
    ]

-- The branch that a key takes.
edit_buffer-branch :
    (key : ℕ) (c : Console)
    → (shown c).waiting_in_read ≡ 1
    → key ≢ 0
    → key ≢ ctl_l_cmd
    → edit_buffer key c ≡ (
        if key == enter_key
        then enter_line c
        else (if key == backspace_pressed
            then delete_char c
            else (if (shown c).buffer_size == max_buf_size - 1 then some c else add_char key c)))
unfolding edit_buffer
edit_buffer-branch key c w nz nl = ground arith

full-Done :
    (ch : ℕ) {c : Console}
    → IsConsole c
    → HasRoom (shown c)
    → ch ≢ backspace_pressed
    → ch ≢ enter_key
    → (shown c).buffer_size ≡ max_buf_size - 1
    → Done ch c (some c)
full-Done ch {c} v h nb ne f =
    (c, refl, record { valid = v; edited = full-Edited ch (shown c) h nb ne f })

branch-Done :
    (key : ℕ) {c : Console}
    → IsConsole c
    → HasRoom (shown c)
    → ¬ Stuck key c
    → Done key c (
        if key == enter_key
        then enter_line c
        else (if key == backspace_pressed
            then delete_char c
            else (if (shown c).buffer_size == max_buf_size - 1 then some c else add_char key c)))
branch-Done key {c} v h free = elim (Bool-cases (key == enter_key)) [
  | inl e ↦
      rw e (subst (λ k. Done k c (enter_line c)) (sym ((==_iff _ _).0 e)) (enter_line-Done v h))
  | inr ne ↦ elim (Bool-cases (key == backspace_pressed)) [
    | inl b ↦
        let is : key ≡ backspace_pressed = (==_iff _ _).0 b in
        rw (ne, b)
          (subst (λ k. Done k c (delete_char c)) (sym is)
            (delete_char-Done v h (subst (λ k. ¬ Stuck k c) is free)))
    | inr nb ↦ elim (Bool-cases ((shown c).buffer_size == max_buf_size - 1)) [
      | inl f ↦ rw (ne, nb, f) (full-Done key v h (ground arith) (ground arith) (ground arith))
      | inr nf ↦
          rw (ne, nb, nf) (add_char-Done key v h (ground arith) (ground arith) (ground arith))
    ]
  ]
]

-- A key read into the line of the shown terminal: on a well-formed console whose shown terminal has a
-- reader waiting and fewer than 128 bytes in its buffer of 128, for a key other than 0 and CTRL-L, and
-- unless a backspace is to erase a byte with the position at the top left, edit_buffer succeeds; the
-- line becomes what edit_line says, buffer_size is its length, ENTER sets the enter flag and no other
-- key changes it, and the console is well-formed again.
pub edit_buffer-Done :
    (key : ℕ) {c : Console}
    → IsConsole c
    → HasRoom (shown c)
    → (shown c).waiting_in_read ≡ 1
    → key ≢ 0
    → key ≢ ctl_l_cmd
    → ¬ Stuck key c
    → Done key c (edit_buffer key c)
edit_buffer-Done key {c} v h w nz nl free =
    rw (edit_buffer-branch key c w nz nl) (branch-Done key v h free)
