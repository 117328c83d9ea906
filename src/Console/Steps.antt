-- ===== src/Console/Steps.antt =====
-- putc, puts, clear and erase_char on a well-formed console.
use mathlib.Core.Path.{subst}
use linux_like_os_project.Prelude.{
  ℕ, ◌-◌, ◌<◌, ◌≡◌, some_inj, none, ◌&&◌, inl, inr, List, [], ◌∷◌, some, arith, ◌==◌, if◌then◌else◌,
  Bool-cases,
}
use linux_like_os_project.Console.{
  Console, Terminal, terminal, set_terminal, target, mark_target, putc, puts, clear, erase_char,
  erase_at, num_cols, num_rows,
}
use linux_like_os_project.Console.Cursor.{
  IsConsole, Moves, Moves-IsConsole, Placed, advance-settle-Placed, cursor-Moves, mark-Moves,
  putc-Moves, set_terminal-Moves, target-lt,
}

-- putc on a well-formed console leaves a well-formed one, whatever the character: three terminals, the
-- two chosen among them, each with its position on the 80 by 25 page.
pub putc-IsConsole : (ch : ℕ) {c : Console} → IsConsole c → IsConsole (putc ch c)
putc-IsConsole ch {c} v =
    Moves-IsConsole v (target-lt v)
      (advance-settle-Placed ch (terminal c (target c)) (v.placed (target c) (target-lt v)))
      (putc-Moves ch v)

pub puts-IsConsole : (s : List ℕ) {c : Console} → IsConsole c → IsConsole (puts s c)
unfolding puts
puts-IsConsole [] v = v
puts-IsConsole (ch ∷ s) {c} v = elim (Bool-cases (ch == 0)) [
  | inl done ↦ rw (done, puts) v
  | inr more ↦ rw (more, puts) (puts-IsConsole s (putc-IsConsole ch v))
]

pub clear-Moves :
    (c : Console)
    → Moves c (clear c) (target c) (record (terminal c (target c)) { screen_x = 0; screen_y = 0 })
unfolding clear
clear-Moves c = cursor-Moves (mark-Moves (onto (set_terminal-Moves (target c) _ (mark_target c))))
  where
    onto :
        {c' : Console} {i : ℕ} {t : Terminal} {m : ℕ → ℕ}
        → Moves (mark_target c) c' i t
        → Moves (mark_target c) (record c' { video = m }) i t
    onto s = record { count = s.count; curr = s.curr; screen = s.screen; moved = s.moved }

-- clear puts the target's position at the top left and keeps the console well-formed.
pub clear-IsConsole : {c : Console} → IsConsole c → IsConsole (clear c)
clear-IsConsole {c} v =
    Moves-IsConsole v (target-lt v) (record { column = omega arith; row = omega arith })
      (clear-Moves c)

pub erase_at-Moves :
    (x y : ℕ) (c : Console)
    → Moves c
        (erase_at x y c)
        c.screen_terminal
        (record (terminal c c.screen_terminal) { screen_x = x; screen_y = y })
unfolding erase_at
erase_at-Moves x y c = cursor-Moves (flat _ _ c)
  where
    flat :
        (m : ℕ → ℕ) (t : Terminal) (c : Console)
        → Moves c
            (set_terminal c.screen_terminal t (record c { terminal_flag = 0; video = m }))
            c.screen_terminal
            t
    flat m t c =
        let s =
          set_terminal-Moves c.screen_terminal t (record c { terminal_flag = 0; video = m }) in
        record { count = s.count; curr = s.curr; screen = s.screen; moved = s.moved }

erase_at-IsConsole :
    (x y : ℕ) {c : Console} → IsConsole c → x < num_cols → y < num_rows → IsConsole (erase_at x y c)
erase_at-IsConsole x y {c} v hx hy =
    Moves-IsConsole v v.screen (record { column = hx; row = hy }) (erase_at-Moves x y c)

-- The character before the shown terminal's position is what erase_char goes back to; it fails only
-- at the top left.
pub erase_char-eq :
    (c : Console)
    → let t = terminal c c.screen_terminal in
      erase_char c ≡ (
        if (t.screen_x == 0) && (t.screen_y == 0)
        then none
        else some (
            erase_at
              (if t.screen_x == 0 then num_cols - 1 else t.screen_x - 1)
              (if t.screen_x == 0 then t.screen_y - 1 else t.screen_y)
              c))
unfolding erase_char
erase_char-eq c = ground arith

-- erase_char on a well-formed console keeps it so where it does not fail.
pub erase_char-IsConsole : {c c' : Console} → IsConsole c → erase_char c ≡ some c' → IsConsole c'
erase_char-IsConsole {c} {c'} v e = elim (Bool-cases ((t.screen_x == 0) && (t.screen_y == 0))) [
  | inl origin ↦ absurd (cc (rw (erase_char-eq c, origin) at e))
  | inr inside ↦
      subst IsConsole (some_inj (rw (erase_char-eq c, inside) at e))
        (erase_at-IsConsole _ _ v (ground (arith, p)) (ground (arith, p)))
]
  where
    t : Terminal
    t = terminal c c.screen_terminal

    p : Placed t
    p = v.placed c.screen_terminal v.screen
