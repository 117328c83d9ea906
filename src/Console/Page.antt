-- ===== src/Console/Page.antt =====
-- Which page of video memory putc writes to.
use linux_like_os_project.Prelude.{
  ℕ, ◌+◌, ◌-◌, ◌*◌, ◌≤◌, ◌<◌, ◌≡◌, ◌≢◌, refl, ap, ◌∙◌, ◌⊎◌, inl, inr, arith, ltb, ◌==◌, ◌||◌,
  Bool-cases,
}
use linux_like_os_project.Console.{
  Console, Terminal, terminal, set_terminal, is_hidden, target, target_page, mark_target,
  move_cursor, check_size, put_char, scroll_if_full, putc, new_line, carriage_return, num_cols,
  num_rows, video_addr,
}
use linux_like_os_project.Console.Frame.{Outside, put_cell_frame, scroll_frame}
use linux_like_os_project.Console.Cursor.{Placed, IsConsole, mark_target-same, target-lt}

set_terminal-video : (i : ℕ) (t : Terminal) (c : Console) → (set_terminal i t c).video ≡ c.video
unfolding set_terminal
set_terminal-video i t c = refl

check_size-video : (c : Console) → (check_size c).video ≡ c.video
unfolding check_size set_terminal
check_size-video c = ground arith

move_cursor-video : (c : Console) → (move_cursor c).video ≡ c.video
unfolding move_cursor
move_cursor-video c = refl

put_char_frame :
    (i page ch : ℕ) (c : Console) (a : ℕ)
    → Placed (terminal c i)
    → Outside page 0 (num_rows * num_cols) a
    → (put_char i page ch c).video a ≡ c.video a
unfolding put_char
put_char_frame i page ch c a p h = elim (Bool-cases ((ch == new_line) || (ch == carriage_return))) [
  | inl line ↦ rw (line, set_terminal-video)
  | inr plain ↦
      rw (plain, check_size-video, set_terminal-video)
        (put_cell_frame page _ ch _ c.video a (inside p h))
]
  where
    inside :
        Placed (terminal c i)
        → Outside page 0 (num_rows * num_cols) a
        → Outside page
            (num_cols * (terminal c i).screen_y + (terminal c i).screen_x)
            (num_cols * (terminal c i).screen_y + (terminal c i).screen_x + 1)
            a
    inside p h = omega arith

scroll_if_full_frame :
    (i page : ℕ) (c : Console) (a : ℕ)
    → Outside page 0 (num_rows * num_cols) a
    → (scroll_if_full i page c).video a ≡ c.video a
unfolding scroll_if_full
scroll_if_full_frame i page c a h = elim (Bool-cases (ltb (num_rows - 1) (terminal c i).screen_y)) [
  | inl full ↦ rw (full, set_terminal-video) (scroll_frame page _ c.video a h)
  | inr room ↦ rw room
]

-- On a well-formed console, putc changes no byte outside the 2000 cells of the page it writes to.
pub putc_frame :
    (ch : ℕ) (c : Console) (a : ℕ)
    → IsConsole c
    → Outside (target_page c) 0 (num_rows * num_cols) a
    → (putc ch c).video a ≡ c.video a
unfolding putc
putc_frame ch c a v h =
    let same = mark_target-same c in
    let p : Placed (terminal (mark_target c) (target c)) =
      (rw same.0 (v.placed (target c) (target-lt v))) in
    ap (λ m. m a) (move_cursor-video _)
    ∙ scroll_if_full_frame (target c) (target_page c) _ a h
    ∙ put_char_frame (target c) (target_page c) ch (mark_target c) a p h
    ∙ ap (λ m. m a) same.4

-- putc on a well-formed console, while the scheduled terminal is not the shown one and no key is being
-- echoed (DISPLAY_ON_MAIN_PAGE is 0): every address outside the scheduled terminal's own page keeps what
-- it holds.
pub putc_hidden :
    (ch : ℕ) (c : Console) (a : ℕ)
    → IsConsole c
    → c.curr_terminal ≢ c.screen_terminal
    → c.display_on_main_page ≡ 0
    → (a < video_addr + (c.curr_terminal + 1) * 4096)
      ⊎ (video_addr + (c.curr_terminal + 2) * 4096 ≤ a)
    → (putc ch c).video a ≡ c.video a
putc_hidden ch c a v ne d h = putc_frame ch c a v outside
  where
    hidden : target_page c ≡ video_addr + (c.curr_terminal + 1) * 4096
    hidden = unfold target_page is_hidden in ground arith

    outside : Outside (target_page c) 0 (num_rows * num_cols) a
    outside = rw hidden (omega arith)
