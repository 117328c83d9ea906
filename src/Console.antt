-- ===== src/Console.antt =====
-- The text console of student-distrib/lib.c over the terminals of student-distrib/terminal.h: clear,
-- putc, puts, check_size, erase_char and move_cursor. Video memory is byte-addressed. `none` stands for
-- a write below it.
pub mod Frame
pub mod Cursor
pub mod Steps
pub mod Scroll
pub mod Page
pub mod Output
use linux_like_os_project.Prelude.{
  ℕ, zero, suc, ◌+◌, ◌-◌, ◌*◌, ◌%◌, ◌^◌, List, [], ◌∷◌, Option, none, some, ltb, leb, ◌==◌,
  if◌then◌else◌, ◌&&◌, ◌||◌, not, get_or, set, Bool, true, false, Memory, store,
}

abbrev pub video_addr : ℕ
video_addr = 0xb8000

abbrev pub num_cols : ℕ
num_cols = 80

abbrev pub num_rows : ℕ
num_rows = 25

abbrev pub max_terminals : ℕ
max_terminals = 3

abbrev pub new_line : ℕ
new_line = 10

abbrev pub carriage_return : ℕ
carriage_return = 13

-- `terminal_info_t`. `pid` is an int by its bit pattern, so that -1 is 2 ^ 32 - 1.
pub record Terminal : Type 0 where
  pub flag : ℕ
  pub terminal_id : ℕ
  pub screen_x : ℕ
  pub screen_y : ℕ
  pub buffer : List ℕ
  pub buffer_size : ℕ
  pub pid : ℕ
  pub base_tss_esp0 : ℕ
  pub base_tss_ss0 : ℕ
  pub waiting_in_read : ℕ
  pub enter_flag : ℕ
  pub attribute : ℕ

-- The globals of terminal.h and lib.c, video memory, and the position sent to the cursor registers.
pub record Console : Type 0 where
  pub terminal_array : List Terminal
  pub curr_terminal : ℕ
  pub screen_terminal : ℕ
  pub display_on_main_page : ℕ
  pub terminal_flag : ℕ
  pub video : Memory
  pub cursor : ℕ

abbrev pub no_terminal : Terminal
no_terminal = record {
  flag = 0;
  terminal_id = 0;
  screen_x = 0;
  screen_y = 0;
  buffer = [];
  buffer_size = 0;
  pid = 0;
  base_tss_esp0 = 0;
  base_tss_ss0 = 0;
  waiting_in_read = 0;
  enter_flag = 0;
  attribute = 0;
}

abbrev pub terminal : Console → ℕ → Terminal
terminal c i = get_or c.terminal_array i no_terminal

unfoldable pub set_terminal : ℕ → Terminal → Console → Console
set_terminal i t c = record c { terminal_array = set c.terminal_array i t }

-- Whether the output goes to the page behind the screen.
unfoldable pub is_hidden : Console → Bool
is_hidden c = not (c.curr_terminal == c.screen_terminal) && (c.display_on_main_page == 0)

-- `true_term_id` and `true_mem`: the terminal written to, and its page.
unfoldable pub target : Console → ℕ
unfolding is_hidden
target c = if is_hidden c then c.curr_terminal else c.screen_terminal

unfoldable pub target_page : Console → ℕ
unfolding is_hidden
target_page c = if is_hidden c then video_addr + (c.curr_terminal + 1) * 4096 else video_addr

-- The flags that putc and clear set while they choose the target.
unfoldable pub mark_target : Console → Console
unfolding is_hidden
mark_target c =
    if is_hidden c
    then record c { terminal_flag = 1 }
    else record c { display_on_main_page = 0; terminal_flag = 0 }

-- `position` is a uint16_t.
unfoldable pub move_cursor : Console → Console
move_cursor c =
    let t = terminal c c.screen_terminal in
    record c { cursor = (t.screen_y * num_cols + t.screen_x) % 2 ^ 16 }

-- The cell `k` of a page: a character and its attribute.
unfoldable pub put_cell : ℕ → ℕ → ℕ → ℕ → Memory → Memory
put_cell page k c attr m = store (page + k * 2 + 1) attr (store (page + k * 2) c m)

-- The loop of clear, over `n` cells from the cell `k` on.
unfoldable pub clear_cells : ℕ → ℕ → ℕ → ℕ → Memory → Memory
unfolding put_cell
clear_cells zero k page attr m = m
clear_cells (suc n) k page attr m = clear_cells n (k + 1) page attr (put_cell page k 32 attr m)

unfoldable pub clear : Console → Console
clear c =
    let t = terminal c (target c) in
    let c' = set_terminal (target c) (record t { screen_x = 0; screen_y = 0 }) (mark_target c) in
    move_cursor (record c' {
      video = clear_cells (num_rows * num_cols) 0 (target_page c) t.attribute c'.video;
    })

unfoldable pub check_size : Console → Console
check_size c =
    let i = if c.terminal_flag == 1 then c.curr_terminal else c.screen_terminal in
    let t = terminal c i in
    if leb num_cols t.screen_x
    then set_terminal i (record t { screen_y = t.screen_y + 1; screen_x = 0 }) c
    else c

-- One row of the scroll: the characters of row i + 1 replace those of row i, from column j on.
unfoldable pub scroll_row : ℕ → ℕ → ℕ → ℕ → ℕ → Memory → Memory
unfolding put_cell
scroll_row zero i j page attr m = m
scroll_row (suc n) i j page attr m =
    scroll_row n i (j + 1) page attr
      (put_cell page (num_cols * i + j) (m (page + (num_cols * (i + 1) + j) * 2)) attr m)

unfoldable pub scroll_rows : ℕ → ℕ → ℕ → ℕ → Memory → Memory
unfolding scroll_row
scroll_rows zero i page attr m = m
scroll_rows (suc n) i page attr m =
    scroll_rows n (i + 1) page attr (scroll_row num_cols i 0 page attr m)

-- The last row is emptied.
unfoldable pub blank_row : ℕ → ℕ → ℕ → ℕ → ℕ → Memory → Memory
unfolding put_cell
blank_row zero i j page attr m = m
blank_row (suc n) i j page attr m =
    blank_row n i (j + 1) page attr (put_cell page (num_cols * i + j) 0 attr m)

unfoldable pub scroll : ℕ → ℕ → Memory → Memory
unfolding scroll_rows blank_row
scroll page attr m =
    blank_row num_cols (num_rows - 1) 0 page attr (scroll_rows (num_rows - 1) 0 page attr m)

-- The part of putc that writes the character and moves the terminal's position.
unfoldable pub put_char : ℕ → ℕ → ℕ → Console → Console
put_char i page ch c =
    let t = terminal c i in
    if (ch == new_line) || (ch == carriage_return)
    then set_terminal i (record t { screen_y = t.screen_y + 1; screen_x = 0 }) c
    else check_size (
        set_terminal i (record t { screen_x = t.screen_x + 1 })
          (record c {
            video = put_cell page (num_cols * t.screen_y + t.screen_x) ch t.attribute c.video;
          }))

-- The part of putc that scrolls when the position has left the page.
unfoldable pub scroll_if_full : ℕ → ℕ → Console → Console
scroll_if_full i page c =
    let t = terminal c i in
    if ltb (num_rows - 1) t.screen_y
    then set_terminal i (record t { screen_y = num_rows - 1; screen_x = 0 })
        (record c { video = scroll page t.attribute c.video })
    else c

unfoldable pub putc : ℕ → Console → Console
putc ch c = move_cursor (
    scroll_if_full (target c) (target_page c)
      (put_char (target c) (target_page c) ch (mark_target c)))

-- The loop of puts, over the bytes before the terminator.
unfoldable pub puts : List ℕ → Console → Console
puts [] c = c
puts (ch ∷ s) c = elim (ch == 0) [ true ↦ c | false ↦ puts s (putc ch c) ]

-- The shown terminal's position moved back to a column and a row, and the cell there emptied.
unfoldable pub erase_at : ℕ → ℕ → Console → Console
erase_at x y c =
    let i = c.screen_terminal in
    move_cursor (
      set_terminal i (record (terminal c i) { screen_x = x; screen_y = y })
        (record c {
          terminal_flag = 0;
          video = store (video_addr + (num_cols * y + x) * 2) 0 c.video;
        }))

-- `none` where `screen_y` would be -1.
unfoldable pub erase_char : Console → Option Console
erase_char c =
    let t = terminal c c.screen_terminal in
    if t.screen_x == 0
    then (if t.screen_y == 0 then none else some (erase_at (num_cols - 1) (t.screen_y - 1) c))
    else some (erase_at (t.screen_x - 1) t.screen_y c)
