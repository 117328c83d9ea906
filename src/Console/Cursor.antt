-- ===== src/Console/Cursor.antt =====
-- The positions of the terminals on their pages, and how the console's steps move them.
use linux_like_os_project.Prelude.{
  ℕ, ◌+◌, ◌-◌, ◌<◌, ◌≡◌, refl, sym, ap, ◌∙◌, ◌⊎◌, inl, inr, arith, ltb, leb, ◌==◌, if◌then◌else◌,
  ◌||◌, true, false, Bool-cases, get_or, length, length-set, get_or-set,
}
use linux_like_os_project.Console.{
  Console, Terminal, no_terminal, terminal, set_terminal, is_hidden, target, target_page,
  mark_target, move_cursor, check_size, put_char, scroll_if_full, putc, new_line, carriage_return,
  num_cols, num_rows, max_terminals,
}

-- The position of a terminal is on the page.
pub record Placed (t : Terminal) : Type 0 where
  pub column : t.screen_x < num_cols
  pub row : t.screen_y < num_rows

-- Three terminals, each with its position on the page, and two of them chosen.
pub record IsConsole (c : Console) : Type 0 where
  pub count : length c.terminal_array ≡ max_terminals
  pub curr : c.curr_terminal < max_terminals
  pub screen : c.screen_terminal < max_terminals
  pub placed : (i : ℕ) → i < max_terminals → Placed (terminal c i)

-- The position after a character, before any scroll.
unfoldable pub advance : ℕ → Terminal → Terminal
advance ch t =
    if (ch == new_line) || (ch == carriage_return)
    then record t { screen_y = t.screen_y + 1; screen_x = 0 }
    else (if leb num_cols (t.screen_x + 1)
        then record t { screen_y = t.screen_y + 1; screen_x = 0 }
        else record t { screen_x = t.screen_x + 1 })

-- The position after the scroll, if one is due.
unfoldable pub settle : Terminal → Terminal
settle t =
    if ltb (num_rows - 1) t.screen_y then record t { screen_y = num_rows - 1; screen_x = 0 } else t

pub advance-settle-Placed : (ch : ℕ) (t : Terminal) → Placed t → Placed (settle (advance ch t))
unfolding advance settle
advance-settle-Placed ch t p = ground arith

-- A step that leaves terminal `i` at `t`, and the other terminals and the choice of terminals alone.
pub record Moves (c c' : Console) (i : ℕ) (t : Terminal) : Type 0 where
  pub count : length c'.terminal_array ≡ length c.terminal_array
  pub curr : c'.curr_terminal ≡ c.curr_terminal
  pub screen : c'.screen_terminal ≡ c.screen_terminal
  pub moved :
      (j : ℕ) → i < length c.terminal_array → terminal c' j ≡ (if i == j then t else terminal c j)

pub set_terminal-Moves : (i : ℕ) (t : Terminal) (c : Console) → Moves c (set_terminal i t c) i t
unfolding set_terminal
set_terminal-Moves i t c = record {
  count = length-set c.terminal_array i t;
  curr = refl;
  screen = refl;
  moved = λ j h. get_or-set c.terminal_array i j t no_terminal h;
}

pub Moves-trans :
    {c c' c'' : Console} {i : ℕ} {t t' : Terminal}
    → Moves c c' i t
    → Moves c' c'' i t'
    → Moves c c'' i t'
Moves-trans {c} {c'} {c''} {i} a b = record {
  count = b.count ∙ a.count;
  curr = b.curr ∙ a.curr;
  screen = b.screen ∙ a.screen;
  moved = λ j h. ground (arith, b.moved j (rw a.count h), a.moved j h);
}

-- The terminal that check_size looks at.
abbrev pub checked : Console → ℕ
checked c = if c.terminal_flag == 1 then c.curr_terminal else c.screen_terminal

pub Moves-refl : (c : Console) (i : ℕ) → Moves c c i (terminal c i)
Moves-refl c i = record { count = refl; curr = refl; screen = refl; moved = λ j h. same j }
  where
    same : (j : ℕ) → terminal c j ≡ (if i == j then terminal c i else terminal c j)
    same j = ground arith

abbrev pub wrap : Terminal → Terminal
wrap t = if leb num_cols t.screen_x then record t { screen_y = t.screen_y + 1; screen_x = 0 } else t

pub check_size-Moves :
    (c : Console) → Moves c (check_size c) (checked c) (wrap (terminal c (checked c)))
unfolding check_size
check_size-Moves c = elim (Bool-cases (leb num_cols (terminal c (checked c)).screen_x)) [
  | inl full ↦ rw full (set_terminal-Moves (checked c) _ c)
  | inr room ↦ rw room (Moves-refl c (checked c))
]

-- Video memory is no part of where the terminals stand.
pub video-Moves :
    (c : Console) (m : ℕ → ℕ) {c' : Console} {i : ℕ} {t : Terminal}
    → Moves (record c { video = m }) c' i t
    → Moves c c' i t
video-Moves c m s = record { count = s.count; curr = s.curr; screen = s.screen; moved = s.moved }

abbrev pub step_right : Terminal → Terminal
step_right t = record t { screen_x = t.screen_x + 1 }

-- The column moves, then the line is checked.
pub step-Moves :
    (i : ℕ) (t : Terminal) (c : Console)
    → i < length c.terminal_array
    → i ≡ checked c
    → Moves c (check_size (set_terminal i t c)) i (wrap t)
step-Moves i t c h e =
    let s = set_terminal-Moves i t c in
    let k : checked (set_terminal i t c) ≡ i = (unfold set_terminal in sym e) in
    let here : terminal (set_terminal i t c) i ≡ t = ground (arith, s.moved i h) in
    let q = check_size-Moves (set_terminal i t c) in Moves-trans s (rw (k, here) at q)

pub put_char-Moves :
    (i page ch : ℕ) (c : Console)
    → i < length c.terminal_array
    → i ≡ checked c
    → Moves c (put_char i page ch c) i (advance ch (terminal c i))
unfolding put_char advance
put_char-Moves i page ch c h e = elim (Bool-cases ((ch == new_line) || (ch == carriage_return))) [
  | inl line ↦ rw line (set_terminal-Moves i _ c)
  | inr plain ↦ rw plain (video-Moves c _ (step-Moves i _ (record c { video = _ }) h e))
]

pub scroll_if_full-Moves :
    (i page : ℕ) (c : Console) → Moves c (scroll_if_full i page c) i (settle (terminal c i))
unfolding scroll_if_full settle
scroll_if_full-Moves i page c = elim (Bool-cases (ltb (num_rows - 1) (terminal c i).screen_y)) [
  | inl full ↦ rw full (video-Moves c _ (set_terminal-Moves i _ (record c { video = _ })))
  | inr room ↦ rw room (Moves-refl c i)
]

pub cursor-Moves :
    {c c' : Console} {i : ℕ} {t : Terminal} → Moves c c' i t → Moves c (move_cursor c') i t
unfolding move_cursor
cursor-Moves s = record { count = s.count; curr = s.curr; screen = s.screen; moved = s.moved }

pub mark_target-same :
    (c : Console)
    → ((mark_target c).terminal_array ≡ c.terminal_array)
      × ((mark_target c).curr_terminal ≡ c.curr_terminal)
      × ((mark_target c).screen_terminal ≡ c.screen_terminal)
      × (checked (mark_target c) ≡ target c)
      × ((mark_target c).video ≡ c.video)
unfolding mark_target target is_hidden
mark_target-same c = ground arith

pub target-lt : {c : Console} → IsConsole c → target c < max_terminals
unfolding target is_hidden
target-lt v = ground (arith, v.curr, v.screen)

pub mark-Moves :
    {c c' : Console} {i : ℕ} {t : Terminal} → Moves (mark_target c) c' i t → Moves c c' i t
mark-Moves {c} {c'} {i} {t} s =
    let (a, b, d, _, _) = mark_target-same c in
    record {
      count = s.count ∙ ap length a;
      curr = s.curr ∙ b;
      screen = s.screen ∙ d;
      moved = λ j h. rw (← a) (s.moved j (rw a h));
    }

-- Where putc leaves the terminals: the target's position advances and settles, all else stays.
pub putc-Moves :
    (ch : ℕ) {c : Console}
    → IsConsole c
    → Moves c (putc ch c) (target c) (settle (advance ch (terminal c (target c))))
unfolding putc
putc-Moves ch {c} v =
    let i = target c in
    let page = target_page c in
    let m = mark_target c in
    let same = mark_target-same c in
    let here : terminal m i ≡ terminal c i = ap (λ ts. get_or ts i no_terminal) same.0 in
    let h : i < length m.terminal_array = rw (same.0, v.count) (target-lt v) in
    let p = put_char-Moves i page ch m h (sym same.3) in
    let q = scroll_if_full-Moves i page (put_char i page ch m) in
    let there : terminal (put_char i page ch m) i ≡ advance ch (terminal m i) =
      ground (arith, p.moved i h) in
    cursor-Moves (mark-Moves (rw (there, here) at (Moves-trans p q)))

-- A step that leaves a placed terminal keeps the console well-formed.
pub Moves-IsConsole :
    {c c' : Console} {i : ℕ} {t : Terminal}
    → IsConsole c
    → i < max_terminals
    → Placed t
    → Moves c c' i t
    → IsConsole c'
Moves-IsConsole {c} {c'} {i} {t} v h p s = record {
  count = s.count ∙ v.count;
  curr = rw s.curr v.curr;
  screen = rw s.screen v.screen;
  placed = λ j k. at_each j k;
}
  where
    at_each : (j : ℕ) → j < max_terminals → Placed (terminal c' j)
    at_each j k = rw (s.moved j (rw v.count h)) (choose (Bool-cases (i == j)))
      where
        choose :
            ((i == j) ≡ true) ⊎ ((i == j) ≡ false) → Placed (if i == j then t else terminal c j)
        choose (inl e) = rw e p
        choose (inr e) = rw e (v.placed j k)
