-- ===== src/LineEdit/Echo.antt =====
-- Where an edit of the shown terminal leaves the terminals.
use mathlib.Core.Path.{subst₂}
use linux_like_os_project.Prelude.{ℕ, ◌≡◌, refl, ◌∙◌, ap, arith}
use linux_like_os_project.Console.{Console, Terminal, terminal, target, is_hidden}
use linux_like_os_project.Console.Cursor.{
  IsConsole, Placed, Moves, Moves-IsConsole, Moves-trans, set_terminal-Moves, putc-Moves, advance,
  settle,
}
use linux_like_os_project.LineEdit.{edit_shown, echo}

-- Two terminals that differ in their position at most.
pub record SameLine (t t' : Terminal) : Type 0 where
  pub buffer : t'.buffer ≡ t.buffer
  pub buffer_size : t'.buffer_size ≡ t.buffer_size
  pub waiting_in_read : t'.waiting_in_read ≡ t.waiting_in_read
  pub enter_flag : t'.enter_flag ≡ t.enter_flag
  pub pid : t'.pid ≡ t.pid
  pub flag : t'.flag ≡ t.flag

pub advance-settle-SameLine : (ch : ℕ) (t : Terminal) → SameLine t (settle (advance ch t))
unfolding advance settle
advance-settle-SameLine ch t = ground arith

pub echo-Moves :
    (ch : ℕ) {c : Console}
    → IsConsole c
    → Moves c (echo ch c) c.screen_terminal (settle (advance ch (terminal c c.screen_terminal)))
unfolding echo
echo-Moves ch {c} v =
    let shown = record c { display_on_main_page = 1 } in
    let w : IsConsole shown = record {
      count = v.count;
      curr = v.curr;
      screen = v.screen;
      placed = v.placed;
    } in
    let t : target shown ≡ c.screen_terminal = (unfold target is_hidden in ground arith) in
    let s = rw t at (putc-Moves ch w) in
    record { count = s.count; curr = s.curr; screen = s.screen; moved = s.moved }

pub edit_shown-Moves :
    (f : Terminal → Terminal) (c : Console)
    → Moves c (edit_shown f c) c.screen_terminal (f (terminal c c.screen_terminal))
unfolding edit_shown
edit_shown-Moves f c = set_terminal-Moves c.screen_terminal (f (terminal c c.screen_terminal)) c

-- The shown terminal after a step that moves it.
pub shown-Moves :
    {c c' : Console} {t : Terminal}
    → IsConsole c
    → Moves c c' c.screen_terminal t
    → terminal c' c'.screen_terminal ≡ t
shown-Moves {c} {c'} {t} v s =
    rw s.screen (ground (arith, s.moved c.screen_terminal (rw v.count v.screen)))

-- An edit that leaves the position alone.
pub edit_shown-IsConsole :
    (f : Terminal → Terminal) {c : Console}
    → IsConsole c
    → Placed (f (terminal c c.screen_terminal))
    → IsConsole (edit_shown f c)
edit_shown-IsConsole f {c} v p = Moves-IsConsole v v.screen p (edit_shown-Moves f c)

pub Moves-at :
    {c c' : Console} {i j : ℕ} {t t' : Terminal} → i ≡ j → t ≡ t' → Moves c c' i t → Moves c c' j t'
Moves-at {c} {c'} e k s = subst₂ (λ i t. Moves c c' i t) e k s

-- An edit, an echo and an edit of the shown terminal.
pub typed-Moves :
    (f g : Terminal → Terminal) (ch : ℕ) {c : Console}
    → IsConsole c
    → Placed (f (terminal c c.screen_terminal))
    → Moves c
        (edit_shown g (echo ch (edit_shown f c)))
        c.screen_terminal
        (g (settle (advance ch (f (terminal c c.screen_terminal)))))
typed-Moves f g ch {c} v p =
    let i = c.screen_terminal in
    let c1 = edit_shown f c in
    let v1 = edit_shown-IsConsole f v p in
    let s1 = edit_shown-Moves f c in
    let t1 : terminal c1 c1.screen_terminal ≡ f (terminal c i) = shown-Moves v s1 in
    let s2 = echo-Moves ch v1 in
    let c2 = echo ch c1 in
    let t2 : terminal c2 c2.screen_terminal ≡ settle (advance ch (terminal c1 c1.screen_terminal)) =
      shown-Moves v1 s2 in
    let s3 = edit_shown-Moves g c2 in
    let e1 : c1.screen_terminal ≡ i = s1.screen in
    let e2 : c2.screen_terminal ≡ i = s2.screen ∙ e1 in
    Moves-trans (Moves-trans s1 (Moves-at e1 refl s2))
      (Moves-at e2 (ap (λ t. g t) (t2 ∙ ap (λ t. settle (advance ch t)) t1)) s3)
