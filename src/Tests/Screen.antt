-- ===== src/Tests/Screen.antt =====
-- Tests of the terminal's line and of the screen.
use linux_like_os_project.Prelude.{
  ℕ, [], ◌∷◌, ◌++◌, ◌≡◌, ◌%◌, ◌+◌, ◌-◌, refl, arith, min, take, if◌then◌else◌, ◌==◌, inl, true,
}
use linux_like_os_project.Console.{Console, terminal, scroll, num_rows, putc, video_addr}
use linux_like_os_project.Console.Scroll.{cell, scroll_lem}
use linux_like_os_project.Console.Page.{putc_hidden}
use linux_like_os_project.LineEdit.{end_of_line, edit_buffer, terminal_read, returned}
use linux_like_os_project.LineEdit.Line.{line}
use linux_like_os_project.LineEdit.Edit.{HasRoom}
use linux_like_os_project.LineEdit.Keys.{Done, shown, edit_buffer-Done}
use linux_like_os_project.LineEdit.Read.{Cleared, terminal_read_lem}
use linux_like_os_project.Tests.{sample_console, sample-IsConsole}

sample-HasRoom : HasRoom (shown sample_console)
sample-HasRoom = record { size = refl; room = omega arith }

edit_buffer-Done_example : Done 99 sample_console (edit_buffer 99 sample_console)
edit_buffer-Done_example =
    edit_buffer-Done 99 {c = sample_console} sample-IsConsole sample-HasRoom refl (omega arith)
      (omega arith) (λ s. omega (arith, s.0))

terminal_read_lem_example :
    (c' : Console) × (terminal_read true 5 sample_console
      ≡ returned (min (min 5 128) 3) (take (min 5 128 - 1) (97 ∷ 98 ∷ []) ++ (end_of_line ∷ [])) c')
    × Cleared (terminal c' 1)
    × ((j : ℕ) → terminal c' j ≡ (if 1 == j then terminal c' 1 else terminal sample_console j))
unfolding line
terminal_read_lem_example =
    terminal_read_lem 5 sample_console (97 ∷ 98 ∷ []) sample-IsConsole refl (omega arith) refl
      (omega arith, (omega arith, tt)) refl (omega arith) (omega arith)

scroll_lem_example :
    scroll 0 7 (λ a. a % 256) (cell 0 3 5) ≡ (if 3 == num_rows - 1 then 0 else cell 0 4 5 % 256)
scroll_lem_example = scroll_lem 0 7 (λ a. a % 256) 3 5 (omega arith) (omega arith)

putc_hidden_example : (putc 97 sample_console).video (video_addr + 10) ≡ 32
putc_hidden_example =
    putc_hidden 97 sample_console (video_addr + 10) sample-IsConsole (omega arith) refl
      (inl (omega arith))
