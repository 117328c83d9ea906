-- ===== src/Kernel/Schedule.antt =====
-- scheduler of student-distrib/pit.c, up to the switch of the stack.
use linux_like_os_project.Prelude.{ℕ, ◌+◌, ◌/◌, ◌%◌, List, [], ◌∷◌, some, ◌==◌, if◌then◌else◌}
use linux_like_os_project.Console.{terminal, set_terminal, clear, max_terminals, video_addr}
use linux_like_os_project.Paging.{align, process_page, set_video_base}
use linux_like_os_project.Kernel.{Kernel, curr_pid, set_pcb}
use linux_like_os_project.Kernel.Execute.{Registers, failed, entered, system_execute}

-- Another process goes on at its stack pointers, or the first shell of a terminal is entered.
pub data Switched : Type 0 where
  switched : ℕ → ℕ → Kernel → Switched
  started : ℕ → Kernel → Switched

-- The name "shell".
abbrev pub shell : List ℕ
shell = 115 ∷ 104 ∷ 101 ∷ 108 ∷ 108 ∷ []

-- The next terminal is chosen, the stack pointers of the process that is left are saved.
unfoldable pub save_old : Registers → Kernel → Kernel
unfolding set_pcb
save_old regs k =
    let old = curr_pid k in
    set_pcb old (record (k.pcbs old) { esp = regs.esp; ebp = regs.ebp })
      (record k {
        console = record k.console {
          curr_terminal = (k.console.curr_terminal + 1) % max_terminals;
        };
      })

-- A terminal that has no shell yet.
unfoldable pub mark_started : Kernel → Kernel
mark_started k =
    let c = clear k.console in
    record k {
      console = set_terminal c.curr_terminal (record (terminal c c.curr_terminal) { flag = 1 }) c;
      base_shell = 1;
    }

-- The video page and the user page of the chosen terminal's process, and its kernel stack.
unfoldable pub enter_next : Kernel → Kernel
enter_next k =
    let c = k.console in
    let base =
      if c.curr_terminal == c.screen_terminal
      then video_addr / align
      else video_addr / align + (c.curr_terminal + 1) in
    let t = terminal c c.curr_terminal in
    record k {
      paging = process_page (curr_pid k) (set_video_base base k.paging);
      tss_esp0 = t.base_tss_esp0;
      tss_ss0 = t.base_tss_ss0;
    }

unfoldable pub switch_to : Kernel → Switched
unfolding enter_next
switch_to k = switched (k.pcbs (curr_pid k)).esp (k.pcbs (curr_pid k)).ebp (enter_next k)

-- `buf` is the array of four bytes of system_execute.
unfoldable pub scheduler : Registers → List ℕ → Kernel → Switched
scheduler regs buf k =
    let k' = save_old regs k in
    if (terminal k'.console k'.console.curr_terminal).flag == 0
    then (elim (system_execute regs buf (some shell) (mark_started k')) [
      | failed k'' ↦ switch_to k''
      | entered eip k'' ↦ started eip k''
    ])
    else switch_to k'
