-- ===== src/Kernel/Leave.antt =====
-- What system_halt of student-distrib/syscalls.c leaves to the parent process.
use mathlib.Core.Path.{subst}
use linux_like_os_project.Prelude.{
  ℕ, ◌+◌, ◌*◌, ◌<◌, ◌≤◌, ◌≡◌, refl, sym, ap, ◌∙◌, List, Option, none, some, false, arith, ◌==◌,
  if◌then◌else◌, get_or, set, length, length-set, get_or-set, Bool, true, Bool-cases, inl, inr,
  ==_iff,
}
use linux_like_os_project.Console.{
  Console, Terminal, no_terminal, terminal, set_terminal, max_terminals,
}
use linux_like_os_project.Paging.{num_processes, four_mb, eight_mb}
use linux_like_os_project.Paging.User.{user_frame, process_page_lem}
use linux_like_os_project.Kernel.{
  Kernel, Fd, no_fd, not_in_use, base_shell_parent, kernel_stack, update_tss, curr_pid, curr_pcb,
  curr_fd, file_descriptor_max,
}
use linux_like_os_project.Kernel.Descriptors.{if_self, curr_fds}
use linux_like_os_project.Kernel.Safety.{IsFds}
use linux_like_os_project.Kernel.Closing.{IsClosed, close_all-IsClosed}
use linux_like_os_project.Kernel.Launch.{terminal-pid}
use linux_like_os_project.Kernel.Halt.{
  Halted, restarted, resumed, ext_status, leave_process, enter_parent, system_halt,
}

-- Where a terminal prints next.
abbrev pub place_of : Terminal → ℕ × ℕ
place_of t = (t.screen_x, t.screen_y)

place-if :
    (b : Bool) (t u : Terminal)
    → place_of (if b then t else u) ≡ (if b then place_of t else place_of u)
place-if true t u = refl
place-if false t u = refl

set_terminal-place :
    (c : Console) (i j : ℕ) (t : Terminal)
    → i < length c.terminal_array
    → place_of t ≡ place_of (terminal c i)
    → place_of (terminal (set_terminal i t c) j) ≡ place_of (terminal c j)
unfolding set_terminal
set_terminal-place c i j t h e =
    ap place_of (get_or-set c.terminal_array i j t no_terminal h)
    ∙ place-if (i == j) t _
    ∙ (elim (Bool-cases (i == j)) [
      | inl same ↦ rw same (e ∙ ap (λ m. place_of (terminal c m)) ((==_iff _ _).0 same))
      | inr other ↦ rw other refl
    ])

-- What a call that gives way to the parent leaves; `files` is about the parent's descriptors.
pub record Halts (k : Kernel) (parent : ℕ) (k' : Kernel) : Type 0 where
  pub freed : k'.cur_processes ≡ set k.cur_processes (curr_pid k) 0
  pub current : curr_pid k' ≡ parent
  pub page : user_frame k'.paging ≡ eight_mb + four_mb * parent
  pub stack : k'.tss_esp0 ≡ kernel_stack parent
  pub files : (l : ℕ) → 2 ≤ l → l < file_descriptor_max → (curr_fd k' l).flags ≡ not_in_use
  pub order : IsFds (curr_fds k')
  pub video : k'.console.video ≡ k.console.video
  pub place : (j : ℕ) → place_of (terminal k'.console j) ≡ place_of (terminal k.console j)

unfoldable pub IsHalted : ℕ → ℕ → Kernel → Option Halted → Type 0
IsHalted status parent k none = ⊥
IsHalted status parent k (some (restarted eip k')) = ⊥
IsHalted status parent k (some (resumed s esp ebp k')) =
    (s ≡ (if status == 255 then 256 else status))
    × (esp ≡ (k.pcbs parent).esp)
    × (ebp ≡ (k.pcbs parent).ebp)
    × Halts k parent k'

pub leave_process-curr_pid :
    (parent : ℕ) (k : Kernel)
    → k.console.curr_terminal < length k.console.terminal_array
    → curr_pid (leave_process parent k) ≡ parent
unfolding leave_process set_terminal
leave_process-curr_pid parent k h =
    terminal-pid k.console k.console.curr_terminal k.console.curr_terminal _ h
    ∙ if_self k.console.curr_terminal _ _

leave_process-IsFds :
    (parent : ℕ) (k : Kernel)
    → k.console.curr_terminal < length k.console.terminal_array
    → IsFds (k.pcbs parent).file_descriptors
    → IsFds (curr_fds (leave_process parent k))
unfolding leave_process set_terminal
leave_process-IsFds parent k h v =
    subst (λ p. IsFds (k.pcbs p).file_descriptors) (sym (leave_process-curr_pid parent k h)) v

enter_parent-curr_pid :
    (parent : ℕ) (k : Kernel)
    → k.console.curr_terminal < length k.console.terminal_array
    → curr_pid (enter_parent parent k) ≡ parent
unfolding enter_parent update_tss set_terminal
enter_parent-curr_pid parent k h =
    terminal-pid (update_tss parent k.console.curr_terminal k).console k.console.curr_terminal
      k.console.curr_terminal _
      (subst (λ n. k.console.curr_terminal < n)
        (sym (length-set k.console.terminal_array k.console.curr_terminal _)) h)
    ∙ if_self k.console.curr_terminal _ _

enter_parent-curr_fds :
    (parent : ℕ) (k : Kernel)
    → k.console.curr_terminal < length k.console.terminal_array
    → curr_pid k ≡ parent
    → curr_fds (enter_parent parent k) ≡ curr_fds k
unfolding enter_parent update_tss
enter_parent-curr_fds parent k h e =
    ap (λ p. (k.pcbs p).file_descriptors) (enter_parent-curr_pid parent k h ∙ sym e)

leave_process-length :
    (parent : ℕ) (k : Kernel)
    → length (leave_process parent k).console.terminal_array ≡ length k.console.terminal_array
unfolding leave_process set_terminal
leave_process-length parent k = length-set k.console.terminal_array k.console.curr_terminal _

pub leave_process-curr :
    (parent : ℕ) (k : Kernel)
    → (leave_process parent k).console.curr_terminal ≡ k.console.curr_terminal
unfolding leave_process set_terminal
leave_process-curr parent k = refl

leave_process-place :
    (parent : ℕ) (k : Kernel) (j : ℕ)
    → k.console.curr_terminal < length k.console.terminal_array
    → place_of (terminal (leave_process parent k).console j) ≡ place_of (terminal k.console j)
unfolding leave_process
leave_process-place parent k j h = set_terminal-place k.console k.console.curr_terminal j _ h refl

enter_parent-place :
    (parent : ℕ) (k : Kernel) (j : ℕ)
    → k.console.curr_terminal < length k.console.terminal_array
    → place_of (terminal (enter_parent parent k).console j) ≡ place_of (terminal k.console j)
unfolding enter_parent update_tss set_terminal
enter_parent-place parent k j h =
    set_terminal-place (update_tss parent k.console.curr_terminal k).console k.console.curr_terminal
      j _
      (subst (λ n. k.console.curr_terminal < n)
        (sym (length-set k.console.terminal_array k.console.curr_terminal _)) h)
      refl
    ∙ set_terminal-place k.console k.console.curr_terminal j _ h refl

-- A system_halt, once the descriptors are closed.
after_close_all :
    (status parent : ℕ) (k : Kernel) (r : Option Kernel)
    → length k.console.terminal_array ≡ max_terminals
    → k.console.curr_terminal < max_terminals
    → parent < num_processes
    → IsClosed (leave_process parent k) 0 8 r
    → IsHalted status parent k (elim r [
      | none ↦ none
      | some k' ↦ some (
          resumed
            (ext_status status)
            (k'.pcbs parent).esp
            (k'.pcbs parent).ebp
            (enter_parent parent k'))
    ])
unfolding IsClosed IsHalted ext_status leave_process enter_parent update_tss set_terminal
after_close_all status parent k none n h p s = s
after_close_all status parent k (some k') n h p s = (
  refl,
  s.rest.esp parent,
  s.rest.ebp parent,
  record {
    freed = s.rest.cur_processes;
    current = enter_parent-curr_pid parent k' fits;
    page = ap user_frame s.rest.paging ∙ ground (arith, p, (process_page_lem parent k.paging 0).0);
    stack = refl;
    files = λ l a b.
        ap (λ (t : List Fd). (get_or t l no_fd).flags) same
        ∙ s.freed l a (omega arith) (omega (arith, b));
    order = subst IsFds (sym same) s.order;
    video = ap (λ (c : Console). c.video) s.rest.console;
    place = λ j.
        enter_parent-place parent k' j fits
        ∙ ap (λ (c : Console). place_of (terminal c j)) s.rest.console
        ∙ leave_process-place parent k j (omega (arith, n, h));
  },
)
  where
    fits : k'.console.curr_terminal < length k'.console.terminal_array
    fits =
        subst (λ (c : Console). c.curr_terminal < length c.terminal_array) (sym s.rest.console)
          (omega (arith, leave_process-length parent k, leave_process-curr parent k, n, h))

    same : curr_fds (enter_parent parent k') ≡ curr_fds k'
    same = enter_parent-curr_fds parent k' fits (
        ap (λ (c : Console). (terminal c c.curr_terminal).pid) s.rest.console
        ∙ leave_process-curr_pid parent k (omega (arith, n, h)))

-- system_halt: there are three terminals, the scheduled one among them, and the parent of its process is
-- one of the six processes, so that it is no base shell, with its descriptors in order. Then the call comes back in the parent's system_execute, at
-- the stack pointers saved there, with the status, which is 256 for an exception. The process number is
-- free again; the terminal's process, the user page and the kernel stack are the parent's. The descriptors
-- from 2 on of the terminal's process, which is now the parent, are closed. Video memory and the places on
-- the screen that the terminals print at are as they were.
pub system_halt_lem :
    (status : ℕ) (k : Kernel)
    → length k.console.terminal_array ≡ max_terminals
    → k.console.curr_terminal < max_terminals
    → (curr_pcb k).parent_pid < num_processes
    → IsFds (k.pcbs (curr_pcb k).parent_pid).file_descriptors
    → IsHalted status (curr_pcb k).parent_pid k (system_halt status k)
unfolding system_halt
system_halt_lem status k n h p v =
    let other : ((curr_pcb k).parent_pid == base_shell_parent) ≡ false = ground arith in
    rw (other, system_halt)
      (after_close_all status (curr_pcb k).parent_pid k _ n h p (
        close_all-IsClosed 8 0 (leave_process (curr_pcb k).parent_pid k)
          (leave_process-IsFds (curr_pcb k).parent_pid k (omega (arith, n, h)) v) (omega arith)))
