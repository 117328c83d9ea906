-- ===== src/Running/Retop.antt =====
-- Another process on top of a terminal's, and the stack that update_tss of student-distrib/syscalls.c notes.
use mathlib.Core.Path.{subst}
use linux_like_os_project.Prelude.{
  ℕ, ◌<◌, ◌≡◌, refl, sym, ap, ◌∙◌, ◌==◌, ==_iff, inl, inr, Bool-cases, length,
}
use linux_like_os_project.Console.{Console, Terminal, terminal, set_terminal, max_terminals}
use linux_like_os_project.Console.Cursor.{IsConsole, Moves-IsConsole, set_terminal-Moves}
use linux_like_os_project.Console.Output.{Prints-Stays, Stays}
use linux_like_os_project.Kernel.{Kernel, curr_pid, update_tss}
use linux_like_os_project.Kernel.Descriptors.{curr_fds}
use linux_like_os_project.Kernel.Safety.{IsFds}
use linux_like_os_project.Kernel.Launch.{terminal-pid}
use linux_like_os_project.Kernel.Forest.Change.{put}
use linux_like_os_project.Running.{Quiet, console-Quiet}
use linux_like_os_project.Running.Calls.{terminal-Prints}

-- Terminal `i` has the process `p` now.
pub record Retops (i p : ℕ) (c c' : Console) : Type 0 where
  pub formed : IsConsole c'
  pub curr : c'.curr_terminal ≡ c.curr_terminal
  pub process : (j : ℕ) → (terminal c' j).pid ≡ put i p (λ l. (terminal c l).pid) j
  pub flag : (j : ℕ) → (terminal c' j).flag ≡ (terminal c j).flag

pub set_terminal-Retops :
    (i p : ℕ) {c : Console}
    → IsConsole c
    → i < max_terminals
    → Retops i p c (set_terminal i (record (terminal c i) { pid = p }) c)
set_terminal-Retops i p {c} v h =
    let t : Terminal = record (terminal c i) { pid = p } in
    let w = v.placed i h in
    let s = set_terminal-Moves i t c in
    let inside : i < length c.terminal_array = rw v.count h in
    record {
      formed = Moves-IsConsole v h (record { column = w.column; row = w.row }) s;
      curr = s.curr;
      process = λ j. terminal-pid c i j t inside;
      flag = λ j. elim (Bool-cases (i == j)) [
        | inl here ↦
            ap (λ (u : Terminal). u.flag) (s.moved j inside)
            ∙ rw here (ap (λ l. (terminal c l).flag) ((==_iff _ _).0 here))
        | inr there ↦ ap (λ (u : Terminal). u.flag) (s.moved j inside) ∙ rw there refl
      ];
    }

pub Retops-Stays :
    {i p : ℕ} {c c' c'' : Console} → Retops i p c c' → Stays c' c'' → Retops i p c c''
Retops-Stays r s = record {
  formed = s.formed;
  curr = s.curr ∙ r.curr;
  process = λ j. s.process j ∙ r.process j;
  flag = λ j. s.flag j ∙ r.flag j;
}

pub update_tss-Quiet :
    (pid i : ℕ) (k : Kernel)
    → IsConsole k.console
    → i < max_terminals
    → Quiet k (update_tss pid i k)
unfolding update_tss
update_tss-Quiet pid i k v h =
    console-Quiet (Prints-Stays (terminal-Prints i _ v h refl refl refl refl))

pub Quiet-curr_pid : {k k' : Kernel} → Quiet k k' → curr_pid k' ≡ curr_pid k
Quiet-curr_pid {k} {k'} q =
    ap (λ i. (terminal k'.console i).pid) q.console.curr ∙ q.console.process k.console.curr_terminal

pub Quiet-curr_fds : {k k' : Kernel} → Quiet k k' → IsFds (curr_fds k) → IsFds (curr_fds k')
Quiet-curr_fds {k} {k'} q o =
    subst (λ p. IsFds (k'.pcbs p).file_descriptors) (sym (Quiet-curr_pid q))
      (q.order (curr_pid k) o)
