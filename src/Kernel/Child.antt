-- ===== src/Kernel/Child.antt =====
-- The kernel that a program entered by system_execute of student-distrib/syscalls.c finds.
use mathlib.Core.Path.{subst}
use linux_like_os_project.Prelude.{
  ℕ, ◌<◌, ◌≡◌, ◌≢◌, refl, ap, ◌∙◌, ◌==◌, set, length, length-set, false, arith,
}
use linux_like_os_project.FileSys.{Dentry, read_data}
use linux_like_os_project.Console.{terminal, set_terminal, max_terminals}
use linux_like_os_project.Kernel.{Kernel, Pcb, curr_pid, update_tss, set_pcb}
use linux_like_os_project.Kernel.Descriptors.{if_self, if_ne}
use linux_like_os_project.Kernel.Execute.{
  make_pcb, save_parent, take_process, Registers, home_terminal, word_of,
}
use linux_like_os_project.Kernel.Launch.{make_pcb-current}

-- The kernel when the program is entered.
abbrev pub child : Registers → ℕ → Dentry → Kernel → Kernel
child regs pid e k =
    let k' =
      make_pcb pid (word_of (read_data k.image e.inode_num 24 4).1)
        (save_parent regs (take_process pid e k)) in
    update_tss pid k'.console.curr_terminal k'

-- What of it the halt depends on.
pub record Child (regs : Registers) (pid : ℕ) (k k' : Kernel) : Type 0 where
  pub count : length k'.console.terminal_array ≡ max_terminals
  pub curr : k'.console.curr_terminal ≡ k.console.curr_terminal
  pub current : curr_pid k' ≡ pid
  pub parent : (k'.pcbs pid).parent_pid ≡ curr_pid k
  pub esp : (k'.pcbs (curr_pid k)).esp ≡ regs.esp
  pub ebp : (k'.pcbs (curr_pid k)).ebp ≡ regs.ebp
  pub same : (k'.pcbs (curr_pid k)).file_descriptors ≡ (k.pcbs (curr_pid k)).file_descriptors
  pub taken : k'.cur_processes ≡ set k.cur_processes pid 1

home-curr :
    (regs : Registers) (pid : ℕ) (e : Dentry) (k : Kernel)
    → k.console.screen_terminal ≡ k.console.curr_terminal
    → home_terminal (save_parent regs (take_process pid e k)) ≡ k.console.curr_terminal
unfolding take_process save_parent
home-curr regs pid e k hs = ground (arith, hs)

pub make_pcb-other : (pid eip q : ℕ) (k : Kernel) → q ≢ pid → (make_pcb pid eip k).pcbs q ≡ k.pcbs q
unfolding make_pcb set_pcb
make_pcb-other pid eip q k h = if_ne {j = q} {l = pid} _ _ h

make_pcb-parent :
    (pid eip : ℕ) (k : Kernel)
    → k.base_shell ≡ 0
    → ((make_pcb pid eip k).pcbs pid).parent_pid
      ≡ (terminal k.console k.console.screen_terminal).pid
unfolding make_pcb set_pcb
make_pcb-parent pid eip k b =
    let other : (k.base_shell == 1) ≡ false = ground (arith, b) in
    ap (λ (p : Pcb). p.parent_pid) (if_self pid _ _) ∙ rw other refl

save_parent-block :
    (regs : Registers) (k : Kernel)
    → k.base_shell ≡ 0
    → let parent = (terminal k.console k.console.screen_terminal).pid in
      (save_parent regs k).pcbs parent ≡ record (k.pcbs parent) { esp = regs.esp; ebp = regs.ebp }
unfolding save_parent set_pcb
save_parent-block regs k b =
    let other : (k.base_shell == 1) ≡ false = ground (arith, b) in
    let parent = (terminal k.console k.console.screen_terminal).pid in rw other (if_self parent _ _)

pub child-Child :
    (regs : Registers) (pid : ℕ) (e : Dentry) (k : Kernel)
    → length k.console.terminal_array ≡ max_terminals
    → k.console.curr_terminal < max_terminals
    → k.console.screen_terminal ≡ k.console.curr_terminal
    → k.base_shell ≡ 0
    → curr_pid k ≢ pid
    → Child regs pid k (child regs pid e k)
unfolding take_process save_parent make_pcb update_tss set_pcb set_terminal
child-Child regs pid e k n hc hs b h =
    let k0 = take_process pid e k in
    let k1 = save_parent regs k0 in
    let eip = word_of (read_data k.image e.inode_num 24 4).1 in
    let shown : (terminal k.console k.console.screen_terminal).pid ≡ curr_pid k =
      ap (λ i. (terminal k.console i).pid) hs in
    let block : (child regs pid e k).pcbs (curr_pid k)
        ≡ record (k.pcbs (curr_pid k)) { esp = regs.esp; ebp = regs.ebp } =
      make_pcb-other pid eip (curr_pid k) k1 h
      ∙ subst (λ q. k1.pcbs q ≡ record (k.pcbs q) { esp = regs.esp; ebp = regs.ebp }) shown
          (save_parent-block regs k0 b) in
    record {
      count = length-set _ _ _ ∙ length-set _ _ _ ∙ n;
      curr = refl;
      current =
          subst (λ j. (terminal (child regs pid e k).console j).pid ≡ pid)
            (home-curr regs pid e k hs)
            (make_pcb-current pid eip k.console.curr_terminal k1
              (rw (home-curr regs pid e k hs, n) hc) (rw n hc));
      parent = make_pcb-parent pid eip k1 b ∙ shown;
      esp = ap (λ (p : Pcb). p.esp) block;
      ebp = ap (λ (p : Pcb). p.ebp) block;
      same = ap (λ (p : Pcb). p.file_descriptors) block;
      taken = refl;
    }
