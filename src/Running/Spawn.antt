-- ===== src/Running/Spawn.antt =====
-- The process that system_execute of student-distrib/syscalls.c makes, in the whole state.
use mathlib.Core.Path.{subst}
use linux_like_os_project.Prelude.{
  ℕ, ◌<◌, ◌≡◌, ◌≢◌, refl, sym, ap, ◌∙◌, ◌==◌, ==_iff, if◌then◌else◌, inl, inr, Bool-cases, set,
}
use linux_like_os_project.FileSys.{Dentry, read_data}
use linux_like_os_project.Console.{terminal, max_terminals}
use linux_like_os_project.Console.Cursor.{IsConsole}
use linux_like_os_project.Kernel.{Kernel, Pcb, base_shell_parent, set_pcb, update_tss}
use linux_like_os_project.Kernel.Descriptors.{if_self}
use linux_like_os_project.Kernel.Safety.{IsFds}
use linux_like_os_project.Kernel.Launch.{fresh_fds-IsFds, make_pcb-fds}
use linux_like_os_project.Kernel.Execute.{
  Registers, home_terminal, take_process, save_parent, make_pcb, word_of,
}
use linux_like_os_project.Kernel.Child.{child, make_pcb-other}
use linux_like_os_project.Kernel.Forest.Change.{put, put_self, put_ne, eq-cases}
use linux_like_os_project.Running.{tops, parents}
use linux_like_os_project.Running.Retop.{
  Retops, Retops-Stays, set_terminal-Retops, update_tss-Quiet,
}

-- The parent of a new process.
abbrev pub new_parent : Kernel → ℕ
new_parent k = if k.base_shell == 1 then base_shell_parent else tops k k.console.screen_terminal

-- A process `pid` made.
pub record Spawns (pid : ℕ) (k k' : Kernel) : Type 0 where
  pub console : Retops (home_terminal k) pid k.console k'.console
  pub processes : k'.cur_processes ≡ set k.cur_processes pid 1
  pub base : k'.base_shell ≡ 0
  pub image : k'.image ≡ k.image
  pub parent : (p : ℕ) → parents k' p ≡ put pid (new_parent k) (parents k) p
  pub order : IsFds (k'.pcbs pid).file_descriptors
  pub others : (p : ℕ) → pid ≢ p → (k'.pcbs p).file_descriptors ≡ (k.pcbs p).file_descriptors

-- Only the caller's stack pointers are saved.
save_parent-parent :
    (regs : Registers) (k : Kernel) (p : ℕ)
    → ((save_parent regs k).pcbs p).parent_pid ≡ (k.pcbs p).parent_pid
unfolding save_parent set_pcb
save_parent-parent regs k p = elim (Bool-cases (k.base_shell == 1)) [
  | inl base ↦ rw base refl
  | inr not_base ↦ elim (Bool-cases (p == (terminal k.console k.console.screen_terminal).pid)) [
    | inl e ↦ rw (not_base, e) (ap (λ q. (k.pcbs q).parent_pid) (sym ((==_iff _ _).0 e)))
    | inr ne ↦ rw (not_base, ne) refl
  ]
]

save_parent-files :
    (regs : Registers) (k : Kernel) (p : ℕ)
    → ((save_parent regs k).pcbs p).file_descriptors ≡ (k.pcbs p).file_descriptors
unfolding save_parent set_pcb
save_parent-files regs k p = elim (Bool-cases (k.base_shell == 1)) [
  | inl base ↦ rw base refl
  | inr not_base ↦ elim (Bool-cases (p == (terminal k.console k.console.screen_terminal).pid)) [
    | inl e ↦ rw (not_base, e) (ap (λ q. (k.pcbs q).file_descriptors) (sym ((==_iff _ _).0 e)))
    | inr ne ↦ rw (not_base, ne) refl
  ]
]

make_pcb-Spawns :
    (pid eip : ℕ) (k : Kernel)
    → IsConsole k.console
    → home_terminal k < max_terminals
    → let k' = make_pcb pid eip k in
      Retops (home_terminal k) pid k.console k'.console
      × ((p : ℕ) → parents k' p ≡ put pid (new_parent k) (parents k) p)
      × IsFds (k'.pcbs pid).file_descriptors
      × ((p : ℕ) → pid ≢ p → (k'.pcbs p).file_descriptors ≡ (k.pcbs p).file_descriptors)
unfolding make_pcb set_pcb
make_pcb-Spawns pid eip k v h = (
  set_terminal-Retops (home_terminal k) pid v h,
  λ p. elim (eq-cases pid p) [
    | inl e ↦
        subst (λ q. parents (make_pcb pid eip k) q ≡ put pid (new_parent k) (parents k) q) e own
    | inr ne ↦
        ap (λ (b : Pcb). b.parent_pid) (make_pcb-other pid eip p k (λ e. ne (sym e)))
        ∙ sym (put_ne (new_parent k) (parents k) ne)
  ],
  subst IsFds (sym (make_pcb-fds pid eip k)) (fresh_fds-IsFds (k.pcbs pid).file_descriptors),
  λ p ne. ap (λ (b : Pcb). b.file_descriptors) (make_pcb-other pid eip p k (λ e. ne (sym e))),
)
  where
    own : parents (make_pcb pid eip k) pid ≡ put pid (new_parent k) (parents k) pid
    own =
        ap (λ (b : Pcb). b.parent_pid) (if_self pid _ _)
        ∙ sym (put_self pid (new_parent k) (parents k))

put-ap : (i v : ℕ) {f g : ℕ → ℕ} → ((p : ℕ) → f p ≡ g p) → (p : ℕ) → put i v f p ≡ put i v g p
put-ap i v {f} {g} e p = elim (eq-cases i p) [
  | inl here ↦ subst (λ q. put i v f q ≡ put i v g q) here (put_self i v f ∙ sym (put_self i v g))
  | inr ne ↦ put_ne v f ne ∙ e p ∙ sym (put_ne v g ne)
]

update_tss-files :
    (pid i : ℕ) (k : Kernel) (p : ℕ)
    → ((update_tss pid i k).pcbs p).file_descriptors ≡ (k.pcbs p).file_descriptors
unfolding update_tss
update_tss-files pid i k p = refl

pub child-Spawns :
    (regs : Registers) (pid : ℕ) (e : Dentry) (k : Kernel)
    → IsConsole k.console
    → home_terminal k < max_terminals
    → Spawns pid k (child regs pid e k)
unfolding take_process save_parent make_pcb set_pcb
child-Spawns regs pid e k v h =
    let k1 = take_process pid e k in
    let k2 = save_parent regs k1 in
    let eip = word_of (read_data k.image e.inode_num 24 4).1 in
    let k3 = make_pcb pid eip k2 in
    let s = make_pcb-Spawns pid eip k2 v h in
    let q = update_tss-Quiet pid k3.console.curr_terminal k3 s.0.formed s.0.formed.curr in
    record {
      console = Retops-Stays s.0 q.console;
      processes = q.processes;
      base = q.base;
      image = q.image;
      parent = λ p. q.parent p ∙ s.1 p ∙ put-ap pid _ (save_parent-parent regs k1) p;
      order = q.order pid s.2;
      others = λ p ne. update_tss-files pid _ k3 p ∙ s.3 p ne ∙ save_parent-files regs k1 p;
    }
