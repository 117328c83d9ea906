-- ===== src/Kernel/Rounds.antt =====
-- Three switches of the scheduler of student-distrib/pit.c in a row.
use linux_like_os_project.Prelude.{
  ℕ, ◌+◌, ◌%◌, ◌<◌, ◌≡◌, ◌≢◌, refl, ap, ◌∙◌, List, ◌==◌, if◌then◌else◌, arith,
}
use linux_like_os_project.Console.{terminal, max_terminals}
use linux_like_os_project.Kernel.{Kernel, Pcb, curr_pid, set_pcb}
use linux_like_os_project.Kernel.Descriptors.{if_self}
use linux_like_os_project.Kernel.Execute.{Registers}
use linux_like_os_project.Kernel.Schedule.{switched, save_old, enter_next, switch_to, scheduler}

-- The states that the three switches of a round lead to, all terminals having their shells.
abbrev pub next : Registers → Kernel → Kernel
next regs k = enter_next (save_old regs k)

if_one : {A : Type 0} → (n : ℕ) (a b : A) → n ≡ 1 → (if n == 0 then a else b) ≡ b
if_one n a b h = ground arith

pub scheduler-switched :
    (regs : Registers) (buf : List ℕ) (k : Kernel)
    → (terminal k.console ((k.console.curr_terminal + 1) % max_terminals)).flag ≡ 1
    → scheduler regs buf k
      ≡ switched
          ((save_old regs k).pcbs (curr_pid (save_old regs k))).esp
          ((save_old regs k).pcbs (curr_pid (save_old regs k))).ebp
          (next regs k)
unfolding scheduler switch_to save_old
scheduler-switched regs buf k h = if_one _ _ _ h

-- Three switches lead back to the terminal that the round began with.
round_curr : (i : ℕ) → i < 3 → (((i + 1) % 3 + 1) % 3 + 1) % 3 ≡ i
round_curr i h = ground arith

next-console :
    (regs : Registers) (k : Kernel)
    → (next regs k).console
      ≡ record k.console { curr_terminal = (k.console.curr_terminal + 1) % max_terminals }
unfolding save_old enter_next set_pcb
next-console regs k = refl

next-pcbs :
    (regs : Registers) (k : Kernel) (p : ℕ)
    → (next regs k).pcbs p ≡ (
        if p == curr_pid k
        then record (k.pcbs (curr_pid k)) { esp = regs.esp; ebp = regs.ebp }
        else k.pcbs p)
unfolding save_old enter_next set_pcb
next-pcbs regs k p = refl

if_other : {A : Type 0} → (m n : ℕ) (a b : A) → m ≢ n → (if m == n then a else b) ≡ b
if_other m n a b h = ground arith

-- scheduler: with one of the three terminals scheduled, a shell on each (flag 1), and a process on it that
-- is on no other terminal, three switches in a row go through the terminals in turn, each to the process
-- of the next one. The third goes back to the first process at the stack pointers at which the first
-- switch left it, with the first terminal scheduled again and the console as it was.
pub round_lem :
    (buf : List ℕ) (r0 r1 r2 : Registers) (k : Kernel)
    → k.console.curr_terminal < max_terminals
    → ((i : ℕ) → i < max_terminals → (terminal k.console i).flag ≡ 1)
    → ((i : ℕ)
        → i < max_terminals
        → i ≢ k.console.curr_terminal
        → curr_pid k ≢ (terminal k.console i).pid)
    → let k1 = next r0 k in
      let k2 = next r1 k1 in
      let k3 = next r2 k2 in
      (scheduler r0 buf k ≡ switched (k1.pcbs (curr_pid k1)).esp (k1.pcbs (curr_pid k1)).ebp k1)
      × (scheduler r1 buf k1 ≡ switched (k2.pcbs (curr_pid k2)).esp (k2.pcbs (curr_pid k2)).ebp k2)
      × (scheduler r2 buf k2 ≡ switched r0.esp r0.ebp k3)
      × (k3.console ≡ k.console)
unfolding save_old enter_next set_pcb
round_lem buf r0 r1 r2 k h f d = (
  scheduler-switched r0 buf k (f _ (ground arith)),
  scheduler-switched r1 buf (next r0 k) (f _ (ground arith)),
  scheduler-switched r2 buf (next r1 (next r0 k)) (f _ (ground arith))
      ∙ ap (λ (p : Pcb). switched p.esp p.ebp (next r2 (next r1 (next r0 k)))) back,
  ap (λ i. record k.console { curr_terminal = i }) (round_curr k.console.curr_terminal h),
)
  where
    same : curr_pid (next r2 (next r1 (next r0 k))) ≡ curr_pid k
    same = ap (λ i. (terminal k.console i).pid) (round_curr k.console.curr_terminal h)

    back :
        (next r2 (next r1 (next r0 k))).pcbs (curr_pid (next r2 (next r1 (next r0 k))))
        ≡ record (k.pcbs (curr_pid k)) { esp = r0.esp; ebp = r0.ebp }
    back =
        ap (λ p. (next r2 (next r1 (next r0 k))).pcbs p) same
        ∙ next-pcbs r2 (next r1 (next r0 k)) (curr_pid k)
        ∙ if_other _ _ _ _ (d _ (ground arith) (ground arith))
        ∙ next-pcbs r1 (next r0 k) (curr_pid k)
        ∙ if_other _ _ _ _ (d _ (ground arith) (ground arith))
        ∙ next-pcbs r0 k (curr_pid k)
        ∙ if_self (curr_pid k) _ _
