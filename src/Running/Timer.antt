-- ===== src/Running/Timer.antt =====
-- The scheduler of student-distrib/pit.c on a terminal whose shell is not started.
use mathlib.Core.Path.{subst}
use linux_like_os_project.Prelude.{
  ℕ, ◌+◌, ◌%◌, ◌<◌, ◌≡◌, refl, sym, ap, ◌∙◌, List, some, ◌==◌, ==_iff, if◌then◌else◌, inl, inr,
  Bool-cases, Bool, true, false, arith, set, length,
}
use linux_like_os_project.Console.{Console, Terminal, terminal, set_terminal, clear, max_terminals}
use linux_like_os_project.Console.Cursor.{Moves-IsConsole, set_terminal-Moves}
use linux_like_os_project.Console.Output.{clear-Prints}
use linux_like_os_project.Paging.{num_processes}
use linux_like_os_project.Kernel.{Kernel, set_pcb}
use linux_like_os_project.Kernel.Descriptors.{if_ne}
use linux_like_os_project.Kernel.Launch.{terminal-pid}
use linux_like_os_project.Kernel.Launch.{IsFreePid}
use linux_like_os_project.Kernel.Execute.{
  Outcome, Registers, failed, entered, find_pid, system_execute,
}
use linux_like_os_project.Kernel.Schedule.{
  Switched, started, switch_to, scheduler, save_old, mark_started, shell,
}
use linux_like_os_project.Kernel.Forest.{IsForest-same}
use linux_like_os_project.Running.{IsRunning}
use linux_like_os_project.Running.Shells.{IsDue, IsUp, HasShell, Enters, shell-Enters}
use linux_like_os_project.Running.Interrupts.{save_old-IsRunning}

-- A terminal's flag set on the cleared screen.
mark_started-IsDue :
    {n : ℕ} (k : Kernel)
    → IsRunning n k
    → k.console.curr_terminal ≡ n
    → ((i : ℕ) → n < i → i < max_terminals → (terminal k.console i).flag ≡ 0)
    → IsDue n (mark_started k)
unfolding mark_started
mark_started-IsDue {n} k v sched later =
    let p = clear-Prints v.formed in
    let c = clear k.console in
    let i = c.curr_terminal in
    let t : Terminal = record (terminal c i) { flag = 1 } in
    let w = p.formed.placed i p.formed.curr in
    let m = set_terminal-Moves i t c in
    let inside : i < length c.terminal_array = rw p.formed.count p.formed.curr in
    let flags : (j : ℕ)
        → (terminal (set_terminal i t c) j).flag ≡ (if i == j then 1 else (terminal c j).flag) =
      λ j. ap (λ (u : Terminal). u.flag) (m.moved j inside) ∙ flag-if (i == j) t (terminal c j) in
    let here : i ≡ n = p.curr ∙ sched in
    let pids : (j : ℕ) → (terminal (set_terminal i t c) j).pid ≡ (terminal c j).pid =
      λ j. terminal-pid c i j t inside ∙ if-same i j (λ l. (terminal c l).pid) in
    record {
      formed = Moves-IsConsole p.formed p.formed.curr (record { column = w.column; row = w.row }) m;
      scheduled = m.curr ∙ here;
      begun = λ j a. flags j ∙ elim (Bool-cases (i == j)) [
        | inl e ↦ rw e refl
        | inr ne ↦ rw ne (p.flag j ∙ v.started j (ground (arith, ne, here, a)))
      ];
      later = λ j a b.
          flags j
          ∙ if_ne {j = i} {l = j} _ _ (λ e. omega (arith, here, e, a))
          ∙ p.flag j
          ∙ later j a b;
      base = refl;
      forest = IsForest-same refl (λ j. pids j ∙ p.process j) (λ q. refl) v.forest;
      files = v.files;
      typed = v.typed;
    }
  where
    flag-if :
        (b : Bool) (t u : Terminal) → (if b then t else u).flag ≡ (if b then t.flag else u.flag)
    flag-if true t u = refl
    flag-if false t u = refl

    if-same : (l j : ℕ) (f : ℕ → ℕ) → (if l == j then f l else f j) ≡ f j
    if-same l j f = elim (Bool-cases (l == j)) [
      | inl e ↦ rw e (ap f ((==_iff _ _).0 e))
      | inr ne ↦ rw ne refl
    ]

-- What the timer leaves of the process that was running.
save_old-same :
    (regs : Registers) (k : Kernel)
    → ((save_old regs k).console
        ≡ record k.console { curr_terminal = (k.console.curr_terminal + 1) % max_terminals })
      × ((mark_started (save_old regs k)).cur_processes ≡ k.cur_processes)
      × ((mark_started (save_old regs k)).image ≡ k.image)
unfolding save_old mark_started set_pcb
save_old-same regs k = (refl, refl, refl)

if_zero : {A : Type 0} → (n : ℕ) (a b : A) → n ≡ 0 → (if n == 0 then a else b) ≡ a
if_zero n a b h = ground arith

scheduler-started :
    (regs : Registers) (buf : List ℕ) (k : Kernel) (eip : ℕ) (k' : Kernel)
    → (terminal (save_old regs k).console (save_old regs k).console.curr_terminal).flag ≡ 0
    → system_execute regs buf (some shell) (mark_started (save_old regs k)) ≡ entered eip k'
    → scheduler regs buf k ≡ started eip k'
unfolding scheduler
scheduler-started regs buf k eip k' off e =
    if_zero _ _ _ off
    ∙ ap
        (λ (o : Outcome). elim o as (λ _. Switched) [
          | failed k'' ↦ switch_to k''
          | entered eip k'' ↦ started eip k''
        ])
        e

-- The timer, with the next terminal's shell not started: that shell is entered.
pub timer-Enters :
    {n : ℕ} (regs : Registers) (buf : List ℕ) (pid : ℕ) (k : Kernel)
    → n + 1 < max_terminals
    → IsUp n k
    → HasShell k.image
    → find_pid num_processes 0 k.cur_processes ≡ some pid
    → IsFreePid k.cur_processes 0 num_processes pid
    → (eip : ℕ) × (k' : Kernel) × (scheduler regs buf k ≡ started eip k') × Enters (n + 1) pid k k'
timer-Enters {n} regs buf pid k h v has found f =
    let k1 = save_old regs k in
    let r = save_old-IsRunning regs k v.running in
    let same = save_old-same regs k in
    let sched : k1.console.curr_terminal ≡ n + 1 =
      ap (λ (c : Console). c.curr_terminal) same.0 ∙ ground (arith, v.scheduled, h) in
    let flags : (i : ℕ) → (terminal k1.console i).flag ≡ (terminal k.console i).flag =
      λ i. ap (λ (c : Console). (terminal c i).flag) same.0 in
    let due : IsDue (n + 1) (mark_started k1) =
      mark_started-IsDue k1 r sched (λ i a b. flags i ∙ v.later i (omega arith) b) in
    let off : (terminal k1.console k1.console.curr_terminal).flag ≡ 0 =
      ap (λ i. (terminal k1.console i).flag) sched
      ∙ flags (n + 1)
      ∙ v.later (n + 1) (omega arith) h in
    let (eip, k', e, s) =
      shell-Enters regs buf pid (mark_started k1) due (subst HasShell (sym same.2) has)
        (ap (find_pid num_processes 0) same.1 ∙ found)
        (subst (λ ps. IsFreePid ps 0 num_processes pid) (sym same.1) f) in
    (
      eip,
      k',
      scheduler-started regs buf k eip k' off e,
      record {
        up = s.up;
        processes = s.processes ∙ ap (λ ps. set ps pid 1) same.1;
        image = s.image ∙ same.2;
      },
    )
