-- ===== src/Running/Halt.antt =====
-- system_halt of student-distrib/syscalls.c on the whole state.
use linux_like_os_project.Prelude.{
  ℕ, zero, suc, ◌+◌, ◌<◌, ◌≡◌, ◌≢◌, refl, sym, ◌∙◌, Option, none, some, ◌==◌, inl, inr, Bool-cases,
  arith,
}
use linux_like_os_project.Prelude.Int.{ℤ}
use linux_like_os_project.Console.{terminal}
use linux_like_os_project.Console.Cursor.{IsConsole}
use linux_like_os_project.Console.Output.{Prints-Stays}
use linux_like_os_project.Kernel.{
  Kernel, curr_pid, base_shell_parent, update_tss, kernel_stack, kernel_ds,
}
use linux_like_os_project.Kernel.Descriptors.{curr_fds}
use linux_like_os_project.Kernel.Safety.{IsFds}
use linux_like_os_project.Kernel.Calls.{system_close}
use linux_like_os_project.Kernel.Halt.{
  Halted, restarted, resumed, close_all, ext_status, leave_process, enter_parent, set_curr_pid,
  system_halt,
}
use linux_like_os_project.Kernel.Leave.{leave_process-curr_pid, leave_process-curr}
use linux_like_os_project.Kernel.Forest.{Taken, IsForest-same}
use linux_like_os_project.Kernel.Forest.Pop.{pop-IsForest, popped-Taken}
use linux_like_os_project.Running.{
  IsRunning, Quiet, Quiet-refl, Quiet-trans, Quiet-IsRunning, QuietCall, console-Quiet, parents,
}
use linux_like_os_project.Running.Calls.{terminal-Prints, system_close-Quiet}
use linux_like_os_project.Running.Retop.{
  set_terminal-Retops, update_tss-Quiet, Quiet-curr_fds, Quiet-curr_pid,
}

-- The loop over the descriptors.
unfoldable QuietLoop : Kernel → Option Kernel → Type 0
QuietLoop k none = ⊥
QuietLoop k (some k') = Quiet k k'

then-QuietLoop : {k k' : Kernel} (r : Option Kernel) → Quiet k k' → QuietLoop k' r → QuietLoop k r
unfolding QuietLoop
then-QuietLoop none q p = p
then-QuietLoop (some k'') q p = Quiet-trans q p

after_close :
    (n fd : ℕ) (k : Kernel) (r : Option (ℤ × Kernel))
    → QuietCall k r
    → IsFds (curr_fds k)
    → ((k' : Kernel)
        → IsConsole k'.console
        → IsFds (curr_fds k')
        → QuietLoop k' (close_all n (fd + 1) k'))
    → QuietLoop k
        (elim r as (λ _. Option Kernel) [ none ↦ none | some s ↦ close_all n (fd + 1) s.1 ])
unfolding QuietCall QuietLoop
after_close n fd k none q o f = q
after_close n fd k (some (value, k')) q o f =
    then-QuietLoop (close_all n (fd + 1) k') q (f k' q.console.formed (Quiet-curr_fds q o))

close_all-QuietLoop :
    (n fd : ℕ) (k : Kernel)
    → IsConsole k.console
    → IsFds (curr_fds k)
    → QuietLoop k (close_all n fd k)
unfolding QuietLoop close_all
close_all-QuietLoop zero fd k v o = Quiet-refl v
close_all-QuietLoop (suc n) fd k v o =
    after_close n fd k (system_close fd k) (system_close-Quiet fd k v o) o
      (λ k' v' o'. close_all-QuietLoop n (fd + 1) k' v' o')

leave_process-IsRunning :
    {n : ℕ} (k : Kernel)
    → IsRunning n k
    → k.console.curr_terminal < n
    → parents k (curr_pid k) ≢ base_shell_parent
    → IsRunning n (leave_process (parents k (curr_pid k)) k)
unfolding leave_process
leave_process-IsRunning {n} k v h below =
    let i = k.console.curr_terminal in
    let r = set_terminal-Retops i (parents k (curr_pid k)) v.formed v.formed.curr in
    let f = pop-IsForest v.forest i h below in
    record {
      formed = r.formed;
      started = λ j a. r.flag j ∙ v.started j a;
      base = v.base;
      forest = IsForest-same refl r.process (λ p. refl) f;
      files = λ p t. v.files p (popped-Taken v.forest i h below p t).1;
      typed = v.typed;
    }

enter_parent-Quiet :
    (parent : ℕ) (k : Kernel)
    → IsConsole k.console
    → curr_pid k ≡ parent
    → Quiet k (enter_parent parent k)
unfolding enter_parent
enter_parent-Quiet parent k v e =
    let i = k.console.curr_terminal in
    let k1 = record k { tss_esp0 = kernel_stack parent; tss_ss0 = kernel_ds } in
    let q0 : Quiet k k1 = record {
      console = (Quiet-refl {k = k} v).console;
      processes = refl;
      base = refl;
      image = refl;
      parent = λ p. refl;
      order = λ p f. f;
    } in
    let k2 = update_tss parent i k1 in
    let q1 : Quiet k1 k2 = update_tss-Quiet parent i k1 v v.curr in
    let v2 = q1.console.formed in
    let q2 : Quiet k2 (set_curr_pid parent k2) = console-Quiet (
      Prints-Stays (
        terminal-Prints k2.console.curr_terminal
          (record (terminal k2.console k2.console.curr_terminal) { pid = parent }) v2 v2.curr refl
          refl (sym (Quiet-curr_pid (Quiet-trans q0 q1) ∙ e)) refl)) in
    Quiet-trans q0 (Quiet-trans q1 q2)

-- What system_halt leaves; it is not stuck in a call through a null pointer.
unfoldable pub HaltRuns : ℕ → Option Halted → Type 0
HaltRuns n none = ⊥
HaltRuns n (some (restarted eip k')) = IsRunning n k'
HaltRuns n (some (resumed status esp ebp k')) = IsRunning n k'

after_close_all :
    (n status parent : ℕ) (k : Kernel) (r : Option Kernel)
    → IsRunning n k
    → curr_pid k ≡ parent
    → QuietLoop k r
    → HaltRuns n (elim r as (λ _. Option Halted) [
      | none ↦ none
      | some k' ↦ some (
          resumed
            (ext_status status)
            (k'.pcbs parent).esp
            (k'.pcbs parent).ebp
            (enter_parent parent k'))
    ])
unfolding QuietLoop HaltRuns
after_close_all n status parent k none v e q = q
after_close_all n status parent k (some k') v e q =
    Quiet-IsRunning v
      (Quiet-trans q (enter_parent-Quiet parent k' q.console.formed (Quiet-curr_pid q ∙ e)))

restarted-HaltRuns : (n eip : ℕ) (k : Kernel) → IsRunning n k → HaltRuns n (some (restarted eip k))
unfolding HaltRuns
restarted-HaltRuns n eip k v = v

pub system_halt-HaltRuns :
    (n status : ℕ) (k : Kernel)
    → IsRunning n k
    → k.console.curr_terminal < n
    → HaltRuns n (system_halt status k)
unfolding system_halt
system_halt-HaltRuns n status k v h =
    elim (Bool-cases (parents k (curr_pid k) == base_shell_parent)) [
      | inl base ↦
          rw (base, v.started k.console.curr_terminal h, system_halt)
            (restarted-HaltRuns n (k.pcbs (curr_pid k)).eip k v)
      | inr below ↦
          let parent = parents k (curr_pid k) in
          let k1 = leave_process parent k in
          let v1 = leave_process-IsRunning k v h (ground (arith, below)) in
          let e : curr_pid k1 ≡ parent =
            leave_process-curr_pid parent k (rw v.formed.count v.formed.curr) in
          let t : Taken k1.cur_processes (curr_pid k1) =
            v1.forest.taken k1.console.curr_terminal (rw (leave_process-curr parent k) h) in
          rw (below, system_halt)
            (after_close_all n status parent k1 _ v1 e
              (close_all-QuietLoop 8 0 k1 v1.formed (v1.files (curr_pid k1) t)))
    ]
