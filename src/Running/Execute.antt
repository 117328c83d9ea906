-- ===== src/Running/Execute.antt =====
-- system_execute of student-distrib/syscalls.c on the whole state, by a program.
use mathlib.Core.Path.{subst}
use linux_like_os_project.Prelude.{
  ℕ, ◌<◌, ◌≡◌, refl, sym, ◌∙◌, List, [], ◌∷◌, ◌++◌, Option, none, some, Option-cases, ◌==◌, inl,
  inr, Bool-cases, false, arith, set, get_or, length,
}
use linux_like_os_project.Text.{strncmp}
use linux_like_os_project.FileSys.{Dentry, read_dentry_by_name}
use linux_like_os_project.Console.{terminal}
use linux_like_os_project.Paging.{num_processes}
use linux_like_os_project.Kernel.{Kernel}
use linux_like_os_project.Kernel.Safety.{IsFds}
use linux_like_os_project.Kernel.Launch.{IsFreePid, IsFoundPid, find_pid-IsFoundPid}
use linux_like_os_project.Kernel.Command.{parse_command}
use linux_like_os_project.Kernel.Execute.{
  Outcome, failed, entered, Registers, home_terminal, find_pid, start_process, execute_file,
  system_execute, elf_magic, read_into, strncmp_is_zero, write_over,
}
use linux_like_os_project.Kernel.Child.{child}
use linux_like_os_project.Kernel.Forest.{Taken, IsForest, IsForest-same, get_or-inside, Taken-cases}
use linux_like_os_project.Kernel.Forest.Change.{put, push-IsForest, eq-cases}
use linux_like_os_project.Running.{IsRunning, IsTyped, tops, parents}
use linux_like_os_project.Running.Spawn.{Spawns, new_parent, child-Spawns}

-- A state in which the new process is in its place.
pub spawned-IsRunning :
    {m pid : ℕ} {k k' : Kernel}
    → Spawns pid k k'
    → pid < length k.cur_processes
    → ((i : ℕ) → i < m → (terminal k.console i).flag ≡ 1)
    → ((p : ℕ) → Taken k.cur_processes p → IsFds (k.pcbs p).file_descriptors)
    → IsTyped k.image
    → IsForest m
        (set k.cur_processes pid 1)
        (put (home_terminal k) pid (tops k))
        (put pid (new_parent k) (parents k))
    → IsRunning m k'
spawned-IsRunning {m} {pid} {k} {k'} s h started files typed f = record {
  formed = s.console.formed;
  started = λ i a. s.console.flag i ∙ started i a;
  base = s.base;
  forest = IsForest-same s.processes s.console.process s.parent f;
  files = λ p t. elim (eq-cases pid p) [
    | inl e ↦ subst (λ q. IsFds (k'.pcbs q).file_descriptors) e s.order
    | inr ne ↦ elim (Taken-cases k.cur_processes pid p h (rw (← s.processes) t)) [
      | inl e ↦ absurd (ne e)
      | inr old ↦ subst IsFds (sym (s.others p ne)) (files p old)
    ]
  ];
  typed = rw s.image typed;
}

-- What system_execute leaves.
unfoldable pub OutcomeRuns : ℕ → Outcome → Type 0
OutcomeRuns n (failed k') = IsRunning n k'
OutcomeRuns n (entered eip k') = IsRunning n k'

failed-OutcomeRuns : {n : ℕ} {k : Kernel} → IsRunning n k → OutcomeRuns n (failed k)
unfolding OutcomeRuns
failed-OutcomeRuns v = v

-- A number that the search finds is free.
pub free-again :
    {ps : List ℕ} {pid : ℕ}
    → length ps ≡ num_processes
    → IsFreePid ps 0 num_processes pid
    → get_or ps pid 0 ≡ 0
free-again {ps} {pid} l f = get_or-inside ps pid (omega (arith, l, f.high)) ∙ f.free

started-OutcomeRuns :
    {n : ℕ} (regs : Registers) (pid : ℕ) (e : Dentry) (k : Kernel)
    → IsRunning n k
    → k.console.screen_terminal < n
    → IsFreePid k.cur_processes 0 num_processes pid
    → OutcomeRuns n (start_process regs pid e k)
unfolding OutcomeRuns start_process
started-OutcomeRuns {n} regs pid e k v h f =
    let other : (k.base_shell == 1) ≡ false = ground (arith, v.base) in
    let home : home_terminal k ≡ k.console.screen_terminal = rw other refl in
    let parent : new_parent k ≡ tops k k.console.screen_terminal = rw other refl in
    let s : Spawns pid k (child regs pid e k) =
      child-Spawns regs pid e k v.formed (rw home v.formed.screen) in
    let g =
      push-IsForest v.forest pid k.console.screen_terminal f.high (free-again v.forest.count f) h in
    spawned-IsRunning s (omega (arith, v.forest.count, f.high)) v.started v.files v.typed
      (rw (home, parent) g)

found-OutcomeRuns :
    {n : ℕ} (regs : Registers) (e : Dentry) (k : Kernel) (r : Option ℕ)
    → IsRunning n k
    → k.console.screen_terminal < n
    → IsFoundPid k.cur_processes 0 num_processes r
    → OutcomeRuns n
        (elim r as (λ _. Outcome) [ none ↦ failed k | some pid ↦ start_process regs pid e k ])
unfolding IsFoundPid
found-OutcomeRuns regs e k none v h f = failed-OutcomeRuns v
found-OutcomeRuns regs e k (some pid) v h f = started-OutcomeRuns regs pid e k v h f

execute_file-OutcomeRuns :
    {n : ℕ} (regs : Registers) (buf filename : List ℕ) (k : Kernel)
    → IsRunning n k
    → k.console.screen_terminal < n
    → OutcomeRuns n (execute_file regs buf filename k)
unfolding execute_file
execute_file-OutcomeRuns regs buf filename k v h =
    elim (Option-cases (read_dentry_by_name k.image filename)) [
      | inl missing ↦ rw (missing, execute_file) (failed-OutcomeRuns v)
      | inr (e, named) ↦
          elim (Bool-cases
            (strncmp_is_zero (strncmp elf_magic (read_into k e.inode_num 0 4 buf) 4))) [
              | inl elf ↦
                  rw (named, elf, execute_file)
                    (found-OutcomeRuns regs e k (find_pid num_processes 0 k.cur_processes) v h
                      (find_pid-IsFoundPid num_processes 0 k.cur_processes))
              | inr text ↦ rw (named, text, execute_file) (failed-OutcomeRuns v)
            ]
    ]

-- The bytes at the arguments' literal are no part of it.
args-IsRunning :
    {n : ℕ} {k : Kernel} (a : List ℕ) → IsRunning n k → IsRunning n (record k { args = a })
args-IsRunning {n} {k} a v = record {
  formed = v.formed;
  started = v.started;
  base = v.base;
  forest = v.forest;
  files = v.files;
  typed = v.typed;
}

pub system_execute-OutcomeRuns :
    {n : ℕ} (regs : Registers) (buf : List ℕ) (command : Option (List ℕ)) (k : Kernel)
    → IsRunning n k
    → k.console.screen_terminal < n
    → OutcomeRuns n (system_execute regs buf command k)
unfolding system_execute
system_execute-OutcomeRuns regs buf none k v h = failed-OutcomeRuns v
system_execute-OutcomeRuns regs buf (some s) k v h =
    execute_file-OutcomeRuns regs buf (parse_command s).0 _
      (args-IsRunning (write_over ((parse_command s).1 ++ (0 ∷ [])) k.args) v) h
