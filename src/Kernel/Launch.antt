-- ===== src/Kernel/Launch.antt =====
-- The process that system_execute of student-distrib/syscalls.c starts.
use mathlib.Core.Path.{subst}
use linux_like_os_project.Prelude.{
  ℕ, zero, suc, ◌+◌, ◌*◌, ◌<◌, ◌≤◌, ◌≡◌, ◌≢◌, refl, sym, ap, ◌∙◌, List, [], ◌∷◌, ◌++◌, Option, none,
  some, Bool-cases, inl, inr, arith, ◌==◌, ==_iff, if◌then◌else◌, get_or, get_or-set, set, length,
  length-set, true, false, Bool,
}
use linux_like_os_project.Prelude.Int.{pos}
use linux_like_os_project.Text.{strncmp}
use linux_like_os_project.FileSys.{Dentry, read_dentry_by_name, read_data}
use linux_like_os_project.Console.{
  Console, Terminal, terminal, no_terminal, set_terminal, max_terminals,
}
use linux_like_os_project.Paging.{num_processes, four_mb, eight_mb}
use linux_like_os_project.Paging.User.{user_frame, process_page_lem}
use linux_like_os_project.Kernel.{
  Kernel, Fd, Pcb, no_fd, base_shell_parent, kernel_stack, update_tss, set_pcb,
}
use linux_like_os_project.Kernel.Descriptors.{if_self}
use linux_like_os_project.Kernel.Safety.{IsFds, FdFits, fits}
use linux_like_os_project.Kernel.Command.{parse_command}
use linux_like_os_project.Kernel.Execute.{
  Outcome, failed, entered, find_pid, fresh_fds, make_pcb, save_parent, take_process, start_process,
  execute_file, system_execute, home_terminal, Registers, word_of, elf_magic, read_into, write_over,
}

-- `pid` is the lowest of the `n` process numbers from `i` on that is free.
pub record IsFreePid (ps : List ℕ) (i n pid : ℕ) : Type 0 where
  pub low : i ≤ pid
  pub high : pid < i + n
  pub free : get_or ps pid 1 ≡ 0
  pub first : (l : ℕ) → i ≤ l → l < pid → get_or ps l 1 ≢ 0

unfoldable pub IsFoundPid : List ℕ → ℕ → ℕ → Option ℕ → Type 0
IsFoundPid ps i n none = (l : ℕ) → i ≤ l → l < i + n → get_or ps l 1 ≢ 0
IsFoundPid ps i n (some pid) = IsFreePid ps i n pid

IsFoundPid-suc :
    (ps : List ℕ) (i n : ℕ) (r : Option ℕ)
    → get_or ps i 1 ≢ 0
    → IsFoundPid ps (i + 1) n r
    → IsFoundPid ps i (suc n) r
unfolding IsFoundPid
IsFoundPid-suc ps i n none u h = λ l a b. elim (Bool-cases (i == l)) [
  | inl e ↦ subst (λ m. get_or ps m 1 ≢ 0) ((==_iff _ _).0 e) u
  | inr ne ↦ h l (ground (arith, ne)) (omega arith)
]
IsFoundPid-suc ps i n (some j) u h = record {
  low = omega (arith, h.low);
  high = omega (arith, h.high);
  free = h.free;
  first = λ l a b. elim (Bool-cases (i == l)) [
    | inl e ↦ subst (λ m. get_or ps m 1 ≢ 0) ((==_iff _ _).0 e) u
    | inr ne ↦ h.first l (ground (arith, ne)) b
  ];
}

pub find_pid-IsFoundPid : (n i : ℕ) (ps : List ℕ) → IsFoundPid ps i n (find_pid n i ps)
unfolding IsFoundPid find_pid
find_pid-IsFoundPid zero i ps = λ l a b. absurd (omega arith)
find_pid-IsFoundPid (suc n) i ps = elim (Bool-cases (get_or ps i 1 == 0)) [
  | inl free ↦ rw free (record {
    low = omega arith;
    high = omega arith;
    free = (==_iff _ _).0 free;
    first = λ l a b. absurd (omega arith);
  })
  | inr used ↦
      rw used (IsFoundPid-suc ps i n _ (ground (arith, used)) (find_pid-IsFoundPid n (i + 1) ps))
]

fresh_fds-fit : (old : List Fd) (i : ℕ) → i < 8 → FdFits i (get_or (fresh_fds old) i no_fd)
unfolding fresh_fds FdFits fits
fresh_fds-fit old zero h u = refl
fresh_fds-fit old (suc zero) h u = refl
fresh_fds-fit old (suc (suc zero)) h u = absurd (u refl)
fresh_fds-fit old (suc (suc (suc zero))) h u = absurd (u refl)
fresh_fds-fit old (suc (suc (suc (suc zero)))) h u = absurd (u refl)
fresh_fds-fit old (suc (suc (suc (suc (suc zero))))) h u = absurd (u refl)
fresh_fds-fit old (suc (suc (suc (suc (suc (suc zero)))))) h u = absurd (u refl)
fresh_fds-fit old (suc (suc (suc (suc (suc (suc (suc zero))))))) h u = absurd (u refl)
fresh_fds-fit old (suc (suc (suc (suc (suc (suc (suc (suc i)))))))) h u = absurd (omega arith)

pub fresh_fds-IsFds : (old : List Fd) → IsFds (fresh_fds old)
unfolding fresh_fds
fresh_fds-IsFds old = record { count = refl; fit = fresh_fds-fit old }

-- What a successful call leaves: the lowest free process number is taken, and its process, whose
-- descriptors are in order and whose parent is the process of the shown terminal, or none for a base
-- shell, is the one of its terminal, has its own user page and its own kernel stack; the program is
-- entered at the address that the file gives.
pub record Launches (e : Dentry) (k : Kernel) (pid eip : ℕ) (k' : Kernel) : Type 0 where
  pub lowest : IsFreePid k.cur_processes 0 num_processes pid
  pub taken : k'.cur_processes ≡ set k.cur_processes pid 1
  pub descriptors : IsFds (k'.pcbs pid).file_descriptors
  pub number : (k'.pcbs pid).pid ≡ pid
  pub parent : (k'.pcbs pid).parent_pid ≡ (
      if k.base_shell == 1
      then base_shell_parent
      else (terminal k.console k.console.screen_terminal).pid)
  pub current : (terminal k'.console (home_terminal k)).pid ≡ pid
  pub page : user_frame k'.paging ≡ eight_mb + four_mb * pid
  pub stack : k'.tss_esp0 ≡ kernel_stack pid
  pub entry : eip ≡ word_of (read_data k.image e.inode_num 24 4).1

unfoldable pub IsLaunched : Dentry → Kernel → Outcome → Type 0
IsLaunched e k (failed k') = ⊥
IsLaunched e k (entered eip k') = (pid : ℕ) × Launches e k pid eip k'

pid-if : (b : Bool) (t u : Terminal) → (if b then t else u).pid ≡ (if b then t.pid else u.pid)
pid-if true t u = refl
pid-if false t u = refl

pub terminal-pid :
    (c : Console) (i j : ℕ) (t : Terminal)
    → i < length c.terminal_array
    → (terminal (set_terminal i t c) j).pid ≡ (if i == j then t.pid else (terminal c j).pid)
unfolding set_terminal
terminal-pid c i j t h =
    ap (λ (u : Terminal). u.pid) (get_or-set c.terminal_array i j t no_terminal h)
    ∙ pid-if (i == j) t _

update_tss-pid :
    (pid i j : ℕ) (k : Kernel)
    → i < length k.console.terminal_array
    → (terminal (update_tss pid i k).console j).pid ≡ (terminal k.console j).pid
unfolding update_tss
update_tss-pid pid i j k h = terminal-pid k.console i j _ h ∙ (elim (Bool-cases (i == j)) [
  | inl e ↦ rw e (ap (λ m. (terminal k.console m).pid) ((==_iff _ _).0 e))
  | inr ne ↦ rw ne refl
])

pub make_pcb-fds :
    (pid eip : ℕ) (k : Kernel)
    → ((make_pcb pid eip k).pcbs pid).file_descriptors ≡ fresh_fds (k.pcbs pid).file_descriptors
unfolding make_pcb set_pcb
make_pcb-fds pid eip k = ap (λ (p : Pcb). p.file_descriptors) (if_self pid _ _)

pub make_pcb-current :
    (pid eip i : ℕ) (k : Kernel)
    → home_terminal k < length k.console.terminal_array
    → i < length k.console.terminal_array
    → (terminal (update_tss pid i (make_pcb pid eip k)).console (home_terminal k)).pid ≡ pid
unfolding make_pcb set_pcb set_terminal
make_pcb-current pid eip i k h hi =
    update_tss-pid pid i (home_terminal k) (make_pcb pid eip k)
      (subst (λ n. i < n) (sym (length-set k.console.terminal_array (home_terminal k) _)) hi)
    ∙ terminal-pid k.console (home_terminal k) (home_terminal k) _ h
    ∙ if_self (home_terminal k) _ _

start_process-Launches :
    (regs : Registers) (pid : ℕ) (e : Dentry) (k : Kernel)
    → length k.console.terminal_array ≡ max_terminals
    → k.console.curr_terminal < max_terminals
    → k.console.screen_terminal < max_terminals
    → IsFreePid k.cur_processes 0 num_processes pid
    → IsLaunched e k (start_process regs pid e k)
unfolding IsLaunched start_process take_process save_parent make_pcb update_tss set_pcb set_terminal
start_process-Launches regs pid e k l hc hs f = (
  pid,
  record {
    lowest = f;
    taken = refl;
    descriptors =
        subst IsFds (sym (make_pcb-fds pid eip (save_parent regs (take_process pid e k))))
          (fresh_fds-IsFds ((save_parent regs (take_process pid e k)).pcbs pid).file_descriptors);
    number = ap (λ (p : Pcb). p.pid) (if_self pid _ _);
    parent = ap (λ (p : Pcb). p.parent_pid) (if_self pid _ _);
    current =
        make_pcb-current pid eip k.console.curr_terminal (save_parent regs (take_process pid e k))
          (ground (arith, l, hc, hs)) (omega (arith, l, hc));
    page = ground (arith, f.high, (process_page_lem pid k.paging 0).0);
    stack = refl;
    entry = refl;
  },
)
  where
    eip : ℕ
    eip = word_of (read_data k.image e.inode_num 24 4).1

after_find :
    (regs : Registers) (e : Dentry) (k : Kernel) (l : ℕ) (r : Option ℕ)
    → length k.console.terminal_array ≡ max_terminals
    → k.console.curr_terminal < max_terminals
    → k.console.screen_terminal < max_terminals
    → l < num_processes
    → get_or k.cur_processes l 1 ≡ 0
    → IsFoundPid k.cur_processes 0 num_processes r
    → IsLaunched e k (elim r [ none ↦ failed k | some pid ↦ start_process regs pid e k ])
unfolding IsFoundPid
after_find regs e k l none n hc hs h free f = absurd (f l (omega arith) h free)
after_find regs e k l (some pid) n hc hs h free f = start_process-Launches regs pid e k n hc hs f

-- The bytes of the arguments play no part.
args-IsLaunched :
    (e : Dentry) (a : List ℕ) (k : Kernel) (o : Outcome)
    → IsLaunched e (record k { args = a }) o
    → IsLaunched e k o
unfolding IsLaunched
args-IsLaunched e a k (failed k') v = v
args-IsLaunched e a k (entered eip k') (pid, v) = (
  pid,
  record {
    lowest = v.lowest;
    taken = v.taken;
    descriptors = v.descriptors;
    number = v.number;
    parent = v.parent;
    current = v.current;
    page = v.page;
    stack = v.stack;
    entry = v.entry;
  },
)

-- system_execute: the command's first word names an entry whose file starts with the four bytes of an
-- ELF file, some process number is free, and the terminals in use are among the three. Then the call does
-- not fail: it enters the program as a new process. The process has the lowest free number; its
-- descriptors are in order; its parent is the process of the shown terminal, or none for a base shell; it
-- is the process of its terminal; the user page and the kernel stack are its own.
pub system_execute_lem :
    (regs : Registers) (buf command : List ℕ) (k : Kernel) (e : Dentry) (l : ℕ)
    → length k.console.terminal_array ≡ max_terminals
    → k.console.curr_terminal < max_terminals
    → k.console.screen_terminal < max_terminals
    → read_dentry_by_name k.image (parse_command command).0 ≡ some e
    → strncmp elf_magic (read_into k e.inode_num 0 4 buf) 4 ≡ pos 0
    → l < num_processes
    → get_or k.cur_processes l 1 ≡ 0
    → IsLaunched e k (system_execute regs buf (some command) k)
unfolding system_execute execute_file
system_execute_lem regs buf command k e l n hc hs named elf h free =
    rw (named, elf, system_execute, execute_file)
      (args-IsLaunched e _ k _ (
        after_find regs e k2 l (find_pid num_processes 0 k.cur_processes) n hc hs h free
          (find_pid-IsFoundPid num_processes 0 k.cur_processes)))
  where
    k2 : Kernel
    k2 = record k { args = write_over ((parse_command command).1 ++ (0 ∷ [])) k.args }
