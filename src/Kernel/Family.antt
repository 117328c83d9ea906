-- ===== src/Kernel/Family.antt =====
-- A program of student-distrib/syscalls.c from system_execute to its system_halt.
use mathlib.Core.Path.{subst}
use linux_like_os_project.Prelude.{
  ℕ, zero, suc, ◌+◌, ◌*◌, ◌<◌, ◌≡◌, ◌≢◌, sym, ap, ap₂, ◌∙◌, List, [], ◌∷◌, ◌++◌, Option, none, some,
  ◌==◌, if◌then◌else◌, get_or, set, length, arith,
}
use linux_like_os_project.Prelude.Int.{pos}
use linux_like_os_project.Text.{strncmp}
use linux_like_os_project.FileSys.{Dentry, read_dentry_by_name}
use linux_like_os_project.Console.{max_terminals}
use linux_like_os_project.Paging.{num_processes, four_mb, eight_mb}
use linux_like_os_project.Paging.User.{user_frame}
use linux_like_os_project.Kernel.{Kernel, curr_pid, kernel_stack}
use linux_like_os_project.Kernel.Safety.{IsFds}
use linux_like_os_project.Kernel.Command.{parse_command}
use linux_like_os_project.Kernel.Execute.{
  Outcome, failed, entered, find_pid, start_process, execute_file, system_execute, Registers,
  elf_magic, read_into, write_over,
}
use linux_like_os_project.Kernel.Halt.{Halted, restarted, resumed, system_halt}
use linux_like_os_project.Kernel.Launch.{IsFoundPid, find_pid-IsFoundPid}
use linux_like_os_project.Kernel.Leave.{IsHalted, system_halt_lem}
use linux_like_os_project.Kernel.Child.{child, Child, child-Child}

-- What comes back: the caller of the program goes on at the stack pointers of its call, with the status.
unfoldable pub Returns : ℕ → Registers → Kernel → Option Halted → Type 0
Returns status regs k none = ⊥
Returns status regs k (some (restarted eip k')) = ⊥
Returns status regs k (some (resumed s esp ebp k')) =
    (s ≡ (if status == 255 then 256 else status))
    × (esp ≡ regs.esp)
    × (ebp ≡ regs.ebp)
    × (k'.cur_processes ≡ k.cur_processes)
    × (curr_pid k' ≡ curr_pid k)
    × (user_frame k'.paging ≡ eight_mb + four_mb * curr_pid k)
    × (k'.tss_esp0 ≡ kernel_stack (curr_pid k))

-- A program is entered, and halts.
unfoldable pub EntersAndReturns : ℕ → Registers → Kernel → Outcome → Type 0
unfolding Returns
EntersAndReturns status regs k (failed k') = ⊥
EntersAndReturns status regs k (entered eip k') = Returns status regs k (system_halt status k')

-- A number that was free is taken and freed.
set_back : (ps : List ℕ) (i : ℕ) → get_or ps i 1 ≡ 0 → set (set ps i 1) i 0 ≡ ps
set_back [] i h = absurd (omega (arith, h))
set_back (p ∷ ps) zero h = ap (λ q. q ∷ ps) (sym h)
set_back (p ∷ ps) (suc i) h = ap (λ qs. p ∷ qs) (set_back ps i h)

halted-Returns :
    (status pid : ℕ) (regs : Registers) (k k' : Kernel) (r : Option Halted)
    → Child regs pid k k'
    → get_or k.cur_processes pid 1 ≡ 0
    → IsHalted status (curr_pid k) k' r
    → Returns status regs k r
unfolding IsHalted Returns
halted-Returns status pid regs k k' none c free h = h
halted-Returns status pid regs k k' (some (restarted eip k'')) c free h = h
halted-Returns status pid regs k k' (some (resumed s esp ebp k'')) c free (a, b, d, h) = (
  a,
  b ∙ c.esp,
  d ∙ c.ebp,
  h.freed ∙ ap₂ (λ ps i. set ps i 0) c.taken c.current ∙ set_back k.cur_processes pid free,
  h.current,
  h.page,
  h.stack,
)

Child-Returns :
    (status pid : ℕ) (regs : Registers) (k k' : Kernel)
    → Child regs pid k k'
    → k.console.curr_terminal < max_terminals
    → get_or k.cur_processes pid 1 ≡ 0
    → curr_pid k < num_processes
    → IsFds (k.pcbs (curr_pid k)).file_descriptors
    → Returns status regs k (system_halt status k')
Child-Returns status pid regs k k' c hc free small v =
    let parent : (k'.pcbs (curr_pid k')).parent_pid ≡ curr_pid k =
      ap (λ q. (k'.pcbs q).parent_pid) c.current ∙ c.parent in
    let order : IsFds (k'.pcbs (k'.pcbs (curr_pid k')).parent_pid).file_descriptors =
      subst (λ q. IsFds (k'.pcbs q).file_descriptors) (sym parent) (subst IsFds (sym c.same) v) in
    halted-Returns status pid regs k k' (system_halt status k') c free (
      subst (λ q. IsHalted status q k' (system_halt status k')) parent
        (system_halt_lem status k' c.count (rw c.curr hc) (rw parent small) order))

found-Returns :
    (status : ℕ) (regs : Registers) (e : Dentry) (k : Kernel) (a : List ℕ) (l : ℕ) (r : Option ℕ)
    → length k.console.terminal_array ≡ max_terminals
    → k.console.curr_terminal < max_terminals
    → k.console.screen_terminal ≡ k.console.curr_terminal
    → k.base_shell ≡ 0
    → curr_pid k < num_processes
    → get_or k.cur_processes (curr_pid k) 1 ≢ 0
    → IsFds (k.pcbs (curr_pid k)).file_descriptors
    → l < num_processes
    → get_or k.cur_processes l 1 ≡ 0
    → IsFoundPid k.cur_processes 0 num_processes r
    → let k0 = record k { args = a } in
      EntersAndReturns status regs k
        (elim r [ none ↦ failed k0 | some pid ↦ start_process regs pid e k0 ])
unfolding IsFoundPid EntersAndReturns start_process
found-Returns status regs e k a l none n hc hs b small taken v h free f =
    absurd (f l (omega arith) h free)
found-Returns status regs e k a l (some pid) n hc hs b small taken v h free f =
    let other : curr_pid k ≢ pid =
      λ same. taken (ap (λ i. get_or k.cur_processes i 1) same ∙ f.free) in
    let c = child-Child regs pid e (record k { args = a }) n hc hs b other in
    Child-Returns status pid regs k (child regs pid e (record k { args = a }))
      (record {
        count = c.count;
        curr = c.curr;
        current = c.current;
        parent = c.parent;
        esp = c.esp;
        ebp = c.ebp;
        same = c.same;
        taken = c.taken;
      })
      hc f.free small v

-- system_execute, from a process with one of the six numbers, taken, and its descriptors in order, on the
-- shown and scheduled one of the three terminals, with no base shell to start, of a program that is there,
-- with a number free; and system_halt by the program. Both come back: the caller goes on at the stack
-- pointers of its call with the program's status, 256 for 255, the process table as it was before the
-- call, and the caller as the terminal's process, with its user page and kernel stack.
pub execute_halt_lem :
    (status : ℕ) (regs : Registers) (buf command : List ℕ) (k : Kernel) (e : Dentry) (l : ℕ)
    → length k.console.terminal_array ≡ max_terminals
    → k.console.curr_terminal < max_terminals
    → k.console.screen_terminal ≡ k.console.curr_terminal
    → k.base_shell ≡ 0
    → curr_pid k < num_processes
    → get_or k.cur_processes (curr_pid k) 1 ≢ 0
    → IsFds (k.pcbs (curr_pid k)).file_descriptors
    → read_dentry_by_name k.image (parse_command command).0 ≡ some e
    → strncmp elf_magic (read_into k e.inode_num 0 4 buf) 4 ≡ pos 0
    → l < num_processes
    → get_or k.cur_processes l 1 ≡ 0
    → EntersAndReturns status regs k (system_execute regs buf (some command) k)
unfolding system_execute execute_file
execute_halt_lem status regs buf command k e l n hc hs b small taken v named elf h free =
    rw (named, elf, system_execute, execute_file)
      (found-Returns status regs e k (write_over ((parse_command command).1 ++ (0 ∷ [])) k.args) l
        (find_pid num_processes 0 k.cur_processes) n hc hs b small taken v h free
        (find_pid-IsFoundPid num_processes 0 k.cur_processes))
