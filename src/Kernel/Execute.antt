-- ===== src/Kernel/Execute.antt =====
-- system_execute of student-distrib/syscalls.c. The call comes back only when it fails; otherwise the
-- processor enters the program, and the caller goes on when the program halts.
use linux_like_os_project.Prelude.{
  ℕ, zero, suc, ◌+◌, ◌*◌, List, [], ◌∷◌, ◌++◌, Option, none, some, ◌==◌, if◌then◌else◌, get_or, set,
  true, false, Bool,
}
use linux_like_os_project.Prelude.Int.{ℤ, pos}
use linux_like_os_project.Text.{strncmp}
use linux_like_os_project.FileSys.{Dentry, read_dentry_by_name, read_data}
use linux_like_os_project.Console.{terminal, set_terminal}
use linux_like_os_project.Paging.{process_page, four_mb, num_processes}
use linux_like_os_project.Kernel.{
  Kernel, Fd, term_write_ops, term_read_ops, in_use, not_in_use, base_shell_parent, kernel_ds,
  kernel_stack, set_pcb, update_tss, no_fd,
}
use linux_like_os_project.Kernel.Command.{parse_command}

-- What the processor does at the end: the caller gets -1, or the program starts at an address.
pub data Outcome : Type 0 where
  failed : Kernel → Outcome
  entered : ℕ → Kernel → Outcome

-- Bytes written over the front of a buffer, which may grow.
unfoldable pub write_over : List ℕ → List ℕ → List ℕ
write_over [] old = old
write_over (b ∷ s) [] = b ∷ write_over s []
write_over (b ∷ s) (o ∷ old) = b ∷ write_over s old

abbrev pub elf_magic : List ℕ
elf_magic = 0x7f ∷ 0x45 ∷ 0x4c ∷ 0x46 ∷ []

-- The loop that finds a free process, `n` numbers left from `i` on.
unfoldable pub find_pid : ℕ → ℕ → List ℕ → Option ℕ
find_pid zero i ps = none
find_pid (suc n) i ps =
    let rest = find_pid n (i + 1) ps in if get_or ps i 1 == 0 then some i else rest

-- Little-endian bytes as a `uint32_t`.
abbrev pub word_of : List ℕ → ℕ
word_of s = get_or s 0 0 + 256 * get_or s 1 0 + 65536 * get_or s 2 0 + 16777216 * get_or s 3 0

-- The bytes that a local array holds after a read over what stood there.
abbrev pub read_into : Kernel → ℕ → ℕ → ℕ → List ℕ → List ℕ
read_into k inode offset len old = write_over (read_data k.image inode offset len).1 old

abbrev pub free_fd : Fd → Fd
free_fd d = record d { inode = 0; file_pos = 0; flags = not_in_use }

-- The descriptors of a new process; the table pointers of the free ones are left as they were.
unfoldable pub fresh_fds : List Fd → List Fd
fresh_fds old =
    let stdin : Fd = record {
      file_op_table_ptr = term_read_ops;
      inode = 0;
      file_pos = 0;
      flags = in_use;
    } in
    let stdout : Fd = record {
      file_op_table_ptr = term_write_ops;
      inode = 0;
      file_pos = 0;
      flags = in_use;
    } in
    stdin
    ∷ stdout
    ∷ free_fd (get_or old 2 no_fd)
    ∷ free_fd (get_or old 3 no_fd)
    ∷ free_fd (get_or old 4 no_fd)
    ∷ free_fd (get_or old 5 no_fd)
    ∷ free_fd (get_or old 6 no_fd)
    ∷ free_fd (get_or old 7 no_fd)
    ∷ []

-- The saved stack pointers of the caller: what the registers hold at the call.
pub record Registers : Type 0 where
  pub esp : ℕ
  pub ebp : ℕ

-- The terminal that a new process is on: the scheduled one for a base shell, else the shown one.
abbrev pub home_terminal : Kernel → ℕ
home_terminal k = if k.base_shell == 1 then k.console.curr_terminal else k.console.screen_terminal

-- The process number taken, the program loaded into its page.
unfoldable pub take_process : ℕ → Dentry → Kernel → Kernel
take_process pid e k = record k {
  cur_processes = set k.cur_processes pid 1;
  paging = process_page pid k.paging;
  user_pages = λ q.
      if q == pid
      then write_over (read_data k.image e.inode_num 0 four_mb).1 (k.user_pages q)
      else k.user_pages q;
}

-- The caller's stack saved in its block, unless a base shell is started.
unfoldable pub save_parent : Registers → Kernel → Kernel
unfolding set_pcb
save_parent regs k =
    let parent = (terminal k.console k.console.screen_terminal).pid in
    record k {
      pcbs =
          if k.base_shell == 1
          then k.pcbs
          else (set_pcb parent (record (k.pcbs parent) { esp = regs.esp; ebp = regs.ebp }) k).pcbs;
    }

-- The block of the new process and its terminal's current process.
unfoldable pub make_pcb : ℕ → ℕ → Kernel → Kernel
unfolding set_pcb fresh_fds
make_pcb pid eip k =
    let home = home_terminal k in
    let parent =
      if k.base_shell == 1
      then base_shell_parent
      else (terminal k.console k.console.screen_terminal).pid in
    let k' =
      set_pcb pid
        (record (k.pcbs pid) {
          pid = pid;
          parent_pid = parent;
          terminal_id = home;
          file_descriptors = fresh_fds (k.pcbs pid).file_descriptors;
          tss_esp0 = k.tss_esp0;
          tss_ss0 = k.tss_ss0;
          eip = eip;
        })
        k in
    record k' {
      console = set_terminal home (record (terminal k.console home) { pid = pid }) k.console;
      base_shell = 0;
      tss_esp0 = kernel_stack pid;
      tss_ss0 = kernel_ds;
    }

-- What follows the checks: the program `e` becomes process `pid`.
unfoldable pub start_process : Registers → ℕ → Dentry → Kernel → Outcome
start_process regs pid e k =
    let eip = word_of (read_data k.image e.inode_num 24 4).1 in
    let k' = make_pcb pid eip (save_parent regs (take_process pid e k)) in
    entered eip (update_tss pid k'.console.curr_terminal k')

abbrev pub strncmp_is_zero : ℤ → Bool
strncmp_is_zero (pos zero) = true
strncmp_is_zero _ = false

-- The checks of the file and of the process table. `buf` is what stands in the array of four bytes
-- before the header is read into it.
unfoldable pub execute_file : Registers → List ℕ → List ℕ → Kernel → Outcome
execute_file regs buf filename k = elim (read_dentry_by_name k.image filename) [
  | none ↦ failed k
  | some e ↦
      if strncmp_is_zero (strncmp elf_magic (read_into k e.inode_num 0 4 buf) 4)
      then (elim (find_pid num_processes 0 k.cur_processes) [
        | none ↦ failed k
        | some pid ↦ start_process regs pid e k
      ])
      else failed k
]

-- `command` is `none` for a null pointer. The arguments are written before anything is checked.
unfoldable pub system_execute : Registers → List ℕ → Option (List ℕ) → Kernel → Outcome
system_execute regs buf command k = elim command [
  | none ↦ failed k
  | some s ↦
      let parsed = parse_command s in
      execute_file regs buf parsed.0 (record k { args = write_over (parsed.1 ++ (0 ∷ [])) k.args })
]
