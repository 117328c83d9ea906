-- ===== src/Kernel.antt =====
-- The kernel's state and the records of student-distrib/syscalls.h, with get_pcb, update_tss and
-- init_fops_table of student-distrib/syscalls.c. The system calls are in the child modules. An int is its
-- bit pattern, so that -1 is 2 ^ 32 - 1.
pub mod Descriptors
pub mod Files
pub mod Safety
pub mod Open
pub mod Opening
pub mod Launch
pub mod Closing
pub mod Leave
pub mod Schedule
pub mod Rounds
pub mod Pit
pub mod Stream
pub mod Child
pub mod Family
pub mod Refusal
pub mod Vidmap
pub mod Calls
pub mod Command
pub mod Parse
pub mod Execute
pub mod Halt
pub mod Forest
use linux_like_os_project.Prelude.{
  ℕ, zero, suc, ◌+◌, ◌-◌, ◌*◌, ◌%◌, ◌^◌, List, [], ◌∷◌, Option, none, some, ltb, ◌==◌,
  if◌then◌else◌, get_or, set,
}
use linux_like_os_project.FileSys.{Image}
use linux_like_os_project.Console.{Console, Terminal, terminal, set_terminal}
use linux_like_os_project.Rtc.{Rtc}
use linux_like_os_project.Paging.{Paging, eight_mb}

abbrev pub file_descriptor_max : ℕ
file_descriptor_max = 8

abbrev pub file_descriptor_min : ℕ
file_descriptor_min = 2

abbrev pub eight_kb : ℕ
eight_kb = 0x2000

abbrev pub minus_one : ℕ
minus_one = 2 ^ 32 - 1

abbrev pub in_use : ℕ
in_use = 1

abbrev pub not_in_use : ℕ
not_in_use = minus_one

abbrev pub base_shell_parent : ℕ
base_shell_parent = 24

abbrev pub kernel_ds : ℕ
kernel_ds = 0x18

-- The operation tables, `fops_t` globals, that a descriptor points to; `unset` is a pointer that was
-- never assigned.
pub data Ops : Type 0 where
  term_write_ops term_read_ops rtc_ops file_ops dir_ops unset : Ops

-- The functions that a table holds; `null` is NULL, or what an unset pointer leads to.
pub data Handler : Type 0 where
  null : Handler
  terminal_write_fn terminal_read_fn : Handler
  rtc_open_fn rtc_close_fn rtc_read_fn rtc_write_fn : Handler
  open_file_fn close_file_fn read_file_fn write_file_fn : Handler
  open_directory_fn close_directory_fn read_directory_fn write_directory_fn : Handler

-- `fops_t`.
pub record Fops : Type 0 where
  pub open_fn : Handler
  pub close_fn : Handler
  pub read_fn : Handler
  pub write_fn : Handler

-- The tables as init_fops_table leaves them.
unfoldable pub fops : Ops → Fops
fops term_write_ops = record {
  open_fn = null;
  close_fn = null;
  read_fn = null;
  write_fn = terminal_write_fn;
}
fops term_read_ops = record {
  open_fn = null;
  close_fn = null;
  read_fn = terminal_read_fn;
  write_fn = null;
}
fops rtc_ops = record {
  open_fn = rtc_open_fn;
  close_fn = rtc_close_fn;
  read_fn = rtc_read_fn;
  write_fn = rtc_write_fn;
}
fops file_ops = record {
  open_fn = open_file_fn;
  close_fn = close_file_fn;
  read_fn = read_file_fn;
  write_fn = write_file_fn;
}
fops dir_ops = record {
  open_fn = open_directory_fn;
  close_fn = close_directory_fn;
  read_fn = read_directory_fn;
  write_fn = write_directory_fn;
}
fops unset = record { open_fn = null; close_fn = null; read_fn = null; write_fn = null }

-- `fd_t`.
pub record Fd : Type 0 where
  pub file_op_table_ptr : Ops
  pub inode : ℕ
  pub file_pos : ℕ
  pub flags : ℕ

abbrev pub no_fd : Fd
no_fd = record { file_op_table_ptr = unset; inode = 0; file_pos = 0; flags = 0 }

-- `pcb_t`. Its `args` is left out: system_execute gives every process the one pointer to the literal "",
-- whose bytes are a part of the kernel's state.
pub record Pcb : Type 0 where
  pub file_descriptors : List Fd
  pub pid : ℕ
  pub parent_pid : ℕ
  pub terminal_id : ℕ
  pub esp : ℕ
  pub ebp : ℕ
  pub eip : ℕ
  pub tss_esp0 : ℕ
  pub tss_ss0 : ℕ

-- The globals. `pcbs` finds a block by its process number, `user_pages` the bytes loaded into a frame, and
-- `args` is what stands at the literal that `cur_args` points to.
pub record Kernel : Type 0 where
  pub image : Image
  pub dentry_counter : ℕ
  pub console : Console
  pub rtc : Rtc
  pub paging : Paging
  pub pcbs : ℕ → Pcb
  pub cur_processes : List ℕ
  pub base_shell : ℕ
  pub args : List ℕ
  pub user_pages : ℕ → List ℕ
  pub tss_esp0 : ℕ
  pub tss_ss0 : ℕ

-- The address that get_pcb computes, in 32 bits.
unfoldable pub pcb_addr : ℕ → ℕ
pcb_addr pid = (eight_mb + 2 ^ 32 * eight_kb - (pid + 1) * eight_kb) % 2 ^ 32

-- get_pcb.
abbrev pub get_pcb : ℕ → Kernel → Pcb
get_pcb pid k = k.pcbs pid

unfoldable pub set_pcb : ℕ → Pcb → Kernel → Kernel
set_pcb pid p k = record k { pcbs = λ q. if q == pid then p else k.pcbs q }

-- The process of the terminal that is scheduled, `terminal_array[curr_terminal].pid`.
abbrev pub curr_pid : Kernel → ℕ
curr_pid k = (terminal k.console k.console.curr_terminal).pid

abbrev pub curr_pcb : Kernel → Pcb
curr_pcb k = k.pcbs (curr_pid k)

-- A descriptor of the current process.
abbrev pub curr_fd : Kernel → ℕ → Fd
curr_fd k fd = get_or (curr_pcb k).file_descriptors fd no_fd

unfoldable pub set_curr_fd : ℕ → Fd → Kernel → Kernel
unfolding set_pcb
set_curr_fd fd d k =
    let p = curr_pcb k in
    set_pcb (curr_pid k) (record p { file_descriptors = set p.file_descriptors fd d }) k

-- The stack that update_tss notes for a terminal, in 32 bits.
abbrev pub kernel_stack : ℕ → ℕ
kernel_stack pid = (eight_mb + 2 ^ 32 * eight_kb - pid * eight_kb) % 2 ^ 32

unfoldable pub update_tss : ℕ → ℕ → Kernel → Kernel
update_tss new_pid terminal_id k =
    let t = terminal k.console terminal_id in
    record k {
      console =
          set_terminal terminal_id
            (record t { base_tss_esp0 = kernel_stack new_pid; base_tss_ss0 = kernel_ds }) k.console;
    }
