-- ===== src/Tests/Process.antt =====
-- Tests of the system calls.
use linux_like_os_project.Prelude.{
  ℕ, zero, suc, List, [], ◌∷◌, ◌≡◌, ◌<◌, refl, arith, some, get_or, replicate,
}
use linux_like_os_project.Prelude.Int.{pos}
use linux_like_os_project.Text.{strncmp, strlen}
use linux_like_os_project.FileSys.{
  search_dentries, compare_len, read_bytes, clamp_length, read_dentry_by_name, read_data,
}
use linux_like_os_project.FileSys.Contents.{file_range}
use linux_like_os_project.Kernel.{
  Kernel, Fd, term_write_ops, term_read_ops, file_ops, rtc_ops, in_use, not_in_use, no_fd, curr_fd,
  set_curr_fd,
}
use linux_like_os_project.Kernel.Calls.{system_open, system_close, closed}
use linux_like_os_project.Kernel.Safety.{IsFds, FdFits, fits, Keeps, system_close_lem}
use linux_like_os_project.Kernel.Open.{IsOpened, system_open_lem}
use linux_like_os_project.Kernel.Files.{sum, read_all, read_all_lem}
use linux_like_os_project.Kernel.Command.{
  parse_command, skip_spaces, count_spaces, read_name, copy_args,
}
use linux_like_os_project.Kernel.Parse.{parse_command_lem}
use linux_like_os_project.Kernel.Execute.{
  elf_magic, read_into, write_over, Registers, system_execute,
}
use linux_like_os_project.Kernel.Launch.{IsLaunched, system_execute_lem}
use linux_like_os_project.Kernel.Halt.{system_halt}
use linux_like_os_project.Kernel.Leave.{IsHalted, system_halt_lem}
use linux_like_os_project.Tests.{
  sample_image, sample_inode, sample_dentry, sample_name, sample_console,
}
use linux_like_os_project.Tests.Devices.{sample_rtc, sample_paging}

-- Descriptor 2 is open on the file, the others from 3 on are free.
abbrev sample_fds : List Fd
sample_fds =
    record { file_op_table_ptr = term_read_ops; inode = 0; file_pos = 0; flags = in_use }
    ∷ record { file_op_table_ptr = term_write_ops; inode = 0; file_pos = 0; flags = in_use }
    ∷ record { file_op_table_ptr = file_ops; inode = 0; file_pos = 4; flags = in_use }
    ∷ replicate 5
        (record { file_op_table_ptr = rtc_ops; inode = 0; file_pos = 0; flags = not_in_use })

sample-fit : (i : ℕ) → i < 8 → FdFits i (get_or sample_fds i no_fd)
unfolding FdFits fits
sample-fit zero h u = refl
sample-fit (suc zero) h u = refl
sample-fit (suc (suc zero)) h u = refl
sample-fit (suc (suc (suc zero))) h u = absurd (u refl)
sample-fit (suc (suc (suc (suc zero)))) h u = absurd (u refl)
sample-fit (suc (suc (suc (suc (suc zero))))) h u = absurd (u refl)
sample-fit (suc (suc (suc (suc (suc (suc zero)))))) h u = absurd (u refl)
sample-fit (suc (suc (suc (suc (suc (suc (suc zero))))))) h u = absurd (u refl)
sample-fit (suc (suc (suc (suc (suc (suc (suc (suc i)))))))) h u = absurd (omega arith)

pub sample-IsFds : IsFds sample_fds
sample-IsFds = record { count = refl; fit = sample-fit }

-- Process 1, on terminal 1, was started by process 0.
abbrev pub sample_kernel : Kernel
sample_kernel = record {
  image = sample_image;
  dentry_counter = 0;
  console = sample_console;
  rtc = sample_rtc;
  paging = sample_paging;
  pcbs = λ p. record {
    file_descriptors = sample_fds;
    pid = p;
    parent_pid = 0;
    terminal_id = 1;
    esp = 0x7f0000;
    ebp = 0x7f0010;
    eip = 0;
    tss_esp0 = 0;
    tss_ss0 = 0;
  };
  cur_processes = 1 ∷ 1 ∷ 0 ∷ 0 ∷ 0 ∷ 0 ∷ [];
  base_shell = 0;
  args = 0 ∷ [];
  user_pages = λ p. [];
  tss_esp0 = 0x7fe000;
  tss_ss0 = 0x18;
}

pub sample-named : read_dentry_by_name sample_image sample_name ≡ some sample_dentry
unfolding read_dentry_by_name search_dentries compare_len strlen strncmp
sample-named = refl

system_halt_lem_example : IsHalted 255 0 sample_kernel (system_halt 255 sample_kernel)
system_halt_lem_example =
    system_halt_lem 255 sample_kernel refl (omega arith) (omega arith) sample-IsFds

-- The command line "  sh -l ".
abbrev pub sample_command : List ℕ
sample_command = 32 ∷ 32 ∷ 115 ∷ 104 ∷ 32 ∷ 45 ∷ 108 ∷ 32 ∷ []

pub sample-parsed : parse_command sample_command ≡ (sample_name, 45 ∷ 108 ∷ [])
unfolding parse_command skip_spaces count_spaces read_name copy_args
sample-parsed = refl

pub sample-elf : strncmp elf_magic (read_into sample_kernel 0 0 4 (replicate 4 0)) 4 ≡ pos 0
unfolding strncmp write_over read_data read_bytes clamp_length
sample-elf = refl

abbrev pub sample_registers : Registers
sample_registers = record { esp = 0x7fd000; ebp = 0x7fd010 }

system_execute_lem_example :
    IsLaunched sample_dentry sample_kernel
      (system_execute sample_registers (replicate 4 0) (some sample_command) sample_kernel)
system_execute_lem_example =
    system_execute_lem sample_registers (replicate 4 0) sample_command sample_kernel sample_dentry 2
      refl (omega arith) (omega arith) (rw sample-parsed sample-named) sample-elf (omega arith) refl

system_open_lem_example :
    IsOpened sample_dentry sample_kernel (system_open sample_name sample_kernel)
system_open_lem_example =
    system_open_lem sample_name sample_kernel sample_dentry 5 sample-IsFds sample-named
      (omega arith) (omega arith) (omega arith) refl

read_all_lem_example :
    read_all (10 ∷ 20 ∷ []) 2 sample_kernel ≡ file_range sample_image sample_inode 4 24
unfolding sum
read_all_lem_example =
    read_all_lem (10 ∷ 20 ∷ []) 2 sample_kernel refl (omega arith) (omega arith) (omega arith)

system_close_lem_example :
    (system_close 2 sample_kernel
      ≡ some (pos 0, set_curr_fd 2 (closed (curr_fd sample_kernel 2)) sample_kernel))
    × Keeps (system_close 2 sample_kernel)
system_close_lem_example = system_close_lem 2 sample_kernel sample-IsFds

-- The command line "  sh -l ".
parse_command_lem_example :
    (parse_command (32 ∷ 32 ∷ 115 ∷ 104 ∷ 32 ∷ 45 ∷ 108 ∷ 32 ∷ [])
      ≡ (115 ∷ 104 ∷ [], 45 ∷ 108 ∷ []))
    × (parse_command (32 ∷ 32 ∷ 115 ∷ 104 ∷ 32 ∷ []) ≡ (115 ∷ 104 ∷ [], []))
parse_command_lem_example =
    parse_command_lem 2 0 1 115 108 (104 ∷ []) (45 ∷ [])
      (omega arith, omega arith, (omega arith, omega arith, tt)) (omega arith) (omega arith, tt)
      (omega arith) (omega arith) (omega arith)
