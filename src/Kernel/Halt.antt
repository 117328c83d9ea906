-- ===== src/Kernel/Halt.antt =====
-- system_halt of student-distrib/syscalls.c, up to the jump back into the caller's system_execute.
use linux_like_os_project.Prelude.{
  ℕ, zero, suc, ◌+◌, Option, none, some, ◌==◌, if◌then◌else◌, ◌&&◌, set,
}
use linux_like_os_project.Console.{terminal, set_terminal}
use linux_like_os_project.Paging.{process_page}
use linux_like_os_project.Kernel.{
  Kernel, base_shell_parent, kernel_ds, kernel_stack, curr_pid, update_tss,
}
use linux_like_os_project.Kernel.Calls.{system_close}

-- A base shell starts again at its entry point; any other process gives way to its parent, which finds the
-- status in its system_execute, at the stack pointers that were saved there.
pub data Halted : Type 0 where
  restarted : ℕ → Kernel → Halted
  resumed : ℕ → ℕ → ℕ → Kernel → Halted

-- The loop that closes the descriptors, `n` of them left from `fd` on.
unfoldable pub close_all : ℕ → ℕ → Kernel → Option Kernel
close_all zero fd k = some k
close_all (suc n) fd k = elim (system_close fd k) [
  | none ↦ none
  | some r ↦ close_all n (fd + 1) r.1
]

-- The status of an exception does not fit eight bits.
unfoldable pub ext_status : ℕ → ℕ
ext_status status = if status == 255 then 256 else status

abbrev pub set_curr_pid : ℕ → Kernel → Kernel
set_curr_pid pid k =
    let i = k.console.curr_terminal in
    record k { console = set_terminal i (record (terminal k.console i) { pid = pid }) k.console }

unfoldable pub leave_process : ℕ → Kernel → Kernel
leave_process parent k =
    let k' =
      set_curr_pid parent (record k { cur_processes = set k.cur_processes (curr_pid k) 0 }) in
    record k' { paging = process_page parent k.paging }

unfoldable pub enter_parent : ℕ → Kernel → Kernel
enter_parent parent k = set_curr_pid parent (
    update_tss parent k.console.curr_terminal
      (record k { tss_esp0 = kernel_stack parent; tss_ss0 = kernel_ds }))

unfoldable pub system_halt : ℕ → Kernel → Option Halted
system_halt status k =
    let pcb = k.pcbs (curr_pid k) in
    let parent = pcb.parent_pid in
    if (parent == base_shell_parent) && ((terminal k.console k.console.curr_terminal).flag == 1)
    then some (restarted pcb.eip k)
    else (elim (close_all 8 0 (leave_process parent k)) [
      | none ↦ none
      | some k' ↦ some (
          resumed (ext_status status) (k'.pcbs parent).esp (k'.pcbs parent).ebp
            (enter_parent parent k'))
    ])
