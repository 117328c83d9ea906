-- ===== src/User/OnKernel.antt =====
-- The calls of a program on the kernel of student-distrib: system_read and the others on the process of the
-- scheduled terminal. `ticks` is the number of clock interrupts that a read of the clock may see, and
-- `run` is what system_execute's child does until it halts.
use linux_like_os_project.Prelude.{ℕ, List, Option, none, some, true}
use linux_like_os_project.Prelude.Int.{ℤ}
use linux_like_os_project.Kernel.{Kernel}
use linux_like_os_project.Kernel.Calls.{
  Reply, done, blocked, system_read, system_write, system_open, system_close, system_getargs,
}
use linux_like_os_project.User.{M, Syscalls}

-- What comes back to the program.
unfoldable pub reply : Option Reply → Option ((ℤ × List ℕ) × Kernel)
reply none = none
reply (some (done value bytes k)) = some ((value, bytes), k)
reply (some (blocked k)) = none

unfoldable pub kernel_read : ℕ → ℕ → ℕ → M Kernel (ℤ × List ℕ)
unfolding reply
kernel_read ticks fd nbytes k = reply (system_read ticks fd true nbytes k)

unfoldable pub on_kernel : ℕ → (List ℕ → M Kernel ℤ) → Syscalls Kernel
on_kernel ticks run = record {
  ece391_execute = run;
  ece391_read = kernel_read ticks;
  ece391_write = λ fd buf nbytes k. system_write fd (some buf) nbytes k;
  ece391_open = system_open;
  ece391_close = system_close;
  ece391_getargs = λ nbytes k. some (system_getargs nbytes k, k);
}
