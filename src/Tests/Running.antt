-- ===== src/Tests/Running.antt =====
-- Tests of the running kernel.
use linux_like_os_project.Prelude.{[], ◌∷◌, some, replicate}
use linux_like_os_project.Kernel.{Kernel, base_shell_parent}
use linux_like_os_project.Kernel.Execute.{system_execute}
use linux_like_os_project.Kernel.Schedule.{scheduler}
use linux_like_os_project.Running.Interrupts.{after_switch}
use linux_like_os_project.Running.Steps.{after_execute}
use linux_like_os_project.Tests.{sample_console, sample_terminal}
use linux_like_os_project.Tests.Process.{sample_kernel, sample_registers, sample_command}

-- The base shells 0, 1 and 2 on the three terminals.
abbrev shells_kernel : Kernel
shells_kernel = record sample_kernel {
  console = record sample_console {
    terminal_array =
        record sample_terminal { pid = 0 }
        ∷ record sample_terminal { pid = 1 }
        ∷ record sample_terminal { pid = 2 }
        ∷ [];
  };
  pcbs = λ p. record (sample_kernel.pcbs p) { parent_pid = base_shell_parent };
  cur_processes = 1 ∷ 1 ∷ 1 ∷ 0 ∷ 0 ∷ 0 ∷ [];
}

-- The program of the shown terminal, the timer and the clock.
abbrev shells_after : Kernel
shells_after = after_switch (
    scheduler sample_registers (replicate 4 0) (
      after_execute
        (system_execute sample_registers (replicate 4 0) (some sample_command) shells_kernel)))
