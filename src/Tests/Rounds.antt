-- ===== src/Tests/Rounds.antt =====
-- A test of the scheduler.
use linux_like_os_project.Prelude.{
  ℕ, zero, suc, [], ◌∷◌, ◌≡◌, ◌≢◌, ◌<◌, ◌+◌, refl, arith, replicate,
}
use linux_like_os_project.Console.{Console, terminal}
use linux_like_os_project.Kernel.{Kernel, curr_pid}
use linux_like_os_project.Kernel.Execute.{Registers}
use linux_like_os_project.Kernel.Schedule.{switched, scheduler}
use linux_like_os_project.Kernel.Rounds.{next, round_lem}
use linux_like_os_project.Tests.{sample_console, sample_terminal}
use linux_like_os_project.Tests.Process.{sample_kernel}

-- Process i on terminal i.
abbrev round_console : Console
round_console = record sample_console {
  terminal_array =
      record sample_terminal { pid = 0 }
      ∷ record sample_terminal { pid = 1 }
      ∷ record sample_terminal { pid = 2 }
      ∷ [];
}

abbrev round_kernel : Kernel
round_kernel = record sample_kernel { console = round_console }

abbrev stack_at : ℕ → Registers
stack_at a = record { esp = a; ebp = a + 16 }

round-flag : (i : ℕ) → i < 3 → (terminal round_console i).flag ≡ 1
round-flag zero h = refl
round-flag (suc zero) h = refl
round-flag (suc (suc zero)) h = refl
round-flag (suc (suc (suc i))) h = absurd (omega arith)

round-pid : (i : ℕ) → i < 3 → i ≢ 1 → 1 ≢ (terminal round_console i).pid
round-pid zero h ne = omega arith
round-pid (suc zero) h ne = absurd (ne refl)
round-pid (suc (suc zero)) h ne = omega arith
round-pid (suc (suc (suc i))) h ne = absurd (omega arith)

round_lem_example :
    let k1 = next (stack_at 0x7000) round_kernel in
    let k2 = next (stack_at 0x8000) k1 in
    let k3 = next (stack_at 0x9000) k2 in
    (scheduler (stack_at 0x7000) (replicate 4 0) round_kernel
      ≡ switched (k1.pcbs (curr_pid k1)).esp (k1.pcbs (curr_pid k1)).ebp k1)
    × (scheduler (stack_at 0x8000) (replicate 4 0) k1
        ≡ switched (k2.pcbs (curr_pid k2)).esp (k2.pcbs (curr_pid k2)).ebp k2)
    × (scheduler (stack_at 0x9000) (replicate 4 0) k2 ≡ switched 0x7000 0x7010 k3)
    × (k3.console ≡ round_console)
round_lem_example =
    round_lem (replicate 4 0) (stack_at 0x7000) (stack_at 0x8000) (stack_at 0x9000) round_kernel
      (omega arith) round-flag round-pid
