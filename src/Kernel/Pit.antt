-- ===== src/Kernel/Pit.antt =====
-- init_pit and pit_handler of student-distrib/pit.c, on the controllers' state and the kernel's.
use linux_like_os_project.Prelude.{ℕ, ◌/◌, ◌%◌, ◌^◌, List}
use linux_like_os_project.Pic.{Pic, outb, enable_irq, send_eoi}
use linux_like_os_project.Kernel.{Kernel}
use linux_like_os_project.Kernel.Execute.{Registers}
use linux_like_os_project.Kernel.Schedule.{Switched, scheduler}

abbrev pub pit_irq : ℕ
pit_irq = 0

abbrev pub channel_0 : ℕ
channel_0 = 0x40

abbrev pub input_clock_hz : ℕ
input_clock_hz = 1193180

abbrev pub command_register : ℕ
command_register = 0x43

abbrev pub set_channel_0 : ℕ
set_channel_0 = 0x36

abbrev pub rate : ℕ
rate = 100

-- `outb` writes a byte.
unfoldable pub init_pit : Pic → Kernel → Pic × Kernel
unfolding outb enable_irq
init_pit p k =
    let divisor = input_clock_hz / rate in
    (
      enable_irq pit_irq (
          outb (divisor / 2 ^ 8 % 256) channel_0
            (outb (divisor % 256) channel_0 (outb set_channel_0 command_register p))),
      record k { base_shell = 1 },
    )

unfoldable pub pit_handler : Registers → List ℕ → Pic → Kernel → Pic × Switched
unfolding send_eoi
pit_handler regs buf p k = (send_eoi pit_irq p, scheduler regs buf k)
