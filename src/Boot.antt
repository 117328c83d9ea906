-- ===== src/Boot.antt =====
-- The set-up in entry of student-distrib/kernel.c, from the fields of the task state segment on: each
-- component's initialisation, in its order, and the first program. What entry prints of the boot loader
-- before, and the segment descriptors, are left out.
pub mod Started
pub mod Report
pub mod Segments
pub mod Entry
use linux_like_os_project.Prelude.{ℕ, List, [], ◌∷◌, ◌++◌, Option, none, some}
use linux_like_os_project.Console.{Console, clear}
use linux_like_os_project.FileSys.{Image}
use linux_like_os_project.LineEdit.{init_terminal}
use linux_like_os_project.Keyboard.{init_ps2devices}
use linux_like_os_project.Rtc.{init_rtc}
use linux_like_os_project.Pic.{Pic, i8259_init, enable_irq}
use linux_like_os_project.Paging.{init_page}
use linux_like_os_project.Printf.{printf}
use linux_like_os_project.Idt.{Idt, Routine, build_idt}
use linux_like_os_project.Kernel.{Kernel, kernel_ds}
use linux_like_os_project.Kernel.Execute.{Registers, Outcome, system_execute}
use linux_like_os_project.Kernel.Schedule.{shell}
use linux_like_os_project.Kernel.Pit.{init_pit}

-- The interrupt table, the controllers and the kernel.
pub record Machine : Type 0 where
  pub idt : Idt
  pub pic : Pic
  pub kernel : Kernel

-- init_RTC also lets its line through.
abbrev pub rtc_irq : ℕ
rtc_irq = 8

-- "Enabling Interrupts\n"
abbrev pub enabling : List ℕ
enabling =
    69 ∷ 110 ∷ 97 ∷ 98 ∷ 108 ∷ 105 ∷ 110 ∷ 103 ∷ 32 ∷ 73 ∷ 110 ∷ 116 ∷ 101 ∷ 114 ∷ 114 ∷ 117 ∷ 112
    ∷ 116 ∷ 115 ∷ 10 ∷ []

-- Up to init_fops_table. `table_addr` is the address of page_table, and `image` the file system at the
-- module that the boot loader loaded.
unfoldable pub initialise : (Routine → ℕ) → ℕ → Image → Machine → Machine
unfolding build_idt i8259_init init_ps2devices init_terminal init_rtc init_page init_pit enable_irq
initialise addr table_addr image m =
    let k = record m.kernel { tss_esp0 = 0x800000; tss_ss0 = kernel_ds } in
    let (p, c) = init_ps2devices (i8259_init m.pic) k.console in
    let (p', k') = init_pit (enable_irq rtc_irq p) (record k {
      console = init_terminal c;
      rtc = init_rtc k.rtc;
      paging = init_page table_addr k.paging;
    }) in
    record {
      idt = build_idt addr m.idt;
      pic = p';
      kernel = record k' {
        console = record k'.console { display_on_main_page = 0 };
        image = image;
        dentry_counter = 0;
      };
    }

-- The end of entry: the message, the cleared screen, and the first shell.
unfoldable pub start_shell :
    (ℕ → List ℕ) → (ℕ → ℕ) → Registers → List ℕ → Machine → Option (Machine × Outcome)
start_shell string_at stack regs buf m =
    elim (printf string_at stack (enabling ++ (0 ∷ [])) m.kernel.console) [
      | none ↦ none
      | some r ↦
          let k = record m.kernel { console = clear r.1 } in
          some (record m { kernel = k }, system_execute regs buf (some shell) k)
    ]

unfoldable pub boot :
    (ℕ → List ℕ)
    → (ℕ → ℕ)
    → Registers
    → List ℕ
    → (Routine → ℕ)
    → ℕ
    → Image
    → Machine
    → Option (Machine × Outcome)
unfolding initialise start_shell
boot string_at stack regs buf addr table_addr image m =
    start_shell string_at stack regs buf (initialise addr table_addr image m)
