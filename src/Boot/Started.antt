-- ===== src/Boot/Started.antt =====
-- The kernel when its first program runs.
use linux_like_os_project.Prelude.{
  ℕ, zero, suc, ◌<◌, ◌≡◌, refl, ap, List, Option, none, some, get_or, replicate, arith,
}
use linux_like_os_project.Prelude.Int.{pos}
use linux_like_os_project.Text.{strncmp}
use linux_like_os_project.Console.{Console, terminal, puts, clear, max_terminals}
use linux_like_os_project.Console.Cursor.{IsConsole, Placed}
use linux_like_os_project.Console.Steps.{puts-IsConsole, clear-IsConsole}
use linux_like_os_project.FileSys.{Image, Dentry, read_dentry_by_name, read_data}
use linux_like_os_project.LineEdit.{init_terminal, reset_terminal}
use linux_like_os_project.Keyboard.{init_ps2devices}
use linux_like_os_project.Pic.{i8259_init}
use linux_like_os_project.Paging.{num_processes}
use linux_like_os_project.Printf.Plain.{is_text, plain_message}
use linux_like_os_project.Idt.{Routine}
use linux_like_os_project.Kernel.Command.{
  parse_command, skip_spaces, count_spaces, read_name, copy_args,
}
use linux_like_os_project.Kernel.Execute.{Registers, Outcome, elf_magic, write_over}
use linux_like_os_project.Kernel.Launch.{IsLaunched, system_execute_lem}
use linux_like_os_project.Kernel.Pit.{init_pit}
use linux_like_os_project.Kernel.Schedule.{shell}
use linux_like_os_project.Boot.{Machine, enabling, initialise, start_shell, boot}

-- The first shell is entered, without a parent, on a well-formed console, which is `c` with the message
-- printed and then cleared.
unfoldable pub IsBooted : Dentry → Console → Option (Machine × Outcome) → Type 0
IsBooted e c none = ⊥
IsBooted e c (some (m, o)) =
    (m.kernel.console ≡ clear (puts enabling c))
    × IsConsole m.kernel.console
    × (m.kernel.base_shell ≡ 1)
    × IsLaunched e m.kernel o

pub init_terminal-IsConsole :
    (c : Console) (d : ℕ) → IsConsole (record (init_terminal c) { display_on_main_page = d })
unfolding init_terminal reset_terminal
init_terminal-IsConsole c d = record {
  count = refl;
  curr = omega arith;
  screen = omega arith;
  placed = at_each;
}
  where
    at_each :
        (i : ℕ)
        → i < max_terminals
        → Placed (terminal (record (init_terminal c) { display_on_main_page = d }) i)
    at_each zero h = record { column = omega arith; row = omega arith }
    at_each (suc zero) h = record { column = omega arith; row = omega arith }
    at_each (suc (suc zero)) h = record { column = omega arith; row = omega arith }
    at_each (suc (suc (suc i))) h = absurd (omega arith)

pub shell-parsed : (parse_command shell).0 ≡ shell
unfolding parse_command skip_spaces count_spaces read_name copy_args
shell-parsed = refl

start_shell-IsBooted :
    (string_at : ℕ → List ℕ) (stack : ℕ → ℕ) (regs : Registers) (buf : List ℕ) (m : Machine)
    (e : Dentry)
    → IsConsole m.kernel.console
    → m.kernel.base_shell ≡ 1
    → m.kernel.cur_processes ≡ replicate num_processes 0
    → read_dentry_by_name m.kernel.image shell ≡ some e
    → strncmp elf_magic (write_over (read_data m.kernel.image e.inode_num 0 4).1 buf) 4 ≡ pos 0
    → IsBooted e m.kernel.console (start_shell string_at stack regs buf m)
unfolding start_shell IsBooted is_text
start_shell-IsBooted string_at stack regs buf m e v b free named elf =
    let v' = clear-IsConsole (puts-IsConsole enabling v) in
    let k = record m.kernel { console = clear (puts enabling m.kernel.console) } in
    rw (plain_message string_at stack enabling m.kernel.console refl, start_shell)
      (
        refl,
        v',
        b,
        system_execute_lem regs buf shell k e 0 v'.count v'.curr v'.screen (rw shell-parsed named)
            elf (omega arith) (ap (λ ps. get_or ps 0 1) free),
      )

-- entry from its initialisation on, with the process table empty, as a C global starts, and a file "shell"
-- that starts as an ELF file in the module's file system: whatever else the machine's state is, "Enabling
-- Interrupts" is printed on the console that the initialisation leaves, then the screen is cleared, and on
-- that console system_execute enters the first shell, a base shell without a
-- parent, with its own page, kernel stack and descriptors. The console is well-formed.
pub boot_lem :
    (string_at : ℕ → List ℕ) (stack : ℕ → ℕ) (regs : Registers) (buf : List ℕ) (addr : Routine → ℕ)
    (table_addr : ℕ) (image : Image) (m : Machine) (e : Dentry)
    → m.kernel.cur_processes ≡ replicate num_processes 0
    → read_dentry_by_name image shell ≡ some e
    → strncmp elf_magic (write_over (read_data image e.inode_num 0 4).1 buf) 4 ≡ pos 0
    → IsBooted e
        (initialise addr table_addr image m).kernel.console
        (boot string_at stack regs buf addr table_addr image m)
unfolding boot initialise init_ps2devices init_pit
boot_lem string_at stack regs buf addr table_addr image m e free named elf =
    start_shell-IsBooted string_at stack regs buf (initialise addr table_addr image m) e
      (init_terminal-IsConsole (init_ps2devices (i8259_init m.pic) m.kernel.console).1 0) refl free
      named elf
