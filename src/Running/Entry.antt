-- ===== src/Running/Entry.antt =====
-- From the first line of entry of student-distrib/kernel.c to the three running shells.
use linux_like_os_project.Prelude.{ℕ, ◌≡◌, refl, List, Option, none, some, false, replicate, Memory}
use linux_like_os_project.Console.{Console}
use linux_like_os_project.Console.Cursor.{IsConsole}
use linux_like_os_project.FileSys.{Image}
use linux_like_os_project.Paging.{num_processes}
use linux_like_os_project.Idt.{Routine}
use linux_like_os_project.Kernel.Execute.{Registers, Outcome}
use linux_like_os_project.Boot.{Machine}
use linux_like_os_project.Boot.Report.{Report, found, multiboot_bootloader_magic}
use linux_like_os_project.Boot.Report.Lines.{Line, HasMap, both, file_system_at}
use linux_like_os_project.Boot.Report.Print.{IsPrinted}
use linux_like_os_project.Boot.Report.Shown.{report_lem}
use linux_like_os_project.Boot.Segments.{SegDesc}
use linux_like_os_project.Boot.Entry.{Entry, Segments, returned, booted, entry}
use linux_like_os_project.Running.{IsTyped}
use linux_like_os_project.Running.Shells.{HasShell}
use linux_like_os_project.Running.Start.{Rises, BootRises, boot-Rises}

-- What entry leads to.
unfoldable pub EntryRises : Registers → List ℕ → Registers → List ℕ → Option Entry → Type 0
EntryRises regs1 buf1 regs2 buf2 none = ⊥
EntryRises regs1 buf1 regs2 buf2 (some (returned c)) = ⊥
EntryRises regs1 buf1 regs2 buf2 (some (booted l t m o)) = Rises regs1 buf1 regs2 buf2 o

booted-EntryRises :
    (regs1 regs2 : Registers) (buf1 buf2 : List ℕ) (l t : SegDesc) (r : Option (Machine × Outcome))
    → BootRises regs1 buf1 regs2 buf2 r
    → EntryRises regs1 buf1 regs2 buf2
        (elim r as (λ _. Option Entry) [ none ↦ none | some r ↦ some (booted l t r.0 r.1) ])
unfolding BootRises EntryRises
booted-EntryRises regs1 regs2 buf1 buf2 l t none v = v
booted-EntryRises regs1 regs2 buf1 buf2 l t (some r) v = v

-- A report that finds the file system.
reported :
    (string_at : ℕ → List ℕ) (ls : List Line) (c : Console) (fs : ℕ) (r : Option (Report × Console))
    → IsPrinted string_at (λ x. x ≡ found fs) ls c r
    → (c' : Console) × (r ≡ some (found fs, c'))
unfolding IsPrinted
reported string_at ls c fs none v = absurd v
reported string_at ls c fs (some (x, c')) v = (c', rw v.0 refl)

-- entry from its first line on, on a well-formed console and with the process table empty, by a Multiboot
-- loader that sets not both bits 4 and 5, and whose memory map, if bit 6 says that there is one, is entries of
-- some sizes one after the other, below the last address, with a round of the loop for each; the last module
-- that the loader passes is a file system that has a program "shell" and no entry of another type than the
-- three. Then the shell of the first
-- terminal is entered, two interrupts of the timer enter those of the other two, whatever the registers, and
-- the state is that of the kernel with its three shells started.
pub entry-Rises :
    (string_at : ℕ → List ℕ) (mem : Memory) (stack : ℕ → ℕ) (fuel addr fs : ℕ) (sizes : List ℕ)
    (s : Segments) (regs regs1 regs2 : Registers) (buf buf1 buf2 : List ℕ) (addr_of : Routine → ℕ)
    (table_addr : ℕ) (image_at : ℕ → Image) (m : Machine)
    → IsConsole m.kernel.console
    → HasMap string_at mem fuel addr sizes
    → both string_at mem addr ≡ false
    → m.kernel.cur_processes ≡ replicate num_processes 0
    → HasShell (image_at (file_system_at string_at mem addr fs))
    → IsTyped (image_at (file_system_at string_at mem addr fs))
    → EntryRises regs1 buf1 regs2 buf2 (
        entry string_at mem stack fuel multiboot_bootloader_magic addr fs s regs buf addr_of
          table_addr image_at m)
unfolding entry
entry-Rises string_at mem stack fuel addr fs sizes s regs regs1 regs2 buf buf1 buf2 addr_of
      table_addr image_at m v h one free has typed =
    let p =
      rw one at (report_lem string_at mem fuel multiboot_bootloader_magic addr fs sizes h v) in
    let (c, e) = reported _ _ _ _ _ p in
    rw (e, entry)
      (booted-EntryRises regs1 regs2 buf1 buf2 _ _ _ (
        boot-Rises string_at stack regs regs1 regs2 buf buf1 buf2 addr_of table_addr
          (image_at (file_system_at string_at mem addr fs))
          (record m { kernel = record m.kernel { console = c } }) free has typed))
