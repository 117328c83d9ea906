-- ===== src/Boot/Report.antt =====
-- The first part of entry of student-distrib/kernel.c: what the boot loader passes is checked and printed.
-- The structures of student-distrib/multiboot.h are read from memory, at their fields' offsets.
pub mod Formats
pub mod Lines
pub mod Print
pub mod Shown
use linux_like_os_project.Prelude.{
  ℕ, zero, suc, ◌+◌, ◌-◌, ◌*◌, ◌/◌, ◌%◌, ◌^◌, List, [], ◌∷◌, ◌++◌, Option, none, some, ltb, leb,
  ◌==◌, ◌&&◌, not, if◌then◌else◌, get_or, Bool, true, false, Memory,
}
use linux_like_os_project.Prelude.State.{M, return, stopped, ◌>>=◌, ◌>>◌}
use linux_like_os_project.Console.{Console, clear}
use linux_like_os_project.Printf.{printf}
use linux_like_os_project.Printf.Plain.{Piece, format_bytes}
use Formats.{
  invalid_magic, flags_line, mem_line, boot_device_line, cmdline_line, module_loaded, module_ends,
  first_few, byte_line, line_break, both_bits, elf_line, mmap_line, mmap_entry,
}

abbrev pub multiboot_bootloader_magic : ℕ
multiboot_bootloader_magic = 0x2BADB002

-- CHECK_FLAG.
abbrev pub check_flag : ℕ → ℕ → Bool
check_flag flags bit = flags / 2 ^ bit % 2 == 1

-- entry goes on, with the address of the file system's module in `fs`, or returns.
pub data Report : Type 0 where
  refused : Report
  found : ℕ → Report

module _ (string_at : ℕ → List ℕ) (mem : Memory) where
  -- The `uint32_t` at an address.
  unfoldable pub load : ℕ → ℕ
  load a = mem a + 256 * mem (a + 1) + 65536 * mem (a + 2) + 16777216 * mem (a + 3)

  -- The `char` at an address, as the int that it is passed as.
  unfoldable pub load_char : ℕ → ℕ
  load_char a = if leb 128 (mem a) then mem a + (2 ^ 32 - 256) else mem a

  -- A call of printf with a format and its words.
  unfoldable pub say : List Piece → List ℕ → M Console (Unit {0})
  say format args c =
      elim (printf string_at (λ i. get_or args i 0) (format_bytes format ++ (0 ∷ [])) c) [
        | none ↦ none
        | some r ↦ some (tt, r.1)
      ]

  -- A line printed if a flag is set.
  unfoldable pub say_if : Bool → List Piece → List ℕ → M Console (Unit {0})
  unfolding say
  say_if true format args = say format args
  say_if false format args = return tt

  -- The loop over a module's first bytes, `n` of them left.
  unfoldable pub first_bytes : ℕ → ℕ → M Console (Unit {0})
  unfolding say load_char
  first_bytes zero a = return tt
  first_bytes (suc n) a = do say byte_line (load_char a ∷ []); first_bytes n ((a + 1) % 2 ^ 32)

  -- The loop over the modules, `n` of them left.
  unfoldable pub modules : ℕ → ℕ → ℕ → ℕ → M Console ℕ
  unfolding say load first_bytes
  modules zero mod_count a fs = return fs
  modules (suc n) mod_count a fs = do
    say module_loaded (mod_count ∷ load a ∷ [])
    say module_ends (mod_count ∷ load (a + 4) ∷ [])
    say first_few []
    first_bytes 16 (load a)
    say line_break []
    modules n (mod_count + 1) ((a + 16) % 2 ^ 32) (load a)

  -- The loop over the memory map from the address `a` up to `last`.
  unfoldable pub memory_map : ℕ → ℕ → ℕ → M Console (Unit {0})
  unfolding say load
  memory_map zero a last = if ltb a last then stopped else return tt
  memory_map (suc fuel) a last =
      let rest =
        say mmap_entry (
          load a ∷ load (a + 8) ∷ load (a + 4) ∷ load (a + 20) ∷ load (a + 16) ∷ load (a + 12) ∷ [])
        >> memory_map fuel ((a + load a + 4) % 2 ^ 32) last in
      if ltb a last then rest else return tt

  -- The lines behind the modules' and the check of the bits 4 and 5.
  unfoldable pub tables : ℕ → ℕ → ℕ → M Console Report
  unfolding say say_if load memory_map
  tables fuel mbi fs =
      let flags = load mbi in
      let map_lines =
        say mmap_line (load (mbi + 48) ∷ load (mbi + 44) ∷ [])
        >> memory_map fuel (load (mbi + 48)) ((load (mbi + 48) + load (mbi + 44)) % 2 ^ 32)
        >> return (found fs) in
      do
        say_if (check_flag flags 5) elf_line
            (load (mbi + 28) ∷ load (mbi + 32) ∷ load (mbi + 36) ∷ load (mbi + 40) ∷ [])
        if check_flag flags 6 then map_lines else return (found fs)

  unfoldable pub report_info : ℕ → ℕ → ℕ → M Console Report
  unfolding say say_if load modules tables
  report_info fuel mbi fs =
      let flags = load mbi in
      do
        say flags_line (flags ∷ [])
        say_if (check_flag flags 0) mem_line (load (mbi + 4) ∷ load (mbi + 8) ∷ [])
        say_if (check_flag flags 1) boot_device_line (load (mbi + 12) ∷ [])
        say_if (check_flag flags 2) cmdline_line (load (mbi + 16) ∷ [])
        fs' ← modules (if check_flag flags 3 then load (mbi + 20) else 0) 0 (load (mbi + 24)) fs
        if check_flag flags 4 && check_flag flags 5
            then (say both_bits [] >> return refused)
            else tables fuel mbi fs'

  -- From the start of entry on; `fs` is the global's first value.
  unfoldable pub report : ℕ → ℕ → ℕ → ℕ → M Console Report
  unfolding say report_info
  report fuel magic addr fs c =
      let c' = clear (record c { display_on_main_page = 0 }) in
      if magic == multiboot_bootloader_magic
      then report_info fuel addr fs c'
      else (say invalid_magic (magic ∷ []) >> return refused) c'
