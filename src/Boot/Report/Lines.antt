-- ===== src/Boot/Report/Lines.antt =====
-- The lines that entry of student-distrib/kernel.c prints of what the boot loader passes, and what is asked of
-- the boot loader's memory map.
use linux_like_os_project.Prelude.{
  ℕ, zero, suc, ◌+◌, ◌%◌, ◌^◌, ◌<◌, ◌≤◌, ◌≡◌, refl, List, [], ◌∷◌, ◌++◌, ◌==◌, ◌&&◌, if◌then◌else◌,
  get_or, Bool, true, length, Memory,
}
use linux_like_os_project.Console.{Console}
use linux_like_os_project.Printf.Plain.{Piece, show}
use linux_like_os_project.Boot.Report.{multiboot_bootloader_magic, check_flag, load, load_char}
use linux_like_os_project.Boot.Report.Formats.{
  invalid_magic, flags_line, mem_line, boot_device_line, cmdline_line, module_loaded, module_ends,
  first_few, byte_line, line_break, both_bits, elf_line, mmap_line, mmap_entry,
}

-- A line: its format, and the words it is printed with.
abbrev pub Line : Type 0
Line = List Piece × List ℕ

unfoldable pub show_lines : (ℕ → List ℕ) → List Line → Console → Console
show_lines string_at [] c = c
show_lines string_at (l ∷ ls) c =
    show_lines string_at ls (show string_at (λ i. get_or l.1 i 0) l.0 0 c)

pub show_lines-append :
    (string_at : ℕ → List ℕ) (ls ms : List Line) (c : Console)
    → show_lines string_at (ls ++ ms) c ≡ show_lines string_at ms (show_lines string_at ls c)
unfolding show_lines
show_lines-append string_at [] ms c = refl
show_lines-append string_at (l ∷ ls) ms c = show_lines-append string_at ls ms _

abbrev pub line_if : Bool → Line → List Line
line_if b l = if b then l ∷ [] else []

-- The bytes of entries of these sizes.
unfoldable pub map_length : List ℕ → ℕ
map_length [] = 0
map_length (s ∷ ss) = s + 4 + map_length ss

module _ (string_at : ℕ → List ℕ) (mem : Memory) where
  unfoldable pub byte_lines : ℕ → ℕ → List Line
  byte_lines zero a = []
  byte_lines (suc n) a =
      (byte_line, load_char string_at mem a ∷ []) ∷ byte_lines n ((a + 1) % 2 ^ 32)

  -- The address of the last of `n` modules, from the one at `a` on, and the lines about them.
  unfoldable pub last_module : ℕ → ℕ → ℕ → ℕ
  last_module zero a fs = fs
  last_module (suc n) a fs = last_module n ((a + 16) % 2 ^ 32) (load string_at mem a)

  unfoldable pub module_lines : ℕ → ℕ → ℕ → List Line
  module_lines zero mod_count a = []
  module_lines (suc n) mod_count a =
      (module_loaded, mod_count ∷ load string_at mem a ∷ [])
      ∷ (module_ends, mod_count ∷ load string_at mem (a + 4) ∷ [])
      ∷ (first_few, [])
      ∷ (byte_lines 16 (load string_at mem a)
          ++ ((line_break, []) ∷ module_lines n (mod_count + 1) ((a + 16) % 2 ^ 32)))

  -- Entries of a memory map with these sizes, one after the other from the address `a` on. The size of an
  -- entry is its first word, and does not count that word.
  abbrev pub AreEntries : ℕ → List ℕ → Type 0
  AreEntries a [] = Unit {0}
  AreEntries a (s ∷ ss) = (load string_at mem a ≡ s) × AreEntries (a + s + 4) ss

  -- The lines about them.
  unfoldable pub map_lines : ℕ → List ℕ → List Line
  map_lines a [] = []
  map_lines a (s ∷ ss) =
      (
        mmap_entry,
        s
            ∷ load string_at mem (a + 8)
            ∷ load string_at mem (a + 4)
            ∷ load string_at mem (a + 20)
            ∷ load string_at mem (a + 16)
            ∷ load string_at mem (a + 12)
            ∷ [],
      )
      ∷ map_lines (a + s + 4) ss

  -- The boot loader's memory map: `mmap_length` bytes from `mmap_addr` on, which lie below the last address,
  -- and are entries of these sizes. There is a round of the loop for each.
  pub record IsMap (fuel mbi : ℕ) (sizes : List ℕ) : Type 0 where
    pub entries : AreEntries (load string_at mem (mbi + 48)) sizes
    pub total : load string_at mem (mbi + 44) ≡ map_length sizes
    pub within : load string_at mem (mbi + 48) + load string_at mem (mbi + 44) < 2 ^ 32
    pub fuelled : length sizes ≤ fuel

  -- If the loader passes a memory map, which bit 6 says.
  abbrev pub HasMap : ℕ → ℕ → List ℕ → Type 0
  HasMap fuel mbi sizes = check_flag (load string_at mem mbi) 6 ≡ true → IsMap fuel mbi sizes

  unfoldable pub table_lines : ℕ → List ℕ → List Line
  table_lines mbi sizes =
      line_if (check_flag (load string_at mem mbi) 5) (
        elf_line,
        load string_at mem (mbi + 28)
            ∷ load string_at mem (mbi + 32)
            ∷ load string_at mem (mbi + 36)
            ∷ load string_at mem (mbi + 40)
            ∷ [],
      )
      ++ (if check_flag (load string_at mem mbi) 6
          then (mmap_line, load string_at mem (mbi + 48) ∷ load string_at mem (mbi + 44) ∷ [])
            ∷ (map_lines (load string_at mem (mbi + 48)) sizes ++ [])
          else [])

  -- The two bits that exclude each other.
  abbrev pub both : ℕ → Bool
  both mbi = check_flag (load string_at mem mbi) 4 && check_flag (load string_at mem mbi) 5

  -- The number of modules, and the module that the loop over them finds last, if there are any.
  abbrev pub mods_count : ℕ → ℕ
  mods_count mbi =
      if check_flag (load string_at mem mbi) 3 then load string_at mem (mbi + 20) else 0

  abbrev pub file_system_at : ℕ → ℕ → ℕ
  file_system_at mbi fs = last_module (mods_count mbi) (load string_at mem (mbi + 24)) fs

  unfoldable pub info_lines : ℕ → List ℕ → List Line
  info_lines mbi sizes =
      (flags_line, load string_at mem mbi ∷ [])
      ∷ (line_if (check_flag (load string_at mem mbi) 0)
            (mem_line, load string_at mem (mbi + 4) ∷ load string_at mem (mbi + 8) ∷ [])
          ++ (line_if (check_flag (load string_at mem mbi) 1)
                (boot_device_line, load string_at mem (mbi + 12) ∷ [])
              ++ (line_if (check_flag (load string_at mem mbi) 2)
                    (cmdline_line, load string_at mem (mbi + 16) ∷ [])
                  ++ (module_lines (mods_count mbi) 0 (load string_at mem (mbi + 24))
                      ++ (if both mbi then (both_bits, []) ∷ [] else table_lines mbi sizes)))))

  -- What entry prints of what the boot loader passes.
  unfoldable pub report_lines : ℕ → ℕ → List ℕ → List Line
  report_lines magic addr sizes =
      if magic == multiboot_bootloader_magic
      then info_lines addr sizes
      else (invalid_magic, magic ∷ []) ∷ []
