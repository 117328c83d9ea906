-- ===== src/Boot/Report/Formats.antt =====
-- The formats that entry of student-distrib/kernel.c prints what the boot loader passes with.
use linux_like_os_project.Prelude.{[], ◌∷◌, List, true, false}
use linux_like_os_project.Printf.Plain.{Piece, text, conversion}

-- "Invalid magic number: 0x%#x\n"
abbrev pub invalid_magic : List Piece
invalid_magic =
    text (
      73 ∷ 110 ∷ 118 ∷ 97 ∷ 108 ∷ 105 ∷ 100 ∷ 32 ∷ 109 ∷ 97 ∷ 103 ∷ 105 ∷ 99 ∷ 32 ∷ 110 ∷ 117 ∷ 109
      ∷ 98 ∷ 101 ∷ 114 ∷ 58 ∷ 32 ∷ 48 ∷ 120 ∷ [])
    ∷ conversion true 120
    ∷ text (10 ∷ [])
    ∷ []

-- "flags = 0x%#x\n"
abbrev pub flags_line : List Piece
flags_line =
    text (102 ∷ 108 ∷ 97 ∷ 103 ∷ 115 ∷ 32 ∷ 61 ∷ 32 ∷ 48 ∷ 120 ∷ [])
    ∷ conversion true 120
    ∷ text (10 ∷ [])
    ∷ []

-- "mem_lower = %uKB, mem_upper = %uKB\n"
abbrev pub mem_line : List Piece
mem_line =
    text (109 ∷ 101 ∷ 109 ∷ 95 ∷ 108 ∷ 111 ∷ 119 ∷ 101 ∷ 114 ∷ 32 ∷ 61 ∷ 32 ∷ [])
    ∷ conversion false 117
    ∷ text
        (75 ∷ 66 ∷ 44 ∷ 32 ∷ 109 ∷ 101 ∷ 109 ∷ 95 ∷ 117 ∷ 112 ∷ 112 ∷ 101 ∷ 114 ∷ 32 ∷ 61 ∷ 32 ∷ [])
    ∷ conversion false 117
    ∷ text (75 ∷ 66 ∷ 10 ∷ [])
    ∷ []

-- "boot_device = 0x%#x\n"
abbrev pub boot_device_line : List Piece
boot_device_line =
    text
      (98 ∷ 111 ∷ 111 ∷ 116 ∷ 95 ∷ 100 ∷ 101 ∷ 118 ∷ 105 ∷ 99 ∷ 101 ∷ 32 ∷ 61 ∷ 32 ∷ 48 ∷ 120 ∷ [])
    ∷ conversion true 120
    ∷ text (10 ∷ [])
    ∷ []

-- "cmdline = %s\n"
abbrev pub cmdline_line : List Piece
cmdline_line =
    text (99 ∷ 109 ∷ 100 ∷ 108 ∷ 105 ∷ 110 ∷ 101 ∷ 32 ∷ 61 ∷ 32 ∷ [])
    ∷ conversion false 115
    ∷ text (10 ∷ [])
    ∷ []

-- "Module %d loaded at address: 0x%#x\n"
abbrev pub module_loaded : List Piece
module_loaded =
    text (77 ∷ 111 ∷ 100 ∷ 117 ∷ 108 ∷ 101 ∷ 32 ∷ [])
    ∷ conversion false 100
    ∷ text (
        32 ∷ 108 ∷ 111 ∷ 97 ∷ 100 ∷ 101 ∷ 100 ∷ 32 ∷ 97 ∷ 116 ∷ 32 ∷ 97 ∷ 100 ∷ 100 ∷ 114 ∷ 101
        ∷ 115 ∷ 115 ∷ 58 ∷ 32 ∷ 48 ∷ 120 ∷ [])
    ∷ conversion true 120
    ∷ text (10 ∷ [])
    ∷ []

-- "Module %d ends at address: 0x%#x\n"
abbrev pub module_ends : List Piece
module_ends =
    text (77 ∷ 111 ∷ 100 ∷ 117 ∷ 108 ∷ 101 ∷ 32 ∷ [])
    ∷ conversion false 100
    ∷ text (
        32 ∷ 101 ∷ 110 ∷ 100 ∷ 115 ∷ 32 ∷ 97 ∷ 116 ∷ 32 ∷ 97 ∷ 100 ∷ 100 ∷ 114 ∷ 101 ∷ 115 ∷ 115
        ∷ 58 ∷ 32 ∷ 48 ∷ 120 ∷ [])
    ∷ conversion true 120
    ∷ text (10 ∷ [])
    ∷ []

-- "First few bytes of module:\n"
abbrev pub first_few : List Piece
first_few =
    text (
      70 ∷ 105 ∷ 114 ∷ 115 ∷ 116 ∷ 32 ∷ 102 ∷ 101 ∷ 119 ∷ 32 ∷ 98 ∷ 121 ∷ 116 ∷ 101 ∷ 115 ∷ 32 ∷ 111
      ∷ 102 ∷ 32 ∷ 109 ∷ 111 ∷ 100 ∷ 117 ∷ 108 ∷ 101 ∷ 58 ∷ 10 ∷ [])
    ∷ []

-- "0x%x "
abbrev pub byte_line : List Piece
byte_line = text (48 ∷ 120 ∷ []) ∷ conversion false 120 ∷ text (32 ∷ []) ∷ []

-- "\n"
abbrev pub line_break : List Piece
line_break = text (10 ∷ []) ∷ []

-- "Both bits 4 and 5 are set.\n"
abbrev pub both_bits : List Piece
both_bits =
    text (
      66 ∷ 111 ∷ 116 ∷ 104 ∷ 32 ∷ 98 ∷ 105 ∷ 116 ∷ 115 ∷ 32 ∷ 52 ∷ 32 ∷ 97 ∷ 110 ∷ 100 ∷ 32 ∷ 53
      ∷ 32 ∷ 97 ∷ 114 ∷ 101 ∷ 32 ∷ 115 ∷ 101 ∷ 116 ∷ 46 ∷ 10 ∷ [])
    ∷ []

-- "elf_sec: num = %u, size = 0x%#x, addr = 0x%#x, shndx = 0x%#x\n"
abbrev pub elf_line : List Piece
elf_line =
    text (101 ∷ 108 ∷ 102 ∷ 95 ∷ 115 ∷ 101 ∷ 99 ∷ 58 ∷ 32 ∷ 110 ∷ 117 ∷ 109 ∷ 32 ∷ 61 ∷ 32 ∷ [])
    ∷ conversion false 117
    ∷ text (44 ∷ 32 ∷ 115 ∷ 105 ∷ 122 ∷ 101 ∷ 32 ∷ 61 ∷ 32 ∷ 48 ∷ 120 ∷ [])
    ∷ conversion true 120
    ∷ text (44 ∷ 32 ∷ 97 ∷ 100 ∷ 100 ∷ 114 ∷ 32 ∷ 61 ∷ 32 ∷ 48 ∷ 120 ∷ [])
    ∷ conversion true 120
    ∷ text (44 ∷ 32 ∷ 115 ∷ 104 ∷ 110 ∷ 100 ∷ 120 ∷ 32 ∷ 61 ∷ 32 ∷ 48 ∷ 120 ∷ [])
    ∷ conversion true 120
    ∷ text (10 ∷ [])
    ∷ []

-- "mmap_addr = 0x%#x, mmap_length = 0x%x\n"
abbrev pub mmap_line : List Piece
mmap_line =
    text (109 ∷ 109 ∷ 97 ∷ 112 ∷ 95 ∷ 97 ∷ 100 ∷ 100 ∷ 114 ∷ 32 ∷ 61 ∷ 32 ∷ 48 ∷ 120 ∷ [])
    ∷ conversion true 120
    ∷ text (
        44 ∷ 32 ∷ 109 ∷ 109 ∷ 97 ∷ 112 ∷ 95 ∷ 108 ∷ 101 ∷ 110 ∷ 103 ∷ 116 ∷ 104 ∷ 32 ∷ 61 ∷ 32 ∷ 48
        ∷ 120 ∷ [])
    ∷ conversion false 120
    ∷ text (10 ∷ [])
    ∷ []

-- "    size = 0x%x, base_addr = 0x%#x%#x\n    type = 0x%x,  length    = 0x%#x%#x\n"
abbrev pub mmap_entry : List Piece
mmap_entry =
    text (32 ∷ 32 ∷ 32 ∷ 32 ∷ 115 ∷ 105 ∷ 122 ∷ 101 ∷ 32 ∷ 61 ∷ 32 ∷ 48 ∷ 120 ∷ [])
    ∷ conversion false 120
    ∷ text
        (44 ∷ 32 ∷ 98 ∷ 97 ∷ 115 ∷ 101 ∷ 95 ∷ 97 ∷ 100 ∷ 100 ∷ 114 ∷ 32 ∷ 61 ∷ 32 ∷ 48 ∷ 120 ∷ [])
    ∷ conversion true 120
    ∷ conversion true 120
    ∷ text (10 ∷ 32 ∷ 32 ∷ 32 ∷ 32 ∷ 116 ∷ 121 ∷ 112 ∷ 101 ∷ 32 ∷ 61 ∷ 32 ∷ 48 ∷ 120 ∷ [])
    ∷ conversion false 120
    ∷ text (
        44 ∷ 32 ∷ 32 ∷ 108 ∷ 101 ∷ 110 ∷ 103 ∷ 116 ∷ 104 ∷ 32 ∷ 32 ∷ 32 ∷ 32 ∷ 61 ∷ 32 ∷ 48 ∷ 120
        ∷ [])
    ∷ conversion true 120
    ∷ conversion true 120
    ∷ text (10 ∷ [])
    ∷ []
