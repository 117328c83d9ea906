-- ===== src/Tests.antt =====
-- The data of the test modules, and the tests: each applies a theorem of the development to concrete
-- values.
pub mod Screen
pub mod Files
pub mod Devices
pub mod Process
pub mod Rounds
pub mod Memory
pub mod Print
pub mod Idt
pub mod User
pub mod Boot
pub mod Running
use linux_like_os_project.Prelude.{
  ℕ, List, [], ◌∷◌, ◌++◌, ◌≡◌, ◌<◌, refl, replicate, zero, suc, arith,
}
use linux_like_os_project.Console.{Terminal, Console, terminal, max_terminals}
use linux_like_os_project.Console.Cursor.{Placed, IsConsole}
use linux_like_os_project.FileSys.{Dentry, Inode, Image}

-- A terminal with "ab" typed after a prompt, its reader waiting.
abbrev pub sample_terminal : Terminal
sample_terminal = record {
  flag = 1;
  terminal_id = 0;
  screen_x = 9;
  screen_y = 3;
  buffer = 97 ∷ 98 ∷ replicate 126 0;
  buffer_size = 2;
  pid = 1;
  base_tss_esp0 = 0;
  base_tss_ss0 = 0;
  waiting_in_read = 1;
  enter_flag = 0;
  attribute = 7;
}

-- A terminal whose line "ab" is finished.
abbrev pub finished_terminal : Terminal
finished_terminal = record sample_terminal {
  buffer = 97 ∷ 98 ∷ 10 ∷ replicate 125 0;
  buffer_size = 3;
  enter_flag = 1;
}

abbrev pub sample_console : Console
sample_console = record {
  terminal_array = sample_terminal ∷ finished_terminal ∷ sample_terminal ∷ [];
  curr_terminal = 1;
  screen_terminal = 0;
  display_on_main_page = 0;
  terminal_flag = 1;
  video = λ a. 32;
  cursor = 249;
}

sample-Placed : (i : ℕ) → i < max_terminals → Placed (terminal sample_console i)
sample-Placed zero h = record { column = omega arith; row = omega arith }
sample-Placed (suc zero) h = record { column = omega arith; row = omega arith }
sample-Placed (suc (suc zero)) h = record { column = omega arith; row = omega arith }
sample-Placed (suc (suc (suc i))) h = absurd (omega arith)

pub sample-IsConsole : IsConsole sample_console
sample-IsConsole = record {
  count = refl;
  curr = omega arith;
  screen = omega arith;
  placed = sample-Placed;
}

-- The name "sh", padded with zeros, and a file that starts as a program does, with its entry point at
-- byte 24.
abbrev pub sample_dentry : Dentry
sample_dentry = record {
  filename = 115 ∷ 104 ∷ replicate 30 0;
  filetype = 2;
  inode_num = 0;
  reserved = replicate 24 0;
}

abbrev pub sample_inode : Inode
sample_inode = record { length = 28; data_block_num = 0 ∷ [] }

abbrev pub sample_data : ℕ → ℕ
sample_data zero = 0x7f
sample_data (suc zero) = 0x45
sample_data (suc (suc zero)) = 0x4c
sample_data (suc (suc (suc zero))) = 0x46
sample_data (suc (suc (suc (suc n)))) = n

abbrev pub sample_image : Image
sample_image = record {
  dir_count = 1;
  inode_count = 1;
  direntries = sample_dentry ∷ [];
  inodes = sample_inode ∷ [];
  data_bytes = sample_data;
}

abbrev pub sample_name : List ℕ
sample_name = 115 ∷ 104 ∷ []
