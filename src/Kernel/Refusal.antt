-- ===== src/Kernel/Refusal.antt =====
-- The calls of system_execute of student-distrib/syscalls.c that start nothing.
use linux_like_os_project.Prelude.{
  ℕ, zero, suc, ◌+◌, ◌<◌, ◌≤◌, ◌≡◌, ◌≢◌, refl, List, [], ◌∷◌, ◌++◌, Option, none, some, inl, inr,
  ◌==◌, Bool-cases, false, get_or, arith,
}
use linux_like_os_project.Prelude.Int.{ℤ, pos, negsuc}
use linux_like_os_project.Text.{strncmp}
use linux_like_os_project.FileSys.{Dentry, read_dentry_by_name}
use linux_like_os_project.Paging.{num_processes}
use linux_like_os_project.Kernel.{Kernel}
use linux_like_os_project.Kernel.Command.{parse_command}
use linux_like_os_project.Kernel.Execute.{
  Registers, failed, elf_magic, read_into, write_over, find_pid, strncmp_is_zero, execute_file,
  system_execute,
}

-- The file's first bytes are not those of a program.
abbrev pub IsNoProgram : Kernel → List ℕ → Dentry → Type 0
IsNoProgram k buf e = strncmp elf_magic (read_into k e.inode_num 0 4 buf) 4 ≢ pos 0

-- Why system_execute starts nothing: no file has the name, the file is no program, or all six processes
-- are taken.
pub data IsRefused (k : Kernel) (buf name : List ℕ) : Type 0 where
  no_file : read_dentry_by_name k.image name ≡ none → IsRefused k buf name
  no_program :
      (e : Dentry)
      → read_dentry_by_name k.image name ≡ some e
      → IsNoProgram k buf e
      → IsRefused k buf name
  no_process : ((i : ℕ) → i < num_processes → get_or k.cur_processes i 1 ≢ 0) → IsRefused k buf name

find_pid-none :
    (n i : ℕ) (ps : List ℕ)
    → ((l : ℕ) → i ≤ l → l < i + n → get_or ps l 1 ≢ 0)
    → find_pid n i ps ≡ none
unfolding find_pid
find_pid-none zero i ps h = refl
find_pid-none (suc n) i ps h =
    let taken : (get_or ps i 1 == 0) ≡ false = ground (arith, h i (omega arith) (omega arith)) in
    rw taken (find_pid-none n (i + 1) ps (λ l a b. h l (omega arith) (omega arith)))

not-zero : (z : ℤ) → z ≢ pos 0 → strncmp_is_zero z ≡ false
not-zero (pos zero) h = absurd (h refl)
not-zero (pos (suc n)) h = refl
not-zero (negsuc n) h = refl

no_process-failed :
    (regs : Registers) (buf name : List ℕ) (k : Kernel) (r : Option Dentry)
    → find_pid num_processes 0 k.cur_processes ≡ none
    → read_dentry_by_name k.image name ≡ r
    → execute_file regs buf name k ≡ failed k
unfolding execute_file
no_process-failed regs buf name k none full e = rw (e, execute_file) refl
no_process-failed regs buf name k (some d) full e =
    elim (Bool-cases (strncmp_is_zero (strncmp elf_magic (read_into k d.inode_num 0 4 buf) 4))) [
      | inl program ↦ rw (e, program, full, execute_file) refl
      | inr other ↦ rw (e, other, execute_file) refl
    ]

execute_file-failed :
    (regs : Registers) (buf name : List ℕ) (k : Kernel)
    → IsRefused k buf name
    → execute_file regs buf name k ≡ failed k
unfolding execute_file
execute_file-failed regs buf name k (no_file e) = rw (e, execute_file) refl
execute_file-failed regs buf name k (no_program d e h) = rw (e, not-zero _ h, execute_file) refl
execute_file-failed regs buf name k (no_process h) =
    no_process-failed regs buf name k (read_dentry_by_name k.image name)
      (find_pid-none 6 0 k.cur_processes (λ l a b. h l (omega arith))) refl

-- system_execute, if no file has the command's name, the file is no program, or all six processes are
-- taken: the call fails, and changes nothing but the bytes at the arguments' literal, which it has
-- written already.
pub system_execute-failed :
    (regs : Registers) (buf command : List ℕ) (k : Kernel)
    → IsRefused k buf (parse_command command).0
    → system_execute regs buf (some command) k
      ≡ failed (record k { args = write_over ((parse_command command).1 ++ (0 ∷ [])) k.args })
unfolding system_execute
system_execute-failed regs buf command k h =
    execute_file-failed regs buf (parse_command command).0
      (record k { args = write_over ((parse_command command).1 ++ (0 ∷ [])) k.args }) (moved h)
  where
    moved :
        IsRefused k buf (parse_command command).0
        → IsRefused
            (record k { args = write_over ((parse_command command).1 ++ (0 ∷ [])) k.args })
            buf
            (parse_command command).0
    moved (no_file e) = no_file e
    moved (no_program d e n) = no_program d e n
    moved (no_process f) = no_process f
