-- ===== src/User.antt =====
-- The programs of syscalls, over the system calls that syscalls/ece391syscall.S makes. A program runs on a
-- state; `none` is a run that does not come back from a call, or has no fuel left.
pub mod Support
pub mod Print
pub mod OnKernel
pub mod Rounds
pub mod Cat
pub mod Shell
pub mod Grep
pub mod Lines
pub mod Ls
use linux_like_os_project.Prelude.{ℕ, ◌-◌, ◌^◌, List, Option, none, some, Bool, true, false, ◌==◌}
use linux_like_os_project.Prelude.Int.{ℤ, pos, negsuc}
pub use linux_like_os_project.Prelude.State.{M, ◌>>=◌, ◌>>◌, return, stopped}

-- The calls. A read gives its value and the bytes that it put at the front of the buffer; a descriptor and
-- a count are bit patterns.
pub record Syscalls (S : Type 0) : Type 0 where
  pub ece391_execute : List ℕ → M S ℤ
  pub ece391_read : ℕ → ℕ → M S (ℤ × List ℕ)
  pub ece391_write : ℕ → List ℕ → ℕ → M S ℤ
  pub ece391_open : List ℕ → M S ℤ
  pub ece391_close : ℕ → M S ℤ
  pub ece391_getargs : ℕ → M S (ℤ × List ℕ)

abbrev pub is_zero : ℤ → Bool
is_zero (pos n) = n == 0
is_zero (negsuc n) = false

abbrev pub is_minus_one : ℤ → Bool
is_minus_one (pos n) = false
is_minus_one (negsuc n) = n == 0

-- An int32_t as a bit pattern.
abbrev pub bits : ℤ → ℕ
bits (pos n) = n
bits (negsuc n) = 2 ^ 32 - 1 - n
