-- ===== src/User/Print.antt =====
-- The programs that read and print: syscalls/ece391cat.c, ece391ls.c, ece391hello.c and
-- ece391testprint.c. `buf` is what the local array holds at the start; the loops have fuel for their
-- rounds.
use linux_like_os_project.Prelude.{ℕ, zero, suc, ◌+◌, ◌-◌, set, List, [], ◌∷◌, if◌then◌else◌, not}
use linux_like_os_project.Prelude.Int.{ℤ, pos}
use linux_like_os_project.Kernel.Execute.{write_over}
use linux_like_os_project.User.{
  M, Syscalls, return, stopped, ◌>>=◌, ◌>>◌, is_zero, is_minus_one, bits,
}
use linux_like_os_project.User.Support.{ece391_fdputs}

abbrev pub bufsize : ℕ
bufsize = 1024

abbrev pub sbufsize : ℕ
sbufsize = 33

module _ {S : Type 0} (c : Syscalls S) where
  -- Each message ends in its terminator, as the literal does.
  unfoldable pub cat_loop : ℕ → ℕ → List ℕ → M S ℤ
  unfolding ece391_fdputs write_over
  cat_loop zero fd buf = stopped
  cat_loop (suc f) fd buf = do
    (cnt, bytes) ← c.ece391_read fd bufsize
    let buf' = write_over bytes buf
    let rest = cat_loop f fd buf'
    let failed = do
      -- "file read failed\n"
      ece391_fdputs c 1 (
          102 ∷ 105 ∷ 108 ∷ 101 ∷ 32 ∷ 114 ∷ 101 ∷ 97 ∷ 100 ∷ 32 ∷ 102 ∷ 97 ∷ 105 ∷ 108 ∷ 101 ∷ 100
          ∷ 10 ∷ 0 ∷ [])
      return (pos 3)
    let print = do
      r ← c.ece391_write 1 buf' (bits cnt)
      if is_minus_one r then return (pos 3) else rest
    if is_zero cnt then return (pos 0) else (if is_minus_one cnt then failed else print)

  unfoldable pub cat : ℕ → List ℕ → M S ℤ
  unfolding cat_loop
  cat f buf = do
    (r, bytes) ← c.ece391_getargs bufsize
    let buf' = write_over bytes buf
    let no_args = do
      -- "could not read arguments\n"
      ece391_fdputs c 1 (
          99 ∷ 111 ∷ 117 ∷ 108 ∷ 100 ∷ 32 ∷ 110 ∷ 111 ∷ 116 ∷ 32 ∷ 114 ∷ 101 ∷ 97 ∷ 100 ∷ 32 ∷ 97
          ∷ 114 ∷ 103 ∷ 117 ∷ 109 ∷ 101 ∷ 110 ∷ 116 ∷ 115 ∷ 10 ∷ 0 ∷ [])
      return (pos 3)
    let no_file = do
      -- "file not found\n"
      ece391_fdputs c 1 (
          102 ∷ 105 ∷ 108 ∷ 101 ∷ 32 ∷ 110 ∷ 111 ∷ 116 ∷ 32 ∷ 102 ∷ 111 ∷ 117 ∷ 110 ∷ 100 ∷ 10 ∷ 0
          ∷ [])
      return (pos 2)
    let print = do
      fd ← c.ece391_open buf'
      if is_minus_one fd then no_file else cat_loop f (bits fd) buf'
    if not (is_zero r) then no_args else print

  unfoldable pub ls_loop : ℕ → ℕ → List ℕ → M S ℤ
  unfolding ece391_fdputs write_over
  ls_loop zero fd buf = stopped
  ls_loop (suc f) fd buf = do
    (cnt, bytes) ← c.ece391_read fd (sbufsize - 1)
    let buf' = set (write_over bytes buf) (bits cnt) 10
    let rest = ls_loop f fd buf'
    let failed = do
      -- "directory entry read failed\n"
      ece391_fdputs c 1 (
          100 ∷ 105 ∷ 114 ∷ 101 ∷ 99 ∷ 116 ∷ 111 ∷ 114 ∷ 121 ∷ 32 ∷ 101 ∷ 110 ∷ 116 ∷ 114 ∷ 121 ∷ 32
          ∷ 114 ∷ 101 ∷ 97 ∷ 100 ∷ 32 ∷ 102 ∷ 97 ∷ 105 ∷ 108 ∷ 101 ∷ 100 ∷ 10 ∷ 0 ∷ [])
      return (pos 3)
    let print = do
      r ← c.ece391_write 1 buf' (bits cnt + 1)
      if is_minus_one r then return (pos 3) else rest
    if is_zero cnt then return (pos 0) else (if is_minus_one cnt then failed else print)

  unfoldable pub ls : ℕ → List ℕ → M S ℤ
  unfolding ls_loop
  ls f buf = do
    -- "."
    fd ← c.ece391_open (46 ∷ 0 ∷ [])
    let failed = do
      -- "directory open failed\n"
      ece391_fdputs c 1 (
          100 ∷ 105 ∷ 114 ∷ 101 ∷ 99 ∷ 116 ∷ 111 ∷ 114 ∷ 121 ∷ 32 ∷ 111 ∷ 112 ∷ 101 ∷ 110 ∷ 32 ∷ 102
          ∷ 97 ∷ 105 ∷ 108 ∷ 101 ∷ 100 ∷ 10 ∷ 0 ∷ [])
      return (pos 2)
    if is_minus_one fd then failed else ls_loop f (bits fd) buf

  unfoldable pub hello : List ℕ → M S ℤ
  unfolding ece391_fdputs write_over
  hello buf = do
    -- "Hi, what's your name? "
    ece391_fdputs c 1 (
        72 ∷ 105 ∷ 44 ∷ 32 ∷ 119 ∷ 104 ∷ 97 ∷ 116 ∷ 39 ∷ 115 ∷ 32 ∷ 121 ∷ 111 ∷ 117 ∷ 114 ∷ 32 ∷ 110
        ∷ 97 ∷ 109 ∷ 101 ∷ 63 ∷ 32 ∷ 0 ∷ [])
    (cnt, bytes) ← c.ece391_read 0 (bufsize - 1)
    let buf' = set (write_over bytes buf) (bits cnt) 0
    let failed = do
      -- "Can't read name from keyboard.\n"
      ece391_fdputs c 1 (
          67 ∷ 97 ∷ 110 ∷ 39 ∷ 116 ∷ 32 ∷ 114 ∷ 101 ∷ 97 ∷ 100 ∷ 32 ∷ 110 ∷ 97 ∷ 109 ∷ 101 ∷ 32
          ∷ 102 ∷ 114 ∷ 111 ∷ 109 ∷ 32 ∷ 107 ∷ 101 ∷ 121 ∷ 98 ∷ 111 ∷ 97 ∷ 114 ∷ 100 ∷ 46 ∷ 10 ∷ 0
          ∷ [])
      return (pos 3)
    let greet = do
      -- "Hello, "
      ece391_fdputs c 1 (72 ∷ 101 ∷ 108 ∷ 108 ∷ 111 ∷ 44 ∷ 32 ∷ 0 ∷ [])
      ece391_fdputs c 1 buf'
      return (pos 0)
    if is_minus_one cnt then failed else greet

  -- "Hello, if this ran, the program was correct. Yay!\n"
  unfoldable pub testprint : M S ℤ
  unfolding ece391_fdputs
  testprint = do
    ece391_fdputs c 1 (
        72 ∷ 101 ∷ 108 ∷ 108 ∷ 111 ∷ 44 ∷ 32 ∷ 105 ∷ 102 ∷ 32 ∷ 116 ∷ 104 ∷ 105 ∷ 115 ∷ 32 ∷ 114
        ∷ 97 ∷ 110 ∷ 44 ∷ 32 ∷ 116 ∷ 104 ∷ 101 ∷ 32 ∷ 112 ∷ 114 ∷ 111 ∷ 103 ∷ 114 ∷ 97 ∷ 109 ∷ 32
        ∷ 119 ∷ 97 ∷ 115 ∷ 32 ∷ 99 ∷ 111 ∷ 114 ∷ 114 ∷ 101 ∷ 99 ∷ 116 ∷ 46 ∷ 32 ∷ 89 ∷ 97 ∷ 121 ∷ 33
        ∷ 10 ∷ 0 ∷ [])
    return (pos 0)
