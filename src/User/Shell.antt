-- ===== src/User/Shell.antt =====
-- syscalls/ece391shell.c and ece391counter.c. `buf` is what the local array holds at the start; the loops
-- have fuel for their rounds.
use linux_like_os_project.Prelude.{
  ℕ, zero, suc, ◌+◌, ◌-◌, set, get_or, List, [], ◌∷◌, if◌then◌else◌, not, Bool, false, ltb, ◌==◌,
  ◌&&◌, ◌||◌,
}
use linux_like_os_project.Prelude.Int.{ℤ, pos, negsuc}
use linux_like_os_project.Kernel.Execute.{write_over}
use linux_like_os_project.User.{
  M, Syscalls, return, stopped, ◌>>=◌, ◌>>◌, is_zero, is_minus_one, bits,
}
use linux_like_os_project.User.Support.{ece391_fdputs, ece391_strcmp, ece391_strlen, ece391_itoa}
use linux_like_os_project.User.Print.{bufsize}

-- Whether a status is 256.
abbrev pub is_exception : ℤ → Bool
is_exception (pos n) = n == 256
is_exception (negsuc n) = false

-- "exit".
abbrev pub exit : List ℕ
exit = 101 ∷ 120 ∷ 105 ∷ 116 ∷ 0 ∷ []

-- The line without its end: the index of the terminator.
unfoldable pub line_end : ℕ → List ℕ → ℕ
line_end cnt buf = if ltb 0 cnt && (get_or buf (cnt - 1) 0 == 10) then cnt - 1 else cnt

module _ {S : Type 0} (c : Syscalls S) where
  -- What the shell says of a program's status.
  unfoldable pub report : ℤ → M S (Unit {0})
  unfolding ece391_fdputs
  report rval =
      if is_minus_one rval
      then ece391_fdputs c 1 (
          110 ∷ 111 ∷ 32 ∷ 115 ∷ 117 ∷ 99 ∷ 104 ∷ 32 ∷ 99 ∷ 111 ∷ 109 ∷ 109 ∷ 97 ∷ 110 ∷ 100 ∷ 10
          ∷ 0 ∷ [])
      else (if is_exception rval
          then ece391_fdputs c 1 (
              112 ∷ 114 ∷ 111 ∷ 103 ∷ 114 ∷ 97 ∷ 109 ∷ 32 ∷ 116 ∷ 101 ∷ 114 ∷ 109 ∷ 105 ∷ 110 ∷ 97
              ∷ 116 ∷ 101 ∷ 100 ∷ 32 ∷ 98 ∷ 121 ∷ 32 ∷ 101 ∷ 120 ∷ 99 ∷ 101 ∷ 112 ∷ 116 ∷ 105 ∷ 111
              ∷ 110 ∷ 10 ∷ 0 ∷ [])
          else (if not (is_zero rval)
              then ece391_fdputs c 1 (
                  112 ∷ 114 ∷ 111 ∷ 103 ∷ 114 ∷ 97 ∷ 109 ∷ 32 ∷ 116 ∷ 101 ∷ 114 ∷ 109 ∷ 105 ∷ 110
                  ∷ 97 ∷ 116 ∷ 101 ∷ 100 ∷ 32 ∷ 97 ∷ 98 ∷ 110 ∷ 111 ∷ 114 ∷ 109 ∷ 97 ∷ 108 ∷ 108
                  ∷ 121 ∷ 10 ∷ 0 ∷ [])
              else return tt))

  unfoldable pub shell_loop : ℕ → List ℕ → M S ℤ
  unfolding ece391_fdputs write_over ece391_strcmp line_end report
  shell_loop zero buf = stopped
  shell_loop (suc f) buf = do
    -- "391OS> "
    ece391_fdputs c 1 (51 ∷ 57 ∷ 49 ∷ 79 ∷ 83 ∷ 62 ∷ 32 ∷ 0 ∷ [])
    (cnt, bytes) ← c.ece391_read 0 (bufsize - 1)
    let read = write_over bytes buf
    let buf' = set read (line_end (bits cnt) read) 0
    let rest = shell_loop f buf'
    let failed = do
      -- "read from keyboard failed\n"
      ece391_fdputs c 1 (
          114 ∷ 101 ∷ 97 ∷ 100 ∷ 32 ∷ 102 ∷ 114 ∷ 111 ∷ 109 ∷ 32 ∷ 107 ∷ 101 ∷ 121 ∷ 98 ∷ 111 ∷ 97
          ∷ 114 ∷ 100 ∷ 32 ∷ 102 ∷ 97 ∷ 105 ∷ 108 ∷ 101 ∷ 100 ∷ 10 ∷ 0 ∷ [])
      return (pos 3)
    let command = do rval ← c.ece391_execute buf'; report rval; rest
    if is_minus_one cnt
        then failed
        else (if is_zero (ece391_strcmp buf' exit)
            then return (pos 0)
            else (if get_or buf' 0 0 == 0 then rest else command))

  unfoldable pub user_shell : ℕ → List ℕ → M S ℤ
  unfolding shell_loop
  user_shell f buf = do
    -- "Starting 391 Shell\n"
    ece391_fdputs c 1 (
        83 ∷ 116 ∷ 97 ∷ 114 ∷ 116 ∷ 105 ∷ 110 ∷ 103 ∷ 32 ∷ 51 ∷ 57 ∷ 49 ∷ 32 ∷ 83 ∷ 104 ∷ 101 ∷ 108
        ∷ 108 ∷ 10 ∷ 0 ∷ [])
    shell_loop f buf

  -- The loop of the counter, with `n` rounds left.
  unfoldable pub count_lines : ℕ → ℕ → List ℕ → M S (Unit {0})
  unfolding ece391_fdputs ece391_itoa
  count_lines zero i buf = return tt
  count_lines (suc n) i buf = do
    let buf' = write_over (ece391_itoa (i + 1) 10) buf
    ece391_fdputs c 1 buf'
    ece391_fdputs c 1 (10 ∷ 0 ∷ [])
    count_lines n (i + 1) buf'

  unfoldable pub counter : List ℕ → M S ℤ
  unfolding ece391_fdputs write_over ece391_strlen count_lines
  counter buf = do
    -- "Enter the Test Number: (0): 100, (1): 10000, (2): 100000\n"
    ece391_fdputs c 1 (
        69 ∷ 110 ∷ 116 ∷ 101 ∷ 114 ∷ 32 ∷ 116 ∷ 104 ∷ 101 ∷ 32 ∷ 84 ∷ 101 ∷ 115 ∷ 116 ∷ 32 ∷ 78
        ∷ 117 ∷ 109 ∷ 98 ∷ 101 ∷ 114 ∷ 58 ∷ 32 ∷ 40 ∷ 48 ∷ 41 ∷ 58 ∷ 32 ∷ 49 ∷ 48 ∷ 48 ∷ 44 ∷ 32
        ∷ 40 ∷ 49 ∷ 41 ∷ 58 ∷ 32 ∷ 49 ∷ 48 ∷ 48 ∷ 48 ∷ 48 ∷ 44 ∷ 32 ∷ 40 ∷ 50 ∷ 41 ∷ 58 ∷ 32 ∷ 49
        ∷ 48 ∷ 48 ∷ 48 ∷ 48 ∷ 48 ∷ 10 ∷ 0 ∷ [])
    (cnt, bytes) ← c.ece391_read 0 (bufsize - 1)
    let buf' = set (write_over bytes buf) (bits cnt) 0
    let first = get_or buf' 0 0
    let wrong =
        ltb 2 (ece391_strlen buf') || ((ece391_strlen buf' == 2) && (ltb first 48 || ltb 50 first))
    let limit =
        if first == 48
        then 100
        else (if first == 49 then 10000 else (if first == 50 then 100000 else 0))
    let failed = do
      -- "Can't read the number from keyboard.\n"
      ece391_fdputs c 1 (
          67 ∷ 97 ∷ 110 ∷ 39 ∷ 116 ∷ 32 ∷ 114 ∷ 101 ∷ 97 ∷ 100 ∷ 32 ∷ 116 ∷ 104 ∷ 101 ∷ 32 ∷ 110
          ∷ 117 ∷ 109 ∷ 98 ∷ 101 ∷ 114 ∷ 32 ∷ 102 ∷ 114 ∷ 111 ∷ 109 ∷ 32 ∷ 107 ∷ 101 ∷ 121 ∷ 98
          ∷ 111 ∷ 97 ∷ 114 ∷ 100 ∷ 46 ∷ 10 ∷ 0 ∷ [])
      return (pos 3)
    let refused = do
      -- "Wrong Choice!\n"
      ece391_fdputs c 1
          (87 ∷ 114 ∷ 111 ∷ 110 ∷ 103 ∷ 32 ∷ 67 ∷ 104 ∷ 111 ∷ 105 ∷ 99 ∷ 101 ∷ 33 ∷ 10 ∷ 0 ∷ [])
      return (pos 0)
    let counted = do count_lines limit 0 buf'; return (pos 0)
    if is_minus_one cnt then failed else (if wrong then refused else counted)
