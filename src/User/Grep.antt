-- ===== src/User/Grep.antt =====
-- syscalls/ece391grep.c. `text` is the source's `data`; it and `buf` are what the local arrays hold at the
-- start. The loops have fuel for their rounds.
use linux_like_os_project.Prelude.{
  ℕ, zero, suc, ◌+◌, ◌-◌, set, get_or, take, drop, List, [], ◌∷◌, ◌++◌, if◌then◌else◌, not, Bool,
  true, false, leb, ◌==◌, ◌&&◌,
}
use linux_like_os_project.Prelude.Int.{ℤ, pos, negsuc}
use linux_like_os_project.Kernel.Execute.{write_over}
use linux_like_os_project.User.{
  M, Syscalls, return, stopped, ◌>>=◌, ◌>>◌, is_zero, is_minus_one, bits,
}
use linux_like_os_project.User.Support.{ece391_fdputs, ece391_strlen, ece391_strcpy, ece391_strncmp}
use linux_like_os_project.User.Print.{bufsize, sbufsize}

-- The loop that looks for the end of a line, with `n` bytes left before `last`.
unfoldable pub find_line_end : ℕ → ℕ → List ℕ → ℕ
find_line_end zero i text = i
find_line_end (suc n) i text =
    let rest = find_line_end n (i + 1) text in if get_or text i 0 == 10 then i else rest

-- Whether the loop over `check` finds the string in the line, with `n` places left from `check` on.
unfoldable pub line_matches : ℕ → ℕ → List ℕ → List ℕ → Bool
unfolding ece391_strncmp ece391_strlen
line_matches zero check s text = false
line_matches (suc n) check s text =
    let rest = line_matches n (check + 1) s text in
    if (get_or s 0 0 == get_or text check 0)
      && is_zero (ece391_strncmp (drop check text) s (ece391_strlen s))
    then true
    else rest

-- How the loop over the lines of a buffer leaves it: the bytes that are kept, and the array.
abbrev pub Left : Type 0
Left = ℕ × List ℕ

module _ {S : Type 0} (c : Syscalls S) where
  unfoldable pub print_match : List ℕ → ℕ → List ℕ → M S (Unit {0})
  unfolding ece391_fdputs
  print_match fname line_start text = do
    ece391_fdputs c 1 fname
    ece391_fdputs c 1 (58 ∷ 0 ∷ [])
    ece391_fdputs c 1 (drop line_start text)
    ece391_fdputs c 1 (10 ∷ 0 ∷ [])

  -- The lines of the buffer; `more` is whether the read gave a byte.
  unfoldable pub search_lines : ℕ → List ℕ → List ℕ → Bool → ℕ → ℕ → List ℕ → M S Left
  unfolding find_line_end line_matches print_match ece391_strcpy
  search_lines zero s fname more last line_start text = stopped
  search_lines (suc f) s fname more last line_start text = do
    let line_end = find_line_end (last - line_start) line_start text
    let ended = set text line_end 0
    let carried = ece391_strcpy ended (drop line_start ended)
    let rest = search_lines f s fname more last (line_end + 1) ended
    let next = if leb last (line_end + 1) then return (0, ended) else rest
    let search =
        if line_matches (line_end - line_start) line_start s ended
        then print_match fname line_start ended >> next
        else next
    if not (get_or text line_end 0 == 10) && (more && not (line_start == 0))
        then return (last - line_start, carried)
        else search

  -- The loop over the file.
  unfoldable pub search_file : ℕ → List ℕ → List ℕ → ℕ → ℕ → List ℕ → M S ℤ
  unfolding search_lines ece391_fdputs write_over
  search_file zero s fname fd last text = stopped
  search_file (suc f) s fname fd last text = do
    (cnt, bytes) ← c.ece391_read fd (bufsize - last)
    let read = take last text ++ write_over bytes (drop last text)
    let failed = do
      -- "file read failed\n"
      ece391_fdputs c 1 (
          102 ∷ 105 ∷ 108 ∷ 101 ∷ 32 ∷ 114 ∷ 101 ∷ 97 ∷ 100 ∷ 32 ∷ 102 ∷ 97 ∷ 105 ∷ 108 ∷ 101 ∷ 100
          ∷ 10 ∷ 0 ∷ [])
      return (negsuc 0)
    let close_failed = do
      -- "file close failed\n"
      ece391_fdputs c 1 (
          102 ∷ 105 ∷ 108 ∷ 101 ∷ 32 ∷ 99 ∷ 108 ∷ 111 ∷ 115 ∷ 101 ∷ 32 ∷ 102 ∷ 97 ∷ 105 ∷ 108 ∷ 101
          ∷ 100 ∷ 10 ∷ 0 ∷ [])
      return (negsuc 0)
    let close = do r ← c.ece391_close fd; if is_minus_one r then close_failed else return (pos 0)
    let lines = do
      (last', text') ←
          search_lines (bufsize + 1) s fname (not (is_zero cnt)) (last + bits cnt) 0 read
      if is_zero cnt then close else search_file f s fname fd last' text'
    if is_minus_one cnt then failed else lines

  unfoldable pub do_one_file : ℕ → List ℕ → List ℕ → List ℕ → M S ℤ
  unfolding search_file
  do_one_file f s fname text = do
    fd ← c.ece391_open fname
    let failed = do
      -- "file open failed\n"
      ece391_fdputs c 1 (
          102 ∷ 105 ∷ 108 ∷ 101 ∷ 32 ∷ 111 ∷ 112 ∷ 101 ∷ 110 ∷ 32 ∷ 102 ∷ 97 ∷ 105 ∷ 108 ∷ 101 ∷ 100
          ∷ 10 ∷ 0 ∷ [])
      return (negsuc 0)
    if is_minus_one fd then failed else search_file f s fname (bits fd) 0 text

  -- The loop over the directory; a name that starts with '.' is passed over.
  unfoldable pub grep_loop : ℕ → ℕ → List ℕ → List ℕ → List ℕ → M S ℤ
  unfolding do_one_file ece391_fdputs write_over
  grep_loop zero fd search text buf = stopped
  grep_loop (suc f) fd search text buf = do
    (cnt, bytes) ← c.ece391_read fd (sbufsize - 1)
    let read = write_over bytes buf
    let name = set read (bits cnt) 0
    let skip = grep_loop f fd search text read
    let rest = grep_loop f fd search text name
    let failed = do
      -- "directory entry read failed\n"
      ece391_fdputs c 1 (
          100 ∷ 105 ∷ 114 ∷ 101 ∷ 99 ∷ 116 ∷ 111 ∷ 114 ∷ 121 ∷ 32 ∷ 101 ∷ 110 ∷ 116 ∷ 114 ∷ 121 ∷ 32
          ∷ 114 ∷ 101 ∷ 97 ∷ 100 ∷ 32 ∷ 102 ∷ 97 ∷ 105 ∷ 108 ∷ 101 ∷ 100 ∷ 10 ∷ 0 ∷ [])
      return (pos 3)
    let one_file = do r ← do_one_file f search name text; if is_zero r then rest else return (pos 3)
    if is_zero cnt
        then return (pos 0)
        else (if is_minus_one cnt
            then failed
            else (if get_or read 0 0 == 46 then skip else one_file))

  unfoldable pub grep_main : ℕ → List ℕ → List ℕ → List ℕ → M S ℤ
  unfolding grep_loop ece391_fdputs write_over
  grep_main f search text buf = do
    (r, bytes) ← c.ece391_getargs bufsize
    let args = write_over bytes search
    let no_args = do
      -- "could not read argument\n"
      ece391_fdputs c 1 (
          99 ∷ 111 ∷ 117 ∷ 108 ∷ 100 ∷ 32 ∷ 110 ∷ 111 ∷ 116 ∷ 32 ∷ 114 ∷ 101 ∷ 97 ∷ 100 ∷ 32 ∷ 97
          ∷ 114 ∷ 103 ∷ 117 ∷ 109 ∷ 101 ∷ 110 ∷ 116 ∷ 10 ∷ 0 ∷ [])
      return (pos 3)
    let no_directory = do
      -- "directory open failed\n"
      ece391_fdputs c 1 (
          100 ∷ 105 ∷ 114 ∷ 101 ∷ 99 ∷ 116 ∷ 111 ∷ 114 ∷ 121 ∷ 32 ∷ 111 ∷ 112 ∷ 101 ∷ 110 ∷ 32 ∷ 102
          ∷ 97 ∷ 105 ∷ 108 ∷ 101 ∷ 100 ∷ 10 ∷ 0 ∷ [])
      return (pos 2)
    let run = do
      fd ← c.ece391_open (46 ∷ 0 ∷ [])
      if is_minus_one fd then no_directory else grep_loop f (bits fd) args text buf
    if is_zero r then run else no_args
