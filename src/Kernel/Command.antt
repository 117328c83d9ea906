-- ===== src/Kernel/Command.antt =====
-- The parsing of a command line at the start of system_execute. The command is the list of its bytes up
-- to the terminator, which stands past the end of the list.
use linux_like_os_project.Prelude.{
  ℕ, zero, suc, ◌-◌, List, [], ◌∷◌, Option, none, some, ◌==◌, if◌then◌else◌, true, false, Bool,
}
use linux_like_os_project.FileSys.{filename_len}

abbrev pub space : ℕ
space = 32

-- A loop that skips spaces.
unfoldable pub skip_spaces : List ℕ → List ℕ
skip_spaces [] = []
skip_spaces (c ∷ s) = if c == space then skip_spaces s else c ∷ s

-- How many bytes such a loop skips.
unfoldable pub count_spaces : List ℕ → ℕ
count_spaces [] = 0
count_spaces (c ∷ s) = if c == space then suc (count_spaces s) else 0

-- The loop that reads the name, with `n` rounds left before the index reaches FILENAME_LEN: the bytes of
-- the name, and the place of the first argument if the loop met a space.
unfoldable pub read_name : ℕ → List ℕ → List ℕ × Option (List ℕ)
unfolding skip_spaces
read_name zero s = ([], none)
read_name (suc n) [] = ([], none)
read_name (suc n) (c ∷ s) =
    let rest = read_name n s in
    if c == 0
    then ([], none)
    else (if c == space then ([], some (skip_spaces s)) else (c ∷ rest.0, rest.1))

-- Whether nothing but spaces is left, as the loop over `temp_idx` finds out.
unfoldable pub only_spaces : List ℕ → Bool
only_spaces [] = true
only_spaces (c ∷ s) = if c == 0 then true else (if c == space then only_spaces s else false)

-- The loop that copies the arguments.
unfoldable pub copy_args : List ℕ → List ℕ
unfolding only_spaces
copy_args [] = []
copy_args (c ∷ s) =
    let rest = copy_args s in
    if c == 0
    then []
    else (if c == space then (if only_spaces s then [] else c ∷ rest) else c ∷ rest)

-- The name of the program and its arguments. The index runs over the leading spaces too.
unfoldable pub parse_command : List ℕ → List ℕ × List ℕ
unfolding skip_spaces count_spaces read_name copy_args
parse_command command =
    let (name, args) = read_name (filename_len - count_spaces command) (skip_spaces command) in
    (name, elim args [ none ↦ [] | some s ↦ copy_args s ])
