-- ===== src/User/Support.antt =====
-- syscalls/ece391support.c. A string is the list of the bytes from its pointer on.
use linux_like_os_project.Prelude.{
  ◌+◌, ◌-◌, ◌/◌, ◌%◌, ◌++◌, ltb, leb, get_or, set, ℕ, zero, suc, List, [], ◌∷◌, ◌==◌, if◌then◌else◌,
}
use linux_like_os_project.Prelude.Int.{ℤ, pos, ◌-ℤ◌}
use linux_like_os_project.Text.{byte_at, next_byte}
use linux_like_os_project.User.{M, Syscalls, return, ◌>>=◌}

unfoldable pub ece391_strlen : List ℕ → ℕ
ece391_strlen [] = 0
ece391_strlen (c ∷ s) = if c == 0 then 0 else suc (ece391_strlen s)

unfoldable pub ece391_strcpy : List ℕ → List ℕ → List ℕ
ece391_strcpy [] src = []
ece391_strcpy (d ∷ dst) [] = 0 ∷ dst
ece391_strcpy (d ∷ dst) (c ∷ src) = if c == 0 then 0 ∷ dst else c ∷ ece391_strcpy dst src

-- The bytes are unsigned. The end of the first string's list stands for its terminator.
unfoldable pub ece391_strcmp : List ℕ → List ℕ → ℤ
unfolding ◌-ℤ◌
ece391_strcmp [] s2 = pos 0 -ℤ pos (byte_at s2)
ece391_strcmp (c ∷ s1) s2 =
    let rest = ece391_strcmp s1 (next_byte s2) in
    if c == byte_at s2 then (if c == 0 then pos 0 else rest) else pos c -ℤ pos (byte_at s2)

unfoldable pub ece391_strncmp : List ℕ → List ℕ → ℕ → ℤ
unfolding ◌-ℤ◌
ece391_strncmp s1 s2 zero = pos 0
ece391_strncmp s1 s2 (suc n) =
    let rest = ece391_strncmp (next_byte s1) (next_byte s2) n in
    if byte_at s1 == byte_at s2
    then (if byte_at s1 == 0 then pos 0 else rest)
    else pos (byte_at s1) -ℤ pos (byte_at s2)

-- The loop of ece391_strrev, with fuel for its rounds.
unfoldable pub ece391_strrev_loop : ℕ → ℕ → ℕ → List ℕ → List ℕ
ece391_strrev_loop zero beg end s = s
ece391_strrev_loop (suc f) beg end s =
    let rest =
      ece391_strrev_loop f (beg + 1) (end - 1)
        (set (set s end (get_or s beg 0)) beg (get_or s end 0)) in
    if ltb beg end then rest else s

-- `end` is not above 0 for strings of no bytes or one.
unfoldable pub ece391_strrev : List ℕ → List ℕ
unfolding ece391_strrev_loop ece391_strlen
ece391_strrev s =
    if leb (ece391_strlen s) 1
    then s
    else ece391_strrev_loop (ece391_strlen s) 0 (ece391_strlen s - 1) s

-- The digits in the order in which they are written, the lowest first.
unfoldable pub ece391_itoa_loop : ℕ → ℕ → ℕ → List ℕ
ece391_itoa_loop zero newval radix = []
ece391_itoa_loop (suc f) newval radix =
    let i = newval % radix in
    let rest = ece391_itoa_loop f (newval / radix) radix in
    if newval == 0 then [] else (if ltb i 10 then 48 + i else 55 + i) ∷ rest

-- The bytes that are left in the buffer.
unfoldable pub ece391_itoa : ℕ → ℕ → List ℕ
unfolding ece391_itoa_loop ece391_strrev
ece391_itoa value radix =
    if value == 0
    then 48 ∷ 0 ∷ []
    else ece391_strrev (ece391_itoa_loop (value + 1) value radix ++ (0 ∷ []))

module _ {S : Type 0} (c : Syscalls S) where
  unfoldable pub ece391_fdputs : ℕ → List ℕ → M S (Unit {0})
  unfolding ece391_strlen
  ece391_fdputs fd s = do r ← c.ece391_write fd s (ece391_strlen s); return tt
