-- ===== src/Text.antt =====
-- The string routines of student-distrib/lib.c: strlen, strncmp, strcpy, strncpy, strrev and itoa.
-- A `const int8_t*` is the list of the bytes from the pointer on; past the end of the list stands
-- a terminator. A routine that fills a buffer takes the buffer's bytes and returns them changed.
pub mod Length
pub mod Compare
pub mod Reverse
pub mod Digits
use linux_like_os_project.Prelude.{
  ℕ, zero, suc, ◌+◌, ◌-◌, ◌/◌, ◌%◌, List, [], ◌∷◌, ◌++◌, Option, none, some, ltb, ◌==◌,
  if◌then◌else◌, get_or, set, length, Bool, true, false,
}
use linux_like_os_project.Prelude.Int.{ℤ, pos, negsuc, ◌-ℤ◌}

-- The integer that an `int8_t` stands for.
abbrev pub signed8 : ℕ → ℤ
signed8 b = if ltb b 128 then pos b else negsuc (255 - b)

unfoldable pub strlen : List ℕ → ℕ
strlen [] = 0
strlen (c ∷ s) = if c == 0 then 0 else suc (strlen s)

abbrev pub byte_at : List ℕ → ℕ
byte_at [] = 0
byte_at (c ∷ s) = c

abbrev pub next_byte : List ℕ → List ℕ
next_byte [] = []
next_byte (c ∷ s) = s

-- The loop runs on the rounds that are left, `n - i`.
unfoldable pub strncmp : List ℕ → List ℕ → ℕ → ℤ
unfolding ◌-ℤ◌
strncmp s1 s2 zero = pos 0
strncmp s1 s2 (suc n) =
    let rest = strncmp (next_byte s1) (next_byte s2) n in
    if byte_at s1 == byte_at s2
    then (if byte_at s1 == 0 then signed8 (byte_at s1) -ℤ signed8 (byte_at s2) else rest)
    else signed8 (byte_at s1) -ℤ signed8 (byte_at s2)

-- `src` is written over the front of `dest`, with its terminator.
unfoldable pub strcpy : List ℕ → List ℕ → List ℕ
strcpy [] src = []
strcpy (d ∷ dest) [] = 0 ∷ dest
strcpy (d ∷ dest) (c ∷ src) = if c == 0 then 0 ∷ dest else c ∷ strcpy dest src

-- The second loop of strncpy, which pads.
unfoldable pub pad : List ℕ → ℕ → List ℕ
pad dest zero = dest
pad [] (suc n) = []
pad (d ∷ dest) (suc n) = 0 ∷ pad dest n

unfoldable pub strncpy : List ℕ → List ℕ → ℕ → List ℕ
unfolding pad
strncpy dest src zero = dest
strncpy [] src (suc n) = []
strncpy (d ∷ dest) [] (suc n) = 0 ∷ pad dest n
strncpy (d ∷ dest) (c ∷ src) (suc n) =
    let rest = strncpy dest src n in if c == 0 then 0 ∷ pad dest n else c ∷ rest

-- The loop of strrev, with fuel for its rounds.
unfoldable pub strrev_loop : ℕ → ℕ → ℕ → List ℕ → List ℕ
strrev_loop zero beg end s = s
strrev_loop (suc f) beg end s =
    let rest =
      strrev_loop f (beg + 1) (end - 1) (set (set s end (get_or s beg 0)) beg (get_or s end 0)) in
    if ltb beg end then rest else s

-- `end` is strlen(s) - 1, which is -1 on the empty string: there the loop does not run.
unfoldable pub strrev : List ℕ → List ℕ
unfolding strrev_loop strlen
strrev s = if strlen s == 0 then s else strrev_loop (strlen s) 0 (strlen s - 1) s

-- lookup[i] for i < 36: a digit or a capital letter.
unfoldable pub digit : ℕ → ℕ
digit i = if ltb i 10 then 48 + i else 55 + i

-- The loop of itoa, with fuel for its rounds: the digits in the order in which they are written,
-- the lowest first.
unfoldable pub itoa_loop : ℕ → ℕ → ℕ → List ℕ
unfolding digit
itoa_loop zero newval radix = []
itoa_loop (suc f) newval radix =
    let rest = itoa_loop f (newval / radix) radix in
    if newval == 0 then [] else digit (newval % radix) ∷ rest

-- The bytes that itoa leaves in its buffer, the terminator included.
unfoldable pub itoa : ℕ → ℕ → List ℕ
unfolding itoa_loop strrev
itoa value radix =
    if value == 0 then 48 ∷ 0 ∷ [] else strrev (itoa_loop (value + 1) value radix ++ 0 ∷ [])
