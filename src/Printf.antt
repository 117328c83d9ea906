-- ===== src/Printf.antt =====
-- printf of student-distrib/lib.c. The format is the list of the bytes from its pointer on, whose end is
-- the end of the memory that may be read; `stack` gives the words after the format on the stack, and
-- `string_at` the bytes from an address on.
pub mod Plain
pub mod Hex
pub mod Items
use Prim.Native.String.{String}
use linux_like_os_project.Prelude.{
  ℕ, zero, suc, ◌+◌, ◌-◌, ◌%◌, ◌^◌, List, [], ◌∷◌, ◌++◌, Option, none, some, ltb, leb, ◌==◌, ◌||◌,
  if◌then◌else◌, Bool, true, false, replicate, drop,
}
use linux_like_os_project.Text.{strlen, itoa}
use linux_like_os_project.Console.{Console, putc, puts}

-- What %#x shows: `conv_buf[8]` on holds the digits, and '0' stands from their number up to the eighth
-- byte. The bytes before are not set.
unfoldable pub padded_hex : ℕ → List ℕ
padded_hex value = let digits = itoa value 16 in replicate (8 - strlen digits) 48 ++ digits

-- A signed int, by its bit pattern.
unfoldable pub signed_digits : ℕ → List ℕ
signed_digits value = if leb (2 ^ 31) value then 45 ∷ itoa (2 ^ 32 - value) 10 else itoa value 10

-- Whether a conversion takes a word of the stack: %x %u %d %c %s.
unfoldable pub takes_word : ℕ → Bool
takes_word ch = (ch == 120) || ((ch == 117) || ((ch == 100) || ((ch == 99) || (ch == 115))))

-- What a conversion prints. A specifier that printf does not know prints nothing.
unfoldable pub convert : (ℕ → List ℕ) → Bool → ℕ → ℕ → Console → Console
unfolding padded_hex signed_digits
convert string_at alternate ch word c =
    if ch == 37
    then putc 37 c
    else if ch == 120
    then puts (if alternate then padded_hex word else itoa word 16) c
    else if ch == 117
    then puts (itoa word 10) c
    else if ch == 100
    then puts (signed_digits word) c
    else if ch == 99
    then putc (word % 256) c
    else if ch == 115
    then puts (string_at word) c
    else c

-- Where the loop stands: at a character of the format, or behind a '%' and any '#'.
pub data Mode : Type 0 where
  plain : Mode
  spec : Bool → Mode

-- The loop from a place in the format on, with the number of bytes before it, and the index of the next
-- word of the stack. `none` is a read past the end of the format's memory.
unfoldable pub printf_loop :
    (ℕ → List ℕ) → (ℕ → ℕ) → Mode → List ℕ → ℕ → ℕ → Console → Option (ℕ × Console)
unfolding convert takes_word
printf_loop string_at stack mode [] n esp c = none
printf_loop string_at stack plain (ch ∷ s) n esp c =
    let text = printf_loop string_at stack plain s (n + 1) esp (putc ch c) in
    let conversion = printf_loop string_at stack (spec false) s (n + 1) esp c in
    if ch == 0 then some (n, c) else if ch == 37 then conversion else text
printf_loop string_at stack (spec alternate) (ch ∷ s) n esp c =
    let again = printf_loop string_at stack (spec true) s (n + 1) esp c in
    let after =
      printf_loop string_at stack plain s (n + 1) (if takes_word ch then esp + 1 else esp)
        (convert string_at alternate ch (stack esp) c) in
    if ch == 35 then again else after

-- The number of bytes of the format, and the console.
unfoldable pub printf : (ℕ → List ℕ) → (ℕ → ℕ) → List ℕ → Console → Option (ℕ × Console)
unfolding printf_loop
printf string_at stack format c = printf_loop string_at stack plain format 0 0 c
