-- ===== src/LineEdit.antt =====
-- The terminal driver of student-distrib/terminal.c: init_terminal, terminal_open, terminal_read,
-- terminal_write and edit_buffer. An int is its bit pattern, so that it is negative from 2 ^ 31 on.
-- `none` stands for a write outside `buffer` or below video memory.
pub mod Line
pub mod Echo
pub mod Edit
pub mod Keys
pub mod Kept
pub mod Read
pub mod Write
use linux_like_os_project.Prelude.{
  ℕ, zero, suc, ◌+◌, ◌-◌, ◌%◌, ◌^◌, List, [], ◌∷◌, Option, none, some, ltb, leb, ◌==◌,
  if◌then◌else◌, ◌&&◌, ◌||◌, not, get_or, set, length, take, Bool, true, false, min,
}
use linux_like_os_project.Prelude.Int.{ℤ, pos, negsuc}
use linux_like_os_project.Console.{
  Console, Terminal, terminal, set_terminal, no_terminal, putc, clear, erase_char,
}

abbrev pub max_buf_size : ℕ
max_buf_size = 128

abbrev pub end_of_line : ℕ
end_of_line = 0x0a

abbrev pub backspace_pressed : ℕ
backspace_pressed = 0x0e

abbrev pub enter_key : ℕ
enter_key = 0x1c

abbrev pub ctl_l_cmd : ℕ
ctl_l_cmd = 255

abbrev pub u32_mod : ℕ
u32_mod = 2 ^ 32

-- What init_terminal sets of each terminal; the buffer and the saved stack are left.
unfoldable pub reset_terminal : ℕ → ℕ → ℕ → Terminal → Terminal
reset_terminal i flag attribute t = record t {
  terminal_id = i;
  buffer_size = 0;
  screen_x = 0;
  screen_y = 0;
  flag = flag;
  pid = u32_mod - 1;
  waiting_in_read = 0;
  enter_flag = 0;
  attribute = attribute;
}

unfoldable pub init_terminal : Console → Console
unfolding reset_terminal
init_terminal c = record c {
  curr_terminal = 0;
  screen_terminal = 0;
  terminal_array =
      reset_terminal 0 1 0x07 (terminal c 0)
      ∷ reset_terminal 1 0 0x70 (terminal c 1)
      ∷ reset_terminal 2 0 0x9f (terminal c 2)
      ∷ [];
}

-- `n` bytes of a buffer set to 0 from the index `i` on.
unfoldable pub zero_bytes : ℕ → ℕ → List ℕ → List ℕ
zero_bytes zero i b = b
zero_bytes (suc n) i b = zero_bytes n (i + 1) (set b i 0)

unfoldable pub terminal_open : Console → ℤ × Console
unfolding zero_bytes
terminal_open c =
    let t = terminal c c.curr_terminal in
    (
      pos 0,
      set_terminal c.curr_terminal
          (record t { buffer = zero_bytes t.buffer_size 0 t.buffer; buffer_size = 0 }) c,
    )

unfoldable pub terminal_close : Console → ℤ × Console
terminal_close c = (pos 0, c)

-- A change of the shown terminal.
unfoldable pub edit_shown : (Terminal → Terminal) → Console → Console
edit_shown f c = set_terminal c.screen_terminal (f (terminal c c.screen_terminal)) c

-- putc with DISPLAY_ON_MAIN_PAGE set before it.
unfoldable pub echo : ℕ → Console → Console
echo ch c = putc ch (record c { display_on_main_page = 1 })

unfoldable pub echo_all : List ℕ → Console → Console
unfolding echo
echo_all [] c = c
echo_all (ch ∷ s) c = echo_all s (echo ch c)

-- A byte put behind the line, in `buffer[buffer_size]`.
unfoldable pub put_byte : ℕ → Terminal → Terminal
put_byte b t = record t { buffer = set t.buffer t.buffer_size b }

-- `buffer_size` is a uint8_t.
unfoldable pub grow : Terminal → Terminal
grow t = record t { buffer_size = (t.buffer_size + 1) % 256 }

unfoldable pub enter_line : Console → Option Console
enter_line c =
    if ltb (terminal c c.screen_terminal).buffer_size max_buf_size
    then some (
        edit_shown (λ t. grow (record t { enter_flag = 1 }))
          (echo end_of_line (edit_shown (put_byte end_of_line) c)))
    else none

unfoldable pub add_char : ℕ → Console → Option Console
add_char ch c =
    if ltb (terminal c c.screen_terminal).buffer_size max_buf_size
    then some (edit_shown grow (echo ch (edit_shown (put_byte ch) c)))
    else none

-- What follows erase_char: the byte behind the line is zeroed, and the line shortened.
unfoldable pub shrink : Terminal → Terminal
unfolding put_byte
shrink t = record (put_byte 0 t) { buffer_size = (t.buffer_size + 255) % 256 }

unfoldable pub zero_first : Terminal → Terminal
unfolding put_byte
zero_first t = if t.buffer_size == 0 then put_byte 0 t else t

unfoldable pub delete_char : Console → Option Console
delete_char c =
    if ltb 0 (terminal c c.screen_terminal).buffer_size
    then (if ltb (terminal c c.screen_terminal).buffer_size max_buf_size
        then (elim (erase_char c) [
          | none ↦ none
          | some c' ↦ some (edit_shown zero_first (edit_shown shrink c'))
        ])
        else none)
    else some (edit_shown zero_first c)

unfoldable pub edit_buffer : ℕ → Console → Option Console
edit_buffer response c =
    let t = terminal c c.screen_terminal in
    if response == ctl_l_cmd
    then some
        (echo_all (take t.buffer_size t.buffer) (clear (record c { display_on_main_page = 1 })))
    else (if (t.waiting_in_read == 1) && not (response == 0)
        then (if (t.buffer_size == max_buf_size - 2) && (response == enter_key)
            then enter_line c
            else (if response == backspace_pressed
                then delete_char c
                else (if (t.buffer_size == max_buf_size - 1) && not (response == enter_key)
                    then some c
                    else (if response == enter_key then enter_line c else add_char response c))))
        else some c)

-- The copying loop of terminal_read, with `n` rounds left at the index `i`: the bytes that it puts
-- into the caller's buffer, the index at which it stops, and `enterAtEnd`.
unfoldable pub copy_line : ℕ → ℕ → Terminal → List ℕ × ℕ × Bool
copy_line zero i t = ([], i, false)
copy_line (suc n) i t =
    let b = get_or t.buffer i 0 in
    let rest = copy_line n (i + 1) t in
    if b == end_of_line
    then ((if ltb i t.buffer_size then b ∷ [] else []), i, true)
    else ((if ltb i t.buffer_size then b ∷ rest.0 else rest.0), rest.1, rest.2)

-- The last byte becomes an end of line where the line was cut.
unfoldable pub mark_end : ℕ → List ℕ × ℕ × Bool → List ℕ
mark_end size (out, i, at_end) =
    if not at_end && (ltb i size && not (get_or out (i - 1) 0 == end_of_line))
    then set out (i - 1) end_of_line
    else out

-- A read is refused, or waits for ENTER, or returns: the number of bytes, the bytes themselves, and
-- the state after.
pub data ReadOutcome : Type 0 where
  refused : ReadOutcome
  waiting : Console → ReadOutcome
  returned : ℕ → List ℕ → Console → ReadOutcome

-- The loop that clears the terminal's buffer, and the flags.
unfoldable pub clear_line : ℕ → Terminal → Terminal
unfolding zero_bytes
clear_line true_bytes t = record t {
  buffer = zero_bytes true_bytes 0 t.buffer;
  buffer_size = 0;
  waiting_in_read = 0;
  enter_flag = 0;
}

-- What terminal_read does after its waiting loop.
unfoldable pub finish_read : ℕ → Console → ReadOutcome
finish_read true_bytes c =
    let t = terminal c c.curr_terminal in
    let copied = copy_line true_bytes 0 t in
    returned (length copied.0) (mark_end t.buffer_size copied)
      (set_terminal c.curr_terminal (clear_line true_bytes t) c)

-- `has_buf` is false for a null pointer. The loop that waits for `enter_flag` is left when it is 1.
unfoldable pub terminal_read : Bool → ℕ → Console → ReadOutcome
terminal_read has_buf nbytes c =
    if not has_buf || ((nbytes == 0) || leb (2 ^ 31) nbytes)
    then refused
    else let t = terminal c c.curr_terminal in
      let c' = set_terminal c.curr_terminal (record t { waiting_in_read = 1 }) c in
      if t.enter_flag == 1
      then finish_read (if ltb max_buf_size nbytes then max_buf_size else nbytes) c'
      else waiting c'

-- The loop of terminal_write: the bytes but the zeros are printed and counted.
unfoldable pub write_bytes : List ℕ → ℕ → Console → ℕ × Console
write_bytes [] numbytes c = (numbytes, c)
write_bytes (b ∷ s) numbytes c = elim (b == 0) [
  | true ↦ write_bytes s numbytes c
  | false ↦ write_bytes s (numbytes + 1) (putc b c)
]

-- `buf` is `none` for a null pointer, and otherwise the bytes from it on.
unfoldable pub terminal_write : Option (List ℕ) → ℕ → Console → ℤ × Console
unfolding write_bytes
terminal_write buf nbytes c = elim buf [
  | none ↦ (negsuc 0, c)
  | some s ↦
      if (nbytes == 0) || leb (2 ^ 31) nbytes
      then (negsuc 0, c)
      else let (n, c') = write_bytes (take nbytes s) 0 c in (pos n, c')
]
