-- ===== src/Kernel/Calls.antt =====
-- system_open, system_close, system_read, system_write and system_getargs of student-distrib/syscalls.c,
-- and the file and directory operations of student-distrib/file_sys.c that they call. A result `none`
-- stands for a jump through a null pointer.
use linux_like_os_project.Prelude.{
  ℕ, zero, suc, ◌+◌, ◌*◌, ◌%◌, ◌^◌, List, [], Option, none, some, ltb, leb, ◌==◌, if◌then◌else◌,
  ◌&&◌, ◌||◌, not, get_or, take, Bool,
}
use linux_like_os_project.Prelude.Int.{ℤ, pos}
use linux_like_os_project.Text.{strlen}
use linux_like_os_project.FileSys.{
  Dentry, no_dentry, read_dentry_by_name, read_dentry_by_index, read_data, filename_len, failure,
}
use linux_like_os_project.LineEdit.{terminal_read, terminal_write, refused, waiting, returned}
use linux_like_os_project.Rtc.{rtc_open, rtc_close, rtc_read, rtc_write, start_wait}
use linux_like_os_project.Kernel.{
  Kernel, Fd, Ops, Handler, fops, curr_fd, curr_pcb, set_curr_fd, file_descriptor_max, in_use,
  not_in_use, minus_one, no_fd, rtc_ops, file_ops, dir_ops,
}

-- A read returns a value and the bytes that it writes from the buffer's address on, or blocks. The buffer is
-- taken to be the program's own memory, which is not part of the kernel's state: the code does not check the
-- address. `has_buf` is false for a null pointer, which only terminal_read tests for.
pub data Reply : Type 0 where
  done : ℤ → List ℕ → Kernel → Reply
  blocked : Kernel → Reply

unfoldable pub read_file : ℕ → ℕ → Kernel → Reply
read_file fd nbytes k =
    if ltb fd file_descriptor_max
    then (let d = curr_fd k fd in
        let r = read_data k.image d.inode d.file_pos nbytes in
        done r.0 r.1 (set_curr_fd fd (record d { file_pos = (d.file_pos + nbytes) % 2 ^ 32 }) k))
    else done failure [] k

-- The entry at the descriptor's position is replaced by the one that the counter names.
unfoldable pub read_directory : ℕ → Kernel → Reply
read_directory fd k =
    if leb k.image.dir_count k.dentry_counter
    then done (pos 0) [] (record k { dentry_counter = 0 })
    else let start = get_or k.image.direntries (curr_fd k fd).file_pos no_dentry in
      let entry : Dentry = elim (read_dentry_by_index k.image k.dentry_counter) [
        | none ↦ start
        | some d ↦ d
      ] in
      done (pos filename_len) (take filename_len entry.filename)
        (record k { dentry_counter = (k.dentry_counter + 1) % 2 ^ 32 })

-- terminal_read on the kernel's console.
unfoldable pub read_terminal : Bool → ℕ → Kernel → Reply
read_terminal has_buf nbytes k = elim (terminal_read has_buf nbytes k.console) [
  | refused ↦ done failure [] k
  | waiting c ↦ blocked (record k { console = c })
  | returned n bytes c ↦ done (pos n) bytes (record k { console = c })
]

-- RTC_read while the clock interrupts up to `fuel` times.
unfoldable pub read_rtc : ℕ → Kernel → Reply
read_rtc fuel k = elim (rtc_read k.console.curr_terminal fuel k.rtc) [
  | none ↦ blocked (record k { rtc = start_wait k.console.curr_terminal k.rtc })
  | some r ↦ done (pos 0) [] (record k { rtc = r })
]

-- A call through the `read` of a table.
unfoldable pub call_read : Handler → ℕ → Bool → ℕ → ℕ → Kernel → Option Reply
call_read Handler.terminal_read_fn fuel has_buf fd nbytes k = some (read_terminal has_buf nbytes k)
call_read Handler.rtc_read_fn fuel has_buf fd nbytes k = some (read_rtc fuel k)
call_read Handler.read_file_fn fuel has_buf fd nbytes k = some (read_file fd nbytes k)
call_read Handler.read_directory_fn fuel has_buf fd nbytes k = some (read_directory fd k)
call_read _ fuel has_buf fd nbytes k = none

unfoldable pub system_read : ℕ → ℕ → Bool → ℕ → Kernel → Option Reply
system_read fuel fd has_buf nbytes k =
    if (ltb fd file_descriptor_max && not (fd == 1)) && not ((curr_fd k fd).flags == not_in_use)
    then call_read (fops (curr_fd k fd).file_op_table_ptr).read_fn fuel has_buf fd nbytes k
    else some (done failure [] k)

-- The first `uint32_t` of a buffer.
abbrev pub first_word : List ℕ → ℕ
first_word s = get_or s 0 0 + 256 * get_or s 1 0 + 65536 * get_or s 2 0 + 16777216 * get_or s 3 0

-- A call through the `write` of a table; `buf` is `none` for a null pointer.
unfoldable pub call_write : Handler → Option (List ℕ) → ℕ → Kernel → Option (ℤ × Kernel)
call_write Handler.terminal_write_fn buf nbytes k =
    let (r, c) = terminal_write buf nbytes k.console in some (r, record k { console = c })
call_write Handler.rtc_write_fn buf nbytes k =
    let word : Option ℕ = elim buf [ none ↦ none | some s ↦ some (first_word s) ] in
    let (r, t) = rtc_write k.console.curr_terminal word nbytes k.rtc in
    some (r, record k { rtc = t })
call_write Handler.write_file_fn buf nbytes k = some (failure, k)
call_write Handler.write_directory_fn buf nbytes k = some (failure, k)
call_write _ buf nbytes k = none

unfoldable pub system_write : ℕ → Option (List ℕ) → ℕ → Kernel → Option (ℤ × Kernel)
system_write fd buf nbytes k =
    if (leb 1 fd && ltb fd file_descriptor_max) && not ((curr_fd k fd).flags == not_in_use)
    then call_write (fops (curr_fd k fd).file_op_table_ptr).write_fn buf nbytes k
    else some (failure, k)

-- A call through the `open` of a table.
unfoldable pub call_open : Handler → Kernel → Option Kernel
call_open Handler.rtc_open_fn k =
    some (record k { rtc = (rtc_open k.console.curr_terminal k.rtc).1 })
call_open Handler.open_file_fn k = some k
call_open Handler.open_directory_fn k = some k
call_open _ k = none

-- The loop of system_open: the first free descriptor from `i` on, `n` of them left.
unfoldable pub find_free : ℕ → ℕ → List Fd → Option ℕ
find_free zero i fds = none
find_free (suc n) i fds =
    let rest = find_free n (i + 1) fds in
    if (get_or fds i no_fd).flags == not_in_use then some i else rest

-- The switch on the type of the file; another type leaves the pointer.
unfoldable pub ops_of : ℕ → Ops → Ops
ops_of file_type old =
    if file_type == 0
    then rtc_ops
    else (if file_type == 1 then dir_ops else (if file_type == 2 then file_ops else old))

-- What system_open makes of the descriptor that it takes.
unfoldable pub opened : Dentry → Fd → Fd
opened e d = record {
  file_op_table_ptr = ops_of e.filetype d.file_op_table_ptr;
  inode = e.inode_num;
  file_pos = 0;
  flags = in_use;
}

unfoldable pub system_open : List ℕ → Kernel → Option (ℤ × Kernel)
system_open filename k = elim (read_dentry_by_name k.image filename) [
  | none ↦ some (failure, k)
  | some e ↦ elim (find_free 6 2 (curr_pcb k).file_descriptors) [
    | none ↦ some (failure, k)
    | some index ↦
        elim (call_open (fops (opened e (curr_fd k index)).file_op_table_ptr).open_fn
          (set_curr_fd index (opened e (curr_fd k index)) k)) [
            | none ↦ none
            | some k' ↦ some (pos index, k')
          ]
  ]
]

-- A call through the `close` of a table.
unfoldable pub call_close : Handler → Kernel → Option (ℤ × Kernel)
call_close Handler.rtc_close_fn k = some ((rtc_close k.rtc).0, k)
call_close Handler.close_file_fn k = some (pos 0, k)
call_close Handler.close_directory_fn k = some (pos 0, k)
call_close _ k = none

-- What system_close makes of a descriptor.
unfoldable pub closed : Fd → Fd
closed d = record d { flags = not_in_use; inode = minus_one; file_pos = 0 }

unfoldable pub system_close : ℕ → Kernel → Option (ℤ × Kernel)
system_close fd k =
    if (leb 2 fd && ltb fd file_descriptor_max) && not ((curr_fd k fd).flags == not_in_use)
    then call_close (fops (curr_fd k fd).file_op_table_ptr).close_fn
        (set_curr_fd fd (closed (curr_fd k fd)) k)
    else some (failure, k)

-- `strlen(args) + 1 > nbytes` compares unsigned ints.
unfoldable pub system_getargs : ℕ → Kernel → ℤ × List ℕ
system_getargs nbytes k =
    if ltb nbytes ((strlen k.args + 1) % 2 ^ 32) || (strlen k.args == 0)
    then (failure, [])
    else (pos 0, take nbytes k.args)
