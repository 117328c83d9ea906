-- ===== src/Running/Buffer.antt =====
-- The bytes that system_read of student-distrib/syscalls.c writes into the buffer that it is given.
use linux_like_os_project.Prelude.{
  ℕ, zero, suc, ◌+◌, ◌-◌, ◌%◌, ◌/◌, ltb→lt, ◌≤◌, ◌<◌, ◌≡◌, ◌≢◌, refl, ap, ◌⊎◌, inl, inr, List, [],
  ◌∷◌, Option, none, some, ltb, leb, ◌==◌, ◌&&◌, not, if◌then◌else◌, get_or, take, length,
  length-set, Bool, true, false, Bool-cases, arith,
}
use linux_like_os_project.FileSys.{
  Image, Inode, no_inode, filename_len, read_bytes, clamp_length, read_data, bytes_per_block,
  u32_mod, failure,
}
use linux_like_os_project.Prelude.Int.{ℤ, pos}
use linux_like_os_project.Console.{Console, Terminal, terminal}
use linux_like_os_project.Rtc.{Rtc, rtc_read, start_wait}
use linux_like_os_project.LineEdit.{
  ReadOutcome, refused, waiting, returned, end_of_line, max_buf_size, copy_line, mark_end,
  finish_read, terminal_read,
}
use linux_like_os_project.Kernel.{Kernel, Ops, fops, curr_fd, file_descriptor_max, not_in_use}
use linux_like_os_project.Kernel.Vidmap.{one_twenty_eight_mb, one_thirty_two_mb}
use linux_like_os_project.Kernel.Descriptors.{curr_fds}
use linux_like_os_project.Kernel.Safety.{IsFds, FdFits, fits}
use linux_like_os_project.Kernel.Calls.{
  Reply, done, blocked, read_file, read_directory, read_terminal, read_rtc, call_read, system_read,
}

-- A buffer in the program's own page, with room for `nbytes` bytes and for the 32 that read_directory writes.
abbrev pub InUserPage : ℕ → ℕ → Type 0
InUserPage buf nbytes =
    (one_twenty_eight_mb ≤ buf)
    × (buf + nbytes ≤ one_thirty_two_mb)
    × (buf + filename_len ≤ one_thirty_two_mb)

-- A read that comes back or blocks, without a jump through a null pointer, and writes so many bytes at most.
unfoldable pub Writes : ℕ → Option Reply → Type 0
Writes nbytes none = ⊥
Writes nbytes (some (done value bytes k)) = (length bytes ≤ nbytes) ⊎ (length bytes ≤ filename_len)
Writes nbytes (some (blocked k)) = Unit

-- And that writes inside the program's page, from the address `buf` on.
unfoldable pub StaysInPage : ℕ → Option Reply → Type 0
StaysInPage buf none = ⊥
StaysInPage buf (some (done value bytes k)) =
    (one_twenty_eight_mb ≤ buf) × (buf + length bytes ≤ one_thirty_two_mb)
StaysInPage buf (some (blocked k)) = Unit

Writes-StaysInPage :
    (buf nbytes : ℕ) (r : Option Reply)
    → InUserPage buf nbytes
    → Writes nbytes r
    → StaysInPage buf r
unfolding Writes StaysInPage
Writes-StaysInPage buf nbytes none h w = w
Writes-StaysInPage buf nbytes (some (done value bytes k)) h w = (h.0, omega (arith, h.1, h.2, w))
Writes-StaysInPage buf nbytes (some (blocked k)) h w = tt

length-read_bytes :
    (fs : Image) (node : Inode) (n block index : ℕ) → length (read_bytes fs node n block index) ≡ n
unfolding read_bytes
length-read_bytes fs node zero block index = refl
length-read_bytes fs node (suc n) block index = ap suc (length-read_bytes fs node n _ _)

clamp_length-le : (node : Inode) (offset len : ℕ) → clamp_length node offset len ≤ len
unfolding clamp_length
clamp_length-le node offset len = elim (Bool-cases (ltb node.length ((offset + len) % u32_mod))) [
  | inl cut ↦
      let past : node.length < (offset + len) % u32_mod = ltb→lt _ _ cut in
      rw cut (omega (arith, past))
  | inr whole ↦ rw whole (omega arith)
]

length-if :
    (b : Bool) (x y : ℤ × List ℕ) (n : ℕ)
    → length x.1 ≤ n
    → length y.1 ≤ n
    → length (if b then x else y).1 ≤ n
length-if true x y n h l = h
length-if false x y n h l = l

length-read_data :
    (fs : Image) (inode offset len : ℕ) → length (read_data fs inode offset len).1 ≤ len
unfolding read_data
length-read_data fs inode offset len =
    let node = get_or fs.inodes inode no_inode in
    let n = clamp_length node offset len in
    length-if (leb fs.inode_count inode) _ _ len (omega arith) (
      length-if (leb node.length offset) _ _ len (omega arith) (
        omega (
          arith,
          length-read_bytes fs node n (offset / bytes_per_block) (offset % bytes_per_block),
          clamp_length-le node offset len,
        )))

-- The line that terminal_read copies.
length-copy_line : (n i : ℕ) (t : Terminal) → length (copy_line n i t).0 ≤ n
unfolding copy_line
length-copy_line zero i t = omega arith
length-copy_line (suc n) i t =
    let rest = length-copy_line n (i + 1) t in
    elim (Bool-cases (get_or t.buffer i 0 == end_of_line)) [
      | inl e ↦ elim (Bool-cases (ltb i t.buffer_size)) [
        | inl f ↦ rw (e, f) (omega arith)
        | inr f ↦ rw (e, f) (omega arith)
      ]
      | inr e ↦ elim (Bool-cases (ltb i t.buffer_size)) [
        | inl f ↦ rw (e, f) (omega (arith, rest))
        | inr f ↦ rw (e, f) (omega (arith, rest))
      ]
    ]

length-mark_end : (size : ℕ) (p : List ℕ × ℕ × Bool) → length (mark_end size p) ≡ length p.0
unfolding mark_end
length-mark_end size (out, i, at_end) =
    elim (Bool-cases (not at_end && (ltb i size && not (get_or out (i - 1) 0 == end_of_line)))) [
      | inl e ↦ rw e (length-set out (i - 1) end_of_line)
      | inr e ↦ rw e refl
    ]

-- What terminal_read writes.
unfoldable OutcomeWrites : ℕ → ReadOutcome → Type 0
OutcomeWrites nbytes refused = Unit
OutcomeWrites nbytes (waiting c) = Unit
OutcomeWrites nbytes (returned n bytes c) = length bytes ≤ nbytes

finish_read-OutcomeWrites :
    (n nbytes : ℕ) (c : Console) → n ≤ nbytes → OutcomeWrites nbytes (finish_read n c)
unfolding finish_read OutcomeWrites
finish_read-OutcomeWrites n nbytes c h =
    let t = terminal c c.curr_terminal in
    omega (arith, length-mark_end t.buffer_size (copy_line n 0 t), length-copy_line n 0 t, h)

OutcomeWrites-if :
    (b : Bool) (nbytes : ℕ) (x y : ReadOutcome)
    → OutcomeWrites nbytes x
    → OutcomeWrites nbytes y
    → OutcomeWrites nbytes (if b then x else y)
OutcomeWrites-if true nbytes x y h l = h
OutcomeWrites-if false nbytes x y h l = l

waiting-OutcomeWrites : (nbytes : ℕ) (c : Console) → OutcomeWrites nbytes (waiting c)
unfolding OutcomeWrites
waiting-OutcomeWrites nbytes c = tt

refused-OutcomeWrites : (nbytes : ℕ) → OutcomeWrites nbytes refused
unfolding OutcomeWrites
refused-OutcomeWrites nbytes = tt

terminal_read-OutcomeWrites :
    (has_buf : Bool) (nbytes : ℕ) (c : Console)
    → OutcomeWrites nbytes (terminal_read has_buf nbytes c)
unfolding terminal_read
terminal_read-OutcomeWrites has_buf nbytes c =
    let size : (if ltb max_buf_size nbytes then max_buf_size else nbytes) ≤ nbytes = ground arith in
    OutcomeWrites-if _ nbytes _ _ (refused-OutcomeWrites nbytes) (
      OutcomeWrites-if _ nbytes _ _ (finish_read-OutcomeWrites _ nbytes _ size)
        (waiting-OutcomeWrites nbytes _))

outcome-Writes :
    (nbytes : ℕ) (k : Kernel) (o : ReadOutcome)
    → OutcomeWrites nbytes o
    → Writes nbytes (
        some (elim o as (λ _. Reply) [
          | refused ↦ done failure [] k
          | waiting c ↦ blocked (record k { console = c })
          | returned n bytes c ↦ done (pos n) bytes (record k { console = c })
        ]))
unfolding OutcomeWrites Writes
outcome-Writes nbytes k refused h = inl (omega arith)
outcome-Writes nbytes k (waiting c) h = tt
outcome-Writes nbytes k (returned n bytes c) h = inl h

read_file-Writes : (fd nbytes : ℕ) (k : Kernel) → Writes nbytes (some (read_file fd nbytes k))
unfolding read_file Writes
read_file-Writes fd nbytes k = elim (Bool-cases (ltb fd file_descriptor_max)) [
  | inl e ↦ rw e (inl (length-read_data k.image _ _ nbytes))
  | inr e ↦ rw e (inl (omega arith))
]

length-take : (n : ℕ) (s : List ℕ) → length (take n s) ≤ n
length-take zero s = omega arith
length-take (suc n) [] = omega arith
length-take (suc n) (x ∷ s) = omega (arith, length-take n s)

read_directory-Writes : (fd nbytes : ℕ) (k : Kernel) → Writes nbytes (some (read_directory fd k))
unfolding read_directory Writes
read_directory-Writes fd nbytes k = elim (Bool-cases (leb k.image.dir_count k.dentry_counter)) [
  | inl e ↦ rw e (inl (omega arith))
  | inr e ↦ rw e (inr (length-take filename_len _))
]

rtc-Writes :
    (nbytes : ℕ) (k : Kernel) (o : Option Rtc)
    → Writes nbytes (
        some (elim o as (λ _. Reply) [
          | none ↦ blocked (record k { rtc = start_wait k.console.curr_terminal k.rtc })
          | some r ↦ done (pos 0) [] (record k { rtc = r })
        ]))
unfolding Writes
rtc-Writes nbytes k none = tt
rtc-Writes nbytes k (some r) = inl (omega arith)

call_read-Writes :
    (o : Ops) (fuel : ℕ) (has_buf : Bool) (fd nbytes : ℕ) (k : Kernel)
    → fits fd o ≡ true
    → fd ≢ 1
    → Writes nbytes (call_read (fops o).read_fn fuel has_buf fd nbytes k)
unfolding fits fops call_read read_terminal read_rtc
call_read-Writes Ops.term_write_ops fuel has_buf fd nbytes k f h = absurd (ground arith)
call_read-Writes Ops.term_read_ops fuel has_buf fd nbytes k f h =
    outcome-Writes nbytes k (terminal_read has_buf nbytes k.console)
      (terminal_read-OutcomeWrites has_buf nbytes k.console)
call_read-Writes Ops.rtc_ops fuel has_buf fd nbytes k f h =
    rtc-Writes nbytes k (rtc_read k.console.curr_terminal fuel k.rtc)
call_read-Writes Ops.file_ops fuel has_buf fd nbytes k f h = read_file-Writes fd nbytes k
call_read-Writes Ops.dir_ops fuel has_buf fd nbytes k f h = read_directory-Writes fd nbytes k
call_read-Writes Ops.unset fuel has_buf fd nbytes k f h = absurd (ground arith)

failed-Writes : (nbytes : ℕ) (k : Kernel) → Writes nbytes (some (done failure [] k))
unfolding Writes
failed-Writes nbytes k = inl (omega arith)

system_read-Writes :
    (fuel fd : ℕ) (has_buf : Bool) (nbytes : ℕ) (k : Kernel)
    → IsFds (curr_fds k)
    → Writes nbytes (system_read fuel fd has_buf nbytes k)
unfolding system_read FdFits
system_read-Writes fuel fd has_buf nbytes k v =
    elim (Bool-cases
      ((ltb fd file_descriptor_max && not (fd == 1)) && not ((curr_fd k fd).flags == not_in_use))) [
        | inl let_in ↦ rw let_in (
            call_read-Writes (curr_fd k fd).file_op_table_ptr fuel has_buf fd nbytes k
              (v.fit fd (ground (arith, let_in)) (ground (arith, let_in))) (ground (arith, let_in)))
        | inr kept_out ↦ rw kept_out (failed-Writes nbytes k)
      ]

pub system_read-StaysInPage :
    (fuel fd buf nbytes : ℕ) (k : Kernel)
    → InUserPage buf nbytes
    → IsFds (curr_fds k)
    → StaysInPage buf (system_read fuel fd true nbytes k)
system_read-StaysInPage fuel fd buf nbytes k h v =
    Writes-StaysInPage buf nbytes _ h (system_read-Writes fuel fd true nbytes k v)
