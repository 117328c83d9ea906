-- ===== src/Running/Read.antt =====
-- system_read of student-distrib/syscalls.c on the whole state.
use linux_like_os_project.Prelude.{
  ℕ, ◌^◌, ◌≡◌, ◌≢◌, refl, List, [], Option, none, some, Bool, true, ltb, ltb→lt, leb, ◌==◌, ◌&&◌,
  ◌||◌, not, if◌then◌else◌, inl, inr, Bool-cases, arith,
}
use linux_like_os_project.Prelude.Int.{ℤ, pos}
use linux_like_os_project.FileSys.{failure}
use linux_like_os_project.Console.{Console, terminal, set_terminal}
use linux_like_os_project.Console.Cursor.{IsConsole}
use linux_like_os_project.Console.Output.{Prints, Prints-trans, Prints-Stays}
use linux_like_os_project.LineEdit.{
  terminal_read, finish_read, clear_line, ReadOutcome, refused, waiting, returned, max_buf_size,
}
use linux_like_os_project.Rtc.{Rtc, rtc_read, start_wait}
use linux_like_os_project.Kernel.{Kernel, Fd, Ops, fops, curr_fd, file_descriptor_max, not_in_use}
use linux_like_os_project.Kernel.Descriptors.{curr_fds}
use linux_like_os_project.Kernel.Safety.{IsFds, FdFits, fits}
use linux_like_os_project.Kernel.Calls.{
  Reply, done, blocked, read_file, read_directory, read_terminal, read_rtc, call_read, system_read,
}
use linux_like_os_project.Running.{Quiet, Quiet-refl, console-Quiet}
use linux_like_os_project.Running.Calls.{set_curr_fd-Quiet, terminal-Prints, devices-Quiet}

-- What a read leaves.
unfoldable pub QuietReply : Kernel → Option Reply → Type 0
QuietReply k none = ⊥
QuietReply k (some (done value bytes k')) = Quiet k k'
QuietReply k (some (blocked k')) = Quiet k k'

done-QuietReply :
    {k k' : Kernel} (value : ℤ) (bytes : List ℕ)
    → Quiet k k'
    → QuietReply k (some (done value bytes k'))
unfolding QuietReply
done-QuietReply value bytes q = q

blocked-QuietReply : {k k' : Kernel} → Quiet k k' → QuietReply k (some (blocked k'))
unfolding QuietReply
blocked-QuietReply q = q

-- What terminal_read leaves.
unfoldable QuietOutcome : Console → ReadOutcome → Type 0
QuietOutcome c refused = Unit
QuietOutcome c (waiting c') = Prints c c'
QuietOutcome c (returned n bytes c') = Prints c c'

refused-QuietOutcome : (c : Console) → QuietOutcome c refused
unfolding QuietOutcome
refused-QuietOutcome c = tt

waiting-QuietOutcome : (c c' : Console) → Prints c c' → QuietOutcome c (waiting c')
unfolding QuietOutcome
waiting-QuietOutcome c c' p = p

finish_read-QuietOutcome : (n : ℕ) {c : Console} → IsConsole c → QuietOutcome c (finish_read n c)
unfolding finish_read QuietOutcome clear_line
finish_read-QuietOutcome n v = terminal-Prints _ _ v v.curr refl refl refl refl

then-QuietOutcome :
    (c c' : Console) (r : ReadOutcome) → Prints c c' → QuietOutcome c' r → QuietOutcome c r
unfolding QuietOutcome
then-QuietOutcome c c' refused p q = tt
then-QuietOutcome c c' (waiting c'') p q = Prints-trans p q
then-QuietOutcome c c' (returned n bytes c'') p q = Prints-trans p q

terminal_read-QuietOutcome :
    (has_buf : Bool) (nbytes : ℕ) {c : Console}
    → IsConsole c
    → QuietOutcome c (terminal_read has_buf nbytes c)
unfolding terminal_read
terminal_read-QuietOutcome has_buf nbytes {c} v =
    let t = terminal c c.curr_terminal in
    let c' = set_terminal c.curr_terminal (record t { waiting_in_read = 1 }) c in
    let p =
      terminal-Prints c.curr_terminal (record t { waiting_in_read = 1 }) v v.curr refl refl refl
        refl in
    elim (Bool-cases (not has_buf || ((nbytes == 0) || leb (2 ^ 31) nbytes))) [
      | inl bad ↦ rw bad (refused-QuietOutcome c)
      | inr good ↦ elim (Bool-cases (t.enter_flag == 1)) [
        | inl entered ↦
            rw (good, entered)
              (then-QuietOutcome c c'
                (finish_read (if ltb max_buf_size nbytes then max_buf_size else nbytes) c') p
                (finish_read-QuietOutcome _ p.formed))
        | inr idle ↦ rw (good, idle) (waiting-QuietOutcome c c' p)
      ]
    ]

read_terminal-after :
    (k : Kernel) (r : ReadOutcome)
    → IsConsole k.console
    → QuietOutcome k.console r
    → QuietReply k (
        some (elim r as (λ _. Reply) [
          | refused ↦ done failure [] k
          | waiting c ↦ blocked (record k { console = c })
          | returned n bytes c ↦ done (pos n) bytes (record k { console = c })
        ]))
unfolding QuietOutcome QuietReply
read_terminal-after k refused v q = Quiet-refl v
read_terminal-after k (waiting c) v q = console-Quiet (Prints-Stays q)
read_terminal-after k (returned n bytes c) v q = console-Quiet (Prints-Stays q)

read_rtc-Quiet :
    (fuel : ℕ) (k : Kernel) → IsConsole k.console → QuietReply k (some (read_rtc fuel k))
unfolding read_rtc
read_rtc-Quiet fuel k v = after (rtc_read k.console.curr_terminal fuel k.rtc)
  where
    after :
        (r : Option Rtc)
        → QuietReply k (
            some (elim r as (λ _. Reply) [
              | none ↦ blocked (record k { rtc = start_wait k.console.curr_terminal k.rtc })
              | some r ↦ done (pos 0) [] (record k { rtc = r })
            ]))
    after none =
        blocked-QuietReply
          (devices-Quiet k v (start_wait k.console.curr_terminal k.rtc) k.dentry_counter)
    after (some r) = done-QuietReply (pos 0) [] (devices-Quiet k v r k.dentry_counter)

-- A descriptor that moves on in its file fits its number still.
moved-FdFits : (fd n : ℕ) (d : Fd) → FdFits fd d → FdFits fd (record d { file_pos = n })
unfolding FdFits
moved-FdFits fd n d f = f

refused-QuietReply : (k : Kernel) → IsConsole k.console → QuietReply k (some (done failure [] k))
unfolding QuietReply
refused-QuietReply k v = Quiet-refl v

read_file-Quiet :
    (fd nbytes : ℕ) (k : Kernel)
    → IsConsole k.console
    → IsFds (curr_fds k)
    → QuietReply k (some (read_file fd nbytes k))
unfolding read_file
read_file-Quiet fd nbytes k v o = elim (Bool-cases (ltb fd file_descriptor_max)) [
  | inl e ↦
      let h = ltb→lt _ _ e in
      rw e (
        done-QuietReply _ _
          (set_curr_fd-Quiet fd _ k v h (moved-FdFits fd _ (curr_fd k fd) (o.fit fd h))))
  | inr ne ↦ rw ne (refused-QuietReply k v)
]

read_directory-Quiet :
    (fd : ℕ) (k : Kernel) → IsConsole k.console → QuietReply k (some (read_directory fd k))
unfolding read_directory
read_directory-Quiet fd k v = elim (Bool-cases (leb k.image.dir_count k.dentry_counter)) [
  | inl e ↦ rw e (done-QuietReply _ _ (devices-Quiet k v k.rtc 0))
  | inr ne ↦ rw ne (done-QuietReply _ _ (devices-Quiet k v k.rtc _))
]

call_read-Quiet :
    (o : Ops) (fuel : ℕ) (has_buf : Bool) (fd nbytes : ℕ) (k : Kernel)
    → fits fd o ≡ true
    → fd ≢ 1
    → IsConsole k.console
    → IsFds (curr_fds k)
    → QuietReply k (call_read (fops o).read_fn fuel has_buf fd nbytes k)
unfolding fits fops call_read
call_read-Quiet Ops.term_write_ops fuel has_buf fd nbytes k f h v d = absurd (ground arith)
call_read-Quiet Ops.term_read_ops fuel has_buf fd nbytes k f h v d =
    unfold read_terminal in
    read_terminal-after k (terminal_read has_buf nbytes k.console) v
      (terminal_read-QuietOutcome has_buf nbytes v)
call_read-Quiet Ops.rtc_ops fuel has_buf fd nbytes k f h v d = read_rtc-Quiet fuel k v
call_read-Quiet Ops.file_ops fuel has_buf fd nbytes k f h v d = read_file-Quiet fd nbytes k v d
call_read-Quiet Ops.dir_ops fuel has_buf fd nbytes k f h v d = read_directory-Quiet fd k v
call_read-Quiet Ops.unset fuel has_buf fd nbytes k f h v d = absurd (ground arith)

pub system_read-Quiet :
    (fuel fd : ℕ) (has_buf : Bool) (nbytes : ℕ) (k : Kernel)
    → IsConsole k.console
    → IsFds (curr_fds k)
    → QuietReply k (system_read fuel fd has_buf nbytes k)
unfolding system_read FdFits
system_read-Quiet fuel fd has_buf nbytes k v o =
    elim (Bool-cases
      ((ltb fd file_descriptor_max && not (fd == 1)) && not ((curr_fd k fd).flags == not_in_use))) [
        | inl let_in ↦ rw let_in (
            call_read-Quiet (curr_fd k fd).file_op_table_ptr fuel has_buf fd nbytes k
              (o.fit fd (ground (arith, let_in)) (ground (arith, let_in))) (ground (arith, let_in))
              v o)
        | inr no_entry ↦ rw no_entry (refused-QuietReply k v)
      ]
