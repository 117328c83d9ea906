-- ===== src/Running/Calls.antt =====
-- system_write and system_close of student-distrib/syscalls.c on the whole state, and the changes that the
-- system calls share.
use mathlib.Core.Path.{subst}
use linux_like_os_project.Prelude.{
  ℕ, ◌^◌, ◌<◌, ◌≡◌, refl, sym, ap, List, Option, none, some, true, ltb, leb, ◌≤◌, ◌==◌, ==_iff,
  ◌&&◌, ◌||◌, not, inl, inr, Bool-cases, take, arith,
}
use linux_like_os_project.Prelude.Int.{ℤ, pos}
use linux_like_os_project.FileSys.{failure}
use linux_like_os_project.Console.{Console, Terminal, terminal, set_terminal}
use linux_like_os_project.Console.Cursor.{IsConsole, set_terminal-Moves}
use linux_like_os_project.Console.Output.{Prints, Prints-refl, Prints-Stays, Moves-Prints}
use linux_like_os_project.LineEdit.{terminal_write}
use linux_like_os_project.LineEdit.Write.{print-Prints, write_bytes-eq}
use linux_like_os_project.Rtc.{Rtc}
use linux_like_os_project.Kernel.{
  Kernel, Fd, Ops, fops, curr_fd, curr_pid, set_curr_fd, set_pcb, file_descriptor_max, not_in_use,
}
use linux_like_os_project.Kernel.Descriptors.{curr_fds}
use linux_like_os_project.Kernel.Safety.{
  IsFds, FdFits, fits, set-IsFds, system_close_lem, closed-FdFits,
}
use linux_like_os_project.Kernel.Calls.{call_write, system_write, closed, system_close}
use linux_like_os_project.Running.{Quiet, Quiet-refl, QuietCall, console-Quiet}

pub set_curr_fd-Quiet :
    (fd : ℕ) (d : Fd) (k : Kernel)
    → IsConsole k.console
    → fd < file_descriptor_max
    → FdFits fd d
    → Quiet k (set_curr_fd fd d k)
unfolding set_curr_fd set_pcb
set_curr_fd-Quiet fd d k v h f = record {
  console = (Quiet-refl {k = k} v).console;
  processes = refl;
  base = refl;
  image = refl;
  parent = same;
  order = λ p o. elim (Bool-cases (p == curr_pid k)) [
    | inl e ↦
        rw e
          (set-IsFds fd d (subst (λ q. IsFds (k.pcbs q).file_descriptors) ((==_iff _ _).0 e) o) h f)
    | inr ne ↦ rw ne o
  ];
}
  where
    same : (p : ℕ) → ((set_curr_fd fd d k).pcbs p).parent_pid ≡ (k.pcbs p).parent_pid
    same p = elim (Bool-cases (p == curr_pid k)) [
      | inl e ↦ rw e (ap (λ q. (k.pcbs q).parent_pid) (sym ((==_iff _ _).0 e)))
      | inr ne ↦ rw ne refl
    ]

-- A change of a terminal that leaves its position, process and flag.
pub terminal-Prints :
    (i : ℕ) (t : Terminal) {c : Console}
    → IsConsole c
    → i < 3
    → t.screen_x ≡ (terminal c i).screen_x
    → t.screen_y ≡ (terminal c i).screen_y
    → t.pid ≡ (terminal c i).pid
    → t.flag ≡ (terminal c i).flag
    → Prints c (set_terminal i t c)
terminal-Prints i t {c} v h x y p f =
    let w = v.placed i h in
    Moves-Prints v h (record { column = rw x w.column; row = rw y w.row }) p f
      (set_terminal-Moves i t c)

-- The clock and the directory's counter are no part of it.
pub devices-Quiet :
    (k : Kernel)
    → IsConsole k.console
    → (r : Rtc) (n : ℕ) → Quiet k (record k { rtc = r; dentry_counter = n })
devices-Quiet k v r n = record {
  console = (Quiet-refl {k = k} v).console;
  processes = refl;
  base = refl;
  image = refl;
  parent = λ p. refl;
  order = λ p f. f;
}

pub some-QuietCall : {k k' : Kernel} (value : ℤ) → Quiet k k' → QuietCall k (some (value, k'))
unfolding QuietCall
some-QuietCall value q = q

pub refused-QuietCall : (k : Kernel) → IsConsole k.console → QuietCall k (some (failure, k))
unfolding QuietCall
refused-QuietCall k v = Quiet-refl v

terminal_write-Prints :
    (buf : Option (List ℕ)) (nbytes : ℕ) {c : Console}
    → IsConsole c
    → Prints c (terminal_write buf nbytes c).1
unfolding terminal_write
terminal_write-Prints none nbytes v = Prints-refl v
terminal_write-Prints (some s) nbytes {c} v =
    elim (Bool-cases ((nbytes == 0) || leb (2 ^ 31) nbytes)) [
      | inl bad ↦ rw bad (Prints-refl v)
      | inr good ↦ rw good (
          subst (Prints c) (sym (write_bytes-eq (take nbytes s) 0 c))
            (print-Prints (take nbytes s) v))
    ]

call_write-Quiet :
    (o : Ops) (buf : Option (List ℕ)) (fd nbytes : ℕ) (k : Kernel)
    → fits fd o ≡ true
    → 1 ≤ fd
    → IsConsole k.console
    → QuietCall k (call_write (fops o).write_fn buf nbytes k)
unfolding fits fops call_write QuietCall
call_write-Quiet Ops.term_write_ops buf fd nbytes k f h v =
    console-Quiet (Prints-Stays (terminal_write-Prints buf nbytes v))
call_write-Quiet Ops.term_read_ops buf fd nbytes k f h v = absurd (ground arith)
call_write-Quiet Ops.rtc_ops buf fd nbytes k f h v = devices-Quiet k v _ k.dentry_counter
call_write-Quiet Ops.file_ops buf fd nbytes k f h v = Quiet-refl v
call_write-Quiet Ops.dir_ops buf fd nbytes k f h v = Quiet-refl v
call_write-Quiet Ops.unset buf fd nbytes k f h v = absurd (ground arith)

pub system_write-Quiet :
    (fd : ℕ) (buf : Option (List ℕ)) (nbytes : ℕ) (k : Kernel)
    → IsConsole k.console
    → IsFds (curr_fds k)
    → QuietCall k (system_write fd buf nbytes k)
unfolding system_write FdFits
system_write-Quiet fd buf nbytes k v o =
    elim (Bool-cases
      ((leb 1 fd && ltb fd file_descriptor_max) && not ((curr_fd k fd).flags == not_in_use))) [
        | inl let_in ↦ rw let_in (
            call_write-Quiet (curr_fd k fd).file_op_table_ptr buf fd nbytes k
              (o.fit fd (ground (arith, let_in)) (ground (arith, let_in))) (ground (arith, let_in))
              v)
        | inr no_entry ↦ rw no_entry (refused-QuietCall k v)
      ]

pub system_close-Quiet :
    (fd : ℕ) (k : Kernel)
    → IsConsole k.console
    → IsFds (curr_fds k)
    → QuietCall k (system_close fd k)
system_close-Quiet fd k v o =
    subst (QuietCall k) (sym (system_close_lem fd k o).0)
      (elim (Bool-cases
        ((leb 2 fd && ltb fd file_descriptor_max) && not ((curr_fd k fd).flags == not_in_use))) [
          | inl let_in ↦ rw let_in (
              some-QuietCall (pos 0) (
                set_curr_fd-Quiet fd (closed (curr_fd k fd)) k v (ground (arith, let_in))
                  (closed-FdFits fd (curr_fd k fd))))
          | inr no_entry ↦ rw no_entry (refused-QuietCall k v)
        ])
