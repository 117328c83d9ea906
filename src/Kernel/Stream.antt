-- ===== src/Kernel/Stream.antt =====
-- A process that reads a file and writes the terminal.
use mathlib.Core.Path.{subst}
use linux_like_os_project.Prelude.{
  ℕ, ◌+◌, ◌-◌, ◌<◌, ◌≤◌, ◌≡◌, ◌≢◌, ◌^◌, refl, sym, ap, ◌∙◌, List, some, take, min, true, ltb, leb,
  ◌==◌, ◌&&◌, not, get_or, arith, length,
}
use linux_like_os_project.Prelude.Int.{pos}
use linux_like_os_project.FileSys.{no_inode}
use linux_like_os_project.FileSys.Contents.{file_range}
use linux_like_os_project.Console.{terminal}
use linux_like_os_project.Console.Cursor.{IsConsole}
use linux_like_os_project.LineEdit.{write_bytes}
use linux_like_os_project.LineEdit.Write.{print, print-Prints, terminal_write-eq}
use linux_like_os_project.Kernel.{
  Kernel, Fd, Ops, fops, curr_fd, curr_pid, set_curr_fd, file_descriptor_max, in_use, not_in_use,
  no_fd, term_write_ops, term_read_ops, rtc_ops, file_ops, dir_ops, unset,
}
use linux_like_os_project.Kernel.Descriptors.{curr_fds, curr_fd-set_curr_fd, if_self, if_ne}
use linux_like_os_project.Kernel.Calls.{
  done, call_read, call_write, system_read, system_write, read_file,
}
use linux_like_os_project.Kernel.Files.{read_file-at}
use linux_like_os_project.Kernel.Safety.{IsFds, FdFits, fits, set_curr_fd-IsFds}

-- An open descriptor of a regular file, at a position.
abbrev pub file_fd : ℕ → ℕ → Fd
file_fd inode p = record {
  file_op_table_ptr = file_ops;
  inode = inode;
  file_pos = p;
  flags = in_use;
}

-- The process has a descriptor, and its output is the terminal.
pub record Holds (k : Kernel) (fd : ℕ) (d : Fd) : Type 0 where
  pub formed : IsConsole k.console
  pub order : IsFds (curr_fds k)
  pub low : 2 ≤ fd
  pub high : fd < file_descriptor_max
  pub here : curr_fd k fd ≡ d
  pub out : (curr_fd k 1).flags ≢ not_in_use

-- The process has a file open.
abbrev pub Reads : Kernel → ℕ → ℕ → ℕ → Type 0
Reads k fd inode p = Holds k fd (file_fd inode p)

-- A descriptor that is changed.
pub set_curr_fd-Holds :
    (k : Kernel) (fd : ℕ) (d : Fd)
    → FdFits fd d
    → IsConsole k.console
    → IsFds (curr_fds k)
    → (curr_fd k 1).flags ≢ not_in_use
    → 2 ≤ fd
    → fd < file_descriptor_max
    → Holds (set_curr_fd fd d k) fd d
unfolding set_curr_fd
set_curr_fd-Holds k fd d f v o out low high =
    let inside : fd < length (curr_fds k) = omega (arith, high, o.count) in
    record {
      formed = v;
      order = set_curr_fd-IsFds fd d k o high f;
      low = low;
      high = high;
      here = curr_fd-set_curr_fd fd fd d k inside ∙ if_self fd _ _;
      out =
          subst (λ (d : Fd). d.flags ≢ not_in_use)
            (sym (
              curr_fd-set_curr_fd fd 1 d k inside
              ∙ if_ne {j = fd} {l = 1} _ _ (λ e. omega (arith, e, low))))
            out;
    }

-- One that is made a file's.
pub file_fd-Reads :
    (k : Kernel) (fd inode q : ℕ)
    → IsConsole k.console
    → IsFds (curr_fds k)
    → (curr_fd k 1).flags ≢ not_in_use
    → 2 ≤ fd
    → fd < file_descriptor_max
    → Reads (set_curr_fd fd (file_fd inode q) k) fd inode q
unfolding FdFits fits
file_fd-Reads k fd inode q v o out low high =
    set_curr_fd-Holds k fd (file_fd inode q) (λ _. ground (arith, low)) v o out low high

system_read-file :
    (ticks n : ℕ) {k : Kernel} {fd inode p : ℕ}
    → Reads k fd inode p
    → system_read ticks fd true n k ≡ some (read_file fd n k)
unfolding system_read call_read fops
system_read-file ticks n {k} {fd} v =
    let flags : (curr_fd k fd).flags ≡ in_use = ap (λ (d : Fd). d.flags) v.here in
    let table : (curr_fd k fd).file_op_table_ptr ≡ file_ops =
      ap (λ (d : Fd). d.file_op_table_ptr) v.here in
    let let_in : ((ltb fd file_descriptor_max && not (fd == 1))
          && not ((curr_fd k fd).flags == not_in_use))
        ≡ true =
      rw flags (ground (arith, v.low, v.high)) in
    rw (let_in, table) refl

pub system_read-Reads :
    (ticks n : ℕ) {k : Kernel} {fd inode p : ℕ}
    → Reads k fd inode p
    → inode < k.image.inode_count
    → p + n < 2 ^ 32
    → let node = get_or k.image.inodes inode no_inode in
      system_read ticks fd true n k
      ≡ some (
          done
            (pos (min n (node.length - p)))
            (file_range k.image node p (min n (node.length - p)))
            (set_curr_fd fd (file_fd inode (p + n)) k))
system_read-Reads ticks n {k} {fd} {inode} {p} v h l =
    system_read-file ticks n v ∙ ap some (read_file-at fd n k (file_fd inode p) v.here v.high h l)

table-out : (o : Ops) → fits 1 o ≡ true → o ≡ term_write_ops
unfolding fits
table-out term_write_ops h = refl
table-out term_read_ops h = absurd (ground arith)
table-out rtc_ops h = absurd (ground arith)
table-out file_ops h = absurd (ground arith)
table-out dir_ops h = absurd (ground arith)
table-out unset h = absurd (ground arith)

-- The process after output.
abbrev pub printed : List ℕ → Kernel → Kernel
printed s k = record k { console = print s k.console }

pub system_write-Holds :
    (s : List ℕ) (n : ℕ) {k : Kernel} {fd : ℕ} {d : Fd}
    → Holds k fd d
    → 1 ≤ n
    → n < 2 ^ 31
    → system_write 1 (some s) n k
      ≡ some (pos (write_bytes (take n s) 0 k.console).0, printed (take n s) k)
unfolding system_write call_write fops FdFits
system_write-Holds s n {k} v h l =
    let table : (curr_fd k 1).file_op_table_ptr ≡ term_write_ops =
      table-out _ (v.order.fit 1 (omega arith) v.out) in
    let let_in : ((leb 1 1 && ltb 1 file_descriptor_max) && not ((curr_fd k 1).flags == not_in_use))
        ≡ true =
      ground (arith, v.out) in
    rw (let_in, table, terminal_write-eq s n k.console h l) refl

pub printed-Holds :
    (s : List ℕ) {k : Kernel} {fd : ℕ} {d : Fd} → Holds k fd d → Holds (printed s k) fd d
printed-Holds s {k} {fd} v =
    let t = print-Prints s v.formed in
    let who : curr_pid (printed s k) ≡ curr_pid k =
      ap (λ i. (terminal (print s k.console) i).pid) t.curr ∙ t.process k.console.curr_terminal in
    let same : curr_fds (printed s k) ≡ curr_fds k = ap (λ i. (k.pcbs i).file_descriptors) who in
    record {
      formed = t.formed;
      order = subst IsFds (sym same) v.order;
      low = v.low;
      high = v.high;
      here = ap (λ (f : List Fd). get_or f fd no_fd) same ∙ v.here;
      out = subst (λ (f : List Fd). (get_or f 1 no_fd).flags ≢ not_in_use) (sym same) v.out;
    }
