-- ===== src/Kernel/Safety.antt =====
-- The tables that the current process's descriptors have, and the calls of student-distrib/syscalls.c
-- through their function pointers.
use mathlib.Core.Path.{subst}
use linux_like_os_project.Prelude.{
  ℕ, ◌<◌, ◌≤◌, ◌≡◌, ◌≢◌, refl, sym, ◌∙◌, List, Option, none, some, Bool-cases, Bool, true, false,
  inl, inr, arith, ltb, leb, ◌==◌, ◌&&◌, not, if◌then◌else◌, get_or, get_or-set, set, length,
  length-set, ==_iff,
}
use linux_like_os_project.Prelude.Int.{ℤ, pos}
use linux_like_os_project.FileSys.{failure}
use linux_like_os_project.Rtc.{rtc_close}
use linux_like_os_project.Kernel.{
  Kernel, Fd, Ops, fops, curr_fd, set_curr_fd, file_descriptor_max, not_in_use, no_fd,
  term_write_ops, term_read_ops, rtc_ops, file_ops, dir_ops, unset,
}
use linux_like_os_project.Kernel.Descriptors.{curr_fds, curr_fds-set_curr_fd}
use linux_like_os_project.Kernel.Calls.{
  call_read, system_read, call_write, system_write, call_close, closed, system_close,
}

-- The descriptor numbers that a table stands at: 0 reads the terminal, 1 writes it, the others are files.
unfoldable pub fits : ℕ → Ops → Bool
fits i term_read_ops = i == 0
fits i term_write_ops = i == 1
fits i rtc_ops = leb 2 i
fits i file_ops = leb 2 i
fits i dir_ops = leb 2 i
fits i unset = false

-- A descriptor in use has a table for its number.
unfoldable pub FdFits : ℕ → Fd → Type 0
FdFits i d = d.flags ≢ not_in_use → fits i d.file_op_table_ptr ≡ true

pub record IsFds (s : List Fd) : Type 0 where
  pub count : length s ≡ file_descriptor_max
  pub fit : (i : ℕ) → i < file_descriptor_max → FdFits i (get_or s i no_fd)

-- The call came back, and left the current process's descriptors in order.
unfoldable pub Keeps : Option (ℤ × Kernel) → Type 0
Keeps none = ⊥
Keeps (some r) = IsFds (curr_fds r.1)

call_read-some :
    (o : Ops) (fuel : ℕ) (has_buf : Bool) (fd nbytes : ℕ) (k : Kernel)
    → fits fd o ≡ true
    → fd ≢ 1
    → call_read (fops o).read_fn fuel has_buf fd nbytes k ≢ none
unfolding fits fops call_read
call_read-some term_write_ops fuel has_buf fd nbytes k f h = absurd (ground arith)
call_read-some term_read_ops fuel has_buf fd nbytes k f h = ground arith
call_read-some rtc_ops fuel has_buf fd nbytes k f h = ground arith
call_read-some file_ops fuel has_buf fd nbytes k f h = ground arith
call_read-some dir_ops fuel has_buf fd nbytes k f h = ground arith
call_read-some unset fuel has_buf fd nbytes k f h = absurd (ground arith)

-- system_read: with the descriptors in order, the call finds a function to read with for every
-- descriptor that it lets through, whatever its arguments.
pub system_read-some :
    (fuel fd : ℕ) (has_buf : Bool) (nbytes : ℕ) (k : Kernel)
    → IsFds (curr_fds k)
    → system_read fuel fd has_buf nbytes k ≢ none
unfolding system_read FdFits
system_read-some fuel fd has_buf nbytes k v =
    elim (Bool-cases
      ((ltb fd file_descriptor_max && not (fd == 1)) && not ((curr_fd k fd).flags == not_in_use))) [
        | inl let_in ↦ rw let_in (
            call_read-some (curr_fd k fd).file_op_table_ptr fuel has_buf fd nbytes k
              (v.fit fd (ground (arith, let_in)) (ground (arith, let_in))) (ground (arith, let_in)))
        | inr refused ↦ rw refused (ground arith)
      ]

call_write-some :
    (o : Ops) (buf : Option (List ℕ)) (fd nbytes : ℕ) (k : Kernel)
    → fits fd o ≡ true
    → 1 ≤ fd
    → call_write (fops o).write_fn buf nbytes k ≢ none
unfolding fits fops call_write
call_write-some term_write_ops buf fd nbytes k f h = ground arith
call_write-some term_read_ops buf fd nbytes k f h = absurd (ground arith)
call_write-some rtc_ops buf fd nbytes k f h = ground arith
call_write-some file_ops buf fd nbytes k f h = ground arith
call_write-some dir_ops buf fd nbytes k f h = ground arith
call_write-some unset buf fd nbytes k f h = absurd (ground arith)

-- system_write: with the descriptors in order, the call finds a function to write with for every
-- descriptor that it lets through, whatever its arguments.
pub system_write-some :
    (fd : ℕ) (buf : Option (List ℕ)) (nbytes : ℕ) (k : Kernel)
    → IsFds (curr_fds k)
    → system_write fd buf nbytes k ≢ none
unfolding system_write FdFits
system_write-some fd buf nbytes k v =
    elim (Bool-cases
      ((leb 1 fd && ltb fd file_descriptor_max) && not ((curr_fd k fd).flags == not_in_use))) [
        | inl let_in ↦ rw let_in (
            call_write-some (curr_fd k fd).file_op_table_ptr buf fd nbytes k
              (v.fit fd (ground (arith, let_in)) (ground (arith, let_in))) (ground (arith, let_in)))
        | inr refused ↦ rw refused (ground arith)
      ]

pub set-IsFds :
    {s : List Fd} (fd : ℕ) (d : Fd)
    → IsFds s
    → fd < file_descriptor_max
    → FdFits fd d
    → IsFds (set s fd d)
set-IsFds {s} fd d v h f = record {
  count = length-set s fd d ∙ v.count;
  fit = λ i k. subst (FdFits i) (sym (there i)) (elim (Bool-cases (fd == i)) [
    | inl e ↦ rw e (subst (λ j. FdFits j d) ((==_iff _ _).0 e) f)
    | inr ne ↦ rw ne (v.fit i k)
  ]);
}
  where
    there : (i : ℕ) → get_or (set s fd d) i no_fd ≡ (if fd == i then d else get_or s i no_fd)
    there i = get_or-set s fd i d no_fd (omega (arith, v.count))

pub set_curr_fd-IsFds :
    (fd : ℕ) (d : Fd) (k : Kernel)
    → IsFds (curr_fds k)
    → fd < file_descriptor_max
    → FdFits fd d
    → IsFds (curr_fds (set_curr_fd fd d k))
set_curr_fd-IsFds fd d k v h f =
    subst IsFds (sym (curr_fds-set_curr_fd fd d k)) (set-IsFds fd d v h f)

pub closed-FdFits : (fd : ℕ) (d : Fd) → FdFits fd (closed d)
unfolding FdFits closed
closed-FdFits fd d u = absurd (u refl)

call_close-same :
    (o : Ops) (fd : ℕ) (k : Kernel)
    → fits fd o ≡ true
    → 2 ≤ fd
    → call_close (fops o).close_fn k ≡ some (pos 0, k)
unfolding fits fops call_close rtc_close
call_close-same term_write_ops fd k f h = absurd (ground arith)
call_close-same term_read_ops fd k f h = absurd (ground arith)
call_close-same rtc_ops fd k f h = refl
call_close-same file_ops fd k f h = refl
call_close-same dir_ops fd k f h = refl
call_close-same unset fd k f h = absurd (ground arith)

-- system_close: with the descriptors in order, the call comes back, gives 0 exactly for a number from 2
-- to 7 whose descriptor is in use and -1 for any other, and leaves the descriptors in order, the one it
-- closed free.
pub system_close_lem :
    (fd : ℕ) (k : Kernel)
    → IsFds (curr_fds k)
    → system_close fd k ≡ (
        if (leb 2 fd && ltb fd file_descriptor_max) && not ((curr_fd k fd).flags == not_in_use)
        then some (pos 0, set_curr_fd fd (closed (curr_fd k fd)) k)
        else some (failure, k))
      × Keeps (system_close fd k)
unfolding system_close FdFits Keeps
system_close_lem fd k v =
    elim (Bool-cases
      ((leb 2 fd && ltb fd file_descriptor_max) && not ((curr_fd k fd).flags == not_in_use))) [
        | inl let_in ↦
            let step =
              call_close-same (curr_fd k fd).file_op_table_ptr fd
                (set_curr_fd fd (closed (curr_fd k fd)) k)
                (v.fit fd (ground (arith, let_in)) (ground (arith, let_in)))
                (ground (arith, let_in)) in
            rw let_in (
              step,
              subst Keeps (sym step) (
                  set_curr_fd-IsFds fd (closed (curr_fd k fd)) k v (ground (arith, let_in))
                    (closed-FdFits fd (curr_fd k fd))),
            )
        | inr refused ↦ rw refused (refl, v)
      ]
