-- ===== src/Kernel/Descriptors.antt =====
-- The descriptors of the current process after one of them is written.
use linux_like_os_project.Prelude.{
  ℕ, ◌<◌, ◌≡◌, ◌≢◌, ap, ◌∙◌, arith, ◌==◌, if◌then◌else◌, get_or, get_or-set, length, length-set,
  set, List,
}
use linux_like_os_project.Kernel.{
  Kernel, Fd, Pcb, curr_fd, curr_pid, curr_pcb, set_curr_fd, set_pcb, no_fd,
}

pub if_self : {A : Type 0} → (n : ℕ) (a b : A) → (if n == n then a else b) ≡ a
if_self n a b = ground arith

pub if_ne : {A : Type 0} → {j l : ℕ} → (a b : A) → j ≢ l → (if j == l then a else b) ≡ b
if_ne {A} {j} {l} a b h = ground arith

abbrev pub curr_fds : Kernel → List Fd
curr_fds k = (curr_pcb k).file_descriptors

pub curr_fds-set_curr_fd :
    (fd : ℕ) (d : Fd) (k : Kernel) → curr_fds (set_curr_fd fd d k) ≡ set (curr_fds k) fd d
unfolding set_curr_fd set_pcb
curr_fds-set_curr_fd fd d k = ap (λ (p : Pcb). p.file_descriptors) (if_self (curr_pid k) _ _)

pub curr_fd-set_curr_fd :
    (fd j : ℕ) (d : Fd) (k : Kernel)
    → fd < length (curr_fds k)
    → curr_fd (set_curr_fd fd d k) j ≡ (if fd == j then d else curr_fd k j)
curr_fd-set_curr_fd fd j d k h =
    ap (λ (s : List Fd). get_or s j no_fd) (curr_fds-set_curr_fd fd d k)
    ∙ get_or-set (curr_fds k) fd j d no_fd h

pub length-set_curr_fd :
    (fd : ℕ) (d : Fd) (k : Kernel) → length (curr_fds (set_curr_fd fd d k)) ≡ length (curr_fds k)
length-set_curr_fd fd d k =
    ap (λ (s : List Fd). length s) (curr_fds-set_curr_fd fd d k) ∙ length-set (curr_fds k) fd d
