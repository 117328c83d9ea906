-- ===== src/Kernel/Closing.antt =====
-- The loop of system_halt that closes the descriptors of the terminal's process.
use mathlib.Core.Path.{subst}
use linux_like_os_project.Prelude.{
  ℕ, zero, suc, ◌+◌, ◌<◌, ◌≤◌, ◌≡◌, refl, sym, ap, ◌∙◌, Option, none, some, Bool-cases, inl, inr,
  arith, ltb, leb, ◌==◌, ==_iff, ◌&&◌, not,
}
use linux_like_os_project.Prelude.Int.{ℤ}
use linux_like_os_project.Kernel.{
  Kernel, Fd, not_in_use, set_pcb, curr_pid, curr_fd, set_curr_fd, file_descriptor_max,
}
use linux_like_os_project.Kernel.Descriptors.{if_self, if_ne, curr_fds, curr_fd-set_curr_fd}
use linux_like_os_project.Kernel.Safety.{IsFds, system_close_lem, closed-FdFits, set_curr_fd-IsFds}
use linux_like_os_project.Kernel.Calls.{closed, system_close}
use linux_like_os_project.Kernel.Halt.{close_all}

-- What a change of the descriptors leaves.
pub record SameRest (k k' : Kernel) : Type 0 where
  pub console : k'.console ≡ k.console
  pub cur_processes : k'.cur_processes ≡ k.cur_processes
  pub paging : k'.paging ≡ k.paging
  pub esp : (p : ℕ) → (k'.pcbs p).esp ≡ (k.pcbs p).esp
  pub ebp : (p : ℕ) → (k'.pcbs p).ebp ≡ (k.pcbs p).ebp

SameRest-refl : (k : Kernel) → SameRest k k
SameRest-refl k = record {
  console = refl;
  cur_processes = refl;
  paging = refl;
  esp = λ p. refl;
  ebp = λ p. refl;
}

SameRest-trans : {k k' k'' : Kernel} → SameRest k k' → SameRest k' k'' → SameRest k k''
SameRest-trans s t = record {
  console = t.console ∙ s.console;
  cur_processes = t.cur_processes ∙ s.cur_processes;
  paging = t.paging ∙ s.paging;
  esp = λ p. t.esp p ∙ s.esp p;
  ebp = λ p. t.ebp p ∙ s.ebp p;
}

set_curr_fd-SameRest : (fd : ℕ) (d : Fd) (k : Kernel) → SameRest k (set_curr_fd fd d k)
unfolding set_curr_fd set_pcb
set_curr_fd-SameRest fd d k = record {
  console = refl;
  cur_processes = refl;
  paging = refl;
  esp = λ p. elim (Bool-cases (p == curr_pid k)) [
    | inl e ↦ rw e (ap (λ q. (k.pcbs q).esp) (sym ((==_iff _ _).0 e)))
    | inr ne ↦ rw ne refl
  ];
  ebp = λ p. elim (Bool-cases (p == curr_pid k)) [
    | inl e ↦ rw e (ap (λ q. (k.pcbs q).ebp) (sym ((==_iff _ _).0 e)))
    | inr ne ↦ rw ne refl
  ];
}

-- The `n` descriptors from `fd` on are closed, 0 and 1 left alone.
pub record Closes (k : Kernel) (fd n : ℕ) (k' : Kernel) : Type 0 where
  pub rest : SameRest k k'
  pub order : IsFds (curr_fds k')
  pub before : (l : ℕ) → l < fd → curr_fd k' l ≡ curr_fd k l
  pub freed : (l : ℕ) → 2 ≤ l → fd ≤ l → l < fd + n → (curr_fd k' l).flags ≡ not_in_use

unfoldable pub IsClosed : Kernel → ℕ → ℕ → Option Kernel → Type 0
IsClosed k fd n none = ⊥
IsClosed k fd n (some k') = Closes k fd n k'

-- One call of system_close in that loop.
unfoldable IsStep : Kernel → ℕ → Option (ℤ × Kernel) → Type 0
IsStep k fd none = ⊥
IsStep k fd (some r) = Closes k fd 1 r.1

only_one : (fd l : ℕ) (P : ℕ → Type 0) → fd ≤ l → l < fd + 1 → P fd → P l
only_one fd l P a b p = let same : fd ≡ l = omega arith in subst P same p

close-IsStep :
    (fd : ℕ) (k : Kernel)
    → IsFds (curr_fds k)
    → fd < file_descriptor_max
    → IsStep k fd (system_close fd k)
unfolding IsStep closed
close-IsStep fd k v h =
    subst (IsStep k fd) (sym (system_close_lem fd k v).0)
      (elim (Bool-cases
        ((leb 2 fd && ltb fd file_descriptor_max) && not ((curr_fd k fd).flags == not_in_use))) [
          | inl e ↦ rw e (record {
            rest = set_curr_fd-SameRest fd (closed (curr_fd k fd)) k;
            order =
                set_curr_fd-IsFds fd (closed (curr_fd k fd)) k v h
                  (closed-FdFits fd (curr_fd k fd));
            before = λ l b.
                curr_fd-set_curr_fd fd l (closed (curr_fd k fd)) k (omega (arith, v.count))
                ∙ if_ne {j = fd} {l = l} _ _ (omega arith);
            freed = λ l a b c.
                only_one fd l
                  (λ m. (curr_fd (set_curr_fd fd (closed (curr_fd k fd)) k) m).flags ≡ not_in_use) b
                  c
                  (ap (λ (d : Fd). d.flags)
                    (curr_fd-set_curr_fd fd fd (closed (curr_fd k fd)) k (omega (arith, v.count))
                      ∙ if_self fd _ _));
          })
          | inr ne ↦ rw ne (record {
            rest = SameRest-refl k;
            order = v;
            before = λ l b. refl;
            freed = λ l a b c.
                only_one fd l (λ m. (curr_fd k m).flags ≡ not_in_use) b c (ground (arith, ne));
          })
        ])

Closes-trans :
    {k k' : Kernel} (fd n : ℕ) (r : Option Kernel)
    → Closes k fd 1 k'
    → IsClosed k' (fd + 1) n r
    → IsClosed k fd (suc n) r
unfolding IsClosed
Closes-trans fd n none s t = t
Closes-trans {k} {k'} fd n (some k'') s t = record {
  rest = SameRest-trans s.rest t.rest;
  order = t.order;
  before = λ l b. t.before l (omega arith) ∙ s.before l b;
  freed = λ l a b c. elim (Bool-cases (fd == l)) [
    | inl e ↦
        ap (λ (d : Fd). d.flags) (t.before l (ground (arith, e)))
        ∙ s.freed l a b (ground (arith, e))
    | inr ne ↦ t.freed l a (ground (arith, ne)) (omega arith)
  ];
}

after_close :
    (n fd : ℕ) (k : Kernel) (r : Option (ℤ × Kernel))
    → IsStep k fd r
    → ((k' : Kernel) → IsFds (curr_fds k') → IsClosed k' (fd + 1) n (close_all n (fd + 1) k'))
    → IsClosed k fd (suc n) (elim r [ none ↦ none | some s ↦ close_all n (fd + 1) s.1 ])
unfolding IsStep
after_close n fd k none s f = absurd s
after_close n fd k (some (_, k')) s f = Closes-trans fd n _ s (f k' s.order)

pub close_all-IsClosed :
    (n fd : ℕ) (k : Kernel)
    → IsFds (curr_fds k)
    → fd + n ≤ file_descriptor_max
    → IsClosed k fd n (close_all n fd k)
unfolding IsClosed close_all
close_all-IsClosed zero fd k v h = record {
  rest = SameRest-refl k;
  order = v;
  before = λ l b. refl;
  freed = λ l a b c. absurd (omega arith);
}
close_all-IsClosed (suc n) fd k v h =
    after_close n fd k (system_close fd k) (close-IsStep fd k v (omega arith))
      (λ k' v'. close_all-IsClosed n (fd + 1) k' v' (omega arith))
