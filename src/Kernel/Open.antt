-- ===== src/Kernel/Open.antt =====
-- Which descriptor system_open of student-distrib/syscalls.c takes, and how it fills it in.
use mathlib.Core.Path.{subst}
use linux_like_os_project.Prelude.{
  ℕ, zero, suc, ◌+◌, ◌<◌, ◌≤◌, ◌≡◌, ◌≢◌, refl, sym, ap, ◌∙◌, List, Option, none, some, Bool-cases,
  inl, inr, true, arith, ◌==◌, ==_iff, if◌then◌else◌, get_or,
}
use linux_like_os_project.Prelude.Int.{ℤ, pos, negsuc}
use linux_like_os_project.FileSys.{Dentry, read_dentry_by_name, failure}
use linux_like_os_project.Kernel.{
  Kernel, Fd, Ops, fops, curr_fd, set_curr_fd, file_descriptor_max, in_use, not_in_use, no_fd,
  rtc_ops, file_ops, dir_ops,
}
use linux_like_os_project.Kernel.Descriptors.{curr_fds, curr_fd-set_curr_fd, if_self, if_ne}
use linux_like_os_project.Kernel.Safety.{fits, FdFits, IsFds, set_curr_fd-IsFds}
use linux_like_os_project.Kernel.Calls.{call_open, find_free, ops_of, opened, system_open}

-- `j` is the lowest of the `n` descriptors from `i` on that is free.
pub record IsFirstFree (s : List Fd) (i n j : ℕ) : Type 0 where
  pub low : i ≤ j
  pub high : j < i + n
  pub free : (get_or s j no_fd).flags ≡ not_in_use
  pub first : (l : ℕ) → i ≤ l → l < j → (get_or s l no_fd).flags ≢ not_in_use

unfoldable pub IsFound : List Fd → ℕ → ℕ → Option ℕ → Type 0
IsFound s i n none = (l : ℕ) → i ≤ l → l < i + n → (get_or s l no_fd).flags ≢ not_in_use
IsFound s i n (some j) = IsFirstFree s i n j

IsFound-suc :
    (s : List Fd) (i n : ℕ) (r : Option ℕ)
    → (get_or s i no_fd).flags ≢ not_in_use
    → IsFound s (i + 1) n r
    → IsFound s i (suc n) r
unfolding IsFound
IsFound-suc s i n none u h = λ l a b. elim (Bool-cases (i == l)) [
  | inl e ↦ subst (λ m. (get_or s m no_fd).flags ≢ not_in_use) ((==_iff _ _).0 e) u
  | inr ne ↦ h l (ground (arith, ne)) (omega arith)
]
IsFound-suc s i n (some j) u h = record {
  low = omega (arith, h.low);
  high = omega (arith, h.high);
  free = h.free;
  first = λ l a b. elim (Bool-cases (i == l)) [
    | inl e ↦ subst (λ m. (get_or s m no_fd).flags ≢ not_in_use) ((==_iff _ _).0 e) u
    | inr ne ↦ h.first l (ground (arith, ne)) b
  ];
}

pub find_free-IsFound : (n i : ℕ) (s : List Fd) → IsFound s i n (find_free n i s)
unfolding IsFound find_free
find_free-IsFound zero i s = λ l a b. absurd (omega arith)
find_free-IsFound (suc n) i s = elim (Bool-cases ((get_or s i no_fd).flags == not_in_use)) [
  | inl free ↦ rw free (record {
    low = omega arith;
    high = omega arith;
    free = (==_iff _ _).0 free;
    first = λ l a b. absurd (omega arith);
  })
  | inr used ↦ rw used (IsFound-suc s i n _ (ground (arith, used)) (find_free-IsFound n (i + 1) s))
]

-- What a successful call leaves: the lowest free descriptor now stands for the file, from its first byte
-- on, the other descriptors are as they were, and all are in order.
pub record Opens (e : Dentry) (k : Kernel) (j : ℕ) (k' : Kernel) : Type 0 where
  pub lowest : IsFirstFree (curr_fds k) 2 6 j
  pub inode : (curr_fd k' j).inode ≡ e.inode_num
  pub file_pos : (curr_fd k' j).file_pos ≡ 0
  pub flags : (curr_fd k' j).flags ≡ in_use
  pub table :
      (curr_fd k' j).file_op_table_ptr
      ≡ (if e.filetype == 0 then rtc_ops else (if e.filetype == 1 then dir_ops else file_ops))
  pub others : (l : ℕ) → l ≢ j → curr_fd k' l ≡ curr_fd k l
  pub order : IsFds (curr_fds k')

unfoldable pub IsOpened : Dentry → Kernel → Option (ℤ × Kernel) → Type 0
IsOpened e k (some (pos j, k')) = Opens e k j k'
IsOpened e k (some (negsuc n, k')) = ⊥
IsOpened e k none = ⊥

-- The open functions of the tables leave the descriptors alone.
unfoldable SameFds : Kernel → Option Kernel → Type 0
SameFds k none = ⊥
SameFds k (some k') = curr_fds k' ≡ curr_fds k

call_open-SameFds :
    (o : Ops) (k : Kernel) → fits 2 o ≡ true → SameFds k (call_open (fops o).open_fn k)
unfolding SameFds call_open fops fits
call_open-SameFds Ops.term_write_ops k h = absurd (ground arith)
call_open-SameFds Ops.term_read_ops k h = absurd (ground arith)
call_open-SameFds Ops.rtc_ops k h = refl
call_open-SameFds Ops.file_ops k h = refl
call_open-SameFds Ops.dir_ops k h = refl
call_open-SameFds Ops.unset k h = absurd (ground arith)

opened-table :
    (e : Dentry) (d : Fd)
    → e.filetype < 3
    → (opened e d).file_op_table_ptr
      ≡ (if e.filetype == 0 then rtc_ops else (if e.filetype == 1 then dir_ops else file_ops))
unfolding opened ops_of
opened-table e d h = ground arith

pub opened-fits :
    (e : Dentry) (d : Fd) (j : ℕ)
    → e.filetype < 3
    → 2 ≤ j
    → fits j (opened e d).file_op_table_ptr ≡ true
unfolding opened ops_of fits
opened-fits e d j h k = ground arith

-- The call, once the descriptor is chosen.
opened-Opens :
    (e : Dentry) (k : Kernel) (j : ℕ) (k' : Kernel)
    → IsFds (curr_fds k)
    → e.filetype < 3
    → IsFirstFree (curr_fds k) 2 6 j
    → curr_fds k' ≡ curr_fds (set_curr_fd j (opened e (curr_fd k j)) k)
    → Opens e k j k'
unfolding opened FdFits
opened-Opens e k j k' v h f same = record {
  lowest = f;
  inode = ap (λ (d : Fd). d.inode) now;
  file_pos = ap (λ (d : Fd). d.file_pos) now;
  flags = ap (λ (d : Fd). d.flags) now;
  table = ap (λ (d : Fd). d.file_op_table_ptr) now ∙ opened-table e (curr_fd k j) h;
  others = λ l ne. at l ∙ if_ne _ _ (λ u. ne (sym u));
  order = subst IsFds (sym same) (
      set_curr_fd-IsFds j (opened e (curr_fd k j)) k v (omega (arith, f.high))
        (λ _. opened-fits e (curr_fd k j) j h f.low));
}
  where
    at : (l : ℕ) → curr_fd k' l ≡ (if j == l then opened e (curr_fd k j) else curr_fd k l)
    at l =
        ap (λ (s : List Fd). get_or s l no_fd) same
        ∙ curr_fd-set_curr_fd j l (opened e (curr_fd k j)) k (omega (arith, f.high, v.count))

    now : curr_fd k' j ≡ opened e (curr_fd k j)
    now = at j ∙ if_self j _ _

after_call :
    (e : Dentry) (k : Kernel) (j : ℕ) (r : Option Kernel)
    → IsFds (curr_fds k)
    → e.filetype < 3
    → IsFirstFree (curr_fds k) 2 6 j
    → SameFds (set_curr_fd j (opened e (curr_fd k j)) k) r
    → IsOpened e k (elim r [ none ↦ none | some k' ↦ some (pos j, k') ])
unfolding SameFds IsOpened
after_call e k j none v h f s = absurd s
after_call e k j (some k') v h f s = opened-Opens e k j k' v h f s

after_find :
    (e : Dentry) (k : Kernel) (r : Option ℕ)
    → IsFds (curr_fds k)
    → e.filetype < 3
    → (l : ℕ) → 2 ≤ l
    → l < 8
    → (curr_fd k l).flags ≡ not_in_use
    → IsFound (curr_fds k) 2 6 r
    → IsOpened e k (elim r [
      | none ↦ some (failure, k)
      | some index ↦
          elim (call_open
            (fops (opened e (curr_fd k index)).file_op_table_ptr).open_fn
            (set_curr_fd index (opened e (curr_fd k index)) k)) [
              | none ↦ none
              | some k' ↦ some (pos index, k')
            ]
    ])
unfolding IsFound
after_find e k none v h l low high free f = absurd (f l low high free)
after_find e k (some j) v h l low high free f =
    after_call e k j _ v h f (call_open-SameFds _ _ (opened-fits e (curr_fd k j) 2 h (omega arith)))

-- system_open: the name is found, its entry's type is one of the three that the file system has, a
-- descriptor from 2 to 7 is free, and the process's descriptors are in order. Then the call returns the
-- lowest free descriptor, which now stands for the file's inode at position 0 with the table of its type;
-- every other descriptor is as it was, and all are in order.
pub system_open_lem :
    (filename : List ℕ) (k : Kernel) (e : Dentry) (l : ℕ)
    → IsFds (curr_fds k)
    → read_dentry_by_name k.image filename ≡ some e
    → e.filetype < 3
    → 2 ≤ l
    → l < file_descriptor_max
    → (curr_fd k l).flags ≡ not_in_use
    → IsOpened e k (system_open filename k)
unfolding system_open
system_open_lem filename k e l v named h low high free =
    rw (named, system_open)
      (after_find e k (find_free 6 2 (curr_fds k)) v h l low (omega arith) free
        (find_free-IsFound 6 2 (curr_fds k)))
