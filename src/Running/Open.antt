-- ===== src/Running/Open.antt =====
-- system_open and system_vidmap of student-distrib/syscalls.c on the whole state.
use linux_like_os_project.Prelude.{
  ℕ, ◌<◌, ◌≡◌, ◌==◌, ◌&&◌, ◌||◌, not, leb, refl, List, Option, none, some, Option-cases, inl, inr,
  Bool-cases, true, arith,
}
use linux_like_os_project.Prelude.Int.{ℤ, pos}
use linux_like_os_project.FileSys.{failure, Dentry, read_dentry_by_name}
use linux_like_os_project.Console.Cursor.{IsConsole}
use linux_like_os_project.Kernel.{Kernel, Ops, fops, curr_fd, set_curr_fd}
use linux_like_os_project.Kernel.Descriptors.{curr_fds}
use linux_like_os_project.Kernel.Safety.{FdFits, fits}
use linux_like_os_project.Kernel.Open.{IsFound, find_free-IsFound, opened-fits}
use linux_like_os_project.Kernel.Calls.{call_open, find_free, opened, system_open}
use linux_like_os_project.Kernel.Vidmap.{system_vidmap, one_twenty_eight_mb, one_thirty_two_mb}
use linux_like_os_project.Running.{Quiet, Quiet-refl, Quiet-trans, QuietCall, IsTyped}
use linux_like_os_project.Running.Calls.{set_curr_fd-Quiet, devices-Quiet, refused-QuietCall}

called-QuietCall :
    (o : Ops) (value : ℤ) (k k' : Kernel)
    → fits 2 o ≡ true
    → Quiet k k'
    → IsConsole k'.console
    → QuietCall k (elim (call_open (fops o).open_fn k') as (λ _. Option (ℤ × Kernel)) [
      | none ↦ none
      | some k'' ↦ some (value, k'')
    ])
unfolding call_open fops fits QuietCall
called-QuietCall Ops.term_write_ops value k k' f q v = absurd (ground arith)
called-QuietCall Ops.term_read_ops value k k' f q v = absurd (ground arith)
called-QuietCall Ops.rtc_ops value k k' f q v =
    Quiet-trans q (devices-Quiet k' v _ k'.dentry_counter)
called-QuietCall Ops.file_ops value k k' f q v = q
called-QuietCall Ops.dir_ops value k k' f q v = q
called-QuietCall Ops.unset value k k' f q v = absurd (ground arith)

-- The call, once the descriptor is sought.
found-QuietCall :
    (e : Dentry) (k : Kernel) (r : Option ℕ)
    → IsConsole k.console
    → e.filetype < 3
    → IsFound (curr_fds k) 2 6 r
    → QuietCall k (elim r as (λ _. Option (ℤ × Kernel)) [
      | none ↦ some (failure, k)
      | some index ↦
          elim (call_open
            (fops (opened e (curr_fd k index)).file_op_table_ptr).open_fn
            (set_curr_fd index (opened e (curr_fd k index)) k)) [
              | none ↦ none
              | some k' ↦ some (pos index, k')
            ]
    ])
unfolding IsFound FdFits
found-QuietCall e k none v h f = refused-QuietCall k v
found-QuietCall e k (some index) v h f =
    let d = opened e (curr_fd k index) in
    let q =
      set_curr_fd-Quiet index d k v (omega (arith, f.high))
        (λ _. opened-fits e (curr_fd k index) index h f.low) in
    called-QuietCall d.file_op_table_ptr (pos index) k (set_curr_fd index d k)
      (opened-fits e (curr_fd k index) 2 h (omega arith)) q q.console.formed

pub system_open-Quiet :
    (filename : List ℕ) (k : Kernel)
    → IsConsole k.console
    → IsTyped k.image
    → QuietCall k (system_open filename k)
unfolding system_open
system_open-Quiet filename k v typed = elim (Option-cases (read_dentry_by_name k.image filename)) [
  | inl missing ↦ rw (missing, system_open) (refused-QuietCall k v)
  | inr (e, named) ↦
      rw (named, system_open)
        (found-QuietCall e k (find_free 6 2 (curr_fds k)) v (typed filename e named)
          (find_free-IsFound 6 2 (curr_fds k)))
]

pub system_vidmap-Quiet :
    (map_addr screen_start : ℕ) (k : Kernel)
    → IsConsole k.console
    → Quiet k (system_vidmap map_addr screen_start k).kernel
unfolding system_vidmap
system_vidmap-Quiet map_addr screen_start k v =
    elim (Bool-cases (
      (screen_start == 0)
      || not (leb one_twenty_eight_mb screen_start && leb screen_start one_thirty_two_mb))) [
        | inl bad ↦ rw bad (Quiet-refl v)
        | inr good ↦ rw good (record {
          console = (Quiet-refl {k = k} v).console;
          processes = refl;
          base = refl;
          image = refl;
          parent = λ p. refl;
          order = λ p f. f;
        })
      ]
