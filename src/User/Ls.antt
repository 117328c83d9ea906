-- ===== src/User/Ls.antt =====
-- ls on the kernel.
use mathlib.Core.List.{append_assoc}
use mathlib.Core.Path.{subst}
use linux_like_os_project.Prelude.{
  ℕ, zero, suc, ◌+◌, ◌-◌, ◌<◌, ◌≤◌, ◌≡◌, ◌≢◌, ◌^◌, sym, ap, ◌∙◌, List, [], ◌∷◌, ◌++◌, some, take,
  get_or, set, arith, length, length-take,
}
use linux_like_os_project.Prelude.Int.{ℤ, pos}
use linux_like_os_project.FileSys.{Dentry, no_dentry, filename_len, read_dentry_by_name}
use linux_like_os_project.Console.Cursor.{IsConsole}
use linux_like_os_project.LineEdit.{write_bytes}
use linux_like_os_project.LineEdit.Write.{print, print-append, print-nil}
use linux_like_os_project.Kernel.{Kernel, Fd, curr_fd, set_curr_fd, file_descriptor_max, not_in_use}
use linux_like_os_project.Kernel.Descriptors.{curr_fds}
use linux_like_os_project.Kernel.Execute.{write_over}
use linux_like_os_project.Kernel.Safety.{IsFds, FdFits, fits}
use linux_like_os_project.Kernel.Stream.{
  Holds, set_curr_fd-Holds, system_write-Holds, printed, printed-Holds,
}
use linux_like_os_project.Kernel.Opening.{open_dir-eq}
use linux_like_os_project.User.{M}
use linux_like_os_project.User.OnKernel.{on_kernel, kernel_read, reply}
use linux_like_os_project.User.Print.{sbufsize, ls_loop, ls}
use linux_like_os_project.User.Cat.{PrintsAndEnds}
use linux_like_os_project.User.Lines.{
  listing, HasNames, dir_fd, system_read-dir, read_directory-end, read_directory-entry, line-eq,
  length-line, ls_loop-end, ls_loop-more, ls-opened,
}

-- The counter of read_directory is no part of the descriptors.
counted-Holds :
    {k : Kernel} {fd : ℕ} {d : Fd} (n : ℕ)
    → Holds k fd d
    → Holds (record k { dentry_counter = n }) fd d
counted-Holds n v = record {
  formed = v.formed;
  order = v.order;
  low = v.low;
  high = v.high;
  here = v.here;
  out = v.out;
}

module _ (ticks : ℕ) (run : List ℕ → M Kernel ℤ) where
  read-end :
      {k : Kernel} {fd inode : ℕ}
      → Holds k fd (dir_fd inode)
      → k.image.dir_count ≤ k.dentry_counter
      → (on_kernel ticks run).ece391_read fd (sbufsize - 1) k
        ≡ some ((pos 0, []), record k { dentry_counter = 0 })
  unfolding on_kernel kernel_read reply
  read-end {k} {fd} v h =
      ap reply (system_read-dir ticks (sbufsize - 1) v ∙ ap some (read_directory-end fd k h))

  read-entry :
      {k : Kernel} {fd inode : ℕ}
      → Holds k fd (dir_fd inode)
      → k.dentry_counter < k.image.dir_count
      → k.image.dir_count < 2 ^ 32
      → (on_kernel ticks run).ece391_read fd (sbufsize - 1) k
        ≡ some (
          (
            pos filename_len,
            take filename_len (get_or k.image.direntries k.dentry_counter no_dentry).filename,
          ),
          record k { dentry_counter = k.dentry_counter + 1 },
        )
  unfolding on_kernel kernel_read reply
  read-entry {k} {fd} v h l = ap reply (
      system_read-dir ticks (sbufsize - 1) v
      ∙ ap some (read_directory-entry fd k h (omega (arith, h, l))))

  write-line :
      (name buf : List ℕ) {k : Kernel} {fd : ℕ} {d : Fd}
      → Holds k fd d
      → length name ≡ filename_len
      → filename_len < length buf
      → (on_kernel ticks run).ece391_write 1
          (set (write_over name buf) filename_len 10)
          (filename_len + 1)
          k
        ≡ some (pos (write_bytes (name ++ (10 ∷ [])) 0 k.console).0, printed (name ++ (10 ∷ [])) k)
  unfolding on_kernel
  write-line name buf v e l =
      let w =
        system_write-Holds (set (write_over name buf) filename_len 10) (filename_len + 1) v
          (omega arith) (omega arith) in
      let line : take (filename_len + 1) (set (write_over name buf) filename_len 10)
          ≡ name ++ (10 ∷ []) =
        subst (λ n. take (n + 1) (set (write_over name buf) n 10) ≡ name ++ (10 ∷ [])) e
          (line-eq name buf (rw e l)) in
      rw line at w

  -- `n` entries are left.
  ls_loop-prints :
      (f n fd inode : ℕ) (buf : List ℕ) (k : Kernel)
      → Holds k fd (dir_fd inode)
      → HasNames k.image
      → k.image.dir_count < 2 ^ 32
      → length buf ≡ sbufsize
      → k.dentry_counter + n ≡ k.image.dir_count
      → n < f
      → PrintsAndEnds
          (ls_loop (on_kernel ticks run) f fd buf k)
          (listing k.image n k.dentry_counter)
          k
  unfolding listing
  ls_loop-prints zero n fd inode buf k v names small size left fuel = absurd (omega (arith, fuel))
  ls_loop-prints (suc f) zero fd inode buf k v names small size left fuel = (
    record k { dentry_counter = 0 },
    ls_loop-end (on_kernel ticks run) f fd buf [] k (record k { dentry_counter = 0 })
        (read-end v (omega (arith, left))),
    sym (print-nil k.console),
  )
  ls_loop-prints (suc f) (suc n) fd inode buf k v names small size left fuel =
      let name =
        take filename_len (get_or k.image.direntries k.dentry_counter no_dentry).filename in
      let wide : length name ≡ filename_len = omega (
        arith,
        length-take filename_len (get_or k.image.direntries k.dentry_counter no_dentry).filename,
        names k.dentry_counter (omega (arith, left)),
      ) in
      let k1 = record k { dentry_counter = k.dentry_counter + 1 } in
      let k2 = printed (name ++ (10 ∷ [])) k1 in
      let v1 = counted-Holds (k.dentry_counter + 1) v in
      let buf' = set (write_over name buf) filename_len 10 in
      let (k', runs, shows) =
        ls_loop-prints f n fd inode buf' k2 (printed-Holds (name ++ (10 ∷ [])) v1) names small
          (length-line name buf filename_len (omega (arith, wide, size)) ∙ size)
          (omega (arith, left)) (omega (arith, fuel)) in
      (
        k',
        ls_loop-more (on_kernel ticks run) f fd filename_len _ buf name k k1 k2 (omega arith)
              (read-entry v (omega (arith, left)) small)
              (write-line name buf v1 wide (omega (arith, size)))
            ∙ runs,
        shows
            ∙ sym (
                print-append (name ++ (10 ∷ [])) (listing k.image n (k.dentry_counter + 1))
                  k.console)
            ∙ ap (λ t. print t k.console)
                (append_assoc name (10 ∷ []) (listing k.image n (k.dentry_counter + 1))),
      )

  dir-Holds :
      (k : Kernel) (j inode : ℕ)
      → IsConsole k.console
      → IsFds (curr_fds k)
      → (curr_fd k 1).flags ≢ not_in_use
      → 2 ≤ j
      → j < file_descriptor_max
      → Holds (set_curr_fd j (dir_fd inode) k) j (dir_fd inode)
  unfolding FdFits fits
  dir-Holds k j inode v o out low high =
      set_curr_fd-Holds k j (dir_fd inode) (λ _. ground (arith, low)) v o out low high

  opened-lists :
      (f j inode : ℕ) (buf : List ℕ) (k : Kernel)
      → Holds (set_curr_fd j (dir_fd inode) k) j (dir_fd inode)
      → HasNames k.image
      → k.image.dir_count < 2 ^ 32
      → k.dentry_counter ≡ 0
      → length buf ≡ sbufsize
      → k.image.dir_count < f
      → PrintsAndEnds
          (ls_loop (on_kernel ticks run) f j buf (set_curr_fd j (dir_fd inode) k))
          (listing k.image k.image.dir_count 0)
          k
  unfolding set_curr_fd
  opened-lists f j inode buf k v names small start size fuel =
      let (k', runs, shows) =
        ls_loop-prints f k.image.dir_count j inode buf (set_curr_fd j (dir_fd inode) k) v names
          small size (omega (arith, start)) fuel in
      (k', runs, shows ∙ ap (λ i. print (listing k.image k.image.dir_count i) k.console) start)

  -- ls on the kernel: the name "." is a directory's, the entries number below 2 ^ 32 and each one's name
  -- fills its field, the array has its 33 bytes, and the counter of read_directory is at the start; the
  -- process has its descriptors in order, one of them free and its output open, on a well-formed console;
  -- and the loop has a round for each entry and one more. Then the program ends with the status 0, and the
  -- console is the one on which the directory's names were printed in their order, a line for each.
  pub ls_lem :
      (f : ℕ) (buf : List ℕ) (k : Kernel) (e : Dentry) (l : ℕ)
      → IsConsole k.console
      → IsFds (curr_fds k)
      → (curr_fd k 1).flags ≢ not_in_use
      → read_dentry_by_name k.image (46 ∷ 0 ∷ []) ≡ some e
      → e.filetype ≡ 1
      → 2 ≤ l
      → l < file_descriptor_max
      → (curr_fd k l).flags ≡ not_in_use
      → HasNames k.image
      → k.image.dir_count < 2 ^ 32
      → k.dentry_counter ≡ 0
      → length buf ≡ sbufsize
      → k.image.dir_count < f
      → PrintsAndEnds (ls (on_kernel ticks run) f buf k) (listing k.image k.image.dir_count 0) k
  unfolding on_kernel
  ls_lem f buf k e l v o out named kind low high free names small start size fuel =
      let (j, a, b, opens) = open_dir-eq (46 ∷ 0 ∷ []) k e l named kind low high free in
      let (k', runs, shows) =
        opened-lists f j e.inode_num buf k (dir-Holds k j e.inode_num v o out a b) names small start
          size fuel in
      (
        k',
        ls-opened (on_kernel ticks run) f j buf k (set_curr_fd j (dir_fd e.inode_num) k) opens
            ∙ runs,
        shows,
      )
