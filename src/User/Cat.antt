-- ===== src/User/Cat.antt =====
-- cat on the kernel.
use mathlib.Core.Path.{subst}
use linux_like_os_project.Prelude.{
  ℕ, zero, suc, ◌+◌, ◌-◌, ◌*◌, ◌<◌, ◌≤◌, ◌%◌, ◌||◌, ◌≡◌, ◌≢◌, ◌^◌, refl, sym, ap, ◌∙◌, List, Option,
  some, take, min, false, ltb, leb, ◌==◌, get_or, arith, length, inl, inr, Bool-cases,
}
use linux_like_os_project.Prelude.Int.{ℤ, pos}
use linux_like_os_project.Text.{strlen}
use linux_like_os_project.Console.Cursor.{IsConsole}
use linux_like_os_project.Kernel.Safety.{IsFds}
use linux_like_os_project.Kernel.Descriptors.{curr_fds}
use linux_like_os_project.Kernel.Calls.{system_getargs, system_open}
use linux_like_os_project.Kernel.Opening.{open_file-eq}
use linux_like_os_project.FileSys.{Dentry, read_dentry_by_name, Inode, no_inode}
use linux_like_os_project.FileSys.Contents.{file_range}
use linux_like_os_project.LineEdit.{write_bytes}
use linux_like_os_project.LineEdit.Write.{print, print-append, print-nil}
use linux_like_os_project.Kernel.{Kernel, curr_fd, set_curr_fd, not_in_use, file_descriptor_max}
use linux_like_os_project.Kernel.Execute.{write_over}
use linux_like_os_project.Kernel.Stream.{
  Reads, file_fd, file_fd-Reads, system_read-Reads, system_write-Holds, printed, printed-Holds,
}
use linux_like_os_project.User.{M}
use linux_like_os_project.User.OnKernel.{on_kernel, kernel_read, reply}
use linux_like_os_project.User.Print.{bufsize, cat_loop, cat}
use linux_like_os_project.User.Rounds.{
  length-file_range, take-write_over, cat_loop-end, cat_loop-more, cat-opened, whole,
}

-- A run that ends with the status 0 and has printed a text.
abbrev pub PrintsAndEnds : Option (ℤ × Kernel) → List ℕ → Kernel → Type 0
PrintsAndEnds r text k =
    (k' : Kernel) × (r ≡ some (pos 0, k')) × (k'.console ≡ print text k.console)

module _ (ticks : ℕ) (run : List ℕ → M Kernel ℤ) where
  read-eq :
      {k : Kernel} {fd inode p : ℕ}
      → Reads k fd inode p
      → inode < k.image.inode_count
      → p + bufsize < 2 ^ 32
      → let node = get_or k.image.inodes inode no_inode in
        let n = min bufsize (node.length - p) in
        (on_kernel ticks run).ece391_read fd bufsize k
        ≡ some
            ((pos n, file_range k.image node p n), set_curr_fd fd (file_fd inode (p + bufsize)) k)
  unfolding on_kernel kernel_read reply
  read-eq v h l = ap reply (system_read-Reads ticks bufsize v h l)

  write-eq :
      (s buf : List ℕ) {k : Kernel} {fd inode p : ℕ}
      → Reads k fd inode p
      → 1 ≤ length s
      → length s < 2 ^ 31
      → (on_kernel ticks run).ece391_write 1 (write_over s buf) (length s) k
        ≡ some (pos (write_bytes s 0 k.console).0, printed s k)
  unfolding on_kernel
  write-eq s buf {k} v h l =
      let w = system_write-Holds (write_over s buf) (length s) v h l in
      rw (take-write_over s buf) at w

  -- As long as a round is left for each full buffer and one for the end.
  cat_loop-prints :
      (f fd inode p : ℕ) (buf : List ℕ) (k : Kernel)
      → Reads k fd inode p
      → inode < k.image.inode_count
      → let node = get_or k.image.inodes inode no_inode in
        node.length + 2 * bufsize < 2 ^ 32
        → p ≤ node.length + bufsize
        → node.length + bufsize < p + bufsize * f
        → PrintsAndEnds
            (cat_loop (on_kernel ticks run) f fd buf k)
            (file_range k.image node p (node.length - p))
            k
  unfolding set_curr_fd file_range
  cat_loop-prints zero fd inode p buf k v h l a b = absurd (omega (arith, a, b))
  cat_loop-prints (suc f) fd inode p buf k v h l a b =
      let node : Inode = get_or k.image.inodes inode no_inode in
      let n = min bufsize (node.length - p) in
      let k1 = set_curr_fd fd (file_fd inode (p + bufsize)) k in
      let r = read-eq v h (omega (arith, a, l)) in
      elim (Bool-cases (leb node.length p)) [
        | inl past ↦
            let empty : n ≡ 0 = ground (arith, past) in
            let no_text : node.length - p ≡ 0 = ground (arith, past) in
            (
              k1,
              cat_loop-end (on_kernel ticks run) f fd buf (file_range k.image node p 0) k k1 (
                  subst
                    (λ n.
                      (on_kernel ticks run).ece391_read fd bufsize k
                      ≡ some ((pos n, file_range k.image node p n), k1))
                    empty r),
              rw no_text (sym (print-nil k.console)),
            )
        | inr within ↦
            let bytes = file_range k.image node p n in
            let count : length bytes ≡ n = length-file_range k.image node p n in
            let v1 = file_fd-Reads k fd inode (p + bufsize) v.formed v.order v.out v.low v.high in
            let k2 = printed bytes k1 in
            let w = write-eq bytes buf v1 (ground (arith, count, within)) (ground (arith, count)) in
            let (k', runs, shows) =
              cat_loop-prints f fd inode (p + bufsize) (write_over bytes buf) k2
                (printed-Holds bytes v1) h l (ground (arith, within)) (omega (arith, b)) in
            (
              k',
              cat_loop-more (on_kernel ticks run) f fd n _ buf bytes k k1 k2
                    (ground (arith, within)) r
                    (subst
                      (λ n.
                        (on_kernel ticks run).ece391_write 1 (write_over bytes buf) n k1
                        ≡ some (pos (write_bytes bytes 0 k1.console).0, k2))
                      count w)
                  ∙ runs,
              shows
                  ∙ sym (
                      print-append bytes
                        (file_range k.image node (p + bufsize) (node.length - (p + bufsize)))
                        k.console)
                  ∙ ap (λ t. print t k.console) (whole k.image node p),
            )
      ]

  getargs-eq :
      (k : Kernel)
      → strlen k.args ≢ 0
      → strlen k.args < bufsize
      → (on_kernel ticks run).ece391_getargs bufsize k ≡ some ((pos 0, take bufsize k.args), k)
  unfolding on_kernel system_getargs
  getargs-eq k h l =
      let fits : (ltb bufsize ((strlen k.args + 1) % 2 ^ 32) || (strlen k.args == 0)) ≡ false =
        ground (arith, h, l) in
      rw fits refl

  open-eq :
      (name : List ℕ) (k : Kernel) → (on_kernel ticks run).ece391_open name k ≡ system_open name k
  unfolding on_kernel
  open-eq name k = refl

  -- The program from its first read on.
  opened-prints :
      (f j inode : ℕ) (buf : List ℕ) (k : Kernel)
      → IsConsole k.console
      → IsFds (curr_fds k)
      → (curr_fd k 1).flags ≢ not_in_use
      → 2 ≤ j
      → j < file_descriptor_max
      → inode < k.image.inode_count
      → let node = get_or k.image.inodes inode no_inode in
        node.length + 2 * bufsize < 2 ^ 32
        → node.length + bufsize < bufsize * f
        → PrintsAndEnds
            (cat_loop (on_kernel ticks run) f j buf (set_curr_fd j (file_fd inode 0) k))
            (file_range k.image node 0 node.length)
            k
  unfolding set_curr_fd
  opened-prints f j inode buf k v o out low high h small fuel =
      let node : Inode = get_or k.image.inodes inode no_inode in
      let all : node.length - 0 ≡ node.length = omega arith in
      let (k', runs, shows) =
        cat_loop-prints f j inode 0 buf (set_curr_fd j (file_fd inode 0) k)
          (file_fd-Reads k j inode 0 v o out low high) h small (omega arith)
          (omega (arith, fuel)) in
      (k', runs, shows ∙ ap (λ n. print (file_range k.image node 0 n) k.console) all)

  -- cat on the kernel: its argument, with its terminator, fits the buffer and names a regular file with an
  -- inode, whose length leaves the positions below 2 ^ 32; the process has its descriptors in order, one of
  -- them free and its output open, on a well-formed console; and the loop has a round for each full buffer
  -- and one more. Then the program ends with the status 0, and the console is the one on which all of the
  -- file was printed, from its first byte to its last.
  pub cat_lem :
      (f : ℕ) (buf : List ℕ) (k : Kernel) (e : Dentry) (l : ℕ)
      → IsConsole k.console
      → IsFds (curr_fds k)
      → (curr_fd k 1).flags ≢ not_in_use
      → strlen k.args ≢ 0
      → strlen k.args < bufsize
      → read_dentry_by_name k.image (write_over (take bufsize k.args) buf) ≡ some e
      → e.filetype ≡ 2
      → 2 ≤ l
      → l < file_descriptor_max
      → (curr_fd k l).flags ≡ not_in_use
      → e.inode_num < k.image.inode_count
      → let node = get_or k.image.inodes e.inode_num no_inode in
        node.length + 2 * bufsize < 2 ^ 32
        → node.length + bufsize < bufsize * f
        → PrintsAndEnds
            (cat (on_kernel ticks run) f buf k)
            (file_range k.image node 0 node.length)
            k
  cat_lem f buf k e l v o out some_args fits named regular low high free inode small fuel =
      let (j, a, b, opens) =
        open_file-eq (write_over (take bufsize k.args) buf) k e l named regular low high free in
      let args = take bufsize k.args in
      let (k', runs, shows) =
        opened-prints f j e.inode_num (write_over args buf) k v o out a b inode small fuel in
      (
        k',
        cat-opened (on_kernel ticks run) f j buf args k (set_curr_fd j (file_fd e.inode_num 0) k)
              (getargs-eq k some_args fits) (open-eq (write_over args buf) k ∙ opens)
            ∙ runs,
        shows,
      )
