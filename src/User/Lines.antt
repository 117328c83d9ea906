-- ===== src/User/Lines.antt =====
-- The directory as ls reads it, and the rounds of its loop over any calls.
use linux_like_os_project.Prelude.{
  ℕ, zero, suc, ◌+◌, ◌-◌, ◌<◌, ◌≤◌, ◌%◌, ◌≡◌, ◌^◌, refl, ap, ◌∙◌, List, [], ◌∷◌, ◌++◌, some, take,
  true, false, ltb, leb, ◌==◌, ◌&&◌, not, get_or, set, arith, length, length-set,
}
use linux_like_os_project.Prelude.Int.{pos}
use linux_like_os_project.FileSys.{Image, no_dentry, filename_len, read_dentry_by_index}
use linux_like_os_project.Kernel.{
  Kernel, Fd, fops, curr_fd, file_descriptor_max, in_use, not_in_use, dir_ops,
}
use linux_like_os_project.Kernel.Execute.{write_over}
use linux_like_os_project.Kernel.Calls.{done, call_read, system_read, read_directory}
use linux_like_os_project.Kernel.Stream.{Holds}
use linux_like_os_project.User.{Syscalls, ◌>>=◌}
use linux_like_os_project.User.Print.{sbufsize, ls_loop, ls}

-- The names of `n` entries from the entry `i` on, a line for each.
unfoldable pub listing : Image → ℕ → ℕ → List ℕ
listing fs zero i = []
listing fs (suc n) i =
    take filename_len (get_or fs.direntries i no_dentry).filename
    ++ ((10 ∷ []) ++ listing fs n (i + 1))

-- Every entry's name fills its field.
abbrev pub HasNames : Image → Type 0
HasNames fs =
    (i : ℕ) → i < fs.dir_count → length (get_or fs.direntries i no_dentry).filename ≡ filename_len

abbrev pub dir_fd : ℕ → Fd
dir_fd inode = record { file_op_table_ptr = dir_ops; inode = inode; file_pos = 0; flags = in_use }

pub system_read-dir :
    (ticks n : ℕ) {k : Kernel} {fd inode : ℕ}
    → Holds k fd (dir_fd inode)
    → system_read ticks fd true n k ≡ some (read_directory fd k)
unfolding system_read call_read fops
system_read-dir ticks n {k} {fd} v =
    let flags : (curr_fd k fd).flags ≡ in_use = ap (λ (d : Fd). d.flags) v.here in
    let table : (curr_fd k fd).file_op_table_ptr ≡ dir_ops =
      ap (λ (d : Fd). d.file_op_table_ptr) v.here in
    let let_in : ((ltb fd file_descriptor_max && not (fd == 1))
          && not ((curr_fd k fd).flags == not_in_use))
        ≡ true =
      rw flags (ground (arith, v.low, v.high)) in
    rw (let_in, table) refl

pub read_directory-end :
    (fd : ℕ) (k : Kernel)
    → k.image.dir_count ≤ k.dentry_counter
    → read_directory fd k ≡ done (pos 0) [] (record k { dentry_counter = 0 })
unfolding read_directory
read_directory-end fd k h =
    let past : leb k.image.dir_count k.dentry_counter ≡ true = ground (arith, h) in rw past refl

pub read_directory-entry :
    (fd : ℕ) (k : Kernel)
    → k.dentry_counter < k.image.dir_count
    → k.dentry_counter + 1 < 2 ^ 32
    → read_directory fd k
      ≡ done
          (pos filename_len)
          (take filename_len (get_or k.image.direntries k.dentry_counter no_dentry).filename)
          (record k { dentry_counter = k.dentry_counter + 1 })
unfolding read_directory read_dentry_by_index
read_directory-entry fd k h l =
    let inside : leb k.image.dir_count k.dentry_counter ≡ false = ground (arith, h) in
    let there : ltb k.dentry_counter k.image.dir_count ≡ true = ground (arith, h) in
    let next : (k.dentry_counter + 1) % 2 ^ 32 ≡ k.dentry_counter + 1 = omega (arith, l) in
    rw (inside, there, next) refl

-- The line that a round puts together.
pub line-eq :
    (name buf : List ℕ)
    → length name < length buf
    → take (length name + 1) (set (write_over name buf) (length name) 10) ≡ name ++ (10 ∷ [])
unfolding write_over
line-eq [] [] h = absurd (omega (arith, h))
line-eq [] (b ∷ buf) h = refl
line-eq (x ∷ name) [] h = absurd (omega (arith, h))
line-eq (x ∷ name) (b ∷ buf) h =
    let next : suc (length name) + 1 ≡ suc (length name + 1) = omega arith in
    rw next (ap (λ s. x ∷ s) (line-eq name buf (omega (arith, h))))

length-write_over :
    (name buf : List ℕ) → length name ≤ length buf → length (write_over name buf) ≡ length buf
unfolding write_over
length-write_over [] buf h = refl
length-write_over (x ∷ name) [] h = absurd (omega (arith, h))
length-write_over (x ∷ name) (b ∷ buf) h = ap suc (length-write_over name buf (omega (arith, h)))

pub length-line :
    (name buf : List ℕ) (n : ℕ)
    → length name ≤ length buf
    → length (set (write_over name buf) n 10) ≡ length buf
length-line name buf n h = length-set (write_over name buf) n 10 ∙ length-write_over name buf h

module _ {S : Type 0} (c : Syscalls S) where
  pub ls_loop-end :
      (f fd : ℕ) (buf bytes : List ℕ) (s s' : S)
      → c.ece391_read fd (sbufsize - 1) s ≡ some ((pos 0, bytes), s')
      → ls_loop c (suc f) fd buf s ≡ some (pos 0, s')
  unfolding ls_loop
  ls_loop-end f fd buf bytes s s' e = rw (e, ◌>>=◌) refl

  pub ls_loop-more :
      (f fd n m : ℕ) (buf bytes : List ℕ) (s s' s'' : S)
      → 1 ≤ n
      → c.ece391_read fd (sbufsize - 1) s ≡ some ((pos n, bytes), s')
      → c.ece391_write 1 (set (write_over bytes buf) n 10) (n + 1) s' ≡ some (pos m, s'')
      → ls_loop c (suc f) fd buf s ≡ ls_loop c f fd (set (write_over bytes buf) n 10) s''
  unfolding ls_loop
  ls_loop-more f fd n m buf bytes s s' s'' h e w =
      let some_left : (n == 0) ≡ false = ground (arith, h) in rw (e, some_left, w, ◌>>=◌) refl

  pub ls-opened :
      (f j : ℕ) (buf : List ℕ) (s s' : S)
      → c.ece391_open (46 ∷ 0 ∷ []) s ≡ some (pos j, s')
      → ls c f buf s ≡ ls_loop c f j buf s'
  unfolding ls
  ls-opened f j buf s s' o = rw (o, ◌>>=◌) refl
