-- ===== src/User/Rounds.antt =====
-- The rounds of cat's loop over any calls.
use linux_like_os_project.Prelude.{
  ℕ, zero, suc, ◌+◌, ◌-◌, ◌≤◌, ◌≡◌, refl, sym, ap, ◌∙◌, List, [], ◌∷◌, ◌++◌, some, take, min, false,
  ◌==◌, arith, length,
}
use linux_like_os_project.Prelude.Int.{pos}
use linux_like_os_project.FileSys.{Image, Inode}
use linux_like_os_project.FileSys.Contents.{file_range}
use linux_like_os_project.Kernel.Execute.{write_over}
use linux_like_os_project.Kernel.Files.{range-split}
use linux_like_os_project.User.{Syscalls, ◌>>=◌}
use linux_like_os_project.User.Print.{bufsize, cat_loop, cat}

pub length-file_range : (fs : Image) (node : Inode) (p n : ℕ) → length (file_range fs node p n) ≡ n
unfolding file_range
length-file_range fs node p zero = refl
length-file_range fs node p (suc n) = ap suc (length-file_range fs node (p + 1) n)

pub take-write_over : (s old : List ℕ) → take (length s) (write_over s old) ≡ s
unfolding write_over
take-write_over [] old = refl
take-write_over (b ∷ s) [] = ap (λ t. b ∷ t) (take-write_over s [])
take-write_over (b ∷ s) (o ∷ old) = ap (λ t. b ∷ t) (take-write_over s old)

module _ {S : Type 0} (c : Syscalls S) where
  -- A round that reads nothing.
  pub cat_loop-end :
      (f fd : ℕ) (buf bytes : List ℕ) (s s' : S)
      → c.ece391_read fd bufsize s ≡ some ((pos 0, bytes), s')
      → cat_loop c (suc f) fd buf s ≡ some (pos 0, s')
  unfolding cat_loop
  cat_loop-end f fd buf bytes s s' e = rw (e, ◌>>=◌) refl

  -- A round that reads and prints.
  pub cat_loop-more :
      (f fd n m : ℕ) (buf bytes : List ℕ) (s s' s'' : S)
      → 1 ≤ n
      → c.ece391_read fd bufsize s ≡ some ((pos n, bytes), s')
      → c.ece391_write 1 (write_over bytes buf) n s' ≡ some (pos m, s'')
      → cat_loop c (suc f) fd buf s ≡ cat_loop c f fd (write_over bytes buf) s''
  unfolding cat_loop
  cat_loop-more f fd n m buf bytes s s' s'' h e w =
      let some_left : (n == 0) ≡ false = ground (arith, h) in rw (e, some_left, w, ◌>>=◌) refl

  -- The arguments are there and the file opens.
  pub cat-opened :
      (f j : ℕ) (buf args : List ℕ) (s s' : S)
      → c.ece391_getargs bufsize s ≡ some ((pos 0, args), s)
      → c.ece391_open (write_over args buf) s ≡ some (pos j, s')
      → cat c f buf s ≡ cat_loop c f j (write_over args buf) s'
  unfolding cat
  cat-opened f j buf args s s' e o = rw (e, o, ◌>>=◌) refl

pub whole :
    (fs : Image) (node : Inode) (p : ℕ)
    → file_range fs node p (min bufsize (node.length - p))
        ++ file_range fs node (p + bufsize) (node.length - (p + bufsize))
      ≡ file_range fs node p (node.length - p)
whole fs node p =
    let rest : min node.length (node.length - (p + bufsize)) ≡ node.length - (p + bufsize) =
      omega arith in
    let all : min (bufsize + node.length) (node.length - p) ≡ node.length - p = omega arith in
    ap
      (λ n.
        file_range fs node p (min bufsize (node.length - p)) ++ file_range fs node (p + bufsize) n)
      (sym rest)
    ∙ range-split fs node p bufsize node.length
    ∙ ap (file_range fs node p) all
