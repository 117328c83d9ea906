-- ===== src/Kernel/Files.antt =====
-- Several calls of read_file of student-distrib/file_sys.c on one descriptor.
use mathlib.Core.Path.{subst}
use linux_like_os_project.Prelude.{
  ℕ, zero, suc, ◌+◌, ◌-◌, ◌<◌, ◌%◌, ◌^◌, ◌≡◌, refl, sym, ap, ◌∙◌, List, [], ◌∷◌, ◌++◌, Bool-cases,
  inl, inr, arith, leb, get_or, length, min,
}
use linux_like_os_project.Prelude.Int.{ℤ, pos}
use linux_like_os_project.FileSys.{Image, Inode, no_inode}
use linux_like_os_project.FileSys.Contents.{file_byte, file_range, read_data-eq-range}
use linux_like_os_project.Kernel.{Kernel, Fd, curr_fd, set_curr_fd, file_descriptor_max}
use linux_like_os_project.Kernel.Descriptors.{
  curr_fds, curr_fd-set_curr_fd, length-set_curr_fd, if_self,
}
use linux_like_os_project.Kernel.Calls.{Reply, done, blocked, read_file}

unfoldable pub sum : List ℕ → ℕ
sum [] = 0
sum (n ∷ ns) = n + sum ns

-- The bytes that successive calls of read_file put into their buffers, for a list of `nbytes`.
unfoldable pub read_all : List ℕ → ℕ → Kernel → List ℕ
read_all [] fd k = []
read_all (n ∷ ns) fd k = elim (read_file fd n k) [
  | done value bytes k' ↦ bytes ++ read_all ns fd k'
  | blocked k' ↦ []
]

file_range-append :
    (fs : Image) (node : Inode) (p a b : ℕ)
    → file_range fs node p (a + b) ≡ file_range fs node p a ++ file_range fs node (p + a) b
unfolding file_range
file_range-append fs node p zero b = ground arith
file_range-append fs node p (suc a) b =
    let longer : suc a + b ≡ suc (a + b) = omega arith in
    let further : p + suc a ≡ p + 1 + a = omega arith in
    rw (longer, further) (ap (λ s. file_byte fs node p ∷ s) (file_range-append fs node (p + 1) a b))

-- A slice cut off at the end of the file, in two parts.
pub range-split :
    (fs : Image) (node : Inode) (p n m : ℕ)
    → file_range fs node p (min n (node.length - p))
        ++ file_range fs node (p + n) (min m (node.length - (p + n)))
      ≡ file_range fs node p (min (n + m) (node.length - p))
unfolding file_range
range-split fs node p n m = elim (Bool-cases (leb n (node.length - p))) [
  | inl within ↦
      let first : min n (node.length - p) ≡ n = ground arith in
      let both : min (n + m) (node.length - p) ≡ n + min m (node.length - (p + n)) = ground arith in
      rw (first, both, file_range-append fs node p n (min m (node.length - (p + n)))) refl
  | inr beyond ↦
      let first : min n (node.length - p) ≡ node.length - p = ground arith in
      let none_left : min m (node.length - (p + n)) ≡ 0 = ground arith in
      let both : min (n + m) (node.length - p) ≡ node.length - p + 0 = ground arith in
      rw (first, none_left, both) (sym (file_range-append fs node p (node.length - p) 0))
]

-- A call on a descriptor of a regular file, and where it leaves the descriptor.
read_file-eq :
    (fd n : ℕ) (k : Kernel)
    → fd < file_descriptor_max
    → (curr_fd k fd).inode < k.image.inode_count
    → (curr_fd k fd).file_pos + n < 2 ^ 32
    → let d = curr_fd k fd in
      let node = get_or k.image.inodes d.inode no_inode in
      read_file fd n k
      ≡ done
          (pos (min n (node.length - d.file_pos)))
          (file_range k.image node d.file_pos (min n (node.length - d.file_pos)))
          (set_curr_fd fd (record d { file_pos = d.file_pos + n }) k)
unfolding read_file
read_file-eq fd n k h hi hp =
    let fits : ((curr_fd k fd).file_pos + n) % 2 ^ 32 ≡ (curr_fd k fd).file_pos + n =
      ground arith in
    ground
      (arith, fits, read_data-eq-range k.image (curr_fd k fd).inode (curr_fd k fd).file_pos n hp)

pub read_file-at :
    (fd n : ℕ) (k : Kernel) (d : Fd)
    → curr_fd k fd ≡ d
    → fd < file_descriptor_max
    → d.inode < k.image.inode_count
    → d.file_pos + n < 2 ^ 32
    → let node = get_or k.image.inodes d.inode no_inode in
      read_file fd n k
      ≡ done
          (pos (min n (node.length - d.file_pos)))
          (file_range k.image node d.file_pos (min n (node.length - d.file_pos)))
          (set_curr_fd fd (record d { file_pos = d.file_pos + n }) k)
read_file-at fd n k d e h =
    subst
      (λ (d : Fd).
        d.inode < k.image.inode_count
        → d.file_pos + n < 2 ^ 32
        → read_file fd n k
          ≡ done (pos (min n ((get_or k.image.inodes d.inode no_inode).length - d.file_pos)))
              (file_range k.image (get_or k.image.inodes d.inode no_inode) d.file_pos
                (min n ((get_or k.image.inodes d.inode no_inode).length - d.file_pos)))
              (set_curr_fd fd (record d { file_pos = d.file_pos + n }) k))
      e (read_file-eq fd n k h)

min_zero : (m : ℕ) → min 0 m ≡ 0
min_zero m = omega arith

pub set_curr_fd-image : (fd : ℕ) (d : Fd) (k : Kernel) → (set_curr_fd fd d k).image ≡ k.image
unfolding set_curr_fd
set_curr_fd-image fd d k = refl

read_all-step :
    (n : ℕ) (ns : List ℕ) (fd : ℕ) (k : Kernel) {value : ℤ} {bytes : List ℕ} {k' : Kernel}
    → read_file fd n k ≡ done value bytes k'
    → read_all (n ∷ ns) fd k ≡ bytes ++ read_all ns fd k'
unfolding read_all
read_all-step n ns fd k e =
    ap
      (λ (r : Reply). elim r as (λ _. List ℕ) [
        | done value bytes k' ↦ bytes ++ read_all ns fd k'
        | blocked k' ↦ []
      ])
      e

read_all_from :
    (ns : List ℕ) (fd : ℕ) (k : Kernel) (d : Fd)
    → curr_fd k fd ≡ d
    → length (curr_fds k) ≡ file_descriptor_max
    → fd < file_descriptor_max
    → d.inode < k.image.inode_count
    → d.file_pos + sum ns < 2 ^ 32
    → let node = get_or k.image.inodes d.inode no_inode in
      read_all ns fd k
      ≡ file_range k.image node d.file_pos (min (sum ns) (node.length - d.file_pos))
unfolding read_all sum file_range set_curr_fd
read_all_from [] fd k d e l h hi hp = rw (min_zero _) refl
read_all_from (n ∷ ns) fd k d e l h hi hp =
    read_all-step n ns fd k (read_file-at fd n k d e h hi (omega arith))
    ∙ ap (λ s. file_range k.image node d.file_pos (min n (node.length - d.file_pos)) ++ s)
        (read_all_from ns fd (set_curr_fd fd moved k) moved
          (curr_fd-set_curr_fd fd fd moved k (omega (arith, l)) ∙ if_self fd _ _)
          (length-set_curr_fd fd moved k ∙ l) h hi (omega arith))
    ∙ range-split k.image node d.file_pos n (sum ns)
  where
    node : Inode
    node = get_or k.image.inodes d.inode no_inode

    moved : Fd
    moved = record d { file_pos = d.file_pos + n }

-- read_file: of the current process, with its eight descriptors, a descriptor of a file that exists is
-- read by any number of calls in a row, for whatever numbers of bytes, as long as the position and the
-- numbers together fit a uint32_t. The buffers, joined, hold what the file has from the descriptor's
-- position on, as many bytes as the calls asked for or as many as are left: nothing is skipped or read
-- twice.
pub read_all_lem :
    (ns : List ℕ) (fd : ℕ) (k : Kernel)
    → length (curr_fds k) ≡ file_descriptor_max
    → fd < file_descriptor_max
    → (curr_fd k fd).inode < k.image.inode_count
    → (curr_fd k fd).file_pos + sum ns < 2 ^ 32
    → let d = curr_fd k fd in
      let node = get_or k.image.inodes d.inode no_inode in
      read_all ns fd k
      ≡ file_range k.image node d.file_pos (min (sum ns) (node.length - d.file_pos))
read_all_lem ns fd k l h hi hp = read_all_from ns fd k (curr_fd k fd) refl l h hi hp
