-- ===== src/FileSys/Contents.antt =====
-- read_data against the bytes of a file.
use linux_like_os_project.Prelude.{
  ℕ, zero, suc, ◌+◌, ◌-◌, ◌*◌, ◌/◌, ◌%◌, ◌<◌, ◌≡◌, refl, ap₂, List, [], ◌∷◌, Bool-cases, inl, inr,
  arith, ltb, leb, if◌then◌else◌, get_or, min,
}
use linux_like_os_project.Prelude.Int.{pos}
use linux_like_os_project.FileSys.{
  Image, Inode, bytes_per_block, u32_mod, failure, no_inode, read_bytes, clamp_length, read_data,
}

-- The byte at a position of a file.
unfoldable pub file_byte : Image → Inode → ℕ → ℕ
file_byte fs node p =
    fs.data_bytes
      (get_or node.data_block_num (p / bytes_per_block) 0 * bytes_per_block + p % bytes_per_block)

-- The `n` bytes of a file from a position on.
unfoldable pub file_range : Image → Inode → ℕ → ℕ → List ℕ
unfolding file_byte
file_range fs node p zero = []
file_range fs node p (suc n) = file_byte fs node p ∷ file_range fs node (p + 1) n

pub read_bytes-eq-range :
    (fs : Image) (node : Inode) (n p block index : ℕ)
    → block ≡ p / bytes_per_block
    → index ≡ p % bytes_per_block
    → read_bytes fs node n block index ≡ file_range fs node p n
unfolding read_bytes file_range
read_bytes-eq-range fs node zero p block index e k = refl
read_bytes-eq-range fs node (suc n) p block index e k =
    ap₂ ◌∷◌ (rw (e, k)) (read_bytes-eq-range fs node n (p + 1) _ _ (ground arith) (ground arith))

clamp_length-eq-min :
    (node : Inode) (offset len : ℕ)
    → offset + len < u32_mod
    → offset < node.length
    → clamp_length node offset len ≡ min len (node.length - offset)
unfolding clamp_length
clamp_length-eq-min node offset len h k = ground arith

-- read_data: an inode number past the last fails; otherwise, if `offset + len` fits a uint32_t, the
-- call returns the smaller of `len` and what the file has from `offset` on (0 at or past its end),
-- and the buffer receives exactly that many bytes of the file, those from `offset` on.
pub read_data-eq-range :
    (fs : Image) (inode_num offset len : ℕ)
    → offset + len < u32_mod
    → let node = get_or fs.inodes inode_num no_inode in
      read_data fs inode_num offset len ≡ (
        if ltb inode_num fs.inode_count
        then (
          pos (min len (node.length - offset)),
          file_range fs node offset (min len (node.length - offset)),
        )
        else (failure, []))
unfolding read_data file_range
read_data-eq-range fs inode_num offset len h = elim (Bool-cases (leb node.length offset)) [
  | inl past ↦
      let none_left : min len (node.length - offset) ≡ 0 = ground arith in
      rw (past, none_left) (ground arith)
  | inr inside ↦ ground (
    arith,
    clamp_length-eq-min node offset len h,
    read_bytes-eq-range fs node (min len (node.length - offset)) offset (offset / bytes_per_block)
        (offset % bytes_per_block) refl refl,
  )
]
  where
    node : Inode
    node = get_or fs.inodes inode_num no_inode
