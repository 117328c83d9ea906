-- ===== src/Memory.antt =====
-- memset, memset_word, memset_dword, memcpy and memmove of student-distrib/lib.c, whose bodies are inline
-- assembly. Each instruction's effect on memory, edi, esi, ecx and edx is written out; a register holds 32
-- bits. Every function returns its first argument, which is left out.
pub mod Fill
pub mod Copy
pub mod Move
use linux_like_os_project.Prelude.{
  ℕ, zero, suc, ◌+◌, ◌-◌, ◌*◌, ◌/◌, ◌%◌, ◌^◌, Memory, store, leb, ltb, ◌==◌, if◌then◌else◌, Bool,
  true, false,
}
use Prim.Native.Nat.{bit_or}

-- `addl $k` on a register.
unfoldable pub add_reg : ℕ → ℕ → ℕ
add_reg r k = (r + k) % 2 ^ 32

-- A doubleword stored at an address, the lowest byte first.
unfoldable pub store_long : ℕ → ℕ → Memory → Memory
store_long a w m =
    store (a + 3) (w / 2 ^ 24 % 256)
      (store (a + 2) (w / 2 ^ 16 % 256) (store (a + 1) (w / 2 ^ 8 % 256) (store a (w % 256) m)))

unfoldable pub load_long : ℕ → Memory → ℕ
load_long a m = m a + 2 ^ 8 * m (a + 1) + 2 ^ 16 * m (a + 2) + 2 ^ 24 * m (a + 3)

-- `rep stosl`: edi and the memory after `ecx` rounds.
unfoldable pub rep_stosl : ℕ → ℕ → ℕ → Memory → ℕ × Memory
unfolding store_long add_reg
rep_stosl zero edi eax m = (edi, m)
rep_stosl (suc ecx) edi eax m = rep_stosl ecx (add_reg edi 4) eax (store_long edi eax m)

-- `rep stosw`.
unfoldable pub rep_stosw : ℕ → ℕ → ℕ → Memory → Memory
unfolding add_reg
rep_stosw zero edi eax m = m
rep_stosw (suc ecx) edi eax m =
    rep_stosw ecx (add_reg edi 2) eax
      (store (edi + 1) (eax / 2 ^ 8 % 256) (store edi (eax % 256) m))

-- The loop at .memset_bottom, on edx.
unfoldable pub memset_bottom : ℕ → ℕ → ℕ → Memory → Memory
unfolding add_reg
memset_bottom zero edi al m = m
memset_bottom (suc edx) edi al m = memset_bottom edx (add_reg edi 1) al (store edi al m)

-- From .memset_aligned on.
unfoldable pub memset_aligned : ℕ → ℕ → ℕ → Memory → Memory
unfolding rep_stosl memset_bottom
memset_aligned ecx edi eax m =
    let words = rep_stosl (ecx / 4) edi eax m in memset_bottom (ecx % 4) words.0 (eax % 256) words.1

-- The loop at .memset_top, on ecx.
unfoldable pub memset_top : ℕ → ℕ → ℕ → Memory → Memory
unfolding memset_aligned add_reg
memset_top zero edi eax m = m
memset_top (suc ecx) edi eax m =
    let rest = memset_top ecx (add_reg edi 1) eax (store edi (eax % 256) m) in
    if edi % 4 == 0 then memset_aligned (suc ecx) edi eax m else rest

-- `c << 24 | c << 16 | c << 8 | c` for a byte.
unfoldable pub spread : ℕ → ℕ
spread c = bit_or (bit_or (bit_or (c * 2 ^ 24) (c * 2 ^ 16)) (c * 2 ^ 8)) c

unfoldable pub memset : ℕ → ℕ → ℕ → Memory → Memory
unfolding memset_top spread
memset s c n m = memset_top n s (spread (c % 256)) m

unfoldable pub memset_word : ℕ → ℕ → ℕ → Memory → Memory
unfolding rep_stosw
memset_word s c n m = rep_stosw n s c m

unfoldable pub memset_dword : ℕ → ℕ → ℕ → Memory → Memory
unfolding rep_stosl
memset_dword s c n m = (rep_stosl n s c m).1

-- `rep movsl`: edi, esi and the memory after `ecx` rounds.
unfoldable pub rep_movsl : ℕ → ℕ → ℕ → Memory → ℕ × ℕ × Memory
unfolding store_long load_long add_reg
rep_movsl zero edi esi m = (edi, esi, m)
rep_movsl (suc ecx) edi esi m =
    rep_movsl ecx (add_reg edi 4) (add_reg esi 4) (store_long edi (load_long esi m) m)

-- The loop at .memcpy_bottom, on edx.
unfoldable pub memcpy_bottom : ℕ → ℕ → ℕ → Memory → Memory
unfolding add_reg
memcpy_bottom zero edi esi m = m
memcpy_bottom (suc edx) edi esi m =
    memcpy_bottom edx (add_reg edi 1) (add_reg esi 1) (store edi (m esi) m)

-- From .memcpy_aligned on.
unfoldable pub memcpy_aligned : ℕ → ℕ → ℕ → Memory → Memory
unfolding rep_movsl memcpy_bottom
memcpy_aligned ecx edi esi m =
    let words = rep_movsl (ecx / 4) edi esi m in memcpy_bottom (ecx % 4) words.0 words.1 words.2

-- The loop at .memcpy_top, on ecx.
unfoldable pub memcpy_top : ℕ → ℕ → ℕ → Memory → Memory
unfolding memcpy_aligned add_reg
memcpy_top zero edi esi m = m
memcpy_top (suc ecx) edi esi m =
    let rest = memcpy_top ecx (add_reg edi 1) (add_reg esi 1) (store edi (m esi) m) in
    if edi % 4 == 0 then memcpy_aligned (suc ecx) edi esi m else rest

unfoldable pub memcpy : ℕ → ℕ → ℕ → Memory → Memory
unfolding memcpy_top
memcpy dest src n m = memcpy_top n dest src m

-- `rep movsb`, downwards if the direction flag is set.
unfoldable pub rep_movsb : Bool → ℕ → ℕ → ℕ → Memory → Memory
unfolding add_reg
rep_movsb down zero edi esi m = m
rep_movsb false (suc ecx) edi esi m =
    rep_movsb false ecx (add_reg edi 1) (add_reg esi 1) (store edi (m esi) m)
rep_movsb true (suc ecx) edi esi m =
    rep_movsb true ecx (add_reg edi (2 ^ 32 - 1)) (add_reg esi (2 ^ 32 - 1)) (store edi (m esi) m)

-- The memory, and the direction flag that the function leaves.
unfoldable pub memmove : ℕ → ℕ → ℕ → Memory → Memory × Bool
unfolding rep_movsb add_reg
memmove dest src n m = if leb dest src then (rep_movsb false n dest src m, false) else (
  rep_movsb true n (add_reg (add_reg dest n) (2 ^ 32 - 1)) (add_reg (add_reg src n) (2 ^ 32 - 1)) m,
  true,
)
