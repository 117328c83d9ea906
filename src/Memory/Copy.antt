-- ===== src/Memory/Copy.antt =====
-- memcpy against the copying of a range.
use mathlib.Core.Path.{fun_ext}
use linux_like_os_project.Prelude.{
  ℕ, zero, suc, ◌+◌, ◌-◌, ◌*◌, ◌/◌, ◌%◌, ◌^◌, ◌≤◌, ◌<◌, ◌≡◌, ◌⊎◌, sym, ap, ap₂, ◌∙◌, Memory, store,
  load-store, leb, ltb, ◌==◌, ◌&&◌, if◌then◌else◌, Bool-cases, inl, inr, arith,
}
use linux_like_os_project.Memory.{
  add_reg, store_long, load_long, rep_movsl, memcpy_bottom, memcpy_aligned, memcpy_top, memcpy,
}

-- Every byte of memory holds a byte.
abbrev pub Bytewise : Memory → Type 0
Bytewise m = (a : ℕ) → m a < 256

-- The memory after `n` bytes from `s` on are copied to `d`.
unfoldable pub copied : ℕ → ℕ → ℕ → Memory → Memory
copied d s n m a = if leb d a && ltb a (d + n) then m (s + (a - d)) else m a

-- What an upward copy of `n` bytes asks for: no byte is overwritten before it is read.
abbrev pub Upward : ℕ → ℕ → ℕ → Type 0
Upward d s n = (d ≤ s) ⊎ (s + n ≤ d)

Bytewise-store : (a v : ℕ) (m : Memory) → v < 256 → Bytewise m → Bytewise (store a v m)
Bytewise-store a v m h k x = ground (arith, load-store a v m x, k x)

pub add_reg-small : (r k : ℕ) → r + k < 2 ^ 32 → add_reg r k ≡ r + k
unfolding add_reg
add_reg-small r k h = omega arith

-- A range of no bytes.
pub copied_none : (d s : ℕ) (m : Memory) (a : ℕ) → copied d s 0 m a ≡ m a
unfolding copied
copied_none d s m a = ground arith

-- The first byte, and the rest after it.
pub copied_first :
    (n d s : ℕ) (m : Memory) (a : ℕ)
    → Upward d s (suc n)
    → copied (d + 1) (s + 1) n (store d (m s) m) a ≡ copied d s (suc n) m a
unfolding copied store
copied_first n d s m a (inl u) = ground arith
copied_first n d s m a (inr u) = ground arith

Upward-next : (n d s : ℕ) → Upward d s (suc n) → Upward (d + 1) (s + 1) n
Upward-next n d s (inl u) = inl (omega arith)
Upward-next n d s (inr u) = inr (omega arith)

bottom-copied :
    (n d s : ℕ) (m : Memory) (a : ℕ)
    → d + n ≤ 2 ^ 32
    → s + n ≤ 2 ^ 32
    → Upward d s n
    → memcpy_bottom n d s m a ≡ copied d s n m a
unfolding memcpy_bottom
bottom-copied zero d s m a h k u = sym (copied_none d s m a)
bottom-copied (suc zero) d s m a h k u =
    sym (copied_none (d + 1) (s + 1) (store d (m s) m) a) ∙ copied_first 0 d s m a u
bottom-copied (suc (suc n)) d s m a h k u =
    rw (add_reg-small d 1 (omega arith), add_reg-small s 1 (omega arith))
      (bottom-copied (suc n) (d + 1) (s + 1) (store d (m s) m) a (omega arith) (omega arith)
          (Upward-next (suc n) d s u)
        ∙ copied_first (suc n) d s m a u)

-- A copy in two parts.
copied-append :
    (k n d s : ℕ) (m : Memory) (a : ℕ)
    → Upward d s (k + n)
    → copied (d + k) (s + k) n (copied d s k m) a ≡ copied d s (k + n) m a
unfolding copied
copied-append k n d s m a (inl u) = ground arith
copied-append k n d s m a (inr u) = ground arith

-- The bytes of a doubleword that was put together from bytes.
long_bytes :
    (a b c d : ℕ)
    → a < 256
    → b < 256
    → c < 256
    → d < 256
    → let w = a + 2 ^ 8 * b + 2 ^ 16 * c + 2 ^ 24 * d in
      (w % 256 ≡ a) × (w / 2 ^ 8 % 256 ≡ b) × (w / 2 ^ 16 % 256 ≡ c) × (w / 2 ^ 24 % 256 ≡ d)
long_bytes a b c d ha hb hc hd = omega arith

long-copied :
    (d s : ℕ) (m : Memory) (a : ℕ)
    → Bytewise m
    → store_long d (load_long s m) m a ≡ copied d s 4 m a
unfolding store_long load_long copied store
long-copied d s m a v =
    let l = long_bytes (m s) (m (s + 1)) (m (s + 2)) (m (s + 3)) (v _) (v _) (v _) (v _) in
    rw (l.0, l.1, l.2, l.3) (ground arith)

copied-Bytewise : (n d s : ℕ) (m : Memory) → Bytewise m → Bytewise (copied d s n m)
unfolding copied
copied-Bytewise n d s m v a = ground (arith, v a, v (s + (a - d)))

Upward-drop : (k n d s : ℕ) → Upward d s (k + n) → Upward (d + k) (s + k) n
Upward-drop k n d s (inl u) = inl (omega arith)
Upward-drop k n d s (inr u) = inr (omega arith)

-- A doubleword, and the rest after it.
long_first :
    (n d s : ℕ) (m : Memory) (a : ℕ)
    → Bytewise m
    → Upward d s (4 + n)
    → copied (d + 4) (s + 4) n (store_long d (load_long s m) m) a ≡ copied d s (4 + n) m a
long_first n d s m a v u =
    ap (λ (f : Memory). copied (d + 4) (s + 4) n f a) (fun_ext (λ b. long-copied d s m b v))
    ∙ copied-append 4 n d s m a u

long-Bytewise : (d s : ℕ) (m : Memory) → Bytewise m → Bytewise (store_long d (load_long s m) m)
long-Bytewise d s m v a = rw (long-copied d s m a v) (copied-Bytewise 4 d s m v a)

movsl_step :
    (n d s : ℕ) (m : Memory)
    → d + 4 < 2 ^ 32
    → s + 4 < 2 ^ 32
    → rep_movsl (suc n) d s m ≡ rep_movsl n (d + 4) (s + 4) (store_long d (load_long s m) m)
unfolding rep_movsl
movsl_step n d s m h l =
    ap₂ (λ x y. rep_movsl n x y (store_long d (load_long s m) m)) (add_reg-small d 4 h)
      (add_reg-small s 4 l)

words-copied :
    (n k d s : ℕ) (m : Memory) (a : ℕ)
    → Bytewise m
    → d + (n * 4 + k) ≤ 2 ^ 32
    → s + (n * 4 + k) ≤ 2 ^ 32
    → Upward d s (n * 4 + k)
    → let words = rep_movsl n d s m in
      memcpy_bottom k words.0 words.1 words.2 a ≡ copied d s (n * 4 + k) m a
unfolding rep_movsl
words-copied zero k d s m a v h l u =
    let all : 0 * 4 + k ≡ k = omega arith in
    rw all (bottom-copied k d s m a (omega arith) (omega arith) (rw all at u))
words-copied (suc zero) zero d s m a v h l u = unfold memcpy_bottom in long-copied d s m a v
words-copied (suc zero) (suc k) d s m a v h l u =
    let all : 1 * 4 + suc k ≡ 4 + suc k = omega arith in
    rw (all, add_reg-small d 4 (omega arith), add_reg-small s 4 (omega arith))
      (bottom-copied (suc k) (d + 4) (s + 4) (store_long d (load_long s m) m) a (omega arith)
          (omega arith) (Upward-drop 4 (suc k) d s (rw all at u))
        ∙ long_first (suc k) d s m a v (rw all at u))
words-copied (suc (suc n)) k d s m a v h l u =
    let all : suc (suc n) * 4 + k ≡ 4 + (suc n * 4 + k) = omega arith in
    rw all (
      ap (λ (w : ℕ × ℕ × Memory). memcpy_bottom k w.0 w.1 w.2 a)
        (movsl_step (suc n) d s m (omega arith) (omega arith))
      ∙ words-copied (suc n) k (d + 4) (s + 4) (store_long d (load_long s m) m) a
          (long-Bytewise d s m v) (omega arith) (omega arith)
          (Upward-drop 4 (suc n * 4 + k) d s (rw all at u))
      ∙ long_first (suc n * 4 + k) d s m a v (rw all at u))

aligned-copied :
    (n d s : ℕ) (m : Memory) (a : ℕ)
    → Bytewise m
    → d + n ≤ 2 ^ 32
    → s + n ≤ 2 ^ 32
    → Upward d s n
    → memcpy_aligned n d s m a ≡ copied d s n m a
unfolding memcpy_aligned
aligned-copied n d s m a v h l u =
    let whole : n / 4 * 4 + n % 4 ≡ n = omega arith in
    words-copied (n / 4) (n % 4) d s m a v (omega arith) (omega arith) (rw whole u)
    ∙ ap (λ k. copied d s k m a) whole

top-copied :
    (n d s : ℕ) (m : Memory) (a : ℕ)
    → Bytewise m
    → d + n ≤ 2 ^ 32
    → s + n ≤ 2 ^ 32
    → Upward d s n
    → memcpy_top n d s m a ≡ copied d s n m a
unfolding memcpy_top
top-copied zero d s m a v h l u = sym (copied_none d s m a)
top-copied (suc zero) d s m a v h l u = elim (Bool-cases (d % 4 == 0)) [
  | inl at ↦ rw at (aligned-copied 1 d s m a v h l u)
  | inr off ↦
      rw off (sym (copied_none (d + 1) (s + 1) (store d (m s) m) a) ∙ copied_first 0 d s m a u)
]
top-copied (suc (suc n)) d s m a v h l u = elim (Bool-cases (d % 4 == 0)) [
  | inl at ↦ rw at (aligned-copied (suc (suc n)) d s m a v h l u)
  | inr off ↦
      rw (off, add_reg-small d 1 (omega arith), add_reg-small s 1 (omega arith))
        (top-copied (suc n) (d + 1) (s + 1) (store d (m s) m) a (Bytewise-store d (m s) m (v s) v)
            (omega arith) (omega arith) (Upward-next (suc n) d s u)
          ∙ copied_first (suc n) d s m a u)
]

-- memcpy in a memory of bytes, on ranges that do not reach past the last address, with the destination
-- below the source, at it, or behind all of it: each of the n bytes from dest on becomes the byte that
-- the source's range held there before the call, however dest is aligned, and every other byte of memory
-- is as it was.
pub memcpy_lem :
    (dest src n : ℕ) (m : Memory) (a : ℕ)
    → Bytewise m
    → dest + n ≤ 2 ^ 32
    → src + n ≤ 2 ^ 32
    → Upward dest src n
    → memcpy dest src n m a ≡ (if leb dest a && ltb a (dest + n) then m (src + (a - dest)) else m a)
unfolding memcpy copied
memcpy_lem dest src n m a v h l u = top-copied n dest src m a v h l u
