-- ===== src/Memory/Fill.antt =====
-- memset against the filling of a range.
use linux_like_os_project.Prelude.{
  ℕ, zero, suc, ◌+◌, ◌*◌, ◌/◌, ◌%◌, ◌^◌, ◌≤◌, ◌<◌, ◌≡◌, refl, ap, ◌∙◌, Memory, store, load-store,
  leb, ltb, ◌==◌, ==_iff, ◌&&◌, if◌then◌else◌, Bool-cases, inl, inr, true, arith,
}
use linux_like_os_project.Prelude.Table.{every, every_lem}
use linux_like_os_project.Memory.{
  add_reg, store_long, rep_stosl, memset_bottom, memset_aligned, memset_top, spread, memset,
}

-- The memory after `n` bytes from `s` on are set to `b`.
unfoldable pub filled : ℕ → ℕ → ℕ → Memory → Memory
filled s n b m a = if leb s a && ltb a (s + n) then b else m a

bottom-filled :
    (n edi b : ℕ) (m : Memory) (a : ℕ)
    → edi + n ≤ 2 ^ 32
    → memset_bottom n edi b m a ≡ filled edi n b m a
unfolding memset_bottom filled add_reg
bottom-filled zero edi b m a h = ground arith
bottom-filled (suc n) edi b m a h =
    ground (arith, bottom-filled n ((edi + 1) % 2 ^ 32) b (store edi b m) a, load-store edi b m a)

-- The four bytes of a word of one byte.
word_table : every 256 (λ c. spread c == c * 16843009) ≡ true
unfolding every spread
word_table = refl

spread_bytes : (c : ℕ) → c < 256 → spread c ≡ c * 16843009
spread_bytes c h = (==_iff _ _).0 (every_lem 256 (λ c. spread c == c * 16843009) c word_table h)

long-filled :
    (edi b : ℕ) (m : Memory) (a : ℕ)
    → b < 256
    → store_long edi (b * 16843009) m a ≡ filled edi 4 b m a
unfolding store_long filled store
long-filled edi b m a h = ground arith

words-filled :
    (n k edi b : ℕ) (m : Memory) (a : ℕ)
    → b < 256
    → edi + (n * 4 + k) ≤ 2 ^ 32
    → let words = rep_stosl n edi (b * 16843009) m in
      memset_bottom k words.0 b words.1 a ≡ filled edi (n * 4 + k) b m a
unfolding rep_stosl filled add_reg
words-filled zero k edi b m a hb h = ground (arith, bottom-filled k edi b m a)
words-filled (suc n) k edi b m a hb h = ground (
  arith,
  words-filled n k ((edi + 4) % 2 ^ 32) b (store_long edi (b * 16843009) m) a,
  long-filled edi b m a,
)

aligned-filled :
    (n edi b : ℕ) (m : Memory) (a : ℕ)
    → b < 256
    → edi + n ≤ 2 ^ 32
    → memset_aligned n edi (b * 16843009) m a ≡ filled edi n b m a
unfolding memset_aligned
aligned-filled n edi b m a hb h =
    let low : b * 16843009 % 256 ≡ b = omega arith in
    let whole : n / 4 * 4 + n % 4 ≡ n = omega arith in
    rw low (
      words-filled (n / 4) (n % 4) edi b m a hb (omega (arith, h))
      ∙ ap (λ k. filled edi k b m a) whole)

top-filled :
    (n edi b : ℕ) (m : Memory) (a : ℕ)
    → b < 256
    → edi + n ≤ 2 ^ 32
    → memset_top n edi (b * 16843009) m a ≡ filled edi n b m a
unfolding memset_top filled add_reg
top-filled zero edi b m a hb h = ground arith
top-filled (suc n) edi b m a hb h = elim (Bool-cases (edi % 4 == 0)) [
  | inl at ↦ rw at (unfold filled in aligned-filled (suc n) edi b m a hb h)
  | inr off ↦
      let low : b * 16843009 % 256 ≡ b = omega arith in
      rw (off, low)
        (ground
          (arith, top-filled n ((edi + 1) % 2 ^ 32) b (store edi b m) a, load-store edi b m a))
]

-- memset on a range that does not reach past the last address: each of the n bytes from s on becomes the
-- low byte of c, however s is aligned, and every other byte of memory is as it was.
pub memset_lem :
    (s c n : ℕ) (m : Memory) (a : ℕ)
    → s + n ≤ 2 ^ 32
    → memset s c n m a ≡ (if leb s a && ltb a (s + n) then c % 256 else m a)
unfolding memset filled
memset_lem s c n m a h =
    rw (spread_bytes (c % 256) (omega arith)) (top-filled n s (c % 256) m a (omega arith) h)
