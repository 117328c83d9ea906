-- ===== src/Memory/Move.antt =====
-- memmove against the copying of a range that may overlap its source.
use linux_like_os_project.Prelude.{
  ℕ, zero, suc, ◌+◌, ◌-◌, ◌^◌, ◌≤◌, ◌<◌, ◌≡◌, sym, ap₂, ◌∙◌, Memory, store, leb, ltb, ◌&&◌,
  if◌then◌else◌, Bool-cases, inl, inr, true, false, arith,
}
use linux_like_os_project.Memory.{add_reg, rep_movsb, memmove}
use linux_like_os_project.Memory.Copy.{copied, copied_none, copied_first, add_reg-small}

up-copied :
    (n d s : ℕ) (m : Memory) (a : ℕ)
    → d ≤ s
    → s + n ≤ 2 ^ 32
    → rep_movsb false n d s m a ≡ copied d s n m a
unfolding rep_movsb
up-copied zero d s m a u l = sym (copied_none d s m a)
up-copied (suc zero) d s m a u l =
    sym (copied_none (d + 1) (s + 1) (store d (m s) m) a) ∙ copied_first 0 d s m a (inl u)
up-copied (suc (suc n)) d s m a u l =
    rw (add_reg-small d 1 (omega arith), add_reg-small s 1 (omega arith))
      (up-copied (suc n) (d + 1) (s + 1) (store d (m s) m) a (omega arith) (omega arith)
        ∙ copied_first (suc n) d s m a (inl u))

-- The last byte, and the rest before it.
copied_last :
    (n d s : ℕ) (m : Memory) (a : ℕ)
    → s ≤ d
    → copied d s n (store (d + n) (m (s + n)) m) a ≡ copied d s (suc n) m a
unfolding copied store
copied_last n d s m a u = ground arith

back_reg : (r n : ℕ) → r + suc n < 2 ^ 32 → add_reg (r + suc n) (2 ^ 32 - 1) ≡ r + n
unfolding add_reg
back_reg r n h = omega arith

down-copied :
    (n d s : ℕ) (m : Memory) (a : ℕ)
    → s ≤ d
    → d + suc n ≤ 2 ^ 32
    → rep_movsb true (suc n) (d + n) (s + n) m a ≡ copied d s (suc n) m a
unfolding rep_movsb
down-copied zero d s m a u h =
    sym (copied_none d s (store (d + 0) (m (s + 0)) m) a) ∙ copied_last 0 d s m a u
down-copied (suc n) d s m a u h =
    ap₂ (λ x y. rep_movsb true (suc n) x y (store (d + suc n) (m (s + suc n)) m) a)
      (back_reg d n (omega arith)) (back_reg s n (omega arith))
    ∙ down-copied n d s (store (d + suc n) (m (s + suc n)) m) a u (omega arith)
    ∙ copied_last (suc n) d s m a u

-- `leal -1(%edi, %ecx)`.
end_reg : (r n : ℕ) → r + suc n ≤ 2 ^ 32 → add_reg (add_reg r (suc n)) (2 ^ 32 - 1) ≡ r + n
unfolding add_reg
end_reg r n h = omega arith

-- memmove on ranges that do not reach past the last address, which may overlap in any way: each of the n
-- bytes from dest on becomes the byte that the source's range held there before the call, and every other
-- byte of memory is as it was; the call leaves the direction flag set exactly when dest is above src.
pub memmove_lem :
    (dest src n : ℕ) (m : Memory) (a : ℕ)
    → dest + n ≤ 2 ^ 32
    → src + n ≤ 2 ^ 32
    → ((memmove dest src n m).0 a
        ≡ (if leb dest a && ltb a (dest + n) then m (src + (a - dest)) else m a))
      × ((memmove dest src n m).1 ≡ ltb src dest)
unfolding memmove copied
memmove_lem dest src zero m a h l = elim (Bool-cases (leb dest src)) [
  | inl low ↦ rw low (up-copied 0 dest src m a (ground (arith, low)) l, ground (arith, low))
  | inr high ↦ rw high (sym (copied_none dest src m a), ground (arith, high))
]
memmove_lem dest src (suc n) m a h l = elim (Bool-cases (leb dest src)) [
  | inl low ↦ rw low (up-copied (suc n) dest src m a (ground (arith, low)) l, ground (arith, low))
  | inr high ↦
      rw (high, end_reg dest n h, end_reg src n l)
        (down-copied n dest src m a (ground (arith, high)) h, ground (arith, high))
]
