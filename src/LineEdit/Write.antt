-- ===== src/LineEdit/Write.antt =====
-- The loop of terminal_write on a well-formed console, and over text in two parts.
use linux_like_os_project.Prelude.{
  ℕ, ◌+◌, ◌<◌, ◌≤◌, ◌≡◌, ◌^◌, refl, sym, ap, ◌∙◌, List, [], ◌∷◌, ◌++◌, some, take, ◌==◌, ◌||◌, leb,
  true, false, inl, inr, Bool-cases, arith,
}
use linux_like_os_project.Prelude.Int.{pos}
use linux_like_os_project.Console.{Console, putc}
use linux_like_os_project.Console.Cursor.{IsConsole}
use linux_like_os_project.Console.Output.{Prints, Prints-refl, Prints-trans, putc-Prints}
use linux_like_os_project.LineEdit.{write_bytes, terminal_write}

-- The console after some bytes.
unfoldable pub print : List ℕ → Console → Console
unfolding write_bytes
print s c = (write_bytes s 0 c).1

write_bytes-nul :
    (b : ℕ) (s : List ℕ) (n : ℕ) (c : Console)
    → (b == 0) ≡ true
    → write_bytes (b ∷ s) n c ≡ write_bytes s n c
unfolding write_bytes
write_bytes-nul b s n c nul = rw (nul, write_bytes) refl

write_bytes-text :
    (b : ℕ) (s : List ℕ) (n : ℕ) (c : Console)
    → (b == 0) ≡ false
    → write_bytes (b ∷ s) n c ≡ write_bytes s (n + 1) (putc b c)
unfolding write_bytes
write_bytes-text b s n c text = rw (text, write_bytes) refl

-- The count has no part in what is printed.
pub write_bytes-eq : (s : List ℕ) (n : ℕ) (c : Console) → (write_bytes s n c).1 ≡ print s c
unfolding print write_bytes
write_bytes-eq [] n c = refl
write_bytes-eq (b ∷ s) n c = elim (Bool-cases (b == 0)) [
  | inl nul ↦
      ap (λ (r : ℕ × Console). r.1) (write_bytes-nul b s n c nul)
      ∙ write_bytes-eq s n c
      ∙ ap (λ (r : ℕ × Console). r.1) (sym (write_bytes-nul b s 0 c nul))
  | inr text ↦
      ap (λ (r : ℕ × Console). r.1) (write_bytes-text b s n c text)
      ∙ write_bytes-eq s (n + 1) (putc b c)
      ∙ sym (write_bytes-eq s (0 + 1) (putc b c))
      ∙ ap (λ (r : ℕ × Console). r.1) (sym (write_bytes-text b s 0 c text))
]

print-nul : (b : ℕ) (s : List ℕ) (c : Console) → (b == 0) ≡ true → print (b ∷ s) c ≡ print s c
unfolding print
print-nul b s c nul = ap (λ (r : ℕ × Console). r.1) (write_bytes-nul b s 0 c nul)

print-text :
    (b : ℕ) (s : List ℕ) (c : Console) → (b == 0) ≡ false → print (b ∷ s) c ≡ print s (putc b c)
unfolding print
print-text b s c text =
    ap (λ (r : ℕ × Console). r.1) (write_bytes-text b s 0 c text)
    ∙ write_bytes-eq s (0 + 1) (putc b c)

pub print-nil : (c : Console) → print [] c ≡ c
unfolding print write_bytes
print-nil c = refl

pub print-append : (s t : List ℕ) (c : Console) → print (s ++ t) c ≡ print t (print s c)
print-append [] t c = ap (print t) (sym (print-nil c))
print-append (b ∷ s) t c = elim (Bool-cases (b == 0)) [
  | inl nul ↦
      print-nul b (s ++ t) c nul ∙ print-append s t c ∙ ap (print t) (sym (print-nul b s c nul))
  | inr text ↦
      print-text b (s ++ t) c text
      ∙ print-append s t (putc b c)
      ∙ ap (print t) (sym (print-text b s c text))
]

pub print-Prints : (s : List ℕ) {c : Console} → IsConsole c → Prints c (print s c)
print-Prints [] {c} v = rw (print-nil c) (Prints-refl v)
print-Prints (b ∷ s) {c} v = elim (Bool-cases (b == 0)) [
  | inl nul ↦ rw (print-nul b s c nul) (print-Prints s v)
  | inr text ↦
      let p = putc-Prints b v in
      rw (print-text b s c text) (Prints-trans p (print-Prints s p.formed))
]

-- terminal_write of a positive count.
pub terminal_write-eq :
    (s : List ℕ) (n : ℕ) (c : Console)
    → 1 ≤ n
    → n < 2 ^ 31
    → terminal_write (some s) n c ≡ (pos (write_bytes (take n s) 0 c).0, print (take n s) c)
unfolding terminal_write print
terminal_write-eq s n c h l =
    let inside : ((n == 0) || leb (2 ^ 31) n) ≡ false = ground (arith, h, l) in rw inside refl
