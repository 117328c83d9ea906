-- ===== src/Text/Compare.antt =====
-- strncmp and the strings that its arguments hold.
use linux_like_os_project.Prelude.{ℕ, zero, suc, ◌<◌, ◌≡◌, refl, ◌↔◌, List, [], ◌∷◌, arith, take}
use linux_like_os_project.Prelude.Int.{pos, ◌-ℤ◌}
use linux_like_os_project.Text.{strncmp, signed8}
use linux_like_os_project.Text.Length.{string_of}

-- Every element of the list is a byte.
abbrev pub Bytes : List ℕ → Type 0
Bytes [] = Unit {0}
Bytes (c ∷ s) = (c < 256) × Bytes s

signed8-sub : (a b : ℕ) → a < 256 → b < 256 → (signed8 a -ℤ signed8 b ≡ pos 0) ↔ (a ≡ b)
unfolding ◌-ℤ◌
signed8-sub a b ha hb = ground arith

step-back : (c : ℕ) (s t : List ℕ) → c ∷ s ≡ c ∷ t → s ≡ t
step-back c s t e = cc

-- With s1 and s2 of bytes, strncmp is zero exactly when the first n bytes hold one string.
pub strncmp-zero_iff :
    (s1 s2 : List ℕ) (n : ℕ)
    → Bytes s1
    → Bytes s2
    → (strncmp s1 s2 n ≡ pos 0) ↔ (string_of (take n s1) ≡ string_of (take n s2))
unfolding strncmp string_of
strncmp-zero_iff s1 s2 zero b1 b2 = ((λ _. refl), (λ _. refl))
strncmp-zero_iff [] [] (suc n) b1 b2 = ground arith
strncmp-zero_iff [] (d ∷ s2) (suc n) b1 b2 = ground (arith, signed8-sub 0 d)
strncmp-zero_iff (c ∷ s1) [] (suc n) b1 b2 = ground (arith, signed8-sub c 0)
strncmp-zero_iff (c ∷ s1) (d ∷ s2) (suc n) b1 b2 =
    ground (arith, signed8-sub c d, strncmp-zero_iff s1 s2 n)
