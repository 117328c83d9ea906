-- ===== src/Text/Length.antt =====
-- strlen and the string that a buffer holds, its bytes before the terminator.
use linux_like_os_project.Prelude.{
  ℕ, zero, suc, ◌≤◌, ◌≡◌, refl, List, [], ◌∷◌, arith, ◌==◌, if◌then◌else◌, length, take,
}
use linux_like_os_project.Text.{strlen}

-- The string in a buffer.
unfoldable pub string_of : List ℕ → List ℕ
string_of [] = []
string_of (c ∷ s) = if c == 0 then [] else c ∷ string_of s

pub strlen-eq-length : (s : List ℕ) → strlen s ≡ length (string_of s)
unfolding strlen string_of
strlen-eq-length [] = refl
strlen-eq-length (c ∷ s) = ground (arith, strlen-eq-length s)

-- A prefix that is long enough holds the same string.
pub string_of-take : (n : ℕ) (s : List ℕ) → strlen s ≤ n → string_of (take n s) ≡ string_of s
unfolding strlen string_of
string_of-take zero [] h = refl
string_of-take (suc n) [] h = refl
string_of-take zero (c ∷ s) h = ground arith
string_of-take (suc n) (c ∷ s) h = ground (arith, string_of-take n s)
