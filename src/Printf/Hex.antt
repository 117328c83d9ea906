-- ===== src/Printf/Hex.antt =====
-- What %#x prints.
use linux_like_os_project.Prelude.{
  ℕ, zero, suc, ◌-◌, ◌^◌, ◌<◌, ◌≡◌, refl, ap, ◌∙◌, List, ◌∷◌, ◌++◌, length, length-append,
  length-replicate, replicate, arith,
}
use linux_like_os_project.Text.{strlen, itoa}
use linux_like_os_project.Text.Length.{string_of, strlen-eq-length}
use linux_like_os_project.Text.Digits.{parse, digit_value, itoa_lem, strlen-itoa-le}
use linux_like_os_project.Printf.{padded_hex}

string_of-zeros :
    (n : ℕ) (s : List ℕ) → string_of (replicate n 48 ++ s) ≡ replicate n 48 ++ string_of s
unfolding string_of
string_of-zeros zero s = refl
string_of-zeros (suc n) s = ap (λ t. 48 ∷ t) (string_of-zeros n s)

parse-zeros : (n : ℕ) (s : List ℕ) → parse 0 16 (replicate n 48 ++ s) ≡ parse 0 16 s
unfolding parse digit_value
parse-zeros zero s = refl
parse-zeros (suc n) s = parse-zeros n s

-- For a 32-bit number, %#x prints eight digits, which read as the number in hexadecimal.
pub padded_hex_lem :
    (value : ℕ)
    → value < 2 ^ 32
    → (length (string_of (padded_hex value)) ≡ 8)
      × (parse 0 16 (string_of (padded_hex value)) ≡ value)
unfolding padded_hex
padded_hex_lem value h =
    let digits = itoa value 16 in
    rw (string_of-zeros (8 - strlen digits) digits) (
      omega (
        arith,
        length-append (replicate (8 - strlen digits) 48) (string_of digits),
        length-replicate {A = ℕ} (8 - strlen digits) 48,
        strlen-eq-length digits,
        strlen-itoa-le value 16 8 (omega arith) (omega arith) (omega (arith, h)),
      ),
      parse-zeros (8 - strlen digits) (string_of digits)
          ∙ itoa_lem value 16 (omega arith) (omega arith),
    )
