-- ===== src/Text/Digits.antt =====
-- itoa against the reading of a number from its digits, and the length of what it writes.
use mathlib.Core.Path.{subst}
use mathlib.Core.List.{reverse, reverse-cons}
use native.Mathlib.Nat.{mod-add-div, div-lt_self, div-lt_iff_lt-mul, pow-suc, pow-zero}
use linux_like_os_project.Prelude.{
  ℕ, zero, suc, ◌+◌, ◌-◌, ◌*◌, ◌/◌, ◌%◌, ◌^◌, ◌≤◌, ◌<◌, ◌≡◌, ◌≢◌, refl, sym, ap, ◌∙◌, List, [], ◌∷◌,
  ◌++◌, ltb, ◌==◌, if◌then◌else◌, length, length-append, ==_iff, false, Bool-cases, inl, inr, arith,
}
use linux_like_os_project.Text.{strlen, digit, itoa_loop, itoa}
use linux_like_os_project.Text.Length.{string_of}
use linux_like_os_project.Text.Reverse.{NoNul, strrev_lem, strlen-append_nul, length-reverse}

-- What a digit or a capital letter stands for.
unfoldable pub digit_value : ℕ → ℕ
digit_value c = if ltb c 58 then c - 48 else c - 55

-- A number read from its digits, the highest first.
unfoldable pub parse : ℕ → ℕ → List ℕ → ℕ
parse acc radix [] = acc
parse acc radix (c ∷ s) = parse (acc * radix + digit_value c) radix s

-- The same, the lowest first.
low_first : ℕ → List ℕ → ℕ
low_first radix [] = 0
low_first radix (c ∷ s) = digit_value c + radix * low_first radix s

digit_value-digit : (i : ℕ) → i < 36 → digit_value (digit i) ≡ i
unfolding digit_value digit
digit_value-digit i h = ground arith

digit-ne_nul : (i : ℕ) → digit i ≢ 0
unfolding digit
digit-ne_nul i = ground arith

parse-append :
    (acc radix : ℕ) (s : List ℕ) (c : ℕ)
    → parse acc radix (s ++ (c ∷ [])) ≡ parse acc radix s * radix + digit_value c
unfolding parse
parse-append acc radix [] c = refl
parse-append acc radix (d ∷ s) c = parse-append (acc * radix + digit_value d) radix s c

parse-reverse : (radix : ℕ) (s : List ℕ) → parse 0 radix (reverse s) ≡ low_first radix s
unfolding parse low_first
parse-reverse radix [] = refl
parse-reverse radix (c ∷ s) =
    ap (λ t. parse 0 radix t) (reverse-cons c s)
    ∙ parse-append 0 radix (reverse s) c
    ∙ rw (parse-reverse radix s) (grind arith)

smaller : (v radix : ℕ) → v ≢ 0 → 2 ≤ radix → v / radix < v
smaller v radix h k = div-lt_self (omega arith) (omega arith)

low_first-itoa_loop :
    (f v radix : ℕ) → v < f → 2 ≤ radix → radix ≤ 36 → low_first radix (itoa_loop f v radix) ≡ v
unfolding low_first itoa_loop
low_first-itoa_loop zero v radix h k l = absurd (omega arith)
low_first-itoa_loop (suc f) v radix h k l = elim (Bool-cases (v == 0)) [
  | inl none_left ↦ rw none_left (ground arith)
  | inr more ↦
      let below : v / radix < v = smaller v radix (ground (arith, more)) k in
      rw
        (
          more,
          digit_value-digit (v % radix) (omega arith),
          low_first-itoa_loop f (v / radix) radix (omega arith) k l,
        )
        (mod-add-div v radix)
]

NoNul-itoa_loop : (f v radix : ℕ) → NoNul (itoa_loop f v radix)
unfolding itoa_loop
NoNul-itoa_loop zero v radix = tt
NoNul-itoa_loop (suc f) v radix = elim (Bool-cases (v == 0)) [
  | inl none_left ↦ rw none_left tt
  | inr more ↦ rw more (digit-ne_nul (v % radix), NoNul-itoa_loop f (v / radix) radix)
]

fewer : (k v radix : ℕ) → 2 ≤ radix → v < radix ^ suc k → v / radix < radix ^ k
fewer k v radix h l = (div-lt_iff_lt-mul (omega arith)).1 (subst (λ n. v < n) (pow-suc radix k) l)

length-itoa_loop : (f k v radix : ℕ) → 2 ≤ radix → v < radix ^ k → length (itoa_loop f v radix) ≤ k
unfolding itoa_loop
length-itoa_loop zero k v radix h l = omega arith
length-itoa_loop (suc f) zero v radix h l =
    let none_left : v ≡ 0 = omega (arith, subst (λ n. v < n) (pow-zero radix) l) in
    rw none_left (omega arith)
length-itoa_loop (suc f) (suc k) v radix h l = elim (Bool-cases (v == 0)) [
  | inl none_left ↦ rw none_left (omega arith)
  | inr more ↦
      rw more (omega (arith, length-itoa_loop f k (v / radix) radix h (fewer k v radix h l)))
]

NoNul-append : (s t : List ℕ) → NoNul s → NoNul t → NoNul (s ++ t)
NoNul-append [] t h k = k
NoNul-append (c ∷ s) t h k = (h.0, NoNul-append s t h.1 k)

NoNul-reverse : (s : List ℕ) → NoNul s → NoNul (reverse s)
NoNul-reverse [] h = tt
NoNul-reverse (c ∷ s) h =
    subst NoNul (sym (reverse-cons c s))
      (NoNul-append (reverse s) (c ∷ []) (NoNul-reverse s h.1) (h.0, tt))

string_of-nul : (s rest : List ℕ) → NoNul s → string_of (s ++ (0 ∷ rest)) ≡ s
unfolding string_of
string_of-nul [] rest h = refl
string_of-nul (c ∷ s) rest h = ground (arith, string_of-nul s rest h.1)

itoa-zero : (radix : ℕ) → itoa 0 radix ≡ 48 ∷ 0 ∷ []
unfolding itoa
itoa-zero radix = refl

zero_read : (radix : ℕ) → parse 0 radix (string_of (48 ∷ 0 ∷ [])) ≡ 0
unfolding string_of parse digit_value
zero_read radix = grind arith

-- The digits, the highest first, and the terminator.
itoa-reverse :
    (v radix : ℕ) → v ≢ 0 → itoa v radix ≡ reverse (itoa_loop (v + 1) v radix) ++ (0 ∷ [])
unfolding itoa
itoa-reverse v radix h =
    let more : (v == 0) ≡ false = ground arith in
    rw more (strrev_lem (itoa_loop (v + 1) v radix) [] (NoNul-itoa_loop (v + 1) v radix))

-- itoa with a radix from 2 to 36 writes the number's digits: read back in that radix, the string in the
-- buffer gives the number.
pub itoa_lem :
    (value radix : ℕ)
    → 2 ≤ radix
    → radix ≤ 36
    → parse 0 radix (string_of (itoa value radix)) ≡ value
itoa_lem value radix h k = elim (Bool-cases (value == 0)) [
  | inl none_left ↦
      subst (λ v. parse 0 radix (string_of (itoa v radix)) ≡ v) (sym ((==_iff _ _).0 none_left))
        (rw (itoa-zero radix) (zero_read radix))
  | inr more ↦
      let digits = itoa_loop (value + 1) value radix in
      rw (itoa-reverse value radix (ground (arith, more))) (
        ap (λ t. parse 0 radix t)
          (string_of-nul (reverse digits) []
            (NoNul-reverse digits (NoNul-itoa_loop (value + 1) value radix)))
        ∙ parse-reverse radix digits
        ∙ low_first-itoa_loop (value + 1) value radix (omega arith) h k)
]

-- itoa writes no more than k digits and a terminator for a number below radix ^ k, with a radix of 2 at
-- least and k at least 1. So the 32-bit numbers that printf converts, below 16 ^ 8 and 10 ^ 10, take 9
-- and 11 bytes.
pub length-itoa-le :
    (value radix k : ℕ) → 2 ≤ radix → 1 ≤ k → value < radix ^ k → length (itoa value radix) ≤ k + 1
length-itoa-le value radix k h one l = elim (Bool-cases (value == 0)) [
  | inl none_left ↦
      subst (λ v. length (itoa v radix) ≤ k + 1) (sym ((==_iff _ _).0 none_left))
        (rw (itoa-zero radix) (omega arith))
  | inr more ↦ rw (itoa-reverse value radix (ground (arith, more))) (
      omega (
        arith,
        length-append (reverse (itoa_loop (value + 1) value radix)) (0 ∷ []),
        length-reverse (itoa_loop (value + 1) value radix),
        length-itoa_loop (value + 1) k value radix h l,
      ))
]

-- The string is shorter than the bytes that hold it.
pub strlen-itoa-le :
    (value radix k : ℕ) → 2 ≤ radix → 1 ≤ k → value < radix ^ k → strlen (itoa value radix) ≤ k
strlen-itoa-le value radix k h one l = elim (Bool-cases (value == 0)) [
  | inl none_left ↦
      subst (λ v. strlen (itoa v radix) ≤ k) (sym ((==_iff _ _).0 none_left))
        (rw (itoa-zero radix) (unfold strlen in one))
  | inr more ↦ rw (itoa-reverse value radix (ground (arith, more))) (
      omega (
        arith,
        strlen-append_nul (reverse (itoa_loop (value + 1) value radix)) []
            (NoNul-reverse _ (NoNul-itoa_loop (value + 1) value radix)),
        length-reverse (itoa_loop (value + 1) value radix),
        length-itoa_loop (value + 1) k value radix h l,
      ))
]
