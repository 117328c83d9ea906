-- ===== src/Text/Reverse.antt =====
-- strrev against the reversal of a list.
use mathlib.Core.List.{reverse, reverse-cons}
use linux_like_os_project.Prelude.{
  ℕ, zero, suc, ◌+◌, ◌-◌, ◌≤◌, ◌<◌, ◌≡◌, ◌≢◌, refl, ap, ap₂, ◌∙◌, List, [], ◌∷◌, ◌++◌, ltb, leb,
  ◌==◌, ◌&&◌, if◌then◌else◌, get_or, get_or-set, set, length, length-set, length-append, Bool-cases,
  inl, inr, arith,
}
use linux_like_os_project.Text.{strlen, strrev_loop, strrev}

-- Two lists of one length with the same elements.
list_eq : (s t : List ℕ) → length s ≡ length t → ((i : ℕ) → get_or s i 0 ≡ get_or t i 0) → s ≡ t
list_eq [] [] e h = refl
list_eq [] (y ∷ t) e h = absurd (omega (arith, e))
list_eq (x ∷ s) [] e h = absurd (omega (arith, e))
list_eq (x ∷ s) (y ∷ t) e h = ap₂ ◌∷◌ (h 0) (list_eq s t (omega (arith, e)) (λ i. h (suc i)))

swapped :
    (b e : ℕ) (s : List ℕ) (i : ℕ)
    → b < length s
    → e < length s
    → get_or (set (set s e (get_or s b 0)) b (get_or s e 0)) i 0
      ≡ (if b == i then get_or s e 0 else (if e == i then get_or s b 0 else get_or s i 0))
swapped b e s i hb he = ground (
  arith,
  get_or-set (set s e (get_or s b 0)) b i (get_or s e 0) 0,
  get_or-set s e i (get_or s b 0) 0,
  length-set s e (get_or s b 0),
)

length-strrev_loop : (f b e : ℕ) (s : List ℕ) → length (strrev_loop f b e s) ≡ length s
unfolding strrev_loop
length-strrev_loop zero b e s = refl
length-strrev_loop (suc f) b e s = ground (
  arith,
  length-strrev_loop f (b + 1) (e - 1) (set (set s e (get_or s b 0)) b (get_or s e 0)),
  length-set (set s e (get_or s b 0)) b (get_or s e 0),
  length-set s e (get_or s b 0),
)

-- Where there is nothing to swap.
unchanged :
    (b e : ℕ) (s : List ℕ) (i : ℕ)
    → e ≤ b
    → get_or s i 0 ≡ (if leb b i && leb i e then get_or s (b + e - i) 0 else get_or s i 0)
unchanged b e s i h = elim (Bool-cases (leb b i && leb i e)) [
  | inl at ↦ let same : b + e - i ≡ i = ground (arith, at) in rw (at, same) refl
  | inr off ↦ rw off refl
]

-- One swap, and the reversal of what lies between.
inner :
    (b e : ℕ) (s : List ℕ) (i : ℕ)
    → b < e
    → e < length s
    → let t = set (set s e (get_or s b 0)) b (get_or s e 0) in
      (if leb (b + 1) i && leb i (e - 1) then get_or t (b + 1 + (e - 1) - i) 0 else get_or t i 0)
      ≡ (if leb b i && leb i e then get_or s (b + e - i) 0 else get_or s i 0)
inner b e s i h l =
    let mid : b + 1 + (e - 1) - i ≡ b + e - i = omega arith in
    rw mid
      (ground (arith, swapped b e s i (omega arith) l, swapped b e s (b + e - i) (omega arith) l))

-- The elements after the loop, with rounds enough.
strrev_loop_at :
    (f b e : ℕ) (s : List ℕ) (i : ℕ)
    → e < length s
    → e ≤ b + f
    → get_or (strrev_loop f b e s) i 0
      ≡ (if leb b i && leb i e then get_or s (b + e - i) 0 else get_or s i 0)
unfolding strrev_loop
strrev_loop_at zero b e s i h k = unchanged b e s i (omega (arith, k))
strrev_loop_at (suc f) b e s i h k = elim (Bool-cases (ltb b e)) [
  | inl more ↦
      let t = set (set s e (get_or s b 0)) b (get_or s e 0) in
      rw more (
        strrev_loop_at f (b + 1) (e - 1) t i
          (ground (
            arith,
            length-set (set s e (get_or s b 0)) b (get_or s e 0),
            length-set s e (get_or s b 0),
          ))
          (ground (arith, more))
        ∙ inner b e s i (ground (arith, more)) h)
  | inr done ↦ rw done (unchanged b e s i (ground (arith, done)))
]

get_or-append :
    (s t : List ℕ) (i : ℕ)
    → get_or (s ++ t) i 0 ≡ (if ltb i (length s) then get_or s i 0 else get_or t (i - length s) 0)
get_or-append [] t i = ground arith
get_or-append (x ∷ s) t zero = ground arith
get_or-append (x ∷ s) t (suc i) = ground (arith, get_or-append s t i)

pub length-reverse : (s : List ℕ) → length (reverse s) ≡ length s
length-reverse [] = refl
length-reverse (x ∷ s) =
    ap (λ (t : List ℕ). length t) (reverse-cons x s)
    ∙ omega (arith, length-append (reverse s) (x ∷ []), length-reverse s)

get_or-reverse :
    (s : List ℕ) (i : ℕ) → i < length s → get_or (reverse s) i 0 ≡ get_or s (length s - 1 - i) 0
get_or-reverse [] i h = absurd (omega arith)
get_or-reverse (x ∷ s) i h =
    ap (λ (t : List ℕ). get_or t i 0) (reverse-cons x s)
    ∙ get_or-append (reverse s) (x ∷ []) i
    ∙ rw (length-reverse s) (elim (Bool-cases (ltb i (length s))) [
      | inl low ↦
          let at : suc (length s) - 1 - i ≡ suc (length s - 1 - i) = ground (arith, low) in
          rw (low, at) (get_or-reverse s i (ground (arith, low)))
      | inr last ↦
          let at : suc (length s) - 1 - i ≡ 0 = ground (arith, last) in
          let from : i - length s ≡ 0 = ground (arith, last) in rw (last, at, from) refl
    ])

-- A string with no terminator inside.
abbrev pub NoNul : List ℕ → Type 0
NoNul [] = Unit {0}
NoNul (c ∷ s) = (c ≢ 0) × NoNul s

pub strlen-append_nul : (s rest : List ℕ) → NoNul s → strlen (s ++ (0 ∷ rest)) ≡ length s
unfolding strlen
strlen-append_nul [] rest h = refl
strlen-append_nul (c ∷ s) rest h = ground (arith, strlen-append_nul s rest h.1)

mirror : (n k i : ℕ) → n ≡ suc k → n - 1 - i ≡ 0 + k - i
mirror n k i e = omega arith

strrev_empty : (rest : List ℕ) → strrev (0 ∷ rest) ≡ 0 ∷ rest
unfolding strrev
strrev_empty rest = refl

loop-reverse :
    (s t : List ℕ) (k : ℕ) → length s ≡ suc k → strrev_loop (suc k) 0 k (s ++ t) ≡ reverse s ++ t
loop-reverse s t k e =
    list_eq _ _
      (omega (
        arith,
        length-strrev_loop (suc k) 0 k (s ++ t),
        length-append s t,
        length-append (reverse s) t,
        length-reverse s,
      ))
      (λ i.
        strrev_loop_at (suc k) 0 k (s ++ t) i (omega (arith, length-append s t)) (omega arith)
        ∙ (elim (Bool-cases (leb i k)) [
          | inl low ↦ ground (
            arith,
            get_or-append s t (0 + k - i),
            get_or-append (reverse s) t i,
            length-reverse s,
            get_or-reverse s i,
            ap (λ j. get_or s j 0) (mirror (length s) k i e),
          )
          | inr high ↦
              ground (arith, get_or-append s t i, get_or-append (reverse s) t i, length-reverse s)
        ]))

strrev-loop : (s : List ℕ) (k : ℕ) → strlen s ≡ suc k → strrev s ≡ strrev_loop (suc k) 0 k s
unfolding strrev
strrev-loop s k e = let last : suc k - 1 ≡ k = omega arith in rw (e, last) (ground arith)

-- strrev on a string in its buffer: the characters before the terminator are reversed, and the
-- terminator and what follows it stay.
pub strrev_lem : (s rest : List ℕ) → NoNul s → strrev (s ++ (0 ∷ rest)) ≡ reverse s ++ (0 ∷ rest)
strrev_lem [] rest h = strrev_empty rest
strrev_lem (c ∷ s) rest h =
    strrev-loop (c ∷ s ++ (0 ∷ rest)) (length s) (strlen-append_nul (c ∷ s) rest h)
    ∙ loop-reverse (c ∷ s) (0 ∷ rest) (length s) refl
