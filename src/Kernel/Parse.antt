-- ===== src/Kernel/Parse.antt =====
-- The command line of system_execute of student-distrib/syscalls.c against a program's name and its arguments
-- set among spaces.
use mathlib.Core.List.{append-nil}
use linux_like_os_project.Prelude.{
  ℕ, zero, suc, ◌+◌, ◌-◌, ◌<◌, ◌≤◌, ◌≡◌, ◌≢◌, refl, sym, ap, ap₂, ◌∙◌, List, [], ◌∷◌, ◌++◌, Option,
  none, some, ◌==◌, true, false, Bool-cases, inl, inr, get_or, length, replicate, arith,
}
use linux_like_os_project.FileSys.{filename_len}
use linux_like_os_project.Kernel.Command.{
  space, skip_spaces, count_spaces, read_name, only_spaces, copy_args, parse_command,
}

-- Bytes without a terminator, and bytes without a terminator or a space.
abbrev pub IsLine : List ℕ → Type 0
IsLine [] = Unit {0}
IsLine (c ∷ s) = (c ≢ 0) × IsLine s

abbrev pub IsWord : List ℕ → Type 0
IsWord [] = Unit {0}
IsWord (c ∷ s) = (c ≢ 0) × (c ≢ space) × IsWord s

skip-replicate : (n : ℕ) (s : List ℕ) → skip_spaces (replicate n space ++ s) ≡ skip_spaces s
unfolding skip_spaces
skip-replicate zero s = refl
skip-replicate (suc n) s = skip-replicate n s

skip-start : (s : List ℕ) → get_or s 0 0 ≢ space → skip_spaces s ≡ s
unfolding skip_spaces
skip-start [] h = refl
skip-start (c ∷ s) h = let other : (c == space) ≡ false = ground (arith, h) in rw other refl

skip-all : (n : ℕ) → skip_spaces (replicate n space) ≡ []
unfolding skip_spaces
skip-all zero = refl
skip-all (suc n) = skip-all n

count-replicate :
    (n c : ℕ) (s : List ℕ) → c ≢ space → count_spaces (replicate n space ++ (c ∷ s)) ≡ n
unfolding count_spaces
count-replicate zero c s h = let other : (c == space) ≡ false = ground (arith, h) in rw other refl
count-replicate (suc n) c s h = ap suc (count-replicate n c s h)

-- The name, up to a space or to the end.
read_name-space :
    (n : ℕ) (w s : List ℕ)
    → length w < n
    → IsWord w
    → read_name n (w ++ (space ∷ s)) ≡ (w, some (skip_spaces s))
unfolding read_name
read_name-space zero w s h v = absurd (omega arith)
read_name-space (suc n) [] s h v = refl
read_name-space (suc n) (c ∷ w) s h v =
    let a : (c == 0) ≡ false = ground (arith, v.0) in
    let b : (c == space) ≡ false = ground (arith, v.1) in
    rw (a, b)
      (ap (λ (r : List ℕ × Option (List ℕ)). (c ∷ r.0, r.1))
        (read_name-space n w s (omega (arith, h)) v.2))

read_name-end : (n : ℕ) (w : List ℕ) → length w ≤ n → IsWord w → read_name n w ≡ (w, none)
unfolding read_name
read_name-end zero [] h v = refl
read_name-end zero (c ∷ w) h v = absurd (omega arith)
read_name-end (suc n) [] h v = refl
read_name-end (suc n) (c ∷ w) h v =
    let a : (c == 0) ≡ false = ground (arith, v.0) in
    let b : (c == space) ≡ false = ground (arith, v.1) in
    rw (a, b)
      (ap (λ (r : List ℕ × Option (List ℕ)). (c ∷ r.0, r.1))
        (read_name-end n w (omega (arith, h)) v.2))

-- Spaces behind the last argument.
only-replicate : (n : ℕ) → only_spaces (replicate n space) ≡ true
unfolding only_spaces
only-replicate zero = refl
only-replicate (suc n) = only-replicate n

-- Something else than spaces follows.
only-more :
    (u s : List ℕ) (c : ℕ) → IsLine u → c ≢ 0 → c ≢ space → only_spaces (u ++ (c ∷ s)) ≡ false
unfolding only_spaces
only-more [] s c v a b =
    let x : (c == 0) ≡ false = ground (arith, a) in
    let y : (c == space) ≡ false = ground (arith, b) in rw (x, y) refl
only-more (d ∷ u) s c v a b =
    let x : (d == 0) ≡ false = ground (arith, v.0) in
    let more = only-more u s c v.1 a b in
    elim (Bool-cases (d == space)) [ inl e ↦ rw (x, e) more | inr ne ↦ rw (x, ne) refl ]

copy-replicate : (n : ℕ) → copy_args (replicate n space) ≡ []
unfolding copy_args
copy-replicate zero = refl
copy-replicate (suc n) = rw (only-replicate n) refl

copy-line :
    (u : List ℕ) (c t : ℕ)
    → IsLine u
    → c ≢ 0
    → c ≢ space
    → copy_args (u ++ (c ∷ replicate t space)) ≡ u ++ (c ∷ [])
unfolding copy_args
copy-line [] c t v a b =
    let x : (c == 0) ≡ false = ground (arith, a) in
    let y : (c == space) ≡ false = ground (arith, b) in
    rw (x, y) (ap (λ s. c ∷ s) (copy-replicate t))
copy-line (d ∷ u) c t v a b =
    let x : (d == 0) ≡ false = ground (arith, v.0) in
    let rest = ap (λ s. d ∷ s) (copy-line u c t v.1 a b) in
    elim (Bool-cases (d == space)) [
      | inl e ↦ rw (x, e, only-more u (replicate t space) c v.1 a b) rest
      | inr ne ↦ rw (x, ne) rest
    ]

head-same : (u s : List ℕ) (c : ℕ) → get_or (u ++ (c ∷ s)) 0 0 ≡ get_or (u ++ (c ∷ [])) 0 0
head-same [] s c = refl
head-same (d ∷ u) s c = refl

-- A line of spaces, a program's name, and what follows it.
parse-name :
    (i a : ℕ) (w s : List ℕ) (r : List ℕ × Option (List ℕ))
    → a ≢ space
    → read_name (filename_len - i) (a ∷ (w ++ s)) ≡ r
    → parse_command (replicate i space ++ (a ∷ (w ++ s)))
      ≡ (r.0, elim r.1 [ none ↦ [] | some x ↦ copy_args x ])
unfolding parse_command
parse-name i a w s r h e =
    let line = replicate i space ++ (a ∷ (w ++ s)) in
    let counted : count_spaces line ≡ i = count-replicate i a (w ++ s) h in
    let skipped : skip_spaces line ≡ a ∷ (w ++ s) =
      skip-replicate i (a ∷ (w ++ s)) ∙ skip-start (a ∷ (w ++ s)) h in
    ap
      (λ (p : List ℕ × Option (List ℕ)).
        (p.0, elim p.1 as (λ _. List ℕ) [ none ↦ [] | some x ↦ copy_args x ]))
      (ap₂ (λ n x. read_name (filename_len - n) x) counted skipped ∙ e)

-- system_execute's command line: any spaces, the name of a program, without a space, any spaces and one, the
-- arguments, which neither begin nor end with a space, and any spaces; or the spaces, the name and spaces
-- alone. If the spaces and the name together are shorter than 32 bytes, the parsing gives the name and the
-- arguments, as they are between the spaces, or the name and no arguments.
pub parse_command_lem :
    (i k t a c : ℕ) (w u : List ℕ)
    → IsWord (a ∷ w)
    → i + length (a ∷ w) < filename_len
    → IsLine u
    → c ≢ 0
    → c ≢ space
    → get_or (u ++ (c ∷ [])) 0 0 ≢ space
    → (parse_command (
          replicate i space
          ++ (a ∷ (w ++ (space ∷ (replicate k space ++ (u ++ (c ∷ replicate t space)))))))
        ≡ (a ∷ w, u ++ (c ∷ [])))
      × (parse_command (replicate i space ++ (a ∷ (w ++ replicate t space))) ≡ (a ∷ w, []))
parse_command_lem i k t a c w u v h line nul blank start =
    let s = u ++ (c ∷ replicate t space) in
    let skipped : skip_spaces (replicate k space ++ s) ≡ s =
      skip-replicate k s
      ∙ skip-start s (λ e. start (sym (head-same u (replicate t space) c) ∙ e)) in
    let named =
      read_name-space (filename_len - i) (a ∷ w) (replicate k space ++ s) (omega (arith, h)) v in
    (
      parse-name i a w (space ∷ (replicate k space ++ s)) _ v.1 named
          ∙ ap (λ x. (a ∷ w, copy_args x)) skipped
          ∙ ap (λ x. (a ∷ w, x)) (copy-line u c t line nul blank),
      bare t,
    )
  where
    bare :
        (n : ℕ) → parse_command (replicate i space ++ (a ∷ (w ++ replicate n space))) ≡ (a ∷ w, [])
    bare zero = parse-name i a w [] _ v.1 (
        ap (λ x. read_name (filename_len - i) (a ∷ x)) (append-nil w)
        ∙ read_name-end (filename_len - i) (a ∷ w) (omega (arith, h)) v)
    bare (suc n) =
        parse-name i a w (space ∷ replicate n space) _ v.1
          (read_name-space (filename_len - i) (a ∷ w) (replicate n space) (omega (arith, h)) v)
        ∙ ap (λ x. (a ∷ w, copy_args x)) (skip-all n)
        ∙ ap (λ x. (a ∷ w, x)) (copy-replicate 0)
