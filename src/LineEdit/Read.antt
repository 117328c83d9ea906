-- ===== src/LineEdit/Read.antt =====
-- What terminal_read returns when a line is complete.
use mathlib.Core.Path.{subst}
use linux_like_os_project.Prelude.{
  ℕ, zero, suc, ◌+◌, ◌-◌, ◌≤◌, ◌<◌, ◌≡◌, ◌≢◌, refl, sym, ◌∙◌, ap, ap₂, arith, ◌==◌, if◌then◌else◌,
  length, length-append, get_or, List, [], ◌∷◌, ◌++◌, ltb, leb, ◌||◌, Bool-cases, inl, inr, set,
  take, drop, ◌^◌, true, false, min,
}
use linux_like_os_project.Console.{Console, Terminal, terminal, set_terminal}
use linux_like_os_project.LineEdit.{
  max_buf_size, end_of_line, copy_line, mark_end, finish_read, clear_line, returned, terminal_read,
}
use linux_like_os_project.Console.Cursor.{IsConsole, set_terminal-Moves}
use linux_like_os_project.LineEdit.Line.{line}

-- No byte of the list ends a line.
abbrev pub NoEnd : List ℕ → Type 0
NoEnd [] = Unit {0}
NoEnd (b ∷ s) = (b ≢ end_of_line) × NoEnd s

-- The part of the line from an index on.
abbrev rest_of : Terminal → ℕ → List ℕ
rest_of t i = take (t.buffer_size - i) (drop i t.buffer)

drop-suc : (i : ℕ) (b : List ℕ) → i < length b → drop i b ≡ get_or b i 0 ∷ drop (suc i) b
drop-suc i [] h = absurd (omega arith)
drop-suc zero (x ∷ b) h = refl
drop-suc (suc i) (x ∷ b) h = drop-suc i b (omega arith)

-- One byte of the line.
rest-step :
    (t : Terminal) (i : ℕ)
    → length t.buffer ≡ max_buf_size
    → t.buffer_size ≤ max_buf_size
    → i < t.buffer_size
    → rest_of t i ≡ get_or t.buffer i 0 ∷ rest_of t (suc i)
rest-step t i h k lt =
    let n : t.buffer_size - i ≡ suc (t.buffer_size - suc i) = omega arith in
    ap₂ take n (drop-suc i t.buffer (omega arith))

take-nil : (n : ℕ) → take {A = ℕ} n [] ≡ []
take-nil zero = refl
take-nil (suc n) = refl

-- Past the line nothing is left.
rest-end : (t : Terminal) (i : ℕ) → t.buffer_size ≤ i → rest_of t i ≡ []
rest-end t i h = let n : t.buffer_size - i ≡ 0 = omega arith in ap (λ k. take k (drop i t.buffer)) n

cons-ne-nil : (b : ℕ) (s : List ℕ) → b ∷ s ≡ [] → ⊥
cons-ne-nil b s e = cc

inside : (t : Terminal) (i : ℕ) (b : ℕ) (s : List ℕ) → rest_of t i ≡ b ∷ s → i < t.buffer_size
inside t i b s e = elim (Bool-cases (ltb i t.buffer_size)) [
  | inl lt ↦ ground arith
  | inr ge ↦ absurd (cons-ne-nil b s (sym e ∙ rest-end t i (ground arith)))
]

-- The copying loop over a line that ends with its only end of line.
copy_line_lem :
    (n i : ℕ) (t : Terminal) (s : List ℕ)
    → length t.buffer ≡ max_buf_size
    → t.buffer_size ≤ max_buf_size
    → NoEnd s
    → rest_of t i ≡ s ++ (end_of_line ∷ [])
    → copy_line n i t ≡ (
        if ltb (length s) n
        then (s ++ (end_of_line ∷ []), i + length s, true)
        else (take n s, i + n, false))
unfolding copy_line
copy_line_lem zero i t s h k ne e = ground arith
copy_line_lem (suc n) i t [] h k ne e =
    let lt = inside t i end_of_line [] e in
    let b : get_or t.buffer i 0 ≡ end_of_line = ground (arith, rest-step t i h k lt) in
    ground (arith, b, lt)
copy_line_lem (suc n) i t (c ∷ s) h k ne e =
    let lt = inside t i c (s ++ (end_of_line ∷ [])) e in
    let b : get_or t.buffer i 0 ≡ c = ground (arith, rest-step t i h k lt) in
    let r : rest_of t (suc i) ≡ s ++ (end_of_line ∷ []) = ground (arith, rest-step t i h k lt) in
    let j : i + 1 ≡ suc i = omega arith in
    let ih = copy_line_lem n (i + 1) t s h k ne.1 (ap (rest_of t) j ∙ r) in
    ground (arith, b, lt, ih, ne.0)

take-all : (k : ℕ) (s : List ℕ) → length s ≤ k → take k s ≡ s
take-all zero [] h = refl
take-all (suc k) [] h = refl
take-all zero (c ∷ s) h = absurd (omega arith)
take-all (suc k) (c ∷ s) h = ap (λ r. c ∷ r) (take-all k s (omega arith))

set-take :
    (k : ℕ) (s : List ℕ) (v : ℕ) → k < length s → set (take (suc k) s) k v ≡ take k s ++ (v ∷ [])
set-take k [] v h = absurd (omega arith)
set-take zero (c ∷ s) v h = refl
set-take (suc k) (c ∷ s) v h = ap (λ r. c ∷ r) (set-take k s v (omega arith))

get_or-take : (k : ℕ) (s : List ℕ) → k < length s → get_or (take (suc k) s) k 0 ≡ get_or s k 0
get_or-take k [] h = absurd (omega arith)
get_or-take zero (c ∷ s) h = refl
get_or-take (suc k) (c ∷ s) h = get_or-take k s (omega arith)

NoEnd-get : (k : ℕ) (s : List ℕ) → k < length s → NoEnd s → get_or s k 0 ≢ end_of_line
NoEnd-get k [] h ne = absurd (omega arith)
NoEnd-get zero (c ∷ s) h ne = ne.0
NoEnd-get (suc k) (c ∷ s) h ne = NoEnd-get k s (omega arith) ne.1

length-take_min : (n : ℕ) (s : List ℕ) → n ≤ length s → length (take n s) ≡ n
length-take_min zero s h = refl
length-take_min (suc n) [] h = absurd (omega arith)
length-take_min (suc n) (c ∷ s) h = ap suc (length-take_min n s (omega arith))

-- A line that was cut is closed by an end of line.
mark_end-cut :
    (size k : ℕ) (s : List ℕ)
    → NoEnd s
    → k < length s
    → suc k < size
    → mark_end size (take (suc k) s, suc k, false) ≡ take k s ++ (end_of_line ∷ [])
unfolding mark_end
mark_end-cut size k s ne h lt =
    let m : suc k - 1 ≡ k = omega arith in
    let open_end : get_or (take (suc k) s) k 0 ≢ end_of_line =
      (λ e. NoEnd-get k s h ne (sym (get_or-take k s h) ∙ e)) in
    rw m (ground (arith, open_end, set-take k s end_of_line h))

mark_end-whole : (size i : ℕ) (out : List ℕ) → mark_end size (out, i, true) ≡ out
unfolding mark_end
mark_end-whole size i out = refl

zero_add : (n : ℕ) → 0 + n ≡ n
zero_add n = omega arith

-- The bytes that a read of `suc k` at most hands over, and their number.
handed :
    (k : ℕ) (t : Terminal) (s : List ℕ)
    → length t.buffer ≡ max_buf_size
    → t.buffer_size ≤ max_buf_size
    → NoEnd s
    → line t ≡ s ++ (end_of_line ∷ [])
    → (mark_end t.buffer_size (copy_line (suc k) 0 t) ≡ take k s ++ (end_of_line ∷ []))
      × (length (copy_line (suc k) 0 t).0 ≡ min (suc k) (suc (length s)))
unfolding line
handed k t s h le ne e =
    let whole_line : t.buffer_size - 0 ≡ t.buffer_size = omega arith in
    let size : t.buffer_size ≡ suc (length s) = omega (
      arith,
      length-take_min t.buffer_size t.buffer,
      ap length e,
      length-append s (end_of_line ∷ []),
    ) in
    let copied = copy_line_lem (suc k) 0 t s h le ne (ap (λ n. take n t.buffer) whole_line ∙ e) in
    elim (Bool-cases (ltb (length s) (suc k))) [
      | inl whole ↦
          rw (copied, whole)
            (
              mark_end-whole _ _ _
                  ∙ ap (λ r. r ++ (end_of_line ∷ [])) (sym (take-all k s (ground arith))),
              length-append s (end_of_line ∷ []) ∙ ground arith,
            )
      | inr cut ↦
          rw (copied, cut, zero_add (suc k))
            (
              mark_end-cut t.buffer_size k s ne (ground arith) (ground arith),
              length-take_min (suc k) s (ground arith) ∙ ground arith,
            )
    ]

-- The state of the reader's terminal after a read.
pub record Cleared (t : Terminal) : Type 0 where
  pub empty : t.buffer_size ≡ 0
  pub idle : t.waiting_in_read ≡ 0
  pub taken : t.enter_flag ≡ 0

clear_line-Cleared : (n : ℕ) (t : Terminal) → Cleared (clear_line n t)
unfolding clear_line
clear_line-Cleared n t = record { empty = refl; idle = refl; taken = refl }

finish_read_lem :
    (k : ℕ) (c : Console) (t : Terminal) (s : List ℕ)
    → terminal c c.curr_terminal ≡ t
    → length t.buffer ≡ max_buf_size
    → t.buffer_size ≤ max_buf_size
    → NoEnd s
    → line t ≡ s ++ (end_of_line ∷ [])
    → finish_read (suc k) c
      ≡ returned
          (min (suc k) (suc (length s)))
          (take k s ++ (end_of_line ∷ []))
          (set_terminal c.curr_terminal (clear_line (suc k) t) c)
unfolding finish_read
finish_read_lem k c t s here h le ne e = let (out, n) = handed k t s h le ne e in rw (here, out, n)

-- A terminal that starts to wait has the line it had.
waiting-line : (t : Terminal) → line (record t { waiting_in_read = 1 }) ≡ line t
unfolding line
waiting-line t = refl

-- A write over a write to the same place.
kept :
    (i i' j : ℕ) (a b u v w : Terminal)
    → i ≡ i'
    → u ≡ b
    → v ≡ (if i' == j then a else w)
    → (if i == j then u else v) ≡ (if i' == j then b else w)
kept i i' j a b u v w e k h = ground arith

-- terminal_read on a terminal of a well-formed console whose line is `s` and one end of line, after
-- ENTER, with a buffer and a positive int for `nbytes`: with `m` the smaller of `nbytes` and 128, it
-- returns the first `m - 1` bytes of `s`, all of them if there are fewer, and an end of line; it returns
-- their number; and it leaves the terminal with an empty line, not waiting and ENTER taken back, and the
-- other terminals as they were.
pub terminal_read_lem :
    (nbytes : ℕ) (c : Console) (s : List ℕ)
    → IsConsole c
    → let t = terminal c c.curr_terminal in
      length t.buffer ≡ max_buf_size
      → t.buffer_size ≤ max_buf_size
      → t.enter_flag ≡ 1
      → NoEnd s
      → line t ≡ s ++ (end_of_line ∷ [])
      → 0 < nbytes
      → nbytes < 2 ^ 31
      → (c' : Console) × (terminal_read true nbytes c
          ≡ returned
              (min (min nbytes 128) (suc (length s)))
              (take (min nbytes 128 - 1) s ++ (end_of_line ∷ []))
              c')
        × Cleared (terminal c' c.curr_terminal)
        × ((j : ℕ)
            → terminal c' j
              ≡ (if c.curr_terminal == j then terminal c' c.curr_terminal else terminal c j))
unfolding terminal_read
terminal_read_lem nbytes c s v h le en ne e pos small =
    let i = c.curr_terminal in
    let t1 = record (terminal c i) { waiting_in_read = 1 } in
    let c1 = set_terminal i t1 c in
    let s1 = set_terminal-Moves i t1 c in
    let lt : i < length c.terminal_array = rw v.count v.curr in
    let here : terminal c1 i ≡ t1 = ground (arith, s1.moved i lt) in
    let here' : terminal c1 c1.curr_terminal ≡ t1 = ap (terminal c1) s1.curr ∙ here in
    let m : (if ltb 128 nbytes then 128 else nbytes) ≡ suc (min nbytes 128 - 1) = ground arith in
    let c2 = set_terminal c1.curr_terminal (clear_line (suc (min nbytes 128 - 1)) t1) c1 in
    let s2 = set_terminal-Moves c1.curr_terminal (clear_line (suc (min nbytes 128 - 1)) t1) c1 in
    let lt1 : c1.curr_terminal < length c1.terminal_array = rw (s1.curr, s1.count) lt in
    let k : suc (min nbytes 128 - 1) ≡ min nbytes 128 = ground arith in
    let run = finish_read_lem (min nbytes 128 - 1) c1 t1 s here' h le ne (waiting-line _ ∙ e) in
    let ok : ((nbytes == 0) || leb (2 ^ 31) nbytes) ≡ false = ground arith in
    let started : terminal_read true nbytes c
        ≡ finish_read (if ltb 128 nbytes then 128 else nbytes) c1 =
      rw (ok, en) in
    let there : terminal c2 i ≡ clear_line (suc (min nbytes 128 - 1)) t1 =
      ap (terminal c2) (sym s1.curr) ∙ ground (arith, s2.moved c1.curr_terminal lt1) in
    (
      c2,
      started
          ∙ ap (λ n. finish_read n c1) m
          ∙ run
          ∙ ap
              (λ n.
                returned (min n (suc (length s)))
                  (take (min nbytes 128 - 1) s ++ (end_of_line ∷ [])) c2)
              k,
      subst Cleared (sym there) (clear_line-Cleared (suc (min nbytes 128 - 1)) t1),
      λ j.
          s2.moved j lt1
          ∙ kept c1.curr_terminal i j t1 _ _ _ (terminal c j) s1.curr (sym there) (s1.moved j lt),
    )
