-- ===== src/LineEdit/Line.antt =====
-- The line that a terminal holds, and the edit that a key means, apart from buffers and indices.
use linux_like_os_project.Prelude.{
  ℕ, zero, suc, ◌-◌, ◌≤◌, ◌<◌, ◌≡◌, ◌≢◌, refl, ap, List, [], ◌∷◌, ◌++◌, arith, ◌==◌, if◌then◌else◌,
  set, length, take,
}
use linux_like_os_project.Console.{Terminal}
use linux_like_os_project.LineEdit.{end_of_line, backspace_pressed, enter_key, max_buf_size}

-- The bytes typed so far.
unfoldable pub line : Terminal → List ℕ
line t = take t.buffer_size t.buffer

unfoldable pub drop_last : List ℕ → List ℕ
drop_last [] = []
drop_last (b ∷ []) = []
drop_last (b ∷ c ∷ s) = b ∷ drop_last (c ∷ s)

-- A key's effect on a line: ENTER ends it, backspace takes its last byte, and any other key adds
-- itself unless the line has 127 bytes.
unfoldable pub edit_line : ℕ → List ℕ → List ℕ
unfolding drop_last
edit_line key s =
    if key == backspace_pressed
    then drop_last s
    else (if key == enter_key
        then s ++ (end_of_line ∷ [])
        else (if length s == max_buf_size - 1 then s else s ++ (key ∷ [])))

pub take-set :
    (n : ℕ) (b : List ℕ) (v : ℕ) → n < length b → take (suc n) (set b n v) ≡ take n b ++ (v ∷ [])
take-set n [] v h = absurd (omega arith)
take-set zero (x ∷ b) v h = refl
take-set (suc n) (x ∷ b) v h = ap (λ r. x ∷ r) (take-set n b v (omega arith))

pub take-set_above : (n i : ℕ) (b : List ℕ) (v : ℕ) → n ≤ i → take n (set b i v) ≡ take n b
take-set_above zero i b v h = refl
take-set_above (suc n) i [] v h = refl
take-set_above (suc n) zero (x ∷ b) v h = absurd (omega arith)
take-set_above (suc n) (suc i) (x ∷ b) v h = ap (λ r. x ∷ r) (take-set_above n i b v (omega arith))

pub drop_last-take : (n : ℕ) (b : List ℕ) → n < length b → drop_last (take (suc n) b) ≡ take n b
unfolding drop_last
drop_last-take n [] h = absurd (omega arith)
drop_last-take zero (x ∷ b) h = refl
drop_last-take (suc n) (x ∷ []) h = absurd (omega arith)
drop_last-take (suc n) (x ∷ y ∷ b) h = ap (λ r. x ∷ r) (drop_last-take n (y ∷ b) (omega arith))

pub length-take_le : (n : ℕ) (b : List ℕ) → n ≤ length b → length (take n b) ≡ n
length-take_le zero b h = refl
length-take_le (suc n) [] h = absurd (omega arith)
length-take_le (suc n) (x ∷ b) h = ap suc (length-take_le n b (omega arith))

pub edit_line-add :
    (key : ℕ) (s : List ℕ)
    → key ≢ backspace_pressed
    → key ≢ enter_key
    → length s ≢ max_buf_size - 1
    → edit_line key s ≡ s ++ (key ∷ [])
unfolding edit_line
edit_line-add key s nb ne nf = ground arith

pub edit_line-full :
    (key : ℕ) (s : List ℕ)
    → key ≢ backspace_pressed
    → key ≢ enter_key
    → length s ≡ max_buf_size - 1
    → edit_line key s ≡ s
unfolding edit_line
edit_line-full key s nb ne nf = ground arith

pub edit_line-enter : (s : List ℕ) → edit_line enter_key s ≡ s ++ (end_of_line ∷ [])
unfolding edit_line
edit_line-enter s = refl

pub edit_line-delete : (s : List ℕ) → edit_line backspace_pressed s ≡ drop_last s
unfolding edit_line
edit_line-delete s = refl
