-- ===== src/Printf/Plain.antt =====
-- printf against a format in pieces: text, and conversions.
use mathlib.Core.List.{append_assoc, append-nil}
use linux_like_os_project.Prelude.{
  ℕ, suc, ◌+◌, ◌≡◌, ◌≢◌, refl, ◌∙◌, List, [], ◌∷◌, ◌++◌, some, ◌==◌, if◌then◌else◌, ◌&&◌, not, Bool,
  true, false, length, length-append, arith,
}
use linux_like_os_project.Console.{Console, putc, puts}
use linux_like_os_project.Printf.{plain, convert, takes_word, printf_loop, printf}

-- A run of text, or a conversion with its specifier, with or without '#'.
pub data Piece : Type 0 where
  text : List ℕ → Piece
  conversion : Bool → ℕ → Piece

unfoldable pub piece_bytes : Piece → List ℕ
piece_bytes (text s) = s
piece_bytes (conversion false ch) = 37 ∷ ch ∷ []
piece_bytes (conversion true ch) = 37 ∷ 35 ∷ ch ∷ []

unfoldable pub format_bytes : List Piece → List ℕ
unfolding piece_bytes
format_bytes [] = []
format_bytes (p ∷ ps) = piece_bytes p ++ format_bytes ps

-- Text has no terminator and no '%'.
abbrev pub IsText : List ℕ → Type 0
IsText [] = Unit {0}
IsText (ch ∷ s) = (ch ≢ 0) × (ch ≢ 37) × IsText s

-- A specifier is not '#'.
unfoldable pub IsPiece : Piece → Type 0
IsPiece (text s) = IsText s
IsPiece (conversion alternate ch) = ch ≢ 35

abbrev pub ArePieces : List Piece → Type 0
ArePieces [] = Unit {0}
ArePieces (p ∷ ps) = IsPiece p × ArePieces ps

-- The console after the pieces, with the index of the next word.
unfoldable pub show : (ℕ → List ℕ) → (ℕ → ℕ) → List Piece → ℕ → Console → Console
show string_at stack [] esp c = c
show string_at stack (text s ∷ ps) esp c = show string_at stack ps esp (puts s c)
show string_at stack (conversion alternate ch ∷ ps) esp c =
    show string_at stack ps (if takes_word ch then esp + 1 else esp)
      (convert string_at alternate ch (stack esp) c)

puts-cons : (ch : ℕ) (s : List ℕ) (c : Console) → ch ≢ 0 → puts (ch ∷ s) c ≡ puts s (putc ch c)
unfolding puts
puts-cons ch s c h = let z : (ch == 0) ≡ false = ground arith in rw (z, puts) refl

puts-nil : (c : Console) → puts [] c ≡ c
unfolding puts
puts-nil c = refl

module _ (string_at : ℕ → List ℕ) (stack : ℕ → ℕ) where
  loop-text :
      (s rest : List ℕ) (n esp : ℕ) (c : Console)
      → IsText s
      → printf_loop string_at stack plain (s ++ rest) n esp c
        ≡ printf_loop string_at stack plain rest (n + length s) esp (puts s c)
  unfolding printf_loop
  loop-text [] rest n esp c h = let same : n + 0 ≡ n = omega arith in rw (same, puts-nil c) refl
  loop-text (ch ∷ s) rest n esp c h =
      let z : (ch == 0) ≡ false = ground (arith, h.0) in
      let p : (ch == 37) ≡ false = ground (arith, h.1) in
      let all : n + suc (length s) ≡ n + 1 + length s = omega arith in
      rw (puts-cons ch s c h.0, z, p, all) (loop-text s rest (n + 1) esp (putc ch c) h.2)

  loop-show :
      (ps : List Piece) (rest : List ℕ) (n esp : ℕ) (c : Console)
      → ArePieces ps
      → printf_loop string_at stack plain (format_bytes ps ++ (0 ∷ rest)) n esp c
        ≡ some (n + length (format_bytes ps), show string_at stack ps esp c)
  unfolding printf_loop show format_bytes IsPiece
  loop-show [] rest n esp c h = let same : n + 0 ≡ n = omega arith in rw same refl
  loop-show (text s ∷ ps) rest n esp c h =
      let all : n + length (s ++ format_bytes ps) ≡ n + length s + length (format_bytes ps) =
        omega (arith, length-append s (format_bytes ps)) in
      rw (append_assoc s (format_bytes ps) (0 ∷ rest), all)
        (loop-text s (format_bytes ps ++ (0 ∷ rest)) n esp c h.0
          ∙ loop-show ps rest (n + length s) esp (puts s c) h.1)
  loop-show (conversion false ch ∷ ps) rest n esp c h =
      let other : (ch == 35) ≡ false = ground (arith, h.0) in
      let all : n + suc (suc (length (format_bytes ps))) ≡ n + 1 + 1 + length (format_bytes ps) =
        omega arith in
      rw (other, all)
        (loop-show ps rest (n + 1 + 1) (if takes_word ch then esp + 1 else esp)
          (convert string_at false ch (stack esp) c) h.1)
  loop-show (conversion true ch ∷ ps) rest n esp c h =
      let other : (ch == 35) ≡ false = ground (arith, h.0) in
      let all : n + suc (suc (suc (length (format_bytes ps))))
          ≡ n + 1 + 1 + 1 + length (format_bytes ps) =
        omega arith in
      rw (other, all)
        (loop-show ps rest (n + 1 + 1 + 1) (if takes_word ch then esp + 1 else esp)
          (convert string_at true ch (stack esp) c) h.1)

-- printf on a format of text and conversions, in any order, each specifier but '#', and its terminator:
-- the call returns the length of the format, and prints the pieces one after the other, each conversion
-- that takes a word with the next word of the stack.
pub printf-show :
    (string_at : ℕ → List ℕ) (stack : ℕ → ℕ) (ps : List Piece) (rest : List ℕ) (c : Console)
    → ArePieces ps
    → printf string_at stack (format_bytes ps ++ (0 ∷ rest)) c
      ≡ some (length (format_bytes ps), show string_at stack ps 0 c)
unfolding printf
printf-show string_at stack ps rest c h =
    let all : 0 + length (format_bytes ps) ≡ length (format_bytes ps) = omega arith in
    loop-show string_at stack ps rest 0 0 c h ∙ rw all refl

-- Text, by a test, and a format of text alone.
unfoldable pub is_text : List ℕ → Bool
is_text [] = true
is_text (ch ∷ s) = not (ch == 0) && (not (ch == 37) && is_text s)

pub is_text_lem : (s : List ℕ) → is_text s ≡ true → IsText s
unfolding is_text
is_text_lem [] e = tt
is_text_lem (ch ∷ s) e = (ground (arith, e), ground (arith, e), is_text_lem s (ground (arith, e)))

pub plain_message :
    (string_at : ℕ → List ℕ) (stack : ℕ → ℕ) (s : List ℕ) (c : Console)
    → is_text s ≡ true
    → printf string_at stack (s ++ (0 ∷ [])) c ≡ some (length s, puts s c)
unfolding format_bytes piece_bytes IsPiece show
plain_message string_at stack s c e =
    let p = printf-show string_at stack (text s ∷ []) [] c (is_text_lem s e, tt) in
    rw (append-nil s) at p
