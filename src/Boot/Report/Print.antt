-- ===== src/Boot/Report/Print.antt =====
-- Programs that print lines on the console and come back.
use linux_like_os_project.Prelude.{
  ℕ, ◌≡◌, refl, sym, List, [], ◌∷◌, Option, none, some, ◌==◌, ◌&&◌, not, if◌then◌else◌, Bool, ◌++◌,
  ap, ◌∙◌, true, false, arith,
}
use linux_like_os_project.Prelude.State.{M}
use linux_like_os_project.Console.{Console}
use linux_like_os_project.Console.Cursor.{IsConsole}
use linux_like_os_project.Console.Output.{
  Prints, Prints-refl, Prints-trans, putc-Prints, puts-Prints,
}
use linux_like_os_project.Printf.{convert}
use linux_like_os_project.Printf.Plain.{
  Piece, text, conversion, IsPiece, ArePieces, show, is_text, is_text_lem,
}
use linux_like_os_project.Boot.Report.Lines.{Line, show_lines, show_lines-append}

convert-Prints :
    (string_at : ℕ → List ℕ) (alternate : Bool) (ch word : ℕ) {c : Console}
    → IsConsole c
    → Prints c (convert string_at alternate ch word c)
unfolding convert
convert-Prints string_at alternate ch word {c} v = if-Prints (ch == 37) (putc-Prints 37 v) (
    if-Prints (ch == 120) (puts-Prints _ v) (
      if-Prints (ch == 117) (puts-Prints _ v) (
        if-Prints (ch == 100) (puts-Prints _ v) (
          if-Prints (ch == 99) (putc-Prints _ v)
            (if-Prints (ch == 115) (puts-Prints _ v) (Prints-refl v))))))
  where
    if-Prints : (b : Bool) {d e : Console} → Prints c d → Prints c e → Prints c (if b then d else e)
    if-Prints true p q = p
    if-Prints false p q = q

pub show-Prints :
    (string_at : ℕ → List ℕ) (stack : ℕ → ℕ) (ps : List Piece) (esp : ℕ) {c : Console}
    → IsConsole c
    → Prints c (show string_at stack ps esp c)
unfolding show
show-Prints string_at stack [] esp v = Prints-refl v
show-Prints string_at stack (text s ∷ ps) esp v =
    let p = puts-Prints s v in Prints-trans p (show-Prints string_at stack ps esp p.formed)
show-Prints string_at stack (conversion alternate ch ∷ ps) esp v =
    let p = convert-Prints string_at alternate ch (stack esp) v in
    Prints-trans p (show-Prints string_at stack ps _ p.formed)

-- The formats, by a test.
unfoldable pub are_pieces : List Piece → Bool
unfolding is_text
are_pieces [] = true
are_pieces (text s ∷ ps) = is_text s && are_pieces ps
are_pieces (conversion alternate ch ∷ ps) = not (ch == 35) && are_pieces ps

pub are_pieces_lem : (ps : List Piece) → are_pieces ps ≡ true → ArePieces ps
unfolding are_pieces IsPiece
are_pieces_lem [] e = tt
are_pieces_lem (text s ∷ ps) e =
    (is_text_lem s (ground (arith, e)), are_pieces_lem ps (ground (arith, e)))
are_pieces_lem (conversion alternate ch ∷ ps) e =
    (ground (arith, e), are_pieces_lem ps (ground (arith, e)))

-- Nothing is said of the value.
abbrev pub Any : Unit {0} → Type 0
Any u = Unit

module _ (string_at : ℕ → List ℕ) where
  -- A program comes back with a value of a kind, having printed the lines.
  unfoldable pub IsPrinted :
      {A : Type 0} → (A → Type 0) → List Line → Console → Option (A × Console) → Type 0
  IsPrinted Q ls c none = ⊥
  IsPrinted Q ls c (some (a, c')) = Q a × (c' ≡ show_lines string_at ls c) × Prints c c'

  pub lift-IsPrinted :
      {B : Type 0} (R : B → Type 0) (ls ms : List Line) (c c' : Console) (r : Option (B × Console))
      → c' ≡ show_lines string_at ls c
      → Prints c c'
      → IsPrinted R ms c' r
      → IsPrinted R (ls ++ ms) c r
  unfolding IsPrinted
  lift-IsPrinted R ls ms c c' none e s q = q
  lift-IsPrinted R ls ms c c' (some (b, c'')) e s (q, x, t) = (
    q,
    x ∙ ap (show_lines string_at ms) e ∙ sym (show_lines-append string_at ls ms c),
    Prints-trans s t,
  )

  -- A program after another.
  pub then-IsPrinted :
      {A B : Type 0} (Q : A → Type 0) (R : B → Type 0) (ls ms : List Line) (f : A → M Console B)
      (c : Console) (r : Option (A × Console))
      → IsPrinted Q ls c r
      → ((a : A) (c' : Console) → Q a → IsConsole c' → IsPrinted R ms c' (f a c'))
      → IsPrinted R
          (ls ++ ms)
          c
          (elim r as (λ _. Option (B × Console)) [ none ↦ none | some (a, c') ↦ f a c' ])
  unfolding IsPrinted
  then-IsPrinted Q R ls ms f c none p g = p
  then-IsPrinted Q R ls ms f c (some (a, c')) (q, e, s) g =
      lift-IsPrinted R ls ms c c' (f a c') e s (g a c' q s.formed)

  pub return-IsPrinted :
      {A : Type 0} (Q : A → Type 0) (a : A) {c : Console}
      → IsConsole c
      → Q a
      → IsPrinted Q [] c (some (a, c))
  unfolding IsPrinted show_lines
  return-IsPrinted Q a v q = (q, refl, Prints-refl v)
