-- ===== src/Printf/Items.antt =====
-- printf of student-distrib/lib.c as its caller sees it: the format and the words on the stack are made from
-- a list of items, each with its value.
use linux_like_os_project.Prelude.{
  ℕ, suc, ◌+◌, ◌-◌, ◌%◌, ◌^◌, ◌<◌, ◌≡◌, ◌≢◌, refl, ap, ◌∙◌, List, [], ◌∷◌, ◌++◌, some, leb, ◌==◌,
  true, false, length, replicate, arith,
}
use linux_like_os_project.Prelude.Int.{ℤ, pos, negsuc}
use linux_like_os_project.Text.{strlen, itoa}
use linux_like_os_project.Console.{Console, putc, puts}
use linux_like_os_project.Printf.{convert, takes_word, padded_hex, signed_digits, printf}
use linux_like_os_project.Printf.Plain.{
  Piece, IsText, IsPiece, ArePieces, format_bytes, show, printf-show,
}

-- Text, a '%', the arguments of %x, %#x, %u, %d, %c and %s, and a specifier that printf does not know.
pub data Item : Type 0 where
  text : List ℕ → Item
  percent : Item
  hex padded unsigned : ℕ → Item
  signed : ℤ → Item
  char string unknown : ℕ → Item

-- How an item stands in the format.
unfoldable pub piece : Item → Piece
piece (text s) = Piece.text s
piece percent = Piece.conversion false 37
piece (hex n) = Piece.conversion false 120
piece (padded n) = Piece.conversion true 120
piece (unsigned n) = Piece.conversion false 117
piece (signed z) = Piece.conversion false 100
piece (char ch) = Piece.conversion false 99
piece (string a) = Piece.conversion false 115
piece (unknown ch) = Piece.conversion false ch

unfoldable pub pieces : List Item → List Piece
unfolding piece
pieces [] = []
pieces (i ∷ is) = piece i ∷ pieces is

-- The words that the caller puts on the stack for an item; an int is its bit pattern.
unfoldable pub item_words : Item → List ℕ
item_words (text s) = []
item_words percent = []
item_words (hex n) = n ∷ []
item_words (padded n) = n ∷ []
item_words (unsigned n) = n ∷ []
item_words (signed (pos n)) = n ∷ []
item_words (signed (negsuc n)) = (2 ^ 32 - suc n) ∷ []
item_words (char ch) = ch ∷ []
item_words (string a) = a ∷ []
item_words (unknown ch) = []

unfoldable pub words : List Item → List ℕ
unfolding item_words
words [] = []
words (i ∷ is) = item_words i ++ words is

-- The words stand on the stack from `esp` on.
abbrev pub Holds : (ℕ → ℕ) → ℕ → List ℕ → Type 0
Holds stack esp [] = Unit {0}
Holds stack esp (w ∷ ws) = (stack esp ≡ w) × Holds stack (esp + 1) ws

-- Text has no terminator and no '%', an int is of 32 bits, a character of 8.
unfoldable pub IsItem : Item → Type 0
IsItem (text s) = IsText s
IsItem percent = Unit
IsItem (hex n) = n < 2 ^ 32
IsItem (padded n) = n < 2 ^ 32
IsItem (unsigned n) = n < 2 ^ 32
IsItem (signed (pos n)) = n < 2 ^ 31
IsItem (signed (negsuc n)) = n < 2 ^ 31
IsItem (char ch) = ch < 256
IsItem (string a) = a < 2 ^ 32
IsItem (unknown ch) =
    (ch ≢ 0) × (ch ≢ 35) × (ch ≢ 37) × (ch ≢ 120) × (ch ≢ 117) × (ch ≢ 100) × (ch ≢ 99) × (ch ≢ 115)

abbrev pub AreItems : List Item → Type 0
AreItems [] = Unit {0}
AreItems (i ∷ is) = IsItem i × AreItems is

-- What an item prints: %x and %u the number in its radix, %#x with zeros up to eight digits, %d with a '-'
-- before a negative number.
unfoldable pub print_item : (ℕ → List ℕ) → Item → Console → Console
print_item string_at (text s) c = puts s c
print_item string_at percent c = putc 37 c
print_item string_at (hex n) c = puts (itoa n 16) c
print_item string_at (padded n) c = puts (replicate (8 - strlen (itoa n 16)) 48 ++ itoa n 16) c
print_item string_at (unsigned n) c = puts (itoa n 10) c
print_item string_at (signed (pos n)) c = puts (itoa n 10) c
print_item string_at (signed (negsuc n)) c = puts (45 ∷ itoa (suc n) 10) c
print_item string_at (char ch) c = putc ch c
print_item string_at (string a) c = puts (string_at a) c
print_item string_at (unknown ch) c = c

unfoldable pub print_items : (ℕ → List ℕ) → List Item → Console → Console
unfolding print_item
print_items string_at [] c = c
print_items string_at (i ∷ is) c = print_items string_at is (print_item string_at i c)

pieces-ArePieces : (is : List Item) → AreItems is → ArePieces (pieces is)
unfolding pieces IsItem IsPiece
pieces-ArePieces [] h = tt
pieces-ArePieces (text s ∷ is) h = (h.0, pieces-ArePieces is h.1)
pieces-ArePieces (percent ∷ is) h = ((λ e. omega (arith, e)), pieces-ArePieces is h.1)
pieces-ArePieces (hex n ∷ is) h = ((λ e. omega (arith, e)), pieces-ArePieces is h.1)
pieces-ArePieces (padded n ∷ is) h = ((λ e. omega (arith, e)), pieces-ArePieces is h.1)
pieces-ArePieces (unsigned n ∷ is) h = ((λ e. omega (arith, e)), pieces-ArePieces is h.1)
pieces-ArePieces (signed z ∷ is) h = ((λ e. omega (arith, e)), pieces-ArePieces is h.1)
pieces-ArePieces (char ch ∷ is) h = ((λ e. omega (arith, e)), pieces-ArePieces is h.1)
pieces-ArePieces (string a ∷ is) h = ((λ e. omega (arith, e)), pieces-ArePieces is h.1)
pieces-ArePieces (unknown ch ∷ is) h = (h.0.1, pieces-ArePieces is h.1)

module _ (string_at : ℕ → List ℕ) (stack : ℕ → ℕ) where
  show-pieces :
      (is : List Item) (esp : ℕ) (c : Console)
      → AreItems is
      → Holds stack esp (words is)
      → show string_at stack (pieces is) esp c ≡ print_items string_at is c
  unfolding show pieces words print_items IsItem convert takes_word padded_hex signed_digits
  show-pieces [] esp c v h = refl
  show-pieces (text s ∷ is) esp c v h = show-pieces is esp (puts s c) v.1 h
  show-pieces (percent ∷ is) esp c v h = show-pieces is esp (putc 37 c) v.1 h
  show-pieces (hex n ∷ is) esp c v h =
      rw h.0 (show-pieces is (esp + 1) (puts (itoa n 16) c) v.1 h.1)
  show-pieces (padded n ∷ is) esp c v h = rw h.0 (show-pieces is (esp + 1) _ v.1 h.1)
  show-pieces (unsigned n ∷ is) esp c v h =
      rw h.0 (show-pieces is (esp + 1) (puts (itoa n 10) c) v.1 h.1)
  show-pieces (signed (pos n) ∷ is) esp c v h =
      let small : leb (2 ^ 31) n ≡ false = ground (arith, v.0) in
      rw (h.0, small) (show-pieces is (esp + 1) (puts (itoa n 10) c) v.1 h.1)
  show-pieces (signed (negsuc n) ∷ is) esp c v h =
      let negative : leb (2 ^ 31) (2 ^ 32 - suc n) ≡ true = ground (arith, v.0) in
      let value : 2 ^ 32 - (2 ^ 32 - suc n) ≡ suc n = omega (arith, v.0) in
      rw (h.0, negative, value) (show-pieces is (esp + 1) (puts (45 ∷ itoa (suc n) 10) c) v.1 h.1)
  show-pieces (char ch ∷ is) esp c v h =
      let byte : ch % 256 ≡ ch = omega (arith, v.0) in
      rw (h.0, byte) (show-pieces is (esp + 1) (putc ch c) v.1 h.1)
  show-pieces (string a ∷ is) esp c v h =
      rw h.0 (show-pieces is (esp + 1) (puts (string_at a) c) v.1 h.1)
  show-pieces (unknown ch ∷ is) esp c v h =
      let (a, b, d, e, f, g, i, j) = v.0 in
      let percent_sign : (ch == 37) ≡ false = ground (arith, d) in
      let x : (ch == 120) ≡ false = ground (arith, e) in
      let u : (ch == 117) ≡ false = ground (arith, f) in
      let d' : (ch == 100) ≡ false = ground (arith, g) in
      let c' : (ch == 99) ≡ false = ground (arith, i) in
      let s : (ch == 115) ≡ false = ground (arith, j) in
      rw (percent_sign, x, u, d', c', s) (show-pieces is esp c v.1 h)

  -- printf on the format of a list of items, with their words on the stack behind it in the same order: the
  -- call returns the length of the format, and prints the items one after the other: text and '%' as they
  -- are, the number of %x in hexadecimal, of %#x too with zeros up to eight digits, of %u in decimal, of %d in decimal with
  -- a '-' before a negative one, the character of %c, the string at the address of %s; for an unknown
  -- specifier it prints nothing. Numbers are of 32 bits and characters of 8, and text has no '%'.
  pub printf_lem :
      (is : List Item) (rest : List ℕ) (c : Console)
      → AreItems is
      → Holds stack 0 (words is)
      → printf string_at stack (format_bytes (pieces is) ++ (0 ∷ rest)) c
        ≡ some (length (format_bytes (pieces is)), print_items string_at is c)
  printf_lem is rest c v h =
      printf-show string_at stack (pieces is) rest c (pieces-ArePieces is v)
      ∙ ap (λ (d : Console). some (length (format_bytes (pieces is)), d)) (show-pieces is 0 c v h)
