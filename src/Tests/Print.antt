-- ===== src/Tests/Print.antt =====
-- Tests of printf and the conversion of numbers.
use linux_like_os_project.Prelude.{
  ℕ, ◌-◌, ◌^◌, refl, get_or, ◌+◌, ◌≡◌, ◌≤◌, List, [], ◌∷◌, ◌++◌, some, length, arith,
}
use linux_like_os_project.Text.{itoa}
use linux_like_os_project.Text.Length.{string_of}
use linux_like_os_project.Text.Digits.{parse, itoa_lem, length-itoa-le}
use linux_like_os_project.Printf.{printf}
use linux_like_os_project.Printf.Plain.{format_bytes}
use linux_like_os_project.Prelude.Int.{negsuc}
use linux_like_os_project.Printf.Items.{
  Item, text, percent, padded, unsigned, signed, char, unknown, IsItem, AreItems, Holds, words,
  pieces, print_items, printf_lem,
}
use linux_like_os_project.Tests.{sample_console}

itoa_lem_example : parse 0 16 (string_of (itoa 48879 16)) ≡ 48879
itoa_lem_example = itoa_lem 48879 16 (omega arith) (omega arith)

length-itoa-le_example : length (itoa 48879 16) ≤ 4 + 1
length-itoa-le_example = length-itoa-le 48879 16 4 (omega arith) (omega arith) (omega arith)

-- "x=%#x;%d%c%%%u%q" with 48879, -5, 'A' and 7.
abbrev sample_items : List Item
sample_items =
    text (120 ∷ 61 ∷ [])
    ∷ padded 48879
    ∷ text (59 ∷ [])
    ∷ signed (negsuc 4)
    ∷ char 65
    ∷ percent
    ∷ unsigned 7
    ∷ unknown 113
    ∷ []

abbrev sample_stack : ℕ → ℕ
sample_stack i = get_or (48879 ∷ (2 ^ 32 - 5) ∷ 65 ∷ 7 ∷ []) i 0

sample-AreItems : AreItems sample_items
unfolding IsItem
sample-AreItems = (
  (
    (λ e. omega (arith, e)),
    (λ e. omega (arith, e)),
    ((λ e. omega (arith, e)), (λ e. omega (arith, e)), tt),
  ),
  (
    omega arith,
    (
      ((λ e. omega (arith, e)), (λ e. omega (arith, e)), tt),
      (
        omega arith,
        (
          omega arith,
          (
            tt,
            (
              omega arith,
              (
                (
                  (λ e. omega (arith, e)),
                  (λ e. omega (arith, e)),
                  (λ e. omega (arith, e)),
                  (λ e. omega (arith, e)),
                  (λ e. omega (arith, e)),
                  (λ e. omega (arith, e)),
                  (λ e. omega (arith, e)),
                  (λ e. omega (arith, e)),
                ),
                tt,
              ),
            ),
          ),
        ),
      ),
    ),
  ),
)

sample-Holds : Holds sample_stack 0 (words sample_items)
unfolding words
sample-Holds = (refl, (refl, (refl, (refl, tt))))

printf_lem_example :
    printf (λ a. []) sample_stack (format_bytes (pieces sample_items) ++ (0 ∷ [])) sample_console
    ≡ some (
      length (format_bytes (pieces sample_items)),
      print_items (λ a. []) sample_items sample_console,
    )
printf_lem_example =
    printf_lem (λ a. []) sample_stack sample_items [] sample_console sample-AreItems sample-Holds
