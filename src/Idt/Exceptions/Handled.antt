-- ===== src/Idt/Exceptions/Handled.antt =====
-- What an exception does to the process that raised it.
use mathlib.Core.Path.{subst}
use linux_like_os_project.Prelude.{
  ℕ, ◌<◌, ◌≡◌, refl, sym, ap, ◌∙◌, List, [], ◌∷◌, ◌++◌, some, false, length, arith,
}
use linux_like_os_project.Text.{itoa}
use linux_like_os_project.Console.{Console, terminal, puts}
use linux_like_os_project.Console.Cursor.{IsConsole}
use linux_like_os_project.Console.Output.{Prints, puts-Prints, Prints-trans}
use linux_like_os_project.Printf.{printf, convert}
use linux_like_os_project.Printf.Plain.{
  is_text, is_text_lem, plain_message, text, conversion, IsPiece, format_bytes, piece_bytes, show,
  printf-show,
}
use linux_like_os_project.Paging.{num_processes}
use linux_like_os_project.Kernel.{Kernel, curr_pcb, curr_pid}
use linux_like_os_project.Kernel.Safety.{IsFds}
use linux_like_os_project.Kernel.Halt.{system_halt}
use linux_like_os_project.Kernel.Leave.{IsHalted, system_halt_lem}
use linux_like_os_project.Idt.{
  Exception, divide_error, debug, nmi, breakpoint, overflow, bound_range_exceeded, invalid_opcode,
  device_not_available, double_fault, coprocessor_segment_overrun, invalid_tss, segment_not_present,
  stack_fault, general_protection, page_fault, x87_fp_error, alignment_check, machine_check,
  simd_fp_error,
}
use linux_like_os_project.Idt.Exceptions.{message, words, handle, exception_status}

-- "Page-Fault Exception: " and " \n".
abbrev before : List ℕ
before =
    80 ∷ 97 ∷ 103 ∷ 101 ∷ 45 ∷ 70 ∷ 97 ∷ 117 ∷ 108 ∷ 116 ∷ 32 ∷ 69 ∷ 120 ∷ 99 ∷ 101 ∷ 112 ∷ 116
    ∷ 105 ∷ 111 ∷ 110 ∷ 58 ∷ 32 ∷ []

abbrev after : List ℕ
after = 32 ∷ 10 ∷ []

-- The message on the console.
unfoldable pub shown : ℕ → Exception → Console → Console
unfolding message
shown location page_fault c = puts after (puts (itoa location 16) (puts before c))
shown location e c = puts (message e) c

faulted :
    (string_at : ℕ → List ℕ) (location : ℕ) (c : Console)
    → printf string_at (λ i. location) (message page_fault ++ (0 ∷ [])) c
      ≡ some (length (message page_fault), shown location page_fault c)
unfolding format_bytes piece_bytes IsPiece show is_text message shown convert
faulted string_at location c =
    printf-show string_at (λ i. location) (text before ∷ conversion false 120 ∷ text after ∷ []) []
      c (is_text_lem before refl, ((λ h. omega (arith, h)), (is_text_lem after refl, tt)))

pub printf-message :
    (string_at : ℕ → List ℕ) (stack : ℕ → ℕ) (location : ℕ) (e : Exception) (c : Console)
    → printf string_at (words stack location e) (message e ++ (0 ∷ [])) c
      ≡ some (length (message e), shown location e c)
unfolding message shown is_text words
printf-message string_at stack location divide_error c =
    plain_message string_at stack (message divide_error) c refl
printf-message string_at stack location debug c =
    plain_message string_at stack (message debug) c refl
printf-message string_at stack location nmi c = plain_message string_at stack (message nmi) c refl
printf-message string_at stack location breakpoint c =
    plain_message string_at stack (message breakpoint) c refl
printf-message string_at stack location overflow c =
    plain_message string_at stack (message overflow) c refl
printf-message string_at stack location bound_range_exceeded c =
    plain_message string_at stack (message bound_range_exceeded) c refl
printf-message string_at stack location invalid_opcode c =
    plain_message string_at stack (message invalid_opcode) c refl
printf-message string_at stack location device_not_available c =
    plain_message string_at stack (message device_not_available) c refl
printf-message string_at stack location double_fault c =
    plain_message string_at stack (message double_fault) c refl
printf-message string_at stack location coprocessor_segment_overrun c =
    plain_message string_at stack (message coprocessor_segment_overrun) c refl
printf-message string_at stack location invalid_tss c =
    plain_message string_at stack (message invalid_tss) c refl
printf-message string_at stack location segment_not_present c =
    plain_message string_at stack (message segment_not_present) c refl
printf-message string_at stack location stack_fault c =
    plain_message string_at stack (message stack_fault) c refl
printf-message string_at stack location general_protection c =
    plain_message string_at stack (message general_protection) c refl
printf-message string_at stack location page_fault c = faulted string_at location c
printf-message string_at stack location x87_fp_error c =
    plain_message string_at stack (message x87_fp_error) c refl
printf-message string_at stack location alignment_check c =
    plain_message string_at stack (message alignment_check) c refl
printf-message string_at stack location machine_check c =
    plain_message string_at stack (message machine_check) c refl
printf-message string_at stack location simd_fp_error c =
    plain_message string_at stack (message simd_fp_error) c refl

pub shown-Prints :
    (location : ℕ) (e : Exception) {c : Console} → IsConsole c → Prints c (shown location e c)
unfolding shown
shown-Prints location divide_error {c} v = puts-Prints (message divide_error) v
shown-Prints location debug {c} v = puts-Prints (message debug) v
shown-Prints location nmi {c} v = puts-Prints (message nmi) v
shown-Prints location breakpoint {c} v = puts-Prints (message breakpoint) v
shown-Prints location overflow {c} v = puts-Prints (message overflow) v
shown-Prints location bound_range_exceeded {c} v = puts-Prints (message bound_range_exceeded) v
shown-Prints location invalid_opcode {c} v = puts-Prints (message invalid_opcode) v
shown-Prints location device_not_available {c} v = puts-Prints (message device_not_available) v
shown-Prints location double_fault {c} v = puts-Prints (message double_fault) v
shown-Prints location coprocessor_segment_overrun {c} v =
    puts-Prints (message coprocessor_segment_overrun) v
shown-Prints location invalid_tss {c} v = puts-Prints (message invalid_tss) v
shown-Prints location segment_not_present {c} v = puts-Prints (message segment_not_present) v
shown-Prints location stack_fault {c} v = puts-Prints (message stack_fault) v
shown-Prints location general_protection {c} v = puts-Prints (message general_protection) v
shown-Prints location page_fault {c} v =
    let p = puts-Prints before v in
    let q = puts-Prints (itoa location 16) p.formed in
    Prints-trans p (Prints-trans q (puts-Prints after q.formed))
shown-Prints location x87_fp_error {c} v = puts-Prints (message x87_fp_error) v
shown-Prints location alignment_check {c} v = puts-Prints (message alignment_check) v
shown-Prints location machine_check {c} v = puts-Prints (message machine_check) v
shown-Prints location simd_fp_error {c} v = puts-Prints (message simd_fp_error) v

-- An exception, in a process whose parent is one of the six processes, on a well-formed console, the
-- parent's descriptors in order: the handler prints the exception's message, the page fault's with the
-- address in hexadecimal, and system_halt goes back to the parent with the status 256.
pub handle_lem :
    (string_at : ℕ → List ℕ) (stack : ℕ → ℕ) (location : ℕ) (e : Exception) (k : Kernel)
    → IsConsole k.console
    → (curr_pcb k).parent_pid < num_processes
    → IsFds (k.pcbs (curr_pcb k).parent_pid).file_descriptors
    → IsHalted exception_status
        (curr_pcb k).parent_pid
        (record k { console = shown location e k.console })
        (handle string_at stack location e k)
unfolding handle
handle_lem string_at stack location e k v p f =
    let p' = shown-Prints location e v in
    let k' = record k { console = shown location e k.console } in
    let who : curr_pid k' ≡ curr_pid k =
      ap (λ t. (terminal k'.console t).pid) p'.curr ∙ p'.process k.console.curr_terminal in
    let parent : (curr_pcb k').parent_pid ≡ (curr_pcb k).parent_pid =
      ap (λ i. (k.pcbs i).parent_pid) who in
    rw (printf-message string_at stack location e k.console, handle)
      (subst (λ i. IsHalted exception_status i k' (system_halt exception_status k')) parent
        (system_halt_lem exception_status k' p'.formed.count p'.formed.curr (rw parent p)
          (subst (λ i. IsFds (k.pcbs i).file_descriptors) (sym parent) f)))
