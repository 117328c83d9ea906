-- ===== src/Idt/Exceptions.antt =====
-- The exception handlers of student-distrib/idt.c. Each prints its message and halts the process; the page
-- fault's message has the address that page_fault_location of student-distrib/page_fault.S reads from the
-- processor, which is `location` here.
pub mod Handled
use linux_like_os_project.Prelude.{ℕ, List, [], ◌∷◌, ◌++◌, Option, none, some}
use linux_like_os_project.Printf.{printf}
use linux_like_os_project.Kernel.{Kernel}
use linux_like_os_project.Kernel.Halt.{Halted, system_halt}
use linux_like_os_project.Idt.{
  Exception, divide_error, debug, nmi, breakpoint, overflow, bound_range_exceeded, invalid_opcode,
  device_not_available, double_fault, coprocessor_segment_overrun, invalid_tss, segment_not_present,
  stack_fault, general_protection, page_fault, x87_fp_error, alignment_check, machine_check,
  simd_fp_error,
}

abbrev pub exception_status : ℕ
exception_status = 255

-- The formats, without their terminator.
unfoldable pub message : Exception → List ℕ
-- "Divide Error Exception\n"
message divide_error =
    68 ∷ 105 ∷ 118 ∷ 105 ∷ 100 ∷ 101 ∷ 32 ∷ 69 ∷ 114 ∷ 114 ∷ 111 ∷ 114 ∷ 32 ∷ 69 ∷ 120 ∷ 99 ∷ 101
    ∷ 112 ∷ 116 ∷ 105 ∷ 111 ∷ 110 ∷ 10 ∷ []
-- "Debug Exception\n"
message debug =
    68 ∷ 101 ∷ 98 ∷ 117 ∷ 103 ∷ 32 ∷ 69 ∷ 120 ∷ 99 ∷ 101 ∷ 112 ∷ 116 ∷ 105 ∷ 111 ∷ 110 ∷ 10 ∷ []
-- "NMI Interrupt\n"
message nmi = 78 ∷ 77 ∷ 73 ∷ 32 ∷ 73 ∷ 110 ∷ 116 ∷ 101 ∷ 114 ∷ 114 ∷ 117 ∷ 112 ∷ 116 ∷ 10 ∷ []
-- "Breakpoint Exception\n"
message breakpoint =
    66 ∷ 114 ∷ 101 ∷ 97 ∷ 107 ∷ 112 ∷ 111 ∷ 105 ∷ 110 ∷ 116 ∷ 32 ∷ 69 ∷ 120 ∷ 99 ∷ 101 ∷ 112 ∷ 116
    ∷ 105 ∷ 111 ∷ 110 ∷ 10 ∷ []
-- "Overflow Exception\n"
message overflow =
    79 ∷ 118 ∷ 101 ∷ 114 ∷ 102 ∷ 108 ∷ 111 ∷ 119 ∷ 32 ∷ 69 ∷ 120 ∷ 99 ∷ 101 ∷ 112 ∷ 116 ∷ 105 ∷ 111
    ∷ 110 ∷ 10 ∷ []
-- "BOUND Range Exceeded Exception\n"
message bound_range_exceeded =
    66 ∷ 79 ∷ 85 ∷ 78 ∷ 68 ∷ 32 ∷ 82 ∷ 97 ∷ 110 ∷ 103 ∷ 101 ∷ 32 ∷ 69 ∷ 120 ∷ 99 ∷ 101 ∷ 101 ∷ 100
    ∷ 101 ∷ 100 ∷ 32 ∷ 69 ∷ 120 ∷ 99 ∷ 101 ∷ 112 ∷ 116 ∷ 105 ∷ 111 ∷ 110 ∷ 10 ∷ []
-- "Invalid Opcode Exception\n"
message invalid_opcode =
    73 ∷ 110 ∷ 118 ∷ 97 ∷ 108 ∷ 105 ∷ 100 ∷ 32 ∷ 79 ∷ 112 ∷ 99 ∷ 111 ∷ 100 ∷ 101 ∷ 32 ∷ 69 ∷ 120
    ∷ 99 ∷ 101 ∷ 112 ∷ 116 ∷ 105 ∷ 111 ∷ 110 ∷ 10 ∷ []
-- "Device Not Available Exception\n"
message device_not_available =
    68 ∷ 101 ∷ 118 ∷ 105 ∷ 99 ∷ 101 ∷ 32 ∷ 78 ∷ 111 ∷ 116 ∷ 32 ∷ 65 ∷ 118 ∷ 97 ∷ 105 ∷ 108 ∷ 97 ∷ 98
    ∷ 108 ∷ 101 ∷ 32 ∷ 69 ∷ 120 ∷ 99 ∷ 101 ∷ 112 ∷ 116 ∷ 105 ∷ 111 ∷ 110 ∷ 10 ∷ []
-- "Double Fault Exception\n"
message double_fault =
    68 ∷ 111 ∷ 117 ∷ 98 ∷ 108 ∷ 101 ∷ 32 ∷ 70 ∷ 97 ∷ 117 ∷ 108 ∷ 116 ∷ 32 ∷ 69 ∷ 120 ∷ 99 ∷ 101
    ∷ 112 ∷ 116 ∷ 105 ∷ 111 ∷ 110 ∷ 10 ∷ []
-- "Coprocessor Segment Overrun\n"
message coprocessor_segment_overrun =
    67 ∷ 111 ∷ 112 ∷ 114 ∷ 111 ∷ 99 ∷ 101 ∷ 115 ∷ 115 ∷ 111 ∷ 114 ∷ 32 ∷ 83 ∷ 101 ∷ 103 ∷ 109 ∷ 101
    ∷ 110 ∷ 116 ∷ 32 ∷ 79 ∷ 118 ∷ 101 ∷ 114 ∷ 114 ∷ 117 ∷ 110 ∷ 10 ∷ []
-- "Invalid TSS Exception\n"
message invalid_tss =
    73 ∷ 110 ∷ 118 ∷ 97 ∷ 108 ∷ 105 ∷ 100 ∷ 32 ∷ 84 ∷ 83 ∷ 83 ∷ 32 ∷ 69 ∷ 120 ∷ 99 ∷ 101 ∷ 112 ∷ 116
    ∷ 105 ∷ 111 ∷ 110 ∷ 10 ∷ []
-- "Segment Not Present\n"
message segment_not_present =
    83 ∷ 101 ∷ 103 ∷ 109 ∷ 101 ∷ 110 ∷ 116 ∷ 32 ∷ 78 ∷ 111 ∷ 116 ∷ 32 ∷ 80 ∷ 114 ∷ 101 ∷ 115 ∷ 101
    ∷ 110 ∷ 116 ∷ 10 ∷ []
-- "Stack Fault Exception\n"
message stack_fault =
    83 ∷ 116 ∷ 97 ∷ 99 ∷ 107 ∷ 32 ∷ 70 ∷ 97 ∷ 117 ∷ 108 ∷ 116 ∷ 32 ∷ 69 ∷ 120 ∷ 99 ∷ 101 ∷ 112 ∷ 116
    ∷ 105 ∷ 111 ∷ 110 ∷ 10 ∷ []
-- "General Protection Exception\n"
message general_protection =
    71 ∷ 101 ∷ 110 ∷ 101 ∷ 114 ∷ 97 ∷ 108 ∷ 32 ∷ 80 ∷ 114 ∷ 111 ∷ 116 ∷ 101 ∷ 99 ∷ 116 ∷ 105 ∷ 111
    ∷ 110 ∷ 32 ∷ 69 ∷ 120 ∷ 99 ∷ 101 ∷ 112 ∷ 116 ∷ 105 ∷ 111 ∷ 110 ∷ 10 ∷ []
-- "Page-Fault Exception: %x \n"
message page_fault =
    80 ∷ 97 ∷ 103 ∷ 101 ∷ 45 ∷ 70 ∷ 97 ∷ 117 ∷ 108 ∷ 116 ∷ 32 ∷ 69 ∷ 120 ∷ 99 ∷ 101 ∷ 112 ∷ 116
    ∷ 105 ∷ 111 ∷ 110 ∷ 58 ∷ 32 ∷ 37 ∷ 120 ∷ 32 ∷ 10 ∷ []
-- "x87 FPU Floating-Point Error\n"
message x87_fp_error =
    120 ∷ 56 ∷ 55 ∷ 32 ∷ 70 ∷ 80 ∷ 85 ∷ 32 ∷ 70 ∷ 108 ∷ 111 ∷ 97 ∷ 116 ∷ 105 ∷ 110 ∷ 103 ∷ 45 ∷ 80
    ∷ 111 ∷ 105 ∷ 110 ∷ 116 ∷ 32 ∷ 69 ∷ 114 ∷ 114 ∷ 111 ∷ 114 ∷ 10 ∷ []
-- "Alignment Check Exception\n"
message alignment_check =
    65 ∷ 108 ∷ 105 ∷ 103 ∷ 110 ∷ 109 ∷ 101 ∷ 110 ∷ 116 ∷ 32 ∷ 67 ∷ 104 ∷ 101 ∷ 99 ∷ 107 ∷ 32 ∷ 69
    ∷ 120 ∷ 99 ∷ 101 ∷ 112 ∷ 116 ∷ 105 ∷ 111 ∷ 110 ∷ 10 ∷ []
-- "Machine-Check Exception\n"
message machine_check =
    77 ∷ 97 ∷ 99 ∷ 104 ∷ 105 ∷ 110 ∷ 101 ∷ 45 ∷ 67 ∷ 104 ∷ 101 ∷ 99 ∷ 107 ∷ 32 ∷ 69 ∷ 120 ∷ 99 ∷ 101
    ∷ 112 ∷ 116 ∷ 105 ∷ 111 ∷ 110 ∷ 10 ∷ []
-- "SIMD Floating-Point Exception\n"
message simd_fp_error =
    83 ∷ 73 ∷ 77 ∷ 68 ∷ 32 ∷ 70 ∷ 108 ∷ 111 ∷ 97 ∷ 116 ∷ 105 ∷ 110 ∷ 103 ∷ 45 ∷ 80 ∷ 111 ∷ 105 ∷ 110
    ∷ 116 ∷ 32 ∷ 69 ∷ 120 ∷ 99 ∷ 101 ∷ 112 ∷ 116 ∷ 105 ∷ 111 ∷ 110 ∷ 10 ∷ []

-- The words on the stack behind the format.
unfoldable pub words : (ℕ → ℕ) → ℕ → Exception → ℕ → ℕ
words stack location page_fault = λ i. location
words stack location e = stack

-- A handler. Only the page fault's passes a word to printf.
unfoldable pub handle : (ℕ → List ℕ) → (ℕ → ℕ) → ℕ → Exception → Kernel → Option Halted
unfolding message
handle string_at stack location e k =
    elim (printf string_at (words stack location e) (message e ++ (0 ∷ [])) k.console) [
      | none ↦ none
      | some r ↦ system_halt exception_status (record k { console = r.1 })
    ]
