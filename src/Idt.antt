-- ===== src/Idt.antt =====
-- The interrupt table of student-distrib/idt.c, with its entry and SET_IDT_ENTRY of
-- student-distrib/x86_desc.h. `addr` gives the address at which the linker puts a routine.
pub mod Linkage
pub mod Gates
pub mod Exceptions
use linux_like_os_project.Prelude.{
  ℕ, zero, suc, ◌+◌, ◌*◌, ◌/◌, ◌%◌, ◌^◌, List, [], ◌∷◌, leb, ◌==◌, ◌&&◌, not, if◌then◌else◌,
}

-- `idt_desc_t`.
pub record Gate : Type 0 where
  pub offset_15_00 : ℕ
  pub seg_selector : ℕ
  pub reserved4 : ℕ
  pub reserved3 : ℕ
  pub reserved2 : ℕ
  pub reserved1 : ℕ
  pub size : ℕ
  pub reserved0 : ℕ
  pub dpl : ℕ
  pub present : ℕ
  pub offset_31_16 : ℕ

-- The exceptions that have a handler.
pub data Exception : Type 0 where
  divide_error debug nmi breakpoint overflow bound_range_exceeded invalid_opcode : Exception
  device_not_available double_fault coprocessor_segment_overrun invalid_tss : Exception
  segment_not_present stack_fault general_protection page_fault x87_fp_error : Exception
  alignment_check machine_check simd_fp_error : Exception

-- What a gate leads to.
pub data Routine : Type 0 where
  exception : Exception → Routine
  system_call_linkage keyboard_handler_linkage rtc_handler_linkage pit_handler_linkage : Routine

abbrev pub Idt : Type 0
Idt = ℕ → Gate

abbrev pub num_vec : ℕ
num_vec = 256

abbrev pub num_exceptions : ℕ
num_exceptions = 20

abbrev pub system_call_vector : ℕ
system_call_vector = 0x80

abbrev pub kernel_cs : ℕ
kernel_cs = 0x10

-- One entry changed.
unfoldable pub change_gate : ℕ → (Gate → Gate) → Idt → Idt
change_gate i f t j = if j == i then f (t j) else t j

unfoldable pub set_idt_entry : ℕ → Gate → Gate
set_idt_entry handler g = record g {
  offset_31_16 = handler / 2 ^ 16 % 2 ^ 16;
  offset_15_00 = handler % 2 ^ 16;
}

-- The body of the loop over the vectors.
unfoldable pub blank_gate : ℕ → Gate → Gate
blank_gate i g = record g {
  seg_selector = kernel_cs;
  reserved4 = 0;
  reserved3 = 1;
  reserved2 = 1;
  reserved1 = 1;
  size = 1;
  reserved0 = 0;
  dpl = if i == system_call_vector then 3 else 0;
  present =
      if i == system_call_vector
      then 1
      else (if leb i num_exceptions && not (i == 15) then 1 else 0);
}

-- The loop, with `n` vectors left from `i` on.
unfoldable pub blank_gates : ℕ → ℕ → Idt → Idt
unfolding blank_gate change_gate
blank_gates zero i t = t
blank_gates (suc n) i t = blank_gates n (i + 1) (change_gate i (blank_gate i) t)

-- The vector of an exception.
unfoldable pub exception_vector : Exception → ℕ
exception_vector divide_error = 0
exception_vector debug = 1
exception_vector nmi = 2
exception_vector breakpoint = 3
exception_vector overflow = 4
exception_vector bound_range_exceeded = 5
exception_vector invalid_opcode = 6
exception_vector device_not_available = 7
exception_vector double_fault = 8
exception_vector coprocessor_segment_overrun = 9
exception_vector invalid_tss = 10
exception_vector segment_not_present = 11
exception_vector stack_fault = 12
exception_vector general_protection = 13
exception_vector page_fault = 14
exception_vector x87_fp_error = 16
exception_vector alignment_check = 17
exception_vector machine_check = 18
exception_vector simd_fp_error = 19

-- The calls of SET_IDT_ENTRY, in their order.
unfoldable pub set_handlers : (Routine → ℕ) → List Exception → Idt → Idt
unfolding exception_vector set_idt_entry change_gate
set_handlers addr [] t = t
set_handlers addr (e ∷ es) t =
    set_handlers addr es (change_gate (exception_vector e) (set_idt_entry (addr (exception e))) t)

abbrev pub exceptions : List Exception
exceptions =
    divide_error ∷ debug ∷ nmi ∷ breakpoint ∷ overflow ∷ bound_range_exceeded ∷ invalid_opcode
    ∷ device_not_available ∷ double_fault ∷ coprocessor_segment_overrun ∷ invalid_tss
    ∷ segment_not_present ∷ stack_fault ∷ general_protection ∷ page_fault ∷ x87_fp_error
    ∷ alignment_check ∷ machine_check ∷ simd_fp_error ∷ []

-- An interrupt gate: the table's entry for a line of the controller.
unfoldable pub line_gate : ℕ → Gate → Gate
unfolding set_idt_entry
line_gate handler g = set_idt_entry handler (record g { reserved3 = 0; present = 1 })

unfoldable pub build_idt : (Routine → ℕ) → Idt → Idt
unfolding blank_gates set_handlers set_idt_entry line_gate change_gate
build_idt addr t = change_gate 0x20 (line_gate (addr pit_handler_linkage)) (
    change_gate 0x28 (line_gate (addr rtc_handler_linkage)) (
      change_gate 0x21 (line_gate (addr keyboard_handler_linkage)) (
        change_gate system_call_vector (set_idt_entry (addr system_call_linkage))
          (set_handlers addr exceptions (blank_gates num_vec 0 t)))))
