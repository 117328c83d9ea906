-- ===== src/Idt/Gates.antt =====
-- The gates after build_idt.
use linux_like_os_project.Prelude.{
  ℕ, zero, suc, ◌+◌, ◌*◌, ◌/◌, ◌%◌, ◌^◌, ◌<◌, ◌≡◌, refl, ap, List, [], ◌∷◌, leb, ltb, ◌==◌, ◌&&◌,
  ◌||◌, not, if◌then◌else◌, Bool, true, false, ◌∙◌, Bool-cases, inl, inr, ==_iff, arith,
}
use linux_like_os_project.Idt.{
  Gate, Routine, exception, system_call_linkage, keyboard_handler_linkage, rtc_handler_linkage,
  pit_handler_linkage, divide_error, debug, nmi, breakpoint, overflow, bound_range_exceeded,
  invalid_opcode, device_not_available, double_fault, coprocessor_segment_overrun, invalid_tss,
  segment_not_present, stack_fault, general_protection, page_fault, x87_fp_error, alignment_check,
  machine_check, simd_fp_error, Idt, num_vec, num_exceptions, kernel_cs, system_call_vector,
  change_gate, set_idt_entry, blank_gate, blank_gates, exception_vector, set_handlers, exceptions,
  line_gate, build_idt, Exception,
}

-- The address that a gate leads to.
unfoldable pub offset : Gate → ℕ
offset g = g.offset_15_00 + 2 ^ 16 * g.offset_31_16

-- The vector at which a routine is entered.
unfoldable pub vector : Routine → ℕ
vector (exception e) = exception_vector e
vector system_call_linkage = 0x80
vector keyboard_handler_linkage = 0x21
vector rtc_handler_linkage = 0x28
vector pit_handler_linkage = 0x20

halves : (a : ℕ) → a < 2 ^ 32 → a % 2 ^ 16 + 2 ^ 16 * (a / 2 ^ 16 % 2 ^ 16) ≡ a
halves a below = omega arith

-- Whichever routine the linker placed below 4 GB, the gate at its vector leads to it after
-- build_idt, whatever the table held before.
pub offset-build_idt :
    (addr : Routine → ℕ) (t : Idt) (r : Routine)
    → addr r < 2 ^ 32
    → offset (build_idt addr t (vector r)) ≡ addr r
unfolding offset vector build_idt change_gate set_handlers line_gate set_idt_entry exception_vector
offset-build_idt addr t (exception divide_error) below = halves _ below
offset-build_idt addr t (exception debug) below = halves _ below
offset-build_idt addr t (exception nmi) below = halves _ below
offset-build_idt addr t (exception breakpoint) below = halves _ below
offset-build_idt addr t (exception overflow) below = halves _ below
offset-build_idt addr t (exception bound_range_exceeded) below = halves _ below
offset-build_idt addr t (exception invalid_opcode) below = halves _ below
offset-build_idt addr t (exception device_not_available) below = halves _ below
offset-build_idt addr t (exception double_fault) below = halves _ below
offset-build_idt addr t (exception coprocessor_segment_overrun) below = halves _ below
offset-build_idt addr t (exception invalid_tss) below = halves _ below
offset-build_idt addr t (exception segment_not_present) below = halves _ below
offset-build_idt addr t (exception stack_fault) below = halves _ below
offset-build_idt addr t (exception general_protection) below = halves _ below
offset-build_idt addr t (exception page_fault) below = halves _ below
offset-build_idt addr t (exception x87_fp_error) below = halves _ below
offset-build_idt addr t (exception alignment_check) below = halves _ below
offset-build_idt addr t (exception machine_check) below = halves _ below
offset-build_idt addr t (exception simd_fp_error) below = halves _ below
offset-build_idt addr t system_call_linkage below = halves _ below
offset-build_idt addr t keyboard_handler_linkage below = halves _ below
offset-build_idt addr t rtc_handler_linkage below = halves _ below
offset-build_idt addr t pit_handler_linkage below = halves _ below

blank_gates-at :
    (n i : ℕ) (t : Idt) (j : ℕ)
    → blank_gates n i t j ≡ (if leb i j && ltb j (i + n) then blank_gate j (t j) else t j)
unfolding blank_gates change_gate
blank_gates-at zero i t j = ground arith
blank_gates-at (suc n) i t j = elim (Bool-cases (j == i)) [
  | inl same ↦
      rw (blank_gates-at n (i + 1) (change_gate i (blank_gate i) t) j, same)
        (ground (arith, ap (λ x. blank_gate x (t j)) ((==_iff j i).0 same), same))
  | inr other ↦
      rw (blank_gates-at n (i + 1) (change_gate i (blank_gate i) t) j, other)
        (ground (arith, other))
]

-- The parts of two gates that are not the address.
record Alike (g h : Gate) : Type 0 where
  pub present : g.present ≡ h.present
  pub dpl : g.dpl ≡ h.dpl
  pub reserved3 : g.reserved3 ≡ h.reserved3
  pub seg_selector : g.seg_selector ≡ h.seg_selector

change_gate-Alike :
    (i handler : ℕ) (t : Idt) (j : ℕ) → Alike (change_gate i (set_idt_entry handler) t j) (t j)
unfolding change_gate set_idt_entry
change_gate-Alike i handler t j = elim (Bool-cases (j == i)) [
  | inl here ↦
      rw here (record { present = refl; dpl = refl; reserved3 = refl; seg_selector = refl })
  | inr there ↦
      rw there (record { present = refl; dpl = refl; reserved3 = refl; seg_selector = refl })
]

Alike-trans : {g h k : Gate} → Alike g h → Alike h k → Alike g k
Alike-trans a b = record {
  present = a.present ∙ b.present;
  dpl = a.dpl ∙ b.dpl;
  reserved3 = a.reserved3 ∙ b.reserved3;
  seg_selector = a.seg_selector ∙ b.seg_selector;
}

set_handlers-Alike :
    (addr : Routine → ℕ) (es : List Exception) (t : Idt) (j : ℕ)
    → Alike (set_handlers addr es t j) (t j)
unfolding set_handlers
set_handlers-Alike addr [] t j = record {
  present = refl;
  dpl = refl;
  reserved3 = refl;
  seg_selector = refl;
}
set_handlers-Alike addr (e ∷ es) t j =
    Alike-trans (set_handlers-Alike addr es _ j)
      (change_gate-Alike (exception_vector e) (addr (exception e)) t j)

-- What a line's entry changes.
record Lined (i j : ℕ) (g h : Gate) : Type 0 where
  pub present : g.present ≡ (if j == i then 1 else h.present)
  pub dpl : g.dpl ≡ h.dpl
  pub reserved3 : g.reserved3 ≡ (if j == i then 0 else h.reserved3)
  pub seg_selector : g.seg_selector ≡ h.seg_selector

line_gate-Lined :
    (i handler : ℕ) (t : Idt) (j : ℕ) → Lined i j (change_gate i (line_gate handler) t j) (t j)
unfolding change_gate line_gate set_idt_entry
line_gate-Lined i handler t j = elim (Bool-cases (j == i)) [
  | inl here ↦ record {
    present = rw here refl;
    dpl = rw here refl;
    reserved3 = rw here refl;
    seg_selector = rw here refl;
  }
  | inr there ↦ record {
    present = rw there refl;
    dpl = rw there refl;
    reserved3 = rw there refl;
    seg_selector = rw there refl;
  }
]

abbrev pub is_line : ℕ → Bool
is_line j = (j == 0x20) || ((j == 0x28) || (j == 0x21))

in_one :
    (a b c : Bool) (x y : ℕ)
    → (if a then x else (if b then x else (if c then x else y))) ≡ (if a || (b || c) then x else y)
in_one true b c x y = refl
in_one false true c x y = refl
in_one false false c x y = refl

either :
    (a b l : Bool)
    → ◌≡◌ {A = ℕ}
        (if l then 1 else (if a then 1 else (if b then 1 else 0)))
        (if b || (a || l) then 1 else 0)
either a b true = ground arith
either true b false = ground arith
either false b false = ground arith

-- After build_idt, whatever the table held before: the vectors from 0 to 20 but for 15, the system call's
-- and the three lines' are present and no other of the 256 is; only the system call's is open to user
-- code; the three lines' are interrupt gates and all else are trap gates; and every gate enters the
-- kernel's code segment.
pub build_idt-access :
    (addr : Routine → ℕ) (t : Idt) (j : ℕ)
    → j < num_vec
    → ((build_idt addr t j).present ≡ (
        if (leb j num_exceptions && not (j == 15)) || ((j == system_call_vector) || is_line j)
        then 1
        else 0))
      × ((build_idt addr t j).dpl ≡ (if j == system_call_vector then 3 else 0))
      × ((build_idt addr t j).reserved3 ≡ (if is_line j then 0 else 1))
      × ((build_idt addr t j).seg_selector ≡ kernel_cs)
unfolding build_idt blank_gate
build_idt-access addr t j h =
    let s = set_handlers-Alike addr exceptions (blank_gates num_vec 0 t) j in
    let b = blank_gates-at num_vec 0 t j in
    let inside : (leb 0 j && ltb j (0 + num_vec)) ≡ true = ground (arith, h) in
    let b' = rw inside at b in
    let t0 = set_handlers addr exceptions (blank_gates num_vec 0 t) in
    let t1 = change_gate system_call_vector (set_idt_entry (addr system_call_linkage)) t0 in
    let t2 = change_gate 0x21 (line_gate (addr keyboard_handler_linkage)) t1 in
    let t3 = change_gate 0x28 (line_gate (addr rtc_handler_linkage)) t2 in
    let l0 = change_gate-Alike system_call_vector (addr system_call_linkage) t0 j in
    let l1 = line_gate-Lined 0x21 (addr keyboard_handler_linkage) t1 j in
    let l2 = line_gate-Lined 0x28 (addr rtc_handler_linkage) t2 j in
    let l3 = line_gate-Lined 0x20 (addr pit_handler_linkage) t3 j in
    (
      rw (l3.present, l2.present, l1.present, l0.present, s.present, b')
          (in_one (j == 0x20) (j == 0x28) (j == 0x21) _ _
            ∙ either (j == system_call_vector) (leb j num_exceptions && not (j == 15)) (is_line j)),
      l3.dpl ∙ l2.dpl ∙ l1.dpl ∙ l0.dpl ∙ s.dpl ∙ ap (λ (g : Gate). g.dpl) b',
      rw (l3.reserved3, l2.reserved3, l1.reserved3, l0.reserved3, s.reserved3, b')
          (in_one (j == 0x20) (j == 0x28) (j == 0x21) _ _),
      l3.seg_selector
          ∙ l2.seg_selector
          ∙ l1.seg_selector
          ∙ l0.seg_selector
          ∙ s.seg_selector
          ∙ ap (λ (g : Gate). g.seg_selector) b',
    )
