-- ===== src/Tests/Idt.antt =====
-- Tests of the interrupt table and the exception handlers.
use linux_like_os_project.Prelude.State.{M}
use linux_like_os_project.Idt.Linkage.{SystemCall, read_call, sysnum, Cpu, do_call, do_call_lem}
use linux_like_os_project.Kernel.{minus_one}
use linux_like_os_project.Prelude.{
  ℕ, ◌+◌, ◌≡◌, some, inr, [], ◌∷◌, replicate, leb, ◌==◌, ◌&&◌, ◌||◌, not, if◌then◌else◌, arith,
}
use linux_like_os_project.Idt.{
  Idt, Routine, page_fault, num_exceptions, system_call_vector, kernel_cs, build_idt,
}
use linux_like_os_project.Idt.Gates.{is_line, build_idt-access}
use linux_like_os_project.Idt.Exceptions.{exception_status, handle}
use linux_like_os_project.Idt.Exceptions.Handled.{shown, handle_lem}
use linux_like_os_project.Kernel.Leave.{IsHalted}
use linux_like_os_project.Tests.{sample-IsConsole}
use linux_like_os_project.Tests.Process.{sample_kernel, sample-IsFds}

-- An empty table.
abbrev pub sample_idt : Idt
sample_idt j = record {
  offset_15_00 = 0;
  seg_selector = 0;
  reserved4 = 0;
  reserved3 = 0;
  reserved2 = 0;
  reserved1 = 0;
  size = 0;
  reserved0 = 0;
  dpl = 0;
  present = 0;
  offset_31_16 = 0;
}

abbrev sample_addr : Routine → ℕ
sample_addr r = 0x401234

build_idt-access_example :
    ((build_idt sample_addr sample_idt 0x28).present ≡ (
      if (leb 0x28 num_exceptions && not (0x28 == 15))
        || ((0x28 == system_call_vector) || is_line 0x28)
      then 1
      else 0))
    × ((build_idt sample_addr sample_idt 0x28).dpl ≡ (if 0x28 == system_call_vector then 3 else 0))
    × ((build_idt sample_addr sample_idt 0x28).reserved3 ≡ (if is_line 0x28 then 0 else 1))
    × ((build_idt sample_addr sample_idt 0x28).seg_selector ≡ kernel_cs)
build_idt-access_example = build_idt-access sample_addr sample_idt 0x28 (omega arith)

handle_lem_example :
    IsHalted exception_status 0
      (record sample_kernel { console = shown 0x8048000 page_fault sample_kernel.console })
      (handle (λ a. []) (λ i. 0) 0x8048000 page_fault sample_kernel)
handle_lem_example =
    handle_lem (λ a. []) (λ i. 0) 0x8048000 page_fault sample_kernel sample-IsConsole (omega arith)
      sample-IsFds

-- Functions that return the sum of their arguments, and count the calls.
abbrev sum_call : SystemCall → ℕ → ℕ → ℕ → M ℕ ℕ
sum_call f a b c s = some (a + b + c, s + 1)

-- They leave 9 in the registers and the arguments' words.
abbrev nines : SystemCall → Cpu → Cpu
nines f m = record m { ecx = 9; edx = 9; eflags = 9; stack = replicate 3 9 }

-- A stub called with 5, 6 and 7.
abbrev sample_cpu : Cpu
sample_cpu = record {
  eax = 0;
  ebx = 7;
  ecx = 0;
  edx = 0;
  esi = 1;
  edi = 2;
  ebp = 3;
  eflags = 512;
  stack = 0x8048100 ∷ 5 ∷ 6 ∷ 7 ∷ 8 ∷ [];
}

do_call_lem_example :
    (do_call sum_call nines 0x2B 0x23 0x8048200 3 sample_cpu 0
      ≡ some (record sample_cpu { eax = 18; ecx = 6; edx = 7; stack = 5 ∷ 6 ∷ 7 ∷ 8 ∷ [] }, 1))
    × (do_call sum_call nines 0x2B 0x23 0x8048200 11 sample_cpu 0
        ≡ some (
          record sample_cpu { eax = minus_one; ecx = 6; edx = 7; stack = 5 ∷ 6 ∷ 7 ∷ 8 ∷ [] },
          0,
        ))
unfolding sysnum
do_call_lem_example =
    do_call_lem sum_call nines 0x2B 0x23 0x8048200 read_call 11 0x8048100 5 6 7 (8 ∷ []) sample_cpu
      0 (inr (omega arith))
