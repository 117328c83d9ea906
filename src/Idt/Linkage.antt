-- ===== src/Idt/Linkage.antt =====
-- The way of a system call: the stubs of syscalls/ece391syscall.S in the program, and system_call_linkage of
-- student-distrib/syscalls_linkage.S in the kernel, instruction by instruction on the registers and the stack.
-- A stack is the list of its words, the last one pushed first, and ESP is the number of its words: a push makes
-- it one more, and to set ESP to a number leaves so many words. `call` stands for the functions of the table,
-- over a state, and returns what they leave in EAX. By the calling convention of C they keep EBX, ESI, EDI,
-- EBP, and the stack behind their arguments; `clobber` gives what they leave in ECX, EDX, the flags and their
-- arguments' words.
use linux_like_os_project.Prelude.{
  ℕ, ◌-◌, ◌^◌, ◌<◌, ◌≡◌, ◌⊎◌, refl, ap, ◌∙◌, List, [], ◌∷◌, Option, none, some, ltb, leb, ◌==◌,
  ◌||◌, get_or, if◌then◌else◌, Bool, true, arith, length, drop,
}
use linux_like_os_project.Kernel.{minus_one}
use linux_like_os_project.Prelude.State.{M, return, stopped, ◌>>=◌}

-- The functions that the table has.
pub data SystemCall : Type 0 where
  halt_call execute_call read_call write_call open_call : SystemCall
  close_call getargs_call vidmap_call set_handler_call sigreturn_call : SystemCall

-- The numbers of syscalls/ece391sysnum.h.
unfoldable pub sysnum : SystemCall → ℕ
sysnum halt_call = 1
sysnum execute_call = 2
sysnum read_call = 3
sysnum write_call = 4
sysnum open_call = 5
sysnum close_call = 6
sysnum getargs_call = 7
sysnum vidmap_call = 8
sysnum set_handler_call = 9
sysnum sigreturn_call = 10

abbrev pub num_sys_calls : ℕ
num_sys_calls = 10

-- The jump table. Its first entry is 0.
abbrev pub sys_call_table : List (Option SystemCall)
sys_call_table =
    none
    ∷ some halt_call
    ∷ some execute_call
    ∷ some read_call
    ∷ some write_call
    ∷ some open_call
    ∷ some close_call
    ∷ some getargs_call
    ∷ some vidmap_call
    ∷ some set_handler_call
    ∷ some sigreturn_call
    ∷ []

-- The registers, and the stack that ESP points to.
pub record Cpu : Type 0 where
  pub eax : ℕ
  pub ebx : ℕ
  pub ecx : ℕ
  pub edx : ℕ
  pub esi : ℕ
  pub edi : ℕ
  pub ebp : ℕ
  pub eflags : ℕ
  pub stack : List ℕ

unfoldable pub push : ℕ → Cpu → Cpu
push v m = record m { stack = v ∷ m.stack }

-- The word at `n * 4(%esp)`.
unfoldable pub word : ℕ → Cpu → ℕ
word n m = get_or m.stack n 0

-- `addl $4 * n, %esp`.
unfoldable pub discard : ℕ → Cpu → Cpu
discard n m = record m { stack = drop n m.stack }

-- `popl %esp`.
unfoldable pub pop_esp : Cpu → Cpu
unfolding word
pop_esp m = record m { stack = drop (length m.stack - word 0 m) m.stack }

-- The pushes at the start of system_call_linkage, and the pops at its end.
unfoldable pub save_registers : Cpu → Cpu
unfolding push
save_registers m =
    let m1 = push m.eflags m in
    let m2 = push (length m1.stack) m1 in
    let m3 = push m2.ebp m2 in
    let m4 = push m3.edi m3 in
    let m5 = push m4.esi m4 in let m6 = push m5.edx m5 in let m7 = push m6.ecx m6 in push m7.ebx m7

unfoldable pub restore_registers : Cpu → Cpu
unfolding word discard pop_esp
restore_registers m =
    let m1 = discard 1 (record m { ebx = word 0 m }) in
    let m2 = discard 1 (record m1 { ecx = word 0 m1 }) in
    let m3 = discard 1 (record m2 { edx = word 0 m2 }) in
    let m4 = discard 1 (record m3 { esi = word 0 m3 }) in
    let m5 = discard 1 (record m4 { edi = word 0 m4 }) in
    let m6 = discard 1 (record m5 { ebp = word 0 m5 }) in
    let m7 = pop_esp m6 in discard 1 (record m7 { eflags = word 0 m7 })

-- INT from a program: the processor goes over to the kernel's stack and pushes SS, ESP, EFLAGS, CS and EIP.
-- `user` is the program's stack.
unfoldable pub interrupt : ℕ → ℕ → ℕ → Cpu → Cpu
interrupt ss cs eip m = record m { stack = eip ∷ cs ∷ m.eflags ∷ length m.stack ∷ ss ∷ [] }

-- IRET, back to the program's stack.
unfoldable pub iret : List ℕ → Cpu → Cpu
unfolding word
iret user m = record m { eflags = word 2 m; stack = drop (length user - word 3 m) user }

module _ {S : Type 0} (call : SystemCall → ℕ → ℕ → ℕ → M S ℕ)
    (clobber : SystemCall → Cpu → Cpu) where
  -- What a function of the table leaves that returns `value`.
  unfoldable pub after_call : SystemCall → ℕ → Cpu → Cpu
  unfolding word
  after_call f value m =
      let x = clobber f m in
      record m {
        eax = value;
        ecx = x.ecx;
        edx = x.edx;
        eflags = x.eflags;
        stack = word 0 x ∷ word 1 x ∷ word 2 x ∷ drop 3 m.stack;
      }

  -- `call *sys_call_table(, %eax, 4)`.
  unfoldable pub call_entry : Option SystemCall → Cpu → M S Cpu
  unfolding word after_call
  call_entry none m = stopped
  call_entry (some f) m = do
    value ← call f (word 0 m) (word 1 m) (word 2 m)
    return (after_call f value m)

  -- The tests are of a signed number.
  unfoldable pub system_call_linkage : Cpu → M S Cpu
  unfolding push discard save_registers restore_registers call_entry
  system_call_linkage m = do
    let m1 = save_registers m
    let invalid_number = return (restore_registers (record m1 { eax = minus_one }))
    let valid = do
      m2 ←
          call_entry (get_or sys_call_table m1.eax none)
            (push m1.ebx (push m1.ecx (push m1.edx m1)))
      return (restore_registers (discard 3 m2))
    if ((m1.eax == 0) || leb (2 ^ 31) m1.eax) || ltb num_sys_calls m1.eax
        then invalid_number
        else valid

  -- DO_CALL, up to its RET.
  unfoldable pub do_call : ℕ → ℕ → ℕ → ℕ → Cpu → M S Cpu
  unfolding push word discard interrupt iret system_call_linkage
  do_call ss cs eip number m = do
    let m1 = push m.ebx m
    let m2 = record m1 { eax = number; ebx = word 2 m1; ecx = word 3 m1; edx = word 4 m1 }
    m3 ← system_call_linkage (interrupt ss cs eip m2)
    let m4 = iret m2.stack m3
    return (discard 2 (record m4 { ebx = word 0 m4 }))

  -- A number that is no system call's.
  linkage-refused :
      (x : Cpu) (s : S)
      → (((x.eax == 0) || leb (2 ^ 31) x.eax) || ltb num_sys_calls x.eax) ≡ true
      → system_call_linkage x s
        ≡ some (restore_registers (record (save_registers x) { eax = minus_one }), s)
  unfolding system_call_linkage
  linkage-refused x s e = ap (λ (t : Bool). (if t then refusal x else answer x) s) e
    where
      refusal : Cpu → M S Cpu
      refusal x = return (restore_registers (record (save_registers x) { eax = minus_one }))

      answer : Cpu → M S Cpu
      answer x = do
        let m1 = save_registers x
        m2 ←
            call_entry (get_or sys_call_table m1.eax none)
              (push m1.ebx (push m1.ecx (push m1.edx m1)))
        return (restore_registers (discard 3 m2))

  -- A stub of a program that is called with three arguments behind the return address on the stack calls the
  -- kernel's function of the same name with these arguments. When that returns, whatever it leaves in the
  -- registers and words that are its own, EAX is its value, ECX and EDX are the second and the third argument,
  -- EBX, ESI, EDI, EBP and the flags are as they were, and of the stack only the return address is popped. A
  -- number that is no system call's gives -1 in the same way, and calls nothing.
  pub do_call_lem :
      (ss cs eip : ℕ) (f : SystemCall) (n ret a b c : ℕ) (user : List ℕ) (r : Cpu) (s : S)
      → (n ≡ 0) ⊎ (num_sys_calls < n)
      → let m = record r { stack = ret ∷ a ∷ b ∷ c ∷ user } in
        (do_call ss cs eip (sysnum f) m s ≡ (elim (call f a b c s) as (λ _. Option (Cpu × S)) [
          | none ↦ none
          | some (value, s') ↦
              some (record m { eax = value; ecx = b; edx = c; stack = a ∷ b ∷ c ∷ user }, s')
        ]))
        × (do_call ss cs eip n m s
            ≡ some (record m { eax = minus_one; ecx = b; edx = c; stack = a ∷ b ∷ c ∷ user }, s))
  unfolding do_call sysnum
  do_call_lem ss cs eip f n ret a b c user r s h = (known f, unknown h)
    where
      m : Cpu
      m = record r { stack = ret ∷ a ∷ b ∷ c ∷ user }

      m1 : Cpu
      m1 = push m.ebx m

      same : length m1.stack - length m1.stack ≡ 0
      same = omega arith

      -- The program's registers when IRET leaves the stack less its last `j` words.
      resumed : ℕ → ℕ → S → Option (Cpu × S)
      resumed j value s' =
          let u = drop j (r.ebx ∷ ret ∷ a ∷ b ∷ c ∷ user) in
          some
            (record r { eax = value; ebx = get_or u 0 0; ecx = b; edx = c; stack = drop 2 u }, s')

      back : (m3 : Cpu) → Cpu
      back m3 = let m4 = iret m1.stack m3 in discard 2 (record m4 { ebx = word 0 m4 })

      entered : ℕ → Cpu
      entered g = interrupt ss cs eip (record m1 { eax = g; ebx = a; ecx = b; edx = c })

      returns :
          (g : SystemCall) (o : Option (ℕ × S))
          → (elim (elim (elim o as (λ _. Option (Cpu × S)) [
            | none ↦ none
            | some (value, s') ↦ some (
              after_call g value (push a (push b (push c (save_registers (entered (sysnum g)))))),
              s',
            )
          ])
                as (λ _. Option (Cpu × S)) [
                  | none ↦ none
                  | some (m2, s') ↦ some (restore_registers (discard 3 m2), s')
                ])
              as (λ _. Option (Cpu × S)) [ none ↦ none | some (m3, s') ↦ some (back m3, s') ])
            ≡ (elim o as (λ _. Option (Cpu × S)) [
              | none ↦ none
              | some (value, s') ↦
                  some (record m { eax = value; ecx = b; edx = c; stack = a ∷ b ∷ c ∷ user }, s')
            ])
      returns g none = refl
      returns g (some (value, s')) = ap (λ j. resumed j value s') same

      known :
          (g : SystemCall)
          → do_call ss cs eip (sysnum g) m s ≡ (elim (call g a b c s) as (λ _. Option (Cpu × S)) [
            | none ↦ none
            | some (value, s') ↦
                some (record m { eax = value; ecx = b; edx = c; stack = a ∷ b ∷ c ∷ user }, s')
          ])
      known halt_call = returns halt_call (call halt_call a b c s)
      known execute_call = returns execute_call (call execute_call a b c s)
      known read_call = returns read_call (call read_call a b c s)
      known write_call = returns write_call (call write_call a b c s)
      known open_call = returns open_call (call open_call a b c s)
      known close_call = returns close_call (call close_call a b c s)
      known getargs_call = returns getargs_call (call getargs_call a b c s)
      known vidmap_call = returns vidmap_call (call vidmap_call a b c s)
      known set_handler_call = returns set_handler_call (call set_handler_call a b c s)
      known sigreturn_call = returns sigreturn_call (call sigreturn_call a b c s)

      unknown :
          (n ≡ 0) ⊎ (num_sys_calls < n)
          → do_call ss cs eip n m s
            ≡ some (record m { eax = minus_one; ecx = b; edx = c; stack = a ∷ b ∷ c ∷ user }, s)
      unknown k =
          let bad : (((n == 0) || leb (2 ^ 31) n) || ltb num_sys_calls n) ≡ true =
            ground (arith, k) in
          ap
            (λ (o : Option (Cpu × S)). elim o as (λ _. Option (Cpu × S)) [
              | none ↦ none
              | some (m3, s') ↦ some (back m3, s')
            ])
            (linkage-refused (entered n) s bad)
          ∙ ap (λ j. resumed j minus_one s) same
