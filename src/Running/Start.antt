-- ===== src/Running/Start.antt =====
-- From entry of student-distrib/kernel.c to the three running shells.
use mathlib.Core.Path.{subst}
use linux_like_os_project.Prelude.{
  ℕ, zero, suc, ◌+◌, ◌<◌, ◌≡◌, refl, sym, ap, ◌∙◌, List, [], ◌∷◌, Option, none, some, get_or, set,
  replicate, arith,
}
use linux_like_os_project.FileSys.{Image}
use linux_like_os_project.Console.{Console, terminal, puts, clear, max_terminals}
use linux_like_os_project.Console.Cursor.{IsConsole}
use linux_like_os_project.Console.Output.{Prints-trans, puts-Prints, clear-Prints}
use linux_like_os_project.LineEdit.{init_terminal, reset_terminal}
use linux_like_os_project.Keyboard.{init_ps2devices}
use linux_like_os_project.Pic.{i8259_init}
use linux_like_os_project.Paging.{num_processes}
use linux_like_os_project.Printf.Plain.{is_text, plain_message}
use linux_like_os_project.Idt.{Routine}
use linux_like_os_project.Kernel.{Kernel}
use linux_like_os_project.Kernel.Launch.{IsFreePid, IsFoundPid, find_pid-IsFoundPid}
use linux_like_os_project.Kernel.Execute.{Registers, Outcome, entered, find_pid, system_execute}
use linux_like_os_project.Kernel.Pit.{init_pit}
use linux_like_os_project.Kernel.Schedule.{started, scheduler, shell}
use linux_like_os_project.Kernel.Forest.{IsForest}
use linux_like_os_project.Boot.{Machine, enabling, initialise, start_shell, boot}
use linux_like_os_project.Boot.Started.{init_terminal-IsConsole}
use linux_like_os_project.Running.{IsRunning, IsTyped}
use linux_like_os_project.Running.Shells.{IsDue, IsUp, HasShell, Enters, shell-Enters}
use linux_like_os_project.Running.Timer.{timer-Enters}

free-none : (p : ℕ) → get_or {A = ℕ} (replicate num_processes 0) p 0 ≡ 0
free-none zero = refl
free-none (suc zero) = refl
free-none (suc (suc zero)) = refl
free-none (suc (suc (suc zero))) = refl
free-none (suc (suc (suc (suc zero)))) = refl
free-none (suc (suc (suc (suc (suc zero))))) = refl
free-none (suc (suc (suc (suc (suc (suc p)))))) = refl

-- No process, and no terminal with one.
empty-IsForest :
    (ps : List ℕ) (top parent : ℕ → ℕ) → ps ≡ replicate num_processes 0 → IsForest 0 ps top parent
empty-IsForest ps top parent e =
    subst (λ s. IsForest 0 s top parent) (sym e)
      (record {
        count = refl;
        taken = λ i h. absurd (omega arith);
        apart = λ i j h. absurd (omega arith);
        rooted = λ p t. absurd (t (free-none p));
        leaf = λ p i t. absurd (t (free-none p));
        one_child = λ p q t. absurd (t (free-none p));
      })

-- The three numbers that the shells take, and that each is the lowest free one.
first-free : find_pid num_processes 0 (0 ∷ 0 ∷ 0 ∷ 0 ∷ 0 ∷ 0 ∷ []) ≡ some 0
unfolding find_pid
first-free = refl

second-free : find_pid num_processes 0 (1 ∷ 0 ∷ 0 ∷ 0 ∷ 0 ∷ 0 ∷ []) ≡ some 1
unfolding find_pid
second-free = refl

third-free : find_pid num_processes 0 (1 ∷ 1 ∷ 0 ∷ 0 ∷ 0 ∷ 0 ∷ []) ≡ some 2
unfolding find_pid
third-free = refl

free-at :
    (ps : List ℕ) (pid : ℕ)
    → find_pid num_processes 0 ps ≡ some pid
    → IsFreePid ps 0 num_processes pid
unfolding IsFoundPid
free-at ps pid e = subst (IsFoundPid ps 0 num_processes) e (find_pid-IsFoundPid num_processes 0 ps)

-- The state that entry gives to its first system_execute.
start-IsDue :
    (k : Kernel) (c : Console)
    → IsConsole c
    → c.curr_terminal ≡ 0
    → (terminal c 0).flag ≡ 1
    → ((i : ℕ) → 0 < i → i < max_terminals → (terminal c i).flag ≡ 0)
    → k.base_shell ≡ 1
    → k.cur_processes ≡ replicate num_processes 0
    → IsTyped k.image
    → IsDue 0 (record k { console = clear (puts enabling c) })
start-IsDue k c v e f later b free typed =
    let p = puts-Prints enabling v in
    let q = clear-Prints p.formed in
    let s = Prints-trans p q in
    record {
      formed = s.formed;
      scheduled = s.curr ∙ e;
      begun = λ i h. s.flag i ∙ zero-only i h;
      later = λ i a h. s.flag i ∙ later i a h;
      base = b;
      forest = empty-IsForest k.cur_processes _ _ free;
      files = λ p t. absurd (t (ap (λ ps. get_or ps p 0) free ∙ free-none p));
      typed = typed;
    }
  where
    zero-only : (i : ℕ) → i < 0 + 1 → (terminal c i).flag ≡ 1
    zero-only zero h = f
    zero-only (suc i) h = absurd (omega arith)

-- A shell is entered with the process table known.
entered-at :
    {n : ℕ} (regs : Registers) (buf : List ℕ) (pid : ℕ) (ps : List ℕ) (k : Kernel)
    → k.cur_processes ≡ ps
    → find_pid num_processes 0 ps ≡ some pid
    → IsDue n k
    → HasShell k.image
    → (eip : ℕ) × (k' : Kernel) × (system_execute regs buf (some shell) k ≡ entered eip k')
      × Enters n pid k k'
entered-at regs buf pid ps k e found v has =
    shell-Enters regs buf pid k v has (ap (find_pid num_processes 0) e ∙ found)
      (free-at k.cur_processes pid (ap (find_pid num_processes 0) e ∙ found))

timed-at :
    {n : ℕ} (regs : Registers) (buf : List ℕ) (pid : ℕ) (ps : List ℕ) (k : Kernel)
    → n + 1 < max_terminals
    → k.cur_processes ≡ ps
    → find_pid num_processes 0 ps ≡ some pid
    → IsUp n k
    → HasShell k.image
    → (eip : ℕ) × (k' : Kernel) × (scheduler regs buf k ≡ started eip k') × Enters (n + 1) pid k k'
timed-at regs buf pid ps k h e found v has =
    timer-Enters regs buf pid k h v has (ap (find_pid num_processes 0) e ∙ found)
      (free-at k.cur_processes pid (ap (find_pid num_processes 0) e ∙ found))

-- What the first shell and two interrupts of the timer lead to.
abbrev pub Rises : Registers → List ℕ → Registers → List ℕ → Outcome → Type 0
Rises regs1 buf1 regs2 buf2 o =
    (eip0 : ℕ) × (k0 : Kernel) × (o ≡ entered eip0 k0)
    × (eip1 : ℕ) × (k1 : Kernel) × (scheduler regs1 buf1 k0 ≡ started eip1 k1)
    × (eip2 : ℕ) × (k2 : Kernel) × (scheduler regs2 buf2 k1 ≡ started eip2 k2)
    × IsRunning max_terminals k2

due-Rises :
    (regs regs1 regs2 : Registers) (buf buf1 buf2 : List ℕ) (k : Kernel)
    → k.cur_processes ≡ replicate num_processes 0
    → IsDue 0 k
    → HasShell k.image
    → Rises regs1 buf1 regs2 buf2 (system_execute regs buf (some shell) k)
due-Rises regs regs1 regs2 buf buf1 buf2 k free v has =
    let (eip0, k0, e0, s0) = entered-at regs buf 0 _ k free first-free v has in
    let p0 = s0.processes ∙ ap (λ ps. set ps 0 1) free in
    let has0 = subst HasShell (sym s0.image) has in
    let (eip1, k1, e1, s1) = timed-at regs1 buf1 1 _ k0 (omega arith) p0 second-free s0.up has0 in
    let p1 = s1.processes ∙ ap (λ ps. set ps 1 1) p0 in
    let has1 = subst HasShell (sym s1.image) has0 in
    let (eip2, k2, e2, s2) = timed-at regs2 buf2 2 _ k1 (omega arith) p1 third-free s1.up has1 in
    (eip0, k0, e0, eip1, k1, e1, eip2, k2, e2, s2.up.running)

-- What boot gives.
unfoldable pub BootRises :
    Registers → List ℕ → Registers → List ℕ → Option (Machine × Outcome) → Type 0
BootRises regs1 buf1 regs2 buf2 none = ⊥
BootRises regs1 buf1 regs2 buf2 (some r) = Rises regs1 buf1 regs2 buf2 r.1

start_shell-BootRises :
    (string_at : ℕ → List ℕ) (stack : ℕ → ℕ) (regs regs1 regs2 : Registers) (buf buf1 buf2 : List ℕ)
    (m : Machine)
    → m.kernel.cur_processes ≡ replicate num_processes 0
    → IsDue 0 (record m.kernel { console = clear (puts enabling m.kernel.console) })
    → HasShell m.kernel.image
    → BootRises regs1 buf1 regs2 buf2 (start_shell string_at stack regs buf m)
unfolding start_shell BootRises is_text
start_shell-BootRises string_at stack regs regs1 regs2 buf buf1 buf2 m free v has =
    rw (plain_message string_at stack enabling m.kernel.console refl, start_shell)
      (due-Rises regs regs1 regs2 buf buf1 buf2
        (record m.kernel { console = clear (puts enabling m.kernel.console) }) free v has)

-- entry from its initialisation on, with the process table empty, and a module's file system that has a
-- program "shell" and no entry of another type than the three: the shell of the first terminal is entered,
-- two interrupts of the timer enter those of the other two, whatever the registers, and the three run: each
-- terminal has a process with its descriptors in order and no parent, on a well-formed console.
pub boot-Rises :
    (string_at : ℕ → List ℕ) (stack : ℕ → ℕ) (regs regs1 regs2 : Registers) (buf buf1 buf2 : List ℕ)
    (addr : Routine → ℕ) (table_addr : ℕ) (image : Image) (m : Machine)
    → m.kernel.cur_processes ≡ replicate num_processes 0
    → HasShell image
    → IsTyped image
    → BootRises regs1 buf1 regs2 buf2 (boot string_at stack regs buf addr table_addr image m)
unfolding boot initialise init_ps2devices init_pit init_terminal reset_terminal
boot-Rises string_at stack regs regs1 regs2 buf buf1 buf2 addr table_addr image m free has typed =
    let m1 = initialise addr table_addr image m in
    start_shell-BootRises string_at stack regs regs1 regs2 buf buf1 buf2 m1 free
      (start-IsDue m1.kernel m1.kernel.console
        (init_terminal-IsConsole (init_ps2devices (i8259_init m.pic) m.kernel.console).1 0) refl
        refl later refl free typed)
      has
  where
    later :
        (i : ℕ)
        → 0 < i
        → i < max_terminals
        → (terminal (initialise addr table_addr image m).kernel.console i).flag ≡ 0
    later zero a h = absurd (omega arith)
    later (suc zero) a h = refl
    later (suc (suc zero)) a h = refl
    later (suc (suc (suc i))) a h = absurd (omega arith)
