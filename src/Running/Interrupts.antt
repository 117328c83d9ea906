-- ===== src/Running/Interrupts.antt =====
-- The timer of student-distrib/pit.c, the keyboard of keyboard.c, the clock of rtc.c and the exceptions of
-- idt.c on the whole state.
use mathlib.Core.Path.{subst}
use linux_like_os_project.Prelude.{
  ℕ, ◌<◌, ◌≡◌, refl, sym, ap, List, some, ◌==◌, ==_iff, inl, inr, Bool-cases, arith,
}
use linux_like_os_project.Console.{max_terminals}
use linux_like_os_project.Console.Cursor.{IsConsole}
use linux_like_os_project.Console.Output.{Prints-Stays}
use linux_like_os_project.Paging.{set_video_base}
use linux_like_os_project.Rtc.{rtc_handler}
use linux_like_os_project.Keyboard.{Keyboard, keyboard_handler}
use linux_like_os_project.Keyboard.Kept.{KeyKept, keyboard_handler-KeyKept}
use linux_like_os_project.Idt.{Exception}
use linux_like_os_project.Idt.Exceptions.{handle, exception_status}
use linux_like_os_project.Idt.Exceptions.Handled.{shown, printf-message, shown-Prints}
use linux_like_os_project.Kernel.{Kernel, curr_pid, set_pcb}
use linux_like_os_project.Kernel.Safety.{IsFds}
use linux_like_os_project.Kernel.Execute.{Registers}
use linux_like_os_project.Kernel.Schedule.{
  Switched, switched, started, scheduler, save_old, enter_next,
}
use linux_like_os_project.Kernel.Rounds.{next, scheduler-switched}
use linux_like_os_project.Kernel.Forest.{IsForest-same}
use linux_like_os_project.Running.{IsRunning, Quiet, Quiet-refl, Quiet-IsRunning, console-Quiet}
use linux_like_os_project.Running.Halt.{HaltRuns, system_halt-HaltRuns}

-- The stack pointers of the process that is left, and the next terminal.
pub save_old-IsRunning :
    {n : ℕ} (regs : Registers) (k : Kernel) → IsRunning n k → IsRunning n (save_old regs k)
unfolding save_old set_pcb
save_old-IsRunning {n} regs k v = record {
  formed = record {
    count = v.formed.count;
    curr = ground arith;
    screen = v.formed.screen;
    placed = v.formed.placed;
  };
  started = v.started;
  base = v.base;
  forest = IsForest-same refl (λ i. refl) parent v.forest;
  files = λ p t. subst IsFds (sym (same p)) (v.files p t);
  typed = v.typed;
}
  where
    parent : (p : ℕ) → ((save_old regs k).pcbs p).parent_pid ≡ (k.pcbs p).parent_pid
    parent p = elim (Bool-cases (p == curr_pid k)) [
      | inl e ↦ rw e (ap (λ q. (k.pcbs q).parent_pid) (sym ((==_iff _ _).0 e)))
      | inr ne ↦ rw ne refl
    ]

    same : (p : ℕ) → ((save_old regs k).pcbs p).file_descriptors ≡ (k.pcbs p).file_descriptors
    same p = elim (Bool-cases (p == curr_pid k)) [
      | inl e ↦ rw e (ap (λ q. (k.pcbs q).file_descriptors) (sym ((==_iff _ _).0 e)))
      | inr ne ↦ rw ne refl
    ]

enter_next-Quiet : (k : Kernel) → IsConsole k.console → Quiet k (enter_next k)
unfolding enter_next
enter_next-Quiet k v = record {
  console = (Quiet-refl {k = k} v).console;
  processes = refl;
  base = refl;
  image = refl;
  parent = λ p. refl;
  order = λ p f. f;
}

-- The state that the timer leaves.
unfoldable pub after_switch : Switched → Kernel
after_switch (switched esp ebp k') = k'
after_switch (started eip k') = k'

pub next-IsRunning :
    {n : ℕ} (regs : Registers) (k : Kernel) → IsRunning n k → IsRunning n (next regs k)
next-IsRunning regs k v =
    let w = save_old-IsRunning regs k v in
    Quiet-IsRunning w (enter_next-Quiet (save_old regs k) w.formed)

pub scheduler-IsRunning :
    (regs : Registers) (buf : List ℕ) (k : Kernel)
    → IsRunning max_terminals k
    → IsRunning max_terminals (after_switch (scheduler regs buf k))
unfolding after_switch
scheduler-IsRunning regs buf k v =
    subst (λ s. IsRunning max_terminals (after_switch s))
      (sym (scheduler-switched regs buf k (v.started _ (ground arith)))) (next-IsRunning regs k v)

pub clock-Quiet :
    (k : Kernel) → IsConsole k.console → Quiet k (record k { rtc = rtc_handler k.rtc })
clock-Quiet k v = record {
  console = (Quiet-refl {k = k} v).console;
  processes = refl;
  base = refl;
  image = refl;
  parent = λ p. refl;
  order = λ p f. f;
}

-- The keyboard's effects on the console and on vid_map.
unfoldable pub typed_on : Keyboard → Kernel → Kernel
typed_on b k = record k { console = b.console; paging = set_video_base b.vid_map_base k.paging }

pub key-Quiet :
    (unset response : ℕ) (b b' : Keyboard) (k : Kernel)
    → IsConsole k.console
    → b.console ≡ k.console
    → keyboard_handler unset response b ≡ some b'
    → Quiet k (typed_on b' k)
unfolding typed_on KeyKept
key-Quiet unset response b b' k v e done =
    let s = subst (KeyKept b) done (keyboard_handler-KeyKept unset response b (rw e v)) in
    record {
      console = rw e at s;
      processes = refl;
      base = refl;
      image = refl;
      parent = λ p. refl;
      order = λ p f. f;
    }

pub handle-HaltRuns :
    (n : ℕ) (string_at : ℕ → List ℕ) (stack : ℕ → ℕ) (location : ℕ) (e : Exception) (k : Kernel)
    → IsRunning n k
    → k.console.curr_terminal < n
    → HaltRuns n (handle string_at stack location e k)
unfolding handle
handle-HaltRuns n string_at stack location e k v h =
    let p = shown-Prints location e v.formed in
    let q : Quiet k (record k { console = shown location e k.console }) =
      console-Quiet (Prints-Stays p) in
    rw (printf-message string_at stack location e k.console, handle)
      (system_halt-HaltRuns n exception_status (record k { console = shown location e k.console })
        (Quiet-IsRunning v q) (rw p.curr h))
