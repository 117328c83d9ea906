-- ===== src/Running/Steps.antt =====
-- The events of the running kernel, one after the other: the system calls of student-distrib/syscalls.c by
-- the program that runs, its exceptions, and the interrupts of the timer, the keyboard and the clock.
use linux_like_os_project.Prelude.{ℕ, ◌≡◌, List, Option, some, true}
use linux_like_os_project.Prelude.Int.{ℤ}
use linux_like_os_project.Console.{max_terminals}
use linux_like_os_project.Rtc.{rtc_handler}
use linux_like_os_project.Keyboard.{Keyboard, keyboard_handler}
use linux_like_os_project.Idt.{Exception}
use linux_like_os_project.Idt.Exceptions.{handle}
use linux_like_os_project.Kernel.{Kernel, curr_pid}
use linux_like_os_project.Kernel.Descriptors.{curr_fds}
use linux_like_os_project.Kernel.Safety.{IsFds}
use linux_like_os_project.Kernel.Calls.{
  Reply, done, blocked, system_read, system_write, system_open, system_close,
}
use linux_like_os_project.Kernel.Execute.{Outcome, failed, entered, Registers, system_execute}
use linux_like_os_project.Kernel.Halt.{Halted, restarted, resumed, system_halt}
use linux_like_os_project.Kernel.Schedule.{scheduler}
use linux_like_os_project.Kernel.Vidmap.{system_vidmap}
use linux_like_os_project.Running.Buffer.{InUserPage}
use linux_like_os_project.Running.{IsRunning}
use linux_like_os_project.Running.Interrupts.{after_switch, typed_on}

-- The states that the results carry.
unfoldable pub after_read : Reply → Kernel
after_read (done value bytes k') = k'
after_read (blocked k') = k'

unfoldable pub after_execute : Outcome → Kernel
after_execute (failed k') = k'
after_execute (entered eip k') = k'

unfoldable pub after_halt : Halted → Kernel
after_halt (restarted eip k') = k'
after_halt (resumed status esp ebp k') = k'

-- One event. system_read does not check its buffer's address, and can be made to write the kernel's memory;
-- the event is a read into the program's own page. A key is one with which edit_buffer does not write past
-- the terminal's buffer. The other arguments are any, and so are the modifier keys that are held and the
-- registers. system_getargs, into the program's page, and system_set_handler and system_sigreturn leave the
-- state as it is.
pub data Step : Kernel → Kernel → Type 0 where
  read :
      {k : Kernel} (fuel fd buf nbytes : ℕ) (r : Reply)
      → InUserPage buf nbytes
      → system_read fuel fd true nbytes k ≡ some r
      → Step k (after_read r)
  write :
      {k : Kernel} (fd : ℕ) (buf : Option (List ℕ)) (nbytes : ℕ) (r : ℤ × Kernel)
      → system_write fd buf nbytes k ≡ some r
      → Step k r.1
  file_open :
      {k : Kernel} (filename : List ℕ) (r : ℤ × Kernel)
      → system_open filename k ≡ some r
      → Step k r.1
  file_close : {k : Kernel} (fd : ℕ) (r : ℤ × Kernel) → system_close fd k ≡ some r → Step k r.1
  vidmap :
      {k : Kernel} (map_addr screen_start : ℕ)
      → Step k (system_vidmap map_addr screen_start k).kernel
  execute :
      {k : Kernel} (regs : Registers) (buf : List ℕ) (command : Option (List ℕ))
      → Step k (after_execute (system_execute regs buf command k))
  halt :
      {k : Kernel} (status : ℕ) (r : Halted) → system_halt status k ≡ some r → Step k (after_halt r)
  exception :
      {k : Kernel} (string_at : ℕ → List ℕ) (stack : ℕ → ℕ) (location : ℕ) (e : Exception)
      (r : Halted)
      → handle string_at stack location e k ≡ some r
      → Step k (after_halt r)
  timer :
      {k : Kernel} (regs : Registers) (buf : List ℕ) → Step k (after_switch (scheduler regs buf k))
  key :
      {k : Kernel} (unset response : ℕ) (b b' : Keyboard)
      → b.console ≡ k.console
      → b.vid_map_base ≡ (k.paging.vid_map 0).base_addr
      → keyboard_handler unset response b ≡ some b'
      → Step k (typed_on b' k)
  clock : {k : Kernel} → Step k (record k { rtc = rtc_handler k.rtc })

pub data Reach (s : Kernel) : Kernel → Type 0 where
  here : Reach s s
  next : {t u : Kernel} → Reach s t → Step t u → Reach s u

-- The descriptors of the process that runs.
pub running-IsFds : {k : Kernel} → IsRunning max_terminals k → IsFds (curr_fds k)
running-IsFds {k} v = v.files (curr_pid k) (v.forest.taken k.console.curr_terminal v.formed.curr)
