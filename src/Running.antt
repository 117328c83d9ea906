-- ===== src/Running.antt =====
-- The kernel of student-distrib while programs run: what holds of its whole state between two events. The
-- events are in the child modules: the system calls of student-distrib/syscalls.c, the exceptions of idt.c,
-- and the interrupts of pit.c, keyboard.c and rtc.c.
pub mod Calls
pub mod Read
pub mod Open
pub mod Typed
pub mod Retop
pub mod Halt
pub mod Spawn
pub mod Execute
pub mod Interrupts
pub mod Steps
pub mod Buffer
pub mod Safe
pub mod Shells
pub mod Timer
pub mod Start
pub mod Entry
use linux_like_os_project.Prelude.{ℕ, ◌<◌, ◌≡◌, refl, ◌∙◌, List, some, none, Option}
use linux_like_os_project.Prelude.Int.{ℤ}
use linux_like_os_project.FileSys.{Image, Dentry, read_dentry_by_name}
use linux_like_os_project.Console.{Console, terminal}
use linux_like_os_project.Console.Cursor.{IsConsole}
use linux_like_os_project.Console.Output.{Stays, Stays-refl, Stays-trans}
use linux_like_os_project.Kernel.{Kernel}
use linux_like_os_project.Kernel.Safety.{IsFds}
use linux_like_os_project.Kernel.Forest.{Taken, IsForest, IsForest-same}

-- The process of each terminal, and the parent of each process.
abbrev pub tops : Kernel → ℕ → ℕ
tops k i = (terminal k.console i).pid

abbrev pub parents : Kernel → ℕ → ℕ
parents k p = (k.pcbs p).parent_pid

-- Every name in the directory is of a type that system_open knows.
abbrev pub IsTyped : Image → Type 0
IsTyped fs = (name : List ℕ) (e : Dentry) → read_dentry_by_name fs name ≡ some e → e.filetype < 3

-- The first `n` terminals have their shells. The console is well-formed, no base shell is due, the
-- processes form the terminals' stacks, and each one's descriptors are in order.
pub record IsRunning (n : ℕ) (k : Kernel) : Type 0 where
  pub formed : IsConsole k.console
  pub started : (i : ℕ) → i < n → (terminal k.console i).flag ≡ 1
  pub base : k.base_shell ≡ 0
  pub forest : IsForest n k.cur_processes (tops k) (parents k)
  pub files : (p : ℕ) → Taken k.cur_processes p → IsFds (k.pcbs p).file_descriptors
  pub typed : IsTyped k.image

-- An event that starts and ends no process.
pub record Quiet (k k' : Kernel) : Type 0 where
  pub console : Stays k.console k'.console
  pub processes : k'.cur_processes ≡ k.cur_processes
  pub base : k'.base_shell ≡ k.base_shell
  pub image : k'.image ≡ k.image
  pub parent : (p : ℕ) → parents k' p ≡ parents k p
  pub order : (p : ℕ) → IsFds (k.pcbs p).file_descriptors → IsFds (k'.pcbs p).file_descriptors

pub Quiet-refl : {k : Kernel} → IsConsole k.console → Quiet k k
Quiet-refl v = record {
  console = Stays-refl v;
  processes = refl;
  base = refl;
  image = refl;
  parent = λ p. refl;
  order = λ p f. f;
}

pub Quiet-trans : {k k' k'' : Kernel} → Quiet k k' → Quiet k' k'' → Quiet k k''
Quiet-trans a b = record {
  console = Stays-trans a.console b.console;
  processes = b.processes ∙ a.processes;
  base = b.base ∙ a.base;
  image = b.image ∙ a.image;
  parent = λ p. b.parent p ∙ a.parent p;
  order = λ p f. b.order p (a.order p f);
}

pub Quiet-IsRunning : {n : ℕ} {k k' : Kernel} → IsRunning n k → Quiet k k' → IsRunning n k'
Quiet-IsRunning {n} {k} {k'} v q = record {
  formed = q.console.formed;
  started = λ i h. q.console.flag i ∙ v.started i h;
  base = q.base ∙ v.base;
  forest = IsForest-same q.processes q.console.process q.parent v.forest;
  files = λ p t. q.order p (v.files p (rw (← q.processes) t));
  typed = rw q.image v.typed;
}

-- A change of the console alone.
pub console-Quiet :
    {k : Kernel} {c : Console} → Stays k.console c → Quiet k (record k { console = c })
console-Quiet s = record {
  console = s;
  processes = refl;
  base = refl;
  image = refl;
  parent = λ p. refl;
  order = λ p f. f;
}

-- What a system call that comes back leaves; it is not stuck in a call through a null pointer.
unfoldable pub QuietCall : Kernel → Option (ℤ × Kernel) → Type 0
QuietCall k none = ⊥
QuietCall k (some r) = Quiet k r.1
