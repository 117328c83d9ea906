-- ===== src/Running/Shells.antt =====
-- A base shell that is started: by entry of student-distrib/kernel.c, and by the scheduler of pit.c on a
-- terminal that has none.
use linux_like_os_project.Prelude.{
  ℕ, ◌+◌, ◌<◌, ◌≡◌, refl, ◌∙◌, List, [], ◌∷◌, ◌++◌, some, ◌==◌, true, arith, set,
}
use linux_like_os_project.Prelude.Int.{pos}
use linux_like_os_project.Text.{strncmp}
use linux_like_os_project.FileSys.{Image, Dentry, read_dentry_by_name, read_data}
use linux_like_os_project.Console.{terminal, max_terminals}
use linux_like_os_project.Console.Cursor.{IsConsole}
use linux_like_os_project.Paging.{num_processes}
use linux_like_os_project.Kernel.{Kernel, base_shell_parent}
use linux_like_os_project.Kernel.Safety.{IsFds}
use linux_like_os_project.Kernel.Command.{parse_command}
use linux_like_os_project.Kernel.Launch.{IsFreePid}
use linux_like_os_project.Kernel.Execute.{
  Registers, entered, find_pid, start_process, execute_file, system_execute, elf_magic, write_over,
  home_terminal, word_of,
}
use linux_like_os_project.Kernel.Schedule.{shell}
use linux_like_os_project.Kernel.Child.{child}
use linux_like_os_project.Kernel.Forest.{Taken, IsForest}
use linux_like_os_project.Kernel.Forest.Change.{base-IsForest}
use linux_like_os_project.Boot.Started.{shell-parsed}
use linux_like_os_project.Running.{IsRunning, IsTyped, tops, parents}
use linux_like_os_project.Running.Spawn.{Spawns, new_parent, child-Spawns}
use linux_like_os_project.Running.Execute.{spawned-IsRunning, free-again}

-- A base shell is due on the scheduled terminal `n`, the terminals before it have theirs, and those behind
-- it have none.
pub record IsDue (n : ℕ) (k : Kernel) : Type 0 where
  pub formed : IsConsole k.console
  pub scheduled : k.console.curr_terminal ≡ n
  pub begun : (i : ℕ) → i < n + 1 → (terminal k.console i).flag ≡ 1
  pub later : (i : ℕ) → n < i → i < max_terminals → (terminal k.console i).flag ≡ 0
  pub base : k.base_shell ≡ 1
  pub forest : IsForest n k.cur_processes (tops k) (parents k)
  pub files : (p : ℕ) → Taken k.cur_processes p → IsFds (k.pcbs p).file_descriptors
  pub typed : IsTyped k.image

-- The base shell of terminal `n` runs.
pub record IsUp (n : ℕ) (k : Kernel) : Type 0 where
  pub running : IsRunning (n + 1) k
  pub scheduled : k.console.curr_terminal ≡ n
  pub later : (i : ℕ) → n < i → i < max_terminals → (terminal k.console i).flag ≡ 0

-- The directory has a program "shell".
pub record HasShell (fs : Image) : Type 0 where
  pub entry : Dentry
  pub named : read_dentry_by_name fs shell ≡ some entry
  pub magic : (read_data fs entry.inode_num 0 4).1 ≡ elf_magic

-- Whatever stood in the array that the header is read into.
write_over-elf : (buf : List ℕ) → strncmp elf_magic (write_over elf_magic buf) 4 ≡ pos 0
unfolding write_over strncmp
write_over-elf [] = refl
write_over-elf (a ∷ []) = refl
write_over-elf (a ∷ b ∷ []) = refl
write_over-elf (a ∷ b ∷ c ∷ []) = refl
write_over-elf (a ∷ b ∷ c ∷ d ∷ buf) = refl

shell-elf :
    {fs : Image} (h : HasShell fs) (buf : List ℕ)
    → strncmp elf_magic (write_over (read_data fs h.entry.inode_num 0 4).1 buf) 4 ≡ pos 0
shell-elf h buf = rw h.magic (write_over-elf buf)

home-eq : {n : ℕ} {k : Kernel} → IsDue n k → home_terminal k ≡ n
home-eq {n} {k} v =
    let is : (k.base_shell == 1) ≡ true = ground (arith, v.base) in rw is v.scheduled

home-lt : {n : ℕ} {k : Kernel} → IsDue n k → home_terminal k < max_terminals
home-lt v = rw (home-eq v, ← v.scheduled) v.formed.curr

child-IsUp :
    {n : ℕ} (regs : Registers) (pid : ℕ) (e : Dentry) (k : Kernel)
    → IsDue n k
    → IsFreePid k.cur_processes 0 num_processes pid
    → IsUp n (child regs pid e k)
child-IsUp {n} regs pid e k v f =
    let is : (k.base_shell == 1) ≡ true = ground (arith, v.base) in
    let home = home-eq v in
    let parent : new_parent k ≡ base_shell_parent = rw is refl in
    let s : Spawns pid k (child regs pid e k) = child-Spawns regs pid e k v.formed (home-lt v) in
    let g = base-IsForest v.forest pid f.high (free-again v.forest.count f) in
    record {
      running =
          spawned-IsRunning s (omega (arith, v.forest.count, f.high)) v.begun v.files v.typed
            (rw (home, parent) g);
      scheduled = s.console.curr ∙ v.scheduled;
      later = λ i a b. s.console.flag i ∙ v.later i a b;
    }

args-IsDue : {n : ℕ} {k : Kernel} (a : List ℕ) → IsDue n k → IsDue n (record k { args = a })
args-IsDue {n} {k} a v = record {
  formed = v.formed;
  scheduled = v.scheduled;
  begun = v.begun;
  later = v.later;
  base = v.base;
  forest = v.forest;
  files = v.files;
  typed = v.typed;
}

-- The shell of terminal `n` is entered as process `pid`.
pub record Enters (n pid : ℕ) (k k' : Kernel) : Type 0 where
  pub up : IsUp n k'
  pub processes : k'.cur_processes ≡ set k.cur_processes pid 1
  pub image : k'.image ≡ k.image

pub shell-Enters :
    {n : ℕ} (regs : Registers) (buf : List ℕ) (pid : ℕ) (k : Kernel)
    → IsDue n k
    → HasShell k.image
    → find_pid num_processes 0 k.cur_processes ≡ some pid
    → IsFreePid k.cur_processes 0 num_processes pid
    → (eip : ℕ) × (k' : Kernel) × (system_execute regs buf (some shell) k ≡ entered eip k')
      × Enters n pid k k'
unfolding system_execute execute_file start_process
shell-Enters {n} regs buf pid k v h found f =
    let a = write_over ((parse_command shell).1 ++ (0 ∷ [])) k.args in
    let k0 = record k { args = a } in
    let named : read_dentry_by_name k.image (parse_command shell).0 ≡ some h.entry =
      rw shell-parsed h.named in
    let v0 = args-IsDue a v in
    let s = child-Spawns regs pid h.entry k0 v0.formed (home-lt v0) in
    (
      word_of (read_data k.image h.entry.inode_num 24 4).1,
      child regs pid h.entry k0,
      rw (named, shell-elf h buf, found, system_execute, execute_file) refl,
      record { up = child-IsUp regs pid h.entry k0 v0 f; processes = s.processes; image = s.image },
    )
