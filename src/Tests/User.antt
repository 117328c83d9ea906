-- ===== src/Tests/User.antt =====
-- Tests of the programs and of the calls that they make.
use linux_like_os_project.Prelude.{
  ℕ, zero, suc, ◌+◌, ◌≡◌, ◌≢◌, ◌<◌, List, [], ◌∷◌, ◌++◌, some, refl, replicate, take, arith, get_or,
}
use linux_like_os_project.Prelude.Int.{pos}
use linux_like_os_project.Text.{strncmp, strlen}
use linux_like_os_project.Console.{video_addr}
use linux_like_os_project.FileSys.{Image, Dentry, read_dentry_by_name, search_dentries, compare_len}
use linux_like_os_project.FileSys.Contents.{file_range}
use linux_like_os_project.Paging.{num_processes}
use linux_like_os_project.Kernel.{Kernel}
use linux_like_os_project.Kernel.Command.{parse_command}
use linux_like_os_project.Kernel.Execute.{failed, write_over, system_execute}
use linux_like_os_project.Kernel.Refusal.{no_process, system_execute-failed}
use linux_like_os_project.Kernel.Family.{EntersAndReturns, execute_halt_lem}
use linux_like_os_project.Kernel.Vidmap.{
  one_thirty_two_mb, system_vidmap, video_walk, system_vidmap_lem,
}
use linux_like_os_project.User.{return}
use linux_like_os_project.User.OnKernel.{on_kernel}
use linux_like_os_project.User.Print.{bufsize, cat, ls}
use linux_like_os_project.User.Cat.{PrintsAndEnds, cat_lem}
use linux_like_os_project.User.Lines.{listing, HasNames}
use linux_like_os_project.User.Ls.{ls_lem}
use linux_like_os_project.Tests.{sample_image, sample_inode, sample_dentry, sample-IsConsole}
use linux_like_os_project.Tests.Process.{
  sample_kernel, sample-IsFds, sample_command, sample_registers, sample-parsed, sample-named,
  sample-elf,
}

-- The process was started as "cat sh".
abbrev cat_kernel : Kernel
cat_kernel = record sample_kernel { args = 115 ∷ 104 ∷ 0 ∷ [] }

abbrev empty_buf : List ℕ
empty_buf = replicate bufsize 0

cat-named :
    read_dentry_by_name sample_image (write_over (take bufsize cat_kernel.args) empty_buf)
    ≡ some sample_dentry
unfolding read_dentry_by_name search_dentries compare_len strlen strncmp write_over
cat-named = refl

cat-args : strlen cat_kernel.args ≡ 2
unfolding strlen
cat-args = refl

cat_lem_example :
    PrintsAndEnds
      (cat (on_kernel 0 (λ s. return (pos 0))) 2 empty_buf cat_kernel)
      (file_range sample_image sample_inode 0 28)
      cat_kernel
cat_lem_example =
    cat_lem 0 (λ s. return (pos 0)) 2 empty_buf cat_kernel sample_dentry 3 sample-IsConsole
      sample-IsFds (λ e. omega (arith, e)) (λ e. omega (arith, e, cat-args))
      (omega (arith, cat-args)) cat-named refl (omega arith) (omega arith) refl (omega arith)
      (omega arith) (omega arith)

-- All six processes are taken.
abbrev full_kernel : Kernel
full_kernel = record sample_kernel { cur_processes = replicate 6 1 }

full : (i : ℕ) → i < num_processes → get_or full_kernel.cur_processes i 1 ≢ 0
full zero h e = omega (arith, e)
full (suc zero) h e = omega (arith, e)
full (suc (suc zero)) h e = omega (arith, e)
full (suc (suc (suc zero))) h e = omega (arith, e)
full (suc (suc (suc (suc zero)))) h e = omega (arith, e)
full (suc (suc (suc (suc (suc zero))))) h e = omega (arith, e)
full (suc (suc (suc (suc (suc (suc i)))))) h e = omega (arith, h)

system_execute-failed_example :
    system_execute sample_registers (replicate 4 0) (some sample_command) full_kernel
    ≡ failed (record full_kernel {
      args = write_over ((parse_command sample_command).1 ++ (0 ∷ [])) full_kernel.args;
    })
system_execute-failed_example =
    system_execute-failed sample_registers (replicate 4 0) sample_command full_kernel
      (no_process full)

system_vidmap_lem_example :
    let r = system_vidmap 0x405000 0x8048000 sample_kernel in
    (r.value ≡ pos 0)
    × (r.stored ≡ some (0x8048000, one_thirty_two_mb))
    × (video_walk 0x405000 r.kernel.paging (one_thirty_two_mb + 160) ≡ some (video_addr + 160))
    × (r.kernel.paging.page_directory 32 ≡ sample_kernel.paging.page_directory 32)
system_vidmap_lem_example =
    system_vidmap_lem 0x405000 0x8048000 160 32 sample_kernel (omega arith) (omega arith)
      (omega arith) (omega arith) (λ e. omega (arith, e))

-- Process 1's terminal is the shown one.
abbrev shell_kernel : Kernel
shell_kernel = record sample_kernel {
  console = record sample_kernel.console { screen_terminal = 1 };
}

execute_halt_lem_example :
    EntersAndReturns 255 sample_registers shell_kernel
      (system_execute sample_registers (replicate 4 0) (some sample_command) shell_kernel)
execute_halt_lem_example =
    execute_halt_lem 255 sample_registers (replicate 4 0) sample_command shell_kernel sample_dentry
      2 refl (omega arith) refl refl (omega arith) (λ e. omega (arith, e)) sample-IsFds
      (rw sample-parsed sample-named) sample-elf (omega arith) refl

-- A directory entry "." before the file's.
abbrev dot_dentry : Dentry
dot_dentry = record sample_dentry { filename = 46 ∷ replicate 31 0; filetype = 1 }

abbrev ls_image : Image
ls_image = record sample_image { dir_count = 2; direntries = dot_dentry ∷ sample_dentry ∷ [] }

abbrev ls_kernel : Kernel
ls_kernel = record sample_kernel { image = ls_image }

ls-named : read_dentry_by_name ls_image (46 ∷ 0 ∷ []) ≡ some dot_dentry
unfolding read_dentry_by_name search_dentries compare_len strlen strncmp
ls-named = refl

ls-names : HasNames ls_image
ls-names zero h = refl
ls-names (suc zero) h = refl
ls-names (suc (suc i)) h = absurd (omega (arith, h))

ls_lem_example :
    PrintsAndEnds
      (ls (on_kernel 0 (λ s. return (pos 0))) 3 (replicate 33 0) ls_kernel)
      (listing ls_image 2 0)
      ls_kernel
ls_lem_example =
    ls_lem 0 (λ s. return (pos 0)) 3 (replicate 33 0) ls_kernel dot_dentry 3 sample-IsConsole
      sample-IsFds (λ e. omega (arith, e)) ls-named refl (omega arith) (omega arith) refl ls-names
      (omega arith) refl refl (omega arith)
