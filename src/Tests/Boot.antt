-- ===== src/Tests/Boot.antt =====
-- Tests of the set-up.
use linux_like_os_project.Prelude.{
  ℕ, List, ◌||◌, ◌≡◌, ◌∷◌, [], some, refl, replicate, ◌++◌, arith, Memory, ◌==◌, if◌then◌else◌,
}
use linux_like_os_project.Prelude.Int.{pos}
use linux_like_os_project.Text.{strncmp, strlen}
use linux_like_os_project.FileSys.{
  Image, Dentry, read_dentry_by_name, search_dentries, compare_len, read_data, read_bytes,
  clamp_length,
}
use linux_like_os_project.Kernel.Execute.{elf_magic, write_over}
use linux_like_os_project.Kernel.Schedule.{shell}
use linux_like_os_project.Running.Shells.{HasShell}
use linux_like_os_project.Running.Entry.{EntryRises, entry-Rises}
use linux_like_os_project.Boot.Report.{load, report, found}
use linux_like_os_project.Boot.Report.Lines.{HasMap, map_length, file_system_at, report_lines}
use linux_like_os_project.Boot.Report.Print.{IsPrinted}
use linux_like_os_project.Boot.Report.Shown.{report_lem}
use linux_like_os_project.Boot.Segments.{
  SegDesc, ldt_desc, tss_desc, segment_base, segment_limit, segments_lem,
}
use linux_like_os_project.Boot.Entry.{Segments, entry}
use linux_like_os_project.Running.Typed.{entries-IsTyped}
use linux_like_os_project.Console.{clear}
use linux_like_os_project.Boot.{Machine, initialise, boot}
use linux_like_os_project.Boot.Started.{IsBooted, boot_lem}
use linux_like_os_project.Tests.{sample_dentry, sample_image, sample_console, sample-IsConsole}
use linux_like_os_project.Tests.Devices.{sample_pic}
use linux_like_os_project.Tests.Idt.{sample_idt}
use linux_like_os_project.Tests.Process.{sample_kernel, sample_registers}

abbrev shell_dentry : Dentry
shell_dentry = record sample_dentry { filename = shell ++ replicate 27 0 }

abbrev shell_image : Image
shell_image = record sample_image { direntries = shell_dentry ∷ [] }

abbrev sample_machine : Machine
sample_machine = record {
  idt = sample_idt;
  pic = sample_pic;
  kernel = record sample_kernel { cur_processes = replicate 6 0 };
}

shell-named : read_dentry_by_name shell_image shell ≡ some shell_dentry
unfolding read_dentry_by_name search_dentries compare_len strlen strncmp
shell-named = refl

shell-elf : strncmp elf_magic (write_over (read_data shell_image 0 0 4).1 (replicate 4 0)) 4 ≡ pos 0
unfolding strncmp write_over read_data read_bytes clamp_length
shell-elf = refl

boot_lem_example :
    IsBooted shell_dentry
      (initialise (λ r. 0x401234) 0x404000 shell_image sample_machine).kernel.console
      (boot
        (λ a. [])
        (λ i. 0)
        sample_registers
        (replicate 4 0)
        (λ r. 0x401234)
        0x404000
        shell_image
        sample_machine)
boot_lem_example =
    boot_lem (λ a. []) (λ i. 0) sample_registers (replicate 4 0) (λ r. 0x401234) 0x404000
      shell_image sample_machine shell_dentry refl shell-named shell-elf

shell-HasShell : HasShell shell_image
unfolding read_data read_bytes clamp_length
shell-HasShell = record { entry = shell_dentry; named = shell-named; magic = refl }

-- One module, at 0x4000, and a memory map of two entries.
abbrev sample_memory : Memory
sample_memory = λ a.
    if a == 0
    then 72
    else (if a == 20
        then 1
        else (if a == 24
            then 100
            else (if a == 101
                then 64
                else (if a == 44
                    then 48
                    else (if a == 48 then 200 else (if (a == 200) || (a == 224) then 20 else 0))))))

abbrev sample_sizes : List ℕ
sample_sizes = 20 ∷ 20 ∷ []

sample-HasMap : HasMap (λ a. []) sample_memory 2 0 sample_sizes
unfolding load map_length
sample-HasMap h = record {
  entries = (refl, (refl, tt));
  total = refl;
  within = omega arith;
  fuelled = omega arith;
}

report_lem_example :
    IsPrinted
      (λ a. [])
      (λ r. r ≡ found (file_system_at (λ a. []) sample_memory 0 0))
      (report_lines (λ a. []) sample_memory 0x2BADB002 0 sample_sizes)
      (clear (record sample_console { display_on_main_page = 0 }))
      (report (λ a. []) sample_memory 2 0x2BADB002 0 0 sample_console)
unfolding load
report_lem_example =
    report_lem (λ a. []) sample_memory 2 0x2BADB002 0 0 sample_sizes sample-HasMap sample-IsConsole

abbrev no_desc : SegDesc
no_desc = record {
  seg_lim_15_00 = 0;
  base_15_00 = 0;
  base_23_16 = 0;
  segment_type = 0;
  sys = 0;
  dpl = 0;
  present = 0;
  seg_lim_19_16 = 0;
  avail = 0;
  reserved = 0;
  opsize = 0;
  granularity = 0;
  base_31_24 = 0;
}

segments_lem_example :
    let l = ldt_desc 0x401000 7 no_desc in
    let t = tss_desc 0x402000 103 no_desc in
    (segment_base l ≡ 0x401000)
    × (segment_limit l ≡ 7)
    × (segment_base t ≡ 0x402000)
    × (segment_limit t ≡ 103)
    × (l.present ≡ 1)
    × (t.present ≡ 1)
    × (l.dpl ≡ 0)
    × (t.dpl ≡ 0)
    × (l.granularity ≡ 0)
    × (t.granularity ≡ 0)
segments_lem_example =
    segments_lem 0x401000 0x402000 7 103 no_desc no_desc (omega arith) (omega arith) (omega arith)
      (omega arith)

abbrev sample_segments : Segments
sample_segments = record {
  ldt = 0x401000;
  ldt_size = 7;
  the_ldt_desc = no_desc;
  tss = 0x402000;
  tss_size = 103;
  the_tss_desc = no_desc;
}

entry-Rises_example : EntryRises sample_registers (replicate 4 1) sample_registers (replicate 4 2) (
    entry
      (λ a. [])
      sample_memory
      (λ i. 0)
      2
      0x2BADB002
      0
      0
      sample_segments
      sample_registers
      (replicate 4 0)
      (λ r. 0x401234)
      0x404000
      (λ a. shell_image)
      sample_machine)
unfolding load
entry-Rises_example =
    entry-Rises (λ a. []) sample_memory (λ i. 0) 2 0 0 sample_sizes sample_segments sample_registers
      sample_registers sample_registers (replicate 4 0) (replicate 4 1) (replicate 4 2)
      (λ r. 0x401234) 0x404000 (λ a. shell_image) sample_machine sample-IsConsole sample-HasMap refl
      refl shell-HasShell (entries-IsTyped shell_image (omega arith, tt))
