-- ===== src/Boot/Entry.antt =====
-- The whole of entry of student-distrib/kernel.c. `image_at` is the file system at an address, and `segments`
-- has the addresses and sizes of the descriptor table and the task state segment, with what stands in the
-- local variables.
use linux_like_os_project.Prelude.{ℕ, List, Option, none, some, Memory}
use linux_like_os_project.Console.{Console}
use linux_like_os_project.FileSys.{Image}
use linux_like_os_project.Idt.{Routine}
use linux_like_os_project.Kernel.Execute.{Registers, Outcome}
use linux_like_os_project.Boot.{Machine, boot}
use linux_like_os_project.Boot.Report.{refused, found, report}
use linux_like_os_project.Boot.Segments.{SegDesc, ldt_desc, tss_desc}

pub record Segments : Type 0 where
  pub ldt : ℕ
  pub ldt_size : ℕ
  pub the_ldt_desc : SegDesc
  pub tss : ℕ
  pub tss_size : ℕ
  pub the_tss_desc : SegDesc

-- entry returns, or has set the two descriptors and called system_execute.
pub data Entry : Type 0 where
  returned : Console → Entry
  booted : SegDesc → SegDesc → Machine → Outcome → Entry

unfoldable pub entry :
    (ℕ → List ℕ)
    → Memory
    → (ℕ → ℕ)
    → ℕ
    → ℕ
    → ℕ
    → ℕ
    → Segments
    → Registers
    → List ℕ
    → (Routine → ℕ)
    → ℕ
    → (ℕ → Image)
    → Machine
    → Option Entry
unfolding ldt_desc tss_desc
entry string_at mem stack fuel magic addr fs s regs buf addr_of table_addr image_at m =
    elim (report string_at mem fuel magic addr fs m.kernel.console) [
      | none ↦ none
      | some (refused, c) ↦ some (returned c)
      | some (found fs', c) ↦
          elim (boot string_at stack regs buf addr_of table_addr (image_at fs')
            (record m { kernel = record m.kernel { console = c } })) [
              | none ↦ none
              | some r ↦ some (
                  booted (ldt_desc s.ldt s.ldt_size s.the_ldt_desc)
                    (tss_desc s.tss s.tss_size s.the_tss_desc) r.0 r.1)
            ]
    ]
