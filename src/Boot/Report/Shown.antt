-- ===== src/Boot/Report/Shown.antt =====
-- What entry of student-distrib/kernel.c leaves of the console when it has printed what the boot loader
-- passes, and when it goes on.
use mathlib.Core.Path.{subst}
use linux_like_os_project.Prelude.{
  ℕ, zero, suc, ◌+◌, ◌%◌, ◌^◌, ◌<◌, ◌≤◌, ◌≡◌, refl, List, [], ◌∷◌, ltb, ◌==◌, if◌then◌else◌, get_or,
  Bool, ◌++◌, length, true, false, Bool-cases, inl, inr, arith, Memory,
}
use linux_like_os_project.Prelude.State.{return, ◌>>◌}
use linux_like_os_project.Console.{Console, clear}
use linux_like_os_project.Console.Cursor.{IsConsole}
use linux_like_os_project.Console.Output.{clear-Prints}
use linux_like_os_project.Printf.Plain.{Piece, printf-show}
use linux_like_os_project.Boot.Report.Lines.{
  show_lines, line_if, byte_lines, last_module, module_lines, AreEntries, map_length, map_lines,
  IsMap, HasMap, table_lines, both, mods_count, file_system_at, info_lines, report_lines,
}
use linux_like_os_project.Boot.Report.Print.{
  are_pieces, are_pieces_lem, show-Prints, Any, IsPrinted, then-IsPrinted, return-IsPrinted,
}
use linux_like_os_project.Boot.Report.{
  refused, found, multiboot_bootloader_magic, check_flag, load, load_char, say, say_if, first_bytes,
  modules, memory_map, tables, report_info, report,
}
use linux_like_os_project.Boot.Report.Formats.{
  invalid_magic, flags_line, mem_line, boot_device_line, cmdline_line, module_loaded, module_ends,
  first_few, byte_line, line_break, both_bits, elf_line, mmap_line, mmap_entry,
}

module _ (string_at : ℕ → List ℕ) (mem : Memory) where
  say-IsPrinted :
      (format : List Piece) (args : List ℕ) {c : Console}
      → are_pieces format ≡ true
      → IsConsole c
      → IsPrinted string_at Any ((format, args) ∷ []) c (say string_at mem format args c)
  unfolding IsPrinted say show_lines
  say-IsPrinted format args {c} e v =
      rw (printf-show string_at (λ i. get_or args i 0) format [] c (are_pieces_lem format e), say)
        (tt, refl, show-Prints string_at (λ i. get_or args i 0) format 0 v)

  say_if-IsPrinted :
      (b : Bool) (format : List Piece) (args : List ℕ) {c : Console}
      → are_pieces format ≡ true
      → IsConsole c
      → IsPrinted string_at Any (line_if b (format, args)) c (say_if string_at mem b format args c)
  unfolding say_if
  say_if-IsPrinted true format args e v = say-IsPrinted format args e v
  say_if-IsPrinted false format args e v = return-IsPrinted string_at Any tt v tt

  first_bytes-IsPrinted :
      (n a : ℕ) {c : Console}
      → IsConsole c
      → IsPrinted string_at Any (byte_lines string_at mem n a) c (first_bytes string_at mem n a c)
  unfolding first_bytes are_pieces byte_lines
  first_bytes-IsPrinted zero a v = return-IsPrinted string_at Any tt v tt
  first_bytes-IsPrinted (suc n) a {c} v =
      then-IsPrinted string_at Any Any (_ ∷ []) (byte_lines string_at mem n ((a + 1) % 2 ^ 32)) _ c
        _ (say-IsPrinted byte_line (load_char string_at mem a ∷ []) refl v)
        (λ u c' q w. first_bytes-IsPrinted n ((a + 1) % 2 ^ 32) w)

  modules-IsPrinted :
      (n mod_count a fs : ℕ) {c : Console}
      → IsConsole c
      → IsPrinted string_at
          (λ r. r ≡ last_module string_at mem n a fs)
          (module_lines string_at mem n mod_count a)
          c
          (modules string_at mem n mod_count a fs c)
  unfolding modules are_pieces last_module module_lines
  modules-IsPrinted zero mod_count a fs v = return-IsPrinted string_at _ fs v refl
  modules-IsPrinted (suc n) mod_count a fs {c} v =
      then-IsPrinted string_at Any _ (_ ∷ []) _ _ c _
        (say-IsPrinted module_loaded (mod_count ∷ load string_at mem a ∷ []) refl v)
        (λ u1 c1 q1 v1.
          then-IsPrinted string_at Any _ (_ ∷ []) _ _ c1 _
            (say-IsPrinted module_ends (mod_count ∷ load string_at mem (a + 4) ∷ []) refl v1)
            (λ u2 c2 q2 v2.
              then-IsPrinted string_at Any _ (_ ∷ []) _ _ c2 _ (say-IsPrinted first_few [] refl v2)
                (λ u3 c3 q3 v3.
                  then-IsPrinted string_at Any _
                    (byte_lines string_at mem 16 (load string_at mem a)) _ _ c3 _
                    (first_bytes-IsPrinted 16 (load string_at mem a) v3)
                    (λ u4 c4 q4 v4.
                      then-IsPrinted string_at Any _ (_ ∷ []) _ _ c4 _
                        (say-IsPrinted line_break [] refl v4)
                        (λ u5 c5 q5 v5.
                          modules-IsPrinted n (mod_count + 1) ((a + 16) % 2 ^ 32)
                            (load string_at mem a) v5)))))

  memory_map-IsPrinted :
      (fuel a last : ℕ) (sizes : List ℕ) {c : Console}
      → AreEntries string_at mem a sizes
      → last ≡ a + map_length sizes
      → last < 2 ^ 32
      → length sizes ≤ fuel
      → IsConsole c
      → IsPrinted string_at Any
          (map_lines string_at mem a sizes)
          c
          (memory_map string_at mem fuel a last c)
  unfolding memory_map are_pieces map_lines map_length
  memory_map-IsPrinted zero a last [] {c} h e small room v =
      let done : ltb a last ≡ false = ground (arith, e) in
      rw done (return-IsPrinted string_at Any tt v tt)
  memory_map-IsPrinted (suc fuel) a last [] {c} h e small room v =
      let done : ltb a last ≡ false = ground (arith, e) in
      rw done (return-IsPrinted string_at Any tt v tt)
  memory_map-IsPrinted zero a last (s ∷ ss) {c} h e small room v = absurd (omega (arith, room))
  memory_map-IsPrinted (suc fuel) a last (s ∷ ss) {c} h e small room v =
      let more : ltb a last ≡ true = ground (arith, e) in
      let next : (a + s + 4) % 2 ^ 32 ≡ a + s + 4 = omega (arith, e, small) in
      rw (more, h.0, next)
        (then-IsPrinted string_at Any Any (_ ∷ []) (map_lines string_at mem (a + s + 4) ss) _ c _
          (say-IsPrinted mmap_entry
            (s
              ∷ load string_at mem (a + 8)
              ∷ load string_at mem (a + 4)
              ∷ load string_at mem (a + 20)
              ∷ load string_at mem (a + 16)
              ∷ load string_at mem (a + 12)
              ∷ [])
            refl v)
          (λ u c' q w.
            memory_map-IsPrinted fuel (a + s + 4) last ss h.1 (omega (arith, e)) small
              (omega (arith, room)) w))

  tables-IsPrinted :
      (fuel mbi fs : ℕ) (sizes : List ℕ) {c : Console}
      → HasMap string_at mem fuel mbi sizes
      → IsConsole c
      → IsPrinted string_at
          (λ r. r ≡ found fs)
          (table_lines string_at mem mbi sizes)
          c
          (tables string_at mem fuel mbi fs c)
  unfolding tables are_pieces table_lines
  tables-IsPrinted fuel mbi fs sizes {c} h v =
      then-IsPrinted string_at Any _ _ _ _ c _
        (say_if-IsPrinted (check_flag (load string_at mem mbi) 5) elf_line
          (load string_at mem (mbi + 28)
            ∷ load string_at mem (mbi + 32)
            ∷ load string_at mem (mbi + 36)
            ∷ load string_at mem (mbi + 40)
            ∷ [])
          refl v)
        (λ u1 c1 q1 v1. elim (Bool-cases (check_flag (load string_at mem mbi) 6)) [
          | inr no_map ↦
              rw no_map (return-IsPrinted string_at (λ r. r ≡ found fs) (found fs) v1 refl)
          | inl map ↦ rw map (mapped u1 c1 v1 (h map))
        ])
    where
      mapped :
          (u : Unit {0}) (c1 : Console)
          → IsConsole c1
          → IsMap string_at mem fuel mbi sizes
          → IsPrinted string_at
              (λ r. r ≡ found fs)
              ((mmap_line, load string_at mem (mbi + 48) ∷ load string_at mem (mbi + 44) ∷ [])
                ∷ (map_lines string_at mem (load string_at mem (mbi + 48)) sizes ++ []))
              c1
              ((say string_at mem mmap_line
                    (load string_at mem (mbi + 48) ∷ load string_at mem (mbi + 44) ∷ [])
                  >> memory_map string_at mem fuel
                      (load string_at mem (mbi + 48))
                      ((load string_at mem (mbi + 48) + load string_at mem (mbi + 44)) % 2 ^ 32)
                  >> return (found fs))
                c1)
      mapped u c1 v1 m =
          let end : (load string_at mem (mbi + 48) + load string_at mem (mbi + 44)) % 2 ^ 32
              ≡ load string_at mem (mbi + 48) + map_length sizes =
            omega (arith, m.total, m.within) in
          then-IsPrinted string_at Any _
            ((mmap_line, load string_at mem (mbi + 48) ∷ load string_at mem (mbi + 44) ∷ [])
              ∷ map_lines string_at mem (load string_at mem (mbi + 48)) sizes)
            [] _ c1 _
            (then-IsPrinted string_at Any Any (_ ∷ []) _ _ c1 _
              (say-IsPrinted mmap_line
                (load string_at mem (mbi + 48) ∷ load string_at mem (mbi + 44) ∷ []) refl v1)
              (λ u2 c2 q2 v2.
                memory_map-IsPrinted fuel (load string_at mem (mbi + 48)) _ sizes m.entries end
                  (omega (arith, end, m.total, m.within)) m.fuelled v2))
            (λ u3 c3 q3 v3. return-IsPrinted string_at (λ r. r ≡ found fs) (found fs) v3 refl)

  info-IsPrinted :
      (fuel mbi fs : ℕ) (sizes : List ℕ) {c : Console}
      → HasMap string_at mem fuel mbi sizes
      → IsConsole c
      → IsPrinted string_at
          (λ r. r ≡ (
            if both string_at mem mbi
            then refused
            else found (file_system_at string_at mem mbi fs)))
          (info_lines string_at mem mbi sizes)
          c
          (report_info string_at mem fuel mbi fs c)
  unfolding report_info are_pieces info_lines
  info-IsPrinted fuel mbi fs sizes {c} h v =
      let flags = load string_at mem mbi in
      then-IsPrinted string_at Any _ (_ ∷ []) _ _ c _ (say-IsPrinted flags_line (flags ∷ []) refl v)
        (λ u1 c1 q1 v1.
          then-IsPrinted string_at Any _ _ _ _ c1 _
            (say_if-IsPrinted (check_flag flags 0) mem_line
              (load string_at mem (mbi + 4) ∷ load string_at mem (mbi + 8) ∷ []) refl v1)
            (λ u2 c2 q2 v2.
              then-IsPrinted string_at Any _ _ _ _ c2 _
                (say_if-IsPrinted (check_flag flags 1) boot_device_line
                  (load string_at mem (mbi + 12) ∷ []) refl v2)
                (λ u3 c3 q3 v3.
                  then-IsPrinted string_at Any _ _ _ _ c3 _
                    (say_if-IsPrinted (check_flag flags 2) cmdline_line
                      (load string_at mem (mbi + 16) ∷ []) refl v3)
                    (λ u4 c4 q4 v4.
                      then-IsPrinted string_at (λ r. r ≡ file_system_at string_at mem mbi fs) _ _ _
                        _ c4 _
                        (modules-IsPrinted (mods_count string_at mem mbi) 0
                          (load string_at mem (mbi + 24)) fs v4)
                        (λ fs' c5 q5 v5. elim (Bool-cases (both string_at mem mbi)) [
                          | inl two ↦ rw two (
                              then-IsPrinted string_at Any _ (_ ∷ []) [] _ c5 _
                                (say-IsPrinted both_bits [] refl v5)
                                (λ u6 c6 q6 v6.
                                  return-IsPrinted string_at (λ r. r ≡ refused) refused v6 refl))
                          | inr fine ↦ rw fine (
                              subst
                                (λ x.
                                  IsPrinted string_at (λ r. r ≡ found x)
                                    (table_lines string_at mem mbi sizes) c5
                                    (tables string_at mem fuel mbi fs' c5))
                                q5 (tables-IsPrinted fuel mbi fs' sizes h v5))
                        ])))))

  -- entry up to the segment descriptors, on a well-formed console. If bit 6 says that there is a memory map,
  -- its bytes are entries of some sizes one after the other, below the last address, with a round of the
  -- loop for each. Then the report comes back, and the console is the cleared one with these lines printed
  -- on it: for a Multiboot loader the flags, the lines of the bits that are set, with the lines of each
  -- module and of each entry of the map in their order, or the line about both bits 4 and 5 in place of what
  -- follows the modules; for another loader the line about its magic number. entry goes on exactly if the
  -- loader is a Multiboot one and does not set both bits 4 and 5, with the start of the last module that is
  -- passed, or the old value of `fs` if none is.
  pub report_lem :
      (fuel magic addr fs : ℕ) (sizes : List ℕ) {c : Console}
      → HasMap string_at mem fuel addr sizes
      → IsConsole c
      → IsPrinted string_at
          (λ r. r ≡ (
            if magic == multiboot_bootloader_magic
            then (if both string_at mem addr
                then refused
                else found (file_system_at string_at mem addr fs))
            else refused))
          (report_lines string_at mem magic addr sizes)
          (clear (record c { display_on_main_page = 0 }))
          (report string_at mem fuel magic addr fs c)
  unfolding report are_pieces report_lines
  report_lem fuel magic addr fs sizes {c} h v =
      let w : IsConsole (record c { display_on_main_page = 0 }) = record {
        count = v.count;
        curr = v.curr;
        screen = v.screen;
        placed = v.placed;
      } in
      let p = clear-Prints w in
      elim (Bool-cases (magic == multiboot_bootloader_magic)) [
        | inl good ↦ rw (good, report) (info-IsPrinted fuel addr fs sizes h p.formed)
        | inr bad ↦
            rw (bad, report)
              (then-IsPrinted string_at Any _ (_ ∷ []) [] _ _ _
                (say-IsPrinted invalid_magic (magic ∷ []) refl p.formed)
                (λ u c2 q w'. return-IsPrinted string_at (λ r. r ≡ refused) refused w' refl))
      ]
