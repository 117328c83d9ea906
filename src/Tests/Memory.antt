-- ===== src/Tests/Memory.antt =====
-- Tests of the memory functions.
use linux_like_os_project.Prelude.{
  ◌+◌, ◌-◌, ◌%◌, ◌≡◌, inl, leb, ltb, ◌&&◌, if◌then◌else◌, Memory, arith,
}
use linux_like_os_project.Memory.{memcpy, memmove}
use linux_like_os_project.Memory.Copy.{Bytewise, memcpy_lem}
use linux_like_os_project.Memory.Move.{memmove_lem}

-- Every byte is the low byte of its address.
abbrev sample_memory : Memory
sample_memory = λ a. a % 256

sample-Bytewise : Bytewise sample_memory
sample-Bytewise a = omega arith

memcpy_lem_example : memcpy 0x1003 0x1007 14 sample_memory 0x1010 ≡ (
    if leb 0x1003 0x1010 && ltb 0x1010 (0x1003 + 14)
    then sample_memory (0x1007 + (0x1010 - 0x1003))
    else sample_memory 0x1010)
memcpy_lem_example =
    memcpy_lem 0x1003 0x1007 14 sample_memory 0x1010 sample-Bytewise (omega arith) (omega arith)
      (inl (omega arith))

memmove_lem_example :
    ((memmove 0x1007 0x1003 14 sample_memory).0 0x1010 ≡ (
      if leb 0x1007 0x1010 && ltb 0x1010 (0x1007 + 14)
      then sample_memory (0x1003 + (0x1010 - 0x1007))
      else sample_memory 0x1010))
    × ((memmove 0x1007 0x1003 14 sample_memory).1 ≡ ltb 0x1003 0x1007)
memmove_lem_example = memmove_lem 0x1007 0x1003 14 sample_memory 0x1010 (omega arith) (omega arith)
