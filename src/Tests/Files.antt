-- ===== src/Tests/Files.antt =====
-- Tests of the file system.
use linux_like_os_project.Prelude.{
  [], ◌∷◌, ◌≡◌, refl, arith, take, if◌then◌else◌, ◌==◌, ltb, none, ◌↔◌,
}
use linux_like_os_project.Prelude.Int.{pos}
use linux_like_os_project.Text.{strlen, strncmp}
use linux_like_os_project.Text.Length.{string_of}
use linux_like_os_project.Text.Compare.{Bytes, strncmp-zero_iff}
use linux_like_os_project.FileSys.{read_data, read_dentry_by_name, filename_len}
use linux_like_os_project.FileSys.Contents.{file_range, read_data-eq-range}
use linux_like_os_project.FileSys.Lookup.{IsDentry, find_name, read_dentry_by_name-eq-find}
use linux_like_os_project.Tests.{sample_image, sample_inode, sample_dentry, sample_name}

read_data-eq-range_example :
    read_data sample_image 0 20 100 ≡ (pos 8, file_range sample_image sample_inode 20 8)
read_data-eq-range_example = read_data-eq-range sample_image 0 20 100 (omega arith)

sample-Bytes : Bytes sample_name
sample-Bytes = (omega arith, (omega arith, tt))

sample-IsDentry : IsDentry sample_dentry
sample-IsDentry = record { size = refl; name_bytes = ground arith; reserved_bytes = ground arith }

read_dentry_by_name-eq-find_example : read_dentry_by_name sample_image sample_name ≡ (
    if strlen sample_name == 0
    then none
    else (if ltb filename_len (strlen sample_name)
        then none
        else find_name (string_of sample_name) (sample_dentry ∷ [])))
read_dentry_by_name-eq-find_example =
    read_dentry_by_name-eq-find sample_image sample_name (sample-IsDentry, tt) sample-Bytes

strncmp-zero_iff_example :
    (strncmp (115 ∷ 104 ∷ 0 ∷ []) sample_name 32 ≡ pos 0)
    ↔ (string_of (take 32 (115 ∷ 104 ∷ 0 ∷ [])) ≡ string_of (take 32 sample_name))
strncmp-zero_iff_example =
    strncmp-zero_iff (115 ∷ 104 ∷ 0 ∷ []) sample_name 32
      (omega arith, (omega arith, (omega arith, tt))) sample-Bytes
