-- ===== src/Running/Typed.antt =====
-- The types of the entries that read_dentry_by_name of student-distrib/file_sys.c finds.
use mathlib.Core.Path.{subst}
use linux_like_os_project.Prelude.{
  ℕ, zero, suc, ◌<◌, List, [], ◌∷◌, Option, none, some, ltb, ◌==◌, Bool-cases, inl, inr, take,
}
use linux_like_os_project.Prelude.Int.{ℤ, pos, negsuc}
use linux_like_os_project.Text.{strlen, strncmp}
use linux_like_os_project.FileSys.{
  Image, Dentry, dentry_bytes, compare_len, search_dentries, read_dentry_by_name, filename_len,
  dir_entries,
}
use linux_like_os_project.Running.{IsTyped}

-- Every entry of a directory has one of the three types.
abbrev pub AllTyped : List Dentry → Type 0
AllTyped [] = Unit
AllTyped (d ∷ ds) = (d.filetype < 3) × AllTyped ds

take-AllTyped : (n : ℕ) (ds : List Dentry) → AllTyped ds → AllTyped (take n ds)
take-AllTyped zero ds h = tt
take-AllTyped (suc n) [] h = tt
take-AllTyped (suc n) (d ∷ ds) h = (h.0, take-AllTyped n ds h.1)

-- What a search finds has one of the types.
abbrev FoundTyped : Option Dentry → Type 0
FoundTyped none = Unit
FoundTyped (some e) = e.filetype < 3

compared-FoundTyped :
    (r : ℤ) (d : Dentry) (rest : Option Dentry)
    → d.filetype < 3
    → FoundTyped rest
    → FoundTyped (elim r as (λ _. Option Dentry) [ pos zero ↦ some d | _ ↦ rest ])
compared-FoundTyped (pos zero) d rest h k = h
compared-FoundTyped (pos (suc n)) d rest h k = k
compared-FoundTyped (negsuc n) d rest h k = k

search-FoundTyped :
    (name : List ℕ) (ds : List Dentry) → AllTyped ds → FoundTyped (search_dentries name ds)
unfolding search_dentries
search-FoundTyped name [] h = tt
search-FoundTyped name (d ∷ ds) h = elim (Bool-cases (ltb filename_len (strlen name))) [
  | inl long ↦ rw long tt
  | inr short ↦ rw short (
      compared-FoundTyped (strncmp (dentry_bytes d) name (compare_len name d)) d
        (search_dentries name ds) h.0 (search-FoundTyped name ds h.1))
]

-- A directory whose entries have the types finds such entries only.
pub entries-IsTyped : (fs : Image) → AllTyped fs.direntries → IsTyped fs
unfolding read_dentry_by_name
entries-IsTyped fs h name e found = subst FoundTyped found (elim (Bool-cases (strlen name == 0)) [
  | inl empty ↦ rw empty tt
  | inr some_name ↦ rw some_name (
      search-FoundTyped name (take dir_entries fs.direntries)
        (take-AllTyped dir_entries fs.direntries h))
])
