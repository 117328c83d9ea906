-- ===== src/FileSys/Lookup.antt =====
-- read_dentry_by_name and read_dentry_by_index against a search over names.
use linux_like_os_project.Prelude.{
  ℕ, zero, suc, ◌≤◌, ◌<◌, ◌≡◌, refl, sym, ◌∙◌, ap, ◌↔◌, List, [], ◌∷◌, ◌++◌, Option, none, some,
  arith, ltb, ◌==◌, if◌then◌else◌, take, length, Bool, true, false, ◌&&◌,
}
use linux_like_os_project.Prelude.Int.{pos}
use linux_like_os_project.Text.{strlen, strncmp}
use linux_like_os_project.Text.Length.{string_of, string_of-take}
use linux_like_os_project.Text.Compare.{Bytes, strncmp-zero_iff}
use linux_like_os_project.FileSys.{
  Dentry, Image, filename_len, dir_entries, le_bytes, dentry_bytes, compare_len, search_dentries,
  read_dentry_by_name,
}

-- An entry as it stands on a disk: 32 bytes of name, and bytes all through.
pub record IsDentry (d : Dentry) : Type 0 where
  pub size : length d.filename ≡ filename_len
  pub name_bytes : Bytes d.filename
  pub reserved_bytes : Bytes d.reserved

-- The name of an entry: its 32 bytes up to the first zero, if there is one.
unfoldable pub name_of : Dentry → List ℕ
name_of d = string_of d.filename

-- Equality of strings.
unfoldable pub same : List ℕ → List ℕ → Bool
same [] [] = true
same [] (d ∷ t) = false
same (c ∷ s) [] = false
same (c ∷ s) (d ∷ t) = (c == d) && same s t

pub same_iff : (s t : List ℕ) → (same s t ≡ true) ↔ (s ≡ t)
unfolding same
same_iff [] [] = ((λ _. refl), (λ _. refl))
same_iff [] (d ∷ t) = ground arith
same_iff (c ∷ s) [] = ground arith
same_iff (c ∷ s) (d ∷ t) = ground (arith, same_iff s t)

-- The first entry with the name.
unfoldable pub find_name : List ℕ → List Dentry → Option Dentry
find_name name [] = none
find_name name (d ∷ ds) = if same (name_of d) name then some d else find_name name ds

abbrev pub AllDentry : List Dentry → Type 0
AllDentry [] = Unit {0}
AllDentry (d ∷ ds) = IsDentry d × AllDentry ds

Bytes-append : (s t : List ℕ) → Bytes s → Bytes t → Bytes (s ++ t)
Bytes-append [] t h k = k
Bytes-append (c ∷ s) t h k = (h.0, Bytes-append s t h.1 k)

Bytes-le_bytes : (w : ℕ) → Bytes (le_bytes w)
Bytes-le_bytes w = omega arith

Bytes-dentry_bytes : (d : Dentry) → IsDentry d → Bytes (dentry_bytes d)
Bytes-dentry_bytes d h =
    Bytes-append d.filename (le_bytes d.filetype ++ (le_bytes d.inode_num ++ d.reserved))
      h.name_bytes
      (Bytes-append (le_bytes d.filetype) (le_bytes d.inode_num ++ d.reserved)
        (Bytes-le_bytes d.filetype)
        (Bytes-append (le_bytes d.inode_num) d.reserved (Bytes-le_bytes d.inode_num)
          h.reserved_bytes))

take-append : (s t : List ℕ) (n : ℕ) → length s ≡ n → take n (s ++ t) ≡ s
take-append [] t zero h = refl
take-append [] t (suc n) h = absurd (omega arith)
take-append (c ∷ s) t zero h = absurd (omega arith)
take-append (c ∷ s) t (suc n) h = ap (λ r. c ∷ r) (take-append s t n (omega arith))

-- A string that ends within the first n bytes is the same string in those bytes.
string_of-take_both :
    (s : List ℕ) (n m : ℕ) → strlen s ≤ n → n ≤ m → string_of (take n s) ≡ string_of (take m s)
string_of-take_both s n m h k = string_of-take n s h ∙ sym (string_of-take m s (omega arith))

-- The bytes that are compared hold the whole name, of the entry and of the argument.
compare_len-name :
    (fname : List ℕ) (d : Dentry)
    → IsDentry d
    → strlen fname ≤ filename_len
    → string_of (take (compare_len fname d) (dentry_bytes d)) ≡ name_of d
unfolding compare_len name_of
compare_len-name fname d h k =
    whole _ refl ∙ ap string_of (take-append d.filename _ filename_len h.size)
  where
    whole :
        (n : ℕ)
        → compare_len fname d ≡ n
        → string_of (take n (dentry_bytes d)) ≡ string_of (take filename_len (dentry_bytes d))
    whole n e = ground (arith, string_of-take_both (dentry_bytes d) n filename_len)

compare_len-fname :
    (fname : List ℕ) (d : Dentry)
    → strlen fname ≤ filename_len
    → string_of (take (compare_len fname d) fname) ≡ string_of fname
compare_len-fname fname d k = string_of-take (compare_len fname d) fname long
  where
    long : strlen fname ≤ compare_len fname d
    long = unfold compare_len in ground arith

-- The comparison of one entry decides whether the names are equal.
compare-name :
    (fname : List ℕ) (d : Dentry)
    → IsDentry d
    → Bytes fname
    → strlen fname ≤ filename_len
    → (strncmp (dentry_bytes d) fname (compare_len fname d) ≡ pos 0)
      ↔ (same (name_of d) (string_of fname) ≡ true)
compare-name fname d h b k = ground (
  arith,
  strncmp-zero_iff (dentry_bytes d) fname (compare_len fname d) (Bytes-dentry_bytes d h) b,
  same_iff (name_of d) (string_of fname),
  compare_len-name fname d h k,
  compare_len-fname fname d k,
)

search_dentries-eq-find :
    (fname : List ℕ) (ds : List Dentry)
    → AllDentry ds
    → Bytes fname
    → strlen fname ≤ filename_len
    → search_dentries fname ds ≡ find_name (string_of fname) ds
unfolding search_dentries find_name
search_dentries-eq-find fname [] h b k = refl
search_dentries-eq-find fname (d ∷ ds) h b k =
    ground (arith, compare-name fname d h.0 b k, search_dentries-eq-find fname ds h.1 b k)

search_dentries_long :
    (fname : List ℕ) (ds : List Dentry)
    → filename_len < strlen fname
    → search_dentries fname ds ≡ none
unfolding search_dentries
search_dentries_long fname [] k = refl
search_dentries_long fname (d ∷ ds) k = ground arith

-- On a directory of well-formed entries and a name of bytes, read_dentry_by_name fails on an empty
-- name and on one of more than 32 bytes, and otherwise returns the first of the 63 slots whose name
-- is the argument, compared over the whole of both names, or fails if no slot has that name.
pub read_dentry_by_name-eq-find :
    (fs : Image) (fname : List ℕ)
    → AllDentry (take dir_entries fs.direntries)
    → Bytes fname
    → read_dentry_by_name fs fname ≡ (
        if strlen fname == 0
        then none
        else (if ltb filename_len (strlen fname)
            then none
            else find_name (string_of fname) (take dir_entries fs.direntries)))
unfolding read_dentry_by_name
read_dentry_by_name-eq-find fs fname h b = ground (
  arith,
  search_dentries-eq-find fname (take dir_entries fs.direntries) h b,
  search_dentries_long fname (take dir_entries fs.direntries),
)
