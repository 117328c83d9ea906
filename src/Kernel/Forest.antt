-- ===== src/Kernel/Forest.antt =====
-- The processes of student-distrib/syscalls.c as three stacks, one for each terminal: system_execute starts
-- a process on top of one, and system_halt takes the top of one away. The numbers in use are those whose
-- entry in cur_processes is not 0.
pub mod Change
pub mod Pop
use mathlib.Core.Path.{subst}
use linux_like_os_project.Prelude.{
  ℕ, ◌<◌, ◌≤◌, ◌≡◌, ◌≢◌, ◌+◌, ◌⊎◌, inl, inr, refl, sym, ap, ◌∙◌, List, [], ◌∷◌, zero, suc, arith,
  ◌==◌, ==_iff, if◌then◌else◌, get_or, get_or-set, set, length, length-set, Bool-cases, ltb, ltb→lt,
}
use linux_like_os_project.Paging.{num_processes}
use linux_like_os_project.Kernel.{base_shell_parent}
use linux_like_os_project.Kernel.Descriptors.{if_self, if_ne}

abbrev pub Taken : List ℕ → ℕ → Type 0
Taken ps p = get_or ps p 0 ≢ 0

-- `n` terminals have processes. Each has a top, a process in use that no process in use has as its parent;
-- no two have the same; and a process in use has a parent in use, which is no other's, unless it is a base
-- shell.
pub record IsForest (n : ℕ) (ps : List ℕ) (top parent : ℕ → ℕ) : Type 0 where
  pub count : length ps ≡ num_processes
  pub taken : (i : ℕ) → i < n → Taken ps (top i)
  pub apart : (i j : ℕ) → i < n → j < n → i ≢ j → top i ≢ top j
  pub rooted : (p : ℕ) → Taken ps p → (parent p ≡ base_shell_parent) ⊎ Taken ps (parent p)
  pub leaf : (p i : ℕ) → Taken ps p → i < n → parent p ≢ top i
  pub one_child :
      (p q : ℕ)
      → Taken ps p
      → Taken ps q
      → p ≢ q
      → parent p ≢ base_shell_parent
      → parent p ≢ parent q

get_or-past : (ps : List ℕ) (p : ℕ) → length ps ≤ p → get_or ps p 0 ≡ 0
get_or-past [] p h = refl
get_or-past (x ∷ ps) zero h = absurd (omega arith)
get_or-past (x ∷ ps) (suc p) h = get_or-past ps p (omega arith)

pub get_or-inside : (ps : List ℕ) (p : ℕ) → p < length ps → get_or ps p 0 ≡ get_or ps p 1
get_or-inside [] p h = absurd (omega arith)
get_or-inside (x ∷ ps) zero h = refl
get_or-inside (x ∷ ps) (suc p) h = get_or-inside ps p (omega arith)

pub Taken-small : (ps : List ℕ) (p : ℕ) → length ps ≡ num_processes → Taken ps p → p < num_processes
Taken-small ps p l t = elim (Bool-cases (ltb p num_processes)) [
  | inl e ↦ ltb→lt _ _ e
  | inr ne ↦ absurd (t (get_or-past ps p (ground (arith, l, ne))))
]

set_ne :
    (ps : List ℕ) {i q : ℕ} (v : ℕ)
    → i < length ps
    → i ≢ q
    → get_or (set ps i v) q 0 ≡ get_or ps q 0
set_ne ps v h ne = get_or-set ps _ _ v 0 h ∙ if_ne _ _ ne

set_self : (ps : List ℕ) (i v : ℕ) → i < length ps → get_or (set ps i v) i 0 ≡ v
set_self ps i v h = get_or-set ps i i v 0 h ∙ if_self i _ _

-- A number is taken, or was.
pub Taken-cases :
    (ps : List ℕ) (pid p : ℕ) → pid < length ps → Taken (set ps pid 1) p → (pid ≡ p) ⊎ Taken ps p
Taken-cases ps pid p h t = elim (Bool-cases (pid == p)) [
  | inl e ↦ inl ((==_iff _ _).0 e)
  | inr ne ↦ inr (λ z. t (set_ne ps 1 h (ground (arith, ne)) ∙ z))
]

-- A number that is still in use after another one is freed.
pub freed-cases :
    (ps : List ℕ) (pid p : ℕ) → pid < length ps → Taken (set ps pid 0) p → (pid ≢ p) × Taken ps p
freed-cases ps pid p h t = elim (Bool-cases (pid == p)) [
  | inl e ↦
      absurd
        (t (subst (λ q. get_or (set ps pid 0) q 0 ≡ 0) ((==_iff _ _).0 e) (set_self ps pid 0 h)))
  | inr ne ↦ let other : pid ≢ p = ground (arith, ne) in (other, λ z. t (set_ne ps 0 h other ∙ z))
]

pub still-Taken :
    (ps : List ℕ) (pid v p : ℕ) → pid < length ps → pid ≢ p → Taken ps p → Taken (set ps pid v) p
still-Taken ps pid v p h ne t z = t (sym (set_ne ps v h ne) ∙ z)

pub now-Taken : (ps : List ℕ) (pid : ℕ) → pid < length ps → Taken (set ps pid 1) pid
now-Taken ps pid h z = absurd (omega (arith, set_self ps pid 1 h, z))

-- The same numbers, tops and parents under other names.
pub IsForest-same :
    {n : ℕ} {ps ps' : List ℕ} {top top' parent parent' : ℕ → ℕ}
    → ps' ≡ ps
    → ((i : ℕ) → top' i ≡ top i)
    → ((p : ℕ) → parent' p ≡ parent p)
    → IsForest n ps top parent
    → IsForest n ps' top' parent'
IsForest-same {n} {ps} {ps'} {top} {top'} {parent} {parent'} e t q f =
    subst (λ s. IsForest n s top' parent') (sym e)
      (record {
        count = f.count;
        taken = λ i h. subst (Taken ps) (sym (t i)) (f.taken i h);
        apart = λ i j a b ne x. f.apart i j a b ne (sym (t i) ∙ x ∙ t j);
        rooted =
            λ p h. subst (λ r. (r ≡ base_shell_parent) ⊎ Taken ps r) (sym (q p)) (f.rooted p h);
        leaf = λ p i h a x. f.leaf p i h a (sym (q p) ∙ x ∙ t i);
        one_child = λ p r a b ne other x.
            f.one_child p r a b ne (λ y. other (q p ∙ y)) (sym (q p) ∙ x ∙ q r);
      })
