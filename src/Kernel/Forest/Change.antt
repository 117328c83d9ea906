-- ===== src/Kernel/Forest/Change.antt =====
-- A process that starts, on top of a terminal's or as a base shell.
use mathlib.Core.Path.{subst}
use linux_like_os_project.Prelude.{
  ℕ, ◌+◌, ◌<◌, ◌≡◌, ◌≢◌, ◌⊎◌, inl, inr, refl, sym, ◌∙◌, List, arith, ◌==◌, ==_iff, if◌then◌else◌,
  get_or, set, length, length-set, Bool-cases,
}
use linux_like_os_project.Paging.{num_processes}
use linux_like_os_project.Kernel.{base_shell_parent}
use linux_like_os_project.Kernel.Descriptors.{if_self, if_ne}
use linux_like_os_project.Kernel.Forest.{
  Taken, IsForest, Taken-small, Taken-cases, still-Taken, now-Taken,
}

-- A function changed at one number.
abbrev pub put : ℕ → ℕ → (ℕ → ℕ) → ℕ → ℕ
put i v f j = if i == j then v else f j

pub put_self : (i v : ℕ) (f : ℕ → ℕ) → put i v f i ≡ v
put_self i v f = if_self i _ _

pub put_ne : {i j : ℕ} (v : ℕ) (f : ℕ → ℕ) → i ≢ j → put i v f j ≡ f j
put_ne v f h = if_ne _ _ h

pub eq-cases : (i j : ℕ) → (i ≡ j) ⊎ (i ≢ j)
eq-cases i j = elim (Bool-cases (i == j)) [
  | inl e ↦ inl ((==_iff _ _).0 e)
  | inr ne ↦ inr (ground (arith, ne))
]

module _ (n pid : ℕ) (ps : List ℕ) (top parent : ℕ → ℕ) where
  -- A number that was free is no process's parent.
  parent-fresh :
      IsForest n ps top parent
      → pid < num_processes
      → get_or ps pid 0 ≡ 0
      → (p : ℕ) → Taken ps p
      → parent p ≢ pid
  parent-fresh f h free p t e = elim (f.rooted p t) [
    | inl base ↦ omega (arith, h, base, e)
    | inr u ↦ u (subst (λ q. get_or ps q 0 ≡ 0) (sym e) free)
  ]

  -- The tops, once terminal `s` has the new process.
  put-Taken :
      (s : ℕ) (m : ℕ)
      → length ps ≡ num_processes
      → pid < num_processes
      → get_or ps pid 0 ≡ 0
      → ((i : ℕ) → i < m → s ≢ i → Taken ps (top i))
      → (i : ℕ) → i < m
      → Taken (set ps pid 1) (put s pid top i)
  put-Taken s m l h free t i a = elim (eq-cases s i) [
    | inl e ↦
        subst (λ j. Taken (set ps pid 1) (put s pid top j)) e
          (subst (Taken (set ps pid 1)) (sym (put_self s pid top))
            (now-Taken ps pid (omega (arith, l, h))))
    | inr ne ↦ subst (Taken (set ps pid 1)) (sym (put_ne pid top ne)) (
        still-Taken ps pid 1 (top i) (omega (arith, l, h))
          (λ e. t i a ne (subst (λ q. get_or ps q 0 ≡ 0) e free)) (t i a ne))
  ]

  fresh_ne : get_or ps pid 0 ≡ 0 → (p : ℕ) → Taken ps p → pid ≢ p
  fresh_ne free p t e = t (subst (λ q. get_or ps q 0 ≡ 0) e free)

  -- A new process `pid` with the parent `r`, on terminal `s` of `m`.
  module _ (s m r : ℕ) where
    -- What the parent has to be.
    pub record IsParent : Type 0 where
      pub within : (i : ℕ) → i < m → s ≢ i → i < n
      pub root : (r ≡ base_shell_parent) ⊎ Taken ps r
      pub apart : (i : ℕ) → i < m → s ≢ i → r ≢ top i
      pub childless : r ≢ base_shell_parent → (p : ℕ) → Taken ps p → parent p ≢ r

    module _ (f : IsForest n ps top parent) (h : pid < num_processes) (free : get_or ps pid 0 ≡ 0)
        (v : IsParent) where
      private_top : (i : ℕ) → i < m → s ≢ i → pid ≢ top i
      private_top i a ne = fresh_ne free (top i) (f.taken i (v.within i a ne))

      grown-apart : (i j : ℕ) → i < m → j < m → i ≢ j → put s pid top i ≢ put s pid top j
      grown-apart i j a b ne x = elim (eq-cases s i) [
        | inl e ↦
            let other : s ≢ j = λ y. ne (sym e ∙ y) in
            private_top j b other (
              sym (put_self s pid top)
              ∙ subst (λ k. put s pid top k ≡ put s pid top j) (sym e) x
              ∙ put_ne pid top other)
        | inr u ↦ elim (eq-cases s j) [
          | inl e ↦ private_top i a u (
              sym (put_self s pid top)
              ∙ subst (λ k. put s pid top k ≡ put s pid top i) (sym e) (sym x)
              ∙ put_ne pid top u)
          | inr w ↦
              f.apart i j (v.within i a u) (v.within j b w) ne
                (sym (put_ne pid top u) ∙ x ∙ put_ne pid top w)
        ]
      ]

      keep : (p : ℕ) → Taken ps p → Taken (set ps pid 1) p
      keep p t = still-Taken ps pid 1 p (omega (arith, f.count, h)) (fresh_ne free p t) t

      old_parent : (p : ℕ) → Taken ps p → put pid r parent p ≡ parent p
      old_parent p t = put_ne r parent (fresh_ne free p t)

      -- What holds of the new process and of the old ones holds of all.
      each :
          (P : ℕ → ℕ → Type 0)
          → P pid r
          → ((p : ℕ) → Taken ps p → P p (parent p))
          → (p : ℕ) → Taken (set ps pid 1) p
          → P p (put pid r parent p)
      each P new old p t = elim (Taken-cases ps pid p (omega (arith, f.count, h)) t) [
        | inl e ↦
            subst (λ q. P q (put pid r parent q)) e
              (subst (P pid) (sym (put_self pid r parent)) new)
        | inr u ↦ subst (P p) (sym (old_parent p u)) (old p u)
      ]

      grown-rooted :
          (p : ℕ)
          → Taken (set ps pid 1) p
          → (put pid r parent p ≡ base_shell_parent) ⊎ Taken (set ps pid 1) (put pid r parent p)
      grown-rooted =
          each (λ _ q. (q ≡ base_shell_parent) ⊎ Taken (set ps pid 1) q) (kept r v.root)
            (λ p t. kept (parent p) (f.rooted p t))
        where
          kept :
              (q : ℕ)
              → (q ≡ base_shell_parent) ⊎ Taken ps q
              → (q ≡ base_shell_parent) ⊎ Taken (set ps pid 1) q
          kept q (inl e) = inl e
          kept q (inr t) = inr (keep q t)

      -- The new process is no parent.
      root_ne : (q : ℕ) → (q ≡ base_shell_parent) ⊎ Taken ps q → pid ≢ q
      root_ne q (inl e) x = omega (arith, h, e, x)
      root_ne q (inr t) x = fresh_ne free q t x

      grown-leaf : (p i : ℕ) → Taken (set ps pid 1) p → i < m → put pid r parent p ≢ put s pid top i
      grown-leaf p i t a = each (λ _ q. q ≢ put s pid top i) new old p t
        where
          at : (q : ℕ) → pid ≢ q → (s ≢ i → q ≢ top i) → q ≢ put s pid top i
          at q x y z = elim (eq-cases s i) [
            | inl e ↦ x (sym (z ∙ subst (λ k. put s pid top k ≡ pid) e (put_self s pid top)))
            | inr ne ↦ y ne (z ∙ put_ne pid top ne)
          ]

          new : r ≢ put s pid top i
          new = at r (root_ne r v.root) (λ ne. v.apart i a ne)

          old : (p : ℕ) → Taken ps p → parent p ≢ put s pid top i
          old p t =
              at (parent p) (root_ne (parent p) (f.rooted p t))
                (λ ne. f.leaf p i t (v.within i a ne))

      grown-one_child :
          (p q : ℕ)
          → Taken (set ps pid 1) p
          → Taken (set ps pid 1) q
          → p ≢ q
          → put pid r parent p ≢ base_shell_parent
          → put pid r parent p ≢ put pid r parent q
      grown-one_child p q t u =
          each (λ k x. k ≢ q → x ≢ base_shell_parent → x ≢ put pid r parent q)
            (each (λ k x. pid ≢ k → r ≢ base_shell_parent → r ≢ x) (λ ne. absurd (ne refl))
              (λ k w ne base e. v.childless base k w (sym e)) q u)
            (λ k w.
              each (λ l x. k ≢ l → parent k ≢ base_shell_parent → parent k ≢ x)
                (λ ne base e. v.childless (λ y. base (e ∙ y)) k w e)
                (λ l z ne base. f.one_child k l w z ne base) q u)
            p t

      pub grown : IsForest m (set ps pid 1) (put s pid top) (put pid r parent)
      grown = record {
        count = length-set ps pid 1 ∙ f.count;
        taken = put-Taken s m f.count h free (λ i a ne. f.taken i (v.within i a ne));
        apart = grown-apart;
        rooted = grown-rooted;
        leaf = grown-leaf;
        one_child = grown-one_child;
      }

module _ {n : ℕ} {ps : List ℕ} {top parent : ℕ → ℕ} (f : IsForest n ps top parent) where
  -- A process on top of terminal `s`'s.
  pub push-IsForest :
      (pid s : ℕ)
      → pid < num_processes
      → get_or ps pid 0 ≡ 0
      → s < n
      → IsForest n (set ps pid 1) (put s pid top) (put pid (top s) parent)
  push-IsForest pid s h free a = grown n pid ps top parent s n (top s) f h free (record {
    within = λ i b ne. b;
    root = inr (f.taken s a);
    apart = λ i b ne. f.apart s i a b ne;
    childless = λ ne p t. f.leaf p s t a;
  })

  -- The base shell of the next terminal.
  pub base-IsForest :
      (pid : ℕ)
      → pid < num_processes
      → get_or ps pid 0 ≡ 0
      → IsForest (n + 1) (set ps pid 1) (put n pid top) (put pid base_shell_parent parent)
  base-IsForest pid h free =
      grown n pid ps top parent n (n + 1) base_shell_parent f h free (record {
        within = λ i b ne. omega arith;
        root = inl refl;
        apart = λ i b ne e.
            let small = Taken-small ps (top i) f.count (f.taken i (omega arith)) in
            omega (arith, small, e);
        childless = λ ne. absurd (ne refl);
      })
